-- ===== src/Task/State/Word.antt =====
-- monoio/src/task/state.rs: the bits of a task's state word, and the tests and updates of a
-- `Snapshot` of it. A word is a number below 2 ^ 64 (a 64-bit `usize`).
use monoio.Prelude.{ℕ, ◌-◌, ◌*◌, ◌/◌, ◌^◌, bit_and, bit_or, Bool, ◌==◌}

abbrev pub word_size : ℕ
word_size = 2 ^ 64

-- `!x` of a word
abbrev pub bit_not : ℕ → ℕ
bit_not x = word_size - 1 - x

abbrev pub running : ℕ
running = 1

abbrev pub complete : ℕ
complete = 2

abbrev pub lifecycle_mask : ℕ
lifecycle_mask = 3

abbrev pub notified : ℕ
notified = 4

abbrev pub join_interest : ℕ
join_interest = 8

abbrev pub join_waker : ℕ
join_waker = 16

abbrev pub state_mask : ℕ
state_mask = bit_or (bit_or (bit_or lifecycle_mask notified) join_interest) join_waker

abbrev pub ref_count_mask : ℕ
ref_count_mask = bit_not state_mask

-- `REF_COUNT_MASK.count_zeros()`: the mask has its zeros at the five low bits.
abbrev pub ref_count_shift : ℕ
ref_count_shift = 5

abbrev pub ref_one : ℕ
ref_one = 2 ^ ref_count_shift

abbrev pub initial_state : ℕ
initial_state = bit_or (bit_or (ref_one * 2) join_interest) notified

abbrev pub Snapshot : Type 0
Snapshot = ℕ

unfoldable pub is_idle : Snapshot → Bool
is_idle s = bit_and s (bit_or running complete) == 0

unfoldable pub is_notified : Snapshot → Bool
is_notified s = bit_and s notified == notified

unfoldable pub unset_notified : Snapshot → Snapshot
unset_notified s = bit_and s (bit_not notified)

unfoldable pub set_notified : Snapshot → Snapshot
set_notified s = bit_or s notified

unfoldable pub is_running : Snapshot → Bool
is_running s = bit_and s running == running

unfoldable pub set_running : Snapshot → Snapshot
set_running s = bit_or s running

unfoldable pub unset_running : Snapshot → Snapshot
unset_running s = bit_and s (bit_not running)

unfoldable pub is_complete : Snapshot → Bool
is_complete s = bit_and s complete == complete

unfoldable pub is_join_interested : Snapshot → Bool
is_join_interested s = bit_and s join_interest == join_interest

unfoldable pub unset_join_interested : Snapshot → Snapshot
unset_join_interested s = bit_and s (bit_not join_interest)

unfoldable pub has_join_waker : Snapshot → Bool
has_join_waker s = bit_and s join_waker == join_waker

unfoldable pub set_join_waker : Snapshot → Snapshot
set_join_waker s = bit_or s join_waker

unfoldable pub unset_join_waker : Snapshot → Snapshot
unset_join_waker s = bit_and s (bit_not join_waker)

-- `x >> n` is `x / 2 ^ n`.
unfoldable pub ref_count : Snapshot → ℕ
ref_count s = bit_and s ref_count_mask / 2 ^ ref_count_shift
