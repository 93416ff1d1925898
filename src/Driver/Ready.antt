-- ===== src/Driver/Ready.antt =====
-- monoio/src/driver/ready.rs: sets of readiness events, as the bits of an 8-bit number.
pub mod Laws
use monoio.Prelude.{ℕ, ◌+◌, ◌-◌, ◌^◌, bit_and, bit_or, Bool, true, false, not, ◌==◌, if◌then◌else◌}

abbrev pub empty : ℕ
empty = 0

abbrev pub readable : ℕ
readable = 0b1

abbrev pub writable : ℕ
writable = 0b10

abbrev pub read_closed : ℕ
read_closed = 0b100

abbrev pub write_closed : ℕ
write_closed = 0b1000

abbrev pub read_canceled : ℕ
read_canceled = 0b10000

abbrev pub write_canceled : ℕ
write_canceled = 0b100000

abbrev pub canceled : ℕ
canceled = bit_or read_canceled write_canceled

abbrev pub read_all : ℕ
read_all = bit_or (bit_or readable read_closed) read_canceled

abbrev pub write_all : ℕ
write_all = bit_or (bit_or writable write_closed) write_canceled

-- `self - other`
abbrev pub without : ℕ → ℕ → ℕ
without ready other = bit_and ready (2 ^ 8 - 1 - other)

abbrev pub is_empty : ℕ → Bool
is_empty ready = ready == empty

unfoldable pub is_readable : ℕ → Bool
is_readable ready = not (is_empty (bit_and ready read_all))

unfoldable pub is_writable : ℕ → Bool
is_writable ready = not (is_empty (bit_and ready write_all))

unfoldable pub contains : ℕ → ℕ → Bool
contains ready other = bit_and ready other == other

unfoldable pub is_read_closed : ℕ → Bool
is_read_closed ready = contains ready read_closed

unfoldable pub is_write_closed : ℕ → Bool
is_write_closed ready = contains ready write_closed

unfoldable pub is_canceled : ℕ → Bool
is_canceled ready = not (is_empty (bit_and ready canceled))

-- What an event of mio says of itself.
pub record Event : Type 0 where
  pub says_readable : Bool
  pub says_writable : Bool
  pub says_read_closed : Bool
  pub says_write_closed : Bool

unfoldable pub from_mio : Event → ℕ
from_mio event =
    let ready = if event.says_readable then bit_or empty readable else empty in
    let ready = if event.says_writable then bit_or ready writable else ready in
    let ready = if event.says_read_closed then bit_or ready read_closed else ready in
    if event.says_write_closed then bit_or ready write_closed else ready

pub data Direction : Type 0 where
  read : Direction
  write : Direction

unfoldable pub mask : Direction → ℕ
mask read = bit_or (bit_or readable read_closed) read_canceled
mask write = bit_or (bit_or writable write_closed) write_canceled
