-- ===== src/Task/State.antt =====
-- monoio/src/task/state.rs: the state word of a task and its atomic transitions. Each transition
-- is the closure that the code hands to its compare-and-swap loop, or a single read-modify-write.
-- `debug` says whether the build has debug assertions.
pub mod Word
pub mod Flags
pub mod Spec
pub mod Cas
pub mod Refine
pub mod Queue
mod Tests
use monoio.Prelude.{
  ℕ, ◌+◌, ◌-◌, ◌%◌, ◌^◌, bit_and, bit_or, bit_xor, Bool, true, false, not, ◌&&◌, ◌||◌, Option, none,
  some, List, [], ◌∷◌, ltb, leb, ◌==◌, if◌then◌else◌, Outcome, ok, panic, assert, debug_assert,
  ◌>>=◌, ◌>>◌,
}
use Word
use Word.{
  Snapshot, word_size, bit_not, running, complete, join_interest, ref_one, initial_state, is_idle,
  is_notified, is_running, is_complete, is_join_interested, has_join_waker, set_running,
  unset_running, set_notified, unset_notified, unset_join_waker, ref_count,
}

-- `Result<Snapshot, Snapshot>`
pub data UpdateResult : Type 0 where
  updated refused : Snapshot → UpdateResult

-- What a loop's closure asks for: the output, and the word to store, if any.
abbrev pub Update : Type 0 → Type 0
Update T = Outcome (T × Option Snapshot)

-- What a loop did: its output, and the exchange (old and new word) that it made, if any.
abbrev pub Done : Type 0 → Type 0
Done T = Outcome (T × Option (ℕ × ℕ))

module _ {T : Type 0} (f : Snapshot → Update T) where
  -- One attempt at a snapshot: `actual` is what the memory holds at the compare-and-swap, and
  -- `retry` what the loop does if that is another word.
  abbrev attempt : ℕ → ℕ → Done T → T × Option Snapshot → Done T
  attempt curr actual retry (output, none) = ok (output, none)
  attempt curr actual retry (output, some next) =
      if actual == curr then ok (output, some (curr, next)) else retry

  -- `fetch_update_action`, from the loaded word `curr`. The list holds what other threads have
  -- put into the memory by each compare-and-swap; past its end nobody interferes.
  unfoldable pub fetch_update_action : ℕ → List ℕ → Done T
  fetch_update_action curr [] = f curr >>= attempt curr curr panic
  fetch_update_action curr (actual ∷ env) =
      let retry = fetch_update_action actual env in f curr >>= attempt curr actual retry

-- The closure's answer of `fetch_update` in the form of the other loop: `Ok(next)` or `Err(curr)`.
abbrev pub answer : Snapshot → Option Snapshot → UpdateResult × Option Snapshot
answer curr (some next) = (updated next, some next)
answer curr none = (refused curr, none)

unfoldable pub fetch_update :
    (Snapshot → Outcome (Option Snapshot)) → ℕ → List ℕ → Done UpdateResult
unfolding fetch_update_action
fetch_update f = fetch_update_action (λ curr. f curr >>= λ next. ok (answer curr next))

pub data TransitionToIdle : Type 0 where
  idle : TransitionToIdle
  idle_notified : TransitionToIdle

pub data TransitionToNotified : Type 0 where
  do_nothing submit : TransitionToNotified

unfoldable pub new : ℕ
new = initial_state

module _ (debug : Bool) where
  unfoldable pub transition_to_running : Snapshot → Update (Unit {0})
  transition_to_running curr = do
    debug_assert debug (is_notified curr)
    debug_assert debug (is_idle curr)
    ok (tt, some (unset_notified (set_running curr)))

  unfoldable pub transition_to_idle : Snapshot → Update TransitionToIdle
  transition_to_idle curr = do
    debug_assert debug (is_running curr)
    let next = unset_running curr
    ok (if is_notified next then idle_notified else idle, some next)

  -- `fetch_xor` of one word, and the word after it
  unfoldable pub transition_to_complete : Snapshot → Update Snapshot
  transition_to_complete prev = do
    let delta = bit_or running complete
    debug_assert debug (is_running prev)
    debug_assert debug (not (is_complete prev))
    ok (bit_xor prev delta, some (bit_xor prev delta))

unfoldable pub transition_to_notified_without_submit : Snapshot → Update Bool
transition_to_notified_without_submit curr =
    if is_running curr
    then ok (true, some (set_notified curr))
    else if is_complete curr || is_notified curr
    then ok (true, some curr)
    else ok (false, some curr)

unfoldable pub transition_to_notified : Snapshot → Update TransitionToNotified
transition_to_notified curr =
    if is_running curr
    then ok (do_nothing, some (set_notified curr))
    else if is_complete curr || is_notified curr
    then ok (do_nothing, some curr)
    else ok (submit, some (set_notified curr))

unfoldable pub drop_join_handle_fast : Snapshot → Outcome (Option Snapshot)
drop_join_handle_fast curr = ok (
    if curr == initial_state
    then some (bit_and (initial_state - ref_one) (bit_not join_interest))
    else none)

unfoldable pub unset_join_interested : Snapshot → Outcome (Option Snapshot)
unset_join_interested curr = do
  assert (is_join_interested curr)
  ok (if is_complete curr then none else some (Word.unset_join_interested curr))

unfoldable pub set_join_waker : Snapshot → Outcome (Option Snapshot)
set_join_waker curr = do
  assert (is_join_interested curr)
  assert (not (has_join_waker curr))
  ok (if is_complete curr then none else some (Word.set_join_waker curr))

unfoldable pub unset_waker : Snapshot → Outcome (Option Snapshot)
unset_waker curr = do
  assert (is_join_interested curr)
  assert (has_join_waker curr)
  ok (if is_complete curr then none else some (unset_join_waker curr))

-- `fetch_add`, which wraps. The abort past `isize::MAX` ends the process, as a panic does here.
unfoldable pub ref_inc : Snapshot → Update (Unit {0})
ref_inc prev = if ltb (2 ^ 63 - 1) prev then panic else ok (tt, some ((prev + ref_one) % word_size))

-- `fetch_sub`, which wraps; `true` if the task should be released.
unfoldable pub ref_dec : Bool → Snapshot → Update Bool
ref_dec debug prev = do
  debug_assert debug (leb 1 (ref_count prev))
  ok (ref_count prev == 1, some ((prev + word_size - ref_one) % word_size))
