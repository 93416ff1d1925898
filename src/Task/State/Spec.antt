-- ===== src/Task/State/Spec.antt =====
-- The transitions of a task's state as the module means them: on the flags and the count, with no
-- word, no mask and no loop. `Op` names each atomic operation of monoio/src/task/state.rs.
use monoio.Prelude.{
  ◌+◌, ◌-◌, ◌%◌, ◌^◌, Bool, true, false, not, ◌&&◌, ◌||◌, leb, ◌==◌, if◌then◌else◌, Outcome, ok,
  panic, assert, debug_assert, ◌>>◌,
}
use monoio.Task.State.{
  TransitionToIdle, idle, idle_notified, TransitionToNotified, do_nothing, submit,
}
use monoio.Task.State.Flags.{Flags}

pub data Op : Type 0 where
  to_running to_idle to_complete to_notified_without_submit to_notified : Op
  drop_join_fast drop_join_interest set_waker clear_waker inc dec : Op

-- What an operation answers; `updated` and `refused` are the two sides of an `UpdateResult`.
pub data Reply (S : Type 0) : Type 0 where
  done : Reply S
  idled : TransitionToIdle → Reply S
  completed : S → Reply S
  marked : Bool → Reply S
  notifies : TransitionToNotified → Reply S
  updated refused : S → Reply S
  released : Bool → Reply S

abbrev pub Result : Type 0 → Type 0
Result S = Outcome (Reply S × S)

abbrev pub is_initial : Flags → Bool
is_initial f =
    not f.running
    && not f.complete
    && f.notified
    && f.join_interest
    && not f.join_waker
    && f.refs == 2

-- An update that the completion of the task forbids.
abbrev unless_complete : Flags → Flags → Result Flags
unless_complete f g = ok (if f.complete then (refused f, f) else (updated g, g))

unfoldable pub step : Bool → Op → Flags → Result Flags
step debug to_running f = do
  debug_assert debug f.notified
  debug_assert debug (not f.running && not f.complete)
  ok (done, record f { running = true; notified = false })
step debug to_idle f = do
  debug_assert debug f.running
  ok (idled (if f.notified then idle_notified else idle), record f { running = false })
step debug to_complete f = do
  let g = record f { running = not f.running; complete = not f.complete }
  debug_assert debug f.running
  debug_assert debug (not f.complete)
  ok (completed g, g)
step debug to_notified_without_submit f =
    if f.running
    then ok (marked true, record f { notified = true })
    else ok (marked (f.complete || f.notified), f)
step debug to_notified f =
    if f.running
    then ok (notifies do_nothing, record f { notified = true })
    else if f.complete || f.notified
    then ok (notifies do_nothing, f)
    else ok (notifies submit, record f { notified = true })
step debug drop_join_fast f =
    let g = record f { join_interest = false; refs = 1 } in
    ok (if is_initial f then (updated g, g) else (refused f, f))
step debug drop_join_interest f = do
  assert f.join_interest
  unless_complete f (record f { join_interest = false })
step debug set_waker f = do
  assert f.join_interest
  assert (not f.join_waker)
  unless_complete f (record f { join_waker = true })
step debug clear_waker f = do
  assert f.join_interest
  assert f.join_waker
  unless_complete f (record f { join_waker = false })
step debug inc f = if leb (2 ^ 58) f.refs then panic else ok (done, record f { refs = f.refs + 1 })
step debug dec f = do
  debug_assert debug (leb 1 f.refs)
  ok (released (f.refs == 1), record f { refs = (f.refs + 2 ^ 59 - 1) % 2 ^ 59 })
