-- ===== src/Task/Waker.antt =====
-- monoio/src/task/waker.rs and the wakes of monoio/src/task/harness.rs.
use monoio.Prelude.{ℕ, Bool, true, false, not, Option, none, some, ◌==◌, if◌then◌else◌}
use monoio.Task.State.{TransitionToNotified, do_nothing, submit}
use monoio.Task.State.Spec.{to_notified_without_submit, to_notified, inc}
use monoio.Task.Cell.{
  StateOps, Build, M, ◌>>=◌, ◌>>◌, ret, fail, bool_of, notified_of, access, atomic, schedule,
  send_waker,
}
use monoio.Task.Harness.{drop_reference}

abbrev default_thread_id : ℕ
default_thread_id = 0

-- `current` is the thread that runs a runtime here, if one does.
unfoldable pub is_remote_task : ℕ → Option ℕ → Bool
is_remote_task owner_id none = true
is_remote_task owner_id (some tid) =
    if owner_id == default_thread_id then true else not (owner_id == tid)

module _ {S W T : Type 0} (ops : StateOps S) (build : Build) (current : Option ℕ) where
  abbrev owner : M S W T ℕ
  owner = access (λ w. (w.owner_id, w))

  -- Without the `sync` feature no waker can go to another thread.
  abbrev send_to_owner : M S W T (Unit {0}) → M S W T (Unit {0})
  send_to_owner count = if build.sync then (do count; send_waker) else fail

  abbrev if_marked : M S W T (Unit {0}) → M S W T (Unit {0}) → Bool → M S W T (Unit {0})
  if_marked keep send true = keep
  if_marked keep send false = send

  abbrev if_submit :
      M S W T (Unit {0}) → M S W T (Unit {0}) → TransitionToNotified → M S W T (Unit {0})
  if_submit keep push do_nothing = keep
  if_submit keep push submit = push

  unfoldable pub wake_by_val : M S W T (Unit {0})
  unfolding atomic schedule send_waker
  wake_by_val = do
    owner_id ← owner
    if is_remote_task owner_id current
        then (do
          b ← (atomic ops to_notified_without_submit >>= bool_of)
          if_marked (drop_reference ops) (send_to_owner (ret tt)) b)
        else (do
          t ← (atomic ops to_notified >>= notified_of)
          if_submit (drop_reference ops) schedule t)

  unfoldable pub wake_by_ref : M S W T (Unit {0})
  unfolding atomic schedule send_waker
  wake_by_ref = do
    owner_id ← owner
    if is_remote_task owner_id current
        then (do
          b ← (atomic ops to_notified_without_submit >>= bool_of)
          if_marked (ret tt) (send_to_owner (atomic ops inc >>= λ _. ret tt)) b)
        else (do
          t ← (atomic ops to_notified >>= notified_of)
          if_submit (ret tt) (atomic ops inc >>= λ _. schedule) t)

module _ {S W T : Type 0} (ops : StateOps S) where
  unfoldable pub clone_waker : M S W T (Unit {0})
  unfolding atomic
  clone_waker = atomic ops inc >>= λ _. ret tt

  unfoldable pub drop_waker : M S W T (Unit {0})
  drop_waker = drop_reference ops
