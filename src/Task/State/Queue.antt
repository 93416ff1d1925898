-- ===== src/Task/State/Queue.antt =====
-- A task and its run queue: every interleaving of the executor's polls, of wakers on any thread and
-- of the join handle, as steps on the task's state (monoio/src/task/harness.rs calls the
-- operations this way).
pub mod Meant
mod Lift
pub mod Words
use monoio.Prelude.{ℕ, ◌+◌, ◌-◌, ◌<◌, ◌≡◌, ◌⊎◌, Bool, true, false, ok}
use monoio.Task.State.{idle, idle_notified, do_nothing, submit}
use monoio.Task.State.Spec.{
  Op, to_running, to_idle, to_complete, to_notified_without_submit, to_notified, Reply, idled,
  marked, notifies, Result,
}

-- A task whose state is kept as an `S`: the flags of the specification, or the word of the code.
-- `queued` counts its handles that wait in a run queue.
pub record System (S : Type 0) : Type 0 where
  pub state : S
  pub queued : ℕ
  pub polling : Bool

-- The operations that only the join handle and the reference counting use.
abbrev pub IsHandleOp : Op → Type 0
IsHandleOp to_running = ⊥
IsHandleOp to_idle = ⊥
IsHandleOp to_complete = ⊥
IsHandleOp to_notified_without_submit = ⊥
IsHandleOp to_notified = ⊥
IsHandleOp op = Unit

module _ {S : Type 0} (run : Op → S → Result S) where
  -- `Harness::poll` runs a handle taken from a queue, and queues a new one if it was notified
  -- meanwhile; a waker queues one when it is told to submit.
  pub data Step : System S → System S → Type 0 where
    poll :
        {s : System S} {g : S} {r : Reply S}
        → 0 < s.queued
        → s.polling ≡ false
        → run to_running s.state ≡ ok (r, g)
        → Step s (record { state = g; queued = s.queued - 1; polling = true })
    pend :
        {s : System S} {g : S}
        → s.polling ≡ true
        → run to_idle s.state ≡ ok (idled idle, g)
        → Step s (record { state = g; queued = s.queued; polling = false })
    reschedule :
        {s : System S} {g : S}
        → s.polling ≡ true
        → run to_idle s.state ≡ ok (idled idle_notified, g)
        → Step s (record { state = g; queued = s.queued + 1; polling = false })
    finish :
        {s : System S} {g : S} {r : Reply S}
        → s.polling ≡ true
        → run to_complete s.state ≡ ok (r, g)
        → Step s (record { state = g; queued = s.queued; polling = false })
    wake_submit :
        {s : System S} {g : S}
        → run to_notified s.state ≡ ok (notifies submit, g)
        → Step s (record { state = g; queued = s.queued + 1; polling = s.polling })
    wake_nothing :
        {s : System S} {g : S}
        → run to_notified s.state ≡ ok (notifies do_nothing, g)
        → Step s (record { state = g; queued = s.queued; polling = s.polling })
    wake_remote :
        {s : System S} {g : S} {b : Bool}
        → run to_notified_without_submit s.state ≡ ok (marked b, g)
        → Step s (record { state = g; queued = s.queued; polling = s.polling })
    handle :
        {s : System S} {g : S} {r : Reply S} (op : Op)
        → IsHandleOp op
        → run op s.state ≡ ok (r, g)
        → Step s (record { state = g; queued = s.queued; polling = s.polling })

  pub data Reach (s : System S) : System S → Type 0 where
    here : Reach s s
    next : {t u : System S} → Reach s t → Step t u → Reach s u

-- When `Harness::poll` performs an operation of a poll.
abbrev pub Due : {S : Type 0} → Op → System S → Type 0
Due to_running s = 0 < s.queued
Due to_idle s = s.polling ≡ true
Due to_complete s = s.polling ≡ true
Due _ s = ⊥

-- A spawned task: its first handle is queued.
abbrev pub spawned : {S : Type 0} → S → System S
spawned state = record { state = state; queued = 1; polling = false }

-- The poll that goes on will queue the task when it ends.
abbrev pub WillReschedule : {S : Type 0} → (Op → S → Result S) → System S → S → Type 0
WillReschedule {S} run s g =
    (s.polling ≡ true) × (h : S) × (run to_idle g ≡ ok (idled idle_notified, h))

-- What a wake in the task's own thread leaves to be done: it submits a task that is not queued, or
-- the task is queued already, or the poll that goes on will queue it.
abbrev pub DeliveredHere : {S : Type 0} → (Op → S → Result S) → System S → Type 0
DeliveredHere {S} run s =
    (g : S) × (((run to_notified s.state ≡ ok (notifies submit, g)) × (s.queued ≡ 0))
      ⊎ ((run to_notified s.state ≡ ok (notifies do_nothing, g)) × (s.queued ≡ 1))
      ⊎ ((run to_notified s.state ≡ ok (notifies do_nothing, g)) × WillReschedule run s g))

-- The same for a wake from another thread: where it answers `false`, the wake is sent to the task's
-- own thread, where it submits.
abbrev pub DeliveredAway : {S : Type 0} → (Op → S → Result S) → System S → Type 0
DeliveredAway {S} run s =
    (g : S) × (((run to_notified_without_submit s.state ≡ ok (marked false, g))
        × (s.queued ≡ 0)
        × (h : S) × (run to_notified g ≡ ok (notifies submit, h)))
      ⊎ ((run to_notified_without_submit s.state ≡ ok (marked true, g)) × (s.queued ≡ 1))
      ⊎ ((run to_notified_without_submit s.state ≡ ok (marked true, g)) × WillReschedule run s g))

abbrev pub Delivered : {S : Type 0} → (Op → S → Result S) → System S → Type 0
Delivered run s = DeliveredHere run s × DeliveredAway run s
