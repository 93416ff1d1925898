-- ===== src/Task/Harness.antt =====
-- monoio/src/task/harness.rs and mod.rs: the polls of a task, its completion and its references.
use monoio.Prelude.{true, not, if◌then◌else◌}
use monoio.Task.State.{TransitionToIdle, idle, idle_notified}
use monoio.Task.State.Spec.{to_running, to_idle, to_complete, inc, dec}
use monoio.Task.Cell.{
  StateOps, Poll, bool_of, idle_of, snapshot_of, pending, ready, PollFuture, M, ◌>>=◌, ◌>>◌, ret,
  catch_unwind, modify, atomic, drop_future_or_output, store_output, poll_stage, wake_join,
  schedule, expect_running, after_future,
}

abbrev pub after_idle : TransitionToIdle → PollFuture
after_idle idle = PollFuture.parked
after_idle idle_notified = PollFuture.notified

module _ {S W T : Type 0} (ops : StateOps S) where
  unfoldable pub dealloc : M S W T (Unit {0})
  dealloc = modify (λ w. record w { freed = true })

  unfoldable pub drop_reference : M S W T (Unit {0})
  unfolding atomic dealloc
  drop_reference = do last ← (atomic ops dec >>= bool_of); if last then dealloc else ret tt

  -- `Drop for Task`
  unfoldable pub drop_task : M S W T (Unit {0})
  drop_task = drop_reference

  -- `complete`, after the transition
  unfoldable pub announce : S → M S W T (Unit {0})
  unfolding drop_future_or_output wake_join
  announce snapshot =
      if not (ops.is_join_interested snapshot)
      then drop_future_or_output
      else if ops.has_join_waker snapshot
      then wake_join
      else ret tt

  unfoldable pub transition_to_complete : M S W T S
  unfolding atomic
  transition_to_complete = atomic ops to_complete >>= snapshot_of

  unfoldable pub complete : M S W T (Unit {0})
  unfolding transition_to_complete announce
  complete = transition_to_complete >>= λ snapshot. catch_unwind (announce snapshot)

  abbrev stored_output : Poll T → M S W T (Poll (Unit {0}))
  stored_output pending = ret pending
  stored_output (ready output) = do store_output output; ret (ready tt)

  unfoldable pub poll_future : M S W T (Poll T) → M S W T (Poll (Unit {0}))
  unfolding poll_stage store_output
  poll_future future = poll_stage future >>= stored_output

  abbrev after_poll : Poll (Unit {0}) → M S W T PollFuture
  after_poll (ready _) = ret PollFuture.complete
  after_poll pending = atomic ops to_idle >>= idle_of >>= λ t. ret (after_idle t)

  unfoldable pub poll_inner : M S W T (Poll T) → M S W T PollFuture
  unfolding atomic poll_future
  poll_inner future = do _ ← atomic ops to_running; res ← poll_future future; after_poll res

  -- `poll`, after `poll_inner`
  unfoldable pub conclude : PollFuture → M S W T (Unit {0})
  unfolding atomic schedule complete
  conclude PollFuture.notified = do _ ← atomic ops inc; schedule
  conclude PollFuture.complete = complete
  conclude PollFuture.parked = ret tt

  unfoldable pub poll : M S W T (Poll T) → M S W T (Unit {0})
  unfolding poll_inner conclude
  poll future = poll_inner future >>= conclude

  -- `Task::run`, which consumes the handle
  unfoldable pub run : M S W T (Poll T) → M S W T (Unit {0})
  unfolding poll drop_task
  run future = do poll future; drop_task

  -- `finish`, up to the announcement and then whole
  unfoldable pub finish_with : T → M S W T S
  unfolding atomic store_output transition_to_complete
  finish_with output = do _ ← atomic ops to_running; store_output output; transition_to_complete

  unfoldable pub finish : T → M S W T (Unit {0})
  unfolding finish_with announce
  finish output = finish_with output >>= λ snapshot. catch_unwind (announce snapshot)

  -- The same polls in the parts that other handles may come between: up to the future's own poll,
  -- and from its answer to the snapshot of the completed task, if it is complete.
  unfoldable pub begin_poll : M S W T (Unit {0})
  unfolding atomic expect_running
  begin_poll = do _ ← atomic ops to_running; expect_running

  unfoldable pub park : M S W T (Unit {0})
  unfolding atomic conclude drop_task
  park = do t ← (atomic ops to_idle >>= idle_of); conclude (after_idle t); drop_task

  unfoldable pub end_ready : T → M S W T S
  unfolding after_future store_output transition_to_complete
  end_ready output = do _ ← after_future (ready output); store_output output; transition_to_complete

  unfoldable pub announce_last : S → M S W T (Unit {0})
  unfolding announce drop_task
  announce_last snapshot = do announce snapshot; drop_task
