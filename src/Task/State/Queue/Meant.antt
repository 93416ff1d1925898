-- ===== src/Task/State/Queue/Meant.antt =====
-- The run queue of a task whose state goes through the transitions of the specification.
use monoio.Prelude.{
  ℕ, ◌≡◌, refl, inl, inr, Bool-cases, Bool, true, false, not, ◌&&◌, if◌then◌else◌, ok, arith,
}
use monoio.Task.State.{idle, idle_notified}
use monoio.Task.State.Flags.{Flags}
use monoio.Task.State.Queue.{
  System, IsHandleOp, Step, poll, pend, reschedule, finish, wake_submit, wake_nothing, wake_remote,
  handle, Reach, here, next, Due, Delivered, spawned,
}
use monoio.Task.State.Spec.{
  Op, to_running, to_idle, to_complete, drop_join_fast, drop_join_interest, set_waker, clear_waker,
  inc, dec, Reply, done, idled, completed, step,
}

-- The flags of `INITIAL_STATE`.
abbrev pub initial : Flags
initial = record {
  running = false;
  complete = false;
  notified = true;
  join_interest = true;
  join_waker = false;
  refs = 2;
}

-- An idle task is queued once if it is notified; a running or complete one is not queued.
abbrev pub in_queue : Flags → ℕ
in_queue f = if not f.running && not f.complete && f.notified then 1 else 0

pub record Inv (s : System Flags) : Type 0 where
  pub once : s.queued ≡ in_queue s.state
  pub polled : s.polling ≡ s.state.running
  pub ends : (s.state.running && s.state.complete) ≡ false

handle_keeps :
    (debug : Bool) (op : Op) (f g : Flags) (r : Reply Flags)
    → IsHandleOp op
    → step debug op f ≡ ok (r, g)
    → (g.running ≡ f.running) × (g.complete ≡ f.complete) × (g.notified ≡ f.notified)
unfolding step
handle_keeps debug drop_join_fast f g r h e = ground arith
handle_keeps debug drop_join_interest f g r h e = ground arith
handle_keeps debug set_waker f g r h e = ground arith
handle_keeps debug clear_waker f g r h e = ground arith
handle_keeps debug inc f g r h e = ground arith
handle_keeps debug dec f g r h e = ground arith
handle_keeps debug _ f g r h e = absurd h

module _ (debug : Bool) where
  Step-Inv : {s t : System Flags} → Step (step debug) s t → Inv s → Inv t
  unfolding step
  Step-Inv (poll h p e) v = ground arith
  Step-Inv (pend p e) v = ground arith
  Step-Inv (reschedule p e) v = ground arith
  Step-Inv (finish p e) v = ground arith
  Step-Inv (wake_submit e) v = ground arith
  Step-Inv (wake_nothing e) v = ground arith
  Step-Inv (wake_remote e) v = ground arith
  Step-Inv (handle {s} {g} {r} op h e) v = grind (arith, handle_keeps debug op s.state g r h e)

  -- From its spawn on, a task is queued exactly once while it is idle and notified and not at all
  -- otherwise, is polled exactly while its running bit is set, and is never both running and
  -- complete: whatever the order of polls, wakes and handle operations.
  pub Reach-Inv : {s : System Flags} → Reach (step debug) (spawned initial) s → Inv s
  Reach-Inv here = record { once = refl; polled = refl; ends = refl }
  Reach-Inv (next r st) = Step-Inv st (Reach-Inv r)

  -- In every reachable state the debug assertions of the polling operations hold: a queued handle
  -- can be run, and a running task can be parked or completed, without a panic.
  pub Due-never_asserts :
      {s : System Flags} (op : Op)
      → Reach (step debug) (spawned initial) s
      → Due op s
      → (r : Reply Flags) × (g : Flags) × (step true op s.state ≡ ok (r, g))
  unfolding step
  Due-never_asserts {s} to_running reach q =
      let v = Reach-Inv reach in
      (done, record s.state { running = true; notified = false }, ground arith)
  Due-never_asserts {s} to_idle reach p =
      let v = Reach-Inv reach in
      (
        idled (if s.state.notified then idle_notified else idle),
        record s.state { running = false },
        ground arith,
      )
  Due-never_asserts {s} to_complete reach p =
      let v = Reach-Inv reach in
      let g : Flags = record s.state {
        running = not s.state.running;
        complete = not s.state.complete;
      } in
      (completed g, g, ground arith)
  Due-never_asserts _ reach p = absurd p

  -- No wake of a task that has not completed is lost, from the task's own thread or another.
  pub wake-Delivered :
      {s : System Flags}
      → Reach (step debug) (spawned initial) s
      → s.state.complete ≡ false
      → Delivered (step debug) s
  unfolding step
  wake-Delivered {s} reach unfinished =
      let v = Reach-Inv reach in
      let g : Flags = record s.state { notified = true } in
      let h : Flags = record g { running = false } in
      elim (Bool-cases s.state.running) [
        | inl r ↦ (
          (g, inr (inr (ground arith, (ground arith, h, ground arith)))),
          (g, inr (inr (ground arith, (ground arith, h, ground arith)))),
        )
        | inr r ↦ elim (Bool-cases s.state.notified) [
          | inl n ↦ (
            (g, inr (inl (ground arith, ground arith))),
            (g, inr (inl (ground arith, ground arith))),
          )
          | inr n ↦ (
            (g, inl (ground arith, ground arith)),
            (s.state, inl (ground arith, ground arith, g, ground arith)),
          )
        ]
      ]

  Step-complete :
      {s t : System Flags}
      → Step (step debug) s t
      → Inv s
      → s.state.complete ≡ true
      → t.state.complete ≡ true
  unfolding step
  Step-complete (poll h p e) v c = ground arith
  Step-complete (pend p e) v c = ground arith
  Step-complete (reschedule p e) v c = ground arith
  Step-complete (finish p e) v c = ground arith
  Step-complete (wake_submit e) v c = ground arith
  Step-complete (wake_nothing e) v c = ground arith
  Step-complete (wake_remote e) v c = ground arith
  Step-complete (handle {s} {g} {r} op h e) v c =
      ground (arith, handle_keeps debug op s.state g r h e)

  Reach-complete :
      {s t : System Flags}
      → Inv s
      → Reach (step debug) s t
      → s.state.complete ≡ true
      → Inv t × (t.state.complete ≡ true)
  Reach-complete v here c = (v, c)
  Reach-complete v (next r st) c =
      let (w, d) = Reach-complete v r c in (Step-Inv st w, Step-complete st w d)

  -- A completed task stays complete, and is never queued nor polled again.
  pub complete_for_good :
      {s t : System Flags}
      → Reach (step debug) (spawned initial) s
      → s.state.complete ≡ true
      → Reach (step debug) s t
      → (t.state.complete ≡ true) × (t.queued ≡ 0) × (t.polling ≡ false)
  complete_for_good reach c later =
      let (v, d) = Reach-complete (Reach-Inv reach) later c in ground arith
