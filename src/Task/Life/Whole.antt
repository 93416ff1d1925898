-- ===== src/Task/Life/Whole.antt =====
-- The calls of monoio/src/task/harness.rs that are several steps of a task's life, run through.
use monoio.Prelude.{◌^◌, ◌≤◌, ◌≡◌, Bool, true, false, none, some, if◌then◌else◌, ok, arith}
use monoio.Task.State.Flags.{Flags}
use monoio.Task.State.Spec.{set_waker, clear_waker, step}
use monoio.Task.Cell.{
  StateOps, Build, finished, consumed, Poll, pending, ready, World, M, ◌>>=◌, ◌>>◌, catch_unwind,
}
use monoio.Task.Harness.{run, begin_poll, park, end_ready, announce, drop_task}
use monoio.Task.Join.{try_read_output}
use monoio.Task.Life.Meant.{matches}
use monoio.Task.Life.Through.{map_world, Implements}

module _ {S W T : Type 0} (ops : StateOps S) where
  abbrev pub end_poll : Poll T → M S W T (Unit {0})
  end_poll pending = park ops
  end_poll (ready v) = do g ← end_ready ops v; catch_unwind (announce ops g); drop_task ops

  pub run-parts :
      (future : M S W T (Poll T)) (w : World S W T)
      → run ops future w ≡ (begin_poll ops >>= λ _. future >>= end_poll) w
  unfolding run begin_poll park end_ready
  run-parts future w = ground arith

module _ {S W T : Type 0} (build : Build) (ops : StateOps S) (encode : Flags → S)
    (impl : Implements build.debug ops encode) (same : W → W → Bool) (x : W) (w : World Flags W T)
    (e : w.freed ≡ false) (h : w.state.join_interest ≡ true) where
  abbrev pub uncomplained : Flags
  uncomplained = record w.state { join_waker = false }

  pub try_read-ready :
      (v : T)
      → w.state.complete ≡ true
      → w.stage ≡ finished v
      → try_read_output ops build same x (map_world encode w)
        ≡ ok (ready v, map_world encode (record w { stage = consumed }))
  unfolding try_read_output
  try_read-ready v c s =
      ground (arith, impl.interested-encode w.state, impl.complete-encode w.state)

  -- The waker stays if it is as good, and is put in its place otherwise.
  abbrev pub registered : World Flags W T
  registered = record w {
    waker =
        if w.state.join_waker then (if matches same w.waker x then w.waker else some x) else some x;
    state = record w.state { join_waker = true };
  }

  pub try_read-pending :
      w.state.complete ≡ false
      → w.state.refs ≤ 2 ^ 58
      → (w.state.join_waker ≡ true → w.waker ≡ none → ⊥)
      → try_read_output ops build same x (map_world encode w)
        ≡ ok (pending, map_world encode registered)
  unfolding try_read_output step
  try_read-pending c room p = ground (
    arith,
    impl.interested-encode w.state,
    impl.complete-encode w.state,
    impl.waker-encode w.state,
    impl.run-encode clear_waker w.state,
    impl.run-encode set_waker w.state,
    impl.interested-encode uncomplained,
    impl.waker-encode uncomplained,
    impl.run-encode set_waker uncomplained,
  )
