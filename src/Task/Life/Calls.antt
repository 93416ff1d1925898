-- ===== src/Task/Life/Calls.antt =====
-- What the calls of a handle do, seen through the flags, while the invariant holds.
use monoio.Prelude.{ℕ, ◌+◌, ◌^◌, ◌<◌, ◌≤◌, ◌≡◌, Bool, true, false, Option, some, ok, arith}
use monoio.Task.State.Flags.{Flags}
use monoio.Task.State.Spec.{
  to_running, to_idle, to_complete, to_notified_without_submit, to_notified, drop_join_fast,
  drop_join_interest, set_waker, clear_waker, inc, dec, step,
}
use monoio.Task.Cell.{StateOps, Build, World}
use monoio.Task.Harness.{drop_reference}
use monoio.Task.Waker.{is_remote_task, wake_by_val, wake_by_ref}
use monoio.Task.Life.{
  System, Act, begin, discard, yield, complete, finish, announce, by_ref, by_val, clone, drop,
  receive, lose, poll_join, clear, store, take, fast_drop, slow_drop, release, take_queued,
  take_sent, may_wake, handles, Enabled, perform,
}
use monoio.Task.Life.Through.{map_world, map_system, map_act, Implements}
use monoio.Task.Life.After.{after, dropped, told_world, by_val_world, by_ref_world}
use monoio.Task.Life.Meant.{Inv}

-- Worlds on the way.
abbrev started : {W T : Type 0} → World Flags W T → World Flags W T
started w = record w { state = record w.state { running = true; notified = false } }

abbrev stopped : {W T : Type 0} → World Flags W T → World Flags W T
stopped w = record w { state = record w.state { running = false } }

abbrev requeued : {W T : Type 0} → World Flags W T → World Flags W T
requeued w = record w {
  state = record w.state { running = false; refs = w.state.refs + 1 };
  queue = w.queue + 1;
}

abbrev marked : {W T : Type 0} → World Flags W T → World Flags W T
marked w = record w { state = record w.state { notified = true } }

module _ {S W T : Type 0} (build : Build) (ops : StateOps S) (encode : Flags → S)
    (impl : Implements build.debug ops encode) where
  pub drop_reference-dropped :
      (w : World Flags W T)
      → w.freed ≡ false
      → 0 < w.state.refs
      → w.state.refs ≤ 2 ^ 58
      → drop_reference ops (map_world encode w) ≡ ok (tt, map_world encode (dropped w))
  unfolding drop_reference step
  drop_reference-dropped w e h k = ground (arith, impl.run-encode dec w.state)

  module _ (th : Option ℕ) (w : World Flags W T) (e : w.freed ≡ false)
      (room : w.state.refs < 2 ^ 58) (m : may_wake build w.owner_id th ≡ true) where
    wake_by_val-by_val_world :
        0 < w.state.refs
        → wake_by_val ops build th (map_world encode w)
          ≡ ok (tt, map_world encode (by_val_world (is_remote_task w.owner_id th) w))
    unfolding wake_by_val step
    wake_by_val-by_val_world h = ground (
      arith,
      impl.run-encode to_notified w.state,
      impl.run-encode to_notified_without_submit w.state,
      drop_reference-dropped (marked w),
      drop_reference-dropped w,
    )

    wake_by_ref-by_ref_world :
        wake_by_ref ops build th (map_world encode w)
        ≡ ok (tt, map_world encode (by_ref_world (is_remote_task w.owner_id th) w))
    unfolding wake_by_ref step
    wake_by_ref-by_ref_world = ground (
      arith,
      impl.run-encode to_notified w.state,
      impl.run-encode to_notified_without_submit w.state,
      impl.run-encode inc (marked w).state,
      impl.run-encode inc w.state,
    )

  module _ (same : W → W → Bool) where
    pub perform-after :
        {s : System Flags W T} (a : Act Flags W T)
        → Enabled build a s
        → handles s < 2 ^ 58
        → Inv same s
        → perform ops build same (map_act encode a) (map_system encode s)
          ≡ ok (map_system encode (after same a s))
    unfolding after perform step
    perform-after {s} begin q room i = ground (arith, impl.run-encode to_running s.world.state)
    perform-after {s} discard q room i =
        ground (arith, drop_reference-dropped (take_queued s.world))
    perform-after {s} yield q room i = ground (
      arith,
      impl.run-encode to_idle s.world.state,
      impl.run-encode inc (stopped s.world).state,
      drop_reference-dropped (stopped s.world),
      drop_reference-dropped (requeued s.world),
    )
    perform-after {s} (complete v) q room i =
        ground (arith, impl.run-encode to_complete s.world.state)
    perform-after {s} (finish v) q room i = ground (
      arith,
      impl.run-encode to_running s.world.state,
      impl.run-encode to_complete (started s.world).state,
    )
    perform-after {s} (announce g) q room i = ground (
      arith,
      impl.interested-encode g,
      impl.waker-encode g,
      drop_reference-dropped (told_world g s.world),
    )
    perform-after {s} (by_ref th) q room i = ground (arith, wake_by_ref-by_ref_world th s.world)
    perform-after {s} (by_val th) q room i = ground (arith, wake_by_val-by_val_world th s.world)
    perform-after {s} clone q room i = ground (arith, impl.run-encode inc s.world.state)
    perform-after {s} drop q room i = ground (arith, drop_reference-dropped s.world)
    perform-after {s} receive q room i =
        ground (arith, wake_by_val-by_val_world (some s.world.owner_id) (take_sent s.world))
    perform-after {s} lose q room i = ground (arith, drop_reference-dropped (take_sent s.world))
    perform-after {s} (poll_join x) q room i = ground (
      arith,
      impl.interested-encode s.world.state,
      impl.complete-encode s.world.state,
      impl.waker-encode s.world.state,
    )
    perform-after {s} (clear x) q room i = ground (arith, impl.run-encode clear_waker s.world.state)
    perform-after {s} (store x g) q room i = ground (
      arith,
      impl.interested-encode g,
      impl.waker-encode g,
      impl.run-encode set_waker s.world.state,
      impl.complete-encode s.world.state,
    )
    perform-after {s} take q room i = ground arith
    perform-after {s} fast_drop q room i =
        ground (arith, impl.run-encode drop_join_fast s.world.state)
    perform-after {s} slow_drop q room i =
        ground (arith, impl.run-encode drop_join_interest s.world.state)
    perform-after {s} release q room i = ground (arith, drop_reference-dropped s.world)
