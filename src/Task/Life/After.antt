-- ===== src/Task/Life/After.antt =====
-- What each step of the life of a task does, with no word and no panic.
use monoio.Prelude.{◌+◌, ◌-◌, Bool, true, false, not, ◌&&◌, none, some, ◌∷◌, ◌==◌, if◌then◌else◌}
use monoio.Task.State.Flags.{Flags}
use monoio.Task.Cell.{finished, consumed, World}
use monoio.Task.Waker.{is_remote_task}
use monoio.Task.Life.{
  parked, polling, announcing, Join, free, stale, vacant, readable, taken, leaving, gone, System,
  Act, begin, discard, yield, complete, finish, announce, by_ref, by_val, clone, drop, receive,
  lose, poll_join, clear, store, take, fast_drop, slow_drop, release,
}
use monoio.Task.State.Spec.{is_initial}

-- A notification has something to do.
abbrev is_pending : Flags → Bool
is_pending f = not f.running && not f.complete && not f.notified

module _ {W T : Type 0} where
  -- A handle less: the last one gives the cell back.
  abbrev pub dropped : World Flags W T → World Flags W T
  dropped w = record w {
    state = record w.state { refs = w.state.refs - 1 };
    freed = w.state.refs == 1;
  }

  abbrev parked_world : World Flags W T → World Flags W T
  parked_world w =
      if w.state.notified
      then record w { state = record w.state { running = false }; queue = w.queue + 1 }
      else dropped (record w { state = record w.state { running = false } })

  abbrev completed_world : T → World Flags W T → World Flags W T
  completed_world v w = record w {
    state = record w.state { running = false; complete = true };
    stage = finished v;
  }

  abbrev pub told_world : Flags → World Flags W T → World Flags W T
  told_world g w =
      if not g.join_interest
      then record w { stage = consumed }
      else if g.join_waker
      then elim w.waker [ none ↦ w | some y ↦ record w { woken = y ∷ w.woken } ]
      else w

  abbrev pub noted : World Flags W T → World Flags W T
  noted w = if w.state.running then record w { state = record w.state { notified = true } } else w

  abbrev pub by_ref_world : Bool → World Flags W T → World Flags W T
  by_ref_world remote w =
      if is_pending w.state
      then (if remote
          then record w { state = record w.state { refs = w.state.refs + 1 }; sent = w.sent + 1 }
          else record w {
            state = record w.state { notified = true; refs = w.state.refs + 1 };
            queue = w.queue + 1;
          })
      else noted w

  abbrev pub by_val_world : Bool → World Flags W T → World Flags W T
  by_val_world remote w =
      if is_pending w.state
      then (if remote
          then record w { sent = w.sent + 1 }
          else record w { state = record w.state { notified = true }; queue = w.queue + 1 })
      else dropped (noted w)

  abbrev looked : (W → W → Bool) → W → World Flags W T → Join Flags W T
  looked same x w =
      if w.state.complete
      then readable
      else if w.state.join_waker
      then elim w.waker [ none ↦ stale x | some y ↦ if same y x then free (some x) else stale x ]
      else vacant x w.state

  unfoldable pub after : (W → W → Bool) → Act Flags W T → System Flags W T → System Flags W T
  after same begin s = record s {
    world = record s.world {
      state = record s.world.state { running = true; notified = false };
      queue = s.world.queue - 1;
    };
    phase = polling;
  }
  after same discard s = record s { world = dropped (record s.world { queue = s.world.queue - 1 }) }
  after same yield s = record s { world = parked_world s.world; phase = parked }
  after same (complete v) s = record s {
    world = completed_world v s.world;
    phase = announcing (record s.world.state { running = false; complete = true });
    result = some v;
  }
  after same (finish v) s = record s {
    world = completed_world v (record s.world {
      state = record s.world.state { notified = false };
      queue = s.world.queue - 1;
    });
    phase =
        announcing (record s.world.state { running = false; complete = true; notified = false });
    result = some v;
  }
  after same (announce g) s = record s { world = dropped (told_world g s.world); phase = parked }
  after same (by_ref t) s = record s {
    world = by_ref_world (is_remote_task s.world.owner_id t) s.world;
  }
  after same (by_val t) s = record s {
    world = by_val_world (is_remote_task s.world.owner_id t) s.world;
    wakers = s.wakers - 1;
  }
  after same clone s = record s {
    world = record s.world { state = record s.world.state { refs = s.world.state.refs + 1 } };
    wakers = s.wakers + 1;
  }
  after same drop s = record s { world = dropped s.world; wakers = s.wakers - 1 }
  after same receive s = record s {
    world =
        by_val_world (is_remote_task s.world.owner_id (some s.world.owner_id))
          (record s.world { sent = s.world.sent - 1 });
  }
  after same lose s = record s { world = dropped (record s.world { sent = s.world.sent - 1 }) }
  after same (poll_join x) s = record s { join = looked same x s.world }
  after same (clear x) s = record s {
    world =
        if s.world.state.complete
        then s.world
        else record s.world { state = record s.world.state { join_waker = false } };
    join =
        if s.world.state.complete
        then readable
        else vacant x (record s.world.state { join_waker = false });
  }
  after same (store x g) s = record s {
    world =
        if s.world.state.complete
        then record s.world { waker = none }
        else record s.world { waker = some x; state = record s.world.state { join_waker = true } };
    join = if s.world.state.complete then readable else free (some x);
  }
  after same take s = record s {
    world = record s.world { stage = consumed };
    join = elim s.world.stage [ finished v ↦ taken v | _ ↦ s.join ];
  }
  after same fast_drop s =
      if is_initial s.world.state
      then record s {
        world = record s.world { state = record s.world.state { join_interest = false; refs = 1 } };
        join = gone;
      }
      else s
  after same slow_drop s = record s {
    world =
        if s.world.state.complete
        then record s.world { stage = consumed }
        else record s.world { state = record s.world.state { join_interest = false } };
    join = leaving;
  }
  after same release s = record s { world = dropped s.world; join = gone }
