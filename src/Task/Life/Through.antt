-- ===== src/Task/Life/Through.antt =====
-- The state of a task read through its flags: a state word of any form that implements the
-- transitions of the specification, and the systems that are the images of systems of flags.
use monoio.Prelude.{◌≡◌, Bool, ◌>>=◌, ok}
use monoio.Task.State.Flags.{Flags, Fits}
use monoio.Task.State.Spec.{
  Op, Reply, done, idled, completed, marked, notifies, updated, refused, released, Result, step,
}
use monoio.Task.State.Queue.Meant.{initial}
use monoio.Task.Cell.{StateOps, World}
use monoio.Task.Life.{
  Phase, parked, polling, announcing, Join, free, stale, vacant, readable, taken, leaving, gone,
  System, Act, begin, discard, yield, complete, finish, announce, by_ref, by_val, clone, drop,
  receive, lose, poll_join, clear, store, take, fast_drop, slow_drop, release,
}

module _ {S : Type 0} (f : Flags → S) where
  abbrev pub map_reply : Reply Flags → Reply S
  map_reply done = done
  map_reply (idled t) = idled t
  map_reply (completed g) = completed (f g)
  map_reply (marked b) = marked b
  map_reply (notifies t) = notifies t
  map_reply (updated g) = updated (f g)
  map_reply (refused g) = refused (f g)
  map_reply (released b) = released b

  abbrev pub map_result : Result Flags → Result S
  map_result r = r >>= λ (reply, g). ok (map_reply reply, f g)

  abbrev pub map_world : {W T : Type 0} → World Flags W T → World S W T
  map_world w = record {
    state = f w.state;
    owner_id = w.owner_id;
    stage = w.stage;
    waker = w.waker;
    freed = w.freed;
    queue = w.queue;
    sent = w.sent;
    woken = w.woken;
  }

  abbrev pub map_phase : Phase Flags → Phase S
  map_phase parked = parked
  map_phase polling = polling
  map_phase (announcing g) = announcing (f g)

  abbrev pub map_join : {W T : Type 0} → Join Flags W T → Join S W T
  map_join (free w) = free w
  map_join (stale w) = stale w
  map_join (vacant w g) = vacant w (f g)
  map_join readable = readable
  map_join (taken v) = taken v
  map_join leaving = leaving
  map_join gone = gone

  abbrev pub map_system : {W T : Type 0} → System Flags W T → System S W T
  map_system s = record {
    world = map_world s.world;
    phase = map_phase s.phase;
    join = map_join s.join;
    wakers = s.wakers;
    result = s.result;
  }

  abbrev pub map_act : {W T : Type 0} → Act Flags W T → Act S W T
  map_act begin = begin
  map_act discard = discard
  map_act yield = yield
  map_act (complete v) = complete v
  map_act (finish v) = finish v
  map_act (announce g) = announce (f g)
  map_act (by_ref t) = by_ref t
  map_act (by_val t) = by_val t
  map_act clone = clone
  map_act drop = drop
  map_act receive = receive
  map_act lose = lose
  map_act (poll_join w) = poll_join w
  map_act (clear w) = clear w
  map_act (store w g) = store w (f g)
  map_act take = take
  map_act fast_drop = fast_drop
  map_act slow_drop = slow_drop
  map_act release = release

-- The laws that the harness takes from its state word.
pub record Implements {S : Type 0} (debug : Bool) (ops : StateOps S) (encode : Flags → S)
    : Type 0 where
  pub new-encode : ops.new ≡ encode initial
  pub run-encode :
      (op : Op) (f : Flags) → Fits f → ops.run op (encode f) ≡ map_result encode (step debug op f)
  pub complete-encode : (f : Flags) → ops.is_complete (encode f) ≡ f.complete
  pub interested-encode : (f : Flags) → ops.is_join_interested (encode f) ≡ f.join_interest
  pub waker-encode : (f : Flags) → ops.has_join_waker (encode f) ≡ f.join_waker
