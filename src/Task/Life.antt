-- ===== src/Task/Life.antt =====
-- A spawned task with all its handles: the executor that polls it, the wakers on any thread and the
-- join handle, in every order (monoio/src/task). A handle's call is one step, except that the polls
-- of the future and of the join handle and the drop of the join handle are several.
pub mod Meant
pub mod After
pub mod Through
pub mod Keeps
pub mod Mirror
pub mod Whole
pub mod Words
mod Tests
pub mod Calls
use monoio.Prelude.{
  ℕ, ◌+◌, ◌-◌, ◌^◌, ◌<◌, ◌≡◌, Bool, true, false, not, ◌&&◌, ◌||◌, Option, none, some, ltb,
  if◌then◌else◌, Outcome, ok, panic, undefined,
}
use monoio.Task.Cell.{
  StateOps, Build, Poll, pending, ready, Look, Answer, ok_with, err_with, World, M, new_cell,
  take_output,
}
use monoio.Task.Harness.{
  begin_poll, park, end_ready, finish_with, announce_last, drop_reference, drop_task,
}
use monoio.Task.Waker.{is_remote_task, wake_by_val, wake_by_ref, clone_waker, drop_waker}
use monoio.Task.Join.{look, unset_waker, set_join_waker, drop_fast, leave, decide}

-- Where the executor is: not at this task, in a poll of its future, or about to announce its end.
pub data Phase (S : Type 0) : Type 0 where
  parked : Phase S
  polling : Phase S
  announcing : S → Phase S

-- Where the join handle is. `free` remembers the waker of its last poll that was pending; `stale`,
-- `vacant` and `readable` are inside a poll; `leaving` is inside the drop.
pub data Join (S W T : Type 0) : Type 0 where
  free : Option W → Join S W T
  stale : W → Join S W T
  vacant : W → S → Join S W T
  readable : Join S W T
  taken : T → Join S W T
  leaving : Join S W T
  gone : Join S W T

-- `wakers` counts the wakers that are held somewhere; `result` is the output the future gave.
pub record System (S W T : Type 0) : Type 0 where
  pub world : World S W T
  pub phase : Phase S
  pub join : Join S W T
  pub wakers : ℕ
  pub result : Option T

pub data Act (S W T : Type 0) : Type 0 where
  begin discard yield : Act S W T
  complete finish : T → Act S W T
  announce : S → Act S W T
  by_ref by_val : Option ℕ → Act S W T
  clone drop : Act S W T
  receive lose : Act S W T
  poll_join : W → Act S W T
  clear : W → Act S W T
  store : W → S → Act S W T
  take fast_drop slow_drop release : Act S W T

abbrev is_polling : {S : Type 0} → Phase S → Bool
is_polling parked = false
is_polling polling = true
is_polling (announcing _) = false

-- Holders of a waker: the wakers, and the poll that goes on.
abbrev has_waker : {S W T : Type 0} → System S W T → Bool
has_waker s = ltb 0 s.wakers || is_polling s.phase

abbrev may_drop : {S W T : Type 0} → Join S W T → Bool
may_drop (free _) = true
may_drop (taken _) = true
may_drop (stale _) = false
may_drop (vacant _ _) = false
may_drop readable = false
may_drop leaving = false
may_drop gone = false

abbrev pub phase_handles : {S : Type 0} → Phase S → ℕ
phase_handles parked = 0
phase_handles polling = 1
phase_handles (announcing _) = 1

abbrev pub join_handles : {S W T : Type 0} → Join S W T → ℕ
join_handles (free _) = 1
join_handles (taken _) = 1
join_handles (stale _) = 1
join_handles (vacant _ _) = 1
join_handles readable = 1
join_handles leaving = 1
join_handles gone = 0

-- The handles that there are.
abbrev pub handles : {S W T : Type 0} → System S W T → ℕ
handles s = s.world.queue + s.world.sent + s.wakers + phase_handles s.phase + join_handles s.join

-- A wake on a foreign thread needs the `sync` feature.
abbrev pub may_wake : Build → ℕ → Option ℕ → Bool
may_wake build owner_id current = build.sync || not (is_remote_task owner_id current)

-- Who may act: only the holder of a handle, the poller one poll at a time, and the join handle in
-- the order of its own code; not again after it gave the output.
abbrev pub Enabled : {S W T : Type 0} → Build → Act S W T → System S W T → Type 0
Enabled build begin s = (s.phase ≡ parked) × (0 < s.world.queue)
Enabled build discard s = 0 < s.world.queue
Enabled build yield s = s.phase ≡ polling
Enabled build (complete v) s = s.phase ≡ polling
Enabled build (finish v) s = (s.phase ≡ parked) × (0 < s.world.queue)
Enabled build (announce g) s = s.phase ≡ announcing g
Enabled build (by_ref t) s = (has_waker s ≡ true) × (may_wake build s.world.owner_id t ≡ true)
Enabled build (by_val t) s = (0 < s.wakers) × (may_wake build s.world.owner_id t ≡ true)
Enabled build clone s = has_waker s ≡ true
Enabled build drop s = 0 < s.wakers
Enabled build receive s =
    (0 < s.world.sent) × (may_wake build s.world.owner_id (some s.world.owner_id) ≡ true)
Enabled build lose s = 0 < s.world.sent
Enabled {W} build (poll_join w) s = (old : Option W) × (s.join ≡ free old)
Enabled build (clear w) s = s.join ≡ stale w
Enabled build (store w g) s = s.join ≡ vacant w g
Enabled build take s = s.join ≡ readable
Enabled build fast_drop s = may_drop s.join ≡ true
Enabled build slow_drop s = may_drop s.join ≡ true
Enabled build release s = s.join ≡ leaving

module _ {S W T : Type 0} where
  -- What a step does with the answer of the code.
  abbrev settle :
      {A : Type 0}
      → Outcome (A × World S W T)
      → (A → World S W T → System S W T)
      → Outcome (System S W T)
  settle (ok (a, w)) f = ok (f a w)
  settle panic f = panic
  settle undefined f = undefined

  abbrev pub take_queued : World S W T → World S W T
  take_queued w = record w { queue = w.queue - 1 }

  abbrev pub take_sent : World S W T → World S W T
  take_sent w = record w { sent = w.sent - 1 }

  abbrev looked : W → Look S → Join S W T
  looked w Look.readable = readable
  looked w Look.up_to_date = free (some w)
  looked w Look.stale = stale w
  looked w (Look.vacant g) = vacant w g

  abbrev cleared : W → Answer S → Join S W T
  cleared w (ok_with g) = vacant w g
  cleared w (err_with g) = readable

  abbrev stored : W → Bool → Join S W T
  stored w true = readable
  stored w false = free (some w)

module _ {S W T : Type 0} (ops : StateOps S) (build : Build) (same : W → W → Bool) where
  -- The store of a join waker, with what the code concludes from its answer
  abbrev store_and_decide : W → S → M S W T Bool
  store_and_decide w g v = elim (set_join_waker ops w g v) [
    | ok (a, v') ↦ decide ops a v'
    | panic ↦ panic
    | undefined ↦ undefined
  ]

  unfoldable pub perform : Act S W T → System S W T → Outcome (System S W T)
  unfolding begin_poll park end_ready finish_with announce_last drop_task wake_by_val wake_by_ref
      clone_waker drop_waker look unset_waker set_join_waker take_output drop_fast leave decide
  perform begin s =
      settle (begin_poll ops (take_queued s.world)) (λ _ w. record s { world = w; phase = polling })
  perform discard s = settle (drop_task ops (take_queued s.world)) (λ _ w. record s { world = w })
  perform yield s = settle (park ops s.world) (λ _ w. record s { world = w; phase = parked })
  perform (complete v) s =
      settle (end_ready ops v s.world)
        (λ g w. record s { world = w; phase = announcing g; result = some v })
  perform (finish v) s =
      settle (finish_with ops v (take_queued s.world))
        (λ g w. record s { world = w; phase = announcing g; result = some v })
  perform (announce g) s =
      settle (announce_last ops g s.world) (λ _ w. record s { world = w; phase = parked })
  perform (by_ref t) s = settle (wake_by_ref ops build t s.world) (λ _ w. record s { world = w })
  perform (by_val t) s =
      settle (wake_by_val ops build t s.world)
        (λ _ w. record s { world = w; wakers = s.wakers - 1 })
  perform clone s =
      settle (clone_waker ops s.world) (λ _ w. record s { world = w; wakers = s.wakers + 1 })
  perform drop s =
      settle (drop_waker ops s.world) (λ _ w. record s { world = w; wakers = s.wakers - 1 })
  perform receive s =
      settle (wake_by_val ops build (some s.world.owner_id) (take_sent s.world))
        (λ _ w. record s { world = w })
  perform lose s = settle (drop_waker ops (take_sent s.world)) (λ _ w. record s { world = w })
  perform (poll_join w) s =
      settle (look ops build same w s.world) (λ l v. record s { world = v; join = looked w l })
  perform (clear w) s =
      settle (unset_waker ops s.world) (λ a v. record s { world = v; join = cleared w a })
  perform (store w g) s =
      settle (store_and_decide w g s.world) (λ b v. record s { world = v; join = stored w b })
  perform take s = settle (take_output s.world) (λ v w. record s { world = w; join = taken v })
  perform fast_drop s =
      settle (drop_fast ops s.world)
        (λ b w. record s { world = w; join = if b then gone else s.join })
  perform slow_drop s = settle (leave ops s.world) (λ _ w. record s { world = w; join = leaving })
  perform release s =
      settle (drop_reference ops s.world) (λ _ w. record s { world = w; join = gone })

pub data Step {S W T : Type 0} (ops : StateOps S) (build : Build) (same : W → W → Bool)
    : System S W T → System S W T → Type 0 where
  act :
      {s t : System S W T} (a : Act S W T)
      → Enabled build a s
      → handles s < 2 ^ 58
      → perform ops build same a s ≡ ok t
      → Step ops build same s t

pub data Reach {S W T : Type 0} (ops : StateOps S) (build : Build) (same : W → W → Bool)
    (s : System S W T) : System S W T → Type 0 where
  here : Reach ops build same s s
  next :
      {t u : System S W T}
      → Reach ops build same s t
      → Step ops build same t u
      → Reach ops build same s u

-- A task just spawned: one handle in the run queue, and the join handle.
unfoldable pub spawn : {S W T : Type 0} → StateOps S → ℕ → System S W T
unfolding new_cell
spawn ops owner_id = record {
  world = new_cell ops owner_id;
  phase = parked;
  join = free none;
  wakers = 0;
  result = none;
}
