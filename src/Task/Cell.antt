-- ===== src/Task/Cell.antt =====
-- monoio/src/task/core.rs and the task handles of monoio/src/scheduler.rs: the memory of one task,
-- and the run queues and channels that hold handles to it. `S` is the type of the state word, `W`
-- that of the wakers of the joining task, `T` that of the output. The future itself is a parameter.
use monoio.Prelude.{
  ℕ, ◌+◌, Bool, true, false, Option, none, some, List, [], ◌∷◌, Outcome, ok, panic, undefined,
}
use monoio.Task.State.Spec.{
  Op, Reply, idled, completed, marked, notifies, updated, refused, released, Result,
}
use monoio.Task.State.{TransitionToIdle, TransitionToNotified}

-- What the harness asks of a state word: its operations, and the tests of a loaded snapshot.
pub record StateOps (S : Type 0) : Type 0 where
  pub new : S
  pub run : Op → S → Result S
  pub is_complete : S → Bool
  pub is_join_interested : S → Bool
  pub has_join_waker : S → Bool

pub data Stage (T : Type 0) : Type 0 where
  running : Stage T
  finished : T → Stage T
  consumed : Stage T

abbrev is_running : {T : Type 0} → Stage T → Bool
is_running running = true
is_running (finished _) = false
is_running consumed = false

pub data Poll (T : Type 0) : Type 0 where
  pending : Poll T
  ready : T → Poll T

-- `Result<Snapshot, Snapshot>`
pub data Answer (S : Type 0) : Type 0 where
  ok_with err_with : S → Answer S

-- `Complete`, `Notified` and `Done`
pub data PollFuture : Type 0 where
  complete notified parked : PollFuture

-- What the first look of a poll of the join handle finds: an output to read, its own waker in
-- place, another waker, or no waker.
pub data Look (S : Type 0) : Type 0 where
  readable up_to_date stale : Look S
  vacant : S → Look S

-- Debug assertions, and the crate's `sync` feature
pub record Build : Type 0 where
  pub debug : Bool
  pub sync : Bool

-- A cell and what surrounds it. `freed` says that the box was given back; `queue` counts the `Task`
-- handles that wait in a run queue, `sent` the wakers on their way to the owner's thread, and
-- `woken` holds the join wakers that were woken, the last one first.
pub record World (S W T : Type 0) : Type 0 where
  pub state : S
  pub owner_id : ℕ
  pub stage : Stage T
  pub waker : Option W
  pub freed : Bool
  pub queue : ℕ
  pub sent : ℕ
  pub woken : List W

abbrev pub M : Type 0 → Type 0 → Type 0 → Type 0 → Type 0
M S W T A = World S W T → Outcome (A × World S W T)

module _ {S W T : Type 0} where
  infixl 5 ◌>>=◌ ◌>>◌
  abbrev pub ◌>>=◌ : {A B : Type 0} → M S W T A → (A → M S W T B) → M S W T B
  ◌>>=◌ m f w = elim (m w) [ ok (a, v) ↦ f a v | panic ↦ panic | undefined ↦ undefined ]

  abbrev pub ◌>>◌ : {B : Type 0} → M S W T (Unit {0}) → M S W T B → M S W T B
  m >> k = m >>= λ _. k

  abbrev pub ret : {A : Type 0} → A → M S W T A
  ret a w = ok (a, w)

  abbrev pub fail : {A : Type 0} → M S W T A
  fail w = panic

  abbrev pub require : Bool → M S W T (Unit {0})
  require true = ret tt
  require false = fail

  -- `catch_unwind` of code that panics before it changes anything
  abbrev pub catch_unwind : M S W T (Unit {0}) → M S W T (Unit {0})
  catch_unwind m w = elim (m w) [ ok r ↦ ok r | panic ↦ ok (tt, w) | undefined ↦ undefined ]

  -- Any use of a cell that was given back is undefined behaviour.
  abbrev pub access : {A : Type 0} → (World S W T → A × World S W T) → M S W T A
  access f w = elim w.freed [ true ↦ undefined | false ↦ ok (f w) ]

  abbrev pub modify : (World S W T → World S W T) → M S W T (Unit {0})
  modify f = access (λ w. (tt, f w))

  -- An atomic operation on the state word.
  abbrev pub keep_state : World S W T → Result S → Outcome (Reply S × World S W T)
  keep_state w (ok (r, g)) = ok (r, record w { state = g })
  keep_state w panic = panic
  keep_state w undefined = undefined

  unfoldable pub atomic : StateOps S → Op → M S W T (Reply S)
  atomic ops op w = elim w.freed [ true ↦ undefined | false ↦ keep_state w (ops.run op w.state) ]

  -- The answers of the operations, which an operation of the state word gives in this form only.
  abbrev pub bool_of : Reply S → M S W T Bool
  bool_of (released b) = ret b
  bool_of (marked b) = ret b
  bool_of _ = fail

  abbrev pub idle_of : Reply S → M S W T TransitionToIdle
  idle_of (idled t) = ret t
  idle_of _ = fail

  abbrev pub notified_of : Reply S → M S W T TransitionToNotified
  notified_of (notifies t) = ret t
  notified_of _ = fail

  abbrev pub snapshot_of : Reply S → M S W T S
  snapshot_of (completed s) = ret s
  snapshot_of _ = fail

  abbrev pub answer_of : Reply S → M S W T (Answer S)
  answer_of (updated s) = ret (ok_with s)
  answer_of (refused s) = ret (err_with s)
  answer_of _ = fail

  unfoldable pub load : M S W T S
  load = access (λ w. (w.state, w))

  unfoldable pub set_stage : Stage T → M S W T (Unit {0})
  set_stage stage = modify (λ w. record w { stage = stage })

  unfoldable pub drop_future_or_output : M S W T (Unit {0})
  unfolding set_stage
  drop_future_or_output = set_stage consumed

  unfoldable pub store_output : T → M S W T (Unit {0})
  unfolding set_stage
  store_output output = set_stage (finished output)

  -- `CoreStage::poll`, up to the call of the future
  unfoldable pub expect_running : M S W T (Unit {0})
  expect_running = access (λ w. (w.stage, w)) >>= λ stage. require (is_running stage)

  -- and after it
  unfoldable pub after_future : Poll T → M S W T (Poll T)
  unfolding drop_future_or_output
  after_future pending = ret pending
  after_future (ready output) = do drop_future_or_output; ret (ready output)

  -- The future's own poll is a computation that may do anything that a holder of handles can do.
  unfoldable pub poll_stage : M S W T (Poll T) → M S W T (Poll T)
  unfolding expect_running after_future
  poll_stage future = do expect_running; res ← future; after_future res

  abbrev expect_finished : Stage T → M S W T T
  expect_finished (finished output) = ret output
  expect_finished running = fail
  expect_finished consumed = fail

  unfoldable pub take_output : M S W T T
  take_output =
      access (λ w. (w.stage, record w { stage = consumed })) >>= λ stage. expect_finished stage

  unfoldable pub set_waker : Option W → M S W T (Unit {0})
  set_waker waker = modify (λ w. record w { waker = waker })

  abbrev test_waker : (W → W → Bool) → W → Option W → M S W T Bool
  test_waker same waker none = fail
  test_waker same waker (some stored) = ret (same stored waker)

  -- `same` is `Waker::will_wake`.
  unfoldable pub will_wake : (W → W → Bool) → W → M S W T Bool
  will_wake same waker = access (λ w. (w.waker, w)) >>= test_waker same waker

  abbrev wake_stored : Option W → M S W T (Unit {0})
  wake_stored none = fail
  wake_stored (some waker) = modify (λ w. record w { woken = waker ∷ w.woken })

  unfoldable pub wake_join : M S W T (Unit {0})
  wake_join = access (λ w. (w.waker, w)) >>= wake_stored

  -- `LocalScheduler::schedule` and `yield_now` push the handle to the run queue of the thread.
  unfoldable pub schedule : M S W T (Unit {0})
  schedule w = ok (tt, record w { queue = w.queue + 1 })

  -- `Context::send_waker`
  unfoldable pub send_waker : M S W T (Unit {0})
  send_waker w = ok (tt, record w { sent = w.sent + 1 })

-- `Cell::new`, and the handle that the spawner pushes to the run queue
unfoldable pub new_cell : {S W T : Type 0} → StateOps S → ℕ → World S W T
new_cell ops owner_id = record {
  state = ops.new;
  owner_id = owner_id;
  stage = running;
  waker = none;
  freed = false;
  queue = 1;
  sent = 0;
  woken = [];
}
