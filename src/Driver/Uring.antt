-- ===== src/Driver/Uring.antt =====
-- The rest of monoio/src/driver/uring/mod.rs, in a build with the `sync` feature and without
-- `poll-io`: the submission and completion queues, the park of the driver, and the eventfd of
-- uring/waker.rs by which other threads wake it. `O` is the type of the table of operations, and `R`
-- that of what a completion carries. The kernel's part, and the io_uring crate's, are arguments.
pub mod Park
use monoio.Prelude.{
  ℕ, zero, suc, ◌+◌, ◌-◌, ◌^◌, Bool, true, false, not, ◌&&◌, ◌||◌, ◌==◌, ltb, leb, if◌then◌else◌,
  Option, none, some, List, [], ◌∷◌, ◌++◌, length, Outcome, ok, panic, undefined,
}
use monoio.Driver.Lifecycle.{IoResult, success, failure}

abbrev pub cancel_userdata : ℕ
cancel_userdata = 2 ^ 64 - 1

abbrev pub timeout_userdata : ℕ
timeout_userdata = 2 ^ 64 - 2

abbrev pub eventfd_userdata : ℕ
eventfd_userdata = 2 ^ 64 - 3

abbrev pub min_reversed_userdata : ℕ
min_reversed_userdata = 2 ^ 64 - 4

pub record Cqe (R : Type 0) : Type 0 where
  pub user_data : ℕ
  pub body : R

-- `UringInner`. The queues hold the user data of the entries, the oldest first; `channel` counts the
-- wakers in `waker_receiver`, and `woken` those that were woken. Of the kernel there is the counter
-- of the eventfd, and whether it holds the driver's read of it.
pub record UringInner (O R : Type 0) : Type 0 where
  pub ops : O
  pub awake : Bool
  pub eventfd_installed : Bool
  pub ext_arg : Bool
  pub channel : ℕ
  pub woken : ℕ
  pub sq : List ℕ
  pub capacity : ℕ
  pub cq : List (Cqe R)
  pub eventfd : ℕ
  pub reading : Bool

-- How the kernel answers a submission: so many times that it is busy, and then that it took all the
-- entries, or an error.
pub record Enter : Type 0 where
  pub busy : ℕ
  pub error : Option ℕ

abbrev pub occurs : List ℕ → ℕ → ℕ
occurs [] x = 0
occurs (y ∷ ys) x = (if y == x then 1 else 0) + occurs ys x

abbrev pub M : Type 0 → Type 0 → Type 0 → Type 0
M O R A = UringInner O R → Outcome (IoResult A × UringInner O R)

module _ {O R : Type 0} where
  abbrev pub continue :
      {A B : Type 0}
      → (A → M O R B)
      → Outcome (IoResult A × UringInner O R)
      → Outcome (IoResult B × UringInner O R)
  continue f (ok (success a, j)) = f a j
  continue f (ok (failure e, j)) = ok (failure e, j)
  continue f panic = panic
  continue f undefined = undefined

  infixl 5 ◌>>=◌ ◌>>◌
  abbrev pub ◌>>=◌ : {A B : Type 0} → M O R A → (A → M O R B) → M O R B
  ◌>>=◌ m f i = continue f (m i)

  abbrev pub ◌>>◌ : {B : Type 0} → M O R (Unit {0}) → M O R B → M O R B
  m >> k = m >>= λ _. k

  abbrev pub ret : {A : Type 0} → A → M O R A
  ret a i = ok (success a, i)

  abbrev pub modify : (UringInner O R → UringInner O R) → M O R (Unit {0})
  modify f i = ok (success tt, f i)

  -- `sq.push`: the answer says whether there was room.
  unfoldable pub push : ℕ → UringInner O R → Bool × UringInner O R
  push entry i =
      if ltb (length i.sq) i.capacity
      then (true, record i { sq = i.sq ++ entry ∷ [] })
      else (false, i)

  -- `let _ = sq.push(…)`
  abbrev pub try_push : ℕ → UringInner O R → UringInner O R
  try_push entry i = (push entry i).1

  -- A submission that succeeds: the kernel takes all entries. That it may take only the first of
  -- them is not modelled; the code does not look at how many it took.
  abbrev pub handed : UringInner O R → UringInner O R
  handed i = record i { sq = []; reading = i.reading || ltb 0 (occurs i.sq eventfd_userdata) }

  unfoldable pub install_eventfd : UringInner O R → UringInner O R
  unfolding push
  install_eventfd i = record (try_push eventfd_userdata i) { eventfd_installed = true }

  unfoldable pub install_timeout : UringInner O R → UringInner O R
  unfolding push
  install_timeout i = try_push timeout_userdata i

  -- `EventWaker::wake`: whether the eventfd has to be written, and the write
  unfoldable pub must_write : UringInner O R → Bool
  must_write i = not i.awake

  unfoldable pub write_eventfd : UringInner O R → UringInner O R
  write_eventfd i = record i { eventfd = i.eventfd + 1 }

  -- `while let Ok(w) = inner.waker_receiver.try_recv()`, on so many wakers, and `need_wait` after it
  unfoldable pub receive_all : ℕ → Bool → UringInner O R → Bool × UringInner O R
  receive_all zero need_wait i = (need_wait, i)
  receive_all (suc n) need_wait i =
      receive_all n false (record i { channel = n; woken = i.woken + 1 })

  unfoldable pub drain : Bool → UringInner O R → Bool × UringInner O R
  unfolding receive_all
  drain need_wait i = receive_all i.channel need_wait i

  unfoldable pub store_awake : Bool → UringInner O R → UringInner O R
  store_awake awake i = record i { awake = awake }

  -- Between the two drains
  unfoldable pub mark : Bool → UringInner O R → UringInner O R
  unfolding store_awake
  mark need_wait i = if need_wait then store_awake false i else i

module _ {O R : Type 0} (debug : Bool) (complete : O → Cqe R → Outcome O) where
  abbrev pub keep_ops : UringInner O R → Outcome O → Outcome (UringInner O R)
  keep_ops i (ok o) = ok (record i { ops = o })
  keep_ops i panic = panic
  keep_ops i undefined = undefined

  unfoldable pub tick_one : Cqe R → UringInner O R → Outcome (UringInner O R)
  tick_one c i =
      if c.user_data == eventfd_userdata
      then ok (record i { eventfd_installed = false })
      else if leb min_reversed_userdata c.user_data
      then ok i
      else keep_ops i (complete i.ops c)

  abbrev pub then_tick :
      (UringInner O R → Outcome (UringInner O R))
      → Outcome (UringInner O R)
      → Outcome (UringInner O R)
  then_tick rest (ok i) = rest i
  then_tick rest panic = panic
  then_tick rest undefined = undefined

  unfoldable pub tick_all : List (Cqe R) → UringInner O R → Outcome (UringInner O R)
  unfolding tick_one
  tick_all [] i = ok i
  tick_all (c ∷ cs) i =
      let rest = λ (j : UringInner O R). tick_all cs j in then_tick rest (tick_one c i)

  abbrev pub succeed : Outcome (UringInner O R) → Outcome (IoResult (Unit {0}) × UringInner O R)
  succeed (ok i) = ok (success tt, i)
  succeed panic = panic
  succeed undefined = undefined

  unfoldable pub tick : M O R (Unit {0})
  unfolding tick_all
  tick i = succeed (tick_all i.cq (record i { cq = [] }))

  unfoldable pub answer_with : Option ℕ → M O R (Unit {0})
  answer_with none i = ok (success tt, handed i)
  answer_with (some e) i = ok (failure e, i)

  unfoldable pub submit_loop : ℕ → Option ℕ → M O R (Unit {0})
  unfolding answer_with tick
  submit_loop zero error = answer_with error
  submit_loop (suc n) error = tick >>= λ _. submit_loop n error

  -- `UringInner::submit`
  unfoldable pub submit : Enter → M O R (Unit {0})
  unfolding submit_loop
  submit kernel = submit_loop kernel.busy kernel.error

  -- `submit` of the driver, which the runtime calls between its rounds
  unfoldable pub driver_submit : Enter → M O R (Unit {0})
  unfolding submit tick
  driver_submit kernel = submit kernel >> tick

  abbrev pub debug_check : Bool → M O R (Unit {0})
  debug_check c i = if debug && not c then panic else ok (success tt, i)

  unfoldable pub flush_space : Enter → ℕ → M O R (Unit {0})
  unfolding submit
  flush_space kernel need i =
      (debug_check (leb need i.capacity)
          >> (if ltb i.capacity (length i.sq + need) then submit kernel else ret tt))
        i

  -- The park's steps 1 to 2.3, up to the wait: `timed` says whether there is a timeout.
  abbrev pub space : Bool → UringInner O R → ℕ
  space timed i = (if i.eventfd_installed then 0 else 1) + (if timed then 1 else 0)

  abbrev pub installs : Bool → UringInner O R → UringInner O R
  installs timed i =
      let j = if i.eventfd_installed then i else install_eventfd i in
      if timed && not j.ext_arg then install_timeout j else j

  unfoldable pub make_space : Enter → Bool → M O R (Unit {0})
  unfolding flush_space
  make_space kernel timed i =
      if space timed i == 0 then ok (success tt, i) else flush_space kernel (space timed i) i

  unfoldable pub prepare : Enter → Bool → M O R (Unit {0})
  unfolding make_space install_eventfd install_timeout
  prepare kernel timed = do make_space kernel timed; modify (installs timed)

  -- After the wait
  unfoldable pub finish : M O R (Unit {0})
  unfolding store_awake tick
  finish = do modify (store_awake true); tick

  -- `inner_park`; `wait` is what the kernel does with the call that submits and waits.
  unfoldable pub inner_park : Enter → M O R (Unit {0}) → Bool → M O R (Unit {0})
  unfolding drain mark submit prepare finish
  inner_park kernel wait timed i =
      let (first, i1) = drain true i in
      let (need_wait, i2) = drain first (mark first i1) in
      ((if need_wait then (prepare kernel timed >> wait) else submit kernel) >> finish) i2

  -- `submit_with_data`, with the insertion into the table of operations, which answers the index
  module _ (insert : O → Outcome (ℕ × O)) where
    abbrev pub queued : Bool × UringInner O R → ℕ → Outcome (IoResult ℕ × UringInner O R)
    queued (true, i) index = ok (success index, i)
    queued (false, i) index = panic

    abbrev pub enqueue : UringInner O R → Outcome (ℕ × O) → Outcome (IoResult ℕ × UringInner O R)
    enqueue i (ok (index, o)) = queued (push index (record i { ops = o })) index
    enqueue i panic = panic
    enqueue i undefined = undefined

    abbrev pub make_room : Enter → M O R (Unit {0})
    make_room kernel i =
        if leb i.capacity (length i.sq) then submit kernel i else ok (success tt, i)

    unfoldable pub submit_with_data : Enter → M O R ℕ
    unfolding push submit
    submit_with_data kernel = make_room kernel >> λ i. enqueue i (insert i.ops)

  -- `cancel_op`
  abbrev pub push_again : Outcome (IoResult (Unit {0}) × UringInner O R) → Outcome (UringInner O R)
  push_again (ok (_, i)) = ok (try_push cancel_userdata i)
  push_again panic = panic
  push_again undefined = undefined

  abbrev pub again : Enter → Bool × UringInner O R → Outcome (UringInner O R)
  again kernel (true, i) = ok i
  again kernel (false, i) = push_again (submit kernel i)

  unfoldable pub cancel_op : Enter → UringInner O R → Outcome (UringInner O R)
  unfolding push submit
  cancel_op kernel i = again kernel (push cancel_userdata i)
