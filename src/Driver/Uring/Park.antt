-- ===== src/Driver/Uring/Park.antt =====
-- The park of the driver and the threads that wake it, in every order: each access to what they
-- share is a step of its own.
pub mod Armed
pub mod Room
pub mod Heard
mod Tests
use monoio.Prelude.{
  ℕ, ◌+◌, ◌-◌, ◌<◌, ◌≤◌, ◌≡◌, ◌≢◌, refl, Bool, true, false, not, ◌&&◌, ◌||◌, ◌==◌, ltb, leb,
  if◌then◌else◌, Option, none, some, List, [], ◌∷◌, ◌++◌, length, Outcome, ok, panic, undefined,
  arith,
}
use monoio.Driver.Lifecycle.{IoResult, success, failure}
use monoio.Driver.Uring.{
  eventfd_userdata, min_reversed_userdata, Cqe, UringInner, Enter, push, handed, must_write,
  write_eventfd, drain, mark, prepare, submit, finish, submit_with_data, cancel_op, driver_submit,
}

-- Where the driver is: outside the park, after the first drain, after the mark, after the second
-- drain, with the queue prepared, in the wait, and after it. The Booleans are `need_wait`.
pub data Point : Type 0 where
  outside : Point
  drained marked settled : Bool → Point
  prepared waiting returned : Point

-- `sending` counts the threads that have sent a waker and have not looked at `awake` yet, and
-- `writing` those that have found it false.
pub record System (O R : Type 0) : Type 0 where
  pub inner : UringInner O R
  pub point : Point
  pub timed : Bool
  pub sending : ℕ
  pub writing : ℕ

abbrev pub move : {O R : Type 0} → System O R → UringInner O R → Point → System O R
move s i point = record s { inner = i; point = point }

abbrev pub is_nil : {R : Type 0} → List (Cqe R) → Bool
is_nil [] = true
is_nil (c ∷ cs) = false

-- After a call that may fail: an error leaves the park.
abbrev pub left_or : {A : Type 0} → IoResult A → Point → Point
left_or (success a) point = point
left_or (failure e) point = outside

module _ {O R : Type 0} (debug : Bool) (complete : O → Cqe R → Outcome O)
    (insert : O → Outcome (ℕ × O)) where
  pub data Step : System O R → System O R → Type 0 where
    -- `inner_park`
    start :
        {s : System O R} (timed : Bool)
        → s.point ≡ outside
        → Step s (record s {
          inner = (drain true s.inner).1;
          point = drained (drain true s.inner).0;
          timed = timed;
        })
    set_mark :
        {s : System O R} {b : Bool}
        → s.point ≡ drained b
        → Step s (move s (mark b s.inner) (marked b))
    settle :
        {s : System O R} {b : Bool}
        → s.point ≡ marked b
        → Step s (move s (drain b s.inner).1 (settled (drain b s.inner).0))
    make_ready :
        {s : System O R} {i : UringInner O R} {r : IoResult (Unit {0})} (kernel : Enter)
        → s.point ≡ settled true
        → prepare debug complete kernel s.timed s.inner ≡ ok (r, i)
        → Step s (move s i (left_or r prepared))
    enter : {s : System O R} → s.point ≡ prepared → Step s (move s (handed s.inner) waiting)
    refuse : {s : System O R} → s.point ≡ prepared → Step s (move s s.inner outside)
    wake_up :
        {s : System O R}
        → s.point ≡ waiting
        → (s.timed || not (is_nil s.inner.cq)) ≡ true
        → Step s (move s s.inner returned)
    interrupt : {s : System O R} → s.point ≡ waiting → Step s (move s s.inner outside)
    submit_only :
        {s : System O R} {i : UringInner O R} {r : IoResult (Unit {0})} (kernel : Enter)
        → s.point ≡ settled false
        → submit debug complete kernel s.inner ≡ ok (r, i)
        → Step s (move s i (left_or r returned))
    leave :
        {s : System O R} {i : UringInner O R} {r : IoResult (Unit {0})}
        → s.point ≡ returned
        → finish debug complete s.inner ≡ ok (r, i)
        → Step s (move s i outside)
    -- `submit` of the driver, outside the park
    flush :
        {s : System O R} {i : UringInner O R} {r : IoResult (Unit {0})} (kernel : Enter)
        → s.point ≡ outside
        → driver_submit debug complete kernel s.inner ≡ ok (r, i)
        → Step s (move s i outside)
    -- The operations of the tasks, outside the park; `table` is a poll or a drop of one, which
    -- changes the table of operations alone.
    table :
        {s : System O R} (o : O)
        → s.point ≡ outside
        → Step s (move s (record s.inner { ops = o }) outside)
    operate :
        {s : System O R} {i : UringInner O R} {r : IoResult ℕ} (kernel : Enter)
        → s.point ≡ outside
        → submit_with_data debug complete insert kernel s.inner ≡ ok (r, i)
        → Step s (move s i outside)
    cancel :
        {s : System O R} {i : UringInner O R} (kernel : Enter)
        → s.point ≡ outside
        → cancel_op debug complete kernel s.inner ≡ ok i
        → Step s (move s i outside)
    -- Another thread: `send_waker`, and `unpark_thread` with its load and its write
    send :
        {s : System O R}
        → Step s (record s {
          inner = record s.inner { channel = s.inner.channel + 1 };
          sending = s.sending + 1;
        })
    look :
        {s : System O R}
        → 0 < s.sending
        → Step s (record s {
          sending = s.sending - 1;
          writing = if must_write s.inner then s.writing + 1 else s.writing;
        })
    write :
        {s : System O R}
        → 0 < s.writing
        → Step s (record s { inner = write_eventfd s.inner; writing = s.writing - 1 })
    -- The kernel: the read of an eventfd that was written, and any other completion
    read_done :
        {s : System O R} (c : Cqe R)
        → s.inner.reading ≡ true
        → 0 < s.inner.eventfd
        → c.user_data ≡ eventfd_userdata
        → Step s (record s {
          inner = record s.inner { reading = false; eventfd = 0; cq = s.inner.cq ++ c ∷ [] };
        })
    op_done :
        {s : System O R} (c : Cqe R)
        → (c.user_data == eventfd_userdata) ≡ false
        → Step s (record s { inner = record s.inner { cq = s.inner.cq ++ c ∷ [] } })

  pub data Reach (s : System O R) : System O R → Type 0 where
    here : Reach s s
    next : {t u : System O R} → Reach s t → Step t u → Reach s u

-- `IoUringDriver::new_with_entries`
abbrev pub fresh : {O R : Type 0} → O → Bool → ℕ → System O R
fresh ops ext_arg capacity = record {
  inner = record {
    ops = ops;
    awake = true;
    eventfd_installed = false;
    ext_arg = ext_arg;
    channel = 0;
    woken = 0;
    sq = [];
    capacity = capacity;
    cq = [];
    eventfd = 0;
    reading = false;
  };
  point = outside;
  timed = false;
  sending = 0;
  writing = 0;
}
