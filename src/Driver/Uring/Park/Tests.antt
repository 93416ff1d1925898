-- ===== src/Driver/Uring/Park/Tests.antt =====
-- A wake from another thread while the driver waits, and one that comes too early.
use monoio.Prelude.{
  ℕ, ◌+◌, ◌<◌, ◌≡◌, ◌⊎◌, refl, Bool, true, false, none, List, [], ◌∷◌, ltb, if◌then◌else◌, Outcome,
  ok, panic, arith,
}
use monoio.Driver.Lifecycle.{success}
use monoio.Driver.Uring.{
  eventfd_userdata, min_reversed_userdata, Cqe, UringInner, Enter, submit_with_data, make_room,
  submit, finish, drain, mark, prepare, must_write, write_eventfd,
}
use monoio.Driver.Uring.Park.{
  Point, outside, settled, waiting, System, is_nil, start, set_mark, settle, make_ready, enter,
  wake_up, leave, operate, send, look, write, read_done, op_done, Reach, here, next, fresh,
}
use monoio.Driver.Uring.Park.Armed.{reads}
use monoio.Driver.Uring.Park.Heard.{park-Heard, reads-once, submit_with_data-room, calls}

-- A table of operations that counts them.
abbrev complete : ℕ → Cqe ℕ → Outcome ℕ
complete ops c = ok ops

abbrev insert : ℕ → Outcome (ℕ × ℕ)
insert ops = if ltb ops 1000 then ok (ops, ops + 1) else panic

insert_small : (o o2 : ℕ) (index : ℕ) → insert o ≡ ok (index, o2) → index < min_reversed_userdata
insert_small o o2 index e = ground arith

abbrev Reached : System ℕ ℕ → Type 0
Reached s = Reach true complete insert (fresh 0 true 2) s

abbrev at_once : Enter
at_once = record { busy = 0; error = none }

abbrev inner : ℕ → Bool → Bool → ℕ → ℕ → List ℕ → List (Cqe ℕ) → ℕ → Bool → UringInner ℕ ℕ
inner ops awake installed channel woken sq cq eventfd reading = record {
  ops = ops;
  awake = awake;
  eventfd_installed = installed;
  ext_arg = true;
  channel = channel;
  woken = woken;
  sq = sq;
  capacity = 2;
  cq = cq;
  eventfd = eventfd;
  reading = reading;
}

abbrev at : UringInner ℕ ℕ → Point → Bool → ℕ → ℕ → System ℕ ℕ
at i point timed sending writing = record {
  inner = i;
  point = point;
  timed = timed;
  sending = sending;
  writing = writing;
}

-- The first park, up to its wait.
Reached-sleeping : Reached (at (inner 0 false true 0 0 [] [] 0 true) waiting false 0 0)
unfolding drain mark prepare
Reached-sleeping =
    next
      (next (next (next (next here (start false refl)) (set_mark refl)) (settle refl))
        (make_ready {r = success tt} at_once refl refl))
      (enter refl)

abbrev woken : System ℕ ℕ
woken = at (inner 0 false true 1 0 [] [] 1 true) waiting false 0 0

Reached-woken : Reached woken
unfolding must_write write_eventfd
Reached-woken = next (next (next Reached-sleeping send) (look (omega arith))) (write (omega arith))

park-Heard_example :
    (woken.timed ≡ true)
    ⊎ (is_nil woken.inner.cq ≡ false)
    ⊎ ((woken.inner.reading ≡ true) × (0 < woken.inner.eventfd))
park-Heard_example =
    park-Heard true complete insert insert_small 0 true 2 (omega arith) Reached-woken refl
      (omega arith) refl refl

reads-once_example : reads woken.inner ≡ 1
reads-once_example =
    reads-once true complete insert insert_small 0 true 2 (omega arith) Reached-woken

made :
    make_room true complete insert at_once (inner 3 true false 0 0 (7 ∷ 8 ∷ []) [] 0 false)
    ≡ ok (success tt, inner 3 true false 0 0 [] [] 0 false)
unfolding submit
made = refl

submit_with_data-room_example :
    submit_with_data true complete insert at_once (inner 3 true false 0 0 (7 ∷ 8 ∷ []) [] 0 false)
    ≡ ok (success 3, inner 4 true false 0 0 (3 ∷ []) [] 0 false)
submit_with_data-room_example =
    submit_with_data-room true complete insert insert_small at_once
      (inner 3 true false 0 0 (7 ∷ 8 ∷ []) [] 0 false) (inner 3 true false 0 0 [] [] 0 false) 3 4
      (ground arith) made refl

-- In a park with a timeout the queue may be full, and the kernel busy: the completion of the eventfd
-- is then processed before the wait, and the waker waits for the timeout.
abbrev busy_once : Enter
busy_once = record { busy = 1; error = none }

abbrev other : Cqe ℕ
other = record { user_data = 5; body = 0 }

abbrev read : Cqe ℕ
read = record { user_data = eventfd_userdata; body = 0 }

-- Back from the first park, with two operations in the queue.
Reached-full : Reached (at (inner 2 true true 0 0 (0 ∷ 1 ∷ []) [] 0 true) outside false 0 0)
unfolding finish submit_with_data
Reached-full =
    next
      (next
        (next (next (next Reached-sleeping (op_done other refl)) (wake_up refl refl))
          (leave {r = success tt} refl refl))
        (operate {r = success 0} at_once refl refl))
      (operate {r = success 1} at_once refl refl)

-- The second park, asleep before its wait, and a waker with its write.
Reached-called :
    Reached (at (inner 2 false true 1 0 (0 ∷ 1 ∷ []) (read ∷ []) 0 false) (settled true) true 0 0)
unfolding drain mark must_write write_eventfd
Reached-called =
    next
      (next
        (next
          (next (next (next (next Reached-full (start true refl)) (set_mark refl)) (settle refl))
            send)
          (look (omega arith)))
        (write (omega arith)))
      (read_done read refl (omega arith) refl)

abbrev late : System ℕ ℕ
late = at (inner 2 false true 1 0 [] [] 0 true) waiting true 0 0

Reached-late : Reached late
unfolding prepare
Reached-late =
    next (next Reached-called (make_ready {r = success tt} busy_once refl refl)) (enter refl)

late_wake : (late.point ≡ waiting) × (late.inner.channel ≡ 1) × (calls late ≡ 0)
late_wake = (refl, refl, refl)
