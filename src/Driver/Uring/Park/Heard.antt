-- ===== src/Driver/Uring/Park/Heard.antt =====
-- No wake of another thread is lost in the park.
use monoio.Prelude.{
  ℕ, zero, suc, ◌+◌, ◌<◌, ◌≤◌, ◌≡◌, ◌⊎◌, inl, inr, refl, Bool, true, false, ◌&&◌, ◌==◌,
  if◌then◌else◌, List, [], ◌∷◌, ◌++◌, Outcome, ok, arith, Bool-cases,
}
use monoio.Driver.Uring.{
  eventfd_userdata, min_reversed_userdata, Cqe, UringInner, Enter, occurs, make_room, push,
  submit_with_data, drain, receive_all, mark, must_write, write_eventfd,
}
use monoio.Driver.Uring.Park.{
  Point, outside, drained, marked, settled, prepared, waiting, returned, System, is_nil, Step,
  start, set_mark, settle, make_ready, enter, refuse, wake_up, interrupt, submit_only, leave,
  operate, cancel, flush, table, send, look, write, read_done, op_done, Reach, here, next, fresh,
}
use monoio.Driver.Uring.Park.Room.{
  prepare-Kept, finish-Kept, cancel_op-Kept, submit_with_data-Kept, make_room-Kept,
  driver_submit-Kept,
}
use monoio.Driver.Uring.Park.Armed.{Fit, arrivals, arrivals-append, submit-Kept, reads}
use monoio.Driver.Lifecycle.{success}

-- From the mark on the driver says that it sleeps, from the second drain on it does not look at the
-- channel, and from the preparation on it relies on the eventfd.
abbrev is_asleep : Point → Bool
is_asleep outside = false
is_asleep (drained b) = false
is_asleep (marked b) = b
is_asleep (settled b) = b
is_asleep prepared = true
is_asleep waiting = true
is_asleep returned = false

abbrev is_deaf : Point → Bool
is_deaf outside = false
is_deaf (drained b) = false
is_deaf (marked b) = false
is_deaf (settled b) = b
is_deaf prepared = true
is_deaf waiting = true
is_deaf returned = false

abbrev relies : Point → Bool
relies outside = false
relies (drained b) = false
relies (marked b) = false
relies (settled b) = false
relies prepared = true
relies waiting = true
relies returned = false

abbrev is_waiting : Point → Bool
is_waiting outside = false
is_waiting (drained b) = false
is_waiting (marked b) = false
is_waiting (settled b) = false
is_waiting prepared = false
is_waiting waiting = true
is_waiting returned = false

-- What will still wake the driver: threads that are about to, a written eventfd, its completion.
abbrev pub calls : {O R : Type 0} → System O R → ℕ
calls s = s.sending + s.writing + s.inner.eventfd + arrivals s.inner.cq eventfd_userdata

pub record Inv {O R : Type 0} (s : System O R) : Type 0 where
  pub fit : Fit s.inner
  pub asleep : is_asleep s.point ≡ true → s.inner.awake ≡ false
  pub heard : is_deaf s.point ≡ true → s.timed ≡ false → 0 < s.inner.channel → 0 < calls s
  pub armed_for : relies s.point ≡ true → s.inner.eventfd_installed ≡ true
  pub handed_in : is_waiting s.point ≡ true → occurs s.inner.sq eventfd_userdata ≡ 0

List-cases : {R : Type 0} (cs : List (Cqe R)) → (cs ≡ []) ⊎ (is_nil cs ≡ false)
List-cases [] = inl refl
List-cases (c ∷ cs) = inr refl

module _ {O R : Type 0} where
  receive_all_lem :
      (n : ℕ) (b : Bool) (i : UringInner O R)
      → receive_all n b i ≡ (
        b && (n == 0),
        record i { channel = if n == 0 then i.channel else 0; woken = i.woken + n },
      )
  unfolding receive_all
  receive_all_lem zero b i = ground arith
  receive_all_lem (suc n) b i =
      ground (arith, receive_all_lem n false (record i { channel = n; woken = i.woken + 1 }))

  drain_lem :
      (b : Bool) (i : UringInner O R)
      → drain b i ≡ (b && (i.channel == 0), record i { channel = 0; woken = i.woken + i.channel })
  unfolding drain
  drain_lem b i = ground (arith, receive_all_lem i.channel b i)

module _ {O R : Type 0} (debug : Bool) (complete : O → Cqe R → Outcome O)
    (insert : O → Outcome (ℕ × O))
    (small : (o o2 : O) (index : ℕ)
      → insert o ≡ ok (index, o2)
      → index < min_reversed_userdata) where
  Step-Inv : {s t : System O R} → Step debug complete insert s t → Inv s → Inv t
  unfolding mark must_write write_eventfd
  Step-Inv {s} (start timed p) v = rw (drain_lem true s.inner) (ground arith)
  Step-Inv (set_mark p) v = ground arith
  Step-Inv {s} (settle {b} p) v = rw (drain_lem b s.inner) (ground arith)
  Step-Inv {s} (make_ready {i} {r} kernel p e) v =
      let (k, h, same) = prepare-Kept debug complete kernel s.timed s.inner i r v.fit e in
      ground arith
  Step-Inv (enter p) v = ground arith
  Step-Inv (refuse p) v = ground arith
  Step-Inv (wake_up p h) v = ground arith
  Step-Inv (interrupt p) v = ground arith
  Step-Inv {s} (submit_only {i} {r} kernel p e) v =
      let (k, h) = submit-Kept debug complete kernel s.inner i r v.fit e in ground arith
  Step-Inv {s} (leave {i} {r} p e) v =
      let k = finish-Kept debug complete s.inner i r v.fit e in ground arith
  Step-Inv {s} (operate {i} {r} kernel p e) v =
      let k = submit_with_data-Kept debug complete insert small kernel s.inner i r v.fit e in
      ground arith
  Step-Inv {s} (cancel {i} kernel p e) v =
      let k = cancel_op-Kept debug complete kernel s.inner i v.fit e in ground arith
  Step-Inv {s} (flush {i} {r} kernel p e) v =
      let k = driver_submit-Kept debug complete kernel s.inner i r v.fit e in ground arith
  Step-Inv (table o p) v = ground arith
  Step-Inv send v = ground arith
  Step-Inv (look h) v = ground arith
  Step-Inv (write h) v = ground arith
  Step-Inv {s} (read_done c h k p) v =
      ground (arith, arrivals-append s.inner.cq (c ∷ []) eventfd_userdata)
  Step-Inv {s} (op_done c p) v =
      ground (arith, arrivals-append s.inner.cq (c ∷ []) eventfd_userdata)

  Reach-Inv :
      (ops : O) (ext_arg : Bool) (capacity : ℕ) {s : System O R}
      → 2 ≤ capacity
      → Reach debug complete insert (fresh ops ext_arg capacity) s
      → Inv s
  Reach-Inv ops ext_arg capacity h here = ground arith
  Reach-Inv ops ext_arg capacity h (next r st) = Step-Inv st (Reach-Inv ops ext_arg capacity h r)

  module _ (ops : O) (ext_arg : Bool) (capacity : ℕ) (large : 2 ≤ capacity) {s : System O R}
      (reach : Reach debug complete insert (fresh ops ext_arg capacity) s) where
    -- Where every submission that succeeds takes all the entries of the queue, and whatever the order
    -- of the driver's steps, in its park, its `submit` and the operations of tasks, those of other
    -- threads and the kernel's: when the driver waits while a waker that another thread sent lies in
    -- its channel, and every thread that sent one has looked at `awake` and written the eventfd if
    -- it found it false, then the wait has a timeout, or it can return for a completion that is
    -- there, or the kernel holds the driver's read of the eventfd, which was written.
    pub park-Heard :
        s.point ≡ waiting
        → 0 < s.inner.channel
        → s.sending ≡ 0
        → s.writing ≡ 0
        → (s.timed ≡ true)
          ⊎ (is_nil s.inner.cq ≡ false)
          ⊎ ((s.inner.reading ≡ true) × (0 < s.inner.eventfd))
    park-Heard p sent seen written =
        let v = Reach-Inv ops ext_arg capacity large reach in
        elim (Bool-cases s.timed) [
          | inl t ↦ inl t
          | inr t ↦ elim (List-cases s.inner.cq) [
            | inl e ↦ inr (inr (ground arith))
            | inr e ↦ inr (inl e)
          ]
        ]

    -- In the same runs, where every submission that succeeds takes all the entries: the eventfd has
    -- one read, in a queue of the ring or with the kernel, exactly while the driver holds it for
    -- installed, so that no two reads share their destination, and none is missing.
    pub reads-once : reads s.inner ≡ (if s.inner.eventfd_installed then 1 else 0)
    reads-once = (Reach-Inv ops ext_arg capacity large reach).fit.arm

  -- A call that needs room submits an operation always: the push after `make_room` does not fail.
  pub submit_with_data-room :
      (kernel : Enter) (i j : UringInner O R) (index : ℕ) (o : O)
      → Fit i
      → make_room debug complete insert kernel i ≡ ok (success tt, j)
      → insert j.ops ≡ ok (index, o)
      → submit_with_data debug complete insert kernel i
        ≡ ok (success index, record j { ops = o; sq = j.sq ++ index ∷ [] })
  unfolding submit_with_data push
  submit_with_data-room kernel i j index o fit e h =
      let (kept, room) = make_room-Kept debug complete insert small kernel i j (success tt) fit e in
      let free = room refl in rw (e, h) (ground arith)
