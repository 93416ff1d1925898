-- ===== src/Driver/Uring/Park/Room.antt =====
-- Room in the submission queue: what the calls that put entries into it leave as it should be.
use mathlib.Core.Path.{subst}
use monoio.Prelude.{
  ok_injective, ◌⊎◌, inl, inr, ℕ, ◌+◌, ◌<◌, ◌≤◌, ◌≡◌, refl, Bool, true, false, ◌==◌, [], ◌∷◌, ◌++◌,
  length, length-append, Outcome, ok, panic, undefined, arith,
}
use monoio.Driver.Lifecycle.{IoResult, success, failure}
use monoio.Driver.Uring.{
  eventfd_userdata, min_reversed_userdata, Cqe, UringInner, Enter, push, prepare, make_space,
  make_room, enqueue, push_again, again, cancel_userdata, submit, timeout_userdata, space, installs,
  install_eventfd, install_timeout, modify, flush_space, finish, submit_with_data, cancel_op,
  driver_submit, tick,
}
use monoio.Driver.Uring.Park.Armed.{
  occurs-append, Fit, bind-cases, Kept, Kept-trans, tick-Kept, submit-Kept,
}

module _ {O R : Type 0} (debug : Bool) (complete : O → Cqe R → Outcome O) where
  -- Room for what the park puts into the queue.
  flush_space-Kept :
      (kernel : Enter) (need : ℕ) (i j : UringInner O R) (r : IoResult (Unit {0}))
      → Fit i
      → flush_space debug complete kernel need i ≡ ok (r, j)
      → Kept debug complete i j
        × (r ≡ success tt → (j.sq ≡ []) ⊎ ((j ≡ i) × (length i.sq + need ≤ i.capacity)))
  unfolding flush_space
  flush_space-Kept kernel need i j r fit e = ground (arith, submit-Kept debug complete kernel i j r)

  installs-Kept :
      (timed : Bool) (i : UringInner O R)
      → Fit i
      → length i.sq + space debug complete timed i ≤ i.capacity
      → Kept debug complete i (installs debug complete timed i)
        × ((installs debug complete timed i).eventfd_installed ≡ true)
  unfolding install_eventfd install_timeout
  installs-Kept timed i fit h = ground (
    arith,
    length-append i.sq (eventfd_userdata ∷ []),
    length-append i.sq (timeout_userdata ∷ []),
    length-append (i.sq ++ eventfd_userdata ∷ []) (timeout_userdata ∷ []),
    occurs-append i.sq (eventfd_userdata ∷ []) eventfd_userdata,
    occurs-append i.sq (timeout_userdata ∷ []) eventfd_userdata,
    occurs-append (i.sq ++ eventfd_userdata ∷ []) (timeout_userdata ∷ []) eventfd_userdata,
  )

  room_for :
      (timed : Bool) (i : UringInner O R)
      → Fit i
      → i.sq ≡ []
      → length i.sq + space debug complete timed i ≤ i.capacity
  room_for timed i fit e = ground arith

  make_space-Kept :
      (kernel : Enter) (timed : Bool) (i j : UringInner O R) (r : IoResult (Unit {0}))
      → Fit i
      → make_space debug complete kernel timed i ≡ ok (r, j)
      → Kept debug complete i j
        × (r ≡ success tt → length j.sq + space debug complete timed j ≤ j.capacity)
        × (timed ≡ false → i.eventfd_installed ≡ true → j.cq ≡ i.cq)
  unfolding make_space
  make_space-Kept kernel timed i j r fit e =
      ground
        (arith, flush_space-Kept kernel (space debug complete timed i) i j r fit, room_for timed j)

  pub prepare-Kept :
      (kernel : Enter) (timed : Bool) (i j : UringInner O R) (r : IoResult (Unit {0}))
      → Fit i
      → prepare debug complete kernel timed i ≡ ok (r, j)
      → Kept debug complete i j
        × (r ≡ success tt → j.eventfd_installed ≡ true)
        × (timed ≡ false → i.eventfd_installed ≡ true → j.cq ≡ i.cq)
  unfolding prepare
  prepare-Kept kernel timed i j r fit e =
      elim (bind-cases (make_space debug complete kernel timed)
        (λ _. modify (installs debug complete timed)) i j r e) [
          | inl (a, k, f, g) ↦
              let (kept, room, _) = make_space-Kept kernel timed i k (success a) fit f in
              let (more, there) = installs-Kept timed k kept.fit (room refl) in ground arith
          | inr (x, f, g) ↦
              let (kept, _, same) = make_space-Kept kernel timed i j (failure x) fit f in
              ground arith
        ]

  pub driver_submit-Kept :
      (kernel : Enter) (i j : UringInner O R) (r : IoResult (Unit {0}))
      → Fit i
      → driver_submit debug complete kernel i ≡ ok (r, j)
      → Kept debug complete i j
  unfolding driver_submit
  driver_submit-Kept kernel i j r fit e =
      elim (bind-cases (submit debug complete kernel) (λ _. tick debug complete) i j r e) [
        | inl (a, k, f, g) ↦
            let (kept, _) = submit-Kept debug complete kernel i k (success a) fit f in
            Kept-trans debug complete kept (tick-Kept debug complete k j r kept.fit g).0
        | inr (x, f, g) ↦ (submit-Kept debug complete kernel i j (failure x) fit f).0
      ]

  pub finish-Kept :
      (i j : UringInner O R) (r : IoResult (Unit {0}))
      → Fit i
      → finish debug complete i ≡ ok (r, j)
      → Fit j
  unfolding finish
  finish-Kept i j r fit e =
      let fit2 : Fit (record i { awake = true }) = ground arith in
      ground (arith, tick-Kept debug complete (record i { awake = true }) j r fit2)

  push-Kept :
      (x : ℕ) (i : UringInner O R)
      → (x == eventfd_userdata) ≡ false
      → Fit i
      → Kept debug complete i (push x i).1
  unfolding push
  push-Kept x i other fit =
      ground (arith, length-append i.sq (x ∷ []), occurs-append i.sq (x ∷ []) eventfd_userdata)

  pushed_again-Kept :
      (i j : UringInner O R) (x : Outcome (IoResult (Unit {0}) × UringInner O R))
      → ((k : UringInner O R) (r : IoResult (Unit {0})) → x ≡ ok (r, k) → Kept debug complete i k)
      → push_again debug complete x ≡ ok j
      → Kept debug complete i j
  pushed_again-Kept i j (ok (r, k)) h e =
      let kept = h k r refl in
      Kept-trans debug complete kept (
        subst (λ z. Kept debug complete k z) (ok_injective e)
          (push-Kept cancel_userdata k refl kept.fit))
  pushed_again-Kept i j panic h e = cc
  pushed_again-Kept i j undefined h e = cc

  again-Kept :
      (kernel : Enter) (b : Bool) (i j : UringInner O R)
      → Fit i
      → again debug complete kernel (b, i) ≡ ok j
      → Kept debug complete i j
  again-Kept kernel true i j fit e = ground arith
  again-Kept kernel false i j fit e =
      pushed_again-Kept i j (submit debug complete kernel i)
        (λ k r f. (submit-Kept debug complete kernel i k r fit f).0) e

  pub cancel_op-Kept :
      (kernel : Enter) (i j : UringInner O R)
      → Fit i
      → cancel_op debug complete kernel i ≡ ok j
      → Kept debug complete i j
  unfolding cancel_op
  cancel_op-Kept kernel i j fit e =
      Kept-trans debug complete (push-Kept cancel_userdata i refl fit) (
        again-Kept kernel (push cancel_userdata i).0 (push cancel_userdata i).1 j
          (push-Kept cancel_userdata i refl fit).fit e)

  module _ (insert : O → Outcome (ℕ × O))
      (small : (o o2 : O) (index : ℕ)
        → insert o ≡ ok (index, o2)
        → index < min_reversed_userdata) where
    -- An operation is put into a queue that has room.
    pub make_room-Kept :
        (kernel : Enter) (i j : UringInner O R) (r : IoResult (Unit {0}))
        → Fit i
        → make_room debug complete insert kernel i ≡ ok (r, j)
        → Kept debug complete i j × (r ≡ success tt → length j.sq < j.capacity)
    make_room-Kept kernel i j r fit e = ground (arith, submit-Kept debug complete kernel i j r fit)

    enqueue-Kept :
        (i : UringInner O R) (x : Outcome (ℕ × O)) (j : UringInner O R) (r : IoResult ℕ)
        → ((index : ℕ) (o : O) → x ≡ ok (index, o) → index < min_reversed_userdata)
        → Fit i
        → enqueue debug complete insert i x ≡ ok (r, j)
        → Kept debug complete i j
    unfolding push
    enqueue-Kept i (ok (index, o)) j r low fit e = ground (
      arith,
      low index o,
      length-append i.sq (index ∷ []),
      occurs-append i.sq (index ∷ []) eventfd_userdata,
    )
    enqueue-Kept i panic j r low fit e = cc
    enqueue-Kept i undefined j r low fit e = cc

    pub submit_with_data-Kept :
        (kernel : Enter) (i j : UringInner O R) (r : IoResult ℕ)
        → Fit i
        → submit_with_data debug complete insert kernel i ≡ ok (r, j)
        → Kept debug complete i j
    unfolding submit_with_data
    submit_with_data-Kept kernel i j r fit e =
        elim (bind-cases (make_room debug complete insert kernel)
          (λ _ k. enqueue debug complete insert k (insert k.ops)) i j r e) [
            | inl (a, k, f, g) ↦
                let (kept, _) = make_room-Kept kernel i k (success a) fit f in
                Kept-trans debug complete kept
                  (enqueue-Kept k (insert k.ops) j r (λ index o. small k.ops o index) kept.fit g)
            | inr (x, f, g) ↦ (make_room-Kept kernel i j (failure x) fit f).0
          ]
