-- ===== src/Driver/Uring/Park/Armed.antt =====
-- While the driver sleeps, its read of the eventfd is with the kernel.
use monoio.Prelude.{
  ◌⊎◌, inl, inr, ℕ, zero, suc, ◌+◌, ◌≤◌, ◌≡◌, refl, Bool, ◌&&◌, ◌==◌, if◌then◌else◌, Option, none,
  some, List, [], ◌∷◌, ◌++◌, length, Outcome, ok, panic, undefined, arith,
}
use monoio.Driver.Lifecycle.{IoResult, success, failure}
use monoio.Driver.Uring.{
  eventfd_userdata, Cqe, UringInner, Enter, occurs, submit, submit_loop, answer_with, then_tick,
  tick, tick_all, tick_one, succeed, M, ◌>>=◌, continue,
}

pub occurs-append : (xs ys : List ℕ) (x : ℕ) → occurs (xs ++ ys) x ≡ occurs xs x + occurs ys x
occurs-append [] ys x = omega arith
occurs-append (y ∷ xs) ys x = ground (arith, occurs-append xs ys x)

abbrev pub arrivals : {R : Type 0} → List (Cqe R) → ℕ → ℕ
arrivals [] x = 0
arrivals (c ∷ cs) x = (if c.user_data == x then 1 else 0) + arrivals cs x

pub arrivals-append :
    {R : Type 0} (xs ys : List (Cqe R)) (x : ℕ)
    → arrivals (xs ++ ys) x ≡ arrivals xs x + arrivals ys x
arrivals-append [] ys x = omega arith
arrivals-append (y ∷ xs) ys x = ground (arith, arrivals-append xs ys x)

-- The driver's reads of the eventfd, in the queues and with the kernel.
abbrev pub reads : {O R : Type 0} → UringInner O R → ℕ
reads i =
    occurs i.sq eventfd_userdata + (if i.reading then 1 else 0) + arrivals i.cq eventfd_userdata

-- There is one, exactly while the eventfd is installed.
pub record Fit {O R : Type 0} (i : UringInner O R) : Type 0 where
  pub room : length i.sq ≤ i.capacity
  pub two : 2 ≤ i.capacity
  pub arm : reads i ≡ (if i.eventfd_installed then 1 else 0)

-- What a call of the queues leaves alone.
pub record Same {O R : Type 0} (i j : UringInner O R) : Type 0 where
  pub awake : j.awake ≡ i.awake
  pub channel : j.channel ≡ i.channel
  pub eventfd : j.eventfd ≡ i.eventfd
  pub capacity : j.capacity ≡ i.capacity

of_answer :
    {O R A B : Type 0} (f : A → M O R B) (j : UringInner O R) (r : IoResult B)
    (x : Outcome (IoResult A × UringInner O R))
    → continue f x ≡ ok (r, j)
    → ((a : A) × (k : UringInner O R) × (x ≡ ok (success a, k)) × (f a k ≡ ok (r, j)))
      ⊎ ((y : ℕ) × (x ≡ ok (failure y, j)) × (r ≡ failure y))
of_answer f j r (ok (success a, k)) e = inl (a, k, refl, e)
of_answer f j r (ok (failure y, k)) e = inr (y, cc, cc)
of_answer f j r panic e = cc
of_answer f j r undefined e = cc

pub bind-cases :
    {O R A B : Type 0} (m : M O R A) (f : A → M O R B) (i j : UringInner O R) (r : IoResult B)
    → (m >>= f) i ≡ ok (r, j)
    → ((a : A) × (k : UringInner O R) × (m i ≡ ok (success a, k)) × (f a k ≡ ok (r, j)))
      ⊎ ((x : ℕ) × (m i ≡ ok (failure x, j)) × (r ≡ failure x))
bind-cases m f i j r e = of_answer f j r (m i) e

module _ {O R : Type 0} (debug : Bool) (complete : O → Cqe R → Outcome O) where
  -- What a round of the completion queue leaves alone, and when the eventfd stays installed.
  pub record Ticked (cs : List (Cqe R)) (i j : UringInner O R) : Type 0 where
    pub same : Same i j
    pub sq : j.sq ≡ i.sq
    pub reading : j.reading ≡ i.reading
    pub cq : j.cq ≡ i.cq
    pub installed :
        j.eventfd_installed ≡ (i.eventfd_installed && (arrivals cs eventfd_userdata == 0))

  tick_one-Ticked :
      (c : Cqe R) (i j : UringInner O R) → tick_one debug complete c i ≡ ok j → Ticked (c ∷ []) i j
  unfolding tick_one
  tick_one-Ticked c i j e = ground arith

  then_tick-ok :
      (rest : UringInner O R → Outcome (UringInner O R)) (m : Outcome (UringInner O R))
      (j : UringInner O R)
      → then_tick debug complete rest m ≡ ok j
      → (k : UringInner O R) × (m ≡ ok k) × (rest k ≡ ok j)
  then_tick-ok rest (ok k) j e = (k, refl, e)
  then_tick-ok rest panic j e = cc
  then_tick-ok rest undefined j e = cc

  tick_all-Ticked :
      (cs : List (Cqe R)) (i j : UringInner O R)
      → tick_all debug complete cs i ≡ ok j
      → Ticked cs i j
  unfolding tick_all
  tick_all-Ticked [] i j e = ground arith
  tick_all-Ticked (c ∷ cs) i j e =
      let (k, f, g) =
        then_tick-ok (λ (x : UringInner O R). tick_all debug complete cs x)
          (tick_one debug complete c i) j e in
      let a = tick_one-Ticked c i k f in let b = tick_all-Ticked cs k j g in ground arith

  -- What a call that may tick and submit leaves as it should be.
  pub record Kept (i j : UringInner O R) : Type 0 where
    pub same : Same i j
    pub fit : Fit j

  pub Kept-trans : {i j k : UringInner O R} → Kept i j → Kept j k → Kept i k
  Kept-trans a b = ground arith

  succeed-ok :
      (m : Outcome (UringInner O R)) (j : UringInner O R) (r : IoResult (Unit {0}))
      → succeed debug complete m ≡ ok (r, j)
      → (r ≡ success tt) × (m ≡ ok j)
  succeed-ok (ok k) j r e = (cc, cc)
  succeed-ok panic j r e = cc
  succeed-ok undefined j r e = cc

  pub tick-Kept :
      (i j : UringInner O R) (r : IoResult (Unit {0}))
      → Fit i
      → tick debug complete i ≡ ok (r, j)
      → Kept i j × (r ≡ success tt) × (j.sq ≡ i.sq)
  unfolding tick
  tick-Kept i j r fit e =
      let (p, q) = succeed-ok (tick_all debug complete i.cq (record i { cq = [] })) j r e in
      let t = tick_all-Ticked i.cq (record i { cq = [] }) j q in ground arith

  pub submit_loop-Kept :
      (n : ℕ) (error : Option ℕ) (i j : UringInner O R) (r : IoResult (Unit {0}))
      → Fit i
      → submit_loop debug complete n error i ≡ ok (r, j)
      → Kept i j × (r ≡ success tt → j.sq ≡ [])
  unfolding submit_loop answer_with
  submit_loop-Kept zero none i j r fit e = ground arith
  submit_loop-Kept zero (some x) i j r fit e = ground arith
  submit_loop-Kept (suc n) error i j r fit e =
      elim (bind-cases (tick debug complete) (λ _. submit_loop debug complete n error) i j r e) [
        | inl (a, k, f, g) ↦
            let (kept, _, _) = tick-Kept i k (success a) fit f in
            let (more, empty) = submit_loop-Kept n error k j r kept.fit g in
            (Kept-trans kept more, empty)
        | inr (x, f, g) ↦ let (_, p, _) = tick-Kept i j (failure x) fit f in absurd (ground arith)
      ]

  pub submit-Kept :
      (kernel : Enter) (i j : UringInner O R) (r : IoResult (Unit {0}))
      → Fit i
      → submit debug complete kernel i ≡ ok (r, j)
      → Kept i j × (r ≡ success tt → j.sq ≡ [])
  unfolding submit
  submit-Kept kernel i j r fit e = submit_loop-Kept kernel.busy kernel.error i j r fit e
