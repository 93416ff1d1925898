-- ===== src/LinkedList/Drain.antt =====
-- `DrainFilter`: one step of the iterator, and a loop over it to its end.
use monoio.Prelude.{
  ℕ, zero, suc, ◌≤◌, ◌<◌, ◌≡◌, sym, refl, subst, ◌⊎◌, ap, ◌∙◌, Bool, Bool-cases, inl, inr,
  if◌then◌else◌, Option, none, some, List, [], ◌∷◌, ◌++◌, append-nil, append_assoc, length, Outcome,
  ok, panic, undefined, arith,
}
use monoio.LinkedList.{LinkedList, Memory, drain_next}
use monoio.LinkedList.Seg.{first_or}
use monoio.LinkedList.Refine.{IsList, at}
use monoio.LinkedList.Remove.{remove-IsList}

-- The nodes that the filter takes, and those it leaves.
abbrev pub taken : (ℕ → Bool) → List ℕ → List ℕ
taken p [] = []
taken p (x ∷ xs) = if p x then x ∷ taken p xs else taken p xs

abbrev pub kept : (ℕ → Bool) → List ℕ → List ℕ
kept p [] = []
kept p (x ∷ xs) = if p x then kept p xs else x ∷ kept p xs

-- What `next` may answer, with the nodes `ys` behind it and `cs` before it.
abbrev pub Step : Bool → (ℕ → Bool) → ℕ → Memory → LinkedList → List ℕ → List ℕ → Type 0
Step debug p fuel m l ys cs =
    ((taken p cs ≡ [])
      × (kept p cs ≡ cs)
      × (drain_next debug p fuel m l (first_or cs none)
          ≡ some (ok (none, record { memory = m; list = l; curr = none }))))
    ⊎ ((front : List ℕ) × (c : ℕ) × (back : List ℕ) × (m2 : Memory) × (l2 : LinkedList) × (length
            back
          < length cs)
        × (taken p cs ≡ c ∷ taken p back)
        × (kept p cs ≡ front ++ kept p back)
        × (drain_next debug p fuel m l (first_or cs none)
            ≡ some (ok (some c, record { memory = m2; list = l2; curr = first_or back none })))
        × IsList m2 l2 (ys ++ front ++ back))

pub drain_next_lem :
    (debug : Bool) (p : ℕ → Bool) (fuel : ℕ) (m : Memory) (l : LinkedList) (ys cs : List ℕ)
    → length cs ≤ fuel
    → IsList m l (ys ++ cs)
    → Step debug p fuel m l ys cs
unfolding drain_next
drain_next_lem debug p fuel m l ys [] b h = inl (refl, refl, refl)
drain_next_lem debug p zero m l ys (c ∷ cs) b h = absurd (omega arith)
drain_next_lem debug p (suc fuel) m l ys (c ∷ cs) b h = elim (Bool-cases (p c)) [
  | inl take ↦
      let (m2, l2, e, h2, out, alone) = remove-IsList debug m l ys c cs h in
      inr (
        [],
        c,
        cs,
        m2,
        l2,
        omega arith,
        rw take,
        rw take,
        rw (take, e, next),
        rw (append-nil ys) h2,
      )
  | inr keep ↦
      elim (drain_next_lem debug p fuel m l (ys ++ c ∷ []) cs (omega arith)
        (subst (IsList m l) (sym (append_assoc ys (c ∷ []) cs)) h)) [
          | inl (t, k, e) ↦ inl (rw keep t, rw keep (ap (λ z. c ∷ z) k), rw (keep, next) e)
          | inr (front, n, back, m2, l2, lt, t, k, e, h2) ↦ inr (
            c ∷ front,
            n,
            back,
            m2,
            l2,
            omega arith,
            rw keep t,
            rw keep (ap (λ z. c ∷ z) k),
            rw (keep, next) e,
            subst (λ z. IsList m2 l2 (z ++ back)) (append_assoc ys (c ∷ []) front) h2,
          )
        ]
]
  where
    next : (m c).next ≡ first_or cs none
    next = ap (λ v. v.next) (at m ys c cs h.linked)

-- A loop over the iterator to its end: the nodes it hands out, and what it leaves. `fuel` is what
-- each step may use, and `calls` bounds the steps.
abbrev pub Drained : Type 0
Drained = Option (Outcome (List ℕ × Memory × LinkedList))

abbrev hand_out : ℕ → Drained → Drained
hand_out c (some (ok (cs, m, l))) = some (ok (c ∷ cs, m, l))
hand_out c other = other

pub drain_all : Bool → (ℕ → Bool) → ℕ → ℕ → Memory → LinkedList → Option ℕ → Drained
drain_all debug p fuel zero m l curr = none
drain_all debug p fuel (suc calls) m l curr = elim (drain_next debug p fuel m l curr) [
  | none ↦ none
  | some (ok (none, d)) ↦ some (ok ([], d.memory, d.list))
  | some (ok (some c, d)) ↦ hand_out c (drain_all debug p fuel calls d.memory d.list d.curr)
  | some panic ↦ some panic
  | some undefined ↦ some undefined
]

drain_from :
    (debug : Bool) (p : ℕ → Bool) (fuel calls : ℕ) (m : Memory) (l : LinkedList) (ys cs : List ℕ)
    → length cs ≤ fuel
    → length cs < calls
    → IsList m l (ys ++ cs)
    → (m2 : Memory) × (l2 : LinkedList) × (drain_all debug p fuel calls m l (first_or cs none)
        ≡ some (ok (taken p cs, m2, l2)))
      × IsList m2 l2 (ys ++ kept p cs)
unfolding drain_all
drain_from debug p fuel zero m l ys cs b b2 h = absurd (omega arith)
drain_from debug p fuel (suc calls) m l ys cs b b2 h =
    elim (drain_next_lem debug p fuel m l ys cs b h) [
      | inl (t, k, e) ↦ (m, l, rw (e, t, drain_all) refl, rw k h)
      | inr (front, c, back, m2, l2, lt, t, k, e, h2) ↦
          let (m3, l3, e3, h3) =
            drain_from debug p fuel calls m2 l2 (ys ++ front) back (omega arith) (omega arith) h2 in
          (
            m3,
            l3,
            rw (e, t, e3, drain_all) refl,
            rw k (subst (IsList m3 l3) (append_assoc ys front (kept p back)) h3),
          )
    ]

-- A loop over `drain_filter` ends, after at most one call more than the list has nodes: it hands out
-- the nodes that the filter takes, in order, and the list is the others, in order.
pub drain_all_lem :
    (debug : Bool) (p : ℕ → Bool) (m : Memory) (l : LinkedList) (xs : List ℕ)
    → IsList m l xs
    → (m2 : Memory) × (l2 : LinkedList) × (drain_all debug p
          (length xs)
          (suc (length xs))
          m
          l
          l.head
        ≡ some (ok (taken p xs, m2, l2)))
      × IsList m2 l2 (kept p xs)
drain_all_lem debug p m l xs h =
    let (m2, l2, e, h2) =
      drain_from debug p (length xs) (suc (length xs)) m l [] xs (omega arith) (omega arith) h in
    (m2, l2, ap (drain_all debug p (length xs) (suc (length xs)) m l) h.head ∙ e, h2)
