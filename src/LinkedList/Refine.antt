-- ===== src/LinkedList/Refine.antt =====
-- The list in memory stands for a sequence of distinct nodes, front first.
use monoio.Prelude.{
  ℕ, ◌≡◌, refl, sym, ap, ◌∙◌, true, false, Bool-cases, inl, inr, ◌⊎◌, ◌==◌, ==_refl, Option, none,
  some, List, [], ◌∷◌, ◌++◌, ok, arith,
}
use monoio.LinkedList.{LinkedList, Memory, set_prev, set_next, set_prev_of, set_next_of, push_front}
use monoio.LinkedList.Seg.{
  mem, first_or, last_or, Seg, Disjoint, mem-append, frame, frame-write, split, join, last-mem,
  set_next-last, relink_next, relink_prev,
}

pub record IsList (m : Memory) (l : LinkedList) (xs : List ℕ) : Type 0 where
  pub head : l.head ≡ first_or xs none
  pub tail : l.tail ≡ last_or none xs
  pub linked : Seg m none xs none

-- Nothing but these nodes changes.
abbrev pub SameOutside : List ℕ → Memory → Memory → Type 0
SameOutside xs m m2 = (a : ℕ) → mem a xs ≡ false → m2 a ≡ m a

-- A node that is not in the list becomes its first, without a panic; the others keep their order,
-- and nothing but the list's nodes changes.
pub push_front_lem :
    (m : Memory) (l : LinkedList) (xs : List ℕ) (p : ℕ)
    → IsList m l xs
    → mem p xs ≡ false
    → (m2 : Memory) × (l2 : LinkedList) × (push_front m l p ≡ ok (m2, l2))
      × IsList m2 l2 (p ∷ xs)
      × SameOutside (p ∷ xs) m m2
unfolding push_front
push_front_lem m l [] p h out = (
  set_prev (set_next m p l.head) p none,
  record { head = some p; tail = some p },
  rw (h.head, h.tail),
  record {
    head = refl;
    tail = refl;
    linked = (rw (==_refl p) (ap (λ o. record { prev = none; next = o }) h.head), refl, tt);
  },
  λ a o. let ne : (p == a) ≡ false = ground arith in rw ne,
)
push_front_lem m l (x ∷ xs) p h out = (
  set_prev m1 x (some p),
  record { head = some p; tail = last_or (some x) xs },
  rw (h.head, h.tail, ne) (rw (last-mem x xs).1),
  record {
    head = refl;
    tail = refl;
    linked = (
      rw back (rw (==_refl p) (ap (λ o. record { prev = none; next = o }) h.head)),
      out,
      relink_prev m1 none (some p) (x ∷ xs) none (
          frame-write (set_next m p l.head) p _ none (x ∷ xs) none out
            (frame-write m p _ none (x ∷ xs) none out h.linked)),
    );
  },
  λ a o.
      let na : (x == a) ≡ false = ground arith in
      let nb : (p == a) ≡ false = ground arith in rw (na, nb),
)
  where
    m1 : Memory
    m1 = set_prev (set_next m p l.head) p none

    ne : (x == p) ≡ false
    ne = ground arith

    back : set_prev m1 x (some p) p ≡ m1 p
    back = rw ne

-- A list without one of its nodes: what `remove` and `pop_back` write.
abbrev pub cut : Memory → Option ℕ → ℕ → Option ℕ → Memory
cut m before n after =
    set_prev (set_next (set_prev_of (set_next_of m before after) after before) n none) n none

-- `Seg` after the links round a node are closed, through an optional pointer.
first-mem : (xs : List ℕ) → (xs ≡ []) ⊎ ((x : ℕ) × (first_or xs none ≡ some x) × (mem x xs ≡ true))
first-mem [] = inl refl
first-mem (x ∷ xs) = inr (x, refl, rw (==_refl x))

module _ (m : Memory) (ys : List ℕ) (n : ℕ) (zs : List ℕ) (s : Seg m none (ys ++ n ∷ zs) none) where
  pub parts : Seg m none ys (some n) × Seg m (last_or none ys) (n ∷ zs) none × Disjoint ys (n ∷ zs)
  parts = split m none ys (n ∷ zs) none s

  pub at : m n ≡ record { prev = last_or none ys; next = first_or zs none }
  at = parts.1.0

  pub out_front : mem n ys ≡ false
  out_front = elim (Bool-cases (mem n ys)) [
    | inl bad ↦
        let both : mem n (n ∷ zs) ≡ false = parts.2 n bad in
        let one : mem n (n ∷ zs) ≡ true = rw (==_refl n) in cc
    | inr good ↦ good
  ]

  pub out_back : mem n zs ≡ false
  out_back = parts.1.1

  apart : Disjoint ys zs
  apart a i = ground (arith, parts.2 a)

  pub spare_next :
      (other : Option ℕ) (x : ℕ) → mem x ys ≡ false → set_next_of m (last_or none ys) other x ≡ m x
  spare_next other x out = spare_next_of ys out
    where
      spare_next_of :
          (ys : List ℕ) → mem x ys ≡ false → set_next_of m (last_or none ys) other x ≡ m x
      spare_next_of [] out = refl
      spare_next_of (y ∷ ys) out = set_next-last m y ys other x out

  spare_prev :
      (m1 : Memory) (other : Option ℕ) (x : ℕ)
      → mem x zs ≡ false
      → set_prev_of m1 (first_or zs none) other x ≡ m1 x
  spare_prev m1 other x out = spare_prev_of zs out
    where
      spare_prev_of :
          (zs : List ℕ) → mem x zs ≡ false → set_prev_of m1 (first_or zs none) other x ≡ m1 x
      spare_prev_of [] out = refl
      spare_prev_of (z ∷ zs) out = let ne : (z == x) ≡ false = ground arith in rw ne

  pub cut-Seg : Seg (cut m (last_or none ys) n (first_or zs none)) none (ys ++ zs) none
  cut-Seg =
      frame-write (set_next m2 n none) n _ none (ys ++ zs) none out
        (frame-write m2 n _ none (ys ++ zs) none out (join m2 none ys zs none front back apart))
    where
      pv : Option ℕ
      pv = last_or none ys

      nx : Option ℕ
      nx = first_or zs none

      m1 : Memory
      m1 = set_next_of m pv nx

      m2 : Memory
      m2 = set_prev_of m1 nx pv

      back_apart : (a : ℕ) → mem a zs ≡ true → mem a ys ≡ false
      back_apart a i = elim (Bool-cases (mem a ys)) [
        | inl bad ↦ let no_way = apart a bad in cc
        | inr good ↦ good
      ]

      front : Seg m2 none ys nx
      front =
          frame m1 m2 none ys nx (λ a i. spare_prev m1 pv a (apart a i))
            (relink_next m none ys (some n) nx parts.0)

      back : Seg m2 pv zs none
      back =
          relink_prev m1 (some n) pv zs none
            (frame m m1 (some n) zs none (λ a i. spare_next nx a (back_apart a i)) parts.1.2)

      out : mem n (ys ++ zs) ≡ false
      out = mem-append n ys zs ∙ rw (out_front, out_back)

  pub cut-SameOutside : SameOutside (ys ++ n ∷ zs) m (cut m (last_or none ys) n (first_or zs none))
  cut-SameOutside a o =
      let spread = sym (mem-append a ys (n ∷ zs)) ∙ o in
      let ne : (n == a) ≡ false = ground arith in
      rw ne (
        spare_prev (set_next_of m (last_or none ys) (first_or zs none)) (last_or none ys) a
          (ground arith)
        ∙ spare_next (first_or zs none) a (ground arith))
