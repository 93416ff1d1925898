-- ===== src/LinkedList/Seg.antt =====
-- Segments of a doubly linked list in memory.
pub use monoio.Prelude.{mem, mem-append}
use monoio.Prelude.{
  ℕ, ◌≡◌, refl, sym, ap, ◌∙◌, true, false, Bool-cases, inl, inr, ◌==◌, ==_iff, ==_refl, Option,
  none, some, List, [], ◌∷◌, ◌++◌, arith,
}
use monoio.LinkedList.{Pointers, Memory, write, set_next_of, set_prev_of}

abbrev pub first_or : List ℕ → Option ℕ → Option ℕ
first_or [] o = o
first_or (x ∷ xs) o = some x

abbrev pub last_or : Option ℕ → List ℕ → Option ℕ
last_or o [] = o
last_or o (x ∷ xs) = last_or (some x) xs

-- The distinct nodes `xs` are linked both ways, between `before` and `after`.
abbrev pub Seg : Memory → Option ℕ → List ℕ → Option ℕ → Type 0
Seg m before [] after = Unit {0}
Seg m before (x ∷ xs) after =
    (m x ≡ record { prev = before; next = first_or xs after })
    × (mem x xs ≡ false)
    × Seg m (some x) xs after

abbrev pub Disjoint : List ℕ → List ℕ → Type 0
Disjoint xs ys = (a : ℕ) → mem a xs ≡ true → mem a ys ≡ false

-- A segment survives any change that spares its own nodes.
pub frame :
    (m m2 : Memory) (before : Option ℕ) (xs : List ℕ) (after : Option ℕ)
    → ((a : ℕ) → mem a xs ≡ true → m2 a ≡ m a)
    → Seg m before xs after
    → Seg m2 before xs after
frame m m2 before [] after same s = tt
frame m m2 before (x ∷ xs) after same (e, out, s) =
    (same x (ground arith) ∙ e, out, frame m m2 (some x) xs after (λ a i. same a (ground arith)) s)

pub frame-write :
    (m : Memory) (p : ℕ) (v : Pointers) (before : Option ℕ) (xs : List ℕ) (after : Option ℕ)
    → mem p xs ≡ false
    → Seg m before xs after
    → Seg (write m p v) before xs after
frame-write m p v before xs after out s =
    frame m (write m p v) before xs after (λ a i. spared a (ground arith)) s
  where
    spared : (a : ℕ) → (p == a) ≡ false → write m p v a ≡ m a
    spared a e = rw e

pub first-append :
    (xs ys : List ℕ) (o : Option ℕ) → first_or (xs ++ ys) o ≡ first_or xs (first_or ys o)
first-append [] ys o = refl
first-append (x ∷ xs) ys o = refl

pub split :
    (m : Memory) (before : Option ℕ) (xs ys : List ℕ) (after : Option ℕ)
    → Seg m before (xs ++ ys) after
    → Seg m before xs (first_or ys after) × Seg m (last_or before xs) ys after × Disjoint xs ys
split m before [] ys after s = (tt, s, λ a i. cc)
split m before (x ∷ xs) ys after (e, out, s) =
    let (front, back, apart) = split m (some x) xs ys after s in
    (
      (
        e ∙ ap (λ o. record { prev = before; next = o }) (first-append xs ys after),
        ground (arith, mem-append x xs ys),
        front,
      ),
      back,
      λ a i. elim (Bool-cases (a == x)) [
        | inl same ↦ rw ((==_iff a x).0 same) (ground (arith, mem-append x xs ys))
        | inr other ↦ apart a (ground arith)
      ],
    )

pub join :
    (m : Memory) (before : Option ℕ) (xs ys : List ℕ) (after : Option ℕ)
    → Seg m before xs (first_or ys after)
    → Seg m (last_or before xs) ys after
    → Disjoint xs ys
    → Seg m before (xs ++ ys) after
join m before [] ys after front back apart = back
join m before (x ∷ xs) ys after (e, out, front) back apart = (
  e ∙ ap (λ o. record { prev = before; next = o }) (sym (first-append xs ys after)),
  ground (arith, mem-append x xs ys, apart x),
  join m (some x) xs ys after front back (λ a i. apart a (ground arith)),
)

pub last-mem :
    (y : ℕ) (xs : List ℕ) → (p : ℕ) × (last_or (some y) xs ≡ some p) × (mem p (y ∷ xs) ≡ true)
last-mem y [] = (y, refl, rw (==_refl y))
last-mem y (x ∷ xs) = let (p, e, i) = last-mem x xs in (p, e, ground arith)

-- Writing to the last node of a list spares what is not in it, and so for the first.
pub set_next-last :
    (m : Memory) (y : ℕ) (xs : List ℕ) (other : Option ℕ) (x : ℕ)
    → mem x (y ∷ xs) ≡ false
    → set_next_of m (last_or (some y) xs) other x ≡ m x
set_next-last m y xs other x out =
    let (p, e, i) = last-mem y xs in
    rw e (elim (Bool-cases (p == x)) [
      | inl same ↦
          let in_list : mem x (y ∷ xs) ≡ true =
            ap (λ z. mem z (y ∷ xs)) (sym ((==_iff p x).0 same)) ∙ i in
          cc
      | inr ne ↦ rw ne
    ])

-- The last node of a segment, and the first, linked to something else.
pub relink_next :
    (m : Memory) (before : Option ℕ) (xs : List ℕ) (after other : Option ℕ)
    → Seg m before xs after
    → Seg (set_next_of m (last_or none xs) other) before xs other
relink_next m before [] after other s = tt
relink_next m before (x ∷ []) after other (e, out, s) =
    (rw (==_refl x) (ap (λ v. record { prev = v.prev; next = other }) e), refl, tt)
relink_next m before (x ∷ y ∷ xs) after other (e, out, s) =
    let rest = relink_next m (some x) (y ∷ xs) after other s in (spared ∙ e, out, rest)
  where
    spared : set_next_of m (last_or (some y) xs) other x ≡ m x
    spared = set_next-last m y xs other x out

pub relink_prev :
    (m : Memory) (before other : Option ℕ) (xs : List ℕ) (after : Option ℕ)
    → Seg m before xs after
    → Seg (set_prev_of m (first_or xs none) other) other xs after
relink_prev m before other [] after s = tt
relink_prev m before other (x ∷ xs) after (e, out, s) = (
  rw (==_refl x) (ap (λ v. record { prev = other; next = v.next }) e),
  out,
  frame-write m x (record (m x) { prev = other }) (some x) xs after out s,
)

-- What the ends of a segment hold.
pub next-last :
    (m : Memory) (before : Option ℕ) (y : ℕ) (ys : List ℕ) (after : Option ℕ) (p : ℕ)
    → Seg m before (y ∷ ys) after
    → last_or (some y) ys ≡ some p
    → (m p).next ≡ after
next-last m before y [] after p (e, out, s) h =
    let same : y ≡ p = cc in ap (λ z. (m z).next) (sym same) ∙ ap (λ v. v.next) e
next-last m before y (x ∷ xs) after p (e, out, s) h = next-last m (some y) x xs after p s h

pub last-append : (o : Option ℕ) (xs ys : List ℕ) → last_or o (xs ++ ys) ≡ last_or (last_or o xs) ys
last-append o [] ys = refl
last-append o (x ∷ xs) ys = last-append (some x) xs ys
