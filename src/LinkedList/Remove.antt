-- ===== src/LinkedList/Remove.antt =====
-- Taking a node out of the list, and its last one.
use monoio.Prelude.{
  ℕ, ◌≡◌, ◌≢◌, subst, refl, ◌⊎◌, ◌==◌, ap, ◌∙◌, Bool, true, false, Bool-cases, inl, inr, ==_refl,
  Option, none, some, List, [], ◌∷◌, ◌++◌, append-nil, ok, debug_assert, arith,
}
use monoio.LinkedList.{
  is_empty, pop_back, pop_last, keep_if, LinkedList, Memory, unlinked, set_prev, set_next,
  set_prev_of, set_next_of, is, remove, unlink_prev, unlink_both, unlink_next, unlink_rest,
}
use monoio.LinkedList.Seg.{frame, mem, first_or, last_or, Seg, last-mem, next-last, last-append}
use monoio.LinkedList.Refine.{
  IsList, SameOutside, cut, parts, at, out_front, spare_next, cut-Seg, cut-SameOutside,
}

abbrev from : List ℕ → LinkedList
from xs = record { head = first_or xs none; tail = last_or none xs }

debug_ok : (debug : Bool) (o : Option ℕ) (n : ℕ) → o ≡ some n → debug_assert debug (is o n) ≡ ok tt
debug_ok false o n e = refl
debug_ok true o n e = rw e (rw (==_refl n))

-- Both halves of `remove`, at a node of the list.
unlink_prev_lem :
    (debug : Bool) (m : Memory) (l : LinkedList) (ys : List ℕ) (n : ℕ) (zs : List ℕ)
    → IsList m l (ys ++ n ∷ zs)
    → unlink_prev debug m l n (last_or none ys)
      ≡ ok (
          some (
            set_next_of m (last_or none ys) (first_or zs none),
            record { head = first_or (ys ++ zs) none; tail = l.tail },
          ))
unfolding unlink_prev
unlink_prev_lem debug m l [] n zs h = rw h.head (
    rw (==_refl n)
      (ap (λ v. ok (some (m, record { head = v.next; tail = l.tail }))) (at m [] n zs h.linked)))
unlink_prev_lem debug m l (y ∷ ys) n zs h =
    let (p, e, i) = last-mem y ys in
    let (front, back, apart) = parts m (y ∷ ys) n zs h.linked in
    rw e (
      rw (debug_ok debug (m p).next n (next-last m none y ys (some n) p front e)) (
        rw (ap (λ v. v.next) (at m (y ∷ ys) n zs h.linked)) (
          ap (λ o. ok (some (set_next m p (first_or zs none), record { head = o; tail = l.tail })))
            h.head)))

unlink_next_lem :
    (debug : Bool) (m m1 : Memory) (head : Option ℕ) (ys : List ℕ) (n : ℕ) (zs : List ℕ)
    → Seg m none (ys ++ n ∷ zs) none
    → ((a : ℕ) → mem a ys ≡ false → m1 a ≡ m a)
    → unlink_next debug m1
        (record { head = head; tail = last_or none (ys ++ n ∷ zs) })
        n
        (first_or zs none)
      ≡ ok (
          some (
            set_prev_of m1 (first_or zs none) (last_or none ys),
            record { head = head; tail = last_or none (ys ++ zs) },
          ))
unfolding unlink_next
unlink_next_lem debug m m1 head ys n [] s same =
    rw (last-append none ys (n ∷ []), ==_refl n, append-nil ys)
      (ap (λ v. ok (some (m1, record { head = head; tail = v.prev })))
        (same n (out_front m ys n [] s) ∙ at m ys n [] s))
unlink_next_lem debug m m1 head ys n (z ∷ zs) s same =
    rw
      (
        debug_ok debug (m1 z).prev n at_z,
        last-append none ys (n ∷ z ∷ zs),
        last-append none ys (z ∷ zs),
      )
      (ap
        (λ v. ok (some (set_prev m1 z v.prev, record { head = head; tail = last_or (some z) zs })))
        (same n (out_front m ys n (z ∷ zs) s) ∙ at m ys n (z ∷ zs) s))
  where
    out : mem z ys ≡ false
    out = elim (Bool-cases (mem z ys)) [
      | inl bad ↦
          let apart : mem z (n ∷ z ∷ zs) ≡ false = (parts m ys n (z ∷ zs) s).2 z bad in
          let there : mem z (n ∷ z ∷ zs) ≡ true = ground (arith, ==_refl z) in cc
      | inr good ↦ good
    ]

    at_z : (m1 z).prev ≡ some n
    at_z = ap (λ v. v.prev) (same z out ∙ (parts m ys n (z ∷ zs) s).1.2.0)

-- What `remove` answers for a node of the list, and the memory and the list it leaves.
pub remove_value :
    (debug : Bool) (m : Memory) (l : LinkedList) (ys : List ℕ) (n : ℕ) (zs : List ℕ)
    → IsList m l (ys ++ n ∷ zs)
    → remove debug m l n
      ≡ ok (some n, cut m (last_or none ys) n (first_or zs none), from (ys ++ zs))
unfolding remove unlink_both unlink_rest
remove_value debug m l ys n zs h = rw (
  at_n,
  unlink_prev_lem debug m l ys n zs h,
  same n (out_front m ys n zs h.linked),
  at_n,
  h.tail,
  unlink_next_lem debug m (set_next_of m (last_or none ys) (first_or zs none))
      (first_or (ys ++ zs) none) ys n zs h.linked same,
)
  where
    at_n : m n ≡ record { prev = last_or none ys; next = first_or zs none }
    at_n = at m ys n zs h.linked

    same : (a : ℕ) → mem a ys ≡ false → set_next_of m (last_or none ys) (first_or zs none) a ≡ m a
    same a out = spare_next m ys n zs h.linked (first_or zs none) a out

-- A node of the list is taken out: it is handed back with no link left, the list is the others in
-- their order, and nothing but the list's nodes changes. No assertion of a debug build fails.
pub remove-IsList :
    (debug : Bool) (m : Memory) (l : LinkedList) (ys : List ℕ) (n : ℕ) (zs : List ℕ)
    → IsList m l (ys ++ n ∷ zs)
    → (m2 : Memory) × (l2 : LinkedList) × (remove debug m l n ≡ ok (some n, m2, l2))
      × IsList m2 l2 (ys ++ zs)
      × SameOutside (ys ++ n ∷ zs) m m2
      × (m2 n ≡ unlinked)
remove-IsList debug m l ys n zs h = (
  cut m (last_or none ys) n (first_or zs none),
  from (ys ++ zs),
  remove_value debug m l ys n zs h,
  record { head = refl; tail = refl; linked = cut-Seg m ys n zs h.linked },
  cut-SameOutside m ys n zs h.linked,
  rw (==_refl n),
)

-- A node without links that is not in the list: `None`, and nothing changes.
pub remove-stranger :
    (debug : Bool) (m : Memory) (l : LinkedList) (xs : List ℕ) (n : ℕ)
    → IsList m l xs
    → mem n xs ≡ false
    → m n ≡ unlinked
    → remove debug m l n ≡ ok (none, m, l)
unfolding remove unlink_prev unlink_both
remove-stranger debug m l xs n h out alone = rw (alone, h.head, other xs out)
  where
    other : (xs : List ℕ) → mem n xs ≡ false → is (first_or xs none) n ≡ false
    other [] out = refl
    other (x ∷ xs) out = ground arith

-- The state after `pop_back` takes `n`, which follows `ys`.
abbrev popped : Memory → List ℕ → ℕ → Memory
popped m ys n = set_next (set_prev (set_next_of m (last_or none ys) none) n none) n none

pop_back_value :
    (m : Memory) (l : LinkedList) (ys : List ℕ) (n : ℕ)
    → IsList m l (ys ++ n ∷ [])
    → pop_back m l ≡ (some n, popped m ys n, from ys)
unfolding pop_back pop_last
pop_back_value m l ys n h =
    rw (h.tail, last-append none ys (n ∷ []), at m ys n [] h.linked)
      (ap (λ o. pair (some n) (popped m ys n) (record { head = o; tail = last_or none ys }))
        (new_head ys h.head))
  where
    pair : Option ℕ → Memory → LinkedList → Option ℕ × Memory × LinkedList
    pair a b c = (a, b, c)

    new_head :
        (ys : List ℕ)
        → l.head ≡ first_or (ys ++ n ∷ []) none
        → keep_if (last_or none ys) l.head ≡ first_or ys none
    new_head [] e = refl
    new_head (y ∷ ys) e = let (p, at_p, i) = last-mem y ys in rw (at_p, e)

popped-cut :
    (m : Memory) (ys : List ℕ) (n : ℕ) (a : ℕ) → popped m ys n a ≡ cut m (last_or none ys) n none a
popped-cut m ys n a = elim (Bool-cases (n == a)) [ inl e ↦ rw (e, ==_refl n) | inr ne ↦ rw ne ]

-- The last node is taken out: it is handed back with no link left, the others keep their order,
-- and nothing but the list's nodes changes.
pub pop_back_lem :
    (m : Memory) (l : LinkedList) (ys : List ℕ) (n : ℕ)
    → IsList m l (ys ++ n ∷ [])
    → (m2 : Memory) × (l2 : LinkedList) × (pop_back m l ≡ (some n, m2, l2))
      × IsList m2 l2 ys
      × SameOutside (ys ++ n ∷ []) m m2
      × (m2 n ≡ unlinked)
pop_back_lem m l ys n h = (
  popped m ys n,
  from ys,
  pop_back_value m l ys n h,
  record {
    head = refl;
    tail = refl;
    linked =
        frame (cut m (last_or none ys) n none) (popped m ys n) none ys none
          (λ a i. popped-cut m ys n a)
          (subst (λ xs. Seg (cut m (last_or none ys) n none) none xs none) (append-nil ys)
            (cut-Seg m ys n [] h.linked));
  },
  λ a out. popped-cut m ys n a ∙ cut-SameOutside m ys n [] h.linked a out,
  rw (==_refl n),
)

-- `is_empty` answers, whatever the list.
pub is_empty_lem :
    (m : Memory) (l : LinkedList) (xs : List ℕ)
    → IsList m l xs
    → ((xs ≡ []) × (is_empty l ≡ ok true)) ⊎ ((xs ≢ []) × (is_empty l ≡ ok false))
unfolding is_empty
is_empty_lem m l [] h = inl (refl, rw (h.head, h.tail))
is_empty_lem m l (x ∷ xs) h = inr (λ e. cc, rw h.head)
