-- ===== src/Slab/Inv.antt =====
-- The representation invariant of a slab, and what a valid slab holds at each key.
use monoio.Prelude.{
  ℕ, zero, suc, ◌-◌, ◌%◌, ◌^◌, ◌≤◌, ◌<◌, ◌≡◌, refl, sym, ap, ◌∙◌, ◌⊎◌, inl, inr, true, false,
  Bool-cases, ◌==◌, ==_iff, if◌then◌else◌, Option, none, some, List, [], ◌∷◌, length, get_elem?,
  replicate, length-set, length-replicate, get_elem?-set, arith,
}
use mathlib.Core.Path.{subst}
use native.Mathlib.Nat.{pow-le-pow_right, one-le-pow}
use monoio.Slab.{Slab, new, put_page, page_or_new}
use monoio.Slab.Index.{num_pages, get_page_id, size_of, base_of}
use monoio.Slab.Page
use monoio.Slab.Page.{Page}
use monoio.Slab.Page.Free.{content-replicate}
use monoio.Slab.Page.Inv as PageInv

pub size-le : (i : ℕ) → i < num_pages → (size_of i ≤ 2 ^ 31) × (64 ≤ size_of i)
size-le i h =
    let e : 2 ^ i ≤ 2 ^ 25 = pow-le-pow_right (omega arith) {i = i} {j = 25} (omega arith) in
    (omega arith, omega (arith, one-le-pow i 2))

past_end {ℓ} : {A : Type ℓ} (xs : List A) (i : ℕ) → i < length xs → get_elem? xs i ≡ none → ⊥
past_end [] i h e = absurd (omega arith)
past_end (x ∷ xs) zero h e = cc
past_end (x ∷ xs) (suc i) h e = past_end xs i (omega arith) e

module _ {ℓ} {T : Type ℓ} where
  -- Page `i` of a slab: valid, and of the size and base that its place prescribes.
  pub record IsPage (i : ℕ) (p : Page T) : Type 0 where
    pub free : List ℕ
    pub valid : PageInv.Inv p free
    pub base : p.prev_len ≡ base_of i
    pub size : length p.slots ≡ size_of i

  pub record Inv (s : Slab T) : Type ℓ where
    pub count : length s.pages ≡ num_pages
    pub cursor : s.w_page_id < num_pages
    pub each : (i : ℕ) (p : Page T) → get_elem? s.pages i ≡ some (some p) → IsPage i p

  abbrev pub held : ℕ → Option (Option (Page T)) → Option T
  held key (some (some p)) = PageInv.view p (key - p.prev_len)
  held key _ = none

  -- What a slab holds at a key.
  abbrev pub view : Slab T → ℕ → Option T
  view s key = held key (get_elem? s.pages (get_page_id key))

  module _ (s : Slab T) (inv : Inv s) where
    lookup :
        (i : ℕ) (p : Page T) (j : ℕ)
        → i < num_pages
        → get_elem? (put_page s i p).pages j
          ≡ (if i == j then some (some p) else get_elem? s.pages j)
    lookup i p j h = get_elem?-set s.pages i j (some p) (omega (arith, inv.count))

    lookup_self :
        (i : ℕ) (p : Page T) (j : ℕ)
        → i < num_pages
        → (i == j) ≡ true
        → get_elem? (put_page s i p).pages j ≡ some (some p)
    lookup_self i p j h same = rw (lookup i p j h, same)

    lookup_ne :
        (i : ℕ) (p : Page T) (j : ℕ)
        → i < num_pages
        → (i == j) ≡ false
        → get_elem? (put_page s i p).pages j ≡ get_elem? s.pages j
    lookup_ne i p j h other = rw (lookup i p j h, other)

    pub Inv-put : (i : ℕ) (p : Page T) → i < num_pages → IsPage i p → Inv (put_page s i p)
    Inv-put i p h page = record {
      count = length-set s.pages i (some p) ∙ inv.count;
      cursor = inv.cursor;
      each = λ j q e. elim (Bool-cases (i == j)) [
        | inl same ↦
            let found : some (some p) ≡ some (some q) = sym (lookup_self i p j h same) ∙ e in
            let here : IsPage j p = rw (← (==_iff i j).0 same) page in
            let eq : p ≡ q = cc in subst (IsPage j) eq here
        | inr other ↦ inv.each j q (sym (lookup_ne i p j h other) ∙ e)
      ];
    }

    pub view-put :
        (i : ℕ) (p : Page T) (k : ℕ)
        → i < num_pages
        → view (put_page s i p) k
          ≡ (if i == get_page_id k then PageInv.view p (k - p.prev_len) else view s k)
    view-put i p k h = elim (Bool-cases (i == get_page_id k)) [
      | inl same ↦ rw same (ap (held k) (lookup_self i p (get_page_id k) h same))
      | inr other ↦ rw other (ap (held k) (lookup_ne i p (get_page_id k) h other))
    ]

    -- Every page number below `num_pages` has its place.
    pub place :
        (i : ℕ)
        → i < num_pages
        → (get_elem? s.pages i ≡ some none) ⊎ ((p : Page T) × (get_elem? s.pages i ≡ some (some p)))
    place i h = by_case (get_elem? s.pages i) refl
      where
        by_case :
            (o : Option (Option (Page T)))
            → get_elem? s.pages i ≡ o
            → (o ≡ some none) ⊎ ((p : Page T) × (o ≡ some (some p)))
        by_case none e = absurd (past_end s.pages i (omega (arith, inv.count)) e)
        by_case (some none) e = inl refl
        by_case (some (some p)) e = inr (p, refl)

  -- A place with no page holds as much as a new page does: nothing.
  pub create-IsPage :
      (i : ℕ)
      → i < num_pages
      → let p : Page T = page_or_new i none in
        IsPage i p × (Page.is_full p ≡ false) × ((j : ℕ) → PageInv.view p j ≡ none)
  unfolding Page.create Page.is_full
  create-IsPage i h = (
    record {
      free = [];
      valid = PageInv.create-Inv size (size - 64) (omega (arith, size-le i h));
      base = omega (arith, size-le i h);
      size = length-replicate size Page.uninit ∙ exact;
    },
    ground (arith, length-replicate {A = Page.Slot T} size Page.uninit, exact, size-le i h),
    λ j. content-replicate T size j,
  )
    where
      size : ℕ
      size = size_of i % 2 ^ 64

      exact : size ≡ size_of i
      exact = omega (arith, size-le i h)

  no_pages :
      (n i : ℕ) (p : Page T)
      → get_elem? (replicate {A = Option (Page T)} n none) i ≡ some (some p)
      → ⊥
  no_pages zero i p e = cc
  no_pages (suc n) zero p e = cc
  no_pages (suc n) (suc i) p e = no_pages n i p e

  pub new-Inv : Inv new
  unfolding new
  new-Inv = record {
    count = refl;
    cursor = omega arith;
    each = λ i p e. absurd (no_pages num_pages i p e);
  }
