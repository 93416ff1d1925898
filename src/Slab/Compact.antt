-- ===== src/Slab/Compact.antt =====
-- `mark_remove`: dropping the last page when it is empty changes nothing that a slab holds.
use monoio.Prelude.{
  ℕ, zero, suc, ◌+◌, ◌-◌, ◌%◌, ◌^◌, ◌<◌, ◌≡◌, refl, sym, ap, ◌∙◌, inl, inr, true, false, Bool-cases,
  Option-cases, ◌==◌, ==_iff, ltb, Option, none, some, List, [], ◌∷◌, length, get_elem?, set,
  length-set, get_elem?-set, arith,
}
use mathlib.Core.Option
use monoio.Slab.{Slab, mark_remove, last_page, drop_empty, compact_interval}
use monoio.Slab.Index.{num_pages, get_page_id}
use monoio.Slab.Inv.{IsPage, Inv, held, view}
use monoio.Slab.Page
use monoio.Slab.Page.{Page}
use monoio.Slab.Page.Laws.{view-empty}

module _ {ℓ} {T : Type ℓ} where
  within :
      (pages : List (Option (Page T))) (i : ℕ) (p : Page T)
      → get_elem? pages i ≡ some (some p)
      → i < length pages
  within [] i p e = cc
  within (o ∷ pages) zero p e = omega arith
  within (o ∷ pages) (suc i) p e = omega (arith, within pages i p e)

  some-id :
      (o : Option (Page T)) (pages : List (Option (Page T))) (id : ℕ) (p : Page T)
      → Option.map {B = ℕ × Page T} (λ q. (0, q)) o ≡ some (id, p)
      → get_elem? (o ∷ pages) id ≡ some (some p)
  some-id none pages id p e = cc
  some-id (some q) pages zero p e = cc
  some-id (some q) pages (suc id) p e = cc

  some-rest :
      (o : Option (Page T)) (pages : List (Option (Page T))) (n id : ℕ) (p q : Page T)
      → get_elem? pages n ≡ some (some q)
      → ◌≡◌ {A = Option (ℕ × Page T)} (some (suc n, q)) (some (id, p))
      → get_elem? (o ∷ pages) id ≡ some (some p)
  some-rest o pages n zero p q h e = cc
  some-rest o pages n (suc id) p q h e = cc

  last_page-there :
      (pages : List (Option (Page T))) (id : ℕ) (p : Page T)
      → last_page pages ≡ some (id, p)
      → get_elem? pages id ≡ some (some p)
  unfolding last_page
  last_page-there [] id p e = cc
  last_page-there (o ∷ pages) id p e = elim (Option-cases (last_page pages)) [
    | inl missing ↦ some-id o pages id p (rw missing at e)
    | inr ((n, q), found) ↦
        some-rest o pages n id p q (last_page-there pages n q found) (rw found at e)
  ]

  -- These pages are valid in the slab's place, and hold what it does.
  record Kept (s : Slab T) (pages : List (Option (Page T))) : Type ℓ where
    pub count : length pages ≡ num_pages
    pub each : (i : ℕ) (p : Page T) → get_elem? pages i ≡ some (some p) → IsPage i p
    pub now : (k : ℕ) → held k (get_elem? pages (get_page_id k)) ≡ view s k

  -- Taking away an empty page.
  module _ (s : Slab T) (inv : Inv s) (id : ℕ) (p : Page T)
      (there : get_elem? s.pages id ≡ some (some p)) (empty : Page.is_empty p ≡ true)
      (h : id < length s.pages) where
    page : IsPage id p
    page = inv.each id p there

    gone : (j : ℕ) → (id == j) ≡ true → get_elem? (set s.pages id none) j ≡ some none
    gone j same = rw (get_elem?-set s.pages id j none h, same)

    stays : (j : ℕ) → (id == j) ≡ false → get_elem? (set s.pages id none) j ≡ get_elem? s.pages j
    stays j other = rw (get_elem?-set s.pages id j none h, other)

    held_nothing : (k : ℕ) → (id == get_page_id k) ≡ true → view s k ≡ none
    held_nothing k same =
        ap (λ j. held k (get_elem? s.pages j)) (sym ((==_iff id (get_page_id k)).0 same))
        ∙ ap (held k) there
        ∙ view-empty p page.free (k - p.prev_len) page.valid empty

    without-Kept : Kept s (set s.pages id none)
    without-Kept = record {
      count = length-set s.pages id none ∙ inv.count;
      each = λ i q e. elim (Bool-cases (id == i)) [
        | inl same ↦ let no : some none ≡ some (some q) = sym (gone i same) ∙ e in cc
        | inr other ↦ inv.each i q (sym (stays i other) ∙ e)
      ];
      now = λ k. elim (Bool-cases (id == get_page_id k)) [
        | inl same ↦ ap (held k) (gone (get_page_id k) same) ∙ sym (held_nothing k same)
        | inr other ↦ ap (held k) (stays (get_page_id k) other)
      ];
    }

  same-Kept : (s : Slab T) → Inv s → Kept s s.pages
  same-Kept s inv = record { count = inv.count; each = inv.each; now = λ k. refl }

  drop_empty-Kept :
      (s : Slab T) (o : Option (ℕ × Page T))
      → Inv s
      → ((id : ℕ) (p : Page T) → o ≡ some (id, p) → get_elem? s.pages id ≡ some (some p))
      → Kept s (drop_empty s.pages o)
  unfolding drop_empty
  drop_empty-Kept s none inv there = same-Kept s inv
  drop_empty-Kept s (some (id, p)) inv there = elim (Bool-cases (Page.is_empty p)) [
    | inl empty ↦ elim (Bool-cases (ltb 0 id)) [
      | inl pos ↦
          rw (empty, pos)
            (without-Kept s inv id p (there id p refl) empty
              (within s.pages id p (there id p refl)))
      | inr first ↦ rw (empty, first) (same-Kept s inv)
    ]
    | inr some_used ↦ rw some_used (same-Kept s inv)
  ]

  -- `mark_remove` keeps a slab valid and everything that it holds.
  pub mark_remove_lem :
      (s : Slab T) → Inv s → Inv (mark_remove s) × ((k : ℕ) → view (mark_remove s) k ≡ view s k)
  unfolding mark_remove
  mark_remove_lem s inv = elim (Bool-cases ((s.generation + 1) % 2 ^ 32 % compact_interval == 0)) [
    | inl due ↦
        rw due (record { count = kept.count; cursor = omega arith; each = kept.each }, kept.now)
    | inr early ↦
        rw early (record { count = inv.count; cursor = inv.cursor; each = inv.each }, λ k. refl)
  ]
    where
      kept : Kept s (drop_empty s.pages (last_page s.pages))
      kept = drop_empty-Kept s (last_page s.pages) inv (λ id p e. last_page-there s.pages id p e)
