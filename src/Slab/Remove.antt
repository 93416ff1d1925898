-- ===== src/Slab/Remove.antt =====
-- What `remove` does to what a valid slab holds.
use monoio.Prelude.{
  ℕ, ◌-◌, ◌≤◌, ◌≡◌, sym, ap, ◌∙◌, inl, inr, Bool, true, false, Bool-cases, ◌==◌, ==_iff, leb,
  if◌then◌else◌, Option, none, some, get_elem?, ok, arith,
}
use monoio.Slab.{Slab, put_page, remove_in, remove, mark_remove}
use monoio.Slab.Index.{get_page_id, base_of, get_page_id-lt, base_of-get_page_id}
use monoio.Slab.Inv.{IsPage, Inv, held, view, Inv-put, view-put, place}
use monoio.Slab.Compact.{mark_remove_lem}
use monoio.Slab.Page.{Page}
use monoio.Slab.Page.Inv as PageInv
use monoio.Slab.Page.Laws.{Removed, remove-Removed}

module _ {ℓ} {T : Type ℓ} where
  -- What a removal leaves: the key is free, and no other key changes.
  pub record Freed (s : Slab T) (key : ℕ) (end : Slab T) : Type ℓ where
    pub valid : Inv end
    pub now : (k : ℕ) → view end k ≡ (if key == k then none else view s k)

  pub looks :
      (s : Slab T) (k : ℕ) (p : Page T)
      → get_elem? s.pages (get_page_id k) ≡ some (some p)
      → view s k ≡ PageInv.view p (k - p.prev_len)
  looks s k p e = ap (held k) e

  module _ (s : Slab T) (inv : Inv s) (key : ℕ) (p : Page T)
      (there : get_elem? s.pages (get_page_id key) ≡ some (some p)) where
    page : IsPage (get_page_id key) p
    page = inv.each (get_page_id key) p there

    pub starts : leb p.prev_len key ≡ true
    starts = ground (arith, page.base, base_of-get_page_id key)

    same_key :
        (k : ℕ)
        → (get_page_id key == get_page_id k) ≡ true
        → (key - p.prev_len == k - p.prev_len) ≡ (key == k)
    same_key k same =
        let e : get_page_id key ≡ get_page_id k =
          (==_iff (get_page_id key) (get_page_id k)).0 same in
        let below : base_of (get_page_id key) ≤ k = rw e (base_of-get_page_id k) in
        ground (arith, page.base, base_of-get_page_id key)

    other_key : (k : ℕ) → (get_page_id key == get_page_id k) ≡ false → (key == k) ≡ false
    other_key k other = elim (Bool-cases (key == k)) [
      | inl e ↦
          let eq : get_page_id key ≡ get_page_id k = ap get_page_id ((==_iff key k).0 e) in
          ground arith
      | inr e ↦ e
    ]

    -- A page that differs from `p` at the key's slot only, put in its place.
    module _ (q : Page T) (o : Option T) (base : q.prev_len ≡ p.prev_len)
        (now : (j : ℕ)
          → PageInv.view q j ≡ (if key - p.prev_len == j then o else PageInv.view p j)) where
      pub view-write :
          (k : ℕ) → view (put_page s (get_page_id key) q) k ≡ (if key == k then o else view s k)
      view-write k = elim (Bool-cases (get_page_id key == get_page_id k)) [
        | inl same ↦
            let e : get_page_id key ≡ get_page_id k =
              (==_iff (get_page_id key) (get_page_id k)).0 same in
            let read : view s k ≡ PageInv.view p (k - p.prev_len) =
              looks s k p (ap (get_elem? s.pages) (sym e) ∙ there) in
            view-put s inv (get_page_id key) q k (get_page_id-lt key)
            ∙ rw (same, base, now, same_key k same, read)
        | inr other ↦
            view-put s inv (get_page_id key) q k (get_page_id-lt key)
            ∙ rw (other, other_key k other)
      ]

    -- The page that a removal leaves, put in its place.
    pub put-Freed :
        (debug : Bool) (r : Removed debug p (key - p.prev_len))
        → Freed s key (mark_remove (put_page s (get_page_id key) r.end))
    put-Freed debug r =
        let marked = mark_remove_lem (put_page s (get_page_id key) r.end) put in
        record { valid = marked.0; now = λ k. marked.1 k ∙ view-write r.end none r.base r.now k }
      where
        put : Inv (put_page s (get_page_id key) r.end)
        put = Inv-put s inv (get_page_id key) r.end (get_page_id-lt key) (record {
          free = r.free;
          valid = r.valid;
          base = r.base ∙ page.base;
          size = r.size ∙ page.size;
        })

  unchanged :
      (s : Slab T) (key k : ℕ)
      → view s key ≡ none
      → view s k ≡ (if key == k then none else view s k)
  unchanged s key k e = elim (Bool-cases (key == k)) [
    | inl same ↦ rw same (rw ((==_iff key k).0 same) at e)
    | inr other ↦ rw other
  ]

  -- On a valid slab `remove` answers what the key held, whichever build it is; afterwards the slab
  -- is valid, the key is free and every other key holds what it held, also when the removal drops
  -- the last page. No removal is undefined behaviour.
  pub remove_lem :
      (debug : Bool) (s : Slab T) (key : ℕ)
      → Inv s
      → (end : Slab T) × (remove debug s key ≡ ok (view s key, end)) × Freed s key end
  unfolding remove remove_in
  remove_lem debug s key inv = elim (place s inv (get_page_id key) (get_page_id-lt key)) [
    | inl missing ↦
        let empty : view s key ≡ none = ap (held key) missing in
        (s, rw missing, record { valid = inv; now = λ k. unchanged s key k empty })
    | inr (p, there) ↦
        let page = inv.each (get_page_id key) p there in
        let r = remove-Removed debug p page.free (key - p.prev_len) page.valid in
        (
          mark_remove (put_page s (get_page_id key) r.end),
          rw (there, starts s inv key p there, r.removes),
          put-Freed s inv key p there debug r,
        )
  ]
