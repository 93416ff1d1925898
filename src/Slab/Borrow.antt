-- ===== src/Slab/Borrow.antt =====
-- `get`, and what a `Ref` that it answers reads, writes and removes.
use mathlib.Core.Path.{subst}
use monoio.Prelude.{
  ℕ, ◌-◌, ◌≡◌, refl, sym, ap, ◌∙◌, ◌⊎◌, inl, inr, Bool, ◌==◌, ==_iff, Bool-cases, if◌then◌else◌,
  Option, none, some, get_elem?, ok,
}
use monoio.Slab.{Slab, Ref, put_page, ref_of, get_in, get, deref, assign, take, mark_remove}
use monoio.Slab.Index.{get_page_id, get_page_id-lt}
use monoio.Slab.Inv.{IsPage, Inv, held, view, Inv-put, place}
use monoio.Slab.Remove.{Freed, looks, starts, view-write, put-Freed}
use monoio.Slab.Page
use monoio.Slab.Page.{Page, Slot, occupied, vacant, uninit}
use monoio.Slab.Page.Free.{content}
use monoio.Slab.Page.Inv as PageInv
use monoio.Slab.Page.Laws.{get-view, get_entry_mut_lem, Removed, remove-Removed}
use monoio.Slab.Page.Assign.{Assigned, fill-Assigned}

module _ {ℓ} {T : Type ℓ} where
  -- What a `Ref` to the slot of a key does, when the key holds `val`.
  pub record Borrowed (debug : Bool) (s : Slab T) (key : ℕ) (r : Ref) (val : T) : Type ℓ where
    pub reads : deref s r ≡ ok val
    pub left : Slab T
    pub takes : take debug s r ≡ ok (val, left)
    pub freed : Freed s key left
    pub written : T → Slab T
    pub writes : (x : T) → assign s r x ≡ ok (written x)
    pub written-Inv : (x : T) → Inv (written x)
    pub now : (x : T) (k : ℕ) → view (written x) k ≡ (if key == k then some x else view s k)

  ref_of_lem :
      (id index : ℕ) (o : Option (Slot T)) (c : Option T)
      → content o ≡ c
      → ((c ≡ none) × (ref_of id index o ≡ none))
        ⊎ ((v : T) × (c ≡ some v)
            × (ref_of id index o ≡ some (record { page_id = id; index = index })))
  ref_of_lem id index none c e = inl (sym e, refl)
  ref_of_lem id index (some uninit) c e = inl (sym e, refl)
  ref_of_lem id index (some (vacant n)) c e = inl (sym e, refl)
  ref_of_lem id index (some (occupied v)) c e = inr (v, sym e, refl)

  module _ (s : Slab T) (inv : Inv s) (key : ℕ) (p : Page T)
      (there : get_elem? s.pages (get_page_id key) ≡ some (some p)) where
    abbrev index : ℕ
    index = key - p.prev_len

    page : IsPage (get_page_id key) p
    page = inv.each (get_page_id key) p there

    abbrev pointer : Ref
    pointer = record { page_id = get_page_id key; index = index }

    pointer-Borrowed :
        (debug : Bool) (val : T)
        → PageInv.view p index ≡ some val
        → Borrowed debug s key pointer val
    unfolding deref take assign
    pointer-Borrowed debug val e = record {
      reads = rw (there, found);
      left = mark_remove (put_page s (get_page_id key) removed.end);
      takes = rw (there, removed.removes, e);
      freed = put-Freed s inv key p there debug removed;
      written = λ x. put_page s (get_page_id key) (assigned x).end;
      writes = λ x. rw (there, found, (assigned x).fills);
      written-Inv = λ x.
          Inv-put s inv (get_page_id key) (assigned x).end (get_page_id-lt key) (record {
            free = (assigned x).free;
            valid = (assigned x).valid;
            base = (assigned x).base ∙ page.base;
            size = (assigned x).size ∙ page.size;
          });
      now = λ x.
          view-write s inv key p there (assigned x).end (some x) (assigned x).base (assigned x).now;
    }
      where
        found : Page.get p index ≡ ok (some val)
        found = get-view p page.free index page.valid ∙ ap ok e

        removed : Removed debug p index
        removed = remove-Removed debug p page.free index page.valid

        assigned : (x : T) → Assigned p index x
        assigned x = fill-Assigned p page.free index val x page.valid e

  -- On a valid slab `get` answers nothing for a key that holds nothing, and for a key that holds a
  -- value a `Ref`, which reads that value, may overwrite it, and may remove it: the slab stays
  -- valid and no other key changes. None of these is undefined behaviour.
  pub get_lem :
      (debug : Bool) (s : Slab T) (key : ℕ)
      → Inv s
      → ((view s key ≡ none) × (get debug s key ≡ ok none))
        ⊎ ((val : T) × (r : Ref) × (view s key ≡ some val)
            × (get debug s key ≡ ok (some r))
            × Borrowed debug s key r val)
  unfolding get get_in
  get_lem debug s key inv = elim (place s inv (get_page_id key) (get_page_id-lt key)) [
    | inl missing ↦ inl (ap (held key) missing, rw missing)
    | inr (p, there) ↦
        let page = inv.each (get_page_id key) p there in
        let (o, got, same) = get_entry_mut_lem p page.free (key - p.prev_len) page.valid in
        elim (ref_of_lem (get_page_id key) (key - p.prev_len) o (view s key)
          (same ∙ sym (looks s key p there))) [
            | inl (empty, answer) ↦ inl (empty, rw (there, starts s inv key p there, got, answer))
            | inr (v, has, answer) ↦ inr (
              v,
              pointer s inv key p there,
              has,
              rw (there, starts s inv key p there, got, answer),
              pointer-Borrowed s inv key p there debug v (sym (looks s key p there) ∙ has),
            )
          ]
  ]

  -- A slab that differs at one key only.
  pub record Ends (s : Slab T) (key : ℕ) (o : Option T) (end : Slab T) : Type ℓ where
    pub valid : Inv end
    pub now : (k : ℕ) → view end k ≡ (if key == k then o else view s k)

  -- The slab itself, for a key that keeps what it holds.
  pub same-Ends : (s : Slab T) (key : ℕ) (o : Option T) → Inv s → view s key ≡ o → Ends s key o s
  same-Ends s key o inv e = record {
    valid = inv;
    now = λ k. elim (Bool-cases (key == k)) [
      | inl same ↦ rw same (rw (← (==_iff key k).0 same) e)
      | inr other ↦ rw other
    ];
  }

  pub written-Ends :
      (debug : Bool) (s : Slab T) (key : ℕ) (r : Ref) (val x : T) (b : Borrowed debug s key r val)
      → Ends s key (some x) (b.written x)
  written-Ends debug s key r val x b = record { valid = b.written-Inv x; now = b.now x }

  -- The same for a key that is known to hold a value, and for one that is known to be free.
  pub get-some :
      (debug : Bool) (s : Slab T) (key : ℕ) (val : T)
      → Inv s
      → view s key ≡ some val
      → (r : Ref) × (get debug s key ≡ ok (some r)) × Borrowed debug s key r val
  get-some debug s key val inv e = elim (get_lem debug s key inv) [
    | inl (empty, got) ↦ cc
    | inr (v, r, has, got, borrowed) ↦
        let same : v ≡ val = some_injective (sym has ∙ e) in
        (r, got, subst (Borrowed debug s key r) same borrowed)
  ]
    where
      some_injective : {a b : T} → some a ≡ some b → a ≡ b
      some_injective h = cc

  pub get-none :
      (debug : Bool) (s : Slab T) (key : ℕ) → Inv s → view s key ≡ none → get debug s key ≡ ok none
  get-none debug s key inv e = elim (get_lem debug s key inv) [
    | inl (empty, got) ↦ got
    | inr (v, r, has, got, borrowed) ↦ cc
  ]
