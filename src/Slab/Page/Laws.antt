-- ===== src/Slab/Page/Laws.antt =====
-- What the operations of a valid page do to what it holds. None panics and none is undefined.
use monoio.Prelude.{
  ℕ, ◌+◌, ◌^◌, ◌<◌, ◌≡◌, refl, sym, ap, inl, inr, Bool, true, false, Bool-cases, ◌==◌, ==_iff, ltb,
  leb, lt→ltb, if◌then◌else◌, Option, none, some, List, [], ◌∷◌, length, get_elem?, set, length-set,
  get_elem?-set, ok, ◌>>=◌, arith,
}
use monoio.Slab.Page.{
  Slot, uninit, vacant, occupied, Page, is_empty, is_full, alloc, fill, get, get_entry_mut, remove,
  entry, value,
}
use monoio.Slab.Page.Free.{
  has, content, count-none, Known, Chain-link, eq_of_link, eq_of_has, count-set_vacant,
}
use monoio.Slab.Page.Inv.{Inv, view, taken, grow-Inv, reuse-Inv, freed, freed-Inv}

module _ {ℓ} {T : Type ℓ} where
  -- The pages between which `alloc` followed by `set` leads.
  pub record Stored (debug : Bool) (p : Page T) (v : T) : Type ℓ where
    pub mid : Page T
    pub end : Page T
    pub free : List ℕ
    pub allocates : alloc debug p ≡ ok (some p.next, mid)
    pub fills : fill mid p.next v ≡ ok end
    pub valid : Inv end free
    pub index_lt : p.next < length p.slots
    pub was_free : view p p.next ≡ none
    pub now : (j : ℕ) → view end j ≡ (if p.next == j then some v else view p j)
    pub mid_base : mid.prev_len ≡ p.prev_len
    pub base : end.prev_len ≡ p.prev_len
    pub size : length end.slots ≡ length p.slots

  view-taken :
      (p : Page T) (v : T) (j : ℕ)
      → p.next < length p.slots
      → content (get_elem? (set p.slots p.next (occupied v)) j)
        ≡ (if p.next == j then some v else view p j)
  view-taken p v j h = ground (arith, get_elem?-set p.slots p.next j (occupied v) h)

  pub alloc-Stored :
      (debug : Bool) (p : Page T) (fl : List ℕ) (v : T)
      → Inv p fl
      → is_full p ≡ false
      → Stored debug p v
  unfolding is_full alloc fill
  alloc-Stored debug p [] v inv room = record {
    mid = record p { used = p.used + 1; initialized = p.initialized + 1; next = p.next + 1 };
    end = taken p v (p.initialized + 1) (p.next + 1);
    free = [];
    allocates = ground (arith, inv.chain, inv.total, inv.fits, inv.small);
    fills = ground arith;
    valid = grow-Inv p v inv (ground (arith, inv.total, inv.fits));
    index_lt = at;
    was_free = ground (arith, inv.fresh p.next (omega (arith, inv.chain)));
    now = λ j. view-taken p v j at;
    mid_base = refl;
    base = refl;
    size = length-set p.slots p.next (occupied v);
  }
    where
      at : p.next < length p.slots
      at = ground (arith, inv.total, inv.fits, inv.chain)
  alloc-Stored debug p (x ∷ fl) v inv room = record {
    mid = record p { used = p.used + 1; next = m };
    end = taken p v p.initialized m;
    free = fl;
    allocates = rw (room, low, slot, wide);
    fills = rw (lt→ltb p.next (length p.slots) at);
    valid = reuse-Inv p v x fl inv;
    index_lt = at;
    was_free = rw inv.chain.1 (ground (arith, inv.chain.3));
    now = λ j. view-taken p v j at;
    mid_base = refl;
    base = refl;
    size = length-set p.slots p.next (occupied v);
  }
    where
      m : ℕ
      m = inv.chain.0

      low : leb p.initialized p.next ≡ false
      low = ground (arith, inv.chain.1, inv.chain.2)

      slot : get_elem? p.slots p.next ≡ some (vacant m)
      slot = rw inv.chain.1 (eq_of_link (get_elem? p.slots x) m inv.chain.3)

      wide : ltb (p.used + 1) (2 ^ 64) ≡ true
      wide = ground (arith, inv.total, inv.fits, inv.small)

      at : p.next < length p.slots
      at = omega (arith, inv.fits, inv.chain.1, inv.chain.2)

  pub alloc-full :
      (debug : Bool) (p : Page T) (fl : List ℕ)
      → Inv p fl
      → is_full p ≡ true
      → alloc debug p ≡ ok (none, p)
  unfolding is_full alloc
  alloc-full debug p [] inv full = ground (arith, inv.chain, inv.total)
  alloc-full debug p (x ∷ fl) inv full =
      absurd (omega (arith, inv.total, inv.fits, (==_iff p.used (length p.slots)).0 full))

  known :
      (p : Page T) (fl : List ℕ) (j : ℕ)
      → Inv p fl
      → j < p.initialized
      → Known (get_elem? p.slots j)
  known p fl j inv h = elim (inv.parted j h) [
    | inl listed ↦ inl (Chain-link p.slots p.initialized p.next j fl inv.chain listed)
    | inr held ↦ inr held
  ]

  entry-content : (o : Option (Slot T)) → Known o → (entry o >>= λ s. ok (value s)) ≡ ok (content o)
  entry-content none (inl (m, e)) = cc
  entry-content none (inr e) = cc
  entry-content (some uninit) (inl (m, e)) = cc
  entry-content (some uninit) (inr e) = cc
  entry-content (some (vacant n)) k = refl
  entry-content (some (occupied v)) k = refl

  empty_past : (o : Option (Slot T)) → has o ≡ false → content o ≡ none
  empty_past none e = refl
  empty_past (some uninit) e = refl
  empty_past (some (vacant n)) e = refl
  empty_past (some (occupied v)) e = cc

  -- `get` answers what the page holds, at any index.
  pub get-view : (p : Page T) (fl : List ℕ) (j : ℕ) → Inv p fl → get p j ≡ ok (view p j)
  unfolding get
  get-view p fl j inv = elim (Bool-cases (leb p.initialized j)) [
    | inl past ↦ rw past (ap ok (sym (empty_past _ (inv.fresh j (ground arith)))))
    | inr low ↦ rw low (entry-content _ (known p fl j inv (ground arith)))
  ]

  -- `get_entry_mut` answers an entry that holds what the page does.
  pub get_entry_mut_lem :
      (p : Page T) (fl : List ℕ) (j : ℕ)
      → Inv p fl
      → (e : Option (Slot T)) × (get_entry_mut p j ≡ ok e) × (content e ≡ view p j)
  unfolding get_entry_mut
  get_entry_mut_lem p fl j inv = elim (Bool-cases (leb p.initialized j)) [
    | inl past ↦ (none, rw past, sym (empty_past _ (inv.fresh j (ground arith))))
    | inr low ↦ elim (known p fl j inv (ground arith)) [
      | inl (m, l) ↦ let e = eq_of_link _ m l in (some (vacant m), rw (low, e), rw e)
      | inr h ↦ let (v, e) = eq_of_has _ h in (some (occupied v), rw (low, e), rw e)
    ]
  ]

  pub record Removed (debug : Bool) (p : Page T) (i : ℕ) : Type ℓ where
    pub end : Page T
    pub free : List ℕ
    pub removes : remove debug p i ≡ ok (view p i, end)
    pub valid : Inv end free
    pub now : (j : ℕ) → view end j ≡ (if i == j then none else view p j)
    pub base : end.prev_len ≡ p.prev_len
    pub size : length end.slots ≡ length p.slots

  unchanged :
      (p : Page T) (i j : ℕ) → view p i ≡ none → view p j ≡ (if i == j then none else view p j)
  unchanged p i j e = elim (Bool-cases (i == j)) [
    | inl same ↦ rw same (rw ((==_iff i j).0 same) at e)
    | inr other ↦ rw other
  ]

  stays :
      (debug : Bool) (p : Page T) (i : ℕ) (fl : List ℕ)
      → Inv p fl
      → view p i ≡ none
      → remove debug p i ≡ ok (none, p)
      → Removed debug p i
  stays debug p i fl inv empty e = record {
    end = p;
    free = fl;
    removes = rw empty e;
    valid = inv;
    now = λ j. unchanged p i j empty;
    base = refl;
    size = refl;
  }

  pub remove-Removed :
      (debug : Bool) (p : Page T) (fl : List ℕ) (i : ℕ) → Inv p fl → Removed debug p i
  unfolding remove
  remove-Removed debug p fl i inv = elim (Bool-cases (leb p.initialized i)) [
    | inl past ↦ stays debug p i fl inv (empty_past _ (inv.fresh i (ground arith))) (rw past)
    | inr low ↦ elim (known p fl i inv (ground arith)) [
      | inl (m, l) ↦ let e = eq_of_link _ m l in stays debug p i fl inv (ap content e) (rw (low, e))
      | inr h ↦
          let (v, e) = eq_of_has _ h in
          let some_used : leb 1 p.used ≡ true = used_pos inv h in
          record {
            end = freed p i fl;
            free = i ∷ fl;
            removes = rw (low, e, some_used);
            valid = freed-Inv p i fl inv h;
            now = λ j. view-freed j (at inv h);
            base = refl;
            size = length-set p.slots i (vacant p.next);
          }
    ]
  ]
    where
      used_pos : Inv p fl → has (get_elem? p.slots i) ≡ true → leb 1 p.used ≡ true
      used_pos inv h = ground (arith, count-set_vacant p.slots i p.next h, inv.occupies)

      at : Inv p fl → has (get_elem? p.slots i) ≡ true → i < length p.slots
      at inv h = ground (arith, inv.fresh i, inv.fits)

      view-freed :
          (j : ℕ)
          → i < length p.slots
          → content (get_elem? (set p.slots i (vacant p.next)) j)
            ≡ (if i == j then none else view p j)
      view-freed j h = ground (arith, get_elem?-set p.slots i j (vacant p.next) h)

  -- A page with no used slot holds nothing.
  pub view-empty :
      (p : Page T) (fl : List ℕ) (j : ℕ) → Inv p fl → is_empty p ≡ true → view p j ≡ none
  unfolding is_empty
  view-empty p fl j inv e =
      count-none p.slots j (omega (arith, inv.occupies, (==_iff p.used 0).0 e))
