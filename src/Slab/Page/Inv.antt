-- ===== src/Slab/Page/Inv.antt =====
-- The representation invariant of a page.
use monoio.Prelude.{
  ℕ, ◌+◌, ◌-◌, ◌^◌, ◌≤◌, ◌<◌, ◌≡◌, refl, ap, ◌∙◌, ◌⊎◌, inl, inr, ◌≢◌, true, false, ◌||◌, Bool-cases,
  ◌==◌, Option, List, [], ◌∷◌, length, get_elem?, set, length-set, length-replicate, get_elem?-set,
  get_elem?-set_self, get_elem?-set_ne, arith,
}
use monoio.Slab.Page.{vacant, occupied, Page, create}
use monoio.Slab.Page.Free.{
  mem, link, has, content, Chain, Chain-set, Chain-mem, count, count-set_occupied, count-set_vacant,
  count-replicate, has-replicate,
}

module _ {ℓ} {T : Type ℓ} where
  -- With the free list `fl`: `used` counts the occupied slots, every initialised slot is occupied
  -- or in the list, and nothing is occupied past `initialized`.
  pub record Inv (p : Page T) (fl : List ℕ) : Type 0 where
    pub small : length p.slots < 2 ^ 64
    pub fits : p.initialized ≤ length p.slots
    pub total : p.used + length fl ≡ p.initialized
    pub occupies : count p.slots ≡ p.used
    pub chain : Chain p.slots p.initialized p.next fl
    pub parted :
        (j : ℕ) → j < p.initialized → (mem j fl ≡ true) ⊎ (has (get_elem? p.slots j) ≡ true)
    pub fresh : (j : ℕ) → p.initialized ≤ j → has (get_elem? p.slots j) ≡ false

  -- What a page holds at each index.
  abbrev pub view : Page T → ℕ → Option T
  view p j = content (get_elem? p.slots j)

  pub create-Inv : (size prev_len : ℕ) → size < 2 ^ 64 → Inv (create size prev_len) []
  unfolding create
  create-Inv size prev_len h = record {
    small = rw length-replicate h;
    fits = omega arith;
    total = refl;
    occupies = count-replicate T size;
    chain = refl;
    parted = λ j q. absurd (omega arith);
    fresh = λ j q. has-replicate T size j;
  }

  -- A page that is not full, after `alloc` and `set` at the slot that it gave.
  module _ (p : Page T) (v : T) where
    abbrev pub taken : ℕ → ℕ → Page T
    taken i n = record p {
      slots = set p.slots p.next (occupied v);
      used = p.used + 1;
      initialized = i;
      next = n;
    }

    pub grow-Inv :
        Inv p [] → p.used < length p.slots → Inv (taken (p.initialized + 1) (p.next + 1)) []
    grow-Inv inv room = record {
      small = rw length-set inv.small;
      fits = rw length-set (omega (arith, inv.total));
      total = omega (arith, inv.total);
      occupies = omega (
        arith,
        inv.occupies,
        count-set_occupied p.slots p.next v (omega (arith, inv.total, inv.chain))
            (inv.fresh p.next (omega (arith, inv.chain))),
      );
      chain = ap (λ n. n + 1) inv.chain;
      parted = λ j q. grow_parted j (elim (Bool-cases (p.next == j)) [
        | inl e ↦ inl e
        | inr e ↦ inr (e, inv.parted j (ground (arith, inv.chain)))
      ]);
      fresh = λ j q.
          let ne : p.next ≢ j = omega (arith, inv.chain) in
          ap has (get_elem?-set_ne p.slots p.next j (occupied v) ne) ∙ inv.fresh j (omega arith);
    }
      where
        at : p.next < length p.slots
        at = omega (arith, inv.total, inv.chain)

        grow_parted :
            (j : ℕ)
            → (((p.next == j) ≡ true)
                ⊎ (((p.next == j) ≡ false) × ((false ≡ true) ⊎ (has (get_elem? p.slots j) ≡ true))))
            → (false ≡ true) ⊎ (has (get_elem? (set p.slots p.next (occupied v)) j) ≡ true)
        grow_parted j c = ground (arith, get_elem?-set p.slots p.next j (occupied v) at)

    -- A slot of the free list is written once its link has become the head of the list.
    pub reuse-Inv :
        (x : ℕ) (fl : List ℕ) (inv : Inv p (x ∷ fl)) → Inv (taken p.initialized inv.chain.0) fl
    reuse-Inv x fl inv = record {
      small = rw length-set inv.small;
      fits = rw length-set inv.fits;
      total = omega (arith, inv.total);
      occupies = omega (arith, inv.occupies, count-set_occupied p.slots p.next v at free);
      chain = Chain-set p.slots p.initialized inv.chain.0 p.next (occupied v) fl out inv.chain.5;
      parted = λ j q. reuse_parted j (inv.parted j q);
      fresh = λ j q.
          let ne : p.next ≢ j = omega (arith, inv.chain.1, inv.chain.2) in
          ap has (get_elem?-set_ne p.slots p.next j (occupied v) ne) ∙ inv.fresh j q;
    }
      where
        at : p.next < length p.slots
        at = omega (arith, inv.fits, inv.chain.1, inv.chain.2)

        free : has (get_elem? p.slots p.next) ≡ false
        free = rw inv.chain.1 (ground (arith, inv.chain.3))

        out : mem p.next fl ≡ false
        out = rw inv.chain.1 inv.chain.4

        reuse_parted :
            (j : ℕ)
            → ((j == x || mem j fl) ≡ true) ⊎ (has (get_elem? p.slots j) ≡ true)
            → (mem j fl ≡ true) ⊎ (has (get_elem? (set p.slots p.next (occupied v)) j) ≡ true)
        reuse_parted j c =
            ground (arith, inv.chain.1, get_elem?-set p.slots p.next j (occupied v) at)

  -- A page after `remove` of an occupied slot.
  module _ (p : Page T) (i : ℕ) (fl : List ℕ) where
    abbrev pub freed : Page T
    freed = record p { slots = set p.slots i (vacant p.next); next = i; used = p.used - 1 }

    pub freed-Inv : Inv p fl → has (get_elem? p.slots i) ≡ true → Inv freed (i ∷ fl)
    freed-Inv inv h = record {
      small = rw length-set inv.small;
      fits = rw length-set inv.fits;
      total = omega (arith, inv.total, inv.occupies, fewer);
      occupies = omega (arith, inv.occupies, fewer);
      chain = (
        p.next,
        refl,
        below,
        ap link (get_elem?-set_self p.slots i (vacant p.next) at),
        out,
        Chain-set p.slots p.initialized p.next i (vacant p.next) fl out inv.chain,
      );
      parted = λ j q. freed_parted j (inv.parted j q);
      fresh = λ j q.
          let ne : i ≢ j = omega (arith, below) in
          ap has (get_elem?-set_ne p.slots i j (vacant p.next) ne) ∙ inv.fresh j q;
    }
      where
        fewer : count p.slots ≡ count (set p.slots i (vacant p.next)) + 1
        fewer = count-set_vacant p.slots i p.next h

        below : i < p.initialized
        below = ground (arith, inv.fresh i)

        at : i < length p.slots
        at = omega (arith, below, inv.fits)

        out : mem i fl ≡ false
        out = ground (arith, Chain-mem p.slots p.initialized p.next i fl inv.chain)

        freed_parted :
            (j : ℕ)
            → (mem j fl ≡ true) ⊎ (has (get_elem? p.slots j) ≡ true)
            → ((j == i || mem j fl) ≡ true)
              ⊎ (has (get_elem? (set p.slots i (vacant p.next)) j) ≡ true)
        freed_parted j c = ground (arith, get_elem?-set p.slots i j (vacant p.next) at)
