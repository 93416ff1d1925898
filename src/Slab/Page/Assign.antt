-- ===== src/Slab/Page/Assign.antt =====
-- Writing to a slot that is occupied, which a `Ref` does.
use monoio.Prelude.{
  ℕ, zero, suc, ◌<◌, ◌≡◌, refl, ap, ◌∙◌, ◌⊎◌, ◌≢◌, true, false, ◌==◌, lt→ltb, if◌then◌else◌, Option,
  none, some, List, [], ◌∷◌, length, get_elem?, set, length-set, get_elem?-set, get_elem?-set_ne,
  ok, arith,
}
use monoio.Slab.Page.{Slot, uninit, vacant, occupied, Page, fill}
use monoio.Slab.Page.Free.{mem, has, content, Chain-set, Chain-mem, count}
use monoio.Slab.Page.Inv.{Inv, view}

module _ {ℓ} {T : Type ℓ} where
  count-set_same :
      (slots : List (Slot T)) (i : ℕ) (v : T)
      → has (get_elem? slots i) ≡ true
      → count (set slots i (occupied v)) ≡ count slots
  count-set_same [] i v e = cc
  count-set_same (s ∷ slots) zero v e = ground arith
  count-set_same (s ∷ slots) (suc i) v e = omega (arith, count-set_same slots i v e)

  has-content : (o : Option (Slot T)) (v : T) → content o ≡ some v → has o ≡ true
  has-content none v e = cc
  has-content (some uninit) v e = cc
  has-content (some (vacant n)) v e = cc
  has-content (some (occupied x)) v e = refl

  pub record Assigned (p : Page T) (i : ℕ) (val : T) : Type ℓ where
    pub end : Page T
    pub free : List ℕ
    pub fills : fill p i val ≡ ok end
    pub valid : Inv end free
    pub now : (j : ℕ) → view end j ≡ (if i == j then some val else view p j)
    pub base : end.prev_len ≡ p.prev_len
    pub size : length end.slots ≡ length p.slots

  pub fill-Assigned :
      (p : Page T) (fl : List ℕ) (i : ℕ) (old val : T)
      → Inv p fl
      → view p i ≡ some old
      → Assigned p i val
  unfolding fill
  fill-Assigned p fl i old val inv held = record {
    end = record p { slots = set p.slots i (occupied val) };
    free = fl;
    fills = rw (lt→ltb i (length p.slots) at);
    valid = record {
      small = rw length-set inv.small;
      fits = rw length-set inv.fits;
      total = inv.total;
      occupies = count-set_same p.slots i val full ∙ inv.occupies;
      chain = Chain-set p.slots p.initialized p.next i (occupied val) fl out inv.chain;
      parted = λ j q. parted j (inv.parted j q);
      fresh = λ j q.
          let ne : i ≢ j = omega (arith, below) in
          ap has (get_elem?-set_ne p.slots i j (occupied val) ne) ∙ inv.fresh j q;
    };
    now = λ j. now j;
    base = refl;
    size = length-set p.slots i (occupied val);
  }
    where
      full : has (get_elem? p.slots i) ≡ true
      full = has-content (get_elem? p.slots i) old held

      below : i < p.initialized
      below = ground (arith, inv.fresh i)

      at : i < length p.slots
      at = omega (arith, below, inv.fits)

      out : mem i fl ≡ false
      out = ground (arith, Chain-mem p.slots p.initialized p.next i fl inv.chain)

      parted :
          (j : ℕ)
          → (mem j fl ≡ true) ⊎ (has (get_elem? p.slots j) ≡ true)
          → (mem j fl ≡ true) ⊎ (has (get_elem? (set p.slots i (occupied val)) j) ≡ true)
      parted j c = ground (arith, get_elem?-set p.slots i j (occupied val) at)

      now :
          (j : ℕ)
          → content (get_elem? (set p.slots i (occupied val)) j)
            ≡ (if i == j then some val else view p j)
      now j = ground (arith, get_elem?-set p.slots i j (occupied val) at)
