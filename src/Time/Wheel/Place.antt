-- ===== src/Time/Wheel/Place.antt =====
-- Where the wheel puts a timer: always at one of its levels and slots.
use monoio.Prelude.{
  ℕ, zero, suc, ◌-◌, ◌/◌, Bool, true, false, ◌||◌, ==_refl, ==_iff, subst, ◌^◌, ◌<◌, bit_or,
  bit_xor, ◌≡◌, refl, sym, ap, ◌∙◌, Bool-cases, ◌==◌, leb, some, List, [], ◌∷◌, length, get_elem?,
  set, length-set, get_elem?-set, ok, arith, inl, inr,
}
use monoio.Prelude.Bits.Length.{leading_zeros, bit_length-le}
use monoio.Prelude.Bits.Test.{test_bit, test_bit-or}
use monoio.Time.Wheel.{
  Level, Wheel, level_mult, num_levels, max_duration, slot_for, level_for, add_entry, add_at,
}

-- `level_for` names a level of the wheel, for any two ticks, so that the unchecked index is right.
pub level_for-lt : (elapsed when : ℕ) → level_for elapsed when < num_levels
unfolding level_for leading_zeros
level_for-lt elapsed when = elim (Bool-cases (leb max_duration masked)) [
  | inl far ↦ rw far (omega (arith, bit_length-le 64 36 (max_duration - 1) (omega arith)))
  | inr near ↦
      let small : masked < 2 ^ 36 = ground arith in
      rw near (omega (arith, bit_length-le 64 36 masked small))
]
  where
    masked : ℕ
    masked = bit_or (bit_xor elapsed when) (2 ^ 6 - 1)

slot_for-lt : (duration level : ℕ) → slot_for duration level < level_mult
unfolding slot_for
slot_for-lt duration level = omega arith

-- Six levels of 64 slots, which know their numbers.
pub record Shape (w : Wheel) : Type 0 where
  pub count : length w.levels ≡ num_levels
  pub each : (i : ℕ) (l : Level) → get_elem? w.levels i ≡ some l → length l.slot ≡ level_mult
  pub own : (i : ℕ) (l : Level) → get_elem? w.levels i ≡ some l → l.level ≡ i

there : {A : Type 0} (xs : List A) (i : ℕ) → i < length xs → (a : A) × (get_elem? xs i ≡ some a)
there [] i h = absurd (omega arith)
there (x ∷ xs) zero h = (x, refl)
there (x ∷ xs) (suc i) h = there xs i (omega arith)

some_injective : {A : Type 0} {a b : A} → some a ≡ some b → a ≡ b
some_injective e = cc

abbrev pub mem : ℕ → List ℕ → Bool
mem x [] = false
mem x (y ∷ ys) = x == y || mem x ys

or_true : (a b : Bool) → b ≡ true → (a || b) ≡ true
or_true true b e = refl
or_true false b e = e

-- An entry lies in a slot of a level, and the slot is marked as occupied.
pub record HoldsSlot (l : Level) (k x : ℕ) : Type 0 where
  pub entries : List ℕ
  pub slot_at : get_elem? l.slot k ≡ some entries
  pub inside : mem x entries ≡ true
  pub marked : test_bit k l.occupied ≡ true

pub record Holds (w : Wheel) (i k x : ℕ) : Type 0 where
  pub level : Level
  pub level_at : get_elem? w.levels i ≡ some level
  pub holds : HoldsSlot level k x

bit_of_power : (k : ℕ) → test_bit k (2 ^ k) ≡ true
bit_of_power zero = refl
bit_of_power (suc k) =
    let half : 2 ^ suc k / 2 ≡ 2 ^ k = ground arith in ap (test_bit k) half ∙ bit_of_power k

-- A level with one entry more.
abbrev with_entry : Level → ℕ → List ℕ → ℕ → Level
with_entry l slot es item = record l {
  slot = set l.slot slot (item ∷ es);
  occupied = bit_or l.occupied (2 ^ slot);
}

module _ (l : Level) (slot item : ℕ) (es : List ℕ) (small : slot < length l.slot)
    (here : get_elem? l.slot slot ≡ some es) where
  with_entry-holds : HoldsSlot (with_entry l slot es item) slot item
  with_entry-holds = record {
    entries = item ∷ es;
    slot_at = get_elem?-set l.slot slot slot (item ∷ es) small ∙ rw (==_refl slot);
    inside = rw (==_refl item);
    marked =
        test_bit-or slot l.occupied (2 ^ slot)
        ∙ or_true (test_bit slot l.occupied) (test_bit slot (2 ^ slot)) (bit_of_power slot);
  }

  with_entry-keeps : (k x : ℕ) → HoldsSlot l k x → HoldsSlot (with_entry l slot es item) k x
  with_entry-keeps k x h = elim (Bool-cases (slot == k)) [
    | inl same ↦
        let is : slot ≡ k = (==_iff slot k).0 same in
        let list : es ≡ h.entries =
          some_injective (sym here ∙ ap (get_elem? l.slot) is ∙ h.slot_at) in
        record {
          entries = item ∷ es;
          slot_at = get_elem?-set l.slot slot k (item ∷ es) small ∙ rw same;
          inside = or_true (x == item) (mem x es) (ap (mem x) list ∙ h.inside);
          marked = bit;
        }
    | inr other ↦ record {
      entries = h.entries;
      slot_at = get_elem?-set l.slot slot k (item ∷ es) small ∙ rw other h.slot_at;
      inside = h.inside;
      marked = bit;
    }
  ]
    where
      bit : test_bit k (bit_or l.occupied (2 ^ slot)) ≡ true
      bit = test_bit-or k l.occupied (2 ^ slot) ∙ ap (λ b. b || test_bit k (2 ^ slot)) h.marked

-- What putting an entry at a level does: it lies in the slot for its deadline, and the rest stays.
pub record Added (w : Wheel) (level slot item : ℕ) (end : Wheel) : Type 0 where
  pub shape : Shape end
  pub pending : end.pending ≡ w.pending
  pub elapsed : end.elapsed ≡ w.elapsed
  pub there_now : Holds end level slot item
  pub kept : (i k x : ℕ) → Holds w i k x → Holds end i k x

module _ (w : Wheel) (level : ℕ) (l l2 : Level) (small : level < length w.levels)
    (at : get_elem? w.levels level ≡ some l) where
  changed : get_elem? (set w.levels level l2) level ≡ some l2
  changed = get_elem?-set w.levels level level l2 small ∙ rw (==_refl level)

  other_level :
      (i : ℕ) → (level == i) ≡ false → get_elem? (set w.levels level l2) i ≡ get_elem? w.levels i
  other_level i other = get_elem?-set w.levels level i l2 small ∙ rw other

  -- What holds of the new level and of every level before holds of every level.
  each_level :
      (P : ℕ → Level → Type 0)
      → P level l2
      → ((i : ℕ) (x : Level) → get_elem? w.levels i ≡ some x → P i x)
      → (i : ℕ) (x : Level) → get_elem? (set w.levels level l2) i ≡ some x
      → P i x
  each_level P new old i x e = elim (Bool-cases (level == i)) [
    | inl same ↦
        let is : level ≡ i = (==_iff level i).0 same in
        let found : get_elem? (set w.levels level l2) level ≡ some x =
          ap (get_elem? (set w.levels level l2)) is ∙ e in
        subst (λ j. P j x) is (subst (P level) (some_injective (sym changed ∙ found)) new)
    | inr other ↦ old i x (sym (other_level i other) ∙ e)
  ]

  keeps_all :
      ((k x : ℕ) → HoldsSlot l k x → HoldsSlot l2 k x)
      → (i k x : ℕ) → Holds w i k x
      → Holds (record w { levels = set w.levels level l2 }) i k x
  keeps_all keeps i k x h = elim (Bool-cases (level == i)) [
    | inl same ↦
        let is : level ≡ i = (==_iff level i).0 same in
        let was : h.level ≡ l =
          some_injective (sym h.level_at ∙ ap (get_elem? w.levels) (sym is) ∙ at) in
        record {
          level = l2;
          level_at = ap (get_elem? (set w.levels level l2)) (sym is) ∙ changed;
          holds = keeps k x (subst (λ z. HoldsSlot z k x) was h.holds);
        }
    | inr other ↦ record {
      level = h.level;
      level_at = other_level i other ∙ h.level_at;
      holds = h.holds;
    }
  ]

pub add_at-Added :
    (w : Wheel) (level item cached_when : ℕ)
    → Shape w
    → level < num_levels
    → (end : Wheel) × (add_at w level item cached_when ≡ ok end)
      × Added w level (slot_for cached_when level) item end
unfolding add_at add_entry
add_at-Added w level item cached_when shape h =
    let small : level < length w.levels = omega (arith, shape.count) in
    let (l, at) = there w.levels level small in
    let slot : ℕ = slot_for cached_when l.level in
    let room : slot < length l.slot =
      omega (arith, shape.each level l at, slot_for-lt cached_when l.level) in
    let (es, here) = there l.slot slot room in
    let l2 : Level = with_entry l slot es item in
    let end : Wheel = record w { levels = set w.levels level l2 } in
    let named : slot ≡ slot_for cached_when level =
      ap (slot_for cached_when) (shape.own level l at) in
    (
      end,
      rw (at, here),
      record {
        shape = record {
          count = length-set w.levels level l2 ∙ shape.count;
          each =
              each_level w level l l2 small at (λ i x. length x.slot ≡ level_mult)
                (length-set l.slot slot (item ∷ es) ∙ shape.each level l at) shape.each;
          own =
              each_level w level l l2 small at (λ i x. x.level ≡ i) (shape.own level l at)
                shape.own;
        };
        pending = refl;
        elapsed = refl;
        there_now =
            subst (λ k. Holds end level k item) named
              (record {
                level = l2;
                level_at = changed w level l l2 small at;
                holds = with_entry-holds l slot item es room here;
              });
        kept = keeps_all w level l l2 small at (with_entry-keeps l slot item es room here);
      },
    )
