-- ===== src/Slab/Page/Free.antt =====
-- The free list of a page: the vacant slots in the order in which `alloc` hands them out.
use monoio.Prelude.{
  ℕ, zero, suc, ◌+◌, ◌<◌, ◌≡◌, refl, ap, ◌∙◌, ◌≢◌, ◌⊎◌, inl, inr, Bool, Bool-cases, true, false,
  ◌||◌, ◌==◌, ==_iff, Option, none, some, List, [], ◌∷◌, length, get_elem?, set, replicate,
  get_elem?-set_ne, arith,
}
use monoio.Slab.Page.{Slot, uninit, vacant, occupied}

abbrev pub mem : ℕ → List ℕ → Bool
mem j [] = false
mem j (x ∷ xs) = j == x || mem j xs

module _ {ℓ} {T : Type ℓ} where
  abbrev pub link : Option (Slot T) → Option ℕ
  link (some (vacant n)) = some n
  link _ = none

  abbrev pub has : Option (Slot T) → Bool
  has (some (occupied v)) = true
  has _ = false

  -- What a slot stores for the page's owner.
  abbrev pub content : Option (Slot T) → Option T
  content (some (occupied v)) = some v
  content _ = none

  -- From `next` the vacant slots link the distinct indices of the list, and the last of them links
  -- to `end`, below which they all lie.
  abbrev pub Chain : List (Slot T) → ℕ → ℕ → List ℕ → Type 0
  Chain slots end next [] = next ≡ end
  Chain slots end next (x ∷ fl) =
      (m : ℕ) × (next ≡ x)
      × (x < end)
      × (link (get_elem? slots x) ≡ some m)
      × (mem x fl ≡ false)
      × Chain slots end m fl

  -- Writing outside the list keeps it.
  pub Chain-set :
      (slots : List (Slot T)) (end next j : ℕ) (s : Slot T) (fl : List ℕ)
      → mem j fl ≡ false
      → Chain slots end next fl
      → Chain (set slots j s) end next fl
  Chain-set slots end next j s [] out c = c
  Chain-set slots end next j s (x ∷ fl) out (m, e, lt, l, d, rest) =
      let ne : j ≢ x = ground arith in
      (
        m,
        e,
        lt,
        ap link (get_elem?-set_ne slots j x s ne) ∙ l,
        d,
        Chain-set slots end m j s fl (ground arith) rest,
      )

  pub Chain-mem :
      (slots : List (Slot T)) (end next j : ℕ) (fl : List ℕ)
      → Chain slots end next fl
      → mem j fl ≡ true
      → (j < end) × (has (get_elem? slots j) ≡ false)
  Chain-mem slots end next j [] c h = cc
  Chain-mem slots end next j (x ∷ fl) (m, e, lt, l, d, rest) h =
      ground (arith, Chain-mem slots end m j fl rest)

  -- An entry that is known to be in the list or to be occupied.
  abbrev pub Known : Option (Slot T) → Type 0
  Known o = ((m : ℕ) × (link o ≡ some m)) ⊎ (has o ≡ true)

  pub Chain-link :
      (slots : List (Slot T)) (end next j : ℕ) (fl : List ℕ)
      → Chain slots end next fl
      → mem j fl ≡ true
      → (m : ℕ) × (link (get_elem? slots j) ≡ some m)
  Chain-link slots end next j [] c h = cc
  Chain-link slots end next j (x ∷ fl) (m, e, lt, l, d, rest) h = elim (Bool-cases (j == x)) [
    | inl same ↦ (m, rw ((==_iff j x).0 same) l)
    | inr other ↦ Chain-link slots end m j fl rest (ground arith)
  ]

  pub eq_of_link : (o : Option (Slot T)) (m : ℕ) → link o ≡ some m → o ≡ some (vacant m)
  eq_of_link (some (vacant n)) m e = let same : n ≡ m = cc in ap (λ k. some (vacant k)) same
  eq_of_link none m e = cc
  eq_of_link (some uninit) m e = cc
  eq_of_link (some (occupied v)) m e = cc

  pub eq_of_has : (o : Option (Slot T)) → has o ≡ true → (v : T) × (o ≡ some (occupied v))
  eq_of_has (some (occupied v)) e = (v, refl)
  eq_of_has none e = cc
  eq_of_has (some uninit) e = cc
  eq_of_has (some (vacant n)) e = cc

  -- How many slots are occupied.
  abbrev pub one : Slot T → ℕ
  one (occupied v) = 1
  one _ = 0

  abbrev pub count : List (Slot T) → ℕ
  count [] = 0
  count (s ∷ slots) = one s + count slots

  pub count-set_occupied :
      (slots : List (Slot T)) (i : ℕ) (v : T)
      → i < length slots
      → has (get_elem? slots i) ≡ false
      → count (set slots i (occupied v)) ≡ count slots + 1
  count-set_occupied [] i v h e = absurd (omega arith)
  count-set_occupied (s ∷ slots) zero v h e = ground arith
  count-set_occupied (s ∷ slots) (suc i) v h e =
      omega (arith, count-set_occupied slots i v (omega arith) e)

  pub count-set_vacant :
      (slots : List (Slot T)) (i n : ℕ)
      → has (get_elem? slots i) ≡ true
      → count slots ≡ count (set slots i (vacant n)) + 1
  count-set_vacant [] i n e = cc
  count-set_vacant (s ∷ slots) zero n e = ground arith
  count-set_vacant (s ∷ slots) (suc i) n e = omega (arith, count-set_vacant slots i n e)

  pub count-none :
      (slots : List (Slot T)) (i : ℕ) → count slots ≡ 0 → content (get_elem? slots i) ≡ none
  count-none [] i h = refl
  count-none (s ∷ slots) zero h = ground arith
  count-none (s ∷ slots) (suc i) h = count-none slots i (omega arith)

module _ {ℓ} (T : Type ℓ) where
  pub count-replicate : (n : ℕ) → count (replicate {A = Slot T} n uninit) ≡ 0
  count-replicate zero = refl
  count-replicate (suc n) = omega (arith, count-replicate n)

  pub has-replicate : (n i : ℕ) → has (get_elem? (replicate {A = Slot T} n uninit) i) ≡ false
  has-replicate zero i = refl
  has-replicate (suc n) zero = refl
  has-replicate (suc n) (suc i) = has-replicate n i

  pub content-replicate : (n i : ℕ) → content (get_elem? (replicate {A = Slot T} n uninit) i) ≡ none
  content-replicate zero i = refl
  content-replicate (suc n) zero = refl
  content-replicate (suc n) (suc i) = content-replicate n i
