-- ===== src/Time/Wheel/Expire.antt =====
-- What the loop of `process_expiration` does with the entries of a slot.
use monoio.Prelude.{
  ℕ, ◌<◌, ◌≡◌, ◌⊎◌, true, false, ◌&&◌, ◌==◌, ltb, leb, if◌then◌else◌, List, [], ◌∷◌, ◌++◌,
}
use monoio.Time.Entry.{state_min_value, state_pending_fire, state_deregistered}
use monoio.Time.Wheel.{Wheel, Expiration, Timers, level_for, slot_for}
use monoio.Time.Wheel.Place.{Shape, Holds, mem}

-- Where the wheel holds a timer with the deadline `when`, seen from the tick `now`.
abbrev pub InPlace : ℕ → Wheel → ℕ → ℕ → Type 0
InPlace now w when y = Holds w (level_for now when) (slot_for when (level_for now when)) y

module _ {W E : Type 0} where
  -- The timers of a list whose deadline has come, in the list's order.
  abbrev pub due : ℕ → Timers W E → List ℕ → List ℕ
  due deadline ts [] = []
  due deadline ts (x ∷ xs) =
      let rest = due deadline ts xs in if ltb deadline (ts x).state then rest else x ∷ rest

  -- Different timers with a deadline each; at the lowest level the wheel's own record of it is the
  -- expiration's.
  abbrev pub Expires : Expiration → Timers W E → List ℕ → Type 0
  Expires e ts [] = Unit {0}
  Expires e ts (x ∷ xs) =
      ((ts x).state < state_min_value)
      × (((e.level == 0) ≡ false) ⊎ ((ts x).cached_when ≡ e.deadline))
      × (mem x xs ≡ false)
      × Expires e ts xs

  -- After the loop: the timers that were due stand before those that were pending, in their order,
  -- and about to fire; each of the others is in the wheel again, at the level and slot of its
  -- deadline, which is its own record of it too; no other entry has left the wheel, and no other
  -- timer has changed.
  pub record Sorted (e : Expiration) (w : Wheel) (ts : Timers W E) (xs : List ℕ) (w2 : Wheel)
      (ts2 : Timers W E) : Type 0 where
    pub shape : Shape w2
    pub pending : w2.pending ≡ due e.deadline ts xs ++ w.pending
    pub elapsed : w2.elapsed ≡ w.elapsed
    pub others : (y : ℕ) → mem y xs ≡ false → ts2 y ≡ ts y
    pub states :
        (y : ℕ)
        → (ts2 y).state
          ≡ (if mem y xs && leb (ts y).state e.deadline then state_pending_fire else (ts y).state)
    pub records :
        (y : ℕ)
        → mem y xs ≡ true
        → (ts2 y).cached_when
          ≡ (if leb (ts y).state e.deadline then state_deregistered else (ts y).state)
    pub in_place :
        (y : ℕ)
        → mem y xs ≡ true
        → ltb e.deadline (ts y).state ≡ true
        → InPlace e.deadline w2 (ts y).state y
    pub kept : (i k y : ℕ) → Holds w i k y → Holds w2 i k y
