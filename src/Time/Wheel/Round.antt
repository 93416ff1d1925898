-- ===== src/Time/Wheel/Round.antt =====
-- What one round of the loop of `process_expiration` adds to the rounds before it.
use monoio.Prelude.{
  ℕ, ◌≡◌, refl, ◌⊎◌, inl, inr, Bool, true, false, ◌&&◌, ◌||◌, Bool-cases, ◌==◌, ==_iff, ==_refl,
  leb, if◌then◌else◌, List, ok, debug_assert, arith,
}
use mathlib.Core.Path.{subst}
use monoio.Time.Entry.{Timer, state_pending_fire, state_deregistered}
use monoio.Time.Wheel.{Wheel, Expiration, Timers, update}
use monoio.Time.Wheel.Place.{Holds, mem}

pub checked : (debug : Bool) (c : Bool) → c ≡ true → debug_assert debug c ≡ ok tt
checked true c e = rw e
checked false c e = refl

-- What holds of `x` and of those of a list holds of both together.
pub round_all :
    (P : ℕ → Type 0) (x : ℕ) (xs : List ℕ)
    → P x
    → ((y : ℕ) → (x == y) ≡ false → mem y xs ≡ true → P y)
    → (y : ℕ) → (y == x || mem y xs) ≡ true
    → P y
round_all P x xs own rest y m = elim (Bool-cases (x == y)) [
  | inl same ↦ subst P ((==_iff x y).0 same) own
  | inr other ↦ rest y other (ground arith)
]

-- The order of the pending timers is no matter to the entries of the wheel.
pub with_pending :
    (w : Wheel) (ps : List ℕ) (i k y : ℕ) → Holds w i k y → Holds (record w { pending = ps }) i k y
with_pending w ps i k y h = record { level = h.level; level_at = h.level_at; holds = h.holds }

module _ {W E : Type 0} where
  pub own_checked :
      (debug : Bool) (e : Expiration) (t : Timer W E)
      → ((e.level == 0) ≡ false) ⊎ (t.cached_when ≡ e.deadline)
      → debug_assert (debug && e.level == 0) (t.cached_when == e.deadline) ≡ ok tt
  own_checked true e t (inl high) = rw high
  own_checked false e t (inl high) = refl
  own_checked debug e t (inr same) =
      checked (debug && e.level == 0) (t.cached_when == e.deadline)
        ((==_iff t.cached_when e.deadline).1 same)

  -- The deadlines after the round of `x`, which gives it `t`.
  pub round_states :
      (deadline : ℕ) (ts ts1 : Timers W E) (x : ℕ) (xs : List ℕ) (t : Timer W E)
      → t.state ≡ (if leb (ts x).state deadline then state_pending_fire else (ts x).state)
      → ((y : ℕ)
          → (ts1 y).state
            ≡ (if mem y xs && leb (ts y).state deadline then state_pending_fire else (ts y).state))
      → (y : ℕ)
      → (update ts1 x t y).state ≡ (
          if (y == x || mem y xs) && leb (ts y).state deadline
          then state_pending_fire
          else (ts y).state)
  round_states deadline ts ts1 x xs t own rest y = elim (Bool-cases (x == y)) [
    | inl same ↦
        (let q : x ≡ y = (==_iff x y).0 same in
          let back : (y == x) ≡ true = ground arith in
          rw (same, back)
            (subst
              (λ z.
                t.state ≡ (if leb (ts z).state deadline then state_pending_fire else (ts z).state))
              q own))
    | inr other ↦ let back : (y == x) ≡ false = ground arith in rw (other, back) (rest y)
  ]

  pub round_others :
      (ts ts1 : Timers W E) (x : ℕ) (xs : List ℕ) (t : Timer W E)
      → ((y : ℕ) → mem y xs ≡ false → ts1 y ≡ ts y)
      → (y : ℕ) → (y == x || mem y xs) ≡ false
      → update ts1 x t y ≡ ts y
  round_others ts ts1 x xs t rest y m = elim (Bool-cases (x == y)) [
    | inl same ↦ absurd (ground arith)
    | inr other ↦ let out : mem y xs ≡ false = ground arith in rw other (rest y out)
  ]

  pub round_records :
      (deadline : ℕ) (ts ts1 : Timers W E) (x : ℕ) (xs : List ℕ) (t : Timer W E)
      → t.cached_when ≡ (if leb (ts x).state deadline then state_deregistered else (ts x).state)
      → ((y : ℕ)
          → mem y xs ≡ true
          → (ts1 y).cached_when
            ≡ (if leb (ts y).state deadline then state_deregistered else (ts y).state))
      → (y : ℕ) → (y == x || mem y xs) ≡ true
      → (update ts1 x t y).cached_when
        ≡ (if leb (ts y).state deadline then state_deregistered else (ts y).state)
  round_records deadline ts ts1 x xs t own rest =
      round_all
        (λ y.
          (update ts1 x t y).cached_when
          ≡ (if leb (ts y).state deadline then state_deregistered else (ts y).state))
        x xs (rw (==_refl x) own) (λ y other m. rw other (rest y m))
