-- ===== src/Task/State/Cas.antt =====
-- The compare-and-swap loops of state.rs under interference from other threads.
use mathlib.Core.List.{Mem, mem-cons_self, mem-cons_of_mem}
use monoio.Prelude.{
  ℕ, ◌≡◌, refl, ◌∙◌, Option, none, some, List, [], ◌∷◌, ◌⊎◌, inl, inr, Bool-cases, ◌==◌, ==_iff, ok,
  panic, ◌>>=◌, undefined,
}
use monoio.Task.State.{Update, Done, attempt, fetch_update_action}
use monoio.Task.State.Word.{Snapshot}

-- What a closure's answer at a snapshot comes to as one atomic step on a memory that holds it.
abbrev pub at_once : {T : Type 0} → Snapshot → T × Option Snapshot → Done T
at_once v (output, none) = ok (output, none)
at_once v (output, some next) = ok (output, some (v, next))

-- The word that a closure asks to store.
abbrev pub stored : {T : Type 0} → Update T → Option Snapshot
stored panic = none
stored undefined = none
stored (ok (output, next)) = next

-- The loop, which read `curr` first, reads `v` at some attempt, and the memory still holds `v`
-- at the compare-and-swap of that attempt.
abbrev pub Holds : ℕ → ℕ → List ℕ → Type 0
Holds v curr [] = v ≡ curr
Holds v curr (actual ∷ env) = ((v ≡ curr) × (actual ≡ v)) ⊎ Holds v actual env

attempt_cases :
    {T : Type 0} (f : Snapshot → Update T) (curr actual : ℕ) (retry : Done T) (u : Update T)
    → (((u >>= attempt f curr actual retry) ≡ (u >>= at_once curr))
        × ((actual ≡ curr) ⊎ (stored u ≡ none)))
      ⊎ ((u >>= attempt f curr actual retry) ≡ retry)
attempt_cases f curr actual retry panic = inl (refl, inr refl)
attempt_cases f curr actual retry undefined = inl (refl, inr refl)
attempt_cases f curr actual retry (ok (output, none)) = inl (refl, inr refl)
attempt_cases f curr actual retry (ok (output, some next)) = elim (Bool-cases (actual == curr)) [
  | inl same ↦ inl (rw same, inl ((==_iff actual curr).0 same))
  | inr other ↦ inr (rw other)
]

attempt_alone :
    {T : Type 0} (f : Snapshot → Update T) (curr : ℕ) (u : Update T)
    → (u >>= attempt f curr curr panic) ≡ (u >>= at_once curr)
attempt_alone f curr panic = refl
attempt_alone f curr undefined = refl
attempt_alone f curr (ok (output, none)) = refl
attempt_alone f curr (ok (output, some next)) = rw ((==_iff curr curr).1 refl)

module _ {T : Type 0} (f : Snapshot → Update T) where
  -- Whatever words other threads put into the memory between the attempts, the loop ends, and its
  -- output and its exchange are those of the closure run once, atomically, at one word: a word
  -- that the loop has read, and that the memory still holds at the compare-and-swap unless the
  -- closure stores nothing there.
  pub fetch_update_action_atomic :
      (curr : ℕ) (env : List ℕ)
      → (v : ℕ) × Mem v (curr ∷ env)
        × (fetch_update_action f curr env ≡ (f v >>= at_once v))
        × (Holds v curr env ⊎ (stored (f v) ≡ none))
  unfolding fetch_update_action
  fetch_update_action_atomic curr [] =
      (curr, mem-cons_self, attempt_alone f curr (f curr), inl refl)
  fetch_update_action_atomic curr (actual ∷ env) =
      elim (attempt_cases f curr actual (fetch_update_action f actual env) (f curr)) [
        | inl (e, inl same) ↦ (curr, mem-cons_self, e, inl (inl (refl, same)))
        | inl (e, inr nothing) ↦ (curr, mem-cons_self, e, inr nothing)
        | inr e ↦
            let (v, m, r, held) = fetch_update_action_atomic actual env in
            (v, mem-cons_of_mem curr m, e ∙ r, elim held [ inl h ↦ inl (inr h) | inr n ↦ inr n ])
      ]
