-- ===== src/Time/Entry.antt =====
-- monoio/src/time/driver/entry.rs: the state that a timer shares with the driver. A deadline is a
-- tick below 2 ^ 64 - 2; the two words above stand for a timer about to fire and for one that the
-- driver does not have. `W` is the type of wakers, and `E` that of the errors of a timer.
pub mod Laws
mod Tests
use monoio.Prelude.{
  ℕ, ◌-◌, ◌^◌, Bool, true, false, ◌||◌, ◌==◌, ltb, leb, not, if◌then◌else◌, Option, none, some, ◌⊎◌,
  inl, inr, Outcome, ok, panic, debug_assert, ◌>>=◌, ◌>>◌,
}

abbrev pub state_deregistered : ℕ
state_deregistered = 2 ^ 64 - 1

abbrev pub state_pending_fire : ℕ
state_pending_fire = 2 ^ 64 - 2

abbrev pub state_min_value : ℕ
state_min_value = state_pending_fire

-- `StateCell` and the cached deadline of `TimerSharedPadded`. `none` for a result is `Ok(())`.
pub record Timer (W E : Type 0) : Type 0 where
  pub state : ℕ
  pub result : Option E
  pub waker : Option W
  pub cached_when : ℕ

abbrev pub keep_first : {W : Type 0} → Option W → W → Option W
keep_first none waker = some waker
keep_first (some old) waker = some old

abbrev pub expect : Option ℕ → Outcome ℕ
expect none = panic
expect (some n) = ok n

module _ {W E : Type 0} where
  abbrev pub new : Timer W E
  new = record { state = state_deregistered; result = none; waker = none; cached_when = 0 }

  unfoldable pub when : Timer W E → Option ℕ
  when t = if t.state == state_deregistered then none else some t.state

  -- `none` is `Poll::Pending`.
  unfoldable pub read_state : Timer W E → Option (Option E)
  read_state t = if t.state == state_deregistered then some t.result else none

  unfoldable pub poll : Timer W E → W → Option (Option E) × Timer W E
  poll t waker = (read_state t, record t { waker = keep_first t.waker waker })

  -- `mark_pending` of `TimerHandle`: `inr` is the deadline of a timer that is not due.
  unfoldable pub mark_pending : Bool → Timer W E → ℕ → Outcome ((Unit {0} ⊎ ℕ) × Timer W E)
  mark_pending debug t not_after =
      debug_assert debug (ltb t.state state_min_value)
      >> (if ltb not_after t.state
          then ok (inr t.state, record t { cached_when = t.state })
          else ok
              (inl tt, record t { state = state_pending_fire; cached_when = state_deregistered }))

  unfoldable pub fire : Timer W E → Option E → Option W × Timer W E
  fire t result =
      if t.state == state_deregistered
      then (none, t)
      else (t.waker, record t { result = result; state = state_deregistered; waker = none })

  -- `set_expiration` of `TimerShared`
  unfoldable pub set_expiration : Bool → Timer W E → ℕ → Outcome (Timer W E)
  set_expiration debug t timestamp =
      debug_assert debug (ltb timestamp state_min_value)
      >> ok (record t { state = timestamp; cached_when = timestamp })

  -- The Boolean says whether the timer was extended.
  unfoldable pub extend_expiration : Timer W E → ℕ → Bool × Timer W E
  extend_expiration t new_timestamp =
      if ltb new_timestamp t.state || leb state_min_value t.state
      then (false, t)
      else (true, record t { state = new_timestamp })

  unfoldable pub might_be_registered : Timer W E → Bool
  might_be_registered t = not (t.state == state_deregistered)

  unfoldable pub true_when : Timer W E → Outcome ℕ
  true_when t = expect (when t)

  unfoldable pub sync_when : Timer W E → Outcome (ℕ × Timer W E)
  sync_when t = do w ← true_when t; ok (w, record t { cached_when = w })
