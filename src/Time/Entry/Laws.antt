-- ===== src/Time/Entry/Laws.antt =====
-- A timer between its registration and its firing.
use monoio.Prelude.{
  ℕ, ◌≤◌, ◌<◌, ◌≡◌, refl, ◌∙◌, inl, inr, false, Bool-cases, ◌==◌, ltb, leb, Option, none, some,
  List, [], ◌∷◌, arith,
}
use monoio.Time.Entry.{
  Timer, state_deregistered, state_min_value, read_state, keep_first, poll, fire, extend_expiration,
}

module _ {W : Type 0} where
  -- The first of the wakers, if the timer has none yet.
  abbrev pub first : Option W → List W → Option W
  first (some w) ws = some w
  first none [] = none
  first none (w ∷ ws) = some w

  first-keep : (o : Option W) (w : W) (ws : List W) → first (keep_first o w) ws ≡ first o (w ∷ ws)
  first-keep none w ws = refl
  first-keep (some x) w ws = refl

  first-empty : (o : Option W) → o ≡ first o []
  first-empty none = refl
  first-empty (some w) = refl

module _ {W E : Type 0} where
  -- Polls with these wakers, one after the other.
  abbrev pub poll_all : Timer W E → List W → Timer W E
  poll_all t [] = t
  poll_all t (w ∷ ws) = poll_all (poll t w).1 ws

  poll_all_lem :
      (t : Timer W E) (ws : List W)
      → ((poll_all t ws).state ≡ t.state) × ((poll_all t ws).waker ≡ first t.waker ws)
  unfolding poll
  poll_all_lem t [] = (refl, first-empty t.waker)
  poll_all_lem t (w ∷ ws) =
      let rest = poll_all_lem (poll t w).1 ws in (rest.0, rest.1 ∙ first-keep t.waker w ws)

  -- A registered timer that is polled any number of times and then fires is pending at each poll,
  -- answers at the next poll the result that it fired with, does not fire again, and wakes the waker
  -- of the first of these polls: a later poll with another waker does not take its place.
  pub fire_lem :
      (t : Timer W E) (ws : List W) (w : W) (result : Option E)
      → t.state < state_deregistered
      → t.waker ≡ none
      → ((poll (poll_all t ws) w).0 ≡ none)
        × ((fire (poll_all t (w ∷ ws)) result).0 ≡ some w)
        × ((poll (fire (poll_all t (w ∷ ws)) result).1 w).0 ≡ some result)
        × ((fire (fire (poll_all t (w ∷ ws)) result).1 result).0 ≡ none)
  unfolding fire poll read_state
  fire_lem t ws w result h empty =
      let registered : (t.state == state_deregistered) ≡ false = ground arith in
      let polled = poll_all_lem t ws in
      let again = poll_all_lem (poll t w).1 ws in
      (
        rw (polled.0, registered),
        rw (again.0, registered) (again.1 ∙ rw empty),
        rw (again.0, registered),
        rw (again.0, registered),
      )

  -- A timer with its deadline, and the deadline under which the wheel keeps it, which is no later.
  pub record Kept (t : Timer W E) : Type 0 where
    pub in_time : t.state < state_min_value
    pub no_later : t.cached_when ≤ t.state

  -- A kept timer stays kept when it is asked to move to another deadline, and it moves exactly when
  -- that deadline is not earlier than its own.
  pub extend_expiration-Kept :
      (t : Timer W E) (new_timestamp : ℕ)
      → Kept t
      → new_timestamp < state_min_value
      → Kept (extend_expiration t new_timestamp).1
        × ((extend_expiration t new_timestamp).0 ≡ leb t.state new_timestamp)
  unfolding extend_expiration
  extend_expiration-Kept t n kept h = elim (Bool-cases (ltb n t.state)) [
    | inl earlier ↦ rw earlier (kept, ground arith)
    | inr later ↦
        let alive : leb state_min_value t.state ≡ false = ground (arith, kept.in_time) in
        rw (later, alive)
          (record { in_time = h; no_later = ground (arith, kept.no_later) }, ground arith)
  ]
