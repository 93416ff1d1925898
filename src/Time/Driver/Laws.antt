-- ===== src/Time/Driver/Laws.antt =====
-- How the ticks of the clock stand to its instants.
use monoio.Prelude.{
  Bool-cases, leb, ◌*◌, ◌==◌, inl, inr, ℕ, ◌+◌, ◌<◌, ◌≤◌, ◌≡◌, ◌⊎◌, Option, none, some, ok, arith,
}
use monoio.Time.Driver.{
  ClockTime, millisecond, instant_to_tick, deadline_to_tick, tick_to_duration, park_internal,
}

-- For a deadline and a reading of the clock not before its start: either the
-- clock has not reached the tick of the deadline, or the deadline has passed; and the clock has
-- reached the tick once a millisecond has passed since the deadline.
pub deadline_to_tick-instant_to_tick :
    (c : ClockTime) (deadline now tick at : ℕ)
    → c.start_time ≤ deadline
    → c.start_time ≤ now
    → deadline_to_tick c deadline ≡ ok tick
    → instant_to_tick c now ≡ ok at
    → ((at < tick) ⊎ (deadline ≤ now)) × ((now < deadline + millisecond) ⊎ (tick ≤ at))
unfolding deadline_to_tick instant_to_tick
deadline_to_tick-instant_to_tick c deadline now tick at h k e f = (
  elim (Bool-cases (leb tick at)) [
    | inl reached ↦ inr (ground arith)
    | inr before ↦ inl (ground arith)
  ],
  elim (Bool-cases (leb (deadline + millisecond) now)) [
    | inl passed ↦ inr (ground arith)
    | inr near ↦ inl (ground arith)
  ],
)

-- No longer than the limit, if there is one.
abbrev pub Within : Option ℕ → ℕ → Type 0
Within none d = Unit {0}
Within (some limit) d = d ≤ limit

-- A park that waits for a timer, on a clock that has started: it is no longer than the limit; it is
-- no wait at all, or it ends less than a millisecond after the start of the timer's tick; and after
-- it either the limit is over, or the clock has reached that tick.
pub park_internal-Waits :
    (c : ClockTime) (clock_now when d at : ℕ) (limit : Option ℕ)
    → c.start_time ≤ clock_now
    → park_internal c clock_now (some when) limit ≡ ok (some d)
    → instant_to_tick c (clock_now + d) ≡ ok at
    → Within limit d
      × ((d ≡ 0) ⊎ (clock_now + d < c.start_time + when * millisecond + millisecond))
      × ((limit ≡ some d) ⊎ (when ≤ at))
unfolding park_internal instant_to_tick tick_to_duration
park_internal-Waits c clock_now when d at none h e f = elim (Bool-cases (d == 0)) [
  | inl zero_wait ↦ (tt, inl (ground arith), inr (ground arith))
  | inr some_wait ↦ (tt, inr (ground arith), inr (ground arith))
]
park_internal-Waits c clock_now when d at (some limit) h e f = (
  ground arith,
  elim (Bool-cases (d == 0)) [
    | inl zero_wait ↦ inl (ground arith)
    | inr some_wait ↦ inr (ground arith)
  ],
  elim (Bool-cases (leb limit d)) [
    | inl short ↦ inl (ground arith)
    | inr long ↦ inr (ground arith)
  ],
)
