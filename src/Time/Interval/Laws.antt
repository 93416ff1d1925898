-- ===== src/Time/Interval/Laws.antt =====
-- Where the next tick of an interval falls.
use native.Mathlib.Nat.{mod-add-div', mod-lt}
use monoio.Prelude.{
  ℕ, ◌+◌, ◌-◌, ◌*◌, ◌/◌, ◌%◌, ◌^◌, ◌≤◌, ◌<◌, ◌≡◌, refl, ◌⊎◌, true, false, Bool-cases, inl, inr,
  some, ltb, ltb→lt, lt→ltb, ok, arith,
}
use monoio.Time.Interval.{MissedTickBehavior, burst, delay, skip, Interval, five_millis, poll_tick}

-- The next tick, after a tick at `timeout` that was seen at `now`
abbrev pub Next : MissedTickBehavior → ℕ → ℕ → ℕ → ℕ → Type 0
Next burst timeout now period t = t ≡ timeout + period
Next delay timeout now period t =
    ((timeout + five_millis < now) × (t ≡ now + period))
    ⊎ ((now ≤ timeout + five_millis) × (t ≡ timeout + period))
Next skip timeout now period t =
    (timeout < t)
    × ((k : ℕ) × (t ≡ timeout + (k + 1) * period))
    × (timeout + five_millis < now → (now < t) × (t ≤ now + period))

skip-Next :
    (timeout now period : ℕ)
    → 0 < period
    → timeout + five_millis < now
    → Next skip timeout now period (now + period - (now - timeout) % period)
skip-Next timeout now period some_period late =
    let parts = mod-add-div' (now - timeout) period in
    let small = mod-lt (now - timeout) some_period in
    let whole : now + period - (now - timeout) % period
        ≡ timeout + ((now - timeout) / period + 1) * period =
      grind (arith, parts, small) in
    (
      omega (arith, small),
      ((now - timeout) / period, whole),
      λ missed. (omega (arith, small), omega arith),
    )

-- A tick answers the deadline and sets the next, without a panic: with Burst one period after it;
-- with Delay one period after now if the tick is more than five milliseconds late, and else one
-- period after the deadline; with Skip a positive number of periods after the deadline, and if it
-- is so late, after now by at most a period.
pub poll_tick-Next :
    (b : MissedTickBehavior) (timeout now period : ℕ)
    → 0 < period
    → period < 2 ^ 64
    → (t : ℕ) × (poll_tick true now
          (record { deadline = timeout; period = period; missed_tick_behavior = b })
        ≡ ok (some timeout, record { deadline = t; period = period; missed_tick_behavior = b }))
      × Next b timeout now period t
unfolding poll_tick
poll_tick-Next b timeout now period some_period small =
    elim (Bool-cases (ltb (timeout + five_millis) now)) [
      | inl late ↦ by_late b (ltb→lt (timeout + five_millis) now late) late
      | inr on_time ↦ by_time b (ground arith) on_time
    ]
  where
    at : MissedTickBehavior → Interval
    at b = record { deadline = timeout; period = period; missed_tick_behavior = b }

    Ticks : MissedTickBehavior → Type 0
    Ticks b =
        (t : ℕ) × (poll_tick true now (at b) ≡ ok (some timeout, record (at b) { deadline = t }))
        × Next b timeout now period t

    by_late :
        (b : MissedTickBehavior)
        → timeout + five_millis < now
        → ltb (timeout + five_millis) now ≡ true
        → Ticks b
    by_late burst late e = (timeout + period, rw e, refl)
    by_late delay late e = (now + period, rw e, inl (late, refl))
    by_late skip late e =
        let fits : ltb ((now - timeout) % period) (2 ^ 64) ≡ true =
          lt→ltb _ _ (omega (arith, mod-lt (now - timeout) some_period)) in
        (
          now + period - (now - timeout) % period,
          rw (e, fits),
          skip-Next timeout now period some_period late,
        )

    by_time :
        (b : MissedTickBehavior)
        → now ≤ timeout + five_millis
        → ltb (timeout + five_millis) now ≡ false
        → Ticks b
    by_time burst early e = (timeout + period, rw e, refl)
    by_time delay early e = (timeout + period, rw e, inr (early, refl))
    by_time skip early e =
        (timeout + period, rw e, (omega arith, (0, omega arith), λ late. absurd (omega arith)))
