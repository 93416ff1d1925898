-- ===== src/Time/Interval.antt =====
-- monoio/src/time/interval.rs: when an interval ticks. Instants and durations are counts of
-- nanoseconds, instants from some start, so far from the end of the clock that no sum of them
-- overflows. The deadline of the delay is what is kept of it; whether it has elapsed is an argument.
mod Laws
mod Tests
use monoio.Prelude.{
  ℕ, ◌+◌, ◌-◌, ◌*◌, ◌%◌, ◌^◌, Bool, true, false, Option, none, some, ltb, if◌then◌else◌, Outcome,
  ok, panic, undefined, assert, ◌>>=◌, ◌>>◌,
}

pub data MissedTickBehavior : Type 0 where
  burst : MissedTickBehavior
  delay : MissedTickBehavior
  skip : MissedTickBehavior

pub record Interval : Type 0 where
  pub deadline : ℕ
  pub period : ℕ
  pub missed_tick_behavior : MissedTickBehavior

pub interval_at : ℕ → ℕ → Outcome Interval
interval_at start period =
    assert (ltb 0 period)
    >> ok (record { deadline = start; period = period; missed_tick_behavior = burst })

-- `expect` on the conversion to 64 bits. A difference of instants stops at 0.
abbrev pub next_timeout : MissedTickBehavior → ℕ → ℕ → ℕ → Outcome ℕ
next_timeout burst timeout now period = ok (timeout + period)
next_timeout delay timeout now period = ok (now + period)
next_timeout skip timeout now period =
    let late = (now - timeout) % period in
    if ltb late (2 ^ 64) then ok (now + period - late) else panic

abbrev pub five_millis : ℕ
five_millis = 5000000

-- `none` is a pending poll.
unfoldable pub poll_tick : Bool → ℕ → Interval → Outcome (Option ℕ × Interval)
poll_tick false now i = ok (none, i)
poll_tick true now i =
    let timeout = i.deadline in
    (if ltb (timeout + five_millis) now
      then next_timeout i.missed_tick_behavior timeout now i.period
      else ok (timeout + i.period))
    >>= λ next. ok (some timeout, record i { deadline = next })
