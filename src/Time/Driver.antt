-- ===== src/Time/Driver.antt =====
-- monoio/src/time/driver/mod.rs: the ticks of the clock, and how long the time driver parks. An
-- instant is the number of nanoseconds since some moment, a duration that between two instants; the
-- sum of an instant and a duration that it cannot hold panics, from `top` on.
pub mod Laws
mod Tests
use monoio.Prelude.{
  ℕ, ◌+◌, ◌-◌, ◌*◌, ◌/◌, ◌^◌, ltb, leb, if◌then◌else◌, Option, none, some, Outcome, ok, panic,
  ◌>>=◌,
}

abbrev pub millisecond : ℕ
millisecond = 10 ^ 6

-- `ClockTime`
pub record ClockTime : Type 0 where
  pub start_time : ℕ
  pub top : ℕ

abbrev pub add_duration : ClockTime → ℕ → ℕ → Outcome ℕ
add_duration c t d = if ltb (t + d) c.top then ok (t + d) else panic

-- An instant before the start is tick 0.
unfoldable pub instant_to_tick : ClockTime → ℕ → Outcome ℕ
instant_to_tick c t =
    let ms = (t - c.start_time) / millisecond in if ltb ms (2 ^ 64) then ok ms else panic

unfoldable pub deadline_to_tick : ClockTime → ℕ → Outcome ℕ
unfolding instant_to_tick
deadline_to_tick c t = add_duration c t 999999 >>= instant_to_tick c

unfoldable pub tick_to_duration : ℕ → ℕ
tick_to_duration t = t * millisecond

-- What `park_internal` asks of the driver below it: `none` is `park`, and `some` is `park_timeout`.
abbrev at_most : Option ℕ → ℕ → ℕ
at_most none duration = duration
at_most (some limit) duration = if leb limit duration then limit else duration

abbrev timed_park : Option ℕ → ℕ → ℕ
timed_park limit duration = if ltb 0 duration then at_most limit duration else 0

unfoldable pub park_internal : ClockTime → ℕ → Option ℕ → Option ℕ → Outcome (Option ℕ)
unfolding instant_to_tick tick_to_duration
park_internal c clock_now next_wake limit = elim next_wake [
  | none ↦ ok limit
  | some when ↦ do
    now ← instant_to_tick c clock_now
    ok (some (timed_park limit (tick_to_duration (when - now))))
]

-- `process_at_time` when the clock went backwards
unfoldable pub process_time : ℕ → ℕ → ℕ
process_time elapsed now = if ltb now elapsed then elapsed else now
