-- ===== src/Time/Driver/Tests.antt =====
-- A deadline of one and a half milliseconds, on a clock that started at 10 milliseconds.
use monoio.Prelude.{ℕ, ◌+◌, ◌*◌, ◌^◌, ◌<◌, ◌≤◌, ◌≡◌, ◌⊎◌, refl, some, ok, arith}
use monoio.Time.Driver.{ClockTime, millisecond, instant_to_tick, deadline_to_tick, park_internal}
use monoio.Time.Driver.Laws.{deadline_to_tick-instant_to_tick, park_internal-Waits}

abbrev clock : ClockTime
clock = record { start_time = 10 ^ 7; top = 2 ^ 90 }

tick_of_deadline : deadline_to_tick clock 11500000 ≡ ok 2
unfolding deadline_to_tick
tick_of_deadline = refl

tick_later : instant_to_tick clock 12000001 ≡ ok 2
unfolding instant_to_tick
tick_later = refl

deadline_to_tick-instant_to_tick_example :
    ((2 < 2) ⊎ (11500000 ≤ 12000001)) × ((12000001 < 11500000 + millisecond) ⊎ (2 ≤ 2))
deadline_to_tick-instant_to_tick_example =
    deadline_to_tick-instant_to_tick clock 11500000 12000001 2 2 (omega arith) (omega arith)
      tick_of_deadline tick_later

-- The timer is a millisecond away, and the limit is less.
abbrev limited : ℕ
limited = 400000

park_run : park_internal clock 11000000 (some 2) (some 400000) ≡ ok (some 400000)
unfolding park_internal
park_run = refl

tick_after : instant_to_tick clock (11000000 + 400000) ≡ ok 1
unfolding instant_to_tick
tick_after = refl

park_internal-Waits_example :
    (limited ≤ 400000)
    × ((limited ≡ 0) ⊎ (11000000 + limited < clock.start_time + 2 * millisecond + millisecond))
    × ((some limited ≡ some limited) ⊎ (2 ≤ 1))
park_internal-Waits_example =
    park_internal-Waits clock 11000000 2 limited 1 (some limited) (omega arith) park_run tick_after
