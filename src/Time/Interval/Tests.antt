-- ===== src/Time/Interval/Tests.antt =====
-- An interval that skips a tick.
use monoio.Prelude.{ℕ, ◌≡◌, refl, true, some, ok, arith}
use monoio.Time.Interval.{skip, poll_tick}
use monoio.Time.Interval.Laws.{Next, poll_tick-Next}

-- A period of ten milliseconds, and a tick that is 25 late
poll_tick-Next_example :
    (t : ℕ) × (poll_tick true 125000000
        (record { deadline = 100000000; period = 10000000; missed_tick_behavior = skip })
      ≡ ok
          (some 100000000, record { deadline = t; period = 10000000; missed_tick_behavior = skip }))
    × Next skip 100000000 125000000 10000000 t
poll_tick-Next_example =
    poll_tick-Next skip 100000000 125000000 10000000 (omega arith) (omega arith)

skips_ahead :
    poll_tick true 125000000
      (record { deadline = 100000000; period = 10000000; missed_tick_behavior = skip })
    ≡ ok (
      some 100000000,
      record { deadline = 130000000; period = 10000000; missed_tick_behavior = skip },
    )
unfolding poll_tick
skips_ahead = refl
