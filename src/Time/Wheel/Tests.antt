-- ===== src/Time/Wheel/Tests.antt =====
-- Two timers of a slot of level 1, of which one is due at tick 64.
use monoio.Prelude.{ℕ, none, some, if◌then◌else◌, ◌==◌}
use monoio.Time.Wheel.{Wheel, Expiration, Timers}

abbrev two_timers : Timers ℕ ℕ
two_timers k =
    if k == 0
    then record { state = 64; result = none; waker = some 7; cached_when = 64 }
    else record { state = 70; result = none; waker = none; cached_when = 70 }

abbrev at_level_one : Expiration
at_level_one = record { level = 1; slot = 1; deadline = 64 }
