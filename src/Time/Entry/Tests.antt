-- ===== src/Time/Entry/Tests.antt =====
-- A timer at tick 40 that two tasks poll.
use monoio.Prelude.{ℕ, ◌≡◌, refl, none, some, [], ◌∷◌, arith}
use monoio.Time.Entry.{Timer, poll, fire}
use monoio.Time.Entry.Laws.{poll_all, fire_lem}

abbrev at_forty : Timer ℕ ℕ
at_forty = record { state = 40; result = none; waker = none; cached_when = 40 }

fire_lem_example :
    ((poll (poll_all at_forty (2 ∷ [])) 1).0 ≡ none)
    × ((fire (poll_all at_forty (1 ∷ 2 ∷ [])) none).0 ≡ some 1)
    × ((poll (fire (poll_all at_forty (1 ∷ 2 ∷ [])) none).1 1).0 ≡ some none)
    × ((fire (fire (poll_all at_forty (1 ∷ 2 ∷ [])) none).1 none).0 ≡ none)
fire_lem_example = fire_lem at_forty (2 ∷ []) 1 none (omega arith) refl
