-- ===== src/Driver/SharedFd/Tests.antt =====
-- A shared descriptor in concrete runs; a waker is a number.
use monoio.Prelude.{
  ℕ, ◌+◌, ◌≤◌, ◌≡◌, refl, Bool, true, false, some, List, [], ◌∷◌, length, ◌==◌, arith,
}
use monoio.Driver.SharedFd.{
  init, waiting, uring, legacy, SharedFd, new, Close, submitted, dropped_file, Event, clone, drop,
  unwrap, close_event, poll_event, abandon, step, run,
}
use monoio.Driver.SharedFd.Once.{run-Once}
use monoio.Driver.SharedFd.Twice.{only, close-twice}
use monoio.Driver.SharedFd.Stuck.{Pending, run-Pending}

abbrev wakes : ℕ → ℕ → Bool
wakes v w = v == w

-- A second owner, a `close` that waits for it, and both go.
abbrev two_owners : List (Event ℕ)
two_owners = clone ∷ close_event true false 5 true ∷ drop true ∷ abandon true ∷ []

abbrev gone : SharedFd ℕ
gone = record {
  owners = 0;
  closers = 0;
  state = uring (waiting (some 5));
  closes = submitted ∷ [];
  deregistered = [];
  given = 0;
}

run_both : run wakes two_owners (new (uring init)) ≡ some gone
unfolding run step
run_both = refl

run-Once_example :
    (length gone.closes + gone.given ≤ 1)
    × (gone.owners + gone.closers ≡ 0 → length gone.closes + gone.given ≡ 1)
run-Once_example = run-Once wakes two_owners (uring init) gone refl refl run_both

-- A second owner cannot take the descriptor, and the last one can.
given_back :
    run wakes (clone ∷ unwrap ∷ drop true ∷ unwrap ∷ []) (new (legacy (some 3)))
    ≡ some (record {
      owners = 0;
      closers = 0;
      state = legacy (some 3);
      closes = [];
      deregistered = 3 ∷ [];
      given = 1;
    })
unfolding run step
given_back = refl

close-twice_example :
    (c : Close) × (ts2 : List ℕ) × (step wakes
        (close_event false false 5 true)
        (only wakes init [] [])
      ≡ some (record {
        owners = 0;
        closers = 0;
        state = uring init;
        closes = dropped_file ∷ c ∷ [];
        deregistered = ts2;
        given = 0;
      }))
close-twice_example = close-twice wakes false 5 true init [] [] refl

-- The `close` waits, the other owner goes, and the future is polled.
abbrev one_waits : SharedFd ℕ
one_waits = record {
  owners = 1;
  closers = 1;
  state = uring (waiting (some 5));
  closes = [];
  deregistered = [];
  given = 0;
}

abbrev alone : SharedFd ℕ
alone = record {
  owners = 0;
  closers = 1;
  state = uring (waiting (some 6));
  closes = [];
  deregistered = [];
  given = 0;
}

run_waits : run wakes (drop true ∷ poll_event true 6 true ∷ []) one_waits ≡ some alone
unfolding run step
run_waits = refl

run-Pending_example : Pending wakes 1 [] alone
run-Pending_example =
    run-Pending wakes 1 [] (omega arith) (drop true ∷ poll_event true 6 true ∷ []) one_waits alone
      refl (refl, omega arith, refl) run_waits
