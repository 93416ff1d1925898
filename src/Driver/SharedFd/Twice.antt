-- ===== src/Driver/SharedFd/Twice.antt =====
-- A `close` whose operation cannot be submitted.
use monoio.Prelude.{ℕ, ◌≡◌, refl, Bool, false, some, List, [], ◌∷◌, ◌++◌}
use monoio.Driver.SharedFd.{
  UringState, init, waiting, closing, closed, uring_legacy, uring, SharedFd, Close, dropped_file,
  close_by, tokens, close_event, step,
}
use monoio.Driver.SharedFd.Once.{started}

module _ {W : Type 0} (will_wake : W → W → Bool) where
  abbrev pub only : UringState W → List Close → List ℕ → SharedFd W
  only u cs ts = record {
    owners = 1;
    closers = 0;
    state = uring u;
    closes = cs;
    deregistered = ts;
    given = 0;
  }

  -- The only owner closes in io_uring mode, when no close is started, and the operation cannot be submitted: the
  -- descriptor is closed by `close` itself, and again when what the owner held is dropped.
  pub close-twice :
      (done : Bool) (w : W) (ok : Bool) (u : UringState W) (cs : List Close) (ts : List ℕ)
      → started (uring u) ≡ false
      → (c : Close) × (ts2 : List ℕ) × (step will_wake (close_event false done w ok) (only u cs ts)
          ≡ some (record {
            owners = 0;
            closers = 0;
            state = uring u;
            closes = (cs ++ dropped_file ∷ []) ++ c ∷ [];
            deregistered = ts2;
            given = 0;
          }))
  unfolding step
  close-twice done w ok init cs ts e = (close_by ok, ts ++ [], refl)
  close-twice done w ok (waiting v) cs ts e = (close_by ok, ts ++ [], refl)
  close-twice done w ok closing cs ts e = absurd cc
  close-twice done w ok closed cs ts e = absurd cc
  close-twice done w ok (uring_legacy idx) cs ts e = (dropped_file, ts ++ tokens idx, refl)
