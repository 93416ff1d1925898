-- ===== src/Task/Life/Keeps.antt =====
-- The life of a task whose state goes through the transitions of the specification.
use monoio.Prelude.{◌^◌, ◌<◌, ◌≡◌, Bool, true, arith}
use monoio.Task.State.Flags.{Flags}
use monoio.Task.Cell.{Build}
use monoio.Task.Life.{
  System, Act, begin, discard, yield, complete, finish, announce, by_ref, by_val, clone, drop,
  receive, lose, poll_join, clear, store, take, fast_drop, slow_drop, release, handles, Enabled,
}
use monoio.Task.Life.Meant.{Inv}
use monoio.Task.Life.After.{after}

module _ {W T : Type 0} (same : W → W → Bool) (build : Build)
    (whole : (x : W) → same x x ≡ true) where
  pub after-Inv :
      {s : System Flags W T} (a : Act Flags W T)
      → Enabled build a s
      → handles s < 2 ^ 58
      → Inv same s
      → Inv same (after same a s)
  unfolding after
  after-Inv begin q room i = ground arith
  after-Inv discard q room i = ground arith
  after-Inv yield q room i = ground arith
  after-Inv (complete v) q room i = ground arith
  after-Inv (finish v) q room i = ground arith
  after-Inv (announce g) q room i = ground arith
  after-Inv (by_ref th) q room i = ground arith
  after-Inv (by_val th) q room i = ground arith
  after-Inv clone q room i = ground arith
  after-Inv drop q room i = ground arith
  after-Inv receive q room i = ground arith
  after-Inv lose q room i = ground arith
  after-Inv (poll_join x) q room i = ground arith
  after-Inv (clear x) q room i = ground arith
  after-Inv (store x g) q room i = ground (arith, whole x)
  after-Inv take q room i = ground arith
  after-Inv fast_drop q room i = ground arith
  after-Inv slow_drop q room i = ground arith
  after-Inv release q room i = ground arith
