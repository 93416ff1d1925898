-- ===== src/Prelude/Bits/Test.antt =====
-- Single bits of a number, and what the bitwise operations do to them.
use Prim.Native.Nat.{ℕ, zero, suc, ◌/◌, ◌%◌, bit_and, bit_or}
use mathlib.Core.Path.{◌≡◌, ap, ◌∙◌}
use mathlib.Core.Bool.{Bool, ◌&&◌, ◌||◌}
use native.Mathlib.Omega.{arith}
use monoio.Prelude.Tests.{◌==◌}
use monoio.Prelude.Bits.Step.{bit_and_step, bit_or_step}

-- Bit `k`, the lowest being bit 0.
abbrev pub test_bit : ℕ → ℕ → Bool
test_bit zero n = n % 2 == 1
test_bit (suc k) n = test_bit k (n / 2)

pub test_bit-and : (k a b : ℕ) → test_bit k (bit_and a b) ≡ (test_bit k a && test_bit k b)
test_bit-and zero a b = ground (arith, bit_and_step a b)
test_bit-and (suc k) a b =
    let half : bit_and a b / 2 ≡ bit_and (a / 2) (b / 2) = omega (arith, bit_and_step a b) in
    ap (test_bit k) half ∙ test_bit-and k (a / 2) (b / 2)

pub test_bit-or : (k a b : ℕ) → test_bit k (bit_or a b) ≡ (test_bit k a || test_bit k b)
test_bit-or zero a b = ground (arith, bit_or_step a b)
test_bit-or (suc k) a b =
    let half : bit_or a b / 2 ≡ bit_or (a / 2) (b / 2) = omega (arith, bit_or_step a b) in
    ap (test_bit k) half ∙ test_bit-or k (a / 2) (b / 2)
