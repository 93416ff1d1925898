-- ===== src/Prelude/Bits/Length.antt =====
-- The number of bits of a word, and the zeros above them.
use Prim.Native.Nat.{ℕ, zero, suc, ◌-◌, ◌/◌, ◌^◌, ◌≤◌, ◌<◌}
use mathlib.Core.Bool.{true, false}
use native.Mathlib.Omega.{arith}
use native.Mathlib.Nat.{pow-suc, one-le-pow}
use monoio.Prelude.Tests.{◌==◌}

-- The bits of a number of at most `w` bits.
unfoldable pub bit_length : ℕ → ℕ → ℕ
bit_length zero x = 0
bit_length (suc w) x = elim (x == 0) [ true ↦ 0 | false ↦ suc (bit_length w (x / 2)) ]

-- `u64::leading_zeros`
unfoldable pub leading_zeros : ℕ → ℕ
leading_zeros x = 64 - bit_length 64 x

pub bit_length-le : (w k x : ℕ) → x < 2 ^ k → bit_length w x ≤ k
unfolding bit_length
bit_length-le zero k x h = omega arith
bit_length-le (suc w) zero x h = ground arith
bit_length-le (suc w) (suc k) x h =
    ground (arith, pow-suc 2 k, bit_length-le w k (x / 2) (omega (arith, pow-suc 2 k)))

pub bit_length-lt : (w k x : ℕ) → 2 ^ k ≤ x → x < 2 ^ w → k < bit_length w x
unfolding bit_length
bit_length-lt zero k x h q = absurd (omega (arith, one-le-pow k 2))
bit_length-lt (suc w) zero x h q = ground arith
bit_length-lt (suc w) (suc k) x h q = ground (
  arith,
  one-le-pow (suc k) 2,
  bit_length-lt w k (x / 2) (omega (arith, pow-suc 2 k)) (omega (arith, pow-suc 2 w)),
)
