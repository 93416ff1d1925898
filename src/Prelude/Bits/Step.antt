-- ===== src/Prelude/Bits/Step.antt =====
-- The native operations are recursions on binary digits with fuel; here is each as one equation
-- for its lowest digit.
use Prim.Native.Nat.{ℕ, zero, suc, ◌+◌, ◌*◌, ◌/◌, ◌%◌, ◌≤◌, min, max, digits, bitwise, differ}
use Prim.Native.Nat.{bit_and, bit_or, bit_xor, bit_and-bitwise, bit_or-bitwise, bit_xor-bitwise}
use mathlib.Core.Path.{◌≡◌, refl, ap}
use native.Mathlib.Omega.{arith}

-- `w` is the result once the first number has run out of digits, `d` the operation on two digits.
module _ (w : ℕ → ℕ) (d : ℕ → ℕ → ℕ) where
  -- Any two counts of digits that the first number does not exceed give the same result.
  enough : (n m x y : ℕ) → x ≤ m → x ≤ n → digits w d n x y ≡ digits w d m x y
  enough zero zero x y p q = refl
  enough zero (suc m) (suc x) y p q = absurd (omega arith)
  enough zero (suc m) zero y p q = refl
  enough (suc n) zero (suc x) y p q = absurd (omega arith)
  enough (suc n) zero zero y p q = refl
  enough (suc n) (suc m) zero y p q = refl
  enough (suc n) (suc m) (suc x) y p q =
      ap (λ r. r * 2 + d (suc x % 2) (y % 2))
        (enough n m (suc x / 2) (y / 2) (omega arith) (omega arith))

  lowest :
      ((y : ℕ) → w y ≡ 2 * w (y / 2) + d 0 (y % 2))
      → (x y : ℕ) → bitwise w d x y ≡ 2 * bitwise w d (x / 2) (y / 2) + d (x % 2) (y % 2)
  lowest rest zero y = rest y
  lowest rest (suc x) y =
      omega (arith, enough x (suc x / 2) (suc x / 2) (y / 2) (omega arith) (omega arith))

differ_rest : (y : ℕ) → y ≡ 2 * (y / 2) + differ 0 (y % 2)
differ_rest y = omega arith

pub bit_xor_step : (x y : ℕ) → bit_xor x y ≡ 2 * bit_xor (x / 2) (y / 2) + differ (x % 2) (y % 2)
bit_xor_step x y = simp bit_xor-bitwise (lowest (λ r. r) differ differ_rest x y)

pub bit_and_step : (x y : ℕ) → bit_and x y ≡ 2 * bit_and (x / 2) (y / 2) + min (x % 2) (y % 2)
bit_and_step x y = simp bit_and-bitwise (lowest (λ r. 0) min (λ r. omega arith) x y)

pub bit_or_step : (x y : ℕ) → bit_or x y ≡ 2 * bit_or (x / 2) (y / 2) + max (x % 2) (y % 2)
bit_or_step x y = simp bit_or-bitwise (lowest (λ r. r) max (λ r. omega arith) x y)

pub zero-bit_and : (y : ℕ) → bit_and 0 y ≡ 0
zero-bit_and y = simp bit_and-bitwise refl
