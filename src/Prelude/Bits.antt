-- ===== src/Prelude/Bits.antt =====
-- The bitwise operations of the machine words, at every width.
pub mod Step
pub mod Length
pub mod Test
use Prim.Native.Nat.{ℕ, zero, suc, ◌+◌, ◌-◌, ◌*◌, ◌/◌, ◌%◌, ◌^◌, ◌≤◌, ◌<◌, min, max, differ}
use Prim.Native.Nat.{bit_and, bit_or, bit_xor}
use mathlib.Core.Path.{◌≡◌, refl, ap}
use native.Mathlib.Omega.{arith}
use native.Mathlib.Nat.{pow-suc, one-le-pow}
use Step.{bit_and_step, bit_or_step, bit_xor_step}

-- The place value doubles with the width.
pow-suc-mul : (k x : ℕ) → x * 2 ^ suc k ≡ 2 * (x * 2 ^ k)
pow-suc-mul k x = let e = ap (λ (p : ℕ). x * p) (pow-suc 2 k) in omega arith

-- An operation that works digit by digit works on the high and the low part of a word apart.
module _ (op : ℕ → ℕ → ℕ) (digit : ℕ → ℕ → ℕ)
    (step : (a b : ℕ) → op a b ≡ 2 * op (a / 2) (b / 2) + digit (a % 2) (b % 2))
    (op_zero : op 0 0 ≡ 0) where
  split :
      (k a b r s : ℕ)
      → r < 2 ^ k
      → s < 2 ^ k
      → op (a * 2 ^ k + r) (b * 2 ^ k + s) ≡ op a b * 2 ^ k + op r s
  split zero a b zero zero hr hs =
      let e : a * 1 + 0 ≡ a = omega arith in
      let f : b * 1 + 0 ≡ b = omega arith in rw (e, f, op_zero) (omega arith)
  split zero a b zero (suc s) hr hs = absurd (omega arith)
  split zero a b (suc r) s hr hs = absurd (omega arith)
  split (suc k) a b r s hr hs = ground (
    arith,
    step (a * 2 ^ suc k + r) (b * 2 ^ suc k + s),
    step r s,
    pow-suc-mul k a,
    pow-suc-mul k b,
    pow-suc-mul k (op a b),
    split k a b (r / 2) (s / 2) (omega (arith, pow-suc 2 k)) (omega (arith, pow-suc 2 k)),
  )

pub bit_and_split :
    (k a b r s : ℕ)
    → r < 2 ^ k
    → s < 2 ^ k
    → bit_and (a * 2 ^ k + r) (b * 2 ^ k + s) ≡ bit_and a b * 2 ^ k + bit_and r s
bit_and_split = split bit_and min bit_and_step refl

pub bit_or_split :
    (k a b r s : ℕ)
    → r < 2 ^ k
    → s < 2 ^ k
    → bit_or (a * 2 ^ k + r) (b * 2 ^ k + s) ≡ bit_or a b * 2 ^ k + bit_or r s
bit_or_split = split bit_or max bit_or_step refl

pub bit_xor_split :
    (k a b r s : ℕ)
    → r < 2 ^ k
    → s < 2 ^ k
    → bit_xor (a * 2 ^ k + r) (b * 2 ^ k + s) ≡ bit_xor a b * 2 ^ k + bit_xor r s
bit_xor_split = split bit_xor differ bit_xor_step refl

differ-zero : (x : ℕ) → differ x 0 ≡ x
differ-zero zero = refl
differ-zero (suc x) = refl

-- Laws with 0, by going from `a / 2` to `a`.
below_zero_laws : (n a : ℕ) → a ≤ n → (bit_and a 0 ≡ 0) × (bit_or a 0 ≡ a) × (bit_xor a 0 ≡ a)
below_zero_laws n zero h = (refl, refl, refl)
below_zero_laws zero (suc a) h = absurd (omega arith)
below_zero_laws (suc n) (suc a) h = ground (
  arith,
  bit_and_step (suc a) 0,
  bit_or_step (suc a) 0,
  bit_xor_step (suc a) 0,
  differ-zero (suc a % 2),
  below_zero_laws n (suc a / 2) (omega arith),
)

pub bit_and-zero : (a : ℕ) → bit_and a 0 ≡ 0
bit_and-zero a = (below_zero_laws a a (omega arith)).0

pub bit_or-zero : (a : ℕ) → bit_or a 0 ≡ a
bit_or-zero a = (below_zero_laws a a (omega arith)).1

pub bit_xor-zero : (a : ℕ) → bit_xor a 0 ≡ a
bit_xor-zero a = (below_zero_laws a a (omega arith)).2

-- A mask of ones up to the width of a word keeps it.
pub bit_and_ones : (k a : ℕ) → a < 2 ^ k → bit_and a (2 ^ k - 1) ≡ a
bit_and_ones zero zero h = refl
bit_and_ones zero (suc a) h = absurd (omega arith)
bit_and_ones (suc k) a h = ground (
  arith,
  bit_and_step a (2 ^ suc k - 1),
  pow-suc 2 k,
  one-le-pow k 2,
  bit_and_ones k (a / 2) (omega (arith, pow-suc 2 k)),
)
