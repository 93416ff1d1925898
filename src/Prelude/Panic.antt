-- ===== src/Prelude/Panic.antt =====
-- Code that may panic, as a result. `assert!` panics in every build, `debug_assert!` in a build
-- with debug assertions only: the first argument of `debug_assert` says which build it is.
-- `undefined` is undefined behaviour: what the code's `unsafe` blocks promise never happens.
use Prim.Native.Nat.{ℕ, ◌+◌, ◌-◌, ◌^◌}
use mathlib.Core.Path.{◌≡◌, refl}
use mathlib.Core.Bool.{Bool, true, false, not, ◌&&◌}
use mathlib.Core.Option.{Option, none, some}
use monoio.Prelude.Tests.{ltb, leb, if◌then◌else◌}

pub data Outcome {ℓ} (A : Type ℓ) : Type ℓ where
  ok : A → Outcome A
  panic : Outcome A
  undefined : Outcome A

infixl 5 ◌>>=◌ ◌>>◌
abbrev pub ◌>>=◌ {ℓ κ} : {A : Type ℓ} {B : Type κ} → Outcome A → (A → Outcome B) → Outcome B
ok a >>= f = f a
panic >>= f = panic
undefined >>= f = undefined

abbrev pub ◌>>◌ {ℓ} : {B : Type ℓ} → Outcome (Unit {0}) → Outcome B → Outcome B
m >> k = m >>= λ _. k

abbrev pub assert : Bool → Outcome (Unit {0})
assert true = ok tt
assert false = panic

abbrev pub debug_assert : Bool → Bool → Outcome (Unit {0})
debug_assert debug c = assert (not (debug && not c))

abbrev pub overflow : Bool → ℕ → Outcome ℕ
overflow true wrapped = panic
overflow false wrapped = ok wrapped

-- `usize` arithmetic, with the overflow checks that debug builds have and release builds lack.
abbrev pub add_usize : Bool → ℕ → ℕ → Outcome ℕ
add_usize debug a b = if ltb (a + b) (2 ^ 64) then ok (a + b) else overflow debug (a + b - 2 ^ 64)

abbrev pub sub_usize : Bool → ℕ → ℕ → Outcome ℕ
sub_usize debug a b = if leb b a then ok (a - b) else overflow debug (a + 2 ^ 64 - b)

-- `unwrap_unchecked`
abbrev pub unwrap {ℓ} : {A : Type ℓ} → Option A → Outcome A
unwrap none = undefined
unwrap (some a) = ok a

-- What a chain that succeeds went through.
pub bind-ok {ℓ κ} :
    {A : Type ℓ} {B : Type κ} (m : Outcome A) (f : A → Outcome B) (b : B)
    → (m >>= f) ≡ ok b
    → (a : A) × (m ≡ ok a) × (f a ≡ ok b)
bind-ok (ok a) f b e = (a, refl, e)
bind-ok panic f b e = cc
bind-ok undefined f b e = cc

pub ok_injective {ℓ} : {A : Type ℓ} {a b : A} → ok a ≡ ok b → a ≡ b
ok_injective e = cc
