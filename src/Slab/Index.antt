-- ===== src/Slab/Index.antt =====
-- monoio/src/utils/slab.rs, `get_page_id`: which page a key lies in.
use monoio.Prelude.{ℕ, zero, suc, ◌+◌, ◌-◌, ◌*◌, ◌/◌, ◌^◌, ◌≤◌, ◌<◌, min, ◌≡◌, arith}
use monoio.Prelude.Bits.Length.{bit_length, leading_zeros, bit_length-le, bit_length-lt}
use native.Mathlib.Nat.{pow-suc, pow-le-pow_right}
use native.Mathlib.Decide.{dec_lt}

abbrev pub num_pages : ℕ
num_pages = 26

abbrev pub page_initial_size : ℕ
page_initial_size = 64

-- `usize::saturating_add`
abbrev pub saturating_add : ℕ → ℕ → ℕ
saturating_add a b = min (a + b) (2 ^ 64 - 1)

-- The shift by `PAGE_INITIAL_SIZE.trailing_zeros() + 1`, which is 7.
unfoldable pub get_page_id : ℕ → ℕ
get_page_id key =
    let slot_shifted = saturating_add key page_initial_size / 2 ^ 7 in
    min (64 - leading_zeros slot_shifted) (num_pages - 1)

-- How many slots page `i` has, and how many the pages before it.
abbrev pub size_of : ℕ → ℕ
size_of i = page_initial_size * 2 ^ i

abbrev pub base_of : ℕ → ℕ
base_of i = size_of i - page_initial_size

-- The shifted key of a slot of page `i` has `i` bits.
bit_length-base :
    (i index : ℕ)
    → i < num_pages
    → index < size_of i
    → bit_length 64 (saturating_add (base_of i + index) page_initial_size / 2 ^ 7) ≡ i
bit_length-base zero index hi h =
    omega (arith, bit_length-le 64 0 (min (0 + index + 64) (2 ^ 64 - 1) / 128) (omega arith))
bit_length-base (suc j) index hi h =
    omega (arith, bit_length-le 64 (suc j) x below, bit_length-lt 64 j x above (omega arith))
  where
    x : ℕ
    x = saturating_add (base_of (suc j) + index) page_initial_size / 2 ^ 7

    small : 2 ^ j ≤ 2 ^ 25
    small = pow-le-pow_right (omega arith) {i = j} {j = 25} (omega arith)

    below : x < 2 ^ suc j
    below = omega (arith, pow-suc 2 j, small)

    above : 2 ^ j ≤ x
    above = omega (arith, pow-suc 2 j, small)

-- `get_page_id` finds the page of every slot of every page.
pub get_page_id-base :
    (i index : ℕ) → i < num_pages → index < size_of i → get_page_id (base_of i + index) ≡ i
unfolding get_page_id leading_zeros
get_page_id-base i index hi h = omega (arith, bit_length-base i index hi h)

base-le :
    (i key : ℕ) → i ≤ bit_length 64 (saturating_add key page_initial_size / 2 ^ 7) → base_of i ≤ key
base-le zero key h = omega arith
base-le (suc j) key h = elim (dec_lt x (2 ^ j)) [
  | yes small ↦ absurd (omega (arith, bit_length-le 64 j x small))
  | no large ↦ omega (arith, pow-suc 2 j)
]
  where
    x : ℕ
    x = saturating_add key page_initial_size / 2 ^ 7

-- A page that `get_page_id` answers starts at the key or before it.
pub base_of-get_page_id : (key : ℕ) → base_of (get_page_id key) ≤ key
unfolding get_page_id leading_zeros
base_of-get_page_id key = base-le (get_page_id key) key (omega arith)

pub get_page_id-lt : (key : ℕ) → get_page_id key < num_pages
unfolding get_page_id
get_page_id-lt key = omega arith
