-- ===== src/Driver/Ready/Laws.antt =====
-- The tests of readiness, bit by bit.
use monoio.Prelude.{
  ℕ, ◌+◌, ◌*◌, ◌/◌, ◌%◌, min, bit_and, bit_or, ◌≡◌, refl, ap, ◌∙◌, Bool, true, false, not, ◌||◌,
  ◌==◌, arith,
}
use monoio.Prelude.Bits.{bit_and-zero}
use monoio.Prelude.Bits.Step.{bit_and_step, zero-bit_and}
use monoio.Prelude.Bits.Test.{test_bit, test_bit-and, test_bit-or}
use monoio.Driver.Ready.{
  is_readable, is_writable, is_canceled, Direction, read, write, mask, without, empty, canceled,
}

-- Some bit of a direction is set: the event itself, the end of the stream, or a cancellation.
abbrev pub ready_for : Direction → ℕ → Bool
ready_for read r = test_bit 0 r || test_bit 2 r || test_bit 4 r
ready_for write r = test_bit 1 r || test_bit 3 r || test_bit 5 r

-- A mask of six bits, peeled bit by bit.
peel : (r m : ℕ) → bit_and r m ≡ 2 * bit_and (r / 2) (m / 2) + min (r % 2) (m % 2)
peel r m = bit_and_step r m

pub is_readable_lem : (r : ℕ) → is_readable r ≡ ready_for read r
unfolding is_readable
is_readable_lem r = ground (
  arith,
  peel r 21,
  peel (r / 2) 10,
  peel (r / 2 / 2) 5,
  peel (r / 2 / 2 / 2) 2,
  peel (r / 2 / 2 / 2 / 2) 1,
  bit_and-zero (r / 2 / 2 / 2 / 2 / 2),
)

pub is_writable_lem : (r : ℕ) → is_writable r ≡ ready_for write r
unfolding is_writable
is_writable_lem r = ground (
  arith,
  peel r 42,
  peel (r / 2) 21,
  peel (r / 2 / 2) 10,
  peel (r / 2 / 2 / 2) 5,
  peel (r / 2 / 2 / 2 / 2) 2,
  peel (r / 2 / 2 / 2 / 2 / 2) 1,
  bit_and-zero (r / 2 / 2 / 2 / 2 / 2 / 2),
)

of_read_mask : (r : ℕ) → not (bit_and 21 r == 0) ≡ ready_for read r
of_read_mask r = ground (
  arith,
  peel 21 r,
  peel 10 (r / 2),
  peel 5 (r / 2 / 2),
  peel 2 (r / 2 / 2 / 2),
  peel 1 (r / 2 / 2 / 2 / 2),
  zero-bit_and (r / 2 / 2 / 2 / 2 / 2),
)

of_write_mask : (r : ℕ) → not (bit_and 42 r == 0) ≡ ready_for write r
of_write_mask r = ground (
  arith,
  peel 42 r,
  peel 21 (r / 2),
  peel 10 (r / 2 / 2),
  peel 5 (r / 2 / 2 / 2),
  peel 2 (r / 2 / 2 / 2 / 2),
  peel 1 (r / 2 / 2 / 2 / 2 / 2),
  zero-bit_and (r / 2 / 2 / 2 / 2 / 2 / 2),
)

-- What a poll of a direction looks at.
pub mask_lem : (d : Direction) (r : ℕ) → not (bit_and (mask d) r == empty) ≡ ready_for d r
unfolding mask
mask_lem read r = of_read_mask r
mask_lem write r = of_write_mask r

pub ready_for-or :
    (d : Direction) (a b : ℕ) → ready_for d (bit_or a b) ≡ (ready_for d a || ready_for d b)
ready_for-or read a b = ground (arith, test_bit-or 0 a b, test_bit-or 2 a b, test_bit-or 4 a b)
ready_for-or write a b = ground (arith, test_bit-or 1 a b, test_bit-or 3 a b, test_bit-or 5 a b)

-- Clearing a direction leaves none of it, and all of the other.
pub ready_for-without : (d : Direction) (r : ℕ) → ready_for d (without r (mask d)) ≡ false
unfolding mask
ready_for-without read r =
    rw (test_bit-and 0 r 234, test_bit-and 2 r 234, test_bit-and 4 r 234) (ground arith)
ready_for-without write r =
    rw (test_bit-and 1 r 213, test_bit-and 3 r 213, test_bit-and 5 r 213) (ground arith)

of_canceled : (r : ℕ) → not (bit_and r 48 == 0) ≡ (test_bit 4 r || test_bit 5 r)
of_canceled r = ground (
  arith,
  peel r 48,
  peel (r / 2) 24,
  peel (r / 2 / 2) 12,
  peel (r / 2 / 2 / 2) 6,
  peel (r / 2 / 2 / 2 / 2) 3,
  peel (r / 2 / 2 / 2 / 2 / 2) 1,
  bit_and-zero (r / 2 / 2 / 2 / 2 / 2 / 2),
)

-- A direction was cancelled.
abbrev pub cancelled : Direction → ℕ → Bool
cancelled read r = test_bit 4 r
cancelled write r = test_bit 5 r

-- A poll of one direction does not see the cancellation of the other.
pub is_canceled_lem : (d : Direction) (r : ℕ) → is_canceled (bit_and (mask d) r) ≡ cancelled d r
unfolding is_canceled mask
is_canceled_lem read r =
    of_canceled (bit_and 21 r) ∙ rw (test_bit-and 4 21 r, test_bit-and 5 21 r) (ground arith)
is_canceled_lem write r =
    of_canceled (bit_and 42 r) ∙ rw (test_bit-and 4 42 r, test_bit-and 5 42 r) (ground arith)

-- Readiness with the bits of a direction cleared, and with its cancellation cleared.
abbrev pub forget : Direction → ℕ → ℕ
forget read r = bit_and r 0b11101010
forget write r = bit_and r 0b11010101

abbrev pub uncancel : Direction → ℕ → ℕ
uncancel read r = bit_and r 0b11101111
uncancel write r = bit_and r 0b11011111

pub without-mask : (d : Direction) (r : ℕ) → without r (mask d) ≡ forget d r
unfolding mask
without-mask read r = refl
without-mask write r = refl

bit_four : (q : ℕ) → test_bit 4 q ≡ true → test_bit 5 q ≡ false → bit_and q 48 ≡ 16
bit_four q four five = ground (
  arith,
  peel q 48,
  peel (q / 2) 24,
  peel (q / 2 / 2) 12,
  peel (q / 2 / 2 / 2) 6,
  peel (q / 2 / 2 / 2 / 2) 3,
  peel (q / 2 / 2 / 2 / 2 / 2) 1,
  bit_and-zero (q / 2 / 2 / 2 / 2 / 2 / 2),
)

bit_five : (q : ℕ) → test_bit 4 q ≡ false → test_bit 5 q ≡ true → bit_and q 48 ≡ 32
bit_five q four five = ground (
  arith,
  peel q 48,
  peel (q / 2) 24,
  peel (q / 2 / 2) 12,
  peel (q / 2 / 2 / 2) 6,
  peel (q / 2 / 2 / 2 / 2) 3,
  peel (q / 2 / 2 / 2 / 2 / 2) 1,
  bit_and-zero (q / 2 / 2 / 2 / 2 / 2 / 2),
)

-- What a cancelled poll clears is the cancellation of its own direction.
pub without-canceled :
    (d : Direction) (r : ℕ)
    → cancelled d r ≡ true
    → without r (bit_and (bit_and (mask d) r) canceled) ≡ uncancel d r
unfolding mask
without-canceled read r e = ap (without r) (
    bit_four (bit_and 21 r) (rw (test_bit-and 4 21 r) (ground arith))
      (rw (test_bit-and 5 21 r) (ground arith)))
without-canceled write r e = ap (without r) (
    bit_five (bit_and 42 r) (rw (test_bit-and 4 42 r) (ground arith))
      (rw (test_bit-and 5 42 r) (ground arith)))
