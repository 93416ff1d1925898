-- ===== src/Task/State/Flags.antt =====
-- A state word read as five flags and a reference count, and what each test and update of
-- `Snapshot` does to them.
use monoio.Prelude.{
  ℕ, ◌+◌, ◌-◌, ◌*◌, ◌/◌, ◌%◌, ◌^◌, ◌<◌, bit_and, bit_or, bit_xor, Bool, true, false, not, ◌&&◌, ◌≡◌,
  ◌∙◌, ap, ◌==◌, arith,
}
use monoio.Prelude.Bits.{
  bit_and_split, bit_or_split, bit_xor_split, bit_and-zero, bit_or-zero, bit_xor-zero, bit_and_ones,
}
use monoio.Task.State.Word
use monoio.Task.State.Word.{Snapshot, bit_not}

pub record Flags : Type 0 where
  pub running : Bool
  pub complete : Bool
  pub notified : Bool
  pub join_interest : Bool
  pub join_waker : Bool
  pub refs : ℕ

abbrev pub bit : Bool → ℕ → ℕ
bit true n = n
bit false n = 0

-- The five low bits.
abbrev pub low : Bool → Bool → Bool → Bool → Bool → ℕ
low r c n i w = bit r 1 + bit c 2 + bit n 4 + bit i 8 + bit w 16

abbrev pub word : ℕ → ℕ → ℕ
word refs l = refs * 2 ^ 5 + l

abbrev pub encode : Flags → Snapshot
encode f = word f.refs (low f.running f.complete f.notified f.join_interest f.join_waker)

-- The reference count fits its 59 bits.
abbrev pub Fits : Flags → Type 0
Fits f = f.refs < 2 ^ 59

low-lt : (r c n i w : Bool) → low r c n i w < 32
low-lt r c n i w = ground arith

-- The operations with a constant of five bits.
module _ (k l m : ℕ) (hl : l < 32) (hm : m < 32) where
  and_flag : bit_and (word k l) m ≡ bit_and l m
  and_flag = ground (arith, bit_and_split 5 k 0 l m hl hm, bit_and-zero k)

  or_flag : bit_or (word k l) m ≡ word k (bit_or l m)
  or_flag = ground (arith, bit_or_split 5 k 0 l m hl hm, bit_or-zero k)

  xor_flag : bit_xor (word k l) m ≡ word k (bit_xor l m)
  xor_flag = ground (arith, bit_xor_split 5 k 0 l m hl hm, bit_xor-zero k)

  and_not_flag : k < 2 ^ 59 → bit_and (word k l) (bit_not m) ≡ word k (bit_and l (31 - m))
  and_not_flag hk =
      ground
        (arith, bit_and_split 5 k (2 ^ 59 - 1) l (31 - m) hl (omega arith), bit_and_ones 59 k hk)

-- What the operations do to the five bits, checked on all of them.
table_running :
    (r c n i w : Bool)
    → (bit_or (low r c n i w) 1 ≡ low true c n i w)
      × (bit_and (low r c n i w) 30 ≡ low false c n i w)
      × ((bit_and (low r c n i w) 1 == 1) ≡ r)
      × ((bit_and (low r c n i w) 3 == 0) ≡ (not r && not c))
table_running r c n i w = ground arith

table_complete :
    (r c n i w : Bool)
    → ((bit_and (low r c n i w) 2 == 2) ≡ c)
      × (bit_xor (low r c n i w) 3 ≡ low (not r) (not c) n i w)
table_complete r c n i w = ground arith

table_notified :
    (r c n i w : Bool)
    → (bit_or (low r c n i w) 4 ≡ low r c true i w)
      × (bit_and (low r c n i w) 27 ≡ low r c false i w)
      × ((bit_and (low r c n i w) 4 == 4) ≡ n)
table_notified r c n i w = ground arith

table_join_interest :
    (r c n i w : Bool)
    → (bit_and (low r c n i w) 23 ≡ low r c n false w) × ((bit_and (low r c n i w) 8 == 8) ≡ i)
table_join_interest r c n i w = ground arith

table_join_waker :
    (r c n i w : Bool)
    → (bit_or (low r c n i w) 16 ≡ low r c n i true)
      × (bit_and (low r c n i w) 15 ≡ low r c n i false)
      × ((bit_and (low r c n i w) 16 == 16) ≡ w)
table_join_waker r c n i w = ground arith

module _ (f : Flags) where
  open f use {running as r, complete as c, notified as n, join_interest as i, join_waker as w, refs}

  -- A test of the word is a test of its low bits.
  test : (m t : ℕ) → m < 32 → (bit_and (encode f) m == t) ≡ (bit_and (low r c n i w) m == t)
  test m t hm = ap (λ x. x == t) (and_flag refs (low r c n i w) m (low-lt r c n i w) hm)

  set_bits : (m l : ℕ) → m < 32 → bit_or (low r c n i w) m ≡ l → bit_or (encode f) m ≡ word refs l
  set_bits m l hm e = or_flag refs (low r c n i w) m (low-lt r c n i w) hm ∙ ap (word refs) e

  clear_bits :
      (m l : ℕ)
      → m < 32
      → Fits f
      → bit_and (low r c n i w) (31 - m) ≡ l
      → bit_and (encode f) (bit_not m) ≡ word refs l
  clear_bits m l hm fits e =
      and_not_flag refs (low r c n i w) m (low-lt r c n i w) hm fits ∙ ap (word refs) e

  pub is_idle-encode : Word.is_idle (encode f) ≡ (not r && not c)
  unfolding Word.is_idle
  is_idle-encode = test 3 0 (omega arith) ∙ (table_running r c n i w).3

  pub is_running-encode : Word.is_running (encode f) ≡ r
  unfolding Word.is_running
  is_running-encode = test 1 1 (omega arith) ∙ (table_running r c n i w).2

  pub is_complete-encode : Word.is_complete (encode f) ≡ c
  unfolding Word.is_complete
  is_complete-encode = test 2 2 (omega arith) ∙ (table_complete r c n i w).0

  pub is_notified-encode : Word.is_notified (encode f) ≡ n
  unfolding Word.is_notified
  is_notified-encode = test 4 4 (omega arith) ∙ (table_notified r c n i w).2

  pub is_join_interested-encode : Word.is_join_interested (encode f) ≡ i
  unfolding Word.is_join_interested
  is_join_interested-encode = test 8 8 (omega arith) ∙ (table_join_interest r c n i w).1

  pub has_join_waker-encode : Word.has_join_waker (encode f) ≡ w
  unfolding Word.has_join_waker
  has_join_waker-encode = test 16 16 (omega arith) ∙ (table_join_waker r c n i w).2

  pub set_running-encode : Word.set_running (encode f) ≡ encode (record f { running = true })
  unfolding Word.set_running
  set_running-encode = set_bits 1 _ (omega arith) (table_running r c n i w).0

  pub unset_running-encode :
      Fits f → Word.unset_running (encode f) ≡ encode (record f { running = false })
  unfolding Word.unset_running
  unset_running-encode fits = clear_bits 1 _ (omega arith) fits (table_running r c n i w).1

  pub set_notified-encode : Word.set_notified (encode f) ≡ encode (record f { notified = true })
  unfolding Word.set_notified
  set_notified-encode = set_bits 4 _ (omega arith) (table_notified r c n i w).0

  pub unset_notified-encode :
      Fits f → Word.unset_notified (encode f) ≡ encode (record f { notified = false })
  unfolding Word.unset_notified
  unset_notified-encode fits = clear_bits 4 _ (omega arith) fits (table_notified r c n i w).1

  pub unset_join_interested-encode :
      Fits f → Word.unset_join_interested (encode f) ≡ encode (record f { join_interest = false })
  unfolding Word.unset_join_interested
  unset_join_interested-encode fits =
      clear_bits 8 _ (omega arith) fits (table_join_interest r c n i w).0

  pub set_join_waker-encode :
      Word.set_join_waker (encode f) ≡ encode (record f { join_waker = true })
  unfolding Word.set_join_waker
  set_join_waker-encode = set_bits 16 _ (omega arith) (table_join_waker r c n i w).0

  pub unset_join_waker-encode :
      Fits f → Word.unset_join_waker (encode f) ≡ encode (record f { join_waker = false })
  unfolding Word.unset_join_waker
  unset_join_waker-encode fits = clear_bits 16 _ (omega arith) fits (table_join_waker r c n i w).1

  pub ref_count-encode : Fits f → Word.ref_count (encode f) ≡ refs
  unfolding Word.ref_count
  ref_count-encode fits =
      omega (arith, clear_bits 31 0 (omega arith) fits (bit_and-zero (low r c n i w)))

  -- `transition_to_complete` flips both bits of the lifecycle.
  pub xor_lifecycle-encode :
      bit_xor (encode f) 3 ≡ encode (record f { running = not r; complete = not c })
  xor_lifecycle-encode =
      xor_flag refs (low r c n i w) 3 (low-lt r c n i w) (omega arith)
      ∙ ap (word refs) (table_complete r c n i w).1

-- Every word is the encoding of some flags that fit.
unfoldable pub decode : Snapshot → Flags
decode s = record {
  running = s % 2 == 1;
  complete = s / 2 % 2 == 1;
  notified = s / 4 % 2 == 1;
  join_interest = s / 8 % 2 == 1;
  join_waker = s / 16 % 2 == 1;
  refs = s / 32;
}

pub encode-decode : (s : Snapshot) → s < 2 ^ 64 → (encode (decode s) ≡ s) × Fits (decode s)
unfolding decode
encode-decode s h = ground arith

pub decode-encode : (f : Flags) → decode (encode f) ≡ f
unfolding decode
decode-encode f = ground arith
