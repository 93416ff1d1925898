-- ===== src/Buf.antt =====
-- monoio/src/buf: owned buffers that the kernel reads and writes, and slices of them. A buffer is a
-- type with the operations of the traits `IoBuf` and `IoBufMut`; where those give a pointer, the
-- model has what is done through it.
pub mod Laws
mod Tests
use monoio.Prelude.{
  ℕ, ◌+◌, ◌-◌, ◌≤◌, ◌≡◌, ◌++◌, min, leb, List, length, take, drop, Outcome, ok, assert, ◌>>◌,
}

-- `bytes` is what may be read through `read_ptr`, which is `bytes_init` long; `put` writes bytes from
-- `write_ptr` and an offset on.
pub record IoBufMut (B : Type 0) : Type 0 where
  pub bytes : B → List ℕ
  pub bytes_total : B → ℕ
  pub put : ℕ → List ℕ → B → B
  pub set_init : ℕ → B → B

-- What the documentation of the traits asks of a buffer.
pub record BufSpec {B : Type 0} (b : IoBufMut B) : Type 1 where
  pub Valid : B → Type 0
  pub init_fits : (x : B) → Valid x → length (b.bytes x) ≤ b.bytes_total x
  pub filled :
      (x : B) (at : ℕ) (bs : List ℕ)
      → Valid x
      → at ≤ length (b.bytes x)
      → at + length bs ≤ b.bytes_total x
      → (b.bytes (b.set_init (at + length bs) (b.put at bs x)) ≡ take at (b.bytes x) ++ bs)
        × Valid (b.set_init (at + length bs) (b.put at bs x))
        × (b.bytes_total (b.set_init (at + length bs) (b.put at bs x)) ≡ b.bytes_total x)

-- `Vec<u8>`: its memory, as long as its capacity, and its length
pub record Vec : Type 0 where
  pub memory : List ℕ
  pub len : ℕ

unfoldable pub vec : IoBufMut Vec
vec = record {
  bytes = λ v. take v.len v.memory;
  bytes_total = λ v. length v.memory;
  put = λ at bs v. record v { memory = take at v.memory ++ bs ++ drop (at + length bs) v.memory };
  set_init = λ n v. record v { len = n };
}

pub record SliceMut (B : Type 0) : Type 0 where
  pub buf : B
  pub begin : ℕ
  pub end : ℕ

module _ {B : Type 0} (b : IoBufMut B) where
  -- `SliceMut::new`
  unfoldable pub new : B → ℕ → ℕ → Outcome (SliceMut B)
  new buf begin end = do
    assert (leb end (b.bytes_total buf))
    assert (leb begin (length (b.bytes buf)))
    assert (leb begin end)
    ok (record { buf = buf; begin = begin; end = end })

  -- `deref`
  abbrev pub deref : SliceMut B → List ℕ
  deref s = drop s.begin (take (min s.end (length (b.bytes s.buf))) (b.bytes s.buf))

  -- A slice is a buffer.
  unfoldable pub slice_mut : IoBufMut (SliceMut B)
  slice_mut = record {
    bytes = deref;
    bytes_total = λ s. s.end - s.begin;
    put = λ at bs s. record s { buf = b.put (s.begin + at) bs s.buf };
    set_init = λ n s. record s { buf = b.set_init (s.begin + n) s.buf };
  }
