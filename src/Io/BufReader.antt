-- ===== src/Io/BufReader.antt =====
-- monoio/src/io/util/buf_reader.rs: a reader with a buffer. The buffer is missing while a call that
-- fills it is awaited, and stays so when that call is dropped. `debug` says which build it is.
pub mod Laws
pub mod Filling
pub mod BufRead
use monoio.Prelude.{
  ℕ, ◌+◌, ◌*◌, min, Bool, true, false, ◌&&◌, Option, none, some, List, length, take, drop,
  replicate, ◌++◌, ◌==◌, leb, if◌then◌else◌, Outcome, ok, panic, undefined, assert, add_usize,
  ◌>>=◌, ◌>>◌,
}
use monoio.Io.{
  IoResult, success, failure, Reply, slice, AsyncReadRent, AsyncBufRead, AsyncWriteRent,
}

-- `Option::expect` and `Option::unwrap`
abbrev pub expect {ℓ} : {A : Type ℓ} → Option A → Outcome A
expect none = panic
expect (some a) = ok a

abbrev pub default_buf_size : ℕ
default_buf_size = 8 * 1024

pub record BufReader (R : Type 0) : Type 0 where
  pub inner : R
  pub buf : Option (List ℕ)
  pub pos : ℕ
  pub cap : ℕ

module _ {R : Type 0} where
  abbrev pub with_capacity : ℕ → R → BufReader R
  with_capacity capacity inner = record {
    inner = inner;
    buf = some (replicate capacity 0);
    pos = 0;
    cap = 0;
  }

  abbrev pub new : R → BufReader R
  new inner = with_capacity default_buf_size inner

  -- What `into_inner` gives up
  abbrev pub buffer : BufReader R → Outcome (List ℕ)
  buffer b = expect b.buf >>= λ buf. slice buf b.pos b.cap

  abbrev discard_buffer : BufReader R → BufReader R
  discard_buffer b = record b { pos = 0; cap = 0 }

  unfoldable pub consume : Bool → BufReader R → ℕ → Outcome (BufReader R)
  consume debug b amt = add_usize debug b.pos amt >>= λ to. ok (record b { pos = min b.cap to })

  -- `fill_buf` after the inner reader answers, where `buf` is the buffer that it was given.
  filled : BufReader R → List ℕ → IoResult (List ℕ) × R → Reply (BufReader R) (List ℕ)
  filled b buf (success bs, inner) =
      let buf2 = bs ++ drop (length bs) buf in
      slice buf2 0 (length bs) >>= λ available.
      ok (success available, record { inner = inner; buf = some buf2; pos = 0; cap = length bs })
  filled b buf (failure e, inner) = ok (failure e, record b { inner = inner; buf = some buf })

  -- What `read` copies into a buffer of n bytes.
  copy_out : Bool → ℕ → IoResult (List ℕ) × BufReader R → Reply (BufReader R) (List ℕ)
  copy_out debug n (success rem, b) =
      let amt = min (length rem) n in consume debug b amt >>= λ b2. ok (success (take amt rem), b2)
  copy_out debug n (failure e, b) = ok (failure e, b)

  -- `read` past the buffer
  abbrev pub bypassed : BufReader R → IoResult (List ℕ) × R → Reply (BufReader R) (List ℕ)
  bypassed b (answer, inner) = ok (answer, record (discard_buffer b) { inner = inner })

module _ {R : Type 0} (r : AsyncReadRent R) where
  unfoldable pub fill_buf : BufReader R → Reply (BufReader R) (List ℕ)
  unfolding filled
  fill_buf b = expect b.buf >>= λ buf.
      if b.pos == b.cap
      then r.read b.inner (length buf) >>= filled b buf
      else slice buf b.pos b.cap >>= λ available. ok (success available, b)

  unfoldable pub read : Bool → BufReader R → ℕ → Reply (BufReader R) (List ℕ)
  unfolding copy_out
  read debug b n = expect b.buf >>= λ owned_buf.
      if b.pos == b.cap && leb (length owned_buf) n
      then r.read b.inner n >>= bypassed b
      else fill_buf b >>= copy_out debug n

  abbrev pub reader : Bool → AsyncReadRent (BufReader R)
  reader debug = record { read = read debug }

  abbrev pub buf_reader : Bool → AsyncBufRead (BufReader R)
  buf_reader debug = record { fill_buf = fill_buf; consume = consume debug }

-- A writer behind the buffer is called as it is.
abbrev pub through : {W A : Type 0} → BufReader W → Reply W A → Reply (BufReader W) A
through b answer = answer >>= λ a. ok (a.0, record b { inner = a.1 })

abbrev pub writer : {W : Type 0} → AsyncWriteRent W → AsyncWriteRent (BufReader W)
writer w = record {
  write = λ b bs. through b (w.write b.inner bs);
  flush = λ b. through b (w.flush b.inner);
  shutdown = λ b. through b (w.shutdown b.inner);
}
