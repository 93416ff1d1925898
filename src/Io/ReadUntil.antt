-- ===== src/Io/ReadUntil.antt =====
-- monoio/src/io/async_buf_read_ext.rs: `read_until`, over the trait of monoio/src/io/async_buf_read.rs.
-- `memchr` of the crate of that name is an argument.
pub mod Laws
mod Tests
use monoio.Prelude.{
  ℕ, zero, suc, ◌+◌, Bool, true, false, ◌||◌, Option, none, some, List, ◌++◌, length, ◌==◌,
  if◌then◌else◌, Outcome, ok, panic, undefined, ◌>>=◌,
}
use monoio.Io.{IoResult, success, failure, is_interrupted, Reply, AsyncBufRead, slice}

-- What `read_until` answers, with the reader as it leaves it and the buffer that it appends to
abbrev pub Until : Type 0 → Type 0
Until S = Option (Outcome (IoResult ℕ × S × List ℕ))

-- What one step of the loop found
pub record Chunk : Type 0 where
  pub done : Bool
  pub used : ℕ
  pub found : List ℕ

-- The answer of `memchr`
abbrev pub chunk : Option ℕ → List ℕ → Outcome Chunk
chunk (some i) available =
    slice available 0 (suc i) >>= λ found. ok (record { done = true; used = suc i; found = found })
chunk none available = ok (record { done = false; used = length available; found = available })

module _ {S : Type 0} (r : AsyncBufRead S) (memchr : ℕ → List ℕ → Option ℕ) (delim : ℕ) where
  -- After `consume`
  abbrev pub after_consume : Chunk → List ℕ → ℕ → (S → List ℕ → ℕ → Until S) → Outcome S → Until S
  after_consume c buf read continue (ok s) =
      if c.done || c.used == 0
      then some (ok (success (read + c.used), s, buf ++ c.found))
      else continue s (buf ++ c.found) (read + c.used)
  after_consume c buf read continue panic = some panic
  after_consume c buf read continue undefined = some undefined

  abbrev pub advance : S → List ℕ → ℕ → (S → List ℕ → ℕ → Until S) → Outcome Chunk → Until S
  advance s buf read continue (ok c) = after_consume c buf read continue (r.consume s c.used)
  advance s buf read continue panic = some panic
  advance s buf read continue undefined = some undefined

  -- After `fill_buf`
  after_fill : Reply S (List ℕ) → List ℕ → ℕ → (S → List ℕ → ℕ → Until S) → Until S
  after_fill (ok (success available, s)) buf read continue =
      advance s buf read continue (chunk (memchr delim available) available)
  after_fill (ok (failure e, s)) buf read continue =
      if is_interrupted e then continue s buf read else some (ok (failure e, s, buf))
  after_fill panic buf read continue = some panic
  after_fill undefined buf read continue = some undefined

  until_from : ℕ → S → List ℕ → ℕ → Until S
  unfolding after_fill
  until_from zero s buf read = none
  until_from (suc fuel) s buf read =
      after_fill (r.fill_buf s) buf read (λ s2 buf2 read2. until_from fuel s2 buf2 read2)

  -- The count is of bytes appended to a vector, so that it does not overflow. `none` is a loop that
  -- ran out of fuel.
  unfoldable pub read_until : ℕ → S → List ℕ → Until S
  unfolding until_from
  read_until fuel s buf = until_from fuel s buf 0
