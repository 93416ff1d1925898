-- ===== src/Io/BufWriter.antt =====
-- monoio/src/io/util/buf_writer.rs: a writer with a buffer. As `write_all` does, an operation takes
-- fuel and answers `none` when that runs out.
pub mod Contents
pub mod Flush
pub mod Write
use monoio.Prelude.{
  ℕ, zero, suc, ◌+◌, ◌*◌, Bool, true, false, Option, none, some, List, ◌++◌, length, take, drop,
  replicate, ◌==◌, ltb, leb, if◌then◌else◌, Outcome, ok, panic, undefined,
}
use monoio.Io.{ErrorKind, IoResult, success, failure, Reply, AsyncWriteRent}
use monoio.Io.WriteAll.{write_all}

abbrev pub default_buf_size : ℕ
default_buf_size = 8 * 1024

pub record BufWriter (W : Type 0) : Type 0 where
  pub inner : W
  pub buf : Option (List ℕ)
  pub cap : ℕ

-- What an operation answers
abbrev pub Run : Type 0 → Type 0 → Type 0
Run W A = Option (Reply (BufWriter W) A)

module _ {W : Type 0} where
  abbrev pub with_capacity : ℕ → W → BufWriter W
  with_capacity capacity inner = record {
    inner = inner;
    buf = some (replicate capacity 0);
    cap = 0;
  }

  abbrev pub new : W → BufWriter W
  new inner = with_capacity default_buf_size inner

  -- `flush_buf` once `write_all` is done: the buffer is put back, and invalidated on success.
  abbrev pub put_back : BufWriter W → List ℕ → Option (Reply W ℕ) → Run W (Unit {0})
  put_back b buf none = none
  put_back b buf (some (ok (success n, inner))) =
      some (ok (success tt, record { inner = inner; buf = some buf; cap = 0 }))
  put_back b buf (some (ok (failure e, inner))) =
      some (ok (failure e, record { inner = inner; buf = some buf; cap = b.cap }))
  put_back b buf (some panic) = some panic
  put_back b buf (some undefined) = some undefined

  -- `?` on the answer of `flush_buf`
  abbrev pub and_then : {A : Type 0} → Run W (Unit {0}) → (BufWriter W → Run W A) → Run W A
  and_then none next = none
  and_then (some (ok (success t, b))) next = next b
  and_then (some (ok (failure e, b))) next = some (ok (failure e, b))
  and_then (some panic) next = some panic
  and_then (some undefined) next = some undefined

  -- The answer of the writer inside
  abbrev pub from_inner : {A : Type 0} → BufWriter W → Reply W A → Run W A
  from_inner b (ok (answer, inner)) = some (ok (answer, record b { inner = inner }))
  from_inner b panic = some panic
  from_inner b undefined = some undefined

  -- Bytes copied into the buffer behind those that it holds. Out of its bounds that is undefined.
  abbrev pub store : BufWriter W → Option (List ℕ) → List ℕ → Run W ℕ
  store b none bs = some panic
  store b (some buf) bs =
      if leb (b.cap + length bs) (length buf)
      then some (
          ok (
            success (length bs),
            record {
              inner = b.inner;
              buf = some (take b.cap buf ++ (bs ++ drop (b.cap + length bs) buf));
              cap = b.cap + length bs;
            },
          ))
      else some undefined

module _ {W : Type 0} (w : AsyncWriteRent W) where
  -- With `Slice::new`, whose assertion holds where `cap` is within the buffer
  flush_some : ℕ → BufWriter W → Option (List ℕ) → Run W (Unit {0})
  flush_some fuel b none = some panic
  flush_some fuel b (some buf) =
      if leb b.cap (length buf)
      then put_back b buf (write_all w fuel b.inner (take b.cap buf))
      else some panic

  pub flush_buf : ℕ → BufWriter W → Run W (Unit {0})
  unfolding flush_some
  flush_buf fuel b = if b.cap == 0 then some (ok (success tt, b)) else flush_some fuel b b.buf

  -- `write` when the buffer is flushed or has room
  write_or_store : ℕ → List ℕ → BufWriter W → Run W ℕ
  write_or_store owned_len bs b =
      if ltb owned_len (length bs) then from_inner b (w.write b.inner bs) else store b b.buf bs

  write_with : ℕ → BufWriter W → Option (List ℕ) → List ℕ → Run W ℕ
  unfolding flush_buf write_or_store
  write_with fuel b none bs = some panic
  write_with fuel b (some owned_buf) bs =
      if ltb (length owned_buf) (b.cap + length bs)
      then and_then (flush_buf fuel b) (write_or_store (length owned_buf) bs)
      else write_or_store (length owned_buf) bs b

  -- Both terms of the sum are lengths of buffers in memory, so that it does not overflow.
  unfoldable pub write : ℕ → BufWriter W → List ℕ → Run W ℕ
  unfolding write_with
  write fuel b bs = write_with fuel b b.buf bs

  unfoldable pub flush : ℕ → BufWriter W → Run W (Unit {0})
  unfolding flush_buf
  flush fuel b = and_then (flush_buf fuel b) (λ b2. from_inner b2 (w.flush b2.inner))

  unfoldable pub shutdown : ℕ → BufWriter W → Run W (Unit {0})
  unfolding flush_buf
  shutdown fuel b = and_then (flush_buf fuel b) (λ b2. from_inner b2 (w.shutdown b2.inner))
