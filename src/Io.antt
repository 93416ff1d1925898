-- ===== src/Io.antt =====
-- monoio/src/io: the traits of readers and writers, and what the library builds from them. A reader
-- or a writer is a type of states with the operations of its trait, so that whatever it does, in
-- the kernel or elsewhere, is part of its state. A call that fills a buffer of n bytes answers with
-- the bytes that it put there from the buffer's start; `await` is the call itself.
pub mod Stream
pub mod Exact
pub mod BufReader
pub mod Bytes
pub mod Prefixed
pub mod WriteAll
pub mod BufWriter
pub mod Copy
pub mod ReadUntil
mod Script
mod Tests
use monoio.Prelude.{
  length, take, drop, leb, ◌&&◌, ◌>>◌, assert, ok, Outcome, ℕ, Bool, true, false, List,
}

pub data ErrorKind : Type 0 where
  interrupted : ErrorKind
  unexpected_eof : ErrorKind
  write_zero : ErrorKind
  other : ℕ → ErrorKind

pub data IoResult (A : Type 0) : Type 0 where
  success : A → IoResult A
  failure : ErrorKind → IoResult A

abbrev pub is_interrupted : ErrorKind → Bool
is_interrupted interrupted = true
is_interrupted unexpected_eof = false
is_interrupted write_zero = false
is_interrupted (other n) = false

-- An answer, unless the call panics
abbrev pub Reply : Type 0 → Type 0 → Type 0
Reply S A = Outcome (IoResult A × S)

-- `read` for a buffer of so many bytes
pub record AsyncReadRent (S : Type 0) : Type 0 where
  pub read : S → ℕ → Reply S (List ℕ)

pub record AsyncWriteRent (S : Type 0) : Type 0 where
  pub write : S → List ℕ → Reply S ℕ
  pub flush : S → Reply S (Unit {0})
  pub shutdown : S → Reply S (Unit {0})

pub record AsyncBufRead (S : Type 0) : Type 0 where
  pub fill_buf : S → Reply S (List ℕ)
  pub consume : S → ℕ → Outcome S

-- `&buf[from..to]`
abbrev pub slice : List ℕ → ℕ → ℕ → Outcome (List ℕ)
slice buf from to = assert (leb from to && leb to (length buf)) >> ok (drop from (take to buf))
