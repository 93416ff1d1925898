-- ===== src/Io/Prefixed.antt =====
-- monoio/src/io/util/prefixed_io.rs: a reader with a prefix in front of it. The prefix is a reader of
-- the standard library, whose `read` has the shape of the trait's.
pub mod Laws
pub mod Rewind
use monoio.Prelude.{
  ℕ, Bool, true, false, List, [], ◌∷◌, ◌==◌, if◌then◌else◌, Outcome, ok, panic, undefined, ◌>>=◌,
}
use monoio.Io.{IoResult, success, failure, Reply, AsyncReadRent}

pub record PrefixedReadIo (I P : Type 0) : Type 0 where
  pub io : I
  pub prefix : P
  pub prefix_finished : Bool

module _ {I P : Type 0} where
  abbrev pub new : I → P → PrefixedReadIo I P
  new io prefix = record { io = io; prefix = prefix; prefix_finished = false }

module _ {I P : Type 0} (i : AsyncReadRent I) (p : AsyncReadRent P) where
  read_io : PrefixedReadIo I P → ℕ → Reply (PrefixedReadIo I P) (List ℕ)
  read_io s n = i.read s.io n >>= λ a. ok (a.0, record s { io = a.1 })

  -- After the prefix answers
  prefix_read : PrefixedReadIo I P → ℕ → IoResult (List ℕ) × P → Reply (PrefixedReadIo I P) (List ℕ)
  unfolding read_io
  prefix_read s n (success [], prefix) =
      read_io (record s { prefix = prefix; prefix_finished = true }) n
  prefix_read s n (success (b ∷ bs), prefix) = ok (success (b ∷ bs), record s { prefix = prefix })
  prefix_read s n (failure e, prefix) = ok (failure e, record s { prefix = prefix })

  unfoldable pub read : PrefixedReadIo I P → ℕ → Reply (PrefixedReadIo I P) (List ℕ)
  unfolding prefix_read
  read s n =
      if n == 0
      then ok (success [], s)
      else if s.prefix_finished
      then read_io s n
      else p.read s.prefix n >>= prefix_read s n

  abbrev pub reader : AsyncReadRent (PrefixedReadIo I P)
  reader = record { read = read }
