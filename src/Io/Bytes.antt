-- ===== src/Io/Bytes.antt =====
-- monoio/src/io/async_read_rent.rs: a slice of bytes is a reader.
use monoio.Prelude.{
  ℕ, sym, ap, min, List, length, length-take, length_zero, take, drop, take-drop, ok, arith,
}
use monoio.Io.{success, Reply, AsyncReadRent}
use monoio.Io.Stream.{Answer, ReadSpec, ReadPatience, Calm}

pub read : List ℕ → ℕ → Reply (List ℕ) (List ℕ)
read bytes n =
    let to_read = min (length bytes) n in ok (success (take to_read bytes), drop to_read bytes)

abbrev pub bytes_reader : AsyncReadRent (List ℕ)
bytes_reader = record { read = read }

pub read-Answer : (bytes : List ℕ) (n : ℕ) → Answer (λ s. Unit {0}) (λ s. s) bytes n (read bytes n)
unfolding read
read-Answer bytes n = (
  omega (arith, length-take (min (length bytes) n) bytes),
  sym (take-drop (min (length bytes) n) bytes),
  tt,
  λ room none_left.
      length_zero bytes
        (omega (arith, length-take (min (length bytes) n) bytes, ap length none_left)),
)

-- The slice is what it has to give.
abbrev pub bytes_spec : ReadSpec bytes_reader
bytes_spec = record { Valid = λ s. Unit {0}; rest = λ s. s; honest = λ s v n. read-Answer s n }

pub read-Calm : (bytes : List ℕ) (n : ℕ) → Calm (λ s. 0) 0 (read bytes n)
unfolding read
read-Calm bytes n = omega arith

abbrev pub bytes_patience : ReadPatience bytes_reader
bytes_patience = record { patience = λ s. 0; calm = read-Calm }
