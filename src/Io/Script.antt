-- ===== src/Io/Script.antt =====
-- A reader and a writer that follow a script, for the tests.
use monoio.Prelude.{
  ℕ, suc, ◌<◌, ◌≡◌, refl, sym, ap, min, List, [], ◌∷◌, ◌++◌, length, length-take, length_zero, take,
  drop, take-drop, ok, arith,
}
use monoio.Io.{ErrorKind, success, failure, Reply, AsyncReadRent, AsyncWriteRent}
use monoio.Io.Stream.{Answer, Accepted, Calm, ReadSpec, ReadPatience, WriteSpec, WritePatience}

pub data Event : Type 0 where
  at_most : ℕ → Event
  broken : ErrorKind → Event

-- The events to come, and the bytes to give or those taken. A script that is over stands for calls
-- that succeed in full.
pub record Scripted : Type 0 where
  pub script : List Event
  pub bytes : List ℕ

abbrev give : List Event → List ℕ → ℕ → Reply Scripted (List ℕ)
give [] bytes n = ok (success (take n bytes), record { script = []; bytes = drop n bytes })
give (at_most k ∷ es) bytes n = ok (
  success (take (min (suc k) n) bytes),
  record { script = es; bytes = drop (min (suc k) n) bytes },
)
give (broken e ∷ es) bytes n = ok (failure e, record { script = es; bytes = bytes })

abbrev pub reader : AsyncReadRent Scripted
reader = record { read = λ s n. give s.script s.bytes n }

taken_all : (n : ℕ) (bytes : List ℕ) → 0 < n → take n bytes ≡ [] → bytes ≡ []
taken_all n bytes room none_left =
    length_zero bytes (omega (arith, length-take n bytes, ap length none_left))

pub give-Answer :
    (script : List Event) (bytes : List ℕ) (n : ℕ)
    → Answer (λ s. Unit {0}) (λ s. s.bytes) bytes n (give script bytes n)
give-Answer [] bytes n =
    (omega (arith, length-take n bytes), sym (take-drop n bytes), tt, taken_all n bytes)
give-Answer (at_most k ∷ es) bytes n = (
  omega (arith, length-take (min (suc k) n) bytes),
  sym (take-drop (min (suc k) n) bytes),
  tt,
  λ room. taken_all (min (suc k) n) bytes (omega arith),
)
give-Answer (broken e ∷ es) bytes n = (refl, tt)

pub give-Calm :
    (script : List Event) (bytes : List ℕ) (n : ℕ)
    → Calm (λ s. length s.script) (length script) (give script bytes n)
give-Calm [] bytes n = omega arith
give-Calm (at_most k ∷ es) bytes n = omega arith
give-Calm (broken e ∷ es) bytes n = (omega arith, λ again. omega arith)

abbrev pub reader_spec : ReadSpec reader
reader_spec = record {
  Valid = λ s. Unit {0};
  rest = λ s. s.bytes;
  honest = λ s v n. give-Answer s.script s.bytes n;
}

abbrev pub reader_patience : ReadPatience reader
reader_patience = record {
  patience = λ s. length s.script;
  calm = λ s n. give-Calm s.script s.bytes n;
}

abbrev accept : List Event → List ℕ → List ℕ → Reply Scripted ℕ
accept [] bytes bs =
    ok (success (length bs), record { script = []; bytes = bytes ++ take (length bs) bs })
accept (at_most k ∷ es) bytes bs = ok (
  success (min k (length bs)),
  record { script = es; bytes = bytes ++ take (min k (length bs)) bs },
)
accept (broken e ∷ es) bytes bs = ok (failure e, record { script = es; bytes = bytes })

abbrev pub writer : AsyncWriteRent Scripted
writer = record {
  write = λ s bs. accept s.script s.bytes bs;
  flush = λ s. ok (success tt, s);
  shutdown = λ s. ok (success tt, s);
}

pub accept-Accepted :
    (script : List Event) (bytes bs : List ℕ)
    → Accepted (λ s. Unit {0}) (λ s. s.bytes) bytes bs (accept script bytes bs)
accept-Accepted [] bytes bs = (omega arith, refl, tt)
accept-Accepted (at_most k ∷ es) bytes bs = (omega arith, refl, tt)
accept-Accepted (broken e ∷ es) bytes bs = (refl, tt)

pub accept-Calm :
    (script : List Event) (bytes bs : List ℕ)
    → Calm (λ s. length s.script) (length script) (accept script bytes bs)
accept-Calm [] bytes bs = omega arith
accept-Calm (at_most k ∷ es) bytes bs = omega arith
accept-Calm (broken e ∷ es) bytes bs = (omega arith, λ again. omega arith)

abbrev pub writer_spec : WriteSpec writer
writer_spec = record {
  Valid = λ s. Unit {0};
  sent = λ s. s.bytes;
  honest = λ s v bs. accept-Accepted s.script s.bytes bs;
  honest_flush = λ s v. (refl, tt);
  honest_shutdown = λ s v. (refl, tt);
}

abbrev pub writer_patience : WritePatience writer
writer_patience = record {
  patience = λ s. length s.script;
  calm = λ s bs. accept-Calm s.script s.bytes bs;
}
