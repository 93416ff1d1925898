-- ===== src/Io/ReadUntil/Tests.antt =====
-- `read_until` over a buffered reader.
use monoio.Prelude.{
  ℕ, suc, ◌≡◌, refl, sym, ap, true, false, Bool-cases, inl, inr, Option, none, some, List, [], ◌∷◌,
  ◌==◌, ==_iff, if◌then◌else◌, ok, arith,
}
use monoio.Io.{interrupted, success}
use monoio.Io.BufReader.{BufReader, buf_reader, with_capacity, fill_buf, consume}
use monoio.Io.BufReader.BufRead.{buf_read_spec, buf_read_patience}
use monoio.Io.ReadUntil.{read_until}
use monoio.Io.ReadUntil.Laws.{Found, Ended, read_until_lem}
use monoio.Io.Script.{at_most, broken, Scripted, reader, reader_spec, reader_patience}

abbrev shift : Option ℕ → Option ℕ
shift none = none
shift (some i) = some (suc i)

abbrev find : ℕ → List ℕ → Option ℕ
find d [] = none
find d (x ∷ xs) = if d == x then some 0 else shift (find d xs)

shift-Found :
    (d x : ℕ) (xs : List ℕ) (o : Option ℕ)
    → (d == x) ≡ false
    → Found d xs o
    → Found d (x ∷ xs) (shift o)
shift-Found d x xs none ne out = rw ne out
shift-Found d x xs (some i) ne (lt, line, out) = (omega arith, ap (λ z. x ∷ z) line, rw ne out)

find-Found : (d : ℕ) (xs : List ℕ) → Found d xs (find d xs)
find-Found d [] = refl
find-Found d (x ∷ xs) = elim (Bool-cases (d == x)) [
  | inl e ↦
      let same : x ≡ d = sym ((==_iff d x).0 e) in rw e (omega arith, ap (λ z. z ∷ []) same, refl)
  | inr ne ↦ rw ne (shift-Found d x xs (find d xs) ne (find-Found d xs))
]

-- Ten is the delimiter; the buffer has room for two bytes.
abbrev lines : BufReader Scripted
lines =
    with_capacity 2
      (record { script = broken interrupted ∷ at_most 0 ∷ []; bytes = 1 ∷ 2 ∷ 10 ∷ 4 ∷ [] })

read_until_lem_example :
    Ended
      (buf_read_spec reader_spec true)
      (buf_read_patience reader_patience true)
      find
      10
      (1 ∷ 2 ∷ 10 ∷ 4 ∷ [])
      (9 ∷ [])
      (read_until (buf_reader reader true) find 10 7 lines (9 ∷ []))
read_until_lem_example =
    read_until_lem (buf_read_spec reader_spec true) (buf_read_patience reader_patience true) find 10
      7 lines (9 ∷ []) (find-Found 10) (((omega arith, omega arith, omega arith), tt), omega arith)
      (omega arith)

read_until_run :
    read_until (buf_reader reader true) find 10 7 lines (9 ∷ [])
    ≡ some (
        ok (
          success 3,
          record {
            inner = record { script = []; bytes = 4 ∷ [] };
            buf = some (2 ∷ 10 ∷ []);
            pos = 2;
            cap = 2;
          },
          9 ∷ 1 ∷ 2 ∷ 10 ∷ [],
        ))
unfolding read_until fill_buf consume
read_until_run = refl
