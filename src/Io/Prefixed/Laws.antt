-- ===== src/Io/Prefixed/Laws.antt =====
-- The reads of a reader with a prefix.
use monoio.Prelude.{
  ℕ, ◌<◌, ◌≡◌, refl, ap, ◌∙◌, true, false, Bool-cases, inl, inr, List, [], ◌∷◌, ◌++◌, append_assoc,
  ◌==◌, if◌then◌else◌, ok, panic, undefined, ◌>>=◌, arith,
}
use monoio.Io.{success, failure, Reply, AsyncReadRent}
use monoio.Io.Stream.{Answer, ReadSpec}
use monoio.Io.Prefixed.{PrefixedReadIo, read, read_io, prefix_read, reader}

module _ {I P : Type 0} {i : AsyncReadRent I} {p : AsyncReadRent P} (ispec : ReadSpec i)
    (pspec : ReadSpec p) where
  abbrev pub Valid : PrefixedReadIo I P → Type 0
  Valid s = pspec.Valid s.prefix × ispec.Valid s.io

  abbrev pub rest : PrefixedReadIo I P → List ℕ
  rest s = if s.prefix_finished then ispec.rest s.io else pspec.rest s.prefix ++ ispec.rest s.io

  read_io-Answer :
      (n : ℕ) (io : I) (prefix : P) (x : Reply I (List ℕ))
      → pspec.Valid prefix
      → Answer ispec.Valid ispec.rest (ispec.rest io) n x
      → Answer Valid rest
          (ispec.rest io)
          n
          (x >>= λ a. ok (a.0, record { io = a.1; prefix = prefix; prefix_finished = true }))
  read_io-Answer n io prefix (ok (success bs, s)) v (fits, order, valid, at_end) =
      (fits, order, (v, valid), at_end)
  read_io-Answer n io prefix (ok (failure k, s)) v (order, valid) = (order, (v, valid))
  read_io-Answer n io prefix panic v bad = bad
  read_io-Answer n io prefix undefined v bad = bad

  prefix_read-Answer :
      (n : ℕ) (s : PrefixedReadIo I P) (x : Reply P (List ℕ))
      → s.prefix_finished ≡ false
      → 0 < n
      → ispec.Valid s.io
      → Answer pspec.Valid pspec.rest (pspec.rest s.prefix) n x
      → Answer Valid rest (pspec.rest s.prefix ++ ispec.rest s.io) n (x >>= prefix_read i p s n)
  unfolding prefix_read read_io
  prefix_read-Answer n s (ok (success [], q)) on room v (fits, order, valid, at_end) =
      rw (at_end room refl) (read_io-Answer n s.io q (i.read s.io n) valid (ispec.honest s.io v n))
  prefix_read-Answer n s (ok (success (b ∷ bs), q)) on room v (fits, order, valid, at_end) = (
    fits,
    rw on (
        ap (λ z. z ++ ispec.rest s.io) order
        ∙ append_assoc (b ∷ bs) (pspec.rest q) (ispec.rest s.io)),
    (valid, v),
    λ r empty. absurd (cc),
  )
  prefix_read-Answer n s (ok (failure k, q)) on room v (order, valid) =
      (rw on (ap (λ z. z ++ ispec.rest s.io) order), (valid, v))
  prefix_read-Answer n s panic on room v bad = bad
  prefix_read-Answer n s undefined on room v bad = bad

  -- A reader with a prefix keeps the promises of a reader, where the bytes that it has to give are
  -- those of the prefix, until that is read to its end, and then those of the reader behind it, if
  -- both keep them.
  pub read-Answer_prefixed :
      (s : PrefixedReadIo I P) (n : ℕ) → Valid s → Answer Valid rest (rest s) n (read i p s n)
  unfolding read
  read-Answer_prefixed s n v = elim (Bool-cases (n == 0)) [
    | inl none_asked ↦ rw none_asked (omega arith, refl, v, λ room e. absurd (ground (arith)))
    | inr asked ↦
        let room : 0 < n = ground arith in
        elim (Bool-cases s.prefix_finished) [
          | inl over ↦
              rw (asked, over)
                (read_io-Answer n s.io s.prefix (i.read s.io n) v.0 (ispec.honest s.io v.1 n))
          | inr on ↦
              rw (asked, on)
                (prefix_read-Answer n (record s { prefix_finished = false }) (p.read s.prefix n)
                  refl room v.1 (pspec.honest s.prefix v.0 n))
        ]
  ]

  abbrev pub prefixed_spec : ReadSpec (reader i p)
  prefixed_spec = record {
    Valid = Valid;
    rest = rest;
    honest = λ s v n. read-Answer_prefixed s n v;
  }
