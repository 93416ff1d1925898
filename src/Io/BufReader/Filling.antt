-- ===== src/Io/BufReader/Filling.antt =====
-- What a buffered reader has to give, and filling its buffer.
use monoio.Prelude.{
  ℕ, ◌+◌, ◌^◌, ◌≤◌, ◌<◌, ◌≡◌, refl, ap, true, Bool-cases, inl, inr, Option, none, some, List, [],
  ◌++◌, length, length-append, length-take, length-drop, take, drop, take-append, drop_all, ◌==◌,
  ==_iff, leb, ok, panic, undefined, ◌>>=◌, arith,
}
use monoio.Io.{slice, success, failure, Reply, AsyncReadRent}
use monoio.Io.Stream.{Answer, ReadSpec}
use monoio.Io.BufReader.{BufReader, fill_buf, filled}

-- The bytes in the buffer that are still to be read
abbrev pub unread : Option (List ℕ) → ℕ → ℕ → List ℕ
unread none pos cap = []
unread (some buf) pos cap = drop pos (take cap buf)

abbrev pub capacity : Option (List ℕ) → ℕ
capacity none = 0
capacity (some buf) = length buf

abbrev pub WellFormed : Option (List ℕ) → ℕ → ℕ → Type 0
WellFormed none pos cap = ⊥
WellFormed (some buf) pos cap = (pos ≤ cap) × (cap ≤ length buf) × (length buf < 2 ^ 63)

pub slice_lem :
    (buf : List ℕ) (pos cap : ℕ)
    → pos ≤ cap
    → cap ≤ length buf
    → slice buf pos cap ≡ ok (drop pos (take cap buf))
slice_lem buf pos cap a b =
    let e : leb pos cap ≡ true = ground arith in
    let f : leb cap (length buf) ≡ true = ground arith in rw (e, f)

pub empty_unread : (buf : List ℕ) (pos cap : ℕ) → cap ≤ pos → drop pos (take cap buf) ≡ []
empty_unread buf pos cap b = drop_all pos (take cap buf) (omega (arith, length-take cap buf))

abbrev pub at : {R : Type 0} → R → List ℕ → ℕ → ℕ → BufReader R
at inner buf pos cap = record { inner = inner; buf = some buf; pos = pos; cap = cap }

module _ {R : Type 0} {r : AsyncReadRent R} (spec : ReadSpec r) where
  abbrev pub Valid : BufReader R → Type 0
  Valid b = WellFormed b.buf b.pos b.cap × spec.Valid b.inner

  abbrev pub rest : BufReader R → List ℕ
  rest b = unread b.buf b.pos b.cap ++ spec.rest b.inner

  -- What `fill_buf` answers: everything in the buffer, which is empty only at the end of the stream.
  abbrev pub Filled : List ℕ → ℕ → Reply (BufReader R) (List ℕ) → Type 0
  Filled all room (ok (success available, b)) =
      (all ≡ rest b)
      × (unread b.buf b.pos b.cap ≡ available)
      × (b.pos + length available ≡ b.cap)
      × Valid b
      × (0 < room → available ≡ [] → all ≡ [])
      × (capacity b.buf ≡ room)
  Filled all room (ok (failure e, b)) = ((all ≡ rest b) × Valid b) × (capacity b.buf ≡ room)
  Filled all room panic = ⊥
  Filled all room undefined = ⊥

  filled-Filled :
      (b : BufReader R) (buf : List ℕ) (x : Reply R (List ℕ))
      → b.pos ≡ b.cap
      → b.cap ≤ length buf
      → length buf < 2 ^ 63
      → Answer spec.Valid spec.rest (spec.rest b.inner) (length buf) x
      → Filled (spec.rest b.inner) (length buf) (x >>= filled b buf)
  unfolding filled
  filled-Filled b buf (ok (success bs, s)) e c l (fits, order, valid, at_end) =
      rw
        (
          slice_lem buf2 0 (length bs) (omega arith) (omega (arith, same_length)),
          take-append bs (drop (length bs) buf),
        )
        (
          order,
          refl,
          omega arith,
          ((omega arith, omega (arith, same_length), omega (arith, same_length)), valid),
          at_end,
          same_length,
        )
    where
      buf2 : List ℕ
      buf2 = bs ++ drop (length bs) buf

      same_length : length buf2 ≡ length buf
      same_length =
          omega (arith, length-append bs (drop (length bs) buf), length-drop (length bs) buf)
  filled-Filled b buf (ok (failure k, s)) e c l (order, valid) =
      ((rw (empty_unread buf b.pos b.cap (omega arith)) order, ((omega arith, c, l), valid)), refl)
  filled-Filled b buf panic e c l bad = bad
  filled-Filled b buf undefined e c l bad = bad

  -- Filling answers what is in the buffer.
  pub fill_buf-Filled :
      (inner : R) (buf : List ℕ) (pos cap : ℕ)
      → WellFormed (some buf) pos cap
      → spec.Valid inner
      → Filled
          (unread (some buf) pos cap ++ spec.rest inner)
          (length buf)
          (fill_buf r (at inner buf pos cap))
  unfolding fill_buf
  fill_buf-Filled inner buf pos cap (w0, w1, w2) valid = elim (Bool-cases (pos == cap)) [
    | inl e ↦
        let eq : pos ≡ cap = (==_iff pos cap).0 e in
        rw e (
          rw (empty_unread buf pos cap (omega arith)) (
            filled-Filled (at inner buf pos cap) buf (r.read inner (length buf)) eq w1 w2
              (spec.honest inner valid (length buf))))
    | inr ne ↦
        let held : pos + length (drop pos (take cap buf)) ≡ cap =
          omega (arith, length-drop pos (take cap buf), length-take cap buf) in
        let more : pos < cap = ground (arith) in
        rw (ne, slice_lem buf pos cap w0 w1)
          (
            refl,
            refl,
            held,
            ((w0, w1, w2), valid),
            λ room none_left. absurd (omega (arith, ap length none_left)),
            refl,
          )
  ]
