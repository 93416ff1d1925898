-- ===== src/Io/BufWriter/Contents.antt =====
-- What a buffered writer holds, and emptying its buffer.
use monoio.Prelude.{
  ℕ, ◌+◌, ◌≤◌, ◌<◌, ◌≡◌, refl, sym, ap, ◌∙◌, ◌⊎◌, inl, inr, true, Bool-cases, Option, none, some,
  List, [], ◌++◌, append-nil, length, length-take, take, take_zero, ◌==◌, ==_iff, leb, ok, panic,
  undefined, arith,
}
use monoio.Io.{success, failure, Reply, AsyncWriteRent}
use monoio.Io.Stream.{WriteSpec, WritePatience}
use monoio.Io.WriteAll.{AllSent, write_all_lem}
use monoio.Io.BufWriter.{BufWriter, Run, put_back, flush_some, flush_buf}

-- The bytes in the buffer
abbrev pub held : Option (List ℕ) → ℕ → List ℕ
held none cap = []
held (some buf) cap = take cap buf

abbrev pub capacity : Option (List ℕ) → ℕ
capacity none = 0
capacity (some buf) = length buf

abbrev pub WellFormed : Option (List ℕ) → ℕ → Type 0
WellFormed none cap = ⊥
WellFormed (some buf) cap = cap ≤ length buf

pub held_zero : (obuf : Option (List ℕ)) (cap : ℕ) → cap ≡ 0 → held obuf cap ≡ []
held_zero none cap e = refl
held_zero (some buf) cap e = rw e (take_zero buf)

module _ {W : Type 0} {w : AsyncWriteRent W} (spec : WriteSpec w) where
  abbrev pub Valid : BufWriter W → Type 0
  Valid b = WellFormed b.buf b.cap × spec.Valid b.inner

  -- A flush that failed in the middle: some of the bytes in the buffer are sent, and all are still there.
  abbrev pub Kept : List ℕ → List ℕ → BufWriter W → Type 0
  Kept before bytes b =
      (k : ℕ) × (k < length bytes)
      × (spec.sent b.inner ≡ before ++ take k bytes)
      × (held b.buf b.cap ≡ bytes)

  abbrev pub Emptied : List ℕ → List ℕ → BufWriter W → Type 0
  Emptied before bytes b = (spec.sent b.inner ≡ before ++ bytes) × (b.cap ≡ 0)

  -- The end of `flush`, where the writer inside had sent `before` and the buffer held `bytes`
  abbrev pub Flushed : List ℕ → List ℕ → Run W (Unit {0}) → Type 0
  Flushed before bytes none = ⊥
  Flushed before bytes (some panic) = ⊥
  Flushed before bytes (some undefined) = ⊥
  Flushed before bytes (some (ok (success t, b))) = Emptied before bytes b × Valid b
  Flushed before bytes (some (ok (failure e, b))) =
      (Emptied before bytes b ⊎ Kept before bytes b) × Valid b

  -- The end of `write` for the bytes `bs`, with a buffer of so many bytes
  abbrev pub Written : List ℕ → List ℕ → ℕ → List ℕ → Run W ℕ → Type 0
  Written before bytes room bs none = ⊥
  Written before bytes room bs (some panic) = ⊥
  Written before bytes room bs (some undefined) = ⊥
  Written before bytes room bs (some (ok (success n, b))) =
      (n ≤ length bs)
      × (length bs ≤ room → n ≡ length bs)
      × (spec.sent b.inner ++ held b.buf b.cap ≡ (before ++ bytes) ++ take n bs)
      × Valid b
  Written before bytes room bs (some (ok (failure e, b))) =
      (Emptied before bytes b ⊎ Kept before bytes b) × Valid b

  -- After `flush_buf`: like `Flushed`, with a buffer of the same size
  abbrev pub FlushedBuf : ℕ → List ℕ → List ℕ → Run W (Unit {0}) → Type 0
  FlushedBuf room before bytes none = ⊥
  FlushedBuf room before bytes (some panic) = ⊥
  FlushedBuf room before bytes (some undefined) = ⊥
  FlushedBuf room before bytes (some (ok (success t, b))) =
      Emptied before bytes b × (capacity b.buf ≡ room) × Valid b
  FlushedBuf room before bytes (some (ok (failure e, b))) = Kept before bytes b × Valid b

  put_back-FlushedBuf :
      (before buf : List ℕ) (b : BufWriter W) (x : Option (Reply W ℕ))
      → b.cap ≤ length buf
      → AllSent spec before (take b.cap buf) x
      → FlushedBuf (length buf) before (take b.cap buf) (put_back b buf x)
  put_back-FlushedBuf before buf b none c bad = bad
  put_back-FlushedBuf before buf b (some panic) c bad = bad
  put_back-FlushedBuf before buf b (some undefined) c bad = bad
  put_back-FlushedBuf before buf b (some (ok (success n, s))) c (full, order, valid) =
      ((order, refl), refl, (omega arith, valid))
  put_back-FlushedBuf before buf b (some (ok (failure e, s))) c (n, lt, order, valid, fatal) =
      ((n, lt, order, refl), (c, valid))

  module _ (p : WritePatience w) (fuel : ℕ) where
    flush_some-FlushedBuf :
        (b : BufWriter W) (obuf : Option (List ℕ))
        → b.buf ≡ obuf
        → WellFormed obuf b.cap
        → spec.Valid b.inner
        → b.cap + p.patience b.inner ≤ fuel
        → FlushedBuf
            (capacity obuf)
            (spec.sent b.inner)
            (held obuf b.cap)
            (flush_some w fuel b obuf)
    unfolding flush_some
    flush_some-FlushedBuf b none same bad valid enough = bad
    flush_some-FlushedBuf b (some buf) same c valid enough =
        let inside : leb b.cap (length buf) ≡ true = ground arith in
        rw inside (
          put_back-FlushedBuf (spec.sent b.inner) buf b _ c (
            write_all_lem spec p fuel b.inner (take b.cap buf) valid
              (omega (arith, length-take b.cap buf))))

    pub flush_buf-FlushedBuf :
        (b : BufWriter W)
        → Valid b
        → b.cap + p.patience b.inner ≤ fuel
        → FlushedBuf (capacity b.buf) (spec.sent b.inner) (held b.buf b.cap) (flush_buf w fuel b)
    unfolding flush_buf
    flush_buf-FlushedBuf b (c, valid) enough = elim (Bool-cases (b.cap == 0)) [
      | inl empty ↦
          let none_held : b.cap ≡ 0 = (==_iff b.cap 0).0 empty in
          rw empty (
            (
              sym (append-nil _)
                  ∙ ap (λ z. spec.sent b.inner ++ z) (sym (held_zero b.buf b.cap none_held)),
              none_held,
            ),
            refl,
            (c, valid),
          )
      | inr some_bytes ↦ rw some_bytes (flush_some-FlushedBuf b b.buf refl c valid enough)
    ]
