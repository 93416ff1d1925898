-- ===== src/Io/BufWriter/Flush.antt =====
-- Flushing a buffered writer, and shutting it down.
use monoio.Prelude.{
  ℕ, ◌+◌, ◌≤◌, ◌<◌, ◌≡◌, ap, ap₂, subst, ◌∙◌, ◌⊎◌, inl, inr, none, some, List, ◌++◌, append-nil,
  length, take, ok, panic, undefined,
}
use monoio.Io.{ErrorKind, success, failure, Reply, AsyncWriteRent}
use monoio.Io.Stream.{Unmoved, WriteSpec, WritePatience}
use monoio.Io.BufWriter.{BufWriter, Run, and_then, from_inner, flush_buf, flush, shutdown}
use monoio.Io.BufWriter.Contents.{
  held, capacity, WellFormed, held_zero, Valid, Emptied, Flushed, FlushedBuf, flush_buf-FlushedBuf,
}

module _ {W : Type 0} {w : AsyncWriteRent W} (spec : WriteSpec w) where
  -- `flush` and `shutdown` of the writer inside
  inner-Flushed :
      (before bytes : List ℕ) (b : BufWriter W) (x : Reply W (Unit {0}))
      → Emptied spec before bytes b
      → WellFormed b.buf b.cap
      → Unmoved spec.Valid spec.sent (spec.sent b.inner) x
      → Flushed spec before bytes (from_inner b x)
  inner-Flushed before bytes b (ok (success t, s)) (order, empty) c (same, valid) =
      ((same ∙ order, empty), (c, valid))
  inner-Flushed before bytes b (ok (failure e, s)) (order, empty) c (same, valid) =
      (inl (same ∙ order, empty), (c, valid))
  inner-Flushed before bytes b panic e c bad = bad
  inner-Flushed before bytes b undefined e c bad = bad

  and_then-Flushed :
      (room : ℕ) (before bytes : List ℕ) (x : Run W (Unit {0}))
      (next : BufWriter W → Run W (Unit {0}))
      → FlushedBuf spec room before bytes x
      → ((b : BufWriter W)
          → Emptied spec before bytes b
          → Valid spec b
          → Flushed spec before bytes (next b))
      → Flushed spec before bytes (and_then x next)
  and_then-Flushed room before bytes none next bad go = bad
  and_then-Flushed room before bytes (some panic) next bad go = bad
  and_then-Flushed room before bytes (some undefined) next bad go = bad
  and_then-Flushed room before bytes (some (ok (success t, b))) next (empty, same, valid) go =
      go b empty valid
  and_then-Flushed room before bytes (some (ok (failure e, b))) next (keeps, valid) go =
      (inr keeps, valid)

  module _ (p : WritePatience w) (fuel : ℕ) where
    -- `flush` and `shutdown` of a buffer that is there and holds no more than fits, over a writer that
    -- keeps its promises, end when that is interrupted only so often. If they succeed,
    -- that writer has what was in the buffer, after what it had, and the buffer is empty; if they
    -- fail, so it is, or some of the buffer's bytes were sent and all of them are still in it.
    pub flush-Flushed :
        (b : BufWriter W)
        → Valid spec b
        → b.cap + p.patience b.inner ≤ fuel
        → Flushed spec (spec.sent b.inner) (held b.buf b.cap) (flush w fuel b)
          × Flushed spec (spec.sent b.inner) (held b.buf b.cap) (shutdown w fuel b)
    unfolding flush shutdown
    flush-Flushed b valid enough = (
      and_then-Flushed (capacity b.buf) (spec.sent b.inner) (held b.buf b.cap) (flush_buf w fuel b)
          _ (flush_buf-FlushedBuf spec p fuel b valid enough)
          (λ b2 e v.
            inner-Flushed (spec.sent b.inner) (held b.buf b.cap) b2 (w.flush b2.inner) e v.0
              (spec.honest_flush b2.inner v.1)),
      and_then-Flushed (capacity b.buf) (spec.sent b.inner) (held b.buf b.cap) (flush_buf w fuel b)
          _ (flush_buf-FlushedBuf spec p fuel b valid enough)
          (λ b2 e v.
            inner-Flushed (spec.sent b.inner) (held b.buf b.cap) b2 (w.shutdown b2.inner) e v.0
              (spec.honest_shutdown b2.inner v.1)),
    )

  -- A flush that fails, and another that succeeds, each with enough fuel and over a writer that keeps
  -- its promises: the writer inside has what was in the buffer once,
  -- or a proper part of it from its start and then all of it.
  pub flush-again :
      (p : WritePatience w) (fuel fuel2 : ℕ) (b b2 b3 : BufWriter W) (e : ErrorKind)
      → Valid spec b
      → b.cap + p.patience b.inner ≤ fuel
      → b2.cap + p.patience b2.inner ≤ fuel2
      → flush w fuel b ≡ some (ok (failure e, b2))
      → flush w fuel2 b2 ≡ some (ok (success tt, b3))
      → (spec.sent b3.inner ≡ spec.sent b.inner ++ held b.buf b.cap)
        ⊎ ((k : ℕ) × (k < length (held b.buf b.cap))
            × (spec.sent b3.inner
                ≡ (spec.sent b.inner ++ take k (held b.buf b.cap)) ++ held b.buf b.cap))
  flush-again p fuel fuel2 b b2 b3 e valid enough enough2 first second =
      let (once, valid2) =
        subst (Flushed spec (spec.sent b.inner) (held b.buf b.cap)) first
          (flush-Flushed p fuel b valid enough).0 in
      let ((twice, empty), valid3) =
        subst (Flushed spec (spec.sent b2.inner) (held b2.buf b2.cap)) second
          (flush-Flushed p fuel2 b2 valid2 enough2).0 in
      elim once [
        | inl (order, none_left) ↦ inl (
            twice
            ∙ ap (λ z. spec.sent b2.inner ++ z) (held_zero b2.buf b2.cap none_left)
            ∙ append-nil (spec.sent b2.inner)
            ∙ order)
        | inr (k, lt, order, same) ↦ inr (k, lt, twice ∙ ap₂ (λ y z. y ++ z) order same)
      ]
