-- ===== src/Io/BufWriter/Write.antt =====
-- Writing to a buffered writer.
use monoio.Prelude.{
  ℕ, ◌+◌, ◌≤◌, ◌<◌, ◌≡◌, refl, sym, ap, ap₂, ◌∙◌, inl, inr, true, false, Bool-cases, Option, none,
  some, List, ◌++◌, append-nil, append_assoc, length, length-take, length-drop, take, drop,
  take_all, take-append, length-append, ltb, ltb→lt, leb, ok, panic, undefined, arith,
}
use monoio.Io.{success, failure, Reply, AsyncWriteRent}
use monoio.Io.Stream.{Accepted, WriteSpec, WritePatience}
use monoio.Io.BufWriter.{
  BufWriter, Run, and_then, from_inner, store, flush_buf, write_or_store, write_with, write,
}
use monoio.Io.BufWriter.Contents.{
  held, capacity, WellFormed, held_zero, Valid, Emptied, Written, FlushedBuf, flush_buf-FlushedBuf,
}

module _ {W : Type 0} {w : AsyncWriteRent W} (spec : WriteSpec w) where
  store-Written :
      (before bytes : List ℕ) (room : ℕ) (bs : List ℕ) (b : BufWriter W) (obuf : Option (List ℕ))
      → WellFormed obuf b.cap
      → spec.Valid b.inner
      → spec.sent b.inner ++ held obuf b.cap ≡ before ++ bytes
      → b.cap + length bs ≤ capacity obuf
      → Written spec before bytes room bs (store b obuf bs)
  store-Written before bytes room bs b none bad valid order fits = bad
  store-Written before bytes room bs b (some buf) c valid order fits =
      let inside : leb (b.cap + length bs) (length buf) ≡ true = ground arith in
      rw inside (omega arith, λ r. refl, all_there, (omega (arith, same_length), valid))
    where
      front : List ℕ
      front = take b.cap buf

      back : List ℕ
      back = drop (b.cap + length bs) buf

      at_front : length front ≡ b.cap
      at_front = omega (arith, length-take b.cap buf)

      same_length : length (front ++ (bs ++ back)) ≡ length buf
      same_length = omega (
        arith,
        length-append front (bs ++ back),
        length-append bs back,
        length-drop (b.cap + length bs) buf,
        at_front,
      )

      sum : b.cap + length bs ≡ length (front ++ bs)
      sum = omega (arith, length-append front bs, at_front)

      contents : take (b.cap + length bs) (front ++ (bs ++ back)) ≡ front ++ bs
      contents =
          ap (λ n. take n (front ++ (bs ++ back))) sum
          ∙ ap (take (length (front ++ bs))) (sym (append_assoc front bs back))
          ∙ take-append (front ++ bs) back

      all_there :
          spec.sent b.inner ++ take (b.cap + length bs) (front ++ (bs ++ back))
          ≡ (before ++ bytes) ++ take (length bs) bs
      all_there =
          ap (λ z. spec.sent b.inner ++ z) contents
          ∙ sym (append_assoc (spec.sent b.inner) front bs)
          ∙ ap₂ (λ y z. y ++ z) order (sym (take_all (length bs) bs (omega arith)))

  -- `write` past the buffer
  inner-Written :
      (before bytes : List ℕ) (room : ℕ) (bs : List ℕ) (b : BufWriter W) (x : Reply W ℕ)
      → room < length bs
      → Emptied spec before bytes b
      → WellFormed b.buf b.cap
      → Accepted spec.Valid spec.sent (spec.sent b.inner) bs x
      → Written spec before bytes room bs (from_inner b x)
  inner-Written before bytes room bs b (ok (success n, s)) large (sofar, empty) c
        (fits, order, valid) =
      (
        fits,
        λ small. absurd (omega arith),
        rw (held_zero b.buf b.cap empty)
            (append-nil (spec.sent s) ∙ order ∙ ap (λ z. z ++ take n bs) sofar),
        (c, valid),
      )
  inner-Written before bytes room bs b (ok (failure e, s)) large (sofar, empty) c (order, valid) =
      (inl (order ∙ sofar, empty), (c, valid))
  inner-Written before bytes room bs b panic large e c bad = bad
  inner-Written before bytes room bs b undefined large e c bad = bad

  Emptied-Written :
      (before bytes : List ℕ) (room : ℕ) (bs : List ℕ) (b : BufWriter W)
      → Emptied spec before bytes b
      → capacity b.buf ≡ room
      → Valid spec b
      → Written spec before bytes room bs (write_or_store w room bs b)
  unfolding write_or_store
  Emptied-Written before bytes room bs b (sofar, empty) same (c, valid) =
      elim (Bool-cases (ltb room (length bs))) [
        | inl large ↦ rw large (
            inner-Written before bytes room bs b (w.write b.inner bs)
              (ltb→lt room (length bs) large) (sofar, empty) c (spec.honest b.inner valid bs))
        | inr small ↦
            let fits : length bs ≤ room = ground arith in
            rw small (
              store-Written before bytes room bs b b.buf c valid
                (ap (λ z. spec.sent b.inner ++ z) (held_zero b.buf b.cap empty)
                  ∙ append-nil _
                  ∙ sofar)
                (omega arith))
      ]

  FlushedBuf-Written :
      (before bytes : List ℕ) (room : ℕ) (bs : List ℕ) (x : Run W (Unit {0}))
      → FlushedBuf spec room before bytes x
      → Written spec before bytes room bs (and_then x (write_or_store w room bs))
  FlushedBuf-Written before bytes room bs none bad = bad
  FlushedBuf-Written before bytes room bs (some panic) bad = bad
  FlushedBuf-Written before bytes room bs (some undefined) bad = bad
  FlushedBuf-Written before bytes room bs (some (ok (success t, b))) (empty, same, valid) =
      Emptied-Written before bytes room bs b empty same valid
  FlushedBuf-Written before bytes room bs (some (ok (failure e, b))) (keeps, valid) =
      (inr keeps, valid)

  module _ (p : WritePatience w) (fuel : ℕ) where
    write-Written_at :
        (inner : W) (obuf : Option (List ℕ)) (cap : ℕ) (bs : List ℕ)
        → WellFormed obuf cap
        → spec.Valid inner
        → cap + p.patience inner ≤ fuel
        → Written spec
            (spec.sent inner)
            (held obuf cap)
            (capacity obuf)
            bs
            (write w fuel (record { inner = inner; buf = obuf; cap = cap }) bs)
    unfolding write write_with write_or_store
    write-Written_at inner none cap bs bad valid enough = bad
    write-Written_at inner (some buf) cap bs c valid enough =
        elim (Bool-cases (ltb (length buf) (cap + length bs))) [
          | inl over ↦ rw over (
              FlushedBuf-Written (spec.sent inner) (take cap buf) (length buf) bs
                (flush_buf w fuel b) (flush_buf-FlushedBuf spec p fuel b (c, valid) enough))
          | inr room ↦
              let fits : cap + length bs ≤ length buf = ground arith in
              let small : ltb (length buf) (length bs) ≡ false = ground arith in
              rw (room, small)
                (store-Written (spec.sent inner) (take cap buf) (length buf) bs b (some buf) c valid
                  refl fits)
        ]
      where
        b : BufWriter W
        b = record { inner = inner; buf = some buf; cap = cap }

    -- `write` on a buffer that is there and holds no more than fits, over a writer that keeps its
    -- promises, ends when that is interrupted only so often. If it succeeds, what is sent
    -- and what is in the buffer are, in order, what they were and the bytes counted in the answer,
    -- which are all where the buffer could hold them. If it fails, none of the bytes are taken: the
    -- buffer was sent and is empty, or some of its bytes were sent and all of them are still in it.
    pub write-Written :
        (b : BufWriter W) (bs : List ℕ)
        → Valid spec b
        → b.cap + p.patience b.inner ≤ fuel
        → Written spec
            (spec.sent b.inner)
            (held b.buf b.cap)
            (capacity b.buf)
            bs
            (write w fuel b bs)
    write-Written b bs (c, valid) enough = write-Written_at b.inner b.buf b.cap bs c valid enough
