-- ===== src/Io/Copy/Laws.antt =====
-- Where the bytes go that `copy` reads.
use monoio.Prelude.{
  ℕ, zero, suc, ◌+◌, ◌^◌, ◌≤◌, ◌<◌, ◌≡◌, refl, sym, ap, ◌∙◌, Bool, true, false, Bool-cases, inl,
  inr, Option, none, some, List, [], ◌∷◌, ◌++◌, append-nil, append_assoc, length, length-append,
  take, take-append_add, take_all, ltb, lt→ltb, ok, panic, undefined, arith,
}
use monoio.Io.{success, failure, is_interrupted, Reply, AsyncReadRent, AsyncWriteRent}
use monoio.Io.Stream.{Answer, Calm, ReadSpec, ReadPatience, WriteSpec, WritePatience}
use monoio.Io.WriteAll.{write_all, AllSent, write_all_lem, CalmEnd, write_all-CalmEnd}
use monoio.Io.Copy.{
  buf_size, Copy, after_write_all, write_loop, after_chunk, after_read, copy_from, copy,
}

module _ {T : Type 0} {w : AsyncWriteRent T} (wspec : WriteSpec w) (wp : WritePatience w) where
  -- The loop 'w runs once.
  after_write_all-once :
      (before bs : List ℕ) (x : Option (Reply T ℕ)) (retry : T → Option (Reply T ℕ))
      → 0 < length bs
      → AllSent wspec before bs x
      → after_write_all w x retry ≡ x
  unfolding after_write_all
  after_write_all-once before bs none retry some_bytes a = refl
  after_write_all-once before bs (some panic) retry some_bytes a = refl
  after_write_all-once before bs (some undefined) retry some_bytes a = refl
  after_write_all-once before bs (some (ok (success zero, t))) retry some_bytes a =
      absurd (omega (arith, a.0))
  after_write_all-once before bs (some (ok (success (suc n), t))) retry some_bytes a = refl
  after_write_all-once before bs (some (ok (failure e, t))) retry some_bytes
        (n, lt, order, valid, fatal) =
      rw fatal refl

  write_loop-once :
      (tries fuel : ℕ) (t : T) (bs : List ℕ)
      → wspec.Valid t
      → 0 < length bs
      → length bs + wp.patience t ≤ fuel
      → write_loop w (suc tries) fuel t bs ≡ write_all w fuel t bs
  unfolding write_loop
  write_loop-once tries fuel t bs valid some_bytes enough =
      after_write_all-once (wspec.sent t) bs (write_all w fuel t bs) _ some_bytes
        (write_all_lem wspec wp fuel t bs valid enough)

module _ {S T : Type 0} {r : AsyncReadRent S} {w : AsyncWriteRent T} (rspec : ReadSpec r)
    (wspec : WriteSpec w) where
  -- The end of `copy`, where the reader had `all` to give and the writer had sent `before`
  abbrev pub Copied : List ℕ → List ℕ → Copy S T → Type 0
  Copied all before none = ⊥
  Copied all before (some panic) = ⊥
  Copied all before (some undefined) = ⊥
  Copied all before (some (ok (success n, s, t))) =
      (n ≡ length all)
      × (rspec.rest s ≡ [])
      × (wspec.sent t ≡ before ++ all)
      × rspec.Valid s
      × wspec.Valid t
  Copied all before (some (ok (failure e, s, t))) =
      (moved : List ℕ) × (k : ℕ) × (all ≡ moved ++ rspec.rest s)
      × (wspec.sent t ≡ before ++ take k moved)
      × (is_interrupted e ≡ false)

  module _ (rp : ReadPatience r) (wp : WritePatience w) (debug : Bool) (write_fuel : ℕ) where
    after_chunk-Copied :
        (all before chunk : List ℕ) (s : S) (t : T) (transferred : ℕ) (x : Option (Reply T ℕ))
        (continue : T → ℕ → Copy S T) (moved : List ℕ)
        → all ≡ (moved ++ chunk) ++ rspec.rest s
        → wspec.sent t ≡ before ++ moved
        → transferred ≡ length moved
        → length all < 2 ^ 64
        → AllSent wspec (wspec.sent t) chunk x
        → CalmEnd wp (wp.patience t) x
        → ((t2 : T) (total : ℕ)
            → wspec.Valid t2
            → wspec.sent t2 ≡ before ++ (moved ++ chunk)
            → total ≡ length (moved ++ chunk)
            → wp.patience t2 ≤ wp.patience t
            → Copied all before (continue t2 total))
        → Copied all before (after_chunk debug s transferred x continue)
    after_chunk-Copied all before chunk s t transferred none continue moved order sofar count small
          a calm go =
        a
    after_chunk-Copied all before chunk s t transferred (some panic) continue moved order sofar
          count small a calm go =
        a
    after_chunk-Copied all before chunk s t transferred (some undefined) continue moved order sofar
          count small a calm go =
        a
    after_chunk-Copied all before chunk s t transferred (some (ok (success n, t2))) continue moved
          order sofar count small (full, sent2, valid) calm go =
        rw fits (
          go t2 (transferred + n) valid
            (sent2 ∙ ap (λ z. z ++ chunk) sofar ∙ append_assoc before moved chunk)
            (omega (arith, grown)) calm)
      where
        grown : length (moved ++ chunk) ≡ length moved + length chunk
        grown = length-append moved chunk

        whole : length all ≡ length (moved ++ chunk) + length (rspec.rest s)
        whole = ap length order ∙ length-append (moved ++ chunk) (rspec.rest s)

        fits : ltb (transferred + n) (2 ^ 64) ≡ true
        fits = lt→ltb (transferred + n) (2 ^ 64) (omega (arith, whole, grown))
    after_chunk-Copied all before chunk s t transferred (some (ok (failure e, t2))) continue moved
          order sofar count small (n, lt, sent2, valid, fatal) calm go =
        (
          moved ++ chunk,
          length moved + n,
          order,
          (sent2
              ∙ ap (λ z. z ++ take n chunk) sofar
              ∙ append_assoc before moved (take n chunk)
              ∙ ap (λ z. before ++ z) (sym (take-append_add n moved chunk))),
          fatal,
        )

    after_read-Copied :
        (all before moved : List ℕ) (s : S) (t : T) (transferred : ℕ) (x : Reply S (List ℕ))
        (continue : S → T → ℕ → Copy S T)
        → all ≡ moved ++ rspec.rest s
        → wspec.sent t ≡ before ++ moved
        → transferred ≡ length moved
        → length all < 2 ^ 64
        → wspec.Valid t
        → buf_size + wp.patience t ≤ write_fuel
        → Answer rspec.Valid rspec.rest (rspec.rest s) buf_size x
        → Calm rp.patience (rp.patience s) x
        → ((s2 : S) (t2 : T) (total : ℕ) (moved2 : List ℕ)
            → rspec.Valid s2
            → wspec.Valid t2
            → all ≡ moved2 ++ rspec.rest s2
            → wspec.sent t2 ≡ before ++ moved2
            → total ≡ length moved2
            → wp.patience t2 ≤ wp.patience t
            → length (rspec.rest s2) + rp.patience s2 < length (rspec.rest s) + rp.patience s
            → Copied all before (continue s2 t2 total))
        → Copied all before (after_read r w debug write_fuel x t transferred continue)
    unfolding after_read
    after_read-Copied all before moved s t transferred (ok (success [], s2)) continue order sofar
          count small valid enough (fits, rest, valid2, at_end) calm go =
        let over : all ≡ moved =
          order ∙ ap (λ z. moved ++ z) (at_end (omega arith) refl) ∙ append-nil moved in
        (
          rw over count,
          sym rest ∙ at_end (omega arith) refl,
          sofar ∙ ap (λ z. before ++ z) (sym over),
          valid2,
          valid,
        )
    after_read-Copied all before moved s t transferred (ok (success (b ∷ bs), s2)) continue order
          sofar count small valid enough (fits, rest, valid2, at_end) calm go =
        rw
          (write_loop-once wspec wp write_fuel write_fuel t (b ∷ bs) valid (omega arith)
            (omega arith))
          (after_chunk-Copied all before (b ∷ bs) s2 t transferred
            (write_all w write_fuel t (b ∷ bs)) _ moved whole sofar count small
            (write_all_lem wspec wp write_fuel t (b ∷ bs) valid (omega arith))
            (write_all-CalmEnd wp write_fuel t (b ∷ bs))
            (λ t2 total v2 sent2 count2 calm2.
              go s2 t2 total (moved ++ b ∷ bs) valid2 v2 whole sent2 count2 calm2
                (omega (arith, fewer))))
      where
        whole : all ≡ (moved ++ b ∷ bs) ++ rspec.rest s2
        whole =
            order ∙ ap (λ z. moved ++ z) rest ∙ sym (append_assoc moved (b ∷ bs) (rspec.rest s2))

        fewer : length (rspec.rest s) ≡ suc (length bs) + length (rspec.rest s2)
        fewer = ap length rest ∙ length-append (b ∷ bs) (rspec.rest s2)
    after_read-Copied all before moved s t transferred (ok (failure e, s2)) continue order sofar
          count small valid enough (rest, valid2) calm go =
        elim (Bool-cases (is_interrupted e)) [
          | inl again ↦
              let fewer = calm.1 again in
              rw again (
                go s2 t transferred moved valid2 valid (order ∙ ap (λ z. moved ++ z) rest) sofar
                  count (omega arith) (omega (arith, ap length rest)))
          | inr fatal ↦ rw fatal (
            moved,
            length moved,
            order ∙ ap (λ z. moved ++ z) rest,
            sofar ∙ ap (λ z. before ++ z) (sym (take_all (length moved) moved (omega arith))),
            fatal,
          )
        ]
    after_read-Copied all before moved s t transferred panic continue order sofar count small valid
          enough bad calm go =
        bad
    after_read-Copied all before moved s t transferred undefined continue order sofar count small
          valid enough bad calm go =
        bad

    copy_from-Copied :
        (fuel : ℕ) (all before moved : List ℕ) (s : S) (t : T) (transferred : ℕ)
        → all ≡ moved ++ rspec.rest s
        → wspec.sent t ≡ before ++ moved
        → transferred ≡ length moved
        → length all < 2 ^ 64
        → rspec.Valid s
        → wspec.Valid t
        → buf_size + wp.patience t ≤ write_fuel
        → length (rspec.rest s) + rp.patience s < fuel
        → Copied all before (copy_from r w debug write_fuel fuel s t transferred)
    unfolding copy_from
    copy_from-Copied zero all before moved s t transferred order sofar count small rvalid wvalid
          enough fueled =
        absurd (omega arith)
    copy_from-Copied (suc fuel) all before moved s t transferred order sofar count small rvalid
          wvalid enough fueled =
        after_read-Copied all before moved s t transferred (r.read s buf_size) _ order sofar count
          small wvalid enough (rspec.honest s rvalid buf_size) (rp.calm s buf_size)
          (λ s2 t2 total moved2 rv wv o so c calm fewer.
            copy_from-Copied fuel all before moved2 s2 t2 total o so c small rv wv (omega arith)
              (omega arith))

    -- With a reader and a writer that keep the promises of their traits, `copy` ends when they are
    -- interrupted only so often, and does not panic if the stream is shorter than 2 ^ 64. If it succeeds, the whole stream went to the writer, in
    -- order, and its length is the answer; if it fails, what went to the writer is a part, from their
    -- start, of the bytes that left the reader, and the error is no interruption.
    pub copy_lem :
        (fuel : ℕ) (s : S) (t : T)
        → rspec.Valid s
        → wspec.Valid t
        → length (rspec.rest s) < 2 ^ 64
        → buf_size + wp.patience t ≤ write_fuel
        → length (rspec.rest s) + rp.patience s < fuel
        → Copied (rspec.rest s) (wspec.sent t) (copy r w debug write_fuel fuel s t)
    unfolding copy
    copy_lem fuel s t rvalid wvalid small enough fueled =
        copy_from-Copied fuel (rspec.rest s) (wspec.sent t) [] s t 0 refl
          (sym (append-nil (wspec.sent t))) refl small rvalid wvalid enough fueled
