-- ===== src/Io/ReadUntil/Laws.antt =====
-- What `read_until` takes from the stream.
use monoio.Prelude.{
  ℕ, zero, suc, ◌+◌, ◌≤◌, ◌<◌, ◌≡◌, refl, sym, ap, ◌∙◌, subst, ◌⊎◌, inl, inr, Bool, true, false,
  Bool-cases, Option, none, some, List, [], ◌∷◌, ◌++◌, append-nil, append_assoc, mem, mem-append,
  length, length-append, length-take, length_zero, take, take_all, ◌==◌, ==_iff, Outcome, ok, panic,
  undefined, arith,
}
use monoio.Io.{success, failure, is_interrupted, Reply, AsyncBufRead}
use monoio.Io.Stream.{BufReadSpec, BufReadPatience, FillAnswer, ConsumeAnswer, Calm, CalmConsume}
use monoio.Io.BufReader.Filling.{slice_lem}
use monoio.Io.ReadUntil.{
  Until, Chunk, chunk, after_consume, advance, after_fill, until_from, read_until,
}

-- What `memchr` is documented to answer: where the byte stands first
abbrev pub Found : ℕ → List ℕ → Option ℕ → Type 0
Found d xs none = mem d xs ≡ false
Found d xs (some i) =
    (i < length xs) × (take (suc i) xs ≡ take i xs ++ d ∷ []) × (mem d (take i xs) ≡ false)

-- Bytes that end with the delimiter, which stands nowhere else in them
abbrev pub Line : ℕ → List ℕ → Type 0
Line d bs = (front : List ℕ) × (bs ≡ front ++ d ∷ []) × (mem d front ≡ false)

mem-append_false :
    (d : ℕ) (xs ys : List ℕ) → mem d xs ≡ false → mem d ys ≡ false → mem d (xs ++ ys) ≡ false
mem-append_false d xs ys a b = mem-append d xs ys ∙ rw (a, b)

module _ {S : Type 0} {r : AsyncBufRead S} (spec : BufReadSpec r) (p : BufReadPatience r)
    (memchr : ℕ → List ℕ → Option ℕ) (d : ℕ) where
  -- The end of `read_until`, where the reader had `all` to give and the buffer held `buf`
  abbrev pub Ended : List ℕ → List ℕ → Until S → Type 0
  Ended all buf none = ⊥
  Ended all buf (some panic) = ⊥
  Ended all buf (some undefined) = ⊥
  Ended all buf (some (ok (success n, s, buf2))) =
      (bs : List ℕ) × (n ≡ length bs)
      × (buf2 ≡ buf ++ bs)
      × (all ≡ bs ++ spec.rest s)
      × spec.Valid s
      × (Line d bs ⊎ ((mem d bs ≡ false) × (spec.rest s ≡ [])))
  Ended all buf (some (ok (failure e, s, buf2))) =
      (bs : List ℕ) × (buf2 ≡ buf ++ bs)
      × (all ≡ bs ++ spec.rest s)
      × spec.Valid s
      × (mem d bs ≡ false)
      × (is_interrupted e ≡ false)

  -- What a step may find in the stream `cur`
  abbrev Decides : List ℕ → Bool → List ℕ → Type 0
  Decides cur true found = Line d found
  Decides cur false found = (mem d found ≡ false) × (found ≡ [] → cur ≡ [])

  abbrev chunk_of : Bool → List ℕ → Chunk
  chunk_of done found = record { done = done; used = length found; found = found }

  -- What the loop goes on with: the bytes so far, and less to come.
  abbrev Goes : List ℕ → List ℕ → List ℕ → ℕ → (S → List ℕ → ℕ → Until S) → Type 0
  Goes all buf cur before continue =
      (s : S) (bs : List ℕ)
      → spec.Valid s
      → all ≡ bs ++ spec.rest s
      → mem d bs ≡ false
      → length (spec.rest s) + p.patience s < length cur + before
      → Ended all buf (continue s (buf ++ bs) (length bs))

  after_consume-Ended :
      (all buf bs cur : List ℕ) (before : ℕ) (done : Bool) (found : List ℕ) (x : Outcome S)
      (continue : S → List ℕ → ℕ → Until S)
      → all ≡ bs ++ cur
      → mem d bs ≡ false
      → Decides cur done found
      → ConsumeAnswer spec.Valid spec.rest cur found x
      → CalmConsume p.patience before x
      → Goes all buf cur before continue
      → Ended all buf
          (after_consume r memchr d (chunk_of done found) (buf ++ bs) (length bs) continue x)
  after_consume-Ended all buf bs cur before done found panic continue order clean decides bad calm
        go =
      bad
  after_consume-Ended all buf bs cur before done found undefined continue order clean decides bad
        calm go =
      bad
  after_consume-Ended all buf bs cur before true found (ok s) continue order clean
        (front, e, front_clean) (taken, valid) calm go =
      (
        bs ++ found,
        sym (length-append bs found),
        append_assoc buf bs found,
        order ∙ ap (λ z. bs ++ z) taken ∙ sym (append_assoc bs found (spec.rest s)),
        valid,
        inl (
          bs ++ front,
          ap (λ z. bs ++ z) e ∙ sym (append_assoc bs front (d ∷ [])),
          mem-append_false d bs front clean front_clean,
        ),
      )
  after_consume-Ended all buf bs cur before false found (ok s) continue order clean
        (found_clean, at_end) (taken, valid) calm go =
      elim (Bool-cases (length found == 0)) [
        | inl empty ↦
            let nil : found ≡ [] = length_zero found ((==_iff (length found) 0).0 empty) in
            rw empty (
              bs ++ found,
              sym (length-append bs found),
              append_assoc buf bs found,
              whole,
              valid,
              inr (
                mem-append_false d bs found clean found_clean,
                sym (ap (λ z. z ++ spec.rest s) nil) ∙ sym taken ∙ at_end nil,
              ),
            )
        | inr some_found ↦
            rw (some_found, append_assoc buf bs found, sym (length-append bs found))
              (go s (bs ++ found) valid whole (mem-append_false d bs found clean found_clean)
                (shorter some_found))
      ]
    where
      whole : all ≡ (bs ++ found) ++ spec.rest s
      whole = order ∙ ap (λ z. bs ++ z) taken ∙ sym (append_assoc bs found (spec.rest s))

      sizes : length cur ≡ length found + length (spec.rest s)
      sizes = ap length taken ∙ length-append found (spec.rest s)

      shorter :
          (length found == 0) ≡ false → length (spec.rest s) + p.patience s < length cur + before
      shorter e = let some_bytes : 0 < length found = ground arith in omega (arith, sizes)

  consumed :
      (s : S) (cur available : List ℕ) (n : ℕ)
      → cur ≡ spec.rest s
      → spec.held s ≡ available
      → spec.Valid s
      → n ≤ length available
      → ConsumeAnswer spec.Valid spec.rest cur (take n available) (r.consume s n)
  consumed s cur available n same here valid b =
      subst (λ z. ConsumeAnswer spec.Valid spec.rest z (take n available) (r.consume s n))
        (sym same)
        (subst (λ z. ConsumeAnswer spec.Valid spec.rest (spec.rest s) (take n z) (r.consume s n))
          here (spec.honest_consume s n valid (omega (arith, ap length here))))

  consumed-Calm :
      (s : S) (before : ℕ) (x : Outcome S)
      → p.patience s ≤ before
      → CalmConsume p.patience (p.patience s) x
      → CalmConsume p.patience before x
  consumed-Calm s before (ok t) b calm = omega arith
  consumed-Calm s before panic b calm = tt
  consumed-Calm s before undefined b calm = tt

  advance-Ended :
      (all buf bs cur : List ℕ) (before : ℕ) (s : S) (available : List ℕ) (o : Option ℕ)
      (continue : S → List ℕ → ℕ → Until S)
      → all ≡ bs ++ cur
      → mem d bs ≡ false
      → cur ≡ spec.rest s
      → spec.held s ≡ available
      → spec.Valid s
      → (available ≡ [] → cur ≡ [])
      → p.patience s ≤ before
      → Found d available o
      → Goes all buf cur before continue
      → Ended all buf (advance r memchr d s (buf ++ bs) (length bs) continue (chunk o available))
  advance-Ended all buf bs cur before s available none continue order clean same here valid at_end
        calm found go =
      after_consume-Ended all buf bs cur before false available (r.consume s (length available))
        continue order clean (found, at_end)
        (subst (λ z. ConsumeAnswer spec.Valid spec.rest cur z (r.consume s (length available)))
          (take_all (length available) available (omega arith))
          (consumed s cur available (length available) same here valid (omega arith)))
        (consumed-Calm s before (r.consume s (length available)) calm
          (p.calm_consume s (length available)))
        go
  advance-Ended all buf bs cur before s available (some i) continue order clean same here valid
        at_end calm (lt, line, before_clean) go =
      rw (slice_lem available 0 (suc i) (omega arith) (omega arith)) (
        subst
          (λ n. Ended all buf (
            after_consume r memchr d
              (record { done = true; used = n; found = take (suc i) available }) (buf ++ bs)
              (length bs) continue (r.consume s n)))
          full
          (after_consume-Ended all buf bs cur before true (take (suc i) available)
            (r.consume s (length (take (suc i) available))) continue order clean
            (take i available, line, before_clean)
            (subst
              (λ n. ConsumeAnswer spec.Valid spec.rest cur (take (suc i) available) (r.consume s n))
              (sym full) (consumed s cur available (suc i) same here valid (omega arith)))
            (consumed-Calm s before _ calm (p.calm_consume s (length (take (suc i) available))))
            go))
    where
      full : length (take (suc i) available) ≡ suc i
      full = omega (arith, length-take (suc i) available)

  after_fill-Ended :
      (all buf bs cur : List ℕ) (before : ℕ) (x : Reply S (List ℕ))
      (continue : S → List ℕ → ℕ → Until S)
      → ((xs : List ℕ) → Found d xs (memchr d xs))
      → all ≡ bs ++ cur
      → mem d bs ≡ false
      → FillAnswer spec.Valid spec.rest spec.held cur x
      → Calm p.patience before x
      → Goes all buf cur before continue
      → Ended all buf (after_fill r memchr d x (buf ++ bs) (length bs) continue)
  unfolding after_fill
  after_fill-Ended all buf bs cur before (ok (success available, s)) continue finds order clean
        (same, here, valid, at_end) calm go =
      advance-Ended all buf bs cur before s available (memchr d available) continue order clean same
        here valid at_end calm (finds available) go
  after_fill-Ended all buf bs cur before (ok (failure e, s)) continue finds order clean
        (same, valid) calm go =
      elim (Bool-cases (is_interrupted e)) [
        | inl again ↦
            let fewer = calm.1 again in
            rw again
              (go s bs valid (order ∙ ap (λ z. bs ++ z) same) clean (omega (arith, ap length same)))
        | inr fatal ↦ rw fatal (bs, refl, order ∙ ap (λ z. bs ++ z) same, valid, clean, fatal)
      ]
  after_fill-Ended all buf bs cur before panic continue finds order clean bad calm go = bad
  after_fill-Ended all buf bs cur before undefined continue finds order clean bad calm go = bad

  until_from-Ended :
      (fuel : ℕ) (all buf bs : List ℕ) (s : S)
      → ((xs : List ℕ) → Found d xs (memchr d xs))
      → spec.Valid s
      → all ≡ bs ++ spec.rest s
      → mem d bs ≡ false
      → length (spec.rest s) + p.patience s < fuel
      → Ended all buf (until_from r memchr d fuel s (buf ++ bs) (length bs))
  unfolding until_from
  until_from-Ended zero all buf bs s finds valid order clean enough = absurd (omega arith)
  until_from-Ended (suc fuel) all buf bs s finds valid order clean enough =
      after_fill-Ended all buf bs (spec.rest s) (p.patience s) (r.fill_buf s) _ finds order clean
        (spec.honest_fill s valid) (p.calm_fill s)
        (λ s2 bs2 v o c fewer. until_from-Ended fuel all buf bs2 s2 finds v o c (omega arith))

  -- `read_until` on a reader that keeps its promises ends when that is interrupted only so often, where
  -- `memchr` answers as it is documented to. If it succeeds, it appended the next bytes of the stream, as many as it answers:
  -- those up to and with the first delimiter, or all of them where there is none. If it fails, the
  -- bytes that it took are appended and hold no delimiter, and the error is no interruption.
  pub read_until_lem :
      (fuel : ℕ) (s : S) (buf : List ℕ)
      → ((xs : List ℕ) → Found d xs (memchr d xs))
      → spec.Valid s
      → length (spec.rest s) + p.patience s < fuel
      → Ended (spec.rest s) buf (read_until r memchr d fuel s buf)
  unfolding read_until
  read_until_lem fuel s buf finds valid enough =
      subst (λ z. Ended (spec.rest s) buf (until_from r memchr d fuel s z 0)) (append-nil buf)
        (until_from-Ended fuel (spec.rest s) buf [] s finds valid refl refl enough)
