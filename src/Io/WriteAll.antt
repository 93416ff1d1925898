-- ===== src/Io/WriteAll.antt =====
-- monoio/src/io/async_write_rent_ext.rs: `write_all`.
use monoio.Prelude.{
  ok, panic, undefined, ℕ, zero, suc, ◌+◌, ◌-◌, ◌≤◌, ◌<◌, ◌≡◌, refl, sym, ap, ◌∙◌, inl, inr, false,
  List, ◌++◌, append-nil, append_assoc, length, length-drop, take, drop, take_all, take_zero,
  take-drop_add, ltb, ltb→lt, Bool-cases, if◌then◌else◌, Option, none, some, arith,
}
use monoio.Io.{write_zero, Reply, success, failure, is_interrupted, AsyncWriteRent}
use monoio.Io.Stream.{Accepted, WriteSpec, Calm, WritePatience}

module _ {S : Type 0} (w : AsyncWriteRent S) where
  -- What the loop does with an answer, once so many bytes are written.
  after_write : Reply S ℕ → ℕ → (S → ℕ → Option (Reply S ℕ)) → Option (Reply S ℕ)
  after_write (ok (success zero, s)) written continue = some (ok (failure write_zero, s))
  after_write (ok (success (suc n), s)) written continue = continue s (written + suc n)
  after_write (ok (failure e, s)) written continue =
      if is_interrupted e then continue s written else some (ok (failure e, s))
  after_write panic written continue = some panic
  after_write undefined written continue = some undefined

  write_from : ℕ → S → List ℕ → ℕ → Option (Reply S ℕ)
  unfolding after_write
  write_from zero s bs written =
      if ltb written (length bs) then none else some (ok (success written, s))
  write_from (suc fuel) s bs written =
      if ltb written (length bs)
      then after_write (w.write s (drop written bs)) written (λ s2 more. write_from fuel s2 bs more)
      else some (ok (success written, s))

  -- `none` is a loop that ran out of fuel.
  unfoldable pub write_all : ℕ → S → List ℕ → Option (Reply S ℕ)
  unfolding write_from
  write_all fuel s bs = write_from fuel s bs 0

module _ {S : Type 0} {w : AsyncWriteRent S} (spec : WriteSpec w) where
  -- The end of `write_all` for the bytes `bs`, where `before` is what the writer had sent
  abbrev pub AllSent : List ℕ → List ℕ → Option (Reply S ℕ) → Type 0
  AllSent before bs none = ⊥
  AllSent before bs (some panic) = ⊥
  AllSent before bs (some undefined) = ⊥
  AllSent before bs (some (ok (success n, s))) =
      (n ≡ length bs) × (spec.sent s ≡ before ++ bs) × spec.Valid s
  AllSent before bs (some (ok (failure e, s))) =
      (n : ℕ) × (n < length bs)
      × (spec.sent s ≡ before ++ take n bs)
      × spec.Valid s
      × (is_interrupted e ≡ false)

  after_write-AllSent :
      (before bs : List ℕ) (s : S) (written : ℕ) (x : Reply S ℕ) (patience : S → ℕ)
      (continue : S → ℕ → Option (Reply S ℕ))
      → written < length bs
      → spec.sent s ≡ before ++ take written bs
      → Accepted spec.Valid spec.sent (spec.sent s) (drop written bs) x
      → Calm patience (patience s) x
      → ((s2 : S) (more : ℕ)
          → spec.Valid s2
          → spec.sent s2 ≡ before ++ take more bs
          → more ≤ length bs
          → length bs - more + patience s2 < length bs - written + patience s
          → AllSent before bs (continue s2 more))
      → AllSent before bs (after_write w x written continue)
  unfolding after_write
  after_write-AllSent before bs s written (ok (success zero, s2)) patience continue lt so_far
        (fits, order, valid) calm go =
      (
        written,
        lt,
        order
            ∙ ap (λ z. z ++ take 0 (drop written bs)) so_far
            ∙ ap (λ z. (before ++ take written bs) ++ z) (take_zero (drop written bs))
            ∙ append-nil _,
        valid,
        refl,
      )
  after_write-AllSent before bs s written (ok (success (suc n), s2)) patience continue lt so_far
        (fits, order, valid) calm go =
      go s2 (written + suc n) valid
        (order
          ∙ ap (λ z. z ++ take (suc n) (drop written bs)) so_far
          ∙ append_assoc before (take written bs) (take (suc n) (drop written bs))
          ∙ ap (λ z. before ++ z) (take-drop_add written (suc n) bs))
        (omega (arith, length-drop written bs)) (omega (arith, length-drop written bs))
  after_write-AllSent before bs s written (ok (failure k, s2)) patience continue lt so_far
        (order, valid) calm go =
      elim (Bool-cases (is_interrupted k)) [
        | inl again ↦
            let fewer = calm.1 again in
            rw again (go s2 written valid (order ∙ so_far) (omega arith) (omega arith))
        | inr fatal ↦ rw fatal (written, lt, order ∙ so_far, valid, fatal)
      ]
  after_write-AllSent before bs s written panic patience continue lt so_far bad calm go = bad
  after_write-AllSent before bs s written undefined patience continue lt so_far bad calm go = bad

  module _ (p : WritePatience w) where
    written-AllSent :
        (before bs : List ℕ) (s : S) (written : ℕ)
        → spec.Valid s
        → spec.sent s ≡ before ++ take written bs
        → written ≡ length bs
        → AllSent before bs (some (ok (success written, s)))
    written-AllSent before bs s written valid so_far full =
        (full, so_far ∙ ap (λ z. before ++ z) (take_all written bs (omega arith)), valid)

    write_from-AllSent :
        (fuel : ℕ) (before bs : List ℕ) (s : S) (written : ℕ)
        → spec.Valid s
        → spec.sent s ≡ before ++ take written bs
        → written ≤ length bs
        → length bs - written + p.patience s ≤ fuel
        → AllSent before bs (write_from w fuel s bs written)
    unfolding write_from
    write_from-AllSent zero before bs s written valid so_far b enough =
        let full : ltb written (length bs) ≡ false = ground arith in
        rw full (written-AllSent before bs s written valid so_far (omega arith))
    write_from-AllSent (suc fuel) before bs s written valid so_far b enough =
        elim (Bool-cases (ltb written (length bs))) [
          | inl more ↦ rw more (
              after_write-AllSent before bs s written (w.write s (drop written bs)) p.patience _
                (ltb→lt written (length bs) more) so_far (spec.honest s valid (drop written bs))
                (p.calm s (drop written bs))
                (λ s2 n v so b2 fewer.
                  write_from-AllSent fuel before bs s2 n v so b2 (omega arith)))
          | inr done ↦ rw done (written-AllSent before bs s written valid so_far (ground arith))
        ]

    -- `write_all` on a writer that keeps its promises ends when that is interrupted only so often. If it succeeds all the bytes are
    -- sent, after what was sent before; if it fails a proper part of them from their start is, and the
    -- error is no interruption.
    pub write_all_lem :
        (fuel : ℕ) (s : S) (bs : List ℕ)
        → spec.Valid s
        → length bs + p.patience s ≤ fuel
        → AllSent (spec.sent s) bs (write_all w fuel s bs)
    unfolding write_all
    write_all_lem fuel s bs valid enough =
        write_from-AllSent fuel (spec.sent s) bs s 0 valid
          (sym (ap (λ z. spec.sent s ++ z) (take_zero bs) ∙ append-nil (spec.sent s))) (omega arith)
          (omega arith)

-- The interruptions to come, once `write_all` is done
module _ {S : Type 0} {w : AsyncWriteRent S} (p : WritePatience w) where
  abbrev pub CalmEnd : ℕ → Option (Reply S ℕ) → Type 0
  CalmEnd before none = Unit {0}
  CalmEnd before (some (ok (answer, s))) = p.patience s ≤ before
  CalmEnd before (some panic) = Unit {0}
  CalmEnd before (some undefined) = Unit {0}

  after_write-CalmEnd :
      (before written : ℕ) (x : Reply S ℕ) (continue : S → ℕ → Option (Reply S ℕ))
      → Calm p.patience before x
      → ((s : S) (n : ℕ) → p.patience s ≤ before → CalmEnd before (continue s n))
      → CalmEnd before (after_write w x written continue)
  unfolding after_write
  after_write-CalmEnd before written (ok (success zero, s)) continue calm go = calm
  after_write-CalmEnd before written (ok (success (suc n), s)) continue calm go =
      go s (written + suc n) calm
  after_write-CalmEnd before written (ok (failure e, s)) continue calm go =
      elim (Bool-cases (is_interrupted e)) [
        | inl again ↦ rw again (go s written calm.0)
        | inr fatal ↦ rw fatal calm.0
      ]
  after_write-CalmEnd before written panic continue calm go = tt
  after_write-CalmEnd before written undefined continue calm go = tt

  weaken : {a b : ℕ} (x : Reply S ℕ) → a ≤ b → Calm p.patience a x → Calm p.patience b x
  weaken (ok (success n, s)) le calm = omega arith
  weaken (ok (failure e, s)) le calm =
      (omega (arith, calm.0), λ again. let fewer = calm.1 again in omega arith)
  weaken panic le calm = tt
  weaken undefined le calm = tt

  write_from-CalmEnd :
      (fuel before : ℕ) (s : S) (bs : List ℕ) (written : ℕ)
      → p.patience s ≤ before
      → CalmEnd before (write_from w fuel s bs written)
  unfolding write_from
  write_from-CalmEnd zero before s bs written b = elim (Bool-cases (ltb written (length bs))) [
    | inl more ↦ rw more tt
    | inr done ↦ rw done b
  ]
  write_from-CalmEnd (suc fuel) before s bs written b =
      elim (Bool-cases (ltb written (length bs))) [
        | inl more ↦ rw more (
            after_write-CalmEnd before written (w.write s (drop written bs)) _
              (weaken _ b (p.calm s (drop written bs)))
              (λ s2 n b2. write_from-CalmEnd fuel before s2 bs n b2))
        | inr done ↦ rw done b
      ]

  pub write_all-CalmEnd :
      (fuel : ℕ) (s : S) (bs : List ℕ) → CalmEnd (p.patience s) (write_all w fuel s bs)
  unfolding write_all
  write_all-CalmEnd fuel s bs = write_from-CalmEnd fuel (p.patience s) s bs 0 (omega arith)
