-- ===== src/Io/Exact.antt =====
-- monoio/src/io/async_read_rent_ext.rs: `read_exact`.
use monoio.Prelude.{
  ok, panic, undefined, ℕ, zero, suc, ◌+◌, ◌-◌, ◌≤◌, ◌<◌, ◌≡◌, refl, sym, ap, ◌∙◌, ◌⊎◌, inl, inr,
  false, List, [], ◌∷◌, ◌++◌, append_assoc, length, length-append, ltb, ltb→lt, Bool-cases,
  if◌then◌else◌, Option, none, some, arith,
}
use monoio.Io.{unexpected_eof, Reply, success, failure, is_interrupted, AsyncReadRent}
use monoio.Io.Stream.{Answer, ReadSpec, Calm, ReadPatience}

module _ {S : Type 0} (r : AsyncReadRent S) where
  -- What the loop does with an answer, where `got` is what it has read so far.
  after_read :
      Reply S (List ℕ)
      → List ℕ
      → (S → List ℕ → Option (Reply S (List ℕ)))
      → Option (Reply S (List ℕ))
  after_read (ok (success [], s)) got continue = some (ok (failure unexpected_eof, s))
  after_read (ok (success (b ∷ bs), s)) got continue = continue s (got ++ b ∷ bs)
  after_read (ok (failure e, s)) got continue =
      if is_interrupted e then continue s got else some (ok (failure e, s))
  after_read panic got continue = some panic
  after_read undefined got continue = some undefined

  read_from : ℕ → S → ℕ → List ℕ → Option (Reply S (List ℕ))
  unfolding after_read
  read_from zero s len got = if ltb (length got) len then none else some (ok (success got, s))
  read_from (suc fuel) s len got =
      if ltb (length got) len
      then after_read (r.read s (len - length got)) got (λ s2 more. read_from fuel s2 len more)
      else some (ok (success got, s))

  -- `none` is a loop that ran out of fuel.
  unfoldable pub read_exact : ℕ → S → ℕ → Option (Reply S (List ℕ))
  unfolding read_from
  read_exact fuel s len = read_from fuel s len []

ltb_refl : (n : ℕ) → ltb n n ≡ false
ltb_refl n = ground arith

module _ {S : Type 0} {r : AsyncReadRent S} (spec : ReadSpec r) where
  -- The end of `read_exact` for len bytes, where `all` is what the reader had to give
  abbrev pub Exact : List ℕ → ℕ → Option (Reply S (List ℕ)) → Type 0
  Exact all len none = ⊥
  Exact all len (some panic) = ⊥
  Exact all len (some undefined) = ⊥
  Exact all len (some (ok (success bs, s))) =
      (length bs ≡ len) × (all ≡ bs ++ spec.rest s) × spec.Valid s
  Exact all len (some (ok (failure e, s))) =
      (bs : List ℕ) × (length bs < len)
      × (all ≡ bs ++ spec.rest s)
      × spec.Valid s
      × (((e ≡ unexpected_eof) × (spec.rest s ≡ []))
          ⊎ ((is_interrupted e ≡ false) × (t : S) × (n : ℕ) × (r.read t n ≡ ok (failure e, s))))

  after_read-Exact :
      (s : S) (all : List ℕ) (len : ℕ) (got : List ℕ) (x : Reply S (List ℕ)) (patience : S → ℕ)
      (continue : S → List ℕ → Option (Reply S (List ℕ)))
      → r.read s (len - length got) ≡ x
      → length got < len
      → all ≡ got ++ spec.rest s
      → Answer spec.Valid spec.rest (spec.rest s) (len - length got) x
      → Calm patience (patience s) x
      → ((s2 : S) (more : List ℕ)
          → spec.Valid s2
          → all ≡ more ++ spec.rest s2
          → length more ≤ len
          → len - length more + patience s2 < len - length got + patience s
          → Exact all len (continue s2 more))
      → Exact all len (after_read r x got continue)
  unfolding after_read
  after_read-Exact s all len got (ok (success [], s2)) patience continue e lt whole
        (fits, order, valid, at_end) calm go =
      (
        got,
        lt,
        whole ∙ ap (λ z. got ++ z) order,
        valid,
        inl (refl, sym order ∙ at_end (omega arith) refl),
      )
  after_read-Exact s all len got (ok (success (b ∷ bs), s2)) patience continue e lt whole
        (fits, order, valid, at_end) calm go =
      go s2 (got ++ b ∷ bs) valid
        (whole ∙ ap (λ z. got ++ z) order ∙ sym (append_assoc got (b ∷ bs) (spec.rest s2)))
        (omega (arith, grown)) (omega (arith, grown))
    where
      grown : length (got ++ b ∷ bs) ≡ length got + suc (length bs)
      grown = length-append got (b ∷ bs)
  after_read-Exact s all len got (ok (failure k, s2)) patience continue e lt whole (order, valid)
        calm go =
      elim (Bool-cases (is_interrupted k)) [
        | inl again ↦
            let fewer = calm.1 again in
            rw again
              (go s2 got valid (whole ∙ ap (λ z. got ++ z) order) (omega arith) (omega arith))
        | inr fatal ↦
            rw fatal (
              got,
              lt,
              whole ∙ ap (λ z. got ++ z) order,
              valid,
              inr (fatal, s, len - length got, e),
            )
      ]
  after_read-Exact s all len got panic patience continue e lt whole bad calm go = bad
  after_read-Exact s all len got undefined patience continue e lt whole bad calm go = bad

  module _ (p : ReadPatience r) where
    read_from-Exact :
        (fuel : ℕ) (s : S) (all : List ℕ) (len : ℕ) (got : List ℕ)
        → spec.Valid s
        → all ≡ got ++ spec.rest s
        → length got ≤ len
        → len - length got + p.patience s ≤ fuel
        → Exact all len (read_from r fuel s len got)
    unfolding read_from
    read_from-Exact zero s all len got valid whole b enough =
        let full : length got ≡ len = omega arith in rw (full, ltb_refl len) (full, whole, valid)
    read_from-Exact (suc fuel) s all len got valid whole b enough =
        elim (Bool-cases (ltb (length got) len)) [
          | inl more ↦ rw more (
              after_read-Exact s all len got (r.read s (len - length got)) p.patience _ refl
                (ltb→lt (length got) len more) whole (spec.honest s valid (len - length got))
                (p.calm s (len - length got))
                (λ s2 more v w b2 fewer. read_from-Exact fuel s2 all len more v w b2 (omega arith)))
          | inr done ↦ let full : length got ≡ len = ground arith in rw done (full, whole, valid)
        ]

    -- `read_exact` on a reader that keeps its promises ends when that is interrupted only so often. If it succeeds it read just as many
    -- bytes as were asked for, the next ones of the stream; if it fails it has taken fewer from the
    -- stream, and either the stream is over or the error is one that the reader gave, and no interruption.
    pub read_exact_lem :
        (fuel : ℕ) (s : S) (len : ℕ)
        → spec.Valid s
        → len + p.patience s ≤ fuel
        → Exact (spec.rest s) len (read_exact r fuel s len)
    unfolding read_exact
    read_exact_lem fuel s len valid enough =
        read_from-Exact fuel s (spec.rest s) len [] valid refl (omega arith) (omega arith)
