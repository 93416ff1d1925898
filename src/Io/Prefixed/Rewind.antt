-- ===== src/Io/Prefixed/Rewind.antt =====
-- Reading some bytes, putting them in front of the reader again, and reading anew.
use monoio.Prelude.{
  ℕ, ◌+◌, ◌≤◌, ◌≡◌, sym, ap, ◌∙◌, subst, true, false, Bool-cases, inl, inr, List, [], ◌∷◌, ◌++◌,
  ◌==◌, some, ok, panic, undefined, ◌>>=◌, arith,
}
use monoio.Io.{success, failure, Reply, AsyncReadRent}
use monoio.Io.Stream.{Calm, ReadSpec, ReadPatience}
use monoio.Io.Exact.{Exact, read_exact, read_exact_lem}
use monoio.Io.Prefixed.{PrefixedReadIo, new, read, read_io, prefix_read, reader}
use monoio.Io.Prefixed.Laws.{prefixed_spec}

module _ {I P : Type 0} {i : AsyncReadRent I} {p : AsyncReadRent P} (ip : ReadPatience i)
    (pp : ReadPatience p) where
  -- The interruptions of the prefix, and those of the reader behind it
  abbrev pub patience : PrefixedReadIo I P → ℕ
  patience s = pp.patience s.prefix + ip.patience s.io

  read_io-Calm :
      (n before : ℕ) (s : PrefixedReadIo I P) (x : Reply I (List ℕ))
      → Calm ip.patience (ip.patience s.io) x
      → pp.patience s.prefix + ip.patience s.io ≤ before
      → Calm patience before (x >>= λ a. ok (a.0, record s { io = a.1 }))
  read_io-Calm n before s (ok (success bs, t)) calm b = omega arith
  read_io-Calm n before s (ok (failure e, t)) calm b =
      (omega (arith, calm.0), λ again. let fewer = calm.1 again in omega arith)
  read_io-Calm n before s panic calm b = tt
  read_io-Calm n before s undefined calm b = tt

  prefix_read-Calm :
      (n : ℕ) (s : PrefixedReadIo I P) (x : Reply P (List ℕ))
      → Calm pp.patience (pp.patience s.prefix) x
      → Calm patience (patience s) (x >>= prefix_read i p s n)
  unfolding prefix_read read_io
  prefix_read-Calm n s (ok (success [], t)) calm =
      read_io-Calm n (patience s) (record s { prefix = t; prefix_finished = true }) (i.read s.io n)
        (ip.calm s.io n) (omega arith)
  prefix_read-Calm n s (ok (success (b ∷ bs), t)) calm = omega arith
  prefix_read-Calm n s (ok (failure e, t)) calm =
      (omega (arith, calm.0), λ again. let fewer = calm.1 again in omega arith)
  prefix_read-Calm n s panic calm = tt
  prefix_read-Calm n s undefined calm = tt

  pub read-Calm : (s : PrefixedReadIo I P) (n : ℕ) → Calm patience (patience s) (read i p s n)
  unfolding read read_io
  read-Calm s n = elim (Bool-cases (n == 0)) [
    | inl none_asked ↦ rw none_asked (omega arith)
    | inr asked ↦ elim (Bool-cases s.prefix_finished) [
      | inl over ↦
          rw (asked, over)
            (read_io-Calm n (patience s) (record s { prefix_finished = true }) (i.read s.io n)
              (ip.calm s.io n) (omega arith))
      | inr on ↦
          rw (asked, on)
            (prefix_read-Calm n (record s { prefix_finished = false }) (p.read s.prefix n)
              (pp.calm s.prefix n))
    ]
  ]

  abbrev pub prefixed_patience : ReadPatience (reader i p)
  prefixed_patience = record { patience = patience; calm = read-Calm }

  module _ (ispec : ReadSpec i) (pspec : ReadSpec p) where
    -- Bytes that `read_exact` took from a reader, put in front of it as a prefix, where both keep the
    -- promises of a reader and are interrupted only so often: reading n bytes
    -- gives the first n that the reader had to give at first, as `read_exact` ends on any reader.
    pub rewind :
        (fuel fuel2 : ℕ) (s s2 : I) (bs : List ℕ) (prefix : P) (len n : ℕ)
        → ispec.Valid s
        → len + ip.patience s ≤ fuel
        → read_exact i fuel s len ≡ some (ok (success bs, s2))
        → pspec.Valid prefix
        → pspec.rest prefix ≡ bs
        → n + (pp.patience prefix + ip.patience s2) ≤ fuel2
        → Exact
            (prefixed_spec ispec pspec)
            (ispec.rest s)
            n
            (read_exact (reader i p) fuel2 (new s2 prefix) n)
    rewind fuel fuel2 s s2 bs prefix len n valid enough took pvalid same enough2 =
        let (full, order, valid2) =
          subst (Exact ispec (ispec.rest s) len) took
            (read_exact_lem ispec ip fuel s len valid enough) in
        subst
          (λ all.
            Exact (prefixed_spec ispec pspec) all n
              (read_exact (reader i p) fuel2 (new s2 prefix) n))
          (ap (λ z. z ++ ispec.rest s2) same ∙ sym order)
          (read_exact_lem (prefixed_spec ispec pspec) prefixed_patience fuel2 (new s2 prefix) n
            (pvalid, valid2) enough2)
