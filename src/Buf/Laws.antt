-- ===== src/Buf/Laws.antt =====
-- Slices keep what their buffers promise.
use monoio.Prelude.{
  ℕ, zero, suc, ◌+◌, ◌-◌, ◌≤◌, ◌≡◌, ◌∙◌, refl, sym, ap, ◌++◌, min, List, [], ◌∷◌, length,
  length-append, length-take, length-drop, take, drop, take_all, take-append, ok, arith,
}
use mathlib.Core.Path.{subst}
use monoio.Buf.{IoBufMut, BufSpec, Vec, vec, SliceMut, new, deref, slice_mut}

drop-take : (k n : ℕ) (xs : List ℕ) → drop k (take (k + n) xs) ≡ take n (drop k xs)
drop-take zero n xs = let e : 0 + n ≡ n = omega arith in ap (λ z. take z xs) e
drop-take (suc k) zero [] =
    let e : suc k + 0 ≡ suc k = omega arith in ap (λ z. drop (suc k) (take z [])) e
drop-take (suc k) (suc n) [] =
    let e : suc k + suc n ≡ suc (k + suc n) = omega arith in ap (λ z. drop (suc k) (take z [])) e
drop-take (suc k) n (x ∷ xs) =
    let e : suc k + n ≡ suc (k + n) = omega arith in
    ap (λ z. drop (suc k) (take z (x ∷ xs))) e ∙ drop-take k n xs

take-take : (n m : ℕ) (xs : List ℕ) → n ≤ m → take n (take m xs) ≡ take n xs
take-take zero m xs h = refl
take-take (suc n) zero xs h = absurd (omega arith)
take-take (suc n) (suc m) [] h = refl
take-take (suc n) (suc m) (x ∷ xs) h = ap (λ z. x ∷ z) (take-take n m xs (omega arith))

drop-append : (n : ℕ) (xs ys : List ℕ) → n ≤ length xs → drop n (xs ++ ys) ≡ drop n xs ++ ys
drop-append zero xs ys h = refl
drop-append (suc n) [] ys h = absurd (omega arith)
drop-append (suc n) (x ∷ xs) ys h = drop-append n xs ys (omega arith)

-- What a slice shows of bytes that were put behind a part of the old ones.
module _ (old bs : List ℕ) (begin end at : ℕ) (h : begin + at ≤ min end (length old))
    (k : begin + at + length bs ≤ end) where
  shown_new :
      drop begin
        (take (min end (length (take (begin + at) old ++ bs))) (take (begin + at) old ++ bs))
      ≡ take at (drop begin old) ++ bs
  shown_new =
      let long : length (take (begin + at) old) ≡ begin + at =
        omega (arith, length-take (begin + at) old) in
      let fits : length (take (begin + at) old ++ bs)
          ≤ min end (length (take (begin + at) old ++ bs)) =
        omega (arith, length-append (take (begin + at) old) bs) in
      ap (drop begin) (take_all _ (take (begin + at) old ++ bs) fits)
      ∙ drop-append begin (take (begin + at) old) bs (omega arith)
      ∙ ap (λ z. z ++ bs) (drop-take begin at old)

  shown_old : take at (drop begin (take (min end (length old)) old)) ≡ take at (drop begin old)
  shown_old =
      let e : min end (length old) ≡ begin + (min end (length old) - begin) = omega arith in
      ap (λ z. take at (drop begin (take z old))) e
      ∙ ap (take at) (drop-take begin (min end (length old) - begin) old)
      ∙ take-take at (min end (length old) - begin) (drop begin old) (omega arith)

module _ {B : Type 0} (b : IoBufMut B) (spec : BufSpec b) where
  -- A slice within its buffer, which begins in what is initialised.
  pub record IsWithin (s : SliceMut B) : Type 0 where
    pub valid : spec.Valid s.buf
    pub ordered : s.begin ≤ s.end
    pub ends : s.end ≤ b.bytes_total s.buf
    pub begins : s.begin ≤ length (b.bytes s.buf)

  pub new-IsWithin :
      (buf : B) (begin end : ℕ) (s : SliceMut B)
      → spec.Valid buf
      → new b buf begin end ≡ ok s
      → IsWithin s × (s ≡ record { buf = buf; begin = begin; end = end })
  unfolding new
  new-IsWithin buf begin end s v e =
      let same : s ≡ record { buf = buf; begin = begin; end = end } = ground arith in
      let ends : end ≤ b.bytes_total buf = ground arith in
      let begins : begin ≤ length (b.bytes buf) = ground arith in
      let ordered : begin ≤ end = ground arith in
      let within : IsWithin (record { buf = buf; begin = begin; end = end }) = record {
        valid = v;
        ordered = ordered;
        ends = ends;
        begins = begins;
      } in
      (subst IsWithin (sym same) within, same)

  -- A slice after a call put `bs` into it from `at` on, and said so.
  abbrev pub after : SliceMut B → ℕ → List ℕ → SliceMut B
  unfolding slice_mut
  after s at bs = (slice_mut b).set_init (at + length bs) ((slice_mut b).put at bs s)

  length-deref :
      (s : SliceMut B)
      → IsWithin s
      → length (deref b s) ≡ min s.end (length (b.bytes s.buf)) - s.begin
  length-deref s w = omega (
    arith,
    length-drop s.begin (take (min s.end (length (b.bytes s.buf))) (b.bytes s.buf)),
    length-take (min s.end (length (b.bytes s.buf))) (b.bytes s.buf),
  )

  -- In a buffer that keeps the promises of the traits, for a slice within it: bytes that fit the slice,
  -- put behind some of the slice's bytes and said to be initialised, are the slice's bytes from there
  -- on; the buffer keeps what it had before them and ends with them, and the slice is within it still.
  pub slice_mut-filled :
      (s : SliceMut B) (at : ℕ) (bs : List ℕ)
      → IsWithin s
      → at ≤ length (deref b s)
      → at + length bs ≤ s.end - s.begin
      → (deref b (after s at bs) ≡ take at (deref b s) ++ bs)
        × (b.bytes (after s at bs).buf ≡ take (s.begin + at) (b.bytes s.buf) ++ bs)
        × IsWithin (after s at bs)
  unfolding slice_mut
  slice_mut-filled s at bs w h k =
      let reach : s.begin + at ≤ min s.end (length (b.bytes s.buf)) =
        omega (arith, length-deref s w, w.ordered, w.begins) in
      let sum : s.begin + (at + length bs) ≡ s.begin + at + length bs = omega arith in
      let (held, valid, total) =
        spec.filled s.buf (s.begin + at) bs w.valid (omega arith)
          (omega (arith, w.ends, w.ordered)) in
      let end : b.set_init (s.begin + (at + length bs)) (b.put (s.begin + at) bs s.buf)
          ≡ b.set_init (s.begin + at + length bs) (b.put (s.begin + at) bs s.buf) =
        ap (λ z. b.set_init z (b.put (s.begin + at) bs s.buf)) sum in
      rw end (
        ap (λ z. drop s.begin (take (min s.end (length z)) z)) held
            ∙ shown_new (b.bytes s.buf) bs s.begin s.end at reach (omega (arith, w.ordered))
            ∙ ap (λ z. z ++ bs)
                (sym
                  (shown_old (b.bytes s.buf) bs s.begin s.end at reach (omega (arith, w.ordered)))),
        held,
        record {
          valid = valid;
          ordered = w.ordered;
          ends = omega (arith, w.ends);
          begins = omega (
            arith,
            ap length held,
            length-append (take (s.begin + at) (b.bytes s.buf)) bs,
            length-take (s.begin + at) (b.bytes s.buf),
          );
        },
      )

  -- A slice is a buffer that keeps the promises of one.
  pub slice_mut-BufSpec : BufSpec (slice_mut b)
  unfolding slice_mut
  slice_mut-BufSpec = record {
    Valid = IsWithin;
    init_fits = λ s w. omega (arith, length-deref s w);
    filled = λ s at bs w h k.
        let (shown, held, within) = slice_mut-filled s at bs w h k in (shown, within, refl);
  }

pub vec_filled :
    (v : Vec) (at : ℕ) (bs : List ℕ)
    → v.len ≤ length v.memory
    → at ≤ length (take v.len v.memory)
    → at + length bs ≤ length v.memory
    → let memory = take at v.memory ++ bs ++ drop (at + length bs) v.memory in
      (take (at + length bs) memory ≡ take at (take v.len v.memory) ++ bs)
      × (at + length bs ≤ length memory)
      × (length memory ≡ length v.memory)
vec_filled v at bs h k r =
    let memory = take at v.memory ++ bs ++ drop (at + length bs) v.memory in
    let short : at ≤ v.len = omega (arith, length-take v.len v.memory) in
    let put : length (take at v.memory ++ bs) ≡ at + length bs =
      omega (arith, length-append (take at v.memory) bs, length-take at v.memory) in
    let size : length memory ≡ length v.memory = omega (
      arith,
      put,
      length-append (take at v.memory ++ bs) (drop (at + length bs) v.memory),
      length-drop (at + length bs) v.memory,
    ) in
    (
      ap (λ z. take z memory) (sym put)
          ∙ take-append (take at v.memory ++ bs) (drop (at + length bs) v.memory)
          ∙ ap (λ z. z ++ bs) (sym (take-take at v.len v.memory short)),
      omega (arith, size),
      size,
    )

unfoldable pub vec-BufSpec : BufSpec vec
unfolding vec
vec-BufSpec = record {
  Valid = λ v. v.len ≤ length v.memory;
  init_fits = λ v h. omega (arith, length-take v.len v.memory);
  filled = λ v at bs h k r. vec_filled v at bs h k r;
}
