-- ===== src/Buf/Tests.antt =====
-- A slice of a vector of eight bytes, of which five are initialised.
use monoio.Prelude.{◌+◌, ◌≡◌, ◌++◌, refl, [], ◌∷◌, take, ok, arith}
use monoio.Buf.{Vec, vec, SliceMut, new, deref}
use monoio.Buf.Laws.{IsWithin, new-IsWithin, after, slice_mut-filled, vec-BufSpec}

abbrev five : Vec
five = record { memory = 1 ∷ 2 ∷ 3 ∷ 4 ∷ 5 ∷ 0 ∷ 0 ∷ 0 ∷ []; len = 5 }

abbrev part : SliceMut Vec
part = record { buf = five; begin = 2; end = 7 }

part_made : new vec five 2 7 ≡ ok part
unfolding new vec
part_made = refl

five_fits : vec-BufSpec.Valid five
unfolding vec-BufSpec
five_fits = omega arith

part-IsWithin : IsWithin vec vec-BufSpec part
part-IsWithin = (new-IsWithin vec vec-BufSpec five 2 7 part five_fits part_made).0

slice_mut-filled_example :
    (deref vec (after vec vec-BufSpec part 1 (9 ∷ 8 ∷ [])) ≡ take 1 (deref vec part) ++ 9 ∷ 8 ∷ [])
    × (vec.bytes (after vec vec-BufSpec part 1 (9 ∷ 8 ∷ [])).buf
        ≡ take (2 + 1) (vec.bytes five) ++ 9 ∷ 8 ∷ [])
    × IsWithin vec vec-BufSpec (after vec vec-BufSpec part 1 (9 ∷ 8 ∷ []))
unfolding vec
slice_mut-filled_example =
    slice_mut-filled vec vec-BufSpec part 1 (9 ∷ 8 ∷ []) part-IsWithin (omega arith) (omega arith)
