-- ===== src/Io/Copy.antt =====
-- monoio/src/io/util/copy.rs: `copy`, which takes fuel as `write_all` does. The buffer is a vector of
-- the capacity `buf_size`, filled from its start by each read.
pub mod Laws
use monoio.Prelude.{
  ℕ, zero, suc, ◌+◌, ◌*◌, Bool, Option, none, some, List, [], ◌∷◌, if◌then◌else◌, Outcome, ok,
  panic, undefined, add_usize, ◌>>=◌,
}
use monoio.Io.{
  write_zero, IoResult, success, failure, is_interrupted, Reply, AsyncReadRent, AsyncWriteRent,
}
use monoio.Io.WriteAll.{write_all}

abbrev pub buf_size : ℕ
buf_size = 64 * 1024

-- What `copy` answers, with the reader and the writer as it leaves them
abbrev pub Copy : Type 0 → Type 0 → Type 0
Copy S T = Option (Outcome (IoResult ℕ × S × T))

module _ {T : Type 0} (w : AsyncWriteRent T) where
  -- An answer of `write_all` in the loop 'w
  after_write_all : Option (Reply T ℕ) → (T → Option (Reply T ℕ)) → Option (Reply T ℕ)
  after_write_all none retry = none
  after_write_all (some (ok (success zero, t))) retry = some (ok (failure write_zero, t))
  after_write_all (some (ok (success (suc n), t))) retry = some (ok (success (suc n), t))
  after_write_all (some (ok (failure e, t))) retry =
      if is_interrupted e then retry t else some (ok (failure e, t))
  after_write_all (some panic) retry = some panic
  after_write_all (some undefined) retry = some undefined

  -- The loop 'w
  write_loop : ℕ → ℕ → T → List ℕ → Option (Reply T ℕ)
  unfolding after_write_all
  write_loop zero fuel t bs = none
  write_loop (suc tries) fuel t bs =
      after_write_all (write_all w fuel t bs) (λ t2. write_loop tries fuel t2 bs)

module _ {S T : Type 0} where
  abbrev pub counted : Outcome ℕ → (ℕ → Copy S T) → Copy S T
  counted (ok total) continue = continue total
  counted panic continue = some panic
  counted undefined continue = some undefined

  -- Goes on with the count of the bytes moved, or ends with the error of the writer.
  abbrev pub after_chunk : Bool → S → ℕ → Option (Reply T ℕ) → (T → ℕ → Copy S T) → Copy S T
  after_chunk debug s transferred none continue = none
  after_chunk debug s transferred (some (ok (success n, t))) continue =
      counted (add_usize debug transferred n) (continue t)
  after_chunk debug s transferred (some (ok (failure e, t))) continue = some (ok (failure e, s, t))
  after_chunk debug s transferred (some panic) continue = some panic
  after_chunk debug s transferred (some undefined) continue = some undefined

module _ {S T : Type 0} (r : AsyncReadRent S) (w : AsyncWriteRent T) (debug : Bool)
    (write_fuel : ℕ) where
  -- An answer of the reader in the loop 'r
  after_read : Reply S (List ℕ) → T → ℕ → (S → T → ℕ → Copy S T) → Copy S T
  unfolding write_loop
  after_read (ok (success [], s)) t transferred continue = some (ok (success transferred, s, t))
  after_read (ok (success (b ∷ bs), s)) t transferred continue =
      after_chunk debug s transferred (write_loop w (suc write_fuel) write_fuel t (b ∷ bs))
        (λ t2 total. continue s t2 total)
  after_read (ok (failure e, s)) t transferred continue =
      if is_interrupted e then continue s t transferred else some (ok (failure e, s, t))
  after_read panic t transferred continue = some panic
  after_read undefined t transferred continue = some undefined

  -- The loop 'r
  copy_from : ℕ → S → T → ℕ → Copy S T
  unfolding after_read
  copy_from zero s t transferred = none
  copy_from (suc fuel) s t transferred =
      after_read (r.read s buf_size) t transferred (λ s2 t2 total. copy_from fuel s2 t2 total)

  unfoldable pub copy : ℕ → S → T → Copy S T
  unfolding copy_from
  copy fuel s t = copy_from fuel s t 0
