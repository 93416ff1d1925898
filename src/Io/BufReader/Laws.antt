-- ===== src/Io/BufReader/Laws.antt =====
-- The reads of a buffered reader, against those of the one inside.
use monoio.Prelude.{
  ℕ, ◌+◌, ◌^◌, ◌≤◌, ◌<◌, ◌≡◌, sym, ap, ◌∙◌, min, Bool, true, ◌&&◌, Bool-cases, inl, inr, Option,
  none, some, List, ◌++◌, append_assoc, length, length-take, take, drop, take-drop, length_zero,
  drop-drop, ◌==◌, lt→ltb, ltb, leb, ok, panic, undefined, ◌>>=◌, arith,
}
use monoio.Io.{success, failure, Reply, AsyncReadRent}
use monoio.Io.Stream.{Answer, ReadSpec}
use monoio.Io.BufReader.{BufReader, consume, fill_buf, bypassed, copy_out, read, reader}
use monoio.Io.BufReader.Filling.{
  unread, WellFormed, empty_unread, at, Valid, rest, Filled, fill_buf-Filled,
}

module _ {R : Type 0} {r : AsyncReadRent R} (spec : ReadSpec r) where
  copied-Answer :
      (debug : Bool) (n room : ℕ) (all : List ℕ) (inner : R) (obuf : Option (List ℕ)) (pos cap : ℕ)
      (available : List ℕ)
      → 0 < room
      → Filled spec all room
          (ok (success available, record { inner = inner; buf = obuf; pos = pos; cap = cap }))
      → Answer (Valid spec) (rest spec) all n (
          copy_out debug n
            (success available, record { inner = inner; buf = obuf; pos = pos; cap = cap }))
  unfolding copy_out consume
  copied-Answer debug n room all inner none pos cap available some_room f = absurd f.3.0
  copied-Answer debug n room all inner (some buf) pos cap available some_room
        (order, here, held, (w, valid), at_end, same_room) =
      rw (fits, to)
        (
          omega (arith, length-take amt available),
          order2,
          ((omega arith, w.1, w.2), valid),
          λ b none_left. at_end some_room (
              length_zero available
                (omega (arith, length-take amt available, ap length none_left))),
        )
    where
      amt : ℕ
      amt = min (length available) n

      fits : ltb (pos + amt) (2 ^ 64) ≡ true
      fits = lt→ltb (pos + amt) (2 ^ 64) (omega arith)

      to : min cap (pos + amt) ≡ pos + amt
      to = omega arith

      order2 : all ≡ take amt available ++ (drop (pos + amt) (take cap buf) ++ spec.rest inner)
      order2 =
          order
          ∙ ap (λ z. z ++ spec.rest inner) (here ∙ sym (take-drop amt available))
          ∙ append_assoc (take amt available) (drop amt available) (spec.rest inner)
          ∙ ap (λ z. take amt available ++ (z ++ spec.rest inner))
              (ap (drop amt) (sym here) ∙ drop-drop pos amt (take cap buf))

  copy_out-Answer :
      (debug : Bool) (n room : ℕ) (all : List ℕ) (x : Reply (BufReader R) (List ℕ))
      → 0 < room
      → Filled spec all room x
      → Answer (Valid spec) (rest spec) all n (x >>= copy_out debug n)
  unfolding copy_out
  copy_out-Answer debug n room all (ok (success available, b)) some_room f =
      copied-Answer debug n room all b.inner b.buf b.pos b.cap available some_room f
  copy_out-Answer debug n room all (ok (failure k, b)) some_room f = f.0
  copy_out-Answer debug n room all panic some_room bad = bad
  copy_out-Answer debug n room all undefined some_room bad = bad

  bypassed-Answer :
      (n : ℕ) (inner : R) (buf : List ℕ) (pos cap : ℕ) (x : Reply R (List ℕ))
      → length buf < 2 ^ 63
      → Answer spec.Valid spec.rest (spec.rest inner) n x
      → Answer (Valid spec) (rest spec) (spec.rest inner) n (x >>= bypassed (at inner buf pos cap))
  bypassed-Answer n inner buf pos cap (ok (success bs, s)) b (fits, order, valid, at_end) =
      (fits, order, ((omega arith, omega arith, b), valid), at_end)
  bypassed-Answer n inner buf pos cap (ok (failure k, s)) b (order, valid) =
      (order, ((omega arith, omega arith, b), valid))
  bypassed-Answer n inner buf pos cap panic b bad = bad
  bypassed-Answer n inner buf pos cap undefined b bad = bad

  read_at :
      (debug : Bool) (inner : R) (buf : List ℕ) (pos cap n : ℕ)
      → WellFormed (some buf) pos cap
      → spec.Valid inner
      → Answer
          (Valid spec)
          (rest spec)
          (unread (some buf) pos cap ++ spec.rest inner)
          n
          (read r debug (at inner buf pos cap) n)
  unfolding read
  read_at debug inner buf pos cap n (w0, w1, w2) valid =
      elim (Bool-cases (pos == cap && leb (length buf) n)) [
        | inl e ↦
            let stop : cap ≤ pos = ground arith in
            rw e (
              rw (empty_unread buf pos cap stop) (
                bypassed-Answer n inner buf pos cap (r.read inner n) w2
                  (spec.honest inner valid n)))
        | inr ne ↦
            let some_room : 0 < length buf = ground arith in
            rw ne (
              copy_out-Answer debug n (length buf) _ (fill_buf r (at inner buf pos cap)) some_room
                (fill_buf-Filled spec inner buf pos cap (w0, w1, w2) valid))
      ]

  read_any :
      (debug : Bool) (inner : R) (obuf : Option (List ℕ)) (pos cap n : ℕ)
      → WellFormed obuf pos cap
      → spec.Valid inner
      → Answer
          (Valid spec)
          (rest spec)
          (unread obuf pos cap ++ spec.rest inner)
          n
          (read r debug (record { inner = inner; buf = obuf; pos = pos; cap = cap }) n)
  read_any debug inner none pos cap n w valid = absurd w
  read_any debug inner (some buf) pos cap n w valid = read_at debug inner buf pos cap n w valid

  -- A buffered reader keeps the promises of a reader, where the bytes that it has to give are those
  -- in its buffer and then those of the reader inside, if that one keeps them and the positions are
  -- within a buffer that is there: it stays so, does not panic, and answers the next bytes.
  pub read-Answer_buffered :
      (debug : Bool) (b : BufReader R) (n : ℕ)
      → Valid spec b
      → Answer (Valid spec) (rest spec) (rest spec b) n (read r debug b n)
  read-Answer_buffered debug b n v = read_any debug b.inner b.buf b.pos b.cap n v.0 v.1

  abbrev pub buffered_spec : (debug : Bool) → ReadSpec (reader r debug)
  buffered_spec debug = record {
    Valid = Valid spec;
    rest = rest spec;
    honest = λ b v n. read-Answer_buffered debug b n v;
  }
