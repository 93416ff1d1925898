-- ===== src/Io/BufReader/BufRead.antt =====
-- A buffered reader as a reader whose buffer is shown.
use monoio.Prelude.{
  ℕ, ◌+◌, ◌-◌, ◌^◌, ◌≤◌, ◌<◌, ◌≡◌, sym, ap, ◌∙◌, min, Bool, true, Bool-cases, inl, inr, Option,
  none, some, List, ◌++◌, append_assoc, length, length-append, length-take, length-drop, take, drop,
  take-drop, drop-drop, ltb, lt→ltb, ◌==◌, Outcome, ok, panic, undefined, add_usize, ◌>>=◌, arith,
}
use monoio.Io.{success, failure, Reply, AsyncReadRent}
use monoio.Io.Stream.{
  ReadSpec, ReadPatience, BufReadSpec, BufReadPatience, FillAnswer, ConsumeAnswer, Calm,
  CalmConsume,
}
use monoio.Io.BufReader.{BufReader, slice, consume, fill_buf, filled, buf_reader}
use monoio.Io.BufReader.Filling.{
  unread, capacity, WellFormed, slice_lem, at, Filled, fill_buf-Filled,
}
use monoio.Io.BufReader.Filling as Filling

module _ {R : Type 0} {r : AsyncReadRent R} (spec : ReadSpec r) where
  -- As for `read`, with a buffer that has room
  abbrev pub Valid : BufReader R → Type 0
  Valid b = Filling.Valid spec b × (0 < capacity b.buf)

  abbrev pub held : BufReader R → List ℕ
  held b = unread b.buf b.pos b.cap

  fill-Answer :
      (all : List ℕ) (room : ℕ) (x : Reply (BufReader R) (List ℕ))
      → 0 < room
      → Filled spec all room x
      → FillAnswer Valid (Filling.rest spec) held all x
  fill-Answer all room (ok (success available, b)) some_room
        (order, here, sum, valid, at_end, same_room) =
      (order, here, (valid, omega (arith, same_room)), at_end some_room)
  fill-Answer all room (ok (failure e, b)) some_room ((order, valid), same_room) =
      (order, (valid, omega (arith, same_room)))
  fill-Answer all room panic some_room bad = bad
  fill-Answer all room undefined some_room bad = bad

  pub fill_any :
      (inner : R) (obuf : Option (List ℕ)) (pos cap : ℕ)
      → WellFormed obuf pos cap
      → spec.Valid inner
      → 0 < capacity obuf
      → FillAnswer Valid
          (Filling.rest spec)
          held
          (unread obuf pos cap ++ spec.rest inner)
          (fill_buf r (record { inner = inner; buf = obuf; pos = pos; cap = cap }))
  fill_any inner none pos cap bad valid room = absurd bad
  fill_any inner (some buf) pos cap w valid room =
      fill-Answer _ (length buf) (fill_buf r (at inner buf pos cap)) room
        (fill_buf-Filled spec inner buf pos cap w valid)

  pub consume_any :
      (debug : Bool) (inner : R) (obuf : Option (List ℕ)) (pos cap n : ℕ)
      → WellFormed obuf pos cap
      → spec.Valid inner
      → 0 < capacity obuf
      → n ≤ length (unread obuf pos cap)
      → ConsumeAnswer Valid
          (Filling.rest spec)
          (unread obuf pos cap ++ spec.rest inner)
          (take n (unread obuf pos cap))
          (consume debug (record { inner = inner; buf = obuf; pos = pos; cap = cap }) n)
  unfolding consume
  consume_any debug inner none pos cap n bad valid room b = absurd bad
  consume_any debug inner (some buf) pos cap n (w0, w1, w2) valid room b =
      rw (fits, to) (order, (((omega (arith, size), w1, w2), valid), room))
    where
      size : length (drop pos (take cap buf)) ≡ cap - pos
      size = omega (arith, length-drop pos (take cap buf), length-take cap buf)

      fits : ltb (pos + n) (2 ^ 64) ≡ true
      fits = lt→ltb (pos + n) (2 ^ 64) (omega (arith, size))

      to : min cap (pos + n) ≡ pos + n
      to = omega (arith, size)

      order :
          drop pos (take cap buf) ++ spec.rest inner
          ≡ take n (drop pos (take cap buf)) ++ (drop (pos + n) (take cap buf) ++ spec.rest inner)
      order =
          ap (λ z. z ++ spec.rest inner) (sym (take-drop n (drop pos (take cap buf))))
          ∙ append_assoc (take n (drop pos (take cap buf))) (drop n (drop pos (take cap buf)))
              (spec.rest inner)
          ∙ ap (λ z. take n (drop pos (take cap buf)) ++ (z ++ spec.rest inner))
              (drop-drop pos n (take cap buf))

  -- `fill_buf` and `consume` keep the promises of a reader whose buffer is shown.
  abbrev pub buf_read_spec : (debug : Bool) → BufReadSpec (buf_reader r debug)
  buf_read_spec debug = record {
    Valid = Valid;
    rest = Filling.rest spec;
    held = held;
    honest_fill = λ b v. fill_any b.inner b.buf b.pos b.cap v.0.0 v.0.1 v.1;
    honest_consume = λ b n v le. consume_any debug b.inner b.buf b.pos b.cap n v.0.0 v.0.1 v.1 le;
  }

module _ {R : Type 0} {r : AsyncReadRent R} (p : ReadPatience r) where
  abbrev pub patience : BufReader R → ℕ
  patience b = p.patience b.inner

  filled-Calm :
      (b : BufReader R) (buf : List ℕ) (x : Reply R (List ℕ))
      → Calm p.patience (patience b) x
      → Calm patience (patience b) (x >>= filled b buf)
  unfolding filled
  filled-Calm b buf (ok (success bs, s)) calm =
      rw
        (slice_lem (bs ++ drop (length bs) buf) 0 (length bs) (omega arith)
          (omega (arith, length-append bs (drop (length bs) buf))))
        calm
  filled-Calm b buf (ok (failure e, s)) calm = calm
  filled-Calm b buf panic calm = tt
  filled-Calm b buf undefined calm = tt

  showing-Calm :
      (b : BufReader R) (x : Outcome (List ℕ))
      → Calm patience (patience b) (x >>= λ available. ok (success available, b))
  showing-Calm b (ok available) = omega arith
  showing-Calm b panic = tt
  showing-Calm b undefined = tt

  pub fill_buf-Calm :
      (inner : R) (obuf : Option (List ℕ)) (pos cap : ℕ)
      → Calm patience
          (p.patience inner)
          (fill_buf r (record { inner = inner; buf = obuf; pos = pos; cap = cap }))
  unfolding fill_buf
  fill_buf-Calm inner none pos cap = tt
  fill_buf-Calm inner (some buf) pos cap = elim (Bool-cases (pos == cap)) [
    | inl e ↦ rw e (
        filled-Calm (at inner buf pos cap) buf (r.read inner (length buf))
          (p.calm inner (length buf)))
    | inr ne ↦ rw ne (showing-Calm (at inner buf pos cap) (slice buf pos cap))
  ]

  moved-Calm :
      (b : BufReader R) (x : Outcome ℕ)
      → CalmConsume patience (patience b) (x >>= λ to. ok (record b { pos = min b.cap to }))
  moved-Calm b (ok to) = omega arith
  moved-Calm b panic = tt
  moved-Calm b undefined = tt

  pub consume-Calm :
      (debug : Bool) (b : BufReader R) (n : ℕ)
      → CalmConsume patience (patience b) (consume debug b n)
  unfolding consume
  consume-Calm debug b n = moved-Calm b (add_usize debug b.pos n)

  abbrev pub buf_read_patience : (debug : Bool) → BufReadPatience (buf_reader r debug)
  buf_read_patience debug = record {
    patience = patience;
    calm_fill = λ b. fill_buf-Calm b.inner b.buf b.pos b.cap;
    calm_consume = consume-Calm debug;
  }
