-- ===== src/Driver/Dispatch/Laws.antt =====
-- What a source of events does when it is polled and when mio reports an event of it.
use monoio.Prelude.{
  ℕ, bit_and, bit_or, ◌≡◌, refl, ap, ◌⊎◌, inl, inr, Bool, true, false, Bool-cases, if◌then◌else◌,
  Option, none, some, List, [], ◌∷◌, ◌++◌, ok,
}
use monoio.Slab.Inv.{Inv, view}
use monoio.Slab.Borrow.{Ends, written-Ends, get-some, get-none}
use monoio.Driver.Ready.{Direction, read, write, mask}
use monoio.Driver.Ready.Laws.{ready_for, is_readable_lem, is_writable_lem, mask_lem}
use monoio.Driver.Dispatch.{
  ScheduledIo, add_readiness, take_if, wake, renew, set_waker, poll_readiness, Sources, dispatch,
  dispatch_at,
}

module _ {W : Type 0} where
  -- The waker of a direction.
  abbrev pub slot : Direction → ScheduledIo W → Option W
  slot read io = io.reader
  slot write io = io.writer

  -- The waker of a direction that an event concerns is woken, and is not kept.
  abbrev pub heard : Bool → Option W → List W
  heard true (some w) = w ∷ []
  heard true none = []
  heard false o = []

  abbrev pub left : Bool → Option W → Option W
  left true o = none
  left false o = o

  -- Whom an event wakes: the reader for what concerns reading, then the writer.
  abbrev pub woken : ScheduledIo W → ℕ → List W
  woken io ready = heard (ready_for read ready) io.reader ++ heard (ready_for write ready) io.writer

  -- What an event leaves.
  abbrev pub notified : ScheduledIo W → ℕ → ScheduledIo W
  notified io ready = record {
    readiness = bit_or io.readiness ready;
    reader = left (ready_for read ready) io.reader;
    writer = left (ready_for write ready) io.writer;
  }

  take_if_lem : (c : Bool) (o : Option W) → take_if c o ≡ (heard c o, left c o)
  take_if_lem true (some w) = refl
  take_if_lem true none = refl
  take_if_lem false (some w) = refl
  take_if_lem false none = refl

  wake_lem :
      (io : ScheduledIo W) (ready : ℕ)
      → wake (add_readiness io ready) ready ≡ (woken io ready, notified io ready)
  unfolding wake
  wake_lem io ready = rw (
    is_readable_lem ready,
    is_writable_lem ready,
    take_if_lem (ready_for read ready) io.reader,
    take_if_lem (ready_for write ready) io.writer,
  )

  -- An event of a source that is registered adds to its readiness and wakes, once each, the waker
  -- of every direction that the event concerns; other sources keep their states.
  pub dispatch_lem :
      (debug : Bool) (s : Sources W) (token ready : ℕ) (io : ScheduledIo W)
      → Inv s
      → view s token ≡ some io
      → (end : Sources W) × (dispatch debug s token ready ≡ ok (woken io ready, end))
        × Ends s token (some (notified io ready)) end
  unfolding dispatch dispatch_at
  dispatch_lem debug s token ready io inv e =
      let (r, got, b) = get-some debug s token io inv e in
      (
        b.written (notified io ready),
        rw (got, b.reads, wake_lem io ready, b.writes),
        written-Ends debug s token r io (notified io ready) b,
      )

  -- An event of a token that is not registered any more does nothing.
  pub dispatch-none :
      (debug : Bool) (s : Sources W) (token ready : ℕ)
      → Inv s
      → view s token ≡ none
      → dispatch debug s token ready ≡ ok ([], s)
  unfolding dispatch dispatch_at
  dispatch-none debug s token ready inv e = rw (get-none debug s token inv e)

  module _ (will_wake : W → W → Bool) (cx : W) where
    -- The waker that a poll leaves: the one there, if it wakes the same task, and else its own.
    abbrev pub kept : Option W → W
    kept none = cx
    kept (some w) = if will_wake w cx then w else cx

    -- A source that a poll left pending, with the readiness `ready`.
    abbrev pub parked : ScheduledIo W → Direction → ℕ → ScheduledIo W
    parked io read ready = record {
      readiness = ready;
      reader = some (kept io.reader);
      writer = io.writer;
    }
    parked io write ready = record {
      readiness = ready;
      reader = io.reader;
      writer = some (kept io.writer);
    }

    renew-kept : (o : Option W) → renew will_wake cx o ≡ kept o
    renew-kept none = refl
    renew-kept (some w) = refl

    pub set_waker_lem :
        (io : ScheduledIo W) (d : Direction)
        → set_waker will_wake cx io d ≡ parked io d io.readiness
    set_waker_lem io read = ap (λ w. record io { reader = some w }) (renew-kept io.reader)
    set_waker_lem io write = ap (λ w. record io { writer = some w }) (renew-kept io.writer)

    pub poll_readiness_lem :
        (io : ScheduledIo W) (d : Direction)
        → poll_readiness will_wake cx io d ≡ (
            if ready_for d io.readiness
            then (some (bit_and (mask d) io.readiness), io)
            else (none, parked io d io.readiness))
    unfolding poll_readiness
    poll_readiness_lem io d = rw (mask_lem d io.readiness, set_waker_lem io d)

    -- A source that waits for a direction: with the waker of the last poll, or one that wakes the
    -- same task, and with no readiness left that this poll has not seen.
    pub record Waits (d : Direction) (io : ScheduledIo W) : Type 0 where
      pub waker : W
      pub registered : slot d io ≡ some waker
      pub same_task : (waker ≡ cx) ⊎ (will_wake waker cx ≡ true)
      pub nothing_ready : ready_for d io.readiness ≡ false

    kept_lem : (o : Option W) → (kept o ≡ cx) ⊎ (will_wake (kept o) cx ≡ true)
    kept_lem none = inl refl
    kept_lem (some w) = elim (Bool-cases (will_wake w cx)) [
      | inl same ↦ inr (rw same same)
      | inr other ↦ inl (rw other)
    ]

    pub parked-Waits :
        (io : ScheduledIo W) (d : Direction) (ready : ℕ)
        → ready_for d ready ≡ false
        → Waits d (parked io d ready)
    parked-Waits io read ready e = record {
      waker = kept io.reader;
      registered = refl;
      same_task = kept_lem io.reader;
      nothing_ready = e;
    }
    parked-Waits io write ready e = record {
      waker = kept io.writer;
      registered = refl;
      same_task = kept_lem io.writer;
      nothing_ready = e;
    }
