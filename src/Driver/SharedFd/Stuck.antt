-- ===== src/Driver/SharedFd/Stuck.antt =====
-- A `close` that finds another owner.
use monoio.Prelude.{
  ℕ, zero, suc, ◌+◌, ◌≤◌, ◌<◌, ◌≡◌, refl, sym, ap, subst, Bool, true, false, ◌&&◌, Option, none,
  some, List, [], ◌∷◌, ◌==◌, arith,
}
use monoio.Driver.SharedFd.{
  init, waiting, closing, closed, uring_legacy, State, uring, legacy, SharedFd, Close, settle,
  poll_closed, leave, poll, close, one_of, Event, clone, drop, unwrap, try_unwrap, close_event,
  poll_event, abandon, step, run,
}

abbrev pub waits : {W : Type 0} → State W → Bool
waits (uring init) = true
waits (uring (waiting w)) = true
waits (uring closing) = false
waits (uring closed) = false
waits (uring (uring_legacy idx)) = false
waits (legacy idx) = false

module _ {W : Type 0} (will_wake : W → W → Bool) where
  abbrev stays : Event W → Bool
  stays clone = true
  stays (drop ok) = true
  stays unwrap = true
  stays (close_event submit done w ok) = true
  stays (poll_event done w ok) = true
  stays (abandon ok) = false

  -- No future of a `close` is dropped.
  abbrev pub all_stay : List (Event W) → Bool
  all_stay [] = true
  all_stay (e ∷ es) = stays e && all_stay es

  -- So many closers wait, and the descriptor was closed in these ways.
  abbrev pub Pending : ℕ → List Close → SharedFd W → Type 0
  Pending k cs s = (waits s.state ≡ true) × (k ≤ s.closers) × (s.closes ≡ cs)

  abbrev PendingIf : ℕ → List Close → Option (SharedFd W) → Type 0
  PendingIf k cs none = Unit {0}
  PendingIf k cs (some s) = Pending k cs s

  poll_closed-waits :
      (done : Bool) (w : W) (st : State W)
      → waits st ≡ true
      → ((poll_closed will_wake done w st).0 ≡ false)
        × (waits (poll_closed will_wake done w st).1 ≡ true)
  poll_closed-waits done w (uring init) e = (refl, refl)
  poll_closed-waits done w (uring (waiting none)) e = (refl, refl)
  poll_closed-waits done w (uring (waiting (some v))) e = (refl, refl)
  poll_closed-waits done w (uring closing) e = absurd cc
  poll_closed-waits done w (uring closed) e = absurd cc
  poll_closed-waits done w (uring (uring_legacy idx)) e = absurd cc
  poll_closed-waits done w (legacy idx) e = absurd cc

  module _ (k : ℕ) (cs : List Close) (some_closer : 0 < k) where
    poll-Pending :
        (done : Bool) (w : W) (ok : Bool) (s : SharedFd W)
        → Pending k cs s
        → Pending k cs (poll will_wake done w ok s)
    poll-Pending done w ok s (waiting_on, many, same) =
        let (not_done, still) = poll_closed-waits done w s.state waiting_on in
        subst
          (λ b.
            Pending k cs (
              leave will_wake b ok (record s { state = (poll_closed will_wake done w s.state).1 })))
          (sym not_done) (still, many, same)

    settle-Pending : (ok : Bool) (s : SharedFd W) → Pending k cs s → Pending k cs (settle ok s)
    settle-Pending ok s (waiting_on, many, same) =
        let held : (s.owners + s.closers == 0) ≡ false = ground arith in
        rw held (waiting_on, many, same)

    close-Pending :
        (submit done : Bool) (w : W) (ok : Bool) (st : State W) (s : SharedFd W)
        → s.state ≡ st
        → 1 < s.closers
        → Pending k cs s
        → Pending k cs (close will_wake submit done w ok st s)
    close-Pending submit done w ok (uring u) s e more fine =
        let shared : (s.owners + s.closers == 1) ≡ false = ground arith in
        rw shared (poll-Pending done w ok s fine)
    close-Pending submit done w ok (legacy idx) s e more fine = absurd (cc (ap waits e, fine.0))

    unwrap-Pending :
        (n : ℕ) (s : SharedFd W) → s.owners ≡ suc n → Pending k cs s → Pending k cs (try_unwrap n s)
    unwrap-Pending n s e (waiting_on, many, same) =
        let held : (s.owners + s.closers == 1) ≡ false = ground arith in
        rw held (waiting_on, many, same)

    one_of-PendingIf :
        (n : ℕ) (f : ℕ → SharedFd W)
        → ((j : ℕ) → n ≡ suc j → Pending k cs (f j))
        → PendingIf k cs (one_of n f)
    one_of-PendingIf zero f each = tt
    one_of-PendingIf (suc n) f each = each n refl

    step-PendingIf :
        (e : Event W) (s : SharedFd W)
        → stays e ≡ true
        → Pending k cs s
        → PendingIf k cs (step will_wake e s)
    unfolding step
    step-PendingIf clone s st fine = one_of-PendingIf s.owners _ (λ n e. fine)
    step-PendingIf (drop ok) s st fine =
        one_of-PendingIf s.owners _ (λ n e. settle-Pending ok (record s { owners = n }) fine)
    step-PendingIf unwrap s st fine = one_of-PendingIf s.owners _ (λ n e. unwrap-Pending n s e fine)
    step-PendingIf (close_event submit done w ok) s st (waiting_on, many, same) =
        one_of-PendingIf s.owners _ (λ n e.
          close-Pending submit done w ok s.state (record s { owners = n; closers = s.closers + 1 })
            refl (omega arith) (waiting_on, omega arith, same))
    step-PendingIf (poll_event done w ok) s st fine =
        one_of-PendingIf s.closers _ (λ n e. poll-Pending done w ok s fine)
    step-PendingIf (abandon ok) s st fine = absurd cc

    after-PendingIf :
        (o : Option (SharedFd W)) (next : SharedFd W → Option (SharedFd W))
        → PendingIf k cs o
        → ((s : SharedFd W) → Pending k cs s → PendingIf k cs (next s))
        → PendingIf k cs (elim o [ none ↦ none | some s ↦ next s ])
    after-PendingIf none next fine each = tt
    after-PendingIf (some s) next fine each = each s fine

    run-PendingIf :
        (es : List (Event W)) (s : SharedFd W)
        → all_stay es ≡ true
        → Pending k cs s
        → PendingIf k cs (run will_wake es s)
    unfolding run
    run-PendingIf [] s st fine = fine
    run-PendingIf (e ∷ es) s st fine =
        after-PendingIf (step will_wake e s) (run will_wake es)
          (step-PendingIf e s (ground arith) fine)
          (λ s2 fine2. run-PendingIf es s2 (ground arith) fine2)

    -- Where k futures of a `close` wait for the other owners, then, as long as none of them is dropped,
    -- whatever the owners do and even if all the others are gone: at least so many still wait when
    -- they are polled, and the descriptor is not closed.
    pub run-Pending :
        (es : List (Event W)) (s s2 : SharedFd W)
        → all_stay es ≡ true
        → Pending k cs s
        → run will_wake es s ≡ some s2
        → Pending k cs s2
    run-Pending es s s2 st fine ran = subst (PendingIf k cs) ran (run-PendingIf es s st fine)
