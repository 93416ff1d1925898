-- ===== src/Driver/SharedFd/Once.antt =====
-- How often the descriptor is closed or given back.
use monoio.Prelude.{
  ℕ, zero, suc, ◌+◌, ◌-◌, ◌≤◌, ◌<◌, ◌≡◌, refl, sym, ap, subst, ◌∙◌, Bool, true, false, ◌&&◌,
  Bool-cases, inl, inr, Option, none, some, List, [], ◌∷◌, ◌++◌, length, length-append, ◌==◌,
  ==_iff, arith,
}
use monoio.Driver.SharedFd.{
  init, waiting, closing, closed, uring_legacy, State, uring, legacy, SharedFd, submitted,
  inner_drop, settle, poll_closed, leave, poll, close, Event, clone, drop, unwrap, try_unwrap,
  close_event, poll_event, abandon, one_of, new, step, run,
}

-- A close is on its way, or done.
abbrev pub started : {W : Type 0} → State W → Bool
started (uring init) = false
started (uring (waiting w)) = false
started (uring closing) = true
started (uring closed) = true
started (uring (uring_legacy idx)) = false
started (legacy idx) = false

abbrev pub closes_of : Bool → ℕ
closes_of true = 1
closes_of false = 0

module _ {W : Type 0} (will_wake : W → W → Bool) where
  -- While the descriptor has an owner: a close is started only by the last one, it is closed so
  -- often as one is started, and it was not given back.
  abbrev Open : SharedFd W → Type 0
  Open s =
      (started s.state ≡ true → s.owners ≡ 0)
      × (length s.closes ≡ closes_of (started s.state))
      × (s.given ≡ 0)

  abbrev pub Once : SharedFd W → Type 0
  Once s =
      (0 < s.owners + s.closers → Open s)
      × (s.owners + s.closers ≡ 0 → length s.closes + s.given ≡ 1)

  inner_drop-closes :
      (ok : Bool) (st : State W) → closes_of (started st) + length (inner_drop ok st).0 ≡ 1
  inner_drop-closes ok (uring init) = omega arith
  inner_drop-closes ok (uring (waiting w)) = omega arith
  inner_drop-closes ok (uring closing) = omega arith
  inner_drop-closes ok (uring closed) = omega arith
  inner_drop-closes ok (uring (uring_legacy idx)) = omega arith
  inner_drop-closes ok (legacy idx) = omega arith

  settle-Once : (ok : Bool) (s : SharedFd W) → Open s → Once (settle ok s)
  settle-Once ok s (last, count, kept) = elim (Bool-cases (s.owners + s.closers == 0)) [
    | inl gone ↦
        let none_left : s.owners + s.closers ≡ 0 = (==_iff (s.owners + s.closers) 0).0 gone in
        rw gone (
          λ some_left. absurd (omega arith),
          λ e. omega (
            arith,
            length-append s.closes (inner_drop ok s.state).0,
            inner_drop-closes ok s.state,
          ),
        )
    | inr held ↦ rw held (λ some_left. (last, count, kept), λ e. absurd (ground arith))
  ]

  leave-Once :
      (over ok : Bool) (s : SharedFd W) → 0 < s.closers → Open s → Once (leave will_wake over ok s)
  leave-Once true ok s some_closer fine = settle-Once ok (record s { closers = s.closers - 1 }) fine
  leave-Once false ok s some_closer fine = (λ some_left. fine, λ e. absurd (omega arith))

  poll_closed-started :
      (done : Bool) (w : W) (st : State W)
      → started (poll_closed will_wake done w st).1 ≡ started st
  poll_closed-started done w (uring init) = refl
  poll_closed-started done w (uring (waiting none)) = refl
  poll_closed-started done w (uring (waiting (some v))) = refl
  poll_closed-started true w (uring closing) = refl
  poll_closed-started false w (uring closing) = refl
  poll_closed-started done w (uring closed) = refl
  poll_closed-started done w (uring (uring_legacy idx)) = refl
  poll_closed-started done w (legacy idx) = refl

  poll-Once :
      (done : Bool) (w : W) (ok : Bool) (s : SharedFd W)
      → 0 < s.closers
      → Open s
      → Once (poll will_wake done w ok s)
  poll-Once done w ok s some_closer (last, count, kept) =
      leave-Once (poll_closed will_wake done w s.state).0 ok
        (record s { state = (poll_closed will_wake done w s.state).1 }) some_closer
        (λ e. last (sym same ∙ e), count ∙ ap closes_of (sym same), kept)
    where
      same : started (poll_closed will_wake done w s.state).1 ≡ started s.state
      same = poll_closed-started done w s.state

  -- `close` by an owner, which has become a closer, where `Op::close` succeeds
  close-Once :
      (done : Bool) (w : W) (ok : Bool) (n k : ℕ) (st : State W) (s : SharedFd W)
      → s.closers ≡ suc k
      → s.state ≡ st
      → started st ≡ false
      → Open s
      → Once (close will_wake true done w ok st s)
  close-Once done w ok n k (legacy idx) s some_closer same idle fine =
      leave-Once true ok s (omega arith) fine
  close-Once done w ok n k (uring u) s some_closer same idle (last, count, kept) =
      elim (Bool-cases (s.owners + s.closers == 1)) [
        | inl alone ↦ rw alone (
            poll-Once done w ok
              (record s { state = uring closing; closes = s.closes ++ submitted ∷ [] })
              (omega arith)
              (
                λ e. ground arith,
                length-append s.closes (submitted ∷ [])
                    ∙ ap (λ z. z + 1) (count ∙ ap closes_of (ap started same ∙ idle)),
                kept,
              ))
        | inr shared ↦ rw shared (poll-Once done w ok s (omega arith) (last, count, kept))
      ]

  -- No `close` finds that its operation cannot be submitted.
  abbrev pub reliable : Event W → Bool
  reliable clone = true
  reliable (drop ok) = true
  reliable unwrap = true
  reliable (close_event submit done w ok) = submit
  reliable (poll_event done w ok) = true
  reliable (abandon ok) = true

  abbrev pub all_reliable : List (Event W) → Bool
  all_reliable [] = true
  all_reliable (e ∷ es) = reliable e && all_reliable es

  abbrev OnceIf : Option (SharedFd W) → Type 0
  OnceIf none = Unit {0}
  OnceIf (some s) = Once s

  one_of-OnceIf :
      (n : ℕ) (f : ℕ → SharedFd W) → ((k : ℕ) → n ≡ suc k → Once (f k)) → OnceIf (one_of n f)
  one_of-OnceIf zero f each = tt
  one_of-OnceIf (suc n) f each = each n refl

  -- Where an owner is left who is not closing, no close is started.
  idle : (s : SharedFd W) (n : ℕ) → s.owners ≡ suc n → Open s → started s.state ≡ false
  idle s n e (last, count, kept) = elim (Bool-cases (started s.state)) [
    | inl yes_started ↦ absurd (omega (arith, last yes_started))
    | inr not_started ↦ not_started
  ]

  unwrap-Once : (n : ℕ) (s : SharedFd W) → s.owners ≡ suc n → Once s → Once (try_unwrap n s)
  unwrap-Once n s e (held, gone) =
      let fine = held (omega arith) in
      let none_started = ap closes_of (idle s n e fine) in
      elim (Bool-cases (s.owners + s.closers == 1)) [
        | inl alone ↦
            let one : s.owners + s.closers ≡ 1 = (==_iff (s.owners + s.closers) 1).0 alone in
            rw alone (
              λ some_left. absurd (omega (arith, one)),
              λ none_left. omega (arith, fine.1, fine.2, none_started),
            )
        | inr shared ↦ rw shared (held, gone)
      ]

  step-OnceIf :
      (e : Event W) (s : SharedFd W) → reliable e ≡ true → Once s → OnceIf (step will_wake e s)
  unfolding step
  step-OnceIf clone s sure (held, gone) = one_of-OnceIf s.owners _ (λ n e.
      let fine = held (omega arith) in
      (
        λ some_left. (λ st. absurd (omega (arith, fine.0 st)), fine.1, fine.2),
        λ none_left. absurd (omega arith),
      ))
  step-OnceIf (drop ok) s sure (held, gone) = one_of-OnceIf s.owners _ (λ n e.
      let fine = held (omega arith) in
      settle-Once ok (record s { owners = n })
        (λ st. absurd (omega (arith, fine.0 st)), fine.1, fine.2))
  step-OnceIf unwrap s sure once = one_of-OnceIf s.owners _ (λ n e. unwrap-Once n s e once)
  step-OnceIf (close_event true done w ok) s sure (held, gone) = one_of-OnceIf s.owners _ (λ n e.
      let fine = held (omega arith) in
      close-Once done w ok n s.closers s.state (record s { owners = n; closers = s.closers + 1 })
        (omega arith) refl (idle s n e fine)
        (λ st. absurd (omega (arith, fine.0 st)), fine.1, fine.2))
  step-OnceIf (close_event false done w ok) s sure (held, gone) = absurd cc
  step-OnceIf (poll_event done w ok) s sure (held, gone) =
      one_of-OnceIf s.closers _ (λ k e. poll-Once done w ok s (omega arith) (held (omega arith)))
  step-OnceIf (abandon ok) s sure (held, gone) =
      one_of-OnceIf s.closers _
        (λ k e. settle-Once ok (record s { closers = k }) (held (omega arith)))

  after-OnceIf :
      (o : Option (SharedFd W)) (next : SharedFd W → Option (SharedFd W))
      → OnceIf o
      → ((s : SharedFd W) → Once s → OnceIf (next s))
      → OnceIf (elim o [ none ↦ none | some s ↦ next s ])
  after-OnceIf none next once each = tt
  after-OnceIf (some s) next once each = each s once

  run-OnceIf :
      (es : List (Event W)) (s : SharedFd W)
      → all_reliable es ≡ true
      → Once s
      → OnceIf (run will_wake es s)
  unfolding run
  run-OnceIf [] s sure fine = fine
  run-OnceIf (e ∷ es) s sure fine =
      after-OnceIf (step will_wake e s) (run will_wake es) (step-OnceIf e s (ground arith) fine)
        (λ s2 once. run-OnceIf es s2 (ground arith) once)

  Once-bound : (s : SharedFd W) → Once s → length s.closes + s.given ≤ 1
  Once-bound s (held, gone) = elim (Bool-cases (s.owners + s.closers == 0)) [
    | inl e ↦ omega (arith, gone ((==_iff (s.owners + s.closers) 0).0 e))
    | inr ne ↦
        let fine = held (ground arith) in omega (arith, fine.1, fine.2, bound (started s.state))
  ]
    where
      bound : (b : Bool) → closes_of b ≤ 1
      bound true = omega arith
      bound false = omega arith

  -- From one owner and no close started, whatever the owners of a descriptor do, in any order, among
  -- clones, drops, `try_unwrap`, `close` and the polls and drops of its future, where no `close` finds
  -- that its operation cannot be submitted: it is closed or given back at most once, not both, and
  -- exactly once when it has no owner left.
  pub run-Once :
      (es : List (Event W)) (st : State W) (s : SharedFd W)
      → started st ≡ false
      → all_reliable es ≡ true
      → run will_wake es (new st) ≡ some s
      → (length s.closes + s.given ≤ 1) × (s.owners + s.closers ≡ 0 → length s.closes + s.given ≡ 1)
  run-Once es st s fresh sure ran =
      let once = subst OnceIf ran (
        run-OnceIf es (new st) sure (
          λ some_left. (λ e. absurd cc, ap closes_of (sym fresh), refl),
          λ e. absurd (omega arith),
        )) in
      (Once-bound s once, once.1)
