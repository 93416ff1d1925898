-- ===== src/Driver/Dispatch/Legacy.antt =====
-- What polls of an operation on a source answer, and that no event after a pending poll is lost.
use mathlib.Core.List.{Mem, mem-append_left, mem-append_right, mem-cons_self}
use monoio.Prelude.{
  ℕ, ◌≡◌, refl, sym, ap, ◌∙◌, ◌⊎◌, inl, inr, Bool, true, false, ◌||◌, Bool-cases, ==_refl,
  if◌then◌else◌, Option, none, some, List, [], Outcome, ok, ok_injective, ◌>>=◌,
}
use mathlib.Core.Path.{subst}
use monoio.Slab.{Ref, get, assign}
use monoio.Slab.Inv.{Inv, view}
use monoio.Slab.Borrow.{Ends, same-Ends, written-Ends, get-some, Borrowed}
use monoio.Driver.Lifecycle.{CompletionMeta, success, failure}
use monoio.Driver.Ready.{Direction, read, write, mask}
use monoio.Driver.Ready.Laws.{
  ready_for, ready_for-or, ready_for-without, cancelled, is_canceled_lem, forget, uncancel,
  without-mask, without-canceled,
}
use monoio.Driver.Dispatch.{
  ScheduledIo, clear_readiness, poll_readiness, Sources, Syscall, done, would_block, fails, meta,
  legacy_poll_op, legacy_if, try_syscall, poll_syscall, syscall_if, dispatch,
}
use monoio.Driver.Dispatch.Laws.{
  slot, woken, notified, dispatch_lem, poll_readiness_lem, Waits, parked-Waits, heard, parked,
  set_waker_lem,
}

or_true : (a b : Bool) → b ≡ true → (a || b) ≡ true
or_true true b e = refl
or_true false b e = e

-- The waker of a direction is among those that an event of the direction wakes.
woken-Mem :
    {W : Type 0} (d : Direction) (io : ScheduledIo W) (ready : ℕ) (w : W)
    → slot d io ≡ some w
    → ready_for d ready ≡ true
    → Mem w (woken io ready)
woken-Mem read io ready w e r =
    rw (r, e) (mem-append_left (heard (ready_for write ready) io.writer) (mem-cons_self {l = []}))
woken-Mem write io ready w e r =
    rw (r, e) (mem-append_right (heard (ready_for read ready) io.reader) (mem-cons_self {l = []}))

module _ {W : Type 0} (will_wake : W → W → Bool) (cx : W) (d : Direction) (out : Syscall) where
  -- What trying the system call answers, and the source after it.
  abbrev pub tried : Syscall → ScheduledIo W → Option CompletionMeta × ScheduledIo W
  tried (done fd) io = (some (meta (success fd)), io)
  tried (fails e) io = (some (meta (failure e)), io)
  tried would_block io = (none, parked will_wake cx io d (forget d io.readiness))

  -- Error 125 is `ECANCELED`.
  abbrev pub answer : ScheduledIo W → Option CompletionMeta × ScheduledIo W
  answer io =
      if ready_for d io.readiness
      then (if cancelled d io.readiness
          then (
            some (meta (failure 125)),
            record { readiness = uncancel d io.readiness; reader = io.reader; writer = io.writer },
          )
          else tried out io)
      else (none, parked will_wake cx io d io.readiness)

  -- What a poll leaves does not depend on the readiness before it.
  again :
      (io : ScheduledIo W) (r : ℕ) (d2 : Direction)
      → parked will_wake cx (record io { readiness = r }) d2 r ≡ parked will_wake cx io d2 r
  again io r read = refl
  again io r write = refl

  module _ (debug : Bool) (s : Sources W) (index : ℕ) (io : ScheduledIo W) (inv : Inv s)
      (e : view s index ≡ some io) where
    found : (r : Ref) × (get debug s index ≡ ok (some r)) × Borrowed debug s index r io
    found = get-some debug s index io inv e

    abbrev pub Result :
        Option CompletionMeta × ScheduledIo W → Outcome (Option CompletionMeta × Sources W) → Type 0
    Result a code = (end : Sources W) × (code ≡ ok (a.0, end)) × Ends s index (some a.1) end

    stores :
        (a : Option CompletionMeta) (x : ScheduledIo W)
        → Result (a, x) (assign s found.0 x >>= λ end. ok (a, end))
    stores a x =
        (found.2.written x, rw found.2.writes, written-Ends debug s index found.0 io x found.2)

    try_lem :
        (o : Syscall) → Result (tried o io) (try_syscall debug s will_wake cx d out found.0 io o)
    unfolding try_syscall
    try_lem (done fd) = (s, refl, same-Ends s index (some io) inv e)
    try_lem (fails code) = (s, refl, same-Ends s index (some io) inv e)
    try_lem would_block =
        rw
          (
            set_waker_lem will_wake cx (clear_readiness io (mask d)) d,
            without-mask d io.readiness,
            again io (forget d io.readiness) d,
          )
          (stores none (parked will_wake cx io d (forget d io.readiness)))

    legacy_if_lem :
        Result
          (answer io)
          (legacy_if debug s will_wake cx d out found.0 io (poll_readiness will_wake cx io d))
    unfolding legacy_if
    legacy_if_lem =
        rw (poll_readiness_lem will_wake cx io d) (elim (Bool-cases (ready_for d io.readiness)) [
          | inl ready ↦ elim (Bool-cases (cancelled d io.readiness)) [
            | inl gone ↦
                rw
                  (
                    ready,
                    is_canceled_lem d io.readiness,
                    gone,
                    without-canceled d io.readiness gone,
                  )
                  (stores (some (meta (failure 125)))
                    (record io { readiness = uncancel d io.readiness }))
            | inr on ↦ rw (ready, is_canceled_lem d io.readiness, on) (try_lem out)
          ]
          | inr quiet ↦ rw quiet (stores none (parked will_wake cx io d io.readiness))
        ])

    -- A poll of an operation on a registered source tries the system call exactly when some bit of
    -- its direction is set and the direction is not cancelled; a cancellation is answered with
    -- `ECANCELED` and forgotten; a poll that is pending, also after a call that would block, has
    -- stored the waker. Other sources keep their states.
    pub legacy_poll_op_lem : Result (answer io) (legacy_poll_op debug s will_wake cx d out index)
    unfolding legacy_poll_op
    legacy_poll_op_lem = rw (found.1, found.2.reads) legacy_if_lem

    -- The same for the poller that does not look at cancellations.
    pub poll_syscall_lem :
        Result
          (if ready_for d io.readiness
            then tried out io
            else (none, parked will_wake cx io d io.readiness))
          (poll_syscall debug s will_wake cx d out index)
    unfolding poll_syscall syscall_if
    poll_syscall_lem =
        rw (found.1, found.2.reads, poll_readiness_lem will_wake cx io d)
          (elim (Bool-cases (ready_for d io.readiness)) [
            | inl ready ↦ rw ready (try_lem out)
            | inr quiet ↦ rw quiet (stores none (parked will_wake cx io d io.readiness))
          ])

  tried-Waits :
      (o : Syscall) (io : ScheduledIo W)
      → (tried o io).0 ≡ none
      → Waits will_wake cx d (tried o io).1
  tried-Waits (done fd) io e = cc
  tried-Waits (fails code) io e = cc
  tried-Waits would_block io e =
      parked-Waits will_wake cx io d (forget d io.readiness)
        (ap (ready_for d) (sym (without-mask d io.readiness)) ∙ ready_for-without d io.readiness)

  -- After a pending poll the source waits.
  answer-Waits : (io : ScheduledIo W) → (answer io).0 ≡ none → Waits will_wake cx d (answer io).1
  answer-Waits io e = elim (Bool-cases (ready_for d io.readiness)) [
    | inl ready ↦ elim (Bool-cases (cancelled d io.readiness)) [
      | inl gone ↦ let no_answer = rw (ready, gone) at e in cc
      | inr on ↦ let e2 = rw (ready, on) at e in rw (ready, on) (tried-Waits out io e2)
    ]
    | inr quiet ↦ rw quiet (parked-Waits will_wake cx io d io.readiness quiet)
  ]

  -- An event that concerns the direction of a poll that was pending is not lost: dispatching it
  -- wakes the waker of that poll, or one that wakes the same task, and leaves the source ready, so
  -- that the next poll tries the system call or reports the cancellation.
  pub legacy_poll_op-dispatch :
      (debug : Bool) (s : Sources W) (index ready : ℕ) (io : ScheduledIo W) (mid : Sources W)
      → Inv s
      → view s index ≡ some io
      → legacy_poll_op debug s will_wake cx d out index ≡ ok (none, mid)
      → ready_for d ready ≡ true
      → (w : W) × (ws : List W) × (end : Sources W) × (after : ScheduledIo W) × (dispatch debug mid
            index ready
          ≡ ok (ws, end))
        × Mem w ws
        × ((w ≡ cx) ⊎ (will_wake w cx ≡ true))
        × Inv end
        × (view end index ≡ some after)
        × (ready_for d after.readiness ≡ true)
  legacy_poll_op-dispatch debug s index ready io mid inv e pending concerns =
      let (end1, polled, ends1) = legacy_poll_op_lem debug s index io inv e in
      let same : ((answer io).0, end1) ≡ (none, mid) = ok_injective (sym polled ∙ pending) in
      let waits = answer-Waits io (ap (λ x. x.0) same) in
      let valid : Inv mid = subst Inv (ap (λ x. x.1) same) ends1.valid in
      let held : view mid index ≡ some (answer io).1 =
        subst (λ x. view x index ≡ some (answer io).1) (ap (λ x. x.1) same)
          (ends1.now index ∙ rw (==_refl index)) in
      let (end2, sent, ends2) = dispatch_lem debug mid index ready (answer io).1 valid held in
      (
        waits.waker,
        woken (answer io).1 ready,
        end2,
        notified (answer io).1 ready,
        sent,
        woken-Mem d (answer io).1 ready waits.waker waits.registered concerns,
        waits.same_task,
        ends2.valid,
        ends2.now index ∙ rw (==_refl index),
        ready_for-or d (answer io).1.readiness ready
            ∙ or_true (ready_for d (answer io).1.readiness) (ready_for d ready) concerns,
      )
