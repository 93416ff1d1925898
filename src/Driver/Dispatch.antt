-- ===== src/Driver/Dispatch.antt =====
-- monoio/src/driver/scheduled_io.rs, monoio/src/driver/poll.rs and the poller of
-- monoio/src/driver/legacy/mod.rs: sources of events wait in the slab until mio reports them. mio
-- is an argument: its events, whether it takes a registration, and what a system call answers.
-- `W` is the type of wakers; `none` for an answer is `Poll::Pending`.
pub mod Laws
pub mod Legacy
mod Tests
use monoio.Prelude.{
  ℕ, ◌-◌, ◌^◌, bit_and, bit_or, Bool, true, false, not, ◌==◌, if◌then◌else◌, Option, none, some,
  List, [], ◌∷◌, ◌++◌, Outcome, ok, panic, ◌>>=◌,
}
use monoio.Slab.{Slab, Ref, deref, assign, get, insert, remove}
use monoio.Driver.Lifecycle.{MaybeFd, CompletionMeta, IoResult, success, failure}
use monoio.Driver.Ready.{
  empty, writable, read_canceled, write_canceled, canceled, without, is_empty, is_readable,
  is_writable, is_canceled, Event, from_mio, Direction, read, write, mask,
}

pub record ScheduledIo (W : Type 0) : Type 0 where
  pub readiness : ℕ
  pub reader : Option W
  pub writer : Option W

module _ {W : Type 0} where
  -- `ScheduledIo::new`
  abbrev pub fresh : ScheduledIo W
  fresh = record { readiness = empty; reader = none; writer = none }

  -- `set_readiness(|curr| curr | ready)`
  abbrev pub add_readiness : ScheduledIo W → ℕ → ScheduledIo W
  add_readiness io ready = record io { readiness = bit_or io.readiness ready }

  abbrev pub clear_readiness : ScheduledIo W → ℕ → ScheduledIo W
  clear_readiness io ready = record io { readiness = without io.readiness ready }

  -- The waker that is taken and woken if there is one, and what stays.
  abbrev pub take_if : Bool → Option W → List W × Option W
  take_if true (some w) = (w ∷ [], none)
  take_if true none = ([], none)
  take_if false slot = ([], slot)

  unfoldable pub wake : ScheduledIo W → ℕ → List W × ScheduledIo W
  wake io ready =
      let r = take_if (is_readable ready) io.reader in
      let w = take_if (is_writable ready) io.writer in
      (r.0 ++ w.0, record io { reader = r.1; writer = w.1 })

  module _ (will_wake : W → W → Bool) (cx : W) where
    abbrev pub renew : Option W → W
    renew none = cx
    renew (some existing) = if will_wake existing cx then existing else cx

    abbrev pub set_waker : ScheduledIo W → Direction → ScheduledIo W
    set_waker io read = record io { reader = some (renew io.reader) }
    set_waker io write = record io { writer = some (renew io.writer) }

    unfoldable pub poll_readiness : ScheduledIo W → Direction → Option ℕ × ScheduledIo W
    poll_readiness io d =
        let ready = bit_and (mask d) io.readiness in
        if not (is_empty ready) then (some ready, io) else (none, set_waker io d)

abbrev pub Sources : Type 0 → Type 0
Sources W = Slab (ScheduledIo W)

-- What a system call answers when it is tried.
pub data Syscall : Type 0 where
  done : MaybeFd → Syscall
  would_block : Syscall
  fails : ℕ → Syscall

abbrev pub meta : IoResult MaybeFd → CompletionMeta
meta result = record { result = result; flags = 0 }

module _ {W : Type 0} (debug : Bool) (s : Sources W) where
  dispatch_at : ℕ → Option Ref → Outcome (List W × Sources W)
  dispatch_at ready none = ok ([], s)
  dispatch_at ready (some r) = do
    io ← deref s r
    end ← assign s r (wake (add_readiness io ready) ready).1
    ok ((wake (add_readiness io ready) ready).0, end)

  -- One event: `dispatch` of `LegacyInner`, and the body of the loop of `Poll::tick`.
  unfoldable pub dispatch : ℕ → ℕ → Outcome (List W × Sources W)
  unfolding dispatch_at
  dispatch token ready = get debug s token >>= dispatch_at ready

  -- `register`, when mio answers `accepted`.
  unfoldable pub register : Bool → Outcome (Option ℕ × Sources W)
  register accepted = do
    x ← insert debug s fresh
    elim accepted [
      | true ↦ ok (some x.0, x.1)
      | false ↦ (remove debug x.1 x.0 >>= λ y. ok (none, y.1))
    ]

  unfoldable pub deregister : ℕ → Bool → Outcome (Sources W)
  deregister token false = ok s
  deregister token true = do x ← remove debug s token; ok x.1

  -- `expect`
  abbrev pub expect : Option Ref → Outcome Ref
  expect none = panic
  expect (some r) = ok r

  module _ (will_wake : W → W → Bool) (cx : W) (d : Direction) (out : Syscall) where
    -- The system call of a source that is ready, and what its answer does.
    try_syscall : Ref → ScheduledIo W → Syscall → Outcome (Option CompletionMeta × Sources W)
    try_syscall r io (done fd) = ok (some (meta (success fd)), s)
    try_syscall r io (fails e) = ok (some (meta (failure e)), s)
    try_syscall r io would_block = do
      end ← assign s r (set_waker will_wake cx (clear_readiness io (mask d)) d)
      ok (none, end)

    syscall_if :
        Ref → ScheduledIo W → Option ℕ × ScheduledIo W → Outcome (Option CompletionMeta × Sources W)
    syscall_if r io (none, next) = do end ← assign s r next; ok (none, end)
    syscall_if r io (some ready, next) = try_syscall r io out

    -- `Poll::poll_syscall`
    unfoldable pub poll_syscall : ℕ → Outcome (Option CompletionMeta × Sources W)
    unfolding syscall_if try_syscall
    poll_syscall token = do
      found ← get debug s token
      r ← expect found
      io ← deref s r
      syscall_if r io (poll_readiness will_wake cx io d)

    legacy_if :
        Ref → ScheduledIo W → Option ℕ × ScheduledIo W → Outcome (Option CompletionMeta × Sources W)
    legacy_if r io (none, next) = do end ← assign s r next; ok (none, end)
    legacy_if r io (some ready, next) =
        if is_canceled ready
        then (do
          end ← assign s r (clear_readiness io (bit_and ready canceled))
          ok (some (meta (failure 125)), end))
        else try_syscall r io out

    -- `LegacyInner::poll_op` of an operation that waits for readiness
    unfoldable pub legacy_poll_op : ℕ → Outcome (Option CompletionMeta × Sources W)
    unfolding legacy_if try_syscall
    legacy_poll_op index = do
      found ← get debug s index
      r ← expect found
      io ← deref s r
      legacy_if r io (poll_readiness will_wake cx io d)

  abbrev pub cancels : Direction → ℕ
  cancels read = read_canceled
  cancels write = write_canceled

  -- `LegacyInner::cancel_op`
  unfoldable pub cancel_op : ℕ → Direction → Outcome (List W × Sources W)
  cancel_op index d = dispatch index (cancels d)

-- `Poll::tick`, on the events that mio gives.
unfoldable pub tick :
    {W : Type 0} → Bool → Sources W → List (ℕ × Event) → Outcome (List W × Sources W)
tick debug s [] = ok ([], s)
tick debug s ((token, event) ∷ events) = do
  x ← dispatch debug s token (from_mio event)
  y ← tick debug x.1 events
  ok (x.0 ++ y.0, y.1)
