-- ===== src/Driver/Lifecycle.antt =====
-- monoio/src/driver/uring/lifecycle.rs: the state of one io_uring operation, which lives in a slot
-- of the driver's slab, and the methods of monoio/src/driver/uring/mod.rs that look the slot up.
-- `W` is the type of wakers, and `D` that of the data that a dropped operation leaves to the driver.
-- A method answers also what it does outside the slab: the waker that it wakes, and the file
-- descriptor that dropping a `MaybeFd` closes.
pub mod Spec
pub mod Refine
pub mod Future
pub mod Run
mod Tests
use monoio.Prelude.{
  ℕ, ◌-◌, ◌^◌, bit_and, Bool, true, false, not, ◌==◌, if◌then◌else◌, Option, none, some, Outcome,
  ok, panic, unwrap, ◌>>=◌,
}
use monoio.Slab.{Slab, Ref, deref, assign, take, get, insert}

abbrev pub cqe_f_more : ℕ
cqe_f_more = 2

abbrev pub cqe_f_notif : ℕ
cqe_f_notif = 8

-- `flags & flag != 0`
abbrev pub has_flag : ℕ → ℕ → Bool
has_flag flags flag = not (bit_and flags flag == 0)

-- `flags & !IORING_CQE_F_MORE`, on 32 bits
abbrev pub clear_more : ℕ → ℕ
clear_more flags = bit_and flags (2 ^ 32 - 1 - cqe_f_more)

-- `io::Result`, with the raw error code of an error.
pub data IoResult (A : Type 0) : Type 0 where
  success : A → IoResult A
  failure : ℕ → IoResult A

pub record MaybeFd : Type 0 where
  pub is_fd : Bool
  pub fd : ℕ

-- `MaybeFd::new_result`
abbrev pub new_result : Bool → IoResult ℕ → IoResult MaybeFd
new_result is_fd (success fd) = success (record { is_fd = is_fd; fd = fd })
new_result is_fd (failure e) = failure e

-- What dropping a result closes: `drop` of `MaybeFd`.
abbrev pub close : IoResult MaybeFd → Option ℕ
close (success m) = if m.is_fd then some m.fd else none
close (failure e) = none

pub data Lifecycle (W D : Type 0) : Type 0 where
  submitted : Lifecycle W D
  waiting : W → Lifecycle W D
  ignored : Option D → Lifecycle W D
  completed : IoResult MaybeFd → ℕ → Lifecycle W D
  completed_more : IoResult MaybeFd → ℕ → Lifecycle W D
  waiting_more : W → IoResult MaybeFd → ℕ → Lifecycle W D
  ignored_more : Option D → Lifecycle W D

pub record MaybeFdLifecycle (W D : Type 0) : Type 0 where
  pub is_fd : Bool
  pub lifecycle : Lifecycle W D

abbrev pub Ops : Type 0 → Type 0 → Type 0
Ops W D = Slab (MaybeFdLifecycle W D)

pub record CompletionMeta : Type 0 where
  pub result : IoResult MaybeFd
  pub flags : ℕ

pub record Effects (W : Type 0) : Type 0 where
  pub woken : Option W
  pub closed : Option ℕ

pub data Poll : Type 0 where
  pending : Poll
  ready : CompletionMeta → Poll

-- What `drop_op` answers, and what it leaves in its argument.
pub record Dropped (D : Type 0) : Type 0 where
  pub finished : Bool
  pub data_left : Option D
  pub closed : Option ℕ

module _ {W D : Type 0} (debug : Bool) (s : Ops W D) (r : Ref) where
  -- `*ref_mut = lifecycle`
  abbrev pub become : MaybeFdLifecycle W D → Lifecycle W D → Outcome (Ops W D)
  become op l = assign s r (record op { lifecycle = l })

  abbrev pub drop_slot : Outcome (Ops W D)
  drop_slot = do x ← take debug s r; ok x.1

  -- The three parts of `complete`: a notification, a first completion of two, and a sole one.
  complete_notif : MaybeFdLifecycle W D → Lifecycle W D → Outcome (Effects W × Ops W D)
  complete_notif op (completed_more result flags) = do
    end ← become op (completed result (clear_more flags))
    ok (record { woken = none; closed = none }, end)
  complete_notif op (waiting_more waker result flags) = do
    end ← become op (completed result (clear_more flags))
    ok (record { woken = some waker; closed = none }, end)
  complete_notif op (ignored_more data_left) = do
    end ← drop_slot
    ok (record { woken = none; closed = none }, end)
  complete_notif op _ = panic

  complete_more :
      MaybeFdLifecycle W D → Lifecycle W D → IoResult MaybeFd → ℕ → Outcome (Effects W × Ops W D)
  complete_more op submitted result flags = do
    end ← become op (completed_more result flags)
    ok (record { woken = none; closed = none }, end)
  complete_more op (waiting waker) result flags = do
    end ← become op (waiting_more waker result flags)
    ok (record { woken = none; closed = none }, end)
  complete_more op (ignored data_left) result flags = do
    end ← become op (ignored_more data_left)
    ok (record { woken = none; closed = close result }, end)
  complete_more op _ result flags = panic

  complete_sole :
      MaybeFdLifecycle W D → Lifecycle W D → IoResult MaybeFd → ℕ → Outcome (Effects W × Ops W D)
  complete_sole op submitted result flags = do
    end ← become op (completed result flags)
    ok (record { woken = none; closed = none }, end)
  complete_sole op (waiting waker) result flags = do
    end ← become op (completed result flags)
    ok (record { woken = some waker; closed = none }, end)
  complete_sole op (ignored data_left) result flags = do
    end ← drop_slot
    ok (record { woken = none; closed = close result }, end)
  complete_sole op _ result flags = panic

  unfoldable pub complete : IoResult ℕ → ℕ → Outcome (Effects W × Ops W D)
  unfolding complete_notif complete_more complete_sole
  complete result flags = deref s r >>= λ op.
      (if has_flag flags cqe_f_notif
        then complete_notif op op.lifecycle
        else (if has_flag flags cqe_f_more
            then complete_more op op.lifecycle (new_result op.is_fd result) flags
            else complete_sole op op.lifecycle (new_result op.is_fd result) flags))

  -- `drop_op` at each state. The argument's data, if any, moves into the slot.
  drop_at : MaybeFdLifecycle W D → Lifecycle W D → Option D → Outcome (Dropped D × Ops W D)
  drop_at op submitted given = do
    end ← become op (ignored given)
    ok (record { finished = false; data_left = none; closed = none }, end)
  drop_at op (waiting waker) given = do
    end ← become op (ignored given)
    ok (record { finished = false; data_left = none; closed = none }, end)
  drop_at op (completed_more result flags) given = do
    end ← become op (ignored_more given)
    ok (record { finished = false; data_left = none; closed = close result }, end)
  drop_at op (waiting_more waker result flags) given = do
    end ← become op (ignored_more given)
    ok (record { finished = false; data_left = none; closed = close result }, end)
  drop_at op (completed result flags) given = do
    end ← drop_slot
    ok (record { finished = true; data_left = given; closed = close result }, end)
  drop_at op _ given = panic

  unfoldable pub drop_op : Option D → Outcome (Dropped D × Ops W D)
  unfolding drop_at
  drop_op given = do op ← deref s r; drop_at op op.lifecycle given

  -- `poll_op`, with `Waker::will_wake` and the waker of the context.
  module _ (will_wake : W → W → Bool) (cx : W) where
    result_of : Lifecycle W D → Outcome Poll
    result_of (completed result flags) = ok (ready (record { result = result; flags = flags }))
    result_of _ = panic

    poll_at : MaybeFdLifecycle W D → Lifecycle W D → Outcome (Poll × Ops W D)
    poll_at op submitted = do end ← become op (waiting cx); ok (pending, end)
    poll_at op (waiting waker) =
        if will_wake waker cx
        then ok (pending, s)
        else (do end ← become op (waiting cx); ok (pending, end))
    poll_at op (completed_more result flags) = do
      end ← become op (waiting_more cx result flags)
      ok (pending, end)
    poll_at op (waiting_more waker result flags) =
        if will_wake waker cx
        then ok (pending, s)
        else (do end ← become op (waiting_more cx result flags); ok (pending, end))
    poll_at op _ = do x ← take debug s r; answer ← result_of x.0.lifecycle; ok (answer, x.1)

    unfoldable pub poll_op : Outcome (Poll × Ops W D)
    unfolding poll_at result_of
    poll_op = do op ← deref s r; poll_at op op.lifecycle

-- `Ops` and `UringInner`, which know an operation by its index in the slab.
module _ {W D : Type 0} (debug : Bool) (s : Ops W D) where
  unfoldable pub ops_insert : Bool → Outcome (ℕ × Ops W D)
  ops_insert is_fd = insert debug s (record { is_fd = is_fd; lifecycle = submitted })

  unfoldable pub ops_complete : ℕ → IoResult ℕ → ℕ → Outcome (Effects W × Ops W D)
  ops_complete index result flags = do
    found ← get debug s index
    r ← unwrap found
    complete debug s r result flags

  unfoldable pub uring_poll_op : (W → W → Bool) → ℕ → W → Outcome (Poll × Ops W D)
  uring_poll_op will_wake index cx = do
    found ← get debug s index
    r ← unwrap found
    poll_op debug s r will_wake cx

  drop_found : Option D → Option Ref → Outcome (Option (Dropped D) × Ops W D)
  drop_found given none = ok (none, s)
  drop_found given (some r) = do x ← drop_op debug s r given; ok (some x.0, x.1)

  -- Up to the request to cancel, which follows an answer that is not finished. `none` says that
  -- there was no operation to drop.
  unfoldable pub uring_drop_op : ℕ → Option D → Outcome (Option (Dropped D) × Ops W D)
  unfolding drop_found
  uring_drop_op index given =
      if index == 2 ^ 64 - 1 then ok (none, s) else (get debug s index >>= drop_found given)
