-- ===== src/Task/State/Refine.antt =====
-- The atomic operations on state words implement the transitions of `Spec`.
use monoio.Prelude.{◌≡◌, Bool, true, false, Option, none, some, Outcome, ok, ◌>>=◌, arith}
use monoio.Task.State.{
  Update, transition_to_running, transition_to_idle, transition_to_complete,
  transition_to_notified_without_submit, transition_to_notified, drop_join_handle_fast,
  unset_join_interested, set_join_waker, unset_waker, ref_inc, ref_dec,
}
use monoio.Task.State.Word.{Snapshot}
use monoio.Task.State.Flags.{
  Flags, encode, Fits, is_idle-encode, is_running-encode, is_complete-encode, is_notified-encode,
  is_join_interested-encode, has_join_waker-encode, set_running-encode, unset_running-encode,
  set_notified-encode, unset_notified-encode, unset_join_interested-encode, set_join_waker-encode,
  unset_join_waker-encode, ref_count-encode, xor_lifecycle-encode,
}
use monoio.Task.State.Spec.{
  Op, to_running, to_idle, to_complete, to_notified_without_submit, to_notified, drop_join_fast,
  drop_join_interest, set_waker, clear_waker, inc, dec, Reply, done, idled, completed, marked,
  notifies, updated, refused, released, Result, step,
}

-- The answer and the word that the memory holds after it, of an operation that found `s` there.
abbrev pub after : {T : Type 0} → Snapshot → (T → Reply Snapshot) → Update T → Result Snapshot
after s reply u = u >>= λ r. ok (reply r.0, elim r.1 [ none ↦ s | some next ↦ next ])

abbrev pub after_update : Snapshot → Outcome (Option Snapshot) → Result Snapshot
after_update s u =
    u >>= λ r. ok (elim r [ none ↦ (refused s, s) | some next ↦ (updated next, next) ])

-- An operation that finds `s` in the memory, with no interference.
unfoldable pub run_op : Bool → Op → Snapshot → Result Snapshot
unfolding transition_to_running transition_to_idle transition_to_complete
    transition_to_notified_without_submit transition_to_notified drop_join_handle_fast
    unset_join_interested set_join_waker unset_waker ref_inc ref_dec
run_op debug to_running s = after s (λ _. done) (transition_to_running debug s)
run_op debug to_idle s = after s idled (transition_to_idle debug s)
run_op debug to_complete s = after s completed (transition_to_complete debug s)
run_op debug to_notified_without_submit s = after s marked (transition_to_notified_without_submit s)
run_op debug to_notified s = after s notifies (transition_to_notified s)
run_op debug drop_join_fast s = after_update s (drop_join_handle_fast s)
run_op debug drop_join_interest s = after_update s (unset_join_interested s)
run_op debug set_waker s = after_update s (set_join_waker s)
run_op debug clear_waker s = after_update s (unset_waker s)
run_op debug inc s = after s (λ _. done) (ref_inc s)
run_op debug dec s = after s released (ref_dec debug s)

abbrev pub encode_reply : Reply Flags → Reply Snapshot
encode_reply done = done
encode_reply (idled t) = idled t
encode_reply (completed f) = completed (encode f)
encode_reply (marked b) = marked b
encode_reply (notifies t) = notifies t
encode_reply (updated f) = updated (encode f)
encode_reply (refused f) = refused (encode f)
encode_reply (released b) = released b

abbrev pub encoded : Result Flags → Result Snapshot
encoded r = r >>= λ (reply, f). ok (encode_reply reply, encode f)

to_running_refines :
    (debug : Bool) (f : Flags)
    → Fits f
    → run_op debug to_running (encode f) ≡ encoded (step debug to_running f)
unfolding run_op step
to_running_refines debug f fits =
    rw
      (
        is_notified-encode f,
        is_idle-encode f,
        set_running-encode f,
        unset_notified-encode (record f { running = true }) fits,
      )
      (ground arith)

module _ (debug : Bool) (f : Flags) (fits : Fits f) where
  to_idle_refines : run_op debug to_idle (encode f) ≡ encoded (step debug to_idle f)
  unfolding run_op step
  to_idle_refines = ground (
    arith,
    is_running-encode f,
    unset_running-encode f fits,
    is_notified-encode (record f { running = false }),
  )

  to_complete_refines : run_op debug to_complete (encode f) ≡ encoded (step debug to_complete f)
  unfolding run_op step
  to_complete_refines =
      ground (arith, is_running-encode f, is_complete-encode f, xor_lifecycle-encode f)

  without_submit_refines :
      run_op debug to_notified_without_submit (encode f)
      ≡ encoded (step debug to_notified_without_submit f)
  unfolding run_op step
  without_submit_refines = ground (
    arith,
    is_running-encode f,
    is_complete-encode f,
    is_notified-encode f,
    set_notified-encode f,
  )

  to_notified_refines : run_op debug to_notified (encode f) ≡ encoded (step debug to_notified f)
  unfolding run_op step
  to_notified_refines = ground (
    arith,
    is_running-encode f,
    is_complete-encode f,
    is_notified-encode f,
    set_notified-encode f,
  )

  drop_join_fast_refines :
      run_op debug drop_join_fast (encode f) ≡ encoded (step debug drop_join_fast f)
  unfolding run_op step
  drop_join_fast_refines = ground arith

  drop_join_interest_refines :
      run_op debug drop_join_interest (encode f) ≡ encoded (step debug drop_join_interest f)
  unfolding run_op step
  drop_join_interest_refines = ground (
    arith,
    is_join_interested-encode f,
    is_complete-encode f,
    unset_join_interested-encode f fits,
  )

  set_waker_refines : run_op debug set_waker (encode f) ≡ encoded (step debug set_waker f)
  unfolding run_op step
  set_waker_refines = ground (
    arith,
    is_join_interested-encode f,
    has_join_waker-encode f,
    is_complete-encode f,
    set_join_waker-encode f,
  )

  clear_waker_refines : run_op debug clear_waker (encode f) ≡ encoded (step debug clear_waker f)
  unfolding run_op step
  clear_waker_refines = ground (
    arith,
    is_join_interested-encode f,
    has_join_waker-encode f,
    is_complete-encode f,
    unset_join_waker-encode f fits,
  )

  inc_refines : run_op debug inc (encode f) ≡ encoded (step debug inc f)
  unfolding run_op step
  inc_refines = ground arith

  dec_refines : run_op debug dec (encode f) ≡ encoded (step debug dec f)
  unfolding run_op step
  dec_refines = ground (arith, ref_count-encode f fits)

-- Each atomic operation of state.rs, run on a state word with a reference count below 2 ^ 59, gives
-- the answer that the transition on flags gives and leaves the word of the flags that it leaves;
-- it panics exactly when the transition does, in builds with and without debug assertions.
pub run_op_refines :
    (debug : Bool) (op : Op) (f : Flags)
    → Fits f
    → run_op debug op (encode f) ≡ encoded (step debug op f)
run_op_refines debug to_running f fits = to_running_refines debug f fits
run_op_refines debug to_idle f fits = to_idle_refines debug f fits
run_op_refines debug to_complete f fits = to_complete_refines debug f fits
run_op_refines debug to_notified_without_submit f fits = without_submit_refines debug f fits
run_op_refines debug to_notified f fits = to_notified_refines debug f fits
run_op_refines debug drop_join_fast f fits = drop_join_fast_refines debug f fits
run_op_refines debug drop_join_interest f fits = drop_join_interest_refines debug f fits
run_op_refines debug set_waker f fits = set_waker_refines debug f fits
run_op_refines debug clear_waker f fits = clear_waker_refines debug f fits
run_op_refines debug inc f fits = inc_refines debug f fits
run_op_refines debug dec f fits = dec_refines debug f fits
