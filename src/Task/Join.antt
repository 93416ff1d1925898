-- ===== src/Task/Join.antt =====
-- monoio/src/task/join.rs and the join handle's part of monoio/src/task/harness.rs.
use monoio.Prelude.{Bool, true, false, not, ◌&&◌, none, some, if◌then◌else◌}
use monoio.Task.State.Spec.{drop_join_fast, drop_join_interest, clear_waker}
use monoio.Task.State.Spec
use monoio.Task.Cell.{
  StateOps, Build, Answer, ok_with, err_with, answer_of, Poll, pending, ready, Look, M, ◌>>=◌, ◌>>◌,
  ret, require, atomic, load, drop_future_or_output, take_output, set_waker, will_wake,
}
use monoio.Task.Harness.{drop_reference}

abbrev is_ok : {S : Type 0} → Answer S → Bool
is_ok (ok_with _) = true
is_ok (err_with _) = false

abbrev up_to_date_if : {S : Type 0} → Bool → Look S
up_to_date_if true = Look.up_to_date
up_to_date_if false = Look.stale

module _ {S W T : Type 0} (ops : StateOps S) where
  unfoldable pub unset_waker : M S W T (Answer S)
  unfolding atomic
  unset_waker = atomic ops clear_waker >>= answer_of

  abbrev clear_if_refused : Answer S → M S W T (Answer S)
  clear_if_refused (ok_with s) = ret (ok_with s)
  clear_if_refused (err_with s) = do set_waker none; ret (err_with s)

  unfoldable pub set_join_waker : W → S → M S W T (Answer S)
  unfolding atomic set_waker
  set_join_waker waker snapshot = do
    require (ops.is_join_interested snapshot)
    require (not (ops.has_join_waker snapshot))
    set_waker (some waker)
    res ← (atomic ops Spec.set_waker >>= answer_of)
    clear_if_refused res

  -- `Ok(_) => return false`, `Err(snapshot) => assert!(snapshot.is_complete())` and then `true`
  unfoldable pub decide : Answer S → M S W T Bool
  decide (ok_with _) = ret false
  decide (err_with snapshot) = do require (ops.is_complete snapshot); ret true

  module _ (build : Build) (same : W → W → Bool) where
    abbrev compare_waker : W → Bool → S → M S W T (Look S)
    compare_waker waker true snapshot = will_wake same waker >>= λ b. ret (up_to_date_if b)
    compare_waker waker false snapshot = ret (Look.vacant snapshot)

    -- The part of `can_read_output` before it changes anything
    unfoldable pub look : W → M S W T (Look S)
    unfolding load will_wake
    look waker = do
      snapshot ← load
      require (not (build.debug && not (ops.is_join_interested snapshot)))
      if ops.is_complete snapshot
          then ret Look.readable
          else compare_waker waker (ops.has_join_waker snapshot) snapshot

    -- `and_then`
    abbrev and_then : Answer S → (S → M S W T (Answer S)) → M S W T (Answer S)
    and_then (ok_with s) f = f s
    and_then (err_with s) f = ret (err_with s)

    abbrev after_look : W → Look S → M S W T Bool
    after_look waker Look.readable = ret true
    after_look waker Look.up_to_date = ret false
    after_look waker Look.stale = do
      cleared ← unset_waker
      res ← and_then cleared (set_join_waker waker)
      decide res
    after_look waker (Look.vacant snapshot) = set_join_waker waker snapshot >>= decide

    unfoldable pub can_read_output : W → M S W T Bool
    unfolding look unset_waker set_join_waker decide
    can_read_output waker = look waker >>= after_look waker

    -- `try_read_output`, and so `JoinHandle::poll`
    unfoldable pub try_read_output : W → M S W T (Poll T)
    unfolding can_read_output take_output
    try_read_output waker = do
      b ← can_read_output waker
      if b then (take_output >>= λ output. ret (ready output)) else ret pending

  unfoldable pub is_finished : M S W T Bool
  unfolding load
  is_finished = do snapshot ← load; ret (ops.is_complete snapshot)

  -- `drop_join_handle_slow`, before it gives its reference back
  unfoldable pub leave : M S W T (Unit {0})
  unfolding atomic drop_future_or_output
  leave = do
    res ← (atomic ops drop_join_interest >>= answer_of)
    elim res [ ok_with _ ↦ ret tt | err_with _ ↦ drop_future_or_output ]

  unfoldable pub drop_join_handle_slow : M S W T (Unit {0})
  unfolding leave
  drop_join_handle_slow = do leave; drop_reference ops

  -- `true` if the fast path was taken
  unfoldable pub drop_fast : M S W T Bool
  unfolding atomic
  drop_fast = do res ← (atomic ops drop_join_fast >>= answer_of); ret (is_ok res)

  -- `Drop for JoinHandle`
  unfoldable pub drop_join_handle : M S W T (Unit {0})
  unfolding drop_fast drop_join_handle_slow
  drop_join_handle = do fast ← drop_fast; if fast then ret tt else drop_join_handle_slow
