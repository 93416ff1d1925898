-- ===== src/Task/State/Queue/Words.antt =====
-- The run queue of a task whose state word goes through the operations of the code.
use monoio.Prelude.{
  ◌^◌, ◌<◌, ◌≡◌, sym, ◌∙◌, ap, inl, inr, Bool, true, false, not, ◌&&◌, if◌then◌else◌, ok, arith,
}
use monoio.Task.State.{new}
use monoio.Task.State.Word
use monoio.Task.State.Word.{Snapshot}
use monoio.Task.State.Flags.{
  Flags, encode, decode, Fits, encode-decode, is_running-encode, is_complete-encode,
  is_notified-encode,
}
use monoio.Task.State.Refine.{run_op, run_op_refines, encoded, encode_reply}
use monoio.Task.State.Queue.{System, Reach, Due, Delivered, DeliveredHere, DeliveredAway, spawned}
use monoio.Task.State.Queue.Lift.{step-Fits, meant, lift-Reach}
use monoio.Task.State.Queue.Meant
use monoio.Task.State.Queue.Meant.{initial, Inv, Reach-Inv}
use monoio.Task.State.Spec.{
  Op, to_running, to_idle, to_complete, to_notified_without_submit, to_notified, Reply, Result,
  step,
}

Due-meant : (op : Op) (s : System Snapshot) → Due op s → Due op (meant s)
Due-meant to_running s d = d
Due-meant to_idle s d = d
Due-meant to_complete s d = d
Due-meant _ s d = absurd d

-- The tests of a word are the fields of its flags.
tests :
    (s : Snapshot)
    → s < 2 ^ 64
    → (Word.is_running s ≡ (decode s).running)
      × (Word.is_complete s ≡ (decode s).complete)
      × (Word.is_notified s ≡ (decode s).notified)
tests s h =
    let e = (encode-decode s h).0 in
    (
      ap Word.is_running (sym e) ∙ is_running-encode (decode s),
      ap Word.is_complete (sym e) ∙ is_complete-encode (decode s),
      ap Word.is_notified (sym e) ∙ is_notified-encode (decode s),
    )

-- The queue, the executor and the word agree.
pub record Agrees (s : System Snapshot) : Type 0 where
  pub once : s.queued ≡ (
      if not (Word.is_running s.state) && not (Word.is_complete s.state) && Word.is_notified s.state
      then 1
      else 0)
  pub polled : s.polling ≡ Word.is_running s.state
  pub ends : (Word.is_running s.state && Word.is_complete s.state) ≡ false

module _ (debug : Bool) where
  from_new :
      {s : System Snapshot}
      → Reach (run_op debug) (spawned new) s
      → Reach (step debug) (spawned initial) (meant s) × (s.state < 2 ^ 64)
  unfolding new decode
  from_new reach = lift-Reach debug (omega arith) reach

  -- From its spawn on, and whatever the order of polls, wakes from any thread and operations of the
  -- join handle and the reference counts: the task has one handle in a run queue if its word says
  -- idle and notified, and none otherwise; it is being polled exactly while its word says running;
  -- and its word never says both running and complete.
  pub Reach-Agrees : {s : System Snapshot} → Reach (run_op debug) (spawned new) s → Agrees s
  Reach-Agrees {s} reach =
      let (up, small) = from_new reach in
      let v = Reach-Inv debug up in let t = tests s.state small in ground arith

  -- In every reachable state no assertion fails in the operations of a poll, debug assertions
  -- included: a queued handle can be run, and a running task can be parked or completed.
  pub Due-never_panics :
      {s : System Snapshot} (op : Op)
      → Reach (run_op debug) (spawned new) s
      → Due op s
      → (r : Reply Snapshot) × (t : Snapshot) × (run_op true op s.state ≡ ok (r, t))
  Due-never_panics {s} op reach due =
      let (up, small) = from_new reach in
      let (q, g, e) = Meant.Due-never_asserts debug op up (Due-meant op s due) in
      let (word, fits) = encode-decode s.state small in
      (
        encode_reply q,
        encode g,
        ap (run_op true op) (sym word)
            ∙ run_op_refines true op (decode s.state) fits
            ∙ ap encoded e,
      )

  -- No wake of a task that has not completed is lost. A wake in the task's own thread submits the
  -- task, which is then not yet queued, or the task is queued already, or it is being polled and the
  -- end of the poll will reschedule it. A wake from another thread leaves the word as it should be
  -- for the last two and answers that nothing is left to do; else it answers that the wake must be
  -- sent to the task's own thread, and there it submits the task, which is not queued.
  pub wake-Delivered :
      {s : System Snapshot}
      → Reach (run_op debug) (spawned new) s
      → Word.is_complete s.state ≡ false
      → Delivered (run_op debug) s
  wake-Delivered {s} reach unfinished =
      let (up, small) = from_new reach in
      let (word, fits) = encode-decode s.state small in
      let open_ : (decode s.state).complete ≡ false = sym (tests s.state small).1 ∙ unfinished in
      let (own, other) = Meant.wake-Delivered debug up open_ in
      (lower_here s (sym word) fits own, lower_away s (sym word) fits other)
    where
      at :
          (op : Op) (s : System Snapshot) (r : Result Flags)
          → s.state ≡ encode (decode s.state)
          → Fits (decode s.state)
          → step debug op (decode s.state) ≡ r
          → run_op debug op s.state ≡ encoded r
      at op s r word fits e =
          ap (run_op debug op) word ∙ run_op_refines debug op (decode s.state) fits ∙ ap encoded e

      then_at :
          (op first : Op) (s : System Snapshot) (g : Flags) (r : Reply Flags) (q : Result Flags)
          → Fits (decode s.state)
          → step debug first (decode s.state) ≡ ok (r, g)
          → step debug op g ≡ q
          → run_op debug op (encode g) ≡ encoded q
      then_at op first s g r q fits e i =
          let small : Fits g = step-Fits debug first (decode s.state) g r fits e in
          run_op_refines debug op g small ∙ ap encoded i

      lower_here :
          (s : System Snapshot)
          → s.state ≡ encode (decode s.state)
          → Fits (decode s.state)
          → DeliveredHere (step debug) (meant s)
          → DeliveredHere (run_op debug) s
      lower_here s word fits (g, inl (e, q)) = (encode g, inl (at to_notified s _ word fits e, q))
      lower_here s word fits (g, inr (inl (e, q))) =
          (encode g, inr (inl (at to_notified s _ word fits e, q)))
      lower_here s word fits (g, inr (inr (e, (p, h, i)))) = (
        encode g,
        inr (
            inr (
              at to_notified s _ word fits e,
              (p, encode h, then_at to_idle to_notified s g _ _ fits e i),
            )),
      )

      lower_away :
          (s : System Snapshot)
          → s.state ≡ encode (decode s.state)
          → Fits (decode s.state)
          → DeliveredAway (step debug) (meant s)
          → DeliveredAway (run_op debug) s
      lower_away s word fits (g, inl (e, q, h, i)) = (
        encode g,
        inl (
          at to_notified_without_submit s _ word fits e,
          q,
          encode h,
          then_at to_notified to_notified_without_submit s g _ _ fits e i,
        ),
      )
      lower_away s word fits (g, inr (inl (e, q))) =
          (encode g, inr (inl (at to_notified_without_submit s _ word fits e, q)))
      lower_away s word fits (g, inr (inr (e, (p, h, i)))) = (
        encode g,
        inr (
            inr (
              at to_notified_without_submit s _ word fits e,
              (p, encode h, then_at to_idle to_notified_without_submit s g _ _ fits e i),
            )),
      )

  -- A task whose word says complete keeps saying so, and is never queued nor polled again.
  pub complete_for_good :
      {s t : System Snapshot}
      → Reach (run_op debug) (spawned new) s
      → Word.is_complete s.state ≡ true
      → Reach (run_op debug) s t
      → (Word.is_complete t.state ≡ true) × (t.queued ≡ 0) × (t.polling ≡ false)
  complete_for_good {s} {t} reach c later =
      let (up, small) = from_new reach in
      let (up', small') = lift-Reach debug small later in
      let (d, q, p) = Meant.complete_for_good debug up (sym (tests s.state small).1 ∙ c) up' in
      ((tests t.state small').1 ∙ d, q, p)
