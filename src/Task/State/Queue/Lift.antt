-- ===== src/Task/State/Queue/Lift.antt =====
-- Steps of a task whose state is a word of the code, as steps on the flags that the word holds.
use monoio.Prelude.{◌^◌, ◌<◌, ◌≡◌, refl, sym, ◌∙◌, ap, Bool, ok, panic, arith, undefined}
use monoio.Task.State.{
  TransitionToIdle, TransitionToNotified, idle, idle_notified, do_nothing, submit,
}
use monoio.Task.State.Word.{Snapshot}
use monoio.Task.State.Flags.{Flags, encode, decode, Fits, encode-decode, decode-encode}
use monoio.Task.State.Refine.{run_op, run_op_refines, encoded, encode_reply}
use monoio.Task.State.Queue.{
  System, Step, poll, pend, reschedule, finish, wake_submit, wake_nothing, wake_remote, handle,
  Reach, here, next,
}
use monoio.Task.State.Spec.{
  Op, to_running, to_idle, to_complete, to_notified_without_submit, to_notified, drop_join_fast,
  drop_join_interest, set_waker, clear_waker, inc, dec, Reply, idled, marked, notifies, Result,
  step,
}

pub step-Fits :
    (debug : Bool) (op : Op) (f g : Flags) (r : Reply Flags)
    → Fits f
    → step debug op f ≡ ok (r, g)
    → Fits g
unfolding step
step-Fits debug to_running f g r h e = ground arith
step-Fits debug to_idle f g r h e = ground arith
step-Fits debug to_complete f g r h e = ground arith
step-Fits debug to_notified_without_submit f g r h e = ground arith
step-Fits debug to_notified f g r h e = ground arith
step-Fits debug drop_join_fast f g r h e = ground arith
step-Fits debug drop_join_interest f g r h e = ground arith
step-Fits debug set_waker f g r h e = ground arith
step-Fits debug clear_waker f g r h e = ground arith
step-Fits debug inc f g r h e = ground arith
step-Fits debug dec f g r h e = ground arith

-- An answer with no word in it is the same on both sides.
of_idled : (q : Reply Flags) (t : TransitionToIdle) → encode_reply q ≡ idled t → q ≡ idled t
of_idled q t e = ground arith

of_notifies :
    (q : Reply Flags) (t : TransitionToNotified) → encode_reply q ≡ notifies t → q ≡ notifies t
of_notifies q t e = ground arith

of_marked : (q : Reply Flags) (b : Bool) → encode_reply q ≡ marked b → q ≡ marked b
of_marked q b e = ground arith

-- An operation that ends on a word, as a transition of the flags that the word holds.
record Lifted (debug : Bool) (op : Op) (s t : Snapshot) (r : Reply Snapshot) : Type 0 where
  reply : Reply Flags
  stepped : step debug op (decode s) ≡ ok (reply, decode t)
  replied : encode_reply reply ≡ r
  fits : t < 2 ^ 64

lift_result :
    (debug : Bool) (op : Op) (s t : Snapshot) (r : Reply Snapshot) (u : Result Flags)
    → Fits (decode s)
    → step debug op (decode s) ≡ u
    → encoded u ≡ ok (r, t)
    → Lifted debug op s t r
lift_result debug op s t r panic fits p q = cc
lift_result debug op s t r undefined fits p q = cc
lift_result debug op s t r (ok (reply, g)) fits p q =
    let held : encode g ≡ t = ground arith in
    let same : g ≡ decode t = sym (decode-encode g) ∙ ap decode held in
    let small : Fits g = step-Fits debug op (decode s) g reply fits p in
    record {
      reply = reply;
      stepped = p ∙ ap (λ f. ok (reply, f)) same;
      replied = ground arith;
      fits = rw (← held) (ground arith);
    }

lift :
    (debug : Bool) (op : Op) (s t : Snapshot) (r : Reply Snapshot)
    → s < 2 ^ 64
    → run_op debug op s ≡ ok (r, t)
    → Lifted debug op s t r
lift debug op s t r h e =
    let (word, fits) = encode-decode s h in
    lift_result debug op s t r (step debug op (decode s)) fits refl
      (sym (run_op_refines debug op (decode s) fits) ∙ ap (run_op debug op) word ∙ e)

abbrev pub meant : System Snapshot → System Flags
meant s = record { state = decode s.state; queued = s.queued; polling = s.polling }

module _ (debug : Bool) where
  lift-Step :
      {s t : System Snapshot}
      → s.state < 2 ^ 64
      → Step (run_op debug) s t
      → Step (step debug) (meant s) (meant t) × (t.state < 2 ^ 64)
  lift-Step h (poll {s} {g} {r} q p e) =
      let l = lift debug to_running s.state g r h e in (poll q p l.stepped, l.fits)
  lift-Step h (pend {s} {g} p e) =
      let l = lift debug to_idle s.state g (idled idle) h e in
      (pend p (l.stepped ∙ ap (λ r. ok (r, decode g)) (of_idled l.reply idle l.replied)), l.fits)
  lift-Step h (reschedule {s} {g} p e) =
      let l = lift debug to_idle s.state g (idled idle_notified) h e in
      (
        reschedule p
            (l.stepped ∙ ap (λ r. ok (r, decode g)) (of_idled l.reply idle_notified l.replied)),
        l.fits,
      )
  lift-Step h (finish {s} {g} {r} p e) =
      let l = lift debug to_complete s.state g r h e in (finish p l.stepped, l.fits)
  lift-Step h (wake_submit {s} {g} e) =
      let l = lift debug to_notified s.state g (notifies submit) h e in
      (
        wake_submit (l.stepped ∙ ap (λ r. ok (r, decode g)) (of_notifies l.reply submit l.replied)),
        l.fits,
      )
  lift-Step h (wake_nothing {s} {g} e) =
      let l = lift debug to_notified s.state g (notifies do_nothing) h e in
      (
        wake_nothing
            (l.stepped ∙ ap (λ r. ok (r, decode g)) (of_notifies l.reply do_nothing l.replied)),
        l.fits,
      )
  lift-Step h (wake_remote {s} {g} {b} e) =
      let l = lift debug to_notified_without_submit s.state g (marked b) h e in
      (wake_remote (l.stepped ∙ ap (λ r. ok (r, decode g)) (of_marked l.reply b l.replied)), l.fits)
  lift-Step h (handle {s} {g} {r} op i e) =
      let l = lift debug op s.state g r h e in (handle op i l.stepped, l.fits)

  pub lift-Reach :
      {s t : System Snapshot}
      → s.state < 2 ^ 64
      → Reach (run_op debug) s t
      → Reach (step debug) (meant s) (meant t) × (t.state < 2 ^ 64)
  lift-Reach h here = (here, h)
  lift-Reach h (next r st) =
      let (up, small) = lift-Reach h r in
      let (st', small') = lift-Step small st in (next up st', small')
