-- ===== src/Driver/Lifecycle/Future.antt =====
-- What the future of an operation does to it: polls, and being dropped.
use monoio.Prelude.{
  ℕ, ◌^◌, ◌-◌, ◌≡◌, ◌∙◌, inl, inr, Bool, false, Bool-cases, ◌==◌, Option, none, some, ok, panic,
}
use monoio.Slab.Inv.{Inv, view}
use monoio.Slab.Borrow.{Ends, same-Ends}
use monoio.Driver.Lifecycle.{
  Ops, MaybeFdLifecycle, submitted, waiting, ignored, completed, completed_more, waiting_more,
  ignored_more, new_result, Poll, Dropped, poll_op, drop_op, uring_poll_op, uring_drop_op,
}
use monoio.Driver.Lifecycle.Spec.{
  Kernel, flight, half, final, Client, idle, waits, gone, taken, entry, shows, polled, dropped,
  close-new_result,
}
use monoio.Driver.Lifecycle.Refine.{found, b, at, at-Ends, left-Ends}

module _ {W D : Type 0} where
  module _ (will_wake : W → W → Bool) where
    -- What a poll does: a dropped operation has none, and the code panics.
    abbrev pub Polls : Bool → Ops W D → ℕ → Bool → W → Kernel → Option (Poll × Client W D) → Type 0
    Polls debug s key is_fd cx k none = uring_poll_op debug s will_wake key cx ≡ panic
    Polls debug s key is_fd cx k (some (answer, next)) =
        (end : Ops W D) × (uring_poll_op debug s will_wake key cx ≡ ok (answer, end))
        × Ends s key (shows is_fd k next) end

  -- What dropping the future does.
  abbrev pub Drops : Bool → Ops W D → ℕ → Bool → Option D → Kernel → Option (Dropped D) → Type 0
  Drops debug s key is_fd given k none = uring_drop_op debug s key given ≡ panic
  Drops debug s key is_fd given k (some answer) =
      (end : Ops W D) × (uring_drop_op debug s key given ≡ ok (some answer, end))
      × Ends s key (shows is_fd k (gone given)) end

  module _ (debug : Bool) (s : Ops W D) (inv : Inv s) (key : ℕ) (is_fd : Bool) where
    poll_step :
        (will_wake : W → W → Bool) (k : Kernel) (c : Client W D) (cx : W)
        → (op : MaybeFdLifecycle W D) → some op ≡ shows is_fd k c
        → view s key ≡ shows is_fd k c
        → Polls will_wake debug s key is_fd cx k (polled is_fd will_wake k c cx)
    unfolding uring_poll_op poll_op
    poll_step will_wake flight idle cx op o e = (
      at debug s inv key is_fd submitted e (waiting cx),
      rw (
        (found debug s inv key is_fd submitted e).1,
        (b debug s inv key is_fd submitted e).reads,
        (b debug s inv key is_fd submitted e).writes,
      ),
      at-Ends debug s inv key is_fd submitted e (waiting cx),
    )
    poll_step will_wake flight (waits w) cx op o e = elim (Bool-cases (will_wake w cx)) [
      | inl kept ↦ rw kept (
        s,
        rw (
          (found debug s inv key is_fd (waiting w) e).1,
          (b debug s inv key is_fd (waiting w) e).reads,
          kept,
        ),
        same-Ends s key (entry is_fd (waiting w)) inv e,
      )
      | inr changed ↦ rw changed (
        at debug s inv key is_fd (waiting w) e (waiting cx),
        rw (
          (found debug s inv key is_fd (waiting w) e).1,
          (b debug s inv key is_fd (waiting w) e).reads,
          changed,
          (b debug s inv key is_fd (waiting w) e).writes,
        ),
        at-Ends debug s inv key is_fd (waiting w) e (waiting cx),
      )
    ]
    poll_step will_wake (half q g) idle cx op o e = (
      at debug s inv key is_fd (completed_more (new_result is_fd q) g) e
          (waiting_more cx (new_result is_fd q) g),
      rw (
        (found debug s inv key is_fd (completed_more (new_result is_fd q) g) e).1,
        (b debug s inv key is_fd (completed_more (new_result is_fd q) g) e).reads,
        (b debug s inv key is_fd (completed_more (new_result is_fd q) g) e).writes,
      ),
      at-Ends debug s inv key is_fd (completed_more (new_result is_fd q) g) e
          (waiting_more cx (new_result is_fd q) g),
    )
    poll_step will_wake (half q g) (waits w) cx op o e = elim (Bool-cases (will_wake w cx)) [
      | inl kept ↦ rw kept (
        s,
        rw (
          (found debug s inv key is_fd (waiting_more w (new_result is_fd q) g) e).1,
          (b debug s inv key is_fd (waiting_more w (new_result is_fd q) g) e).reads,
          kept,
        ),
        same-Ends s key (entry is_fd (waiting_more w (new_result is_fd q) g)) inv e,
      )
      | inr changed ↦ rw changed (
        at debug s inv key is_fd (waiting_more w (new_result is_fd q) g) e
            (waiting_more cx (new_result is_fd q) g),
        rw (
          (found debug s inv key is_fd (waiting_more w (new_result is_fd q) g) e).1,
          (b debug s inv key is_fd (waiting_more w (new_result is_fd q) g) e).reads,
          changed,
          (b debug s inv key is_fd (waiting_more w (new_result is_fd q) g) e).writes,
        ),
        at-Ends debug s inv key is_fd (waiting_more w (new_result is_fd q) g) e
            (waiting_more cx (new_result is_fd q) g),
      )
    ]
    poll_step will_wake (final q g) idle cx op o e = (
      (b debug s inv key is_fd (completed (new_result is_fd q) g) e).left,
      rw (
        (found debug s inv key is_fd (completed (new_result is_fd q) g) e).1,
        (b debug s inv key is_fd (completed (new_result is_fd q) g) e).reads,
        (b debug s inv key is_fd (completed (new_result is_fd q) g) e).takes,
      ),
      left-Ends debug s inv key is_fd (completed (new_result is_fd q) g) e,
    )
    poll_step will_wake (final q g) (waits w) cx op o e = (
      (b debug s inv key is_fd (completed (new_result is_fd q) g) e).left,
      rw (
        (found debug s inv key is_fd (completed (new_result is_fd q) g) e).1,
        (b debug s inv key is_fd (completed (new_result is_fd q) g) e).reads,
        (b debug s inv key is_fd (completed (new_result is_fd q) g) e).takes,
      ),
      left-Ends debug s inv key is_fd (completed (new_result is_fd q) g) e,
    )
    poll_step will_wake flight (gone d) cx op o e = rw (
      (found debug s inv key is_fd (ignored d) e).1,
      (b debug s inv key is_fd (ignored d) e).reads,
      (b debug s inv key is_fd (ignored d) e).takes,
    )
    poll_step will_wake (half q g) (gone d) cx op o e = rw (
      (found debug s inv key is_fd (ignored_more d) e).1,
      (b debug s inv key is_fd (ignored_more d) e).reads,
      (b debug s inv key is_fd (ignored_more d) e).takes,
    )
    poll_step will_wake (final q g) (gone d) cx op o e = cc
    poll_step will_wake flight taken cx op o e = cc
    poll_step will_wake (half q g) taken cx op o e = cc
    poll_step will_wake (final q g) taken cx op o e = cc

    drop_step :
        (k : Kernel) (c : Client W D) (given : Option D)
        → (key == 2 ^ 64 - 1) ≡ false
        → (op : MaybeFdLifecycle W D) → some op ≡ shows is_fd k c
        → view s key ≡ shows is_fd k c
        → Drops debug s key is_fd given k (dropped is_fd k c given)
    unfolding uring_drop_op drop_op
    drop_step flight idle given h op o e = (
      at debug s inv key is_fd submitted e (ignored given),
      rw (
        h,
        (found debug s inv key is_fd submitted e).1,
        (b debug s inv key is_fd submitted e).reads,
        (b debug s inv key is_fd submitted e).writes,
      ),
      at-Ends debug s inv key is_fd submitted e (ignored given),
    )
    drop_step flight (waits w) given h op o e = (
      at debug s inv key is_fd (waiting w) e (ignored given),
      rw (
        h,
        (found debug s inv key is_fd (waiting w) e).1,
        (b debug s inv key is_fd (waiting w) e).reads,
        (b debug s inv key is_fd (waiting w) e).writes,
      ),
      at-Ends debug s inv key is_fd (waiting w) e (ignored given),
    )
    drop_step (half q g) idle given h op o e = (
      at debug s inv key is_fd (completed_more (new_result is_fd q) g) e (ignored_more given),
      rw (
        h,
        (found debug s inv key is_fd (completed_more (new_result is_fd q) g) e).1,
        (b debug s inv key is_fd (completed_more (new_result is_fd q) g) e).reads,
        (b debug s inv key is_fd (completed_more (new_result is_fd q) g) e).writes,
        close-new_result is_fd q,
      ),
      at-Ends debug s inv key is_fd (completed_more (new_result is_fd q) g) e (ignored_more given),
    )
    drop_step (half q g) (waits w) given h op o e = (
      at debug s inv key is_fd (waiting_more w (new_result is_fd q) g) e (ignored_more given),
      rw (
        h,
        (found debug s inv key is_fd (waiting_more w (new_result is_fd q) g) e).1,
        (b debug s inv key is_fd (waiting_more w (new_result is_fd q) g) e).reads,
        (b debug s inv key is_fd (waiting_more w (new_result is_fd q) g) e).writes,
        close-new_result is_fd q,
      ),
      at-Ends debug s inv key is_fd (waiting_more w (new_result is_fd q) g) e (ignored_more given),
    )
    drop_step (final q g) idle given h op o e = (
      (b debug s inv key is_fd (completed (new_result is_fd q) g) e).left,
      rw (
        h,
        (found debug s inv key is_fd (completed (new_result is_fd q) g) e).1,
        (b debug s inv key is_fd (completed (new_result is_fd q) g) e).reads,
        (b debug s inv key is_fd (completed (new_result is_fd q) g) e).takes,
        close-new_result is_fd q,
      ),
      left-Ends debug s inv key is_fd (completed (new_result is_fd q) g) e,
    )
    drop_step (final q g) (waits w) given h op o e = (
      (b debug s inv key is_fd (completed (new_result is_fd q) g) e).left,
      rw (
        h,
        (found debug s inv key is_fd (completed (new_result is_fd q) g) e).1,
        (b debug s inv key is_fd (completed (new_result is_fd q) g) e).reads,
        (b debug s inv key is_fd (completed (new_result is_fd q) g) e).takes,
        close-new_result is_fd q,
      ),
      left-Ends debug s inv key is_fd (completed (new_result is_fd q) g) e,
    )
    drop_step flight (gone d) given h op o e = rw (
      h,
      (found debug s inv key is_fd (ignored d) e).1,
      (b debug s inv key is_fd (ignored d) e).reads,
    )
    drop_step (half q g) (gone d) given h op o e = rw (
      h,
      (found debug s inv key is_fd (ignored_more d) e).1,
      (b debug s inv key is_fd (ignored_more d) e).reads,
    )
    drop_step (final q g) (gone d) given h op o e = cc
    drop_step flight taken given h op o e = cc
    drop_step (half q g) taken given h op o e = cc
    drop_step (final q g) taken given h op o e = cc

    -- A poll of an operation answers its result, the descriptor marked as one, exactly when the last
    -- completion has come, and then frees the slot; else it is pending, and leaves in the slot the
    -- waker of this poll or one that wakes the same task. A poll of a dropped operation panics.
    pub uring_poll_op-Polls :
        (will_wake : W → W → Bool) (k : Kernel) (c : Client W D) (cx : W)
        (op : MaybeFdLifecycle W D)
        → some op ≡ shows is_fd k c
        → view s key ≡ some op
        → Polls will_wake debug s key is_fd cx k (polled is_fd will_wake k c cx)
    uring_poll_op-Polls will_wake k c cx op o e = poll_step will_wake k c cx op o (e ∙ o)

    -- Dropping the future of an operation frees the slot and closes a descriptor that it holds, if
    -- the last completion has come; else the slot stays for the kernel with the data given, and a
    -- descriptor that came first of two completions is closed. A second drop panics.
    pub uring_drop_op-Drops :
        (k : Kernel) (c : Client W D) (given : Option D) (op : MaybeFdLifecycle W D)
        → (key == 2 ^ 64 - 1) ≡ false
        → some op ≡ shows is_fd k c
        → view s key ≡ some op
        → Drops debug s key is_fd given k (dropped is_fd k c given)
    uring_drop_op-Drops k c given op h o e = drop_step k c given h op o (e ∙ o)
