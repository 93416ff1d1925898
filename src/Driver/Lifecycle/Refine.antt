-- ===== src/Driver/Lifecycle/Refine.antt =====
-- The methods of an operation follow what it promises, through the slab.
use monoio.Prelude.{ℕ, ◌≡◌, refl, ◌∙◌, Bool, true, false, Option, none, some, ok, panic}
use monoio.Slab.{Ref, get}
use monoio.Slab.Inv.{Inv, view}
use monoio.Slab.Borrow.{Ends, Borrowed, get-some}
use monoio.Driver.Lifecycle.{
  Ops, IoResult, MaybeFdLifecycle, Lifecycle, submitted, waiting, ignored, completed,
  completed_more, waiting_more, ignored_more, has_flag, clear_more, cqe_f_more, cqe_f_notif,
  new_result, complete, ops_complete,
}
use monoio.Driver.Lifecycle.Spec.{
  Kernel, flight, half, final, Client, idle, waits, gone, taken, on_cqe, entry, shows, wakes,
  closes, close-new_result,
}

module _ {W D : Type 0} where
  -- What a completion does: where the kernel may not post it, the code panics.
  abbrev pub Completes :
      Bool → Ops W D → ℕ → Bool → Client W D → IoResult ℕ → ℕ → Kernel → Option Kernel → Type 0
  Completes debug s key is_fd c r f k none = ops_complete debug s key r f ≡ panic
  Completes debug s key is_fd c r f k (some next) =
      (end : Ops W D) × (ops_complete debug s key r f
        ≡ ok (record { woken = wakes is_fd c next; closed = closes is_fd c k r }, end))
      × Ends s key (shows is_fd next c) end

  module _ (debug : Bool) (s : Ops W D) (inv : Inv s) (key : ℕ) (is_fd : Bool) where
    module _ (l : Lifecycle W D) (e : view s key ≡ entry is_fd l) where
      pub found :
          (r : Ref) × (get debug s key ≡ ok (some r))
          × Borrowed debug s key r (record { is_fd = is_fd; lifecycle = l })
      found = get-some debug s key (record { is_fd = is_fd; lifecycle = l }) inv e

      pub b : Borrowed debug s key found.0 (record { is_fd = is_fd; lifecycle = l })
      b = found.2

      abbrev pub at : Lifecycle W D → Ops W D
      at x = b.written (record { is_fd = is_fd; lifecycle = x })

      pub at-Ends : (x : Lifecycle W D) → Ends s key (entry is_fd x) (at x)
      at-Ends x = record {
        valid = b.written-Inv (record { is_fd = is_fd; lifecycle = x });
        now = b.now (record { is_fd = is_fd; lifecycle = x });
      }

      pub left-Ends : Ends s key none b.left
      left-Ends = record { valid = b.freed.valid; now = b.freed.now }

    step :
        (k : Kernel) (c : Client W D) (r : IoResult ℕ) (f : ℕ) (n m : Bool)
        → has_flag f cqe_f_notif ≡ n
        → has_flag f cqe_f_more ≡ m
        → (op : MaybeFdLifecycle W D) → some op ≡ shows is_fd k c
        → view s key ≡ shows is_fd k c
        → Completes debug s key is_fd c r f k (on_cqe k r f)
    unfolding ops_complete complete
    step flight idle r f true m en em op o e =
        rw (en, (found submitted e).1, (b submitted e).reads, en)
    step flight idle r f false true en em op o e =
        rw (en, em)
          (
            at submitted e (completed_more (new_result is_fd r) f),
            rw ((found submitted e).1, (b submitted e).reads, en, em, (b submitted e).writes),
            at-Ends submitted e (completed_more (new_result is_fd r) f),
          )
    step flight idle r f false false en em op o e =
        rw (en, em)
          (
            at submitted e (completed (new_result is_fd r) f),
            rw ((found submitted e).1, (b submitted e).reads, en, em, (b submitted e).writes),
            at-Ends submitted e (completed (new_result is_fd r) f),
          )
    step flight (waits w) r f true m en em op o e =
        rw (en, (found (waiting w) e).1, (b (waiting w) e).reads, en)
    step flight (waits w) r f false true en em op o e =
        rw (en, em)
          (
            at (waiting w) e (waiting_more w (new_result is_fd r) f),
            rw ((found (waiting w) e).1, (b (waiting w) e).reads, en, em, (b (waiting w) e).writes),
            at-Ends (waiting w) e (waiting_more w (new_result is_fd r) f),
          )
    step flight (waits w) r f false false en em op o e =
        rw (en, em)
          (
            at (waiting w) e (completed (new_result is_fd r) f),
            rw ((found (waiting w) e).1, (b (waiting w) e).reads, en, em, (b (waiting w) e).writes),
            at-Ends (waiting w) e (completed (new_result is_fd r) f),
          )
    step flight (gone d) r f true m en em op o e =
        rw (en, (found (ignored d) e).1, (b (ignored d) e).reads, en)
    step flight (gone d) r f false true en em op o e =
        rw (en, em)
          (
            at (ignored d) e (ignored_more d),
            rw (
              (found (ignored d) e).1,
              (b (ignored d) e).reads,
              en,
              em,
              (b (ignored d) e).writes,
              close-new_result is_fd r,
            ),
            at-Ends (ignored d) e (ignored_more d),
          )
    step flight (gone d) r f false false en em op o e =
        rw (en, em)
          (
            (b (ignored d) e).left,
            rw (
              (found (ignored d) e).1,
              (b (ignored d) e).reads,
              en,
              em,
              (b (ignored d) e).takes,
              close-new_result is_fd r,
            ),
            left-Ends (ignored d) e,
          )
    step (half q g) idle r f true m en em op o e = rw en (
      at (completed_more (new_result is_fd q) g) e (completed (new_result is_fd q) (clear_more g)),
      rw (
        (found (completed_more (new_result is_fd q) g) e).1,
        (b (completed_more (new_result is_fd q) g) e).reads,
        en,
        (b (completed_more (new_result is_fd q) g) e).writes,
      ),
      at-Ends (completed_more (new_result is_fd q) g) e
          (completed (new_result is_fd q) (clear_more g)),
    )
    step (half q g) idle r f false true en em op o e = rw (
      en,
      (found (completed_more (new_result is_fd q) g) e).1,
      (b (completed_more (new_result is_fd q) g) e).reads,
      en,
      em,
    )
    step (half q g) idle r f false false en em op o e = rw (
      en,
      (found (completed_more (new_result is_fd q) g) e).1,
      (b (completed_more (new_result is_fd q) g) e).reads,
      en,
      em,
    )
    step (half q g) (waits w) r f true m en em op o e = rw en (
      at (waiting_more w (new_result is_fd q) g) e (completed (new_result is_fd q) (clear_more g)),
      rw (
        (found (waiting_more w (new_result is_fd q) g) e).1,
        (b (waiting_more w (new_result is_fd q) g) e).reads,
        en,
        (b (waiting_more w (new_result is_fd q) g) e).writes,
      ),
      at-Ends (waiting_more w (new_result is_fd q) g) e
          (completed (new_result is_fd q) (clear_more g)),
    )
    step (half q g) (waits w) r f false true en em op o e = rw (
      en,
      (found (waiting_more w (new_result is_fd q) g) e).1,
      (b (waiting_more w (new_result is_fd q) g) e).reads,
      en,
      em,
    )
    step (half q g) (waits w) r f false false en em op o e = rw (
      en,
      (found (waiting_more w (new_result is_fd q) g) e).1,
      (b (waiting_more w (new_result is_fd q) g) e).reads,
      en,
      em,
    )
    step (half q g) (gone d) r f true m en em op o e = rw en (
      (b (ignored_more d) e).left,
      rw (
        (found (ignored_more d) e).1,
        (b (ignored_more d) e).reads,
        en,
        (b (ignored_more d) e).takes,
      ),
      left-Ends (ignored_more d) e,
    )
    step (half q g) (gone d) r f false true en em op o e =
        rw (en, (found (ignored_more d) e).1, (b (ignored_more d) e).reads, en, em)
    step (half q g) (gone d) r f false false en em op o e =
        rw (en, (found (ignored_more d) e).1, (b (ignored_more d) e).reads, en, em)
    step (final q g) idle r f true m en em op o e = rw (
      (found (completed (new_result is_fd q) g) e).1,
      (b (completed (new_result is_fd q) g) e).reads,
      en,
    )
    step (final q g) idle r f false true en em op o e = rw (
      (found (completed (new_result is_fd q) g) e).1,
      (b (completed (new_result is_fd q) g) e).reads,
      en,
      em,
    )
    step (final q g) idle r f false false en em op o e = rw (
      (found (completed (new_result is_fd q) g) e).1,
      (b (completed (new_result is_fd q) g) e).reads,
      en,
      em,
    )
    step (final q g) (waits w) r f true m en em op o e = rw (
      (found (completed (new_result is_fd q) g) e).1,
      (b (completed (new_result is_fd q) g) e).reads,
      en,
    )
    step (final q g) (waits w) r f false true en em op o e = rw (
      (found (completed (new_result is_fd q) g) e).1,
      (b (completed (new_result is_fd q) g) e).reads,
      en,
      em,
    )
    step (final q g) (waits w) r f false false en em op o e = rw (
      (found (completed (new_result is_fd q) g) e).1,
      (b (completed (new_result is_fd q) g) e).reads,
      en,
      em,
    )
    step (final q g) (gone d) r f n m en em op o e = cc
    step flight taken r f n m en em op o e = cc
    step (half q g) taken r f n m en em op o e = cc
    step (final q g) taken r f n m en em op o e = cc

    -- A completion that arrives for an operation, at an index that holds it, does what the
    -- operation promises: it wakes the waker of the last poll exactly when it is the last one; it
    -- closes the descriptor in its result, and nothing else, exactly when it is the first one, the
    -- future was dropped, the operation answers descriptors and the result is no error; and it frees
    -- the slot when it is the last one of a dropped operation. The other operations keep their
    -- states. A completion that the kernel may not post at this point makes the code panic.
    pub ops_complete-Completes :
        (k : Kernel) (c : Client W D) (r : IoResult ℕ) (f : ℕ) (op : MaybeFdLifecycle W D)
        → some op ≡ shows is_fd k c
        → view s key ≡ some op
        → Completes debug s key is_fd c r f k (on_cqe k r f)
    ops_complete-Completes k c r f op o e =
        step k c r f (has_flag f cqe_f_notif) (has_flag f cqe_f_more) refl refl op o (e ∙ o)
