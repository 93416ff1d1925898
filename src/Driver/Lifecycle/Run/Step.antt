-- ===== src/Driver/Lifecycle/Run/Step.antt =====
-- One event of a run.
use monoio.Prelude.{
  ℕ, ◌^◌, ◌-◌, ◌≡◌, refl, sym, ◌∙◌, ◌⊎◌, inl, inr, Bool, true, false, Option-cases, ◌==◌, Option,
  none, some, List, [], ◌∷◌, ◌++◌, ok, ok_injective, append-nil, arith,
}
use mathlib.Core.Path.{subst}
use monoio.Slab.Inv.{Inv, view}
use monoio.Slab.Borrow.{Ends, get-none}
use monoio.Driver.Lifecycle.{
  Ops, IoResult, MaybeFdLifecycle, Poll, Dropped, ops_complete, uring_poll_op, uring_drop_op,
}
use monoio.Driver.Lifecycle.Spec.{
  Kernel, flight, half, final, Client, idle, waits, gone, taken, on_cqe, shows, closes, polled,
  dropped, descriptor_of, close-new_result,
}
use monoio.Driver.Lifecycle.Refine.{Completes, ops_complete-Completes}
use monoio.Driver.Lifecycle.Future.{Polls, Drops, uring_poll_op-Polls, uring_drop_op-Drops}
use monoio.Driver.Lifecycle.Run.{
  Event, cqe, polls, drops, to_list, handed, run_event, or_first, origin, released, Now,
}

append_nil : (o : Option ℕ) → to_list o ++ [] ≡ to_list o
append_nil none = refl
append_nil (some fd) = refl

module _ {W D : Type 0} (debug : Bool) (will_wake : W → W → Bool) (key : ℕ) (is_fd : Bool) where
  origin_stays :
      (k : Kernel) (given : Option D)
      → origin k ≡ or_first {W = W} {D = D} (origin k) (drops given ∷ [])
  origin_stays flight given = refl
  origin_stays (half r f) given = refl
  origin_stays (final r f) given = refl

  live :
      (k : Kernel) (c : Client W D)
      → (shows is_fd k c ≡ none) ⊎ ((op : MaybeFdLifecycle W D) × (some op ≡ shows is_fd k c))
  live k c = elim (Option-cases (shows is_fd k c)) [ inl e ↦ inl e | inr (op, e) ↦ inr (op, sym e) ]

  after_cqe :
      (k : Kernel) (c : Client W D) (r : IoResult ℕ) (f : ℕ) (next : Kernel)
      (op : MaybeFdLifecycle W D)
      → some op ≡ shows is_fd k c
      → on_cqe k r f ≡ some next
      → (released is_fd k c ++ to_list (closes is_fd c k r) ≡ released is_fd next c)
        × (origin next ≡ or_first {W = W} {D = D} (origin k) (cqe r f ∷ []))
  after_cqe flight idle r f next op o e = ground arith
  after_cqe flight (waits w) r f next op o e = ground arith
  after_cqe flight (gone d) r f next op o e = ground arith
  after_cqe (half q g) idle r f next op o e = ground arith
  after_cqe (half q g) (waits w) r f next op o e = ground arith
  after_cqe (half q g) (gone d) r f next op o e = ground (arith, append_nil (descriptor_of is_fd q))
  after_cqe (final q g) c r f next op o e = cc
  after_cqe flight taken r f next op o e = cc
  after_cqe (half q g) taken r f next op o e = cc

  after_poll :
      (k : Kernel) (c : Client W D) (cx : W) (answer : Poll) (next : Client W D)
      → polled is_fd will_wake k c cx ≡ some (answer, next)
      → (released is_fd k c ++ to_list (handed answer) ≡ released is_fd k next)
        × (origin k ≡ or_first {W = W} {D = D} (origin k) (polls cx ∷ []))
  after_poll flight idle cx answer next e = ground arith
  after_poll flight (waits w) cx answer next e = ground arith
  after_poll flight (gone d) cx answer next e = cc
  after_poll flight taken cx answer next e = cc
  after_poll (half q g) idle cx answer next e = ground arith
  after_poll (half q g) (waits w) cx answer next e = ground arith
  after_poll (half q g) (gone d) cx answer next e = cc
  after_poll (half q g) taken cx answer next e = cc
  after_poll (final q g) idle cx answer next e = ground (arith, close-new_result is_fd q)
  after_poll (final q g) (waits w) cx answer next e = ground (arith, close-new_result is_fd q)
  after_poll (final q g) (gone d) cx answer next e = cc
  after_poll (final q g) taken cx answer next e = cc

  after_drop :
      (k : Kernel) (c : Client W D) (given : Option D) (answer : Dropped D)
      → dropped is_fd k c given ≡ some answer
      → (released is_fd k c ++ to_list answer.closed ≡ released {W = W} is_fd k (gone given))
        × (origin k ≡ or_first {W = W} {D = D} (origin k) (drops given ∷ []))
  after_drop flight idle given answer e = ground arith
  after_drop flight (waits w) given answer e = ground arith
  after_drop flight (gone d) given answer e = cc
  after_drop flight taken given answer e = cc
  after_drop (half q g) idle given answer e = ground arith
  after_drop (half q g) (waits w) given answer e = ground arith
  after_drop (half q g) (gone d) given answer e = cc
  after_drop (half q g) taken given answer e = cc
  after_drop (final q g) idle given answer e = ground arith
  after_drop (final q g) (waits w) given answer e = ground arith
  after_drop (final q g) (gone d) given answer e = cc
  after_drop (final q g) taken given answer e = cc

  -- What an event answers, from the equation on the call in it.
  from_answer :
      (k : Kernel) (c : Client W D) (es : List (Event W D)) (a b : List ℕ × Ops W D)
      → ok a ≡ ok b
      → Now is_fd key k c es a.0 a.1
      → Now is_fd key k c es b.0 b.1
  from_answer k c es a b e now = subst (λ p. Now is_fd key k c es p.0 p.1) (ok_injective e) now

  Ends-Now :
      (s : Ops W D) (k k2 : Kernel) (c c2 : Client W D) (es : List (Event W D)) (fds : List ℕ)
      (end : Ops W D)
      → Ends s key (shows is_fd k2 c2) end
      → released is_fd k c ++ fds ≡ released is_fd k2 c2
      → origin k2 ≡ or_first (origin k) es
      → Now is_fd key k c es fds end
  Ends-Now s k k2 c c2 es fds end ends left first = record {
    k2 = k2;
    c2 = c2;
    valid = ends.valid;
    holds = ends.now key ∙ rw itself;
    fds_left = left;
    result = first;
  }
    where
      itself : (key == key) ≡ true
      itself = ground arith

  module _ (s : Ops W D) (inv : Inv s) (k : Kernel) (c : Client W D)
      (at : view s key ≡ shows is_fd k c) (fds : List ℕ) (end : Ops W D) where
    by_cqe :
        (r : IoResult ℕ) (f : ℕ) (op : MaybeFdLifecycle W D) (o : Option Kernel)
        → some op ≡ shows is_fd k c
        → on_cqe k r f ≡ o
        → Completes debug s key is_fd c r f k o
        → run_event debug will_wake key s (cqe r f) ≡ ok (fds, end)
        → Now is_fd key k c (cqe r f ∷ []) fds end
    unfolding run_event
    by_cqe r f op none live e stuck ran = let no_answer = rw stuck at ran in cc
    by_cqe r f op (some next) live e (end2, answer, ends) ran =
        let facts = after_cqe k c r f next op live e in
        from_answer k c (cqe r f ∷ []) (to_list (closes is_fd c k r), end2) (fds, end)
          (rw answer at ran)
          (Ends-Now s k next c c (cqe r f ∷ []) (to_list (closes is_fd c k r)) end2 ends facts.0
            facts.1)

    by_poll :
        (cx : W) (o : Option (Poll × Client W D))
        → polled is_fd will_wake k c cx ≡ o
        → Polls will_wake debug s key is_fd cx k o
        → run_event debug will_wake key s (polls cx) ≡ ok (fds, end)
        → Now is_fd key k c (polls cx ∷ []) fds end
    unfolding run_event
    by_poll cx none e stuck ran = let no_answer = rw stuck at ran in cc
    by_poll cx (some (poll, next)) e (end2, answer, ends) ran =
        let facts = after_poll k c cx poll next e in
        from_answer k c (polls cx ∷ []) (to_list (handed poll), end2) (fds, end) (rw answer at ran)
          (Ends-Now s k k c next (polls cx ∷ []) (to_list (handed poll)) end2 ends facts.0 facts.1)

    by_drop :
        (given : Option D) (o : Option (Dropped D))
        → dropped is_fd k c given ≡ o
        → Drops debug s key is_fd given k o
        → run_event debug will_wake key s (drops given) ≡ ok (fds, end)
        → Now is_fd key k c (drops given ∷ []) fds end
    unfolding run_event
    by_drop given none e stuck ran = let no_answer = rw stuck at ran in cc
    by_drop given (some x) e (end2, answer, ends) ran =
        let facts = after_drop k c given x e in
        from_answer k c (drops given ∷ []) (to_list x.closed, end2) (fds, end) (rw answer at ran)
          (Ends-Now s k k c (gone given) (drops given ∷ []) (to_list x.closed) end2 ends facts.0
            facts.1)

    -- An index with no operation: only a drop is defined there, and does nothing.
    no_operation :
        (e : Event W D)
        → (key == 2 ^ 64 - 1) ≡ false
        → shows is_fd k c ≡ none
        → run_event debug will_wake key s e ≡ ok (fds, end)
        → Now is_fd key k c (e ∷ []) fds end
    unfolding run_event ops_complete uring_poll_op uring_drop_op
    no_operation (cqe r f) h free ran =
        let no_answer = rw (get-none debug s key inv (at ∙ free)) at ran in cc
    no_operation (polls cx) h free ran =
        let no_answer = rw (get-none debug s key inv (at ∙ free)) at ran in cc
    no_operation (drops given) h free ran =
        from_answer k c (drops given ∷ []) ([], s) (fds, end)
          (rw (h, get-none debug s key inv (at ∙ free)) at ran)
          (record {
            k2 = k;
            c2 = c;
            valid = inv;
            holds = at;
            fds_left = append-nil (released is_fd k c);
            result = origin_stays k given;
          })

    pub event_step :
        (e : Event W D)
        → (key == 2 ^ 64 - 1) ≡ false
        → run_event debug will_wake key s e ≡ ok (fds, end)
        → Now is_fd key k c (e ∷ []) fds end
    event_step e h ran = elim (live k c) [
      | inl free ↦ no_operation e h free ran
      | inr (op, o) ↦ by_event op o e h ran
    ]
      where
        by_event :
            (op : MaybeFdLifecycle W D)
            → some op ≡ shows is_fd k c
            → (e : Event W D) → (key == 2 ^ 64 - 1) ≡ false
            → run_event debug will_wake key s e ≡ ok (fds, end)
            → Now is_fd key k c (e ∷ []) fds end
        by_event op o (cqe r f) h ran =
            by_cqe r f op (on_cqe k r f) o refl
              (ops_complete-Completes debug s inv key is_fd k c r f op o (at ∙ sym o)) ran
        by_event op o (polls cx) h ran =
            by_poll cx (polled is_fd will_wake k c cx) refl
              (uring_poll_op-Polls debug s inv key is_fd will_wake k c cx op o (at ∙ sym o)) ran
        by_event op o (drops given) h ran =
            by_drop given (dropped is_fd k c given) refl
              (uring_drop_op-Drops debug s inv key is_fd k c given op h o (at ∙ sym o)) ran
