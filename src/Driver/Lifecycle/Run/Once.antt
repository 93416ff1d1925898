-- ===== src/Driver/Lifecycle/Run/Once.antt =====
-- A file descriptor that the kernel hands to an operation leaves the driver exactly once.
use monoio.Prelude.{
  ℕ, ◌^◌, ◌-◌, ◌≡◌, refl, sym, ap, ◌∙◌, Bool, false, ◌==◌, Option, none, some, List, [], ◌∷◌, ◌++◌,
  ok, bind-ok, ok_injective, append-nil, append_assoc,
}
use mathlib.Core.Path.{subst}
use monoio.Slab.Inv.{Inv, view}
use monoio.Driver.Lifecycle.{Ops, IoResult, submitted}
use monoio.Driver.Lifecycle.Spec.{
  Kernel, flight, half, final, Client, idle, waits, gone, taken, shows, descriptor_of,
}
use monoio.Driver.Lifecycle.Run.{
  Event, cqe, polls, drops, to_list, run_event, run, first_cqe, or_first, origin, released, Now,
}
use monoio.Driver.Lifecycle.Run.Step.{event_step}

none_yet : (W D : Type 0) (k : Kernel) → origin k ≡ or_first {W = W} {D = D} (origin k) []
none_yet W D flight = refl
none_yet W D (half r f) = refl
none_yet W D (final r f) = refl

-- The descriptor in the result of a completion.
abbrev pub descriptor : Bool → Option (IoResult ℕ) → List ℕ
descriptor is_fd none = []
descriptor is_fd (some r) = to_list (descriptor_of is_fd r)

module _ {W D : Type 0} where
  or_first-chain :
      (o : Option (IoResult ℕ)) (e : Event W D) (es : List (Event W D))
      → or_first (or_first o (e ∷ [])) es ≡ or_first o (e ∷ es)
  or_first-chain (some r) e es = refl
  or_first-chain none (cqe r f) es = refl
  or_first-chain none (polls cx) es = refl
  or_first-chain none (drops given) es = refl

  over :
      (is_fd : Bool) (k : Kernel) (c : Client W D)
      → shows is_fd k c ≡ none
      → released is_fd k c ≡ descriptor is_fd (origin k)
  over is_fd flight idle e = cc
  over is_fd flight (waits w) e = cc
  over is_fd flight (gone d) e = cc
  over is_fd flight taken e = refl
  over is_fd (half r f) idle e = cc
  over is_fd (half r f) (waits w) e = cc
  over is_fd (half r f) (gone d) e = cc
  over is_fd (half r f) taken e = refl
  over is_fd (final r f) idle e = cc
  over is_fd (final r f) (waits w) e = cc
  over is_fd (final r f) (gone d) e = refl
  over is_fd (final r f) taken e = refl

  module _ (debug : Bool) (will_wake : W → W → Bool) (key : ℕ) (is_fd : Bool)
      (h : (key == 2 ^ 64 - 1) ≡ false) where
    run-Now :
        (es : List (Event W D)) (s : Ops W D) (k : Kernel) (c : Client W D) (fds : List ℕ)
        (end : Ops W D)
        → Inv s
        → view s key ≡ shows is_fd k c
        → run debug will_wake key s es ≡ ok (fds, end)
        → Now is_fd key k c es fds end
    unfolding run
    run-Now [] s k c fds end inv at ran =
        subst (λ p. Now is_fd key k c [] p.0 p.1) (ok_injective ran)
          (record {
            k2 = k;
            c2 = c;
            valid = inv;
            holds = at;
            fds_left = append-nil (released is_fd k c);
            result = none_yet W D k;
          })
    run-Now (e ∷ es) s k c fds end inv at ran =
        let (x, first, rest) = bind-ok (run_event debug will_wake key s e) _ (fds, end) ran in
        let (y, more, both) = bind-ok (run debug will_wake key x.1 es) _ (fds, end) rest in
        let now = event_step debug will_wake key is_fd s inv k c at x.0 x.1 e h first in
        let later = run-Now es x.1 now.k2 now.c2 y.0 y.1 now.valid now.holds more in
        subst (λ p. Now is_fd key k c (e ∷ es) p.0 p.1) (ok_injective both)
          (record {
            k2 = later.k2;
            c2 = later.c2;
            valid = later.valid;
            holds = later.holds;
            fds_left =
                sym (append_assoc (released is_fd k c) x.0 y.0)
                ∙ ap (λ xs. xs ++ y.0) now.fds_left
                ∙ later.fds_left;
            result =
                later.result ∙ ap (λ o. or_first o es) now.result ∙ or_first-chain (origin k) e es;
          })

    -- Take an operation that was just submitted, and any completions, polls and drops of it, in any
    -- order, that do not panic. When its slot has become free again, the descriptors that left the
    -- driver, closed or handed out, are exactly the one in the result of the first completion, once,
    -- if the operation answers descriptors and that result is no error, and else none.
    pub run-descriptor :
        (es : List (Event W D)) (s : Ops W D) (fds : List ℕ) (end : Ops W D)
        → Inv s
        → view s key ≡ some (record { is_fd = is_fd; lifecycle = submitted })
        → run debug will_wake key s es ≡ ok (fds, end)
        → view end key ≡ none
        → fds ≡ descriptor is_fd (first_cqe es)
    run-descriptor es s fds end inv at ran free =
        let now = run-Now es s flight idle fds end inv at ran in
        now.fds_left
        ∙ over is_fd now.k2 now.c2 (sym now.holds ∙ free)
        ∙ ap (descriptor is_fd) now.result
