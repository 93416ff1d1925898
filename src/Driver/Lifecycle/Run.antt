-- ===== src/Driver/Lifecycle/Run.antt =====
-- Runs of one operation: completions, polls and drops in any order, and the file descriptors that
-- leave the driver in them, closed or handed to the future.
mod Step
pub mod Once
use monoio.Prelude.{
  ℕ, ◌^◌, ◌-◌, ◌≡◌, refl, sym, ap, ◌∙◌, ◌⊎◌, inl, inr, Bool, true, false, Option-cases, ◌==◌,
  if◌then◌else◌, Option, none, some, List, [], ◌∷◌, ◌++◌, Outcome, ok, panic, undefined, unwrap,
  bind-ok, ok_injective, ◌>>=◌, arith,
}
use mathlib.Core.Path.{subst}
use monoio.Slab.{get}
use monoio.Slab.Inv.{Inv, view}
use monoio.Slab.Borrow.{get-none}
use monoio.Driver.Lifecycle.{
  Ops, IoResult, MaybeFdLifecycle, Lifecycle, submitted, new_result, close, Effects, Poll, pending,
  ready, Dropped, CompletionMeta, ops_complete, uring_poll_op, uring_drop_op, drop_found,
}
use monoio.Driver.Lifecycle.Spec.{
  Kernel, flight, half, final, Client, idle, waits, gone, taken, on_cqe, entry, shows, wakes,
  closes, polled, dropped, descriptor_of,
}
use monoio.Driver.Lifecycle.Refine.{Completes, ops_complete-Completes}
use monoio.Driver.Lifecycle.Future.{Polls, Drops, uring_poll_op-Polls, uring_drop_op-Drops}

pub data Event (W D : Type 0) : Type 0 where
  cqe : IoResult ℕ → ℕ → Event W D
  polls : W → Event W D
  drops : Option D → Event W D

abbrev pub to_list : Option ℕ → List ℕ
to_list none = []
to_list (some fd) = fd ∷ []

abbrev pub handed : Poll → Option ℕ
handed pending = none
handed (ready m) = close m.result

abbrev pub closed_by : {D : Type 0} → Option (Dropped D) → Option ℕ
closed_by none = none
closed_by (some x) = x.closed

module _ {W D : Type 0} (debug : Bool) (will_wake : W → W → Bool) (key : ℕ) where
  unfoldable pub run_event : Ops W D → Event W D → Outcome (List ℕ × Ops W D)
  run_event s (cqe r f) = do x ← ops_complete debug s key r f; ok (to_list x.0.closed, x.1)
  run_event s (polls cx) = do
    x ← uring_poll_op debug s will_wake key cx
    ok (to_list (handed x.0), x.1)
  run_event s (drops given) = do
    x ← uring_drop_op debug s key given
    ok (to_list (closed_by x.0), x.1)

  unfoldable pub run : Ops W D → List (Event W D) → Outcome (List ℕ × Ops W D)
  unfolding run_event
  run s [] = ok ([], s)
  run s (e ∷ es) = do x ← run_event s e; y ← run x.1 es; ok (x.0 ++ y.0, y.1)

-- The result of the first completion in a list of events.
abbrev pub first_cqe : {W D : Type 0} → List (Event W D) → Option (IoResult ℕ)
first_cqe [] = none
first_cqe (cqe r f ∷ es) = some r
first_cqe (polls cx ∷ es) = first_cqe es
first_cqe (drops given ∷ es) = first_cqe es

abbrev or_first : {W D : Type 0} → Option (IoResult ℕ) → List (Event W D) → Option (IoResult ℕ)
or_first none es = first_cqe es
or_first (some r) es = some r

abbrev origin : Kernel → Option (IoResult ℕ)
origin flight = none
origin (half r f) = some r
origin (final r f) = some r

-- The descriptors that have left the driver.
abbrev released : {W D : Type 0} → Bool → Kernel → Client W D → List ℕ
released is_fd (half r f) (gone d) = to_list (descriptor_of is_fd r)
released is_fd (half r f) taken = to_list (descriptor_of is_fd r)
released is_fd (final r f) (gone d) = to_list (descriptor_of is_fd r)
released is_fd (final r f) taken = to_list (descriptor_of is_fd r)
released is_fd _ _ = []

module _ {W D : Type 0} (is_fd : Bool) (key : ℕ) where
  -- What an operation at `k` and `c` has become, when `fds` have left the driver since.
  record Now (k : Kernel) (c : Client W D) (es : List (Event W D)) (fds : List ℕ) (end : Ops W D)
      : Type 0 where
    pub k2 : Kernel
    pub c2 : Client W D
    pub valid : Inv end
    pub holds : view end key ≡ shows is_fd k2 c2
    pub fds_left : released is_fd k c ++ fds ≡ released is_fd k2 c2
    pub result : origin k2 ≡ or_first (origin k) es
