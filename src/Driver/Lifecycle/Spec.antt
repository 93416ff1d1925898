-- ===== src/Driver/Lifecycle/Spec.antt =====
-- What an operation promises: the completions that the kernel has posted so far, and what the
-- future has done. A state of `Lifecycle` shows one pair of these.
use monoio.Prelude.{ℕ, Bool, true, false, if◌then◌else◌, Option, none, some, ◌≡◌, refl}
use monoio.Driver.Lifecycle.{
  IoResult, success, failure, MaybeFdLifecycle, Lifecycle, submitted, waiting, ignored, completed,
  completed_more, waiting_more, ignored_more, has_flag, clear_more, cqe_f_more, cqe_f_notif,
  new_result, close, Poll, pending, ready, Dropped,
}

-- Nothing posted, the first of two completions, or the last one: with the result and its flags.
pub data Kernel : Type 0 where
  flight : Kernel
  half : IoResult ℕ → ℕ → Kernel
  final : IoResult ℕ → ℕ → Kernel

-- Not polled, waiting, dropped, or done with its result.
pub data Client (W D : Type 0) : Type 0 where
  idle : Client W D
  waits : W → Client W D
  gone : Option D → Client W D
  taken : Client W D

-- The descriptor in a result: there is one if the operation answers descriptors and did not fail.
abbrev pub descriptor_of : Bool → IoResult ℕ → Option ℕ
descriptor_of true (success fd) = some fd
descriptor_of false (success fd) = none
descriptor_of _ (failure e) = none

-- Dropping the result of such an operation closes that descriptor, and nothing else.
pub close-new_result :
    (is_fd : Bool) (r : IoResult ℕ) → close (new_result is_fd r) ≡ descriptor_of is_fd r
close-new_result true (success fd) = refl
close-new_result false (success fd) = refl
close-new_result true (failure e) = refl
close-new_result false (failure e) = refl

-- A completion that the kernel may post now, and where it leads: `half` comes first, with the flag
-- for more, and only after it comes a notification.
abbrev pub on_cqe : Kernel → IoResult ℕ → ℕ → Option Kernel
on_cqe flight result flags =
    if has_flag flags cqe_f_notif
    then none
    else (if has_flag flags cqe_f_more then some (half result flags) else some (final result flags))
on_cqe (half first flags0) result flags =
    if has_flag flags cqe_f_notif then some (final first (clear_more flags0)) else none
on_cqe (final first flags0) result flags = none

module _ {W D : Type 0} (is_fd : Bool) where
  abbrev pub entry : Lifecycle W D → Option (MaybeFdLifecycle W D)
  entry l = some (record { is_fd = is_fd; lifecycle = l })

  -- What the operation's slot holds.
  abbrev pub shows : Kernel → Client W D → Option (MaybeFdLifecycle W D)
  shows flight idle = entry submitted
  shows flight (waits w) = entry (waiting w)
  shows flight (gone d) = entry (ignored d)
  shows (half r f) idle = entry (completed_more (new_result is_fd r) f)
  shows (half r f) (waits w) = entry (waiting_more w (new_result is_fd r) f)
  shows (half r f) (gone d) = entry (ignored_more d)
  shows (final r f) idle = entry (completed (new_result is_fd r) f)
  shows (final r f) (waits w) = entry (completed (new_result is_fd r) f)
  shows (final r f) (gone d) = none
  shows _ taken = none

  -- Only the last completion wakes, and it wakes the waker of the last poll. A descriptor that
  -- comes when the future is gone is closed as it comes.
  abbrev pub wakes : Client W D → Kernel → Option W
  wakes (waits w) (final r f) = some w
  wakes _ _ = none

  abbrev pub closes : Client W D → Kernel → IoResult ℕ → Option ℕ
  closes (gone d) flight r = descriptor_of is_fd r
  closes _ _ _ = none

  -- The waker that is kept after a poll with `cx`.
  abbrev pub keeps : (W → W → Bool) → Client W D → W → W
  keeps will_wake (waits w) cx = if will_wake w cx then w else cx
  keeps will_wake _ cx = cx

  abbrev pub polled : (W → W → Bool) → Kernel → Client W D → W → Option (Poll × Client W D)
  polled will_wake k (gone d) cx = none
  polled will_wake k taken cx = none
  polled will_wake (final r f) c cx =
      some (ready (record { result = new_result is_fd r; flags = f }), taken)
  polled will_wake flight c cx = some (pending, waits (keeps will_wake c cx))
  polled will_wake (half r f) c cx = some (pending, waits (keeps will_wake c cx))

  -- What dropping the future closes, and what it leaves to the caller.
  abbrev pub dropped : Kernel → Client W D → Option D → Option (Dropped D)
  dropped k (gone d) given = none
  dropped k taken given = none
  dropped flight c given = some (record { finished = false; data_left = none; closed = none })
  dropped (half r f) c given =
      some (record { finished = false; data_left = none; closed = descriptor_of is_fd r })
  dropped (final r f) c given =
      some (record { finished = true; data_left = given; closed = descriptor_of is_fd r })
