-- ===== src/Task/State/Tests.antt =====
-- Runs of the state word, and the theorems of this component at concrete words.
use mathlib.Core.List.{Mem}
use monoio.Prelude.{ℕ, ◌≡◌, refl, ◌⊎◌, true, false, none, some, [], ◌∷◌, ok, ◌>>=◌, arith}
use monoio.Task.State.{new, fetch_update_action, transition_to_notified, do_nothing}
use monoio.Task.State.Word
use monoio.Task.State.Cas.{fetch_update_action_atomic, at_once, Holds, stored}
use monoio.Task.State.Flags.{Flags}
use monoio.Task.State.Refine.{run_op, run_op_refines, encoded}
use monoio.Task.State.Spec.{to_running, to_complete, to_notified, done, completed, notifies, step}
use monoio.Task.State.Queue.{
  System, Reach, here, next, poll, finish, wake_nothing, Delivered, spawned,
}
use monoio.Task.State.Queue.Words.{Agrees, Reach-Agrees, wake-Delivered}

-- Two references, with interest of the join handle, notified.
new_word : new ≡ 0b1001100
unfolding new
new_word = refl

-- A waker that loses the race for an idle task against another waker has nothing to submit.
notify_race :
    fetch_update_action transition_to_notified 0b1001000 (0b1001100 ∷ [])
    ≡ ok (do_nothing, some (0b1001100, 0b1001100))
unfolding fetch_update_action transition_to_notified Word.is_running Word.is_complete
    Word.is_notified Word.set_notified
notify_race = refl

fetch_update_action_atomic_example :
    (v : ℕ) × Mem v (0b1001000 ∷ 0b1001100 ∷ [])
    × (fetch_update_action transition_to_notified 0b1001000 (0b1001100 ∷ [])
        ≡ (transition_to_notified v >>= at_once v))
    × (Holds v 0b1001000 (0b1001100 ∷ []) ⊎ (stored (transition_to_notified v) ≡ none))
fetch_update_action_atomic_example =
    fetch_update_action_atomic transition_to_notified 0b1001000 (0b1001100 ∷ [])

abbrev idle_flags : Flags
idle_flags = record {
  running = false;
  complete = false;
  notified = true;
  join_interest = true;
  join_waker = false;
  refs = 2;
}

run_op_refines_example :
    run_op true to_running 0b1001100 ≡ encoded (step true to_running idle_flags)
run_op_refines_example = run_op_refines true to_running idle_flags (omega arith)

-- The first poll of a spawned task, and a wake during it.
abbrev polled_once : System ℕ
polled_once = record { state = 0b1001001; queued = 0; polling = true }

abbrev woken : System ℕ
woken = record { state = 0b1001101; queued = 0; polling = true }

abbrev finished : System ℕ
finished = record { state = 0b1001110; queued = 0; polling = false }

-- The answers are those of the transitions on flags.
first_poll : run_op true to_running (spawned new).state ≡ ok (done, 0b1001001)
unfolding run_op new Word.is_notified Word.is_idle Word.set_running Word.unset_notified
first_poll = refl

wake_meanwhile : run_op true to_notified 0b1001001 ≡ ok (notifies do_nothing, 0b1001101)
unfolding run_op Word.is_running Word.set_notified
wake_meanwhile = refl

completion : run_op true to_complete 0b1001101 ≡ ok (completed 0b1001110, 0b1001110)
unfolding run_op Word.is_running Word.is_complete
completion = refl

Reach-polled_once : Reach (run_op true) (spawned new) polled_once
Reach-polled_once = next here (poll (omega arith) refl first_poll)

Reach-woken : Reach (run_op true) (spawned new) woken
Reach-woken = next Reach-polled_once (wake_nothing wake_meanwhile)

Reach-finished : Reach (run_op true) (spawned new) finished
Reach-finished = next Reach-woken (finish refl completion)

Reach-Agrees_example : Agrees woken
Reach-Agrees_example = Reach-Agrees true Reach-woken

polled_once_unfinished : Word.is_complete 0b1001001 ≡ false
unfolding Word.is_complete
polled_once_unfinished = refl

wake-Delivered_example : Delivered (run_op true) polled_once
wake-Delivered_example = wake-Delivered true Reach-polled_once polled_once_unfinished

finished_complete : Word.is_complete 0b1001110 ≡ true
unfolding Word.is_complete
finished_complete = refl
