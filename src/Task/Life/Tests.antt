-- ===== src/Task/Life/Tests.antt =====
-- One task from its spawn to its output, in a debug build.
use monoio.Prelude.{
  ℕ, ◌≡◌, refl, true, false, Option, none, some, List, [], ◌∷◌, ◌==◌, ==_refl, ok, arith,
}
use monoio.Task.State.Word
use monoio.Task.Cell.{Build, Stage, running, finished, ready, World, ret, ◌>>=◌}
use monoio.Task.Harness.{run, begin_poll, drop_reference}
use monoio.Task.Life.{
  Phase, parked, polling, announcing, Join, free, vacant, System, begin, complete, announce,
  poll_join, store, handles, perform, act, Reach, here, next, spawn,
}
use monoio.Task.Life.Whole.{run-parts, end_poll}
use monoio.Task.Life.Words.{
  words, perform-never_panics, freed_with_last, join-Woken, result-Output, try_read_output_lem,
  Output, Answered,
}

abbrev build : Build
build = record { debug = true; sync = true }

abbrev world : ℕ → Stage ℕ → Option ℕ → List ℕ → World ℕ ℕ ℕ
world state stage waker woken = record {
  state = state;
  owner_id = 16;
  stage = stage;
  waker = waker;
  freed = false;
  queue = 0;
  sent = 0;
  woken = woken;
}

abbrev at : World ℕ ℕ ℕ → Phase ℕ → Join ℕ ℕ ℕ → Option ℕ → System ℕ ℕ ℕ
at w phase join result = record {
  world = w;
  phase = phase;
  join = join;
  wakers = 0;
  result = result;
}

abbrev begun : System ℕ ℕ ℕ
begun = at (world 0b1001001 running none []) polling (free none) none

abbrev looking : System ℕ ℕ ℕ
looking = at (world 0b1001001 running none []) polling (vacant 5 0b1001001) none

abbrev waiting : System ℕ ℕ ℕ
waiting = at (world 0b1011001 running (some 5) []) polling (free (some 5)) none

abbrev completed : System ℕ ℕ ℕ
completed =
    at (world 0b1011010 (finished 7) (some 5) []) (announcing 0b1011010) (free (some 5)) (some 7)

abbrev announced : System ℕ ℕ ℕ
announced = at (world 0b111010 (finished 7) (some 5) (5 ∷ [])) parked (free (some 5)) (some 7)

abbrev Reached : System ℕ ℕ ℕ → Type 0
Reached t = Reach (words true) build ◌==◌ (spawn (words true) 16) t

begin_run : perform (words true) build ◌==◌ begin (spawn (words true) 16) ≡ ok begun
unfolding perform words spawn Word.is_notified Word.is_idle Word.set_running Word.unset_notified
begin_run = refl

Reached-begun : Reached begun
unfolding spawn
Reached-begun = next here (act begin (refl, omega arith) (omega arith) begin_run)

look_run : perform (words true) build ◌==◌ (poll_join 5) begun ≡ ok looking
unfolding perform words Word.is_complete Word.has_join_waker Word.is_join_interested
look_run = refl

store_run : perform (words true) build ◌==◌ (store 5 0b1001001) looking ≡ ok waiting
unfolding perform words Word.is_complete Word.has_join_waker Word.is_join_interested
    Word.set_join_waker
store_run = refl

complete_run : perform (words true) build ◌==◌ (complete 7) waiting ≡ ok completed
unfolding perform words Word.is_running Word.is_complete
complete_run = refl

announce_run : perform (words true) build ◌==◌ (announce 0b1011010) completed ≡ ok announced
unfolding perform words drop_reference Word.is_join_interested Word.has_join_waker Word.ref_count
announce_run = refl

Reached-waiting : Reached waiting
Reached-waiting =
    next (next Reached-begun (act (poll_join 5) (none, refl) (omega arith) look_run))
      (act (store 5 0b1001001) refl (omega arith) store_run)

Reached-announced : Reached announced
Reached-announced =
    next (next Reached-waiting (act (complete 7) refl (omega arith) complete_run))
      (act (announce 0b1011010) refl (omega arith) announce_run)

perform-never_panics_example :
    (u : System ℕ ℕ ℕ) × (perform (words true) build ◌==◌ (complete 7) waiting ≡ ok u)
perform-never_panics_example =
    perform-never_panics build ◌==◌ ==_refl 16 Reached-waiting (complete 7) refl (omega arith)

freed_with_last_example :
    (announced.world.freed ≡ (handles announced == 0))
    × (Word.ref_count 0b111010 ≡ handles announced)
freed_with_last_example = freed_with_last build ◌==◌ ==_refl 16 Reached-announced

join-Woken_example : (y : ℕ) × (announced.world.woken ≡ y ∷ []) × ((y == 5) ≡ true)
join-Woken_example = join-Woken build ◌==◌ ==_refl 16 Reached-announced 5 7 refl refl refl

result-Output_example : Output announced (some 7)
result-Output_example = result-Output build ◌==◌ ==_refl 16 Reached-announced

try_read_output_lem_example : Answered build ◌==◌ 9 announced.world (some 7)
try_read_output_lem_example =
    try_read_output_lem build ◌==◌ ==_refl 16 Reached-announced (some 5) 9 refl

-- A future that is ready at once.
ready_at_once :
    run (words true) (ret (ready 7)) (world 0b1001100 running none [])
    ≡ (begin_poll (words true) >>= λ _. ret (ready 7) >>= end_poll (words true))
        (world 0b1001100 running none [])
ready_at_once = run-parts (words true) (ret (ready 7)) (world 0b1001100 running none [])
