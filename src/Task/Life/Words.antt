-- ===== src/Task/Life/Words.antt =====
-- The life of a task whose state is the word of monoio/src/task/state.rs.
use monoio.Prelude.{
  Option-cases, inl, inr, ℕ, ◌^◌, ◌<◌, ◌≡◌, refl, sym, ◌∙◌, subst, Bool, true, false, Option, none,
  some, [], ◌∷◌, ◌==◌, ok, arith,
}
use monoio.Task.State.{new}
use monoio.Task.State.Word
use monoio.Task.State.Flags.{
  Flags, encode, is_complete-encode, is_join_interested-encode, has_join_waker-encode,
  ref_count-encode,
}
use monoio.Task.State.Spec.{Result, step}
use monoio.Task.State.Refine.{run_op, run_op_refines, encoded}
use monoio.Task.Cell.{StateOps, Build, running, finished, consumed, World, pending, ready}
use monoio.Task.Life.{
  System, parked, Join, free, stale, vacant, leaving, readable, taken, gone, Act, handles, Enabled,
  perform, Reach, spawn,
}
use monoio.Task.Join.{try_read_output}
use monoio.Task.Life.Whole.{try_read-ready, try_read-pending, registered}
use monoio.Task.Life.Through.{map_world, map_system, map_result, Implements}
use monoio.Task.Life.Meant.{Inv, matches}
use monoio.Task.Life.Mirror.{Mirror, Reach-Mirror, Mirror-Performed}

unfoldable pub words : Bool → StateOps ℕ
unfolding new run_op
words debug = record {
  new = new;
  run = run_op debug;
  is_complete = Word.is_complete;
  is_join_interested = Word.is_join_interested;
  has_join_waker = Word.has_join_waker;
}

map_result-encoded : (r : Result Flags) → map_result encode r ≡ encoded r
map_result-encoded r = ground arith

words-Implements : (debug : Bool) → Implements debug (words debug) encode
unfolding words new
words-Implements debug = record {
  new-encode = refl;
  run-encode =
      λ op f fits. run_op_refines debug op f fits ∙ sym (map_result-encoded (step debug op f));
  complete-encode = is_complete-encode;
  interested-encode = is_join_interested-encode;
  waker-encode = has_join_waker-encode;
}

-- Where the output is: in the cell until the join handle takes it, or somebody drops it because
-- the join handle went away.
abbrev pub OutputAt : {W T : Type 0} → System ℕ W T → T → Join ℕ W T → Type 0
OutputAt t v (free _) = t.world.stage ≡ finished v
OutputAt t v (stale _) = t.world.stage ≡ finished v
OutputAt t v (vacant _ _) = t.world.stage ≡ finished v
OutputAt t v readable = t.world.stage ≡ finished v
OutputAt t v (taken u) = (u ≡ v) × (t.world.stage ≡ consumed)
OutputAt t v leaving = t.phase ≡ parked → t.world.stage ≡ consumed
OutputAt t v gone = t.phase ≡ parked → t.world.stage ≡ consumed

abbrev pub Output : {W T : Type 0} → System ℕ W T → Option T → Type 0
Output t none = t.world.stage ≡ running
Output t (some v) = OutputAt t v t.join

-- What the flags say, for their images.
module _ {W T : Type 0} (same : W → W → Bool) {s : System Flags W T} (i : Inv same s) where
  Inv-counted :
      let t = map_system encode s in
      (t.world.freed ≡ (handles t == 0)) × (Word.ref_count t.world.state ≡ handles t)
  Inv-counted = ground (arith, ref_count-encode s.world.state)

  Inv-Woken :
      (x : W) (v : T)
      → (map_system encode s).join ≡ free (some x)
      → s.result ≡ some v
      → (map_system encode s).phase ≡ parked
      → (y : W) × (s.world.woken ≡ y ∷ []) × (same y x ≡ true)
  Inv-Woken x v j r p = elim (Option-cases s.world.waker) [
    | inl e ↦ absurd (ground arith)
    | inr (y, e) ↦ (y, ground arith, ground arith)
  ]

  Inv-Output : Output (map_system encode s) s.result
  Inv-Output = elim (Option-cases s.result) [
    | inl e ↦ rw e (ground arith)
    | inr (v, e) ↦ rw e (ground arith)
  ]

-- What a poll of the join handle answers, and the world that it leaves: the output once the task
-- has completed, and before that its waker registered.
abbrev pub Answered : {W T : Type 0} → Build → (W → W → Bool) → W → World ℕ W T → Option T → Type 0
Answered {W} {T} build same x w (some v) =
    try_read_output (words build.debug) build same x w ≡ ok (ready v, record w { stage = consumed })
Answered {W} {T} build same x w none =
    (u : World ℕ W T) × (try_read_output (words build.debug) build same x w ≡ ok (pending, u))
    × (Word.has_join_waker u.state ≡ true)
    × (Word.is_complete u.state ≡ false)
    × (matches same u.waker x ≡ true)
    × (u.stage ≡ w.stage)

module _ {W T : Type 0} (build : Build) (same : W → W → Bool) (whole : (x : W) → same x x ≡ true)
    {s : System Flags W T} (i : Inv same s) (old : Option W) (x : W) (j : s.join ≡ free old) where
  Inv-ready :
      (v : T) → s.result ≡ some v → Answered build same x (map_world encode s.world) (some v)
  Inv-ready v r =
      try_read-ready build (words build.debug) encode (words-Implements build.debug) same x s.world
        (ground arith) (ground arith) v (ground arith) (ground arith)

  Inv-pending : s.result ≡ none → Answered build same x (map_world encode s.world) none
  Inv-pending r =
      let u =
        registered build (words build.debug) encode (words-Implements build.debug) same x s.world
          (ground arith) (ground arith) in
      (
        map_world encode u,
        try_read-pending build (words build.debug) encode (words-Implements build.debug) same x
            s.world (ground arith) (ground arith) (ground arith) (ground arith) (ground arith),
        has_join_waker-encode u.state,
        is_complete-encode u.state ∙ (ground arith),
        ground (arith, whole x),
        refl,
      )

  Inv-Answered : Answered build same x (map_world encode s.world) s.result
  Inv-Answered = elim (Option-cases s.result) [
    | inl e ↦ rw e (Inv-pending e)
    | inr (v, e) ↦ rw e (Inv-ready v e)
  ]

module _ {W T : Type 0} (build : Build) (same : W → W → Bool) (whole : (x : W) → same x x ≡ true)
    (owner_id : ℕ) {t : System ℕ W T}
    (reach : Reach (words build.debug) build same (spawn (words build.debug) owner_id) t) where
  mirror : Mirror build (words build.debug) encode (words-Implements build.debug) same whole t
  mirror =
      Reach-Mirror build (words build.debug) encode (words-Implements build.debug) same whole
        owner_id reach

  -- From the spawn of a task on, where `will_wake` holds of each waker and itself, in every order of the
  -- steps of its executor, its wakers and its join handle: with fewer than 2 ^ 58 handles, each step
  -- that a holder of a handle may take succeeds, with no panic, no failed assertion and no use of a
  -- cell that was given back.
  pub perform-never_panics :
      (a : Act ℕ W T)
      → Enabled build a t
      → handles t < 2 ^ 58
      → (u : System ℕ W T) × (perform (words build.debug) build same a t ≡ ok u)
  perform-never_panics a q room =
      let p =
        Mirror-Performed build (words build.debug) encode (words-Implements build.debug) same whole
          a mirror q room in
      (_, p.performed)

  -- In every reachable state the count in the word is the number of handles, and the cell has been
  -- given back exactly when there is none.
  pub freed_with_last :
      (t.world.freed ≡ (handles t == 0)) × (Word.ref_count t.world.state ≡ handles t)
  freed_with_last =
      subst
        (λ (x : System ℕ W T).
          (x.world.freed ≡ (handles x == 0)) × (Word.ref_count x.world.state ≡ handles x))
        mirror.image (Inv-counted same mirror.valid)

  -- In every reachable state in which the future gave its output and the executor has announced that,
  -- and the last poll of the join handle was pending, one waker was woken, once, and it wakes the
  -- task of that poll.
  pub join-Woken :
      (x : W) (v : T)
      → t.join ≡ free (some x)
      → t.result ≡ some v
      → t.phase ≡ parked
      → (y : W) × (t.world.woken ≡ y ∷ []) × (same y x ≡ true)
  join-Woken x v j r p =
      let P : System ℕ W T → Type 0 = λ z.
        z.join ≡ free (some x)
        → z.result ≡ some v
        → z.phase ≡ parked
        → (y : W) × (z.world.woken ≡ y ∷ []) × (same y x ≡ true) in
      subst P mirror.image (Inv-Woken same mirror.valid x v) j r p

  -- In every reachable state the output that the future gave is in the cell until the join handle takes
  -- it, and it is that output that the handle takes; once the handle is gone, or leaving, and the
  -- executor is not at the task, the output has been dropped. Before the future gave one, the cell
  -- holds the future.
  pub result-Output : Output t t.result
  result-Output =
      subst (λ (z : System ℕ W T). Output z z.result) mirror.image (Inv-Output same mirror.valid)

  -- In every reachable state in which the join handle is outside its polls and has not taken the
  -- output, a poll of it answers the output and empties the cell, if the future gave one; otherwise it
  -- is pending, and leaves a waker that wakes the polling task, with the word's bit for it set.
  pub try_read_output_lem :
      (old : Option W) (x : W) → t.join ≡ free old → Answered build same x t.world t.result
  try_read_output_lem old x j =
      let P : System ℕ W T → Type 0 =
        λ z. z.join ≡ free old → Answered build same x z.world z.result in
      subst P mirror.image (λ k. Inv-Answered build same whole mirror.valid old x (ground arith)) j
