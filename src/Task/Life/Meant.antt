-- ===== src/Task/Life/Meant.antt =====
-- The life of a task whose state goes through the transitions of the specification.
use monoio.Prelude.{
  ◌^◌, ◌≤◌, ◌≡◌, Bool, true, false, not, ◌&&◌, ◌||◌, Option, none, some, List, [], ◌∷◌, ◌==◌,
  if◌then◌else◌,
}
use monoio.Task.State.Flags.{Flags}
use monoio.Task.State.Queue.Meant.{in_queue}
use monoio.Task.Cell.{Stage, running, finished, consumed, World}
use monoio.Task.Life.{
  Phase, parked, polling, announcing, Join, free, stale, vacant, readable, taken, leaving, gone,
  System, handles,
}

abbrev is_some : {A : Type 0} → Option A → Bool
is_some none = false
is_some (some _) = true

abbrev is_polling : {S : Type 0} → Phase S → Bool
is_polling parked = false
is_polling polling = true
is_polling (announcing _) = false

abbrev is_announcing : {S : Type 0} → Phase S → Bool
is_announcing parked = false
is_announcing polling = false
is_announcing (announcing _) = true

abbrev pub matches : {W : Type 0} → (W → W → Bool) → Option W → W → Bool
matches same none x = false
matches same (some y) x = same y x

abbrev pub woken_of : {W : Type 0} → Flags → Phase Flags → Option W → List W
woken_of f phase none = []
woken_of f phase (some y) =
    if f.complete && not (is_announcing phase) && f.join_interest && f.join_waker
    then y ∷ []
    else []

abbrev SameBits : Phase Flags → Flags → Type 0
SameBits parked f = Unit
SameBits polling f = Unit
SameBits (announcing g) f = (g.join_interest ≡ f.join_interest) × (g.join_waker ≡ f.join_waker)

module _ {W T : Type 0} where
  -- The join handle wants the output.
  abbrev interested : Join Flags W T → Bool
  interested (free _) = true
  interested (stale _) = true
  interested (vacant _ _) = true
  interested readable = true
  interested (taken _) = true
  interested leaving = false
  interested gone = false

  abbrev is_taken : Join Flags W T → Bool
  is_taken (free _) = false
  is_taken (stale _) = false
  is_taken (vacant _ _) = false
  is_taken readable = false
  is_taken (taken _) = true
  is_taken leaving = false
  is_taken gone = false

  -- The output stands in the cell until it is taken or dropped.
  abbrev pub stage_of : Flags → Phase Flags → Join Flags W T → Option T → Stage T
  stage_of f phase join none = running
  stage_of f phase join (some v) =
      if not (is_taken join) && (interested join || (is_announcing phase && not f.join_interest))
      then finished v
      else consumed

  -- What each point of the join handle's code has seen.
  abbrev pub Seen : (W → W → Bool) → World Flags W T → Option T → Join Flags W T → Type 0
  Seen same w result (free none) = Unit
  Seen same w result (free (some x)) = (w.state.join_waker ≡ true) × (matches same w.waker x ≡ true)
  Seen same w result (stale x) = w.state.join_waker ≡ true
  Seen same w result (vacant x g) =
      (w.state.join_waker ≡ false) × (g.join_interest ≡ true) × (g.join_waker ≡ false)
  Seen same w result readable = w.state.complete ≡ true
  Seen same w result (taken v) = result ≡ some v
  Seen same w result leaving = Unit
  Seen same w result gone = Unit

  pub record Inv (same : W → W → Bool) (s : System Flags W T) : Type 0 where
    pub counted : s.world.state.refs ≡ handles s
    pub bounded : handles s ≤ 2 ^ 58
    pub released : s.world.freed ≡ (handles s == 0)
    pub queued : s.world.queue ≤ in_queue s.world.state
    pub polled : s.world.state.running ≡ is_polling s.phase
    pub ended : s.world.state.complete ≡ is_some s.result
    pub either : (s.world.state.running && s.world.state.complete) ≡ false
    pub telling : (is_announcing s.phase && not s.world.state.complete) ≡ false
    pub frozen : SameBits s.phase s.world.state
    pub wanted : interested s.join ≡ true → s.world.state.join_interest ≡ true
    pub unwanted :
        s.world.state.complete ≡ false
        → interested s.join ≡ false
        → s.world.state.join_interest ≡ false
    pub placed : s.world.state.join_waker ≡ true → is_some s.world.waker ≡ true
    pub seen : Seen same s.world s.result s.join
    pub kept : s.world.stage ≡ stage_of s.world.state s.phase s.join s.result
    pub told : s.world.woken ≡ woken_of s.world.state s.phase s.world.waker
