-- ===== src/Time/Wheel.antt =====
-- monoio/src/time/driver/wheel/level.rs and mod.rs: the hierarchical wheel. Timers are known by
-- numbers, `Timers` is the memory that they live in, and an entry list is the list of the timers
-- in it, its front first. Ticks are 64-bit words.
pub mod Place
mod Round
pub mod Expire
mod Tests
use monoio.Prelude.{
  ℕ, zero, suc, ◌+◌, ◌-◌, ◌*◌, ◌/◌, ◌%◌, ◌^◌, min, bit_and, bit_or, bit_xor, Bool, true, false,
  ◌&&◌, ◌==◌, ltb, leb, not, if◌then◌else◌, Option, none, some, List, [], ◌∷◌, ◌++◌, get_elem?, set,
  replicate, ◌⊎◌, inl, inr, Outcome, ok, panic, undefined, assert, debug_assert, add_usize, ◌>>=◌,
  ◌>>◌,
}
use monoio.Prelude.Bits.Length.{leading_zeros}
use monoio.Time.Entry.{Timer, mark_pending, sync_when}

abbrev pub level_mult : ℕ
level_mult = 64

abbrev pub num_levels : ℕ
num_levels = 6

abbrev pub max_duration : ℕ
max_duration = 2 ^ 36 - 1

pub record Level : Type 0 where
  pub level : ℕ
  pub slot_range : ℕ
  pub level_range : ℕ
  pub occupied : ℕ
  pub slot : List (List ℕ)

pub record Expiration : Type 0 where
  pub level : ℕ
  pub slot : ℕ
  pub deadline : ℕ

pub record Wheel : Type 0 where
  pub elapsed : ℕ
  pub levels : List Level
  pub pending : List ℕ

-- The functions `slot_range` and `level_range`
abbrev pub slot_range_of : ℕ → ℕ
slot_range_of level = level_mult ^ level

abbrev pub level_range_of : ℕ → ℕ
level_range_of level = level_mult * slot_range_of level

abbrev pub occupied_bit : ℕ → ℕ
occupied_bit slot = 2 ^ slot

unfoldable pub slot_for : ℕ → ℕ → ℕ
slot_for duration level = duration / 2 ^ (level * 6) % level_mult

-- `Level::new`
abbrev pub new_level : ℕ → Level
new_level level = record {
  level = level;
  slot_range = slot_range_of level;
  level_range = level_range_of level;
  occupied = 0;
  slot = replicate level_mult [];
}

abbrev pub rotate_right : ℕ → ℕ → ℕ
rotate_right x k = x / 2 ^ (k % 64) + x % 2 ^ (k % 64) * 2 ^ (64 - k % 64) % 2 ^ 64

-- On at most `w` bits
trailing_zeros : ℕ → ℕ → ℕ
trailing_zeros zero x = 0
trailing_zeros (suc w) x = let rest = trailing_zeros w (x / 2) in if x % 2 == 1 then 0 else suc rest

unfoldable pub next_occupied_slot : Bool → Level → ℕ → Outcome (Option ℕ)
unfolding trailing_zeros
next_occupied_slot debug l now =
    if l.occupied == 0
    then ok none
    else (let now_slot = now / l.slot_range in
        let zeros = trailing_zeros 64 (rotate_right l.occupied (now_slot % 2 ^ 32)) in
        add_usize debug zeros now_slot >>= λ sum. ok (some (sum % 64)))

-- The deadline of a slot, from the start of the level's current rotation.
deadline_in : Bool → Level → ℕ → ℕ → Outcome ℕ
deadline_in debug l now deadline =
    if leb deadline now
    then debug_assert debug (l.level == num_levels - 1) >> add_usize debug deadline l.level_range
    else ok deadline

expiration_of : Bool → Level → ℕ → Option ℕ → Outcome (Option Expiration)
expiration_of debug l now none = ok none
expiration_of debug l now (some slot) = do
  start ← add_usize debug (bit_and now (2 ^ 64 - 1 - (l.level_range - 1))) (slot * l.slot_range)
  deadline ← deadline_in debug l now start
  debug_assert debug (leb now deadline)
  ok (some (record { level = l.level; slot = slot; deadline = deadline }))

-- `Level::next_expiration`
unfoldable pub level_expiration : Bool → Level → ℕ → Outcome (Option Expiration)
unfolding expiration_of deadline_in
level_expiration debug l now = next_occupied_slot debug l now >>= expiration_of debug l now

-- The entries of a slot; indexing out of range panics.
abbrev pub entries : Option (List ℕ) → Outcome (List ℕ)
entries none = panic
entries (some es) = ok es

abbrev pub Timers : Type 0 → Type 0 → Type 0
Timers W E = ℕ → Timer W E

abbrev pub update : {W E : Type 0} → Timers W E → ℕ → Timer W E → Timers W E
update ts item t other = if item == other then t else ts other

-- `add_entry`, with the item's cached deadline
unfoldable pub add_entry : Level → ℕ → ℕ → Outcome Level
add_entry l item cached_when = do
  es ← entries (get_elem? l.slot (slot_for cached_when l.level))
  ok (record l {
    slot = set l.slot (slot_for cached_when l.level) (item ∷ es);
    occupied = bit_or l.occupied (occupied_bit (slot_for cached_when l.level));
  })

abbrev pub erase : ℕ → List ℕ → List ℕ
erase item [] = []
erase item (x ∷ xs) = let rest = erase item xs in if item == x then xs else x ∷ rest

abbrev pub is_nil : List ℕ → Bool
is_nil [] = true
is_nil (x ∷ xs) = false

unfoldable pub remove_entry : Bool → Level → ℕ → ℕ → Outcome Level
remove_entry debug l item cached_when =
    entries (get_elem? l.slot (slot_for cached_when l.level)) >>= λ es.
    (let slot = slot_for cached_when l.level in
      let left = record l { slot = set l.slot slot (erase item es) } in
      if is_nil (erase item es)
      then debug_assert debug (not (bit_and l.occupied (occupied_bit slot) == 0))
        >> ok (record left { occupied = bit_xor l.occupied (occupied_bit slot) })
      else ok left)

unfoldable pub take_slot : Level → ℕ → Outcome (List ℕ × Level)
take_slot l slot = do
  es ← entries (get_elem? l.slot slot)
  ok (
    es,
    record l {
      slot = set l.slot slot [];
      occupied = bit_and l.occupied (2 ^ 64 - 1 - occupied_bit slot);
    },
  )

-- The function `level_for`
unfoldable pub level_for : ℕ → ℕ → ℕ
level_for elapsed when =
    let masked = bit_or (bit_xor elapsed when) (2 ^ 6 - 1) in
    let capped = if leb max_duration masked then max_duration - 1 else masked in
    (63 - leading_zeros capped) / 6

-- `Wheel::new`
abbrev pub new_wheel : Wheel
new_wheel = record {
  elapsed = 0;
  levels = new_level 0 ∷ new_level 1 ∷ new_level 2 ∷ new_level 3 ∷ new_level 4 ∷ new_level 5 ∷ [];
  pending = [];
}

-- `levels.get_unchecked_mut(i)`
abbrev pub level_at : Option Level → Outcome Level
level_at none = undefined
level_at (some l) = ok l

-- An entry at a level of the wheel.
unfoldable pub add_at : Wheel → ℕ → ℕ → ℕ → Outcome Wheel
add_at w level item cached_when = do
  l ← level_at (get_elem? w.levels level)
  l2 ← add_entry l item cached_when
  ok (record w { levels = set w.levels level l2 })

unfoldable pub set_elapsed : Wheel → ℕ → Outcome Wheel
set_elapsed w when =
    assert (leb w.elapsed when)
    >> ok (if ltb w.elapsed when then record w { elapsed = when } else w)

-- What `insert` asserts of the level at the end, in a debug build.
insert_check : Bool → Wheel → ℕ → Outcome (Unit {0})
insert_check false w level = ok tt
insert_check true w level = do
  l ← level_at (get_elem? w.levels level)
  e ← level_expiration true l w.elapsed
  elim e [ none ↦ ok tt | some x ↦ assert (leb w.elapsed x.deadline) ]

module _ {W E : Type 0} (debug : Bool) where
  -- `insert`: `none` is `InsertError::Elapsed`.
  unfoldable pub insert : Wheel → Timers W E → ℕ → Outcome (Option ℕ × Wheel × Timers W E)
  unfolding insert_check
  insert w ts item = sync_when (ts item) >>= λ x.
      (if leb x.0 w.elapsed
        then ok (none, w, update ts item x.1)
        else (add_at w (level_for w.elapsed x.0) item x.0 >>= λ w2.
            (insert_check debug w2 (level_for w.elapsed x.0)
              >> ok (some x.0, w2, update ts item x.1))))

  -- One round of the loop of `process_expiration`.
  placed :
      Expiration
      → Wheel
      → Timers W E
      → ℕ
      → (Unit {0} ⊎ ℕ) × Timer W E
      → Outcome (Wheel × Timers W E)
  placed e w ts item (inl due, t) = ok (record w { pending = item ∷ w.pending }, update ts item t)
  placed e w ts item (inr tick, t) =
      add_at w (level_for e.deadline tick) item t.cached_when >>= λ w2. ok (w2, update ts item t)

  process_one : Expiration → Wheel → Timers W E → ℕ → Outcome (Wheel × Timers W E)
  unfolding placed
  process_one e w ts item =
      debug_assert (debug && e.level == 0) ((ts item).cached_when == e.deadline)
      >> (mark_pending debug (ts item) e.deadline >>= placed e w ts item)

  -- The loop takes the entries from the back.
  unfoldable pub process_all :
      Expiration → Wheel → Timers W E → List ℕ → Outcome (Wheel × Timers W E)
  unfolding process_one
  process_all e w ts [] = ok (w, ts)
  process_all e w ts (item ∷ items) = do x ← process_all e w ts items; process_one e x.0 x.1 item

  unfoldable pub process_expiration : Expiration → Wheel → Timers W E → Outcome (Wheel × Timers W E)
  unfolding process_all
  process_expiration e w ts = do
    l ← level_at (get_elem? w.levels e.level)
    x ← take_slot l e.slot
    process_all e (record w { levels = set w.levels e.level x.1 }) ts x.0

-- `no_expirations_before`, of the levels in the list.
no_expirations_before : Bool → List Level → ℕ → ℕ → Outcome Bool
no_expirations_before debug [] elapsed before = ok true
no_expirations_before debug (l ∷ ls) elapsed before = do
  rest ← no_expirations_before debug ls elapsed before
  e ← level_expiration debug l elapsed
  ok (rest && elim e [ none ↦ true | some x ↦ leb before x.deadline ])

-- The first level with an expiration, which the debug build checks against the levels above.
first_expiration : Bool → List Level → ℕ → Outcome (Option Expiration)
first_expiration debug [] elapsed = ok none
first_expiration debug (l ∷ ls) elapsed =
    let rest = first_expiration debug ls elapsed in
    level_expiration debug l elapsed >>= λ e. elim e [
      | none ↦ rest
      | some x ↦
          (no_expirations_before debug ls elapsed x.deadline >>= λ b.
          (debug_assert debug b >> ok (some x)))
    ]

unfoldable pub next_expiration : Bool → Wheel → Outcome (Option Expiration)
unfolding first_expiration no_expirations_before
next_expiration debug w =
    if is_nil w.pending
    then first_expiration debug w.levels w.elapsed
    else ok (some (record { level = 0; slot = 0; deadline = w.elapsed }))

-- `remove`, of a timer with this cached deadline
unfoldable pub remove : Bool → Wheel → ℕ → ℕ → Outcome Wheel
remove debug w item cached_when =
    if cached_when == 2 ^ 64 - 1 then ok (record w { pending = erase item w.pending }) else (do
      debug_assert debug (leb w.elapsed cached_when)
      l ← level_at (get_elem? w.levels (level_for w.elapsed cached_when))
      l2 ← remove_entry debug l item cached_when
      ok (record w { levels = set w.levels (level_for w.elapsed cached_when) l2 }))
