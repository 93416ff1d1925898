-- ===== src/Slab/Page.antt =====
-- monoio/src/utils/slab.rs, `Page`: a block of slots with a free list threaded through the vacant
-- ones. A slot that was never written is `uninit`; to read one as an entry, or to index past the
-- slots unchecked, is undefined behaviour.
pub mod Free
pub mod Inv
pub mod Laws
pub mod Assign
use monoio.Prelude.{
  ℕ, ◌+◌, ◌-◌, Bool, true, false, not, ◌==◌, ltb, leb, if◌then◌else◌, Option, none, some, List, [],
  ◌∷◌, length, get_elem?, set, replicate, Outcome, ok, panic, undefined, debug_assert, add_usize,
  sub_usize, ◌>>=◌, ◌>>◌,
}

-- `Entry<T>`, or memory that was not initialised.
pub data Slot {ℓ} (T : Type ℓ) : Type ℓ where
  uninit : Slot T
  vacant : ℕ → Slot T
  occupied : T → Slot T

pub record Page {ℓ} (T : Type ℓ) : Type ℓ where
  pub slots : List (Slot T)
  pub used : ℕ
  pub initialized : ℕ
  pub next : ℕ
  pub prev_len : ℕ

module _ {ℓ} {T : Type ℓ} where
  -- `Page::new`
  unfoldable pub create : ℕ → ℕ → Page T
  create size prev_len = record {
    slots = replicate size uninit;
    used = 0;
    initialized = 0;
    next = 0;
    prev_len = prev_len;
  }

  unfoldable pub is_empty : Page T → Bool
  is_empty p = p.used == 0

  unfoldable pub is_full : Page T → Bool
  is_full p = p.used == length p.slots

  -- The entry behind `get_unchecked(..).assume_init_ref()`: `none` is undefined behaviour.
  abbrev pub entry : Option (Slot T) → Outcome (Slot T)
  entry none = undefined
  entry (some uninit) = undefined
  entry (some s) = ok s

  -- `alloc` at an initialised slot: the slot must be vacant, and names the next free one.
  abbrev pub vacant_next : Slot T → Outcome ℕ
  vacant_next (vacant n) = ok n
  vacant_next _ = undefined

  -- Grow into the uninitialised slots, or take the slot that heads the free list.
  alloc_slot : Bool → Page T → Outcome (Page T)
  alloc_slot debug p =
      if leb p.initialized p.next
      then (do
        debug_assert debug (p.next == p.initialized)
        i ← add_usize debug p.initialized 1
        n ← add_usize debug p.next 1
        ok (record p { initialized = i; next = n }))
      else (do s ← entry (get_elem? p.slots p.next); n ← vacant_next s; ok (record p { next = n }))

  unfoldable pub alloc : Bool → Page T → Outcome (Option ℕ × Page T)
  unfolding is_full alloc_slot
  alloc debug p =
      if is_full p then debug_assert debug (p.next == length p.slots) >> ok (none, p) else (do
        q ← alloc_slot debug p
        u ← add_usize debug q.used 1
        ok (some p.next, record q { used = u }))

  -- `Page::set`
  unfoldable pub fill : Page T → ℕ → T → Outcome (Page T)
  fill p slot val =
      if ltb slot (length p.slots)
      then ok (record p { slots = set p.slots slot (occupied val) })
      else undefined

  abbrev pub value : Slot T → Option T
  value (occupied v) = some v
  value _ = none

  -- `get` and `get_mut`
  unfoldable pub get : Page T → ℕ → Outcome (Option T)
  get p slot =
      if leb p.initialized slot
      then ok none
      else (entry (get_elem? p.slots slot) >>= λ s. ok (value s))

  unfoldable pub get_entry_mut : Page T → ℕ → Outcome (Option (Slot T))
  get_entry_mut p slot =
      if leb p.initialized slot
      then ok none
      else (entry (get_elem? p.slots slot) >>= λ s. ok (some s))

  -- `remove` at an entry
  take_entry : Bool → Page T → ℕ → Slot T → Outcome (Option T × Page T)
  take_entry debug p slot (occupied v) = do
    u ← sub_usize debug p.used 1
    ok (some v, record p { slots = set p.slots slot (vacant p.next); next = slot; used = u })
  take_entry debug p slot _ = ok (none, p)

  unfoldable pub remove : Bool → Page T → ℕ → Outcome (Option T × Page T)
  unfolding take_entry
  remove debug p slot =
      if leb p.initialized slot
      then ok (none, p)
      else (do s ← entry (get_elem? p.slots slot); take_entry debug p slot s)
