-- ===== src/Slab.antt =====
-- monoio/src/utils/slab.rs: storage that hands out keys, in pages that double in size. Reading a
-- page with an index that is out of range, which the code does unchecked, is undefined behaviour.
pub mod Page
pub mod Index
pub mod Inv
pub mod Insert
pub mod Compact
pub mod Remove
pub mod Borrow
mod Tests
use monoio.Prelude.{
  ℕ, zero, suc, ◌+◌, ◌-◌, ◌*◌, ◌%◌, ◌^◌, Bool, true, false, ◌&&◌, ◌==◌, ltb, if◌then◌else◌, Option,
  none, some, List, [], ◌∷◌, get_elem?, set, replicate, Outcome, ok, panic, undefined, add_usize,
  sub_usize, unwrap, ◌>>=◌, ◌>>◌,
}
use mathlib.Core.Option
use Index.{num_pages, page_initial_size, get_page_id}
use Page.{Slot, uninit, vacant, occupied}

abbrev pub compact_interval : ℕ
compact_interval = 2048

pub record Slab {ℓ} (T : Type ℓ) : Type ℓ where
  pub pages : List (Option (Page.Page T))
  pub w_page_id : ℕ
  pub generation : ℕ

-- A `Ref` to a slot: its page and its index there.
pub record Ref : Type 0 where
  pub page_id : ℕ
  pub index : ℕ

module _ {ℓ} {T : Type ℓ} where
  -- `Slab::new`
  unfoldable pub new : Slab T
  new = record { pages = replicate num_pages none; w_page_id = 0; generation = 0 }

  pub len : Slab T → ℕ
  len s = total s.pages
    where
      total : List (Option (Page.Page T)) → ℕ
      total [] = 0
      total (none ∷ pages) = total pages
      total (some page ∷ pages) = page.used + total pages

  -- `pages.get_unchecked_mut(i)`
  abbrev pub at : Option (Option (Page.Page T)) → Outcome (Option (Page.Page T))
  at none = undefined
  at (some page) = ok page

  abbrev pub put_page : Slab T → ℕ → Page.Page T → Slab T
  put_page s i page = record s { pages = set s.pages i (some page) }

  -- The end of `get`: only an occupied entry has a `Ref`.
  abbrev pub ref_of : ℕ → ℕ → Option (Slot T) → Option Ref
  ref_of page_id index (some (occupied v)) = some (record { page_id = page_id; index = index })
  ref_of page_id index _ = none

  get_in : Bool → ℕ → Option (Page.Page T) → Outcome (Option Ref)
  get_in debug key none = ok none
  get_in debug key (some page) = do
    index ← sub_usize debug key page.prev_len
    e ← Page.get_entry_mut page index
    ok (ref_of (get_page_id key) index e)

  unfoldable pub get : Bool → Slab T → ℕ → Outcome (Option Ref)
  unfolding get_in
  get debug s key = at (get_elem? s.pages (get_page_id key)) >>= get_in debug key

  -- The page of round `i` of `insert`, made if it is not there.
  abbrev pub page_or_new : ℕ → Option (Page.Page T) → Page.Page T
  page_or_new i (some page) = page
  page_or_new i none =
      let size = page_initial_size * 2 ^ i % 2 ^ 64 in Page.create size (size - page_initial_size)

  -- `set` at the allocated index, and the key.
  write : Bool → ℕ → Slab T → ℕ → Page.Page T → T → Outcome (ℕ × Slab T)
  write debug i s index page val = do
    q ← Page.fill page index val
    key ← add_usize debug index q.prev_len
    ok (key, record (put_page s i q) { w_page_id = i })

  -- The loop of `insert` with `n` rounds left, at page `i`.
  insert_from : Bool → ℕ → ℕ → Slab T → T → Outcome (ℕ × Slab T)
  insert_from debug zero i s val = panic
  insert_from debug (suc n) i s val = do
    found ← at (get_elem? s.pages i)
    r ← Page.alloc debug (page_or_new i found)
    elim r.0 [
      | none ↦ insert_from debug n (i + 1) (put_page s i r.1) val
      | some index ↦ write debug i s index r.1 val
    ]

  unfoldable pub insert : Bool → Slab T → T → Outcome (ℕ × Slab T)
  unfolding insert_from write
  insert debug s val = insert_from debug (num_pages - s.w_page_id) s.w_page_id s val

  -- The last page that is there, with its index.
  last_page : List (Option (Page.Page T)) → Option (ℕ × Page.Page T)
  last_page [] = none
  last_page (page ∷ pages) = elim (last_page pages) [
    | some (id, p) ↦ some (suc id, p)
    | none ↦ Option.map (λ p. (0, p)) page
  ]

  drop_empty : List (Option (Page.Page T)) → Option (ℕ × Page.Page T) → List (Option (Page.Page T))
  drop_empty pages none = pages
  drop_empty pages (some (id, p)) = if Page.is_empty p && ltb 0 id then set pages id none else pages

  unfoldable pub mark_remove : Slab T → Slab T
  unfolding last_page drop_empty
  mark_remove s =
      let generation = (s.generation + 1) % 2 ^ 32 in
      if generation % compact_interval == 0
      then record {
        pages = drop_empty s.pages (last_page s.pages);
        w_page_id = 0;
        generation = generation;
      }
      else record s { generation = generation }

  remove_in : Bool → Slab T → ℕ → Option (Page.Page T) → Outcome (Option T × Slab T)
  remove_in debug s key none = ok (none, s)
  remove_in debug s key (some page) = do
    index ← sub_usize debug key page.prev_len
    r ← Page.remove debug page index
    ok (r.0, mark_remove (put_page s (get_page_id key) r.1))

  unfoldable pub remove : Bool → Slab T → ℕ → Outcome (Option T × Slab T)
  unfolding remove_in
  remove debug s key = at (get_elem? s.pages (get_page_id key)) >>= remove_in debug s key

  -- The page that a `Ref` borrows.
  abbrev pub page_of : Slab T → Ref → Outcome (Page.Page T)
  page_of s r = at (get_elem? s.pages r.page_id) >>= unwrap

  -- `Ref::as_ref`
  unfoldable pub deref : Slab T → Ref → Outcome T
  deref s r = do page ← page_of s r; v ← Page.get page r.index; unwrap v

  -- An assignment through `Ref::as_mut`
  unfoldable pub assign : Slab T → Ref → T → Outcome (Slab T)
  assign s r val = do
    page ← page_of s r
    v ← Page.get page r.index
    old ← unwrap v
    q ← Page.fill page r.index val
    ok (put_page s r.page_id q)

  -- `Ref::remove`
  unfoldable pub take : Bool → Slab T → Ref → Outcome (T × Slab T)
  take debug s r = do
    page ← page_of s r
    x ← Page.remove debug page r.index
    v ← unwrap x.0
    ok (v, mark_remove (put_page s r.page_id x.1))
