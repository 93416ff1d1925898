-- ===== src/Slab/Tests.antt =====
-- The slab run at concrete keys, and its theorems there.
use monoio.Prelude.{ℕ, ◌≡◌, refl, ◌⊎◌, true, none, some, ◌∷◌, replicate, ok, panic}
use monoio.Slab.{Slab, Ref, new, insert, remove, get}
use monoio.Slab.Inv.{Inv, view, new-Inv}
use monoio.Slab.Insert.{Inserted, FullFrom, insert_lem, insert-Inv}
use monoio.Slab.Remove.{Freed, remove_lem}
use monoio.Slab.Borrow.{Borrowed, get_lem}
use monoio.Slab.Page
use monoio.Slab.Page.{uninit, vacant, occupied}

abbrev one_item : Slab ℕ
one_item = record {
  pages =
      some (record {
        slots = occupied 70 ∷ replicate 63 uninit;
        used = 1;
        initialized = 1;
        next = 1;
        prev_len = 0;
      })
      ∷ replicate 25 none;
  w_page_id = 0;
  generation = 0;
}

first_insert : insert true new 70 ≡ ok (0, one_item)
unfolding insert new Page.alloc Page.fill Page.create Page.is_full
first_insert = refl

one_item-Inv : Inv one_item
one_item-Inv = insert-Inv true new 70 0 one_item new-Inv first_insert

insert_lem_example :
    Inserted one_item 71 (insert true one_item 71)
    ⊎ ((insert true one_item 71 ≡ panic) × FullFrom 0 one_item)
insert_lem_example = insert_lem true one_item 71 one_item-Inv

remove_lem_example :
    (end : Slab ℕ) × (remove true one_item 0 ≡ ok (view one_item 0, end)) × Freed one_item 0 end
remove_lem_example = remove_lem true one_item 0 one_item-Inv

get_lem_example :
    ((view one_item 0 ≡ none) × (get true one_item 0 ≡ ok none))
    ⊎ ((val : ℕ) × (r : Ref) × (view one_item 0 ≡ some val)
        × (get true one_item 0 ≡ ok (some r))
        × Borrowed true one_item 0 r val)
get_lem_example = get_lem true one_item 0 one_item-Inv
