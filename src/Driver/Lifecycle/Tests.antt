-- ===== src/Driver/Lifecycle/Tests.antt =====
-- One operation at index 0 of an otherwise empty slab.
use monoio.Prelude.{ℕ, ◌≡◌, refl, true, ◌==◌, some, none, [], ◌∷◌, replicate, ok}
use monoio.Prelude.Bits.Length.{leading_zeros, bit_length}
use monoio.Slab.{new, insert, get, deref, assign, take, mark_remove}
use monoio.Slab.Inv.{Inv, view, new-Inv}
use monoio.Slab.Insert.{insert-Inv}
use monoio.Slab.Page
use monoio.Slab.Page.{Slot, uninit, vacant, occupied}
use monoio.Slab.Index.{get_page_id}
use monoio.Driver.Lifecycle.{
  Ops, success, MaybeFdLifecycle, submitted, waiting, ops_insert, ops_complete, uring_poll_op,
  uring_drop_op, complete, poll_op, drop_op,
}
use monoio.Driver.Lifecycle.Spec.{flight, waits, on_cqe, polled, dropped}
use monoio.Driver.Lifecycle.Refine.{Completes, ops_complete-Completes}
use monoio.Driver.Lifecycle.Future.{Polls, Drops, uring_poll_op-Polls, uring_drop_op-Drops}
use monoio.Driver.Lifecycle.Run.{run, run_event, cqe, polls, drops, first_cqe}
use monoio.Driver.Lifecycle.Run.Once.{run-descriptor, descriptor}

abbrev slab_of : ℕ → ℕ → Slot (MaybeFdLifecycle ℕ ℕ) → ℕ → Ops ℕ ℕ
slab_of used next slot generation = record {
  pages =
      some (record {
        slots = slot ∷ replicate 63 uninit;
        used = used;
        initialized = 1;
        next = next;
        prev_len = 0;
      })
      ∷ replicate 25 none;
  w_page_id = 0;
  generation = generation;
}

abbrev accepting : Ops ℕ ℕ
accepting = slab_of 1 1 (occupied (record { is_fd = true; lifecycle = submitted })) 0

abbrev parked : Ops ℕ ℕ
parked = slab_of 1 1 (occupied (record { is_fd = true; lifecycle = waiting 5 })) 0

accept_insertion : ops_insert true new true ≡ ok (0, accepting)
unfolding ops_insert insert new Page.alloc Page.fill Page.create Page.is_full
accept_insertion = refl

accepting-Inv : Inv accepting
unfolding ops_insert
accepting-Inv =
    insert-Inv true new (record { is_fd = true; lifecycle = submitted }) 0 accepting new-Inv
      accept_insertion

parked_insertion : insert true new (record { is_fd = true; lifecycle = waiting 5 }) ≡ ok (0, parked)
unfolding insert new Page.alloc Page.fill Page.create Page.is_full
parked_insertion = refl

parked-Inv : Inv parked
parked-Inv =
    insert-Inv true new (record { is_fd = true; lifecycle = waiting 5 }) 0 parked new-Inv
      parked_insertion

page_of_zero : get_page_id 0 ≡ 0
unfolding get_page_id leading_zeros bit_length
page_of_zero = refl

accepting_at_zero : view accepting 0 ≡ some (record { is_fd = true; lifecycle = submitted })
accepting_at_zero = rw page_of_zero

parked_at_zero : view parked 0 ≡ some (record { is_fd = true; lifecycle = waiting 5 })
parked_at_zero = rw page_of_zero

ops_complete-Completes_example :
    Completes true parked 0 true (waits 5) (success 9) 0 flight (on_cqe flight (success 9) 0)
ops_complete-Completes_example =
    ops_complete-Completes true parked parked-Inv 0 true flight (waits 5) (success 9) 0
      (record { is_fd = true; lifecycle = waiting 5 }) refl parked_at_zero

uring_poll_op-Polls_example :
    Polls ◌==◌ true parked 0 true 6 flight (polled true ◌==◌ flight (waits 5) 6)
uring_poll_op-Polls_example =
    uring_poll_op-Polls true parked parked-Inv 0 true ◌==◌ flight (waits 5) 6
      (record { is_fd = true; lifecycle = waiting 5 }) refl parked_at_zero

uring_drop_op-Drops_example :
    Drops true parked 0 true (some 3) flight (dropped {W = ℕ} true flight (waits 5) (some 3))
uring_drop_op-Drops_example =
    uring_drop_op-Drops true parked parked-Inv 0 true flight (waits 5) (some 3)
      (record { is_fd = true; lifecycle = waiting 5 }) refl refl parked_at_zero

-- A descriptor that arrives after the future was dropped.
abbrev freed : Ops ℕ ℕ
freed = slab_of 0 0 (vacant 1) 1

late :
    run true ◌==◌ 0 accepting (polls 5 ∷ drops (some 3) ∷ cqe (success 9) 0 ∷ [])
    ≡ ok (9 ∷ [], freed)
unfolding run run_event ops_complete uring_poll_op uring_drop_op complete poll_op drop_op get deref
    assign take mark_remove get_page_id leading_zeros bit_length Page.is_empty Page.get
    Page.get_entry_mut Page.fill Page.remove
late = refl

freed_at_zero : view freed 0 ≡ none
freed_at_zero = rw page_of_zero

run-descriptor_example :
    9 ∷ []
    ≡ descriptor true
        (first_cqe {W = ℕ} {D = ℕ} (polls 5 ∷ drops (some 3) ∷ cqe (success 9) 0 ∷ []))
run-descriptor_example =
    run-descriptor true ◌==◌ 0 true refl (polls 5 ∷ drops (some 3) ∷ cqe (success 9) 0 ∷ [])
      accepting (9 ∷ []) freed accepting-Inv accepting_at_zero late freed_at_zero
