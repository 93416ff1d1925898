-- ===== src/Driver/Dispatch/Tests.antt =====
-- A source at token 0 that nobody has polled yet.
use mathlib.Core.List.{Mem}
use monoio.Prelude.{ℕ, ◌≡◌, refl, ◌⊎◌, true, ◌==◌, List, some, none, ◌∷◌, replicate, ok}
use monoio.Prelude.Bits.Length.{leading_zeros, bit_length}
use monoio.Slab.{new, insert, get, deref, assign}
use monoio.Slab.Inv.{Inv, view, new-Inv}
use monoio.Slab.Insert.{insert-Inv}
use monoio.Slab.Borrow.{Ends}
use monoio.Slab.Page
use monoio.Slab.Page.{uninit, occupied}
use monoio.Slab.Index.{get_page_id}
use monoio.Driver.Ready.{read, mask, readable}
use monoio.Driver.Ready.Laws.{ready_for}
use monoio.Driver.Dispatch.{
  ScheduledIo, fresh, Sources, would_block, dispatch, legacy_poll_op, poll_readiness,
}
use monoio.Driver.Dispatch.Laws.{woken, notified, dispatch_lem}
use monoio.Driver.Dispatch.Legacy.{answer, Result, legacy_poll_op_lem, legacy_poll_op-dispatch}

abbrev one_source : ScheduledIo ℕ → Sources ℕ
one_source io = record {
  pages =
      some (record {
        slots = occupied io ∷ replicate 63 uninit;
        used = 1;
        initialized = 1;
        next = 1;
        prev_len = 0;
      })
      ∷ replicate 25 none;
  w_page_id = 0;
  generation = 0;
}

registration : insert true new (fresh {W = ℕ}) ≡ ok (0, one_source fresh)
unfolding insert new Page.alloc Page.fill Page.create Page.is_full
registration = refl

registered-Inv : Inv (one_source fresh)
registered-Inv = insert-Inv true new fresh 0 (one_source fresh) new-Inv registration

page_of_zero : get_page_id 0 ≡ 0
unfolding get_page_id leading_zeros bit_length
page_of_zero = refl

source_at_zero : view (one_source fresh) 0 ≡ some fresh
source_at_zero = rw page_of_zero

legacy_poll_op_lem_example :
    Result ◌==◌ 4 read would_block true
      (one_source fresh)
      0
      fresh
      registered-Inv
      source_at_zero
      (answer ◌==◌ 4 read would_block fresh)
      (legacy_poll_op true (one_source fresh) ◌==◌ 4 read would_block 0)
legacy_poll_op_lem_example =
    legacy_poll_op_lem ◌==◌ 4 read would_block true (one_source fresh) 0 fresh registered-Inv
      source_at_zero

abbrev waiting_reader : Sources ℕ
waiting_reader = one_source (record { readiness = 0; reader = some 4; writer = none })

first_poll :
    legacy_poll_op true (one_source fresh) ◌==◌ 4 read would_block 0 ≡ ok (none, waiting_reader)
unfolding legacy_poll_op get deref assign Page.get Page.get_entry_mut Page.fill get_page_id
    leading_zeros bit_length poll_readiness mask
first_poll = refl

legacy_poll_op-dispatch_example :
    (w : ℕ) × (ws : List ℕ) × (end : Sources ℕ) × (after : ScheduledIo ℕ) × (dispatch true
        waiting_reader 0 readable
      ≡ ok (ws, end))
    × Mem w ws
    × ((w ≡ 4) ⊎ ((w == 4) ≡ true))
    × Inv end
    × (view end 0 ≡ some after)
    × (ready_for read after.readiness ≡ true)
legacy_poll_op-dispatch_example =
    legacy_poll_op-dispatch ◌==◌ 4 read would_block true (one_source fresh) 0 readable fresh
      waiting_reader registered-Inv source_at_zero first_poll refl

-- A source at token 0 that the task with waker 4 waits for.
abbrev waits : ScheduledIo ℕ
waits = record { readiness = 0; reader = some 4; writer = none }

waiting_registration : insert true new waits ≡ ok (0, waiting_reader)
unfolding insert new Page.alloc Page.fill Page.create Page.is_full
waiting_registration = refl

waiting-Inv : Inv waiting_reader
waiting-Inv = insert-Inv true new waits 0 waiting_reader new-Inv waiting_registration

waits_at_zero : view waiting_reader 0 ≡ some waits
waits_at_zero = rw page_of_zero

dispatch_lem_example :
    (end : Sources ℕ) × (dispatch true waiting_reader 0 readable ≡ ok (woken waits readable, end))
    × Ends waiting_reader 0 (some (notified waits readable)) end
dispatch_lem_example = dispatch_lem true waiting_reader 0 readable waits waiting-Inv waits_at_zero
