-- ===== src/LinkedList.antt =====
-- monoio/src/utils/linked_list.rs: the intrusive doubly linked list. Nodes are known by numbers and
-- `Memory` holds the pointers of each; that a pointer given to the list is valid, pinned and not in
-- another list is what `Link` asks of its implementations and callers.
pub mod Seg
pub mod Refine
pub mod Remove
pub mod Drain
mod Tests
use monoio.Prelude.{
  ℕ, zero, suc, Bool, true, false, not, ◌==◌, if◌then◌else◌, Option, none, some, List, [], ◌∷◌,
  Outcome, ok, panic, assert, debug_assert, ◌>>=◌, ◌>>◌,
}

pub record Pointers : Type 0 where
  pub prev : Option ℕ
  pub next : Option ℕ

pub record LinkedList : Type 0 where
  pub head : Option ℕ
  pub tail : Option ℕ

abbrev pub Memory : Type 0
Memory = ℕ → Pointers

-- `Pointers::new` and `LinkedList::new`
abbrev pub unlinked : Pointers
unlinked = record { prev = none; next = none }

abbrev pub new : LinkedList
new = record { head = none; tail = none }

abbrev pub write : Memory → ℕ → Pointers → Memory
write m p v q = if p == q then v else m q

abbrev pub set_prev : Memory → ℕ → Option ℕ → Memory
set_prev m p o = write m p (record (m p) { prev = o })

abbrev pub set_next : Memory → ℕ → Option ℕ → Memory
set_next m p o = write m p (record (m p) { next = o })

-- Through an optional pointer
abbrev pub set_prev_of : Memory → Option ℕ → Option ℕ → Memory
set_prev_of m none o = m
set_prev_of m (some p) o = set_prev m p o

abbrev pub set_next_of : Memory → Option ℕ → Option ℕ → Memory
set_next_of m none o = m
set_next_of m (some p) o = set_next m p o

-- `==` of `Option<NonNull<T>>` with `Some`
abbrev pub is : Option ℕ → ℕ → Bool
is none p = false
is (some q) p = q == p

abbrev pub or_else : Option ℕ → ℕ → Option ℕ
or_else none p = some p
or_else (some q) p = some q

unfoldable pub push_front : Memory → LinkedList → ℕ → Outcome (Memory × LinkedList)
push_front m l ptr =
    assert (not (is l.head ptr))
    >> ok (
      set_prev_of (set_prev (set_next m ptr l.head) ptr none) l.head (some ptr),
      record { head = some ptr; tail = or_else l.tail ptr },
    )

-- The new head, once the last node is unlinked from `prev`.
abbrev pub keep_if : Option ℕ → Option ℕ → Option ℕ
keep_if none o = none
keep_if (some p) o = o

pop_last : Memory → LinkedList → Option ℕ → Option ℕ × Memory × LinkedList
pop_last m l none = (none, m, l)
pop_last m l (some last) =
    let prev = (m last).prev in
    let m2 = set_next_of m prev none in
    (
      some last,
      set_next (set_prev m2 last none) last none,
      record { head = keep_if prev l.head; tail = prev },
    )

unfoldable pub pop_back : Memory → LinkedList → Option ℕ × Memory × LinkedList
unfolding pop_last
pop_back m l = pop_last m l l.tail

abbrev pub is_none : Option ℕ → Bool
is_none none = true
is_none (some p) = false

unfoldable pub is_empty : LinkedList → Outcome Bool
is_empty l = if is_none l.head then assert (is_none l.tail) >> ok true else ok false

-- The first half of `remove`: unlink the node from what precedes it. `none` is the early return.
unlink_prev : Bool → Memory → LinkedList → ℕ → Option ℕ → Outcome (Option (Memory × LinkedList))
unlink_prev debug m l node (some prev) =
    debug_assert debug (is (m prev).next node) >> ok (some (set_next m prev (m node).next, l))
unlink_prev debug m l node none =
    ok (if is l.head node then some (m, record l { head = (m node).next }) else none)

-- The second half: from what follows it.
unlink_next : Bool → Memory → LinkedList → ℕ → Option ℕ → Outcome (Option (Memory × LinkedList))
unlink_next debug m l node (some next) =
    debug_assert debug (is (m next).prev node) >> ok (some (set_prev m next (m node).prev, l))
unlink_next debug m l node none =
    ok (if is l.tail node then some (m, record l { tail = (m node).prev }) else none)

unlink_rest :
    Bool
    → Memory
    → LinkedList
    → ℕ
    → Option (Memory × LinkedList)
    → Outcome (Option ℕ × Memory × LinkedList)
unlink_rest debug m l node none = ok (none, m, l)
unlink_rest debug m l node (some (m2, l2)) =
    ok (some node, set_prev (set_next m2 node none) node none, l2)

unlink_both :
    Bool
    → Memory
    → LinkedList
    → ℕ
    → Option (Memory × LinkedList)
    → Outcome (Option ℕ × Memory × LinkedList)
unfolding unlink_next unlink_rest
unlink_both debug m l node none = ok (none, m, l)
unlink_both debug m l node (some (m2, l2)) =
    unlink_next debug m2 l2 node (m2 node).next >>= unlink_rest debug m2 l2 node

unfoldable pub remove : Bool → Memory → LinkedList → ℕ → Outcome (Option ℕ × Memory × LinkedList)
unfolding unlink_prev unlink_both
remove debug m l node = unlink_prev debug m l node (m node).prev >>= unlink_both debug m l node

abbrev pub last : LinkedList → Option ℕ
last l = l.tail

-- `DrainFilter`: what its loop keeps, and `none` for an iterator that ran out of fuel.
pub record DrainFilter : Type 0 where
  pub memory : Memory
  pub list : LinkedList
  pub curr : Option ℕ

abbrev pub drain_filter : Memory → LinkedList → DrainFilter
drain_filter m l = record { memory = m; list = l; curr = l.head }

pub drain_next :
    Bool
    → (ℕ → Bool)
    → ℕ
    → Memory
    → LinkedList
    → Option ℕ
    → Option (Outcome (Option ℕ × DrainFilter))
drain_next debug filter fuel m l none =
    some (ok (none, record { memory = m; list = l; curr = none }))
drain_next debug filter zero m l (some curr) = none
drain_next debug filter (suc fuel) m l (some curr) =
    let rest = drain_next debug filter fuel m l (m curr).next in
    if filter curr
    then some (
        remove debug m l curr >>= λ r.
        ok (r.0, record { memory = r.1; list = r.2; curr = (m curr).next }))
    else rest
