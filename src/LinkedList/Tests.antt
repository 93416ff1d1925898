-- ===== src/LinkedList/Tests.antt =====
-- The list's theorems at concrete lists.
use monoio.Prelude.{◌≡◌, refl, true, none, some, [], ◌∷◌, ok, leb}
use monoio.LinkedList.{LinkedList, Memory, unlinked, write, remove}
use monoio.LinkedList.Refine.{IsList, SameOutside}
use monoio.LinkedList.Remove.{remove-IsList}
use monoio.LinkedList.Drain.{drain_all, drain_all_lem}

-- Nodes 3, 2 and 1, front first
abbrev three : Memory
three =
    write
      (write (write (λ _. unlinked) 3 (record { prev = none; next = some 2 })) 2
        (record { prev = some 3; next = some 1 }))
      1 (record { prev = some 2; next = none })

abbrev three_list : LinkedList
three_list = record { head = some 3; tail = some 1 }

three-IsList : IsList three three_list (3 ∷ 2 ∷ 1 ∷ [])
three-IsList = record {
  head = refl;
  tail = refl;
  linked = (refl, refl, (refl, refl, (refl, refl, tt)));
}

remove-IsList_example :
    (m2 : Memory) × (l2 : LinkedList) × (remove true three three_list 2 ≡ ok (some 2, m2, l2))
    × IsList m2 l2 (3 ∷ 1 ∷ [])
    × SameOutside (3 ∷ 2 ∷ 1 ∷ []) three m2
    × (m2 2 ≡ unlinked)
remove-IsList_example = remove-IsList true three three_list (3 ∷ []) 2 (1 ∷ []) three-IsList

drain_all_lem_example :
    (m2 : Memory) × (l2 : LinkedList) × (drain_all true (λ n. leb 2 n) 3 4 three three_list (some 3)
      ≡ some (ok (3 ∷ 2 ∷ [], m2, l2)))
    × IsList m2 l2 (1 ∷ [])
drain_all_lem_example =
    drain_all_lem true (λ n. leb 2 n) three three_list (3 ∷ 2 ∷ 1 ∷ []) three-IsList
