-- ===== src/CompactVector/Tests.antt =====
-- utils/compact_vector.h: concrete vectors, with two cells inside the object.
use jml_base.Common.{ℕ, ◌≡◌, refl, arith, none, some, List, [], ◌∷◌}
use jml_base.Common.Result.{ok}
use jml_base.CompactVector.{CompactVector, itl, ext, new, data_of, capacity_of}
use jml_base.CompactVector.Calls.{swap, erase, insert}
use jml_base.CompactVector.Contents.{Holds}
use jml_base.CompactVector.Swapping.{Swapped, swap-Swapped}
use jml_base.CompactVector.Growing.{Roomy}
use jml_base.CompactVector.Between.{insert-Roomy}
use jml_base.CompactVector.Erasing.{erase-Roomy}
use jml_base.CompactVector.Client.{
  Call, append, drop_last, widen, refill, read, run, run_list, total_demand,
}
use jml_base.CompactVector.Refines.{new-run-eq-run_list}

abbrev one_inside : CompactVector ℕ
one_inside = record { storage = itl (some 4 ∷ none ∷ []); size = 1 }

abbrev three_outside : CompactVector ℕ
three_outside = record { storage = ext (some 7 ∷ some 8 ∷ some 9 ∷ none ∷ []) 4; size = 3 }

one_inside-Holds : Holds 2 one_inside (4 ∷ [])
unfolding data_of capacity_of
one_inside-Holds = record { free = 1; cells = refl; room = refl; sized = refl }

three_outside-Holds : Holds 2 three_outside (7 ∷ 8 ∷ 9 ∷ [])
unfolding data_of capacity_of
three_outside-Holds = record { free = 1; cells = refl; room = refl; sized = refl }

swap-Swapped_example :
    (v : CompactVector ℕ) × (w : CompactVector ℕ) × (swap 2 one_inside three_outside ≡ ok (v, w))
    × Swapped 2 one_inside three_outside v w (4 ∷ []) (7 ∷ 8 ∷ 9 ∷ [])
swap-Swapped_example =
    swap-Swapped 2 one_inside three_outside (4 ∷ []) (7 ∷ 8 ∷ 9 ∷ []) one_inside-Holds
      three_outside-Holds

-- Two of three elements stay, so that they go back inside the object.
erase-Roomy_example :
    (v : CompactVector ℕ) × (erase 2 0 three_outside 1 2 ≡ ok v) × Roomy 2 v 1 (7 ∷ 9 ∷ [])
unfolding capacity_of
erase-Roomy_example =
    erase-Roomy 2 0 three_outside (7 ∷ []) (8 ∷ []) (9 ∷ []) three_outside-Holds (omega arith)
      (omega arith) (omega arith)

abbrev calls : List (Call ℕ)
calls =
    append 4
    ∷ append 5
    ∷ append 6
    ∷ read 2
    ∷ drop_last
    ∷ widen 9
    ∷ refill 1 0
    ∷ read 0
    ∷ read 1
    ∷ []

new-run-eq-run_list_example : run 0 2 calls (new 2) ≡ run_list calls []
unfolding total_demand
new-run-eq-run_list_example =
    new-run-eq-run_list 0 2 (omega arith) (omega arith) calls (omega arith)

-- Two elements before the second of three, which moves them to a larger storage.
insert-Roomy_example :
    (v : CompactVector ℕ) × (insert 2 0 three_outside 1 (1 ∷ 2 ∷ []) ≡ ok v)
    × Roomy 2 v 1 (7 ∷ 1 ∷ 2 ∷ 8 ∷ 9 ∷ [])
unfolding capacity_of
insert-Roomy_example =
    insert-Roomy 2 0 three_outside (7 ∷ []) (8 ∷ 9 ∷ []) (1 ∷ 2 ∷ []) three_outside-Holds
      (omega arith) (omega arith)
