-- ===== src/Hash/Map/Tests.antt =====
-- Examples for the hash map as a client uses it.
use jml_base.Common.{ℕ, ◌+◌, ◌≡◌, refl, arith, List, [], ◌∷◌, none, some, false}
use jml_base.Common.Result.{ok, ◌>>=◌}
use jml_base.Hash.{LightweightHash, capacity, capacity_of, find_or_insert}
use jml_base.Hash.Finding.{IsAbsent, Reaches}
use jml_base.Hash.Filling.{Models, filled, update, fill_bucket-Models}
use jml_base.Hash.Growing.{blank, blank-Models, replicate-empty}
use jml_base.Hash.Updating.{FindsOrInserts, find_or_insert-FindsOrInserts}
use jml_base.Hash.Map.{new, from_range, begin}
use jml_base.Hash.Map.Client.{
  Call, assign, add, look, remove_all, done, inserted, found, run, run_map,
}
use jml_base.Hash.Map.Refines.{new-run-eq-run_map}
use jml_base.Hash.Map.Range.{Builds, added_all, from_range-Builds}
use jml_base.Hash.Map.Traversal.{visit, full_buckets, visit-begin}

abbrev same : ℕ → ℕ
same k = k

-- The key 5 in four buckets.
abbrev one : LightweightHash ℕ
one = filled same (blank 0 3) 1 (5, 10)

five-IsAbsent : IsAbsent {V = ℕ} same (blank 0 3) 5
unfolding IsAbsent capacity_of
five-IsAbsent j v e = let zero_key = replicate-empty 4 j 5 0 v e in absurd (omega arith)

five-Reaches : Reaches {V = ℕ} same (blank 0 3) 5 1
unfolding capacity_of
five-Reaches = (0, omega arith, refl, λ n h. absurd (omega arith))

one-Models : Models same one (update (λ _. none) 5 10)
unfolding capacity_of
one-Models =
    (fill_bucket-Models same (blank 0 3) (λ _. none) 1 5 10 0 (blank-Models same 0 3) refl
      (omega arith) five-IsAbsent five-Reaches).1

find_or_insert-FindsOrInserts_example :
    FindsOrInserts same 0 0 one (update (λ _. none) 5 10) 9 20 (find_or_insert same 0 2 one (9, 20))
find_or_insert-FindsOrInserts_example =
    find_or_insert-FindsOrInserts same 0 0 one (update (λ _. none) 5 10) 9 20 one-Models
      (omega arith) (unfold capacity_of in omega arith) (λ full. unfold capacity_of in omega arith)

visit-begin_example : (begin one >>= visit (capacity one + 1) one) ≡ ok (full_buckets one.vals)
visit-begin_example = visit-begin same one one-Models.table (unfold capacity_of in omega arith)

abbrev twice_five : List (ℕ × ℕ)
twice_five = (5, 10) ∷ (1, 11) ∷ (5, 12) ∷ []

from_range-Builds_example :
    Builds same 0 (from_range same 0 2 twice_five 0) (added_all twice_five (λ _. none))
from_range-Builds_example =
    from_range-Builds same 0 twice_five 0 (omega arith, (omega arith, (omega arith, tt)))
      (omega arith) (omega arith)

abbrev calls : List (Call ℕ)
calls = assign 5 10 ∷ add 5 11 ∷ look 5 ∷ look 6 ∷ remove_all ∷ look 5 ∷ []

answers :
    run_map calls (λ _. none)
    ≡ ok (done ∷ inserted false ∷ found (some 10) ∷ found none ∷ done ∷ found none ∷ [])
unfolding run_map
answers = refl

new-run-eq-run_map_example : run same 0 calls new ≡ run_map calls (λ _. none)
new-run-eq-run_map_example = new-run-eq-run_map same 0 calls (omega arith)
