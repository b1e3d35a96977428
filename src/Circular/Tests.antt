-- ===== src/Circular/Tests.antt =====
-- Examples for the circular buffer: two elements that wrap round the end of three cells.
use jml_base.Common.{ℕ, zero, suc, ◌<◌, ◌≡◌, inl, refl, arith, [], ◌∷◌, none, some, get_elem?}
use jml_base.Common.Result.{ok, ◌>>=◌}
use jml_base.Circular.{Buffer, offset_of, push_front, new}
use jml_base.Circular.Contents.{Holds}
use jml_base.Circular.Queue.{
  run, run_list, call_list, but_last, add, drop_first, drop_last, widen, Simulates, total_demand,
  new-run-Simulates,
}
use jml_base.Circular.Front.{push_front_overwrites}

abbrev wrapped : Buffer ℕ
wrapped = record { vals = some 5 ∷ none ∷ some 4 ∷ []; start = 2; size = 2; capacity = 3 }

wrapped-cells :
    (i : ℕ) → i < 3 → get_elem? wrapped.vals (offset_of 3 2 i) ≡ some (get_elem? (4 ∷ 5 ∷ []) i)
wrapped-cells zero h = refl
wrapped-cells (suc zero) h = refl
wrapped-cells (suc (suc zero)) h = refl
wrapped-cells (suc (suc (suc i))) h = absurd (omega arith)

wrapped-Holds : Holds wrapped (4 ∷ 5 ∷ [])
wrapped-Holds = record {
  sized = refl;
  counted = refl;
  fits = omega arith;
  started = inl (omega arith);
  cells = wrapped-cells;
}

new-run-Simulates_example :
    Simulates {A = ℕ} 8
      (new 0 >>= run (add 1 ∷ add 2 ∷ drop_first ∷ widen 5 ∷ add 3 ∷ drop_last ∷ []))
      (ok (2 ∷ []))
unfolding run_list call_list but_last total_demand
new-run-Simulates_example =
    new-run-Simulates {A = ℕ} 0 (add 1 ∷ add 2 ∷ drop_first ∷ widen 5 ∷ add 3 ∷ drop_last ∷ [])
      (omega arith)

push_front_overwrites_example :
    (after : Buffer ℕ) × (push_front wrapped 6 ≡ ok after)
    × (after.size ≡ 2)
    × (get_elem? after.vals 0 ≡ some (some 6))
push_front_overwrites_example =
    push_front_overwrites wrapped (4 ∷ 5 ∷ []) 6 wrapped-Holds (omega arith) (omega arith)
