-- ===== src/CompactVector/Refines.antt =====
-- utils/compact_vector.h: a client's calls answer on the vector as on a list.
use jml_base.Common.{
  ℕ, ◌+◌, ◌^◌, ◌≤◌, ◌<◌, ◌≡◌, refl, ap, arith, List, [], ◌∷◌, ◌++◌, length, length-append,
}
use jml_base.Common.Result.{Result, ok, ◌>>=◌}
use jml_base.CompactVector.{CompactVector, Error, new, clear, max_size}
use jml_base.CompactVector.Calls.{reserve, resize, emplace_back, pop_back}
use jml_base.CompactVector.Client.{
  Call, append, drop_last, empty_all, widen, refill, read, cut, put_in, call, run, run_next,
  call_list, run_list, demand, total_demand,
}
use jml_base.CompactVector.Copying.{clear-Holds}
use jml_base.CompactVector.Growing.{Roomy, reserve-Roomy, emplace_back-Roomy}
use jml_base.CompactVector.Resizing.{==-true, resize_list, length-resize_list, resize-Roomy}
use jml_base.CompactVector.Simulation.{
  Simulates, answering, throwing, done-Simulates, empty-Roomy, read-Simulates, pop_back-Simulates,
  any_cut-Simulates, put_in-Simulates,
}

module _ {ℓ} {A : Type ℓ} (blank : A) (internal : ℕ) where
  call-Simulates :
      (c : Call A) (v : CompactVector A) (xs : List A) (bound : ℕ)
      → 0 < internal
      → Roomy internal v 1 xs
      → length xs + demand c ≤ bound
      → internal ≤ max_size
      → bound < 2 ^ 31
      → Simulates blank internal bound (call blank internal c v) (call_list c xs)
  unfolding call call_list pop_back
  call-Simulates (append a) v xs bound some_cell r fits few small =
      let (v', e, k) =
        emplace_back-Roomy internal v xs a r.holds (omega (arith, r.room))
          (omega (arith, fits, small)) in
      done-Simulates blank internal (emplace_back internal v a) v' (xs ++ a ∷ []) bound e k
        (omega (arith, fits, length-append xs (a ∷ [])))
  call-Simulates drop_last v [] bound some_cell r fits few small =
      rw (==-true v.size 0 r.holds.sized) throwing
  call-Simulates drop_last v (x ∷ xs) bound some_cell r fits few small =
      pop_back-Simulates blank internal v x xs bound r (omega (arith, fits))
  call-Simulates empty_all v xs bound some_cell r fits few small =
      done-Simulates blank internal (clear internal v) (new internal) [] bound
        (clear-Holds internal v xs r.holds) (empty-Roomy blank internal some_cell) (omega arith)
  call-Simulates (widen n) v xs bound some_cell r fits few small =
      let (v', e, _, k) = reserve-Roomy internal v xs n r.holds (omega (arith, fits, small)) in
      done-Simulates blank internal (reserve internal v n) v' xs bound e
        (record { holds = k.holds; room = omega (arith, k.room, r.room) }) (omega (arith, fits))
  call-Simulates (refill n a) v xs bound some_cell r fits few small =
      let (v', e, k) =
        resize-Roomy internal v xs n a r.holds some_cell (omega (arith, r.room))
          (omega (arith, fits, small)) in
      done-Simulates blank internal (resize internal v n a) v' (resize_list n a xs) bound e k
        (omega (arith, fits, length-resize_list n a xs))
  call-Simulates (read i) v xs bound some_cell r fits few small =
      read-Simulates blank internal i v xs bound r (omega (arith, fits))
  call-Simulates (cut first last) v xs bound some_cell r fits few small =
      any_cut-Simulates blank internal first last v xs bound some_cell few r (omega (arith, fits))
  call-Simulates (put_in i others) v xs bound some_cell r fits few small =
      put_in-Simulates blank internal i others v xs bound r fits (omega (arith, small))

  run_next-Simulates :
      (cs : List (Call A)) (bound : ℕ) (m : Result Error (List A × CompactVector A))
      (n : Result Error (List A × List A))
      → ((v : CompactVector A) (xs : List A)
          → Roomy internal v 1 xs
          → length xs ≤ bound
          → run blank internal cs v ≡ run_list cs xs)
      → Simulates blank internal bound m n
      → (m >>= run_next (run blank internal cs)) ≡ (n >>= run_next (run_list cs))
  run_next-Simulates cs bound m n rest (answering {seen = seen} {v} {xs} r fits) =
      ap (λ l. l >>= λ later. ok (seen ++ later)) (rest v xs r fits)
  run_next-Simulates cs bound m n rest throwing = refl

  run-eq :
      (cs : List (Call A)) (v : CompactVector A) (xs : List A)
      → 0 < internal
      → internal ≤ max_size
      → Roomy internal v 1 xs
      → length xs + total_demand cs < 2 ^ 31
      → run blank internal cs v ≡ run_list cs xs
  unfolding run run_list total_demand
  run-eq [] v xs some_cell few r small = refl
  run-eq (c ∷ cs) v xs some_cell few r small =
      let bound = length xs + demand c in
      run_next-Simulates cs bound (call blank internal c v) (call_list c xs)
        (λ v' ys r' fits. run-eq cs v' ys some_cell few r' (omega (arith, small, fits)))
        (call-Simulates c v xs bound some_cell r (omega arith) few (omega (arith, small)))

  -- Any calls of `push_back`, `pop_back`, `clear`, `reserve`, `resize`, `at`, `insert` and `erase` on a
  -- new vector with a cell inside it, and no more than the greatest size, read the elements, and throw
  -- the exceptions, that the same calls do on a list, if the sizes and the elements they ask for come
  -- to less than 2 ^ 31 together.
  pub new-run-eq-run_list :
      0 < internal
      → internal ≤ max_size
      → (cs : List (Call A)) → total_demand cs < 2 ^ 31
      → run blank internal cs (new internal) ≡ run_list cs []
  new-run-eq-run_list some_cell few cs small =
      run-eq cs (new internal) [] some_cell few (empty-Roomy blank internal some_cell)
        (omega (arith, small))
