-- ===== src/Circular/Queue.antt =====
-- utils/circular_buffer.h: the buffer as a queue with two ends. A client's calls, run on the buffer
-- and on a list.
use jml_base.Common.{
  ℕ, zero, suc, ◌≡◌, ◌==◌, inr, refl, sym, ◌+◌, ◌*◌, ◌^◌, ◌≤◌, length, ap, arith, List, [], ◌∷◌,
  ◌++◌, length-append, true, false,
}
use jml_base.Common.Int.{pos}
use jml_base.Common.Result.{Result, ok, err, ◌>>=◌}
use jml_base.Circular.{Buffer, Error, clear, reserve, new, push_back, pop_front, pop_back}
use jml_base.Circular.Contents.{Holds}
use jml_base.Circular.Ends.{pop_front-Holds, pop_back-Holds}
use jml_base.Circular.Clear.{clear-Holds}
use jml_base.Circular.Grow.{reserve-Holds, push_back-Holds}

-- A call of `push_back`, `pop_front`, `pop_back`, `reserve` or `clear()`.
pub data Call {ℓ} (A : Type ℓ) : Type ℓ where
  add : A → Call A
  drop_first drop_last remove_all : Call A
  widen : ℕ → Call A

module _ {ℓ} {A : Type ℓ} where
  pub call : Call A → Buffer A → Result Error (Buffer A)
  call (add v) b = push_back b v
  call drop_first b = pop_front b
  call drop_last b = pop_back b
  call remove_all b = clear b (pos 0)
  call (widen n) b = reserve b n

  pub run : List (Call A) → Buffer A → Result Error (Buffer A)
  run [] b = ok b
  run (c ∷ cs) b = do b' ← call c b; run cs b'

  unfoldable pub but_last : A → List A → List A
  but_last x [] = []
  but_last x (y ∷ ys) = x ∷ but_last y ys

  last : A → List A → A
  last x [] = x
  last x (y ∷ ys) = last y ys

  -- The same calls on a list.
  unfoldable pub call_list : Call A → List A → Result Error (List A)
  call_list (add v) xs = ok (xs ++ v ∷ [])
  call_list drop_first [] = err Error.empty_buffer
  call_list drop_first (x ∷ xs) = ok xs
  call_list drop_last [] = err Error.empty_buffer
  call_list drop_last (x ∷ xs) = ok (but_last x xs)
  call_list remove_all xs = ok []
  call_list (widen n) xs = ok xs

  unfoldable pub run_list : List (Call A) → List A → Result Error (List A)
  run_list [] xs = ok xs
  run_list (c ∷ cs) xs = do xs' ← call_list c xs; run_list cs xs'

  -- The elements that a call may make the buffer hold.
  abbrev pub demand : Call A → ℕ
  demand (add v) = 1
  demand drop_first = 0
  demand drop_last = 0
  demand remove_all = 0
  demand (widen n) = n

  unfoldable pub total_demand : List (Call A) → ℕ
  total_demand [] = 0
  total_demand (c ∷ cs) = demand c + total_demand cs

  -- Both return, and the buffer holds the list in at most `2 * d` cells, or both throw the same.
  pub data Simulates (d : ℕ) : Result Error (Buffer A) → Result Error (List A) → Type ℓ where
    holding :
        {b : Buffer A} {xs : List A}
        → Holds b xs
        → b.size ≤ d
        → b.capacity ≤ 2 * d
        → Simulates d (ok b) (ok xs)
    throwing : {e : Error} → Simulates d (err e) (err e)

  bind-Simulates :
      {d d' : ℕ} {m : Result Error (Buffer A)} {n : Result Error (List A)}
      {f : Buffer A → Result Error (Buffer A)} {g : List A → Result Error (List A)}
      → Simulates d m n
      → ((b : Buffer A) (xs : List A)
          → Holds b xs
          → b.size ≤ d
          → b.capacity ≤ 2 * d
          → Simulates d' (f b) (g xs))
      → Simulates d' (m >>= f) (n >>= g)
  bind-Simulates (holding {b = b} {xs = xs} h s c) k = k b xs h s c
  bind-Simulates throwing k = throwing

  but_last-last : (x : A) (xs : List A) → but_last x xs ++ last x xs ∷ [] ≡ x ∷ xs
  unfolding but_last last
  but_last-last x [] = refl
  but_last-last x (y ∷ ys) = ap (λ r. x ∷ r) (but_last-last y ys)

  empty : (b : Buffer A) → Holds b [] → (b.size == 0) ≡ true
  empty b h = ground (arith, h.counted)

  call-Simulates :
      (d : ℕ) (c : Call A) (b : Buffer A) (xs : List A)
      → Holds b xs
      → b.size ≤ d
      → b.capacity ≤ 2 * d
      → d + demand c ≤ 2 ^ 29
      → Simulates (d + demand c) (call c b) (call_list c xs)
  unfolding call call_list pop_front pop_back
  call-Simulates d (add v) b xs h few cells small =
      let (after, returns, holds, cap) = push_back-Holds b xs h v (omega arith) in
      let count : length (xs ++ v ∷ []) ≡ length xs + 1 = length-append xs (v ∷ []) in
      rw returns (holding holds (omega (arith, h.counted, holds.counted, count)) (omega arith))
  call-Simulates d drop_first b [] h few cells small = rw (empty b h) throwing
  call-Simulates d drop_first b (x ∷ xs) h few cells small =
      let left = pop_front-Holds b x xs h in
      rw left.returns (
        holding left.holds (omega (arith, h.counted, left.holds.counted))
          (omega (arith, left.cells)))
  call-Simulates d drop_last b [] h few cells small = rw (empty b h) throwing
  call-Simulates d drop_last b (x ∷ xs) h few cells small =
      let same = but_last-last x xs in
      let left = pop_back-Holds b (but_last x xs) (last x xs) (rw same h) in
      let count = length-append (but_last x xs) (last x xs ∷ []) in
      let whole = ap length same in
      rw left.returns (
        holding left.holds (omega (arith, h.counted, left.holds.counted, count, whole))
          (omega (arith, left.cells)))
  call-Simulates d remove_all b xs h few cells small =
      let left = clear-Holds b xs h 0 (ground arith) in
      rw left.returns
        (holding left.holds (omega (arith, left.holds.counted)) (omega (arith, left.cells)))
  call-Simulates d (widen n) b xs h few cells small =
      let (after, returns, holds, _, cap, _) = reserve-Holds b xs h n (omega arith) in
      rw returns (holding holds (omega (arith, h.counted, holds.counted)) (omega arith))

  run-Simulates :
      (d : ℕ) (cs : List (Call A)) (b : Buffer A) (xs : List A)
      → Holds b xs
      → b.size ≤ d
      → b.capacity ≤ 2 * d
      → d + total_demand cs ≤ 2 ^ 29
      → Simulates (d + total_demand cs) (run cs b) (run_list cs xs)
  unfolding run run_list total_demand
  run-Simulates d [] b xs h few cells small = holding h (omega arith) (omega arith)
  run-Simulates d (c ∷ cs) b xs h few cells small =
      let grouped : d + demand c + total_demand cs ≡ d + (demand c + total_demand cs) =
        omega arith in
      rw (sym grouped) (
        bind-Simulates (call-Simulates d c b xs h few cells (omega arith)) (λ b' xs' h' few' cells'.
          run-Simulates (d + demand c) cs b' xs' h' few' cells' (omega arith)))

  blank-Holds : Holds {A = A} (record { vals = []; start = 0; size = 0; capacity = 0 }) []
  blank-Holds = record {
    sized = refl;
    counted = refl;
    fits = omega arith;
    started = inr (refl, refl);
    cells = λ i h. absurd (omega arith);
  }

  new-Simulates : (initial : ℕ) → initial ≤ 2 ^ 29 → Simulates initial (new {A = A} initial) (ok [])
  unfolding new
  new-Simulates zero small = holding blank-Holds (omega arith) (omega arith)
  new-Simulates (suc n) small =
      let test : (suc n == 0) ≡ false = ground arith in
      let blank : Buffer A = record { vals = []; start = 0; size = 0; capacity = 0 } in
      let (after, returns, holds, _, cap, _) =
        reserve-Holds blank [] blank-Holds (suc n) (omega arith) in
      rw (test, returns) (holding holds (omega (arith, holds.counted)) (omega arith))

  -- From the constructor on, with any initial capacity, every sequence of `push_back`, `pop_front`,
  -- `pop_back`, `reserve` and `clear` does on the buffer what it does on a list, and throws where the
  -- list operation does, where the capacities asked for and the elements pushed are in sum at most
  -- 2 ^ 29. The capacity stays at most twice that sum, so that no `int` overflows.
  pub new-run-Simulates :
      (initial : ℕ) (cs : List (Call A))
      → initial + total_demand cs ≤ 2 ^ 29
      → Simulates (initial + total_demand cs) (new initial >>= run cs) (run_list cs [])
  new-run-Simulates initial cs small =
      bind-Simulates (new-Simulates initial (omega arith))
        (λ b xs h few cells. run-Simulates initial cs b xs h few cells small)
