-- ===== src/Circular/Grow.antt =====
-- utils/circular_buffer.h: `reserve` moves the elements to a larger storage, and `push_back` grows a
-- full buffer.
use jml_base.Common.{
  ℕ, zero, suc, ◌+◌, ◌-◌, ◌≤◌, ◌<◌, ◌^◌, lt→ltb, ◌==◌, ◌≡◌, inl, refl, sym, ap, ◌∙◌, arith, leb,
  true, false, max, List, [], ◌∷◌, ◌++◌, Option, none, some, length, get_elem?, length-replicate,
  get_elem?-replicate, dec_lt, ℕ_discrete, take, drop, replicate,
}
use jml_base.Common.Result.{ok}
use native.Mathlib.Nat.{zero-add}
use jml_base.Circular.{Buffer, copy_cells, first_half, second_half, reserve, make_room, push_back}
use jml_base.Circular.Cells.{offset_of-low}
use jml_base.Circular.Contents.{Holds}
use jml_base.Circular.Placing.{
  placed, placed-cells, placed-append, length-placed, copy_cells-placed,
}
use jml_base.Circular.Clear.{first_run, second_run, destroy-eq}
use jml_base.Circular.Ends.{push_back-room}

module _ {ℓ} {A : Type ℓ} where
  length-take : (n : ℕ) (xs : List A) → n ≤ length xs → length (take n xs) ≡ n
  length-take zero xs h = refl
  length-take (suc n) [] h = absurd (omega arith)
  length-take (suc n) (x ∷ xs) h = ap suc (length-take n xs (omega arith))

  length-drop : (n : ℕ) (xs : List A) → length (drop n xs) ≡ length xs - n
  length-drop zero xs = omega arith
  length-drop (suc n) [] = omega arith
  length-drop (suc n) (x ∷ xs) = omega (arith, length-drop n xs)

  get_elem?-take : (n : ℕ) (xs : List A) (k : ℕ) → k < n → get_elem? (take n xs) k ≡ get_elem? xs k
  get_elem?-take zero xs k h = elim h [ ]
  get_elem?-take (suc n) [] k h = refl
  get_elem?-take (suc n) (x ∷ xs) zero h = refl
  get_elem?-take (suc n) (x ∷ xs) (suc k) h = get_elem?-take n xs k (omega arith)

  get_elem?-drop : (n : ℕ) (xs : List A) (k : ℕ) → get_elem? (drop n xs) k ≡ get_elem? xs (n + k)
  get_elem?-drop zero xs k = rw (zero-add k)
  get_elem?-drop (suc n) [] k = refl
  get_elem?-drop (suc n) (x ∷ xs) k =
      let shift : suc n + k ≡ suc (n + k) = omega arith in get_elem?-drop n xs k ∙ rw shift

  take-append-drop : (n : ℕ) (xs : List A) → take n xs ++ drop n xs ≡ xs
  take-append-drop zero xs = refl
  take-append-drop (suc n) [] = refl
  take-append-drop (suc n) (x ∷ xs) = ap (λ r. x ∷ r) (take-append-drop n xs)

  -- The new storage: the elements from its first cell on.
  fresh : ℕ → List A → List (Option A)
  fresh capacity xs = placed (replicate capacity none) 0 xs

  fresh-cells :
      (capacity : ℕ) (xs : List A) (i : ℕ)
      → i < capacity
      → get_elem? (fresh capacity xs) i ≡ some (get_elem? xs i)
  unfolding fresh
  fresh-cells capacity xs i h =
      let len = length-replicate {A = Option A} capacity none in
      rw (sym (zero-add i)) (
        placed-cells (replicate capacity none) 0 xs i
          (λ j p q. get_elem?-replicate capacity j none (omega (arith, len))) (omega (arith, len))
        ∙ rw (zero-add i))

module _ {ℓ} {A : Type ℓ} (b : Buffer A) (xs : List A) (h : Holds b xs) where
  -- The storage between the two copies of `reserve`.
  halfway : ℕ → List (Option A)
  halfway capacity = placed (replicate capacity none) 0 (take (first_half b) xs)

  length-first : length (take (first_half b) xs) ≡ first_half b
  length-first = length-take (first_half b) xs (omega (arith, h.counted))

  length-second : length (drop (first_half b) xs) ≡ second_half b
  length-second = omega (arith, length-drop (first_half b) xs, h.counted)

  first_copy :
      (capacity : ℕ)
      → length xs ≤ capacity
      → copy_cells (first_half b) b.vals b.start (replicate capacity none) 0 ≡ ok (halfway capacity)
  unfolding halfway
  first_copy capacity room =
      let repl : List (Option A) = replicate capacity none in
      ap (λ n. copy_cells n b.vals b.start repl 0) (sym length-first)
      ∙ copy_cells-placed (take (first_half b) xs) b.vals b.start repl 0
          (λ k p.
            first_run b xs h k (omega (arith, length-first))
            ∙ ap some (sym (get_elem?-take (first_half b) xs k (omega (arith, length-first)))))
          (omega (arith, length-replicate {A = Option A} capacity none, length-first, h.counted))

  length-halfway : (capacity : ℕ) → length (halfway capacity) ≡ capacity
  unfolding halfway
  length-halfway capacity =
      length-placed (replicate capacity none) 0 (take (first_half b) xs)
      ∙ length-replicate capacity none

  joined :
      (capacity : ℕ)
      → placed (halfway capacity) (first_half b) (drop (first_half b) xs) ≡ fresh capacity xs
  unfolding halfway fresh
  joined capacity =
      ap (λ to. placed (halfway capacity) to (drop (first_half b) xs))
        (sym (zero-add (length (take (first_half b) xs)) ∙ length-first))
      ∙ placed-append (replicate capacity none) 0 (take (first_half b) xs) (drop (first_half b) xs)
      ∙ ap (placed (replicate capacity none) 0) (take-append-drop (first_half b) xs)

  second_copy :
      (capacity : ℕ)
      → length xs ≤ capacity
      → copy_cells (second_half b) b.vals 0 (halfway capacity) (first_half b)
        ≡ ok (fresh capacity xs)
  second_copy capacity room =
      ap (λ n. copy_cells n b.vals 0 (halfway capacity) (first_half b)) (sym length-second)
      ∙ copy_cells-placed (drop (first_half b) xs) b.vals 0 (halfway capacity) (first_half b)
          (λ k p.
            ap (get_elem? b.vals) (zero-add k)
            ∙ second_run b xs h k (omega (arith, length-second))
            ∙ ap some (sym (get_elem?-drop (first_half b) xs k)))
          (omega (arith, length-halfway capacity, length-second, h.counted))
      ∙ ap ok (joined capacity)

  -- The buffer that `reserve` leaves when it grows.
  moved : ℕ → Buffer A
  moved capacity = record {
    vals = fresh capacity xs;
    start = 0;
    size = b.size;
    capacity = capacity;
  }

  moved-Holds : (capacity : ℕ) → b.size ≤ capacity → 0 < capacity → Holds (moved capacity) xs
  unfolding moved fresh
  moved-Holds capacity room some_room = record {
    sized = length-placed (replicate capacity none) 0 xs ∙ length-replicate capacity none;
    counted = h.counted;
    fits = room;
    started = inl some_room;
    cells = λ i hi.
        ap (get_elem? (fresh capacity xs)) (offset_of-low capacity 0 i (omega arith) ∙ zero-add i)
        ∙ fresh-cells capacity xs i hi;
  }

  reserve_grows :
      (wanted : ℕ)
      → b.capacity < wanted
      → b.capacity + b.capacity < 2 ^ 31
      → reserve b wanted ≡ ok (moved (max (b.capacity + b.capacity) wanted))
  unfolding reserve moved
  reserve_grows wanted more small =
      let capacity = max (b.capacity + b.capacity) wanted in
      let test : leb wanted b.capacity ≡ false = ground arith in
      let room : length xs ≤ capacity = omega (arith, h.counted, h.fits) in
      let fits = lt→ltb (b.capacity + b.capacity) (2 ^ 31) small in
      rw (test, fits, first_copy capacity room, second_copy capacity room, destroy-eq b xs h)

  -- `reserve` of fewer than 2 ^ 30 elements on a buffer that holds `xs` does not fail: it leaves one that
  -- holds `xs`, with at least the capacity that was asked for, and no less than before, and no more than
  -- twice the capacity asked for where it grows.
  pub reserve-Holds :
      (wanted : ℕ)
      → wanted ≤ 2 ^ 30
      → (after : Buffer A) × (reserve b wanted ≡ ok after)
        × Holds after xs
        × (wanted ≤ after.capacity)
        × (after.capacity ≤ max b.capacity (wanted + wanted))
        × (after.capacity ≤ max (b.capacity + b.capacity) wanted)
  unfolding reserve moved
  reserve-Holds wanted small = elim (dec_lt b.capacity wanted) [
    | yes p ↦
        let capacity = max (b.capacity + b.capacity) wanted in
        (
          moved capacity,
          reserve_grows wanted p (omega arith),
          moved-Holds capacity (omega (arith, h.fits)) (omega arith),
          omega arith,
          omega arith,
          omega arith,
        )
    | no p ↦
        let test : leb wanted b.capacity ≡ true = ground arith in
        (b, rw test, h, omega arith, omega arith, omega arith)
  ]

  -- `push_back` on a buffer that holds `xs`, fewer than 2 ^ 29 elements, does not fail, full or not: it
  -- leaves one that holds `xs ++ v ∷ []`, whose capacity is the one before, or at most twice the elements.
  pub push_back-Holds :
      (v : A)
      → b.size < 2 ^ 29
      → (after : Buffer A) × (push_back b v ≡ ok after)
        × Holds after (xs ++ v ∷ [])
        × (after.capacity ≤ max b.capacity (b.size + b.size + 2))
  unfolding make_room
  push_back-Holds v small = elim (ℕ_discrete b.size b.capacity) [
    | yes p ↦
        let wanted = max 1 (b.capacity + b.capacity) in
        let (b1, e, holds, wide, _, narrow) = reserve-Holds wanted (omega arith) in
        let full : (b.size == b.capacity) ≡ true = ground arith in
        let same : b1.size ≡ b.size = sym holds.counted ∙ h.counted in
        let fits = lt→ltb (b.capacity + b.capacity) (2 ^ 31) (omega arith) in
        let (after, returns, k, cap) =
          push_back-room b b1 xs v (rw (full, fits) e) holds (omega arith) in
        (after, returns, k, omega arith)
    | no p ↦
        let room : (b.size == b.capacity) ≡ false = ground arith in
        let (after, returns, k, cap) =
          push_back-room b b xs v (rw room) h (omega (arith, h.fits)) in
        (after, returns, k, omega arith)
  ]
