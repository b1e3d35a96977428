-- ===== src/Circular/Contents.antt =====
-- utils/circular_buffer.h: the list that a buffer stands for, and the reads.
use jml_base.Common.{
  ℕ, zero, suc, ◌+◌, ◌-◌, ◌≤◌, ◌<◌, ◌==◌, ◌≡◌, ◌⊎◌, inl, inr, sym, ◌∙◌, arith, leb, ltb, true,
  false, if◌then◌else◌, List, [], ◌∷◌, Option, none, some, length, get_elem?, get_elem?_in,
  get_elem?_out, dec_lt,
}
use jml_base.Common.Int.{ℤ, pos, negsuc}
use jml_base.Common.Result.{Result, ok, err}
use jml_base.Circular.{Buffer, Error, offset_of, element_at, load, at}

pub ≢0→false : (n : ℕ) → 0 < n → (n == 0) ≡ false
≢0→false n h = ground arith

module _ {ℓ} {A : Type ℓ} where
  -- The buffer's elements are `xs` in order, and no other cell of its storage has an element.
  pub record Holds (b : Buffer A) (xs : List A) : Type ℓ where
    pub sized : length b.vals ≡ b.capacity
    pub counted : length xs ≡ b.size
    pub fits : b.size ≤ b.capacity
    pub started : (b.start < b.capacity) ⊎ ((b.start ≡ 0) × (b.capacity ≡ 0))
    pub cells :
        (i : ℕ)
        → i < b.capacity
        → get_elem? b.vals (offset_of b.capacity b.start i) ≡ some (get_elem? xs i)

  -- The call returns, and leaves a buffer that holds `xs`.
  pub record Leaves (capacity : ℕ) (r : Result Error (Buffer A)) (xs : List A) : Type ℓ where
    pub after : Buffer A
    pub returns : r ≡ ok after
    pub holds : Holds after xs
    pub cells : after.capacity ≡ capacity

  pub started_lt : {b : Buffer A} {xs : List A} → Holds b xs → 0 < b.capacity → b.start < b.capacity
  started_lt h p = elim h.started [ inl q ↦ q | inr q ↦ omega arith ]

  pub element_at-pos :
      (b : Buffer A) (i : ℕ)
      → 0 < b.capacity
      → element_at b (pos i) ≡ ok (offset_of b.capacity b.start i)
  unfolding element_at
  element_at-pos b i h = rw (≢0→false b.capacity h)

  -- Counted from the end.
  pub element_at-negsuc :
      (b : Buffer A) (i : ℕ)
      → 0 < b.capacity
      → i < b.size
      → element_at b (negsuc i) ≡ ok (offset_of b.capacity b.start (b.size - (i + 1)))
  unfolding element_at
  element_at-negsuc b i h hi =
      let room : leb (i + 1) (b.start + b.size) ≡ true = ground arith in
      let sum : b.start + b.size - (i + 1) ≡ b.start + (b.size - (i + 1)) = omega arith in
      rw (≢0→false b.capacity h, room, sum)

  -- Every read of a held element returns it.
  pub load-cell :
      (b : Buffer A) (xs : List A) (i : ℕ) (x : A)
      → Holds b xs
      → get_elem? xs i ≡ some x
      → i < b.capacity
      → load b.vals (offset_of b.capacity b.start i) ≡ ok x
  unfolding load
  load-cell b xs i x h e hi = rw (h.cells i hi, e)

  -- A held element of an index, and the buffer is not empty.
  pub inside :
      (b : Buffer A) (xs : List A) (i : ℕ)
      → Holds b xs
      → i < length xs
      → (i < b.size) × (i < b.capacity) × (0 < b.size) × (0 < b.capacity)
  inside b xs i h hi = (
    omega (arith, h.counted),
    omega (arith, h.counted, h.fits),
    omega (arith, h.counted),
    omega (arith, h.counted, h.fits),
  )

  pub get_elem?_lt : (xs : List A) (i : ℕ) (x : A) → get_elem? xs i ≡ some x → i < length xs
  get_elem?_lt [] i x e = cc
  get_elem?_lt (y ∷ xs) zero x e = omega arith
  get_elem?_lt (y ∷ xs) (suc i) x e = omega (arith, get_elem?_lt xs i x e)

  -- What a read by an index returns, said of the list: negative indices count from its end.
  unfoldable pub looked : Error → Option A → Result Error A
  looked e none = err e
  looked e (some x) = ok x

  unfoldable pub lookup : List A → ℤ → Result Error A
  lookup [] z = err Error.empty_buffer
  lookup (x ∷ xs) (pos i) = looked Error.invalid_index (get_elem? (x ∷ xs) i)
  lookup (x ∷ xs) (negsuc i) =
      if leb (i + 1) (length (x ∷ xs))
      then looked Error.invalid_index (get_elem? (x ∷ xs) (length (x ∷ xs) - (i + 1)))
      else err Error.invalid_index

  -- The read of the cell of an index inside.
  load-looked :
      (b : Buffer A) (xs : List A) (i : ℕ)
      → Holds b xs
      → i < length xs
      → load b.vals (offset_of b.capacity b.start i) ≡ looked Error.invalid_index (get_elem? xs i)
  unfolding looked
  load-looked b xs i h hi =
      let (x, e) = get_elem?_in xs i hi in
      load-cell b xs i x h e (omega (arith, h.counted, h.fits)) ∙ rw e

  -- On a buffer that holds `xs`, `at` returns what `lookup` says of the list: an element counted from
  -- the front or, by a negative index, from the end, or the exception of an empty buffer or of an index
  -- outside.
  pub at-lookup : (b : Buffer A) (xs : List A) (z : ℤ) → Holds b xs → at b z ≡ lookup xs z
  unfolding at lookup looked
  at-lookup b [] z h = let e : b.size ≡ 0 = sym h.counted in rw e
  at-lookup b (x ∷ xs) (pos i) h = elim (dec_lt i b.size) [
    | yes p ↦
        let hi : i < length (x ∷ xs) = omega (arith, h.counted) in
        let test : ltb i b.size ≡ true = ground arith in
        let (s, c, s0, c0) = inside b (x ∷ xs) i h hi in
        rw (≢0→false b.size s0, test, element_at-pos b i c0) (load-looked b (x ∷ xs) i h hi)
    | no p ↦
        let test : ltb i b.size ≡ false = ground arith in
        let out : length (x ∷ xs) ≤ i = omega (arith, h.counted) in
        let (s, c, s0, c0) = inside b (x ∷ xs) 0 h (omega arith) in
        rw (≢0→false b.size s0, test, get_elem?_out (x ∷ xs) i out)
  ]
  at-lookup b (x ∷ xs) (negsuc i) h = elim (dec_lt i b.size) [
    | yes p ↦
        let test : leb (i + 1) b.size ≡ true = ground arith in
        let test' : leb (i + 1) (length (x ∷ xs)) ≡ true = ground (arith, h.counted) in
        let same : b.size - (i + 1) ≡ length (x ∷ xs) - (i + 1) = omega (arith, h.counted) in
        let (s, c, s0, c0) = inside b (x ∷ xs) 0 h (omega arith) in
        rw (≢0→false b.size s0, test, test', element_at-negsuc b i c0 p, same)
          (load-looked b (x ∷ xs) (length (x ∷ xs) - (i + 1)) h (omega arith))
    | no p ↦
        let test : leb (i + 1) b.size ≡ false = ground arith in
        let test' : leb (i + 1) (length (x ∷ xs)) ≡ false = ground (arith, h.counted) in
        let (s, c, s0, c0) = inside b (x ∷ xs) 0 h (omega arith) in
        rw (≢0→false b.size s0, test, test')
  ]
