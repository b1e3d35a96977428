-- ===== src/Circular/Ends.antt =====
-- utils/circular_buffer.h: removing at either end, and adding at the back where there is room.
use jml_base.Common.{
  ℕ, ◌+◌, ◌-◌, ◌<◌, ◌≡◌, ◌≢◌, inl, refl, sym, ap, ◌∙◌, arith, ltb, true, List, [], ◌∷◌, ◌++◌,
  Option, none, some, length, get_elem?, get_elem?-set_self, get_elem?-set_ne, length-set,
  length-append, get_elem?_out, dec_lt, ℕ_discrete, set,
}
use jml_base.Common.Result.{ok}
use native.Mathlib.Numerals.{add-one}
use jml_base.Circular.{
  Buffer, offset_of, load, destruct, construct, pop_front, pop_back, push_back, make_room,
}
use jml_base.Circular.Cells.{
  offset_of-lt, offset_of-low, offset_of-injective, next_start, offset_of-next, offset_of-next_last,
  get_elem?-snoc_self, get_elem?-snoc_ne,
}
use jml_base.Circular.Contents.{
  Holds, Leaves, started_lt, element_at-pos, element_at-negsuc, load-cell, inside, ≢0→false,
}

module _ {ℓ} {A : Type ℓ} where
  -- The storage after the cell of one index is given another content.
  set-cells :
      (b : Buffer A) (xs : List A) (g : ℕ → Option A) (i : ℕ)
      → Holds b xs
      → i < b.capacity
      → ((j : ℕ) → j ≢ i → get_elem? xs j ≡ g j)
      → (j : ℕ) → j < b.capacity
      → get_elem?
          (set b.vals (offset_of b.capacity b.start i) (g i))
          (offset_of b.capacity b.start j)
        ≡ some (g j)
  set-cells b xs g i h hi others j hj = elim (ℕ_discrete j i) [
    | yes p ↦ rw p (
        get_elem?-set_self b.vals (offset_of b.capacity b.start i) (g i) (
          omega
            (arith, h.sized, offset_of-lt b.capacity b.start i (started_lt h (omega arith)) hi)))
    | no p ↦
        get_elem?-set_ne b.vals (g i)
          (λ q. p (offset_of-injective b.capacity b.start j i hj hi (sym q)))
        ∙ h.cells j hj
        ∙ ap some (others j p)
  ]

  pub destruct-cell :
      (vals : List (Option A)) (i : ℕ) (x : A)
      → load vals i ≡ ok x
      → destruct vals i ≡ ok (set vals i none)
  unfolding destruct
  destruct-cell vals i x e = rw e

  pub construct-cell :
      (vals : List (Option A)) (i : ℕ) (x : A)
      → i < length vals
      → construct vals i x ≡ ok (set vals i (some x))
  unfolding construct
  construct-cell vals i x h = let test : ltb i (length vals) ≡ true = ground arith in rw test

  pub offset-zero : (b : Buffer A) → b.start < b.capacity → offset_of b.capacity b.start 0 ≡ b.start
  offset-zero b h = offset_of-low b.capacity b.start 0 (omega arith) ∙ omega arith

  -- The cells from the next start, when the first has lost its element.
  tail-cells :
      (b : Buffer A) (x : A) (xs : List A)
      → Holds b (x ∷ xs)
      → b.start < b.capacity
      → (j : ℕ) → j < b.capacity
      → get_elem? (set b.vals b.start none) (offset_of b.capacity (next_start b.capacity b.start) j)
        ≡ some (get_elem? xs j)
  tail-cells b x xs h st j hj = elim (dec_lt (j + 1) b.capacity) [
    | yes p ↦
        let apart : b.start ≢ offset_of b.capacity b.start (j + 1) = λ e. absurd (
          omega (
            arith,
            offset_of-injective b.capacity b.start 0 (j + 1) (omega arith) p (offset-zero b st ∙ e),
          )) in
        rw (offset_of-next b.capacity b.start j st p)
          (get_elem?-set_ne b.vals none apart ∙ h.cells (j + 1) p ∙ rw add-one refl)
    | no p ↦
        let last : j ≡ b.capacity - 1 = omega arith in
        let out : get_elem? xs (b.capacity - 1) ≡ none =
          get_elem?_out xs (b.capacity - 1) (omega (arith, h.counted, h.fits)) in
        rw (last, offset_of-next_last b.capacity b.start st, out)
          (get_elem?-set_self b.vals b.start none (omega (arith, h.sized)))
  ]

  -- `pop_front` on a buffer that holds `x ∷ xs` does not fail, and leaves one that holds `xs`.
  pub pop_front-Holds :
      (b : Buffer A) (x : A) (xs : List A) → Holds b (x ∷ xs) → Leaves b.capacity (pop_front b) xs
  unfolding pop_front
  pop_front-Holds b x xs h =
      let (s, c, s0, c0) = inside b (x ∷ xs) 0 h (omega arith) in
      let st = started_lt h c0 in
      let live : load b.vals b.start ≡ ok x =
        rw (sym (offset-zero b st)) (load-cell b (x ∷ xs) 0 x h refl c0) in
      record {
        after = record {
          vals = set b.vals b.start none;
          start = next_start b.capacity b.start;
          size = b.size - 1;
          capacity = b.capacity;
        };
        cells = refl;
        returns = rw (
          ≢0→false b.size s0,
          element_at-pos b 0 c0,
          offset-zero b st,
          destruct-cell b.vals b.start x live,
        );
        holds = record {
          sized = length-set b.vals b.start none ∙ h.sized;
          counted = omega (arith, h.counted);
          fits = omega (arith, h.fits);
          started = inl (ground arith);
          cells = tail-cells b x xs h st;
        };
      }

  -- `pop_back` on a buffer that holds `xs ++ x ∷ []` does not fail, and leaves one that holds `xs`.
  pub pop_back-Holds :
      (b : Buffer A) (xs : List A) (x : A)
      → Holds b (xs ++ x ∷ [])
      → Leaves b.capacity (pop_back b) xs
  unfolding pop_back
  pop_back-Holds b xs x h =
      let count : length (xs ++ x ∷ []) ≡ length xs + 1 = length-append xs (x ∷ []) in
      let (s, c, s0, c0) = inside b (xs ++ x ∷ []) 0 h (omega (arith, count)) in
      let last : b.size - 1 ≡ length xs = omega (arith, h.counted, count) in
      let i = offset_of b.capacity b.start (length xs) in
      let hi : length xs < b.capacity = omega (arith, h.counted, count, h.fits) in
      let live : load b.vals i ≡ ok x =
        load-cell b (xs ++ x ∷ []) (length xs) x h (get_elem?-snoc_self xs x) hi in
      let none_at : get_elem? xs (length xs) ≡ none = get_elem?_out xs (length xs) (omega arith) in
      record {
        after = record {
          vals = set b.vals i none;
          start = b.start;
          size = b.size - 1;
          capacity = b.capacity;
        };
        cells = refl;
        returns =
            rw (
              ≢0→false b.size s0,
              element_at-negsuc b 0 c0 s0,
              last,
              destruct-cell b.vals i x live,
            );
        holds = record {
          sized = length-set b.vals i none ∙ h.sized;
          counted = omega (arith, h.counted, count);
          fits = omega (arith, h.fits);
          started = h.started;
          cells = rw (sym none_at) (
              set-cells b (xs ++ x ∷ []) (get_elem? xs) (length xs) h hi
                (λ j. get_elem?-snoc_ne xs x j));
        };
      }

  -- `push_back` after `make_room`.
  pub push_back-room :
      (b b1 : Buffer A) (xs : List A) (v : A)
      → make_room b ≡ ok b1
      → Holds b1 xs
      → b1.size < b1.capacity
      → (after : Buffer A) × (push_back b v ≡ ok after)
        × Holds after (xs ++ v ∷ [])
        × (after.capacity ≡ b1.capacity)
  unfolding push_back
  push_back-room b b1 xs v e h room =
      let count : length (xs ++ v ∷ []) ≡ length xs + 1 = length-append xs (v ∷ []) in
      let i = offset_of b1.capacity b1.start b1.size in
      let hi : length xs < b1.capacity = omega (arith, h.counted) in
      let inside_lt : i < length b1.vals = omega (
        arith,
        h.sized,
        offset_of-lt b1.capacity b1.start b1.size (started_lt h (omega arith)) room,
      ) in
      let grown = record b1 { size = b1.size + 1 } in
      (
        record {
          vals = set b1.vals i (some v);
          start = b1.start;
          size = b1.size + 1;
          capacity = b1.capacity;
        },
        rw (e, element_at-pos grown b1.size (omega arith), construct-cell b1.vals i v inside_lt)
            refl,
        record {
          sized = length-set b1.vals i (some v) ∙ h.sized;
          counted = omega (arith, h.counted, count);
          fits = omega arith;
          started = h.started;
          cells =
              rw (sym h.counted, sym (get_elem?-snoc_self xs v))
                (set-cells b1 xs (get_elem? (xs ++ v ∷ [])) (length xs) h hi
                  (λ j p. sym (get_elem?-snoc_ne xs v j p)));
        },
        refl,
      )
