-- ===== src/Circular/Clear.antt =====
-- utils/circular_buffer.h: `clear` removes every element, and `destroy` the storage as well.
use jml_base.Common.{
  ℕ, ◌+◌, ◌-◌, ◌≤◌, ◌<◌, ◌≡◌, inl, inr, refl, sym, ap, ◌∙◌, arith, true, List, [], Option, none,
  some, length, get_elem?, get_elem?_in, get_elem?_out, dec_lt,
}
use jml_base.Common.Int.{pos}
use jml_base.Common.Result.{ok}
use jml_base.Circular.{
  Buffer, offset_of, load, destruct_cells, first_half, second_half, clear, destroy, is_start,
}
use jml_base.Circular.Cells.{offset_of-lt, offset_of-low, offset_of-high}
use jml_base.Circular.Contents.{Holds, Leaves, started_lt}
use jml_base.Circular.Placing.{
  wiped, wiped_outside, wiped_inside, length-wiped, destruct_cells-wiped,
}

module _ {ℓ} {A : Type ℓ} (b : Buffer A) (xs : List A) (h : Holds b xs) where
  -- The content of a cell from the start on, and of one before it.
  cell_from :
      (i : ℕ)
      → b.start ≤ i
      → i < b.capacity
      → get_elem? b.vals i ≡ some (get_elem? xs (i - b.start))
  cell_from i p q =
      let place : offset_of b.capacity b.start (i - b.start) ≡ i =
        offset_of-low b.capacity b.start (i - b.start) (omega arith) ∙ omega arith in
      ap (get_elem? b.vals) (sym place) ∙ h.cells (i - b.start) (omega arith)

  cell_before :
      (i : ℕ)
      → i < b.start
      → i < b.capacity
      → get_elem? b.vals i ≡ some (get_elem? xs (i + b.capacity - b.start))
  cell_before i p q =
      let st = started_lt h (omega arith) in
      let place : offset_of b.capacity b.start (i + b.capacity - b.start) ≡ i =
        offset_of-high b.capacity b.start (i + b.capacity - b.start) (omega arith) ∙ omega arith in
      ap (get_elem? b.vals) (sym place) ∙ h.cells (i + b.capacity - b.start) (omega arith)

  pub start_le : b.start ≤ b.capacity
  start_le = elim h.started [ inl p ↦ omega arith | inr p ↦ omega arith ]

  -- The two runs of cells with elements: from the start, and from the first cell.
  pub first_run :
      (k : ℕ) → k < first_half b → get_elem? b.vals (b.start + k) ≡ some (get_elem? xs k)
  first_run k p =
      let same : b.start + k - b.start ≡ k = omega arith in
      cell_from (b.start + k) (omega arith) (omega (arith, start_le)) ∙ rw same

  pub second_run :
      (k : ℕ) → k < second_half b → get_elem? b.vals k ≡ some (get_elem? xs (first_half b + k))
  second_run k p =
      let same : k + b.capacity - b.start ≡ first_half b + k = omega (arith, start_le, h.fits) in
      cell_before k (omega (arith, start_le, h.fits)) (omega (arith, start_le, h.fits)) ∙ rw same

  after_first : List (Option A)
  after_first = wiped (first_half b) b.vals b.start

  after_clear : List (Option A)
  after_clear = wiped (second_half b) after_first 0

  live_cell :
      (i k : ℕ) (vals : List (Option A))
      → k < length xs
      → get_elem? vals i ≡ some (get_elem? xs k)
      → (x : A) × (load vals i ≡ ok x)
  unfolding load
  live_cell i k vals p e = let (x, f) = get_elem?_in xs k p in (x, rw (e, f))

  first_destroyed : destruct_cells (first_half b) b.vals b.start ≡ ok after_first
  unfolding after_first
  first_destroyed =
      destruct_cells-wiped (first_half b) b.vals b.start
        (λ k p. live_cell (b.start + k) k b.vals (omega (arith, h.counted)) (first_run k p))

  second_destroyed : destruct_cells (second_half b) after_first 0 ≡ ok after_clear
  unfolding after_first after_clear
  second_destroyed = destruct_cells-wiped (second_half b) after_first 0 (λ k p.
      live_cell (0 + k) (first_half b + k) after_first (omega (arith, h.counted)) (
        wiped_outside (first_half b) b.vals b.start (0 + k) (inl (omega (arith, start_le, h.fits)))
        ∙ ap (get_elem? b.vals) (omega arith)
        ∙ second_run k p))

  length-after_first : length after_first ≡ b.capacity
  unfolding after_first
  length-after_first = length-wiped (first_half b) b.vals b.start ∙ h.sized

  length-after_clear : length after_clear ≡ b.capacity
  unfolding after_clear
  length-after_clear = length-wiped (second_half b) after_first 0 ∙ length-after_first

  after_first-cells :
      (i : ℕ) → i < b.capacity → second_half b ≤ i → get_elem? after_first i ≡ some none
  unfolding after_first
  after_first-cells i hi p = elim (dec_lt i b.start) [
    | yes q ↦
        wiped_outside (first_half b) b.vals b.start i (inl q)
        ∙ cell_before i q hi
        ∙ ap some (
            get_elem?_out xs (i + b.capacity - b.start)
              (omega (arith, h.counted, start_le, h.fits)))
    | no q ↦ elim (dec_lt i (b.start + first_half b)) [
      | yes r ↦
          wiped_inside (first_half b) b.vals b.start i (omega arith) r (omega (arith, h.sized))
      | no r ↦
          wiped_outside (first_half b) b.vals b.start i (inr (omega arith))
          ∙ cell_from i (omega arith) hi
          ∙ ap some (get_elem?_out xs (i - b.start) (omega (arith, h.counted, start_le, h.fits)))
    ]
  ]

  -- No cell keeps an element.
  after_clear-cells : (i : ℕ) → i < b.capacity → get_elem? after_clear i ≡ some none
  unfolding after_clear
  after_clear-cells i hi = elim (dec_lt i (second_half b)) [
    | yes p ↦
        wiped_inside (second_half b) after_first 0 i (omega arith) (omega arith)
          (omega (arith, length-after_first))
    | no p ↦
        wiped_outside (second_half b) after_first 0 i (inr (omega arith))
        ∙ after_first-cells i hi (omega arith)
  ]

  clear-eq :
      (s : ℕ)
      → is_start b s ≡ true
      → clear b (pos s)
        ≡ ok (record { vals = after_clear; start = s; size = 0; capacity = b.capacity })
  unfolding clear
  clear-eq s e = rw (e, first_destroyed, second_destroyed)

  -- `clear` with a start inside the storage does not fail: it destroys every element of a buffer that
  -- holds `xs`, and leaves one that holds nothing.
  pub clear-Holds : (s : ℕ) → is_start b s ≡ true → Leaves b.capacity (clear b (pos s)) []
  clear-Holds s e = record {
    after = record { vals = after_clear; start = s; size = 0; capacity = b.capacity };
    cells = refl;
    returns = clear-eq s e;
    holds = record {
      sized = length-after_clear;
      counted = refl;
      fits = omega arith;
      started = ground arith;
      cells = λ i hi. elim (dec_lt s b.capacity) [
        | yes p ↦ after_clear-cells (offset_of b.capacity s i) (offset_of-lt b.capacity s i p hi)
        | no p ↦ absurd (ground arith)
      ];
    };
  }

  pub destroy-eq : destroy b ≡ ok (record { vals = []; start = 0; size = 0; capacity = 0 })
  unfolding destroy
  destroy-eq = let first : is_start b 0 ≡ true = ground arith in rw (clear-eq 0 first)
