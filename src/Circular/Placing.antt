-- ===== src/Circular/Placing.antt =====
-- utils/circular_buffer.h: the loops that construct and destroy the elements of a run of cells.
use jml_base.Common.{
  ℕ, zero, suc, ◌+◌, ◌≤◌, ◌<◌, ◌≡◌, ◌⊎◌, inl, refl, sym, ap, ◌∙◌, arith, List, [], ◌∷◌, ◌++◌,
  Option, none, some, length, get_elem?, get_elem?-set_self, get_elem?-set_ne, length-set,
  ℕ_discrete, set,
}
use jml_base.Common.Result.{ok}
use native.Mathlib.Nat.{add-zero}
use jml_base.Circular.{load, copy_cells, destruct_cells}
use jml_base.Circular.Ends.{destruct-cell, construct-cell}

module _ {ℓ} {A : Type ℓ} where
  -- The storage with the elements `xs` constructed from the cell `to` on.
  unfoldable pub placed : List (Option A) → ℕ → List A → List (Option A)
  placed dst to [] = dst
  placed dst to (x ∷ xs) = placed (set dst to (some x)) (to + 1) xs

  pub length-placed :
      (dst : List (Option A)) (to : ℕ) (xs : List A) → length (placed dst to xs) ≡ length dst
  unfolding placed
  length-placed dst to [] = refl
  length-placed dst to (x ∷ xs) =
      length-placed (set dst to (some x)) (to + 1) xs ∙ length-set dst to (some x)

  placed_below :
      (dst : List (Option A)) (to : ℕ) (xs : List A) (i : ℕ)
      → i < to
      → get_elem? (placed dst to xs) i ≡ get_elem? dst i
  unfolding placed
  placed_below dst to [] i h = refl
  placed_below dst to (x ∷ xs) i h =
      placed_below (set dst to (some x)) (to + 1) xs i (omega arith)
      ∙ get_elem?-set_ne dst (some x) (omega arith)

  -- In cells with no element, the elements stand in order and the rest stays as it is.
  pub placed-cells :
      (dst : List (Option A)) (to : ℕ) (xs : List A) (k : ℕ)
      → ((j : ℕ) → to ≤ j → j < length dst → get_elem? dst j ≡ some none)
      → to + k < length dst
      → get_elem? (placed dst to xs) (to + k) ≡ some (get_elem? xs k)
  unfolding placed
  placed-cells dst to [] k raw h = raw (to + k) (omega arith) h
  placed-cells dst to (x ∷ xs) zero raw h = rw (add-zero to) (
      placed_below (set dst to (some x)) (to + 1) xs to (omega arith)
      ∙ get_elem?-set_self dst to (some x) (omega arith))
  placed-cells dst to (x ∷ xs) (suc k) raw h =
      let shift : to + suc k ≡ to + 1 + k = omega arith in
      let len = length-set dst to (some x) in
      rw shift (
        placed-cells (set dst to (some x)) (to + 1) xs k
          (λ j p q.
            get_elem?-set_ne dst (some x) (omega arith) ∙ raw j (omega arith) (omega (arith, len)))
          (omega (arith, len)))

  pub placed-append :
      (dst : List (Option A)) (to : ℕ) (xs ys : List A)
      → placed (placed dst to xs) (to + length xs) ys ≡ placed dst to (xs ++ ys)
  unfolding placed
  placed-append dst to [] ys = rw (add-zero to)
  placed-append dst to (x ∷ xs) ys =
      let shift : to + suc (length xs) ≡ to + 1 + length xs = omega arith in
      rw shift (placed-append (set dst to (some x)) (to + 1) xs ys)

  -- The copy of a run of live cells.
  pub copy_cells-placed :
      (xs : List A) (src : List (Option A)) (from : ℕ) (dst : List (Option A)) (to : ℕ)
      → ((k : ℕ) → k < length xs → get_elem? src (from + k) ≡ some (get_elem? xs k))
      → to + length xs ≤ length dst
      → copy_cells (length xs) src from dst to ≡ ok (placed dst to xs)
  unfolding copy_cells placed load
  copy_cells-placed [] src from dst to live h = refl
  copy_cells-placed (x ∷ xs) src from dst to live h =
      let here : get_elem? src from ≡ some (some x) =
        rw (sym (add-zero from)) (live 0 (omega arith)) in
      rw (here, construct-cell dst to x (omega arith))
        (copy_cells-placed xs src (from + 1) (set dst to (some x)) (to + 1)
          (λ k p. ap (get_elem? src) (omega arith) ∙ live (suc k) (omega arith))
          (omega (arith, length-set dst to (some x))))

  -- The storage with no element in `n` cells.
  unfoldable pub wiped : ℕ → List (Option A) → ℕ → List (Option A)
  wiped zero vals from = vals
  wiped (suc n) vals from = wiped n (set vals from none) (from + 1)

  pub length-wiped :
      (n : ℕ) (vals : List (Option A)) (from : ℕ) → length (wiped n vals from) ≡ length vals
  unfolding wiped
  length-wiped zero vals from = refl
  length-wiped (suc n) vals from =
      length-wiped n (set vals from none) (from + 1) ∙ length-set vals from none

  pub wiped_outside :
      (n : ℕ) (vals : List (Option A)) (from i : ℕ)
      → (i < from) ⊎ (from + n ≤ i)
      → get_elem? (wiped n vals from) i ≡ get_elem? vals i
  unfolding wiped
  wiped_outside zero vals from i h = refl
  wiped_outside (suc n) vals from i h =
      wiped_outside n (set vals from none) (from + 1) i (ground arith)
      ∙ get_elem?-set_ne vals none (ground arith)

  pub wiped_inside :
      (n : ℕ) (vals : List (Option A)) (from i : ℕ)
      → from ≤ i
      → i < from + n
      → i < length vals
      → get_elem? (wiped n vals from) i ≡ some none
  unfolding wiped
  wiped_inside zero vals from i p q h = absurd (omega arith)
  wiped_inside (suc n) vals from i p q h = elim (ℕ_discrete i from) [
    | yes e ↦ rw e (
        wiped_outside n (set vals from none) (from + 1) from (inl (omega arith))
        ∙ get_elem?-set_self vals from none (omega arith))
    | no e ↦
        wiped_inside n (set vals from none) (from + 1) i (omega arith) (omega arith)
          (omega (arith, length-set vals from none))
  ]

  pub destruct_cells-wiped :
      (n : ℕ) (vals : List (Option A)) (from : ℕ)
      → ((k : ℕ) → k < n → (x : A) × (load vals (from + k) ≡ ok x))
      → destruct_cells n vals from ≡ ok (wiped n vals from)
  unfolding destruct_cells wiped load
  destruct_cells-wiped zero vals from live = refl
  destruct_cells-wiped (suc n) vals from live =
      let (x, e) = live 0 (omega arith) in
      let here : load vals from ≡ ok x = rw (sym (add-zero from)) e in
      rw (destruct-cell vals from x here) (
        destruct_cells-wiped n (set vals from none) (from + 1) (λ k p.
          let (y, f) = live (suc k) (omega arith) in
          let shift : from + suc k ≡ from + 1 + k = omega arith in
          let apart : get_elem? (set vals from none) (from + 1 + k)
              ≡ get_elem? vals (from + 1 + k) =
            get_elem?-set_ne vals none (omega arith) in
          (y, rw apart (rw (sym shift) f))))
