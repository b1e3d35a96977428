-- ===== src/CompactVector/Cells.antt =====
-- utils/compact_vector.h: one cell behind a prefix of others, and loops over the cells behind it.
use mathlib.Core.List.{append_assoc}
use jml_base.Common.{
  ℕ, ◌+◌, ◌<◌, ◌≡◌, refl, sym, ap, arith, lt→ltb, Option, none, some, List, [], ◌∷◌, ◌++◌, length,
  length-append, get_elem?, set, replicate,
}
use jml_base.Common.Result.{ok}
use jml_base.CompactVector.{
  load, construct, destruct, assign, read_range, destroy_range, move_range, swap_range,
  assign_range,
}

module _ {ℓ} {B : Type ℓ} where
  get_elem?-behind :
      (pre : List B) (c : B) (rest : List B) → get_elem? (pre ++ c ∷ rest) (length pre) ≡ some c
  get_elem?-behind [] c rest = refl
  get_elem?-behind (x ∷ pre) c rest = get_elem?-behind pre c rest

  set-behind :
      (pre : List B) (c d : B) (rest : List B)
      → set (pre ++ c ∷ rest) (length pre) d ≡ pre ++ d ∷ rest
  set-behind [] c d rest = refl
  set-behind (x ∷ pre) c d rest = ap (λ xs. x ∷ xs) (set-behind pre c d rest)

  snoc_append : (pre : List B) (c : B) (rest : List B) → pre ++ c ∷ rest ≡ (pre ++ c ∷ []) ++ rest
  snoc_append pre c rest = sym (append_assoc pre (c ∷ []) rest)

  pub length-snoc : (pre : List B) (c : B) (i : ℕ) → length pre ≡ i → length (pre ++ c ∷ []) ≡ i + 1
  length-snoc pre c i e = omega (arith, length-append pre (c ∷ []), e)

  behind-lt :
      (pre : List B) (c : B) (rest : List B) (i : ℕ) → length pre ≡ i → i < length (pre ++ c ∷ rest)
  behind-lt pre c rest i e = omega (arith, length-append pre (c ∷ rest), e)

-- Cells that all hold an element.
abbrev pub cells_of {ℓ} : {A : Type ℓ} → List A → List (Option A)
cells_of [] = []
cells_of (x ∷ xs) = some x ∷ cells_of xs

module _ {ℓ} {A : Type ℓ} (pre : List (Option A)) (i : ℕ) (e : length pre ≡ i) where
  pub load-behind : (a : A) (rest : List (Option A)) → load (pre ++ some a ∷ rest) i ≡ ok a
  unfolding load
  load-behind a rest = rw (sym e, get_elem?-behind pre (some a) rest) refl

  pub construct-behind :
      (c : Option A) (a : A) (rest : List (Option A))
      → construct (pre ++ c ∷ rest) i a ≡ ok (pre ++ some a ∷ rest)
  unfolding construct
  construct-behind c a rest =
      rw
        (
          lt→ltb i (length (pre ++ c ∷ rest)) (behind-lt pre c rest i e),
          sym e,
          set-behind pre c (some a) rest,
        )
        refl

  pub destruct-behind :
      (a : A) (rest : List (Option A)) → destruct (pre ++ some a ∷ rest) i ≡ ok (pre ++ none ∷ rest)
  unfolding destruct load
  destruct-behind a rest =
      rw (sym e, get_elem?-behind pre (some a) rest, set-behind pre (some a) none rest) refl

  pub assign-behind :
      (a b : A) (rest : List (Option A))
      → assign (pre ++ some a ∷ rest) i b ≡ ok (pre ++ some b ∷ rest)
  unfolding assign load
  assign-behind a b rest =
      rw (sym e, get_elem?-behind pre (some a) rest, set-behind pre (some a) (some b) rest) refl

module _ {ℓ} {A : Type ℓ} where
  pub read_range-behind :
      (pre : List (Option A)) (xs : List A) (rest : List (Option A)) (i : ℕ)
      → length pre ≡ i
      → read_range (length xs) (pre ++ (cells_of xs ++ rest)) i ≡ ok xs
  unfolding read_range
  read_range-behind pre [] rest i e = refl
  read_range-behind pre (x ∷ xs) rest i e =
      rw
        (
          load-behind pre i e x (cells_of xs ++ rest),
          snoc_append pre (some x) (cells_of xs ++ rest),
          read_range-behind (pre ++ some x ∷ []) xs rest (i + 1) (length-snoc pre (some x) i e),
        )
        refl

  pub destroy_range-behind :
      (pre : List (Option A)) (xs : List A) (rest : List (Option A)) (i : ℕ)
      → length pre ≡ i
      → destroy_range (length xs) (pre ++ (cells_of xs ++ rest)) i
        ≡ ok (pre ++ (replicate (length xs) none ++ rest))
  unfolding destroy_range
  destroy_range-behind pre [] rest i e = refl
  destroy_range-behind pre (x ∷ xs) rest i e =
      rw
        (
          destruct-behind pre i e x (cells_of xs ++ rest),
          snoc_append pre none (cells_of xs ++ rest),
          destroy_range-behind (pre ++ none ∷ []) xs rest (i + 1) (length-snoc pre none i e),
        )
        (ap ok (sym (snoc_append pre none (replicate (length xs) none ++ rest))))

  pub assign_range-behind :
      (pre : List (Option A)) (old xs : List A) (rest : List (Option A)) (i : ℕ)
      → length pre ≡ i
      → length old ≡ length xs
      → assign_range xs (pre ++ (cells_of old ++ rest)) i ≡ ok (pre ++ (cells_of xs ++ rest))
  unfolding assign_range
  assign_range-behind pre [] [] rest i e same = refl
  assign_range-behind pre (y ∷ old) (x ∷ xs) rest i e same =
      rw
        (
          assign-behind pre i e y x (cells_of old ++ rest),
          snoc_append pre (some x) (cells_of old ++ rest),
          assign_range-behind (pre ++ some x ∷ []) old xs rest (i + 1)
              (length-snoc pre (some x) i e) (omega (arith, same)),
        )
        (ap ok (sym (snoc_append pre (some x) (cells_of xs ++ rest))))
  assign_range-behind pre [] (x ∷ xs) rest i e same = absurd (omega (arith, same))
  assign_range-behind pre (y ∷ old) [] rest i e same = absurd (omega (arith, same))

  -- From `pre` and `pre'` on, as many as there are to move.
  pub move_range-behind :
      (pre pre' : List (Option A)) (xs : List A) (rest rest' : List (Option A)) (i : ℕ)
      → length pre ≡ i
      → length pre' ≡ i
      → move_range
          (length xs)
          i
          (pre ++ (cells_of xs ++ rest))
          (pre' ++ (replicate (length xs) none ++ rest'))
        ≡ ok (pre ++ (replicate (length xs) none ++ rest), pre' ++ (cells_of xs ++ rest'))
  unfolding move_range
  move_range-behind pre pre' [] rest rest' i e e' = refl
  move_range-behind pre pre' (x ∷ xs) rest rest' i e e' =
      rw
        (
          load-behind pre i e x (cells_of xs ++ rest),
          construct-behind pre' i e' none x (replicate (length xs) none ++ rest'),
          destruct-behind pre i e x (cells_of xs ++ rest),
          snoc_append pre none (cells_of xs ++ rest),
          snoc_append pre' (some x) (replicate (length xs) none ++ rest'),
          move_range-behind (pre ++ none ∷ []) (pre' ++ some x ∷ []) xs rest rest' (i + 1)
              (length-snoc pre none i e) (length-snoc pre' (some x) i e'),
          sym (snoc_append pre none (replicate (length xs) none ++ rest)),
          sym (snoc_append pre' (some x) (cells_of xs ++ rest')),
        )
        refl

  pub swap_range-behind :
      (pre pre' : List (Option A)) (xs ys : List A) (rest rest' : List (Option A)) (i : ℕ)
      → length pre ≡ i
      → length pre' ≡ i
      → length xs ≡ length ys
      → swap_range (length xs) i (pre ++ (cells_of xs ++ rest)) (pre' ++ (cells_of ys ++ rest'))
        ≡ ok (pre ++ (cells_of ys ++ rest), pre' ++ (cells_of xs ++ rest'))
  unfolding swap_range
  swap_range-behind pre pre' [] [] rest rest' i e e' same = refl
  swap_range-behind pre pre' (x ∷ xs) (y ∷ ys) rest rest' i e e' same =
      rw
        (
          load-behind pre i e x (cells_of xs ++ rest),
          load-behind pre' i e' y (cells_of ys ++ rest'),
          assign-behind pre i e x y (cells_of xs ++ rest),
          assign-behind pre' i e' y x (cells_of ys ++ rest'),
          snoc_append pre (some y) (cells_of xs ++ rest),
          snoc_append pre' (some x) (cells_of ys ++ rest'),
          swap_range-behind (pre ++ some y ∷ []) (pre' ++ some x ∷ []) xs ys rest rest' (i + 1)
              (length-snoc pre (some y) i e) (length-snoc pre' (some x) i e') (omega (arith, same)),
          sym (snoc_append pre (some y) (cells_of ys ++ rest)),
          sym (snoc_append pre' (some x) (cells_of xs ++ rest')),
        )
        refl
  swap_range-behind pre pre' [] (y ∷ ys) rest rest' i e e' same = absurd (omega (arith, same))
  swap_range-behind pre pre' (x ∷ xs) [] rest rest' i e e' same = absurd (omega (arith, same))
