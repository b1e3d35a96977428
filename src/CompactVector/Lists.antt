-- ===== src/CompactVector/Lists.antt =====
-- utils/compact_vector.h: the lists that a client's calls leave, as parts of the list before.
use mathlib.Core.List.{append_assoc}
use jml_base.Common.{
  ℕ, zero, suc, ◌≤◌, ◌≡◌, refl, sym, ap, ap₂, ◌∙◌, arith, Option, some, List, [], ◌∷◌, ◌++◌, length,
  get_elem?, drop, take,
}
use jml_base.Common.Result.{ok}
use jml_base.CompactVector.Cells.{cells_of}
use jml_base.CompactVector.Client.{cut, but_last, call_list}
use jml_base.CompactVector.Copying.{leb-true}
use jml_base.CompactVector.Resizing.{take-front}
use jml_base.CompactVector.Exchanging.{split_at}

module _ {ℓ} {A : Type ℓ} where
  pub but_last-snoc : (x : A) (xs ys : List A) (a : A) → x ∷ xs ≡ ys ++ a ∷ [] → but_last x xs ≡ ys
  unfolding but_last
  but_last-snoc x [] [] a e = refl
  but_last-snoc x [] (y ∷ []) a e = absurd cc
  but_last-snoc x [] (y ∷ z ∷ ys) a e = absurd cc
  but_last-snoc x (x' ∷ xs) [] a e = absurd cc
  but_last-snoc x (x' ∷ xs) (y ∷ ys) a e =
      let heads : x ≡ y = cc in
      let tails : x' ∷ xs ≡ ys ++ a ∷ [] = cc in
      ap₂ (λ z zs. z ∷ zs) heads (but_last-snoc x' xs ys a tails)

  drop-front : (front rest : List A) (n : ℕ) → length front ≡ n → drop n (front ++ rest) ≡ rest
  drop-front [] rest zero h = refl
  drop-front [] rest (suc n) h = absurd (omega (arith, h))
  drop-front (x ∷ front) rest zero h = absurd (omega (arith, h))
  drop-front (x ∷ front) rest (suc n) h = drop-front front rest n (omega (arith, h))

  pub put_parts :
      (i : ℕ) (xs front behind : List A)
      → xs ≡ front ++ behind
      → length front ≡ i
      → (take i xs ≡ front) × (drop i xs ≡ behind)
  put_parts i xs front behind same count = (
    ap (take i) same ∙ take-front front behind i count,
    ap (drop i) same ∙ drop-front front behind i count,
  )

  pub cut_parts :
      (first last : ℕ) (xs : List A)
      → first ≤ last
      → last ≤ length xs
      → (front : List A) × (gap : List A) × (behind : List A) × (xs ≡ (front ++ gap) ++ behind)
        × (length front ≡ first)
        × (length (front ++ gap) ≡ last)
        × (take first xs ++ drop last xs ≡ front ++ behind)
  cut_parts first last xs h k =
      let (whole, behind, same, count) = split_at last xs k in
      let (front, gap, same', count') = split_at first whole (omega (arith, count, h)) in
      let all = same ∙ ap (λ l. l ++ behind) same' in
      (
        front,
        gap,
        behind,
        all,
        count',
        ap length (sym same') ∙ count,
        ap₂ (λ l m. l ++ m)
            (ap (take first) (all ∙ append_assoc front gap behind)
              ∙ take-front front (gap ++ behind) first count')
            (ap (drop last) same ∙ drop-front whole behind last count),
      )

  pub cut_list-in :
      (first last : ℕ) (xs : List A)
      → first ≤ last
      → last ≤ length xs
      → call_list (cut first last) xs ≡ ok ([], take first xs ++ drop last xs)
  unfolding call_list
  cut_list-in first last xs h k = rw (leb-true first last h, leb-true last (length xs) k) refl

  pub get_elem?-cells_of :
      (xs : List A) (rest : List (Option A)) (i : ℕ) (a : A)
      → get_elem? xs i ≡ some a
      → get_elem? (cells_of xs ++ rest) i ≡ some (some a)
  get_elem?-cells_of [] rest i a e = absurd cc
  get_elem?-cells_of (x ∷ xs) rest zero a e = cc
  get_elem?-cells_of (x ∷ xs) rest (suc i) a e = get_elem?-cells_of xs rest i a e
