-- ===== src/CompactVector/Exchanging.antt =====
-- utils/compact_vector.h, `swap`: what its loops do to the cells of two vectors.
use mathlib.Core.List.{append_assoc}
use jml_base.Common.{
  ℕ, zero, suc, ◌+◌, ◌-◌, ◌≤◌, min, ◌≡◌, refl, sym, ap, ◌∙◌, arith, Option, none, List, [], ◌∷◌,
  ◌++◌, length, length-append, replicate, dec_le,
}
use jml_base.Common.Result.{ok}
use jml_base.CompactVector.{itl, ext, move_range}
use jml_base.CompactVector.Cells.{cells_of, move_range-behind, swap_range-behind}
use jml_base.CompactVector.Calls.{swap_internal, swap_over}
use jml_base.CompactVector.Contents.{length-cells_of}
use jml_base.CompactVector.Copying.{cells_of-append, replicate-append}

pub split_at {ℓ} :
    {A : Type ℓ} (k : ℕ) (ys : List A)
    → k ≤ length ys
    → (front : List A) × (rest : List A) × (ys ≡ front ++ rest) × (length front ≡ k)
split_at zero ys h = ([], ys, refl, refl)
split_at (suc k) [] h = absurd (omega (arith, h))
split_at (suc k) (y ∷ ys) h =
    let (front, rest, same, count) = split_at k ys (omega (arith, h)) in
    (y ∷ front, rest, ap (λ l. y ∷ l) same, omega (arith, count))

min_low : (m n k : ℕ) → n ≡ m + k → min m n ≡ m
min_low m n k e = omega arith

min_high : (m n k : ℕ) → n ≡ m + k → min n m ≡ m
min_high m n k e = omega arith

minus_low : (m n k : ℕ) → n ≡ m + k → m - n ≡ 0
minus_low m n k e = omega arith

minus_high : (m n k : ℕ) → n ≡ m + k → n - m ≡ k
minus_high m n k e = omega arith

free-split : (n a b c free free' : ℕ) → a + free ≡ n → b + free' ≡ n → b ≡ a + c → free ≡ c + free'
free-split n a b c free free' e e' d = omega (arith, e, e', d)

module _ {ℓ} {A : Type ℓ} where
  -- The cells of two parts, the empty ones behind.
  parts :
      (ys zs : List A) (free : ℕ)
      → cells_of (ys ++ zs) ++ replicate free none
        ≡ cells_of ys ++ (cells_of zs ++ replicate free none)
  parts ys zs free =
      ap (λ cs. cs ++ replicate free none) (cells_of-append ys zs)
      ∙ append_assoc (cells_of ys) (cells_of zs) (replicate free none)

  -- The lengths of a list in two parts, the first as long as another list.
  parts-length :
      (xs ys zs : List A) → length ys ≡ length xs → length (ys ++ zs) ≡ length xs + length zs
  parts-length xs ys zs e = omega (arith, e, length-append ys zs)

module _ {ℓ} {A : Type ℓ} (internal : ℕ) where
  pub swap_over-eq :
      (cells pointer : List (Option A)) (c m n free : ℕ) (xs : List A)
      → cells ≡ cells_of xs ++ replicate free none
      → length xs + free ≡ internal
      → m ≡ length xs
      → swap_over internal cells m pointer c n
        ≡ ok (
          record { storage = ext pointer c; size = n },
          record { storage = itl (cells_of xs ++ replicate free none); size = m },
        )
  unfolding swap_over
  swap_over-eq cells pointer c m n free xs e room count =
      rw
        (
          e,
          count,
          sym room,
          sym (replicate-append {B = Option A} (length xs) free none),
          move_range-behind [] [] xs (replicate free none) (replicate free none) 0 refl refl,
        )
        refl

  -- Both inside, and the second at least as long: `ys` and `zs` are its elements.
  swap_internal-longer :
      (xs ys zs : List A) (free free' : ℕ)
      → length ys ≡ length xs
      → free ≡ length zs + free'
      → swap_internal internal
          (cells_of xs ++ replicate free none)
          (length xs)
          (cells_of (ys ++ zs) ++ replicate free' none)
          (length (ys ++ zs))
        ≡ ok (
          record {
            storage = itl (cells_of (ys ++ zs) ++ replicate free' none);
            size = length (ys ++ zs);
          },
          record { storage = itl (cells_of xs ++ replicate free none); size = length xs },
        )
  unfolding swap_internal move_range
  swap_internal-longer xs ys zs free free' same room =
      let long = parts-length xs ys zs same in
      let m = length xs in
      let n = length (ys ++ zs) in
      let empty = replicate-append {B = Option A} (length zs) free' none in
      rw
        (
          parts ys zs free',
          min_low m n (length zs) long,
          swap_range-behind [] [] xs ys (replicate free none) (cells_of zs ++ replicate free' none)
              0 refl refl (sym same),
          minus_high m n (length zs) long,
          room,
          sym empty,
          move_range-behind (cells_of xs) (cells_of ys) zs (replicate free' none)
              (replicate free' none) m (length-cells_of xs) (length-cells_of ys ∙ same),
          minus_low m n (length zs) long,
        )
        refl

  swap_internal-shorter :
      (xs ys zs : List A) (free free' : ℕ)
      → length ys ≡ length xs
      → free ≡ length zs + free'
      → swap_internal internal
          (cells_of (ys ++ zs) ++ replicate free' none)
          (length (ys ++ zs))
          (cells_of xs ++ replicate free none)
          (length xs)
        ≡ ok (
          record { storage = itl (cells_of xs ++ replicate free none); size = length xs },
          record {
            storage = itl (cells_of (ys ++ zs) ++ replicate free' none);
            size = length (ys ++ zs);
          },
        )
  unfolding swap_internal move_range
  swap_internal-shorter xs ys zs free free' same room =
      let long = parts-length xs ys zs same in
      let m = length xs in
      let n = length (ys ++ zs) in
      let empty = replicate-append {B = Option A} (length zs) free' none in
      rw
        (
          parts ys zs free',
          min_high m n (length zs) long,
          sym same,
          swap_range-behind [] [] ys xs (cells_of zs ++ replicate free' none) (replicate free none)
              0 refl refl same,
          same,
          minus_low m n (length zs) long,
          minus_high m n (length zs) long,
          room,
          sym empty,
          move_range-behind (cells_of xs) (cells_of ys) zs (replicate free' none)
              (replicate free' none) m (length-cells_of xs) (length-cells_of ys ∙ same),
        )
        refl

  pub swap_internal-eq :
      (xs ys : List A) (free free' : ℕ)
      → length xs + free ≡ internal
      → length ys + free' ≡ internal
      → swap_internal internal
          (cells_of xs ++ replicate free none)
          (length xs)
          (cells_of ys ++ replicate free' none)
          (length ys)
        ≡ ok (
          record { storage = itl (cells_of ys ++ replicate free' none); size = length ys },
          record { storage = itl (cells_of xs ++ replicate free none); size = length xs },
        )
  swap_internal-eq xs ys free free' e e' = elim (dec_le (length xs) (length ys)) [
    | yes longer ↦
        let (front, rest, same, count) = split_at (length xs) ys longer in
        let total = ap length same ∙ parts-length xs front rest count in
        rw same (
          swap_internal-longer xs front rest free free' count
            (free-split internal (length xs) (length ys) (length rest) free free' e e' total))
    | no shorter ↦
        let (front, rest, same, count) = split_at (length ys) xs (omega arith) in
        let total = ap length same ∙ parts-length ys front rest count in
        rw same (
          swap_internal-shorter ys front rest free' free count
            (free-split internal (length ys) (length xs) (length rest) free' free e' e total))
  ]
