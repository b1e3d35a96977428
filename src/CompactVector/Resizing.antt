-- ===== src/CompactVector/Resizing.antt =====
-- utils/compact_vector.h: `resize`, which may bring the elements back inside the object, as `erase` may.
use mathlib.Core.List.{append-nil}
use jml_base.Common.{
  ℕ, zero, suc, ◌+◌, ◌-◌, ◌≤◌, ◌<◌, leb, ◌==◌, ◌≡◌, ◌≢◌, refl, sym, ap, ◌∙◌, arith, lt→ltb, le→ltb,
  Bool, true, false, not, ◌&&◌, inl, inr, Bool-cases, List, [], ◌∷◌, ◌++◌, length, length-append,
  length-replicate, replicate, dec_lt, take,
}
use jml_base.Common.Result.{ok}
use jml_base.CompactVector.{CompactVector, Storage, itl, ext, max_size, is_internal, capacity_of}
use jml_base.CompactVector.Calls.{must_move_in, contract, resize}
use jml_base.CompactVector.Contents.{Holds, construct_all-Alike, destroy_back-Alike}
use jml_base.CompactVector.Copying.{contents-Holds}
use jml_base.CompactVector.Exchanging.{split_at}
use jml_base.CompactVector.Growing.{Roomy, rebuilt-Made, reserve-Roomy}

pub and-right : (a b : Bool) → a && b ≡ true → b ≡ true
and-right true b e = e
and-right false b e = absurd cc

take-all {ℓ} : {A : Type ℓ} (n : ℕ) (xs : List A) → length xs ≤ n → take n xs ≡ xs
take-all zero [] h = refl
take-all (suc n) [] h = refl
take-all zero (x ∷ xs) h = absurd (omega (arith, h))
take-all (suc n) (x ∷ xs) h = ap (λ l. x ∷ l) (take-all n xs (omega (arith, h)))

pub take-front {ℓ} :
    {A : Type ℓ} (front rest : List A) (n : ℕ) → length front ≡ n → take n (front ++ rest) ≡ front
take-front [] rest zero h = refl
take-front [] rest (suc n) h = absurd (omega (arith, h))
take-front (x ∷ front) rest zero h = absurd (omega (arith, h))
take-front (x ∷ front) rest (suc n) h = ap (λ l. x ∷ l) (take-front front rest n (omega (arith, h)))

pub ==-true : (m n : ℕ) → m ≡ n → (m == n) ≡ true
==-true m n h = ground arith

pub ==-false : (m n : ℕ) → m ≢ n → (m == n) ≡ false
==-false m n h = ground arith

length-take {ℓ} : {A : Type ℓ} (n : ℕ) (xs : List A) → length (take n xs) ≤ length xs
length-take zero xs = omega arith
length-take (suc n) [] = omega arith
length-take (suc n) (x ∷ xs) = omega (arith, length-take n xs)

pub minus_all : (m n : ℕ) → n ≤ m → n - m ≡ 0
minus_all m n h = omega arith

-- The list of a vector after `resize`.
abbrev pub resize_list {ℓ} : {A : Type ℓ} → ℕ → A → List A → List A
resize_list n a xs = take n xs ++ replicate (n - length xs) a

pub length-resize_list {ℓ} :
    {A : Type ℓ} (n : ℕ) (a : A) (xs : List A) → length (resize_list n a xs) ≤ length xs + n
length-resize_list n a xs = omega (
  arith,
  length-append (take n xs) (replicate (n - length xs) a),
  length-replicate (n - length xs) a,
  length-take n xs,
)

module _ {ℓ} {A : Type ℓ} (internal : ℕ) where
  pub capacity_of-inside :
      (s : Storage A) → is_internal s ≡ true → capacity_of internal s ≡ internal
  unfolding is_internal capacity_of
  capacity_of-inside (itl _) e = refl
  capacity_of-inside (ext _ _) e = absurd (cc)

  -- `contract` keeps the first elements, and leaves the vector with a cell where it had one.
  pub contract-Roomy :
      (v : CompactVector A) (xs ys : List A)
      → Holds internal v (xs ++ ys)
      → 0 < internal
      → 0 < capacity_of internal v.storage
      → length xs ≤ max_size
      → (v' : CompactVector A) × (contract internal v (length xs) ≡ ok v') × Roomy internal v' 1 xs
  unfolding contract must_move_in
  contract-Roomy v xs ys h some_cell some_room small =
      elim (Bool-cases (must_move_in internal v (length xs))) [
        | inl inward ↦
            let (v', e, k) =
              rebuilt-Made internal v (xs ++ ys) xs (length xs) h (omega arith) small in
            (
              v',
              rw (inward, contents-Holds internal v xs ys h) e,
              record {
                holds = k.holds;
                room = omega (
                  arith,
                  some_cell,
                  capacity_of-inside v'.storage (
                      k.inside
                      ∙ and-right (not (is_internal v.storage)) (leb (length xs) internal) inward),
                );
              },
            )
        | inr stays ↦
            let (v', e, k) =
              destroy_back-Alike internal (v.size - length xs) v xs ys h
                (omega (arith, h.sized, length-append xs ys)) in
            (v', rw stays e, record { holds = k.holds; room = rw k.room some_room })
      ]

  resized-Holds :
      (v : CompactVector A) (xs : List A) (n m : ℕ) (a : A)
      → m ≡ length xs
      → length xs ≤ n
      → Holds internal v (xs ++ replicate (n - m) a)
      → Holds internal v (resize_list n a xs)
  resized-Holds v xs n m a e h k = rw (take-all n xs h, sym e) k

  expand-Roomy :
      (v : CompactVector A) (xs : List A) (n : ℕ) (a : A)
      → Holds internal v xs
      → 0 < capacity_of internal v.storage
      → length xs < n
      → n ≤ max_size
      → (v' : CompactVector A) × (resize internal v n a ≡ ok v')
        × Roomy internal v' 1 (resize_list n a xs)
  unfolding resize
  expand-Roomy v xs n a h some_room longer small =
      let (v1, e1, r, s) = reserve-Roomy internal v xs n h small in
      let (v2, e2, k) =
        construct_all-Alike internal (replicate (n - v.size) a) v1 xs r.holds
          (rw (length-replicate (n - v.size) a) (omega (arith, r.room, h.sized, longer))) in
      (
        v2,
        rw
            (
              ==-false v.size n (omega (arith, h.sized, longer)),
              lt→ltb v.size n (omega (arith, h.sized, longer)),
              e1,
            )
            e2,
        record {
          holds = resized-Holds v2 xs n v.size a h.sized (omega (arith, longer)) k.holds;
          room = rw k.room (omega (arith, s.room, some_room));
        },
      )

  shrunk :
      (front rest xs : List A) (n : ℕ) (a : A) (v : CompactVector A)
      → xs ≡ front ++ rest
      → length front ≡ n
      → n ≤ length xs
      → Roomy internal v 1 front
      → Roomy internal v 1 (resize_list n a xs)
  shrunk front rest xs n a v same count less k =
      rw (minus_all (length xs) n less, same, take-front front rest n count, append-nil front) k

  unpadded :
      (v : CompactVector A) (xs : List A) (n : ℕ) (a : A)
      → Holds internal v xs
      → Holds internal v (xs ++ replicate (n - n) a)
  unpadded v xs n a h = rw (minus_all n n (omega arith), append-nil xs) h

  shrink-Roomy :
      (v : CompactVector A) (xs : List A) (n : ℕ) (a : A)
      → Holds internal v xs
      → 0 < internal
      → 0 < capacity_of internal v.storage
      → n < length xs
      → n ≤ max_size
      → (v' : CompactVector A) × (resize internal v n a ≡ ok v')
        × Roomy internal v' 1 (resize_list n a xs)
  unfolding resize
  shrink-Roomy v xs n a h some_cell some_room shorter small =
      let (front, rest, same, count) = split_at n xs (omega (arith, shorter)) in
      let (v', e, k) =
        contract-Roomy v front rest (rw (sym same) h) some_cell some_room
          (omega (arith, count, small)) in
      (
        v',
        rw
            (
              ==-false v.size n (omega (arith, h.sized, shorter)),
              le→ltb v.size n (omega (arith, h.sized, shorter)),
              sym count,
            )
            e,
        shrunk front rest xs n a v' same count (omega (arith, shorter)) k,
      )

  -- `resize` keeps the first elements, or all and copies of the one given.
  pub resize-Roomy :
      (v : CompactVector A) (xs : List A) (n : ℕ) (a : A)
      → Holds internal v xs
      → 0 < internal
      → 0 < capacity_of internal v.storage
      → n ≤ max_size
      → (v' : CompactVector A) × (resize internal v n a ≡ ok v')
        × Roomy internal v' 1 (resize_list n a xs)
  unfolding resize
  resize-Roomy v xs n a h some_cell some_room small = elim (dec_lt (length xs) n) [
    | yes longer ↦ expand-Roomy v xs n a h some_room longer small
    | no not_longer ↦ elim (dec_lt n (length xs)) [
      | yes shorter ↦ shrink-Roomy v xs n a h some_cell some_room shorter small
      | no not_shorter ↦ (
        v,
        rw (==-true v.size n (omega (arith, h.sized))) refl,
        record {
          holds = resized-Holds v xs n n a (omega arith) (omega arith) (unpadded v xs n a h);
          room = some_room;
        },
      )
    ]
  ]
