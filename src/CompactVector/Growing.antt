-- ===== src/CompactVector/Growing.antt =====
-- utils/compact_vector.h: `reserve`, `emplace_back`, `pop_back` and `resize` on the list that a vector
-- holds.
use mathlib.Core.List.{append-nil}
use jml_base.Common.{
  ℕ, ◌*◌, ◌%◌, ◌^◌, ◌≤◌, ◌<◌, min, max, ◌≡◌, refl, ◌∙◌, arith, List, [], ◌∷◌, ◌++◌, length, dec_le,
}
use jml_base.Common.Result.{ok}
use jml_base.CompactVector.{CompactVector, max_size, capacity_of, new, init_copy}
use jml_base.CompactVector.Calls.{contents, replace_by, grown_to, reserve, emplace_back, pop_back}
use jml_base.CompactVector.Contents.{
  Holds, Alike, construct_back-Alike, destroy_last-Alike, last-nonempty,
}
use jml_base.CompactVector.Copying.{
  leb-true, leb-false, contents-Holds, new-Holds, Made, init_copy-Made,
}
use jml_base.CompactVector.Swapping.{replace_by-Holds}

grown-room : (c n : ℕ) → n ≤ max_size → n ≤ min (max (c * 2 % 2 ^ 32) n) max_size
grown-room c n h = omega arith

grown-small : (c n : ℕ) → min (max (c * 2 % 2 ^ 32) n) max_size ≤ max_size
grown-small c n = omega arith

module _ {ℓ} {A : Type ℓ} (internal : ℕ) where
  -- The result holds the list, and has room for `n`.
  pub record Roomy (v : CompactVector A) (n : ℕ) (xs : List A) : Type ℓ where
    pub holds : Holds internal v xs
    pub room : n ≤ capacity_of internal v.storage

  all_contents :
      (v : CompactVector A) (xs : List A) → Holds internal v xs → contents v v.size ≡ ok xs
  unfolding contents
  all_contents v xs h = rw h.sized (contents-Holds internal v xs [] (rw (append-nil xs) h))

  size-le :
      (v : CompactVector A) (xs : List A)
      → Holds internal v xs
      → length xs ≤ capacity_of internal v.storage
  size-le v xs h = omega (arith, h.room)

  -- `compact_vector new_me; new_me.init_copy(begin, end, n); swap(new_me);`.
  pub rebuilt-Made :
      (v : CompactVector A) (xs ys : List A) (n : ℕ)
      → Holds internal v xs
      → length ys ≤ n
      → n ≤ max_size
      → (v' : CompactVector A) × (replace_by internal v (init_copy internal (new internal) ys n)
          ≡ ok v')
        × Made internal n v' ys
  rebuilt-Made v xs ys n h fits small =
      let (w, made, k) =
        init_copy-Made internal (new internal) [] ys n (new-Holds internal) fits small in
      let (v', e, holds, room, inside) = replace_by-Holds internal v w xs ys _ h made k.holds in
      (v', e, record { holds = holds; room = rw room k.room; inside = inside ∙ k.inside })

  -- `reserve` keeps the elements and makes room for what was asked, up to the greatest size.
  pub reserve-Roomy :
      (v : CompactVector A) (xs : List A) (n : ℕ)
      → Holds internal v xs
      → n ≤ max_size
      → (v' : CompactVector A) × (reserve internal v n ≡ ok v')
        × Roomy v' n xs
        × Roomy v' (capacity_of internal v.storage) xs
  unfolding reserve grown_to
  reserve-Roomy v xs n h small = elim (dec_le n (capacity_of internal v.storage)) [
    | yes enough ↦ (
      v,
      rw (leb-true n (capacity_of internal v.storage) enough) refl,
      record { holds = h; room = enough },
      record { holds = h; room = omega arith },
    )
    | no more ↦
        let c = capacity_of internal v.storage in
        let fits = size-le v xs h in
        let (v', e, k) =
          rebuilt-Made v xs xs (min (max (c * 2 % 2 ^ 32) n) max_size) h
            (omega (arith, grown-room c n small, fits, more)) (grown-small c n) in
        (
          v',
          rw (leb-false n c (omega arith), all_contents v xs h) e,
          record { holds = k.holds; room = omega (arith, grown-room c n small, k.room) },
          record { holds = k.holds; room = omega (arith, grown-room c n small, k.room, more) },
        )
  ]

  -- `emplace_back`, and so `push_back`, adds at the end, where the storage is not empty of cells.
  pub emplace_back-Roomy :
      (v : CompactVector A) (xs : List A) (a : A)
      → Holds internal v xs
      → 0 < capacity_of internal v.storage
      → length xs * 2 ≤ max_size
      → (v' : CompactVector A) × (emplace_back internal v a ≡ ok v') × Roomy v' 1 (xs ++ a ∷ [])
  unfolding emplace_back
  emplace_back-Roomy v xs a h some_room small =
      let c = capacity_of internal v.storage in
      elim (dec_le c v.size) [
        | yes full ↦
            let (v1, e1, r, s) =
              reserve-Roomy v xs (v.size * 2) h (omega (arith, h.sized, small)) in
            let (v2, e2, k) =
              construct_back-Alike internal v1 xs a r.holds
                (omega (arith, r.room, full, some_room, h.sized)) in
            (
              v2,
              rw (leb-true c v.size full, e1) e2,
              record { holds = k.holds; room = rw k.room (omega (arith, s.room, some_room)) },
            )
        | no roomy ↦
            let (v2, e2, k) = construct_back-Alike internal v xs a h (omega (arith, h.sized)) in
            (
              v2,
              rw (leb-false c v.size (omega arith)) e2,
              record { holds = k.holds; room = rw k.room some_room },
            )
      ]

  pub pop_back-Alike :
      (v : CompactVector A) (xs : List A) (a : A)
      → Holds internal v (xs ++ a ∷ [])
      → (v' : CompactVector A) × (pop_back v ≡ ok v') × Alike internal v v' xs
  unfolding pop_back
  pop_back-Alike v xs a h =
      let (v', e, k) = destroy_last-Alike internal v xs a h in
      (v', rw (last-nonempty xs a v.size h.sized) e, k)
