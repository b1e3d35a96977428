-- ===== src/CompactVector/Making.antt =====
-- utils/compact_vector.h: the constructors from other elements, the assignment and the comparison.
use mathlib.Core.List.{append-nil}
use jml_base.Common.{
  ℕ, ◌≤◌, ◌==◌, ◌&&◌, ◌≡◌, refl, sym, ap₂, arith, Bool, true, false, Option, none, List, [], ◌∷◌,
  ◌++◌, length, replicate,
}
use jml_base.Common.Result.{Result, ok, ◌>>=◌}
use jml_base.CompactVector.{
  CompactVector, Storage, itl, ext, Error, max_size, data_of, capacity_of, new, init_copy,
  move_range,
}
use jml_base.CompactVector.Cells.{cells_of, move_range-behind}
use jml_base.CompactVector.Calls.{contents, replace_by}
use jml_base.CompactVector.Contents.{Holds}
use jml_base.CompactVector.Copying.{
  Made, init_copy-Made, contents-Holds, new-Holds, replicate-append,
}
use jml_base.CompactVector.Swapping.{replace_by-Holds}

module _ {ℓ} {A : Type ℓ} (internal : ℕ) where
  -- The copy constructor.
  unfoldable pub copy_of : CompactVector A → Result Error (CompactVector A)
  copy_of other = do
    source ← contents other other.size
    init_copy internal (new internal) source other.size

  -- The move constructor: the new vector, and what is left of the other.
  abbrev moved_storage : Storage A → ℕ → Result Error (CompactVector A × CompactVector A)
  moved_storage (itl cells) size = do
    (_, moved) ← move_range size 0 cells (replicate internal none)
    ok (record { storage = itl moved; size = size }, new internal)
  moved_storage (ext cells capacity) size =
      ok (record { storage = ext cells capacity; size = size }, new internal)

  unfoldable pub move_from : CompactVector A → Result Error (CompactVector A × CompactVector A)
  move_from other = moved_storage other.storage other.size

  -- Both `operator =`: `other` has a name, so that the second copies as well.
  unfoldable pub assign_from : CompactVector A → CompactVector A → Result Error (CompactVector A)
  assign_from v other = replace_by internal v (copy_of other)

module _ {ℓ} {A : Type ℓ} (equal : A → A → Bool) where
  -- `std::equal` of as many elements as the first has.
  unfoldable pub all_equal : List A → List A → Bool
  all_equal [] ys = true
  all_equal (x ∷ xs) [] = false
  all_equal (x ∷ xs) (y ∷ ys) = equal x y && all_equal xs ys

  unfoldable pub same_elements : CompactVector A → CompactVector A → Result Error Bool
  same_elements v w = do
    xs ← contents v v.size
    ys ← contents w w.size
    ok ((v.size == w.size) && all_equal xs ys)

module _ {ℓ} {A : Type ℓ} (internal : ℕ) where
  copied-contents :
      (v : CompactVector A) (xs : List A) → Holds internal v xs → contents v v.size ≡ ok xs
  unfolding contents
  copied-contents v xs h = rw h.sized (contents-Holds internal v xs [] (rw (append-nil xs) h))

  pub copy_of-Made :
      (v : CompactVector A) (xs : List A)
      → Holds internal v xs
      → length xs ≤ max_size
      → (v' : CompactVector A) × (copy_of internal v ≡ ok v') × Made internal v.size v' xs
  unfolding copy_of
  copy_of-Made v xs h small =
      let (v', e, k) =
        init_copy-Made internal (new internal) [] xs v.size (new-Holds internal)
          (omega (arith, h.sized)) (omega (arith, h.sized, small)) in
      (v', rw (copied-contents v xs h) e, k)

  -- Assignment leaves the vector with the elements of the other.
  pub assign_from-Holds :
      (v w : CompactVector A) (xs ys : List A)
      → Holds internal v xs
      → Holds internal w ys
      → length ys ≤ max_size
      → (v' : CompactVector A) × (assign_from internal v w ≡ ok v') × Holds internal v' ys
  unfolding assign_from
  assign_from-Holds v w xs ys h k small =
      let (u, made, m) = copy_of-Made w ys k small in
      let (v', e, holds, room, inside) =
        replace_by-Holds internal v u xs ys (copy_of internal w) h made m.holds in
      (v', e, holds)

  moved_storage-Holds :
      (s : Storage A) (size : ℕ) (xs : List A)
      → Holds internal (record { storage = s; size = size }) xs
      → (v : CompactVector A) × (moved_storage internal s size ≡ ok (v, new internal))
        × Holds internal v xs
  unfolding data_of capacity_of
  moved_storage-Holds (ext cells c) size xs h = (_, refl, h)
  moved_storage-Holds (itl cells) size xs h = (
    record { storage = itl (cells_of xs ++ replicate h.free none); size = size },
    rw
        (
          h.cells,
          h.sized,
          sym h.room,
          sym (replicate-append {B = Option A} (length xs) h.free none),
          move_range-behind [] [] xs (replicate h.free none) (replicate h.free none) 0 refl refl,
        )
        refl,
    record { free = h.free; cells = refl; room = h.room; sized = h.sized },
  )

  -- The move constructor takes the elements, and the other is as its constructor makes it.
  pub move_from-Holds :
      (v : CompactVector A) (xs : List A)
      → Holds internal v xs
      → (v' : CompactVector A) × (move_from internal v ≡ ok (v', new internal))
        × Holds internal v' xs
  unfolding move_from
  move_from-Holds v xs h = moved_storage-Holds v.storage v.size xs h

  -- The comparison of two vectors is that of their lists.
  pub same_elements-eq :
      (equal : A → A → Bool) (v w : CompactVector A) (xs ys : List A)
      → Holds internal v xs
      → Holds internal w ys
      → same_elements equal v w ≡ ok ((length xs == length ys) && all_equal equal xs ys)
  unfolding same_elements
  same_elements-eq equal v w xs ys h k =
      rw (copied-contents v xs h, copied-contents w ys k)
        (ap₂ (λ m n. ok ((m == n) && all_equal equal xs ys)) h.sized k.sized)
