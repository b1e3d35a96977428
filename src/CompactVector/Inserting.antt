-- ===== src/CompactVector/Inserting.antt =====
-- utils/compact_vector.h: assignments to elements that are there, and `insert` at the end.
use mathlib.Core.List.{append-nil}
use jml_base.Common.{
  ℕ, suc, ◌+◌, ◌≤◌, ◌≡◌, ◌≢◌, refl, sym, ap, ◌∙◌, arith, le→ltb, Option, none, List, [], ◌∷◌, ◌++◌,
  length, length-append, length-replicate, replicate,
}
use jml_base.Common.Result.{ok}
use jml_base.CompactVector.{
  CompactVector, Storage, itl, ext, data_of, with_data, capacity_of, assign_range,
}
use jml_base.CompactVector.Cells.{cells_of, assign_range-behind}
use jml_base.CompactVector.Calls.{start_insert, insert, shift_right}
use jml_base.CompactVector.Contents.{
  Holds, Alike, Alike-refl, Alike-trans, Alike-with_data, length-cells_of, construct_all-Alike,
}
use jml_base.CompactVector.Copying.{leb-true, cells_of-split}
use jml_base.CompactVector.Resizing.{==-false, minus_all}

pub nonzero : (n : ℕ) → suc n ≢ 0
nonzero n e = omega (arith, e)

module _ {ℓ} {A : Type ℓ} (internal : ℕ) where
  -- Elements in the middle, assigned others of the same number.
  pub assign_range-Holds :
      (v : CompactVector A) (front old others rest : List A)
      → (h : Holds internal v ((front ++ old) ++ rest)) → length old ≡ length others
      → assign_range others (data_of v.storage) (length front)
        ≡ ok (cells_of ((front ++ others) ++ rest) ++ replicate h.free none)
  assign_range-Holds v front old others rest h same =
      rw
        (
          h.cells,
          cells_of-split front old rest (replicate h.free none),
          assign_range-behind (cells_of front) old others (cells_of rest ++ replicate h.free none)
              (length front) (length-cells_of front) same,
        )
        (ap ok (sym (cells_of-split front others rest (replicate h.free none))))

  pub assigned-Alike :
      (v : CompactVector A) (xs : List A) (free : ℕ)
      → v.size ≡ length xs
      → length xs + free ≡ capacity_of internal v.storage
      → Alike internal v
          (record v { storage = with_data v.storage (cells_of xs ++ replicate free none) })
          xs
  assigned-Alike v xs free size room =
      let k = Alike-with_data internal v xs free room in
      let h = k.holds in
      record {
        holds = record { free = h.free; cells = h.cells; room = h.room; sized = size };
        room = k.room;
        inside = k.inside;
      }

  pub with_data-data_of : (s : Storage A) → with_data s (data_of s) ≡ s
  unfolding with_data data_of
  with_data-data_of (itl cells) = refl
  with_data-data_of (ext cells c) = refl

  pub Holds-eq :
      (v : CompactVector A) (xs ys : List A) → xs ≡ ys → Holds internal v xs → Holds internal v ys
  Holds-eq v xs ys e h = rw (sym e) h

  pub same-length :
      (front old others : List A)
      → length old ≡ length others
      → length (front ++ old) ≡ length (front ++ others)
  same-length front old others e =
      omega (arith, length-append front old, length-append front others, e)

  -- The last elements, assigned others of the same number.
  assign_last-Alike :
      (v : CompactVector A) (front old others : List A) (i : ℕ)
      → Holds internal v (front ++ old)
      → length old ≡ length others
      → i ≡ length front
      → (cells : List (Option A)) × (assign_range others (data_of v.storage) i ≡ ok cells)
        × Alike internal v (record v { storage = with_data v.storage cells }) (front ++ others)
  assign_last-Alike v front old others i h same at =
      let whole = append-nil (front ++ old) in
      let h2 = Holds-eq v (front ++ old) _ (sym whole) h in
      let none_behind = append-nil (front ++ others) in
      let size = same-length front old others same in
      (
        cells_of (front ++ others) ++ replicate h2.free none,
        rw at (assign_range-Holds v front old others [] h2 same)
            ∙ ap (λ l. ok (cells_of l ++ replicate h2.free none)) none_behind,
        assigned-Alike v (front ++ others) h2.free (h.sized ∙ size)
            (omega (arith, h2.room, size, ap length whole)),
      )

  pub assign_range-nil : (cells : List (Option A)) (i : ℕ) → assign_range [] cells i ≡ ok cells
  unfolding assign_range
  assign_range-nil cells i = refl

  -- `insert` at the end, where there is room.
  pub insert_end-Alike :
      (blank : A) (v : CompactVector A) (front behind : List A) (i : ℕ)
      → Holds internal v front
      → length front + length behind ≤ capacity_of internal v.storage
      → i ≡ length front
      → (v' : CompactVector A) × (insert internal blank v i behind ≡ ok v')
        × Alike internal v v' (front ++ behind)
  unfolding insert start_insert shift_right
  insert_end-Alike blank v front [] i h room at = (
    v,
    rw (assign_range-nil (data_of v.storage) i, with_data-data_of v.storage) refl,
    rw (append-nil front) (Alike-refl internal v front h),
  )
  insert_end-Alike blank v front (b ∷ bs) i h room at =
      let n = length (b ∷ bs) in
      let filled = length-replicate n blank in
      let (w, e, k) =
        construct_all-Alike internal (replicate n blank) v front h (omega (arith, filled, room)) in
      let (cells, assigned, k2) =
        assign_last-Alike w front (replicate n blank) (b ∷ bs) i k.holds filled at in
      (
        record w { storage = with_data w.storage cells },
        rw
            (
              ==-false n 0 (nonzero (length bs)),
              leb-true i v.size (omega (arith, at, h.sized)),
              le→ltb (capacity_of internal v.storage) (v.size + n) (omega (arith, h.sized, room)),
              e,
              minus_all i v.size (omega (arith, at, h.sized)),
              with_data-data_of w.storage,
              assigned,
            )
            refl,
        Alike-trans internal v w _ (front ++ replicate n blank) (front ++ b ∷ bs) k k2,
      )
