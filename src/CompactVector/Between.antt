-- ===== src/CompactVector/Between.antt =====
-- utils/compact_vector.h: `insert` before any element, or at the end.
use mathlib.Core.List.{append-nil}
use jml_base.Common.{
  ℕ, ◌+◌, ◌-◌, ◌≤◌, ◌^◌, ◌<◌, ltb, ◌≡◌, refl, sym, ap, ◌∙◌, arith, lt→ltb, le→ltb, Option, none,
  List, [], ◌∷◌, ◌++◌, length, length-append, length-replicate, replicate, if◌then◌else◌, dec_lt,
}
use jml_base.Common.Result.{ok}
use jml_base.CompactVector.{CompactVector, max_size, data_of, with_data, capacity_of, assign_range}
use jml_base.CompactVector.Cells.{cells_of}
use jml_base.CompactVector.Calls.{shift_right, start_insert, insert, reserve}
use jml_base.CompactVector.Contents.{Holds, Alike, construct_all-Alike}
use jml_base.CompactVector.Copying.{leb-true}
use jml_base.CompactVector.Growing.{Roomy, reserve-Roomy}
use jml_base.CompactVector.Resizing.{==-false}
use jml_base.CompactVector.Inserting.{
  assign_range-Holds, assigned-Alike, Holds-eq, same-length, with_data-data_of, assign_range-nil,
  nonzero,
}
use jml_base.CompactVector.Opening.{shift_right-moves}

swapped-length {ℓ} :
    {A : Type ℓ} (front behind mid others : List A)
    → length mid ≡ length others
    → length ((front ++ behind) ++ others) ≡ length ((front ++ mid) ++ behind)
swapped-length front behind mid others e = omega (
  arith,
  e,
  length-append (front ++ behind) others,
  length-append front behind,
  length-append (front ++ mid) behind,
  length-append front mid,
)

module _ {ℓ} {A : Type ℓ} (internal : ℕ) where
  -- The room that `start_insert` makes.
  make_room-Roomy :
      (v : CompactVector A) (xs : List A) (n : ℕ)
      → Holds internal v xs
      → 0 < capacity_of internal v.storage
      → length xs + n ≤ max_size
      → (v' : CompactVector A) × ((if ltb (capacity_of internal v.storage) (v.size + n)
            then reserve internal v (v.size + n)
            else ok v)
          ≡ ok v')
        × Roomy internal v' (length xs + n) xs
        × Roomy internal v' 1 xs
  make_room-Roomy v xs n h some_room small =
      let c = capacity_of internal v.storage in
      elim (dec_lt c (v.size + n)) [
        | yes less ↦
            let (v', e, r, s) =
              reserve-Roomy internal v xs (v.size + n) h (omega (arith, h.sized, small)) in
            (
              v',
              rw (lt→ltb c (v.size + n) less) e,
              record { holds = r.holds; room = omega (arith, r.room, h.sized) },
              record { holds = r.holds; room = omega (arith, s.room, some_room) },
            )
        | no enough ↦ (
          v,
          rw (le→ltb c (v.size + n) (omega arith)) refl,
          record { holds = h; room = omega (arith, h.sized) },
          record { holds = h; room = some_room },
        )
      ]

  -- `start_insert` leaves a gap of `n` elements before `behind`.
  opened-Alike :
      (v : CompactVector A) (front behind blanks : List A) (count top n : ℕ)
      → Holds internal v ((front ++ behind) ++ blanks)
      → length blanks ≡ n
      → count ≡ length behind
      → top ≡ v.size
      → (mid : List A) × (cells : List (Option A)) × (length mid ≡ n)
        × (shift_right count top n (data_of v.storage) ≡ ok cells)
        × Alike internal v
            (record v { storage = with_data v.storage cells })
            ((front ++ mid) ++ behind)
  opened-Alike v front behind blanks count top n h size many at =
      let rest : List (Option A) = replicate h.free none in
      let total = length-append (front ++ behind) blanks in
      let first = length-append front behind in
      let (mid, m, moved) =
        shift_right-moves count front behind blanks [] rest top n (sym many) size
          (omega (arith, at, h.sized, total, first, size)) in
      let same = swapped-length front behind mid blanks (omega (arith, m, size)) in
      (
        mid,
        cells_of ((front ++ mid) ++ behind) ++ rest,
        m,
        ap (shift_right count top n) (
              h.cells
              ∙ ap (λ l. cells_of l ++ rest) (sym (append-nil ((front ++ behind) ++ blanks))))
            ∙ moved
            ∙ ap (λ l. ok (cells_of l ++ rest)) (append-nil ((front ++ mid) ++ behind)),
        assigned-Alike internal v ((front ++ mid) ++ behind) h.free (h.sized ∙ same)
            (omega (arith, h.room, same)),
      )

  -- The elements of the gap are assigned.
  filled-Alike :
      (v : CompactVector A) (front mid behind others : List A)
      → Holds internal v ((front ++ mid) ++ behind)
      → length mid ≡ length others
      → (cells : List (Option A)) × (assign_range others (data_of v.storage) (length front)
          ≡ ok cells)
        × Alike internal v
            (record v { storage = with_data v.storage cells })
            ((front ++ others) ++ behind)
  filled-Alike v front mid behind others h same =
      let size = length-append (front ++ mid) behind in
      let size' = length-append (front ++ others) behind in
      let first = same-length internal front mid others same in
      let equal : length ((front ++ mid) ++ behind) ≡ length ((front ++ others) ++ behind) =
        omega (arith, size, size', first) in
      (
        cells_of ((front ++ others) ++ behind) ++ replicate h.free none,
        assign_range-Holds internal v front mid others behind h same,
        assigned-Alike internal v ((front ++ others) ++ behind) h.free (h.sized ∙ equal)
            (omega (arith, h.room, equal)),
      )

  pub insert-nothing :
      (blank : A) (v : CompactVector A) (i : ℕ) → insert internal blank v i [] ≡ ok v
  unfolding insert start_insert
  insert-nothing blank v i =
      rw (assign_range-nil internal (data_of v.storage) i, with_data-data_of internal v.storage)
        refl

  -- `insert` before the elements `behind` of a vector that holds `front ++ behind` in a storage with a cell,
  -- and is to hold fewer than 2 ^ 31, does not fail: it leaves a vector that holds the elements of
  -- `front`, those inserted and those of `behind`, in a storage with a cell.
  pub insert-Roomy :
      (blank : A) (v : CompactVector A) (front behind others : List A)
      → Holds internal v (front ++ behind)
      → 0 < capacity_of internal v.storage
      → length (front ++ behind) + length others < 2 ^ 31
      → (v' : CompactVector A) × (insert internal blank v (length front) others ≡ ok v')
        × Roomy internal v' 1 ((front ++ others) ++ behind)
  unfolding insert start_insert
  insert-Roomy blank v front behind [] h some_room small = (
    v,
    insert-nothing blank v (length front),
    record {
      holds = Holds-eq internal v _ _ (ap (λ l. l ++ behind) (sym (append-nil front))) h;
      room = some_room;
    },
  )
  insert-Roomy blank v front behind (a ∷ more) h some_room small =
      let n = length (a ∷ more) in
      let filled = length-replicate n blank in
      let total = length-append front behind in
      let (v1, e1, r, r1) = make_room-Roomy v (front ++ behind) n h some_room (omega arith) in
      let (v2, e2, k2) =
        construct_all-Alike internal (replicate n blank) v1 (front ++ behind) r.holds
          (omega (arith, filled, r.room)) in
      let (mid, cells, m, e3, k3) =
        opened-Alike v2 front behind (replicate n blank) (v.size - length front) v2.size n k2.holds
          filled (omega (arith, h.sized, total)) refl in
      let v3 = record v2 { storage = with_data v2.storage cells } in
      let (cells', e4, k4) = filled-Alike v3 front mid behind (a ∷ more) k3.holds m in
      (
        record v3 { storage = with_data v3.storage cells' },
        rw
            (
              ==-false n 0 (nonzero (length more)),
              leb-true (length front) v.size (omega (arith, h.sized, total)),
              e1,
              e2,
              e3,
              e4,
            )
            refl,
        record { holds = k4.holds; room = omega (arith, k4.room, k3.room, k2.room, r1.room) },
      )
