-- ===== src/CompactVector/Erasing.antt =====
-- utils/compact_vector.h: `erase`, whose elements that stay may go back inside the object.
use mathlib.Core.List.{append_assoc, append-nil}
use jml_base.Common.{
  ℕ, ◌+◌, ◌-◌, ◌≤◌, ◌<◌, leb, ◌≡◌, ◌≢◌, refl, sym, ap, ◌∙◌, arith, not, ◌&&◌, inl, inr, Bool-cases,
  leb→le, List, [], ◌∷◌, ◌++◌, length, length-append, if◌then◌else◌,
}
use jml_base.Common.Result.{ok, ◌>>=◌}
use jml_base.CompactVector.{CompactVector, max_size, is_internal, capacity_of, new, init_copy}
use jml_base.CompactVector.Calls.{replace_by, must_move_in, close_gap, insert, erase}
use jml_base.CompactVector.Contents.{Holds, Alike, Alike-trans, destroy_back-Alike}
use jml_base.CompactVector.Copying.{
  leb-true, read_range-Holds, contents-Holds, new-Holds, init_copy-Made,
}
use jml_base.CompactVector.Exchanging.{split_at}
use jml_base.CompactVector.Swapping.{replace_by-Holds}
use jml_base.CompactVector.Growing.{Roomy}
use jml_base.CompactVector.Resizing.{==-true, ==-false, capacity_of-inside, and-right}
use jml_base.CompactVector.Inserting.{
  assign_range-Holds, assigned-Alike, Holds-eq, insert_end-Alike,
}

behind-le {ℓ} : {A : Type ℓ} (gap behind : List A) → length behind ≤ length (gap ++ behind)
behind-le gap behind = omega (arith, length-append gap behind)

-- When `gap ++ behind` is split again, after as many elements as `behind` has.
gap-lengths {ℓ} :
    {A : Type ℓ} (front gap behind o1 o2 : List A)
    → gap ++ behind ≡ o1 ++ o2
    → length o1 ≡ length behind
    → (length ((front ++ gap) ++ behind) ≡ length ((front ++ behind) ++ o2))
      × (length ((front ++ behind) ++ o2) ≡ length ((front ++ o1) ++ o2))
      × (length o2 ≡ length (front ++ gap) - length front)
gap-lengths front gap behind o1 o2 same count =
    let total = sym (length-append gap behind) ∙ ap length same ∙ length-append o1 o2 in
    let a = length-append (front ++ gap) behind in
    let b = length-append front gap in
    let c = length-append (front ++ behind) o2 in
    let d = length-append front behind in
    let f = length-append (front ++ o1) o2 in
    let g = length-append front o1 in
    (
      omega (arith, total, a, b, c, d, count),
      omega (arith, c, d, f, g, count),
      omega (arith, total, b, count),
    )

erase-lengths {ℓ} :
    {A : Type ℓ} (front gap behind : List A) (size : ℕ)
    → size ≡ length ((front ++ gap) ++ behind)
    → (length front ≤ length (front ++ gap))
      × (length (front ++ gap) ≤ size)
      × (length front + length behind ≡ size - (length (front ++ gap) - length front))
erase-lengths front gap behind size e =
    let a = length-append (front ++ gap) behind in
    let b = length-append front gap in
    (omega (arith, b), omega (arith, e, a), omega (arith, e, a, b))

gap-ne {ℓ} :
    {A : Type ℓ} (front : List A) (g : A) (gs : List A) → length front ≢ length (front ++ g ∷ gs)
gap-ne front g gs e = omega (arith, e, length-append front (g ∷ gs))

minus_front {ℓ} :
    {A : Type ℓ} (xs ys : List A) (n : ℕ) → n ≡ length (xs ++ ys) → n - length xs ≡ length ys
minus_front xs ys n e = omega (arith, e, length-append xs ys)

module _ {ℓ} {A : Type ℓ} (internal : ℕ) where
  regrouped :
      (v : CompactVector A) (front gap behind o1 o2 : List A)
      → gap ++ behind ≡ o1 ++ o2
      → Holds internal v ((front ++ gap) ++ behind)
      → Holds internal v ((front ++ o1) ++ o2)
  regrouped v front gap behind o1 o2 same h =
      let whole =
        append_assoc front gap behind
        ∙ ap (λ l. front ++ l) same
        ∙ sym (append_assoc front o1 o2) in
      rw (sym whole) h

  close_gap-Alike :
      (v : CompactVector A) (front gap behind : List A)
      → Holds internal v ((front ++ gap) ++ behind)
      → (v' : CompactVector A) × (close_gap v (length front) (length (front ++ gap)) ≡ ok v')
        × Alike internal v v' (front ++ behind)
  unfolding close_gap
  close_gap-Alike v front gap behind h =
      let (o1, o2, same, count) = split_at (length behind) (gap ++ behind) (behind-le gap behind) in
      let h2 = regrouped v front gap behind o1 o2 same h in
      let lengths = gap-lengths front gap behind o1 o2 same count in
      let k =
        assigned-Alike internal v ((front ++ behind) ++ o2) h2.free (h.sized ∙ lengths.0)
          (omega (arith, lengths.1, h2.room)) in
      let (v', e, k') =
        destroy_back-Alike internal (length (front ++ gap) - length front) _ (front ++ behind) o2
          k.holds (lengths.2) in
      (
        v',
        rw
            (
              minus_front (front ++ gap) behind v.size h.sized,
              read_range-Holds internal v (front ++ gap) behind []
                  (rw (append-nil ((front ++ gap) ++ behind)) h),
              assign_range-Holds internal v front o1 behind o2 h2 count,
            )
            e,
        Alike-trans internal v _ v' ((front ++ behind) ++ o2) (front ++ behind) k k',
      )

  move_in-Roomy :
      (blank : A) (v : CompactVector A) (front gap behind : List A)
      → Holds internal v ((front ++ gap) ++ behind)
      → 0 < internal
      → length front + length behind ≤ internal
      → internal ≤ max_size
      → (v' : CompactVector A) × (replace_by internal v (do
        new_me ← init_copy internal (new internal) front (length front + length behind)
        insert internal blank new_me new_me.size behind)
          ≡ ok v')
        × Roomy internal v' 1 (front ++ behind)
  move_in-Roomy blank v front gap behind h some_cell fits small =
      let n = length front + length behind in
      let (w, made, k) =
        init_copy-Made internal (new internal) [] front n (new-Holds internal) (omega arith)
          (omega (arith, fits, small)) in
      let cap = capacity_of-inside internal w.storage (k.inside ∙ leb-true n internal fits) in
      let (u, inserted, k2) =
        insert_end-Alike internal blank w front behind w.size k.holds (omega (arith, cap, fits))
          k.holds.sized in
      let (v', e, holds, room, inside) =
        replace_by-Holds internal v u ((front ++ gap) ++ behind) (front ++ behind) _ h
          (rw made inserted) k2.holds in
      (v', e, record { holds = holds; room = omega (arith, room, k2.room, cap, some_cell) })

  -- What `erase` does once its tests of the iterators have passed, where there is something to erase.
  erase-past_tests :
      (blank : A) (v : CompactVector A) (front gap behind : List A)
      → Holds internal v ((front ++ gap) ++ behind)
      → length front ≢ length (front ++ gap)
      → (v' : CompactVector A)
      → (if must_move_in internal v (v.size - (length (front ++ gap) - length front))
          then replace_by internal v (do
            new_me ←
                init_copy internal
                  (new internal)
                  front
                  (v.size - (length (front ++ gap) - length front))
            insert internal blank new_me new_me.size behind)
          else close_gap v (length front) (length (front ++ gap)))
        ≡ ok v'
      → erase internal blank v (length front) (length (front ++ gap)) ≡ ok v'
  unfolding erase
  erase-past_tests blank v front gap behind h more v' e =
      let h2 = Holds-eq internal v _ (front ++ (gap ++ behind)) (append_assoc front gap behind) h in
      let h3 = Holds-eq internal v _ (((front ++ gap) ++ behind) ++ []) (sym (append-nil _)) h in
      let lengths = erase-lengths front gap behind v.size h.sized in
      rw
        (
          leb-true (length front) (length (front ++ gap)) (lengths.0),
          leb-true (length (front ++ gap)) v.size (lengths.1),
          ==-false (length front) (length (front ++ gap)) more,
          contents-Holds internal v front (gap ++ behind) h2,
          minus_front (front ++ gap) behind v.size h.sized,
          read_range-Holds internal v (front ++ gap) behind [] h3,
        )
        e

  erase-nothing :
      (blank : A) (v : CompactVector A) (first last : ℕ)
      → first ≡ last
      → last ≤ v.size
      → erase internal blank v first last ≡ ok v
  unfolding erase
  erase-nothing blank v first last same fits =
      rw
        (
          leb-true first last (omega (arith, same)),
          leb-true last v.size fits,
          ==-true first last same,
        )
        refl

  must_move_in-eq :
      (v : CompactVector A) (n : ℕ)
      → (not (is_internal v.storage) && leb n internal) ≡ must_move_in internal v n
  unfolding must_move_in
  must_move_in-eq v n = refl

  -- `erase` from `begin() + length front` to as far as the elements `gap` go, of a vector with a cell
  -- inside it and one in its storage: the elements before and behind them are left.
  pub erase-Roomy :
      (blank : A) (v : CompactVector A) (front gap behind : List A)
      → Holds internal v ((front ++ gap) ++ behind)
      → 0 < internal
      → internal ≤ max_size
      → 0 < capacity_of internal v.storage
      → (v' : CompactVector A) × (erase internal blank v (length front) (length (front ++ gap))
          ≡ ok v')
        × Roomy internal v' 1 (front ++ behind)
  erase-Roomy blank v front [] behind h some_cell small some_room =
      let same = append-nil front in
      let lengths = erase-lengths front [] behind v.size h.sized in
      let kept =
        Holds-eq internal v ((front ++ []) ++ behind) (front ++ behind) (ap (λ l. l ++ behind) same)
          h in
      (
        v,
        erase-nothing blank v (length front) (length (front ++ [])) (ap length (sym same))
            (lengths.1),
        record { holds = kept; room = some_room },
      )
  erase-Roomy blank v front (g ∷ gs) behind h some_cell small some_room =
      let whole = front ++ g ∷ gs in
      let n = v.size - (length whole - length front) in
      let lengths = erase-lengths front (g ∷ gs) behind v.size h.sized in
      elim (Bool-cases (must_move_in internal v n)) [
        | inl inward ↦
            let fits = leb→le n internal (
              and-right (not (is_internal v.storage)) (leb n internal)
                (must_move_in-eq v n ∙ inward)) in
            let (v', e, r) =
              move_in-Roomy blank v front (g ∷ gs) behind h some_cell
                (omega (arith, lengths.2, fits)) small in
            (
              v',
              erase-past_tests blank v front (g ∷ gs) behind h (gap-ne front g gs) v'
                  (rw (inward, sym (lengths.2)) e),
              r,
            )
        | inr stays ↦
            let (v', e, k) = close_gap-Alike v front (g ∷ gs) behind h in
            (
              v',
              erase-past_tests blank v front (g ∷ gs) behind h (gap-ne front g gs) v' (rw stays e),
              record { holds = k.holds; room = rw k.room some_room },
            )
      ]
