-- ===== src/CompactVector/Opening.antt =====
-- utils/compact_vector.h: `insert` anywhere, which opens a gap from the end of the vector.
use mathlib.Core.List.{append_assoc, append-nil}
use jml_base.Common.{
  ℕ, zero, suc, ◌+◌, ◌-◌, ◌≡◌, refl, sym, ap, ◌∙◌, arith, Option, some, List, [], ◌∷◌, ◌++◌, length,
  length-append,
}
use jml_base.Common.Result.{ok}
use jml_base.CompactVector.{load, assign}
use jml_base.CompactVector.Cells.{cells_of, load-behind, assign-behind}
use jml_base.CompactVector.Calls.{shift_right}
use jml_base.CompactVector.Contents.{length-cells_of, split_last}

module _ {ℓ} {A : Type ℓ} where
  -- One element of a list, and what stands before and behind it.
  cells_of-one :
      (xs : List A) (a : A) (ys : List A) (rest : List (Option A))
      → cells_of ((xs ++ a ∷ []) ++ ys) ++ rest ≡ cells_of xs ++ (some a ∷ (cells_of ys ++ rest))
  cells_of-one [] a ys rest = refl
  cells_of-one (x ∷ xs) a ys rest = ap (λ l. some x ∷ l) (cells_of-one xs a ys rest)

  load-one :
      (xs : List A) (a : A) (ys : List A) (rest : List (Option A)) (i : ℕ)
      → i ≡ length xs
      → load (cells_of ((xs ++ a ∷ []) ++ ys) ++ rest) i ≡ ok a
  load-one xs a ys rest i e =
      rw (cells_of-one xs a ys rest)
        (load-behind (cells_of xs) i (length-cells_of xs ∙ sym e) a (cells_of ys ++ rest))

  assign-one :
      (xs : List A) (a b : A) (ys : List A) (rest : List (Option A)) (i : ℕ)
      → i ≡ length xs
      → assign (cells_of ((xs ++ a ∷ []) ++ ys) ++ rest) i b
        ≡ ok (cells_of ((xs ++ b ∷ []) ++ ys) ++ rest)
  assign-one xs a b ys rest i e =
      rw (cells_of-one xs a ys rest, cells_of-one xs b ys rest)
        (assign-behind (cells_of xs) i (length-cells_of xs ∙ sym e) a b (cells_of ys ++ rest))

  -- The elements before a move: `b` stands before `mid`, and `c` is the last from `b` on.
  module _ (front zs : List A) (b : A) (mid mid0 : List A) (c : A) (behind : List A)
      (ends : b ∷ mid ≡ mid0 ++ c ∷ []) where
    moving : List A
    moving = ((front ++ (zs ++ b ∷ [])) ++ mid) ++ behind

    moving-from : moving ≡ ((front ++ zs) ++ b ∷ []) ++ (mid ++ behind)
    unfolding moving
    moving-from =
        ap (λ l. (l ++ mid) ++ behind) (sym (append_assoc front zs (b ∷ [])))
        ∙ append_assoc ((front ++ zs) ++ b ∷ []) mid behind

    moving-to : moving ≡ (((front ++ zs) ++ mid0) ++ c ∷ []) ++ behind
    unfolding moving
    moving-to =
        ap (λ l. (l ++ mid) ++ behind) (sym (append_assoc front zs (b ∷ [])))
        ∙ ap (λ l. l ++ behind)
            (append_assoc (front ++ zs) (b ∷ []) mid
              ∙ ap (λ l. (front ++ zs) ++ l) ends
              ∙ sym (append_assoc (front ++ zs) mid0 (c ∷ [])))

    moving-load :
        (rest : List (Option A)) (i : ℕ)
        → i ≡ length front + length zs
        → load (cells_of moving ++ rest) i ≡ ok b
    moving-load rest i e =
        rw moving-from (
          load-one (front ++ zs) b (mid ++ behind) rest i
            (omega (arith, e, length-append front zs)))

    moving-assign :
        (rest : List (Option A)) (i : ℕ)
        → i ≡ length front + length zs + length mid0
        → assign (cells_of moving ++ rest) i b
          ≡ ok (cells_of (((front ++ zs) ++ mid0) ++ b ∷ behind) ++ rest)
    moving-assign rest i e =
        rw moving-to (
          assign-one ((front ++ zs) ++ mid0) c b behind rest i
            (omega (arith, e, length-append front zs, length-append (front ++ zs) mid0)))
        ∙ ap (λ l. ok (cells_of l ++ rest)) (append_assoc ((front ++ zs) ++ mid0) (b ∷ []) behind)

  moved-to :
      (front mid zs : List A) (b : A) (behind : List A)
      → ((front ++ mid) ++ zs) ++ b ∷ behind ≡ ((front ++ mid) ++ (zs ++ b ∷ [])) ++ behind
  moved-to front mid zs b behind =
      sym (append_assoc ((front ++ mid) ++ zs) (b ∷ []) behind)
      ∙ ap (λ l. l ++ behind) (append_assoc (front ++ mid) zs (b ∷ []))

  -- One turn of the loop.
  shift_right-turn :
      (count : ℕ) (front zs : List A) (b : A) (mid mid0 : List A) (c : A) (behind : List A)
      (rest : List (Option A)) (top n : ℕ)
      → b ∷ mid ≡ mid0 ++ c ∷ []
      → length mid0 ≡ n
      → top ≡ (length front + suc (length zs)) + n
      → shift_right
          (suc count)
          top
          n
          (cells_of (((front ++ (zs ++ b ∷ [])) ++ mid) ++ behind) ++ rest)
        ≡ shift_right count (top - 1) n (cells_of (((front ++ zs) ++ mid0) ++ b ∷ behind) ++ rest)
  unfolding shift_right moving
  shift_right-turn count front zs b mid mid0 c behind rest top n ends m t =
      rw
        (
          moving-load front zs b mid mid0 c behind ends rest (top - 1 - n) (omega (arith, t)),
          moving-assign front zs b mid mid0 c behind ends rest (top - 1) (omega (arith, t, m)),
        )
        refl

  -- The loop moves `bs` behind the `n` elements `mid`, of which it leaves `n` others.
  pub shift_right-moves :
      (count : ℕ) (front bs mid behind : List A) (rest : List (Option A)) (top n : ℕ)
      → length bs ≡ count
      → length mid ≡ n
      → top ≡ (length front + length bs) + n
      → (mid' : List A) × (length mid' ≡ n)
        × (shift_right count top n (cells_of (((front ++ bs) ++ mid) ++ behind) ++ rest)
            ≡ ok (cells_of (((front ++ mid') ++ bs) ++ behind) ++ rest))
  unfolding shift_right
  shift_right-moves zero front [] mid behind rest top n e m t = (
    mid,
    m,
    ap (λ l. ok (cells_of (l ++ behind) ++ rest))
        (ap (λ l. l ++ mid) (append-nil front) ∙ sym (append-nil (front ++ mid))),
  )
  shift_right-moves zero front (b ∷ bs) mid behind rest top n e m t = absurd (omega (arith, e))
  shift_right-moves (suc count) front bs mid behind rest top n e m t =
      let (zs, b, same, few) = split_last count bs e in
      let same_length = ap length same ∙ length-append zs (b ∷ []) in
      let (mid0, c, same0, few0) = split_last n (b ∷ mid) (omega (arith, m)) in
      let (mid', m', moved) =
        shift_right-moves count front zs mid0 (b ∷ behind) rest (top - 1) n few few0
          (omega (arith, t, same_length, few)) in
      (
        mid',
        m',
        ap (λ l. shift_right (suc count) top n (cells_of (((front ++ l) ++ mid) ++ behind) ++ rest))
              same
            ∙ shift_right-turn count front zs b mid mid0 c behind rest top n same0 few0
                (omega (arith, t, same_length))
            ∙ moved
            ∙ ap (λ l. ok (cells_of l ++ rest)) (moved-to front mid' zs b behind)
            ∙ ap (λ l. ok (cells_of (((front ++ mid') ++ l) ++ behind) ++ rest)) (sym same),
      )
