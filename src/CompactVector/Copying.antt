-- ===== src/CompactVector/Copying.antt =====
-- utils/compact_vector.h: reads of a vector's elements, `clear`, and the copy into a new vector.
use mathlib.Core.List.{append_assoc, append-nil}
use jml_base.Common.{
  ℕ, zero, suc, ◌+◌, ◌≤◌, ◌<◌, leb, ◌≡◌, refl, sym, ap, ◌∙◌, arith, lt→ltb, le→ltb, true, false,
  Option, none, some, List, [], ◌∷◌, ◌++◌, length, replicate, dec_lt,
}
use jml_base.Common.Result.{ok}
use jml_base.CompactVector.{
  CompactVector, Storage, itl, ext, max_size, data_of, is_internal, read_range, capacity_of, new,
  clear, init, copy_in, init_copy, freed, allocated,
}
use jml_base.CompactVector.Cells.{cells_of, read_range-behind, destroy_range-behind}
use jml_base.CompactVector.Calls.{contents}
use jml_base.CompactVector.Contents.{
  Holds, Alike, Alike-refl, Alike-trans, construct_back-Alike, fits-behind, length-cells_of,
}

suc_add : (m n : ℕ) → suc (m + n) ≡ suc m + n
suc_add m n = omega arith

pub leb-true : (m n : ℕ) → m ≤ n → leb m n ≡ true
leb-true m n h = ground arith

pub leb-false : (m n : ℕ) → n < m → leb m n ≡ false
leb-false m n h = ground arith

pub replicate-append {ℓ} :
    {B : Type ℓ} (m n : ℕ) (b : B) → replicate m b ++ replicate n b ≡ replicate (m + n) b
replicate-append zero n b = ap (λ k. replicate k b) (omega arith)
replicate-append (suc m) n b =
    ap (λ bs. b ∷ bs) (replicate-append m n b) ∙ ap (λ k. replicate k b) (suc_add m n)

module _ {ℓ} {A : Type ℓ} where
  pub cells_of-append : (xs ys : List A) → cells_of (xs ++ ys) ≡ cells_of xs ++ cells_of ys
  cells_of-append [] ys = refl
  cells_of-append (x ∷ xs) ys = ap (λ cs. some x ∷ cs) (cells_of-append xs ys)

  pub cells_of-split :
      (xs ys zs : List A) (rest : List (Option A))
      → cells_of ((xs ++ ys) ++ zs) ++ rest ≡ cells_of xs ++ (cells_of ys ++ (cells_of zs ++ rest))
  cells_of-split xs ys zs rest =
      rw (cells_of-append (xs ++ ys) zs, cells_of-append xs ys)
        (append_assoc (cells_of xs ++ cells_of ys) (cells_of zs) rest
          ∙ append_assoc (cells_of xs) (cells_of ys) (cells_of zs ++ rest))

module _ {ℓ} {A : Type ℓ} (internal : ℕ) where
  pub read_range-Holds :
      (v : CompactVector A) (xs ys zs : List A)
      → Holds internal v ((xs ++ ys) ++ zs)
      → read_range (length ys) (data_of v.storage) (length xs) ≡ ok ys
  read_range-Holds v xs ys zs h =
      rw (h.cells, cells_of-split xs ys zs (replicate h.free none))
        (read_range-behind (cells_of xs) ys _ (length xs) (length-cells_of xs))

  pub contents-Holds :
      (v : CompactVector A) (xs ys : List A)
      → Holds internal v (xs ++ ys)
      → contents v (length xs) ≡ ok xs
  unfolding contents
  contents-Holds v xs ys h = read_range-Holds v [] xs ys h

  freed-new :
      (s : Storage A) (n : ℕ)
      → n ≡ capacity_of internal s
      → freed internal s (replicate n none) ≡ itl (replicate internal none)
  unfolding capacity_of
  freed-new (itl _) n e = rw e refl
  freed-new (ext _ _) n e = refl

  -- `clear` destroys every element, and the vector is as its constructor makes it.
  pub clear-Holds :
      (v : CompactVector A) (xs : List A)
      → Holds internal v xs
      → clear internal v ≡ ok (new internal)
  unfolding clear new
  clear-Holds v xs h =
      rw
        (
          h.sized,
          h.cells,
          destroy_range-behind [] xs (replicate h.free none) 0 refl,
          replicate-append {B = Option A} (length xs) h.free none,
          freed-new v.storage (length xs + h.free) h.room,
        )
        refl

  init-Holds :
      (v : CompactVector A) (xs : List A) (n : ℕ)
      → Holds internal v xs
      → n ≤ max_size
      → init internal v n ≡ ok (allocated internal n (new internal))
  unfolding init
  init-Holds v xs n h small = rw (clear-Holds v xs h, leb-true n max_size small) refl

  pub new-Holds : Holds {A = A} internal (new internal) []
  unfolding new data_of capacity_of
  new-Holds = record { free = internal; cells = refl; room = omega arith; sized = refl }

  allocated-Holds :
      (n : ℕ)
      → Holds {A = A} internal (allocated internal n (new internal)) []
        × (n ≤ capacity_of internal (allocated {A = A} internal n (new internal)).storage)
        × (is_internal (allocated {A = A} internal n (new internal)).storage ≡ leb n internal)
  unfolding data_of capacity_of new is_internal
  allocated-Holds n = elim (dec_lt internal n) [
    | yes more ↦ rw (lt→ltb internal n more) (
      record { free = n; cells = refl; room = omega arith; sized = refl },
      omega arith,
      sym (leb-false n internal more),
    )
    | no fits ↦
        rw (le→ltb internal n (omega arith))
          (new-Holds, omega arith, sym (leb-true n internal (omega arith)))
  ]

  copy_in-Alike :
      (xs done : List A) (n : ℕ) (v : CompactVector A)
      → Holds internal v done
      → length done + length xs ≤ n
      → n ≤ capacity_of internal v.storage
      → (v' : CompactVector A) × (copy_in internal xs n v ≡ ok v')
        × Alike internal v v' (done ++ xs)
  unfolding copy_in
  copy_in-Alike [] done n v h fits room =
      (v, refl, rw (append-nil done) (Alike-refl internal v done h))
  copy_in-Alike (x ∷ xs) done n v h fits room =
      let (v1, e1, h1) = construct_back-Alike internal v done x h (omega (arith, fits, room)) in
      let behind = fits-behind done x xs n fits in
      let (v2, e2, h2) = copy_in-Alike xs (done ++ x ∷ []) n v1 h1.holds behind (rw h1.room room) in
      (
        v2,
        rw (leb-true v.size n (omega (arith, h.sized, fits)), e1, e2) refl,
        rw (sym (append_assoc done (x ∷ []) xs))
            (Alike-trans internal v v1 v2 (done ++ x ∷ []) _ h1 h2),
      )

  -- What `init_copy` makes, with room for `n`: inside the object where `n` elements fit there.
  pub record Made (n : ℕ) (v : CompactVector A) (xs : List A) : Type ℓ where
    pub holds : Holds internal v xs
    pub room : n ≤ capacity_of internal v.storage
    pub inside : is_internal v.storage ≡ leb n internal

  pub init_copy-Made :
      (v : CompactVector A) (old xs : List A) (n : ℕ)
      → Holds internal v old
      → length xs ≤ n
      → n ≤ max_size
      → (v' : CompactVector A) × (init_copy internal v xs n ≡ ok v') × Made n v' xs
  unfolding init_copy
  init_copy-Made v old xs n h fits small =
      let (fresh, room, inside) = allocated-Holds n in
      let (v', e, h') =
        copy_in-Alike xs [] n (allocated internal n (new internal)) fresh (omega (arith, fits))
          room in
      (
        v',
        rw (init-Holds v old n h small) e,
        record { holds = h'.holds; room = rw h'.room room; inside = h'.inside ∙ inside },
      )
