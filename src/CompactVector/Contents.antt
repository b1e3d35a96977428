-- ===== src/CompactVector/Contents.antt =====
-- utils/compact_vector.h: the elements that a vector holds, as a list.
use mathlib.Core.List.{append_assoc, append-nil}
use jml_base.Common.{
  ℕ, zero, suc, ◌+◌, ◌-◌, ◌≤◌, ◌<◌, ◌==◌, ◌≡◌, refl, sym, ap, ◌∙◌, arith, true, not, Option, none,
  some, List, [], ◌∷◌, ◌++◌, length, length-append, replicate,
}
use jml_base.Common.Result.{ok}
use jml_base.CompactVector.{
  CompactVector, Storage, itl, ext, construct, destruct, data_of, with_data, is_internal,
  capacity_of, construct_back,
}
use jml_base.CompactVector.Cells.{cells_of, construct-behind, destruct-behind}
use jml_base.CompactVector.Calls.{construct_all, destroy_last, destroy_back}

free-suc : (m free n : ℕ) → m + free ≡ n → m < n → free ≡ suc (free - 1)
free-suc m free n e h = omega arith

pub fits-behind {ℓ} :
    {A : Type ℓ} (xs : List A) (a : A) (ys : List A) (n : ℕ)
    → length xs + suc (length ys) ≤ n
    → length (xs ++ a ∷ []) + length ys ≤ n
fits-behind xs a ys n h = omega (arith, h, length-append xs (a ∷ []))

last-size {ℓ} :
    {A : Type ℓ} (ws : List A) (a : A) (n : ℕ) → n ≡ length (ws ++ a ∷ []) → n - 1 ≡ length ws
last-size ws a n e = omega (arith, e, length-append ws (a ∷ []))

pub last-nonempty {ℓ} :
    {A : Type ℓ} (ws : List A) (a : A) (n : ℕ) → n ≡ length (ws ++ a ∷ []) → not (n == 0) ≡ true
last-nonempty ws a n e = ground (arith, e, length-append ws (a ∷ []))

cells_of-snoc {ℓ} :
    {A : Type ℓ} (xs : List A) (a : A) (rest : List (Option A))
    → cells_of xs ++ (some a ∷ rest) ≡ cells_of (xs ++ a ∷ []) ++ rest
cells_of-snoc [] a rest = refl
cells_of-snoc (x ∷ xs) a rest = ap (λ cs. some x ∷ cs) (cells_of-snoc xs a rest)

pub length-cells_of {ℓ} : {A : Type ℓ} (xs : List A) → length (cells_of xs) ≡ length xs
length-cells_of [] = refl
length-cells_of (x ∷ xs) = omega (arith, length-cells_of xs)

construct-free {ℓ} :
    {A : Type ℓ} (xs : List A) (free : ℕ) (a : A)
    → construct (cells_of xs ++ replicate (suc free) none) (length xs) a
      ≡ ok (cells_of (xs ++ a ∷ []) ++ replicate free none)
construct-free xs free a =
    construct-behind (cells_of xs) (length xs) (length-cells_of xs) none a (replicate free none)
    ∙ ap ok (cells_of-snoc xs a (replicate free none))

destruct-last {ℓ} :
    {A : Type ℓ} (ws : List A) (a : A) (free : ℕ)
    → destruct (cells_of (ws ++ a ∷ []) ++ replicate free none) (length ws)
      ≡ ok (cells_of ws ++ replicate (suc free) none)
destruct-last ws a free =
    ap (λ cs. destruct cs (length ws)) (sym (cells_of-snoc ws a (replicate free none)))
    ∙ destruct-behind (cells_of ws) (length ws) (length-cells_of ws) a (replicate free none)

pub split_last {ℓ} :
    {A : Type ℓ} (n : ℕ) (ys : List A)
    → length ys ≡ suc n
    → (zs : List A) × (a : A) × (ys ≡ zs ++ a ∷ []) × (length zs ≡ n)
split_last n [] e = absurd (omega (arith, e))
split_last zero (y ∷ []) e = ([], y, refl, refl)
split_last zero (y ∷ z ∷ ys) e = absurd (omega (arith, e))
split_last (suc n) (y ∷ ys) e =
    let (zs, a, same, count) = split_last n ys (omega (arith, e)) in
    (y ∷ zs, a, ap (λ l. y ∷ l) same, omega (arith, count))

module _ {ℓ} {A : Type ℓ} (internal : ℕ) where
  -- The first cells hold `xs`, and `free` more are empty.
  pub record Holds (v : CompactVector A) (xs : List A) : Type ℓ where
    pub free : ℕ
    pub cells : data_of v.storage ≡ cells_of xs ++ replicate free none
    pub room : length xs + free ≡ capacity_of internal v.storage
    pub sized : v.size ≡ length xs

  -- A result that holds `xs` in a storage like that of `v`.
  pub record Alike (v v' : CompactVector A) (xs : List A) : Type ℓ where
    pub holds : Holds v' xs
    pub room : capacity_of internal v'.storage ≡ capacity_of internal v.storage
    pub inside : is_internal v'.storage ≡ is_internal v.storage

  data_of-with_data :
      (s : Storage A) (cells : List (Option A)) → data_of (with_data s cells) ≡ cells
  unfolding data_of with_data
  data_of-with_data (itl _) cells = refl
  data_of-with_data (ext _ c) cells = refl

  capacity_of-with_data :
      (s : Storage A) (cells : List (Option A))
      → capacity_of internal (with_data s cells) ≡ capacity_of internal s
  unfolding capacity_of with_data
  capacity_of-with_data (itl _) cells = refl
  capacity_of-with_data (ext _ c) cells = refl

  is_internal-with_data :
      (s : Storage A) (cells : List (Option A)) → is_internal (with_data s cells) ≡ is_internal s
  unfolding is_internal with_data
  is_internal-with_data (itl _) cells = refl
  is_internal-with_data (ext _ c) cells = refl

  pub Alike-with_data :
      (v : CompactVector A) (xs : List A) (free : ℕ)
      → length xs + free ≡ capacity_of internal v.storage
      → Alike v
          (record {
            storage = with_data v.storage (cells_of xs ++ replicate free none);
            size = length xs;
          })
          xs
  Alike-with_data v xs free room =
      let cells = cells_of xs ++ replicate free none in
      record {
        holds = record {
          free = free;
          cells = data_of-with_data v.storage cells;
          room = room ∙ sym (capacity_of-with_data v.storage cells);
          sized = refl;
        };
        room = capacity_of-with_data v.storage cells;
        inside = is_internal-with_data v.storage cells;
      }

  -- `construct_back` adds an element where there is a free cell.
  pub construct_back-Alike :
      (v : CompactVector A) (xs : List A) (a : A)
      → (h : Holds v xs) → length xs < capacity_of internal v.storage
      → (v' : CompactVector A) × (construct_back v a ≡ ok v') × Alike v v' (xs ++ a ∷ [])
  unfolding construct_back
  construct_back-Alike v xs a h room =
      let free = h.free - 1 in
      let same = free-suc (length xs) h.free (capacity_of internal v.storage) h.room room in
      let there = h.cells ∙ ap (λ n. cells_of xs ++ replicate n none) same in
      let longer = length-append xs (a ∷ []) in
      (
        record {
          storage = with_data v.storage (cells_of (xs ++ a ∷ []) ++ replicate free none);
          size = length (xs ++ a ∷ []);
        },
        rw (there, h.sized, construct-free xs free a, longer) refl,
        Alike-with_data v (xs ++ a ∷ []) free (omega (arith, h.room, room, longer)),
      )

  pub Alike-refl : (v : CompactVector A) (xs : List A) → Holds v xs → Alike v v xs
  Alike-refl v xs h = record { holds = h; room = refl; inside = refl }

  pub Alike-trans :
      (u v w : CompactVector A) (xs ys : List A) → Alike u v xs → Alike v w ys → Alike u w ys
  Alike-trans u v w xs ys h k = record {
    holds = k.holds;
    room = k.room ∙ h.room;
    inside = k.inside ∙ h.inside;
  }

  pub construct_all-Alike :
      (ys : List A) (v : CompactVector A) (xs : List A)
      → Holds v xs
      → length xs + length ys ≤ capacity_of internal v.storage
      → (v' : CompactVector A) × (construct_all ys v ≡ ok v') × Alike v v' (xs ++ ys)
  unfolding construct_all
  construct_all-Alike [] v xs h room = (v, refl, rw (append-nil xs) (Alike-refl v xs h))
  construct_all-Alike (a ∷ ys) v xs h room =
      let (v1, e1, h1) = construct_back-Alike v xs a h (omega (arith, room)) in
      let fits = fits-behind xs a ys (capacity_of internal v.storage) room in
      let (v2, e2, h2) = construct_all-Alike ys v1 (xs ++ a ∷ []) h1.holds (rw h1.room fits) in
      (
        v2,
        rw (e1, e2) refl,
        rw (sym (append_assoc xs (a ∷ []) ys)) (Alike-trans v v1 v2 (xs ++ a ∷ []) _ h1 h2),
      )

  pub destroy_last-Alike :
      (v : CompactVector A) (ws : List A) (a : A)
      → Holds v (ws ++ a ∷ [])
      → (v' : CompactVector A) × (destroy_last v ≡ ok v') × Alike v v' ws
  unfolding destroy_last
  destroy_last-Alike v ws a h = (
    record {
      storage = with_data v.storage (cells_of ws ++ replicate (suc h.free) none);
      size = length ws;
    },
    rw
        (
          last-nonempty ws a v.size h.sized,
          h.cells,
          last-size ws a v.size h.sized,
          destruct-last ws a h.free,
        )
        refl,
    Alike-with_data v ws (suc h.free) (omega (arith, h.room, length-append ws (a ∷ []))),
  )

  -- `destroy_back` drops as many elements as it destroys.
  pub destroy_back-Alike :
      (n : ℕ) (v : CompactVector A) (xs ys : List A)
      → Holds v (xs ++ ys)
      → length ys ≡ n
      → (v' : CompactVector A) × (destroy_back n v ≡ ok v') × Alike v v' xs
  unfolding destroy_back
  destroy_back-Alike zero v xs [] h e = (v, refl, Alike-refl v xs (rw (sym (append-nil xs)) h))
  destroy_back-Alike zero v xs (y ∷ ys) h e = absurd (omega (arith, e))
  destroy_back-Alike (suc n) v xs ys h e =
      let (zs, a, same, count) = split_last n ys e in
      let whole = ap (λ l. xs ++ l) same ∙ sym (append_assoc xs zs (a ∷ [])) in
      let (v1, e1, h1) = destroy_last-Alike v (xs ++ zs) a (rw (sym whole) h) in
      let (v2, e2, h2) = destroy_back-Alike n v1 xs zs h1.holds count in
      (v2, rw e1 e2, Alike-trans v v1 v2 (xs ++ zs) xs h1 h2)
