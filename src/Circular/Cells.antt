-- ===== src/Circular/Cells.antt =====
-- utils/circular_buffer.h: where the element of an index stands in the storage.
use jml_base.Common.{
  ℕ, zero, suc, ◌+◌, ◌-◌, ◌≤◌, ◌<◌, ◌==◌, ◌≡◌, ◌≢◌, ◌⊎◌, inl, inr, refl, ap, arith, if◌then◌else◌,
  List, [], ◌∷◌, ◌++◌, some, length, get_elem?, dec_lt,
}
use jml_base.Circular.{offset_of}

pub offset_of-low : (cap start i : ℕ) → start + i < cap → offset_of cap start i ≡ start + i
offset_of-low cap start i h = ground arith

pub offset_of-high : (cap start i : ℕ) → cap ≤ start + i → offset_of cap start i ≡ start + i - cap
offset_of-high cap start i h = ground arith

pub offset_of-cases :
    (cap start i : ℕ)
    → ((start + i < cap) × (offset_of cap start i ≡ start + i))
      ⊎ ((cap ≤ start + i) × (offset_of cap start i + cap ≡ start + i))
offset_of-cases cap start i = elim (dec_lt (start + i) cap) [
  | yes p ↦ inl (p, offset_of-low cap start i p)
  | no p ↦ inr (omega arith, omega (arith, offset_of-high cap start i (omega arith)))
]

pub offset_of-lt : (cap start i : ℕ) → start < cap → i < cap → offset_of cap start i < cap
offset_of-lt cap start i hs hi = elim (offset_of-cases cap start i) [
  | inl p ↦ omega arith
  | inr p ↦ omega arith
]

pub offset_of-injective :
    (cap start i j : ℕ) → i < cap → j < cap → offset_of cap start i ≡ offset_of cap start j → i ≡ j
offset_of-injective cap start i j hi hj e = elim (offset_of-cases cap start i) [
  | inl p ↦ elim (offset_of-cases cap start j) [ inl q ↦ omega arith | inr q ↦ omega arith ]
  | inr p ↦ elim (offset_of-cases cap start j) [ inl q ↦ omega arith | inr q ↦ omega arith ]
]

-- The start after the first element is removed.
abbrev pub next_start : ℕ → ℕ → ℕ
next_start cap start = if start + 1 == cap then 0 else start + 1

pub offset_of-next :
    (cap start i : ℕ)
    → start < cap
    → i + 1 < cap
    → offset_of cap (next_start cap start) i ≡ offset_of cap start (i + 1)
offset_of-next cap start i hs hi = ground arith

-- The last index from the next start is the cell that was the first.
pub offset_of-next_last :
    (cap start : ℕ) → start < cap → offset_of cap (next_start cap start) (cap - 1) ≡ start
offset_of-next_last cap start hs = ground arith

module _ {ℓ} {A : Type ℓ} where
  pub get_elem?-snoc_self : (xs : List A) (a : A) → get_elem? (xs ++ a ∷ []) (length xs) ≡ some a
  get_elem?-snoc_self [] a = refl
  get_elem?-snoc_self (x ∷ xs) a = get_elem?-snoc_self xs a

  pub get_elem?-snoc_ne :
      (xs : List A) (a : A) (i : ℕ) → i ≢ length xs → get_elem? (xs ++ a ∷ []) i ≡ get_elem? xs i
  get_elem?-snoc_ne [] a zero h = absurd (h refl)
  get_elem?-snoc_ne [] a (suc i) h = refl
  get_elem?-snoc_ne (x ∷ xs) a zero h = refl
  get_elem?-snoc_ne (x ∷ xs) a (suc i) h = get_elem?-snoc_ne xs a i (λ e. h (ap suc e))
