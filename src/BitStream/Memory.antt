-- ===== src/BitStream/Memory.antt =====
-- An array of words as one number, first word lowest: where a field of the number stands in the
-- words, and what a write of one or two words does to the number.
use native.Mathlib.Nat.{suc-mul}
use jml_base.Common.{
  ℕ, zero, suc, ◌+◌, ◌*◌, ◌^◌, ◌≤◌, ◌<◌, ◌≡◌, sym, ap, ◌∙◌, arith, some, List, [], ◌∷◌, get_elem?,
  set, some-eq,
}
use jml_base.Common.Bits.{pow-add}
use jml_base.BitRange.Numbers.{
  field, replaced, field_above, field_below, replaced_above, replaced_below,
}

abbrev pub All {ℓ κ} : {A : Type ℓ} → (A → Type κ) → List A → Type κ
All P [] = Unit
All P (x ∷ xs) = P x × All P xs

module _ (w : ℕ) where
  -- The bits of the array as one number.
  unfoldable pub value : List ℕ → ℕ
  value [] = 0
  value (x ∷ xs) = x + value xs * 2 ^ w

  abbrev pub IsWords : List ℕ → Type 0
  IsWords = All (λ x. x < 2 ^ w)

  pub IsWords-get :
      (mem : List ℕ) (d : ℕ) {p : ℕ} → IsWords mem → get_elem? mem d ≡ some p → p < 2 ^ w
  IsWords-get [] d h e = cc
  IsWords-get (x ∷ mem) zero h e = ground arith
  IsWords-get (x ∷ mem) (suc d) h e = IsWords-get mem d h.1 e

  pub IsWords-set : (mem : List ℕ) (d v : ℕ) → IsWords mem → v < 2 ^ w → IsWords (set mem d v)
  IsWords-set [] d v h hv = tt
  IsWords-set (x ∷ mem) zero v h hv = (hv, h.1)
  IsWords-set (x ∷ mem) (suc d) v h hv = (h.0, IsWords-set mem d v h.1 hv)

  step : (d a : ℕ) → suc d * w + a ≡ w + (d * w + a)
  step d a = grind (arith, suc-mul d w)

  -- A field inside one word.
  pub field_one :
      (mem : List ℕ) (d a n : ℕ) {p : ℕ}
      → IsWords mem
      → get_elem? mem d ≡ some p
      → a + n ≤ w
      → field (d * w + a) n (value mem) ≡ field a n p
  unfolding value
  field_one [] d a n h e fits = cc
  field_one (x ∷ mem) zero a n h e fits =
      ap (λ (t : ℕ). field t n (x + value mem * 2 ^ w)) {x = 0 * w + a} {y = a} (omega arith)
      ∙ field_above w a n x (value mem) fits
      ∙ ap (field a n) (some-eq e)
  field_one (x ∷ mem) (suc d) a n h e fits =
      ap (λ (t : ℕ). field t n (x + value mem * 2 ^ w)) (step d a)
      ∙ field_below w (d * w + a) n x (value mem) h.0
      ∙ field_one mem d a n h.1 e fits

  -- A field inside two neighbouring words.
  pub field_two :
      (mem : List ℕ) (d a n : ℕ) {p0 p1 : ℕ}
      → IsWords mem
      → get_elem? mem d ≡ some p0
      → get_elem? mem (suc d) ≡ some p1
      → a + n ≤ w + w
      → field (d * w + a) n (value mem) ≡ field a n (p0 + p1 * 2 ^ w)
  unfolding value
  field_two [] d a n h e0 e1 fits = cc
  field_two (x ∷ []) zero a n h e0 e1 fits = cc
  field_two (x ∷ y ∷ mem) zero a n {p0} {p1} h e0 e1 fits =
      let sum : x + (y + value mem * 2 ^ w) * 2 ^ w ≡ x + y * 2 ^ w + value mem * 2 ^ (w + w) =
        omega (arith, ap (λ (t : ℕ). value mem * t) (pow-add w w)) in
      let same : x + y * 2 ^ w ≡ p0 + p1 * 2 ^ w = rw (some-eq e0, some-eq e1) in
      ap (λ (t : ℕ). field t n (x + (y + value mem * 2 ^ w) * 2 ^ w)) {x = 0 * w + a} {y = a}
        (omega arith)
      ∙ ap (field a n) sum
      ∙ field_above (w + w) a n (x + y * 2 ^ w) (value mem) fits
      ∙ ap (field a n) same
  field_two (x ∷ mem) (suc d) a n h e0 e1 fits =
      ap (λ (t : ℕ). field t n (x + value mem * 2 ^ w)) (step d a)
      ∙ field_below w (d * w + a) n x (value mem) h.0
      ∙ field_two mem d a n h.1 e0 e1 fits

  -- A write inside one word.
  pub value-set_one :
      (mem : List ℕ) (d a n v q : ℕ) {p : ℕ}
      → IsWords mem
      → get_elem? mem d ≡ some p
      → a + n ≤ w
      → q ≡ replaced a n v p
      → value (set mem d q) ≡ replaced (d * w + a) n v (value mem)
  unfolding value
  value-set_one [] d a n v q h e fits eq = cc
  value-set_one (x ∷ mem) zero a n v q h e fits eq =
      ap (λ (t : ℕ). t + value mem * 2 ^ w) (eq ∙ ap (replaced a n v) (sym (some-eq e)))
      ∙ sym (replaced_above w a n v x (value mem) fits)
      ∙ ap (λ (t : ℕ). replaced t n v (x + value mem * 2 ^ w)) {x = a} {y = 0 * w + a} (omega arith)
  value-set_one (x ∷ mem) (suc d) a n v q h e fits eq =
      ap (λ (t : ℕ). x + t * 2 ^ w) (value-set_one mem d a n v q h.1 e fits eq)
      ∙ sym (replaced_below w (d * w + a) n v x (value mem) h.0)
      ∙ ap (λ (t : ℕ). replaced t n v (x + value mem * 2 ^ w)) (sym (step d a))

  -- A write across two neighbouring words.
  pub value-set_two :
      (mem : List ℕ) (d a n v q0 q1 : ℕ) {p0 p1 : ℕ}
      → IsWords mem
      → get_elem? mem d ≡ some p0
      → get_elem? mem (suc d) ≡ some p1
      → a + n ≤ w + w
      → q0 + q1 * 2 ^ w ≡ replaced a n v (p0 + p1 * 2 ^ w)
      → value (set (set mem d q0) (suc d) q1) ≡ replaced (d * w + a) n v (value mem)
  unfolding value
  value-set_two [] d a n v q0 q1 h e0 e1 fits eq = cc
  value-set_two (x ∷ []) zero a n v q0 q1 h e0 e1 fits eq = cc
  value-set_two (x ∷ y ∷ mem) zero a n v q0 q1 {p0} {p1} h e0 e1 fits eq =
      let weight = ap (λ (t : ℕ). value mem * t) (pow-add w w) in
      let same : replaced a n v (p0 + p1 * 2 ^ w) ≡ replaced a n v (x + y * 2 ^ w) =
        rw (some-eq e0, some-eq e1) in
      let before : q0 + (q1 + value mem * 2 ^ w) * 2 ^ w
          ≡ replaced a n v (x + y * 2 ^ w) + value mem * 2 ^ (w + w) =
        omega (arith, weight, eq, same) in
      let after : x + y * 2 ^ w + value mem * 2 ^ (w + w) ≡ x + (y + value mem * 2 ^ w) * 2 ^ w =
        omega (arith, weight) in
      before
      ∙ sym (replaced_above (w + w) a n v (x + y * 2 ^ w) (value mem) fits)
      ∙ ap (replaced a n v) after
      ∙ ap (λ (t : ℕ). replaced t n v (x + (y + value mem * 2 ^ w) * 2 ^ w)) {x = a} {y = 0 * w + a}
          (omega arith)
  value-set_two (x ∷ mem) (suc d) a n v q0 q1 h e0 e1 fits eq =
      ap (λ (t : ℕ). x + t * 2 ^ w) (value-set_two mem d a n v q0 q1 h.1 e0 e1 fits eq)
      ∙ sym (replaced_below w (d * w + a) n v x (value mem) h.0)
      ∙ ap (λ (t : ℕ). replaced t n v (x + value mem * 2 ^ w)) (sym (step d a))
