-- ===== src/FastInt/Print.antt =====
-- Decimal texts of numbers, and what the matchers make of them.
use native.Mathlib.Nat.{pow-suc}
use jml_base.Common.{
  ℕ, zero, suc, ◌+◌, ◌-◌, ◌*◌, ◌/◌, ◌%◌, ◌^◌, ◌<◌, ◌≡◌, if◌then◌else◌, refl, arith, true,
  Bool-cases, inl, inr, List, [], ◌∷◌, ◌++◌, length, length-append, ltb,
}
use jml_base.FastInt.{is_digit}
use jml_base.FastInt.Decimal.{value}

-- The decimal digits of a number below 10 ^ fuel, the highest first.
unfoldable pub decimal : ℕ → ℕ → List ℕ
decimal zero n = []
decimal (suc fuel) n =
    let higher = decimal fuel (n / 10) in
    if ltb n 10 then (b'0' + n) ∷ [] else higher ++ (b'0' + n % 10) ∷ []

abbrev pub AllDigits : List ℕ → Type 0
AllDigits [] = Unit
AllDigits (d ∷ ds) = (is_digit d ≡ true) × AllDigits ds

AllDigits-snoc : (ds : List ℕ) (d : ℕ) → AllDigits ds → is_digit d ≡ true → AllDigits (ds ++ d ∷ [])
AllDigits-snoc [] d h e = (e, tt)
AllDigits-snoc (x ∷ ds) d h e = (h.0, AllDigits-snoc ds d h.1 e)

pub decimal-AllDigits : (fuel n : ℕ) → AllDigits (decimal fuel n)
unfolding decimal
decimal-AllDigits zero n = tt
decimal-AllDigits (suc fuel) n = elim (Bool-cases (ltb n 10)) [
  | inl e ↦ rw e (ground arith, tt)
  | inr e ↦ rw e (
      AllDigits-snoc (decimal fuel (n / 10)) (b'0' + n % 10) (decimal-AllDigits fuel (n / 10))
        (ground arith))
]

value-snoc : (ds : List ℕ) (d : ℕ) → value (ds ++ d ∷ []) ≡ value ds * 10 + (d - b'0')
unfolding value
value-snoc [] d = omega arith
value-snoc (x ∷ ds) d =
    let power : 10 ^ suc (length ds) ≡ 10 ^ length ds * 10 = pow-suc 10 (length ds) in
    let count : length (ds ++ d ∷ []) ≡ suc (length ds) =
      omega (arith, length-append ds (d ∷ [])) in
    rw (count, power, value-snoc ds d) (grind arith)

pub value-decimal : (fuel n : ℕ) → n < 10 ^ fuel → value (decimal fuel n) ≡ n
unfolding decimal value
value-decimal zero n h = omega arith
value-decimal (suc fuel) n h = elim (Bool-cases (ltb n 10)) [
  | inl e ↦ rw e (ground arith)
  | inr e ↦
      rw
        (
          e,
          value-snoc (decimal fuel (n / 10)) (b'0' + n % 10),
          value-decimal fuel (n / 10) (omega (arith, pow-suc 10 fuel)),
        )
        (omega arith)
]

pub decimal-length : (fuel n : ℕ) → 0 < length (decimal (suc fuel) n)
unfolding decimal
decimal-length fuel n = elim (Bool-cases (ltb n 10)) [
  | inl e ↦ rw e (omega arith)
  | inr e ↦ rw e (omega (arith, length-append (decimal fuel (n / 10)) ((b'0' + n % 10) ∷ [])))
]

AllDigits-cons :
    (xs : List ℕ)
    → AllDigits xs
    → 0 < length xs
    → (d : ℕ) × (ds : List ℕ) × (xs ≡ d ∷ ds) × (is_digit d ≡ true)
AllDigits-cons [] h k = absurd (omega arith)
AllDigits-cons (d ∷ ds) h k = (d, ds, refl, h.0)

-- It starts with a digit.
pub decimal-cons :
    (fuel n : ℕ) → (d : ℕ) × (ds : List ℕ) × (decimal (suc fuel) n ≡ d ∷ ds) × (is_digit d ≡ true)
decimal-cons fuel n =
    AllDigits-cons (decimal (suc fuel) n) (decimal-AllDigits (suc fuel) n) (decimal-length fuel n)
