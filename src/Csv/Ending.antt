-- ===== src/Csv/Ending.antt =====
-- utils/csv.cc: the loop of `expect_csv_field` ends.
use jml_base.Common.{
  ℕ, zero, suc, ◌+◌, ◌≤◌, ◌<◌, ◌≡◌, ◌==◌, refl, arith, Bool, true, false, Bool-cases, inl, inr,
  List, [], ◌∷◌, ◌++◌, length, ◌∙◌,
}
use jml_base.Common.Result.{Result, ok, err}
use jml_base.Parse.{Context, Error, out_of_fuel, behind, advance, peek}
use jml_base.Parse.Matching.{
  match_literal-cons, eof-nil, eof-cons, peek-nil, advance-nil, peek-cons, advance-cons,
}
use jml_base.Csv.{field, close, skip_and_throw, is_line_end, expect_csv_field}
use jml_base.Csv.Fields.{
  field-end, field-plain, field-separator, field-line_end, field-open, field-inside, field-doubled,
  field-close, field-embedded,
}

-- A call that does not run out of fuel.
abbrev pub Runs {ℓ} : {A : Type ℓ} → Result Error A → Type 0
Runs (ok a) = Unit
Runs (err out_of_fuel) = ⊥
Runs (err e) = Unit

Rest-Runs : (c : Context) (xs : List ℕ) → c.rest ≡ xs → Runs (peek c) × Runs (advance c)
Rest-Runs c [] e = (rw (peek-nil c e) tt, rw (advance-nil c e) tt)
Rest-Runs c (x ∷ xs) e = (rw (peek-cons c x xs e) tt, rw (advance-cons c x xs e) tt)

skip_and_throw-Runs : (n : ℕ) (c : Context) (xs : List ℕ) → c.rest ≡ xs → Runs (skip_and_throw n c)
unfolding skip_and_throw
skip_and_throw-Runs zero c [] e = rw (peek-nil c e) tt
skip_and_throw-Runs zero c (x ∷ xs) e = rw (peek-cons c x xs e) tt
skip_and_throw-Runs (suc n) c [] e = rw (advance-nil c e) tt
skip_and_throw-Runs (suc n) c (x ∷ xs) e =
    rw (advance-cons c x xs e) (skip_and_throw-Runs n (behind x xs c) xs refl)

close-Runs :
    (separator : ℕ) (s : List ℕ) (c : Context) (xs : List ℕ)
    → c.rest ≡ xs
    → Runs (close separator s c)
unfolding close
close-Runs separator s c [] e = rw (eof-nil c e) tt
close-Runs separator s c (x ∷ xs) e = elim (Bool-cases (x == separator)) [
  | inl t ↦ rw (eof-cons c x xs e, match_literal-cons separator x xs c e, t) tt
  | inr t ↦ elim (Bool-cases (is_line_end x)) [
    | inl l ↦
        rw (eof-cons c x xs e, match_literal-cons separator x xs c e, t, peek-cons c x xs e, l) tt
    | inr l ↦
        rw (eof-cons c x xs e, match_literal-cons separator x xs c e, t, peek-cons c x xs e, l)
          (skip_and_throw-Runs 20 c (x ∷ xs) e)
  ]
]

-- Inside quotes, at a quote: it is doubled, or it closes the field.
quote-Runs :
    (separator fuel : ℕ) (result r : List ℕ) (c : Context)
    → c.rest ≡ b'"' ∷ r
    → ((c' : Context)
        → length c'.rest ≤ length r
        → Runs (field fuel separator true (result ++ b'"' ∷ []) c'))
    → Runs (field (suc fuel) separator true result c)
quote-Runs separator fuel result [] c e rest =
    rw (field-close separator fuel result c [] e tt)
      (close-Runs separator result (behind b'"' [] c) [] refl)
quote-Runs separator fuel result (y ∷ r) c e rest = elim (Bool-cases (b'"' == y)) [
  | inl t ↦
      let same : y ≡ b'"' = ground arith in
      rw (field-doubled separator fuel result c r (e ∙ rw same))
        (rest (behind b'"' r (behind b'"' (b'"' ∷ r) c)) (omega arith))
  | inr t ↦
      rw (field-close separator fuel result c (y ∷ r) e t)
        (close-Runs separator result (behind b'"' (y ∷ r) c) (y ∷ r) refl)
]

-- The loop of `expect_csv_field` ends with fuel for every character and one more.
pub field-Runs :
    (fuel separator : ℕ) (quoted : Bool) (result xs : List ℕ) (c : Context)
    → c.rest ≡ xs
    → length xs < fuel
    → Runs (field fuel separator quoted result c)
field-Runs zero separator quoted result xs c e h = absurd (omega arith)
field-Runs (suc fuel) separator true result [] c e h =
    rw (field-end separator fuel result c true e) tt
field-Runs (suc fuel) separator false result [] c e h =
    rw (field-end separator fuel result c false e) tt
field-Runs (suc fuel) separator true result (x ∷ xs) c e h = elim (Bool-cases (x == b'"')) [
  | inl t ↦
      let same : x ≡ b'"' = ground arith in
      quote-Runs separator fuel result xs c (e ∙ rw same) (λ c' le.
        field-Runs fuel separator true (result ++ b'"' ∷ []) c'.rest c' refl (omega arith))
  | inr t ↦
      rw (field-inside separator fuel result c x xs e t)
        (field-Runs fuel separator true (result ++ x ∷ []) xs (behind x xs c) refl (omega arith))
]
field-Runs (suc fuel) separator false result (x ∷ xs) c e h = elim (Bool-cases (x == b'"')) [
  | inl t ↦
      let same : x ≡ b'"' = ground arith in
      elim (Bool-cases (length result == 0)) [
        | inl none_yet ↦
            rw (field-open separator fuel result c xs (e ∙ rw same) (ground arith))
              (field-Runs fuel separator true result xs (behind b'"' xs c) refl (omega arith))
        | inr some_yet ↦ rw (field-embedded separator fuel result xs c (e ∙ rw same) some_yet) tt
      ]
  | inr t ↦ elim (Bool-cases (x == separator)) [
    | inl u ↦
        let same : x ≡ separator = ground arith in
        rw (field-separator separator fuel result c xs (e ∙ rw same) (rw (← same) t)) tt
    | inr u ↦ elim (Bool-cases (is_line_end x)) [
      | inl l ↦ rw (field-line_end separator fuel result c x xs e t u l) tt
      | inr l ↦
          rw (field-plain separator fuel result c x xs e t u l) (
            field-Runs fuel separator false (result ++ x ∷ []) xs (behind x xs c) refl
              (omega arith))
    ]
  ]
]

-- `expect_csv_field` always ends: on every text it returns a field or throws, whatever the separator.
pub expect_csv_field-Runs : (separator : ℕ) (c : Context) → Runs (expect_csv_field separator c)
unfolding expect_csv_field
expect_csv_field-Runs separator c =
    field-Runs (length c.rest + 1) separator false [] c.rest c refl (omega arith)
