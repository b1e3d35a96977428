-- ===== src/Csv/RoundTrip.antt =====
-- utils/csv.cc: `expect_csv_field` reads back what `csv_escape` writes.
use mathlib.Core.List.{append_assoc, append-nil}
use native.Mathlib.Numerals.{add-one}
use jml_base.Common.{
  ℕ, zero, suc, ◌+◌, ◌<◌, ◌≡◌, ◌⊎◌, ◌==◌, ◌&&◌, ◌||◌, refl, sym, arith, Bool, true, false, not,
  Bool-cases, inl, inr, List, [], ◌∷◌, ◌++◌, length, length-append, ap, ◌∙◌,
}
use jml_base.Common.Result.{ok}
use jml_base.Parse.{Context, behind}
use jml_base.Parse.Moving.{over, over-cons}
use jml_base.Parse.Matching.{NotStart}
use jml_base.Csv.{field, is_line_end, expect_csv_field, csv_escape, contains, doubled}
use jml_base.Csv.Fields.{
  Ends, finish, close-Ends, field-end, field-plain, field-separator, field-line_end, field-open,
  field-inside, field-doubled, field-close,
}

-- A character that needs no quotes.
abbrev pub IsPlain : ℕ → ℕ → Type 0
IsPlain separator x = ((x == b'"') ≡ false) × ((x == separator) ≡ false) × (is_line_end x ≡ false)

abbrev pub AllPlain : ℕ → List ℕ → Type 0
AllPlain separator [] = Unit
AllPlain separator (x ∷ xs) = IsPlain separator x × AllPlain separator xs

doubled-quote :
    (x : ℕ) (s : List ℕ) → (x == b'"') ≡ true → doubled (x ∷ s) ≡ b'"' ∷ b'"' ∷ doubled s
unfolding doubled
doubled-quote x s e = rw e

doubled-other : (x : ℕ) (s : List ℕ) → (x == b'"') ≡ false → doubled (x ∷ s) ≡ x ∷ doubled s
unfolding doubled
doubled-other x s e = rw e

module _ (separator : ℕ) (unquoted : (separator == b'"') ≡ false) where
  Ends-NotStart : (r : List ℕ) → Ends separator r → NotStart b'"' r
  Ends-NotStart [] h = tt
  Ends-NotStart (x ∷ r) h = ground arith

  field-Ends :
      (fuel : ℕ) (acc r : List ℕ) (c : Context)
      → Ends separator r
      → c.rest ≡ r
      → field (suc fuel) separator false acc c ≡ ok (finish separator acc r c)
  unfolding finish
  field-Ends fuel acc [] c h e = field-end separator fuel acc c false e
  field-Ends fuel acc (x ∷ r) c h e = elim (Bool-cases (x == separator)) [
    | inl t ↦
        let same : x ≡ separator = ground arith in
        rw (same, ap (λ y. y == separator) (sym same) ∙ t)
          (field-separator separator fuel acc c r (e ∙ rw same) unquoted)
    | inr t ↦
        let line : is_line_end x ≡ true = ground arith in
        rw t (field-line_end separator fuel acc c x r e (ground arith) t line)
  ]

  -- The rest of a field outside quotes.
  plain_run :
      (s acc r : List ℕ) (fuel : ℕ) (c : Context)
      → AllPlain separator s
      → Ends separator r
      → c.rest ≡ s ++ r
      → length s < fuel
      → field fuel separator false acc c ≡ ok (finish separator (acc ++ s) r (over s r c))
  unfolding over
  plain_run s acc r zero c h k e f = absurd (omega arith)
  plain_run [] acc r (suc fuel) c h k e f = rw (append-nil acc) (field-Ends fuel acc r c k e)
  plain_run (x ∷ s) acc r (suc fuel) c h k e f =
      field-plain separator fuel acc c x (s ++ r) e h.0.0 h.0.1 h.0.2
      ∙ plain_run s (acc ++ x ∷ []) r fuel (behind x (s ++ r) c) h.1 k refl (omega arith)
      ∙ rw (append_assoc acc (x ∷ []) s)

  -- The rest of a field inside quotes.
  quoted_run :
      (s acc r : List ℕ) (fuel : ℕ) (c : Context)
      → Ends separator r
      → c.rest ≡ doubled s ++ b'"' ∷ r
      → length (doubled s) < fuel
      → field fuel separator true acc c
        ≡ ok (finish separator (acc ++ s) r (over (doubled s ++ b'"' ∷ []) r c))
  unfolding over doubled
  quoted_run s acc r zero c k e f = absurd (omega arith)
  quoted_run [] acc r (suc fuel) c k e f =
      field-close separator fuel acc c r e (Ends-NotStart r k)
      ∙ close-Ends separator acc r (behind b'"' r c) refl k
      ∙ rw (append-nil acc)
  quoted_run (x ∷ s) acc r (suc fuel) c k e f = elim (Bool-cases (x == b'"')) [
    | inl t ↦
        let same : x ≡ b'"' = ground arith in
        let text = doubled-quote x s t in
        let left = append_assoc (doubled s) (b'"' ∷ []) r in
        field-doubled separator fuel acc c (doubled s ++ b'"' ∷ r)
          (e ∙ ap (λ y. y ++ b'"' ∷ r) text)
        ∙ quoted_run s (acc ++ b'"' ∷ []) r fuel
            (behind b'"' (doubled s ++ b'"' ∷ r) (behind b'"' (b'"' ∷ doubled s ++ b'"' ∷ r) c)) k
            refl (omega (arith, ap length text))
        ∙ rw (append_assoc acc (b'"' ∷ []) s, same, left)
    | inr t ↦
        let text = doubled-other x s t in
        let left = append_assoc (doubled s) (b'"' ∷ []) r in
        field-inside separator fuel acc c x (doubled s ++ b'"' ∷ r)
          (e ∙ ap (λ y. y ++ b'"' ∷ r) text) t
        ∙ quoted_run s (acc ++ x ∷ []) r fuel (behind x (doubled s ++ b'"' ∷ r) c) k refl
            (omega (arith, ap length text))
        ∙ rw (append_assoc acc (x ∷ []) s, t, left)
  ]

-- `csv_escape` puts the field in quotes.
unfoldable pub is_quoted : List ℕ → Bool
is_quoted s = contains b'"' s || contains b'\n' s || contains b',' s

csv_escape-quoted : (s : List ℕ) → is_quoted s ≡ true → csv_escape s ≡ b'"' ∷ doubled s ++ b'"' ∷ []
unfolding csv_escape is_quoted
csv_escape-quoted s h =
    let test : (not (contains b'"' s) && not (contains b'\n' s) && not (contains b',' s)) ≡ false =
      ground arith in
    rw test

csv_escape-unquoted : (s : List ℕ) → is_quoted s ≡ false → csv_escape s ≡ s
unfolding csv_escape is_quoted
csv_escape-unquoted s h =
    let test : (not (contains b'"' s) && not (contains b'\n' s) && not (contains b',' s)) ≡ true =
      ground arith in
    rw test

contains-AllPlain :
    (s : List ℕ)
    → contains b'"' s ≡ false
    → contains b'\n' s ≡ false
    → contains b',' s ≡ false
    → contains b'\r' s ≡ false
    → AllPlain b',' s
unfolding contains
contains-AllPlain [] q n s r = tt
contains-AllPlain (x ∷ xs) q n s r = (
  (ground arith, ground arith, ground arith),
  contains-AllPlain xs (ground arith) (ground arith) (ground arith) (ground arith),
)

-- `csv_escape` does not quote a field for a carriage return alone, which ends the field when it is read.
unfoldable pub IsWritable : List ℕ → Type 0
IsWritable s = (is_quoted s ≡ true) ⊎ (contains b'\r' s ≡ false)

unquoted-AllPlain : (s : List ℕ) → is_quoted s ≡ false → IsWritable s → AllPlain b',' s
unfolding is_quoted IsWritable
unquoted-AllPlain s q w =
    contains-AllPlain s (ground arith) (ground arith) (ground arith) (ground arith)

-- A field that `csv_escape` wrote is read back, with what may come behind it; one with a carriage return
-- must also have a quote, a comma or a line feed.
pub expect_csv_field-csv_escape :
    (s r : List ℕ) (c : Context)
    → IsWritable s
    → Ends b',' r
    → c.rest ≡ csv_escape s ++ r
    → expect_csv_field b',' c ≡ ok (finish b',' s r (over (csv_escape s) r c))
unfolding expect_csv_field IsWritable
expect_csv_field-csv_escape s r c w k e = elim (Bool-cases (is_quoted s)) [
  | inl q ↦
      let text = csv_escape-quoted s q in
      let start : c.rest ≡ b'"' ∷ ((doubled s ++ b'"' ∷ []) ++ r) = e ∙ ap (λ t. t ++ r) text in
      let left = append_assoc (doubled s) (b'"' ∷ []) r in
      let long : length (doubled s) < length c.rest = omega (
        arith,
        ap length start,
        length-append (doubled s ++ b'"' ∷ []) r,
        length-append (doubled s) (b'"' ∷ []),
      ) in
      rw (add-one, text, over-cons b'"' (doubled s ++ b'"' ∷ []) r c)
        (field-open b',' (length c.rest) [] c ((doubled s ++ b'"' ∷ []) ++ r) start refl
          ∙ quoted_run b',' refl s [] r (length c.rest)
              (behind b'"' ((doubled s ++ b'"' ∷ []) ++ r) c) k left long)
  | inr q ↦
      let text = csv_escape-unquoted s q in
      let long : length s < length c.rest + 1 =
        omega (arith, ap length (e ∙ ap (λ t. t ++ r) text), length-append s r) in
      rw text (
        plain_run b',' refl s [] r (length c.rest + 1) c (unquoted-AllPlain s q w) k
          (e ∙ ap (λ t. t ++ r) text) long)
]
