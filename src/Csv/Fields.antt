-- ===== src/Csv/Fields.antt =====
-- utils/csv.cc: what one round of the loop of `expect_csv_field` does, by the character that comes.
use jml_base.Common.{
  ℕ, suc, ◌≡◌, ◌⊎◌, ◌==◌, if◌then◌else◌, arith, Bool, true, false, Bool-cases, inl, inr, List, [],
  ◌∷◌, ◌++◌, length,
}
use jml_base.Common.Result.{ok, err}
use jml_base.Parse.{Context, embedded_quote, behind, open_quote}
use jml_base.Parse.Matching.{
  match_literal-cons, eof-nil, eof-cons, peek-cons, advance-cons, match_literal_str-two,
  match_literal_str-one, match_literal_str-both, NotStart,
}
use jml_base.Csv.{field, close, is_line_end}

module _ (separator fuel : ℕ) (result : List ℕ) (c : Context) where
  pub field-end :
      (quoted : Bool)
      → c.rest ≡ []
      → field (suc fuel) separator quoted result c
        ≡ (if quoted then err open_quote else ok ((result, false), c))
  unfolding field
  field-end quoted e = rw (eof-nil c e)

  -- An ordinary character outside quotes.
  pub field-plain :
      (x : ℕ) (r : List ℕ)
      → c.rest ≡ x ∷ r
      → (x == b'"') ≡ false
      → (x == separator) ≡ false
      → is_line_end x ≡ false
      → field (suc fuel) separator false result c
        ≡ field fuel separator false (result ++ x ∷ []) (behind x r c)
  unfolding field
  field-plain x r e q s l = rw (
    eof-cons c x r e,
    match_literal-cons b'"' x r c e,
    q,
    match_literal-cons separator x r c e,
    s,
    peek-cons c x r e,
    l,
    advance-cons c x r e,
  )

  -- The separator and the end of the line, outside quotes.
  pub field-separator :
      (r : List ℕ)
      → c.rest ≡ separator ∷ r
      → (separator == b'"') ≡ false
      → field (suc fuel) separator false result c ≡ ok ((result, true), behind separator r c)
  unfolding field
  field-separator r e q =
      let same : (separator == separator) ≡ true = ground arith in
      rw (
        eof-cons c separator r e,
        match_literal-cons b'"' separator r c e,
        q,
        match_literal-cons separator separator r c e,
        same,
      )

  pub field-line_end :
      (x : ℕ) (r : List ℕ)
      → c.rest ≡ x ∷ r
      → (x == b'"') ≡ false
      → (x == separator) ≡ false
      → is_line_end x ≡ true
      → field (suc fuel) separator false result c ≡ ok ((result, false), c)
  unfolding field
  field-line_end x r e q s l = rw (
    eof-cons c x r e,
    match_literal-cons b'"' x r c e,
    q,
    match_literal-cons separator x r c e,
    s,
    peek-cons c x r e,
    l,
  )

  -- A quote at the start.
  pub field-open :
      (r : List ℕ)
      → c.rest ≡ b'"' ∷ r
      → length result ≡ 0
      → field (suc fuel) separator false result c
        ≡ field fuel separator true result (behind b'"' r c)
  unfolding field
  field-open r e n =
      let nothing : (length result == 0) ≡ true = ground arith in
      rw (eof-cons c b'"' r e, match_literal-cons b'"' b'"' r c e, nothing)

  -- An ordinary character inside quotes, a doubled quote, and a closing one.
  pub field-inside :
      (x : ℕ) (r : List ℕ)
      → c.rest ≡ x ∷ r
      → (x == b'"') ≡ false
      → field (suc fuel) separator true result c
        ≡ field fuel separator true (result ++ x ∷ []) (behind x r c)
  unfolding field
  field-inside x r e q =
      let other : (b'"' == x) ≡ false = ground arith in
      rw (
        eof-cons c x r e,
        match_literal_str-two b'"' b'"' x r c e,
        other,
        match_literal-cons b'"' x r c e,
        q,
        peek-cons c x r e,
        advance-cons c x r e,
      )

  pub field-doubled :
      (r : List ℕ)
      → c.rest ≡ b'"' ∷ b'"' ∷ r
      → field (suc fuel) separator true result c
        ≡ field fuel separator true (result ++ b'"' ∷ []) (behind b'"' r (behind b'"' (b'"' ∷ r) c))
  unfolding field
  field-doubled r e = rw (eof-cons c b'"' (b'"' ∷ r) e, match_literal_str-both b'"' b'"' r c e)

  pub field-close :
      (r : List ℕ)
      → c.rest ≡ b'"' ∷ r
      → NotStart b'"' r
      → field (suc fuel) separator true result c ≡ close separator result (behind b'"' r c)
  unfolding field
  field-close r e h = rw (
    eof-cons c b'"' r e,
    match_literal_str-one b'"' b'"' r c e h,
    match_literal-cons b'"' b'"' r c e,
  )

-- What may come behind a field: the end of the text, the separator, or the end of the line.
abbrev pub Ends : ℕ → List ℕ → Type 0
Ends separator [] = Unit
Ends separator (x ∷ r) = (x ≡ separator) ⊎ (is_line_end x ≡ true)

-- The field `s` with what comes behind it: a separator is taken, and another field follows it.
unfoldable pub finish : ℕ → List ℕ → List ℕ → Context → (List ℕ × Bool) × Context
finish separator s [] c = ((s, false), c)
finish separator s (x ∷ r) c = if x == separator then ((s, true), behind x r c) else ((s, false), c)

pub close-Ends :
    (separator : ℕ) (s r : List ℕ) (c : Context)
    → c.rest ≡ r
    → Ends separator r
    → close separator s c ≡ ok (finish separator s r c)
unfolding close finish
close-Ends separator s [] c e h = rw (eof-nil c e)
close-Ends separator s (x ∷ r) c e h = elim (Bool-cases (x == separator)) [
  | inl t ↦ rw (eof-cons c x r e, match_literal-cons separator x r c e, t)
  | inr t ↦
      let line : is_line_end x ≡ true = ground arith in
      rw (eof-cons c x r e, match_literal-cons separator x r c e, t, peek-cons c x r e, line)
]

pub field-embedded :
    (separator fuel : ℕ) (result r : List ℕ) (c : Context)
    → c.rest ≡ b'"' ∷ r
    → (length result == 0) ≡ false
    → field (suc fuel) separator false result c ≡ err embedded_quote
unfolding field
field-embedded separator fuel result r c e n =
    rw (eof-cons c b'"' r e, match_literal-cons b'"' b'"' r c e, n)
