-- ===== src/Json/Strings.antt =====
-- utils/json_parsing.cc: `matchJsonString` reads back what `jsonEscape` writes.
use mathlib.Core.List.{append_assoc, append-nil}
use jml_base.Common.{
  ℕ, zero, suc, ◌+◌, ◌<◌, ◌≡◌, ◌==◌, inl, inr, refl, ap, ◌∙◌, arith, true, false, Bool-cases, some,
  List, [], ◌∷◌, ◌++◌, length, length-append,
}
use jml_base.Common.Result.{ok}
use jml_base.Parse.{Context, behind}
use jml_base.Parse.Moving.{over}
use jml_base.Parse.Matching.{match_literal-cons, eof-cons, peek-cons, advance-cons}
use jml_base.Json.{
  is_plain, is_dense, skip_json_whitespace, escape_sequence, string_from, match_json_string,
}
use jml_base.Json.Escape.{
  is_lettered, letter_of, written_as, is_writable, unescaped-letter, letter_of-u,
}

-- What is no blank is not skipped.
pub skip-dense :
    (x : ℕ) (r : List ℕ) (c : Context)
    → c.rest ≡ x ∷ r
    → is_dense x ≡ true
    → skip_json_whitespace c ≡ ok c
unfolding skip_json_whitespace
skip-dense x r c e h = rw (eof-cons c x r e, peek-cons c x r e, h) refl

module _ (fuel : ℕ) (result : List ℕ) (c : Context) where
  string_from-quote :
      (r : List ℕ)
      → c.rest ≡ b'"' ∷ r
      → string_from (suc fuel) result c ≡ ok (some result, behind b'"' r c)
  unfolding string_from
  string_from-quote r e = rw (match_literal-cons b'"' b'"' r c e) refl

  string_from-plain :
      (x : ℕ) (r : List ℕ)
      → c.rest ≡ x ∷ r
      → is_plain x ≡ true
      → string_from (suc fuel) result c ≡ string_from fuel (result ++ x ∷ []) (behind x r c)
  unfolding string_from
  string_from-plain x r e p =
      let quote : (x == b'"') ≡ false = ground arith in
      let slash : (x == b'\\') ≡ false = ground arith in
      rw
        (
          match_literal-cons b'"' x r c e,
          quote,
          eof-cons c x r e,
          peek-cons c x r e,
          advance-cons c x r e,
          slash,
        )
        refl

  string_from-lettered :
      (x : ℕ) (r : List ℕ)
      → c.rest ≡ b'\\' ∷ letter_of x ∷ r
      → is_lettered x ≡ true
      → string_from (suc fuel) result c
        ≡ string_from fuel
            (result ++ x ∷ [])
            (behind (letter_of x) r (behind b'\\' (letter_of x ∷ r) c))
  unfolding string_from escape_sequence
  string_from-lettered x r e l =
      let y = letter_of x in
      let c' = behind b'\\' (y ∷ r) c in
      rw
        (
          match_literal-cons b'"' b'\\' (y ∷ r) c e,
          eof-cons c b'\\' (y ∷ r) e,
          peek-cons c b'\\' (y ∷ r) e,
          advance-cons c b'\\' (y ∷ r) e,
          peek-cons c' y r refl,
          advance-cons c' y r refl,
          letter_of-u x l,
          unescaped-letter x l,
        )
        refl

pub written-plain :
    (x : ℕ) (xs : List ℕ) → is_plain x ≡ true → written_as (x ∷ xs) ≡ x ∷ written_as xs
unfolding written_as
written-plain x xs p = rw p refl

pub written-lettered :
    (x : ℕ) (xs : List ℕ)
    → is_plain x ≡ false
    → written_as (x ∷ xs) ≡ b'\\' ∷ letter_of x ∷ written_as xs
unfolding written_as
written-lettered x xs p = rw p refl

-- Behind the opening quote.
string_run :
    (xs acc r : List ℕ) (fuel : ℕ) (c : Context)
    → is_writable xs ≡ true
    → c.rest ≡ written_as xs ++ b'"' ∷ r
    → length (written_as xs) < fuel
    → string_from fuel acc c ≡ ok (some (acc ++ xs), over (written_as xs ++ b'"' ∷ []) r c)
unfolding is_writable written_as over
string_run xs acc r zero c w e f = absurd (omega arith)
string_run [] acc r (suc fuel) c w e f = rw (append-nil acc) (string_from-quote fuel acc c r e)
string_run (x ∷ xs) acc r (suc fuel) c w e f = elim (Bool-cases (is_plain x)) [
  | inl p ↦
      let text = written-plain x xs p in
      let left = append_assoc (written_as xs) (b'"' ∷ []) r in
      string_from-plain fuel acc c x (written_as xs ++ b'"' ∷ r) (e ∙ ap (λ t. t ++ b'"' ∷ r) text)
        p
      ∙ string_run xs (acc ++ x ∷ []) r fuel (behind x (written_as xs ++ b'"' ∷ r) c) (ground arith)
          refl (omega (arith, ap length text))
      ∙ rw (append_assoc acc (x ∷ []) xs, p, left)
  | inr p ↦
      let lettered : is_lettered x ≡ true = ground arith in
      let text = written-lettered x xs p in
      let left = append_assoc (written_as xs) (b'"' ∷ []) r in
      string_from-lettered fuel acc c x (written_as xs ++ b'"' ∷ r)
        (e ∙ ap (λ t. t ++ b'"' ∷ r) text) lettered
      ∙ string_run xs (acc ++ x ∷ []) r fuel
          (behind (letter_of x) (written_as xs ++ b'"' ∷ r)
            (behind b'\\' (letter_of x ∷ written_as xs ++ b'"' ∷ r) c))
          (ground arith) refl (omega (arith, ap length text))
      ∙ rw (append_assoc acc (x ∷ []) xs, p, left)
]

-- The text of a string, with its quotes.
unfoldable pub quoted : List ℕ → List ℕ
quoted s = b'"' ∷ written_as s ++ b'"' ∷ []

-- A string that `jsonEscape` can write is read back by `matchJsonString`, with the text that follows left.
pub match_json_string-quoted :
    (s r : List ℕ) (c : Context)
    → is_writable s ≡ true
    → c.rest ≡ quoted s ++ r
    → match_json_string c ≡ ok (some s, over (quoted s) r c)
unfolding match_json_string quoted over
match_json_string-quoted s r c w e =
    let left = append_assoc (written_as s) (b'"' ∷ []) r in
    let c2 = behind b'"' ((written_as s ++ b'"' ∷ []) ++ r) c in
    let long : length (written_as s) < length ((written_as s ++ b'"' ∷ []) ++ r) + 1 = omega (
      arith,
      length-append (written_as s ++ b'"' ∷ []) r,
      length-append (written_as s) (b'"' ∷ []),
    ) in
    rw
      (
        skip-dense b'"' ((written_as s ++ b'"' ∷ []) ++ r) c e refl,
        match_literal-cons b'"' b'"' ((written_as s ++ b'"' ∷ []) ++ r) c e,
        string_run s [] r (length ((written_as s ++ b'"' ∷ []) ++ r) + 1) c2 w left long,
      )
      refl
