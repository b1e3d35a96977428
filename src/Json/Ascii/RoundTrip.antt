-- ===== src/Json/Ascii/RoundTrip.antt =====
-- utils/json_parsing.cc: `expectJsonStringAscii` reads back what `jsonEscape` writes.
use mathlib.Core.List.{append_assoc, append-nil}
use jml_base.Common.{
  ℕ, zero, suc, ◌+◌, ◌<◌, ltb, ◌≡◌, ◌==◌, inl, inr, refl, ap, ◌∙◌, arith, true, false, Bool-cases,
  List, [], ◌∷◌, ◌++◌, length, length-append,
}
use jml_base.Common.Result.{ok}
use jml_base.Parse.{Context, behind}
use jml_base.Parse.Moving.{over}
use jml_base.Parse.Matching.{expect_literal-cons, match_literal-cons, peek-cons, advance-cons}
use jml_base.Json.{is_plain}
use jml_base.Json.Escape.{
  is_lettered, letter_of, written_as, is_writable, unescaped-letter, letter_of-u,
}
use jml_base.Json.Strings.{skip-dense, written-plain, written-lettered, quoted}
use jml_base.Json.Ascii.{ascii_from, ascii_char, next_char, sequence, expect_json_string_ascii}

module _ (fuel : ℕ) (result : List ℕ) (c : Context) where
  ascii_from-quote :
      (r : List ℕ)
      → c.rest ≡ b'"' ∷ r
      → ascii_from (suc fuel) result c ≡ ok (result, behind b'"' r c)
  unfolding ascii_from
  ascii_from-quote r e = rw (match_literal-cons b'"' b'"' r c e) refl

  ascii_from-plain :
      (x : ℕ) (r : List ℕ)
      → c.rest ≡ x ∷ r
      → is_plain x ≡ true
      → ascii_from (suc fuel) result c ≡ ascii_from fuel (result ++ x ∷ []) (behind x r c)
  unfolding ascii_from ascii_char next_char
  ascii_from-plain x r e p =
      let quote : (x == b'"') ≡ false = ground arith in
      let slash : (x == b'\\') ≡ false = ground arith in
      let below : ltb x 127 ≡ true = ground arith in
      rw
        (
          match_literal-cons b'"' x r c e,
          quote,
          peek-cons c x r e,
          advance-cons c x r e,
          slash,
          below,
        )
        refl

  ascii_from-lettered :
      (x : ℕ) (r : List ℕ)
      → c.rest ≡ b'\\' ∷ letter_of x ∷ r
      → is_lettered x ≡ true
      → ascii_from (suc fuel) result c
        ≡ ascii_from fuel
            (result ++ x ∷ [])
            (behind (letter_of x) r (behind b'\\' (letter_of x ∷ r) c))
  unfolding ascii_from ascii_char next_char sequence
  ascii_from-lettered x r e l =
      let y = letter_of x in
      let c' = behind b'\\' (y ∷ r) c in
      let below : ltb x 127 ≡ true = ground arith in
      rw
        (
          match_literal-cons b'"' b'\\' (y ∷ r) c e,
          peek-cons c b'\\' (y ∷ r) e,
          advance-cons c b'\\' (y ∷ r) e,
          peek-cons c' y r refl,
          advance-cons c' y r refl,
          letter_of-u x l,
          unescaped-letter x l,
          below,
        )
        refl

-- Behind the opening quote.
ascii_run :
    (xs acc r : List ℕ) (fuel : ℕ) (c : Context)
    → is_writable xs ≡ true
    → c.rest ≡ written_as xs ++ b'"' ∷ r
    → length (written_as xs) < fuel
    → ascii_from fuel acc c ≡ ok (acc ++ xs, over (written_as xs ++ b'"' ∷ []) r c)
unfolding is_writable written_as over
ascii_run xs acc r zero c w e f = absurd (omega arith)
ascii_run [] acc r (suc fuel) c w e f = rw (append-nil acc) (ascii_from-quote fuel acc c r e)
ascii_run (x ∷ xs) acc r (suc fuel) c w e f = elim (Bool-cases (is_plain x)) [
  | inl p ↦
      let text = written-plain x xs p in
      let left = append_assoc (written_as xs) (b'"' ∷ []) r in
      ascii_from-plain fuel acc c x (written_as xs ++ b'"' ∷ r) (e ∙ ap (λ t. t ++ b'"' ∷ r) text) p
      ∙ ascii_run xs (acc ++ x ∷ []) r fuel (behind x (written_as xs ++ b'"' ∷ r) c) (ground arith)
          refl (omega (arith, ap length text))
      ∙ rw (append_assoc acc (x ∷ []) xs, p, left)
  | inr p ↦
      let lettered : is_lettered x ≡ true = ground arith in
      let text = written-lettered x xs p in
      let left = append_assoc (written_as xs) (b'"' ∷ []) r in
      ascii_from-lettered fuel acc c x (written_as xs ++ b'"' ∷ r)
        (e ∙ ap (λ t. t ++ b'"' ∷ r) text) lettered
      ∙ ascii_run xs (acc ++ x ∷ []) r fuel
          (behind (letter_of x) (written_as xs ++ b'"' ∷ r)
            (behind b'\\' (letter_of x ∷ written_as xs ++ b'"' ∷ r) c))
          (ground arith) refl (omega (arith, ap length text))
      ∙ rw (append_assoc acc (x ∷ []) xs, p, left)
]

-- A string that `jsonEscape` can write is read back by `expectJsonStringAscii`.
pub expect_json_string_ascii-quoted :
    (s r : List ℕ) (c : Context)
    → is_writable s ≡ true
    → c.rest ≡ quoted s ++ r
    → expect_json_string_ascii c ≡ ok (s, over (quoted s) r c)
unfolding expect_json_string_ascii quoted over
expect_json_string_ascii-quoted s r c w e =
    let left = append_assoc (written_as s) (b'"' ∷ []) r in
    let c2 = behind b'"' ((written_as s ++ b'"' ∷ []) ++ r) c in
    let long : length (written_as s) < length ((written_as s ++ b'"' ∷ []) ++ r) + 1 = omega (
      arith,
      length-append (written_as s ++ b'"' ∷ []) r,
      length-append (written_as s) (b'"' ∷ []),
    ) in
    rw
      (
        skip-dense b'"' ((written_as s ++ b'"' ∷ []) ++ r) c e refl,
        expect_literal-cons b'"' ((written_as s ++ b'"' ∷ []) ++ r) c e,
      )
      (ascii_run s [] r (length ((written_as s ++ b'"' ∷ []) ++ r) + 1) c2 w left long)
