-- ===== src/Json/Ascii.antt =====
-- utils/json_parsing.h and utils/json_parsing.cc: ASCII strings, `null` and Booleans.
pub mod RoundTrip
use jml_base.Common.{
  ℕ, zero, suc, ◌+◌, ◌-◌, ◌%◌, ◌^◌, ltb, leb, ◌==◌, if◌then◌else◌, Bool, true, false, not, Option,
  none, some, List, [], ◌∷◌, ◌++◌, length,
}
use jml_base.Common.Int.{ℤ, pos, negsuc, ltb_ℤ}
use jml_base.Common.Result.{Result, ok, err, ◌>>=◌, ◌>>◌, guard}
use jml_base.Parse.{
  Context, Error, eof, advance, peek, match_literal, expect_literal, match_literal_str, out_of_fuel,
  expected, wrong_length, invalid_character,
}
use jml_base.Parse.Numbers.{expect_int}
use jml_base.Json.{skip_json_whitespace, unescaped}

abbrev some_char : Option ℕ → Context → Result Error (ℤ × Context)
some_char none c = err invalid_character
some_char (some x) c = ok (pos x, c)

-- What follows a backslash; the number after `u` is any `int`.
sequence : Context → Result Error ((ℤ × Bool) × Context)
sequence c = do
  y ← peek c
  c' ← advance c
  (if y == b'u'
      then (do r ← expect_int (negsuc (2 ^ 31 - 2)) (pos (2 ^ 31 - 1)) c'; ok ((r.0, true), r.1))
      else (do r ← some_char (unescaped y) c'; ok ((r.0, false), r.1)))

-- The next character; the flag is whether it was a number.
next_char : Context → Result Error ((ℤ × Bool) × Context)
unfolding sequence
next_char c = do
  x ← peek c
  c' ← advance c
  (if x == b'\\' then sequence c' else ok ((pos x, false), c'))

-- `c < 0 || c >= 127`, behind the test of a number for 8 bits.
abbrev ascii : (ℤ × Bool) × Context → Result Error (ℕ × Context)
ascii ((negsuc n, coded), c) = err invalid_character
ascii ((pos n, coded), c) = guard (ltb n 127) invalid_character >> ok (n, c)

ascii_char : Context → Result Error (ℕ × Context)
unfolding next_char
ascii_char c = do r ← next_char c; ascii r

-- The loop of `expectJsonStringAscii`.
pub ascii_from : ℕ → List ℕ → Context → Result Error (List ℕ × Context)
unfolding ascii_char
ascii_from zero result c = err out_of_fuel
ascii_from (suc fuel) result c =
    let (quote, c1) = match_literal b'"' c in
    let more = (do r ← ascii_char c; ascii_from fuel (result ++ r.0 ∷ []) r.1) in
    if quote then ok (result, c1) else more

pub expect_json_string_ascii : Context → Result Error (List ℕ × Context)
unfolding ascii_from
expect_json_string_ascii c = do
  c1 ← skip_json_whitespace c
  c2 ← expect_literal b'"' c1
  ascii_from (length c2.rest + 1) [] c2

-- The same into a buffer with room for `size` characters; `none` is -1.
ascii_within : ℕ → ℕ → List ℕ → Context → Result Error (Option (List ℕ) × Context)
unfolding ascii_char
ascii_within size zero result c = err out_of_fuel
ascii_within size (suc fuel) result c =
    let (quote, c1) = match_literal b'"' c in
    let more = (do
      r ← ascii_char c
      (let rest = ascii_within size fuel (result ++ r.0 ∷ []) r.1 in
          if length result == size then ok (none, r.1) else rest)) in
    if quote then ok (some result, c1) else more

pub expect_json_string_ascii_into : ℕ → Context → Result Error (Option (List ℕ) × Context)
unfolding ascii_within
expect_json_string_ascii_into max_length c = do
  c1 ← skip_json_whitespace c
  c2 ← expect_literal b'"' c1
  ascii_within ((max_length + (2 ^ 64 - 1)) % 2 ^ 64) (length c2.rest + 1) [] c2

-- `if (c < ' ' || c >= 127) c = sub;`
abbrev permitted : ℕ → (ℤ × Bool) × Context → ℕ
permitted sub ((negsuc n, coded), c) = sub
permitted sub ((pos n, coded), c) = if ltb n b' ' then sub else if leb 127 n then sub else n

permissive_from : ℕ → ℕ → List ℕ → Context → Result Error (List ℕ × Context)
unfolding next_char
permissive_from sub zero result c = err out_of_fuel
permissive_from sub (suc fuel) result c =
    let (quote, c1) = match_literal b'"' c in
    let more = (do
      r ← next_char c
      permissive_from sub fuel (result ++ permitted sub r ∷ []) r.1) in
    if quote then ok (result, c1) else more

pub expect_json_string_ascii_permissive : ℕ → Context → Result Error (List ℕ × Context)
unfolding permissive_from
expect_json_string_ascii_permissive sub c = do
  c1 ← skip_json_whitespace c
  c2 ← expect_literal b'"' c1
  permissive_from sub (length c2.rest + 1) [] c2

abbrev pub null_text : List ℕ
null_text = b'n' ∷ b'u' ∷ b'l' ∷ b'l' ∷ []

pub match_json_null : Context → Result Error (Bool × Context)
match_json_null c = do c1 ← skip_json_whitespace c; ok (match_literal_str null_text c1)

pub expect_json_bool : Context → Result Error (Bool × Context)
expect_json_bool c =
    let (yes_text, c1) = match_literal_str (b't' ∷ b'r' ∷ b'u' ∷ b'e' ∷ []) c in
    let (no_text, c2) = match_literal_str (b'f' ∷ b'a' ∷ b'l' ∷ b's' ∷ b'e' ∷ []) c1 in
    if yes_text then ok (true, c1) else if no_text then ok (false, c2) else err expected
