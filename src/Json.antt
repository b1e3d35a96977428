-- ===== src/Json.antt =====
-- utils/json_parsing.h and utils/json_parsing.cc: strings, arrays and objects of JSON, read from a
-- `Parse_Context`, and the escape of a string. A byte of 128 and more is a negative `char` in the code.
-- The JSON numbers are not modelled: they use `strtod` and `strtoull`.
pub mod Ascii
pub mod Containers
pub mod Escape
pub mod Strings
mod Tests
use jml_base.Common.{
  ℕ, zero, suc, ◌+◌, ◌-◌, ◌*◌, ◌%◌, ◌^◌, ltb, leb, ◌==◌, ◌&&◌, ◌||◌, if◌then◌else◌, Bool, true,
  false, not, Option, none, some, List, [], ◌∷◌, ◌++◌, length,
}
use jml_base.Common.Int.{ℤ, pos, negsuc}
use jml_base.Common.Result.{Result, ok, err, ◌>>=◌, ◌>>◌, guard}
use jml_base.Parse.{
  Context, Error, eof, advance, peek, match_literal, expect_literal, match_literal_str, match_eol,
  match_whitespace, out_of_fuel, invalid_character, no_room,
}
use jml_base.Parse.Numbers.{expect_int}

-- `while (!context.eof() && (context.match_whitespace() || context.match_eol()));`
skip_loop : ℕ → Context → Result Error Context
skip_loop zero c = err out_of_fuel
skip_loop (suc fuel) c =
    let (blank, c') = match_whitespace c in
    let again = skip_loop fuel c' in
    let ended = (do
      r ← match_eol true c'
      (let next = skip_loop fuel r.1 in if r.0 then next else ok r.1)) in
    if eof c then ok c else if blank then again else ended

-- The characters that the first test sends away.
abbrev pub is_dense : ℕ → Bool
is_dense x =
    (ltb b' ' x && ltb x 128)
    || (not (x == b' ') && not (x == b'\t') && not (x == b'\n') && not (x == b'\r'))

pub skip_json_whitespace : Context → Result Error Context
unfolding skip_loop
skip_json_whitespace c =
    let loop = skip_loop (length c.rest + 1) c in
    if eof c then loop else (do x ← peek c; (if is_dense x then ok c else loop))

-- `jsonEscapeCore`: the characters that stay, and the letter that follows a backslash.
abbrev pub is_plain : ℕ → Bool
is_plain x = leb b' ' x && ltb x 127 && not (x == b'"') && not (x == b'\\')

abbrev pub letter : ℕ → Result Error ℕ
letter x =
    if x == b'\t'
    then ok b't'
    else if x == b'\n'
    then ok b'n'
    else if x == b'\r'
    then ok b'r'
    else if x == 12
    then ok b'f'
    else if x == 8
    then ok b'b'
    else if (x == b'/') || (x == b'\\') || (x == b'"')
    then ok x
    else err invalid_character

-- The loop, with what it has written to a buffer of `size` bytes; `none` is the null pointer.
pub escape_from : ℕ → List ℕ → List ℕ → Result Error (Option (List ℕ))
escape_from size [] out = ok (some out)
escape_from size (x ∷ xs) out =
    let kept = escape_from size xs (out ++ x ∷ []) in
    let changed = (do y ← letter x; escape_from size xs (out ++ b'\\' ∷ y ∷ [])) in
    if leb size (length out + 4) then ok none else if is_plain x then kept else changed

abbrev written : Option (List ℕ) → Result Error (List ℕ)
written none = err no_room
written (some out) = ok out

pub json_escape : List ℕ → Result Error (List ℕ)
unfolding escape_from
json_escape str = do r ← escape_from (length str * 4 + 4) str []; written r

-- The character for the letter behind a backslash.
abbrev pub unescaped : ℕ → Option ℕ
unescaped y =
    if y == b't'
    then some b'\t'
    else if y == b'n'
    then some b'\n'
    else if y == b'r'
    then some b'\r'
    else if y == b'f'
    then some 12
    else if y == b'b'
    then some 8
    else if (y == b'/') || (y == b'\\') || (y == b'"')
    then some y
    else none

abbrev int_max : ℤ
int_max = pos (2 ^ 31 - 1)

abbrev code_char : ℤ → Option ℕ
code_char (pos n) = if ltb 255 n then none else some n
code_char (negsuc n) = none

-- What follows a backslash, in `matchJsonString`: a letter, or `u` and a number, which is read in decimal.
-- `none` makes the match fail.
pub escape_sequence : Context → Result Error (Option ℕ × Context)
escape_sequence c = do
  y ← peek c
  c' ← advance c
  (if y == b'u'
      then (do r ← expect_int (negsuc (2 ^ 31 - 2)) int_max c'; ok (code_char r.0, r.1))
      else ok (unescaped y, c'))

abbrev matching :
    (List ℕ → Context → Result Error (Option (List ℕ) × Context))
    → List ℕ
    → Option ℕ × Context
    → Result Error (Option (List ℕ) × Context)
matching go result (none, c) = ok (none, c)
matching go result (some x, c) = go (result ++ x ∷ []) c

-- The loop of `matchJsonString`.
pub string_from : ℕ → List ℕ → Context → Result Error (Option (List ℕ) × Context)
unfolding escape_sequence
string_from zero result c = err out_of_fuel
string_from (suc fuel) result c =
    let go = λ (s : List ℕ) (d : Context). string_from fuel s d in
    let (quote, c1) = match_literal b'"' c in
    let more = (do
      x ← peek c
      c' ← advance c
      (let kept = go (result ++ x ∷ []) c' in
          let sequence = (do r ← escape_sequence c'; matching go result r) in
          if not (x == b'\\') then kept else sequence)) in
    if quote then ok (some result, c1) else if eof c then ok (none, c) else more

-- The `Revert_Token`.
abbrev pub revert_none {ℓ} : {A : Type ℓ} → Context → Option A × Context → Option A × Context
revert_none saved (none, c) = (none, saved)
revert_none saved (some a, c) = (some a, c)

pub match_json_string : Context → Result Error (Option (List ℕ) × Context)
unfolding skip_json_whitespace string_from
match_json_string c = do
  c1 ← skip_json_whitespace c
  let (quote, c2) = match_literal b'"' c1
  let string = (do r ← string_from (length c2.rest + 1) [] c2; ok (revert_none c r))
  if quote then string else ok (none, c)
