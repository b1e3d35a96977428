-- ===== src/Csv.antt =====
-- utils/csv.cc: fields and rows of comma separated values, read from a `Parse_Context`, and the escape
-- of a field.
pub mod Fields
pub mod Ending
pub mod RoundTrip
pub mod Rows
mod Tests
use jml_base.Common.{
  ℕ, zero, suc, ◌+◌, ◌==◌, ◌&&◌, ◌||◌, if◌then◌else◌, Bool, true, false, not, List, [], ◌∷◌, ◌++◌,
  length,
}
use jml_base.Common.Int.{ℤ, pos, negsuc}
use jml_base.Common.Result.{Result, ok, err, ◌>>=◌, ◌>>◌, guard}
use jml_base.Parse.{
  Context, Error, eof, advance, peek, match_literal, match_literal_str, match_eol, match_whitespace,
  invalid_end, embedded_quote, open_quote, wrong_length, out_of_fuel,
}

abbrev pub is_line_end : ℕ → Bool
is_line_end x = x == b'\n' || x == b'\r'

-- `for (i = 0; i < 20; ++i) cerr << *context++;`, and the exception that shows the next character.
skip_and_throw : ℕ → Context → Result Error ((List ℕ × Bool) × Context)
skip_and_throw zero c = do _ ← peek c; err invalid_end
skip_and_throw (suc n) c = do c' ← advance c; skip_and_throw n c'

-- Behind a closing quote: the field, whether another follows, and the context.
pub close : ℕ → List ℕ → Context → Result Error ((List ℕ × Bool) × Context)
unfolding skip_and_throw
close separator result c =
    let (separated, c') = match_literal separator c in
    let ended = (do
      x ← peek c
      (if is_line_end x then ok ((result, false), c) else skip_and_throw 20 c)) in
    if eof c then ok ((result, false), c) else if separated then ok ((result, true), c') else ended

-- The loop of `expect_csv_field`.
pub field : ℕ → ℕ → Bool → List ℕ → Context → Result Error ((List ℕ × Bool) × Context)
field zero separator quoted result c = err out_of_fuel
field (suc fuel) separator quoted result c =
    let more = (do x ← peek c; c' ← advance c; field fuel separator quoted (result ++ x ∷ []) c') in
    let (doubled, c2) = match_literal_str (b'"' ∷ b'"' ∷ []) c in
    let (quote, c1) = match_literal b'"' c in
    let (separated, cs) = match_literal separator c in
    let another_quote = field fuel separator true (result ++ b'"' ∷ []) c2 in
    let opened = field fuel separator true result c1 in
    let inside =
      if doubled then another_quote else if quote then close separator result c1 else more in
    let plain = (do x ← peek c; (if is_line_end x then ok ((result, false), c) else more)) in
    let outside =
      if quote
      then (if length result == 0 then opened else err embedded_quote)
      else if separated
      then ok ((result, true), cs)
      else plain in
    if eof c
    then (if quoted then err open_quote else ok ((result, false), c))
    else if quoted
    then inside
    else outside

-- `expect_csv_field`; the flag is `another`.
pub expect_csv_field : ℕ → Context → Result Error ((List ℕ × Bool) × Context)
expect_csv_field separator c = field (length c.rest + 1) separator false [] c

-- The loop of `expect_csv_row`.
pub row : ℕ → ℕ → Bool → List (List ℕ) → Context → Result Error (List (List ℕ) × Context)
row zero separator another result c = err out_of_fuel
row (suc fuel) separator another result c =
    let read = λ (c : Context). (do
      r ← expect_csv_field separator c
      row fuel separator r.0.1 (result ++ r.0.0 ∷ []) r.1) in
    let unless_eol = (do r ← match_eol true c; (if r.0 then ok (result, r.1) else read r.1)) in
    if another then read c else if eof c then ok (result, c) else unless_eol

-- `length != -1 && result.size() != length`.
unfoldable pub right_length : ℤ → ℕ → Bool
right_length (pos k) n = n == k
right_length (negsuc zero) n = true
right_length (negsuc (suc k)) n = false

-- `reserve` throws on a length below -1.
unfoldable pub reservable : ℤ → Bool
reservable (pos k) = true
reservable (negsuc k) = k == 0

pub expect_csv_row : ℕ → ℤ → ℕ → Context → Result Error (List (List ℕ) × Context)
unfolding right_length reservable
expect_csv_row fuel wanted separator c = do
  let blanks = match_whitespace c
  guard (reservable wanted) wrong_length
  r ← row fuel separator false [] blanks.1
  guard (right_length wanted (length r.0)) wrong_length
  ok r

-- `csv_escape`.
pub contains : ℕ → List ℕ → Bool
contains x [] = false
contains x (y ∷ ys) = y == x || contains x ys

pub doubled : List ℕ → List ℕ
doubled [] = []
doubled (x ∷ xs) = (if x == b'"' then b'"' ∷ b'"' ∷ [] else x ∷ []) ++ doubled xs

pub csv_escape : List ℕ → List ℕ
csv_escape s =
    if not (contains b'"' s) && not (contains b'\n' s) && not (contains b',' s)
    then s
    else b'"' ∷ doubled s ++ b'"' ∷ []
