-- ===== src/Parse.antt =====
-- utils/parse_context.h and utils/parse_context.cc: the matchers of `Parse_Context`, on the text that is
-- left to read. A text is a list of bytes.
pub mod Moving
pub mod Matching
pub mod Numbers
pub mod Bounds
mod Tests
use jml_base.Common.{
  ℕ, zero, suc, ◌+◌, ◌-◌, ◌*◌, ltb, leb, ◌==◌, ◌&&◌, ◌||◌, if◌then◌else◌, Bool, true, false, not,
  List, [], ◌∷◌, ◌++◌, length,
}
use jml_base.Common.Result.{Result, ok, err, ◌>>=◌, ◌>>◌, guard}

-- `bad_access` is a read behind the end of the text and `overflow` that of a signed number, which C++
-- leaves undefined; the others are exceptions, by what they say.
pub data Error : Type 0 where
  unexpected_eof no_characters invalid_end embedded_quote open_quote wrong_length expected
        invalid_character no_room :
      Error
  bad_access overflow out_of_fuel : Error

pub record Context : Type 0 where
  pub rest : List ℕ
  pub line : ℕ
  pub col : ℕ
  pub ofs : ℕ

-- A memory region.
unfoldable pub context_of : List ℕ → Context
context_of text = record { rest = text; line = 1; col = 1; ofs = 0 }

is_end : List ℕ → Bool
is_end [] = true
is_end (x ∷ xs) = false

pub eof : Context → Bool
unfolding is_end
eof c = is_end c.rest

-- The context behind the character `x`, with `r` left.
abbrev pub behind : ℕ → List ℕ → Context → Context
behind x r c = record {
  rest = r;
  line = if x == b'\n' then c.line + 1 else c.line;
  col = if x == b'\n' then 1 else c.col + 1;
  ofs = c.ofs + 1;
}

advance_from : List ℕ → Context → Result Error Context
advance_from [] c = err unexpected_eof
advance_from (x ∷ r) c = ok (behind x r c)

-- `operator ++` and `operator *`.
pub advance : Context → Result Error Context
unfolding advance_from
advance c = advance_from c.rest c

peek_from : List ℕ → Result Error ℕ
peek_from [] = err unexpected_eof
peek_from (x ∷ r) = ok x

pub peek : Context → Result Error ℕ
unfolding peek_from
peek c = peek_from c.rest

-- `match_literal(char)`.
literal_char_from : ℕ → List ℕ → Context → Bool × Context
literal_char_from l [] c = (false, c)
literal_char_from l (x ∷ r) c = if x == l then (true, behind x r c) else (false, c)

pub match_literal : ℕ → Context → Bool × Context
unfolding literal_char_from
match_literal l c = literal_char_from l c.rest c

pub expect_literal : ℕ → Context → Result Error Context
expect_literal l c = let (matched, c') = match_literal l c in guard matched expected >> ok c'

-- A `Revert_Token` of the context `saved`, which is ignored where the match succeeds.
abbrev pub revert : Context → Bool × Context → Bool × Context
revert saved (true, c) = (true, c)
revert saved (false, c) = (false, saved)

-- The loop of `match_literal_str`.
pub literal_from : List ℕ → List ℕ → Context → Bool × Context
literal_from [] rest c = (true, c)
literal_from (s ∷ ss) [] c = (false, c)
literal_from (s ∷ ss) (x ∷ r) c =
    let next = literal_from ss r (behind x r c) in if s == x then next else (false, c)

pub match_literal_str : List ℕ → Context → Bool × Context
unfolding literal_from
match_literal_str s c = revert c (literal_from s c.rest c)

text_from : (ℕ → Bool) → List ℕ → Context → List ℕ × Context
text_from found [] c = ([], c)
text_from found (x ∷ r) c =
    let more = text_from found r (behind x r c) in if found x then ([], c) else (x ∷ more.0, more.1)

-- `match_text` with a test for the end.
pub match_text : (ℕ → Bool) → Context → List ℕ × Context
unfolding text_from
match_text found c = text_from found c.rest c

-- `expect_text(char, bool)`.
pub expect_text : ℕ → Bool → Context → Result Error (List ℕ × Context)
unfolding is_end
expect_text delimiter allow_empty c =
    let r = match_text (λ x. x == delimiter) c in
    guard (not (is_end r.0 && not allow_empty)) expected >> ok r

abbrev pub is_blank : ℕ → Bool
is_blank x = x == b' ' || x == b'\t'

blanks_from : Bool → List ℕ → Context → Bool × Context
blanks_from result [] c = (result, c)
blanks_from result (x ∷ r) c =
    let more = blanks_from true r (behind x r c) in if is_blank x then more else (result, c)

pub match_whitespace : Context → Bool × Context
unfolding blanks_from
match_whitespace c = blanks_from false c.rest c

pub expect_whitespace : Context → Result Error Context
expect_whitespace c = let (matched, c') = match_whitespace c in guard matched expected >> ok c'

-- What follows a line feed: a carriage return is taken with it.
after_feed : Bool → List ℕ → Context → Result Error (Bool × Context)
after_feed eof_is_eol [] c = guard eof_is_eol bad_access >> ok (true, c)
after_feed eof_is_eol (x ∷ r) c = ok (true, if x == b'\r' then behind x r c else c)

eol_from : Bool → List ℕ → Context → Result Error (Bool × Context)
eol_from eof_is_eol [] c = guard eof_is_eol bad_access >> ok (true, c)
eol_from eof_is_eol (x ∷ r) c =
    if x == b'\n'
    then after_feed eof_is_eol r (behind x r c)
    else if not (x == b'\r')
    then ok (false, c)
    else ok (match_literal_str (b'\r' ∷ b'\n' ∷ []) c)

pub match_eol : Bool → Context → Result Error (Bool × Context)
unfolding eol_from after_feed
match_eol eof_is_eol c = eol_from eof_is_eol c.rest c

pub expect_eol : Context → Result Error Context
expect_eol c = do r ← match_eol true c; guard r.0 expected; ok r.1

pub expect_eof : Context → Result Error (Unit {0})
expect_eof c = guard (eof c) expected

-- `match_line`, with the line where there is one.
pub match_line : Context → Result Error ((Bool × List ℕ) × Context)
match_line c =
    let text = match_text (λ x. x == b'\n') c in
    let line = (do r ← match_eol true text.1; ok ((true, text.0), r.1)) in
    if eof c then ok ((false, []), c) else line

pub expect_line : Context → Result Error (List ℕ × Context)
expect_line c = do r ← match_line c; guard r.0.0 expected; ok (r.0.1, r.1)
