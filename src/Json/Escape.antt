-- ===== src/Json/Escape.antt =====
-- utils/json_parsing.cc: what `jsonEscape` writes, and that its buffer has room.
use mathlib.Core.List.{append_assoc, append-nil}
use jml_base.Common.{
  ℕ, ◌+◌, ◌*◌, ◌≤◌, leb, ◌≡◌, ◌==◌, ◌&&◌, ◌||◌, if◌then◌else◌, inl, inr, refl, arith, Bool, true,
  false, Bool-cases, some, List, [], ◌∷◌, ◌++◌, length, length-append,
}
use jml_base.Common.Result.{ok, err}
use jml_base.Parse.{invalid_character}
use jml_base.Json.{is_plain, letter, escape_from, json_escape, unescaped}

-- A character that is written after a backslash.
abbrev pub is_lettered : ℕ → Bool
is_lettered x =
    x == b'\t' || x == b'\n' || x == b'\r' || x == 12 || x == 8 || x == b'\\' || x == b'"'

-- The letter.
abbrev pub letter_of : ℕ → ℕ
letter_of x =
    if x == b'\t'
    then b't'
    else if x == b'\n'
    then b'n'
    else if x == b'\r'
    then b'r'
    else if x == 12
    then b'f'
    else if x == 8
    then b'b'
    else x

letter-lettered : (x : ℕ) → is_lettered x ≡ true → letter x ≡ ok (letter_of x)
letter-lettered x h = ground arith

letter-other :
    (x : ℕ) → is_plain x ≡ false → is_lettered x ≡ false → letter x ≡ err invalid_character
letter-other x h k = ground arith

pub unescaped-letter : (x : ℕ) → is_lettered x ≡ true → unescaped (letter_of x) ≡ some x
unescaped-letter x h = ground arith

pub letter_of-u : (x : ℕ) → is_lettered x ≡ true → (letter_of x == b'u') ≡ false
letter_of-u x h = ground arith

-- The text written for a character, and for a string.
unfoldable pub written_as : List ℕ → List ℕ
written_as [] = []
written_as (x ∷ xs) = (if is_plain x then x ∷ [] else b'\\' ∷ letter_of x ∷ []) ++ written_as xs

unfoldable pub is_writable : List ℕ → Bool
is_writable [] = true
is_writable (x ∷ xs) = (is_plain x || is_lettered x) && is_writable xs

escape_from-eq :
    (size : ℕ) (xs out : List ℕ)
    → length out + 4 * length xs + 4 ≤ size
    → escape_from size xs out
      ≡ (if is_writable xs then ok (some (out ++ written_as xs)) else err invalid_character)
unfolding escape_from is_writable written_as
escape_from-eq size [] out h = rw (append-nil out) refl
escape_from-eq size (x ∷ xs) out h =
    let room : leb size (length out + 4) ≡ false = ground arith in
    elim (Bool-cases (is_plain x)) [
      | inl p ↦
          let rest =
            escape_from-eq size xs (out ++ x ∷ []) (omega (arith, length-append out (x ∷ []))) in
          let text = append_assoc out (x ∷ []) (written_as xs) in rw (room, p, rest, text) refl
      | inr p ↦ elim (Bool-cases (is_lettered x)) [
        | inl l ↦
            let y = letter_of x in
            let rest =
              escape_from-eq size xs (out ++ b'\\' ∷ y ∷ [])
                (omega (arith, length-append out (b'\\' ∷ y ∷ []))) in
            let text = append_assoc out (b'\\' ∷ y ∷ []) (written_as xs) in
            rw (room, p, letter-lettered x l, l, rest, text) refl
        | inr l ↦ rw (room, p, letter-other x p l, l) refl
      ]
    ]

-- `jsonEscape` never runs out of its buffer: it returns the string with a backslash and a letter for each
-- quote, backslash and named control character where every other character is printable ASCII, and
-- otherwise throws.
pub json_escape-eq :
    (s : List ℕ)
    → json_escape s ≡ (if is_writable s then ok (written_as s) else err invalid_character)
unfolding json_escape
json_escape-eq s = elim (Bool-cases (is_writable s)) [
  | inl w ↦ rw (escape_from-eq (length s * 4 + 4) s [] (omega arith), w) refl
  | inr w ↦ rw (escape_from-eq (length s * 4 + 4) s [] (omega arith), w) refl
]
