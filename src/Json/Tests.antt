-- ===== src/Json/Tests.antt =====
-- Short JSON texts.
use jml_base.Common.{ℕ, ◌≡◌, refl, arith, true, List, [], ◌∷◌, ◌++◌, some, if◌then◌else◌}
use jml_base.Common.Result.{ok, err}
use jml_base.Parse.{context_of, invalid_character}
use jml_base.Parse.Moving.{over}
use jml_base.Json.{json_escape, match_json_string}
use jml_base.Json.Escape.{written_as, is_writable, json_escape-eq}
use jml_base.Json.Strings.{quoted, match_json_string-quoted}
use jml_base.Json.Containers.{expect_json_array, expect_json_object}
use jml_base.Json.Containers.Objects.{Pair, object_text, read_pair, expect_json_object-object_text}
use jml_base.Json.Containers.Arrays.{array_text, read_string, expect_json_array-array_text}

-- A quote, a tab and a letter.
abbrev mixed : List ℕ
mixed = b'"' ∷ b'\t' ∷ b'a' ∷ []

mixed-text : written_as mixed ≡ b'\\' ∷ b'"' ∷ b'\\' ∷ b't' ∷ b'a' ∷ []
unfolding written_as
mixed-text = refl

mixed-writable : is_writable mixed ≡ true
unfolding is_writable
mixed-writable = refl

json_escape-eq_example :
    json_escape mixed ≡ (if is_writable mixed then ok (written_as mixed) else err invalid_character)
json_escape-eq_example = json_escape-eq mixed

match_json_string-quoted_example :
    match_json_string (context_of (quoted mixed ++ b',' ∷ []))
    ≡ ok (some mixed, over (quoted mixed) (b',' ∷ []) (context_of (quoted mixed ++ b',' ∷ [])))
match_json_string-quoted_example =
    match_json_string-quoted mixed (b',' ∷ []) (context_of (quoted mixed ++ b',' ∷ []))
      mixed-writable (unfold context_of in refl)

abbrev two : List (List ℕ)
two = mixed ∷ [] ∷ []

expect_json_array-array_text_example :
    expect_json_array read_string 3 [] (context_of (array_text two ++ b'x' ∷ []))
    ≡ ok (two, over (array_text two) (b'x' ∷ []) (context_of (array_text two ++ b'x' ∷ [])))
expect_json_array-array_text_example =
    expect_json_array-array_text 3 two (b'x' ∷ []) (context_of (array_text two ++ b'x' ∷ []))
      (mixed-writable, (unfold is_writable in refl, tt)) (unfold context_of in refl) (omega arith)

abbrev members : List Pair
members = (mixed, []) ∷ ([], mixed) ∷ []

expect_json_object-object_text_example :
    expect_json_object read_pair 3 [] (context_of (object_text members ++ b'x' ∷ []))
    ≡ ok (
      members,
      over (object_text members) (b'x' ∷ []) (context_of (object_text members ++ b'x' ∷ [])),
    )
unfolding is_writable context_of
expect_json_object-object_text_example =
    expect_json_object-object_text 3 members (b'x' ∷ [])
      (context_of (object_text members ++ b'x' ∷ [])) ((refl, refl), ((refl, refl), tt)) refl
      (omega arith)
