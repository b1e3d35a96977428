-- ===== src/Json/Containers.antt =====
-- utils/json_parsing.cc: arrays and objects. A callback takes the state `S` of the client, which it returns
-- with the context.
pub mod Arrays
pub mod Objects
use jml_base.Common.{
  ℕ, zero, suc, ◌+◌, ◌-◌, ◌%◌, ◌^◌, ltb, leb, ◌==◌, if◌then◌else◌, Bool, true, false, not, Option,
  none, some, List, [], ◌∷◌, ◌++◌, length,
}
use jml_base.Common.Int.{ℤ, pos, negsuc, ltb_ℤ}
use jml_base.Common.Result.{Result, ok, err, ◌>>=◌, ◌>>◌, guard}
use jml_base.Parse.{
  Context, Error, eof, advance, peek, match_literal, expect_literal, match_literal_str, out_of_fuel,
  expected, wrong_length, invalid_character,
}
use jml_base.Parse.Numbers.{expect_int}
use jml_base.Json.{skip_json_whitespace, unescaped}
use jml_base.Json.Ascii.{expect_json_string_ascii, expect_json_string_ascii_into, null_text}

-- The string at a `const char *`.
abbrev until_null : List ℕ → List ℕ
until_null [] = []
until_null (x ∷ xs) = let more = until_null xs in if x == 0 then [] else x ∷ more

abbrev key_of : Option (List ℕ) × Context → Result Error (List ℕ × Context)
key_of (none, c) = err wrong_length
key_of (some k, c) = ok (until_null k, c)

short_key : Context → Result Error (List ℕ × Context)
short_key c = do r ← expect_json_string_ascii_into 1024 c; key_of r

module _ {ℓ} {S : Type ℓ} where
  -- The loop over the entries of an array, and its end. It has its fuel as an argument, since a callback
  -- may leave the context where it was.
  pub entries :
      (ℕ → S → Context → Result Error (S × Context))
      → ℕ
      → ℕ
      → S
      → Context
      → Result Error (S × Context)
  entries on_entry zero i s c = err out_of_fuel
  entries on_entry (suc fuel) i s c = do
    c1 ← skip_json_whitespace c
    r ← on_entry i s c1
    c2 ← skip_json_whitespace r.1
    (let (comma, c3) = match_literal b',' c2 in
        let rest = entries on_entry fuel (i + 1) r.0 c3 in
        let close = (do c4 ← skip_json_whitespace c3; c5 ← expect_literal b']' c4; ok (r.0, c5)) in
        if comma then rest else close)

  pub expect_json_array :
      (ℕ → S → Context → Result Error (S × Context)) → ℕ → S → Context → Result Error (S × Context)
  unfolding entries
  expect_json_array on_entry fuel s c = do
    c1 ← skip_json_whitespace c
    (let (null, c2) = match_literal_str null_text c1 in
        let array = (do
          c3 ← expect_literal b'[' c2
          c4 ← skip_json_whitespace c3
          (let (empty, c5) = match_literal b']' c4 in
              let loop = entries on_entry fuel 0 s c5 in if empty then ok (s, c5) else loop)) in
        if null then ok (s, c2) else array)

  -- One key of an object, its colon, and its entry.
  member :
      (Context → Result Error (List ℕ × Context))
      → (List ℕ → S → Context → Result Error (S × Context))
      → S
      → Context
      → Result Error (S × Context)
  member read_key on_entry s c = do
    c1 ← skip_json_whitespace c
    k ← read_key c1
    c2 ← skip_json_whitespace k.1
    c3 ← expect_literal b':' c2
    c4 ← skip_json_whitespace c3
    on_entry k.0 s c4

  members :
      (Context → Result Error (List ℕ × Context))
      → (List ℕ → S → Context → Result Error (S × Context))
      → ℕ
      → S
      → Context
      → Result Error (S × Context)
  unfolding member
  members read_key on_entry zero s c = err out_of_fuel
  members read_key on_entry (suc fuel) s c = do
    r ← member read_key on_entry s c
    c1 ← skip_json_whitespace r.1
    (let (comma, c2) = match_literal b',' c1 in
        let rest = members read_key on_entry fuel r.0 c2 in
        let close = (do c3 ← skip_json_whitespace c2; c4 ← expect_literal b'}' c3; ok (r.0, c4)) in
        if comma then rest else close)

  object_with :
      (Context → Result Error (List ℕ × Context))
      → (List ℕ → S → Context → Result Error (S × Context))
      → ℕ
      → S
      → Context
      → Result Error (S × Context)
  unfolding members
  object_with read_key on_entry fuel s c = do
    c1 ← skip_json_whitespace c
    (let (null, c2) = match_literal_str null_text c1 in
        let object = (do
          c3 ← expect_literal b'{' c2
          c4 ← skip_json_whitespace c3
          (let (empty, c5) = match_literal b'}' c4 in
              let loop = members read_key on_entry fuel s c5 in
              if empty then ok (s, c5) else loop)) in
        if null then ok (s, c2) else object)

  pub expect_json_object :
      (List ℕ → S → Context → Result Error (S × Context))
      → ℕ
      → S
      → Context
      → Result Error (S × Context)
  unfolding object_with
  expect_json_object on_entry fuel s c = object_with expect_json_string_ascii on_entry fuel s c

  -- With a buffer of 1024 bytes for the key.
  pub expect_json_object_ascii :
      (List ℕ → S → Context → Result Error (S × Context))
      → ℕ
      → S
      → Context
      → Result Error (S × Context)
  unfolding object_with short_key
  expect_json_object_ascii on_entry fuel s c = object_with short_key on_entry fuel s c

  -- The loop of `matchJsonObject`, whose callback may refuse an entry. Nothing is rewound.
  match_members :
      (List ℕ → S → Context → Result Error ((S × Bool) × Context))
      → ℕ
      → S
      → Context
      → Result Error ((S × Bool) × Context)
  match_members on_entry zero s c = err out_of_fuel
  match_members on_entry (suc fuel) s c = do
    c1 ← skip_json_whitespace c
    k ← expect_json_string_ascii c1
    c2 ← skip_json_whitespace k.1
    (let (colon, c3) = match_literal b':' c2 in
        let entry = (do
          c4 ← skip_json_whitespace c3
          r ← on_entry k.0 s c4
          (let onwards = (do
            c5 ← skip_json_whitespace r.1
            (let (comma, c6) = match_literal b',' c5 in
                let rest = match_members on_entry fuel r.0.0 c6 in
                let close = (do
                  c7 ← skip_json_whitespace c6
                  (let (closed, c8) = match_literal b'}' c7 in ok ((r.0.0, closed), c8))) in
                if comma then rest else close)) in
              if r.0.1 then onwards else ok ((r.0.0, false), r.1))) in
        if colon then entry else ok ((s, false), c3))

  pub match_json_object :
      (List ℕ → S → Context → Result Error ((S × Bool) × Context))
      → ℕ
      → S
      → Context
      → Result Error ((S × Bool) × Context)
  unfolding match_members
  match_json_object on_entry fuel s c = do
    c1 ← skip_json_whitespace c
    (let (null, c2) = match_literal_str null_text c1 in
        let (brace, c3) = match_literal b'{' c2 in
        let object = (do
          c4 ← skip_json_whitespace c3
          (let (empty, c5) = match_literal b'}' c4 in
              let loop = match_members on_entry fuel s c5 in
              if empty then ok ((s, true), c5) else loop)) in
        if null then ok ((s, true), c2) else if brace then object else ok ((s, false), c3))
