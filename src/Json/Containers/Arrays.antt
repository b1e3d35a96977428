-- ===== src/Json/Containers/Arrays.antt =====
-- utils/json_parsing.cc: `expectJsonArray` calls its callback on every entry in order.
use mathlib.Core.List.{append_assoc}
use jml_base.Common.{
  ℕ, zero, suc, ◌+◌, ◌<◌, ◌≡◌, ◌==◌, if◌then◌else◌, inl, inr, refl, ◌∙◌, arith, true, Bool-cases,
  List, [], ◌∷◌, ◌++◌, length,
}
use jml_base.Common.Result.{Result, ok, ◌>>=◌}
use jml_base.Parse.{Context, Error, behind, expect_literal}
use jml_base.Parse.Moving.{over, over-append, over-rest}
use jml_base.Parse.Matching.{match_literal-cons, match_literal_str-other, expect_literal-cons}
use jml_base.Json.{is_dense, skip_json_whitespace}
use jml_base.Json.Escape.{is_writable}
use jml_base.Json.Strings.{skip-dense, quoted}
use jml_base.Json.Containers.{entries, expect_json_array}
use jml_base.Json.Ascii.{expect_json_string_ascii}
use jml_base.Json.Ascii.RoundTrip.{expect_json_string_ascii-quoted}

-- The strings `s ∷ ss` with commas between them and a bracket behind.
unfoldable pub entries_text : List ℕ → List (List ℕ) → List ℕ
entries_text s [] = quoted s ++ b']' ∷ []
entries_text s (t ∷ ts) = quoted s ++ b',' ∷ entries_text t ts

unfoldable pub array_text : List (List ℕ) → List ℕ
array_text [] = b'[' ∷ b']' ∷ []
array_text (s ∷ ss) = b'[' ∷ entries_text s ss

abbrev pub AllWritable : List (List ℕ) → Type 0
AllWritable [] = Unit
AllWritable (s ∷ ss) = (is_writable s ≡ true) × AllWritable ss

-- A callback that adds the string that it reads to a list.
pub read_string : ℕ → List (List ℕ) → Context → Result Error (List (List ℕ) × Context)
read_string i acc c = do r ← expect_json_string_ascii c; ok (acc ++ r.0 ∷ [], r.1)

read_string-quoted :
    (i : ℕ) (acc : List (List ℕ)) (s r : List ℕ) (c : Context)
    → is_writable s ≡ true
    → c.rest ≡ quoted s ++ r
    → read_string i acc c ≡ ok (acc ++ s ∷ [], over (quoted s) r c)
unfolding read_string
read_string-quoted i acc s r c w e = rw (expect_json_string_ascii-quoted s r c w e) refl

-- A quoted string starts with its quote.
pub skip-quoted :
    (s r : List ℕ) (c : Context) → c.rest ≡ quoted s ++ r → skip_json_whitespace c ≡ ok c
unfolding quoted
skip-quoted s r c e = skip-dense b'"' _ c e refl

-- What the loop does at an entry, up to the character behind it.
entry-quoted :
    (fuel i : ℕ) (acc : List (List ℕ)) (s r : List ℕ) (x : ℕ) (c : Context)
    → is_writable s ≡ true
    → c.rest ≡ quoted s ++ x ∷ r
    → is_dense x ≡ true
    → entries read_string (suc fuel) i acc c ≡ (
        let d = over (quoted s) (x ∷ r) c in
        let t = acc ++ s ∷ [] in
        if x == b','
        then entries read_string fuel (i + 1) t (behind x r d)
        else (do c4 ← skip_json_whitespace d; c5 ← expect_literal b']' c4; ok (t, c5)))
unfolding entries
entry-quoted fuel i acc s r x c w e dense =
    let d = over (quoted s) (x ∷ r) c in
    let at : d.rest ≡ x ∷ r = over-rest (quoted s) (x ∷ r) c e in
    elim (Bool-cases (x == b',')) [
      | inl k ↦
          rw
            (
              skip-quoted s (x ∷ r) c e,
              read_string-quoted i acc s (x ∷ r) c w e,
              skip-dense x r d at dense,
              match_literal-cons b',' x r d at,
              k,
            )
            refl
      | inr k ↦
          rw
            (
              skip-quoted s (x ∷ r) c e,
              read_string-quoted i acc s (x ∷ r) c w e,
              skip-dense x r d at dense,
              match_literal-cons b',' x r d at,
              k,
              skip-dense x r d at dense,
            )
            refl
    ]

entries_run :
    (fuel i : ℕ) (acc : List (List ℕ)) (s : List ℕ) (ss : List (List ℕ)) (r : List ℕ) (c : Context)
    → AllWritable (s ∷ ss)
    → c.rest ≡ entries_text s ss ++ r
    → length ss < fuel
    → entries read_string fuel i acc c ≡ ok (acc ++ s ∷ ss, over (entries_text s ss) r c)
unfolding entries_text over
entries_run zero i acc s ss r c w e f = absurd (omega arith)
entries_run (suc fuel) i acc s [] r c w e f =
    let start : c.rest ≡ quoted s ++ b']' ∷ r = e ∙ append_assoc (quoted s) (b']' ∷ []) r in
    let d = over (quoted s) (b']' ∷ r) c in
    let at : d.rest ≡ b']' ∷ r = over-rest (quoted s) (b']' ∷ r) c start in
    entry-quoted fuel i acc s r b']' c (w.0) start refl
    ∙ rw
        (
          skip-dense b']' r d at refl,
          expect_literal-cons b']' r d at,
          over-append (quoted s) (b']' ∷ []) r c,
        )
        refl
entries_run (suc fuel) i acc s (t ∷ ts) r c w e f =
    let rest = entries_text t ts ++ r in
    let start : c.rest ≡ quoted s ++ b',' ∷ rest =
      e ∙ append_assoc (quoted s) (b',' ∷ entries_text t ts) r in
    let d = over (quoted s) (b',' ∷ rest) c in
    entry-quoted fuel i acc s rest b',' c (w.0) start refl
    ∙ entries_run fuel (i + 1) (acc ++ s ∷ []) t ts r (behind b',' rest d) w.1 refl (omega arith)
    ∙ rw (append_assoc acc (s ∷ []) (t ∷ ts), over-append (quoted s) (b',' ∷ entries_text t ts) r c)
        refl

entries_text-quote :
    (s : List ℕ) (ss : List (List ℕ)) (r : List ℕ)
    → (t : List ℕ) × (entries_text s ss ++ r ≡ b'"' ∷ t)
unfolding entries_text quoted
entries_text-quote s [] r = (_, refl)
entries_text-quote s (t ∷ ts) r = (_, refl)

-- Every list of strings that `jsonEscape` can write is read back, in order, by `expectJsonArray` with a
-- callback that reads a string, with enough fuel for the entries.
pub expect_json_array-array_text :
    (fuel : ℕ) (ss : List (List ℕ)) (r : List ℕ) (c : Context)
    → AllWritable ss
    → c.rest ≡ array_text ss ++ r
    → length ss < fuel
    → expect_json_array read_string fuel [] c ≡ ok (ss, over (array_text ss) r c)
unfolding expect_json_array array_text over
expect_json_array-array_text fuel [] r c w e f =
    let c' = behind b'[' (b']' ∷ r) c in
    rw
      (
        skip-dense b'[' (b']' ∷ r) c e refl,
        match_literal_str-other b'n' b'[' (b'u' ∷ b'l' ∷ b'l' ∷ []) (b']' ∷ r) c e refl,
        expect_literal-cons b'[' (b']' ∷ r) c e,
        skip-dense b']' r c' refl refl,
        match_literal-cons b']' b']' r c' refl,
      )
      refl
expect_json_array-array_text fuel (s ∷ ss) r c w e f =
    let text = entries_text s ss ++ r in
    let c' = behind b'[' text c in
    let (t, start) = entries_text-quote s ss r in
    rw
      (
        skip-dense b'[' text c e refl,
        match_literal_str-other b'n' b'[' (b'u' ∷ b'l' ∷ b'l' ∷ []) text c e refl,
        expect_literal-cons b'[' text c e,
        skip-dense b'"' t c' start refl,
        match_literal-cons b']' b'"' t c' start,
      )
      (entries_run fuel 0 [] s ss r c' w refl (omega arith))
