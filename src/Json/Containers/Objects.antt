-- ===== src/Json/Containers/Objects.antt =====
-- utils/json_parsing.cc: `expectJsonObject` calls its callback on every member in order.
use mathlib.Core.List.{append_assoc}
use jml_base.Common.{ℕ, zero, suc, ◌<◌, ◌≡◌, refl, ◌∙◌, arith, true, List, [], ◌∷◌, ◌++◌, length}
use jml_base.Common.Result.{Result, ok, ◌>>=◌}
use jml_base.Parse.{Context, Error, behind}
use jml_base.Parse.Moving.{over, over-cons, over-append, over-rest}
use jml_base.Parse.Matching.{match_literal-cons, match_literal_str-other, expect_literal-cons}
use jml_base.Json.Escape.{is_writable}
use jml_base.Json.Strings.{skip-dense, quoted}
use jml_base.Json.Ascii.{expect_json_string_ascii}
use jml_base.Json.Ascii.RoundTrip.{expect_json_string_ascii-quoted}
use jml_base.Json.Containers.{member, members, object_with, expect_json_object}
use jml_base.Json.Containers.Arrays.{skip-quoted}

abbrev pub Pair : Type 0
Pair = List ℕ × List ℕ

unfoldable pub pair_text : Pair → List ℕ
pair_text (k, v) = quoted k ++ b':' ∷ quoted v

-- The members `p ∷ ps` with commas between them and a brace behind.
unfoldable pub members_text : Pair → List Pair → List ℕ
members_text p [] = pair_text p ++ b'}' ∷ []
members_text p (q ∷ qs) = pair_text p ++ b',' ∷ members_text q qs

unfoldable pub object_text : List Pair → List ℕ
object_text [] = b'{' ∷ b'}' ∷ []
object_text (p ∷ ps) = b'{' ∷ members_text p ps

abbrev pub AllWritable : List Pair → Type 0
AllWritable [] = Unit
AllWritable (p ∷ ps) = ((is_writable p.0 ≡ true) × (is_writable p.1 ≡ true)) × AllWritable ps

-- A callback that adds the key and the string that it reads to a list.
pub read_pair : List ℕ → List Pair → Context → Result Error (List Pair × Context)
read_pair k acc c = do r ← expect_json_string_ascii c; ok (acc ++ (k, r.0) ∷ [], r.1)

read_pair-quoted :
    (k : List ℕ) (acc : List Pair) (v r : List ℕ) (c : Context)
    → is_writable v ≡ true
    → c.rest ≡ quoted v ++ r
    → read_pair k acc c ≡ ok (acc ++ (k, v) ∷ [], over (quoted v) r c)
unfolding read_pair
read_pair-quoted k acc v r c w e = rw (expect_json_string_ascii-quoted v r c w e) refl

member-pair_text :
    (acc : List Pair) (k v r : List ℕ) (c : Context)
    → is_writable k ≡ true
    → is_writable v ≡ true
    → c.rest ≡ pair_text (k, v) ++ r
    → member expect_json_string_ascii read_pair acc c
      ≡ ok (acc ++ (k, v) ∷ [], over (pair_text (k, v)) r c)
unfolding member pair_text
member-pair_text acc k v r c wk wv e =
    let start : c.rest ≡ quoted k ++ b':' ∷ (quoted v ++ r) =
      e ∙ append_assoc (quoted k) (b':' ∷ quoted v) r in
    let d = over (quoted k) (b':' ∷ (quoted v ++ r)) c in
    let at : d.rest ≡ b':' ∷ (quoted v ++ r) =
      over-rest (quoted k) (b':' ∷ (quoted v ++ r)) c start in
    rw
      (
        skip-quoted k (b':' ∷ (quoted v ++ r)) c start,
        expect_json_string_ascii-quoted k (b':' ∷ (quoted v ++ r)) c wk start,
        skip-dense b':' (quoted v ++ r) d at refl,
        expect_literal-cons b':' (quoted v ++ r) d at,
        skip-quoted v r (behind b':' (quoted v ++ r) d) refl,
        read_pair-quoted k acc v r (behind b':' (quoted v ++ r) d) wv refl,
        over-append (quoted k) (b':' ∷ quoted v) r c,
        over-cons b':' (quoted v) r d,
      )
      refl

members_run :
    (fuel : ℕ) (acc : List Pair) (p : Pair) (ps : List Pair) (r : List ℕ) (c : Context)
    → AllWritable (p ∷ ps)
    → c.rest ≡ members_text p ps ++ r
    → length ps < fuel
    → members expect_json_string_ascii read_pair fuel acc c
      ≡ ok (acc ++ p ∷ ps, over (members_text p ps) r c)
unfolding members members_text over
members_run zero acc p ps r c w e f = absurd (omega arith)
members_run (suc fuel) acc p [] r c w e f =
    let start : c.rest ≡ pair_text p ++ b'}' ∷ r = e ∙ append_assoc (pair_text p) (b'}' ∷ []) r in
    let d = over (pair_text p) (b'}' ∷ r) c in
    let at : d.rest ≡ b'}' ∷ r = over-rest (pair_text p) (b'}' ∷ r) c start in
    rw
      (
        member-pair_text acc p.0 p.1 (b'}' ∷ r) c w.0.0 w.0.1 start,
        skip-dense b'}' r d at refl,
        match_literal-cons b',' b'}' r d at,
        skip-dense b'}' r d at refl,
        expect_literal-cons b'}' r d at,
        over-append (pair_text p) (b'}' ∷ []) r c,
      )
      refl
members_run (suc fuel) acc p (q ∷ qs) r c w e f =
    let rest = members_text q qs ++ r in
    let start : c.rest ≡ pair_text p ++ b',' ∷ rest =
      e ∙ append_assoc (pair_text p) (b',' ∷ members_text q qs) r in
    let d = over (pair_text p) (b',' ∷ rest) c in
    let at : d.rest ≡ b',' ∷ rest = over-rest (pair_text p) (b',' ∷ rest) c start in
    rw
      (
        member-pair_text acc p.0 p.1 (b',' ∷ rest) c w.0.0 w.0.1 start,
        skip-dense b',' rest d at refl,
        match_literal-cons b',' b',' rest d at,
        over-append (pair_text p) (b',' ∷ members_text q qs) r c,
      )
      (members_run fuel (acc ++ p ∷ []) q qs r (behind b',' rest d) w.1 refl (omega arith)
        ∙ rw (append_assoc acc (p ∷ []) (q ∷ qs)) refl)

members_text-quote :
    (p : Pair) (ps : List Pair) (r : List ℕ) → (t : List ℕ) × (members_text p ps ++ r ≡ b'"' ∷ t)
unfolding members_text pair_text quoted
members_text-quote p [] r = (_, refl)
members_text-quote p (q ∷ qs) r = (_, refl)

-- Every list of members whose keys and strings `jsonEscape` can write is read back, in order, by
-- `expectJsonObject` with a callback that reads a string, with enough fuel for the members.
pub expect_json_object-object_text :
    (fuel : ℕ) (ps : List Pair) (r : List ℕ) (c : Context)
    → AllWritable ps
    → c.rest ≡ object_text ps ++ r
    → length ps < fuel
    → expect_json_object read_pair fuel [] c ≡ ok (ps, over (object_text ps) r c)
unfolding expect_json_object object_with object_text over
expect_json_object-object_text fuel [] r c w e f =
    let c' = behind b'{' (b'}' ∷ r) c in
    rw
      (
        skip-dense b'{' (b'}' ∷ r) c e refl,
        match_literal_str-other b'n' b'{' (b'u' ∷ b'l' ∷ b'l' ∷ []) (b'}' ∷ r) c e refl,
        expect_literal-cons b'{' (b'}' ∷ r) c e,
        skip-dense b'}' r c' refl refl,
        match_literal-cons b'}' b'}' r c' refl,
      )
      refl
expect_json_object-object_text fuel (p ∷ ps) r c w e f =
    let text = members_text p ps ++ r in
    let c' = behind b'{' text c in
    let (t, start) = members_text-quote p ps r in
    rw
      (
        skip-dense b'{' text c e refl,
        match_literal_str-other b'n' b'{' (b'u' ∷ b'l' ∷ b'l' ∷ []) text c e refl,
        expect_literal-cons b'{' text c e,
        skip-dense b'"' t c' start refl,
        match_literal-cons b'}' b'"' t c' start,
      )
      (members_run fuel [] p ps r c' w refl (omega arith))
