-- ===== src/Parse/Matching.antt =====
-- `Parse_Context`: what the matchers do, by the character that comes.
use jml_base.Common.{
  ℕ, ◌≡◌, ◌==◌, if◌then◌else◌, refl, arith, true, false, Bool-cases, inl, inr, List, [], ◌∷◌, ap,
  ◌∙◌,
}
use jml_base.Common.Result.{ok, err}
use jml_base.Parse.{
  unexpected_eof, Context, behind, match_literal, literal_char_from, eof, is_end, peek, peek_from,
  expect_literal, advance, advance_from, match_literal_str, literal_from, revert, match_eol,
  eol_from, after_feed, match_whitespace, blanks_from, is_blank,
}

pub match_literal-cons :
    (l x : ℕ) (r : List ℕ) (c : Context)
    → c.rest ≡ x ∷ r
    → match_literal l c ≡ (if x == l then (true, behind x r c) else (false, c))
unfolding match_literal literal_char_from
match_literal-cons l x r c e = ap (λ t. literal_char_from l t c) e

pub match_literal-nil : (l : ℕ) (c : Context) → c.rest ≡ [] → match_literal l c ≡ (false, c)
unfolding match_literal literal_char_from
match_literal-nil l c e = ap (λ t. literal_char_from l t c) e

pub eof-nil : (c : Context) → c.rest ≡ [] → eof c ≡ true
unfolding eof is_end
eof-nil c e = ap is_end e

pub eof-cons : (c : Context) (x : ℕ) (r : List ℕ) → c.rest ≡ x ∷ r → eof c ≡ false
unfolding eof is_end
eof-cons c x r e = ap is_end e

pub peek-cons : (c : Context) (x : ℕ) (r : List ℕ) → c.rest ≡ x ∷ r → peek c ≡ ok x
unfolding peek peek_from
peek-cons c x r e = ap peek_from e

pub advance-cons :
    (c : Context) (x : ℕ) (r : List ℕ) → c.rest ≡ x ∷ r → advance c ≡ ok (behind x r c)
unfolding advance advance_from
advance-cons c x r e = ap (λ t. advance_from t c) e

-- Two characters, where the first is there.
pub match_literal_str-two :
    (l k x : ℕ) (r : List ℕ) (c : Context)
    → c.rest ≡ x ∷ r
    → match_literal_str (l ∷ k ∷ []) c
      ≡ (if l == x then revert c (literal_from (k ∷ []) r (behind x r c)) else (false, c))
unfolding match_literal_str literal_from
match_literal_str-two l k x r c e = elim (Bool-cases (l == x)) [
  | inl s ↦ ap (λ t. revert c (literal_from (l ∷ k ∷ []) t c)) e ∙ rw s
  | inr s ↦ ap (λ t. revert c (literal_from (l ∷ k ∷ []) t c)) e ∙ rw s
]

-- A text that does not start with `x`.
abbrev pub NotStart : ℕ → List ℕ → Type 0
NotStart x [] = Unit
NotStart x (y ∷ r) = (x == y) ≡ false

pub match_literal_str-both :
    (l k : ℕ) (r : List ℕ) (c : Context)
    → c.rest ≡ l ∷ k ∷ r
    → match_literal_str (l ∷ k ∷ []) c ≡ (true, behind k r (behind l (k ∷ r) c))
unfolding literal_from
match_literal_str-both l k r c e =
    let same_l : (l == l) ≡ true = ground arith in
    let same_k : (k == k) ≡ true = ground arith in
    match_literal_str-two l k l (k ∷ r) c e ∙ rw (same_l, same_k)

pub match_literal_str-one :
    (l k : ℕ) (r : List ℕ) (c : Context)
    → c.rest ≡ l ∷ r
    → NotStart k r
    → match_literal_str (l ∷ k ∷ []) c ≡ (false, c)
unfolding literal_from
match_literal_str-one l k [] c e h =
    let same_l : (l == l) ≡ true = ground arith in match_literal_str-two l k l [] c e ∙ rw same_l
match_literal_str-one l k (y ∷ r) c e h =
    let same_l : (l == l) ≡ true = ground arith in
    match_literal_str-two l k l (y ∷ r) c e ∙ rw (same_l, h)

-- `match_eol` on a character that ends no line, on a line feed, and on a carriage return alone.
pub match_eol-other :
    (x : ℕ) (r : List ℕ) (c : Context)
    → c.rest ≡ x ∷ r
    → (x == b'\n') ≡ false
    → (x == b'\r') ≡ false
    → match_eol true c ≡ ok (false, c)
unfolding match_eol eol_from
match_eol-other x r c e n m = ap (λ t. eol_from true t c) e ∙ rw (n, m)

pub match_eol-feed :
    (r : List ℕ) (c : Context)
    → c.rest ≡ b'\n' ∷ r
    → NotStart b'\r' r
    → match_eol true c ≡ ok (true, behind b'\n' r c)
unfolding match_eol eol_from after_feed
match_eol-feed [] c e h = ap (λ t. eol_from true t c) e
match_eol-feed (x ∷ r) c e h =
    let other : (x == b'\r') ≡ false = ground arith in ap (λ t. eol_from true t c) e ∙ rw other

pub match_eol-return :
    (r : List ℕ) (c : Context)
    → c.rest ≡ b'\r' ∷ r
    → NotStart b'\n' r
    → match_eol true c ≡ ok (false, c)
unfolding match_eol eol_from
match_eol-return r c e h =
    ap (λ t. eol_from true t c) e ∙ ap ok (match_literal_str-one b'\r' b'\n' r c e h)

pub match_whitespace-none :
    (x : ℕ) (r : List ℕ) (c : Context)
    → c.rest ≡ x ∷ r
    → is_blank x ≡ false
    → match_whitespace c ≡ (false, c)
unfolding match_whitespace blanks_from
match_whitespace-none x r c e h = ap (λ t. blanks_from false t c) e ∙ rw h

pub peek-nil : (c : Context) → c.rest ≡ [] → peek c ≡ err unexpected_eof
unfolding peek peek_from
peek-nil c e = ap peek_from e

pub advance-nil : (c : Context) → c.rest ≡ [] → advance c ≡ err unexpected_eof
unfolding advance advance_from
advance-nil c e = ap (λ t. advance_from t c) e

pub expect_literal-cons :
    (l : ℕ) (r : List ℕ) (c : Context) → c.rest ≡ l ∷ r → expect_literal l c ≡ ok (behind l r c)
unfolding expect_literal
expect_literal-cons l r c e =
    let same : (l == l) ≡ true = ground arith in rw (match_literal-cons l l r c e, same) refl

-- A text that starts with another character.
pub match_literal_str-other :
    (l x : ℕ) (ls r : List ℕ) (c : Context)
    → c.rest ≡ x ∷ r
    → (l == x) ≡ false
    → match_literal_str (l ∷ ls) c ≡ (false, c)
unfolding match_literal_str literal_from
match_literal_str-other l x ls r c e h =
    ap (λ t. revert c (literal_from (l ∷ ls) t c)) e ∙ rw h refl
