-- ===== src/Parse/Moving.antt =====
-- `Parse_Context`: reading on over a run of characters.
use jml_base.Common.{
  ℕ, ◌+◌, ◌≡◌, ◌==◌, if◌then◌else◌, refl, arith, Bool, true, false, not, Bool-cases, inl, inr, List,
  [], ◌∷◌, ◌++◌, length, ap, ◌∙◌,
}
use mathlib.Core.List.{append_assoc}
use jml_base.Parse.{Context, behind, text_from, match_text}

-- The characters before the first that fails the test, and the others.
unfoldable pub take_while : (ℕ → Bool) → List ℕ → List ℕ
take_while test [] = []
take_while test (x ∷ xs) = let more = take_while test xs in if test x then x ∷ more else []

unfoldable pub drop_while : (ℕ → Bool) → List ℕ → List ℕ
drop_while test [] = []
drop_while test (x ∷ xs) = let more = drop_while test xs in if test x then more else x ∷ xs

-- The context behind the characters `xs`, with `r` left.
unfoldable pub over : List ℕ → List ℕ → Context → Context
over [] r c = c
over (x ∷ xs) r c = over xs r (behind x (xs ++ r) c)

pub over-cons :
    (x : ℕ) (xs r : List ℕ) (c : Context) → over (x ∷ xs) r c ≡ over xs r (behind x (xs ++ r) c)
unfolding over
over-cons x xs r c = refl

pub over-append :
    (xs ys r : List ℕ) (c : Context) → over (xs ++ ys) r c ≡ over ys r (over xs (ys ++ r) c)
unfolding over
over-append [] ys r c = refl
over-append (x ∷ xs) ys r c =
    over-append xs ys r (behind x ((xs ++ ys) ++ r) c)
    ∙ ap (λ t. over ys r (over xs (ys ++ r) (behind x t c))) (append_assoc xs ys r)

pub take-append-drop_while :
    (test : ℕ → Bool) (xs : List ℕ) → take_while test xs ++ drop_while test xs ≡ xs
unfolding take_while drop_while
take-append-drop_while test [] = refl
take-append-drop_while test (x ∷ xs) = elim (Bool-cases (test x)) [
  | inl e ↦ rw e (ap (λ t. x ∷ t) (take-append-drop_while test xs))
  | inr e ↦ rw e
]

pub over-rest : (xs r : List ℕ) (c : Context) → c.rest ≡ xs ++ r → (over xs r c).rest ≡ r
unfolding over
over-rest [] r c e = e
over-rest (x ∷ xs) r c e = over-rest xs r (behind x (xs ++ r) c) refl

-- Every character read moves the offset on by one.
pub over-ofs : (xs r : List ℕ) (c : Context) → (over xs r c).ofs ≡ c.ofs + length xs
unfolding over
over-ofs [] r c = omega arith
over-ofs (x ∷ xs) r c = omega (arith, over-ofs xs r (behind x (xs ++ r) c))

abbrev one_if : Bool → ℕ
one_if true = 1
one_if false = 0

pub count_lines : List ℕ → ℕ
count_lines [] = 0
count_lines (x ∷ xs) = one_if (x == b'\n') + count_lines xs

behind-line :
    (x : ℕ) (r : List ℕ) (c : Context) → (behind x r c).line ≡ c.line + one_if (x == b'\n')
behind-line x r c = elim (Bool-cases (x == b'\n')) [
  | inl e ↦ rw e refl
  | inr e ↦ rw e (omega arith)
]

-- The line moves on by the line feeds that are read.
pub over-line : (xs r : List ℕ) (c : Context) → (over xs r c).line ≡ c.line + count_lines xs
unfolding over count_lines
over-line [] r c = omega arith
over-line (x ∷ xs) r c =
    over-line xs r (behind x (xs ++ r) c) ∙ omega (arith, behind-line x (xs ++ r) c)

text_from-eq-over :
    (found : ℕ → Bool) (xs : List ℕ) (c : Context)
    → text_from found xs c ≡ (
      take_while (λ x. not (found x)) xs,
      over (take_while (λ x. not (found x)) xs) (drop_while (λ x. not (found x)) xs) c,
    )
unfolding text_from take_while drop_while over
text_from-eq-over found [] c = refl
text_from-eq-over found (x ∷ xs) c = elim (Bool-cases (found x)) [
  | inl e ↦ rw e
  | inr e ↦ rw (
    e,
    text_from-eq-over found xs (behind x xs c),
    take-append-drop_while (λ y. not (found y)) xs,
  )
]

-- `match_text` returns the characters before the first that ends it, and stands there.
pub match_text-eq-over :
    (found : ℕ → Bool) (c : Context)
    → match_text found c ≡ (
      take_while (λ x. not (found x)) c.rest,
      over (take_while (λ x. not (found x)) c.rest) (drop_while (λ x. not (found x)) c.rest) c,
    )
unfolding match_text
match_text-eq-over found c = text_from-eq-over found c.rest c
