-- ===== src/FastInt/Decimal.antt =====
-- utils/fast_int_parsing.h: the value of the digits that are read.
use native.Mathlib.Nat.{mod-lt, mul-add-mod_self_right, div-add-mod', pow-suc}
use jml_base.Common.{
  ℕ, suc, ◌+◌, ◌-◌, ◌*◌, ◌/◌, ◌%◌, ◌^◌, ◌<◌, ◌≡◌, ◌==◌, refl, sym, arith, false, Bool-cases, inl,
  inr, List, [], ◌∷◌, length, ap, ◌∙◌, Option, none, some,
}
use jml_base.Parse.{Context, behind}
use jml_base.Parse.Moving.{take_while, drop_while, over, over-cons, take-append-drop_while}
use jml_base.FastInt.{is_digit, digits_from, some_digits, match_unsigned}

-- The number that a text of digits stands for.
unfoldable pub value : List ℕ → ℕ
value [] = 0
value (d ∷ ds) = (d - b'0') * 10 ^ length ds + value ds

mod-step : (a b c m : ℕ) → (a % m * b + c) % m ≡ (a * b + c) % m
mod-step a b c m =
    let whole : a / m * b * m + (a % m * b + c) ≡ a * b + c =
      grind (arith, ap (λ (t : ℕ). t * b) (div-add-mod' a m)) in
    sym (mul-add-mod_self_right (a / m * b) m (a % m * b + c)) ∙ ap (λ t. t % m) whole

-- What the loop adds to the value so far.
digits_from-eq :
    (v n : ℕ) (xs : List ℕ) (c : Context)
    → v < 2 ^ 64
    → digits_from v n xs c ≡ (
      (
        (v * 10 ^ length (take_while is_digit xs) + value (take_while is_digit xs)) % 2 ^ 64,
        n + length (take_while is_digit xs),
      ),
      over (take_while is_digit xs) (drop_while is_digit xs) c,
    )
unfolding digits_from value take_while drop_while over
digits_from-eq v n [] c h =
    let same : (v * 10 ^ 0 + 0) % 2 ^ 64 ≡ v = omega arith in
    let none_more : n + 0 ≡ n = omega arith in rw (same, none_more)
digits_from-eq v n (x ∷ xs) c h = elim (Bool-cases (is_digit x)) [
  | inl e ↦
      let k = length (take_while is_digit xs) in
      let w = value (take_while is_digit xs) in
      let v' = (v * 10 + (x - b'0')) % 2 ^ 64 in
      let power : 10 ^ suc k ≡ 10 ^ k * 10 = pow-suc 10 k in
      let sum : (v' * 10 ^ k + w) % 2 ^ 64 ≡ (v * 10 ^ suc k + ((x - b'0') * 10 ^ k + w)) % 2 ^ 64 =
        mod-step (v * 10 + (x - b'0')) (10 ^ k) w (2 ^ 64)
        ∙ ap (λ t. t % 2 ^ 64) (rw power (grind arith)) in
      let more : n + 1 + k ≡ n + suc k = omega arith in
      rw (
        e,
        digits_from-eq v' (n + 1) xs (behind x xs c) (mod-lt (v * 10 + (x - b'0')) (omega arith)),
        sum,
        more,
        over-cons x (take_while is_digit xs) (drop_while is_digit xs) c,
        take-append-drop_while is_digit xs,
      )
  | inr e ↦
      let same : (v * 10 ^ 0 + 0) % 2 ^ 64 ≡ v = omega arith in
      let none_more : n + 0 ≡ n = omega arith in rw (e, same, none_more)
]

-- The result for a run of digits, and for none.
pub read_digits : List ℕ → List ℕ → Context → Option ℕ × Context
read_digits [] r c = (none, c)
read_digits (d ∷ ds) r c = (some (value (d ∷ ds) % 2 ^ 64), over (d ∷ ds) r c)

counted :
    (ds r : List ℕ) (c : Context)
    → some_digits c (((0 * 10 ^ length ds + value ds) % 2 ^ 64, 0 + length ds), over ds r c)
      ≡ read_digits ds r c
unfolding read_digits value
counted [] r c = refl
counted (d ∷ ds) r c =
    let some_length : (0 + length (d ∷ ds) == 0) ≡ false = ground arith in
    let sum : 0 * 10 ^ length (d ∷ ds) + value (d ∷ ds) ≡ value (d ∷ ds) = omega arith in
    rw (some_length, sum)

pub read_digits-some :
    (ds r : List ℕ) (c : Context)
    → 0 < length ds
    → read_digits ds r c ≡ (some (value ds % 2 ^ 64), over ds r c)
unfolding read_digits
read_digits-some [] r c h = absurd (omega arith)
read_digits-some (d ∷ ds) r c h = refl

-- `match_unsigned` returns the value of the longest run of digits, modulo 2 ^ 64, and stands behind it;
-- where there is no digit it returns nothing and stays.
pub match_unsigned-eq-read_digits :
    (c : Context)
    → match_unsigned c ≡ read_digits (take_while is_digit c.rest) (drop_while is_digit c.rest) c
unfolding match_unsigned read_digits
match_unsigned-eq-read_digits c =
    rw (digits_from-eq 0 0 c.rest c (omega arith))
      (counted (take_while is_digit c.rest) (drop_while is_digit c.rest) c)
