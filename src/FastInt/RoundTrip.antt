-- ===== src/FastInt/RoundTrip.antt =====
-- Numbers printed in decimal are read back.
use native.Mathlib.Nat.{mod-eq_of_lt}
use jml_base.Common.{
  ℕ, ◌+◌, ◌-◌, ◌%◌, ◌^◌, ◌<◌, ◌≡◌, ◌==◌, if◌then◌else◌, refl, arith, Bool, true, false, Bool-cases,
  inl, inr, List, [], ◌∷◌, ◌++◌, ap, ◌∙◌, some, ltb,
}
use jml_base.Common.Int.{ℤ, pos, negsuc}
use jml_base.Compact.Signed.{IsI64}
use jml_base.Common.Result.{ok, err}
use jml_base.Parse.{Context, behind, overflow}
use jml_base.Parse.Moving.{take_while, drop_while, over, over-cons}
use jml_base.Parse.Matching.{match_literal-cons}
use jml_base.FastInt.{
  is_digit, match_unsigned, match_unsigned_long_long, match_sign, match_int, match_long_long,
  to_i64, signed, negated,
}
use jml_base.FastInt.Decimal.{value, read_digits, read_digits-some, match_unsigned-eq-read_digits}
use jml_base.FastInt.Print.{
  decimal, AllDigits, decimal-AllDigits, decimal-length, decimal-cons, value-decimal,
}

-- A text that does not go on with a digit.
abbrev pub NoDigit : List ℕ → Type 0
NoDigit [] = Unit
NoDigit (x ∷ xs) = is_digit x ≡ false

take_while-digits : (ds r : List ℕ) → AllDigits ds → NoDigit r → take_while is_digit (ds ++ r) ≡ ds
unfolding take_while
take_while-digits [] [] h k = refl
take_while-digits [] (x ∷ r) h k = rw k
take_while-digits (d ∷ ds) r h k = rw (h.0, take_while-digits ds r h.1 k)

drop_while-digits : (ds r : List ℕ) → AllDigits ds → NoDigit r → drop_while is_digit (ds ++ r) ≡ r
unfolding drop_while
drop_while-digits [] [] h k = refl
drop_while-digits [] (x ∷ r) h k = rw k
drop_while-digits (d ∷ ds) r h k = rw (h.0, drop_while-digits ds r h.1 k)

-- The decimal text of a 64-bit number is read back, up to what follows.
pub match_unsigned-decimal :
    (n : ℕ) (r : List ℕ) (c : Context)
    → n < 2 ^ 64
    → NoDigit r
    → c.rest ≡ decimal 20 n ++ r
    → match_unsigned c ≡ (some n, over (decimal 20 n) r c)
match_unsigned-decimal n r c h k e =
    let digits = decimal-AllDigits 20 n in
    let same : value (decimal 20 n) % 2 ^ 64 ≡ n =
      ap (λ t. t % 2 ^ 64) (value-decimal 20 n (omega arith)) ∙ mod-eq_of_lt h in
    match_unsigned-eq-read_digits c
    ∙ ap (λ t. read_digits (take_while is_digit t) (drop_while is_digit t) c) e
    ∙ rw (
      take_while-digits (decimal 20 n) r digits k,
      drop_while-digits (decimal 20 n) r digits k,
      read_digits-some (decimal 20 n) r c (decimal-length 19 n),
      same,
    )

abbrev pub is_least : ℤ → Bool
is_least (pos n) = false
is_least (negsuc n) = n == 2 ^ 63 - 1

-- The text of an integer.
unfoldable pub print : ℤ → List ℕ
print (pos n) = decimal 20 n
print (negsuc n) = b'-' ∷ decimal 20 (n + 1)

match_sign-pos :
    (n : ℕ) (r : List ℕ) (c : Context) → c.rest ≡ decimal 20 n ++ r → match_sign c ≡ (false, c)
unfolding match_sign
match_sign-pos n r c e =
    let (d, ds, split, digit) = decimal-cons 19 n in
    let start : c.rest ≡ d ∷ (ds ++ r) = e ∙ ap (λ t. t ++ r) split in
    let plus : (d == b'+') ≡ false = ground arith in
    let minus : (d == b'-') ≡ false = ground arith in
    rw (
      match_literal-cons b'+' d (ds ++ r) c start,
      plus,
      match_literal-cons b'-' d (ds ++ r) c start,
      minus,
    )

match_sign-negsuc :
    (n : ℕ) (r : List ℕ) (c : Context)
    → c.rest ≡ print (negsuc n) ++ r
    → match_sign c ≡ (true, behind b'-' (decimal 20 (n + 1) ++ r) c)
unfolding match_sign print
match_sign-negsuc n r c e = rw (
  match_literal-cons b'+' b'-' (decimal 20 (n + 1) ++ r) c e,
  match_literal-cons b'-' b'-' (decimal 20 (n + 1) ++ r) c e,
)

signed-pos : (n : ℕ) → n < 2 ^ 63 → signed false n ≡ pos n
signed-pos n h = ground arith

signed-negsuc : (n : ℕ) → n < 2 ^ 63 → signed true (n + 1) ≡ negsuc n
signed-negsuc n h =
    let wrapped : (2 ^ 64 - (n + 1)) % 2 ^ 64 ≡ 2 ^ 64 - (n + 1) = mod-eq_of_lt (omega arith) in
    rw wrapped (ground arith)

-- A 64-bit integer printed in decimal is read back by `match_int`, up to what follows.
pub match_int-print :
    (z : ℤ) (r : List ℕ) (c : Context)
    → IsI64 z
    → NoDigit r
    → c.rest ≡ print z ++ r
    → match_int c ≡ (some z, over (print z) r c)
unfolding match_int print
match_int-print (pos n) r c h k e =
    rw (match_sign-pos n r c e, match_unsigned-decimal n r c (omega arith) k e, signed-pos n h)
match_int-print (negsuc n) r c h k e = rw (
  match_sign-negsuc n r c e,
  match_unsigned-decimal (n + 1) r (behind b'-' (decimal 20 (n + 1) ++ r) c) (omega arith) k refl,
  signed-negsuc n h,
  over-cons b'-' (decimal 20 (n + 1)) r c,
)

-- The three copies of the loop do the same.
pub match_unsigned_long_long-eq-match_unsigned :
    (c : Context) → match_unsigned_long_long c ≡ match_unsigned c
unfolding match_unsigned_long_long match_unsigned
match_unsigned_long_long-eq-match_unsigned c = refl

-- A 64-bit integer printed in decimal is read back by `match_long_long`, up to what follows, but for the
-- least one, whose negation overflows.
pub match_long_long-print :
    (z : ℤ) (r : List ℕ) (c : Context)
    → IsI64 z
    → NoDigit r
    → c.rest ≡ print z ++ r
    → match_long_long c ≡ (if is_least z then err overflow else ok (some z, over (print z) r c))
unfolding match_long_long print
match_long_long-print (pos n) r c h k e =
    let fits : ltb n (2 ^ 63) ≡ true = ground arith in
    rw (
      match_sign-pos n r c e,
      match_unsigned_long_long-eq-match_unsigned c,
      match_unsigned-decimal n r c (omega arith) k e,
      fits,
    )
match_long_long-print (negsuc n) r c h k e =
    let c' = behind b'-' (decimal 20 (n + 1) ++ r) c in
    let read =
      match_unsigned_long_long-eq-match_unsigned c'
      ∙ match_unsigned-decimal (n + 1) r c' (omega arith) k refl in
    elim (Bool-cases (n == 2 ^ 63 - 1)) [
      | inl least ↦
          let negation : negated (to_i64 (n + 1)) ≡ err overflow = ground arith in
          rw (match_sign-negsuc n r c e, read, negation, least)
      | inr other ↦
          let negation : negated (to_i64 (n + 1)) ≡ ok (negsuc n) = ground arith in
          rw (
            match_sign-negsuc n r c e,
            read,
            negation,
            other,
            over-cons b'-' (decimal 20 (n + 1)) r c,
          )
    ]
