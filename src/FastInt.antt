-- ===== src/FastInt.antt =====
-- utils/fast_int_parsing.h: decimal numbers read from a `Parse_Context`. `long` and `long long` have 64
-- bits. A text has fewer than 2 ^ 31 characters, so that no count of digits wraps.
pub mod Decimal
pub mod Print
pub mod RoundTrip
mod Tests
use jml_base.Common.{
  ℕ, zero, suc, ◌+◌, ◌-◌, ◌*◌, ◌%◌, ◌^◌, ltb, leb, ◌==◌, ◌&&◌, if◌then◌else◌, Bool, true, false,
  List, [], ◌∷◌, Option, none, some,
}
use jml_base.Common.Int.{ℤ, pos, negsuc}
use jml_base.Common.Result.{Result, ok, err, ◌>>=◌, ◌>>◌, guard}
use jml_base.Parse.{Context, Error, behind, match_literal, overflow}

-- `isdigit`, in the C locale.
abbrev pub is_digit : ℕ → Bool
is_digit x = leb b'0' x && leb x b'9'

-- The loop: the value and the number of digits so far.
unfoldable pub digits_from : ℕ → ℕ → List ℕ → Context → (ℕ × ℕ) × Context
digits_from val digits [] c = ((val, digits), c)
digits_from val digits (x ∷ r) c =
    let more = digits_from ((val * 10 + (x - b'0')) % 2 ^ 64) (digits + 1) r (behind x r c) in
    if is_digit x then more else ((val, digits), c)

-- What the match returns: without a digit the `Revert_Token` takes the context back.
abbrev pub some_digits : Context → (ℕ × ℕ) × Context → Option ℕ × Context
some_digits saved ((val, digits), c) = if digits == 0 then (none, saved) else (some val, c)

unfoldable pub match_unsigned : Context → Option ℕ × Context
unfolding digits_from
match_unsigned c = some_digits c (digits_from 0 0 c.rest c)

-- The same code for the two other types.
unfoldable pub match_unsigned_long : Context → Option ℕ × Context
unfolding digits_from
match_unsigned_long c = some_digits c (digits_from 0 0 c.rest c)

unfoldable pub match_unsigned_long_long : Context → Option ℕ × Context
unfolding digits_from
match_unsigned_long_long c = some_digits c (digits_from 0 0 c.rest c)

-- A 64-bit pattern read as a signed number.
abbrev pub to_i64 : ℕ → ℤ
to_i64 u = if ltb u (2 ^ 63) then pos u else negsuc (2 ^ 64 - 1 - u)

-- `if (match_literal('+')) ; else if (match_literal('-')) sign = -1;`, with `true` for -1.
abbrev sign_of : Bool × Context → Context → Bool × Context
sign_of (true, c') c = (false, c')
sign_of (false, c') c = match_literal b'-' c

unfoldable pub match_sign : Context → Bool × Context
match_sign c = sign_of (match_literal b'+' c) c

-- `mag * sign` in `unsigned long`.
abbrev pub signed : Bool → ℕ → ℤ
signed negative mag = to_i64 (if negative then (2 ^ 64 - mag) % 2 ^ 64 else mag)

abbrev pub with_sign : Context → Bool → Option ℕ × Context → Option ℤ × Context
with_sign saved negative (none, c) = (none, saved)
with_sign saved negative (some mag, c) = (some (signed negative mag), c)

unfoldable pub match_int : Context → Option ℤ × Context
unfolding match_sign match_unsigned
match_int c = let (negative, c') = match_sign c in with_sign c negative (match_unsigned c')

-- `result = (long)mag; result *= sign;`, where -1 times the least number overflows.
abbrev pub negated : ℤ → Result Error ℤ
negated (pos zero) = ok (pos 0)
negated (pos (suc n)) = ok (negsuc n)
negated (negsuc n) = guard (ltb n (2 ^ 63 - 1)) overflow >> ok (pos (n + 1))

abbrev pub times_sign : Context → Bool → Option ℕ × Context → Result Error (Option ℤ × Context)
times_sign saved negative (none, c) = ok (none, saved)
times_sign saved true (some mag, c) = do z ← negated (to_i64 mag); ok (some z, c)
times_sign saved false (some mag, c) = ok (some (to_i64 mag), c)

unfoldable pub match_long : Context → Result Error (Option ℤ × Context)
unfolding match_sign match_unsigned_long
match_long c = let (negative, c') = match_sign c in times_sign c negative (match_unsigned_long c')

unfoldable pub match_long_long : Context → Result Error (Option ℤ × Context)
unfolding match_sign match_unsigned_long_long
match_long_long c =
    let (negative, c') = match_sign c in times_sign c negative (match_unsigned_long_long c')
