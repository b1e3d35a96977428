-- ===== src/Parse/Numbers.antt =====
-- utils/parse_context.cc: numbers within bounds. Each match holds a `Revert_Token`.
use jml_base.Common.{ℕ, ◌-◌, ◌^◌, ltb, ◌||◌, if◌then◌else◌, Option, none, some}
use jml_base.Common.Int.{ℤ, pos, negsuc, ltb_ℤ}
use jml_base.Common.Result.{Result, ok, err, ◌>>=◌}
use jml_base.Parse.{Context, Error, expected}
use jml_base.FastInt

-- `if (val < min || val > max) return false; val_ = val;`.
abbrev pub within_ℤ : ℤ → ℤ → Context → Option ℤ × Context → Option ℤ × Context
within_ℤ min max saved (none, c) = (none, saved)
within_ℤ min max saved (some val, c) =
    if ltb_ℤ val min || ltb_ℤ max val then (none, saved) else (some val, c)

abbrev pub within : ℕ → ℕ → Context → Option ℕ × Context → Option ℕ × Context
within min max saved (none, c) = (none, saved)
within min max saved (some val, c) =
    if ltb val min || ltb max val then (none, saved) else (some val, c)

module _ (min max : ℤ) (c : Context) where
  unfoldable pub match_int : Option ℤ × Context
  match_int = within_ℤ min max c (FastInt.match_int c)

  unfoldable pub match_long : Result Error (Option ℤ × Context)
  match_long = do r ← FastInt.match_long c; ok (within_ℤ min max c r)

  unfoldable pub match_long_long : Result Error (Option ℤ × Context)
  match_long_long = do r ← FastInt.match_long_long c; ok (within_ℤ min max c r)

module _ (min max : ℕ) (c : Context) where
  unfoldable pub match_unsigned : Option ℕ × Context
  match_unsigned = within min max c (FastInt.match_unsigned c)

  unfoldable pub match_unsigned_long : Option ℕ × Context
  match_unsigned_long = within min max c (FastInt.match_unsigned_long c)

  unfoldable pub match_unsigned_long_long : Option ℕ × Context
  match_unsigned_long_long = within min max c (FastInt.match_unsigned_long_long c)

-- `if (!match(...)) exception(error); return result;`.
abbrev pub matched {ℓ} : {A : Type ℓ} → Option A × Context → Result Error (A × Context)
matched (none, c) = err expected
matched (some a, c) = ok (a, c)

pub expect_int : ℤ → ℤ → Context → Result Error (ℤ × Context)
unfolding match_int
expect_int min max c = matched (match_int min max c)

-- An `unsigned` returned as an `int`.
abbrev pub to_i32 : ℕ → ℤ
to_i32 u = if ltb u (2 ^ 31) then pos u else negsuc (2 ^ 32 - 1 - u)

pub expect_unsigned : ℕ → ℕ → Context → Result Error (ℤ × Context)
unfolding match_unsigned
expect_unsigned min max c = do r ← matched (match_unsigned min max c); ok (to_i32 r.0, r.1)

pub expect_long : ℤ → ℤ → Context → Result Error (ℤ × Context)
unfolding match_long
expect_long min max c = do r ← match_long min max c; matched r

pub expect_unsigned_long : ℕ → ℕ → Context → Result Error (ℕ × Context)
unfolding match_unsigned_long
expect_unsigned_long min max c = matched (match_unsigned_long min max c)

pub expect_long_long : ℤ → ℤ → Context → Result Error (ℤ × Context)
unfolding match_long_long
expect_long_long min max c = do r ← match_long_long min max c; matched r

pub expect_unsigned_long_long : ℕ → ℕ → Context → Result Error (ℕ × Context)
unfolding match_unsigned_long_long
expect_unsigned_long_long min max c = matched (match_unsigned_long_long min max c)
