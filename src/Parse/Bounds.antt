-- ===== src/Parse/Bounds.antt =====
-- Numbers printed in decimal and read within bounds.
use jml_base.Common.{
  ℕ, ◌≡◌, ◌||◌, if◌then◌else◌, Bool-cases, inl, inr, List, ◌++◌, Option, none, some,
}
use jml_base.Common.Int.{ℤ, ltb_ℤ}
use jml_base.Common.Result.{ok, err}
use jml_base.Compact.Signed.{IsI64}
use jml_base.Parse.{Context, overflow}
use jml_base.Parse.Moving.{over}
use jml_base.Parse.Numbers.{match_int, match_long_long}
use jml_base.FastInt.RoundTrip.{print, is_least, NoDigit, match_int-print, match_long_long-print}

-- The integer where it lies within the bounds, or else nothing, with the context where it was.
abbrev pub bounded : ℤ → ℤ → ℤ → List ℕ → Context → Option ℤ × Context
bounded min max z r c =
    if ltb_ℤ z min || ltb_ℤ max z then (none, c) else (some z, over (print z) r c)

-- A 64-bit integer printed in decimal is read back by `Parse_Context::match_int` where it lies within the
-- bounds; where it does not, nothing is read and the context stays as it was.
pub match_int-print-bounded :
    (min max z : ℤ) (r : List ℕ) (c : Context)
    → IsI64 z
    → NoDigit r
    → c.rest ≡ print z ++ r
    → match_int min max c ≡ bounded min max z r c
unfolding match_int
match_int-print-bounded min max z r c h k e = rw (match_int-print z r c h k e)

-- So too with `Parse_Context::match_long_long`, but for the least 64-bit integer, which overflows.
pub match_long_long-print-bounded :
    (min max z : ℤ) (r : List ℕ) (c : Context)
    → IsI64 z
    → NoDigit r
    → c.rest ≡ print z ++ r
    → match_long_long min max c ≡ (if is_least z then err overflow else ok (bounded min max z r c))
unfolding match_long_long
match_long_long-print-bounded min max z r c h k e = elim (Bool-cases (is_least z)) [
  | inl least ↦ rw (match_long_long-print z r c h k e, least)
  | inr other ↦ rw (match_long_long-print z r c h k e, other)
]
