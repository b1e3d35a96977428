-- ===== src/FastInt/Tests.antt =====
-- Numbers read from short texts.
use jml_base.Common.{◌^◌, ◌≡◌, refl, arith, [], ◌∷◌, some}
use jml_base.Common.Int.{negsuc}
use jml_base.Parse.{Context, context_of}
use jml_base.Parse.Moving.{take_while, drop_while, over}
use jml_base.FastInt.{match_unsigned, match_int}
use jml_base.FastInt.Decimal.{read_digits, match_unsigned-eq-read_digits}
use jml_base.FastInt.Print.{decimal}
use jml_base.FastInt.RoundTrip.{print, match_int-print}

-- The text "-12,".
abbrev minus_twelve : Context
minus_twelve = record { rest = b'-' ∷ b'1' ∷ b'2' ∷ b',' ∷ []; line = 3; col = 4; ofs = 20 }

-- 2 ^ 64 wraps to 0.
wraps : (c : Context) × (match_unsigned (context_of (decimal 20 (2 ^ 64))) ≡ (some 0, c))
unfolding match_unsigned context_of decimal
wraps = (record { rest = []; line = 1; col = 21; ofs = 20 }, refl)

match_unsigned-eq-read_digits_example :
    match_unsigned (context_of (b'4' ∷ b'2' ∷ b'x' ∷ []))
    ≡ read_digits (b'4' ∷ b'2' ∷ []) (b'x' ∷ []) (context_of (b'4' ∷ b'2' ∷ b'x' ∷ []))
unfolding take_while drop_while context_of
match_unsigned-eq-read_digits_example =
    match_unsigned-eq-read_digits (context_of (b'4' ∷ b'2' ∷ b'x' ∷ []))

match_int-print_example :
    match_int minus_twelve ≡ (some (negsuc 11), over (print (negsuc 11)) (b',' ∷ []) minus_twelve)
match_int-print_example =
    match_int-print (negsuc 11) (b',' ∷ []) minus_twelve (omega arith) refl
      (unfold print decimal in refl)
