-- ===== src/Parse/Tests.antt =====
-- Numbers within bounds, and the position in a text.
use jml_base.Common.{◌≡◌, refl, arith, [], ◌∷◌}
use jml_base.Common.Int.{pos, negsuc}
use jml_base.Common.Result.{ok}
use jml_base.Parse.{Context}
use jml_base.Parse.Numbers.{match_int, match_long_long}
use jml_base.Parse.Bounds.{bounded, match_int-print-bounded, match_long_long-print-bounded}
use jml_base.FastInt.Print.{decimal}
use jml_base.FastInt.RoundTrip.{print}

-- The text "-12,".
abbrev minus_twelve : Context
minus_twelve = record { rest = b'-' ∷ b'1' ∷ b'2' ∷ b',' ∷ []; line = 3; col = 4; ofs = 20 }

match_int-print-bounded_example :
    match_int (pos 0) (pos 99) minus_twelve
    ≡ bounded (pos 0) (pos 99) (negsuc 11) (b',' ∷ []) minus_twelve
match_int-print-bounded_example =
    match_int-print-bounded (pos 0) (pos 99) (negsuc 11) (b',' ∷ []) minus_twelve (omega arith) refl
      (unfold print decimal in refl)

match_long_long-print-bounded_example :
    match_long_long (negsuc 99) (pos 99) minus_twelve
    ≡ ok (bounded (negsuc 99) (pos 99) (negsuc 11) (b',' ∷ []) minus_twelve)
match_long_long-print-bounded_example =
    match_long_long-print-bounded (negsuc 99) (pos 99) (negsuc 11) (b',' ∷ []) minus_twelve
      (omega arith) refl (unfold print decimal in refl)
