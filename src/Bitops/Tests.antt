-- ===== src/Bitops/Tests.antt =====
-- The bit searches at concrete words.
use jml_base.Common.{◌≡◌, arith, refl}
use jml_base.Common.Int.{pos, negsuc}
use jml_base.Bitops.{bsf, highest_bit, lowest_bit, lowest_ladder_8}
use jml_base.Bitops.Highest.{lowest_ladder_8-eq-highest_bit}

-- The instruction and the ladder disagree on the lowest bit of 6.
lowest_of_six : (lowest_bit 8 6 (negsuc 0) ≡ pos 1) × (lowest_ladder_8 6 ≡ pos 2)
unfolding lowest_bit bsf lowest_ladder_8
lowest_of_six = (refl, refl)

lowest_ladder_8-eq-highest_bit_example : lowest_ladder_8 6 ≡ highest_bit 8 6 (negsuc 0)
lowest_ladder_8-eq-highest_bit_example = lowest_ladder_8-eq-highest_bit 6 (omega arith)
