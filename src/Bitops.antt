-- ===== src/Bitops.antt =====
-- arch/bitops.h: the highest and the lowest bit set, population count and rotation. On Intel the
-- searches are the instructions `bsr` and `bsf`; elsewhere they are a ladder of masks and shifts.
pub mod Highest
mod Tests
use Prim.Native.Nat.{bit_and, bit_or}
use jml_base.Common.{
  ℕ, zero, suc, ◌+◌, ◌-◌, ◌*◌, ◌/◌, ◌%◌, ◌^◌, ltb, leb, ◌==◌, ◌&&◌, if◌then◌else◌, Bool, List, [],
  ◌∷◌,
}
use jml_base.Common.Int.{ℤ, pos, negsuc}

-- The index of the highest bit set in a number below 2 ^ suc fuel, and of the lowest.
unfoldable pub bsr : ℕ → ℕ → ℕ
bsr zero x = 0
bsr (suc fuel) x = if ltb x 2 then 0 else suc (bsr fuel (x / 2))

unfoldable pub bsf : ℕ → ℕ → ℕ
bsf zero x = 0
bsf (suc fuel) x = if x % 2 == 1 then 0 else suc (bsf fuel (x / 2))

-- `highest_bit` for a type of `w` bits: `bsr`, with a conditional move where a bit is set.
unfoldable pub highest_bit : ℕ → ℕ → ℤ → ℤ
highest_bit w arg none_set = if arg == 0 then none_set else pos (bsr (w - 1) arg)

unfoldable pub lowest_bit : ℕ → ℕ → ℤ → ℤ
lowest_bit w arg none_set = if arg == 0 then none_set else pos (bsf (w - 1) arg)

-- A rung: `if (arg & mask) { res += k; arg >>= k; }`. `res` starts at -1, so it is kept one higher.
abbrev pub rung : ℕ → ℕ → ℕ × ℕ → ℕ × ℕ
rung mask k (res, arg) = if bit_and arg mask == 0 then (res, arg) else (res + k, arg / 2 ^ k)

abbrev pub pred_ℤ : ℕ → ℤ
pred_ℤ zero = negsuc 0
pred_ℤ (suc n) = pos n

-- The end: `assert(arg <= 1); res += (arg != 0);`.
abbrev pub rungs_end : ℕ × ℕ → ℤ
rungs_end (res, arg) = if arg == 0 then pred_ℤ res else pos res

-- `highest_bit_switch<1>`, `<2>`, `<4>` and `<8>` without the instruction.
unfoldable pub highest_ladder_8 : ℕ → ℤ
highest_ladder_8 arg = rungs_end (rung 0x03 1 (rung 0x0c 2 (rung 0xf0 4 (0, arg))))

unfoldable pub highest_ladder_16 : ℕ → ℤ
highest_ladder_16 arg = rungs_end (rung 0x03 1 (rung 0x0c 2 (rung 0xf0 4 (rung 0xff00 8 (0, arg)))))

unfoldable pub highest_ladder_32 : ℕ → ℤ
highest_ladder_32 arg =
    rungs_end
      (rung 0x03 1 (rung 0x0c 2 (rung 0xf0 4 (rung 0xff00 8 (rung 0xffff0000 16 (0, arg))))))

-- `if (result != -1) return result + 32;`, else the search of the lower half.
abbrev pub upper_or : ℤ → ℤ → ℤ
upper_or (pos result) lower = pos (result + 32)
upper_or (negsuc _) lower = lower

unfoldable pub highest_ladder_64 : ℕ → ℤ
highest_ladder_64 arg = upper_or (highest_ladder_32 (arg / 2 ^ 32)) (highest_ladder_32 arg)

-- `lowest_bit_switch<1>` without the instruction.
unfoldable pub lowest_ladder_8 : ℕ → ℤ
lowest_ladder_8 arg = rungs_end (rung 0x03 1 (rung 0x0c 2 (rung 0xf0 4 (0, arg))))
