-- ===== src/BitRange.antt =====
-- arch/bit_range_ops.h: bit fields that may straddle two machine words. `w` is `sizeof(Data) * 8`
-- for an unsigned `Data`; a word is a number below 2 ^ w. The build is the one for Intel, where
-- `shrd` is the instruction but for bytes.
pub mod Fields
pub mod Replace
pub mod Numbers
pub mod Pair
pub mod Signs
use jml_base.Common.{
  ℕ, ◌+◌, ◌-◌, ◌≡◌, ◌⊎◌, ◌*◌, ◌/◌, ◌%◌, ◌^◌, min, max, ltb, leb, ◌==◌, if◌then◌else◌, Option, none,
  some,
}
use Prim.Native.Nat.{bit_and, bit_or}

-- `none` is undefined behaviour: a shift by the width of the promoted operand or more, or an access
-- outside an array.
infixl 5 ◌>>=◌
abbrev pub ◌>>=◌ {ℓ κ} : {A : Type ℓ} {B : Type κ} → Option A → (A → Option B) → Option B
none >>= f = none
some a >>= f = f a

module _ (w : ℕ) where
  -- The widths that `Data` can have.
  abbrev pub IsWidth : Type 0
  IsWidth = (w ≡ 8) ⊎ (w ≡ 16) ⊎ (w ≡ 32) ⊎ (w ≡ 64)

  -- `x << k` and `x >> k`; a `Data` narrower than `int` is promoted to `int`.
  abbrev pub shl : ℕ → ℕ → Option ℕ
  shl x k = if ltb k (max w 32) then some (x * 2 ^ k % 2 ^ w) else none

  abbrev pub shr : ℕ → ℕ → Option ℕ
  shr x k = if ltb k (max w 32) then some (x / 2 ^ k) else none

  -- `TBITS - bits` is unsigned: past `TBITS` it is a shift count out of range.
  unfoldable pub shrd_emulated : ℕ → ℕ → ℕ → Option ℕ
  shrd_emulated low high bits =
      if leb bits w
      then (do low' ← shr low bits; high' ← shl high (w - bits); some (bit_or low' high'))
      else none

  -- The instruction takes the count modulo 64 for 64-bit operands, and modulo 32 for others.
  abbrev pub shrd_count : ℕ → ℕ
  shrd_count bits = if w == 64 then bits % 64 else bits % 32

  unfoldable pub shrd : ℕ → ℕ → ℕ → Option ℕ
  unfolding shrd_emulated
  shrd low high bits =
      if w == 8
      then shrd_emulated low high bits
      else if ltb w bits
      then some 0
      else some ((low + high * 2 ^ w) / 2 ^ shrd_count bits % 2 ^ w)

  -- `T full = bits < TBITS`; the shift counts all of `bits`, and the subtraction of 1 wraps.
  unfoldable pub mask_lower : ℕ → ℕ → Option ℕ
  mask_lower val bits = do
    full ← shl (if ltb bits w then 1 else 0) bits
    some (bit_and val ((full + 2 ^ w - 1) % 2 ^ w))

  -- The overload on two values.
  unfoldable pub extract_bit_range : ℕ → ℕ → ℕ → ℕ → Option ℕ
  unfolding shrd mask_lower
  extract_bit_range p0 p1 bit bits = do middle ← shrd p0 p1 bit; mask_lower middle bits

  unfoldable pub set_bits : ℕ → ℕ → ℕ → ℕ → Option ℕ
  set_bits word val bit bits =
      let low_ones = (do one ← shl 1 bits; some ((one + 2 ^ w - 1) % 2 ^ w)) in
      do
        ones ← (if leb 64 bits then some (2 ^ w - 1) else low_ones)
        mask ← shl ones bit
        moved ← shl val bit
        some (bit_or (bit_and word (2 ^ w - 1 - mask)) (bit_and moved mask))

  unfoldable pub set_bit_range : ℕ → ℕ → ℕ → ℕ → ℕ → Option (ℕ × ℕ)
  set_bit_range p0 p1 val bit bits =
      let bits0 = min bits (w - bit) in
      let bits1 = bits - bits0 in
      let upper = (do rest ← shr val bits0; set_bits p1 rest 0 bits1) in
      let both = (do
        p0' ← set_bits p0 val bit bits0
        p1' ← (if bits1 == 0 then some p1 else upper)
        some (p0', p1')) in
      if bits == 0 then some (p0, p1) else both
