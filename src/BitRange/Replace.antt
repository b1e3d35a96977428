-- ===== src/BitRange/Replace.antt =====
-- `set_bits` and `set_bit_range` as arithmetic: one field of a number is replaced, the bits below
-- and above it stay.
use Prim.Native.Nat.{bit_and, bit_or}
use native.Mathlib.Nat.{div-lt_iff_lt-mul, mod-lt, suc-mul, mod-eq_of_lt, mod-mod_of_dvd}
use jml_base.Common.{
  ℕ, zero, suc, ◌+◌, ◌-◌, ◌*◌, ◌/◌, ◌%◌, ◌^◌, ◌≤◌, ◌<◌, min, max, ltb, leb, ◌==◌, if◌then◌else◌,
  none, some, true, false, ◌≡◌, ◌≢◌, refl, ap, ◌∙◌, ◌⊎◌, arith, dec_lt,
}
use jml_base.Common.Bits.{bit_and_ones, bit_and_fields, bit_or_fields, bit_or_join_low, pow_pos}
use jml_base.Common.Bits.{bit_and-zero, bit_or-zero, mul-mod-mul, pow-add}
use jml_base.BitRange.Fields.{wrap_ones}
use jml_base.BitRange.Numbers.{fields, replaced, fields_of, middle-lt}
use jml_base.BitRange.{IsWidth, shl, set_bits, set_bit_range, ◌>>=◌}

module _ (a n : ℕ) where
  -- `word & ~mask`
  clear_field :
      (r hi mid lo : ℕ)
      → hi < 2 ^ r
      → mid < 2 ^ n
      → lo < 2 ^ a
      → bit_and (fields a n hi mid lo) (fields a n (2 ^ r - 1) 0 (2 ^ a - 1)) ≡ fields a n hi 0 lo
  clear_field r hi mid lo hh hm hl = ground (
    arith,
    bit_and_fields (a + n) hi (mid * 2 ^ a + lo) (2 ^ r - 1) (0 * 2 ^ a + (2 ^ a - 1)),
    middle-lt a n mid lo hm hl,
    middle-lt a n 0 (2 ^ a - 1),
    pow_pos a,
    pow_pos n,
    bit_and_fields a mid lo 0 (2 ^ a - 1),
    bit_and_ones r hi,
    mod-eq_of_lt hh,
    bit_and-zero mid,
    bit_and_ones a lo,
    mod-eq_of_lt hl,
  )

  -- `(val << bit) & mask`
  place_field : (val : ℕ) → bit_and (val * 2 ^ a) ((2 ^ n - 1) * 2 ^ a) ≡ val % 2 ^ n * 2 ^ a
  place_field val =
      ground
        (arith, bit_and_fields a val 0 (2 ^ n - 1) 0, pow_pos a, bit_and_ones n val, bit_and-zero 0)

  -- `(word & ~mask) | (val & mask)`
  merge_field :
      (hi mid lo : ℕ)
      → mid < 2 ^ n
      → lo < 2 ^ a
      → bit_or (fields a n hi 0 lo) (mid * 2 ^ a) ≡ fields a n hi mid lo
  merge_field hi mid lo hm hl = ground (
    arith,
    bit_or_fields (a + n) hi lo 0 (mid * 2 ^ a),
    middle-lt a n 0 lo,
    middle-lt a n mid 0 hm,
    pow_pos a,
    pow_pos n,
    bit_or-zero hi,
    bit_or_join_low a mid lo hl,
  )

pred-mul : (x y : ℕ) → (x - 1) * y ≡ x * y - y
pred-mul zero y = omega arith
pred-mul (suc x) y = grind (arith, suc-mul x y)

-- The word has `r` bits above the field.
module _ (w a n r : ℕ) (whole : w ≡ r + (a + n)) (start : a < w) where
  weights : (2 ^ w ≡ 2 ^ r * 2 ^ (a + n)) × (2 ^ (a + n) ≡ 2 ^ a * 2 ^ n)
  weights = (ap (λ (t : ℕ). 2 ^ t) whole ∙ pow-add r (a + n), pow-add a n)

  -- The mask stands in the word, so shifting it loses nothing.
  mask-lt : (2 ^ n - 1) * 2 ^ a < 2 ^ w
  mask-lt = grind (arith, weights, pow_pos r, pow_pos a, pow_pos n)

  shl_mask : shl w (2 ^ n - 1) a ≡ some ((2 ^ n - 1) * 2 ^ a)
  shl_mask = ground (arith, mod-eq_of_lt mask-lt)

  not_mask : 2 ^ w - 1 - (2 ^ n - 1) * 2 ^ a ≡ fields a n (2 ^ r - 1) 0 (2 ^ a - 1)
  not_mask = grind (
    arith,
    weights,
    pow_pos r,
    pow_pos a,
    pow_pos n,
    pred-mul (2 ^ n) (2 ^ a),
    pred-mul (2 ^ r) (2 ^ (a + n)),
  )

  -- What `val` has above the field is cut off by the shift or by the mask.
  shifted_field :
      (val : ℕ) → bit_and (val * 2 ^ a % 2 ^ w) ((2 ^ n - 1) * 2 ^ a) ≡ val % 2 ^ n * 2 ^ a
  shifted_field val =
      let split : 2 ^ w ≡ 2 ^ (n + r) * 2 ^ a =
        ap (λ (t : ℕ). 2 ^ t) {x = w} {y = n + r + a} (omega arith) ∙ pow-add (n + r) a in
      let cut : val * 2 ^ a % 2 ^ w ≡ val % 2 ^ (n + r) * 2 ^ a =
        ap (λ (t : ℕ). val * 2 ^ a % t) split
        ∙ mul-mod-mul val (2 ^ (n + r)) (2 ^ a) (pow_pos (n + r)) (pow_pos a) in
      rw (cut, place_field a n (val % 2 ^ (n + r)))
        (ap (λ (t : ℕ). t * 2 ^ a) (mod-mod_of_dvd (2 ^ n) val ∣ (2 ^ r, pow-add n r) ∣₁))

  low_ones :
      IsWidth w
      → n ≢ 32 ⊎ (w ≢ 32)
      → (if leb 64 n
          then some (2 ^ w - 1)
          else (shl w 1 n >>= λ one. some ((one + 2 ^ w - 1) % 2 ^ w)))
        ≡ some (2 ^ n - 1)
  low_ones hw hn = elim (dec_lt n 64) [
    | yes p ↦ ground (arith, wrap_ones n w (omega arith))
    | no p ↦ let same : n ≡ w = omega arith in ground (arith, ap (λ (t : ℕ). 2 ^ t) same)
  ]

  set_bits_lem :
      IsWidth w
      → n ≢ 32 ⊎ (w ≢ 32)
      → (hi mid lo val : ℕ) → hi < 2 ^ r
      → mid < 2 ^ n
      → lo < 2 ^ a
      → set_bits w (fields a n hi mid lo) val a n ≡ some (fields a n hi (val % 2 ^ n) lo)
  unfolding set_bits
  set_bits_lem hw hn hi mid lo val hh hm hl =
      let inside : ltb a (max w 32) ≡ true = ground arith in
      rw (
        low_ones hw hn,
        shl_mask,
        inside,
        not_mask,
        clear_field a n r hi mid lo hh hm hl,
        shifted_field val,
        merge_field a n hi (val % 2 ^ n) lo (mod-lt val (pow_pos n)) hl,
      )

-- `set_bits` replaces the field by the low bits of the value.
pub set_bits-replaced :
    (w a n r : ℕ)
    → w ≡ r + (a + n)
    → a < w
    → IsWidth w
    → n ≢ 32 ⊎ (w ≢ 32)
    → (x val : ℕ) → x < 2 ^ w
    → set_bits w x val a n ≡ some (replaced a n (val % 2 ^ n) x)
set_bits-replaced w a n r whole start hw hn x val hx =
    let upper : x / 2 ^ (a + n) < 2 ^ r =
      (div-lt_iff_lt-mul (pow_pos (a + n))).1 (omega (arith, (weights w a n r whole start).0)) in
    ap (λ (t : ℕ). set_bits w t val a n) (fields_of a n x)
    ∙ set_bits_lem w a n r whole start hw hn (x / 2 ^ (a + n)) (x / 2 ^ a % 2 ^ n) (x % 2 ^ a) val
        upper (mod-lt (x / 2 ^ a) (pow_pos n)) (mod-lt x (pow_pos a))

module _ (w : ℕ) (hw : IsWidth w) where
  -- The field ends in the first word, which has `r` more bits: the second is not touched.
  pub set_within :
      (p0 p1 val bit bits r : ℕ)
      → bits ≢ 32 ⊎ (w ≢ 32)
      → 0 < bits
      → w ≡ r + (bit + bits)
      → p0 < 2 ^ w
      → set_bit_range w p0 p1 val bit bits ≡ some (replaced bit bits (val % 2 ^ bits) p0, p1)
  unfolding set_bit_range
  set_within p0 p1 val bit bits r hn hpos whole h0 =
      let all0 : min bits (w - bit) ≡ bits = omega arith in
      let none1 : (bits - bits == 0) ≡ true = ground arith in
      let some0 : (bits == 0) ≡ false = ground arith in
      rw (all0, some0, set_bits-replaced w bit bits r whole (omega arith) hw hn p0 val h0, none1)

  -- The field takes the last `bits0` bits of the first word and the first `bits1` of the second.
  pub set_across :
      (p0 p1 val bit bits0 bits1 r : ℕ)
      → bits0 + bits1 ≤ w
      → 0 < bits0
      → 0 < bits1
      → w ≡ bit + bits0
      → w ≡ r + bits1
      → p0 < 2 ^ w
      → p1 < 2 ^ w
      → set_bit_range w p0 p1 val bit (bits0 + bits1)
        ≡ some (
          replaced bit bits0 (val % 2 ^ bits0) p0,
          replaced 0 bits1 (val / 2 ^ bits0 % 2 ^ bits1) p1,
        )
  unfolding set_bit_range
  set_across p0 p1 val bit bits0 bits1 r hs h0 h1 whole0 whole1 w0 w1 =
      let part0 : min (bits0 + bits1) (w - bit) ≡ bits0 = omega arith in
      let part1 : bits0 + bits1 - bits0 ≡ bits1 = omega arith in
      let some0 : (bits0 + bits1 == 0) ≡ false = ground arith in
      let some1 : (bits1 == 0) ≡ false = ground arith in
      let inside : ltb bits0 (max w 32) ≡ true = ground arith in
      rw (
        part0,
        some0,
        set_bits-replaced w bit bits0 0 (omega arith) (omega arith) hw (omega arith) p0 val w0,
        part1,
        some1,
        inside,
        set_bits-replaced w 0 bits1 r (omega arith) (omega arith) hw (omega arith) p1
            (val / 2 ^ bits0) w1,
      )

-- For a 32-bit word a field of all 32 bits is undefined behaviour: `bits >= 64` does not hold, and
-- `Data(1) << 32` shifts by the width of the word.
pub set_bits_full_u32 : (word val bit : ℕ) → set_bits 32 word val bit 32 ≡ none
unfolding set_bits
set_bits_full_u32 word val bit = refl
