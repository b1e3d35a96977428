-- ===== src/BitRange/Fields.antt =====
-- The operations on one or two words, as arithmetic on the number that the two words make up.
use native.Mathlib.Nat.{
  div-lt_iff_lt-mul, div-add-mod', mod-lt, mul_comm, pow-suc, pow-le-pow_right, zero-mul, one-mul,
  mod-mod_of_dvd, min-eq_left, zero-mod, mod-eq_of_lt, mod_self,
}
use jml_base.Common.{
  ℕ, suc, ◌+◌, ◌-◌, ◌*◌, ◌/◌, ◌%◌, ◌^◌, ◌≤◌, ◌<◌, min, max, ltb, lt→ltb, le→ltb, none,
  if◌then◌else◌, some, Bool, true, false, ◌≡◌, ◌≢◌, refl, ap, ◌∙◌, ◌⊎◌, inr, arith, ℕ_discrete,
  dec_lt,
}
use jml_base.Common.Bits.{bit_and_ones, bit_or_join_low, split_pow, pow_pos}
use Prim.Native.Nat.{bit_and}
use jml_base.Common.Bits.{mul-mod-mul, div-join, mod-join}
use jml_base.BitRange.{IsWidth, shrd_emulated, shrd, mask_lower, extract_bit_range}

-- `B` is the weight of the offset in a word of weight `B * P`.
middle_word :
    (low high B P : ℕ)
    → 0 < B
    → low < B * P
    → (low + high * (B * P)) / B % (B * P) ≡ high % B * P + low / B
middle_word low high B P hB hl =
    let below : low / B < P = (div-lt_iff_lt-mul hB).1 (omega (arith, mul_comm B P)) in
    let quotient : (low + high * (B * P)) / B ≡ high * P + low / B =
      ap (λ (t : ℕ). t / B) (omega (arith, div-add-mod' low B))
      ∙ div-join (high * P + low / B) (low % B) B (mod-lt low hB) in
    let whole : high * P + low / B ≡ high / B * (B * P) + (high % B * P + low / B) =
      omega (arith, ap (λ (t : ℕ). t * P) (div-add-mod' high B)) in
    rw (quotient, whole)
      (mod-join (high / B) (high % B * P + low / B) (B * P) (grind (arith, mod-lt high hB)))

pow-lt : (a b : ℕ) → a < b → 2 ^ a < 2 ^ b
pow-lt a b h =
    ground
      (arith, pow-suc 2 a, pow-le-pow_right {n = 2} (omega arith) {i = suc a} {j = b} h, pow_pos a)

-- `(1 << n) - 1` is a mask of `n` ones, also where the shift takes the one out of the word.
pub wrap_ones : (n w : ℕ) → n ≤ w → (1 * 2 ^ n % 2 ^ w + 2 ^ w - 1) % 2 ^ w ≡ 2 ^ n - 1
wrap_ones n w h = elim (dec_lt n w) [
  | yes p ↦
      let weight : 1 * 2 ^ n % 2 ^ w ≡ 2 ^ n =
        ap (λ (t : ℕ). t % 2 ^ w) (one-mul (2 ^ n)) ∙ mod-eq_of_lt (pow-lt n w p) in
      let sum : 2 ^ n + 2 ^ w - 1 ≡ 1 * 2 ^ w + (2 ^ n - 1) = omega (arith, pow_pos n) in
      rw (weight, sum) (mod-join 1 (2 ^ n - 1) (2 ^ w) (omega (arith, pow-lt n w p)))
  | no p ↦
      let same : n ≡ w = omega arith in
      let weight : 1 * 2 ^ w % 2 ^ w ≡ 0 =
        ap (λ (t : ℕ). t % 2 ^ w) (one-mul (2 ^ w)) ∙ mod_self (2 ^ w) in
      rw (same, weight) (mod-eq_of_lt {n = 0 + 2 ^ w - 1} (omega (arith, pow_pos w)) ∙ omega arith)
]

module _ (w : ℕ) where
  -- An offset below the width needs no masking of the shift count.
  shrd_insn_lem :
      (low high bit : ℕ)
      → IsWidth w
      → w ≢ 8
      → bit < w
      → shrd w low high bit ≡ some ((low + high * 2 ^ w) / 2 ^ bit % 2 ^ w)
  unfolding shrd
  shrd_insn_lem low high bit hw h8 hb = ground arith

  shrd_emulated_lem :
      (low high bit : ℕ)
      → low < 2 ^ w
      → 0 < bit ⊎ (w < 32)
      → bit < w
      → shrd_emulated w low high bit ≡ some ((low + high * 2 ^ w) / 2 ^ bit % 2 ^ w)
  unfolding shrd_emulated
  shrd_emulated_lem low high bit hl hz hb =
      let split = split_pow bit w (omega arith) in
      let fits : low / 2 ^ bit < 2 ^ (w - bit) =
        (div-lt_iff_lt-mul (pow_pos bit)).1 (omega (arith, mul_comm (2 ^ bit) (2 ^ (w - bit)))) in
      ground (
        arith,
        ap (λ (t : ℕ). (low + high * t) / 2 ^ bit % t) split,
        ap (λ (t : ℕ). high * 2 ^ (w - bit) % t) split,
        middle_word low high (2 ^ bit) (2 ^ (w - bit)) (pow_pos bit),
        mul-mod-mul high (2 ^ bit) (2 ^ (w - bit)) (pow_pos bit) (pow_pos (w - bit)),
        bit_or_join_low (w - bit) (high % 2 ^ bit) (low / 2 ^ bit) fits,
      )

  mask_cases :
      (b : Bool) (val bits : ℕ)
      → ltb bits w ≡ b
      → val < 2 ^ w
      → bit_and val (((if b then 1 else 0) * 2 ^ bits % 2 ^ w + 2 ^ w - 1) % 2 ^ w)
        ≡ val % 2 ^ min bits w
  mask_cases true val bits e h =
      let small : bits < w = ground arith in
      let keep : min bits w ≡ bits = omega arith in
      rw (keep, wrap_ones bits w (omega arith)) (bit_and_ones bits val)
  mask_cases false val bits e h =
      let keep : min bits w ≡ w = ground arith in
      let no_bit : ((if false then 1 else 0) * 2 ^ bits % 2 ^ w) ≡ 0 =
        ap (λ (t : ℕ). t % 2 ^ w) (zero-mul (2 ^ bits)) ∙ zero-mod (2 ^ w) in
      let ones : (0 + 2 ^ w - 1) % 2 ^ w ≡ 2 ^ w - 1 =
        mod-eq_of_lt {n = 0 + 2 ^ w - 1} (omega (arith, pow_pos w)) ∙ omega arith in
      rw (keep, no_bit, ones) (bit_and_ones w val)

  -- `maskLower` keeps `bits` bits, and the whole word from its width on, where the shift is defined.
  mask_lower_lem :
      (val bits : ℕ)
      → val < 2 ^ w
      → mask_lower w val bits ≡ (if ltb bits (max w 32) then some (val % 2 ^ min bits w) else none)
  unfolding mask_lower
  mask_lower_lem val bits h = elim (dec_lt bits (max w 32)) [
    | yes p ↦ rw (lt→ltb bits (max w 32) p) (ap some (mask_cases (ltb bits w) val bits refl h))
    | no p ↦ rw (le→ltb bits (max w 32) (omega arith)) refl
  ]

  -- The two words hold one number, and `shrd` reads its middle word.
  shrd_lem :
      (low high bit : ℕ)
      → IsWidth w
      → low < 2 ^ w
      → bit < w
      → shrd w low high bit ≡ some ((low + high * 2 ^ w) / 2 ^ bit % 2 ^ w)
  unfolding shrd
  shrd_lem low high bit hw hl hb = elim (ℕ_discrete w 8) [
    | yes e ↦ ground (arith, shrd_emulated_lem low high bit hl (inr (omega arith)) hb)
    | no e ↦ ground arith
  ]

  -- A field of at most `w` bits is read whole from the number that the two words make up, wherever it
  -- starts in the first, but for a field of the width of a word of 32 or 64 bits: for that the mask is
  -- made by a shift that is undefined.
  pub extract_bit_range_lem :
      (p0 p1 bit bits : ℕ)
      → IsWidth w
      → p0 < 2 ^ w
      → bit < w
      → bits ≤ w
      → extract_bit_range w p0 p1 bit bits
        ≡ (if ltb bits (max w 32) then some ((p0 + p1 * 2 ^ w) / 2 ^ bit % 2 ^ bits) else none)
  unfolding extract_bit_range
  extract_bit_range_lem p0 p1 bit bits hw hl hb hs =
      let middle = (p0 + p1 * 2 ^ w) / 2 ^ bit in
      let kept : middle % 2 ^ w % 2 ^ min bits w ≡ middle % 2 ^ bits =
        rw (min-eq_left hs)
          (mod-mod_of_dvd (2 ^ bits) middle ∣ (2 ^ (w - bits), split_pow bits w hs) ∣₁) in
      rw (shrd_lem p0 p1 bit hw hl hb)
        (rw (mask_lower_lem (middle % 2 ^ w) bits (mod-lt _ (pow_pos w)), kept) refl)

  -- The field, where its width is one that the mask's shift is defined at.
  pub extract_bit_range-defined :
      (p0 p1 bit bits : ℕ)
      → IsWidth w
      → p0 < 2 ^ w
      → bit < w
      → bits ≤ w
      → bits < max w 32
      → extract_bit_range w p0 p1 bit bits ≡ some ((p0 + p1 * 2 ^ w) / 2 ^ bit % 2 ^ bits)
  extract_bit_range-defined p0 p1 bit bits hw hl hb hs defined =
      extract_bit_range_lem p0 p1 bit bits hw hl hb hs ∙ rw (lt→ltb bits (max w 32) defined) refl
