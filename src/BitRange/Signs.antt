-- ===== src/BitRange/Signs.antt =====
-- arch/bit_range_ops.h: `sign_extend` and `fixup_extract`. A signed `T` of w bits is its pattern, a number below
-- 2 ^ w; a left shift of a negative number shifts the pattern.
use native.Mathlib.Nat.{pow-suc, pow-le-pow_right, mod-eq_of_lt, mod_self, zero-mod}
use jml_base.Common.{
  ℕ, zero, suc, ◌+◌, ◌-◌, ◌*◌, ◌%◌, ◌/◌, ◌^◌, ◌<◌, ◌≡◌, ◌==◌, if◌then◌else◌, refl, sym, ap, ap₂,
  ◌∙◌, arith, true, false, ltb, max, Option, some, dec_lt,
}
use jml_base.Common.Bits.{
  bit_and_fields, bit_or_fields, bit_and-zero, zero-bit_and, bit_or-zero, zero-bit_or, bit_or_step,
  pow_pos, split_pow, mod-join, mul-mod-mul,
}
use jml_base.BitRange.{◌>>=◌, shl}
use Prim.Native.Nat.{bit_and, bit_or}

one_less : (a b : ℕ) → 0 < a → 0 < b → a * b - 1 ≡ (a - 1) * b + (b - 1)
one_less zero b ha hb = elim ha [ ]
one_less (suc a) b ha hb = let less : suc a - 1 ≡ a = omega arith in rw less (omega arith)

minus_one : (k m : ℕ) → 0 < k → (k - 1) * m ≡ k * m - m
minus_one zero m h = elim h [ ]
minus_one (suc k) m h = let less : suc k - 1 ≡ k = omega arith in rw less (omega arith)

module _ (w : ℕ) where
  unfoldable pub sign_extend : ℕ → ℕ → Option ℕ
  sign_extend raw sign_bit = do
    one ← shl w 1 sign_bit
    (let sign : ℕ = if bit_and raw one == 0 then 0 else 1 in
        do new_bits ← shl w ((2 ^ w - sign) % 2 ^ w) sign_bit; some (bit_or raw new_bits))

  -- The overloads on signed types.
  unfoldable pub fixup_extract : ℕ → ℕ → Option ℕ
  unfolding sign_extend
  fixup_extract e bits = sign_extend e bits

  one_bit : (s : ℕ) → s < w → 1 * 2 ^ s % 2 ^ w ≡ 2 ^ s
  one_bit s h =
      let more = pow-le-pow_right {n = 2} (omega arith) {i = suc s} {j = w} h in
      let below : 2 ^ s < 2 ^ w = omega (arith, more, pow-suc 2 s, pow_pos s) in
      let same : 1 * 2 ^ s ≡ 2 ^ s = omega arith in
      ap (λ (t : ℕ). t % 2 ^ w) same ∙ mod-eq_of_lt below

  sign_clear : (raw s : ℕ) → raw < 2 ^ s → bit_and raw (2 ^ s) ≡ 0
  sign_clear raw s h =
      let raw' : 0 * 2 ^ s + raw ≡ raw = omega arith in
      let one : 1 * 2 ^ s + 0 ≡ 2 ^ s = omega arith in
      ap₂ bit_and (sym raw') (sym one)
      ∙ bit_and_fields s 0 raw 1 0 h (pow_pos s)
      ∙ omega (arith, zero-bit_and 1, bit_and-zero raw)

  sign_extend-positive : (raw s : ℕ) → s < w → raw < 2 ^ s → sign_extend raw s ≡ some raw
  unfolding sign_extend
  sign_extend-positive raw s h lt =
      let inside : ltb s (max w 32) ≡ true = ground arith in
      let none_left : (2 ^ w - 0) % 2 ^ w ≡ 0 =
        ap (λ (t : ℕ). t % 2 ^ w) (omega arith) ∙ mod_self (2 ^ w) in
      let nothing : 0 * 2 ^ s % 2 ^ w ≡ 0 =
        ap (λ (t : ℕ). t % 2 ^ w) (omega arith) ∙ zero-mod (2 ^ w) in
      rw (inside, one_bit s h, sign_clear raw s lt, none_left, nothing, bit_or-zero raw) refl

  sign_set : (low s : ℕ) → low < 2 ^ s → bit_and (2 ^ s + low) (2 ^ s) ≡ 2 ^ s
  sign_set low s h =
      let raw : 1 * 2 ^ s + low ≡ 2 ^ s + low = omega arith in
      let one : 1 * 2 ^ s + 0 ≡ 2 ^ s = omega arith in
      ap₂ bit_and (sym raw) (sym one)
      ∙ bit_and_fields s 1 low 1 0 h (pow_pos s)
      ∙ omega (arith, bit_and-zero low)

  -- All the bits from `s` on.
  ones_from : (s : ℕ) → s < w → (2 ^ w - 1) % 2 ^ w * 2 ^ s % 2 ^ w ≡ (2 ^ (w - s) - 1) * 2 ^ s
  ones_from s h =
      let k = 2 ^ (w - s) in
      let whole : 2 ^ w ≡ k * 2 ^ s = omega (arith, split_pow s w (omega arith)) in
      let fits : (2 ^ w - 1) % 2 ^ w ≡ 2 ^ w - 1 = mod-eq_of_lt (omega (arith, pow_pos w)) in
      let parts : 2 ^ w - 1 ≡ (2 ^ s - 1) * k + (k - 1) =
        ap (λ (t : ℕ). t - 1) (split_pow s w (omega arith))
        ∙ one_less (2 ^ s) k (pow_pos s) (pow_pos (w - s)) in
      ap₂ (λ (a b : ℕ). a * 2 ^ s % b) (fits ∙ parts) whole
      ∙ mul-mod-mul ((2 ^ s - 1) * k + (k - 1)) k (2 ^ s) (pow_pos (w - s)) (pow_pos s)
      ∙ ap (λ (t : ℕ). t * 2 ^ s) (mod-join (2 ^ s - 1) (k - 1) k (omega (arith, pow_pos (w - s))))

  ones_or : (m : ℕ) → 0 < m → bit_or 1 (2 ^ m - 1) ≡ 2 ^ m - 1
  ones_or zero h = elim h [ ]
  ones_or (suc m) h =
      let half : (2 ^ suc m - 1) / 2 ≡ 2 ^ m - 1 = omega (arith, pow-suc 2 m, pow_pos m) in
      bit_or_step 1 (2 ^ suc m - 1)
      ∙ omega (arith, half, pow-suc 2 m, pow_pos m, zero-bit_or ((2 ^ suc m - 1) / 2))

  sign_extend-negative :
      (low s : ℕ) → s < w → low < 2 ^ s → sign_extend (2 ^ s + low) s ≡ some (2 ^ w - 2 ^ s + low)
  unfolding sign_extend
  sign_extend-negative low s h lt =
      let inside : ltb s (max w 32) ≡ true = ground arith in
      let k = 2 ^ (w - s) in
      let set : (2 ^ s == 0) ≡ false = ground (arith, pow_pos s) in
      let raw : 1 * 2 ^ s + low ≡ 2 ^ s + low = omega arith in
      let ones : (k - 1) * 2 ^ s + 0 ≡ (k - 1) * 2 ^ s = omega arith in
      let top : (k - 1) * 2 ^ s ≡ 2 ^ w - 2 ^ s =
        omega (arith, split_pow s w (omega arith), minus_one k (2 ^ s) (pow_pos (w - s))) in
      let joined : bit_or (2 ^ s + low) ((k - 1) * 2 ^ s) ≡ 2 ^ w - 2 ^ s + low =
        ap₂ bit_or (sym raw) (sym ones)
        ∙ bit_or_fields s 1 low (k - 1) 0 lt (pow_pos s)
        ∙ ap₂ (λ (a b : ℕ). a * 2 ^ s + b) (ones_or (w - s) (omega arith)) (bit_or-zero low)
        ∙ ap (λ (t : ℕ). t + low) top in
      rw (inside, one_bit s h, sign_set low s lt, set, ones_from s h, joined) refl

  -- `sign_extend` of a field whose highest bit is `s` is the pattern of the signed number that the field has
  -- in two's complement: the bits from `s` on are copies of bit `s`.
  pub sign_extend_lem :
      (raw s : ℕ)
      → s < w
      → raw < 2 ^ suc s
      → sign_extend raw s ≡ some (if ltb raw (2 ^ s) then raw else raw + 2 ^ w - 2 ^ suc s)
  sign_extend_lem raw s h lt = elim (dec_lt raw (2 ^ s)) [
    | yes p ↦
        let test : ltb raw (2 ^ s) ≡ true = ground arith in rw test (sign_extend-positive raw s h p)
    | no p ↦
        let test : ltb raw (2 ^ s) ≡ false = ground arith in
        let more = pow-le-pow_right {n = 2} (omega arith) {i = suc s} {j = w} h in
        let whole : 2 ^ s + (raw - 2 ^ s) ≡ raw = omega arith in
        let value : 2 ^ w - 2 ^ s + (raw - 2 ^ s) ≡ raw + 2 ^ w - 2 ^ suc s =
          omega (arith, pow-suc 2 s, more) in
        rw test (
          ap (λ t. sign_extend t s) (sym whole)
          ∙ sign_extend-negative (raw - 2 ^ s) s h (omega (arith, pow-suc 2 s))
          ∙ ap some value)
  ]

  -- `fixup_extract` passes the number of bits for the index of the sign bit: a field of that many bits comes
  -- back as it is, and is never negative.
  pub fixup_extract_same : (e bits : ℕ) → bits < w → e < 2 ^ bits → fixup_extract e bits ≡ some e
  unfolding fixup_extract
  fixup_extract_same e bits h lt = sign_extend-positive e bits h lt
