-- ===== src/BitRange/Pair.antt =====
-- `set_bit_range` on the number that its two words make up.
use mathlib.Core.Path.{subst}
use native.Mathlib.Nat.{mod-lt, mod-eq_of_lt, div-lt_iff_lt-mul}
use jml_base.Common.{
  ℕ, ◌+◌, ◌-◌, ◌*◌, ◌/◌, ◌%◌, ◌^◌, ◌≤◌, ◌<◌, ◌≡◌, ◌≢◌, ◌⊎◌, refl, sym, ap, ◌∙◌, arith,
}
use jml_base.Common.{Option, some, dec_le}
use jml_base.Common.Bits.{pow_pos, pow-add}
use jml_base.BitRange.{IsWidth, set_bit_range}
use jml_base.BitRange.Numbers.{
  replaced, replaced_above, replaced_below, replaced_split, replaced-lt,
}
use jml_base.BitRange.Replace.{set_within, set_across}

-- What `set_bit_range` leaves in the two words.
pub record IsSet2 (w p0 p1 v bit bits : ℕ) (r : Option (ℕ × ℕ)) : Type 0 where
  pub low : ℕ
  pub high : ℕ
  pub returns : r ≡ some (low, high)
  pub low_fits : low < 2 ^ w
  pub high_fits : high < 2 ^ w
  pub written : low + high * 2 ^ w ≡ replaced bit bits v (p0 + p1 * 2 ^ w)
  pub kept : bit + bits ≤ w → high ≡ p1

-- The low part of the value goes to the top of the first word, the rest to the bottom of the second.
across_sum :
    (a n m v p0 p1 : ℕ)
    → p0 < 2 ^ (a + n)
    → replaced a n (v % 2 ^ n) p0 + replaced 0 m (v / 2 ^ n) p1 * 2 ^ (a + n)
      ≡ replaced a (n + m) v (p0 + p1 * 2 ^ (a + n))
across_sum a n m v p0 p1 h =
    let W = a + n in
    let top = v / 2 ^ n in
    let end : replaced (W + 0) m top (p0 + p1 * 2 ^ W) ≡ replaced W m top (p0 + p1 * 2 ^ W) =
      ap (λ (t : ℕ). replaced t m top (p0 + p1 * 2 ^ W)) (omega arith) in
    sym (replaced_above W a n (v % 2 ^ n) p0 (replaced 0 m top p1) (omega arith))
    ∙ ap (replaced a n (v % 2 ^ n)) (sym (replaced_below W 0 m top p0 p1 h) ∙ end)
    ∙ sym (replaced_split a n m v (p0 + p1 * 2 ^ W))

module _ (w : ℕ) (hw : IsWidth w) (p0 p1 val bit : ℕ) (w0 : p0 < 2 ^ w) (w1 : p1 < 2 ^ w) where
  within-IsSet2 :
      (bits : ℕ)
      → bits ≢ 32 ⊎ (w ≢ 32)
      → 0 < bits
      → bit + bits ≤ w
      → val < 2 ^ bits
      → IsSet2 w p0 p1 val bit bits (set_bit_range w p0 p1 val bit bits)
  within-IsSet2 bits hn hpos hs hv = record {
    low = replaced bit bits val p0;
    high = p1;
    returns =
        set_within w hw p0 p1 val bit bits (w - (bit + bits)) hn hpos (omega arith) w0
        ∙ ap (λ (t : ℕ). some (replaced bit bits t p0, p1)) (mod-eq_of_lt hv);
    low_fits = replaced-lt w bit bits val p0 hs hv w0;
    high_fits = w1;
    written = sym (replaced_above w bit bits val p0 p1 hs);
    kept = λ _. refl;
  }

  across-IsSet2 :
      (n m : ℕ)
      → n + m ≤ w
      → 0 < n
      → 0 < m
      → w ≡ bit + n
      → val < 2 ^ (n + m)
      → IsSet2 w p0 p1 val bit (n + m) (set_bit_range w p0 p1 val bit (n + m))
  across-IsSet2 n m hs hn hm whole hv =
      let top : val / 2 ^ n < 2 ^ m =
        (div-lt_iff_lt-mul (pow_pos n)).1 (omega (arith, pow-add n m)) in
      let weight : 2 ^ w ≡ 2 ^ (bit + n) = ap (λ (t : ℕ). 2 ^ t) whole in
      let sum = across_sum bit n m val p0 p1 (omega (arith, weight)) in
      record {
        low = replaced bit n (val % 2 ^ n) p0;
        high = replaced 0 m (val / 2 ^ n) p1;
        returns =
            set_across w hw p0 p1 val bit n m (w - m) hs hn hm whole (omega arith) w0 w1
            ∙ ap (λ (t : ℕ). some (replaced bit n (val % 2 ^ n) p0, replaced 0 m t p1))
                (mod-eq_of_lt top);
        low_fits = replaced-lt w bit n (val % 2 ^ n) p0 (omega arith) (mod-lt val (pow_pos n)) w0;
        high_fits = replaced-lt w 0 m (val / 2 ^ n) p1 (omega arith) top w1;
        written = rw weight sum;
        kept = λ h. absurd (omega arith);
      }

  -- For a value that fits a field of 1 to `w` bits, and not for 32 bits of 32, `set_bit_range` does not
  -- fail: wherever the field starts in the first word, it puts the value there in the number that the
  -- two words make up, and changes no other bit; the second word is changed only if the field
  -- reaches it.
  pub set_bit_range-IsSet2 :
      (bits : ℕ)
      → bits ≢ 32 ⊎ (w ≢ 32)
      → 0 < bits
      → bits ≤ w
      → bit < w
      → val < 2 ^ bits
      → IsSet2 w p0 p1 val bit bits (set_bit_range w p0 p1 val bit bits)
  set_bit_range-IsSet2 bits hn hpos hs hb hv = elim (dec_le (bit + bits) w) [
    | yes p ↦ within-IsSet2 bits hn hpos p hv
    | no p ↦
        let n = w - bit in
        let m = bits - (w - bit) in
        let sum : n + m ≡ bits = omega arith in
        subst (λ b. IsSet2 w p0 p1 val bit b (set_bit_range w p0 p1 val bit b)) sum
          (across-IsSet2 n m (omega arith) (omega arith) (omega arith) (omega arith) (rw sum hv))
  ]
