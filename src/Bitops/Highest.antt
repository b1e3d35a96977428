-- ===== src/Bitops/Highest.antt =====
-- The instruction `bsr` and the ladders of masks find the same bit, the highest one set.
use Prim.Native.Nat.{bit_and}
use jml_base.Common.{
  ℕ, zero, suc, ◌+◌, ◌-◌, ◌*◌, ◌/◌, ◌%◌, ◌^◌, ◌≤◌, ◌<◌, ◌≡◌, refl, arith, true, false, ◌==◌, ap,
  sym, ◌∙◌, dec_lt,
}
use native.Mathlib.Nat.{
  pow-suc, pow-le-pow_right, add-zero, add_assoc, zero-add, div-lt_iff_lt-mul, div-add-mod', mod-lt,
  mod-eq_of_lt, suc-mul,
}
use native.Mathlib.Nat.{mul-le-mul_right, div-eq_of_lt, le-div_iff_mul-le}
use native.Mathlib.Numerals.{add-one}
use jml_base.Common.Int.{ℤ, pos, negsuc}
use jml_base.Common.Bits.{bit_and_fields, pow_pos, pow-add, bit_and-zero, bit_and_ones}
use jml_base.Bitops.{bsr, highest_bit, rung, rungs_end}
use jml_base.Bitops.{
  highest_ladder_8, highest_ladder_16, highest_ladder_32, highest_ladder_64, lowest_ladder_8,
}

-- `h` is the index of the highest bit set in `x`.
abbrev pub IsTop : ℕ → ℕ → Type 0
IsTop x h = (2 ^ h ≤ x) × (x < 2 ^ suc h)

-- On a number that is not 0 and fits, `bsr` finds the highest bit.
pub bsr-IsTop : (fuel x : ℕ) → 0 < x → x < 2 ^ suc fuel → IsTop x (bsr fuel x) × (bsr fuel x ≤ fuel)
unfolding bsr
bsr-IsTop zero x h lt = ((omega arith, omega arith), omega arith)
bsr-IsTop (suc fuel) x h lt = elim (dec_lt x 2) [
  | yes p ↦ ground arith
  | no p ↦ ground (
    arith,
    bsr-IsTop fuel (x / 2),
    pow-suc 2 (suc fuel),
    pow-suc 2 (bsr fuel (x / 2)),
    pow-suc 2 (suc (bsr fuel (x / 2))),
  )
]

pub IsTop-unique : (x a b : ℕ) → IsTop x a → IsTop x b → a ≡ b
IsTop-unique x a b ha hb = elim (dec_lt a b) [
  | yes p ↦ absurd (omega (arith, pow-le-pow_right {n = 2} (omega arith) {i = suc a} {j = b} p))
  | no p ↦ elim (dec_lt b a) [
    | yes q ↦ absurd (omega (arith, pow-le-pow_right {n = 2} (omega arith) {i = suc b} {j = a} q))
    | no q ↦ omega arith
  ]
]

-- The state of a ladder that started at `x`, with `k` bits of `arg` left to search.
record Climbed (x k : ℕ) (s : ℕ × ℕ) : Type 0 where
  below : s.1 < 2 ^ k
  none_set : x ≡ 0 → (s.1 ≡ 0) × (s.0 ≡ 0)
  some_set : 0 < x → 0 < s.1
  top : (h : ℕ) → IsTop s.1 h → IsTop x (s.0 + h)

start-Climbed : (x k : ℕ) → x < 2 ^ k → Climbed x k (0, x)
start-Climbed x k h = record {
  below = h;
  none_set = λ e. (e, refl);
  some_set = λ p. p;
  top = λ i t. (rw zero-add t.0, rw zero-add t.1);
}

-- The upper half of `k + k` bits is masked by ones above zeros.
upper_half : (k x : ℕ) → x < 2 ^ (k + k) → bit_and x ((2 ^ k - 1) * 2 ^ k) ≡ x / 2 ^ k * 2 ^ k
upper_half k x h =
    let q = x / 2 ^ k in
    let r = x % 2 ^ k in
    let small : q < 2 ^ k = (div-lt_iff_lt-mul (pow_pos k)).1 (omega (arith, pow-add k k)) in
    let whole : x ≡ q * 2 ^ k + r = omega (arith, div-add-mod' x (2 ^ k)) in
    ap (λ (t : ℕ). bit_and t ((2 ^ k - 1) * 2 ^ k)) whole
    ∙ ap (bit_and (q * 2 ^ k + r)) {y = (2 ^ k - 1) * 2 ^ k + 0} (omega arith)
    ∙ bit_and_fields k q r (2 ^ k - 1) 0 (mod-lt x (pow_pos k)) (pow_pos k)
    ∙ omega
        (arith, bit_and-zero r, ap (λ (t : ℕ). t * 2 ^ k) (bit_and_ones k q ∙ mod-eq_of_lt small))

IsTop-shift : (k x h : ℕ) → IsTop (x / 2 ^ k) h → IsTop x (k + h)
IsTop-shift k x h t =
    let q = x / 2 ^ k in
    let low = div-add-mod' x (2 ^ k) in
    let rem = mod-lt x (pow_pos k) in
    let e0 = pow-add k h in
    let e1 = pow-add k (suc h) in
    let s : suc (k + h) ≡ k + suc h = omega arith in
    let lo : 2 ^ h * 2 ^ k ≤ q * 2 ^ k = mul-le-mul_right (2 ^ k) t.0 in
    let hi : suc q * 2 ^ k ≤ 2 ^ suc h * 2 ^ k = mul-le-mul_right (2 ^ k) t.1 in
    (omega arith, rw s (omega (arith, suc-mul q (2 ^ k))))

rung-Climbed :
    (x k mask res arg : ℕ)
    → mask ≡ (2 ^ k - 1) * 2 ^ k
    → Climbed x (k + k) (res, arg)
    → Climbed x k (rung mask k (res, arg))
rung-Climbed x k mask res arg e c = elim (dec_lt arg (2 ^ k)) [
  | yes p ↦
      let none : (bit_and arg mask == 0) ≡ true =
        rw (e, upper_half k arg c.below, div-eq_of_lt p) (ground arith) in
      rw none (record { below = p; none_set = c.none_set; some_set = c.some_set; top = c.top })
  | no p ↦
      let q = arg / 2 ^ k in
      let large : 1 ≤ q = (le-div_iff_mul-le (pow_pos k)).1 (omega arith) in
      let half = upper_half k arg c.below in
      let nonzero : 1 * 2 ^ k ≤ q * 2 ^ k = mul-le-mul_right (2 ^ k) large in
      let some : (bit_and arg mask == 0) ≡ false = rw (e, half) (ground (arith, pow_pos k)) in
      rw some (record {
        below = (div-lt_iff_lt-mul (pow_pos k)).1 (omega (arith, pow-add k k, c.below));
        none_set = λ z. absurd (omega (arith, c.none_set z, pow_pos k));
        some_set = λ z. omega arith;
        top = λ h t. rw (add_assoc res k h) (c.top (k + h) (IsTop-shift k arg h t));
      })
]

pub highest_bit-IsTop :
    (w x r : ℕ) (n : ℤ) → x < 2 ^ suc w → IsTop x r → highest_bit (suc w) x n ≡ pos r
unfolding highest_bit
highest_bit-IsTop w x r n h t =
    let filled : 0 < x = omega (arith, pow_pos r) in
    let nonzero : (x == 0) ≡ false = ground arith in
    let width : suc w - 1 ≡ w = omega arith in
    rw (nonzero, width) (ap pos (IsTop-unique x (bsr w x) r (bsr-IsTop w x filled h).0 t))

-- The last rung masks both of the two bits that are left, and so counts the lowest as well.
last_rung :
    (w x res arg : ℕ)
    → x < 2 ^ suc w
    → Climbed x 2 (res, arg)
    → rungs_end (rung 0x03 1 (res, arg)) ≡ highest_bit (suc w) x (negsuc 0)
unfolding highest_bit
last_rung w x res zero h c = ground (arith, c.some_set, c.none_set)
last_rung w x res (suc zero) h c = rw add-one (
    sym (
      highest_bit-IsTop w x res (negsuc 0) h (rw add-zero at (c.top 0 (omega arith, omega arith)))))
last_rung w x res (suc (suc zero)) h c =
    sym (highest_bit-IsTop w x (res + 1) (negsuc 0) h (c.top 1 (omega arith, omega arith)))
last_rung w x res (suc (suc (suc zero))) h c =
    sym (highest_bit-IsTop w x (res + 1) (negsuc 0) h (c.top 1 (omega arith, omega arith)))
last_rung w x res (suc (suc (suc (suc n)))) h c = absurd (omega (arith, c.below))

-- On every byte the ladder of masks returns what the instruction does.
pub highest_ladder_8-eq-highest_bit :
    (x : ℕ) → x < 2 ^ 8 → highest_ladder_8 x ≡ highest_bit 8 x (negsuc 0)
unfolding highest_ladder_8
highest_ladder_8-eq-highest_bit x h =
    last_rung 7 x _ _ h
      (rung-Climbed x 2 0x0c _ _ refl (rung-Climbed x 4 0xf0 0 x refl (start-Climbed x 8 h)))

-- On every 16-bit word the ladder of masks returns what the instruction does.
pub highest_ladder_16-eq-highest_bit :
    (x : ℕ) → x < 2 ^ 16 → highest_ladder_16 x ≡ highest_bit 16 x (negsuc 0)
unfolding highest_ladder_16
highest_ladder_16-eq-highest_bit x h = last_rung 15 x _ _ h (
    rung-Climbed x 2 0x0c _ _ refl
      (rung-Climbed x 4 0xf0 _ _ refl (rung-Climbed x 8 0xff00 0 x refl (start-Climbed x 16 h))))

-- On every 32-bit word the ladder of masks returns what the instruction does.
pub highest_ladder_32-eq-highest_bit :
    (x : ℕ) → x < 2 ^ 32 → highest_ladder_32 x ≡ highest_bit 32 x (negsuc 0)
unfolding highest_ladder_32
highest_ladder_32-eq-highest_bit x h = last_rung 31 x _ _ h (
    rung-Climbed x 2 0x0c _ _ refl (
      rung-Climbed x 4 0xf0 _ _ refl (
        rung-Climbed x 8 0xff00 _ _ refl
          (rung-Climbed x 16 0xffff0000 0 x refl (start-Climbed x 32 h)))))

-- On every byte the ladder of `lowest_bit` returns the highest bit.
pub lowest_ladder_8-eq-highest_bit :
    (x : ℕ) → x < 2 ^ 8 → lowest_ladder_8 x ≡ highest_bit 8 x (negsuc 0)
unfolding lowest_ladder_8 highest_ladder_8
lowest_ladder_8-eq-highest_bit x h = highest_ladder_8-eq-highest_bit x h

pub highest_bit-bsr : (w x : ℕ) (n : ℤ) → 0 < x → highest_bit (suc w) x n ≡ pos (bsr w x)
unfolding highest_bit
highest_bit-bsr w x n h =
    let nonzero : (x == 0) ≡ false = ground arith in
    let width : suc w - 1 ≡ w = omega arith in rw (nonzero, width)

-- On every 64-bit word the ladder, which searches the upper half first, returns what the instruction
-- does.
pub highest_ladder_64-eq-highest_bit :
    (x : ℕ) → x < 2 ^ 64 → highest_ladder_64 x ≡ highest_bit 64 x (negsuc 0)
unfolding highest_ladder_64
highest_ladder_64-eq-highest_bit zero h = unfold highest_ladder_32 highest_bit in refl
highest_ladder_64-eq-highest_bit (suc y) h = elim (dec_lt (suc y) (2 ^ 32)) [
  | yes p ↦
      let x = suc y in
      let upper : x / 2 ^ 32 ≡ 0 = omega arith in
      let none : highest_ladder_32 0 ≡ negsuc 0 = unfold highest_ladder_32 in refl in
      let top = bsr-IsTop 31 x (omega arith) p in
      rw
        (
          upper,
          none,
          highest_ladder_32-eq-highest_bit x p,
          highest_bit-bsr 31 x (negsuc 0) (omega arith),
        )
        (sym (highest_bit-IsTop 63 x (bsr 31 x) (negsuc 0) h top.0))
  | no p ↦
      let x = suc y in
      let q = x / 2 ^ 32 in
      let top = bsr-IsTop 31 q (omega arith) (omega arith) in
      let swap : bsr 31 q + 32 ≡ 32 + bsr 31 q = omega arith in
      rw
        (
          highest_ladder_32-eq-highest_bit q (omega arith),
          highest_bit-bsr 31 q (negsuc 0) (omega arith),
          swap,
        )
        (sym
          (highest_bit-IsTop 63 x (32 + bsr 31 q) (negsuc 0) h (IsTop-shift 32 x (bsr 31 q) top.0)))
]
