-- ===== src/Compact/Encode.antt =====
-- The length of an encoding, and what its first byte says of it.
use Prim.Native.Nat.{bit_or}
use native.Mathlib.Nat.{pow-le-pow_right}
use jml_base.Common.{
  ℕ, zero, suc, ◌+◌, ◌-◌, ◌*◌, ◌/◌, ◌%◌, ◌^◌, ◌≤◌, ◌<◌, ◌≡◌, refl, ap, arith, every_below,
  every_below-lt, ==_iff, ◌==◌, Bool, true,
}
use jml_base.Common.Int.{negsuc}
use jml_base.Bitops.{bsr, highest_bit}
use jml_base.Bitops.Highest.{bsr-IsTop, highest_bit-bsr}
use jml_base.Compact.{group_index, to_size, div_7, compact_decode_length, indicator}

-- `val` has at most `7 * group_index val + 7` bits, and more than seven fewer.
pub group_index_bounds :
    (val : ℕ)
    → val < 2 ^ 64
    → (group_index val ≤ 9)
      × (val < 2 ^ (7 * group_index val + 7))
      × (0 < group_index val → 2 ^ (7 * group_index val) ≤ val)
group_index_bounds zero h =
    unfold group_index highest_bit in (omega arith, omega arith, λ p. absurd (omega arith))
group_index_bounds (suc v) h =
    let b = bsr 63 (suc v) in
    let (top, small) = bsr-IsTop 63 (suc v) (omega arith) h in
    let index : group_index (suc v) ≡ b / 7 =
      unfold group_index in
      ap (λ t. to_size (div_7 t)) (highest_bit-bsr 63 (suc v) (negsuc 0) (omega arith)) in
    rw index (
      omega arith,
      omega (
        arith,
        pow-le-pow_right {n = 2} (omega arith) {i = suc b} {j = 7 * (b / 7) + 7} (omega arith),
      ),
      λ p.
          omega
            (arith, pow-le-pow_right {n = 2} (omega arith) {i = 7 * (b / 7)} {j = b} (omega arith)),
    )

-- The first byte of an encoding of `idx + 1` bytes says that length.
abbrev first_byte_test : ℕ → ℕ → Bool
first_byte_test idx b = compact_decode_length (bit_or b (indicator idx % 2 ^ 8)) == idx + 1

first_byte_table : every_below (λ idx. every_below (first_byte_test idx) (2 ^ (7 - idx))) 9 ≡ true
unfolding every_below compact_decode_length highest_bit bsr
first_byte_table = refl

pub compact_decode_length-first :
    (idx b : ℕ)
    → idx ≤ 8
    → b < 2 ^ (7 - idx)
    → compact_decode_length (bit_or b (indicator idx % 2 ^ 8)) ≡ idx + 1
compact_decode_length-first idx b h hb =
    let row = every_below-lt _ 9 idx first_byte_table (omega arith) in
    (==_iff _ (idx + 1)).0 (every_below-lt (first_byte_test idx) (2 ^ (7 - idx)) b row hb)

-- The indicator's ones stand above the value's bits.
abbrev pub first_byte : ℕ → ℕ → ℕ
first_byte idx b = b + (256 - 2 ^ (8 - idx))

first_sum_table :
    every_below
      (λ idx.
        every_below (λ b. bit_or b (indicator idx % 2 ^ 8) == first_byte idx b) (2 ^ (7 - idx)))
      9
    ≡ true
unfolding every_below
first_sum_table = refl

pub first_sum :
    (idx b : ℕ) → idx ≤ 8 → b < 2 ^ (7 - idx) → bit_or b (indicator idx % 2 ^ 8) ≡ first_byte idx b
first_sum idx b h hb =
    let row = every_below-lt _ 9 idx first_sum_table (omega arith) in
    (==_iff _ (first_byte idx b)).0 (every_below-lt _ (2 ^ (7 - idx)) b row hb)

-- A value fits the `idx + 1` bytes of an encoding: the bits that the indicator leaves it.
abbrev pub Fits : ℕ → ℕ → Type 0
Fits idx v = (idx ≤ 8) × (v < 2 ^ 64) × (idx < 8 → v < 2 ^ (7 * idx + 7))

-- A statement about every length.
pub each_length :
    (P : ℕ → Type 0)
    → P 0 × P 1 × P 2 × P 3 × P 4 × P 5 × P 6 × P 7 × P 8
    → (idx : ℕ) → idx ≤ 8
    → P idx
each_length P p zero h = p.0
each_length P p (suc zero) h = p.1
each_length P p (suc (suc zero)) h = p.2
each_length P p (suc (suc (suc zero))) h = p.3
each_length P p (suc (suc (suc (suc zero)))) h = p.4
each_length P p (suc (suc (suc (suc (suc zero))))) h = p.5
each_length P p (suc (suc (suc (suc (suc (suc zero)))))) h = p.6
each_length P p (suc (suc (suc (suc (suc (suc (suc zero))))))) h = p.7
each_length P p (suc (suc (suc (suc (suc (suc (suc (suc zero)))))))) h = p.8
each_length P p (suc (suc (suc (suc (suc (suc (suc (suc (suc n))))))))) h = absurd (omega arith)

pub top_byte-lt : (idx v : ℕ) → Fits idx v → v / 256 ^ idx % 256 < 2 ^ (7 - idx)
top_byte-lt idx v f =
    each_length (λ k. (k < 8 → v < 2 ^ (7 * k + 7)) → v / 256 ^ k % 256 < 2 ^ (7 - k))
      (
        λ g. omega (arith, g (omega arith)),
        λ g. omega (arith, g (omega arith)),
        λ g. omega (arith, g (omega arith)),
        λ g. omega (arith, g (omega arith)),
        λ g. omega (arith, g (omega arith)),
        λ g. omega (arith, g (omega arith)),
        λ g. omega (arith, g (omega arith)),
        λ g. omega (arith, g (omega arith)),
        λ g. omega (arith, f.1),
      )
      idx f.0 f.2
