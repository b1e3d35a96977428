-- ===== src/Hash/Sizes.antt =====
-- utils/lightweight_hash.h: the capacity that `LogMemStorage::reserve` gives.
use native.Mathlib.Nat.{pow-suc}
use jml_base.Common.{
  ℕ, suc, ◌+◌, ◌-◌, ◌*◌, ◌^◌, ◌≤◌, ◌<◌, ◌≡◌, ◌==◌, refl, arith, leb, true, false, dec_lt,
}
use jml_base.Common.Int.{negsuc}
use jml_base.Common.Result.{ok}
use jml_base.Bitops.{highest_bit, bsr}
use jml_base.Bitops.Highest.{bsr-IsTop, highest_bit-bsr}
use jml_base.Hash.{storage_bits, bits_for, capacity_of}

capacity_of-next : (h : ℕ) → capacity_of (h + 2) ≡ 2 * 2 ^ h
unfolding capacity_of
capacity_of-next h =
    let shift : h + 2 ≡ suc (suc h) = omega arith in rw shift (omega (arith, pow-suc 2 h))

-- A storage with at least one bucket and at most 2 ^ 63 is given the least power of two that holds
-- them: it is below twice what was asked for.
pub storage_bits-capacity :
    (n : ℕ)
    → 0 < n
    → n ≤ 2 ^ 63
    → (bits : ℕ) × (storage_bits n ≡ ok bits) × (n ≤ capacity_of bits) × (capacity_of bits < 2 * n)
unfolding storage_bits bits_for capacity_of
storage_bits-capacity n h le = elim (dec_lt 1 n) [
  | yes p ↦
      let top = bsr-IsTop 63 (n - 1) (omega arith) (omega arith) in
      let found = highest_bit-bsr 63 (n - 1) (negsuc 0) (omega arith) in
      let next = bsr 63 (n - 1) in
      let size = capacity_of-next (bsr 63 (n - 1)) in
      let twice = pow-suc 2 (bsr 63 (n - 1)) in
      let below : n ≤ capacity_of (bsr 63 (n - 1) + 2) = omega (arith, size, top.0.1, twice) in
      let test : leb n (capacity_of (bsr 63 (n - 1) + 2)) ≡ true = ground arith in
      let some_n : (n == 0) ≡ false = ground arith in
      (bsr 63 (n - 1) + 2, rw (some_n, found, test), below, omega (arith, size, top.0.0))
  | no p ↦
      let one : n ≡ 1 = omega arith in
      (1, rw one (unfold highest_bit in refl), omega arith, omega arith)
]
