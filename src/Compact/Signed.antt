-- ===== src/Compact/Signed.antt =====
-- The overload that writes between two pointers, and the signed integers.
use Prim.Native.Nat.{bit_or}
use native.Mathlib.Nat.{pow-le-pow_right}
use jml_base.Common.{
  ℕ, ◌+◌, ◌*◌, ◌^◌, ◌≤◌, ◌<◌, ◌≡◌, ap, ◌∙◌, arith, List, ◌++◌, length, min, leb, true,
  if◌then◌else◌, dec_le, Bool-cases, inl, inr,
}
use jml_base.Common.Int.{ℤ, pos, negsuc}
use jml_base.Common.Bits.{bit_and_ones, bit_or_join}
use jml_base.Common.Result.{ok, err}
use jml_base.Compact.{
  no_space, bad_shift, group_index, compact_encode_length, encode_compact, encode_compact_at,
  encode_sign, decode_sign, encode_signed_compact, decode_signed_compact,
}
use jml_base.Compact.Bytes.{length-big_endian}
use jml_base.Compact.Encode.{group_index_bounds}
use jml_base.Compact.RoundTrip.{index, encoding, encode-encoding, decode-encode}

group_index-le : (v : ℕ) → v < 2 ^ 63 → group_index v ≤ 8
group_index-le v h =
    let bounds = group_index_bounds v (omega arith) in
    elim (dec_le (group_index v) 8) [
      | yes p ↦ p
      | no p ↦ absurd (
          omega (
            arith,
            bounds.2 (omega arith),
            pow-le-pow_right {n = 2} (omega arith) {i = 63} {j = 7 * group_index v} (omega arith),
          ))
    ]

group_index-large : (v : ℕ) → 2 ^ 63 ≤ v → v < 2 ^ 64 → group_index v ≡ 9
group_index-large v h h' =
    let bounds = group_index_bounds v h' in
    elim (dec_le 9 (group_index v)) [
      | yes p ↦ omega arith
      | no p ↦ absurd (
          omega (
            arith,
            pow-le-pow_right {n = 2} (omega arith) {i = 7 * group_index v + 7} {j = 63}
                (omega arith),
          ))
    ]

-- Below 2 ^ 63 `compact_encode_length` is the number of bytes that are saved.
pub length-encode :
    (v : ℕ)
    → v < 2 ^ 63
    → (bytes : List ℕ) × (encode_compact v ≡ ok bytes) × (length bytes ≡ compact_encode_length v)
unfolding compact_encode_length
length-encode v h = (
  encoding (index v) v,
  encode-encoding v (omega arith),
  omega (arith, length-big_endian (index v) v, group_index-le v h),
)

-- Below 2 ^ 63 the overload on pointers writes what the overload on a store saves, or throws where
-- `compact_encode_length` bytes do not fit.
pub encode_compact_at_lem :
    (space v : ℕ)
    → v < 2 ^ 63
    → encode_compact_at space v
      ≡ (if leb (compact_encode_length v) space then encode_compact v else err no_space)
unfolding encode_compact_at encode_compact compact_encode_length
encode_compact_at_lem space v h =
    let g = group_index v in
    let le = group_index-le v h in
    let same : min g 8 ≡ g = omega arith in
    let short : leb (g + 1) 9 ≡ true = ground arith in
    let shift : leb g 8 ≡ true = ground arith in
    rw (same, short, shift) (elim (Bool-cases (leb (g + 1) space)) [ inl e ↦ rw e | inr e ↦ rw e ])

-- From 2 ^ 63 on, in 64 bits and with space for ten bytes, the overload on pointers shifts by a
-- negative count, while the overload on a store saves nine bytes, one fewer than
-- `compact_encode_length` says.
pub encode_compact_at_large :
    (space v : ℕ)
    → 2 ^ 63 ≤ v
    → v < 2 ^ 64
    → 10 ≤ space
    → (encode_compact_at space v ≡ err bad_shift)
      × ((bytes : List ℕ) × (encode_compact v ≡ ok bytes)
          × (length bytes ≡ 9)
          × (compact_encode_length v ≡ 10))
unfolding encode_compact_at compact_encode_length
encode_compact_at_large space v h h' hs =
    let nine = group_index-large v h h' in
    let room : leb 10 space ≡ true = ground arith in
    (
      rw (nine, room),
      (
        encoding (index v) v,
        encode-encoding v h',
        omega (arith, length-big_endian (index v) v, nine),
        omega (arith, nine),
      ),
    )

-- The values of a `signed long long`.
abbrev pub IsI64 : ℤ → Type 0
IsI64 (pos n) = n < 2 ^ 63
IsI64 (negsuc n) = n < 2 ^ 63

encode_sign-parts :
    (z : ℤ) → IsI64 z → encode_sign z ≡ elim z [ pos n ↦ n * 2 | negsuc n ↦ n * 2 + 1 ]
unfolding encode_sign
encode_sign-parts (pos n) h = omega arith
encode_sign-parts (negsuc n) h =
    ap (λ (t : ℕ). bit_or t 1) {y = n * 2 ^ 1} (omega arith) ∙ bit_or_join 1 n 1 (omega arith)

encode_sign-lt : (z : ℤ) → IsI64 z → encode_sign z < 2 ^ 64
encode_sign-lt (pos n) h = omega (arith, encode_sign-parts (pos n) h)
encode_sign-lt (negsuc n) h = omega (arith, encode_sign-parts (negsuc n) h)

-- The sign bit goes to the lowest place and back, for every 64-bit value.
pub decode_sign-encode_sign : (z : ℤ) → IsI64 z → decode_sign (encode_sign z) ≡ z
unfolding decode_sign
decode_sign-encode_sign (pos n) h =
    rw (encode_sign-parts (pos n) h) (ground (arith, bit_and_ones 1 (n * 2)))
decode_sign-encode_sign (negsuc n) h =
    rw (encode_sign-parts (negsuc n) h) (ground (arith, bit_and_ones 1 (n * 2 + 1)))

-- Every 64-bit signed value is encoded to a store without failure, and decoded from the bytes that
-- are saved, and the bytes that follow are left.
pub decode_signed-encode_signed :
    (z : ℤ) (rest : List ℕ)
    → IsI64 z
    → (bytes : List ℕ) × (encode_signed_compact z ≡ ok bytes)
      × (decode_signed_compact (bytes ++ rest) ≡ ok (z, rest))
unfolding encode_signed_compact decode_signed_compact
decode_signed-encode_signed z rest h =
    let (bytes, written, read) = decode-encode (encode_sign z) rest (encode_sign-lt z h) in
    (bytes, written, rw (read, decode_sign-encode_sign z h))
