-- ===== src/Compact/Tests.antt =====
-- Encodings at the ends of the ranges, and the theorems at concrete values.
use jml_base.Common.{ℕ, ◌-◌, ◌^◌, ◌≡◌, refl, arith, List, [], ◌∷◌, ◌++◌, length}
use jml_base.Common.Int.{negsuc}
use jml_base.Common.Result.{ok, err}
use jml_base.Bitops.{bsr, highest_bit}
use jml_base.Compact.{
  bad_shift, too_few_bytes, group_index, compact_encode_length, pack, encode_compact,
  encode_compact_at, compact_decode_length, decode_compact, encode_signed_compact,
  decode_signed_compact,
}
use jml_base.Compact.RoundTrip.{decode-encode}
use jml_base.Compact.Signed.{encode_compact_at_large, decode_signed-encode_signed}

encode_at_the_ends :
    (encode_compact 0 ≡ ok (0 ∷ []))
    × (encode_compact 127 ≡ ok (127 ∷ []))
    × (encode_compact 128 ≡ ok (0x80 ∷ 0x80 ∷ []))
    × (encode_compact (2 ^ 64 - 1) ≡ ok (255 ∷ 255 ∷ 255 ∷ 255 ∷ 255 ∷ 255 ∷ 255 ∷ 255 ∷ 255 ∷ []))
unfolding encode_compact group_index highest_bit bsr pack
encode_at_the_ends = (refl, refl, refl, refl)

decode_short : decode_compact (0x80 ∷ []) ≡ err too_few_bytes
unfolding decode_compact compact_decode_length highest_bit bsr
decode_short = refl

decode-encode_example :
    (bytes : List ℕ) × (encode_compact 300 ≡ ok bytes)
    × (decode_compact (bytes ++ 7 ∷ []) ≡ ok (300, 7 ∷ []))
decode-encode_example = decode-encode 300 (7 ∷ []) (omega arith)

encode_compact_at_large_example :
    (encode_compact_at 16 (2 ^ 63) ≡ err bad_shift)
    × ((bytes : List ℕ) × (encode_compact (2 ^ 63) ≡ ok bytes)
        × (length bytes ≡ 9)
        × (compact_encode_length (2 ^ 63) ≡ 10))
encode_compact_at_large_example =
    encode_compact_at_large 16 (2 ^ 63) (omega arith) (omega arith) (omega arith)

decode_signed-encode_signed_example :
    (bytes : List ℕ) × (encode_signed_compact (negsuc 299) ≡ ok bytes)
    × (decode_signed_compact (bytes ++ []) ≡ ok (negsuc 299, []))
decode_signed-encode_signed_example = decode_signed-encode_signed (negsuc 299) [] (omega arith)
