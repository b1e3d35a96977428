-- ===== src/Compact/RoundTrip.antt =====
-- Decoding gives back what was encoded, and leaves the bytes that follow.
use mathlib.Core.List.{append-nil}
use native.Mathlib.Nat.{pow-le-pow_right}
use native.Mathlib.Numerals.{add-one}
use jml_base.Common.{
  ℕ, suc, ◌+◌, ◌-◌, ◌*◌, ◌/◌, ◌%◌, ◌^◌, ◌<◌, ◌≡◌, refl, sym, ap, ◌∙◌, arith, List, [], ◌∷◌, ◌++◌,
  length, length-append, take, drop, min, leb, true,
}
use jml_base.Common.Bits.{bit_and_ones}
use jml_base.Common.Result.{ok}
use jml_base.Compact.{group_index, compact_decode_length, indicator, or_first, filter_top}
use jml_base.Compact.{pack, unpack, encode_compact, decode_compact}
use jml_base.Compact.Bytes.{
  big_endian, length-big_endian, pack-big_endian, number, number-big_endian, unpack-number,
  big_endian-IsBytes,
}
use jml_base.Compact.Encode.{
  Fits, group_index_bounds, compact_decode_length-first, first_byte, first_sum, top_byte-lt,
  each_length,
}

-- The bytes of an encoding: the highest byte with the indicator above it, then the others.
abbrev pub encoding : ℕ → ℕ → List ℕ
encoding idx v = first_byte idx (v / 256 ^ idx % 256) ∷ big_endian idx v

packed : (idx v : ℕ) → Fits idx v → or_first (indicator idx) (pack (idx + 1) v []) ≡ encoding idx v
packed idx v f =
    let bytes : pack (idx + 1) v [] ≡ (v / 256 ^ idx % 256) ∷ big_endian idx v =
      rw add-one (pack-big_endian (suc idx) v [])
      ∙ append-nil (big_endian (suc idx) v)
      ∙ unfold big_endian in refl in
    rw bytes (
      ap (λ (t : ℕ). t ∷ big_endian idx v)
        (first_sum idx (v / 256 ^ idx % 256) f.0 (top_byte-lt idx v f)))

-- What the indicator adds is cut off again.
filtered :
    (idx v : ℕ)
    → Fits idx v
    → filter_top
        (idx + 1)
        ((first_byte idx (v / 256 ^ idx % 256) * 256 ^ idx + v % 256 ^ idx) % 2 ^ 64)
      ≡ v
filtered idx v f =
    each_length
      (λ k.
        (k < 8 → v < 2 ^ (7 * k + 7))
        → filter_top (k + 1) ((first_byte k (v / 256 ^ k % 256) * 256 ^ k + v % 256 ^ k) % 2 ^ 64)
          ≡ v)
      (
        λ g. bit_and_ones 7 _ ∙ omega (arith, g (omega arith)),
        λ g. bit_and_ones 14 _ ∙ omega (arith, g (omega arith)),
        λ g. bit_and_ones 21 _ ∙ omega (arith, g (omega arith)),
        λ g. bit_and_ones 28 _ ∙ omega (arith, g (omega arith)),
        λ g. bit_and_ones 35 _ ∙ omega (arith, g (omega arith)),
        λ g. bit_and_ones 42 _ ∙ omega (arith, g (omega arith)),
        λ g. bit_and_ones 49 _ ∙ omega (arith, g (omega arith)),
        λ g. bit_and_ones 56 _ ∙ omega (arith, g (omega arith)),
        λ g. omega (arith, f.1),
      )
      idx f.0 f.2

take-length : (xs ys : List ℕ) → take (length xs) (xs ++ ys) ≡ xs
take-length [] ys = refl
take-length (x ∷ xs) ys = ap (λ (l : List ℕ). x ∷ l) (take-length xs ys)

drop-length : (xs ys : List ℕ) → drop (length xs) (xs ++ ys) ≡ ys
drop-length [] ys = refl
drop-length (x ∷ xs) ys = drop-length xs ys

-- The loop reads the number that the bytes of an encoding make up.
unpack-encoding :
    (idx v : ℕ)
    → Fits idx v
    → unpack 0 (encoding idx v)
      ≡ (first_byte idx (v / 256 ^ idx % 256) * 256 ^ idx + v % 256 ^ idx) % 2 ^ 64
unpack-encoding idx v f =
    let m = first_byte idx (v / 256 ^ idx % 256) in
    let byte : m < 256 = below_256 idx v f in
    unpack-number 0 (encoding idx v) (omega arith) (byte, big_endian-IsBytes idx v)
    ∙ ap (λ (t : ℕ). t % 2 ^ 64) (number-start m (big_endian idx v) ∙ number-big_endian m idx v)
  where
    below_256 : (k u : ℕ) → Fits k u → first_byte k (u / 256 ^ k % 256) < 256
    below_256 k u g = omega (
      arith,
      top_byte-lt k u g,
      pow-le-pow_right {n = 2} (omega arith) {i = 7 - k} {j = 8 - k} (omega arith),
      pow-le-pow_right {n = 2} (omega arith) {i = 8 - k} {j = 8} (omega arith),
    )

    number-start : (m : ℕ) (bytes : List ℕ) → number 0 (m ∷ bytes) ≡ number m bytes
    number-start m bytes = unfold number in ap (λ (t : ℕ). number t bytes) (omega arith)

-- A decoder reads an encoding of any length whole.
pub decode-encoding :
    (idx v : ℕ) (rest : List ℕ)
    → Fits idx v
    → decode_compact (encoding idx v ++ rest) ≡ ok (v, rest)
unfolding decode_compact
decode-encoding idx v rest f =
    let bytes = encoding idx v in
    let b = v / 256 ^ idx % 256 in
    let size : length bytes ≡ idx + 1 = omega (arith, length-big_endian idx v) in
    let len : compact_decode_length (first_byte idx b) ≡ length bytes =
      ap compact_decode_length (sym (first_sum idx b f.0 (top_byte-lt idx v f)))
      ∙ compact_decode_length-first idx b f.0 (top_byte-lt idx v f)
      ∙ sym size in
    let enough : leb (length bytes) (length (bytes ++ rest)) ≡ true =
      ground (arith, length-append bytes rest) in
    let value : filter_top (length bytes) (unpack 0 bytes) ≡ v =
      rw (unpack-encoding idx v f) (rw size (filtered idx v f)) in
    rw (len, enough, take-length bytes rest, drop-length bytes rest, value)

-- The encoder writes an encoding with the length that the value asks for.
abbrev pub index : ℕ → ℕ
index v = min (group_index v) 8

index-Fits : (v : ℕ) → v < 2 ^ 64 → Fits (index v) v
index-Fits v h =
    let bounds = group_index_bounds v h in
    (
      omega arith,
      h,
      λ p. omega (
        arith,
        bounds.1,
        pow-le-pow_right {n = 2} (omega arith) {i = 7 * group_index v + 7} {j = 7 * index v + 7}
            (omega arith),
      ),
    )

pub encode-encoding : (v : ℕ) → v < 2 ^ 64 → encode_compact v ≡ ok (encoding (index v) v)
unfolding encode_compact
encode-encoding v h =
    let short : leb (index v + 1) 9 ≡ true = ground arith in
    rw (short, packed (index v) v (index-Fits v h))

-- Every 64-bit value is encoded to a store without failure, and decoded from the bytes that are
-- saved, and the bytes that follow are left.
pub decode-encode :
    (v : ℕ) (rest : List ℕ)
    → v < 2 ^ 64
    → (bytes : List ℕ) × (encode_compact v ≡ ok bytes)
      × (decode_compact (bytes ++ rest) ≡ ok (v, rest))
decode-encode v rest h =
    (encoding (index v) v, encode-encoding v h, decode-encoding (index v) v rest (index-Fits v h))
