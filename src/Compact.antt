-- ===== src/Compact.antt =====
-- db/compact_size_types.cc: unsigned and signed integers in 1 to 9 bytes. The length stands in the
-- leading ones of the first byte, the value in the bits that follow, high byte first. Bytes are
-- numbers below 256 and an `unsigned long long` is a number below 2 ^ 64.
pub mod Bytes
pub mod Encode
pub mod RoundTrip
pub mod Signed
mod Tests
use Prim.Native.Nat.{bit_and, bit_or}
use jml_base.Common.{
  ℕ, zero, suc, ◌+◌, ◌-◌, ◌*◌, ◌/◌, ◌%◌, ◌^◌, min, ltb, leb, ◌==◌, if◌then◌else◌, Bool, List, [],
  ◌∷◌, ◌++◌, length, get_elem?, take, drop, Option, none, some,
}
use jml_base.Common.Int.{ℤ, pos, negsuc}
use jml_base.Common.Result.{Result, ok, err, ◌>>=◌, ◌>>◌, guard}
use jml_base.Bitops.{highest_bit}

-- `bad_shift` is no exception: C++ leaves a shift by a negative count undefined.
pub data Error : Type 0 where
  assertion no_space too_few_bytes past_end bad_shift : Error

-- `int` division by 7 truncates.
abbrev pub div_7 : ℤ → ℤ
div_7 (pos n) = pos (n / 7)
div_7 (negsuc n) = if ltb n 6 then pos 0 else negsuc ((n + 1) / 7 - 1)

-- The value of an `int` that the code goes on with only where it is not negative.
abbrev pub to_size : ℤ → ℕ
to_size (pos n) = n
to_size (negsuc n) = 0

-- `highest / 7` of `highest_bit(val)`.
pub group_index : ℕ → ℕ
group_index val = to_size (div_7 (highest_bit 64 val (negsuc 0)))

pub compact_encode_length : ℕ → ℕ
unfolding group_index
compact_encode_length val = group_index val + 1

-- `for (int i = len-1; i >= 0; --i) { buf[i] = val & 0xff; val >>= 8; }`.
pub pack : ℕ → ℕ → List ℕ → List ℕ
pack zero val buf = buf
pack (suc i) val buf = pack i (val / 2 ^ 8) (bit_and val 0xff ∷ buf)

-- `buf[0] |= indicator`, of which a byte keeps the low bits.
abbrev pub or_first : ℕ → List ℕ → List ℕ
or_first indicator [] = []
or_first indicator (b ∷ buf) = bit_or b (indicator % 2 ^ 8) ∷ buf

-- `~((1 << (8-idx)) - 1)`, for `idx` up to 8.
abbrev pub indicator : ℕ → ℕ
indicator idx = 2 ^ 32 - 1 - (2 ^ (8 - idx) - 1)

-- The overload on a `Store_Writer`, with the bytes that it saves.
pub encode_compact : ℕ → Result Error (List ℕ)
encode_compact val =
    let idx = min (group_index val) 8 in
    let len = idx + 1 in
    guard (leb len 9) assertion >> ok (or_first (indicator idx) (pack len val []))

-- The overload on `first` and `last`, with `space` bytes between them; `first` moves behind the bytes.
pub encode_compact_at : ℕ → ℕ → Result Error (List ℕ)
encode_compact_at space val =
    let idx = group_index val in
    let len = idx + 1 in
    let bytes = pack len val [] in
    do
      guard (leb len space) no_space
      guard (leb idx 8) bad_shift
      ok (or_first (indicator idx) bytes)

-- `8 - highest_bit((char)~marker)`.
pub compact_decode_length : ℕ → ℕ
compact_decode_length marker = elim (highest_bit 8 (255 - marker) (negsuc 0)) [
  | pos h ↦ 8 - h
  | negsuc _ ↦ 9
]

-- The loop over the bytes: `result <<= 8; result |= val;`.
pub unpack : ℕ → List ℕ → ℕ
unpack result [] = result
unpack result (b ∷ bytes) = unpack (bit_or (result * 2 ^ 8 % 2 ^ 64) b) bytes

-- `if (len == 9) ; else result &= (1ULL << bits) - 1`.
abbrev pub filter_top : ℕ → ℕ → ℕ
filter_top len result = if len == 9 then result else bit_and result (2 ^ (len * 7) % 2 ^ 64 - 1)

-- The overload on `first` and `last`: the value, and what `first` points to then.
pub decode_compact : List ℕ → Result Error (ℕ × List ℕ)
decode_compact [] = err too_few_bytes
decode_compact (marker ∷ rest) =
    let len = compact_decode_length marker in
    let bytes = marker ∷ rest in
    guard (leb len (length bytes)) too_few_bytes
    >> ok (filter_top len (unpack 0 (take len bytes)), drop len bytes)

-- The sign goes to the lowest bit, the rest in ones' complement.
pub encode_sign : ℤ → ℕ
encode_sign (pos n) = n * 2 % 2 ^ 64
encode_sign (negsuc n) = bit_or (n * 2 % 2 ^ 64) 1

pub decode_sign : ℕ → ℤ
decode_sign val = if bit_and val 1 == 0 then pos (val / 2) else negsuc (val / 2)

pub encode_signed_compact : ℤ → Result Error (List ℕ)
encode_signed_compact val = encode_compact (encode_sign val)

pub encode_signed_compact_at : ℕ → ℤ → Result Error (List ℕ)
encode_signed_compact_at space val = encode_compact_at space (encode_sign val)

pub decode_signed_compact : List ℕ → Result Error (ℤ × List ℕ)
decode_signed_compact bytes = do (val, rest) ← decode_compact bytes; ok (decode_sign val, rest)
