-- ===== src/BitStream/Tests.antt =====
-- Runs of the writer and the extractor, and the theorems on them at concrete streams.
use jml_base.BitRange.Signs.{sign_extend, fixup_extract, sign_extend_lem, fixup_extract_same}
use jml_base.Common.{
  ℕ, ltb, if◌then◌else◌, ◌+◌, ◌-◌, ◌*◌, ◌/◌, ◌%◌, ◌^◌, ◌≡◌, ◌≢◌, refl, inl, arith, none, some, List,
  [], ◌∷◌,
}
use jml_base.Common.Int.{pos, negsuc}
use jml_base.BitRange.{IsWidth, set_bits, set_bit_range, extract_bit_range, shrd}
use jml_base.BitRange.Pair.{IsSet2, set_bit_range-IsSet2}
use jml_base.BitRange.Fields.{extract_bit_range_lem}
use jml_base.BitStream.{
  BitWriter, BitReader, set_at, write, rwrite, extract, rextract, write_all, extract_all,
}
use jml_base.BitStream.Writing.{IsWriter}
use jml_base.BitStream.Reading.{IsReader, extract_overread}
use jml_base.BitStream.RoundTrip.{IsItems, extract_all-write_all}

abbrev bytes_writer : BitWriter
bytes_writer = record { mem = 0xff ∷ 0xff ∷ 0xff ∷ 0 ∷ []; data_ptr = 0; bit_ofs = 6 }

abbrev bytes_reader : BitReader
bytes_reader = record { mem = 0b01111111 ∷ 0b11111111 ∷ 0xff ∷ []; data_ptr = 0; bit_ofs = 6 }

abbrev items : List (ℕ × ℕ)
items = (5, 3) ∷ (2, 7) ∷ (1, 1) ∷ []

-- 101 over the end of the first byte: 01 above the six ones, 1 in the second.
write_over_the_end :
    write 8 bytes_writer 5 (pos 3)
    ≡ some (record { mem = 0x7f ∷ 0xff ∷ 0xff ∷ 0 ∷ []; data_ptr = 1; bit_ofs = 1 })
unfolding write set_at set_bit_range set_bits
write_over_the_end = refl

write_nothing : write 8 bytes_writer 5 (negsuc 1) ≡ some bytes_writer
unfolding write
write_nothing = refl

-- From the most significant end the first word holds the high bits.
rextract-rwrite :
    (rwrite 8 bytes_writer 0b0011 (pos 4)
      ≡ some (record { mem = 0xfc ∷ 0xff ∷ 0xff ∷ 0 ∷ []; data_ptr = 1; bit_ofs = 2 }))
    × (rextract 8 (record { mem = 0xfc ∷ 0xff ∷ []; data_ptr = 0; bit_ofs = 6 }) (pos 4)
        ≡ some (0b0011, record { mem = 0xfc ∷ 0xff ∷ []; data_ptr = 1; bit_ofs = 2 }))
unfolding rwrite set_at set_bit_range set_bits rextract extract_bit_range shrd
rextract-rwrite = (refl, refl)

bytes_writer-IsWriter : IsWriter 8 bytes_writer
bytes_writer-IsWriter = omega arith

bytes_reader-IsReader : IsReader 8 bytes_reader
bytes_reader-IsReader = omega arith

byte_width : IsWidth 8
byte_width = inl refl

eight_ne : ◌≢◌ {A = ℕ} 8 32
eight_ne = omega arith

extract_bit_range_lem_example :
    extract_bit_range 8 0x7f 0xff 6 3 ≡ some ((0x7f + 0xff * 2 ^ 8) / 2 ^ 6 % 2 ^ 3)
extract_bit_range_lem_example =
    extract_bit_range_lem 8 0x7f 0xff 6 3 byte_width (omega arith) (omega arith) (omega arith)

set_bit_range-IsSet2_example : IsSet2 8 0xff 0xff 5 6 3 (set_bit_range 8 0xff 0xff 5 6 3)
set_bit_range-IsSet2_example =
    set_bit_range-IsSet2 8 byte_width 0xff 0xff 5 6 (omega arith) (omega arith) 3 (omega arith)
      (omega arith) (omega arith) (omega arith) (omega arith)

extract_overread_example :
    extract 8 (record { mem = 0xab ∷ []; data_ptr = 0; bit_ofs = 4 }) (pos 4) ≡ none
extract_overread_example =
    extract_overread 8 (record { mem = 0xab ∷ []; data_ptr = 0; bit_ofs = 4 }) 4 (omega arith)
      (omega arith) (omega arith) (omega arith)

items-IsItems : IsItems 8 items
items-IsItems = (
  omega arith,
  omega arith,
  omega arith,
  omega arith,
  (
    omega arith,
    omega arith,
    omega arith,
    omega arith,
    (omega arith, omega arith, omega arith, omega arith, tt),
  ),
)

extract_all-write_all_example :
    (after : BitWriter) × (end : BitReader) × (write_all 8 bytes_writer items ≡ some after)
    × (extract_all 8 (record { mem = after.mem; data_ptr = 0; bit_ofs = 6 }) (3 ∷ 7 ∷ 1 ∷ [])
        ≡ some (5 ∷ 2 ∷ 1 ∷ [], end))
extract_all-write_all_example =
    extract_all-write_all 8 byte_width bytes_writer items bytes_writer-IsWriter items-IsItems
      (omega arith)

sign_extend_lem_example :
    sign_extend 32 2 1 ≡ some (if ltb 2 (2 ^ 1) then 2 else 2 + 2 ^ 32 - 2 ^ 2)
sign_extend_lem_example = sign_extend_lem 32 2 1 (omega arith) (omega arith)

-- The field 111 of three bits is -1, and comes back as 7.
fixup_extract_same_example : fixup_extract 32 7 3 ≡ some 7
fixup_extract_same_example = fixup_extract_same 32 7 3 (omega arith) (omega arith)
