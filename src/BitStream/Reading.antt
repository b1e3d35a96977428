-- ===== src/BitStream/Reading.antt =====
-- `Bit_Buffer::extract`: it reads the bits at the reader's position, and looks one word too far
-- where they end a word.
use native.Mathlib.Nat.{mod-lt, div-add-mod', suc-mul, zero-mul, mul-le-mul_right}
use native.Mathlib.Numerals.{add-one}
use jml_base.Common.{
  ℕ, suc, ◌+◌, ◌-◌, ◌*◌, ◌^◌, ◌≤◌, ◌<◌, ◌≡◌, arith, none, some, length, get_elem?_in, get_elem?_out,
  dec_lt, ltb, max, true, lt→ltb, le→ltb,
}
use jml_base.Common.Int.{pos}
use jml_base.BitRange.{IsWidth}
use jml_base.BitRange.Fields.{extract_bit_range-defined}
use jml_base.BitRange.Numbers.{field}
use jml_base.BitStream.{BitReader, advance, extract, extract_fast}
use jml_base.BitStream.Memory.{IsWords, IsWords-get, value, field_one, field_two}
use jml_base.BitStream.Writing.{index_lt}

module _ (w : ℕ) where
  abbrev pub position : BitReader → ℕ
  position rd = rd.data_ptr * w + rd.bit_ofs

  pub record IsReader (rd : BitReader) : Type 0 where
    pub words : IsWords w rd.mem
    pub inside : rd.bit_ofs < w

  pub position-advance : (rd : BitReader) (n : ℕ) → position (advance w rd n) ≡ position rd + n
  position-advance rd n = omega (arith, div-add-mod' (rd.bit_ofs + n) w)

  pub advance-IsReader : (rd : BitReader) (n : ℕ) → IsReader rd → IsReader (advance w rd n)
  advance-IsReader rd n ok = record {
    words = ok.words;
    inside = mod-lt (rd.bit_ofs + n) (omega (arith, ok.inside));
  }

  -- `extractFast` needs the word behind the current one, and reads the bits at the position, where the
  -- mask's shift is defined.
  pub extract_fast_lem :
      (rd : BitReader) (n : ℕ)
      → IsWidth w
      → IsReader rd
      → n ≤ w
      → n < max w 32
      → suc rd.data_ptr < length rd.mem
      → extract_fast w rd n ≡ some (field (position rd) n (value w rd.mem), advance w rd n)
  unfolding extract_fast
  extract_fast_lem rd n hw ok hn defined h =
      let d = rd.data_ptr in
      let (p0, e0) = get_elem?_in rd.mem d (omega arith) in
      let (p1, e1) = get_elem?_in rd.mem (suc d) h in
      let read =
        extract_bit_range-defined w p0 p1 rd.bit_ofs n hw (IsWords-get w rd.mem d ok.words e0)
          ok.inside hn defined in
      let bits = field_two w rd.mem d rd.bit_ofs n ok.words e0 e1 (omega (arith, ok.inside)) in
      rw (e0, add-one, e1, read, bits)

  -- Where the array has a bit left behind them, `extract` of 1 to `w` bits, for which the mask's shift
  -- is defined, does not fail: it returns the `n` bits at the reader's position, and moves the position behind them.
  pub extract_lem :
      (rd : BitReader) (n : ℕ)
      → IsWidth w
      → IsReader rd
      → 0 < n
      → n ≤ w
      → n < max w 32
      → position rd + n < length rd.mem * w
      → extract w rd (pos n) ≡ some (field (position rd) n (value w rd.mem), advance w rd n)
  unfolding extract
  extract_lem rd n hw ok hpos hn defined room =
      let d = rd.data_ptr in
      let ofs = rd.bit_ofs in
      let asked : ltb 0 (n + 0) ≡ true = ground arith in
      elim (dec_lt (ofs + n) w) [
        | yes h ↦
            let in_range = index_lt w d (ofs + n) (length rd.mem) (omega arith) (omega arith) in
            let (p0, e0) = get_elem?_in rd.mem d in_range in
            let fits = IsWords-get w rd.mem d ok.words e0 in
            let alone : p0 + 0 * 2 ^ w ≡ p0 = omega (arith, zero-mul (2 ^ w)) in
            let read = extract_bit_range-defined w p0 0 ofs n hw fits ok.inside hn defined in
            rw (asked, lt→ltb (ofs + n) w h, e0, read, alone)
              (rw (field_one w rd.mem d ofs n ok.words e0 (omega arith)))
        | no h ↦
            let second =
              index_lt w (suc d) (ofs + n - w + 1) (length rd.mem) (omega (arith, suc-mul d w))
                (omega arith) in
            rw (asked, le→ltb (ofs + n) w (omega arith))
              (extract_fast_lem rd n hw ok hn defined second)
      ]

  -- Where 1 to `w` bits end the last word of the array, `extract` reads the word behind it.
  pub extract_overread :
      (rd : BitReader) (n : ℕ)
      → IsReader rd
      → 0 < n
      → n ≤ w
      → position rd + n ≡ length rd.mem * w
      → extract w rd (pos n) ≡ none
  unfolding extract extract_fast
  extract_overread rd n ok hpos hn end =
      let d = rd.data_ptr in
      let ofs = rd.bit_ofs in
      let asked : ltb 0 (n + 0) ≡ true = ground arith in
      let in_range = index_lt w d (ofs + n) (length rd.mem) (omega arith) (omega arith) in
      let whole : w ≤ ofs + n =
        omega (arith, suc-mul d w, mul-le-mul_right {m = suc d} {n = length rd.mem} w in_range) in
      let last : length rd.mem ≤ suc d =
        last_word d (length rd.mem) (ofs + n) (omega arith) (omega (arith, ok.inside)) in
      let (p0, e0) = get_elem?_in rd.mem d in_range in
      rw (asked, le→ltb (ofs + n) w whole) (rw (e0, add-one, get_elem?_out rd.mem (suc d) last))
    where
      last_word : (d L k : ℕ) → d * w + k ≡ L * w → k < w + w → L ≤ suc d
      last_word d L k e h = elim (dec_lt L (suc (suc d))) [
        | yes p ↦ omega arith
        | no p ↦ absurd (
            omega (
              arith,
              suc-mul d w,
              suc-mul (suc d) w,
              mul-le-mul_right {m = suc (suc d)} {n = L} w (omega arith),
            ))
      ]
