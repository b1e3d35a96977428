-- ===== src/BitStream.antt =====
-- arch/bit_range_ops.h: `Bit_Writer`, `Bit_Buffer` with its memory buffers, and `Bit_Extractor`.
-- A `Data *` is an index into the words of one array; `none` is an access outside the array or a
-- shift that C++ leaves undefined.
pub mod Memory
pub mod Writing
pub mod Reading
pub mod RoundTrip
mod Tests
use jml_base.Common.{
  ℕ, ◌+◌, ◌-◌, ◌*◌, ◌/◌, ◌%◌, ltb, leb, ◌==◌, if◌then◌else◌, Option, none, some, List, [], ◌∷◌,
  get_elem?, get_or, set,
}
use jml_base.Common.Int.{ℤ, pos, pos_part, ltb_ℤ}
use jml_base.BitRange.{extract_bit_range, set_bits, set_bit_range, ◌>>=◌}

-- `Bit_Writer`.
pub record BitWriter : Type 0 where
  pub mem : List ℕ
  pub data_ptr : ℕ
  pub bit_ofs : ℕ

-- `Bit_Buffer` over a `Simple_Mem_Buffer`; `Bit_Extractor` forwards to it.
pub record BitReader : Type 0 where
  pub mem : List ℕ
  pub data_ptr : ℕ
  pub bit_ofs : ℕ

module _ (w : ℕ) where
  abbrev pub skip : BitWriter → ℕ → BitWriter
  skip wr bits =
      let ofs = wr.bit_ofs + bits in
      record wr { data_ptr = wr.data_ptr + ofs / w; bit_ofs = ofs % w }

  -- `set_bit_range(data[i], data[j], …)`: the word at `j` is accessed only if the field reaches it.
  unfoldable pub set_at : List ℕ → ℕ → ℕ → ℕ → ℕ → ℕ → Option (List ℕ)
  set_at mem i j val bit bits = do
    p0 ← get_elem? mem i
    (q0, q1) ← set_bit_range w p0 (get_or mem j 0) val bit bits
    let both = (do _ ← get_elem? mem j; some (set (set mem i q0) j q1))
    if leb (bit + bits) w then some (set mem i q0) else both

  -- The `int` argument is tested for `bits <= 0`.
  unfoldable pub write : BitWriter → ℕ → ℤ → Option BitWriter
  write wr val bits =
      let n = pos_part bits in
      let written = (do
        mem ← set_at wr.mem wr.data_ptr (wr.data_ptr + 1) val wr.bit_ofs n
        some (skip (record wr { mem = mem }) n)) in
      if ltb_ℤ (pos 0) bits then written else some wr

  unfoldable pub rwrite : BitWriter → ℕ → ℤ → Option BitWriter
  rwrite wr val bits =
      let n = pos_part bits in
      let end = wr.bit_ofs + n in
      let i = wr.data_ptr in
      let inside = (do
        word ← get_elem? wr.mem i
        word' ← set_bits w word val (w - end) n
        some (skip (record wr { mem = set wr.mem i word' }) n)) in
      let across = (do
        mem ← set_at wr.mem (i + 1) i val (w * 2 - end) n
        some (skip (record wr { mem = mem }) n)) in
      if ltb_ℤ (pos 0) bits then (if leb end w then inside else across) else some wr

  abbrev pub advance : BitReader → ℕ → BitReader
  advance rd bits =
      let ofs = rd.bit_ofs + bits in
      record rd { data_ptr = rd.data_ptr + ofs / w; bit_ofs = ofs % w }

  -- `data.curr()` and `data.next()`.
  abbrev pub curr : BitReader → Option ℕ
  curr rd = get_elem? rd.mem rd.data_ptr

  abbrev pub next : BitReader → Option ℕ
  next rd = get_elem? rd.mem (rd.data_ptr + 1)

  unfoldable pub extract_fast : BitReader → ℕ → Option (ℕ × BitReader)
  extract_fast rd n = do
    p0 ← curr rd
    p1 ← next rd
    result ← extract_bit_range w p0 p1 rd.bit_ofs n
    some (result, advance rd n)

  unfoldable pub extract : BitReader → ℤ → Option (ℕ × BitReader)
  extract rd bits =
      let n = pos_part bits in
      let inside = (do
        p0 ← curr rd
        result ← extract_bit_range w p0 0 rd.bit_ofs n
        some (result, advance rd n)) in
      if ltb_ℤ (pos 0) bits
      then (if ltb (rd.bit_ofs + n) w then inside else extract_fast rd n)
      else some (0, rd)

  unfoldable pub rextract : BitReader → ℤ → Option (ℕ × BitReader)
  rextract rd bits =
      let n = pos_part bits in
      let end = rd.bit_ofs + n in
      let inside = (do
        p0 ← curr rd
        result ← extract_bit_range w p0 0 (w - end) n
        some (result, advance rd n)) in
      let across = (do
        p1 ← next rd
        p0 ← curr rd
        result ← extract_bit_range w p1 p0 (w * 2 - end) n
        some (result, advance rd n)) in
      if ltb_ℤ (pos 0) bits then (if leb end w then inside else across) else some (0, rd)

  -- `write` after `write`, and the overloads of `Bit_Extractor::extract` for several targets.
  unfoldable pub write_all : BitWriter → List (ℕ × ℕ) → Option BitWriter
  write_all wr [] = some wr
  write_all wr ((v, n) ∷ items) = do wr' ← write wr v (pos n); write_all wr' items

  unfoldable pub extract_all : BitReader → List ℕ → Option (List ℕ × BitReader)
  extract_all rd [] = some ([], rd)
  extract_all rd (n ∷ widths) = do
    (v, rd') ← extract rd (pos n)
    (vs, end) ← extract_all rd' widths
    some (v ∷ vs, end)
