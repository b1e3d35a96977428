-- ===== src/BitStream/Writing.antt =====
-- `Bit_Writer::write`: it puts a value at the writer's position in the bits of the array.
use native.Mathlib.Nat.{mod-lt, div-add-mod', suc-mul, mul-le-mul_right}
use jml_base.Common.{
  ℕ, zero, suc, ◌+◌, ◌-◌, ◌*◌, ◌^◌, ◌≤◌, ◌<◌, ◌≡◌, ◌≢◌, ◌⊎◌, ap, ◌∙◌, arith, Option, some, some-eq,
  List, [], ◌∷◌, length, get_elem?, get_elem?_in, get_or, set, length-set, dec_le, dec_lt,
}
use jml_base.Common.Int.{pos}
use native.Mathlib.Numerals.{add-one}
use jml_base.Common.Bits.{pow_pos}
use jml_base.BitRange.{IsWidth, set_bit_range}
use jml_base.BitRange.Numbers.{replaced, replaced_above}
use jml_base.BitRange.Pair.{IsSet2, set_bit_range-IsSet2}
use jml_base.BitStream.{BitWriter, skip, set_at, write}
use jml_base.BitStream.Memory.{
  IsWords, IsWords-get, IsWords-set, value, value-set_one, value-set_two,
}

-- An index with room behind it lies inside.
pub index_lt : (w d k L : ℕ) → d * w + k ≤ L * w → 0 < k → d < L
index_lt w d k L h hk = elim (dec_lt d L) [
  | yes p ↦ p
  | no p ↦ absurd (omega (arith, mul-le-mul_right {m = L} {n = d} w (omega arith)))
]

pub get_elem?-get_or :
    (mem : List ℕ) (i : ℕ) {x : ℕ} → get_elem? mem i ≡ some x → get_or mem i 0 ≡ x
get_elem?-get_or [] i e = cc
get_elem?-get_or (x ∷ mem) zero e = some-eq e
get_elem?-get_or (x ∷ mem) (suc i) e = get_elem?-get_or mem i e

module _ (w : ℕ) where
  -- The number of bits before the writer's next bit.
  abbrev pub position : BitWriter → ℕ
  position wr = wr.data_ptr * w + wr.bit_ofs

  pub record IsWriter (wr : BitWriter) : Type 0 where
    pub words : IsWords w wr.mem
    pub inside : wr.bit_ofs < w

  -- What a write of the `n` low bits of `v` leaves.
  pub record Wrote (wr : BitWriter) (n v : ℕ) (r : Option BitWriter) : Type 0 where
    pub after : BitWriter
    pub returns : r ≡ some after
    pub valid : IsWriter after
    pub size : length after.mem ≡ length wr.mem
    pub place : position after ≡ position wr + n
    pub bits : value w after.mem ≡ replaced (position wr) n v (value w wr.mem)

  position-skip : (wr : BitWriter) (n : ℕ) → position (skip w wr n) ≡ position wr + n
  position-skip wr n = omega (arith, div-add-mod' (wr.bit_ofs + n) w)

  -- The room that a write needs: the array has the bits.
  abbrev pub HasRoom : List ℕ → ℕ → Type 0
  HasRoom mem end = end ≤ length mem * w

  write_within :
      (wr : BitWriter) (n v : ℕ) (p0 : ℕ)
      → IsWriter wr
      → get_elem? wr.mem wr.data_ptr ≡ some p0
      → wr.bit_ofs + n ≤ w
      → 0 < n
      → (let p1 = get_or wr.mem (wr.data_ptr + 1) 0 in
          IsSet2 w p0 p1 v wr.bit_ofs n (set_bit_range w p0 p1 v wr.bit_ofs n))
      → Wrote wr n v (write w wr v (pos n))
  unfolding write set_at
  write_within wr n v p0 ok e h hn s =
      let p1 = get_or wr.mem (wr.data_ptr + 1) 0 in
      let eq : s.low ≡ replaced wr.bit_ofs n v p0 = omega (
        arith,
        s.written,
        replaced_above w wr.bit_ofs n v p0 p1 h,
        ap (λ (t : ℕ). t * 2 ^ w) (s.kept h),
      ) in
      let mem' = set wr.mem wr.data_ptr s.low in
      record {
        after = skip w (record wr { mem = mem' }) n;
        returns = rw (e, s.returns) (ground arith);
        valid = record {
          words = IsWords-set w wr.mem wr.data_ptr s.low ok.words s.low_fits;
          inside = mod-lt (wr.bit_ofs + n) (omega arith);
        };
        size = length-set wr.mem wr.data_ptr s.low;
        place = position-skip wr n;
        bits = value-set_one w wr.mem wr.data_ptr wr.bit_ofs n v s.low ok.words e h eq;
      }

  write_across :
      (wr : BitWriter) (n v p0 p1 : ℕ)
      → IsWriter wr
      → get_elem? wr.mem wr.data_ptr ≡ some p0
      → get_elem? wr.mem (suc wr.data_ptr) ≡ some p1
      → w < wr.bit_ofs + n
      → n ≤ w
      → IsSet2 w p0 p1 v wr.bit_ofs n (set_bit_range w p0 p1 v wr.bit_ofs n)
      → Wrote wr n v (write w wr v (pos n))
  unfolding write set_at
  write_across wr n v p0 p1 ok e0 e1 h hn s =
      let d = wr.data_ptr in
      let mem' = set (set wr.mem d s.low) (suc d) s.high in
      record {
        after = skip w (record wr { mem = mem' }) n;
        returns =
            rw (e0, add-one, get_elem?-get_or wr.mem (suc d) e1, s.returns, e1) (ground arith);
        valid = record {
          words =
              IsWords-set w (set wr.mem d s.low) (suc d) s.high
                (IsWords-set w wr.mem d s.low ok.words s.low_fits) s.high_fits;
          inside = mod-lt (wr.bit_ofs + n) (omega arith);
        };
        size = length-set (set wr.mem d s.low) (suc d) s.high ∙ length-set wr.mem d s.low;
        place = position-skip wr n;
        bits =
            value-set_two w wr.mem d wr.bit_ofs n v s.low s.high ok.words e0 e1 (omega arith)
              s.written;
      }

  -- `write` of a value that fits 1 to `w` bits, and not of 32 bits in words of 32, does not fail
  -- where the array has room for them: it replaces exactly the `n` bits at the writer's position by
  -- the value, and moves the position behind them.
  pub write-Wrote :
      (wr : BitWriter) (n v : ℕ)
      → IsWidth w
      → n ≢ 32 ⊎ (w ≢ 32)
      → IsWriter wr
      → 0 < n
      → n ≤ w
      → v < 2 ^ n
      → HasRoom wr.mem (position wr + n)
      → Wrote wr n v (write w wr v (pos n))
  write-Wrote wr n v hw h32 ok hpos hn hv room =
      let d = wr.data_ptr in
      let ofs = wr.bit_ofs in
      let mem = wr.mem in
      let (p0, e0) =
        get_elem?_in mem d (index_lt w d (ofs + n) (length mem) (omega arith) (omega arith)) in
      let set2 = λ (p1 : ℕ) (f : p1 < 2 ^ w).
        set_bit_range-IsSet2 w hw p0 p1 v ofs (IsWords-get w mem d ok.words e0) f n h32 hpos hn
          ok.inside hv in
      elim (dec_le (ofs + n) w) [
        | yes h ↦
            write_within wr n v p0 ok e0 h hpos
              (set2 (get_or mem (d + 1) 0) (get_or-lt mem (d + 1) ok.words))
        | no h ↦
            let second =
              index_lt w (suc d) (ofs + n - w) (length mem) (omega (arith, suc-mul d w))
                (omega arith) in
            let (p1, e1) = get_elem?_in mem (suc d) second in
            write_across wr n v p0 p1 ok e0 e1 (omega arith) hn
              (set2 p1 (IsWords-get w mem (suc d) ok.words e1))
      ]
    where
      get_or-lt : (m : List ℕ) (i : ℕ) → IsWords w m → get_or m i 0 < 2 ^ w
      get_or-lt [] i h = pow_pos w
      get_or-lt (x ∷ m) zero h = h.0
      get_or-lt (x ∷ m) (suc i) h = get_or-lt m i h.1
