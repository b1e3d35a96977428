-- ===== src/BitStream/RoundTrip.antt =====
-- Values written one after another with `Bit_Writer` come back from `Bit_Extractor`.
use jml_base.Common.{
  ℕ, ◌+◌, ◌*◌, ◌^◌, ◌≤◌, ◌<◌, ◌≡◌, ◌≢◌, ◌⊎◌, inl, inr, ℕ_discrete, max, refl, ap, ◌∙◌, arith,
  Option, some, List, [], ◌∷◌, map, length,
}
use jml_base.Common.Int.{pos}
use jml_base.BitRange.{IsWidth}
use jml_base.BitRange.Numbers.{field, field-replaced, field-replaced_other}
use jml_base.BitStream.{BitWriter, BitReader, write, write_all, extract_all, advance}
use jml_base.BitStream.Memory.{value}
use jml_base.BitStream.Writing
use jml_base.BitStream.Writing.{IsWriter, HasRoom, Wrote, write-Wrote}
use jml_base.BitStream.Reading
use jml_base.BitStream.Reading.{IsReader, extract_lem, advance-IsReader, position-advance}

-- The bits that a sequence of values takes.
abbrev pub total : List (ℕ × ℕ) → ℕ
total [] = 0
total ((v, n) ∷ items) = n + total items

module _ (w : ℕ) where
  -- Each value fits its width, and no width is one at which the shift is undefined.
  abbrev pub IsItems : List (ℕ × ℕ) → Type 0
  IsItems [] = Unit
  IsItems ((v, n) ∷ items) = (0 < n) × (n ≤ w) × (n < max w 32) × (v < 2 ^ n) × IsItems items

  -- From bit `p` of the number on stand the values.
  abbrev pub Holds : ℕ → ℕ → List (ℕ × ℕ) → Type 0
  Holds x p [] = Unit
  Holds x p ((v, n) ∷ items) = (field p n x ≡ v) × Holds x (p + n) items

  pub record WroteAll (wr : BitWriter) (items : List (ℕ × ℕ)) (r : Option BitWriter) : Type 0 where
    pub after : BitWriter
    pub returns : r ≡ some after
    pub valid : IsWriter w after
    pub size : length after.mem ≡ length wr.mem
    pub below :
        (a n : ℕ)
        → a + n ≤ Writing.position w wr
        → field a n (value w after.mem) ≡ field a n (value w wr.mem)
    pub holds : Holds (value w after.mem) (Writing.position w wr) items

  -- `set_bits` has a case of its own for 64 bits, so that only 32 bits are too many for it.
  writable : (n : ℕ) → IsWidth w → n < max w 32 → n ≢ 32 ⊎ (w ≢ 32)
  writable n hw h = elim (ℕ_discrete n 32) [
    | yes e ↦ inr (λ e'. omega (arith, ap (λ k. max k 32) e'))
    | no e ↦ inl e
  ]

  module _ (hw : IsWidth w) where
    -- A run of writes with room for its bits does not fail, leaves the bits before it, and leaves
    -- the values behind one another.
    pub write_all-WroteAll :
        (wr : BitWriter) (items : List (ℕ × ℕ))
        → IsWriter w wr
        → IsItems items
        → HasRoom w wr.mem (Writing.position w wr + total items)
        → WroteAll wr items (write_all w wr items)
    unfolding write_all
    write_all-WroteAll wr [] ok fits room = record {
      after = wr;
      returns = refl;
      valid = ok;
      size = refl;
      below = λ a n h. refl;
      holds = tt;
    }
    write_all-WroteAll wr ((v, n) ∷ items) ok fits room =
        let first : Wrote w wr n v (write w wr v (pos n)) =
          write-Wrote w wr n v hw (writable n hw fits.2) ok fits.0 fits.1 fits.3 (omega arith) in
        let rest : WroteAll first.after items (write_all w first.after items) =
          write_all-WroteAll first.after items first.valid fits.4
            (rw (first.size, first.place) (omega arith)) in
        record {
          after = rest.after;
          returns = rw first.returns rest.returns;
          valid = rest.valid;
          size = rest.size ∙ first.size;
          below = λ a k h.
              rest.below a k (omega (arith, first.place))
              ∙ ap (field a k) first.bits
              ∙ field-replaced_other a k (Writing.position w wr) n v (value w wr.mem) h;
          holds = (
            rest.below (Writing.position w wr) n (omega (arith, first.place))
                ∙ ap (field (Writing.position w wr) n) first.bits
                ∙ field-replaced (Writing.position w wr) n v (value w wr.mem) fits.3,
            rw first.place at rest.holds,
          );
        }

    -- Extraction of the widths of values that stand in the array returns the values.
    pub extract_all-Holds :
        (rd : BitReader) (items : List (ℕ × ℕ))
        → IsReader w rd
        → IsItems items
        → Reading.position w rd + total items < length rd.mem * w
        → Holds (value w rd.mem) (Reading.position w rd) items
        → (end : BitReader) × (extract_all w rd (map (λ i. i.1) items)
            ≡ some (map (λ i. i.0) items, end))
    unfolding extract_all
    extract_all-Holds rd [] ok fits room holds = (rd, refl)
    extract_all-Holds rd ((v, n) ∷ items) ok fits room holds =
        let next = advance w rd n in
        let moved = position-advance w rd n in
        let (end, rest) =
          extract_all-Holds next items (advance-IsReader w rd n ok) fits.4 (omega (arith, moved))
            (rw (← moved) at holds.1) in
        (end, rw (extract_lem w rd n hw ok fits.0 fits.1 fits.2 (omega arith), rest, holds.0))

    -- Where the array has room for values of 1 to `w` bits each, none of 32 bits in words of 32 nor of
    -- 64 in words of 64, and for one bit more, a run of writes does not fail, and a run of reads from the same position returns
    -- the values, wherever they straddle words.
    pub extract_all-write_all :
        (wr : BitWriter) (items : List (ℕ × ℕ))
        → IsWriter w wr
        → IsItems items
        → Writing.position w wr + total items < length wr.mem * w
        → (after : BitWriter) × (end : BitReader) × (write_all w wr items ≡ some after)
          × (extract_all w
                (record { mem = after.mem; data_ptr = wr.data_ptr; bit_ofs = wr.bit_ofs })
                (map (λ i. i.1) items)
              ≡ some (map (λ i. i.0) items, end))
    extract_all-write_all wr items ok fits room =
        let done = write_all-WroteAll wr items ok fits (omega arith) in
        let start : BitReader = record {
          mem = done.after.mem;
          data_ptr = wr.data_ptr;
          bit_ofs = wr.bit_ofs;
        } in
        let (end, read) =
          extract_all-Holds start items (record { words = done.valid.words; inside = ok.inside })
            fits (rw done.size room) done.holds in
        (done.after, end, done.returns, read)
