-- ===== src/Circular/EndReads.antt =====
-- utils/circular_buffer.h: `front` and `back`.
use jml_base.Common.{
  ◌+◌, ◌-◌, ◌≡◌, sym, refl, arith, true, leb, List, [], ◌∷◌, length, get_elem?_in,
}
use jml_base.Common.Int.{pos, negsuc}
use jml_base.Circular.{Buffer, front, back}
use jml_base.Circular.Contents.{
  Holds, started_lt, inside, load-cell, element_at-pos, ≢0→false, lookup, looked,
}
use jml_base.Circular.Ends.{offset-zero}

module _ {ℓ} {A : Type ℓ} where
  -- On a buffer that holds `xs`, `front` returns what `lookup` says of index 0, the exception of an empty
  -- buffer included.
  pub front-lookup : (b : Buffer A) (xs : List A) → Holds b xs → front b ≡ lookup xs (pos 0)
  unfolding front lookup looked
  front-lookup b [] h = let e : b.size ≡ 0 = sym h.counted in rw e
  front-lookup b (x ∷ xs) h =
      let (s, c, s0, c0) = inside b (x ∷ xs) 0 h (omega arith) in
      rw (≢0→false b.size s0, sym (offset-zero b (started_lt h c0)))
        (load-cell b (x ∷ xs) 0 x h refl c0)

  -- On a buffer that holds `xs`, `back` returns what `lookup` says of index -1, the exception of an empty
  -- buffer included.
  pub back-lookup : (b : Buffer A) (xs : List A) → Holds b xs → back b ≡ lookup xs (negsuc 0)
  unfolding back lookup looked
  back-lookup b [] h = let e : b.size ≡ 0 = sym h.counted in rw e
  back-lookup b (x ∷ xs) h =
      let (s, c, s0, c0) = inside b (x ∷ xs) 0 h (omega arith) in
      let test : leb (0 + 1) (length (x ∷ xs)) ≡ true = ground arith in
      let last : b.size - 1 ≡ length (x ∷ xs) - (0 + 1) = omega (arith, h.counted) in
      let i = length (x ∷ xs) - (0 + 1) in
      let (y, e) = get_elem?_in (x ∷ xs) i (omega arith) in
      rw (≢0→false b.size s0, element_at-pos b (b.size - 1) c0, last, test, e)
        (load-cell b (x ∷ xs) i y h e (omega (arith, h.counted, h.fits)))
