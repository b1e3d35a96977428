-- ===== src/Hash/Probing.antt =====
-- utils/lightweight_hash.h: the loop of `find_bucket` looks at the buckets from the hash of the key on,
-- round the end of the storage, until one has the key or is empty, or all have been seen.
use jml_base.Common.{
  ℕ, zero, suc, ◌+◌, ◌≤◌, ◌<◌, ◌^◌, lt→ltb, ◌≡◌, ◌==◌, ◌||◌, inl, inr, sym, ap₂, ◌∙◌, arith, leb,
  true, false, not, Bool-cases, if◌then◌else◌, List, some, length, get_elem?, get_elem?_in, dec_lt,
}
use jml_base.Common.Result.{ok}
use jml_base.Circular.{offset_of}
use jml_base.Circular.Cells.{offset_of-lt, offset_of-low, offset_of-high}
use jml_base.Hash.{Scanned, hit, stop, bucket_is_full, bucket_has_key, bucket_at, scan}

-- The loop's next bucket, and its flag.
next_probe :
    (cap bucket n : ℕ)
    → bucket < cap
    → n < cap
    → (if offset_of cap bucket n + 1 == cap then 0 else offset_of cap bucket n + 1)
      ≡ offset_of cap bucket (n + 1)
next_probe cap bucket n hb hn = ground arith

next_wrapped :
    (cap bucket n : ℕ)
    → bucket < cap
    → n < cap
    → (leb cap (bucket + n) || (offset_of cap bucket n + 1 == cap)) ≡ leb cap (bucket + (n + 1))
next_wrapped cap bucket n hb hn = ground arith

-- The loop goes on while it has not come back to its first bucket.
goes_on :
    (cap bucket n : ℕ)
    → bucket < cap
    → n < cap
    → (not (offset_of cap bucket n == bucket) || not (leb cap (bucket + n))) ≡ true
goes_on cap bucket n hb hn = ground arith

came_back :
    (cap bucket : ℕ)
    → bucket < cap
    → (not (offset_of cap bucket cap == bucket) || not (leb cap (bucket + cap))) ≡ false
came_back cap bucket hb = ground arith

module _ {ℓ} {V : Type ℓ} (vals : List (ℕ × V)) (cap key bucket : ℕ) where
  -- The first `n` buckets looked at are full, and have other keys.
  unfoldable pub Passed : ℕ → Type ℓ
  Passed n =
      (m : ℕ)
      → m < n
      → (b : ℕ × V) × (get_elem? vals (offset_of cap bucket m) ≡ some b)
        × (bucket_is_full b ≡ true)
        × (bucket_has_key b key ≡ false)

  pub data Outcome : Scanned → Type ℓ where
    has_key :
        (m : ℕ) (b : ℕ × V)
        → m < cap
        → Passed m
        → get_elem? vals (offset_of cap bucket m) ≡ some b
        → bucket_is_full b ≡ true
        → bucket_has_key b key ≡ true
        → Outcome (hit (offset_of cap bucket m))
    free :
        (m : ℕ) (b : ℕ × V)
        → m < cap
        → Passed m
        → get_elem? vals (offset_of cap bucket m) ≡ some b
        → bucket_is_full b ≡ false
        → Outcome (stop (offset_of cap bucket m))
    exhausted : Passed cap → Outcome (stop (offset_of cap bucket cap))

  Passed-next :
      (n : ℕ) (b : ℕ × V)
      → Passed n
      → get_elem? vals (offset_of cap bucket n) ≡ some b
      → bucket_is_full b ≡ true
      → bucket_has_key b key ≡ false
      → Passed (n + 1)
  unfolding Passed
  Passed-next n b passed e full other m h = elim (dec_lt m n) [
    | yes p ↦ passed m p
    | no p ↦ let same : m ≡ n = omega arith in (b, rw same e, full, other)
  ]

  bucket_at-get : (i : ℕ) (b : ℕ × V) → get_elem? vals i ≡ some b → bucket_at vals i ≡ ok b
  unfolding bucket_at
  bucket_at-get i b e = rw e

  -- Back at the first bucket, the loop stops.
  scan_back :
      (fuel : ℕ)
      → bucket < cap
      → length vals ≡ cap
      → scan vals cap key bucket (suc fuel) (offset_of cap bucket cap) (leb cap (bucket + cap))
        ≡ ok (stop (offset_of cap bucket cap))
  unfolding scan
  scan_back fuel hb hl =
      let place : offset_of cap bucket cap ≡ bucket =
        offset_of-high cap bucket cap (omega arith) ∙ omega arith in
      let (b, e) = get_elem?_in vals (offset_of cap bucket cap) (omega (arith, place)) in
      rw (bucket_at-get (offset_of cap bucket cap) b e, came_back cap bucket hb)
        (elim (Bool-cases (bucket_is_full b)) [ inl f ↦ rw f | inr f ↦ rw f ])

  -- With fuel for every bucket and one more, the loop ends.
  pub scan-Outcome :
      (fuel n : ℕ)
      → n + fuel ≡ cap + 1
      → n ≤ cap
      → bucket < cap
      → length vals ≡ cap
      → cap < 2 ^ 31
      → Passed n
      → (s : Scanned) × (scan vals cap key bucket fuel
            (offset_of cap bucket n)
            (leb cap (bucket + n))
          ≡ ok s)
        × Outcome s
  unfolding scan
  scan-Outcome zero n hf hn hb hl small passed = absurd (omega arith)
  scan-Outcome (suc fuel) n hf hn hb hl small passed = elim (dec_lt n cap) [
    | yes p ↦
        let i = offset_of cap bucket n in
        let (b, e) = get_elem?_in vals i (omega (arith, offset_of-lt cap bucket n hb p)) in
        let read = bucket_at-get i b e in
        elim (Bool-cases (bucket_is_full b)) [
          | inl full ↦ elim (Bool-cases (bucket_has_key b key)) [
            | inl same ↦ (
              hit i,
              rw (read, full, goes_on cap bucket n hb p, same),
              has_key n b p passed e full same,
            )
            | inr other ↦
                let (s, rest, outcome) =
                  scan-Outcome fuel (n + 1) (omega arith) (omega arith) hb hl small
                    (Passed-next n b passed e full other) in
                (
                  s,
                  rw
                      (
                        read,
                        full,
                        goes_on cap bucket n hb p,
                        other,
                        lt→ltb (i + 1) (2 ^ 31) (omega (arith, offset_of-lt cap bucket n hb p)),
                        next_probe cap bucket n hb p,
                        next_wrapped cap bucket n hb p,
                      )
                      rest,
                  outcome,
                )
          ]
          | inr empty ↦ (stop i, rw (read, empty), free n b p passed e empty)
        ]
    | no p ↦
        let last : n ≡ cap = omega arith in
        (
          stop (offset_of cap bucket cap),
          rw last (unfold scan in scan_back fuel hb hl),
          exhausted (rw last at passed),
        )
  ]

  -- The loop as `find_bucket` starts it.
  pub search-Outcome :
      bucket < cap
      → length vals ≡ cap
      → cap < 2 ^ 31
      → (s : Scanned) × (scan vals cap key bucket (cap + 1) bucket false ≡ ok s) × Outcome s
  unfolding Passed
  search-Outcome hb hl small =
      let first : offset_of cap bucket 0 ≡ bucket =
        offset_of-low cap bucket 0 (omega arith) ∙ omega arith in
      let fresh : leb cap (bucket + 0) ≡ false = ground arith in
      let (s, scanned, outcome) =
        scan-Outcome (cap + 1) 0 (omega arith) (omega arith) hb hl small
          (λ m p. absurd (omega arith)) in
      (s, ap₂ (scan vals cap key bucket (cap + 1)) (sym first) (sym fresh) ∙ scanned, outcome)
