-- ===== src/Hash/Finding.antt =====
-- utils/lightweight_hash.h: `find_bucket` on a well-formed table.
use native.Mathlib.Nat.{mod-lt, mod-eq_of_lt}
use jml_base.Common.{
  ℕ, zero, suc, ◌+◌, ◌-◌, ◌≤◌, ◌<◌, ◌%◌, ◌^◌, lt→ltb, ◌≡◌, ◌≢◌, ◌==◌, inl, inr, refl, sym, ap, ◌∙◌,
  arith, Bool, true, false, Bool-cases, List, [], ◌∷◌, Option, none, some, some-eq, length,
  get_elem?, get_elem?_out, dec_lt, ℕ_discrete,
}
use jml_base.Common.Int.{pos}
use jml_base.Common.Result.{Result, ok}
use jml_base.Common.Bits.{bit_and_ones, pow_pos}
use jml_base.Circular.{offset_of}
use jml_base.Circular.Cells.{offset_of-low, offset_of-high}
use jml_base.Hash.{
  Scanned, Error, LightweightHash, bucket_is_full, bucket_has_key, bucket_at, hash_key, capacity,
  capacity_of, int_of, find_bucket, find_end,
}
use jml_base.Hash.Probing.{Passed, Outcome, has_key, free, exhausted, search-Outcome}

abbrev one_if : Bool → ℕ
one_if true = 1
one_if false = 0

hash_key-lt :
    (hash : ℕ → ℕ) (bits key : ℕ) → 0 < capacity_of bits → hash_key hash bits key < capacity_of bits
unfolding capacity_of
hash_key-lt hash zero key h = absurd (omega arith)
hash_key-lt hash (suc bits) key h =
    let width : suc bits - 1 ≡ bits = omega arith in
    rw (width, bit_and_ones bits (hash key)) (mod-lt (hash key) (pow_pos bits))

-- Below 2 ^ 31 the conversion to `int` changes nothing.
pub int_of-small : (n : ℕ) → n < 2 ^ 31 → int_of n ≡ pos n
unfolding int_of
int_of-small n h =
    let low : n % 2 ^ 32 ≡ n = mod-eq_of_lt (omega arith) in rw (low, lt→ltb n (2 ^ 31) h) refl

-- Every bucket is met on the way round.
met :
    (cap bucket i : ℕ) → bucket < cap → i < cap → (m : ℕ) × (m < cap) × (offset_of cap bucket m ≡ i)
met cap bucket i hb hi = elim (dec_lt i bucket) [
  | yes p ↦ (
    i + cap - bucket,
    omega arith,
    offset_of-high cap bucket (i + cap - bucket) (omega arith) ∙ omega arith,
  )
  | no p ↦
      (i - bucket, omega arith, offset_of-low cap bucket (i - bucket) (omega arith) ∙ omega arith)
]

module _ {ℓ} {V : Type ℓ} where
  nothing : {b : ℕ × V} → none ≡ some b → ⊥
  nothing e = cc

  -- The number of full buckets.
  unfoldable pub count_full : List (ℕ × V) → ℕ
  count_full [] = 0
  count_full (b ∷ bs) = one_if (bucket_is_full b) + count_full bs

  pub count_full-le : (bs : List (ℕ × V)) → count_full bs ≤ length bs
  unfolding count_full
  count_full-le [] = omega arith
  count_full-le (b ∷ bs) = elim (Bool-cases (bucket_is_full b)) [
    | inl f ↦ rw f (omega (arith, count_full-le bs))
    | inr f ↦ rw f (omega (arith, count_full-le bs))
  ]

  unfoldable pub IsFullAt : List (ℕ × V) → ℕ → Type ℓ
  IsFullAt vals i = (b : ℕ × V) × (get_elem? vals i ≡ some b) × (bucket_is_full b ≡ true)

  count_full-all :
      (bs : List (ℕ × V)) → ((i : ℕ) → i < length bs → IsFullAt bs i) → count_full bs ≡ length bs
  unfolding count_full IsFullAt
  count_full-all [] all = refl
  count_full-all (b ∷ bs) all =
      let (b', e, full) = all 0 (omega arith) in
      let here : bucket_is_full b ≡ true = ap bucket_is_full (some-eq e) ∙ full in
      rw here (omega (arith, count_full-all bs (λ i h. all (suc i) (omega arith))))

  module _ (hash : ℕ → ℕ) where
    -- The search for `key` comes to the bucket `j`: those that it meets before are full.
    abbrev pub Reaches : LightweightHash V → ℕ → ℕ → Type ℓ
    Reaches h key j =
        (m : ℕ) × (m < capacity h)
        × (j ≡ offset_of (capacity h) (hash_key hash h.bits key) m)
        × ((n : ℕ) → n < m → IsFullAt h.vals (offset_of (capacity h) (hash_key hash h.bits key) n))

    -- Every full bucket stands where the search for its key comes before it meets an empty one.
    pub record IsTable (h : LightweightHash V) : Type ℓ where
      pub sized : length h.vals ≡ capacity h
      pub counted : h.size ≡ count_full h.vals
      pub reached : (j k : ℕ) (v : V) → get_elem? h.vals j ≡ some (k, v) → k ≢ 0 → Reaches h k j

    -- No bucket has the key.
    unfoldable pub IsAbsent : LightweightHash V → ℕ → Type ℓ
    IsAbsent h key = (j : ℕ) (v : V) → get_elem? h.vals j ≢ some (key, v)

    -- The bucket of the key, or else an empty bucket, or else -1 in a table that is full.
    pub data Finds (h : LightweightHash V) (key : ℕ) : Result Error (Option ℕ) → Type ℓ where
      at_key : (i : ℕ) (v : V) → get_elem? h.vals i ≡ some (key, v) → Finds h key (ok (some i))
      at_free :
          (i : ℕ) (v : V)
          → get_elem? h.vals i ≡ some (0, v)
          → IsAbsent h key
          → Reaches h key i
          → Finds h key (ok (some i))
      at_end : h.size ≡ capacity h → IsAbsent h key → Finds h key (ok none)

    absent-Passed :
        (h : LightweightHash V) (key : ℕ) (n j : ℕ) (v : V)
        → Passed h.vals (capacity h) key (hash_key hash h.bits key) n
        → get_elem? h.vals j ≡ some (key, v)
        → (m : ℕ) → m < n
        → j ≢ offset_of (capacity h) (hash_key hash h.bits key) m
    unfolding Passed
    absent-Passed h key n j v passed e m p q =
        let (b, get, _, other) = passed m p in
        let same : (key, v) ≡ b = some-eq (sym e ∙ ap (get_elem? h.vals) q ∙ get) in
        let no : (key == key) ≡ false = ap (λ c. bucket_has_key c key) same ∙ other in
        absurd (ground arith)

    -- The search met an empty bucket.
    IsAbsent-free :
        (h : LightweightHash V) (key m : ℕ) (b : ℕ × V)
        → IsTable h
        → key ≢ 0
        → Passed h.vals (capacity h) key (hash_key hash h.bits key) m
        → get_elem? h.vals (offset_of (capacity h) (hash_key hash h.bits key) m) ≡ some b
        → bucket_is_full b ≡ false
        → IsAbsent h key
    unfolding IsAbsent IsFullAt
    IsAbsent-free h key m b t nonzero passed get empty j v e =
        let (m', _, place, before) = t.reached j key v e nonzero in
        let contra : (b' : ℕ × V)
            → get_elem? h.vals (offset_of (capacity h) (hash_key hash h.bits key) m) ≡ some b'
            → bucket_is_full b' ≡ true
            → ⊥ =
          λ b' get' full.
            let same : b ≡ b' = some-eq (sym get ∙ get') in
            let no : true ≡ false = sym full ∙ ap bucket_is_full (sym same) ∙ empty in
            absurd (ground arith) in
        elim (dec_lt m' m) [
          | yes p ↦ absent-Passed h key m j v passed e m' p place
          | no p ↦ elim (dec_lt m m') [
            | yes q ↦ let (b', get', full) = before m q in contra b' get' full
            | no q ↦
                let same : m' ≡ m = omega arith in
                contra (key, v) (rw (← same) (rw (← place) e)) (ground arith)
          ]
        ]

    IsAbsent-exhausted :
        (h : LightweightHash V) (key : ℕ)
        → IsTable h
        → key ≢ 0
        → Passed h.vals (capacity h) key (hash_key hash h.bits key) (capacity h)
        → IsAbsent h key
    unfolding IsAbsent
    IsAbsent-exhausted h key t nonzero passed j v e =
        let (m, p, place, _) = t.reached j key v e nonzero in
        absent-Passed h key (capacity h) j v passed e m p place

    full_table :
        (h : LightweightHash V) (key : ℕ)
        → IsTable h
        → hash_key hash h.bits key < capacity h
        → Passed h.vals (capacity h) key (hash_key hash h.bits key) (capacity h)
        → h.size ≡ capacity h
    unfolding Passed IsFullAt
    full_table h key t hb passed =
        t.counted
        ∙ count_full-all h.vals (λ i hi.
          let (m, p, q) =
            met (capacity h) (hash_key hash h.bits key) i hb (omega (arith, t.sized)) in
          let (b, get, full, _) = passed m p in (b, ap (get_elem? h.vals) (sym q) ∙ get, full))
        ∙ t.sized

    first-Passed :
        (h : LightweightHash V) (key : ℕ)
        → Passed h.vals (capacity h) key (hash_key hash h.bits key) (capacity h)
        → 0 < capacity h
        → (b : ℕ × V) × (get_elem? h.vals (offset_of (capacity h) (hash_key hash h.bits key) 0)
            ≡ some b)
          × (bucket_is_full b ≡ true)
          × (bucket_has_key b key ≡ false)
    unfolding Passed
    first-Passed h key passed p = passed 0 p

    Passed-full :
        (h : LightweightHash V) (key m : ℕ)
        → Passed h.vals (capacity h) key (hash_key hash h.bits key) m
        → (n : ℕ) → n < m
        → IsFullAt h.vals (offset_of (capacity h) (hash_key hash h.bits key) n)
    unfolding Passed IsFullAt
    Passed-full h key m passed n p = let (b, get, full, _) = passed n p in (b, get, full)

    -- `find_bucket` makes of the end of the loop what the table holds.
    Outcome-Finds :
        (h : LightweightHash V) (key : ℕ) (s : Scanned)
        → IsTable h
        → key ≢ 0
        → hash_key hash h.bits key < capacity h
        → Outcome h.vals (capacity h) key (hash_key hash h.bits key) s
        → Finds h key (find_end h s)
    unfolding find_end bucket_at
    Outcome-Finds h key _ t nonzero hb (has_key m b p passed get full same) =
        let owner : b.0 ≡ key = ground arith in
        at_key (offset_of (capacity h) (hash_key hash h.bits key) m) b.1 (get ∙ rw (← owner) refl)
    Outcome-Finds h key _ t nonzero hb (free m b p passed get empty) =
        let blank : b.0 ≡ 0 = ground arith in
        rw (get, empty)
          (at_free (offset_of (capacity h) (hash_key hash h.bits key) m) b.1
            (get ∙ rw (← blank) refl) (IsAbsent-free h key m b t nonzero passed get empty)
            (m, p, refl, Passed-full h key m passed))
    Outcome-Finds h key _ t nonzero hb (exhausted passed) =
        let cap = capacity h in
        let bucket = hash_key hash h.bits key in
        let whole : h.size ≡ cap = full_table h key t hb passed in
        let test : (h.size == cap) ≡ true = ground arith in
        let (b, get, full, _) = first-Passed h key passed (omega arith) in
        let back : offset_of cap bucket cap ≡ offset_of cap bucket 0 =
          offset_of-high cap bucket cap (omega arith)
          ∙ omega arith
          ∙ sym (offset_of-low cap bucket 0 (omega arith)) in
        rw (back, get, full, test) (at_end whole (IsAbsent-exhausted h key t nonzero passed))

    -- In a well-formed table of fewer than 2 ^ 31 buckets, and for a key that is not 0, `find_bucket` ends
    -- without an exception and no `int` overflows: it ends at the bucket of the key if there is one,
    -- or else at an empty bucket, or else with -1 where every bucket is full.
    pub find_bucket-Finds :
        (h : LightweightHash V) (key : ℕ)
        → IsTable h
        → key ≢ 0
        → capacity h < 2 ^ 31
        → Finds h key (find_bucket hash h key)
    unfolding find_bucket IsAbsent
    find_bucket-Finds h key t nonzero small =
        let keyed : (key == 0) ≡ false = ground arith in
        let bucket = hash_key hash h.bits key in
        elim (ℕ_discrete (capacity h) 0) [
          | yes z ↦
              let test : (capacity h == 0) ≡ true = ground arith in
              rw (keyed, test)
                (at_end (omega (arith, t.counted, t.sized, count_full-le h.vals)) (λ j v e.
                  let none_at = get_elem?_out h.vals j (omega (arith, t.sized)) in
                  absurd (nothing (sym none_at ∙ e))))
          | no z ↦
              let test : (capacity h == 0) ≡ false = ground arith in
              let hb = hash_key-lt hash h.bits key (omega arith) in
              let (s, scanned, outcome) =
                search-Outcome h.vals (capacity h) key bucket hb t.sized small in
              rw (keyed, test, int_of-small bucket (omega (arith, hb, small)), scanned)
                (Outcome-Finds h key s t nonzero hb outcome)
        ]
