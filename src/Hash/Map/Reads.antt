-- ===== src/Hash/Map/Reads.antt =====
-- utils/lightweight_hash.h: `find` and the iterators that it returns.
use jml_base.Common.{
  ◌^◌, ℕ, ◌<◌, ◌≡◌, ◌≢◌, ◌==◌, refl, sym, ap, ◌∙◌, arith, true, false, leb, List, Option, none,
  some, some-eq, length, get_elem?, dec_lt,
}
use jml_base.Common.Int.{pos}
use jml_base.Common.Result.{Result, ok, ◌>>=◌}
use jml_base.Hash.{
  Error, LightweightHash, bucket_is_full, capacity, find_bucket, full_bucket, find_full_bucket,
}
use jml_base.Hash.Finding.{int_of-small, Finds, at_key, at_free, at_end, find_bucket-Finds}
use jml_base.Hash.Filling.{Models, get-lt}
use jml_base.Hash.Inserting.{bucket_at-get, key-Models, absent-Models}
use jml_base.Hash.Walk.{advance_to_valid-IsNext, dereference, IsEmptyAt}
use jml_base.Hash.Map.{iterator_from, iterator_at, end}

module _ {ℓ} {V : Type ℓ} where
  not-both :
      (vals : List (ℕ × V)) (i : ℕ) (b : ℕ × V)
      → get_elem? vals i ≡ some b
      → bucket_is_full b ≡ true
      → IsEmptyAt vals i
      → ⊥
  unfolding IsEmptyAt
  not-both vals i b e full (c, g, empty) =
      let same : b ≡ c = some-eq (sym e ∙ g) in
      let no : true ≡ false = sym full ∙ ap bucket_is_full same ∙ empty in absurd (ground arith)

  -- An iterator made at a full bucket stays there.
  pub iterator_at-full :
      (h : LightweightHash V) (i : ℕ) (b : ℕ × V)
      → length h.vals ≡ capacity h
      → capacity h < 2 ^ 31
      → get_elem? h.vals i ≡ some b
      → bucket_is_full b ≡ true
      → iterator_at h i ≡ ok i
  unfolding iterator_at iterator_from
  iterator_at-full h i b sized small e full =
      let inside : i < capacity h = omega (arith, get-lt h.vals i b e, sized) in
      let within : (i == capacity h) ≡ false = ground arith in
      let (j, run, next) = advance_to_valid-IsNext h i sized inside in
      let here : j ≡ i = elim (dec_lt i j) [
        | yes p ↦ absurd (not-both h.vals i b e full (next.empty i (omega arith) p))
        | no p ↦ omega (arith, next.onwards)
      ] in
      rw (int_of-small i (omega arith), within) (run ∙ ap ok here)

  pub end-capacity : (h : LightweightHash V) → capacity h < 2 ^ 31 → end h ≡ ok (capacity h)
  unfolding end iterator_at iterator_from
  end-capacity h small =
      let last : (capacity h == capacity h) ≡ true = ground arith in
      rw (int_of-small (capacity h) small, last) refl

  -- What is read at an iterator.
  pub dereference-full :
      (h : LightweightHash V) (i : ℕ) (b : ℕ × V)
      → length h.vals ≡ capacity h
      → get_elem? h.vals i ≡ some b
      → bucket_is_full b ≡ true
      → dereference h (pos i) ≡ ok b
  unfolding dereference
  dereference-full h i b sized e full =
      let inside : leb i (capacity h) ≡ true = ground (arith, get-lt h.vals i b e, sized) in
      rw (inside, bucket_at-get h.vals i b e, full) refl

  module _ (hash : ℕ → ℕ) where
    -- `find_full_bucket` returns the bucket of a key that is mapped, and -1 for another.
    pub data Locates (h : LightweightHash V) (key : ℕ)
        : Option V → Result Error (Option ℕ) → Type ℓ where
      located :
          (i : ℕ) (v : V)
          → get_elem? h.vals i ≡ some (key, v)
          → Locates h key (some v) (ok (some i))
      missing : Locates h key none (ok none)

    Finds-Locates :
        (h : LightweightHash V) (f : ℕ → Option V) (key : ℕ) (r : Result Error (Option ℕ))
        → Models hash h f
        → key ≢ 0
        → Finds hash h key r
        → Locates h key (f key) (r >>= λ i. full_bucket hash h key i)
    unfolding full_bucket
    Finds-Locates h f key _ models nonzero (at_key i v e) =
        let full : (key == 0) ≡ false = ground arith in
        let owner : (key == key) ≡ true = ground arith in
        rw
          (
            key-Models hash h f key i v models nonzero e,
            bucket_at-get h.vals i (key, v) e,
            full,
            owner,
          )
          (located i v e)
    Finds-Locates h f key _ models nonzero (at_free i v e absent reach) =
        rw (absent-Models hash h f key models nonzero absent, bucket_at-get h.vals i (0, v) e)
          missing
    Finds-Locates h f key _ models nonzero (at_end full absent) =
        rw (absent-Models hash h f key models nonzero absent) missing

    pub find_full_bucket-Locates :
        (h : LightweightHash V) (f : ℕ → Option V) (key : ℕ)
        → Models hash h f
        → key ≢ 0
        → capacity h < 2 ^ 31
        → Locates h key (f key) (find_full_bucket hash h key)
    unfolding find_full_bucket
    find_full_bucket-Locates h f key models nonzero small =
        Finds-Locates h f key (find_bucket hash h key) models nonzero
          (find_bucket-Finds hash h key models.table nonzero small)
