-- ===== src/Hash/Walk.antt =====
-- utils/lightweight_hash.h: what the iterators use to go from one full bucket to the next.
use jml_base.Common.{
  ℕ, zero, suc, ◌+◌, ◌-◌, ◌≤◌, ◌<◌, ◌≡◌, refl, arith, true, false, Bool-cases, leb, not,
  if◌then◌else◌, List, some, length, get_elem?, get_elem?_in, get_elem?_out, ℕ_discrete, inl, inr,
}
use jml_base.Common.Int.{ℤ, pos, negsuc}
use jml_base.Common.Result.{Result, ok, err, ◌>>=◌, ◌>>◌, guard}
use jml_base.Hash.{
  Error, LightweightHash, bucket_is_full, bucket_at, capacity, invalid_index, none_found,
  bad_access,
}
use jml_base.Hash.Finding.{IsFullAt}

module _ {ℓ} {V : Type ℓ} where
  -- `while (index < cap && !bucketIsFull(storage_[index])) ++index;`, with `left` buckets from `index` to
  -- the capacity.
  pub scan_forward : List (ℕ × V) → ℕ → ℕ → Result Error ℕ
  scan_forward vals zero index = ok index
  scan_forward vals (suc left) index =
      let rest = scan_forward vals left (index + 1) in
      do b ← bucket_at vals index; (if bucket_is_full b then ok index else rest)

  unfoldable pub advance_to_valid : LightweightHash V → ℤ → Result Error ℕ
  advance_to_valid h (negsuc _) = err invalid_index
  advance_to_valid h (pos index) =
      guard (not (leb (capacity h) index)) invalid_index
      >> scan_forward h.vals (capacity h - index) index

  -- `while (index >= 0 && !bucketIsFull(storage_[index])) --index;`, from `index` = `left` - 1.
  pub scan_backward : List (ℕ × V) → ℕ → Result Error ℕ
  scan_backward vals zero = err none_found
  scan_backward vals (suc index) =
      let rest = scan_backward vals index in
      do b ← bucket_at vals index; (if bucket_is_full b then ok index else rest)

  pub backup_to_valid : LightweightHash V → ℤ → Result Error ℕ
  backup_to_valid h (negsuc _) = err invalid_index
  backup_to_valid h (pos index) =
      guard (not (leb (capacity h) index)) invalid_index >> scan_backward h.vals (index + 1)

  unfoldable pub dereference : LightweightHash V → ℤ → Result Error (ℕ × V)
  dereference h (negsuc _) = err invalid_index
  dereference h (pos index) = do
    guard (leb index (capacity h)) invalid_index
    b ← bucket_at h.vals index
    guard (bucket_is_full b) invalid_index
    ok b

  unfoldable pub IsEmptyAt : List (ℕ × V) → ℕ → Type ℓ
  IsEmptyAt vals i = (b : ℕ × V) × (get_elem? vals i ≡ some b) × (bucket_is_full b ≡ false)

  -- `j` is the first index of a full bucket from `i` on, or the end where there is none.
  pub record IsNext (vals : List (ℕ × V)) (i j : ℕ) : Type ℓ where
    pub onwards : i ≤ j
    pub inside : j ≤ length vals
    pub empty : (k : ℕ) → i ≤ k → k < j → IsEmptyAt vals k
    pub full : j < length vals → IsFullAt vals j

  scan_forward-IsNext :
      (vals : List (ℕ × V)) (left i : ℕ)
      → i + left ≡ length vals
      → (j : ℕ) × (scan_forward vals left i ≡ ok j) × IsNext vals i j
  unfolding scan_forward bucket_at IsEmptyAt IsFullAt
  scan_forward-IsNext vals zero i e = (
    i,
    refl,
    record {
      onwards = omega arith;
      inside = omega arith;
      empty = λ k p q. absurd (omega arith);
      full = λ p. absurd (omega arith);
    },
  )
  scan_forward-IsNext vals (suc left) i e =
      let (b, get) = get_elem?_in vals i (omega arith) in
      elim (Bool-cases (bucket_is_full b)) [
        | inl f ↦ (
          i,
          rw (get, f),
          record {
            onwards = omega arith;
            inside = omega arith;
            empty = λ k p q. absurd (omega arith);
            full = λ p. (b, get, f);
          },
        )
        | inr f ↦
            let (j, rest, next) = scan_forward-IsNext vals left (i + 1) (omega arith) in
            (
              j,
              rw (get, f) rest,
              record {
                onwards = omega (arith, next.onwards);
                inside = next.inside;
                empty = λ k p q. elim (ℕ_discrete k i) [
                  | yes s ↦ (b, rw (← s) at get, f)
                  | no s ↦ next.empty k (omega arith) q
                ];
                full = next.full;
              },
            )
      ]

  -- Where the storage has its capacity, `advance_to_valid` from an index inside returns the first full
  -- bucket from there on, or the capacity where there is none.
  pub advance_to_valid-IsNext :
      (h : LightweightHash V) (i : ℕ)
      → length h.vals ≡ capacity h
      → i < capacity h
      → (j : ℕ) × (advance_to_valid h (pos i) ≡ ok j) × IsNext h.vals i j
  unfolding advance_to_valid
  advance_to_valid-IsNext h i e p =
      let test : leb (capacity h) i ≡ false = ground arith in
      let (j, scanned, next) = scan_forward-IsNext h.vals (capacity h - i) i (omega arith) in
      (j, rw test scanned, next)

  -- Where the storage has its capacity, `dereference` of the end reads the bucket behind the storage.
  pub dereference_end :
      (h : LightweightHash V)
      → length h.vals ≡ capacity h
      → dereference h (pos (capacity h)) ≡ err bad_access
  unfolding dereference bucket_at
  dereference_end h e =
      let test : leb (capacity h) (capacity h) ≡ true = ground arith in
      rw (test, get_elem?_out h.vals (capacity h) (omega arith))
