-- ===== src/Hash/Tests.antt =====
-- Examples for the hash map: two keys with the same hash in four buckets.
use jml_base.Common.{
  ℕ, zero, suc, ◌*◌, ◌≤◌, ◌<◌, ◌≡◌, ◌≢◌, ap, sym, refl, arith, true, [], ◌∷◌, some, some-eq,
  get_elem?,
}
use jml_base.Common.Result.{ok, err}
use jml_base.Bitops.{highest_bit, bsr}
use jml_base.Circular.{offset_of}
use jml_base.Hash.{
  LightweightHash, hash_key, capacity, capacity_of, storage_bits, int_of, find_bucket, insert_new,
  find_or_insert, inserted_or_found, reserve_with, insert_full, must_insert, is_full_at,
  is_empty_at, find_end, scan, bucket_at, bits_for, fill_bucket,
}
use jml_base.Hash.Finding.{IsTable, IsFullAt, count_full, Finds, find_bucket-Finds}
use jml_base.Hash.Sizes.{storage_bits-capacity}
use jml_base.Common.Int.{pos}
use jml_base.Hash.{bad_access}
use jml_base.Hash.Walk.{dereference, dereference_end}

abbrev same : ℕ → ℕ
same k = k

abbrev crowded : LightweightHash ℕ
crowded = record { vals = (0, 0) ∷ (5, 10) ∷ (1, 11) ∷ (0, 0) ∷ []; bits = 3; size = 2 }

crowded-full : IsFullAt {V = ℕ} crowded.vals 1
unfolding IsFullAt
crowded-full = ((5, 10), refl, refl)

crowded-reached :
    (j k v : ℕ)
    → get_elem? crowded.vals j ≡ some (k, v)
    → k ≢ 0
    → (m : ℕ) × (m < capacity crowded)
      × (j ≡ offset_of (capacity crowded) (hash_key same 3 k) m)
      × ((n : ℕ)
          → n < m
          → IsFullAt crowded.vals (offset_of (capacity crowded) (hash_key same 3 k) n))
unfolding capacity_of
crowded-reached zero k v e nonzero = absurd (nonzero (sym (ap (λ b. b.0) (some-eq e))))
crowded-reached (suc zero) k v e nonzero =
    let key : 5 ≡ k = ap (λ b. b.0) (some-eq e) in
    rw (← key) ((0, omega arith, refl, λ n h. absurd (omega arith)))
crowded-reached (suc (suc zero)) k v e nonzero =
    let key : 1 ≡ k = ap (λ b. b.0) (some-eq e) in
    let first : (n : ℕ) → n < 1 → n ≡ 0 = λ n h. omega arith in
    rw (← key) ((1, omega arith, refl, λ n h. rw (first n h) crowded-full))
crowded-reached (suc (suc (suc zero))) k v e nonzero =
    absurd (nonzero (sym (ap (λ b. b.0) (some-eq e))))
crowded-reached (suc (suc (suc (suc j)))) k v e nonzero = cc

crowded-IsTable : IsTable same crowded
unfolding count_full capacity_of
crowded-IsTable = record { sized = refl; counted = refl; reached = crowded-reached }

find_bucket-Finds_example : Finds same crowded 1 (find_bucket same crowded 1)
unfolding capacity_of
find_bucket-Finds_example =
    find_bucket-Finds same crowded 1 crowded-IsTable (omega arith) (omega arith)

storage_bits-capacity_example :
    (bits : ℕ) × (storage_bits 5 ≡ ok bits) × (5 ≤ capacity_of bits) × (capacity_of bits < 2 * 5)
storage_bits-capacity_example = storage_bits-capacity 5 (omega arith) (omega arith)

abbrev three : LightweightHash ℕ
three = record { vals = (0, 0) ∷ (5, 10) ∷ (1, 11) ∷ (7, 12) ∷ []; bits = 3; size = 3 }

third : insert_new same 0 2 crowded (some 3) (7, 12) ≡ ok (three, 3)
unfolding insert_new fill_bucket capacity_of
third = refl

-- The fourth key makes the table of four buckets grow to eight, where keys stand in other buckets.
fourth :
    find_or_insert same 0 2 three (2, 9)
    ≡ ok (
      (
        record {
          vals = (0, 0) ∷ (1, 11) ∷ (2, 9) ∷ (0, 0) ∷ (0, 0) ∷ (5, 10) ∷ (0, 0) ∷ (7, 12) ∷ [];
          bits = 4;
          size = 4;
        },
        2,
      ),
      true,
    )
unfolding find_or_insert inserted_or_found insert_new reserve_with insert_full must_insert
    is_full_at is_empty_at find_bucket int_of find_end scan bucket_at fill_bucket storage_bits
    bits_for highest_bit bsr capacity_of
fourth = refl

dereference_end_example : dereference crowded (pos (capacity crowded)) ≡ err bad_access
dereference_end_example = dereference_end crowded crowded-IsTable.sized
