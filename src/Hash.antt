-- ===== src/Hash.antt =====
-- utils/lightweight_hash.h: an open-addressing hash map of non-zero keys, in a storage whose capacity is
-- a power of two; `MemStorage` and the set are not modelled. A bucket's index is an `int`: the conversion
-- of a `size_t` to it, and its overflow, are written out. `size_` counts full buckets, so that it
-- stays an `int` where their indexes do.
pub mod Probing
pub mod Finding
pub mod Sizes
pub mod Walk
pub mod Filling
pub mod Inserting
pub mod Growing
pub mod Updating
pub mod Reserving
pub mod Map
mod Tests
use Prim.Native.Nat.{bit_and}
use jml_base.Common.{
  ℕ, zero, suc, ◌+◌, ◌-◌, ◌*◌, ◌/◌, ◌%◌, ◌^◌, max, ltb, leb, ◌==◌, ◌&&◌, ◌||◌, if◌then◌else◌, Bool,
  true, false, not, Option, none, some, List, [], ◌∷◌, length, get_elem?, set, replicate,
}
use jml_base.Common.Int.{ℤ, pos, negsuc}
use jml_base.Common.Result.{Result, ok, err, ◌>>=◌, ◌>>◌, guard}
use jml_base.Bitops.{highest_bit}

-- `bad_access` is a use of memory outside the storage, and `overflow` that of an `int`. `out_of_fuel` is no result of the code.
pub data Error : Type 0 where
  guard_value inconsistency wrong_key already_there appeared invalid_index none_found : Error
  past_end past_start assertion bad_access overflow out_of_fuel : Error

-- `LogMemStorage::capacity`, from the field `bits_`; on 0 the code also computes a shift by -1, and
-- multiplies it by 0. `bits_` is at most 64.
pub capacity_of : ℕ → ℕ
capacity_of zero = 0
capacity_of (suc bits) = 2 ^ bits

-- `highest_bit(newCapacity - 1, -1) + 2`, in a `uint8_t`.
pub bits_for : ℤ → ℕ
bits_for (pos h) = h + 2
bits_for (negsuc _) = 1

-- `LogMemStorage::reserve` on an empty storage: the field `bits_` that it leaves.
pub storage_bits : ℕ → Result Error ℕ
unfolding capacity_of bits_for
storage_bits new_capacity =
    let bits = bits_for (highest_bit 64 (new_capacity - 1) (negsuc 0)) in
    if new_capacity == 0
    then ok 0
    else (guard (leb new_capacity (capacity_of bits)) assertion >> ok bits)

pub record LightweightHash {ℓ} (V : Type ℓ) : Type ℓ where
  pub vals : List (ℕ × V)
  pub bits : ℕ
  pub size : ℕ

-- How the search for a key ends: at a bucket with the key, or at the first that the loop refuses.
pub data Scanned : Type 0 where
  hit stop : ℕ → Scanned

abbrev pub is_guard_value : ℕ → Bool
is_guard_value key = key == 0

-- `PairOps::hashKey` on a `LogMemStorage`.
abbrev pub hash_key : (ℕ → ℕ) → ℕ → ℕ → ℕ
hash_key hash bits key = bit_and (hash key) (2 ^ (bits - 1) - 1)

-- A `size_t` as an `int`, in 32 bits.
unfoldable pub int_of : ℕ → ℤ
int_of n = let low = n % 2 ^ 32 in if ltb low (2 ^ 31) then pos low else negsuc (2 ^ 32 - 1 - low)

-- The index from which the loop of `find_bucket` starts; none below 0 lies in the storage.
abbrev pub bucket_index : ℤ → Result Error ℕ
bucket_index (pos i) = ok i
bucket_index (negsuc _) = err bad_access

module _ {ℓ} {V : Type ℓ} where
  -- `PairOps`: a bucket is full where its key is not 0.
  abbrev pub bucket_is_full : ℕ × V → Bool
  bucket_is_full (k, v) = not (k == 0)

  abbrev pub bucket_has_key : ℕ × V → ℕ → Bool
  bucket_has_key (k, v) key = k == key

  abbrev found : Option (ℕ × V) → Result Error (ℕ × V)
  found none = err bad_access
  found (some b) = ok b

  -- `storage_[i]`.
  unfoldable pub bucket_at : List (ℕ × V) → ℕ → Result Error (ℕ × V)
  bucket_at vals i = found (get_elem? vals i)

  abbrev pub capacity : LightweightHash V → ℕ
  capacity h = capacity_of h.bits

  -- The loop of `find_bucket`.
  pub scan : List (ℕ × V) → ℕ → ℕ → ℕ → ℕ → ℕ → Bool → Result Error Scanned
  scan vals cap key bucket zero i wrapped = err out_of_fuel
  scan vals cap key bucket (suc fuel) i wrapped =
      let wrap : Bool = i + 1 == cap in
      let rest = scan vals cap key bucket fuel (if wrap then 0 else i + 1) (wrapped || wrap) in
      let next = (do guard (ltb (i + 1) (2 ^ 31)) overflow; rest) in
      do
        b ← bucket_at vals i
        (if bucket_is_full b && (not (i == bucket) || not wrapped)
            then (if bucket_has_key b key then ok (hit i) else next)
            else ok (stop i))

  -- What `find_bucket` makes of it; `none` is -1.
  pub find_end : LightweightHash V → Scanned → Result Error (Option ℕ)
  find_end h (hit i) = ok (some i)
  find_end h (stop i) = do
    b ← bucket_at h.vals i
    (if bucket_is_full b
        then (guard (h.size == capacity h) inconsistency >> ok none)
        else ok (some i))

  abbrev pub needs_expansion : LightweightHash V → Bool
  needs_expansion h = leb (3 * capacity h / 4) h.size

  -- With the hash function of the keys.
  module _ (hash : ℕ → ℕ) where
    pub find_bucket : LightweightHash V → ℕ → Result Error (Option ℕ)
    unfolding int_of
    find_bucket h key =
        let searched = (do
          bucket ← bucket_index (int_of (hash_key hash h.bits key))
          r ← scan h.vals (capacity h) key bucket (capacity h + 1) bucket false
          find_end h r) in
        guard (not (is_guard_value key)) guard_value
        >> (if capacity h == 0 then ok none else searched)

    full_bucket : LightweightHash V → ℕ → Option ℕ → Result Error (Option ℕ)
    full_bucket h key none = ok none
    full_bucket h key (some i) = do
      b ← bucket_at h.vals i
      (if bucket_is_full b
          then (guard (bucket_has_key b key) wrong_key >> ok (some i))
          else ok none)

    pub find_full_bucket : LightweightHash V → ℕ → Result Error (Option ℕ)
    find_full_bucket h key = do r ← find_bucket h key; full_bucket h key r

    pub count : LightweightHash V → ℕ → Result Error Bool
    count h key = do r ← find_full_bucket h key; ok (elim r [ none ↦ false | some i ↦ true ])

    is_empty_at : LightweightHash V → Option ℕ → Result Error Bool
    is_empty_at h none = ok false
    is_empty_at h (some i) = do b ← bucket_at h.vals i; ok (not (bucket_is_full b))

    is_full_at : LightweightHash V → Option ℕ → Result Error Bool
    is_full_at h none = ok false
    is_full_at h (some i) = do b ← bucket_at h.vals i; ok (bucket_is_full b)

    -- `Ops::fillBucket(storage_ + bucket, toInsert); ++size_;`.
    pub fill_bucket : LightweightHash V → Option ℕ → ℕ × V → Result Error (LightweightHash V × ℕ)
    fill_bucket h none b = err bad_access
    fill_bucket h (some i) b =
        guard (ltb i (length h.vals)) bad_access
        >> ok (record h { vals = set h.vals i b; size = h.size + 1 }, i)

    -- `must_insert`, and the constructor that inserts the full buckets of another table in turn. They
    -- take `insert_new`, which calls them when it grows.
    pub must_insert :
        (LightweightHash V → Option ℕ → ℕ × V → Result Error (LightweightHash V × ℕ))
        → LightweightHash V
        → ℕ × V
        → Result Error (LightweightHash V × ℕ)
    must_insert insert h b = do
      bucket ← find_bucket h b.0
      full ← is_full_at h bucket
      guard (not full) already_there
      insert h bucket b

    pub insert_full :
        (LightweightHash V → Option ℕ → ℕ × V → Result Error (LightweightHash V × ℕ))
        → List (ℕ × V)
        → LightweightHash V
        → Result Error (LightweightHash V)
    insert_full insert [] h = ok h
    insert_full insert (b ∷ bs) h =
        let inserted = (do r ← must_insert insert h b; insert_full insert bs r.0) in
        let skipped = insert_full insert bs h in if bucket_is_full b then inserted else skipped

    -- With the value of an empty bucket.
    module _ (initial : V) where
      pub reserve_with :
          (LightweightHash V → Option ℕ → ℕ × V → Result Error (LightweightHash V × ℕ))
          → LightweightHash V
          → ℕ
          → Result Error (LightweightHash V)
      reserve_with insert h wanted =
          let grown = (do
            bits ← storage_bits (max wanted (capacity h * 2))
            insert_full insert h.vals (record {
              vals = replicate (capacity_of bits) (0, initial);
              bits = bits;
              size = 0;
            })) in
          if leb wanted (capacity h) then ok h else grown

      -- The fuel bounds how often a growing table grows again while it is filled.
      pub insert_new :
          ℕ → LightweightHash V → Option ℕ → ℕ × V → Result Error (LightweightHash V × ℕ)
      insert_new zero h bucket b = err out_of_fuel
      insert_new (suc fuel) h bucket b =
          let expanded = (do
            h' ← reserve_with (insert_new fuel) h (max 4 (capacity h * 2))
            bucket' ← find_bucket h' b.0
            empty ← is_empty_at h' bucket'
            guard empty appeared
            fill_bucket h' bucket' b) in
          guard (not (is_guard_value b.0)) guard_value
          >> (if needs_expansion h then expanded else fill_bucket h bucket b)

      pub reserve : ℕ → LightweightHash V → ℕ → Result Error (LightweightHash V)
      reserve fuel h wanted = reserve_with (insert_new fuel) h wanted

      inserted_or_found :
          ℕ
          → LightweightHash V
          → ℕ × V
          → Option ℕ
          → Bool
          → Result Error ((LightweightHash V × ℕ) × Bool)
      inserted_or_found fuel h b (some i) true = ok ((h, i), false)
      inserted_or_found fuel h b bucket full = do r ← insert_new fuel h bucket b; ok (r, true)

      pub find_or_insert :
          ℕ → LightweightHash V → ℕ × V → Result Error ((LightweightHash V × ℕ) × Bool)
      find_or_insert fuel h b = do
        bucket ← find_bucket h b.0
        full ← is_full_at h bucket
        inserted_or_found fuel h b bucket full
