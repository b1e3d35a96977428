-- ===== src/Hash/Map.antt =====
-- utils/lightweight_hash.h: `clear` and the constructors of the base class, the iterator type, and
-- `Lightweight_Hash`. The object that an iterator points to is the table passed.
pub mod Clear
pub mod Reads
pub mod Storing
pub mod Client
pub mod Refines
mod Tests
pub mod Copy
pub mod Range
pub mod Traversal
use jml_base.Common.{
  ◌^◌, ltb, ℕ, zero, suc, ◌+◌, ◌-◌, ◌*◌, ◌==◌, if◌then◌else◌, Bool, true, false, not, Option, none,
  some, List, [], ◌∷◌, length, set, replicate,
}
use jml_base.Common.Int.{ℤ, pos, negsuc}
use jml_base.Common.Result.{Result, ok, err, ◌>>=◌, ◌>>◌, guard}
use jml_base.Hash.{
  Error, LightweightHash, bucket_is_full, bucket_at, capacity, capacity_of, storage_bits,
  find_full_bucket, find_or_insert, past_end, past_start, assertion, overflow, int_of,
}
use jml_base.Hash.Walk.{advance_to_valid, backup_to_valid, dereference}

module _ {ℓ} {V : Type ℓ} where
  -- A default constructed table.
  abbrev pub new : LightweightHash V
  new = record { vals = []; bits = 0; size = 0 }

  -- The loop of `clear`; `emptyBucket` leaves a default constructed bucket.
  unfoldable pub empty_buckets : V → List (ℕ × V) → List (ℕ × V)
  empty_buckets initial [] = []
  empty_buckets initial (b ∷ bs) =
      (if bucket_is_full b then (0, initial) else b) ∷ empty_buckets initial bs

  unfoldable pub clear : V → LightweightHash V → LightweightHash V
  clear initial h = record h { vals = empty_buckets initial h.vals; size = 0 }

  -- The copy constructor: the capacity is reserved, and every bucket copied.
  unfoldable pub copy_buckets : V → List (ℕ × V) → List (ℕ × V)
  copy_buckets initial [] = []
  copy_buckets initial (b ∷ bs) =
      (if bucket_is_full b then b else (0, initial)) ∷ copy_buckets initial bs

  unfoldable pub copy : V → LightweightHash V → Result Error (LightweightHash V)
  copy initial h = do
    bits ← storage_bits (capacity h)
    (if capacity_of bits == 0
        then ok (record { vals = []; bits = bits; size = h.size })
        else (guard (capacity_of bits == capacity h) assertion
            >> ok (record { vals = copy_buckets initial h.vals; bits = bits; size = h.size })))

  -- The iterator's constructor, on the `int` that it is given.
  unfoldable pub iterator_from : LightweightHash V → ℤ → Result Error ℕ
  iterator_from h (pos index) =
      if not (index == capacity h) then advance_to_valid h (pos index) else ok index
  iterator_from h (negsuc n) = advance_to_valid h (negsuc n)

  -- The iterator at an index that is converted to an `int`, and where `increment` goes on from there.
  unfoldable pub iterator_at : LightweightHash V → ℕ → Result Error ℕ
  unfolding iterator_from int_of
  iterator_at h index = iterator_from h (int_of index)

  pub increment : LightweightHash V → ℕ → Result Error ℕ
  unfolding iterator_at
  increment h index = do
    guard (not (index == capacity h)) past_end
    guard (ltb (index + 1) (2 ^ 31)) overflow
    iterator_at h (index + 1)

  pub decrement : LightweightHash V → ℕ → Result Error ℕ
  decrement h index = do
    guard (not (index == 0)) past_start
    (if not (index - 1 == 0) then backup_to_valid h (pos (index - 1)) else ok 0)

  pub end : LightweightHash V → Result Error ℕ
  unfolding iterator_at
  end h = iterator_at h (capacity h)

  pub begin : LightweightHash V → Result Error ℕ
  unfolding iterator_at end
  begin h = if h.size == 0 then end h else iterator_at h 0

  found_iterator : LightweightHash V → Option ℕ → Result Error ℕ
  unfolding end iterator_at
  found_iterator h none = end h
  found_iterator h (some i) = iterator_at h i

  value_at : ℕ → (LightweightHash V × ℕ) × Bool → Result Error ((LightweightHash V × ℕ) × V)
  value_at key (t, flag) = do b ← bucket_at t.0.vals t.1; guard (b.0 == key) assertion; ok (t, b.1)

  to_iterator : (LightweightHash V × ℕ) × Bool → Result Error ((LightweightHash V × ℕ) × Bool)
  unfolding iterator_at
  to_iterator (t, flag) = do i ← iterator_at t.0 t.1; ok ((t.0, i), flag)

  -- With the hash function of the keys, the default value, and the fuel of `find_or_insert`.
  module _ (hash : ℕ → ℕ) (initial : V) (fuel : ℕ) where
    pub find : LightweightHash V → ℕ → Result Error ℕ
    unfolding found_iterator
    find h key = find_full_bucket hash h key >>= found_iterator h

    -- `operator []`: the table, the bucket of the key, and its value.
    pub at_key : LightweightHash V → ℕ → Result Error ((LightweightHash V × ℕ) × V)
    unfolding value_at
    at_key h key = find_or_insert hash initial fuel h (key, initial) >>= value_at key

    pub insert : LightweightHash V → ℕ × V → Result Error ((LightweightHash V × ℕ) × Bool)
    unfolding to_iterator
    insert h val = find_or_insert hash initial fuel h val >>= to_iterator

    -- The constructor from a range.
    pub insert_range : List (ℕ × V) → LightweightHash V → Result Error (LightweightHash V)
    insert_range [] h = ok h
    insert_range (b ∷ bs) h = do r ← find_or_insert hash initial fuel h b; insert_range bs r.0.0

    pub from_range : List (ℕ × V) → ℕ → Result Error (LightweightHash V)
    unfolding insert_range
    from_range bs wanted = do
      bits ← storage_bits (if wanted == 0 then length bs * 2 else wanted)
      (if capacity_of bits == 0
          then ok (record { vals = []; bits = bits; size = 0 })
          else insert_range bs
              (record { vals = replicate (capacity_of bits) (0, initial); bits = bits; size = 0 }))
