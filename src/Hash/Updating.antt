-- ===== src/Hash/Updating.antt =====
-- utils/lightweight_hash.h: `insert_new` and `find_or_insert` on a table that models a map.
use jml_base.Common.{
  ℕ, suc, ◌+◌, ◌*◌, ◌/◌, ◌^◌, ◌≤◌, ◌<◌, max, ◌≡◌, ◌≢◌, ◌==◌, inl, inr, refl, ap, ◌∙◌, arith, Bool,
  true, false, not, Bool-cases, Option, none, some, get_elem?, get_elem?-set_self, leb,
}
use jml_base.Common.Result.{Result, ok, ◌>>=◌}
use jml_base.Hash.{
  Error, LightweightHash, capacity, find_bucket, is_full_at, is_empty_at, insert_new,
  find_or_insert, fill_bucket, reserve_with, inserted_or_found,
}
use jml_base.Hash.Finding.{Finds, at_key, at_free, at_end, find_bucket-Finds, count_full-le}
use jml_base.Hash.Filling.{update, Models, filled, get-lt}
use jml_base.Hash.Inserting.{
  IsFree, find_bucket-IsFree, key-Models, absent-Models, IsFree-Models, bucket_at-get,
}
use jml_base.Hash.Growing.{reserve_with-Models}

ok_eq {ℓ} : {A : Type ℓ} {a b : A} → ◌≡◌ {A = Result Error A} (ok a) (ok b) → a ≡ b
ok_eq {a = a} {b = b} e = cc

-- The buckets have indexes that are an `int`, also after the table has grown if it has to.
abbrev pub HasIntRoom {ℓ} : {V : Type ℓ} → LightweightHash V → Type 0
HasIntRoom h = (capacity h < 2 ^ 31) × (3 * capacity h / 4 ≤ h.size → capacity h ≤ 2 ^ 29)

module _ {ℓ} {V : Type ℓ} (hash : ℕ → ℕ) where
  -- A call on the table `h`, which models `f`, that returned with `k` mapped to `v` in one bucket more.
  pub record Inserts (h : LightweightHash V) (f : ℕ → Option V) (k : ℕ) (v : V)
      (r : Result Error (LightweightHash V × ℕ)) : Type ℓ where
    pub table : LightweightHash V
    pub bucket : ℕ
    pub returns : r ≡ ok (table, bucket)
    pub models : Models hash table (update f k v)
    pub placed : get_elem? table.vals bucket ≡ some (k, v)
    pub counted : table.size ≡ h.size + 1
    pub bounded : capacity table ≤ max (capacity h) (8 * (h.size + 1))

  -- The table `h'` has the contents of `h`, and an empty bucket for the key.
  free-Inserts :
      (h h' : LightweightHash V) (f : ℕ → Option V) (i k : ℕ) (v : V)
      (r : Result Error (LightweightHash V × ℕ))
      → h'.size ≡ h.size
      → capacity h' ≤ max (capacity h) (8 * (h.size + 1))
      → Models hash h' f
      → k ≢ 0
      → IsFree hash h' k i
      → r ≡ fill_bucket hash h' (some i) (k, v)
      → Inserts h f k v r
  free-Inserts h h' f i k v r size bound models nonzero free run =
      let (fills, after) = IsFree-Models hash h' f i k v models nonzero free in
      record {
        table = filled hash h' i (k, v);
        bucket = i;
        returns = run ∙ fills;
        models = after;
        placed = get_elem?-set_self h'.vals i (k, v) (get-lt h'.vals i (0, free.value) free.empty);
        counted = ap (λ n. n + 1) size;
        bounded = bound;
      }

  module _ (initial : V) (fuel : ℕ) where
    grown_run :
        (h h' : LightweightHash V) (k i : ℕ) (v w : V) (r : Option ℕ)
        → k ≢ 0
        → leb (3 * capacity h / 4) h.size ≡ true
        → reserve_with hash initial (insert_new hash initial (suc fuel)) h (max 4 (capacity h * 2))
          ≡ ok h'
        → find_bucket hash h' k ≡ ok (some i)
        → get_elem? h'.vals i ≡ some (0, w)
        → insert_new hash initial (suc (suc fuel)) h r (k, v) ≡ fill_bucket hash h' (some i) (k, v)
    unfolding insert_new is_empty_at
    grown_run h h' k i v w r nonzero expand reserved found e =
        let valid : (k == 0) ≡ false = ground arith in
        rw (valid, expand, reserved, found, bucket_at-get h'.vals i (0, w) e) refl

    -- A table with too little room grows, and the search is made again.
    grown-Inserts :
        (h : LightweightHash V) (f : ℕ → Option V) (k : ℕ) (v : V) (r : Option ℕ)
        → Models hash h f
        → k ≢ 0
        → f k ≡ none
        → capacity h ≤ 2 ^ 29
        → leb (3 * capacity h / 4) h.size ≡ true
        → Inserts h f k v (insert_new hash initial (suc (suc fuel)) h r (k, v))
    grown-Inserts h f k v r models nonzero new small expand =
        let full : 3 * capacity h / 4 ≤ h.size = ground arith in
        let few : h.size ≤ capacity h =
          omega (arith, models.table.counted, models.table.sized, count_full-le h.vals) in
        let (h', reserved, after, above, below, size) =
          reserve_with-Models hash initial fuel h f (max 4 (capacity h * 2)) models (omega arith)
            (omega arith) in
        let (i, found, free) =
          find_bucket-IsFree hash h' f k after nonzero new (omega (arith, size, above))
            (omega (arith, below)) in
        free-Inserts h h' f i k v _ size (omega (arith, below, full)) after nonzero free
          (grown_run h h' k i v free.value r nonzero expand reserved found free.empty)

    room_run :
        (h : LightweightHash V) (k i : ℕ) (v : V)
        → k ≢ 0
        → leb (3 * capacity h / 4) h.size ≡ false
        → insert_new hash initial (suc (suc fuel)) h (some i) (k, v)
          ≡ fill_bucket hash h (some i) (k, v)
    unfolding insert_new
    room_run h k i v nonzero room =
        let valid : (k == 0) ≡ false = ground arith in rw (valid, room) refl

    -- `insert_new` with what `find_bucket` returned for a key that the table does not have.
    pub insert_new-Inserts :
        (h : LightweightHash V) (f : ℕ → Option V) (k : ℕ) (v : V) (r : Option ℕ)
        → Models hash h f
        → k ≢ 0
        → f k ≡ none
        → HasIntRoom h
        → ok r ≡ find_bucket hash h k
        → Inserts h f k v (insert_new hash initial (suc (suc fuel)) h r (k, v))
    insert_new-Inserts h f k v r models nonzero new small e =
        elim (Bool-cases (leb (3 * capacity h / 4) h.size)) [
          | inl full ↦ grown-Inserts h f k v r models nonzero new (small.1 (ground arith)) full
          | inr room ↦
              let (i, found, free) =
                find_bucket-IsFree hash h f k models nonzero new (ground arith) (small.0) in
              let same : r ≡ some i = ok_eq (e ∙ found) in
              free-Inserts h h f i k v _ refl (omega arith) models nonzero free (
                ap (λ b. insert_new hash initial (suc (suc fuel)) h b (k, v)) same
                ∙ room_run h k i v nonzero room)
        ]

    -- How `find_or_insert` ends: at the bucket of the key, or with the key added.
    pub data FindsOrInserts (h : LightweightHash V) (f : ℕ → Option V) (k : ℕ) (v : V)
        : Result Error ((LightweightHash V × ℕ) × Bool) → Type ℓ where
      was_there :
          (i : ℕ) (w : V)
          → f k ≡ some w
          → get_elem? h.vals i ≡ some (k, w)
          → FindsOrInserts h f k v (ok ((h, i), false))
      was_added :
          (h' : LightweightHash V) (i : ℕ)
          → f k ≡ none
          → Models hash h' (update f k v)
          → get_elem? h'.vals i ≡ some (k, v)
          → h'.size ≡ h.size + 1
          → capacity h' ≤ max (capacity h) (8 * (h.size + 1))
          → FindsOrInserts h f k v (ok ((h', i), true))

    added :
        (h : LightweightHash V) (f : ℕ → Option V) (k : ℕ) (v : V)
        (r : Result Error (LightweightHash V × ℕ))
        → f k ≡ none
        → Inserts h f k v r
        → FindsOrInserts h f k v (r >>= λ t. ok (t, true))
    added h f k v r new done =
        rw (done.returns)
          (was_added done.table done.bucket new done.models done.placed done.counted done.bounded)

    searched-FindsOrInserts :
        (h : LightweightHash V) (f : ℕ → Option V) (k : ℕ) (v : V) (r : Result Error (Option ℕ))
        → Models hash h f
        → k ≢ 0
        → HasIntRoom h
        → r ≡ find_bucket hash h k
        → Finds hash h k r
        → FindsOrInserts h f k v (do
          bucket ← r
          full ← is_full_at hash h bucket
          inserted_or_found hash initial (suc (suc fuel)) h (k, v) bucket full)
    unfolding is_full_at inserted_or_found
    searched-FindsOrInserts h f k v _ models nonzero small e (at_key i w g) =
        let full : not (k == 0) ≡ true = ground arith in
        rw (bucket_at-get h.vals i (k, w) g, full)
          (was_there i w (key-Models hash h f k i w models nonzero g) g)
    searched-FindsOrInserts h f k v _ models nonzero small e (at_free i w g absent reach) =
        let new = absent-Models hash h f k models nonzero absent in
        rw (bucket_at-get h.vals i (0, w) g)
          (added h f k v _ new (insert_new-Inserts h f k v (some i) models nonzero new small e))
    searched-FindsOrInserts h f k v _ models nonzero small e (at_end full absent) =
        let new = absent-Models hash h f k models nonzero absent in
        added h f k v _ new (insert_new-Inserts h f k v none models nonzero new small e)

    -- On a well-formed table of fewer than 2 ^ 31 buckets, and of at most 2 ^ 29 where three quarters of
    -- them are full, and for a key that is not 0, `find_or_insert` returns and no `int` overflows: it
    -- returns the bucket of the key and the table as it was where the key is there; else a bucket that
    -- now has the key and the value, in a well-formed table that maps every other key as before and that has grown where
    -- three quarters of its buckets were full. Nested insertions never grow again.
    pub find_or_insert-FindsOrInserts :
        (h : LightweightHash V) (f : ℕ → Option V) (k : ℕ) (v : V)
        → Models hash h f
        → k ≢ 0
        → capacity h < 2 ^ 31
        → (3 * capacity h / 4 ≤ h.size → capacity h ≤ 2 ^ 29)
        → FindsOrInserts h f k v (find_or_insert hash initial (suc (suc fuel)) h (k, v))
    unfolding find_or_insert
    find_or_insert-FindsOrInserts h f k v models nonzero fits grown =
        searched-FindsOrInserts h f k v (find_bucket hash h k) models nonzero (fits, grown) refl
          (find_bucket-Finds hash h k models.table nonzero fits)
