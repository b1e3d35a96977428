-- ===== src/Hash/Inserting.antt =====
-- utils/lightweight_hash.h: `must_insert` of a new key into a table with room.
use jml_base.Common.{
  ◌^◌, ℕ, suc, ◌*◌, ◌/◌, ◌<◌, ◌≡◌, ◌≢◌, ◌==◌, refl, sym, ap, ◌∙◌, arith, false, List, Option, none,
  some, some-eq, get_elem?, leb,
}
use jml_base.Common.Result.{Result, ok}
use jml_base.Hash.{
  Error, LightweightHash, bucket_at, capacity, find_bucket, is_full_at, fill_bucket, must_insert,
  insert_new,
}
use jml_base.Hash.Finding.{IsAbsent, Reaches, Finds, at_key, at_free, at_end, find_bucket-Finds}
use jml_base.Hash.Filling.{
  Maps, mapped, unmapped, Distinct, update, Models, filled, fill_bucket-Models,
}

module _ {ℓ} {V : Type ℓ} where
  pub Maps-some :
      (vals : List (ℕ × V)) (k i : ℕ) (v : V) (o : Option V)
      → Distinct vals
      → k ≢ 0
      → get_elem? vals i ≡ some (k, v)
      → Maps vals k o
      → o ≡ some v
  Maps-some vals k i v _ d nonzero e (mapped j u g) =
      let same : j ≡ i = d j i k u v g e nonzero in
      ap (λ b. some b.1) (some-eq (sym g ∙ ap (get_elem? vals) same ∙ e))
  Maps-some vals k i v _ d nonzero e (unmapped never) = absurd (never i v e)

  Maps-none :
      (vals : List (ℕ × V)) (k : ℕ) (o : Option V)
      → ((j : ℕ) (v : V) → get_elem? vals j ≢ some (k, v))
      → Maps vals k o
      → o ≡ none
  Maps-none vals k _ absent (mapped j u g) = absurd (absent j u g)
  Maps-none vals k _ absent (unmapped never) = refl

  pub bucket_at-get :
      (vals : List (ℕ × V)) (i : ℕ) (b : ℕ × V)
      → get_elem? vals i ≡ some b
      → bucket_at vals i ≡ ok b
  unfolding bucket_at
  bucket_at-get vals i b e = rw e

  module _ (hash : ℕ → ℕ) where
    -- An empty bucket for `key`, where the search for it ends.
    pub record IsFree (h : LightweightHash V) (key i : ℕ) : Type ℓ where
      pub value : V
      pub empty : get_elem? h.vals i ≡ some (0, value)
      pub absent : IsAbsent hash h key
      pub reached : Reaches hash h key i

    Finds-IsFree :
        (h : LightweightHash V) (f : ℕ → Option V) (key : ℕ) (r : Result Error (Option ℕ))
        → Models hash h f
        → key ≢ 0
        → f key ≡ none
        → h.size < capacity h
        → Finds hash h key r
        → (i : ℕ) × (r ≡ ok (some i)) × IsFree h key i
    Finds-IsFree h f key _ models nonzero new room (at_key i v e) =
        let present =
          Maps-some h.vals key i v (f key) models.distinct nonzero e (models.reads key nonzero) in
        cc
    Finds-IsFree h f key _ models nonzero new room (at_free i v e absent reach) =
        (i, refl, record { value = v; empty = e; absent = absent; reached = reach })
    Finds-IsFree h f key _ models nonzero new room (at_end full absent) = absurd (omega arith)

    -- In a table with room, the search for a new key ends at an empty bucket.
    pub find_bucket-IsFree :
        (h : LightweightHash V) (f : ℕ → Option V) (key : ℕ)
        → Models hash h f
        → key ≢ 0
        → f key ≡ none
        → h.size < capacity h
        → capacity h < 2 ^ 31
        → (i : ℕ) × (find_bucket hash h key ≡ ok (some i)) × IsFree h key i
    find_bucket-IsFree h f key models nonzero new room small =
        Finds-IsFree h f key (find_bucket hash h key) models nonzero new room
          (find_bucket-Finds hash h key models.table nonzero small)

    -- A key that is found is mapped to the value in its bucket.
    pub key-Models :
        (h : LightweightHash V) (f : ℕ → Option V) (key i : ℕ) (v : V)
        → Models hash h f
        → key ≢ 0
        → get_elem? h.vals i ≡ some (key, v)
        → f key ≡ some v
    key-Models h f key i v models nonzero e =
        Maps-some h.vals key i v (f key) models.distinct nonzero e (models.reads key nonzero)

    pub absent-Models :
        (h : LightweightHash V) (f : ℕ → Option V) (key : ℕ)
        → Models hash h f
        → key ≢ 0
        → IsAbsent hash h key
        → f key ≡ none
    unfolding IsAbsent
    absent-Models h f key models nonzero absent =
        Maps-none h.vals key (f key) absent (models.reads key nonzero)

    pub IsFree-Models :
        (h : LightweightHash V) (f : ℕ → Option V) (i k : ℕ) (v : V)
        → Models hash h f
        → k ≢ 0
        → IsFree h k i
        → (fill_bucket hash h (some i) (k, v) ≡ ok (filled hash h i (k, v), i))
          × Models hash (filled hash h i (k, v)) (update f k v)
    IsFree-Models h f i k v models nonzero free =
        fill_bucket-Models hash h f i k v free.value models free.empty nonzero free.absent
          free.reached

    module _ (initial : V) (fuel : ℕ) where
      pub must_insert-Models :
          (h : LightweightHash V) (f : ℕ → Option V) (k : ℕ) (v : V)
          → Models hash h f
          → k ≢ 0
          → f k ≡ none
          → h.size < 3 * capacity h / 4
          → capacity h < 2 ^ 31
          → (i : ℕ) × (must_insert hash (insert_new hash initial (suc fuel)) h (k, v)
              ≡ ok (filled hash h i (k, v), i))
            × Models hash (filled hash h i (k, v)) (update f k v)
      unfolding must_insert insert_new is_full_at
      must_insert-Models h f k v models nonzero new room bound =
          let (i, found, free) = find_bucket-IsFree h f k models nonzero new (omega arith) bound in
          let (fills, after) = IsFree-Models h f i k v models nonzero free in
          let read = bucket_at-get h.vals i (0, free.value) free.empty in
          let valid : (k == 0) ≡ false = ground arith in
          let small : leb (3 * capacity h / 4) h.size ≡ false = ground arith in
          (i, rw (found, read, valid, small) fills, after)
