-- ===== src/Hash/Map/Range.antt =====
-- utils/lightweight_hash.h: the constructor that inserts a range of pairs.
use jml_base.Common.{
  ℕ, zero, suc, ◌+◌, ◌*◌, ◌^◌, ◌≤◌, ◌<◌, max, ◌≡◌, ◌≢◌, ◌==◌, refl, ap, arith, Bool, true, false,
  List, [], ◌∷◌, Option, none, length, if◌then◌else◌,
}
use jml_base.Common.Result.{Result, ok, ◌>>=◌}
use jml_base.Hash.{
  Error, LightweightHash, capacity, capacity_of, storage_bits, bits_for, find_or_insert,
}
use jml_base.Bitops.{highest_bit}
use jml_base.Hash.Sizes.{storage_bits-capacity}
use jml_base.Hash.Filling.{update, Models}
use jml_base.Hash.Growing.{blank, blank-Models}
use jml_base.Hash.Updating.{FindsOrInserts, was_there, was_added, find_or_insert-FindsOrInserts}
use jml_base.Hash.Map.{insert_range, from_range}
use jml_base.Hash.Map.Client.{is_none}

module _ {ℓ} {V : Type ℓ} where
  abbrev pub NoGuard : List (ℕ × V) → Type 0
  NoGuard [] = Unit
  NoGuard ((k, v) ∷ bs) = (k ≢ 0) × NoGuard bs

  -- The map `f` with the pairs added in turn, the first of those with one key.
  unfoldable pub added_all : List (ℕ × V) → (ℕ → Option V) → ℕ → Option V
  added_all [] f = f
  added_all ((k, v) ∷ bs) f = added_all bs (if is_none (f k) then update f k v else f)

  module _ (hash : ℕ → ℕ) (initial : V) where
    -- A run that returns a table that models `f`.
    abbrev pub Builds : Result Error (LightweightHash V) → (ℕ → Option V) → Type ℓ
    Builds r f = (h : LightweightHash V) × (r ≡ ok h) × Models hash h f

    one_more-Builds :
        (bs : List (ℕ × V)) (h : LightweightHash V) (f : ℕ → Option V) (k : ℕ) (v : V)
        (r : Result Error ((LightweightHash V × ℕ) × Bool))
        → Models hash h f
        → FindsOrInserts hash initial 0 h f k v r
        → ((h' : LightweightHash V) (g : ℕ → Option V)
            → Models hash h' g
            → h'.size ≤ h.size + 1
            → capacity h' ≤ max (capacity h) (8 * (h.size + 1))
            → Builds (insert_range hash initial 2 bs h') (added_all bs g))
        → Builds
            (r >>= λ t. insert_range hash initial 2 bs t.0.0)
            (added_all bs (if is_none (f k) then update f k v else f))
    one_more-Builds bs h f k v _ models (was_there i w e g) rest =
        let there : is_none (f k) ≡ false = ap is_none e in
        rw there (rest h f models (omega arith) (omega arith))
    one_more-Builds bs h f k v _ models (was_added h' i new m g size bound) rest =
        let fresh : is_none (f k) ≡ true = ap is_none new in
        rw fresh (rest h' (update f k v) m (omega arith) bound)

    insert_range-Builds :
        (bs : List (ℕ × V)) (h : LightweightHash V) (f : ℕ → Option V)
        → NoGuard bs
        → Models hash h f
        → h.size + length bs ≤ 2 ^ 27
        → capacity h ≤ 2 ^ 30
        → Builds (insert_range hash initial 2 bs h) (added_all bs f)
    unfolding insert_range added_all
    insert_range-Builds [] h f valid models few small = (h, refl, models)
    insert_range-Builds ((k, v) ∷ bs) h f (nonzero, valid) models few small =
        one_more-Builds bs h f k v (find_or_insert hash initial 2 h (k, v)) models
          (find_or_insert-FindsOrInserts hash initial 0 h f k v models nonzero (omega arith)
            (λ full. omega arith))
          (λ h' g models' size bound.
            insert_range-Builds bs h' g valid models' (omega arith) (omega arith))

    from_blank :
        (bs : List (ℕ × V)) (wanted : ℕ)
        → NoGuard bs
        → length bs ≤ 2 ^ 27
        → 0 < wanted
        → wanted ≤ 2 ^ 29
        → Builds
            (do
              bits ← storage_bits wanted
              (if capacity_of bits == 0
                  then ok (record { vals = []; bits = bits; size = 0 })
                  else insert_range hash initial 2 bs (blank initial bits)))
            (added_all bs (λ _. none))
    from_blank bs wanted valid few some_wanted small =
        let (bits, stored, above, below) = storage_bits-capacity wanted some_wanted (omega arith) in
        let test : (capacity_of bits == 0) ≡ false = ground arith in
        rw (stored, test)
          (insert_range-Builds bs (blank initial bits) (λ _. none) valid
            (blank-Models hash initial bits) (omega arith) (omega arith))

    empty_range : from_range hash initial 2 [] 0 ≡ ok (blank initial 0)
    unfolding from_range storage_bits capacity_of bits_for highest_bit
    empty_range = refl

    -- The constructor from a range of at most 2 ^ 27 pairs, whose keys are not 0, and with a capacity of at
    -- most 2 ^ 29, or none, returns a well-formed table that maps every key to its first value.
    pub from_range-Builds :
        (bs : List (ℕ × V)) (wanted : ℕ)
        → NoGuard bs
        → length bs ≤ 2 ^ 27
        → wanted ≤ 2 ^ 29
        → Builds (from_range hash initial 2 bs wanted) (added_all bs (λ _. none))
    unfolding from_range added_all
    from_range-Builds [] zero valid few small =
        (blank initial 0, empty_range, blank-Models hash initial 0)
    from_range-Builds (b ∷ bs) zero valid few small =
        from_blank (b ∷ bs) (length (b ∷ bs) * 2) valid few (omega arith) (omega arith)
    from_range-Builds bs (suc n) valid few small =
        let test : (suc n == 0) ≡ false = ground arith in
        rw test (from_blank bs (suc n) valid few (omega arith) small)
