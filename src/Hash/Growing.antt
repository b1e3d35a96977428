-- ===== src/Hash/Growing.antt =====
-- utils/lightweight_hash.h: `reserve`, which inserts the full buckets in a table of a larger capacity.
use jml_base.Common.{
  ℕ, zero, suc, ◌+◌, ◌*◌, ◌/◌, ◌^◌, ◌≤◌, ◌<◌, max, ◌≡◌, ◌≢◌, ◌==◌, inl, inr, refl, sym, ap, ◌∙◌,
  arith, true, false, Bool-cases, List, [], ◌∷◌, Option, none, some, some-eq, get_elem?, leb,
  if◌then◌else◌, replicate, length-replicate, get_elem?-replicate,
}
use jml_base.Common.Result.{ok}
use jml_base.Hash.{LightweightHash, capacity, capacity_of, insert_full, insert_new, reserve_with}
use jml_base.Hash.Finding.{count_full, count_full-le}
use jml_base.Hash.Sizes.{storage_bits-capacity}
use jml_base.Hash.Filling.{Maps, mapped, unmapped, Distinct, update, Models, get-lt}
use jml_base.Hash.Inserting.{must_insert-Models}

module _ {ℓ} {V : Type ℓ} where
  -- The map `f` with the full buckets `bs` added.
  merged : List (ℕ × V) → (ℕ → Option V) → ℕ → Option V
  merged [] f = f
  merged ((k, v) ∷ bs) f = merged bs (if k == 0 then f else update f k v)

  Distinct-tail : (b : ℕ × V) (bs : List (ℕ × V)) → Distinct (b ∷ bs) → Distinct bs
  Distinct-tail b bs d i j k v w e g nonzero =
      let same = d (suc i) (suc j) k v w e g nonzero in omega arith

  -- The other buckets do not have the first one's key.
  Distinct-head :
      (k : ℕ) (v : V) (bs : List (ℕ × V))
      → Distinct ((k, v) ∷ bs)
      → k ≢ 0
      → (j : ℕ) (w : V) → get_elem? bs j ≢ some (k, w)
  Distinct-head k v bs d nonzero j w e =
      let same = d 0 (suc j) k v w refl e nonzero in absurd (omega arith)

  merged_out :
      (bs : List (ℕ × V)) (f : ℕ → Option V) (k : ℕ)
      → ((j : ℕ) (v : V) → get_elem? bs j ≢ some (k, v))
      → merged bs f k ≡ f k
  unfolding merged
  merged_out [] f k absent = refl
  merged_out ((k', v') ∷ bs) f k absent =
      let apart : (k == k') ≡ false = elim (Bool-cases (k == k')) [
        | inl same ↦ let key : k' ≡ k = ground arith in absurd (absent 0 v' (rw key refl))
        | inr other ↦ other
      ] in
      elim (Bool-cases (k' == 0)) [
        | inl e ↦ rw e (merged_out bs f k (λ j. absent (suc j)))
        | inr e ↦ rw e (merged_out bs (update f k' v') k (λ j. absent (suc j)) ∙ rw apart refl)
      ]

  merged_in :
      (bs : List (ℕ × V)) (f : ℕ → Option V) (j k : ℕ) (v : V)
      → Distinct bs
      → k ≢ 0
      → get_elem? bs j ≡ some (k, v)
      → merged bs f k ≡ some v
  unfolding merged
  merged_in [] f j k v d nonzero e = cc
  merged_in ((k', v') ∷ bs) f zero k v d nonzero e =
      let same : (k', v') ≡ (k, v) = some-eq e in
      let key : k' ≡ k = ap (λ b. b.0) same in
      let value : v' ≡ v = ap (λ b. b.1) same in
      let full : (k' == 0) ≡ false = ground arith in
      let here : (k == k') ≡ true = ground arith in
      rw full (
        merged_out bs (update f k' v') k (Distinct-head k v bs (rw (key, value) at d) nonzero)
        ∙ rw here (ap some value))
  merged_in ((k', v') ∷ bs) f (suc j) k v d nonzero e =
      merged_in bs (if k' == 0 then f else update f k' v') j k v (Distinct-tail (k', v') bs d)
        nonzero e

  merged-Maps :
      (bs : List (ℕ × V)) (k : ℕ) (o : Option V)
      → Distinct bs
      → k ≢ 0
      → Maps bs k o
      → merged bs (λ _. none) k ≡ o
  merged-Maps bs k _ d nonzero (mapped j v e) = merged_in bs (λ _. none) j k v d nonzero e
  merged-Maps bs k _ d nonzero (unmapped never) = merged_out bs (λ _. none) k never

  count_full-replicate : (n : ℕ) (v : V) → count_full (replicate n (0, v)) ≡ 0
  unfolding count_full
  count_full-replicate zero v = refl
  count_full-replicate (suc n) v = omega (arith, count_full-replicate n v)

  pub replicate-empty :
      (n j k : ℕ) (v w : V) → get_elem? {A = ℕ × V} (replicate n (0, v)) j ≡ some (k, w) → k ≡ 0
  replicate-empty n j k v w e =
      let b : ℕ × V = (0, v) in
      let inside = get-lt (replicate n b) j (k, w) e in
      let below : j < n = omega (arith, length-replicate n b) in
      sym (ap (λ c. c.0) (some-eq (sym (get_elem?-replicate n j b below) ∙ e)))

  -- A table of empty buckets.
  abbrev pub blank : V → ℕ → LightweightHash V
  blank initial bits = record {
    vals = replicate (capacity_of bits) (0, initial);
    bits = bits;
    size = 0;
  }

  module _ (hash : ℕ → ℕ) where
    pub blank-Models : (initial : V) (bits : ℕ) → Models hash (blank initial bits) (λ _. none)
    blank-Models initial bits =
        let n = capacity_of bits in
        record {
          table = record {
            sized = length-replicate {A = ℕ × V} n (0, initial);
            counted = sym (count_full-replicate n initial);
            reached = λ j k v e nonzero. absurd (nonzero (replicate-empty n j k initial v e));
          };
          distinct = λ i j k v w e g nonzero. absurd (nonzero (replicate-empty n i k initial v e));
          reads = λ k nonzero. unmapped (λ j v e. nonzero (replicate-empty n j k initial v e));
        }

    module _ (initial : V) (fuel : ℕ) where
      insert_full-Models :
          (bs : List (ℕ × V)) (h : LightweightHash V) (f : ℕ → Option V)
          → Models hash h f
          → Distinct bs
          → ((j k : ℕ) (v : V) → get_elem? bs j ≡ some (k, v) → k ≢ 0 → f k ≡ none)
          → h.size + count_full bs ≤ 3 * capacity h / 4
          → capacity h < 2 ^ 31
          → (h' : LightweightHash V) × (insert_full hash (insert_new hash initial (suc fuel)) bs h
              ≡ ok h')
            × Models hash h' (merged bs f)
            × (h'.bits ≡ h.bits)
            × (h'.size ≡ h.size + count_full bs)
      unfolding insert_full merged count_full
      insert_full-Models [] h f models d new room bound = (h, refl, models, refl, omega arith)
      insert_full-Models ((k, v) ∷ bs) h f models d new room bound = elim (Bool-cases (k == 0)) [
        | inl empty ↦
            let (h', run, after, bits, size) =
              insert_full-Models bs h f models (Distinct-tail (k, v) bs d) (λ j. new (suc j))
                (ground arith) bound in
            (h', rw empty run, rw empty after, bits, rw empty (omega (arith, size)))
        | inr full ↦
            let nonzero : k ≢ 0 = ground arith in
            let (i, run1, models1) =
              must_insert-Models hash initial fuel h f k v models nonzero (new 0 k v refl nonzero)
                (ground arith) bound in
            let apart : (j k' : ℕ) (w : V)
                → get_elem? bs j ≡ some (k', w)
                → k' ≢ 0
                → update f k v k' ≡ none =
              λ j k' w e nonzero'. elim (Bool-cases (k' == k)) [
                | inl same ↦
                    let key : k' ≡ k = ground arith in
                    absurd (Distinct-head k v bs d nonzero j w (e ∙ rw key refl))
                | inr other ↦ rw other (new (suc j) k' w e nonzero')
              ] in
            let (h', run, after, bits, size) =
              insert_full-Models bs _ (update f k v) models1 (Distinct-tail (k, v) bs d) apart
                (ground arith) bound in
            (h', rw (full, run1) run, rw full after, bits, rw full (omega (arith, size)))
      ]

      -- A larger table is made with the same contents.
      pub reserve_with-Models :
          (h : LightweightHash V) (f : ℕ → Option V) (wanted : ℕ)
          → Models hash h f
          → capacity h < wanted
          → max wanted (capacity h * 2) ≤ 2 ^ 30
          → (h' : LightweightHash V) × (reserve_with hash initial
                (insert_new hash initial (suc fuel))
                h
                wanted
              ≡ ok h')
            × Models hash h' f
            × (max wanted (capacity h * 2) ≤ capacity h')
            × (capacity h' < 2 * max wanted (capacity h * 2))
            × (h'.size ≡ h.size)
      unfolding reserve_with
      reserve_with-Models h f wanted models more fits =
          let (bits, stored, above, below) =
            storage_bits-capacity (max wanted (capacity h * 2)) (omega arith) (omega arith) in
          let counted = models.table.counted in
          let few : h.size ≤ capacity h = omega (arith, count_full-le h.vals, models.table.sized) in
          let (h', run, after, same, size) =
            insert_full-Models h.vals (blank initial bits) (λ _. none) (blank-Models initial bits)
              models.distinct (λ j k v e nonzero. refl) (omega arith) (omega arith) in
          let small : leb wanted (capacity h) ≡ false = ground arith in
          let cap : capacity h' ≡ capacity_of bits = ap capacity_of same in
          (
            h',
            rw (small, stored) run,
            record {
              table = after.table;
              distinct = after.distinct;
              reads = λ k nonzero.
                  rw (← merged-Maps h.vals k (f k) models.distinct nonzero (models.reads k nonzero))
                    (after.reads k nonzero);
            },
            omega (arith, cap),
            omega (arith, cap),
            omega (arith, size, counted),
          )
