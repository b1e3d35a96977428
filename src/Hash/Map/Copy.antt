-- ===== src/Hash/Map/Copy.antt =====
-- utils/lightweight_hash.h: what the copy constructor makes.
use native.Mathlib.Nat.{pow-suc}
use jml_base.Common.{
  ℕ, zero, suc, ◌*◌, ◌^◌, ◌≤◌, ◌<◌, ◌≡◌, ◌≢◌, ◌==◌, inl, inr, refl, sym, ap, ◌∙◌, arith, true,
  false, Bool-cases, List, [], ◌∷◌, Option, some, some-eq, length, get_elem?,
}
use jml_base.Common.Result.{ok}
use jml_base.Bitops.Highest.{IsTop, IsTop-unique}
use jml_base.Hash.{LightweightHash, bucket_is_full, capacity, capacity_of, storage_bits}
use jml_base.Hash.Sizes.{storage_bits-capacity}
use jml_base.Hash.Finding.{IsFullAt, count_full}
use jml_base.Hash.Filling.{Maps, mapped, unmapped, Models}
use jml_base.Hash.Map.{copy, copy_buckets}

-- Two capacities between which there is no power of two.
capacity_of-between :
    (bits bits' : ℕ)
    → 0 < capacity_of bits
    → capacity_of bits ≤ capacity_of bits'
    → capacity_of bits' < 2 * capacity_of bits
    → bits' ≡ bits
unfolding capacity_of
capacity_of-between zero bits' some_bits above below = absurd (omega arith)
capacity_of-between (suc b) zero some_bits above below = absurd (omega arith)
capacity_of-between (suc b) (suc c) some_bits above below =
    let top : IsTop (2 ^ c) c = (omega arith, omega (arith, pow-suc 2 c, above, some_bits)) in
    ap suc (IsTop-unique (2 ^ c) c b top (above, omega (arith, below, pow-suc 2 b)))

module _ {ℓ} {V : Type ℓ} (initial : V) where
  length-copy_buckets : (bs : List (ℕ × V)) → length (copy_buckets initial bs) ≡ length bs
  unfolding copy_buckets
  length-copy_buckets [] = refl
  length-copy_buckets (b ∷ bs) = ap suc (length-copy_buckets bs)

  count_full-copy_buckets :
      (bs : List (ℕ × V)) → count_full (copy_buckets initial bs) ≡ count_full bs
  unfolding copy_buckets count_full
  count_full-copy_buckets [] = refl
  count_full-copy_buckets (b ∷ bs) = elim (Bool-cases (bucket_is_full b)) [
    | inl full ↦ rw (full, full) (omega (arith, count_full-copy_buckets bs))
    | inr empty ↦ rw (empty) (omega (arith, count_full-copy_buckets bs))
  ]

  -- The full buckets are copied.
  get-full :
      (bs : List (ℕ × V)) (j : ℕ) (b : ℕ × V)
      → get_elem? bs j ≡ some b
      → bucket_is_full b ≡ true
      → get_elem? (copy_buckets initial bs) j ≡ some b
  unfolding copy_buckets
  get-full [] j b e full = cc
  get-full (x ∷ bs) zero b e full =
      let here : bucket_is_full x ≡ true = ap bucket_is_full (some-eq e) ∙ full in rw here e
  get-full (x ∷ bs) (suc j) b e full = get-full bs j b e full

  -- Nothing else is.
  get-copied :
      (bs : List (ℕ × V)) (j k : ℕ) (v : V)
      → get_elem? (copy_buckets initial bs) j ≡ some (k, v)
      → k ≢ 0
      → get_elem? bs j ≡ some (k, v)
  unfolding copy_buckets
  get-copied [] j k v e nonzero = e
  get-copied (x ∷ bs) zero k v e nonzero = elim (Bool-cases (bucket_is_full x)) [
    | inl full ↦ rw full at e
    | inr empty ↦ absurd (nonzero (sym (ap (λ c. c.0) (some-eq (rw empty at e)))))
  ]
  get-copied (x ∷ bs) (suc j) k v e nonzero = get-copied bs j k v e nonzero

  IsFullAt-copied :
      (bs : List (ℕ × V)) (i : ℕ) → IsFullAt bs i → IsFullAt (copy_buckets initial bs) i
  unfolding IsFullAt
  IsFullAt-copied bs i (b, e, full) = (b, get-full bs i b e full, full)

  Maps-copied :
      (bs : List (ℕ × V)) (k : ℕ) (o : Option V)
      → k ≢ 0
      → Maps bs k o
      → Maps (copy_buckets initial bs) k o
  Maps-copied bs k _ nonzero (mapped j v e) = mapped j v (get-full bs j (k, v) e (ground arith))
  Maps-copied bs k _ nonzero (unmapped never) =
      unmapped (λ j v e. never j v (get-copied bs j k v e nonzero))

  module _ (hash : ℕ → ℕ) (h : LightweightHash V) (f : ℕ → Option V) where
    copied-Models :
        Models hash h f → Models hash (record h { vals = copy_buckets initial h.vals }) f
    copied-Models models = record {
      table = record {
        sized = length-copy_buckets h.vals ∙ models.table.sized;
        counted = models.table.counted ∙ sym (count_full-copy_buckets h.vals);
        reached = λ j k v e nonzero.
            let (m, p, place, before) =
              models.table.reached j k v (get-copied h.vals j k v e nonzero) nonzero in
            (m, p, place, λ n q. IsFullAt-copied h.vals _ (before n q));
      };
      distinct = λ i j k v w e g nonzero.
          models.distinct i j k v w (get-copied h.vals i k v e nonzero)
            (get-copied h.vals j k w g nonzero) nonzero;
      reads = λ k nonzero. Maps-copied h.vals k (f k) nonzero (models.reads k nonzero);
    }

    -- The copy of a table that has storage, of at most 2 ^ 63 buckets, is well-formed and maps every key as
    -- the table does; its assertion holds.
    pub copy-Models :
        Models hash h f
        → 0 < capacity h
        → capacity h ≤ 2 ^ 63
        → (h' : LightweightHash V) × (copy initial h ≡ ok h') × Models hash h' f
    unfolding copy
    copy-Models models some_room small =
        let (bits, stored, above, below) = storage_bits-capacity (capacity h) some_room small in
        let same = capacity_of-between h.bits bits some_room above below in
        let again : storage_bits (capacity h) ≡ ok h.bits = stored ∙ ap ok same in
        let test : (capacity h == 0) ≡ false = ground arith in
        let fits : (capacity h == capacity h) ≡ true = ground arith in
        (
          record h { vals = copy_buckets initial h.vals },
          rw (again, test, fits) refl,
          copied-Models models,
        )
