-- ===== src/Hash/Map/Clear.antt =====
-- utils/lightweight_hash.h: what `clear` and the copy constructor leave.
use jml_base.Common.{
  ℕ, zero, suc, ◌≡◌, ◌≢◌, inl, inr, refl, sym, ap, ◌∙◌, arith, Bool-cases, List, [], ◌∷◌, Option,
  none, some, some-eq, length, get_elem?,
}
use jml_base.Hash.{LightweightHash, bucket_is_full, capacity}
use jml_base.Hash.Finding.{count_full}
use jml_base.Hash.Filling.{unmapped, Models}
use jml_base.Hash.Map.{clear, empty_buckets}

module _ {ℓ} {V : Type ℓ} (initial : V) where
  length-empty_buckets : (bs : List (ℕ × V)) → length (empty_buckets initial bs) ≡ length bs
  unfolding empty_buckets
  length-empty_buckets [] = refl
  length-empty_buckets (b ∷ bs) = ap suc (length-empty_buckets bs)

  count_full-empty_buckets : (bs : List (ℕ × V)) → count_full (empty_buckets initial bs) ≡ 0
  unfolding empty_buckets count_full
  count_full-empty_buckets [] = refl
  count_full-empty_buckets (b ∷ bs) = elim (Bool-cases (bucket_is_full b)) [
    | inl full ↦ rw full (omega (arith, count_full-empty_buckets bs))
    | inr empty ↦ rw (empty, empty) (omega (arith, count_full-empty_buckets bs))
  ]

  -- No bucket has a key that is not 0.
  get-empty_buckets :
      (bs : List (ℕ × V)) (j k : ℕ) (v : V)
      → k ≢ 0
      → get_elem? (empty_buckets initial bs) j ≢ some (k, v)
  unfolding empty_buckets
  get-empty_buckets [] j k v nonzero e = cc
  get-empty_buckets (b ∷ bs) zero k v nonzero e = elim (Bool-cases (bucket_is_full b)) [
    | inl full ↦ nonzero (sym (ap (λ c. c.0) (some-eq (rw full at e))))
    | inr empty ↦
        let same : b ≡ (k, v) = some-eq (rw empty at e) in
        let key : b.0 ≡ k = ap (λ c. c.0) same in nonzero (sym key ∙ ground arith)
  ]
  get-empty_buckets (b ∷ bs) (suc j) k v nonzero e = get-empty_buckets bs j k v nonzero e

  -- `clear` leaves a well-formed table of the same capacity that maps no key.
  pub clear-Models :
      (hash : ℕ → ℕ) (h : LightweightHash V) (f : ℕ → Option V)
      → Models hash h f
      → Models hash (clear initial h) (λ _. none) × (capacity (clear initial h) ≡ capacity h)
  unfolding clear
  clear-Models hash h f models = (
    record {
      table = record {
        sized = length-empty_buckets h.vals ∙ models.table.sized;
        counted = sym (count_full-empty_buckets h.vals);
        reached = λ j k v e nonzero. absurd (get-empty_buckets h.vals j k v nonzero e);
      };
      distinct = λ i j k v w e g nonzero. absurd (get-empty_buckets h.vals i k v nonzero e);
      reads = λ k nonzero. unmapped (λ j v e. get-empty_buckets h.vals j k v nonzero e);
    },
    refl,
  )
