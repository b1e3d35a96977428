-- ===== src/Hash/Map/Storing.antt =====
-- utils/lightweight_hash.h: an assignment to the value that `operator []` returns.
use jml_base.Common.{
  ℕ, zero, suc, ◌≡◌, ◌≢◌, ◌==◌, inl, inr, refl, sym, ap, ◌∙◌, arith, Bool-cases, List, [], ◌∷◌,
  Option, some, some-eq, get_elem?, get_elem?-set_self, get_elem?-set_ne, set, length-set,
  ℕ_discrete,
}
use jml_base.Common.Result.{Result, ok, ◌>>=◌}
use jml_base.Hash.{Error, LightweightHash, bucket_at, bucket_is_full}
use jml_base.Hash.Finding.{IsFullAt, count_full}
use jml_base.Hash.Filling.{Maps, mapped, unmapped, update, Models, get-lt, get-set}
use jml_base.Hash.Inserting.{bucket_at-get}

module _ {ℓ} {V : Type ℓ} where
  -- A write through the reference to the value in the bucket `i`.
  pub store : LightweightHash V → ℕ → V → Result Error (LightweightHash V)
  store h i v = do b ← bucket_at h.vals i; ok (record h { vals = set h.vals i (b.0, v) })

  count_full-same :
      (vals : List (ℕ × V)) (i k : ℕ) (v w : V)
      → get_elem? vals i ≡ some (k, w)
      → count_full (set vals i (k, v)) ≡ count_full vals
  unfolding count_full
  count_full-same [] i k v w e = cc
  count_full-same (b ∷ bs) zero k v w e =
      let same : bucket_is_full b ≡ bucket_is_full (k, v) = ap bucket_is_full (some-eq e) in
      rw same refl
  count_full-same (b ∷ bs) (suc i) k v w e = rw (count_full-same bs i k v w e) refl

  IsFullAt-same :
      (vals : List (ℕ × V)) (i n k : ℕ) (v w : V)
      → get_elem? vals i ≡ some (k, w)
      → IsFullAt vals n
      → IsFullAt (set vals i (k, v)) n
  unfolding IsFullAt
  IsFullAt-same vals i n k v w e (b, get, full) = elim (ℕ_discrete n i) [
    | yes p ↦
        let same : b ≡ (k, w) = some-eq (sym get ∙ ap (get_elem? vals) p ∙ e) in
        (
          (k, v),
          rw p (get_elem?-set_self vals i (k, v) (get-lt vals i (k, w) e)),
          sym (ap bucket_is_full same) ∙ full,
        )
    | no p ↦ (b, get_elem?-set_ne vals (k, v) (λ q. p (sym q)) ∙ get, full)
  ]

  -- A bucket read after the write had its key before.
  get-same :
      (vals : List (ℕ × V)) (i j k q : ℕ) (v w u : V)
      → get_elem? vals i ≡ some (k, w)
      → get_elem? (set vals i (k, v)) j ≡ some (q, u)
      → (x : V) × (get_elem? vals j ≡ some (q, x))
  get-same vals i j k q v w u e g =
      elim (get-set vals i j (k, v) (q, u) (get-lt vals i (k, w) e) g) [
        | inl (p, c) ↦ let key : k ≡ q = ap (λ b. b.0) c in (w, rw (p, ← key) e)
        | inr (p, g') ↦ (u, g')
      ]

  Maps-same :
      (vals : List (ℕ × V)) (i k q : ℕ) (v w : V) (o : Option V)
      → get_elem? vals i ≡ some (k, w)
      → q ≢ k
      → Maps vals q o
      → Maps (set vals i (k, v)) q o
  Maps-same vals i k q v w _ e other (mapped j u g) =
      let apart : i ≢ j =
        λ p. other (sym (ap (λ b. b.0) (some-eq (sym e ∙ ap (get_elem? vals) p ∙ g)))) in
      mapped j u (get_elem?-set_ne vals (k, v) apart ∙ g)
  Maps-same vals i k q v w _ e other (unmapped never) =
      unmapped (λ j u g. let (x, g') = get-same vals i j k q v w u e g in never j x g')

  -- `hash[k] = v` where `k` has the bucket `i`.
  pub store-Models :
      (hash : ℕ → ℕ) (h : LightweightHash V) (f : ℕ → Option V) (i k : ℕ) (v w : V)
      → Models hash h f
      → k ≢ 0
      → get_elem? h.vals i ≡ some (k, w)
      → (store h i v ≡ ok (record h { vals = set h.vals i (k, v) }))
        × Models hash (record h { vals = set h.vals i (k, v) }) (update f k v)
  unfolding store
  store-Models hash h f i k v w models nonzero e = (
    rw (bucket_at-get h.vals i (k, w) e) refl,
    record {
      table = record {
        sized = length-set h.vals i (k, v) ∙ models.table.sized;
        counted = models.table.counted ∙ sym (count_full-same h.vals i k v w e);
        reached = λ j q u g other.
            let (x, g') = get-same h.vals i j k q v w u e g in
            let (m, p, place, before) = models.table.reached j q x g' other in
            (m, p, place, λ n r. IsFullAt-same h.vals i _ k v w e (before n r));
      };
      distinct = λ a b q x y ea eb other.
          let (_, ga) = get-same h.vals i a k q v w x e ea in
          let (_, gb) = get-same h.vals i b k q v w y e eb in models.distinct a b q _ _ ga gb other;
      reads = λ q other. elim (Bool-cases (q == k)) [
        | inl same ↦
            let key : k ≡ q = ground arith in
            rw (same, ← key)
              (mapped i v (get_elem?-set_self h.vals i (k, v) (get-lt h.vals i (k, w) e)))
        | inr differs ↦
            let apart : q ≢ k = ground arith in
            rw differs (Maps-same h.vals i k q v w (f q) e apart (models.reads q other))
      ];
    },
  )
