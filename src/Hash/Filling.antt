-- ===== src/Hash/Filling.antt =====
-- utils/lightweight_hash.h: the table as a map from keys to values, and what `fill_bucket` makes of it.
use jml_base.Common.{
  ℕ, zero, suc, ◌+◌, ◌<◌, ◌≡◌, ◌≢◌, ◌⊎◌, ◌==◌, inl, inr, refl, sym, ap, ◌∙◌, arith, Bool-cases,
  true, false, List, [], ◌∷◌, Option, none, some, some-eq, length, get_elem?, get_elem?_out, set,
  length-set, get_elem?-set_self, get_elem?-set_ne, ltb, dec_lt, ℕ_discrete, if◌then◌else◌,
}
use jml_base.Common.Result.{ok}
use jml_base.Hash.{LightweightHash, bucket_is_full, fill_bucket}
use jml_base.Hash.Finding.{IsTable, IsFullAt, IsAbsent, Reaches, count_full}

module _ {ℓ} {V : Type ℓ} where
  -- What a key is mapped to.
  pub data Maps (vals : List (ℕ × V)) (k : ℕ) : Option V → Type ℓ where
    mapped : (j : ℕ) (v : V) → get_elem? vals j ≡ some (k, v) → Maps vals k (some v)
    unmapped : ((j : ℕ) (v : V) → get_elem? vals j ≢ some (k, v)) → Maps vals k none

  abbrev pub Distinct : List (ℕ × V) → Type ℓ
  Distinct vals =
      (i j k : ℕ) (v w : V)
      → get_elem? vals i ≡ some (k, v)
      → get_elem? vals j ≡ some (k, w)
      → k ≢ 0
      → i ≡ j

  -- The map `f` with `k` mapped to `v`.
  abbrev pub update : (ℕ → Option V) → ℕ → V → ℕ → Option V
  update f k v q = if q == k then some v else f q

  pub none-some : {b : ℕ × V} → none ≡ some b → ⊥
  none-some e = cc

  pub get-lt :
      (vals : List (ℕ × V)) (i : ℕ) (b : ℕ × V) → get_elem? vals i ≡ some b → i < length vals
  get-lt vals i b e = elim (dec_lt i (length vals)) [
    | yes p ↦ p
    | no p ↦ let out = get_elem?_out vals i (omega arith) in absurd (none-some (sym out ∙ e))
  ]

  -- A read behind a write: of the bucket written, or as before.
  pub get-set :
      (vals : List (ℕ × V)) (i j : ℕ) (b c : ℕ × V)
      → i < length vals
      → get_elem? (set vals i b) j ≡ some c
      → ((j ≡ i) × (b ≡ c)) ⊎ ((j ≢ i) × (get_elem? vals j ≡ some c))
  get-set vals i j b c h e = elim (ℕ_discrete j i) [
    | yes p ↦ inl (
      p,
      some-eq (sym (get_elem?-set_self vals i b h) ∙ ap (get_elem? (set vals i b)) (sym p) ∙ e),
    )
    | no p ↦ inr (p, sym (get_elem?-set_ne vals b (λ q. p (sym q))) ∙ e)
  ]

  count_full-set :
      (vals : List (ℕ × V)) (i k : ℕ) (v w : V)
      → get_elem? vals i ≡ some (0, w)
      → k ≢ 0
      → count_full (set vals i (k, v)) ≡ count_full vals + 1
  unfolding count_full
  count_full-set [] i k v w e h = cc
  count_full-set (b ∷ bs) zero k v w e h =
      let empty : bucket_is_full b ≡ false = ap bucket_is_full (some-eq e) in
      let full : bucket_is_full (k, v) ≡ true = ground arith in rw (empty, full) (omega arith)
  count_full-set (b ∷ bs) (suc i) k v w e h = rw (count_full-set bs i k v w e h) (omega arith)

  IsFullAt-set :
      (vals : List (ℕ × V)) (i n k : ℕ) (v w : V)
      → get_elem? vals i ≡ some (0, w)
      → k ≢ 0
      → IsFullAt vals n
      → IsFullAt (set vals i (k, v)) n
  unfolding IsFullAt
  IsFullAt-set vals i n k v w e h (b, get, full) = elim (ℕ_discrete n i) [
    | yes p ↦
        ((k, v), rw p (get_elem?-set_self vals i (k, v) (get-lt vals i (0, w) e)), ground arith)
    | no p ↦ (b, get_elem?-set_ne vals (k, v) (λ q. p (sym q)) ∙ get, full)
  ]

  Distinct-set :
      (vals : List (ℕ × V)) (i k : ℕ) (v : V)
      → i < length vals
      → ((j : ℕ) (w : V) → get_elem? vals j ≢ some (k, w))
      → Distinct vals
      → Distinct (set vals i (k, v))
  Distinct-set vals i k v hi absent d i' j' q a b ea eb nonzero =
      elim (get-set vals i i' (k, v) (q, a) hi ea) [
        | inl (pa, ka) ↦ elim (get-set vals i j' (k, v) (q, b) hi eb) [
          | inl (pb, kb) ↦ pa ∙ sym pb
          | inr (pb, gb) ↦ let same : k ≡ q = ap (λ c. c.0) ka in absurd (absent j' b (rw same gb))
        ]
        | inr (pa, ga) ↦ elim (get-set vals i j' (k, v) (q, b) hi eb) [
          | inl (pb, kb) ↦ let same : k ≡ q = ap (λ c. c.0) kb in absurd (absent i' a (rw same ga))
          | inr (pb, gb) ↦ d i' j' q a b ga gb nonzero
        ]
      ]

  Maps-set_self :
      (vals : List (ℕ × V)) (i k : ℕ) (v : V)
      → i < length vals
      → Maps (set vals i (k, v)) k (some v)
  Maps-set_self vals i k v hi = mapped i v (get_elem?-set_self vals i (k, v) hi)

  Maps-set_other :
      (vals : List (ℕ × V)) (i k q : ℕ) (v w : V) (o : Option V)
      → get_elem? vals i ≡ some (0, w)
      → q ≢ k
      → q ≢ 0
      → Maps vals q o
      → Maps (set vals i (k, v)) q o
  Maps-set_other vals i k q v w _ e other nonzero (mapped j u g) =
      let apart : i ≢ j =
        λ p. nonzero (sym (ap (λ b. b.0) (some-eq (sym e ∙ ap (get_elem? vals) p ∙ g)))) in
      mapped j u (get_elem?-set_ne vals (k, v) apart ∙ g)
  Maps-set_other vals i k q v w _ e other nonzero (unmapped never) = unmapped (λ j u g.
      elim (get-set vals i j (k, v) (q, u) (get-lt vals i (0, w) e) g) [
        | inl (p, c) ↦ absurd (other (sym (ap (λ b. b.0) c)))
        | inr (p, g') ↦ absurd (never j u g')
      ])

  module _ (hash : ℕ → ℕ) where
    -- The well-formed table `h`, in which no key has two buckets, maps the keys as `f` does.
    pub record Models (h : LightweightHash V) (f : ℕ → Option V) : Type ℓ where
      pub table : IsTable hash h
      pub distinct : Distinct h.vals
      pub reads : (k : ℕ) → k ≢ 0 → Maps h.vals k (f k)

    abbrev pub filled : LightweightHash V → ℕ → ℕ × V → LightweightHash V
    filled h i b = record h { vals = set h.vals i b; size = h.size + 1 }

    filled-IsTable :
        (h : LightweightHash V) (i k : ℕ) (v w : V)
        → IsTable hash h
        → get_elem? h.vals i ≡ some (0, w)
        → k ≢ 0
        → Reaches hash h k i
        → IsTable hash (filled h i (k, v))
    filled-IsTable h i k v w t e nonzero (m, p, place, before) = record {
      sized = length-set h.vals i (k, v) ∙ t.sized;
      counted = rw (count_full-set h.vals i k v w e nonzero) (omega (arith, t.counted));
      reached = λ j q u g other.
          elim (get-set h.vals i j (k, v) (q, u) (get-lt h.vals i (0, w) e) g) [
            | inl (here, c) ↦
                let same : k ≡ q = ap (λ b. b.0) c in
                rw (← same) (
                  (m, p, here ∙ place, λ n r. IsFullAt-set h.vals i _ k v w e nonzero (before n r)))
            | inr (apart, g') ↦
                let (m', p', place', before') = t.reached j q u g' other in
                (m', p', place', λ n r. IsFullAt-set h.vals i _ k v w e nonzero (before' n r))
          ];
    }

    -- A bucket filled where the search for its key ends.
    pub fill_bucket-Models :
        (h : LightweightHash V) (f : ℕ → Option V) (i k : ℕ) (v w : V)
        → Models h f
        → get_elem? h.vals i ≡ some (0, w)
        → k ≢ 0
        → IsAbsent hash h k
        → Reaches hash h k i
        → (fill_bucket hash h (some i) (k, v) ≡ ok (filled h i (k, v), i))
          × Models (filled h i (k, v)) (update f k v)
    unfolding fill_bucket IsAbsent
    fill_bucket-Models h f i k v w models e nonzero absent reach =
        let inside = get-lt h.vals i (0, w) e in
        let test : ltb i (length h.vals) ≡ true = ground arith in
        (
          rw test refl,
          record {
            table = filled-IsTable h i k v w models.table e nonzero reach;
            distinct = Distinct-set h.vals i k v inside absent models.distinct;
            reads = λ q other. elim (Bool-cases (q == k)) [
              | inl same ↦
                  let key : k ≡ q = ground arith in
                  rw (same, ← key) (Maps-set_self h.vals i k v inside)
              | inr differs ↦
                  let apart : q ≢ k = ground arith in
                  rw differs
                    (Maps-set_other h.vals i k q v w (f q) e apart other (models.reads q other))
            ];
          },
        )
