-- ===== src/Hash/Map/Traversal.antt =====
-- utils/lightweight_hash.h: a client's loop from `begin` to `end`.
use jml_base.Common.{
  ◌^◌, lt→ltb, ℕ, zero, suc, ◌+◌, ◌-◌, ◌≤◌, ◌<◌, ◌≡◌, ◌==◌, inl, inr, refl, sym, ap, ◌∙◌, arith,
  true, false, Bool-cases, List, [], ◌∷◌, some, some-eq, length, get_elem?, drop, if◌then◌else◌,
  ℕ_discrete,
}
use jml_base.Common.Int.{pos}
use jml_base.Common.Result.{Result, ok, err, ◌>>=◌}
use jml_base.Hash.{Error, LightweightHash, bucket_is_full, capacity, out_of_fuel}
use jml_base.Hash.Finding.{int_of-small, IsTable, IsFullAt, count_full}
use jml_base.Hash.Walk.{advance_to_valid-IsNext, dereference, IsNext, IsEmptyAt}
use jml_base.Hash.Map.{iterator_from, iterator_at, increment, begin}
use jml_base.Hash.Map.Reads.{dereference-full, end-capacity}

one_more : (n : ℕ) → 1 + n ≡ 0 → ⊥
one_more n e = omega arith

module _ {ℓ} {V : Type ℓ} where
  -- `for (; it != hash.end(); ++it) visit(*it);`, with the buckets visited.
  pub visit : ℕ → LightweightHash V → ℕ → Result Error (List (ℕ × V))
  visit zero h i = err out_of_fuel
  visit (suc fuel) h i =
      let on = (do
        b ← dereference h (pos i)
        j ← increment h i
        rest ← visit fuel h j
        ok (b ∷ rest)) in
      if i == capacity h then ok [] else on

  unfoldable pub full_buckets : List (ℕ × V) → List (ℕ × V)
  full_buckets [] = []
  full_buckets (b ∷ bs) = if bucket_is_full b then b ∷ full_buckets bs else full_buckets bs

  drop-get :
      (bs : List (ℕ × V)) (i : ℕ) (b : ℕ × V)
      → get_elem? bs i ≡ some b
      → drop i bs ≡ b ∷ drop (i + 1) bs
  drop-get [] i b e = cc
  drop-get (x ∷ bs) zero b e = rw (some-eq e) refl
  drop-get (x ∷ bs) (suc i) b e =
      let shift : suc i + 1 ≡ suc (i + 1) = omega arith in rw shift (drop-get bs i b e)

  drop_all : (bs : List (ℕ × V)) → drop (length bs) bs ≡ []
  drop_all [] = refl
  drop_all (b ∷ bs) = drop_all bs

  full_buckets-empty :
      (bs : List (ℕ × V)) (i : ℕ)
      → IsEmptyAt bs i
      → full_buckets (drop i bs) ≡ full_buckets (drop (i + 1) bs)
  unfolding full_buckets IsEmptyAt
  full_buckets-empty bs i (b, e, empty) = rw (drop-get bs i b e, empty) refl

  full_buckets-full :
      (bs : List (ℕ × V)) (i : ℕ) (b : ℕ × V)
      → get_elem? bs i ≡ some b
      → bucket_is_full b ≡ true
      → full_buckets (drop i bs) ≡ b ∷ full_buckets (drop (i + 1) bs)
  unfolding full_buckets
  full_buckets-full bs i b e full = rw (drop-get bs i b e, full) refl

  -- What is skipped on the way to the next full bucket is empty.
  IsNext-full_buckets :
      (bs : List (ℕ × V)) (n i j : ℕ)
      → i + n ≡ j
      → ((k : ℕ) → i ≤ k → k < j → IsEmptyAt bs k)
      → full_buckets (drop i bs) ≡ full_buckets (drop j bs)
  IsNext-full_buckets bs zero i j e empty =
      let same : i ≡ j = omega arith in ap (λ k. full_buckets (drop k bs)) same
  IsNext-full_buckets bs (suc n) i j e empty =
      full_buckets-empty bs i (empty i (omega arith) (omega arith))
      ∙ IsNext-full_buckets bs n (i + 1) j (omega arith) (λ k p q. empty k (omega arith) q)

  end-IsNext : (bs : List (ℕ × V)) → IsNext bs (length bs) (length bs)
  end-IsNext bs = record {
    onwards = omega arith;
    inside = omega arith;
    empty = λ k p q. absurd (omega arith);
    full = λ p. absurd (omega arith);
  }

  iterator_at-IsNext :
      (h : LightweightHash V) (i : ℕ)
      → length h.vals ≡ capacity h
      → i ≤ capacity h
      → capacity h < 2 ^ 31
      → (j : ℕ) × (iterator_at h i ≡ ok j) × IsNext h.vals i j
  unfolding iterator_at iterator_from
  iterator_at-IsNext h i sized p small = elim (ℕ_discrete i (capacity h)) [
    | yes last ↦
        let test : (i == capacity h) ≡ true = ground arith in
        let whole : i ≡ length h.vals = last ∙ sym sized in
        (i, rw (int_of-small i (omega arith), test) refl, rw whole (end-IsNext h.vals))
    | no before ↦
        let test : (i == capacity h) ≡ false = ground arith in
        let (j, run, next) = advance_to_valid-IsNext h i sized (omega arith) in
        (j, rw (int_of-small i (omega arith), test) run, next)
  ]

  visit-full_buckets :
      (fuel : ℕ) (h : LightweightHash V) (i j : ℕ)
      → length h.vals ≡ capacity h
      → capacity h < 2 ^ 31
      → IsNext h.vals i j
      → capacity h < j + fuel
      → visit fuel h j ≡ ok (full_buckets (drop i h.vals))
  unfolding visit increment IsFullAt full_buckets
  visit-full_buckets zero h i j sized small next enough = absurd (omega (arith, next.inside))
  visit-full_buckets (suc fuel) h i j sized small next enough =
      let skipped =
        IsNext-full_buckets h.vals (j - i) i j (omega (arith, next.onwards)) next.empty in
      elim (ℕ_discrete j (capacity h)) [
        | yes last ↦
            let test : (j == capacity h) ≡ true = ground arith in
            let whole : j ≡ length h.vals = last ∙ sym sized in
            rw (test, skipped, ap (λ k. drop k h.vals) whole ∙ drop_all h.vals) refl
        | no before ↦
            let test : (j == capacity h) ≡ false = ground arith in
            let inside : j < length h.vals = omega (arith, next.inside) in
            let (b, e, full) = next.full inside in
            let (j', moved, next') = iterator_at-IsNext h (j + 1) sized (omega arith) small in
            let rest =
              visit-full_buckets fuel h (j + 1) j' sized small next'
                (omega (arith, next'.onwards)) in
            rw
              (
                test,
                dereference-full h j b sized e full,
                lt→ltb (j + 1) (2 ^ 31) (omega (arith, sized)),
                moved,
                rest,
                skipped,
                full_buckets-full h.vals j b e full,
              )
              refl
      ]

  full_buckets-nil : (bs : List (ℕ × V)) → count_full bs ≡ 0 → full_buckets bs ≡ []
  unfolding count_full full_buckets
  full_buckets-nil [] e = refl
  full_buckets-nil (b ∷ bs) e = elim (Bool-cases (bucket_is_full b)) [
    | inl full ↦ absurd (one_more (count_full bs) (rw full at e))
    | inr empty ↦
        let rest : 0 + count_full bs ≡ 0 = rw empty at e in
        rw empty (full_buckets-nil bs (omega arith))
  ]

  visit_end :
      (h : LightweightHash V)
      → length h.vals ≡ capacity h
      → capacity h < 2 ^ 31
      → visit (capacity h + 1) h (capacity h) ≡ ok []
  unfolding full_buckets
  visit_end h sized small =
      let last : IsNext h.vals (capacity h) (capacity h) = rw (← sized) (end-IsNext h.vals) in
      visit-full_buckets (capacity h + 1) h (capacity h) (capacity h) sized small last (omega arith)
      ∙ ap (λ k. ok (full_buckets (drop k h.vals))) (sym sized)
      ∙ rw (drop_all h.vals) refl

  -- In a well-formed table of fewer than 2 ^ 31 buckets a loop from `begin()` to `end()` visits every full bucket once, in the order of
  -- the buckets, and ends.
  pub visit-begin :
      (hash : ℕ → ℕ) (h : LightweightHash V)
      → IsTable hash h
      → capacity h < 2 ^ 31
      → (begin h >>= visit (capacity h + 1) h) ≡ ok (full_buckets h.vals)
  unfolding begin
  visit-begin hash h t small = elim (ℕ_discrete h.size 0) [
    | yes none_full ↦
        let test : (h.size == 0) ≡ true = ground arith in
        let nothing : full_buckets h.vals ≡ [] =
          full_buckets-nil h.vals (sym t.counted ∙ none_full) in
        rw (test, end-capacity h small, nothing) (visit_end h t.sized small)
    | no p ↦
        let test : (h.size == 0) ≡ false = ground arith in
        let (j, moved, next) = iterator_at-IsNext h 0 t.sized (omega arith) small in
        rw (test, moved)
          (visit-full_buckets (capacity h + 1) h 0 j t.sized small next (omega arith))
  ]
