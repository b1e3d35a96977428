-- ===== src/Hash/Reserving.antt =====
-- utils/lightweight_hash.h: `reserve` as a client calls it.
use jml_base.Common.{ℕ, suc, ◌^◌, ◌≤◌, ◌≡◌, inl, inr, refl, arith, Bool-cases, Option, leb}
use jml_base.Common.Result.{ok}
use jml_base.Hash.{LightweightHash, capacity, reserve, reserve_with}
use jml_base.Hash.Filling.{Models}
use jml_base.Hash.Growing.{reserve_with-Models}

-- On a table of at most 2 ^ 29 buckets, and for at most 2 ^ 30, `reserve` returns a table of at least the capacity asked for, and no smaller than before, with the same
-- contents; the insertions that fill it do not make it grow.
pub reserve-Models {ℓ} :
    {V : Type ℓ} (hash : ℕ → ℕ) (initial : V) (fuel : ℕ) (h : LightweightHash V) (f : ℕ → Option V)
    (wanted : ℕ)
    → Models hash h f
    → wanted ≤ 2 ^ 30
    → capacity h ≤ 2 ^ 29
    → (h' : LightweightHash V) × (reserve hash initial (suc fuel) h wanted ≡ ok h')
      × Models hash h' f
      × (wanted ≤ capacity h')
      × (capacity h ≤ capacity h')
      × (h'.size ≡ h.size)
unfolding reserve reserve_with
reserve-Models hash initial fuel h f wanted models fits small =
    elim (Bool-cases (leb wanted (capacity h))) [
      | inl enough ↦ (h, rw enough refl, models, ground arith, omega arith, refl)
      | inr more ↦
          let (h', run, after, above, _, size) =
            reserve_with-Models hash initial fuel h f wanted models (ground arith) (omega arith) in
          (h', run, after, omega arith, omega arith, size)
    ]
