-- ===== src/RingBuffer/Locks.antt =====
-- arch/spinlock.h, in `RingBufferSRMW` of utils/ring_buffer.h: what one move of a writer does to the
-- lock.
use jml_base.Common.{ℕ, ◌==◌, ◌≡◌, ◌≢◌, refl, sym, ◌∙◌, arith, Bool, true, false, [], ℕ_discrete}
use jml_base.Common.Result.{Result, ok, err, ◌>>=◌, ok_injective}
use jml_base.RingBuffer.{Fault, is_full, store_at, publish_write}
use jml_base.RingBuffer.Machine.{
  Shared, WriterAt, idle, acquiring, looking, storing, publishing, releasing, write_move, pushes,
  try_acquire, release, acquired, after_look,
}

pub true-ne-false : true ≢ false
true-ne-false e = cc

ne-test : {n : ℕ} → n ≢ 0 → (n == 0) ≡ false
ne-test h = ground arith

module _ {ℓ} {A : Type ℓ} where
  bind-value {κ} :
      {B : Type κ} (s : Shared A) (m : Result Fault B) (k : B → Shared A × WriterAt A)
      → ((b : B) → (k b).0.value ≡ s.value)
      → (r : Shared A × WriterAt A) → (m >>= λ b. ok (k b)) ≡ ok r
      → (r.0).value ≡ s.value
  bind-value s (ok b) k h r e = rw (sym (ok_injective e)) (h b)
  bind-value s (err f) k h r e = cc

module _ {ℓ} {A : Type ℓ} where
  -- Between the return of `Spinlock::acquire` and the store of `Spinlock::release`.
  unfoldable pub is_inside : WriterAt A → Bool
  is_inside idle = false
  is_inside (acquiring waits a) = false
  is_inside _ = true

  -- What a move does to the lock, and what it leaves of the ring when its thread has not the lock.
  pub record Locks (s : Shared A) (pc : WriterAt A) (r : Shared A × WriterAt A) : Type ℓ where
    pub entered : is_inside (r.1) ≡ true → (r.0).value ≡ 1
    pub kept : is_inside pc ≡ false → s.value ≡ 1 → (r.0).value ≡ 1
    pub refused : is_inside pc ≡ false → s.value ≡ 1 → is_inside (r.1) ≡ false
    pub untouched : is_inside pc ≡ false → (r.0).base ≡ s.base
    pub silent : is_inside pc ≡ false → pushes pc ≡ []

  pub Locks-outside :
      (s t : Shared A) (pc pc' : WriterAt A)
      → is_inside pc' ≡ false
      → t.base ≡ s.base
      → pushes pc ≡ []
      → (s.value ≡ 1 → t.value ≡ 1)
      → Locks s pc (t, pc')
  Locks-outside s t pc pc' out same quiet kept = record {
    entered = λ e. absurd (true-ne-false (sym e ∙ out));
    kept = λ _. kept;
    refused = λ _ _. out;
    untouched = λ _. same;
    silent = λ _. quiet;
  }

  Locks-inside :
      (s t : Shared A) (pc pc' : WriterAt A)
      → is_inside pc ≡ true
      → (is_inside pc' ≡ true → t.value ≡ 1)
      → Locks s pc (t, pc')
  Locks-inside s t pc pc' inside value = record {
    entered = value;
    kept = λ e. absurd (true-ne-false (sym inside ∙ e));
    refused = λ e. absurd (true-ne-false (sym inside ∙ e));
    untouched = λ e. absurd (true-ne-false (sym inside ∙ e));
    silent = λ e. absurd (true-ne-false (sym inside ∙ e));
  }

  acquired-Locks :
      (s : Shared A) (waits : Bool) (a : A)
      → Locks s (acquiring waits a) (acquired waits a (try_acquire s))
  unfolding try_acquire is_inside pushes
  acquired-Locks s waits a = elim (ℕ_discrete s.value 0) [
    | yes e ↦ rw e (record {
      entered = λ _. refl;
      kept = λ _ _. refl;
      refused = λ _ v. absurd (omega (arith, e, v));
      untouched = λ _. refl;
      silent = λ _. refl;
    })
    | no ne ↦ rw (ne-test ne) (Locks-outside s s _ _ refl refl refl (λ v. v))
  ]

  pub write_move-Locks :
      (s : Shared A) (pc : WriterAt A)
      → (is_inside pc ≡ true → s.value ≡ 1)
      → (r : Shared A × WriterAt A) → write_move s pc ≡ ok r
      → Locks s pc r
  unfolding write_move is_inside pushes release
  write_move-Locks s idle h r e =
      rw (sym (ok_injective e)) (Locks-outside s s idle idle refl refl refl (λ v. v))
  write_move-Locks s (acquiring waits a) h r e =
      rw (sym (ok_injective e)) (acquired-Locks s waits a)
  write_move-Locks s (looking waits a) h r e =
      Locks-inside s (r.0) (looking waits a) (r.1) refl (λ _.
        bind-value s (is_full s.base) (λ full. (s, after_look full waits a)) (λ _. refl) r e
        ∙ h refl)
  write_move-Locks s (storing a) h r e = Locks-inside s (r.0) (storing a) (r.1) refl (λ _.
      bind-value s (store_at s.base s.base.write_position a)
        (λ b. (record s { base = b }, publishing a)) (λ _. refl) r e
      ∙ h refl)
  write_move-Locks s (publishing a) h r e = Locks-inside s (r.0) (publishing a) (r.1) refl (λ _.
      bind-value s (publish_write s.base) (λ b. (record s { base = b }, releasing true)) (λ _. refl)
        r e
      ∙ h refl)
  write_move-Locks s (releasing result) h r e = rw (sym (ok_injective e)) (
      Locks-inside s (release s) (releasing result) idle refl
        (λ e'. absurd (true-ne-false (sym e'))))
