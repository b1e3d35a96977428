-- ===== src/RingBuffer/Moves.antt =====
-- utils/ring_buffer.h, `RingBufferSRMW`: what one move of a writer that has the lock, and one move
-- of the reader, do to the requests that wait.
use mathlib.Core.List.{append-nil}
use jml_base.Common.{
  ℕ, suc, ◌+◌, ◌≤◌, ◌<◌, ◌==◌, ◌≡◌, ◌≢◌, inl, inr, refl, sym, ◌∙◌, arith, Bool, true, false,
  Bool-cases, List, [], ◌∷◌, ◌++◌, some, length, get_elem?, set, drop, get_elem?-set_self,
  get_elem?-set_ne, lt→ltb,
}
use jml_base.Common.Result.{Result, ok, err, ok_injective}
use jml_base.RingBuffer.{RingBufferBase, store_at, is_empty}
use jml_base.RingBuffer.Machine.{
  Shared, Patience, forever, never, timed, WriterAt, ReaderAt, idle, acquiring, looking, storing,
  publishing, releasing, resting, seeking, taking, clearing, freeing, write_move, read_move, pushes,
  pops, after_look, sought, try_acquire, release,
}
use jml_base.RingBuffer.Window.{
  Window, Window-is_empty, Window-is_full, Window-write_lt, Window-store_at, Window-publish_write,
  Window-snoc, Window-load_at, Window-read_lt, Window-read-ne, Window-clear, Window-publish_read,
  Window-tail,
}

-- The result is no fault, and `P` holds of it.
pub data After {ℓ κ} {E : Type 0} {R : Type ℓ} (P : R → Type κ) : Result E R → Type (ℓ ⊔ κ) where
  after : {r : R} → P r → After P (ok r)

pub suc-ne : (n : ℕ) → (suc n == 0) ≡ false
suc-ne n = ground arith

pub room-test : (m n : ℕ) → n < m → (m == n + 1) ≡ false → n + 1 < m
room-test m n h e = ground arith

not-empty : (n : ℕ) → (n == 0) ≡ false → 0 < n
not-empty n e = ground arith

pub After-ok {ℓ κ} :
    {E : Type 0} {R : Type ℓ} {P : R → Type κ} {m : Result E R} {r : R} → After P m → m ≡ ok r → P r
After-ok (after p) e = rw (sym (ok_injective e)) p

pub After-no_fault {ℓ κ} :
    {E : Type 0} {R : Type ℓ} {P : R → Type κ} {m : Result E R} (f : E) → After P m → m ≢ err f
After-no_fault f (after p) e = cc

module _ {ℓ} {A : Type ℓ} where
  pub store_at-ok :
      (b : RingBufferBase A) (i : ℕ) (a : A)
      → i < length b.ring
      → store_at b i a ≡ ok (record b { ring = set b.ring i a })
  unfolding store_at
  store_at-ok b i a h = rw (lt→ltb i (length b.ring) h) refl

  -- What a writer knows of the ring where it stands.
  unfoldable pub WriterFact : RingBufferBase A → List A → WriterAt A → Type ℓ
  WriterFact b q (storing a) = (length q + 1 < b.buffer_size) × Unit {ℓ}
  WriterFact b q (publishing a) =
      (length q + 1 < b.buffer_size) × (get_elem? b.ring b.write_position ≡ some a)
  WriterFact b q _ = Unit {ℓ}

  -- The request is the first of those that wait.
  pub data StartsWith (a : A) : List A → Type ℓ where
    starts : (q : List A) → StartsWith a (a ∷ q)

  unfoldable pub ReaderFact : List A → ReaderAt A → Type ℓ
  ReaderFact q taking = (0 < length q) × Unit {ℓ}
  ReaderFact q (clearing a) = StartsWith a q
  ReaderFact q (freeing a) = StartsWith a q
  ReaderFact q _ = Unit {ℓ}

  -- How many of the first cells the reader has given up.
  unfoldable pub cleared : ReaderAt A → ℕ
  cleared (freeing a) = 1
  cleared _ = 0

  pub record Wrote (b : RingBufferBase A) (lo : ℕ) (q : List A) (pc : WriterAt A)
      (r : Shared A × WriterAt A) : Type ℓ where
    pub size : (r.0).base.buffer_size ≡ b.buffer_size
    pub window : Window (r.0).base lo (q ++ pushes pc)
    pub fact : WriterFact (r.0).base (q ++ pushes pc) (r.1)

  Wrote-still :
      (b : RingBufferBase A) (lo : ℕ) (q : List A) (pc : WriterAt A) (r : Shared A × WriterAt A)
      → pushes pc ≡ []
      → (r.0).base.buffer_size ≡ b.buffer_size
      → Window (r.0).base lo q
      → WriterFact (r.0).base q (r.1)
      → Wrote b lo q pc r
  Wrote-still b lo q pc r e n w f = record {
    size = n;
    window = rw (e, append-nil q) w;
    fact = rw (e, append-nil q) f;
  }

  WriterFact-after_look :
      (b : RingBufferBase A) (q : List A) (full waits : Bool) (a : A)
      → (full ≡ false → length q + 1 < b.buffer_size)
      → WriterFact b q (after_look full waits a)
  unfolding WriterFact
  WriterFact-after_look b q true true a h = tt
  WriterFact-after_look b q true false a h = tt
  WriterFact-after_look b q false waits a h = (h refl, tt)

  pub store_at-write :
      (b : RingBufferBase A) (lo : ℕ) (q : List A) (a : A)
      → Window b lo q
      → store_at b b.write_position a ≡ ok (record b { ring = set b.ring b.write_position a })
  store_at-write b lo q a w = store_at-ok b b.write_position a (Window-write_lt b lo q w)

  pub write_move-Wrote :
      (s : Shared A) (pc : WriterAt A) (lo : ℕ) (q : List A)
      → Window s.base lo q
      → WriterFact s.base q pc
      → After (Wrote s.base lo q pc) (write_move s pc)
  unfolding write_move pushes WriterFact try_acquire release
  write_move-Wrote s idle lo q w f = after (Wrote-still s.base lo q _ _ refl refl w tt)
  write_move-Wrote s (acquiring waits a) lo q w f = after (elim (Bool-cases (s.value == 0)) [
    | inl e ↦ rw e (
        Wrote-still s.base lo q (acquiring waits a) (record s { value = 1 }, looking waits a) refl
          refl w tt)
    | inr e ↦
        rw e (Wrote-still s.base lo q (acquiring waits a) (s, acquiring waits a) refl refl w tt)
  ])
  write_move-Wrote s (looking waits a) lo q w f =
      let full = s.base.buffer_size == length q + 1 in
      rw (Window-is_full s.base lo q w) (
        after (
          Wrote-still s.base lo q (looking waits a) (s, after_look full waits a) refl refl w
            (WriterFact-after_look s.base q full waits a
              (room-test s.base.buffer_size (length q) w.fits))))
  write_move-Wrote s (storing a) lo q w f = rw (store_at-write s.base lo q a w) (
      after (
        Wrote-still s.base lo q (storing a) _ refl refl (Window-store_at s.base lo q w a) (
          f.0,
          get_elem?-set_self s.base.ring s.base.write_position a (Window-write_lt s.base lo q w),
        )))
  write_move-Wrote s (publishing a) lo q w f =
      rw (Window-publish_write s.base lo q w) (
        after (record { size = refl; window = Window-snoc s.base lo q w a (f.1) (f.0); fact = tt }))
  write_move-Wrote s (releasing result) lo q w f =
      after (Wrote-still s.base lo q _ _ refl refl w tt)

  -- What a reader's move does: it pops from the front of the requests that wait, and no writer's
  -- knowledge is spoiled.
  pub record Took (s : Shared A) (q : List A) (pc : ReaderAt A) (r : Shared A × ReaderAt A)
      : Type ℓ where
    pub window : Window (r.0).base (cleared (r.1)) (drop (length (pops pc)) q)
    pub fact : ReaderFact (drop (length (pops pc)) q) (r.1)
    pub popped_first : pops pc ++ drop (length (pops pc)) q ≡ q
    pub others :
        (wr : WriterAt A)
        → WriterFact s.base q wr
        → WriterFact (r.0).base (drop (length (pops pc)) q) wr
    pub value : (r.0).value ≡ s.value
    pub size : (r.0).base.buffer_size ≡ s.base.buffer_size

  -- The ring keeps its size and the cell at `writePosition`, and no more requests wait.
  WriterFact-moved :
      (b c : RingBufferBase A) (q q' : List A)
      → c.buffer_size ≡ b.buffer_size
      → get_elem? c.ring c.write_position ≡ get_elem? b.ring b.write_position
      → length q' ≤ length q
      → (wr : WriterAt A) → WriterFact b q wr
      → WriterFact c q' wr
  unfolding WriterFact
  WriterFact-moved b c q q' size cell fewer (storing a) f = (rw size (omega (arith, f.0)), tt)
  WriterFact-moved b c q q' size cell fewer (publishing a) f =
      (rw size (omega (arith, f.0)), cell ∙ f.1)
  WriterFact-moved b c q q' size cell fewer idle f = tt
  WriterFact-moved b c q q' size cell fewer (acquiring waits a) f = tt
  WriterFact-moved b c q q' size cell fewer (looking waits a) f = tt
  WriterFact-moved b c q q' size cell fewer (releasing result) f = tt

  ReaderFact-sought :
      (q : List A) (empty : Bool) (p : Patience)
      → (empty ≡ false → 0 < length q)
      → ReaderFact q (sought empty p) × (cleared (sought empty p) ≡ 0)
  unfolding ReaderFact cleared
  ReaderFact-sought q true forever h = (tt, refl)
  ReaderFact-sought q true never h = (tt, refl)
  ReaderFact-sought q true timed h = (tt, refl)
  ReaderFact-sought q false p h = ((h refl, tt), refl)

  -- A move that frees no cell.
  Took-still :
      (s : Shared A) (q : List A) (pc pc' : ReaderAt A) (t : Shared A)
      → pops pc ≡ []
      → t.value ≡ s.value
      → t.base.buffer_size ≡ s.base.buffer_size
      → Window t.base (cleared pc') q
      → ReaderFact q pc'
      → ((wr : WriterAt A) → WriterFact s.base q wr → WriterFact t.base q wr)
      → Took s q pc (t, pc')
  Took-still s q pc pc' t e v n w f o = record {
    window = rw e w;
    fact = rw e f;
    popped_first = rw e refl;
    others = rw e o;
    value = v;
    size = n;
  }

  pub read_move-Took :
      (blank : A) (s : Shared A) (pc : ReaderAt A) (q : List A)
      → Window s.base (cleared pc) q
      → ReaderFact q pc
      → After (Took s q pc) (read_move blank s pc)
  unfolding read_move pops ReaderFact cleared
  read_move-Took blank s resting q w f =
      after (Took-still s q resting resting s refl refl refl w tt (λ wr h. h))
  read_move-Took blank s (seeking p) q w f =
      let known =
        ReaderFact-sought q (is_empty s.base) p
          (λ e. not-empty (length q) (sym (Window-is_empty s.base 0 q w) ∙ e)) in
      after (
        Took-still s q (seeking p) (sought (is_empty s.base) p) s refl refl refl (rw (known.1) w)
          (known.0) (λ wr h. h))
  read_move-Took blank s taking [] w f = absurd (omega (arith, f.0))
  read_move-Took blank s taking (x ∷ q) w f =
      rw (Window-load_at s.base x q w)
        (after (Took-still s (x ∷ q) taking (clearing x) s refl refl refl w (starts q) (λ wr h. h)))
  read_move-Took blank s (clearing a) q w (starts rest) =
      rw (store_at-ok s.base s.base.read_position blank (Window-read_lt s.base a rest 0 w)) (
        after (
          Took-still s (a ∷ rest) (clearing a) (freeing a) _ refl refl refl
            (Window-clear s.base a rest blank w) (starts rest)
            (WriterFact-moved s.base _ (a ∷ rest) (a ∷ rest) refl
              (get_elem?-set_ne s.base.ring blank (Window-read-ne s.base a rest 0 w))
              (omega arith))))
  read_move-Took blank s (freeing a) q w (starts rest) =
      rw (Window-publish_read s.base a rest 1 w) (
        after (record {
          window = Window-tail s.base a rest 1 (omega arith) w;
          fact = tt;
          popped_first = refl;
          others = WriterFact-moved s.base _ (a ∷ rest) rest refl refl (omega arith);
          value = refl;
          size = refl;
        }))
