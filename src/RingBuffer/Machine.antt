-- ===== src/RingBuffer/Machine.antt =====
-- utils/ring_buffer.h: `RingBufferSRMW` between threads, with arch/spinlock.h for its mutex. Every
-- move is one access to memory that another thread may touch. A wait on a futex is a move that
-- leaves the thread where it is, so that it may sleep, wake or find the value changed at any time.
use jml_base.Common.{ℕ, ◌==◌, ◌≡◌, if◌then◌else◌, Bool, true, false, List, [], ◌∷◌, ◌++◌}
use jml_base.Common.Result.{Result, ok, ◌>>=◌}
use jml_base.RingBuffer.{
  RingBufferBase, Fault, init, load_at, store_at, publish_read, publish_write, is_full, is_empty,
}

-- Where a thread is in `push` (`waits`) or `tryPush`, and the request it brings.
pub data WriterAt {ℓ} (A : Type ℓ) : Type ℓ where
  idle : WriterAt A
  acquiring : (waits : Bool) → A → WriterAt A  -- the loop of `Spinlock::acquire`
  looking : (waits : Bool) → A → WriterAt A  -- before it reads `readPosition`
  storing : A → WriterAt A  -- before `ring[writePosition] = request`
  publishing : A → WriterAt A  -- before it assigns `writePosition`
  releasing : (result : Bool) → WriterAt A  -- before `Spinlock::release`

-- `pop` waits forever, `tryPop(result)` never, `tryPop(result, maxWaitTime)` until its time is out.
pub data Patience : Type 0 where
  forever never timed : Patience

pub data ReaderAt {ℓ} (A : Type ℓ) : Type ℓ where
  resting : ReaderAt A
  seeking : Patience → ReaderAt A  -- before it reads `writePosition`
  taking : ReaderAt A  -- before `result = ring[readPosition]`
  clearing : A → ReaderAt A  -- before `ring[readPosition] = Request()`
  freeing : A → ReaderAt A  -- before it assigns `readPosition`

-- The ring and the spinlock's `value`.
pub record Shared {ℓ} (A : Type ℓ) : Type ℓ where
  pub base : RingBufferBase A
  pub value : ℕ

module _ {ℓ} {A : Type ℓ} where
  -- `__sync_bool_compare_and_swap(&value, 0, 1)`, and `__sync_lock_release(&value)`.
  unfoldable pub try_acquire : Shared A → Bool × Shared A
  try_acquire s = if s.value == 0 then (true, record s { value = 1 }) else (false, s)

  unfoldable pub release : Shared A → Shared A
  release s = record s { value = 0 }

  abbrev pub acquired : Bool → A → Bool × Shared A → Shared A × WriterAt A
  acquired waits a (true, s) = (s, looking waits a)
  acquired waits a (false, s) = (s, acquiring waits a)

  abbrev pub after_look : Bool → Bool → A → WriterAt A
  after_look true true a = looking true a
  after_look true false a = releasing false
  after_look false waits a = storing a

  unfoldable pub write_move : Shared A → WriterAt A → Result Fault (Shared A × WriterAt A)
  write_move s idle = ok (s, idle)
  write_move s (acquiring waits a) = ok (acquired waits a (try_acquire s))
  write_move s (looking waits a) = do full ← is_full s.base; ok (s, after_look full waits a)
  write_move s (storing a) = do
    base ← store_at s.base s.base.write_position a
    ok (record s { base = base }, publishing a)
  write_move s (publishing a) = do
    base ← publish_write s.base
    ok (record s { base = base }, releasing true)
  write_move s (releasing result) = ok (release s, idle)

  abbrev pub sought : Bool → Patience → ReaderAt A
  sought true forever = seeking forever
  sought true never = resting
  sought true timed = seeking timed
  sought false p = taking

  unfoldable pub read_move : A → Shared A → ReaderAt A → Result Fault (Shared A × ReaderAt A)
  read_move blank s resting = ok (s, resting)
  read_move blank s (seeking p) = ok (s, sought (is_empty s.base) p)
  read_move blank s taking = do a ← load_at s.base s.base.read_position; ok (s, clearing a)
  read_move blank s (clearing a) = do
    base ← store_at s.base s.base.read_position blank
    ok (record s { base = base }, freeing a)
  read_move blank s (freeing a) = do
    base ← publish_read s.base
    ok (record s { base = base }, resting)

  -- What the next move of a thread adds to the requests pushed, or to those popped.
  unfoldable pub pushes : WriterAt A → List A
  pushes (publishing a) = a ∷ []
  pushes _ = []

  unfoldable pub pops : ReaderAt A → List A
  pops (freeing a) = a ∷ []
  pops _ = []

abbrev pub update {ℓ} : {A : Type ℓ} → (ℕ → A) → ℕ → A → ℕ → A
update f i a j = if i == j then a else f j

pub record State {ℓ} (A : Type ℓ) : Type ℓ where
  pub shared : Shared A
  pub writer : ℕ → WriterAt A
  pub reader : ReaderAt A

module _ {ℓ} {A : Type ℓ} (blank : A) where
  unfoldable pub start_state : ℕ → State A
  start_state size = record {
    shared = record { base = init blank size; value = 0 };
    writer = λ _. idle;
    reader = resting;
  }

  -- One step, with the requests it pushes and pops.
  pub data Step (s : State A) : List A → List A → State A → Type ℓ where
    writer_calls :
        (i : ℕ) (waits : Bool) (a : A)
        → s.writer i ≡ idle
        → Step s [] [] (record s { writer = update s.writer i (acquiring waits a) })
    writer_moves :
        (i : ℕ) (r : Shared A × WriterAt A)
        → write_move s.shared (s.writer i) ≡ ok r
        → Step s
            (pushes (s.writer i))
            []
            (record s { shared = r.0; writer = update s.writer i (r.1) })
    reader_calls :
        (p : Patience) → s.reader ≡ resting → Step s [] [] (record s { reader = seeking p })
    reader_gives_up : s.reader ≡ seeking timed → Step s [] [] (record s { reader = resting })
    reader_moves :
        (r : Shared A × ReaderAt A)
        → read_move blank s.shared s.reader ≡ ok r
        → Step s [] (pops s.reader) (record s { shared = r.0; reader = r.1 })

  -- The states a ring of `size` cells reaches, with all that was pushed and popped on the way.
  pub data Reach (size : ℕ) : State A → List A → List A → Type ℓ where
    start : Reach size (start_state size) [] []
    later :
        {s t : State A} {ps qs ps' qs' : List A}
        → Reach size s ps qs
        → Step s ps' qs' t
        → Reach size t (ps ++ ps') (qs ++ qs')
