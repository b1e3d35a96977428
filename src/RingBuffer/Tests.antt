-- ===== src/RingBuffer/Tests.antt =====
-- utils/ring_buffer.h: concrete runs.
use jml_base.Common.{ℕ, ◌<◌, ◌≡◌, ◌≢◌, refl, true, false, List, [], ◌∷◌, ◌++◌, length}
use jml_base.Common.Result.{err}
use jml_base.Common.{arith}
use jml_base.RingBuffer.{Fault, init, next, is_full, store_at, publish_write}
use jml_base.RingBuffer.Machine.{
  State, resting, forever, write_move, read_move, pushes, pops, try_acquire, release, start_state,
  Reach, start, later, writer_calls, writer_moves, reader_calls, reader_moves,
}
use jml_base.RingBuffer.Locks.{is_inside}
use jml_base.RingBuffer.Safety.{
  is_holding, Reach-fifo, Reach-no_fault, Reach-exclusion, Reach-apart,
}
use jml_base.RingBuffer.Progress.{ReaderRun, Reach-pop}
use jml_base.RingBuffer.Queue.{
  Call, pushing, offering, popping, polling, polling_moved, asking, draining, run, run_list,
  init-run-eq-run_list,
}

-- Writer 3 has pushed 7 and writer 5 is about to look, in a ring of three cells.
abbrev pushed_one : (s : State ℕ) × (Reach 0 3 s (7 ∷ []) [])
unfolding write_move pushes start_state try_acquire release next is_full store_at publish_write init
pushed_one = (
  _,
  later
      (later
        (later
          (later
            (later
              (later (later (later start (writer_calls 3 true 7 refl)) (writer_moves 3 _ refl))
                (writer_moves 3 _ refl))
              (writer_moves 3 _ refl))
            (writer_moves 3 _ refl))
          (writer_moves 3 _ refl))
        (writer_calls 5 false 8 refl))
      (writer_moves 5 _ refl),
)

-- Then the reader calls `pop`, and sees that the ring is not empty.
abbrev popping_one : (s : State ℕ) × (Reach 0 3 s (7 ∷ []) [])
unfolding pushed_one write_move read_move pushes pops start_state try_acquire release next is_full
    store_at publish_write init
popping_one = (_, later (pushed_one.1) (reader_calls forever refl))

abbrev taking_one : (s : State ℕ) × (Reach 0 3 s (7 ∷ []) [])
unfolding popping_one pushed_one write_move read_move pushes pops start_state try_acquire release
    next is_full store_at publish_write init
taking_one = (_, later (popping_one.1) (reader_moves _ refl))

Reach-fifo_example : (q : List ℕ) × (7 ∷ [] ≡ [] ++ q) × (length q < 3)
Reach-fifo_example = Reach-fifo 0 3 (omega arith) (pushed_one.1)

Reach-no_fault_example :
    ((i : ℕ) (f : Fault) → write_move (taking_one.0).shared ((taking_one.0).writer i) ≢ err f)
    × ((f : Fault) → read_move 0 (taking_one.0).shared (taking_one.0).reader ≢ err f)
Reach-no_fault_example = Reach-no_fault 0 3 (omega arith) (taking_one.1)

Reach-exclusion_example : ◌≡◌ {A = ℕ} 5 5
unfolding pushed_one is_inside write_move start_state try_acquire release next is_full store_at
    publish_write init
Reach-exclusion_example = Reach-exclusion 0 3 (omega arith) (pushed_one.1) 5 5 refl refl

Reach-apart_example :
    (taking_one.0).shared.base.write_position ≢ (taking_one.0).shared.base.read_position
unfolding taking_one popping_one pushed_one is_holding read_move write_move start_state try_acquire
    release next is_full store_at publish_write init
Reach-apart_example = Reach-apart 0 3 (omega arith) (taking_one.1) refl

Reach-pop_example :
    (t : State ℕ) × ReaderRun 0 (popping_one.0) (7 ∷ []) t
    × (t.reader ≡ resting)
    × (t.writer ≡ (popping_one.0).writer)
    × Reach 0 3 t (7 ∷ []) (7 ∷ [])
unfolding popping_one
Reach-pop_example = Reach-pop 0 3 (omega arith) (popping_one.1) forever refl 7 [] refl

-- Two requests fill a ring of three cells.
abbrev calls : List (Call ℕ)
calls =
    pushing 4
    ∷ offering 5
    ∷ offering 6
    ∷ asking
    ∷ popping
    ∷ polling
    ∷ polling_moved
    ∷ draining
    ∷ popping
    ∷ []

init-run-eq-run_list_example : run 0 (λ a. a) calls (init 0 3) ≡ run_list 3 calls []
init-run-eq-run_list_example = init-run-eq-run_list 0 (λ a. a) 3 (omega arith) calls
