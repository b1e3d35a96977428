-- ===== src/RingBuffer.antt =====
-- utils/ring_buffer.h: rings of requests between threads. This file has the storage, its two
-- positions, and each call as it runs when no other thread does; Machine.antt has the calls of
-- `RingBufferSRMW` a shared access at a time. A position is an `int` below `bufferSize`, taken to be
-- below 2 ^ 31, so that no `int` overflows. `futex_wait` and `futex_wake` change nothing that is
-- read here.
pub mod Machine
pub mod Window
pub mod Queue
pub mod Moves
pub mod Locks
pub mod Invariant
pub mod Safety
pub mod Progress
mod Tests
use jml_base.Common.{
  ℕ, zero, ◌+◌, ◌%◌, ltb, ◌==◌, if◌then◌else◌, Bool, true, false, not, Option, none, some, List,
  length, get_elem?, set, replicate,
}
use jml_base.Common.Result.{Result, ok, err, ◌>>=◌, ◌>>◌, guard}

-- What C++ leaves undefined: a remainder by a `bufferSize` of 0, and an index outside the ring.
-- `would_wait` is a call that only another thread can let go on.
pub data Fault : Type 0 where
  divides_by_zero bad_access would_wait : Fault

pub record RingBufferBase {ℓ} (A : Type ℓ) : Type ℓ where
  pub ring : List A
  pub buffer_size : ℕ
  pub read_position : ℕ
  pub write_position : ℕ

-- `(position + 1) % bufferSize`.
unfoldable pub next : ℕ → ℕ → Result Fault ℕ
next size position = guard (not (size == 0)) divides_by_zero >> ok ((position + 1) % size)

module _ {ℓ} {A : Type ℓ} where
  abbrev pub cell : Option A → Result Fault A
  cell (some a) = ok a
  cell none = err bad_access

  -- `ring[i]`, read and assigned.
  unfoldable pub load_at : RingBufferBase A → ℕ → Result Fault A
  load_at b i = cell (get_elem? b.ring i)

  unfoldable pub store_at : RingBufferBase A → ℕ → A → Result Fault (RingBufferBase A)
  store_at b i a =
      guard (ltb i (length b.ring)) bad_access >> ok (record b { ring = set b.ring i a })

  -- `blank` is `Request()`.
  unfoldable pub init : A → ℕ → RingBufferBase A
  init blank size = record {
    ring = replicate size blank;
    buffer_size = size;
    read_position = 0;
    write_position = 0;
  }

  -- `writePosition = (writePosition + 1) % bufferSize`, and the same of `readPosition`.
  unfoldable pub publish_write : RingBufferBase A → Result Fault (RingBufferBase A)
  publish_write b = do
    position ← next b.buffer_size b.write_position
    ok (record b { write_position = position })

  unfoldable pub publish_read : RingBufferBase A → Result Fault (RingBufferBase A)
  publish_read b = do
    position ← next b.buffer_size b.read_position
    ok (record b { read_position = position })

  -- `readPosition == fullReadPosition`.
  unfoldable pub is_full : RingBufferBase A → Result Fault Bool
  is_full b = do
    full_read_position ← next b.buffer_size b.write_position
    ok (b.read_position == full_read_position)

  abbrev pub is_empty : RingBufferBase A → Bool
  is_empty b = b.write_position == b.read_position

  -- The lines of a push after its test, where the ring has a place.
  unfoldable pub put : RingBufferBase A → A → Result Fault (RingBufferBase A)
  put b request = do b' ← store_at b b.write_position request; publish_write b'

  -- The lines of a pop after its test: `left` is what the cell holds after them, `Request()` or,
  -- after a move, what the request's move leaves.
  unfoldable pub get : (A → A) → RingBufferBase A → Result Fault (A × RingBufferBase A)
  get left b = do
    result ← load_at b b.read_position
    b1 ← store_at b b.read_position (left result)
    b2 ← publish_read b1
    ok (result, b2)

  -- `tryPush` of both classes: `request` is copied or swapped in.
  abbrev put_unless :
      Bool
      → RingBufferBase A
      → A
      → Result Fault (RingBufferBase A)
      → Result Fault (Bool × RingBufferBase A)
  put_unless true b request done = ok (false, b)
  put_unless false b request done = do b' ← done; ok (true, b')

  unfoldable pub try_push : RingBufferBase A → A → Result Fault (Bool × RingBufferBase A)
  try_push b request = do full ← is_full b; put_unless full b request (put b request)

  abbrev put_or_wait : Bool → Result Fault (RingBufferBase A) → Result Fault (RingBufferBase A)
  put_or_wait true done = err would_wait
  put_or_wait false done = done

  unfoldable pub push : RingBufferBase A → A → Result Fault (RingBufferBase A)
  push b request = do full ← is_full b; put_or_wait full (put b request)

  abbrev get_unless :
      Bool
      → RingBufferBase A
      → Result Fault (A × RingBufferBase A)
      → Result Fault (Option A × RingBufferBase A)
  get_unless true b done = ok (none, b)
  get_unless false b done = do (a, b') ← done; ok (some a, b')

  -- `tryPop(Request &)`, and the timed `tryPop` whose time runs out. `left` as for `get`.
  unfoldable pub try_pop : (A → A) → RingBufferBase A → Result Fault (Option A × RingBufferBase A)
  try_pop left b = get_unless (is_empty b) b (get left b)

  abbrev get_or_wait :
      Bool → Result Fault (A × RingBufferBase A) → Result Fault (A × RingBufferBase A)
  get_or_wait true done = err would_wait
  get_or_wait false done = done

  unfoldable pub pop : A → RingBufferBase A → Result Fault (A × RingBufferBase A)
  pop blank b = get_or_wait (is_empty b) (get (λ _. blank) b)

  unfoldable pub could_pop : RingBufferBase A → Bool
  could_pop b = not (is_empty b)

  -- `waitUntilEmpty` returns at once where the ring is empty.
  unfoldable pub wait_until_empty : RingBufferBase A → Result Fault (Unit {0})
  wait_until_empty b = guard (is_empty b) would_wait
