-- ===== src/RingBuffer/Queue.antt =====
-- utils/ring_buffer.h: a ring that one thread calls is a queue of at most `bufferSize - 1` requests.
use jml_base.Common.{
  ℕ, ◌+◌, ◌<◌, ◌==◌, ◌≡◌, inl, inr, refl, sym, ap, arith, Bool, true, false, if◌then◌else◌,
  Bool-cases, Option, none, some, List, [], ◌∷◌, ◌++◌, length, set, get_elem?-set_self,
}
use jml_base.Common.Result.{Result, ok, err, ◌>>=◌}
use jml_base.Circular.{offset_of}
use jml_base.RingBuffer.{
  RingBufferBase, Fault, would_wait, init, is_full, is_empty, put, get, push, pop, try_push,
  try_pop, could_pop, wait_until_empty,
}
use jml_base.RingBuffer.Window.{
  Window, Window-init, Window-is_empty, Window-is_full, Window-write_lt, Window-store_at,
  Window-publish_write, Window-snoc, Window-load_at, Window-read_lt, Window-clear,
  Window-publish_read, Window-tail,
}
use jml_base.RingBuffer.Moves.{suc-ne, store_at-ok, store_at-write, room-test}

pub data Call {ℓ} (A : Type ℓ) : Type ℓ where
  pushing offering : A → Call A  -- `push`, `tryPush`
  popping polling polling_moved asking draining : Call A
  -- `pop`, `tryPop` of RingBufferSRMW, `tryPop` of RingBufferSWMR, `couldPop`, `waitUntilEmpty`

pub data Answer {ℓ} (A : Type ℓ) : Type ℓ where
  done : Answer A
  flag : Bool → Answer A
  request : A → Answer A
  perhaps : Option A → Answer A

-- A call's answer, before those of the calls after it.
abbrev run_next {ℓ κ} :
    {A : Type ℓ} {S : Type κ}
    → (S → Result Fault (List (Answer A)))
    → Answer A × S
    → Result Fault (List (Answer A))
run_next rest (answer, s) = do answers ← rest s; ok (answer ∷ answers)

module _ {ℓ} {A : Type ℓ} (blank : A) (moved : A → A) where
  unfoldable pub call : Call A → RingBufferBase A → Result Fault (Answer A × RingBufferBase A)
  call (pushing a) b = do b' ← push b a; ok (done, b')
  call (offering a) b = do (taken, b') ← try_push b a; ok (flag taken, b')
  call popping b = do (a, b') ← pop blank b; ok (request a, b')
  call polling b = do (o, b') ← try_pop (λ _. blank) b; ok (perhaps o, b')
  call polling_moved b = do (o, b') ← try_pop moved b; ok (perhaps o, b')
  call asking b = ok (flag (could_pop b), b)
  call draining b = do _ ← wait_until_empty b; ok (done, b)

  -- The answers of a run of calls, up to the first that only another thread can let go on.
  unfoldable pub run : List (Call A) → RingBufferBase A → Result Fault (List (Answer A))
  run [] b = ok []
  run (c ∷ cs) b = do r ← call c b; run_next (run cs) r

module _ {ℓ} {A : Type ℓ} (size : ℕ) where
  -- The same calls on a list that stays shorter than `size`.
  unfoldable pub add_bounded : A → List A → Result Fault (List A)
  add_bounded a q = if size == length q + 1 then err would_wait else ok (q ++ a ∷ [])

  unfoldable pub poll_list : List A → Option A × List A
  poll_list [] = (none, [])
  poll_list (x ∷ q) = (some x, q)

  unfoldable pub call_list : Call A → List A → Result Fault (Answer A × List A)
  call_list (pushing a) q = do q' ← add_bounded a q; ok (done, q')
  call_list (offering a) q =
      if size == length q + 1 then ok (flag false, q) else ok (flag true, q ++ a ∷ [])
  call_list popping [] = err would_wait
  call_list popping (x ∷ q) = ok (request x, q)
  call_list polling q = ok (perhaps ((poll_list q).0), (poll_list q).1)
  call_list polling_moved q = ok (perhaps ((poll_list q).0), (poll_list q).1)
  call_list asking [] = ok (flag false, [])
  call_list asking (x ∷ q) = ok (flag true, x ∷ q)
  call_list draining [] = ok (done, [])
  call_list draining (x ∷ q) = err would_wait

  unfoldable pub run_list : List (Call A) → List A → Result Fault (List (Answer A))
  run_list [] q = ok []
  run_list (c ∷ cs) q = do r ← call_list c q; run_next (run_list cs) r

module _ {ℓ} {A : Type ℓ} where
  pub record Queues (b : RingBufferBase A) (size : ℕ) (q : List A) : Type ℓ where
    pub window : Window b 0 q
    pub sized : b.buffer_size ≡ size

  -- Both give the same answer and again hold the same requests, or both would wait.
  pub data Answers (size : ℕ)
      : Result Fault (Answer A × RingBufferBase A) → Result Fault (Answer A × List A) → Type ℓ where
    answering :
        {a : Answer A} {b : RingBufferBase A} {q : List A}
        → Queues b size q
        → Answers size (ok (a, b)) (ok (a, q))
    waiting : Answers size (err would_wait) (err would_wait)

  put-Queues :
      (b : RingBufferBase A) (size : ℕ) (q : List A) (a : A)
      → Queues b size q
      → length q + 1 < size
      → (b' : RingBufferBase A) × (put b a ≡ ok b') × Queues b' size (q ++ a ∷ [])
  unfolding put
  put-Queues b size q a h room =
      let c = record b { ring = set b.ring b.write_position a } in
      let w = Window-store_at b 0 q h.window a in
      let stored = get_elem?-set_self b.ring b.write_position a (Window-write_lt b 0 q h.window) in
      (
        record c { write_position = offset_of b.buffer_size b.read_position (length q + 1) },
        rw (store_at-write b 0 q a h.window) (Window-publish_write c 0 q w),
        record {
          window = Window-snoc c 0 q w a stored (omega (arith, room, h.sized));
          sized = h.sized;
        },
      )

  get-Queues :
      (left : A → A) (b : RingBufferBase A) (size : ℕ) (x : A) (q : List A)
      → Queues b size (x ∷ q)
      → (b' : RingBufferBase A) × (get left b ≡ ok (x, b')) × Queues b' size q
  unfolding get
  get-Queues left b size x q h =
      let c = record b { ring = set b.ring b.read_position (left x) } in
      let w = Window-clear b x q (left x) h.window in
      let store = store_at-ok b b.read_position (left x) (Window-read_lt b x q 0 h.window) in
      (
        record c { read_position = offset_of b.buffer_size b.read_position 1 },
        rw (Window-load_at b x q h.window, store, Window-publish_read c x q 1 w) refl,
        record { window = Window-tail c x q 1 (omega arith) w; sized = h.sized },
      )

  full-eq :
      (b : RingBufferBase A) (size : ℕ) (q : List A)
      → Queues b size q
      → is_full b ≡ ok (size == length q + 1)
  full-eq b size q h = rw (sym h.sized) (Window-is_full b 0 q h.window)

  room-Queues :
      (b : RingBufferBase A) (size : ℕ) (q : List A)
      → Queues b size q
      → (size == length q + 1) ≡ false
      → length q + 1 < size
  room-Queues b size q h e = room-test size (length q) (omega (arith, h.window.fits, h.sized)) e

  empty-eq :
      (b : RingBufferBase A) (size : ℕ) (q : List A)
      → Queues b size q
      → is_empty b ≡ (length q == 0)
  empty-eq b size q h = Window-is_empty b 0 q h.window

  module _ (blank : A) (moved : A → A) (size : ℕ) where
    pushing-Answers :
        (a : A) (b : RingBufferBase A) (q : List A)
        → Queues b size q
        → Answers size (call blank moved (pushing a) b) (call_list size (pushing a) q)
    unfolding call call_list push add_bounded
    pushing-Answers a b q h = elim (Bool-cases (size == length q + 1)) [
      | inl e ↦ rw (full-eq b size q h, e) waiting
      | inr e ↦
          let (b', made, h') = put-Queues b size q a h (room-Queues b size q h e) in
          rw (full-eq b size q h, e, made) (answering h')
    ]

    offering-Answers :
        (a : A) (b : RingBufferBase A) (q : List A)
        → Queues b size q
        → Answers size (call blank moved (offering a) b) (call_list size (offering a) q)
    unfolding call call_list try_push
    offering-Answers a b q h = elim (Bool-cases (size == length q + 1)) [
      | inl e ↦ rw (full-eq b size q h, e) (answering h)
      | inr e ↦
          let (b', made, h') = put-Queues b size q a h (room-Queues b size q h e) in
          rw (full-eq b size q h, e, made) (answering h')
    ]

    try_pop-Queues :
        (left : A → A) (b : RingBufferBase A) (q : List A)
        → Queues b size q
        → (b' : RingBufferBase A) × (try_pop left b ≡ ok ((poll_list size q).0, b'))
          × Queues b' size ((poll_list size q).1)
    unfolding try_pop poll_list
    try_pop-Queues left b [] h = (b, rw (empty-eq b size [] h) refl, h)
    try_pop-Queues left b (x ∷ q) h =
        let (b', made, h') = get-Queues left b size x q h in
        (b', rw (empty-eq b size (x ∷ q) h, suc-ne (length q), made) refl, h')

    call-Answers :
        (c : Call A) (b : RingBufferBase A) (q : List A)
        → Queues b size q
        → Answers size (call blank moved c b) (call_list size c q)
    unfolding call call_list pop could_pop wait_until_empty
    call-Answers (pushing a) b q h = pushing-Answers a b q h
    call-Answers (offering a) b q h = offering-Answers a b q h
    call-Answers popping b [] h = rw (empty-eq b size [] h) waiting
    call-Answers popping b (x ∷ q) h =
        let (b', made, h') = get-Queues (λ _. blank) b size x q h in
        rw (empty-eq b size (x ∷ q) h, suc-ne (length q), made) (answering h')
    call-Answers polling b q h =
        let (b', made, h') = try_pop-Queues (λ _. blank) b q h in rw made (answering h')
    call-Answers polling_moved b q h =
        let (b', made, h') = try_pop-Queues moved b q h in rw made (answering h')
    call-Answers asking b [] h = rw (empty-eq b size [] h) (answering h)
    call-Answers asking b (x ∷ q) h =
        rw (empty-eq b size (x ∷ q) h, suc-ne (length q)) (answering h)
    call-Answers draining b [] h = rw (empty-eq b size [] h) (answering h)
    call-Answers draining b (x ∷ q) h = rw (empty-eq b size (x ∷ q) h, suc-ne (length q)) waiting

    run_next-eq :
        (cs : List (Call A)) (m : Result Fault (Answer A × RingBufferBase A))
        (n : Result Fault (Answer A × List A))
        → ((b : RingBufferBase A) (q : List A)
            → Queues b size q
            → run blank moved cs b ≡ run_list size cs q)
        → Answers size m n
        → (m >>= run_next (run blank moved cs)) ≡ (n >>= run_next (run_list size cs))
    run_next-eq cs m n rest (answering {a = a} {b} {q} h) =
        ap (λ r. r >>= λ answers. ok (a ∷ answers)) (rest b q h)
    run_next-eq cs m n rest waiting = refl

    run-eq :
        (cs : List (Call A)) (b : RingBufferBase A) (q : List A)
        → Queues b size q
        → run blank moved cs b ≡ run_list size cs q
    unfolding run run_list
    run-eq [] b q h = refl
    run-eq (c ∷ cs) b q h =
        run_next-eq cs (call blank moved c b) (call_list size c q) (run-eq cs)
          (call-Answers c b q h)

    -- Any calls of `push`, `tryPush`, `pop`, both classes' `tryPop`, `couldPop` and `waitUntilEmpty`
    -- on a new ring of `size` cells, more than none, give the answers that the same calls give on a
    -- list that takes fewer than `size` requests, first in, first out, up to the first call that waits.
    pub init-run-eq-run_list :
        0 < size → (cs : List (Call A)) → run blank moved cs (init blank size) ≡ run_list size cs []
    unfolding init
    init-run-eq-run_list more cs =
        run-eq cs (init blank size) []
          (record { window = Window-init blank size more; sized = refl })
