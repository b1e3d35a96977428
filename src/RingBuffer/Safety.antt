-- ===== src/RingBuffer/Safety.antt =====
-- utils/ring_buffer.h, `RingBufferSRMW`, with arch/spinlock.h: what holds in every state that any
-- number of writers and the reader reach, however they are interleaved.
use mathlib.Core.List.{append-nil, append_assoc}
use jml_base.Common.{
  ℕ, ◌<◌, ◌≡◌, ◌≢◌, refl, sym, ap, ◌∙◌, arith, Bool, true, false, List, [], ◌∷◌, ◌++◌, length,
}
use jml_base.Common.Result.{err}
use jml_base.RingBuffer.{RingBufferBase, Fault, init}
use jml_base.RingBuffer.Machine.{
  ReaderAt, resting, seeking, taking, clearing, freeing, write_move, read_move, pushes, State, Step,
  Reach, start, later, writer_calls, writer_moves, reader_calls, reader_gives_up, reader_moves,
  start_state,
}
use jml_base.RingBuffer.Invariant.{
  Safe, Safe-writer_calls, Safe-writer_moves, Safe-reader, Safe-reader_moves, writer_moves-size,
  reader_moves-size,
}
use jml_base.RingBuffer.Locks.{is_inside, true-ne-false}
use jml_base.RingBuffer.Window.{Window, Window-init, Window-read-ne}
use jml_base.RingBuffer.Moves.{
  After-no_fault, WriterFact, ReaderFact, starts, cleared, write_move-Wrote, read_move-Took,
}

module _ {ℓ} {A : Type ℓ} where
  unfoldable pub is_holding : ReaderAt A → Bool
  is_holding taking = true
  is_holding (clearing a) = true
  is_holding _ = false

  holding-ne :
      (b : RingBufferBase A) (pc : ReaderAt A) (q : List A)
      → Window b (cleared pc) q
      → ReaderFact q pc
      → is_holding pc ≡ true
      → b.write_position ≢ b.read_position
  unfolding is_holding ReaderFact cleared
  holding-ne b resting q w f e = absurd (true-ne-false (sym e))
  holding-ne b (seeking p) q w f e = absurd (true-ne-false (sym e))
  holding-ne b taking [] w f e = absurd (omega (arith, f.0))
  holding-ne b taking (x ∷ q) w f e = λ same. Window-read-ne b x q 0 w (sym same)
  holding-ne b (clearing a) q w (starts rest) e = λ same. Window-read-ne b a rest 0 w (sym same)
  holding-ne b (freeing a) q w f e = absurd (true-ne-false (sym e))

  Safe-start : (blank : A) (size : ℕ) → 0 < size → Safe (start_state blank size) []
  unfolding start_state WriterFact ReaderFact cleared is_inside
  Safe-start blank size more = record {
    window = Window-init blank size more;
    reading = tt;
    writing = λ _. tt;
    locked = λ i e. absurd (true-ne-false (sym e));
    alone = λ i j e. absurd (true-ne-false (sym e));
  }

  Safe-resting :
      (s : State A) (q : List A) (pc : ReaderAt A)
      → Safe s q
      → cleared s.reader ≡ 0
      → cleared pc ≡ 0
      → ReaderFact q pc
      → Safe (record s { reader = pc }) q
  Safe-resting s q pc h e e' f =
      Safe-reader s q h q s.shared pc refl (rw (e', sym e) h.window) f (λ wr x. x)

  Step-Safe :
      (blank : A) {s t : State A} {ps qs : List A} (q : List A)
      → Safe s q
      → Step blank s ps qs t
      → (q' : List A) × (q ++ ps ≡ qs ++ q') × Safe t q'
  unfolding cleared ReaderFact
  Step-Safe blank {s} q h (writer_calls i waits a e) =
      (q, append-nil q, Safe-writer_calls s q h i waits a e)
  Step-Safe blank {s} q h (writer_moves i r e) =
      (q ++ pushes (s.writer i), refl, Safe-writer_moves s q h i r e)
  Step-Safe blank {s} q h (reader_calls p e) =
      (q, append-nil q, Safe-resting s q (seeking p) h (ap cleared e) refl tt)
  Step-Safe blank {s} q h (reader_gives_up e) =
      (q, append-nil q, Safe-resting s q resting h (ap cleared e) refl tt)
  Step-Safe blank {s} q h (reader_moves r e) =
      let (q', front, safe) = Safe-reader_moves s q h blank r e in (q', append-nil q ∙ front, safe)

  pub Reach-Safe :
      (blank : A) (size : ℕ)
      → 0 < size
      → {s : State A} {ps qs : List A} → Reach blank size s ps qs
      → (q : List A) × (ps ≡ qs ++ q) × Safe s q
  Reach-Safe blank size more start = ([], refl, Safe-start blank size more)
  Reach-Safe blank size more (later {ps = ps} {qs} {ps'} {qs'} reach step) =
      let (q, e, safe) = Reach-Safe blank size more reach in
      let (q', e', safe') = Step-Safe blank q safe step in
      (
        q',
        ap (λ xs. xs ++ ps') e
            ∙ append_assoc qs q ps'
            ∙ ap (λ xs. qs ++ xs) e'
            ∙ sym (append_assoc qs qs' q'),
        safe',
      )

  Step-size :
      (blank : A) {s t : State A} {ps qs : List A} (q : List A)
      → Safe s q
      → Step blank s ps qs t
      → t.shared.base.buffer_size ≡ s.shared.base.buffer_size
  Step-size blank q h (writer_calls i waits a e) = refl
  Step-size blank {s} q h (writer_moves i r e) = writer_moves-size s q h i r e
  Step-size blank q h (reader_calls p e) = refl
  Step-size blank q h (reader_gives_up e) = refl
  Step-size blank {s} q h (reader_moves r e) = reader_moves-size s q h blank r e

  pub Reach-size :
      (blank : A) (size : ℕ)
      → 0 < size
      → {s : State A} {ps qs : List A} → Reach blank size s ps qs
      → s.shared.base.buffer_size ≡ size
  unfolding start_state init
  Reach-size blank size more start = refl
  Reach-size blank size more (later reach step) =
      let (q, _, safe) = Reach-Safe blank size more reach in
      Step-size blank q safe step ∙ Reach-size blank size more reach

module _ {ℓ} {A : Type ℓ} (blank : A) (size : ℕ) (more : 0 < size) where
  -- A ring of `size` cells, more than none, between any number of writers and one reader, in any
  -- state they reach: the requests popped are those pushed, in the order pushed, less the last ones
  -- pushed, of which there are fewer than `size`.
  pub Reach-fifo :
      {s : State A} {ps qs : List A}
      → Reach blank size s ps qs
      → (q : List A) × (ps ≡ qs ++ q) × (length q < size)
  Reach-fifo reach =
      let (q, e, safe) = Reach-Safe blank size more reach in
      (q, e, omega (arith, Reach-size blank size more reach, safe.window.fits))

  -- In every state that the writers and the reader of a ring with a cell reach, no move divides by
  -- zero or leaves the ring: the next move of every writer and of the reader has a result.
  pub Reach-no_fault :
      {s : State A} {ps qs : List A}
      → Reach blank size s ps qs
      → ((i : ℕ) (f : Fault) → write_move s.shared (s.writer i) ≢ err f)
        × ((f : Fault) → read_move blank s.shared s.reader ≢ err f)
  Reach-no_fault {s} reach =
      let (q, _, h) = Reach-Safe blank size more reach in
      (
        λ i f.
            After-no_fault f
              (write_move-Wrote s.shared (s.writer i) (cleared s.reader) q h.window (h.writing i)),
        λ f. After-no_fault f (read_move-Took blank s.shared s.reader q h.window h.reading),
      )

  -- In every state that the writers and the reader of a ring with a cell reach, at most one writer
  -- is between the acquisition of the spinlock and its release.
  pub Reach-exclusion :
      {s : State A} {ps qs : List A}
      → Reach blank size s ps qs
      → (i j : ℕ) → is_inside (s.writer i) ≡ true
      → is_inside (s.writer j) ≡ true
      → i ≡ j
  Reach-exclusion reach = let (_, _, h) = Reach-Safe blank size more reach in h.alone

  -- In every state that the writers and the reader of a ring with a cell reach: while the reader is
  -- about to read or assign the cell at `readPosition`, that is not the cell at `writePosition`,
  -- the one a writer assigns.
  pub Reach-apart :
      {s : State A} {ps qs : List A}
      → Reach blank size s ps qs
      → is_holding s.reader ≡ true
      → s.shared.base.write_position ≢ s.shared.base.read_position
  Reach-apart {s} reach holds =
      let (q, _, h) = Reach-Safe blank size more reach in
      holding-ne s.shared.base s.reader q h.window h.reading holds
