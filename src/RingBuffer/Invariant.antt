-- ===== src/RingBuffer/Invariant.antt =====
-- utils/ring_buffer.h, `RingBufferSRMW`, with arch/spinlock.h: the invariant of the ring, the writers
-- and the reader, and that a move of any thread keeps it.
use mathlib.Core.List.{append-nil}
use jml_base.Common.{
  ℕ, ◌==◌, ◌≡◌, ◌≢◌, ◌⊎◌, inl, inr, refl, sym, ap, ◌∙◌, arith, Bool, true, false, Bool-cases, List,
  ◌++◌, length, length-append, drop, ℕ_discrete,
}
use jml_base.Common.Result.{ok}
use jml_base.RingBuffer.{RingBufferBase}
use jml_base.RingBuffer.Machine.{
  Shared, WriterAt, ReaderAt, idle, acquiring, looking, storing, publishing, releasing, resting,
  seeking, taking, clearing, freeing, write_move, read_move, pushes, pops, State, update,
}
use jml_base.RingBuffer.Locks.{is_inside, write_move-Locks, true-ne-false}
use jml_base.RingBuffer.Window.{Window}
use jml_base.RingBuffer.Moves.{
  After-ok, WriterFact, ReaderFact, StartsWith, starts, cleared, write_move-Wrote, read_move-Took,
}

==_refl : (i j : ℕ) → i ≡ j → (i == j) ≡ true
==_refl i j e = ground arith

==_ne : (i j : ℕ) → i ≢ j → (i == j) ≡ false
==_ne i j e = ground arith

update-cases {ℓ} :
    {A : Type ℓ} (f : ℕ → A) (i : ℕ) (a : A) (j : ℕ)
    → ((i ≡ j) × (update f i a j ≡ a)) ⊎ ((i ≢ j) × (update f i a j ≡ f j))
update-cases f i a j = elim (ℕ_discrete i j) [
  | yes e ↦ inl (e, rw (==_refl i j e) refl)
  | no ne ↦ inr (ne, rw (==_ne i j ne) refl)
]

module _ {ℓ} {A : Type ℓ} where
  pub record Safe (s : State A) (q : List A) : Type ℓ where
    pub window : Window s.shared.base (cleared s.reader) q
    pub reading : ReaderFact q s.reader
    pub writing : (i : ℕ) → WriterFact s.shared.base q (s.writer i)
    pub locked : (i : ℕ) → is_inside (s.writer i) ≡ true → s.shared.value ≡ 1
    pub alone : (i j : ℕ) → is_inside (s.writer i) ≡ true → is_inside (s.writer j) ≡ true → i ≡ j

  StartsWith-snoc : (a : A) (q q' : List A) → StartsWith a q → StartsWith a (q ++ q')
  StartsWith-snoc a q q' (starts rest) = starts (rest ++ q')

  ReaderFact-snoc : (q q' : List A) (pc : ReaderAt A) → ReaderFact q pc → ReaderFact (q ++ q') pc
  unfolding ReaderFact
  ReaderFact-snoc q q' resting f = tt
  ReaderFact-snoc q q' (seeking p) f = tt
  ReaderFact-snoc q q' taking f = (omega (arith, f.0, length-append q q'), tt)
  ReaderFact-snoc q q' (clearing a) f = StartsWith-snoc a q q' f
  ReaderFact-snoc q q' (freeing a) f = StartsWith-snoc a q q' f

  module _ (s : State A) (q : List A) (h : Safe s q) where
    outsider : (i j : ℕ) → i ≢ j → is_inside (s.writer j) ≡ true → is_inside (s.writer i) ≡ false
    outsider i j ne inside = elim (Bool-cases (is_inside (s.writer i))) [
      | inl e ↦ absurd (ne (h.alone i j e inside))
      | inr e ↦ e
    ]

    -- Thread `i` goes to `pc'` and leaves the shared memory `t`, where `q'` wait.
    module _ (i : ℕ) (t : Shared A) (pc' : WriterAt A) (q' : List A)
        (window : Window t.base (cleared s.reader) q') (reading : ReaderFact q' s.reader)
        (mine : WriterFact t.base q' pc')
        (others : (j : ℕ) → i ≢ j → WriterFact t.base q' (s.writer j))
        (entered : is_inside pc' ≡ true → t.value ≡ 1)
        (kept : (j : ℕ) → i ≢ j → is_inside (s.writer j) ≡ true → t.value ≡ 1)
        (refused : (j : ℕ) → i ≢ j → is_inside pc' ≡ true → is_inside (s.writer j) ≡ false) where
      moved : ℕ → WriterAt A
      moved = update s.writer i pc'

      Safe-alone : (j k : ℕ) → is_inside (moved j) ≡ true → is_inside (moved k) ≡ true → j ≡ k
      unfolding moved
      Safe-alone j k a b = elim (update-cases s.writer i pc' j) [
        | inl p ↦ elim (update-cases s.writer i pc' k) [
          | inl r ↦ sym (p.0) ∙ r.0
          | inr r ↦ absurd (
              true-ne-false
                (sym b ∙ ap is_inside (r.1) ∙ refused k (r.0) (sym (ap is_inside (p.1)) ∙ a)))
        ]
        | inr p ↦ elim (update-cases s.writer i pc' k) [
          | inl r ↦ absurd (
              true-ne-false
                (sym a ∙ ap is_inside (p.1) ∙ refused j (p.0) (sym (ap is_inside (r.1)) ∙ b)))
          | inr r ↦ h.alone j k (sym (ap is_inside (p.1)) ∙ a) (sym (ap is_inside (r.1)) ∙ b)
        ]
      ]

      Safe-moved : Safe (record s { shared = t; writer = update s.writer i pc' }) q'
      unfolding moved
      Safe-moved = record {
        window = window;
        reading = reading;
        writing = λ j. elim (update-cases s.writer i pc' j) [
          | inl p ↦ rw (p.1) mine
          | inr p ↦ rw (p.1) (others j (p.0))
        ];
        locked = λ j. elim (update-cases s.writer i pc' j) [
          | inl p ↦ rw (p.1) entered
          | inr p ↦ rw (p.1) (kept j (p.0))
        ];
        alone = Safe-alone;
      }

    WriterFact-outside :
        (b : RingBufferBase A) (q' : List A) (pc : WriterAt A)
        → is_inside pc ≡ false
        → WriterFact b q' pc
    unfolding is_inside WriterFact
    WriterFact-outside b q' idle e = tt
    WriterFact-outside b q' (acquiring waits a) e = tt
    WriterFact-outside b q' (looking waits a) e = tt
    WriterFact-outside b q' (storing a) e = absurd (true-ne-false e)
    WriterFact-outside b q' (publishing a) e = absurd (true-ne-false e)
    WriterFact-outside b q' (releasing result) e = tt

    pub Safe-writer_calls :
        (i : ℕ) (waits : Bool) (a : A)
        → s.writer i ≡ idle
        → Safe (record s { writer = update s.writer i (acquiring waits a) }) q
    unfolding is_inside WriterFact
    Safe-writer_calls i waits a e =
        Safe-moved i s.shared (acquiring waits a) q h.window h.reading tt (λ j _. h.writing j)
          (λ x. absurd (true-ne-false (sym x))) (λ j _. h.locked j)
          (λ j _ x. absurd (true-ne-false (sym x)))

    pub Safe-writer_moves :
        (i : ℕ) (r : Shared A × WriterAt A)
        → write_move s.shared (s.writer i) ≡ ok r
        → Safe
            (record s { shared = r.0; writer = update s.writer i (r.1) })
            (q ++ pushes (s.writer i))
    Safe-writer_moves i r e =
        let w =
          After-ok
            (write_move-Wrote s.shared (s.writer i) (cleared s.reader) q h.window (h.writing i))
            e in
        let l = write_move-Locks s.shared (s.writer i) (h.locked i) r e in
        Safe-moved i (r.0) (r.1) (q ++ pushes (s.writer i)) w.window
          (ReaderFact-snoc q (pushes (s.writer i)) s.reader h.reading) w.fact
          (λ j ne. elim (Bool-cases (is_inside (s.writer j))) [
            | inl x ↦
                rw (l.untouched (outsider i j ne x), l.silent (outsider i j ne x), append-nil q)
                  (h.writing j)
            | inr x ↦ WriterFact-outside (r.0).base (q ++ pushes (s.writer i)) (s.writer j) x
          ])
          l.entered (λ j ne inside. l.kept (outsider i j ne inside) (h.locked j inside))
          (λ j ne enters. elim (Bool-cases (is_inside (s.writer j))) [
            | inl x ↦
                absurd (true-ne-false (sym enters ∙ l.refused (outsider i j ne x) (h.locked j x)))
            | inr x ↦ x
          ])

    pub Safe-reader :
        (q' : List A) (t : Shared A) (pc : ReaderAt A)
        → t.value ≡ s.shared.value
        → Window t.base (cleared pc) q'
        → ReaderFact q' pc
        → ((wr : WriterAt A) → WriterFact s.shared.base q wr → WriterFact t.base q' wr)
        → Safe (record s { shared = t; reader = pc }) q'
    Safe-reader q' t pc e w f o = record {
      window = w;
      reading = f;
      writing = λ i. o (s.writer i) (h.writing i);
      locked = λ i inside. e ∙ h.locked i inside;
      alone = h.alone;
    }

    pub Safe-reader_moves :
        (blank : A) (r : Shared A × ReaderAt A)
        → read_move blank s.shared s.reader ≡ ok r
        → (q' : List A) × (q ≡ pops s.reader ++ q')
          × Safe (record s { shared = r.0; reader = r.1 }) q'
    Safe-reader_moves blank r e =
        let k = After-ok (read_move-Took blank s.shared s.reader q h.window h.reading) e in
        (
          drop (length (pops s.reader)) q,
          sym k.popped_first,
          Safe-reader _ (r.0) (r.1) k.value k.window k.fact k.others,
        )

    pub writer_moves-size :
        (i : ℕ) (r : Shared A × WriterAt A)
        → write_move s.shared (s.writer i) ≡ ok r
        → (r.0).base.buffer_size ≡ s.shared.base.buffer_size
    writer_moves-size i r e =
        let wrote =
          write_move-Wrote s.shared (s.writer i) (cleared s.reader) q h.window (h.writing i) in
        (After-ok wrote e).size

    pub reader_moves-size :
        (blank : A) (r : Shared A × ReaderAt A)
        → read_move blank s.shared s.reader ≡ ok r
        → (r.0).base.buffer_size ≡ s.shared.base.buffer_size
    reader_moves-size blank r e =
        let took = read_move-Took blank s.shared s.reader q h.window h.reading in
        (After-ok took e).size
