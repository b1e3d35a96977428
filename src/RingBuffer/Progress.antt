-- ===== src/RingBuffer/Progress.antt =====
-- utils/ring_buffer.h, `RingBufferSRMW`: a call that finds what it needs comes to its end without a
-- move of any other thread.
use mathlib.Core.List.{append-nil, append_assoc}
use mathlib.Core.Path.{subst}
use jml_base.Common.{ℕ, ◌<◌, ◌≡◌, refl, sym, ap, ◌∙◌, List, [], ◌∷◌, ◌++◌, length, set}
use jml_base.Common.Result.{ok}
use jml_base.Circular.{offset_of}
use jml_base.RingBuffer.{RingBufferBase}
use jml_base.RingBuffer.Machine.{
  Shared, ReaderAt, resting, seeking, taking, clearing, freeing, read_move, pops, Patience, State,
  Reach, later, reader_moves,
}
use jml_base.RingBuffer.Window.{
  Window, Window-is_empty, Window-load_at, Window-read_lt, Window-clear, Window-publish_read,
}
use jml_base.RingBuffer.Moves.{suc-ne, store_at-ok, cleared}
use jml_base.RingBuffer.Safety.{Reach-Safe}

module _ {ℓ} {A : Type ℓ} (blank : A) where
  -- The reader moves alone: no call starts, no wait is given up, and no writer moves.
  pub data ReaderRun : State A → List A → State A → Type ℓ where
    ends : {s : State A} → ReaderRun s [] s
    moves :
        {s t : State A} {qs : List A}
        → (r : Shared A × ReaderAt A) → read_move blank s.shared s.reader ≡ ok r
        → ReaderRun (record s { shared = r.0; reader = r.1 }) qs t
        → ReaderRun s (pops s.reader ++ qs) t

  moves-at :
      {s t : State A} {qs : List A}
      → (pc : ReaderAt A) → s.reader ≡ pc
      → (r : Shared A × ReaderAt A) → read_move blank s.shared pc ≡ ok r
      → ReaderRun (record s { shared = r.0; reader = r.1 }) qs t
      → ReaderRun s (pops pc ++ qs) t
  moves-at {s} {t} {qs} pc at r e run =
      subst (λ x. ReaderRun s (pops x ++ qs) t) at
        (moves r (ap (read_move blank s.shared) at ∙ e) run)

  -- A run of the reader is a run of the machine that pushes nothing.
  Reach-ReaderRun :
      {size : ℕ} {s t : State A} {ps qs xs : List A}
      → Reach blank size s ps qs
      → ReaderRun s xs t
      → Reach blank size t ps (qs ++ xs)
  Reach-ReaderRun {qs = qs} reach ends = rw (append-nil qs) reach
  Reach-ReaderRun {size} {s} {t} {ps} {qs} reach (moves {qs = xs} r e run) =
      let more = Reach-ReaderRun (later reach (reader_moves r e)) run in
      rw (append-nil ps, append_assoc qs (pops s.reader) xs) at more

  append_cancel : (qs q q' : List A) → qs ++ q ≡ qs ++ q' → q ≡ q'
  append_cancel [] q q' e = e
  append_cancel (y ∷ qs) q q' e = append_cancel qs q q' cc

  front-Window :
      (b : RingBufferBase A) (lo : ℕ) (q : List A) (x : A) (rest : List A)
      → q ≡ x ∷ rest
      → lo ≡ 0
      → Window b lo q
      → Window b 0 (x ∷ rest)
  front-Window b lo q x rest e none w = rw (sym e, sym none) w

  module _ (b : RingBufferBase A) (value : ℕ) (x : A) (q : List A) (w : Window b 0 (x ∷ q)) where
    seeking-ok :
        (p : Patience)
        → read_move blank (record { base = b; value = value }) (seeking p)
          ≡ ok (record { base = b; value = value }, taking)
    unfolding read_move
    seeking-ok p = rw (Window-is_empty b 0 (x ∷ q) w, suc-ne (length q)) refl

    taking-ok :
        read_move blank (record { base = b; value = value }) taking
        ≡ ok (record { base = b; value = value }, clearing x)
    unfolding read_move
    taking-ok = rw (Window-load_at b x q w) refl

    cleared_ring : RingBufferBase A
    cleared_ring = record b { ring = set b.ring b.read_position blank }

    clearing-ok :
        read_move blank (record { base = b; value = value }) (clearing x)
        ≡ ok (record { base = cleared_ring; value = value }, freeing x)
    unfolding read_move cleared_ring
    clearing-ok = rw (store_at-ok b b.read_position blank (Window-read_lt b x q 0 w)) refl

    freeing-ok :
        read_move blank (record { base = cleared_ring; value = value }) (freeing x)
        ≡ ok (
          record {
            base = record cleared_ring {
              read_position = offset_of b.buffer_size b.read_position 1;
            };
            value = value;
          },
          resting,
        )
    unfolding read_move cleared_ring
    freeing-ok = rw (Window-publish_read cleared_ring x q 1 (Window-clear b x q blank w)) refl

  -- In any state the writers and the reader of a ring with a cell reach, at the start of `pop` or
  -- `tryPop`: if a request was pushed that was not popped, moves of the reader alone, with none of a
  -- writer and without giving up, lead to the end of the call and pop the first such request.
  pub Reach-pop :
      (size : ℕ)
      → 0 < size
      → {s : State A} {ps qs : List A} → Reach blank size s ps qs
      → (p : Patience) → s.reader ≡ seeking p
      → (x : A) (rest : List A) → ps ≡ qs ++ x ∷ rest
      → (t : State A) × ReaderRun s (x ∷ []) t
        × (t.reader ≡ resting)
        × (t.writer ≡ s.writer)
        × Reach blank size t ps (qs ++ x ∷ [])
  unfolding cleared pops
  Reach-pop size more {s} {ps} {qs} reach p at x rest e =
      let (q, e', h) = Reach-Safe blank size more reach in
      let w =
        front-Window s.shared.base (cleared s.reader) q x rest
          (append_cancel qs q (x ∷ rest) (sym e' ∙ e)) (rw at refl) h.window in
      let b = s.shared.base in
      let v = s.shared.value in
      let run = moves-at (seeking p) at _ (seeking-ok b v x rest w p) (
        moves-at taking refl _ (taking-ok b v x rest w) (
          moves-at (clearing x) refl _ (clearing-ok b v x rest w)
            (moves-at (freeing x) refl _ (freeing-ok b v x rest w) ends))) in
      (_, run, refl, refl, Reach-ReaderRun reach run)
