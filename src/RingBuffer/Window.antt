-- ===== src/RingBuffer/Window.antt =====
-- utils/ring_buffer.h: the requests that wait in a ring, as a list, and what one access does to it.
use native.Mathlib.Nat.{mod-eq_of_lt, mod_self}
use jml_base.Common.{
  ℕ, suc, ◌+◌, ◌≤◌, ◌<◌, ◌==◌, ◌≡◌, ◌≢◌, refl, sym, ap, ◌∙◌, arith, if◌then◌else◌, List, [], ◌∷◌,
  ◌++◌, some, length, get_elem?, set, length-append, length-set, length-replicate, get_elem?-set_ne,
  ℕ_discrete,
}
use jml_base.Common.Result.{ok}
use jml_base.Circular.{offset_of}
use jml_base.Circular.Cells.{
  offset_of-lt, offset_of-injective, get_elem?-snoc_self, get_elem?-snoc_ne,
}
use jml_base.RingBuffer.{
  RingBufferBase, init, next, load_at, publish_write, publish_read, is_full, is_empty,
}

next-lt : (size p : ℕ) → p < size → next size p ≡ ok (if p + 1 == size then 0 else p + 1)
unfolding next
next-lt size p h = elim (ℕ_discrete (p + 1) size) [
  | yes e ↦ rw (e, mod_self size) (ground arith)
  | no n ↦ rw (mod-eq_of_lt {n = p + 1} {m = size} (omega arith)) (ground arith)
]

next-offset_of :
    (size start i : ℕ)
    → start < size
    → i < size
    → next size (offset_of size start i) ≡ ok (offset_of size start (i + 1))
next-offset_of size start i hs hi =
    next-lt size (offset_of size start i) (offset_of-lt size start i hs hi) ∙ ap ok (ground arith)

next-read : (size p : ℕ) → p < size → 1 < size → next size p ≡ ok (offset_of size p 1)
next-read size p h more = next-lt size p h ∙ ap ok (ground arith)

offset_of-zero : (size p : ℕ) → p < size → offset_of size p 0 ≡ p
offset_of-zero size p h = ground arith

offset_of-ne : (size p i : ℕ) → p < size → 1 ≤ i → i < size → p ≢ offset_of size p i
offset_of-ne size p i h above below e =
    omega (arith, offset_of-injective size p 0 i (omega arith) below (offset_of-zero size p h ∙ e))

offset_of-shift :
    (size p i : ℕ)
    → p < size
    → i + 1 < size
    → offset_of size p (suc i) ≡ offset_of size (offset_of size p 1) i
offset_of-shift size p i h more = ground arith

module _ {ℓ} {A : Type ℓ} where
  -- The requests `q` wait in the ring, the next to pop first. The cells of the first `lo` of them
  -- may already hold something else.
  pub record Window (b : RingBufferBase A) (lo : ℕ) (q : List A) : Type ℓ where
    pub len : length b.ring ≡ b.buffer_size
    pub read_in : b.read_position < b.buffer_size
    pub fits : length q < b.buffer_size
    pub write_at : b.write_position ≡ offset_of b.buffer_size b.read_position (length q)
    pub held :
        (i : ℕ)
        → lo ≤ i
        → i < length q
        → get_elem? b.ring (offset_of b.buffer_size b.read_position i) ≡ get_elem? q i

  module _ (b : RingBufferBase A) (lo : ℕ) (q : List A) (w : Window b lo q) where
    pub Window-is_empty : is_empty b ≡ (length q == 0)
    Window-is_empty = rw w.write_at (ground (arith, w.read_in, w.fits))

    pub Window-is_full : is_full b ≡ ok (b.buffer_size == length q + 1)
    unfolding is_full
    Window-is_full =
        rw (w.write_at, next-offset_of b.buffer_size b.read_position (length q) w.read_in w.fits)
          (ground (arith, w.read_in, w.fits))

    pub Window-write_lt : b.write_position < length b.ring
    Window-write_lt =
        rw (w.len, w.write_at)
          (offset_of-lt b.buffer_size b.read_position (length q) w.read_in w.fits)

    pub Window-write-ne :
        (i : ℕ) → i < length q → b.write_position ≢ offset_of b.buffer_size b.read_position i
    Window-write-ne i below e = omega (
      arith,
      below,
      offset_of-injective b.buffer_size b.read_position (length q) i w.fits
          (omega (arith, w.fits, below)) (sym w.write_at ∙ e),
    )

    -- An assignment to the cell at `writePosition` leaves the requests that wait.
    pub Window-store_at : (a : A) → Window (record b { ring = set b.ring b.write_position a }) lo q
    Window-store_at a = record {
      len = length-set b.ring b.write_position a ∙ w.len;
      read_in = w.read_in;
      fits = w.fits;
      write_at = w.write_at;
      held = λ i above below.
          get_elem?-set_ne b.ring a (Window-write-ne i below) ∙ w.held i above below;
    }

    pub Window-publish_write :
        publish_write b
        ≡ ok (record b { write_position = offset_of b.buffer_size b.read_position (length q + 1) })
    unfolding publish_write
    Window-publish_write =
        rw (w.write_at, next-offset_of b.buffer_size b.read_position (length q) w.read_in w.fits)
          refl

    held-snoc :
        (a : A)
        → get_elem? b.ring b.write_position ≡ some a
        → (i : ℕ) → lo ≤ i
        → i < length q + 1
        → get_elem? b.ring (offset_of b.buffer_size b.read_position i) ≡ get_elem? (q ++ a ∷ []) i
    held-snoc a stored i above below = elim (ℕ_discrete i (length q)) [
      | yes e ↦ rw (e, get_elem?-snoc_self q a, sym w.write_at) stored
      | no ne ↦ w.held i above (omega arith) ∙ sym (get_elem?-snoc_ne q a i ne)
    ]

    pub Window-snoc :
        (a : A)
        → get_elem? b.ring b.write_position ≡ some a
        → length q + 1 < b.buffer_size
        → Window
            (record b { write_position = offset_of b.buffer_size b.read_position (length q + 1) })
            lo
            (q ++ a ∷ [])
    Window-snoc a stored room = record {
      len = w.len;
      read_in = w.read_in;
      fits = rw (length-append q (a ∷ [])) room;
      write_at = rw (length-append q (a ∷ [])) refl;
      held = λ i above below.
          held-snoc a stored i above (omega (arith, below, length-append q (a ∷ [])));
    }

  pub Window-init : (blank : A) (size : ℕ) → 0 < size → Window (init blank size) 0 []
  unfolding init
  Window-init blank size h = record {
    len = length-replicate size blank;
    read_in = h;
    fits = h;
    write_at = ground arith;
    held = λ i above below. absurd (omega (arith, below));
  }

  module _ (b : RingBufferBase A) (x : A) (q : List A) where
    pub Window-load_at : Window b 0 (x ∷ q) → load_at b b.read_position ≡ ok x
    unfolding load_at
    Window-load_at w =
        rw
          (
            sym (offset_of-zero b.buffer_size b.read_position w.read_in),
            w.held 0 (omega arith) (omega arith),
          )
          refl

    pub Window-read_lt : (lo : ℕ) → Window b lo (x ∷ q) → b.read_position < length b.ring
    Window-read_lt lo w = omega (arith, w.len, w.read_in)

    pub Window-read-ne : (lo : ℕ) → Window b lo (x ∷ q) → b.read_position ≢ b.write_position
    Window-read-ne lo w e =
        Window-write-ne b lo (x ∷ q) w 0 (omega arith)
          (sym e ∙ sym (offset_of-zero b.buffer_size b.read_position w.read_in))

    -- The first cell no longer counts once it is assigned.
    pub Window-clear :
        (a : A)
        → Window b 0 (x ∷ q)
        → Window (record b { ring = set b.ring b.read_position a }) 1 (x ∷ q)
    Window-clear a w = record {
      len = length-set b.ring b.read_position a ∙ w.len;
      read_in = w.read_in;
      fits = w.fits;
      write_at = w.write_at;
      held = λ i above below.
          get_elem?-set_ne b.ring a (
            offset_of-ne b.buffer_size b.read_position i w.read_in above
              (omega (arith, below, w.fits)))
          ∙ w.held i (omega arith) below;
    }

    pub Window-publish_read :
        (lo : ℕ)
        → Window b lo (x ∷ q)
        → publish_read b
          ≡ ok (record b { read_position = offset_of b.buffer_size b.read_position 1 })
    unfolding publish_read
    Window-publish_read lo w =
        rw (next-read b.buffer_size b.read_position w.read_in (omega (arith, w.fits))) refl

    pub Window-tail :
        (lo : ℕ)
        → lo ≤ 1
        → Window b lo (x ∷ q)
        → Window (record b { read_position = offset_of b.buffer_size b.read_position 1 }) 0 q
    Window-tail lo small w = record {
      len = w.len;
      read_in = offset_of-lt b.buffer_size b.read_position 1 w.read_in (omega (arith, w.fits));
      fits = omega (arith, w.fits);
      write_at =
          w.write_at
          ∙ offset_of-shift b.buffer_size b.read_position (length q) w.read_in
              (omega (arith, w.fits));
      held = λ i above below.
          ap (get_elem? b.ring) (
            sym (
              offset_of-shift b.buffer_size b.read_position i w.read_in
                (omega (arith, w.fits, below))))
          ∙ w.held (suc i) (omega (arith, small)) (omega (arith, below));
    }
