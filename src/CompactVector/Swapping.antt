-- ===== src/CompactVector/Swapping.antt =====
-- utils/compact_vector.h, `swap`: each vector has the elements of the other, wherever they stand.
use jml_base.Common.{ℕ, ◌+◌, ◌≡◌, refl, Option, none, List, ◌++◌, length, replicate}
use jml_base.Common.Result.{Result, ok}
use jml_base.CompactVector.{
  CompactVector, Storage, itl, ext, Error, data_of, is_internal, capacity_of,
}
use jml_base.CompactVector.Cells.{cells_of}
use jml_base.CompactVector.Calls.{swap, swap_storage, swap_internal, swap_over, replace_by}
use jml_base.CompactVector.Exchanging.{swap_over-eq, swap_internal-eq}
use jml_base.CompactVector.Contents.{Holds}
use jml_base.CompactVector.Copying.{clear-Holds}

module _ {ℓ} {A : Type ℓ} (internal : ℕ) where
  -- `v` and `w` became `v'` and `w'`, which hold `ys` and `xs`.
  pub record Swapped (v w v' w' : CompactVector A) (xs ys : List A) : Type ℓ where
    pub mine : Holds internal v' ys
    pub others : Holds internal w' xs
    pub room : capacity_of internal v'.storage ≡ capacity_of internal w.storage
    pub inside : is_internal v'.storage ≡ is_internal w.storage

  -- The swap has a result that is right.
  abbrev Swaps :
      CompactVector A
      → CompactVector A
      → List A
      → List A
      → Result Error (CompactVector A × CompactVector A)
      → Type ℓ
  Swaps v w xs ys m =
      (v' : CompactVector A) × (w' : CompactVector A) × (m ≡ ok (v', w')) × Swapped v w v' w' xs ys

  Holds-internal :
      (xs : List A) (free : ℕ)
      → length xs + free ≡ internal
      → Holds internal
          (record { storage = itl (cells_of xs ++ replicate free none); size = length xs })
          xs
  unfolding data_of capacity_of
  Holds-internal xs free e = record { free = free; cells = refl; room = e; sized = refl }

  over-Swaps :
      (cells pointer : List (Option A)) (c m n : ℕ) (xs ys : List A)
      → Holds internal (record { storage = itl cells; size = m }) xs
      → Holds internal (record { storage = ext pointer c; size = n }) ys
      → Swaps
          (record { storage = itl cells; size = m })
          (record { storage = ext pointer c; size = n })
          xs
          ys
          (swap_over internal cells m pointer c n)
  unfolding data_of capacity_of is_internal
  over-Swaps cells pointer c m n xs ys h k = (
    _,
    _,
    swap_over-eq internal cells pointer c m n h.free xs h.cells h.room h.sized,
    record {
      mine = k;
      others = rw h.sized (Holds-internal xs h.free h.room);
      room = refl;
      inside = refl;
    },
  )

  back-Swaps :
      (cells pointer : List (Option A)) (c m n : ℕ) (xs ys : List A)
      → Holds internal (record { storage = ext pointer c; size = m }) xs
      → Holds internal (record { storage = itl cells; size = n }) ys
      → Swaps
          (record { storage = ext pointer c; size = m })
          (record { storage = itl cells; size = n })
          xs
          ys
          (swap_storage internal (ext pointer c) m (itl cells) n)
  unfolding data_of capacity_of is_internal
  back-Swaps cells pointer c m n xs ys h k = (
    record { storage = itl (cells_of ys ++ replicate k.free none); size = n },
    record { storage = ext pointer c; size = m },
    rw (swap_over-eq internal cells pointer c n m k.free ys k.cells k.room k.sized) refl,
    record {
      mine = rw k.sized (Holds-internal ys k.free k.room);
      others = h;
      room = refl;
      inside = refl;
    },
  )

  both-Swaps :
      (cells cells' : List (Option A)) (m n : ℕ) (xs ys : List A)
      → Holds internal (record { storage = itl cells; size = m }) xs
      → Holds internal (record { storage = itl cells'; size = n }) ys
      → Swaps
          (record { storage = itl cells; size = m })
          (record { storage = itl cells'; size = n })
          xs
          ys
          (swap_internal internal cells m cells' n)
  unfolding data_of capacity_of is_internal
  both-Swaps cells cells' m n xs ys h k = (
    record { storage = itl (cells_of ys ++ replicate k.free none); size = length ys },
    record { storage = itl (cells_of xs ++ replicate h.free none); size = length xs },
    rw (h.cells, k.cells, h.sized, k.sized)
        (swap_internal-eq internal xs ys h.free k.free h.room k.room),
    record {
      mine = Holds-internal ys k.free k.room;
      others = Holds-internal xs h.free h.room;
      room = refl;
      inside = refl;
    },
  )

  swap_storage-Swaps :
      (s t : Storage A) (m n : ℕ) (xs ys : List A)
      → Holds internal (record { storage = s; size = m }) xs
      → Holds internal (record { storage = t; size = n }) ys
      → Swaps
          (record { storage = s; size = m })
          (record { storage = t; size = n })
          xs
          ys
          (swap_storage internal s m t n)
  unfolding is_internal
  swap_storage-Swaps (itl cells) (itl cells') m n xs ys h k = both-Swaps cells cells' m n xs ys h k
  swap_storage-Swaps (itl cells) (ext p c) m n xs ys h k = over-Swaps cells p c m n xs ys h k
  swap_storage-Swaps (ext p c) (itl cells) m n xs ys h k = back-Swaps cells p c m n xs ys h k
  swap_storage-Swaps (ext p c) (ext p' c') m n xs ys h k =
      (_, _, refl, record { mine = k; others = h; room = refl; inside = refl })

  -- Of two vectors that hold lists, each in its own storage or outside it, `swap` leaves each with the
  -- list of the other, and the first with the room of the second.
  pub swap-Swapped :
      (v w : CompactVector A) (xs ys : List A)
      → Holds internal v xs
      → Holds internal w ys
      → (v' : CompactVector A) × (w' : CompactVector A) × (swap internal v w ≡ ok (v', w'))
        × Swapped v w v' w' xs ys
  unfolding swap
  swap-Swapped v w xs ys h k = swap_storage-Swaps v.storage w.storage v.size w.size xs ys h k

  pub replace_by-Holds :
      (v w : CompactVector A) (xs ys : List A) (m : Result Error (CompactVector A))
      → Holds internal v xs
      → m ≡ ok w
      → Holds internal w ys
      → (v' : CompactVector A) × (replace_by internal v m ≡ ok v')
        × Holds internal v' ys
        × (capacity_of internal v'.storage ≡ capacity_of internal w.storage)
        × (is_internal v'.storage ≡ is_internal w.storage)
  unfolding replace_by
  replace_by-Holds v w xs ys m h made k =
      let (v', w', e, s) = swap-Swapped v w xs ys h k in
      (v', rw (made, e, clear-Holds internal w' xs s.others) refl, s.mine, s.room, s.inside)
