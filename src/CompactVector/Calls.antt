-- ===== src/CompactVector/Calls.antt =====
-- utils/compact_vector.h: the members that a client calls. `begin() + i` is the index `i`.
use jml_base.Common.{
  ℕ, zero, suc, ◌+◌, ◌-◌, ◌*◌, ◌%◌, ◌^◌, ltb, leb, ◌==◌, ◌&&◌, not, min, max, if◌then◌else◌, Bool,
  Option, none, List, [], ◌∷◌, length, replicate,
}
use jml_base.Common.Result.{Result, ok, ◌>>=◌, ◌>>◌, guard}
use jml_base.CompactVector.{
  CompactVector, Storage, itl, ext, Error, bad_access, pop_empty, out_of_range, invalid_index,
  last_before_first, not_ours, max_size, load, destruct, assign, read_range, move_range, swap_range,
  assign_range, data_of, with_data, is_internal, capacity_of, new, clear, init_copy, construct_back,
}

module _ {ℓ} {A : Type ℓ} where
  unfoldable pub contents : CompactVector A → ℕ → Result Error (List A)
  contents v n = read_range n (data_of v.storage) 0

  unfoldable pub construct_all : List A → CompactVector A → Result Error (CompactVector A)
  construct_all [] v = ok v
  construct_all (a ∷ rest) v = do v' ← construct_back v a; construct_all rest v'

  -- `data()[size_ - 1].~Data(); --size_;`.
  unfoldable pub destroy_last : CompactVector A → Result Error (CompactVector A)
  destroy_last v = do
    guard (not (v.size == 0)) bad_access
    cells ← destruct (data_of v.storage) (v.size - 1)
    ok (record { storage = with_data v.storage cells; size = v.size - 1 })

  -- `while (size_ > new_size)`, with `n` to go.
  unfoldable pub destroy_back : ℕ → CompactVector A → Result Error (CompactVector A)
  destroy_back zero v = ok v
  destroy_back (suc n) v = do v' ← destroy_last v; destroy_back n v'

  unfoldable pub pop_back : CompactVector A → Result Error (CompactVector A)
  pop_back v = guard (not (v.size == 0)) pop_empty >> destroy_last v

  -- `check_index`, then `data()[index]`: `at`, `operator []`, `front` and `back`, where `size_ - 1`
  -- wraps to the greatest `Size`.
  unfoldable pub at : CompactVector A → ℕ → Result Error A
  at v index = guard (ltb index v.size) out_of_range >> load (data_of v.storage) index

  unfoldable pub front : CompactVector A → Result Error A
  front v = at v 0

  unfoldable pub back : CompactVector A → Result Error A
  back v = at v (if v.size == 0 then max_size else v.size - 1)

  -- The elements behind `last` move to `first`, and those left at the end are destroyed.
  unfoldable pub close_gap : CompactVector A → ℕ → ℕ → Result Error (CompactVector A)
  close_gap v first last = do
    rest ← read_range (v.size - last) (data_of v.storage) last
    cells ← assign_range rest (data_of v.storage) first
    destroy_back (last - first) (record v { storage = with_data v.storage cells })

  -- The loop of `start_insert` that moves elements to the end.
  unfoldable pub shift_right : ℕ → ℕ → ℕ → List (Option A) → Result Error (List (Option A))
  shift_right zero top n cells = ok cells
  shift_right (suc count) top n cells = do
    a ← load cells (top - 1 - n)
    cells' ← assign cells (top - 1) a
    shift_right count (top - 1) n cells'

module _ {ℓ} {A : Type ℓ} (internal : ℕ) where
  -- `swap`, both inside: the common elements, then the leftovers of either.
  unfoldable pub swap_internal :
      List (Option A) → ℕ → List (Option A) → ℕ → Result Error (CompactVector A × CompactVector A)
  swap_internal mine size others other_size = do
    let common = min size other_size
    (mine1, others1) ← swap_range common 0 mine others
    (others2, mine2) ← move_range (other_size - size) size others1 mine1
    (mine3, others3) ← move_range (size - other_size) other_size mine2 others2
    ok (
      record { storage = itl mine3; size = other_size },
      record { storage = itl others3; size = size },
    )

  -- One inside, with `cells`, and one outside: the first takes over the pointer.
  unfoldable pub swap_over :
      List (Option A)
      → ℕ
      → List (Option A)
      → ℕ
      → ℕ
      → Result Error (CompactVector A × CompactVector A)
  swap_over cells size pointer capacity other_size = do
    (_, moved) ← move_range size 0 cells (replicate internal none)
    ok (
      record { storage = ext pointer capacity; size = other_size },
      record { storage = itl moved; size = size },
    )

  abbrev pub swap_storage :
      Storage A → ℕ → Storage A → ℕ → Result Error (CompactVector A × CompactVector A)
  swap_storage (ext p c) size (ext p' c') other_size =
      ok (
        record { storage = ext p' c'; size = other_size },
        record { storage = ext p c; size = size },
      )
  swap_storage (itl cells) size (itl cells') other_size = swap_internal cells size cells' other_size
  swap_storage (itl cells) size (ext p c) other_size = swap_over cells size p c other_size
  swap_storage (ext p c) size (itl cells) other_size = do
    (other, me) ← swap_over cells other_size p c size
    ok (me, other)

  unfoldable pub swap :
      CompactVector A → CompactVector A → Result Error (CompactVector A × CompactVector A)
  swap v other = swap_storage v.storage v.size other.storage other.size

  -- `compact_vector new_me; ... swap(new_me);`, and its end, where `new_me` is destroyed.
  unfoldable pub replace_by :
      CompactVector A → Result Error (CompactVector A) → Result Error (CompactVector A)
  replace_by v made = do new_me ← made; (v', old) ← swap v new_me; _ ← clear internal old; ok v'

  unfoldable pub grown_to : CompactVector A → ℕ → ℕ
  grown_to v n = min (max (capacity_of internal v.storage * 2 % 2 ^ 32) n) max_size

  unfoldable pub reserve : CompactVector A → ℕ → Result Error (CompactVector A)
  reserve v n =
      let grow = (do
        source ← contents v v.size
        replace_by v (init_copy internal (new internal) source (grown_to v n))) in
      if leb n (capacity_of internal v.storage) then ok v else grow

  -- `emplace_back`, which both `push_back` call.
  unfoldable pub emplace_back : CompactVector A → A → Result Error (CompactVector A)
  emplace_back v a =
      let roomy = reserve v (v.size * 2) in
      do
        v' ← (if leb (capacity_of internal v.storage) v.size then roomy else ok v)
        construct_back v' a

  -- The branches of `resize` and of `erase` that go back inside the object, with the elements `kept`.
  unfoldable pub must_move_in : CompactVector A → ℕ → Bool
  must_move_in v new_size = not (is_internal v.storage) && leb new_size internal

  unfoldable pub contract : CompactVector A → ℕ → Result Error (CompactVector A)
  contract v new_size =
      let moved = (do
        source ← contents v new_size
        replace_by v (init_copy internal (new internal) source new_size)) in
      let shorter = destroy_back (v.size - new_size) v in
      if must_move_in v new_size then moved else shorter

  unfoldable pub resize : CompactVector A → ℕ → A → Result Error (CompactVector A)
  resize v new_size a =
      let expand = (do
        v' ← reserve v new_size
        construct_all (replicate (new_size - v.size) a) v') in
      let shrink = contract v new_size in
      if v.size == new_size then ok v else if ltb v.size new_size then expand else shrink

  -- `start_insert` of `n` elements `blank`, which is `Data()`.
  unfoldable pub start_insert : A → CompactVector A → ℕ → ℕ → Result Error (CompactVector A)
  start_insert blank v index n =
      let grow = reserve v (v.size + n) in
      let opened = (do
        guard (leb index v.size) invalid_index
        v1 ← (if ltb (capacity_of internal v.storage) (v.size + n) then grow else ok v)
        v2 ← construct_all (replicate n blank) v1
        cells ← shift_right (v.size - index) v2.size n (data_of v2.storage)
        ok (record v2 { storage = with_data v2.storage cells })) in
      if n == 0 then ok v else opened

  unfoldable pub insert : A → CompactVector A → ℕ → List A → Result Error (CompactVector A)
  insert blank v index source = do
    v' ← start_insert blank v index (length source)
    cells ← assign_range source (data_of v'.storage) index
    ok (record v' { storage = with_data v'.storage cells })

  unfoldable pub erase : A → CompactVector A → ℕ → ℕ → Result Error (CompactVector A)
  erase blank v first last =
      let moved_in = (do
        before ← contents v first
        behind ← read_range (v.size - last) (data_of v.storage) last
        replace_by v (do
          new_me ← init_copy internal (new internal) before (v.size - (last - first))
          insert blank new_me new_me.size behind)) in
      let closed = close_gap v first last in
      let erased = (if must_move_in v (v.size - (last - first)) then moved_in else closed) in
      do
        guard (leb first last) last_before_first
        guard (leb last v.size) not_ours
        (if first == last then ok v else erased)
