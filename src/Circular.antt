-- ===== src/Circular.antt =====
-- utils/circular_buffer.h: a buffer that grows, with its elements round the end of its storage. A
-- cell of the storage holds `none` where no element is constructed. The `int` fields are never
-- negative here, and where the code doubles the capacity an overflow is a failure; a capacity of at most
-- 2 ^ 30 leaves no sum of two offsets that overflows.
pub mod Cells
pub mod Contents
pub mod Placing
pub mod Clear
pub mod Grow
pub mod Queue
pub mod Front
pub mod EndReads
pub mod Ends
mod Tests
use jml_base.Common.{
  ℕ, zero, suc, ◌+◌, ◌-◌, ◌^◌, min, max, ltb, leb, ◌==◌, ◌&&◌, ◌||◌, if◌then◌else◌, Bool, true,
  false, not, Option, none, some, List, [], ◌∷◌, length, get_elem?, set, replicate,
}
use jml_base.Common.Int.{ℤ, pos, negsuc}
use jml_base.Common.Result.{Result, ok, err, ◌>>=◌, ◌>>◌, guard}

-- `bad_access` is no exception: it is a use of memory outside the storage, or of a cell with no
-- element, which C++ leaves undefined, as it does `overflow`, that of an `int`.
pub data Error : Type 0 where
  empty_buffer invalid_index invalid_start bad_access overflow : Error

pub record Buffer {ℓ} (A : Type ℓ) : Type ℓ where
  pub vals : List (Option A)
  pub start : ℕ
  pub size : ℕ
  pub capacity : ℕ

-- `offset = start_ + index; offset -= capacity_ * (offset >= capacity_)`.
abbrev pub offset_of : ℕ → ℕ → ℕ → ℕ
offset_of capacity start index =
    if leb capacity (start + index) then start + index - capacity else start + index

-- `capacity_ * 2`.
abbrev pub twice_capacity : ℕ → Result Error ℕ
twice_capacity capacity =
    guard (ltb (capacity + capacity) (2 ^ 31)) overflow >> ok (capacity + capacity)

module _ {ℓ} {A : Type ℓ} where
  abbrev live_cell : Option (Option A) → Result Error A
  live_cell (some (some a)) = ok a
  live_cell (some none) = err bad_access
  live_cell none = err bad_access

  -- `vals_[i]`, `new (vals_ + i) T(a)` and `vals_[i].~T()`.
  unfoldable pub load : List (Option A) → ℕ → Result Error A
  load vals i = live_cell (get_elem? vals i)

  unfoldable pub construct : List (Option A) → ℕ → A → Result Error (List (Option A))
  construct vals i a = guard (ltb i (length vals)) bad_access >> ok (set vals i (some a))

  unfoldable pub destruct : List (Option A) → ℕ → Result Error (List (Option A))
  unfolding load
  destruct vals i = do _ ← load vals i; ok (set vals i none)

  -- `element_at`, as an index into the storage. A negative index counts from `size_`; one that is
  -- still negative then goes below the first cell where the start does not make up for it.
  unfoldable pub element_at : Buffer A → ℤ → Result Error ℕ
  element_at b (pos index) =
      guard (not (b.capacity == 0)) empty_buffer >> ok (offset_of b.capacity b.start index)
  element_at b (negsuc index) =
      let back = index + 1 in
      guard (not (b.capacity == 0)) empty_buffer
      >> guard (leb back (b.start + b.size)) bad_access
      >> ok (
          if leb b.capacity (b.start + b.size - back)
          then b.start + b.size - back - b.capacity
          else b.start + b.size - back)

  -- `for (i = 0; i < n; ++i) new (dst + to + i) T(src[from + i]);`.
  pub copy_cells : ℕ → List (Option A) → ℕ → List (Option A) → ℕ → Result Error (List (Option A))
  copy_cells zero src from dst to = ok dst
  copy_cells (suc n) src from dst to = do
    a ← load src from
    dst' ← construct dst to a
    copy_cells n src (from + 1) dst' (to + 1)

  -- `for (i = 0; i < n; ++i) vals_[from + i].~T();`.
  pub destruct_cells : ℕ → List (Option A) → ℕ → Result Error (List (Option A))
  destruct_cells zero vals from = ok vals
  destruct_cells (suc n) vals from = do
    vals' ← destruct vals from
    destruct_cells n vals' (from + 1)

  abbrev pub first_half : Buffer A → ℕ
  first_half b = min (b.capacity - b.start) b.size

  abbrev pub second_half : Buffer A → ℕ
  second_half b = b.size - first_half b

  abbrev pub is_start : Buffer A → ℕ → Bool
  is_start b start = leb start b.capacity && not ((start == b.capacity) && not (b.capacity == 0))

  pub clear : Buffer A → ℤ → Result Error (Buffer A)
  clear b (negsuc _) = err invalid_start
  clear b (pos start) = do
    guard (is_start b start) invalid_start
    vals1 ← destruct_cells (first_half b) b.vals b.start
    vals2 ← destruct_cells (second_half b) vals1 0
    ok (record b { vals = vals2; size = 0; start = start })

  pub destroy : Buffer A → Result Error (Buffer A)
  destroy b = do b' ← clear b (pos 0); ok (record b' { vals = []; capacity = 0 })

  pub reserve : Buffer A → ℕ → Result Error (Buffer A)
  reserve b wanted =
      let grown = (do
        twice ← twice_capacity b.capacity
        let new_capacity = max twice wanted
        half ← copy_cells (first_half b) b.vals b.start (replicate new_capacity none) 0
        new_vals ← copy_cells (second_half b) b.vals 0 half (first_half b)
        gone ← destroy b
        ok (record gone { vals = new_vals; capacity = new_capacity; size = b.size })) in
      if leb wanted b.capacity then ok b else grown

  -- `Circular_Buffer(int initial_capacity = 0)`.
  pub new : ℕ → Result Error (Buffer A)
  new initial =
      let fresh : Buffer A = record { vals = []; start = 0; size = 0; capacity = 0 } in
      if initial == 0 then ok fresh else reserve fresh initial

  -- `if (size_ == capacity_) reserve(std::max(1, capacity_ * 2));`.
  pub make_room : Buffer A → Result Error (Buffer A)
  make_room b =
      let grown = (do twice ← twice_capacity b.capacity; reserve b (max 1 twice)) in
      if b.size == b.capacity then grown else ok b

  pub push_back : Buffer A → A → Result Error (Buffer A)
  push_back b val = do
    b1 ← make_room b
    let b2 = record b1 { size = b1.size + 1 }
    i ← element_at b2 (pos b1.size)
    vals ← construct b2.vals i val
    ok (record b2 { vals = vals })

  pub push_front : Buffer A → A → Result Error (Buffer A)
  push_front b val = do
    b1 ← make_room b
    i ← element_at b1 (negsuc 0)
    vals ← construct b1.vals i val
    ok (record b1 { vals = vals; start = if b1.start == 0 then b1.capacity - 1 else b1.start - 1 })

  pub pop_back : Buffer A → Result Error (Buffer A)
  pop_back b = do
    guard (not (b.size == 0)) empty_buffer
    i ← element_at b (negsuc 0)
    vals ← destruct b.vals i
    ok (record b { vals = vals; size = b.size - 1 })

  pub pop_front : Buffer A → Result Error (Buffer A)
  pop_front b = do
    guard (not (b.size == 0)) empty_buffer
    i ← element_at b (pos 0)
    vals ← destruct b.vals i
    ok (record b {
      vals = vals;
      start = if b.start + 1 == b.capacity then 0 else b.start + 1;
      size = b.size - 1;
    })

  pub front : Buffer A → Result Error A
  front b = do guard (not (b.size == 0)) empty_buffer; load b.vals b.start

  pub back : Buffer A → Result Error A
  back b = do
    guard (not (b.size == 0)) empty_buffer
    i ← element_at b (pos (b.size - 1))
    load b.vals i

  -- `index < -size_ || index >= size_`.
  abbrev pub is_index : Buffer A → ℤ → Bool
  is_index b (pos index) = ltb index b.size
  is_index b (negsuc index) = leb (index + 1) b.size

  -- `operator []` and `at`.
  pub at : Buffer A → ℤ → Result Error A
  at b index = do
    guard (not (b.size == 0)) empty_buffer
    guard (is_index b index) invalid_index
    i ← element_at b index
    load b.vals i
