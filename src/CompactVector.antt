-- ===== src/CompactVector.antt =====
-- utils/compact_vector.h: a vector whose elements stand inside the object while they are few. A cell
-- of the storage holds `none` where no element is constructed. The template's `Size` is `uint32_t`
-- and `Safe` is true, as by default; `Internal` is the argument `internal`. An iterator is its distance
-- from `begin()`. Vectors are taken to stay below 2 ^ 30 elements, so that no `int` overflows.
-- With `Internal` equal to 0 the code constructs a first element in the bytes that the union has for
-- `ext`, which a small element fits in. No cells stand for these bytes, and such a construction is
-- `bad_access` here whatever the elements are.
pub mod Cells
pub mod Calls
pub mod Contents
pub mod Copying
pub mod Exchanging
pub mod Swapping
pub mod Growing
pub mod Resizing
pub mod Inserting
pub mod Opening
pub mod Between
pub mod Erasing
pub mod Client
pub mod Lists
pub mod Simulation
pub mod Refines
pub mod Making
mod Tests
use jml_base.Common.{
  ℕ, zero, suc, ◌+◌, ◌-◌, ◌*◌, ◌%◌, ◌^◌, ltb, leb, ◌==◌, ◌&&◌, not, min, max, if◌then◌else◌, Bool,
  true, false, Option, none, some, List, [], ◌∷◌, length, get_elem?, set, replicate,
}
use jml_base.Common.Result.{Result, ok, err, ◌>>=◌, ◌>>◌, guard}

-- `bad_access` is no exception: it is a use of memory outside the storage, or of a cell with no
-- element, which C++ leaves undefined.
pub data Error : Type 0 where
  pop_empty invalid_index out_of_range last_before_first not_ours too_big logic_error bad_access :
      Error

-- The union: `internal_`, or `pointer_` with `capacity_`. `is_internal_` says which.
pub data Storage {ℓ} (A : Type ℓ) : Type ℓ where
  itl : (cells : List (Option A)) → Storage A
  ext : (cells : List (Option A)) → (capacity : ℕ) → Storage A

pub record CompactVector {ℓ} (A : Type ℓ) : Type ℓ where
  pub storage : Storage A
  pub size : ℕ

-- `std::numeric_limits<Size>::max()`.
abbrev pub max_size : ℕ
max_size = 2 ^ 32 - 1

module _ {ℓ} {A : Type ℓ} where
  abbrev live : Option (Option A) → Result Error A
  live (some (some a)) = ok a
  live (some none) = err bad_access
  live none = err bad_access

  -- `data()[i]` read, constructed, destroyed and assigned.
  unfoldable pub load : List (Option A) → ℕ → Result Error A
  load cells i = live (get_elem? cells i)

  unfoldable pub construct : List (Option A) → ℕ → A → Result Error (List (Option A))
  construct cells i a = guard (ltb i (length cells)) bad_access >> ok (set cells i (some a))

  unfoldable pub destruct : List (Option A) → ℕ → Result Error (List (Option A))
  unfolding load
  destruct cells i = do _ ← load cells i; ok (set cells i none)

  unfoldable pub assign : List (Option A) → ℕ → A → Result Error (List (Option A))
  unfolding load
  assign cells i a = do _ ← load cells i; ok (set cells i (some a))

  -- The `n` elements from an index on, and the loop that destroys them.
  unfoldable pub read_range : ℕ → List (Option A) → ℕ → Result Error (List A)
  read_range zero cells i = ok []
  read_range (suc n) cells i = do a ← load cells i; rest ← read_range n cells (i + 1); ok (a ∷ rest)

  unfoldable pub destroy_range : ℕ → List (Option A) → ℕ → Result Error (List (Option A))
  destroy_range zero cells i = ok cells
  destroy_range (suc n) cells i = do cells' ← destruct cells i; destroy_range n cells' (i + 1)

  -- `uninitialized_move_and_destroy`, and the leftovers of `swap`.
  unfoldable pub move_range :
      ℕ → ℕ → List (Option A) → List (Option A) → Result Error (List (Option A) × List (Option A))
  move_range zero i from to = ok (from, to)
  move_range (suc n) i from to = do
    a ← load from i
    to' ← construct to i a
    from' ← destruct from i
    move_range n (i + 1) from' to'

  -- `std::swap` of the elements at the first indices.
  unfoldable pub swap_range :
      ℕ → ℕ → List (Option A) → List (Option A) → Result Error (List (Option A) × List (Option A))
  swap_range zero i mine others = ok (mine, others)
  swap_range (suc n) i mine others = do
    a ← load mine i
    b ← load others i
    mine' ← assign mine i b
    others' ← assign others i a
    swap_range n (i + 1) mine' others'

  -- `std::copy` of values to elements that are there already.
  unfoldable pub assign_range : List A → List (Option A) → ℕ → Result Error (List (Option A))
  assign_range [] cells i = ok cells
  assign_range (a ∷ rest) cells i = do cells' ← assign cells i a; assign_range rest cells' (i + 1)

  -- `data()`, and the object with other cells there.
  unfoldable pub data_of : Storage A → List (Option A)
  data_of (itl cells) = cells
  data_of (ext cells capacity) = cells

  unfoldable pub with_data : Storage A → List (Option A) → Storage A
  with_data (itl _) cells = itl cells
  with_data (ext _ capacity) cells = ext cells capacity

  unfoldable pub is_internal : Storage A → Bool
  is_internal (itl _) = true
  is_internal (ext _ _) = false

  -- `new (data() + size_) Data(a); ++size_;`.
  unfoldable pub construct_back : CompactVector A → A → Result Error (CompactVector A)
  construct_back v a = do
    cells ← construct (data_of v.storage) v.size a
    ok (record { storage = with_data v.storage cells; size = v.size + 1 })

module _ {ℓ} {A : Type ℓ} (internal : ℕ) where
  -- `capacity()`, of what the object holds.
  unfoldable pub capacity_of : Storage A → ℕ
  capacity_of (itl _) = internal
  capacity_of (ext _ n) = n

  -- `compact_vector()`.
  unfoldable pub new : CompactVector A
  new = record { storage = itl (replicate internal none); size = 0 }

  abbrev pub freed : Storage A → List (Option A) → Storage A
  freed (itl _) cells = itl cells
  freed (ext _ _) cells = itl (replicate internal none)

  unfoldable pub clear : CompactVector A → Result Error (CompactVector A)
  clear v = do
    cells ← destroy_range v.size (data_of v.storage) 0
    ok (record { storage = freed v.storage cells; size = 0 })

  abbrev pub allocated : ℕ → CompactVector A → CompactVector A
  allocated to_alloc v =
      if ltb internal to_alloc
      then record v { storage = ext (replicate to_alloc none) to_alloc }
      else v

  unfoldable pub init : CompactVector A → ℕ → Result Error (CompactVector A)
  init v to_alloc = do
    v' ← clear v
    guard (leb to_alloc max_size) too_big
    ok (allocated to_alloc v')

  -- The loop of `init_copy`: its pointer and `size_` count together.
  unfoldable pub copy_in : List A → ℕ → CompactVector A → Result Error (CompactVector A)
  copy_in [] to_alloc v = ok v
  copy_in (a ∷ rest) to_alloc v = do
    guard (leb v.size to_alloc) logic_error
    v' ← construct_back v a
    copy_in rest to_alloc v'

  unfoldable pub init_copy : CompactVector A → List A → ℕ → Result Error (CompactVector A)
  init_copy v source to_alloc = do v' ← init v to_alloc; copy_in source to_alloc v'
