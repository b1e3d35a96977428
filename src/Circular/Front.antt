-- ===== src/Circular/Front.antt =====
-- utils/circular_buffer.h: `push_front`, which writes over the last element and does not count the
-- new one.
use jml_base.Common.{
  ◌-◌, ◌<◌, ◌==◌, ◌≡◌, arith, List, some, false, refl, if◌then◌else◌, length, get_elem?,
  get_elem?-set_self, set,
}
use jml_base.Common.Result.{ok}
use jml_base.Circular.{Buffer, offset_of, push_front, make_room}
use jml_base.Circular.Cells.{offset_of-lt}
use jml_base.Circular.Contents.{Holds, started_lt, element_at-negsuc}
use jml_base.Circular.Ends.{construct-cell}

module _ {ℓ} {A : Type ℓ} where
  -- `push_front` on a buffer that holds some elements and has room does not fail, but the size stays as
  -- it was, and the new value stands in the cell of the last element.
  pub push_front_overwrites :
      (b : Buffer A) (xs : List A) (v : A)
      → Holds b xs
      → 0 < b.size
      → b.size < b.capacity
      → (after : Buffer A) × (push_front b v ≡ ok after)
        × (after.size ≡ b.size)
        × (get_elem? after.vals (offset_of b.capacity b.start (b.size - 1)) ≡ some (some v))
  unfolding push_front make_room
  push_front_overwrites b xs v h some_size room =
      let test : (b.size == b.capacity) ≡ false = ground arith in
      let i = offset_of b.capacity b.start (b.size - 1) in
      let inside_lt : i < length b.vals = omega (
        arith,
        h.sized,
        offset_of-lt b.capacity b.start (b.size - 1) (started_lt h (omega arith)) (omega arith),
      ) in
      (
        record b {
          vals = set b.vals i (some v);
          start = if b.start == 0 then b.capacity - 1 else b.start - 1;
        },
        rw (
          test,
          element_at-negsuc b 0 (omega arith) some_size,
          construct-cell b.vals i v inside_lt,
        ),
        refl,
        get_elem?-set_self b.vals i (some v) inside_lt,
      )
