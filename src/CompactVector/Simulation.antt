-- ===== src/CompactVector/Simulation.antt =====
-- utils/compact_vector.h: one call of a client, on the vector and on a list.
use jml_base.Common.{
  ◌^◌, ℕ, ◌+◌, ◌≤◌, ◌<◌, ◌≡◌, refl, sym, ap, ap₂, ◌∙◌, arith, lt→ltb, le→ltb, none, List, [], ◌∷◌,
  ◌++◌, length, length-append, get_elem?_out, get_elem?_in, drop, dec_le, replicate, dec_lt, take,
}
use jml_base.Common.Result.{Result, ok, err, ◌>>=◌}
use jml_base.CompactVector.{CompactVector, Error, invalid_index, capacity_of, load, new, max_size}
use jml_base.CompactVector.Calls.{at, pop_back, erase, insert, start_insert}
use jml_base.CompactVector.Client.{drop_last, read, cut, put_in, call, call_list}
use jml_base.CompactVector.Contents.{split_last}
use jml_base.CompactVector.Copying.{leb-true, leb-false, new-Holds}
use jml_base.CompactVector.Growing.{Roomy, pop_back-Alike}
use jml_base.CompactVector.Resizing.{==-false}
use jml_base.CompactVector.Exchanging.{split_at}
use jml_base.CompactVector.Erasing.{erase-Roomy}
use jml_base.CompactVector.Inserting.{nonzero}
use jml_base.CompactVector.Between.{insert-Roomy, insert-nothing}
use jml_base.CompactVector.Lists.{
  but_last-snoc, get_elem?-cells_of, put_parts, cut_parts, cut_list-in,
}

module _ {ℓ} {A : Type ℓ} (blank : A) (internal : ℕ) where
  pub data Simulates (bound : ℕ)
      : Result Error (List A × CompactVector A) → Result Error (List A × List A) → Type ℓ where
    answering :
        {seen : List A} {v : CompactVector A} {xs : List A}
        → Roomy internal v 1 xs
        → length xs ≤ bound
        → Simulates bound (ok (seen, v)) (ok (seen, xs))
    throwing : {e : Error} → Simulates bound (err e) (err e)

  pub done-Simulates :
      (m : Result Error (CompactVector A)) (v : CompactVector A) (ys : List A) (bound : ℕ)
      → m ≡ ok v
      → Roomy internal v 1 ys
      → length ys ≤ bound
      → Simulates bound (m >>= λ v'. ok ([], v')) (ok ([], ys))
  done-Simulates m v ys bound e r fits = rw e (answering r fits)

  pub empty-Roomy : 0 < internal → Roomy {A = A} internal (new internal) 1 []
  unfolding new capacity_of
  empty-Roomy some_cell = record { holds = new-Holds internal; room = omega (arith, some_cell) }

  pub read-Simulates :
      (i : ℕ) (v : CompactVector A) (xs : List A) (bound : ℕ)
      → Roomy internal v 1 xs
      → length xs ≤ bound
      → Simulates bound (call blank internal (read i) v) (call_list (read i) xs)
  unfolding call call_list at load
  read-Simulates i v xs bound r fits = elim (dec_lt i (length xs)) [
    | yes inside ↦
        let (a, found) = get_elem?_in xs i inside in
        rw
          (
            lt→ltb i v.size (omega (arith, inside, r.holds.sized)),
            r.holds.cells,
            get_elem?-cells_of xs (replicate r.holds.free none) i a found,
            found,
          )
          (answering r fits)
    | no outside ↦
        rw (le→ltb i v.size (omega (arith, r.holds.sized)), get_elem?_out xs i (omega arith))
          throwing
  ]

  pub pop_back-Simulates :
      (v : CompactVector A) (x : A) (xs : List A) (bound : ℕ)
      → Roomy internal v 1 (x ∷ xs)
      → length xs + 1 ≤ bound
      → Simulates bound (call blank internal drop_last v) (call_list drop_last (x ∷ xs))
  unfolding call call_list
  pop_back-Simulates v x xs bound r fits =
      let (ys, a, same, count) = split_last (length xs) (x ∷ xs) (omega arith) in
      let (v', e, k) = pop_back-Alike internal v ys a (rw (sym same) r.holds) in
      rw (but_last-snoc x xs ys a same) (
        done-Simulates (pop_back v) v' ys bound e
          (record { holds = k.holds; room = rw k.room r.room }) (omega (arith, count, fits)))

  cut-Simulates :
      (first last : ℕ) (v : CompactVector A) (xs : List A) (bound : ℕ)
      → 0 < internal
      → internal ≤ max_size
      → Roomy internal v 1 xs
      → length xs ≤ bound
      → first ≤ last
      → last ≤ length xs
      → Simulates bound
          (call blank internal (cut first last) v)
          (ok ([], take first xs ++ drop last xs))
  unfolding call
  cut-Simulates first last v xs bound some_cell small r fits h k =
      let (front, gap, behind, same, count, count', kept) = cut_parts first last xs h k in
      let (v', e, r') =
        erase-Roomy internal blank v front gap behind (rw (sym same) r.holds) some_cell small
          r.room in
      rw kept (
        done-Simulates (erase internal blank v first last) v' (front ++ behind) bound
          (ap₂ (λ m n. erase internal blank v m n) (sym count) (sym count') ∙ e) r'
          (omega (
            arith,
            fits,
            ap length same,
            length-append (front ++ gap) behind,
            length-append front gap,
            length-append front behind,
          )))

  not_ours-Simulates :
      (first last : ℕ) (v : CompactVector A) (xs : List A) (bound : ℕ)
      → first ≤ last
      → length xs < last
      → Roomy internal v 1 xs
      → Simulates bound (call blank internal (cut first last) v) (call_list (cut first last) xs)
  unfolding call call_list erase
  not_ours-Simulates first last v xs bound h k r =
      rw
        (
          leb-true first last h,
          leb-false last (length xs) k,
          leb-false last v.size (omega (arith, k, r.holds.sized)),
        )
        throwing

  before_first-Simulates :
      (first last : ℕ) (v : CompactVector A) (xs : List A) (bound : ℕ)
      → last < first
      → Simulates bound (call blank internal (cut first last) v) (call_list (cut first last) xs)
  unfolding call call_list erase
  before_first-Simulates first last v xs bound h = rw (leb-false first last h) throwing

  invalid-insert :
      (i : ℕ) (a : A) (others : List A) (v : CompactVector A)
      → v.size < i
      → insert internal blank v i (a ∷ others) ≡ err invalid_index
  unfolding insert start_insert
  invalid-insert i a others v h =
      rw (==-false (length (a ∷ others)) 0 (nonzero (length others)), leb-false i v.size h) refl

  pub any_cut-Simulates :
      (first last : ℕ) (v : CompactVector A) (xs : List A) (bound : ℕ)
      → 0 < internal
      → internal ≤ max_size
      → Roomy internal v 1 xs
      → length xs ≤ bound
      → Simulates bound (call blank internal (cut first last) v) (call_list (cut first last) xs)
  any_cut-Simulates first last v xs bound some_cell small r fits = elim (dec_le first last) [
    | yes h ↦ elim (dec_le last (length xs)) [
      | yes k ↦
          rw (cut_list-in first last xs h k)
            (cut-Simulates first last v xs bound some_cell small r fits h k)
      | no k ↦ not_ours-Simulates first last v xs bound h (omega arith) r
    ]
    | no h ↦ before_first-Simulates first last v xs bound (omega arith)
  ]

  pub put_in-Simulates :
      (i : ℕ) (others : List A) (v : CompactVector A) (xs : List A) (bound : ℕ)
      → Roomy internal v 1 xs
      → length xs + length others ≤ bound
      → bound < 2 ^ 31
      → Simulates bound (call blank internal (put_in i others) v) (call_list (put_in i others) xs)
  unfolding call call_list
  put_in-Simulates i [] v xs bound r fits small =
      done-Simulates (insert internal blank v i []) v xs bound (insert-nothing internal blank v i) r
        (omega (arith, fits))
  put_in-Simulates i (a ∷ others) v xs bound r fits small = elim (dec_le i (length xs)) [
    | yes h ↦
        let (front, behind, same, count) = split_at i xs h in
        let total = ap length same ∙ length-append front behind in
        let (v', e, r') =
          insert-Roomy internal blank v front behind (a ∷ others) (rw (sym same) r.holds) r.room
            (omega (arith, fits, small, total, length-append front behind)) in
        let parts = put_parts i xs front behind same count in
        rw (leb-true i (length xs) h, parts.0, parts.1)
          (done-Simulates (insert internal blank v i (a ∷ others)) v'
            ((front ++ a ∷ others) ++ behind) bound
            (ap (λ n. insert internal blank v n (a ∷ others)) (sym count) ∙ e) r'
            (omega (
              arith,
              fits,
              total,
              length-append (front ++ a ∷ others) behind,
              length-append front (a ∷ others),
            )))
    | no h ↦
        rw (leb-false i (length xs) (omega arith))
          (rw (invalid-insert i a others v (omega (arith, r.holds.sized))) throwing)
  ]
