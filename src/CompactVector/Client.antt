-- ===== src/CompactVector/Client.antt =====
-- utils/compact_vector.h: a client's calls, run on the vector and on a list.
use jml_base.Common.{
  ℕ, ◌+◌, leb, Option, none, some, List, [], ◌∷◌, ◌++◌, length, get_elem?, take, drop,
}
use jml_base.Common.Result.{Result, ok, err, ◌>>=◌, ◌>>◌, guard}
use jml_base.CompactVector.{
  CompactVector, Error, pop_empty, out_of_range, last_before_first, not_ours, invalid_index, clear,
}
use jml_base.CompactVector.Calls.{at, reserve, resize, emplace_back, pop_back, erase, insert}
use jml_base.CompactVector.Resizing.{resize_list}

pub data Call {ℓ} (A : Type ℓ) : Type ℓ where
  append : A → Call A  -- `push_back`
  drop_last empty_all : Call A  -- `pop_back`, `clear`
  widen : ℕ → Call A  -- `reserve`
  refill : ℕ → A → Call A  -- `resize`
  read : ℕ → Call A  -- `at`, `operator []`
  cut : (first last : ℕ) → Call A  -- `erase`
  put_in : ℕ → List A → Call A  -- `insert`, of a range or of one element so many times

module _ {ℓ} {A : Type ℓ} (blank : A) (internal : ℕ) where
  -- With the element that the call reads.
  unfoldable pub call : Call A → CompactVector A → Result Error (List A × CompactVector A)
  call (append a) v = do v' ← emplace_back internal v a; ok ([], v')
  call drop_last v = do v' ← pop_back v; ok ([], v')
  call empty_all v = do v' ← clear internal v; ok ([], v')
  call (widen n) v = do v' ← reserve internal v n; ok ([], v')
  call (refill n a) v = do v' ← resize internal v n a; ok ([], v')
  call (read i) v = do a ← at v i; ok (a ∷ [], v)
  call (cut first last) v = do v' ← erase internal blank v first last; ok ([], v')
  call (put_in i others) v = do v' ← insert internal blank v i others; ok ([], v')

-- What a run has read, its last call first behind the others.
abbrev pub run_next {ℓ κ} :
    {A : Type ℓ} {S : Type κ} → (S → Result Error (List A)) → List A × S → Result Error (List A)
run_next rest (seen, s) = do later ← rest s; ok (seen ++ later)

module _ {ℓ} {A : Type ℓ} where
  unfoldable pub run : A → ℕ → List (Call A) → CompactVector A → Result Error (List A)
  run blank internal [] v = ok []
  run blank internal (c ∷ cs) v = do r ← call blank internal c v; run_next (run blank internal cs) r

  unfoldable pub but_last : A → List A → List A
  but_last x [] = []
  but_last x (y ∷ ys) = x ∷ but_last y ys

  abbrev pub lookup : Option A → List A → Result Error (List A × List A)
  lookup (some a) xs = ok (a ∷ [], xs)
  lookup none xs = err out_of_range

  -- The same calls on a list.
  unfoldable pub call_list : Call A → List A → Result Error (List A × List A)
  call_list (append a) xs = ok ([], xs ++ a ∷ [])
  call_list drop_last [] = err pop_empty
  call_list drop_last (x ∷ xs) = ok ([], but_last x xs)
  call_list empty_all xs = ok ([], [])
  call_list (widen n) xs = ok ([], xs)
  call_list (refill n a) xs = ok ([], resize_list n a xs)
  call_list (read i) xs = lookup (get_elem? xs i) xs
  call_list (cut first last) xs =
      let kept = take first xs ++ drop last xs in
      guard (leb first last) last_before_first
      >> (guard (leb last (length xs)) not_ours >> ok ([], kept))
  call_list (put_in i []) xs = ok ([], xs)
  call_list (put_in i (a ∷ others)) xs =
      guard (leb i (length xs)) invalid_index >> ok ([], (take i xs ++ a ∷ others) ++ drop i xs)

  unfoldable pub run_list : List (Call A) → List A → Result Error (List A)
  run_list [] xs = ok []
  run_list (c ∷ cs) xs = do r ← call_list c xs; run_next (run_list cs) r

  -- How far the calls may make a vector grow.
  abbrev pub demand : Call A → ℕ
  demand (append a) = 1
  demand (widen n) = n
  demand (refill n a) = n
  demand drop_last = 0
  demand empty_all = 0
  demand (read i) = 0
  demand (cut first last) = 0
  demand (put_in i others) = length others

  unfoldable pub total_demand : List (Call A) → ℕ
  total_demand [] = 0
  total_demand (c ∷ cs) = demand c + total_demand cs
