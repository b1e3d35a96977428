-- ===== src/Hash/Map/Client.antt =====
-- utils/lightweight_hash.h: a client's calls, run on a `Lightweight_Hash` and on a map.
use jml_base.Common.{
  ℕ, ◌==◌, Bool, true, false, not, List, [], ◌∷◌, Option, none, some, if◌then◌else◌,
}
use jml_base.Common.Int.{pos}
use jml_base.Common.Result.{Result, ok, ◌>>=◌, ◌>>◌, guard}
use jml_base.Hash.{Error, LightweightHash, capacity, guard_value}
use jml_base.Hash.Filling.{update}
use jml_base.Hash.Walk.{dereference}
use jml_base.Hash.Map.{clear, find, at_key, insert}
use jml_base.Hash.Map.Storing.{store}

-- `hash[k] = v`, `hash.insert({k, v})`, `hash.find(k)` and `hash.clear()`.
pub data Call {ℓ} (V : Type ℓ) : Type ℓ where
  assign add : ℕ → V → Call V
  look : ℕ → Call V
  remove_all : Call V

-- What a call tells the client: nothing, whether it inserted, or the value found.
pub data Answer {ℓ} (V : Type ℓ) : Type ℓ where
  done : Answer V
  inserted : Bool → Answer V
  found : Option V → Answer V

abbrev pub is_none {ℓ} : {A : Type ℓ} → Option A → Bool
is_none none = true
is_none (some a) = false

module _ {ℓ} {V : Type ℓ} where
  unfoldable pub assign_at :
      V → (LightweightHash V × ℕ) × V → Result Error (LightweightHash V × Answer V)
  assign_at v (t, w) = do h ← store t.0 t.1 v; ok (h, done)

  unfoldable pub flag_of :
      (LightweightHash V × ℕ) × Bool → Result Error (LightweightHash V × Answer V)
  flag_of (t, flag) = ok (t.0, inserted flag)

  -- `if (it == hash.end()) ... else ... it->second`.
  unfoldable pub look_at : LightweightHash V → ℕ → Result Error (LightweightHash V × Answer V)
  look_at h i =
      let value = (do b ← dereference h (pos i); ok (h, found (some b.1))) in
      if i == capacity h then ok (h, found none) else value

  -- The fuel of 2 is for a table that grows and the insertions that fill the larger one.
  module _ (hash : ℕ → ℕ) (initial : V) where
    unfoldable pub call : Call V → LightweightHash V → Result Error (LightweightHash V × Answer V)
    unfolding look_at assign_at flag_of
    call (assign k v) h = at_key hash initial 2 h k >>= assign_at v
    call (add k v) h = insert hash initial 2 h (k, v) >>= flag_of
    call (look k) h = find hash initial 2 h k >>= look_at h
    call remove_all h = ok (clear initial h, done)

    unfoldable pub run : List (Call V) → LightweightHash V → Result Error (List (Answer V))
    unfolding call
    run [] h = ok []
    run (c ∷ cs) h = do r ← call c h; answers ← run cs r.0; ok (r.1 ∷ answers)

  -- The same calls on a map of the keys.
  abbrev pub call_map : Call V → (ℕ → Option V) → Result Error ((ℕ → Option V) × Answer V)
  call_map (assign k v) f = guard (not (k == 0)) guard_value >> ok (update f k v, done)
  call_map (add k v) f =
      guard (not (k == 0)) guard_value
      >> ok (if is_none (f k) then update f k v else f, inserted (is_none (f k)))
  call_map (look k) f = guard (not (k == 0)) guard_value >> ok (f, found (f k))
  call_map remove_all f = ok (λ _. none, done)

  unfoldable pub run_map : List (Call V) → (ℕ → Option V) → Result Error (List (Answer V))
  run_map [] f = ok []
  run_map (c ∷ cs) f = do r ← call_map c f; answers ← run_map cs r.0; ok (r.1 ∷ answers)
