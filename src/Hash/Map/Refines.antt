-- ===== src/Hash/Map/Refines.antt =====
-- utils/lightweight_hash.h: a client's calls give the same answers on a `Lightweight_Hash` as on a map.
use jml_base.Common.{
  ℕ, ◌+◌, ◌*◌, ◌^◌, ◌≤◌, ◌<◌, max, ◌≡◌, ◌≢◌, ◌==◌, inl, inr, refl, ap, arith, Bool, true, false,
  not, Bool-cases, List, [], ◌∷◌, Option, none, length, if◌then◌else◌, ℕ_discrete,
}
use jml_base.Common.Result.{Result, ok, err, ◌>>=◌}
use jml_base.Hash.{
  Error, LightweightHash, capacity, guard_value, capacity_of, find_bucket, find_or_insert,
  find_full_bucket,
}
use jml_base.Hash.Filling.{update, Models, get-lt}
use jml_base.Hash.Inserting.{bucket_at-get}
use jml_base.Hash.Updating.{FindsOrInserts, was_there, was_added, find_or_insert-FindsOrInserts}
use jml_base.Hash.Growing.{blank-Models}
use jml_base.Hash.Map.{new, clear, find, at_key, insert, value_at, to_iterator, found_iterator}
use jml_base.Hash.Map.Clear.{clear-Models}
use jml_base.Hash.Map.Reads.{
  iterator_at-full, end-capacity, dereference-full, Locates, located, missing,
  find_full_bucket-Locates,
}
use jml_base.Hash.Map.Storing.{store-Models}
use jml_base.Hash.Map.Client.{
  Call, assign, add, look, remove_all, Answer, done, inserted, found, is_none, assign_at, flag_of,
  look_at, call, run, call_map, run_map,
}

module _ {ℓ} {V : Type ℓ} where
  module _ (hash : ℕ → ℕ) (initial : V) where
    -- Both throw the same, or both give the same answer and the table models the map.
    data Agrees (h : LightweightHash V)
        : Result Error (LightweightHash V × Answer V)
          → Result Error ((ℕ → Option V) × Answer V)
          → Type ℓ where
      agreeing :
          {h' : LightweightHash V} {f : ℕ → Option V} {a : Answer V}
          → Models hash h' f
          → h'.size ≤ h.size + 1
          → capacity h' ≤ max (capacity h) (8 * (h.size + 1))
          → Agrees h (ok (h', a)) (ok (f, a))
      throwing : {e : Error} → Agrees h (err e) (err e)

    Models-eq :
        (h : LightweightHash V) (f g : ℕ → Option V)
        → ((k : ℕ) → f k ≡ g k)
        → Models hash h f
        → Models hash h g
    Models-eq h f g e models = record {
      table = models.table;
      distinct = models.distinct;
      reads = λ k nonzero. rw (← e k) (models.reads k nonzero);
    }

    update_twice :
        (f : ℕ → Option V) (k q : ℕ) (v w : V) → update (update f k w) k v q ≡ update f k v q
    update_twice f k q v w = elim (Bool-cases (q == k)) [ inl e ↦ rw e refl | inr e ↦ rw e refl ]

    module _ (h : LightweightHash V) (f : ℕ → Option V) (models : Models hash h f) (k : ℕ)
        (nonzero : k ≢ 0) (few : h.size < 2 ^ 27) (small : capacity h ≤ 2 ^ 30) where
      valid : (k == 0) ≡ false
      valid = ground arith

      owner : (k == k) ≡ true
      owner = ground arith

      assign-Agrees :
          (v : V) (r : Result Error ((LightweightHash V × ℕ) × Bool))
          → FindsOrInserts hash initial 0 h f k initial r
          → Agrees h (r >>= value_at k >>= assign_at v) (ok (update f k v, done))
      unfolding value_at assign_at
      assign-Agrees v _ (was_there i w e g) =
          let (stored, after) = store-Models hash h f i k v w models nonzero g in
          rw (bucket_at-get h.vals i (k, w) g, owner, stored)
            (agreeing after (omega arith) (omega arith))
      assign-Agrees v _ (was_added h' i new m g size bound) =
          let (stored, after) =
            store-Models hash h' (update f k initial) i k v initial m nonzero g in
          rw (bucket_at-get h'.vals i (k, initial) g, owner, stored)
            (agreeing (Models-eq _ _ _ (λ q. update_twice f k q v initial) after) (omega arith)
              bound)

      add-Agrees :
          (v : V) (r : Result Error ((LightweightHash V × ℕ) × Bool))
          → FindsOrInserts hash initial 0 h f k v r
          → Agrees h
              (r >>= to_iterator >>= flag_of)
              (ok (if is_none (f k) then update f k v else f, inserted (is_none (f k))))
      unfolding to_iterator flag_of
      add-Agrees v _ (was_there i w e g) =
          let full : not (k == 0) ≡ true = ground arith in
          let there : is_none (f k) ≡ false = ap is_none e in
          rw (iterator_at-full h i (k, w) models.table.sized (omega arith) g full, there)
            (agreeing models (omega arith) (omega arith))
      add-Agrees v _ (was_added h' i new m g size bound) =
          let full : not (k == 0) ≡ true = ground arith in
          let fresh : is_none (f k) ≡ true = ap is_none new in
          rw (iterator_at-full h' i (k, v) m.table.sized (omega arith) g full, fresh)
            (agreeing m (omega arith) bound)

      look-Agrees :
          (o : Option V) (r : Result Error (Option ℕ))
          → Locates hash h k o r
          → Agrees h (r >>= found_iterator h >>= look_at h) (ok (f, found o))
      unfolding found_iterator look_at
      look-Agrees _ _ (located i v g) =
          let full : not (k == 0) ≡ true = ground arith in
          let inside : (i == capacity h) ≡ false =
            ground (arith, get-lt h.vals i (k, v) g, models.table.sized) in
          rw
            (
              iterator_at-full h i (k, v) models.table.sized (omega arith) g full,
              inside,
              dereference-full h i (k, v) models.table.sized g full,
            )
            (agreeing models (omega arith) (omega arith))
      look-Agrees _ _ missing =
          let last : (capacity h == capacity h) ≡ true = ground arith in
          rw (end-capacity h (omega arith), last) (agreeing models (omega arith) (omega arith))

    -- A key of 0 is refused.
    refused :
        (h : LightweightHash V) (b : V) → find_or_insert hash initial 2 h (0, b) ≡ err guard_value
    unfolding find_or_insert find_bucket
    refused h b = refl

    not_found : (h : LightweightHash V) → find_full_bucket hash h 0 ≡ err guard_value
    unfolding find_full_bucket find_bucket
    not_found h = refl

    call-Agrees :
        (c : Call V) (h : LightweightHash V) (f : ℕ → Option V)
        → Models hash h f
        → h.size < 2 ^ 27
        → capacity h ≤ 2 ^ 30
        → Agrees h (call hash initial c h) (call_map c f)
    unfolding call at_key insert find
    call-Agrees (assign k v) h f models few small = elim (ℕ_discrete k 0) [
      | yes z ↦ rw (z, refused h initial) throwing
      | no p ↦
          let some_key : (k == 0) ≡ false = ground arith in
          rw some_key (
            assign-Agrees h f models k p few small v _ (
              find_or_insert-FindsOrInserts hash initial 0 h f k initial models p (omega arith)
                (λ full. omega arith)))
    ]
    call-Agrees (add k v) h f models few small = elim (ℕ_discrete k 0) [
      | yes z ↦ rw (z, refused h v) throwing
      | no p ↦
          let some_key : (k == 0) ≡ false = ground arith in
          rw some_key (
            add-Agrees h f models k p few small v _ (
              find_or_insert-FindsOrInserts hash initial 0 h f k v models p (omega arith)
                (λ full. omega arith)))
    ]
    call-Agrees (look k) h f models few small = elim (ℕ_discrete k 0) [
      | yes z ↦ rw (z, not_found h) throwing
      | no p ↦
          let some_key : (k == 0) ≡ false = ground arith in
          rw some_key (
            look-Agrees h f models k p few small (f k) _
              (find_full_bucket-Locates hash h f k models p (omega arith)))
    ]
    call-Agrees remove_all h f models few small =
        let (after, same) = clear-Models initial hash h f models in
        agreeing after (unfold clear in omega arith) (omega (arith, same))

    -- The rest of the calls, where the first agrees.
    rest-eq :
        (h : LightweightHash V) (cs : List (Call V))
        (r : Result Error (LightweightHash V × Answer V))
        (m : Result Error ((ℕ → Option V) × Answer V))
        → Agrees h r m
        → ((h' : LightweightHash V) (f : ℕ → Option V)
            → Models hash h' f
            → h'.size ≤ h.size + 1
            → capacity h' ≤ max (capacity h) (8 * (h.size + 1))
            → run hash initial cs h' ≡ run_map cs f)
        → (r >>= λ t. run hash initial cs t.0 >>= λ answers. ok (t.1 ∷ answers))
          ≡ (m >>= λ t. run_map cs t.0 >>= λ answers. ok (t.1 ∷ answers))
    rest-eq h cs _ _ (agreeing {h'} {f} {a} models size bound) same =
        rw (same h' f models size bound) refl
    rest-eq h cs _ _ throwing same = refl

    pub run-eq-run_map :
        (cs : List (Call V)) (h : LightweightHash V) (f : ℕ → Option V)
        → Models hash h f
        → h.size + length cs ≤ 2 ^ 27
        → capacity h ≤ 2 ^ 30
        → run hash initial cs h ≡ run_map cs f
    unfolding run run_map
    run-eq-run_map [] h f models few small = refl
    run-eq-run_map (c ∷ cs) h f models few small =
        rest-eq h cs (call hash initial c h) (call_map c f)
          (call-Agrees c h f models (omega arith) small)
          (λ h' f' models' size bound. run-eq-run_map cs h' f' models' (omega arith) (omega arith))

    -- From the default constructor on, and as long as no `int` of the code overflows (2 ^ 27 calls), every
    -- sequence of assignments through `operator []`, of `insert`, `find` and `clear` gives on the table
    -- the answers that it gives on a map of the keys, and throws where a key is 0. The table grows as
    -- it needs to.
    pub new-run-eq-run_map :
        (cs : List (Call V)) → length cs ≤ 2 ^ 27 → run hash initial cs new ≡ run_map cs (λ _. none)
    unfolding capacity_of
    new-run-eq-run_map cs few =
        run-eq-run_map cs new (λ _. none) (blank-Models hash initial 0) (omega arith) (omega arith)
