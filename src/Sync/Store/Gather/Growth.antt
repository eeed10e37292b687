-- ===== src/Sync/Store/Gather/Growth.antt =====
-- The store before and after a whole pull.
use knowtion.Base.{
  ◌≡◌, refl, sym, ◌∙◌, subst, inl, inr, ◌||◌, Option, none, some, List, [], ◌∷◌, Text, ltb, list_eq,
  nat_eq, Outcome, ok, err, Bool-cases, arith,
}
use knowtion.Pack.Bytes.{Bytes}
use knowtion.Pack.Envelope.{Crypto}
use knowtion.Sync.Paths.{ParsedPath, parse_pack_path}
use knowtion.Sync.Store.{
  Platform, StoreOptions, PackStore, PackCandidate, FoundSnapshot, StoreError, World, empty_result,
  skip, reject,
}
use knowtion.Sync.Store.Pull.{apply_snapshots, merge_candidates}
use knowtion.Sync.Store.Pull.Snapshots.{apply_snapshots-Grows}
use knowtion.Sync.Store.Pull.Growth.{Grows, Grows-refl, Grows-trans, merge_candidates-Grows}
use knowtion.Sync.Store.Gather.{
  read_object, gather_snapshot, decoded_candidate, candidate_read, gather_candidate, gathered, keep,
  gather_all, gather_snapshots, gather_candidates, finish_pull, finished, merge_found,
  after_snapshots, sort_snapshots, sort_candidates, pull,
}

module _ (o : StoreOptions) (p : Platform)
    (read : Text → Outcome (Option Text) (Option Bytes)) where
  open p use {Doc}

  read_object-store :
      (path : Text) (w : World Doc) → (read_object o p read path w).1.store ≡ w.store
  unfolding read_object reject
  read_object-store path w = ground arith

  gather_snapshot-store :
      (path : Text) (w : World Doc) → (gather_snapshot o p read path w).1.store ≡ w.store
  unfolding gather_snapshot
  gather_snapshot-store path w = ground (arith, read_object-store path w)

  decoded_candidate-store :
      (present : List Text) (path : Text) (named : Option ParsedPath) (bytes : Bytes)
      (w : World Doc)
      → (decoded_candidate o p read present path named bytes w).1.store ≡ w.store
  unfolding decoded_candidate reject
  decoded_candidate-store present path named bytes w = ground arith

  candidate_read-store :
      (present : List Text) (path : Text) (named : Option ParsedPath)
      (r : Outcome StoreError (Option Bytes) × World Doc)
      → (candidate_read o p read present path named r).1.store ≡ r.1.store
  candidate_read-store present path named (err e, w) = refl
  candidate_read-store present path named (ok none, w) = refl
  candidate_read-store present path named (ok (some bytes), w) =
      decoded_candidate-store present path named bytes w

  gather_candidate-store :
      (present : List Text) (path : Text) (w : World Doc)
      → (gather_candidate o p read present path w).1.store ≡ w.store
  unfolding gather_candidate skip
  gather_candidate-store present path w = ground (
    arith,
    read_object-store path w,
    candidate_read-store present path (parse_pack_path path) (read_object o p read path w),
  )

  module _ {A : Type 0} (gather : Text → World Doc → Outcome StoreError (Option A) × World Doc)
      (kept : (path : Text) (w : World Doc) → (gather path w).1.store ≡ w.store) where
    keep-store :
        (a : Option A) (r : Outcome StoreError (List A) × World Doc)
        → (keep o p read gather a r).1.store ≡ r.1.store
    keep-store none (ok found, w) = refl
    keep-store (some a) (ok found, w) = refl
    keep-store none (err e, w) = refl
    keep-store (some a) (err e, w) = refl

    gathered-store :
        (r : Outcome StoreError (Option A) × World Doc)
        (next : World Doc → Outcome StoreError (List A) × World Doc)
        → ((w : World Doc) → (next w).1.store ≡ w.store)
        → (gathered o p read gather r next).1.store ≡ r.1.store
    gathered-store (ok a, w) next h = keep-store a (next w) ∙ h w
    gathered-store (err e, w) next h = refl

    gather_all-store :
        (paths : List Text) (w : World Doc) → (gather_all o p read gather paths w).1.store ≡ w.store
    unfolding gather_all
    gather_all-store [] w = refl
    gather_all-store (path ∷ paths) w =
        gathered-store (gather path w) (gather_all o p read gather paths) (gather_all-store paths)
        ∙ kept path w

  finish_pull-Grows : (w : World Doc) → Grows w.store (finish_pull o p read w).store
  unfolding finish_pull
  finish_pull-Grows w = elim (Bool-cases (ltb 0 w.result.applied || ltb 0 w.result.adopted)) [
    | inl some_applied ↦
        rw some_applied
          (record { last_seq = omega arith; known = λ path h. h; applied = λ id h. h })
    | inr none_applied ↦ rw none_applied (Grows-refl w.store)
  ]

  module _ (c : Crypto) where
    finished-Grows :
        (s : PackStore) (r : Outcome StoreError (Unit {0}) × World Doc)
        → Grows s r.1.store
        → Grows s (finished o p read c r).1.store
    finished-Grows s (ok done, w) g = Grows-trans s w.store _ g (finish_pull-Grows w)
    finished-Grows s (err e, w) g = g

    merge_found-Grows :
        (s : PackStore) (r : Outcome StoreError (List PackCandidate) × World Doc)
        → Grows s r.1.store
        → Grows s (merge_found o p read c r).1.store
    merge_found-Grows s (ok found, w) g =
        finished-Grows s (merge_candidates c o p (sort_candidates o p read found) w) (
          Grows-trans s w.store _ g
            (merge_candidates-Grows c o p (sort_candidates o p read found) w))
    merge_found-Grows s (err e, w) g = g

    after_snapshots-Grows :
        (s : PackStore) (listing : List Text)
        (r : Outcome StoreError (List FoundSnapshot) × World Doc)
        → Grows s r.1.store
        → Grows s (after_snapshots o p read c listing r).1.store
    unfolding gather_candidates
    after_snapshots-Grows s listing (err e, w) g = g
    after_snapshots-Grows s listing (ok found, w) g =
        let w1 = apply_snapshots c o p (sort_snapshots o p read found) w in
        let same =
          gather_all-store (gather_candidate o p read listing) (gather_candidate-store listing)
            listing w1 in
        merge_found-Grows s (gather_candidates o p read listing w1) (
          subst (Grows s) (sym same) (
            Grows-trans s w.store _ g
              (apply_snapshots-Grows c o p (sort_snapshots o p read found) w)))

-- Whatever the folder lists and answers, and whether the pull returns or throws, the store has
-- lost no known path and no applied pack, and its sequence number is not lower than before.
pub pull-Grows :
    (c : Crypto) (o : StoreOptions) (p : Platform)
    (read : Text → Outcome (Option Text) (Option Bytes))
    (listing : Outcome (Option Text) (List Text)) (s : PackStore) (doc : p.Doc)
    → Grows s (pull o p read c listing s doc).1.store
unfolding pull gather_snapshots
pull-Grows c o p read (err code) s doc = Grows-refl s
pull-Grows c o p read (ok listing) s doc =
    let w : World p.Doc = record { store = s; doc = doc; result = empty_result } in
    after_snapshots-Grows o p read c s listing (gather_snapshots o p read listing w) (
      subst (Grows s)
        (sym (
          gather_all-store o p read (gather_snapshot o p read) (gather_snapshot-store o p read)
            listing w))
        (Grows-refl s))
