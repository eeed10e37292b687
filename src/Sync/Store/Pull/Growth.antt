-- ===== src/Sync/Store/Pull/Growth.antt =====
-- The store before and after the loop of `pull` over candidates.
use knowtion.Base.{
  ◌≤◌, ◌≡◌, subst, inl, inr, Bool, true, false, ◌&&◌, Option, none, some, List, [], ◌∷◌, Text, ltb,
  ◌==◌, list_eq, nat_eq, contains, Outcome, ok, err, Bool-cases, arith,
}
use knowtion.Base.Dict.{lookup, add, contains-add}
use knowtion.Pack.Bytes.{Bytes}
use knowtion.Pack.Envelope.{Crypto}
use knowtion.Sync.Store.{
  Platform, Thrown, StoreOptions, PackStore, RejectedPack, PackCandidate, StoreError, World, skip,
  reject,
}
use knowtion.Sync.Store.Pull.{
  identity, covered, breaks_chain, remember, signature_problem, open_payload, settle, count,
  adopt_own, after_import, import_candidate, with_payload, if_signed, merge_candidate,
  merge_candidates, after,
}

-- What a store never loses.
pub record Grows (s t : PackStore) : Type 0 where
  pub last_seq : s.last_seq ≤ t.last_seq
  pub known : (path : Text) → contains path s.known ≡ true → contains path t.known ≡ true
  pub applied :
      (id : Text) → contains id s.applied_packs ≡ true → contains id t.applied_packs ≡ true

pub Grows-refl : (s : PackStore) → Grows s s
Grows-refl s = record { last_seq = omega arith; known = λ path h. h; applied = λ id h. h }

pub Grows-trans : (s t u : PackStore) → Grows s t → Grows t u → Grows s u
Grows-trans s t u g h = record {
  last_seq = omega (arith, g.last_seq, h.last_seq);
  known = λ path k. h.known path (g.known path k);
  applied = λ id k. h.applied id (g.applied id k);
}

pub keeps : (b a : Text) (xs : List Text) → contains b xs ≡ true → contains b (add a xs) ≡ true
keeps b a xs h = ground (arith, contains-add b a xs)

skip-Grows : {D : Type 0} (v w : World D) → Grows v.store w.store → Grows v.store (skip w).store
unfolding skip
skip-Grows v w g = g

pub reject-Grows : {D : Type 0} (q : RejectedPack) (w : World D) → Grows w.store (reject q w).store
unfolding reject
reject-Grows q w = Grows-refl w.store

module _ (c : Crypto) (o : StoreOptions) where
  settle-Grows :
      {D : Type 0} (x : PackCandidate) (w : World D) → Grows w.store (settle c o x w).store
  unfolding settle
  settle-Grows x w = record {
    last_seq = omega arith;
    known = λ path h. keeps path x.path w.store.known h;
    applied = λ id h. keeps id (identity x.device_hex x.seq) w.store.applied_packs h;
  }

  remember-Grows :
      {D : Type 0} (x : PackCandidate) (w : World D) → Grows w.store (remember x.path w).store
  unfolding remember
  remember-Grows x w = record {
    last_seq = omega arith;
    known = λ path h. keeps path x.path w.store.known h;
    applied = λ id h. h;
  }

  adopt_own-Grows :
      {D : Type 0} (x : PackCandidate) (w : World D) → Grows w.store (adopt_own c o x w).store
  unfolding adopt_own
  adopt_own-Grows x w =
      elim (Bool-cases (x.device_hex == o.device_hex && ltb w.store.last_seq x.seq)) [
        | inl own ↦
            rw own (record { last_seq = ground arith; known = λ path h. h; applied = λ id h. h })
        | inr foreign ↦ rw foreign (Grows-refl w.store)
      ]

  count-store : {D : Type 0} (x : PackCandidate) (w : World D) → (count c o x w).store ≡ w.store
  unfolding count
  count-store x w = ground arith

  module _ (p : Platform) where
    open p use {Doc}

    -- The outcomes of one candidate.
    module _ (P : Outcome StoreError (Unit {0}) × World Doc → Type 0) (x : PackCandidate)
        (w : World Doc) where
      module _ (rejected : (q : RejectedPack) → P (ok tt, reject q w))
          (anchored : P (ok tt, skip (settle c o x w))) (failed : P (err StoreError.open_failed, w))
          (imported : (plaintext : Bytes)
            → P (after_import c o p x w (p.import_update plaintext w.doc))) where
        with_payload-cases : (r : Outcome Thrown Bytes) → P (with_payload c o p x w r)
        unfolding import_candidate
        with_payload-cases (ok plaintext) = imported plaintext
        with_payload-cases (err (Thrown.format code)) = rejected _
        with_payload-cases (err Thrown.other) = failed

        if_signed-cases : (problem : Option RejectedPack) → P (if_signed c o p x w problem)
        unfolding if_signed
        if_signed-cases (some problem) = rejected problem
        if_signed-cases none =
            elim (Bool-cases (covered (lookup x.device_hex w.store.snapshot_anchors) x.seq)) [
              | inl e ↦ rw e anchored
              | inr e ↦ elim (Bool-cases (breaks_chain w.store x)) [
                | inl broken ↦ rw (e, broken) (rejected _)
                | inr chains ↦ rw (e, chains) (with_payload-cases (open_payload c o x.decoded))
              ]
            ]

        pub merge_candidate-cases :
            (contains x.path w.store.known ≡ true → P (ok tt, skip w))
            → P (ok tt, skip (remember x.path w))
            → P (merge_candidate c o p x w)
        unfolding merge_candidate
        merge_candidate-cases known applied = elim (Bool-cases (contains x.path w.store.known)) [
          | inl e ↦ rw e (known e)
          | inr e ↦
              elim (Bool-cases (contains (identity x.device_hex x.seq) w.store.applied_packs)) [
                | inl old ↦ rw (e, old) applied
                | inr new ↦ rw (e, new) (if_signed-cases (signature_problem c o x))
              ]
        ]

    after_import-Grows :
        (x : PackCandidate) (w : World Doc) (r : Bool × Doc)
        → Grows w.store (after_import c o p x w r).1.store
    after_import-Grows x w (true, doc) =
        let w1 = settle c o x (record w { doc = doc }) in
        Grows-trans w.store w1.store _ (settle-Grows x (record w { doc = doc })) (
          subst (λ s. Grows s (adopt_own c o x (count c o x w1)).store) (count-store x w1)
            (adopt_own-Grows x (count c o x w1)))
    after_import-Grows x w (false, doc) = Grows-refl w.store

    merge_candidate-Grows :
        (x : PackCandidate) (w : World Doc) → Grows w.store (merge_candidate c o p x w).1.store
    merge_candidate-Grows x w =
        merge_candidate-cases (λ r. Grows w.store r.1.store) x w (λ q. reject-Grows q w)
          (skip-Grows w (settle c o x w) (settle-Grows x w)) (Grows-refl w.store)
          (λ plaintext. after_import-Grows x w (p.import_update plaintext w.doc))
          (λ e. skip-Grows w w (Grows-refl w.store))
          (skip-Grows w (remember x.path w) (remember-Grows x w))

    after-Grows :
        (s : PackStore) (r : Outcome StoreError (Unit {0}) × World Doc)
        (next : World Doc → Outcome StoreError (Unit {0}) × World Doc)
        → Grows s r.1.store
        → ((w : World Doc) → Grows w.store (next w).1.store)
        → Grows s (after c o p r next).1.store
    after-Grows s (ok done, w) next g h = Grows-trans s w.store _ g (h w)
    after-Grows s (err e, w) next g h = g

    -- A pull forgets no path and no pack and never lowers the sequence, even when it throws.
    pub merge_candidates-Grows :
        (xs : List PackCandidate) (w : World Doc)
        → Grows w.store (merge_candidates c o p xs w).1.store
    unfolding merge_candidates
    merge_candidates-Grows [] w = Grows-refl w.store
    merge_candidates-Grows (x ∷ xs) w =
        after-Grows w.store (merge_candidate c o p x w) (merge_candidates c o p xs)
          (merge_candidate-Grows x w) (merge_candidates-Grows xs)
