-- ===== src/Sync/Store/Pull/Covered.antt =====
-- `pull` on packs that a snapshot of their device covers.
use knowtion.Base.{
  ◌≡◌, refl, ◌∙◌, inl, inr, true, Option, none, some, List, [], ◌∷◌, Text, list_eq, nat_eq,
  contains, ok, Bool-cases, All,
}
use knowtion.Base.Dict.{lookup}
use knowtion.Pack.Envelope.{Crypto}
use knowtion.Sync.Store.{Platform, StoreOptions, RejectedPack, PackCandidate, World, skip, reject}
use knowtion.Sync.Store.Pull.{
  identity, covered, remember, signature_problem, settle, if_signed, merge_candidate,
  merge_candidates,
}

module _ (c : Crypto) (o : StoreOptions) (p : Platform) where
  open p use {Doc}

  -- A snapshot of the pack's own device has reached its sequence number.
  abbrev pub IsCovered : World Doc → PackCandidate → Type 0
  IsCovered w x = covered (lookup x.device_hex w.store.snapshot_anchors) x.seq ≡ true

  pub record Passed (w v : World Doc) : Type 0 where
    pub doc : v.doc ≡ w.doc
    pub anchors : v.store.snapshot_anchors ≡ w.store.snapshot_anchors
    pub last_seq : v.store.last_seq ≡ w.store.last_seq
    pub last_hash : v.store.last_hash ≡ w.store.last_hash

  passed_trans : (u v w : World Doc) → Passed u v → Passed v w → Passed u w
  passed_trans u v w a b = record {
    doc = b.doc ∙ a.doc;
    anchors = b.anchors ∙ a.anchors;
    last_seq = b.last_seq ∙ a.last_seq;
    last_hash = b.last_hash ∙ a.last_hash;
  }

  abbrev same : (w : World Doc) → Passed w w
  same w = record { doc = refl; anchors = refl; last_seq = refl; last_hash = refl }

  passed_skip : (w v : World Doc) → Passed w v → Passed w (skip v)
  unfolding skip
  passed_skip w v u = record {
    doc = u.doc;
    anchors = u.anchors;
    last_seq = u.last_seq;
    last_hash = u.last_hash;
  }

  passed_remember : (path : Text) (w : World Doc) → Passed w (remember path w)
  unfolding remember
  passed_remember path w = record { doc = refl; anchors = refl; last_seq = refl; last_hash = refl }

  passed_settle : (x : PackCandidate) (w : World Doc) → Passed w (settle c o x w)
  unfolding settle
  passed_settle x w = record { doc = refl; anchors = refl; last_seq = refl; last_hash = refl }

  passed_reject : (q : RejectedPack) (w : World Doc) → Passed w (reject q w)
  unfolding reject
  passed_reject q w = record { doc = refl; anchors = refl; last_seq = refl; last_hash = refl }

  if_signed_covered :
      (x : PackCandidate) (w : World Doc) (problem : Option RejectedPack)
      → IsCovered w x
      → (v : World Doc) × ((if_signed c o p x w problem ≡ (ok tt, v)) × Passed w v)
  unfolding if_signed
  if_signed_covered x w (some q) h = (reject q w, (refl, passed_reject q w))
  if_signed_covered x w none h =
      (skip (settle c o x w), (rw h refl, passed_skip w _ (passed_settle x w)))

  merge_covered :
      (x : PackCandidate) (w : World Doc)
      → IsCovered w x
      → (v : World Doc) × ((merge_candidate c o p x w ≡ (ok tt, v)) × Passed w v)
  unfolding merge_candidate
  merge_covered x w h = elim (Bool-cases (contains x.path w.store.known)) [
    | inl known ↦ (skip w, (rw known refl, passed_skip w w (same w)))
    | inr fresh ↦ elim (Bool-cases (contains (identity x.device_hex x.seq) w.store.applied_packs)) [
      | inl old ↦ (
        skip (remember x.path w),
        (rw (fresh, old) refl, passed_skip w _ (passed_remember x.path w)),
      )
      | inr new ↦
          let (v, (e, u)) = if_signed_covered x w (signature_problem c o x) h in
          (v, (rw (fresh, new) e, u))
    ]
  ]

  IsCovered-later :
      (xs : List PackCandidate) (w v : World Doc)
      → Passed w v
      → All (IsCovered w) xs
      → All (IsCovered v) xs
  IsCovered-later [] w v u h = tt
  IsCovered-later (x ∷ xs) w v u (h, hs) = (rw u.anchors h, IsCovered-later xs w v u hs)

  -- Packs that their device's snapshot covers are merged without an import. The numbering stays as
  -- it was too, for a device's own packs as well: a store that starts empty and finds only its own
  -- covered packs goes on at sequence number zero.
  pub merge_candidates_covered :
      (xs : List PackCandidate) (w : World Doc)
      → All (IsCovered w) xs
      → (v : World Doc) × ((merge_candidates c o p xs w ≡ (ok tt, v)) × Passed w v)
  unfolding merge_candidates
  merge_candidates_covered [] w h = (w, (refl, same w))
  merge_candidates_covered (x ∷ xs) w (h, hs) =
      let (v, (e, u)) = merge_covered x w h in
      let (v', (e', u')) = merge_candidates_covered xs v (IsCovered-later xs w v u hs) in
      (v', (rw e e', passed_trans w v v' u u'))
