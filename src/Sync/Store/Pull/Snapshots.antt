-- ===== src/Sync/Store/Pull/Snapshots.antt =====
-- The store before and after `applySnapshot`.
use knowtion.Base.{
  inl, inr, Bool, true, false, Option, none, some, List, [], ◌∷◌, Outcome, ok, err, Bool-cases,
  arith,
}
use knowtion.Pack.Bytes.{Bytes}
use knowtion.Pack.Envelope.{
  Crypto, PackRejectionCode, DecodedPack, decode_pack, is_shallow_snapshot,
}
use knowtion.Sync.Store.{Platform, Thrown, StoreOptions, RejectedPack, FoundSnapshot, World}
use knowtion.Sync.Store.Pull.{
  candidate_of, signature_problem, open_payload, anchor, after_snapshot_import, import_snapshot,
  if_snapshot_signed, decoded_snapshot, apply_snapshot, apply_snapshots,
}
use knowtion.Sync.Store.Pull.Growth.{Grows, Grows-refl, Grows-trans, keeps, reject-Grows}

module _ (c : Crypto) (o : StoreOptions) (p : Platform) where
  open p use {Doc}

  anchor-Grows : (s : FoundSnapshot) (w : World Doc) → Grows w.store (anchor c o p s w).store
  unfolding anchor
  anchor-Grows s w = record {
    last_seq = omega arith;
    known = λ path h. keeps path s.path w.store.known h;
    applied = λ id h. h;
  }

  after_snapshot_import-Grows :
      (s : FoundSnapshot) (w : World Doc) (r : Bool × Doc)
      → Grows w.store (after_snapshot_import c o p s w r).store
  after_snapshot_import-Grows s w (true, doc) = anchor-Grows s (record w { doc = doc })
  after_snapshot_import-Grows s w (false, doc) = reject-Grows _ (record w { doc = doc })

  import_snapshot-Grows :
      (s : FoundSnapshot) (r : Outcome Thrown Bytes) (w : World Doc)
      → Grows w.store (import_snapshot c o p s r w).store
  unfolding import_snapshot
  import_snapshot-Grows s (err (Thrown.format code)) w = reject-Grows _ w
  import_snapshot-Grows s (err Thrown.other) w = reject-Grows _ w
  import_snapshot-Grows s (ok payload) w =
      after_snapshot_import-Grows s w (p.import_update payload w.doc)

  if_snapshot_signed-Grows :
      (s : FoundSnapshot) (decoded : DecodedPack) (w : World Doc) (problem : Option RejectedPack)
      → Grows w.store (if_snapshot_signed c o p s decoded w problem).store
  unfolding if_snapshot_signed
  if_snapshot_signed-Grows s decoded w (some problem) = reject-Grows problem w
  if_snapshot_signed-Grows s decoded w none = import_snapshot-Grows s (open_payload c o decoded) w

  decoded_snapshot-Grows :
      (s : FoundSnapshot) (w : World Doc) (r : Outcome PackRejectionCode DecodedPack)
      → Grows w.store (decoded_snapshot c o p s w r).store
  unfolding decoded_snapshot
  decoded_snapshot-Grows s w (err code) = reject-Grows _ w
  decoded_snapshot-Grows s w (ok decoded) = elim (Bool-cases (is_shallow_snapshot decoded.header)) [
    | inl shallow ↦ rw shallow (
        if_snapshot_signed-Grows s decoded w (signature_problem c o (candidate_of c o p s decoded)))
    | inr full ↦ rw full (reject-Grows _ w)
  ]

  pub apply_snapshots-Grows :
      (snapshots : List FoundSnapshot) (w : World Doc)
      → Grows w.store (apply_snapshots c o p snapshots w).store
  unfolding apply_snapshots apply_snapshot
  apply_snapshots-Grows [] w = Grows-refl w.store
  apply_snapshots-Grows (s ∷ snapshots) w =
      Grows-trans w.store (apply_snapshot c o p s w).store _
        (decoded_snapshot-Grows s w (decode_pack s.bytes))
        (apply_snapshots-Grows snapshots (apply_snapshot c o p s w))
