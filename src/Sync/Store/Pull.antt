-- ===== src/Sync/Store/Pull.antt =====
-- Merging packs and snapshots into the document: the loops of `pull` and `applySnapshot` of
-- packages/sync/src/pack-store.ts.
pub mod Growth
pub mod Snapshots
pub mod Twice
pub mod Forged
pub mod Covered
use knowtion.Base.{
  ℕ, suc, ◌+◌, Bool, true, false, not, ◌&&◌, ◌||◌, Option, none, some, is_some, List, [], ◌∷◌, ◌++◌,
  Text, codes, ltb, leb, ◌==◌, list_eq, nat_eq, contains, if◌then◌else◌, Outcome, ok, err, Ordering,
  compare,
}
use knowtion.Base.Dict.{Dict, lookup, insert, erase, add}
use knowtion.Pack.Bytes.{Bytes}
use knowtion.Pack.Layout.{suite_none}
use knowtion.Pack.Envelope.{
  Crypto, PackRejectionCode, DecodedPack, decode_pack, is_chain_root, is_shallow_snapshot,
  verify_pack_signature, zero_hash,
}
use knowtion.Evaluate.Sorting.{stable_sort}
use knowtion.Sync.Paths.{
  decimal, to_hex, pack_path, ParsedPath, parse_pack_path, parse_snapshot_path, may_be_copy,
  ends_with,
}
use knowtion.Sync.Store.{
  Version, Platform, Thrown, PackCrypto, StoreOptions, PackStore, RejectionCode, RejectedPack,
  PullResult, PackCandidate, FoundSnapshot, StoreError, is_transient_read_error, World,
  empty_result, skip, reject,
}

-- `${deviceHex}:${String(seq)}`
unfoldable pub identity : Text → ℕ → Text
identity device_hex seq = device_hex ++ (codes ":" ++ decimal seq)

abbrev pub anchor_or_zero : Option ℕ → ℕ
anchor_or_zero none = 0
anchor_or_zero (some n) = n

abbrev pub covered : Option ℕ → ℕ → Bool
covered none seq = false
covered (some anchor) seq = leb seq anchor

abbrev pub re_anchors : Option ℕ → ℕ → Bool
re_anchors none seq = false
re_anchors (some anchor) seq = seq == anchor + 1

abbrev pub tip_or_zero : Option Bytes → Bytes
tip_or_zero none = zero_hash
tip_or_zero (some tip) = tip

-- The pack is neither a root, nor the first above a snapshot, nor the successor of the tip.
unfoldable pub breaks_chain : PackStore → PackCandidate → Bool
breaks_chain s c =
    not (is_chain_root c.decoded.header)
    && (not (re_anchors (lookup c.device_hex s.snapshot_anchors) c.seq)
        && not (c.decoded.header.prev_pack_hash == tip_or_zero (lookup c.device_hex s.chain_tips)))

unfoldable pub remember : {D : Type 0} → Text → World D → World D
remember path w = record w { store = record w.store { known = add path w.store.known } }

abbrev pub to_rejection : PackRejectionCode → RejectionCode
to_rejection code = RejectionCode.format code

abbrev pub rejection : Text → RejectionCode → RejectedPack
rejection path code = record { path = path; code = code }

module _ (c : Crypto) (o : StoreOptions) where
  -- Reading rule 7.
  unfoldable pub signature_problem : PackCandidate → Option RejectedPack
  signature_problem x = if x.decoded.header.suite_id == suite_none then none else elim o.crypto [
    | none ↦ some (rejection x.path (to_rejection PackRejectionCode.unknown_key_epoch))
    | some keys ↦ elim (keys.signing_key_for x.device_hex) [
      | none ↦ some (rejection x.path (to_rejection PackRejectionCode.bad_signature))
      | some public_key ↦
          if verify_pack_signature c x.bytes public_key
          then none
          else some (rejection x.path (to_rejection PackRejectionCode.bad_signature))
    ]
  ]

  unfoldable pub open_payload : DecodedPack → Outcome Thrown Bytes
  open_payload d =
      if d.header.suite_id == suite_none
      then ok d.payload
      else elim o.crypto [ none ↦ err Thrown.other | some keys ↦ keys.open_pack d ]

  -- The pack's hash becomes the tip of its device, and its path and identity are remembered.
  unfoldable pub settle : {D : Type 0} → PackCandidate → World D → World D
  settle x w = record w {
    store = record w.store {
      known = add x.path w.store.known;
      applied_packs = add (identity x.device_hex x.seq) w.store.applied_packs;
      chain_tips = insert x.device_hex (c.hash x.bytes) w.store.chain_tips;
    };
  }

  unfoldable pub count : {D : Type 0} → PackCandidate → World D → World D
  count x w =
      if x.adopted
      then record w { result = record w.result { adopted = suc w.result.adopted } }
      else record w { result = record w.result { applied = suc w.result.applied } }

  -- Our own history, adopted on a restart.
  unfoldable pub adopt_own : {D : Type 0} → PackCandidate → World D → World D
  adopt_own x w =
      if x.device_hex == o.device_hex && ltb w.store.last_seq x.seq
      then record w { store = record w.store { last_seq = x.seq; last_hash = c.hash x.bytes } }
      else w

  module _ (p : Platform) where
    open p use {Doc}

    abbrev pub after_import :
        PackCandidate → World Doc → Bool × Doc → Outcome StoreError (Unit {0}) × World Doc
    after_import x w (true, doc) =
        (ok tt, adopt_own x (count x (settle x (record w { doc = doc }))))
    after_import x w (false, doc) = (err StoreError.import_failed, record w { doc = doc })

    unfoldable pub import_candidate :
        PackCandidate → Bytes → World Doc → Outcome StoreError (Unit {0}) × World Doc
    import_candidate x plaintext w = after_import x w (p.import_update plaintext w.doc)

    abbrev pub with_payload :
        PackCandidate → World Doc → Outcome Thrown Bytes → Outcome StoreError (Unit {0}) × World Doc
    with_payload x w (err (Thrown.format code)) =
        (ok tt, reject (rejection x.path (to_rejection code)) w)
    with_payload x w (err Thrown.other) = (err StoreError.open_failed, w)
    with_payload x w (ok plaintext) = import_candidate x plaintext w

    -- What follows the signature check: the anchor, the chain, the payload.
    unfoldable pub if_signed :
        PackCandidate → World Doc → Option RejectedPack → Outcome StoreError (Unit {0}) × World Doc
    if_signed x w (some problem) = (ok tt, reject problem w)
    if_signed x w none =
        if covered (lookup x.device_hex w.store.snapshot_anchors) x.seq
        then (ok tt, skip (settle x w))
        else if breaks_chain w.store x
        then (ok tt, reject (rejection x.path RejectionCode.broken_chain) w)
        else with_payload x w (open_payload x.decoded)

    -- The body of the loop over candidates.
    unfoldable pub merge_candidate :
        PackCandidate → World Doc → Outcome StoreError (Unit {0}) × World Doc
    merge_candidate x w =
        if contains x.path w.store.known
        then (ok tt, skip w)
        else if contains (identity x.device_hex x.seq) w.store.applied_packs
        then (ok tt, skip (remember x.path w))
        else if_signed x w (signature_problem x)

    abbrev pub after :
        Outcome StoreError (Unit {0}) × World Doc
        → (World Doc → Outcome StoreError (Unit {0}) × World Doc)
        → Outcome StoreError (Unit {0}) × World Doc
    after (ok done, w) next = next w
    after (err e, w) next = (err e, w)

    unfoldable pub merge_candidates :
        List PackCandidate → World Doc → Outcome StoreError (Unit {0}) × World Doc
    merge_candidates [] w = (ok tt, w)
    merge_candidates (x ∷ xs) w = after (merge_candidate x w) (merge_candidates xs)

    -- A snapshot as the candidate that the signature and payload checks take.
    abbrev candidate_of : FoundSnapshot → DecodedPack → PackCandidate
    candidate_of s decoded = record {
      path = s.path;
      device_hex = s.device_hex;
      seq = s.seq;
      bytes = s.bytes;
      decoded = decoded;
      adopted = false;
    }

    -- The anchor moves up only.
    unfoldable pub anchor : FoundSnapshot → World Doc → World Doc
    anchor s w = record w {
      store = record w.store {
        snapshot_anchors =
            if ltb (anchor_or_zero (lookup s.device_hex w.store.snapshot_anchors)) s.seq
            then insert s.device_hex s.seq w.store.snapshot_anchors
            else w.store.snapshot_anchors;
        known = add s.path w.store.known;
      };
      result = record w.result { applied = suc w.result.applied };
    }

    abbrev after_snapshot_import : FoundSnapshot → World Doc → Bool × Doc → World Doc
    after_snapshot_import s w (true, doc) = anchor s (record w { doc = doc })
    after_snapshot_import s w (false, doc) =
        reject (rejection s.path RejectionCode.broken_chain) (record w { doc = doc })

    import_snapshot : FoundSnapshot → Outcome Thrown Bytes → World Doc → World Doc
    import_snapshot s (err (Thrown.format code)) w = reject (rejection s.path (to_rejection code)) w
    import_snapshot s (err Thrown.other) w = reject (rejection s.path RejectionCode.broken_chain) w
    import_snapshot s (ok payload) w = after_snapshot_import s w (p.import_update payload w.doc)

    if_snapshot_signed : FoundSnapshot → DecodedPack → World Doc → Option RejectedPack → World Doc
    unfolding import_snapshot
    if_snapshot_signed s decoded w (some problem) = reject problem w
    if_snapshot_signed s decoded w none = import_snapshot s (open_payload decoded) w

    decoded_snapshot : FoundSnapshot → World Doc → Outcome PackRejectionCode DecodedPack → World Doc
    unfolding if_snapshot_signed
    decoded_snapshot s w (err code) = reject (rejection s.path (to_rejection code)) w
    decoded_snapshot s w (ok decoded) =
        if not (is_shallow_snapshot decoded.header)
        then reject (rejection s.path (to_rejection PackRejectionCode.bad_magic)) w
        else if_snapshot_signed s decoded w (signature_problem (candidate_of s decoded))

    unfoldable pub apply_snapshot : FoundSnapshot → World Doc → World Doc
    unfolding decoded_snapshot
    apply_snapshot s w = decoded_snapshot s w (decode_pack s.bytes)

    unfoldable pub apply_snapshots : List FoundSnapshot → World Doc → World Doc
    apply_snapshots [] w = w
    apply_snapshots (s ∷ snapshots) w = apply_snapshots snapshots (apply_snapshot s w)
