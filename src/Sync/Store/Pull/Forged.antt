-- ===== src/Sync/Store/Pull/Forged.antt =====
-- `pull` on packs that fail the signature check.
use knowtion.Base.{
  ◌≡◌, ◌≢◌, refl, ◌∙◌, inl, inr, false, Option, none, some, List, [], ◌∷◌, Text, ◌==◌, list_eq,
  nat_eq, nat_beq_iff, contains, ok, Bool-cases, All, arith,
}
use knowtion.Pack.Bytes.{Bytes}
use knowtion.Pack.Layout.{suite_none}
use knowtion.Pack.Envelope.{Crypto, PackRejectionCode, verify_pack_signature}
use knowtion.Sync.Store.{
  Platform, PackCrypto, StoreOptions, RejectedPack, PackCandidate, World, skip, reject,
}
use knowtion.Sync.Store.Pull.{
  identity, rejection, to_rejection, remember, signature_problem, if_signed, merge_candidate,
  merge_candidates,
}

-- No key registered for the device it names verifies the pack.
abbrev pub Unverified : Crypto → PackCandidate → Option PackCrypto → Type 0
Unverified c x none = Unit
Unverified c x (some keys) =
    (public_key : Bytes)
    → keys.signing_key_for x.device_hex ≡ some public_key
    → verify_pack_signature c x.bytes public_key ≡ false

module _ (c : Crypto) (o : StoreOptions) where
  -- A pack under a suite that signs, which nothing this device trusts verifies.
  abbrev pub IsForged : PackCandidate → Type 0
  IsForged x = (x.decoded.header.suite_id ≢ suite_none) × Unverified c x o.crypto

  problem_keyless :
      (x : PackCandidate)
      → o.crypto ≡ none
      → (x.decoded.header.suite_id == suite_none) ≡ false
      → signature_problem c o x
        ≡ some (rejection x.path (to_rejection PackRejectionCode.unknown_key_epoch))
  unfolding signature_problem
  problem_keyless x e s = rw (signature_problem, s, e) refl

  problem_unknown :
      (x : PackCandidate) (keys : PackCrypto)
      → o.crypto ≡ some keys
      → keys.signing_key_for x.device_hex ≡ none
      → (x.decoded.header.suite_id == suite_none) ≡ false
      → signature_problem c o x
        ≡ some (rejection x.path (to_rejection PackRejectionCode.bad_signature))
  unfolding signature_problem
  problem_unknown x keys e k s = rw (signature_problem, s, e, k) refl

  problem_unverified :
      (x : PackCandidate) (keys : PackCrypto) (public_key : Bytes)
      → o.crypto ≡ some keys
      → keys.signing_key_for x.device_hex ≡ some public_key
      → (x.decoded.header.suite_id == suite_none) ≡ false
      → verify_pack_signature c x.bytes public_key ≡ false
      → signature_problem c o x
        ≡ some (rejection x.path (to_rejection PackRejectionCode.bad_signature))
  unfolding signature_problem
  problem_unverified x keys public_key e k s h = rw (signature_problem, s, e, k, h) refl

  problem_of_key :
      (x : PackCandidate) (keys : PackCrypto) (key : Option Bytes)
      → o.crypto ≡ some keys
      → keys.signing_key_for x.device_hex ≡ key
      → (x.decoded.header.suite_id == suite_none) ≡ false
      → Unverified c x (some keys)
      → (q : RejectedPack) × (signature_problem c o x ≡ some q)
  problem_of_key x keys none e k s h = (_, problem_unknown x keys e k s)
  problem_of_key x keys (some public_key) e k s h =
      (_, problem_unverified x keys public_key e k s (h public_key k))

  problem_of_crypto :
      (x : PackCandidate) (crypto : Option PackCrypto)
      → o.crypto ≡ crypto
      → (x.decoded.header.suite_id == suite_none) ≡ false
      → Unverified c x crypto
      → (q : RejectedPack) × (signature_problem c o x ≡ some q)
  problem_of_crypto x none e s h = (_, problem_keyless x e s)
  problem_of_crypto x (some keys) e s h = problem_of_key x keys _ e refl s h

  module _ (p : Platform) where
    open p use {Doc}

    -- The document, the chains and the numbering are as they were.
    pub record Untouched (w v : World Doc) : Type 0 where
      pub doc : v.doc ≡ w.doc
      pub chain_tips : v.store.chain_tips ≡ w.store.chain_tips
      pub applied_packs : v.store.applied_packs ≡ w.store.applied_packs
      pub last_seq : v.store.last_seq ≡ w.store.last_seq
      pub last_hash : v.store.last_hash ≡ w.store.last_hash

    untouched_trans : (u v w : World Doc) → Untouched u v → Untouched v w → Untouched u w
    untouched_trans u v w a b = record {
      doc = b.doc ∙ a.doc;
      chain_tips = b.chain_tips ∙ a.chain_tips;
      applied_packs = b.applied_packs ∙ a.applied_packs;
      last_seq = b.last_seq ∙ a.last_seq;
      last_hash = b.last_hash ∙ a.last_hash;
    }

    abbrev same : (w : World Doc) → Untouched w w
    same w = record {
      doc = refl;
      chain_tips = refl;
      applied_packs = refl;
      last_seq = refl;
      last_hash = refl;
    }

    untouched_skip : (w v : World Doc) → Untouched w v → Untouched w (skip v)
    unfolding skip
    untouched_skip w v u = record {
      doc = u.doc;
      chain_tips = u.chain_tips;
      applied_packs = u.applied_packs;
      last_seq = u.last_seq;
      last_hash = u.last_hash;
    }

    untouched_remember : (path : Text) (w : World Doc) → Untouched w (remember path w)
    unfolding remember
    untouched_remember path w = record {
      doc = refl;
      chain_tips = refl;
      applied_packs = refl;
      last_seq = refl;
      last_hash = refl;
    }

    untouched_reject : (q : RejectedPack) (w : World Doc) → Untouched w (reject q w)
    unfolding reject
    untouched_reject q w = record {
      doc = refl;
      chain_tips = refl;
      applied_packs = refl;
      last_seq = refl;
      last_hash = refl;
    }

    merge_forged :
        (x : PackCandidate) (w : World Doc) (q : RejectedPack)
        → signature_problem c o x ≡ some q
        → (v : World Doc) × ((merge_candidate c o p x w ≡ (ok tt, v)) × Untouched w v)
    unfolding merge_candidate if_signed
    merge_forged x w q problem = elim (Bool-cases (contains x.path w.store.known)) [
      | inl known ↦ (skip w, (rw known refl, untouched_skip w w (same w)))
      | inr fresh ↦
          elim (Bool-cases (contains (identity x.device_hex x.seq) w.store.applied_packs)) [
            | inl old ↦ (
              skip (remember x.path w),
              (rw (fresh, old) refl, untouched_skip w _ (untouched_remember x.path w)),
            )
            | inr new ↦ (reject q w, (rw (fresh, new, problem) refl, untouched_reject q w))
          ]
    ]

    -- However many forged packs a folder holds, merging them neither throws nor changes the
    -- document, any chain tip, or the packs and the sequence counted as applied.
    pub merge_candidates_forged :
        (xs : List PackCandidate) (w : World Doc)
        → All IsForged xs
        → (v : World Doc) × ((merge_candidates c o p xs w ≡ (ok tt, v)) × Untouched w v)
    unfolding merge_candidates
    merge_candidates_forged [] w h = (w, (refl, same w))
    merge_candidates_forged (x ∷ xs) w ((signs, unverified), hs) =
        let (q, problem) =
          problem_of_crypto x o.crypto refl
            (ground (arith, nat_beq_iff x.decoded.header.suite_id suite_none)) unverified in
        let (v, (e, u)) = merge_forged x w q problem in
        let (v', (e', u')) = merge_candidates_forged xs v hs in
        (v', (rw e e', untouched_trans w v v' u u'))
