-- ===== src/Sync/Store/Push.antt =====
-- `push` of packages/sync/src/pack-store.ts. The storage port is a parameter: what each of its
-- operations answers, and the storage after it.
pub mod Chained
pub mod Refused
pub mod Kept
use knowtion.Base.{
  ℕ, suc, ◌+◌, Bool, true, false, not, ◌&&◌, ◌||◌, Option, none, some, List, [], ◌∷◌, ◌++◌, length,
  Text, codes, ◌==◌, list_eq, nat_eq, if◌then◌else◌, Outcome, ok, err,
}
use knowtion.Base.Dict.{Dict, insert, add}
use knowtion.Pack.Bytes.{Bytes}
use knowtion.Pack.Envelope.{
  Crypto, PackInput, EncodeError, PackRejectionCode, decode_pack, encode_pack,
}
use knowtion.Sync.Paths.{decimal, to_hex, pack_path}
use knowtion.Sync.Store.{
  Version, Platform, PackCrypto, StoreOptions, PackStore, StoreError, has_new_operations,
}
use knowtion.Sync.Store.Pull.{identity}

-- storage-port.ts, less `list`. An error carries the errno code.
pub record StoragePort (S : Type 0) : Type 0 where
  pub put_if_absent : Text → Bytes → S → Outcome (Option Text) Bool × S
  pub get : Text → S → Outcome (Option Text) (Option Bytes) × S
  pub delete : Text → S → Outcome (Option Text) (Unit {0}) × S
  pub put_own : Text → Bytes → S → Outcome (Option Text) (Unit {0}) × S

pub record PushResult : Type 0 where
  pub path : Text
  pub seq : ℕ
  pub bytes : ℕ

-- The three codes of a damaged file.
unfoldable pub is_structural : PackRejectionCode → Bool
is_structural PackRejectionCode.too_short = true
is_structural PackRejectionCode.length_mismatch = true
is_structural PackRejectionCode.bad_header_crc = true
is_structural _ = false

unfoldable pub is_own_torn_pack : Bytes → Bool
is_own_torn_pack existing = elim (decode_pack existing) [
  | ok decoded ↦ false
  | err code ↦ is_structural code
]

module _ {S : Type 0} (port : StoragePort S) where
  abbrev pub after_replace :
      Text → Outcome (Option Text) Bool × S → Outcome StoreError (Unit {0}) × S
  after_replace path (ok true, st) = (ok tt, st)
  after_replace path (ok false, st) = (err (StoreError.refused path), st)
  after_replace path (err code, st) = (err (StoreError.storage code), st)

  abbrev pub after_delete :
      Text → Bytes → Outcome (Option Text) (Unit {0}) × S → Outcome StoreError (Unit {0}) × S
  after_delete path pack (ok done, st) = after_replace path (port.put_if_absent path pack st)
  after_delete path pack (err code, st) = (err (StoreError.storage code), st)

  -- A failed read counts as not knowing what is there.
  abbrev pub after_get :
      Text → Bytes → Outcome (Option Text) (Option Bytes) × S → Outcome StoreError (Unit {0}) × S
  after_get path pack (err code, st) = (err (StoreError.refused path), st)
  after_get path pack (ok none, st) = (err (StoreError.refused path), st)
  after_get path pack (ok (some existing), st) =
      if is_own_torn_pack existing
      then after_delete path pack (port.delete path st)
      else (err (StoreError.refused path), st)

  unfoldable pub resolve_occupied_seq : Text → Bytes → S → Outcome StoreError (Unit {0}) × S
  resolve_occupied_seq path pack st = after_get path pack (port.get path st)

  abbrev pub after_put :
      Text → Bytes → Outcome (Option Text) Bool × S → Outcome StoreError (Unit {0}) × S
  after_put path pack (ok true, st) = (ok tt, st)
  after_put path pack (ok false, st) = resolve_occupied_seq path pack st
  after_put path pack (err code, st) = (err (StoreError.storage code), st)

module _ (c : Crypto) (o : StoreOptions) where
  -- `JSON.stringify({ latestSeq, hash })`
  unfoldable pub head_text : PackStore → Text
  head_text s =
      codes "{\"latestSeq\":"
      ++ (decimal s.last_seq ++ (codes ",\"hash\":\"" ++ (to_hex s.last_hash ++ codes "\"}")))

  abbrev pub head_path : Text
  head_path = codes "d/" ++ (o.device_hex ++ (codes "/" ++ (o.document_hex ++ codes "/head.json")))

  -- The plaintext pack's input; the sealed pack's is the same with the keys added.
  abbrev pub pack_input : PackStore → Bytes → PackInput
  pack_input s payload = record {
    workspace_id = o.workspace_id;
    device_id = o.device_id;
    seq = suc s.last_seq;
    payload = payload;
    is_shallow_snapshot = none;
    suite_id = none;
    key_epoch = none;
    padding_len = none;
    prev_pack_hash = some s.last_hash;
    pack_salt = none;
    device_signature = none;
    signing_secret_key = none;
  }

  abbrev seal_with : Option PackCrypto → Option (PackInput → Outcome EncodeError Bytes)
  seal_with none = none
  seal_with (some keys) = keys.seal_pack

  abbrev built :
      Option (PackInput → Outcome EncodeError Bytes) → PackInput → Outcome EncodeError Bytes
  built none input = encode_pack c input
  built (some seal) input = seal input

  unfoldable pub build_pack : PackStore → Bytes → Outcome EncodeError Bytes
  build_pack s payload = built (seal_with o.crypto) (pack_input s payload)

  module _ (p : Platform) where
    open p use {Doc}

    abbrev exported : Option Version → Doc → Bytes
    exported none doc = p.export_all doc
    exported (some from) doc = p.export_from from doc

    unfoldable pub payload_of : PackStore → Doc → Bytes
    payload_of s doc = exported s.last_pushed doc

    -- The state once the pack is written.
    unfoldable pub pushed : PackStore → Doc → Bytes → PackStore
    pushed s doc pack = record s {
      last_seq = suc s.last_seq;
      last_hash = c.hash pack;
      chain_tips = insert o.device_hex (c.hash pack) s.chain_tips;
      applied_packs = add (identity o.device_hex (suc s.last_seq)) s.applied_packs;
      last_pushed = some (p.version doc);
      published_counters = p.version doc;
      known = add (pack_path o.device_hex o.document_hex (suc s.last_seq)) s.known;
    }

    module _ {S : Type 0} (port : StoragePort S) where
      abbrev Pushing : Type 0
      Pushing = Outcome StoreError (Option PushResult) × (PackStore × S)

      abbrev pub after_head :
          PushResult → PackStore → Outcome (Option Text) (Unit {0}) × S → Pushing
      after_head r s (ok done, st) = (ok (some r), (s, st))
      after_head r s (err code, st) = (err (StoreError.storage code), (s, st))

      abbrev pub after_write : PackStore → Doc → Bytes → Outcome StoreError (Unit {0}) × S → Pushing
      after_write s doc pack (ok done, st) =
          after_head
            (record {
              path = pack_path o.device_hex o.document_hex (suc s.last_seq);
              seq = suc s.last_seq;
              bytes = length pack;
            })
            (pushed s doc pack) (port.put_own head_path (head_text (pushed s doc pack)) st)
      after_write s doc pack (err e, st) = (err e, (s, st))

      abbrev pub after_build : PackStore → Doc → S → Outcome EncodeError Bytes → Pushing
      after_build s doc st (ok pack) =
          let path = pack_path o.device_hex o.document_hex (suc s.last_seq) in
          after_write s doc pack (after_put port path pack (port.put_if_absent path pack st))
      after_build s doc st (err e) = (err (StoreError.encode e), (s, st))

      unfoldable pub push :
          PackStore → Doc → S → Outcome StoreError (Option PushResult) × (PackStore × S)
      push s doc st =
          if not (has_new_operations (p.version doc) s.published_counters)
          then (ok none, (s, st))
          else after_build s doc st (build_pack s (payload_of s doc))
