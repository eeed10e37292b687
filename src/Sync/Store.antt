-- ===== src/Sync/Store.antt =====
-- The state of a pack store and the parts that it calls (packages/sync/src/pack-store.ts).
pub mod Pull
pub mod Gather
pub mod Push
use knowtion.Base.{
  ℕ, suc, ◌+◌, Bool, true, false, not, ◌&&◌, ◌||◌, Option, none, some, List, [], ◌∷◌, ◌++◌, Text,
  codes, ltb, leb, ◌==◌, list_eq, nat_eq, contains, if◌then◌else◌, Outcome, Ordering,
}
use knowtion.Base.Dict.{Dict, lookup}
use knowtion.Pack.Bytes.{Bytes}
use knowtion.Pack.Envelope.{Crypto, PackInput, EncodeError, PackRejectionCode, DecodedPack}

-- A version vector: the counter reached for each peer.
abbrev pub Version : Type 0
Version = Dict Text ℕ

-- The document and the platform, which third-party packages and the runtime provide. An import
-- gives whether it returned (an exception is `false`) and the document after it either way.
pub record Platform : Type 1 where
  pub Doc : Type 0
  pub version : Doc → Version
  pub peer_id : Doc → Text
  pub export_all : Doc → Bytes
  pub export_from : Version → Doc → Bytes
  pub import_update : Bytes → Doc → Bool × Doc
  pub locale_compare : Text → Text → Ordering

-- What opening a payload throws: a pack format error or any other.
pub data Thrown : Type 0 where
  format : PackRejectionCode → Thrown
  other : Thrown

-- The keys. Sealing and opening are sealed-pack.ts, which wraps a package for the cipher.
pub record PackCrypto : Type 0 where
  pub open_pack : DecodedPack → Outcome Thrown Bytes
  pub seal_pack : Option (PackInput → Outcome EncodeError Bytes)
  pub signing_key_for : Text → Option Bytes

pub record StoreOptions : Type 0 where
  pub workspace_id : Bytes
  pub device_id : Bytes
  pub device_hex : Text
  pub document_hex : Text
  pub crypto : Option PackCrypto

pub record PackStore : Type 0 where
  pub last_seq : ℕ
  pub last_hash : Bytes
  pub last_pushed : Option Version
  pub published_counters : Version
  pub known : List Text
  pub chain_tips : Dict Text Bytes
  pub snapshot_anchors : Dict Text ℕ
  pub applied_packs : List Text

pub data RejectionCode : Type 0 where
  format : PackRejectionCode → RejectionCode
  broken_chain unreadable : RejectionCode

-- The message of a rejection is not modelled.
pub record RejectedPack : Type 0 where
  pub path : Text
  pub code : RejectionCode

pub record PullResult : Type 0 where
  pub applied : ℕ
  pub adopted : ℕ
  pub skipped : ℕ
  pub rejected : List RejectedPack

pub record PackCandidate : Type 0 where
  pub path : Text
  pub device_hex : Text
  pub seq : ℕ
  pub bytes : Bytes
  pub decoded : DecodedPack
  pub adopted : Bool

pub record FoundSnapshot : Type 0 where
  pub path : Text
  pub device_hex : Text
  pub seq : ℕ
  pub bytes : Bytes

-- The exceptions that leave a pull or a push. A failed read or write has an errno code or none.
pub data StoreError : Type 0 where
  storage : Option Text → StoreError
  encode : EncodeError → StoreError
  import_failed open_failed : StoreError
  refused : Text → StoreError

abbrev transient_codes : List Text
transient_codes =
    codes "EBUSY"
    ∷ codes "EPERM"
    ∷ codes "EACCES"
    ∷ codes "EIO"
    ∷ codes "ETIMEDOUT"
    ∷ codes "EMFILE"
    ∷ codes "ENFILE"
    ∷ codes "ENETDOWN"
    ∷ codes "ENETUNREACH"
    ∷ codes "EHOSTDOWN"
    ∷ codes "UNKNOWN"
    ∷ []

-- read-errors.ts: whether a failed read is worth retrying.
unfoldable pub is_transient_read_error : Option Text → Bool
is_transient_read_error none = false
is_transient_read_error (some code) = contains code transient_codes

-- What a pull changes: the store, the document, and the result being counted.
pub record World (D : Type 0) : Type 0 where
  pub store : PackStore
  pub doc : D
  pub result : PullResult

abbrev pub empty_result : PullResult
empty_result = record { applied = 0; adopted = 0; skipped = 0; rejected = [] }

unfoldable pub skip : {D : Type 0} → World D → World D
skip w = record w { result = record w.result { skipped = suc w.result.skipped } }

unfoldable pub reject : {D : Type 0} → RejectedPack → World D → World D
reject p w = record w { result = record w.result { rejected = w.result.rejected ++ p ∷ [] } }

-- A document holds an operation that what was published does not cover.
unfoldable pub has_new_operations : Version → Version → Bool
has_new_operations [] published = false
has_new_operations ((peer, counter) ∷ rest) published = elim (lookup peer published) [
  | none ↦ ltb 0 counter || has_new_operations rest published
  | some n ↦ ltb n counter || has_new_operations rest published
]
