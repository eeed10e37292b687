-- ===== src/Sync/Store/Gather.antt =====
-- `gatherSnapshots`, `gatherCandidates` and `pull` of packages/sync/src/pack-store.ts. What the
-- folder answers during one pull is `listing` and `read`: an object is read at most once, so a
-- function of the path covers every interleaving with other writers.
pub mod Growth
use knowtion.Base.{
  ℕ, Bool, not, ◌&&◌, ◌||◌, Option, none, some, is_some, List, [], ◌∷◌, Text, codes, ltb, ◌==◌,
  list_eq, nat_eq, contains, if◌then◌else◌, Outcome, ok, err, Ordering, compare,
}
use knowtion.Base.Dict.{lookup, insert, erase}
use knowtion.Pack.Bytes.{Bytes}
use knowtion.Pack.Envelope.{Crypto, decode_pack}
use knowtion.Evaluate.Sorting.{stable_sort}
use knowtion.Sync.Paths.{
  to_hex, pack_path, ParsedPath, parse_pack_path, parse_snapshot_path, may_be_copy, ends_with,
}
use knowtion.Sync.Store.{
  Version, Platform, StoreOptions, PackStore, RejectionCode, PullResult, PackCandidate,
  FoundSnapshot, StoreError, is_transient_read_error, World, empty_result, skip, reject,
}
use knowtion.Sync.Store.Pull.{rejection, merge_candidates, apply_snapshots}

module _ (o : StoreOptions) (p : Platform)
    (read : Text → Outcome (Option Text) (Option Bytes)) where
  open p use {Doc, locale_compare}

  -- A read of a listed object: absent, reported and retried later, or thrown.
  unfoldable pub read_object : Text → World Doc → Outcome StoreError (Option Bytes) × World Doc
  read_object path w = elim (read path) [
    | ok found ↦ (ok found, w)
    | err code ↦
        if is_transient_read_error code
        then (ok none, reject (rejection path RejectionCode.unreadable) w)
        else (err (StoreError.storage code), w)
  ]

  abbrev snapshot_read :
      Text
      → Text
      → ℕ
      → Outcome StoreError (Option Bytes) × World Doc
      → Outcome StoreError (Option FoundSnapshot) × World Doc
  snapshot_read path device seq (err e, w) = (err e, w)
  snapshot_read path device seq (ok none, w) = (ok none, w)
  snapshot_read path device seq (ok (some bytes), w) =
      (ok (some (record { path = path; device_hex = device; seq = seq; bytes = bytes })), w)

  -- One listed object as a snapshot that has not been applied.
  unfoldable pub gather_snapshot :
      Text → World Doc → Outcome StoreError (Option FoundSnapshot) × World Doc
  gather_snapshot path w =
      if not (ends_with (codes ".ksnap") path)
      then (ok none, w)
      else elim (parse_snapshot_path path) [
        | none ↦ (ok none, w)
        | some named ↦
            if not (named.document_hex == o.document_hex) || contains path w.store.known
            then (ok none, w)
            else snapshot_read path named.device_hex named.seq (read_object path w)
      ]

  -- The pack's own words on its device and sequence; its name only says whether it is a copy.
  unfoldable pub decoded_candidate :
      List Text
      → Text
      → Option ParsedPath
      → Bytes
      → World Doc
      → Outcome StoreError (Option PackCandidate) × World Doc
  decoded_candidate present path named bytes w = elim (decode_pack bytes) [
    | err code ↦
        if is_some named
        then (ok none, reject (rejection path (RejectionCode.format code)) w)
        else (ok none, w)
    | ok decoded ↦
        let device = to_hex decoded.header.device_id in
        if not (is_some named)
          && contains (pack_path device o.document_hex decoded.header.seq) present
        then (ok none, w)
        else (
          ok (
              some (record {
                path = path;
                device_hex = device;
                seq = decoded.header.seq;
                bytes = bytes;
                decoded = decoded;
                adopted = not (is_some named);
              })),
          w,
        )
  ]

  abbrev candidate_read :
      List Text
      → Text
      → Option ParsedPath
      → Outcome StoreError (Option Bytes) × World Doc
      → Outcome StoreError (Option PackCandidate) × World Doc
  candidate_read present path named (err e, w) = (err e, w)
  candidate_read present path named (ok none, w) = (ok none, w)
  candidate_read present path named (ok (some bytes), w) =
      decoded_candidate present path named bytes w

  -- Whether a listed object is a pack of this document, or perhaps a conflict copy of one.
  unfoldable pub is_relevant : Text → Option ParsedPath → Bool
  is_relevant path none = may_be_copy o.document_hex path
  is_relevant path (some named) = named.document_hex == o.document_hex

  unfoldable pub gather_candidate :
      List Text → Text → World Doc → Outcome StoreError (Option PackCandidate) × World Doc
  gather_candidate present path w =
      let named = parse_pack_path path in
      if not (ends_with (codes ".kpack") path) || not (is_relevant path named)
      then (ok none, w)
      else if contains path w.store.known
      then (ok none, skip w)
      else candidate_read present path named (read_object path w)

  -- The loop of a gathering: what each object gives, in the order of the listing.
  module _ {A : Type 0}
      (gather : Text → World Doc → Outcome StoreError (Option A) × World Doc) where
    abbrev keep :
        Option A → Outcome StoreError (List A) × World Doc → Outcome StoreError (List A) × World Doc
    keep (some a) (ok found, w) = (ok (a ∷ found), w)
    keep none (ok found, w) = (ok found, w)
    keep a (err e, w) = (err e, w)

    abbrev gathered :
        Outcome StoreError (Option A) × World Doc
        → (World Doc → Outcome StoreError (List A) × World Doc)
        → Outcome StoreError (List A) × World Doc
    gathered (ok a, w) next = keep a (next w)
    gathered (err e, w) next = (err e, w)

    unfoldable pub gather_all : List Text → World Doc → Outcome StoreError (List A) × World Doc
    gather_all [] w = (ok [], w)
    gather_all (path ∷ paths) w = gathered (gather path w) (gather_all paths)

  abbrev by_device : Text → ℕ → Text → ℕ → Ordering
  by_device a n b m = if a == b then compare n m else locale_compare a b

  unfoldable pub gather_snapshots :
      List Text → World Doc → Outcome StoreError (List FoundSnapshot) × World Doc
  gather_snapshots listing w = gather_all gather_snapshot listing w

  unfoldable pub gather_candidates :
      List Text → World Doc → Outcome StoreError (List PackCandidate) × World Doc
  gather_candidates listing w = gather_all (gather_candidate listing) listing w

  abbrev pub sort_snapshots : List FoundSnapshot → List FoundSnapshot
  sort_snapshots = stable_sort (λ a b. by_device a.device_hex a.seq b.device_hex b.seq)

  abbrev pub sort_candidates : List PackCandidate → List PackCandidate
  sort_candidates = stable_sort (λ a b. by_device a.device_hex a.seq b.device_hex b.seq)

  -- What others wrote counts as published; our own peer's counter is held back.
  unfoldable pub merged_counters : Text → Version → Version → Version
  merged_counters own_peer published version = elim (lookup own_peer published) [
    | none ↦ erase own_peer version
    | some counter ↦ insert own_peer counter version
  ]

  unfoldable pub finish_pull : World Doc → World Doc
  finish_pull w =
      let merged = merged_counters (p.peer_id w.doc) w.store.published_counters (p.version w.doc) in
      if ltb 0 w.result.applied || ltb 0 w.result.adopted
      then record w {
        store = record w.store { published_counters = merged; last_pushed = some merged };
      }
      else w

  module _ (c : Crypto) where
    abbrev pub finished :
        Outcome StoreError (Unit {0}) × World Doc → Outcome StoreError PullResult × World Doc
    finished (ok done, w) = (ok (finish_pull w).result, finish_pull w)
    finished (err e, w) = (err e, w)

    abbrev pub merge_found :
        Outcome StoreError (List PackCandidate) × World Doc
        → Outcome StoreError PullResult × World Doc
    merge_found (ok found, w) = finished (merge_candidates c o p (sort_candidates found) w)
    merge_found (err e, w) = (err e, w)

    abbrev pub after_snapshots :
        List Text
        → Outcome StoreError (List FoundSnapshot) × World Doc
        → Outcome StoreError PullResult × World Doc
    after_snapshots listing (ok found, w) =
        merge_found (gather_candidates listing (apply_snapshots c o p (sort_snapshots found) w))
    after_snapshots listing (err e, w) = (err e, w)

    unfoldable pub pull :
        Outcome (Option Text) (List Text)
        → PackStore
        → Doc
        → Outcome StoreError PullResult × World Doc
    pull (err code) s doc =
        (err (StoreError.storage code), record { store = s; doc = doc; result = empty_result })
    pull (ok listing) s doc =
        after_snapshots listing
          (gather_snapshots listing (record { store = s; doc = doc; result = empty_result }))
