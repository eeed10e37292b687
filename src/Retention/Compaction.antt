-- ===== src/Retention/Compaction.antt =====
-- `collect` of packages/sync/src/compactor.ts on a folder that answers every call.
pub mod Safe
use knowtion.Base.{
  ℕ, zero, suc, ◌+◌, ◌-◌, ◌≡◌, refl, Bool, true, false, not, ◌&&◌, Option, none, some, List, [],
  ◌∷◌, ◌++◌, Text, codes, ltb, leb, length, take, replicate, ◌==◌, list_eq, nat_eq, if◌then◌else◌,
  max, compare, Ordering,
}
use knowtion.Pack.Bytes.{Bytes}
use knowtion.Evaluate.Sorting.{stable_sort}
use knowtion.Storage.{Folder}
use knowtion.Sync.Paths.{ParsedPath, parse_pack_path}
use knowtion.Retention.Eviction.{recent_deletes}

pub record SnapshotRecord : Type 0 where
  pub seq : ℕ
  pub created_at : ℕ
  pub supersedes_through : ℕ

pub record CompactionState : Type 0 where
  pub snapshots : List SnapshotRecord
  pub recent : List ℕ

-- `JSON.stringify` of the state, and the reader with its fallbacks.
pub record StateCodec : Type 0 where
  pub encode : CompactionState → Bytes
  pub decode : Bytes → CompactionState

pub record CompactorOptions : Type 0 where
  pub device_hex : Text
  pub document_hex : Text
  pub grace_ms : ℕ
  pub deletes_per_hour : ℕ

pub data CollectReason : Type 0 where
  no_mature_snapshot budget_spent : CollectReason

pub record CollectResult : Type 0 where
  pub deleted : ℕ
  pub withheld : ℕ
  pub reason : Option CollectReason

-- `state.snapshots.filter((s) => now - s.createdAt >= graceMs)`
unfoldable pub mature_snapshots : ℕ → ℕ → List SnapshotRecord → List SnapshotRecord
mature_snapshots now grace [] = []
mature_snapshots now grace (s ∷ snapshots) =
    let rest = mature_snapshots now grace snapshots in
    if leb (s.created_at + grace) now then s ∷ rest else rest

-- `Math.max(...mature.map((s) => s.supersedesThrough))`, of a list that is not empty.
unfoldable pub highest : SnapshotRecord → List SnapshotRecord → ℕ
highest s [] = s.supersedes_through
highest s (t ∷ snapshots) = max s.supersedes_through (highest t snapshots)

unfoldable pub is_superseded : Text → ℕ → Option ParsedPath → Bool
is_superseded device through none = false
is_superseded device through (some parsed) = parsed.device_hex == device && leb parsed.seq through

unfoldable pub seq_of : Option ParsedPath → ℕ
seq_of none = 0
seq_of (some parsed) = parsed.seq

-- The entries that a snapshot makes redundant, with their numbers.
unfoldable pub superseded_among : Text → ℕ → List Text → List (Text × ℕ)
superseded_among device through [] = []
superseded_among device through (path ∷ paths) =
    let rest = superseded_among device through paths in
    if is_superseded device through (parse_pack_path path)
    then (path, seq_of (parse_pack_path path)) ∷ rest
    else rest

unfoldable pub by_seq : Text × ℕ → Text × ℕ → Ordering
by_seq (p, m) (q, n) = compare m n

module _ {S : Type 0} (folder : Folder S) (codec : StateCodec) (options : CompactorOptions) where
  unfoldable pub own_prefix : Text
  own_prefix =
      codes "d/" ++ (options.device_hex ++ (codes "/" ++ (options.document_hex ++ codes "/")))

  unfoldable pub compaction_path : Text
  unfolding own_prefix
  compaction_path = own_prefix ++ codes "compaction.json"

  decoded : Option Bytes → CompactionState
  decoded none = record { snapshots = []; recent = [] }
  decoded (some bytes) = codec.decode bytes

  -- `#readState`
  unfoldable pub read_compaction : S → CompactionState
  unfolding decoded
  read_compaction s = decoded (folder.get compaction_path s)

  unfoldable pub delete_entries : List (Text × ℕ) → S → S
  delete_entries [] s = s
  delete_entries ((path, n) ∷ entries) s = delete_entries entries (folder.delete path s)

  unfoldable pub collect_some :
      ℕ → ℕ → CompactionState → List ℕ → List (Text × ℕ) → S → CollectResult × S
  collect_some now budget state recent superseded s =
      let chosen = take budget superseded in
      (
        record {
          deleted = length chosen;
          withheld = length superseded - length chosen;
          reason = none;
        },
        folder.put_own compaction_path
            (codec.encode (record state { recent = recent ++ replicate (length chosen) now }))
            (delete_entries chosen s),
      )

  -- What `collect` does with the packs that are superseded.
  unfoldable pub collect_superseded :
      ℕ → CompactionState → List ℕ → List (Text × ℕ) → S → CollectResult × S
  collect_superseded now state recent superseded s =
      if options.deletes_per_hour - length recent == 0
      then (
        record {
          deleted = 0;
          withheld = length superseded;
          reason = some CollectReason.budget_spent;
        },
        s,
      )
      else collect_some now (options.deletes_per_hour - length recent) state recent superseded s

  unfoldable pub collect_mature : ℕ → CompactionState → List SnapshotRecord → S → CollectResult × S
  collect_mature now state [] s =
      (record { deleted = 0; withheld = 0; reason = some CollectReason.no_mature_snapshot }, s)
  collect_mature now state (first ∷ mature) s =
      collect_superseded now state (recent_deletes now state.recent)
        (stable_sort by_seq
          (superseded_among options.device_hex (highest first mature) (folder.list own_prefix s)))
        s

  unfoldable pub collect : ℕ → S → CollectResult × S
  collect now s =
      let state = read_compaction s in
      collect_mature now state (mature_snapshots now options.grace_ms state.snapshots) s
