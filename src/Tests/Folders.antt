-- ===== src/Tests/Folders.antt =====
-- A folder in memory, what is deleted in it, and what holds deletions back.
use knowtion.Base.{
  ℕ, ◌*◌, ◌≤◌, ◌≡◌, ◌↔◌, ◌⊎◌, refl, true, false, Option, none, some, List, [], ◌∷◌, Text, codes,
  length, contains, replicate, list_beq, list_eq, nat_eq, ok, arith,
}
use knowtion.Base.Dict.{Dict, lookup, insert, erase}
use knowtion.Property.Dates.{compare_codepoints}
use knowtion.Evaluate.Matching.{starts_with}
use knowtion.Evaluate.Sorting.{insert_sorted, stable_sort}
use knowtion.Sync.Paths.{ParsedPath, parse_pack_path, pack_path}
use knowtion.Storage.{Folder}
use knowtion.Storage.Refined.{FolderCall, answers, expected_answers}
use knowtion.Storage.Memory.{
  MemoryStorage, memory_folder, has, put_own, get, delete, found, reversed, hidden_by, list,
}
use knowtion.Storage.Memory.Lawful.{complete, memory_folder-IsFolder, memory_folder-answers}
use knowtion.Retention.Guard.{DataLossVerdict, check_data_loss, defaults, check_data_loss-refused}
use knowtion.Retention.TrimFloor.{
  Counters, compute_trim_floor, acknowledged, floor_over, copied, lowered_to, drop_zeros,
  counter_of, nothing_if_empty,
}
use knowtion.Retention.TrimFloor.Safe.{Allows, compute_trim_floor-Allows}
use knowtion.Retention.Eviction.{
  DeletesCodec, EvictionOptions, EvictionProgress, recent_deletes, device_path, prefix_of,
  read_state, decoded, delete_all, delete_some, within_budget, forget,
}
use knowtion.Retention.Eviction.Gone.{has_slash, forget_all, forget-done}
use knowtion.Retention.Eviction.Paced.{IsPaced, forget-IsPaced}
use knowtion.Retention.Compaction.{
  StateCodec, CompactorOptions, compaction_path, read_compaction, collect,
}
use knowtion.Retention.Compaction.Safe.{is_covered, collect-safe}

abbrev folder : Folder MemoryStorage
folder = memory_folder compare_codepoints (complete compare_codepoints true)

abbrev empty : MemoryStorage
empty = record { objects = []; write_order = [] }

abbrev calls : List FolderCall
calls =
    FolderCall.put_if_absent (codes "d/a/1") (5 ∷ [])
    ∷ FolderCall.put_if_absent (codes "d/a/1") (6 ∷ [])
    ∷ FolderCall.listed (codes "d/a/1") (codes "d/a/")
    ∷ FolderCall.delete (codes "d/a/1")
    ∷ FolderCall.get (codes "d/a/1")
    ∷ []

memory_folder-answers_example :
    answers folder calls empty ≡ expected_answers calls (λ p. lookup p empty.objects)
memory_folder-answers_example = memory_folder-answers compare_codepoints true calls empty

check_data_loss-refused_example :
    (check_data_loss defaults 20 2 ≡ DataLossVerdict.refused) ↔ ((10 ≤ 20) × (10 * 2 ≤ 20))
check_data_loss-refused_example = check_data_loss-refused 20 2

-- An acknowledgement is its counters, and an empty one cannot be read.
abbrev read_ack : Counters → Option Counters
read_ack [] = none
read_ack (entry ∷ counters) = some (entry ∷ counters)

abbrev acks : Dict Text Counters
acks = (codes "a", (codes "x", 9) ∷ (codes "y", 4) ∷ []) ∷ (codes "b", (codes "x", 7) ∷ []) ∷ []

abbrev devices : List Text
devices = codes "a" ∷ codes "b" ∷ []

abbrev trimmed : Counters
trimmed = (codes "x", 7) ∷ []

floor_of_devices : compute_trim_floor read_ack acks devices ≡ some trimmed
unfolding compute_trim_floor acknowledged floor_over copied lowered_to drop_zeros counter_of
    nothing_if_empty lookup insert erase list_beq
floor_of_devices = refl

compute_trim_floor-Allows_example :
    ((device : Text) → contains device devices ≡ true → Allows read_ack acks trimmed device)
    × ((peer : Text) (n : ℕ) → lookup peer trimmed ≡ some n → 1 ≤ n)
compute_trim_floor-Allows_example =
    compute_trim_floor-Allows read_ack acks devices trimmed floor_of_devices

-- A time is written as one number.
abbrev times_codec : DeletesCodec
times_codec = record { encode = λ deletes. deletes; decode = λ bytes. bytes }

abbrev evicting : EvictionOptions
evicting = record { acting_device_hex = codes "a"; deletes_per_hour = 1 }

abbrev two_objects : MemoryStorage
two_objects = record {
  objects = (codes "d/b/1", 5 ∷ []) ∷ (codes "d/b/2", 6 ∷ []) ∷ (codes "d/a/1", 7 ∷ []) ∷ [];
  write_order = codes "d/b/1" ∷ codes "d/b/2" ∷ codes "d/a/1" ∷ [];
}

abbrev hours : List ℕ
hours = 3600000 ∷ 7200000 ∷ []

two_listed : length (folder.list (prefix_of (codes "b")) two_objects) ≤ length hours
unfolding list found reversed hidden_by stable_sort insert_sorted compare_codepoints starts_with
    contains list_beq
two_listed = omega arith

forget-done_example :
    (forget folder times_codec evicting 10800000 (codes "b") (
      forget_all folder
        (memory_folder-IsFolder compare_codepoints true)
        times_codec
        evicting
        (λ deletes. refl)
        (codes "b")
        hours
        two_objects)).0
    ≡ ok (record { deleted = 0; remaining = 0; done = true })
unfolding has_slash contains list_beq read_state decoded get lookup
forget-done_example =
    forget-done folder (memory_folder-IsFolder compare_codepoints true) times_codec evicting
      (λ deletes. refl) (codes "b") refl refl refl (omega arith) 0 hours 10800000 two_objects
      (omega arith, (omega arith, tt)) tt two_listed

abbrev first_call : EvictionProgress
first_call = record { deleted = 1; remaining = 1; done = false }

forget_once : (forget folder times_codec evicting 3600000 (codes "b") two_objects).0 ≡ ok first_call
unfolding forget read_state decoded recent_deletes within_budget delete_some delete_all get delete
    put_own has lookup erase list found reversed hidden_by stable_sort insert_sorted
    compare_codepoints starts_with contains list_beq
forget_once = refl

forget-IsPaced_example :
    let s' = folder.delete (device_path (codes "b")) two_objects in
    IsPaced folder
      (memory_folder-IsFolder compare_codepoints true)
      times_codec
      evicting
      (λ deletes. refl)
      3600000
      (recent_deletes 3600000 (read_state folder times_codec evicting two_objects))
      (folder.list (prefix_of (codes "b")) s')
      s'
      first_call
      (forget folder times_codec evicting 3600000 (codes "b") two_objects).1
forget-IsPaced_example =
    forget-IsPaced folder (memory_folder-IsFolder compare_codepoints true) times_codec evicting
      (λ deletes. refl) 3600000 (codes "b") two_objects first_call forget_once

-- A state that always holds one old snapshot.
abbrev state_codec : StateCodec
state_codec = record {
  encode = λ state. [];
  decode = λ bytes. record {
    snapshots = record { seq = 3; created_at = 0; supersedes_through = 3 } ∷ [];
    recent = [];
  };
}

abbrev compacting : CompactorOptions
compacting = record {
  device_hex = replicate 32 48;
  document_hex = replicate 32 49;
  grace_ms = 10;
  deletes_per_hour = 20;
}

abbrev own_pack : Text
own_pack = pack_path (replicate 32 48) (replicate 32 49) 2

abbrev with_pack : MemoryStorage
unfolding pack_path
with_pack = record {
  objects =
      (own_pack, 5 ∷ [])
      ∷ (compaction_path folder state_codec compacting, [])
      ∷ (codes "d/a/1", 7 ∷ [])
      ∷ [];
  write_order = [];
}

collect-safe_example :
    let after = (collect folder state_codec compacting 20 with_pack).1 in
    (folder.get own_pack after ≡ folder.get own_pack with_pack)
    ⊎ ((own_pack ≡ compaction_path folder state_codec compacting)
        ⊎ ((parsed : ParsedPath) × (parse_pack_path own_pack ≡ some parsed)
            × (parsed.device_hex ≡ compacting.device_hex)
            × (is_covered 20 10 parsed.seq
                  (read_compaction folder state_codec compacting with_pack).snapshots
                ≡ true)))
collect-safe_example =
    collect-safe folder (memory_folder-IsFolder compare_codepoints true) state_codec compacting 20
      with_pack own_pack
