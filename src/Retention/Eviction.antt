-- ===== src/Retention/Eviction.antt =====
-- `DeviceEviction` of packages/sync/src/eviction.ts on a folder that answers every call.
pub mod Gone
pub mod Paced
use knowtion.Base.{
  ℕ, zero, suc, ◌+◌, ◌-◌, ◌≡◌, refl, Bool, true, false, not, Option, none, some, List, [], ◌∷◌,
  ◌++◌, Text, codes, ltb, length, take, replicate, filter, any, ◌==◌, list_eq, nat_eq,
  if◌then◌else◌, Outcome, ok, err,
}
use knowtion.Pack.Bytes.{Bytes}
use knowtion.Storage.{Folder}
use knowtion.Sync.Paths.{ParsedPath, parse_pack_path}

-- `JSON.stringify` of the times of deletions, and the reader with its fallbacks.
pub record DeletesCodec : Type 0 where
  pub encode : List ℕ → Bytes
  pub decode : Bytes → List ℕ

pub record EvictionOptions : Type 0 where
  pub acting_device_hex : Text
  pub deletes_per_hour : ℕ

pub record EvictionProgress : Type 0 where
  pub deleted : ℕ
  pub remaining : ℕ
  pub done : Bool

-- `new Error('a device cannot forget itself')`
pub data EvictionError : Type 0 where
  forgets_itself : EvictionError

abbrev pub hour : ℕ
hour = 3600000

-- `recentDeletes.filter((at) => at > now - hour)`
unfoldable pub recent_deletes : ℕ → List ℕ → List ℕ
recent_deletes now [] = []
recent_deletes now (at ∷ deletes) =
    let rest = recent_deletes now deletes in if ltb now (at + hour) then at ∷ rest else rest

abbrev pub device_path : Text → Text
device_path device_hex = codes "devices/" ++ (device_hex ++ codes ".dev")

abbrev pub prefix_of : Text → Text
prefix_of device_hex = codes "d/" ++ (device_hex ++ codes "/")

abbrev pub state_path : Text → Text
state_path device_hex = codes "d/" ++ (device_hex ++ codes "/eviction.json")

module _ {S : Type 0} (folder : Folder S) (codec : DeletesCodec) (options : EvictionOptions) where
  unfoldable pub decoded : Option Bytes → List ℕ
  decoded none = []
  decoded (some bytes) = codec.decode bytes

  -- `#readState`
  unfoldable pub read_state : S → List ℕ
  unfolding decoded
  read_state s = decoded (folder.get (state_path options.acting_device_hex) s)

  -- The loop of deletions.
  unfoldable pub delete_all : List Text → S → S
  delete_all [] s = s
  delete_all (path ∷ paths) s = delete_all paths (folder.delete path s)

  abbrev progress : ℕ → ℕ → EvictionProgress
  progress deleted remaining = record {
    deleted = deleted;
    remaining = remaining;
    done = remaining == 0;
  }

  -- The deletions of one call, `budget` of them at most, and their record.
  unfoldable pub delete_some : ℕ → ℕ → List ℕ → List Text → S → EvictionProgress × S
  delete_some budget now recent objects s =
      let chosen = take budget objects in
      (
        progress (length chosen) (length objects - length chosen),
        folder.put_own (state_path options.acting_device_hex)
            (codec.encode (recent ++ replicate (length chosen) now)) (delete_all chosen s),
      )

  -- What `forget` does with a listing.
  unfoldable pub within_budget : ℕ → List ℕ → List Text → S → EvictionProgress × S
  within_budget now recent [] s = (progress 0 0, s)
  within_budget now recent (object ∷ objects) s =
      if options.deletes_per_hour - length recent == 0
      then (progress 0 (length (object ∷ objects)), s)
      else delete_some (options.deletes_per_hour - length recent) now recent (object ∷ objects) s

  unfoldable pub forget : ℕ → Text → S → Outcome EvictionError EvictionProgress × S
  forget now target s =
      if target == options.acting_device_hex
      then (err forgets_itself, s)
      else (let s' = folder.delete (device_path target) s in
          let (p, s'') =
            within_budget now (recent_deletes now (read_state s))
              (folder.list (prefix_of target) s') s' in
          (ok p, s''))

-- `detectEvicted`. `device_hex` is `toHex(deviceId)`.
unfoldable pub detect_evicted : {S : Type 0} → Folder S → Text → ℕ → S → Bool
detect_evicted folder device_hex zero s = false
detect_evicted folder device_hex (suc n) s =
    not (any of_device (folder.list (prefix_of device_hex) s))
  where
    is_of : Option ParsedPath → Bool
    is_of none = false
    is_of (some parsed) = parsed.device_hex == device_hex

    of_device : Text → Bool
    of_device path = is_of (parse_pack_path path)
