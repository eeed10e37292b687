-- ===== src/Storage/Memory.antt =====
-- `MemoryStorage` of packages/sync/src/memory-storage.ts.
pub mod Lawful
use knowtion.Base.{
  ℕ, zero, suc, ◌+◌, ◌-◌, ◌≡◌, refl, Bool, true, false, not, ◌&&◌, ◌||◌, Option, none, some,
  is_some, List, [], ◌∷◌, ◌++◌, Text, ◌==◌, list_eq, nat_eq, if◌then◌else◌, length, drop, take,
  contains, Ordering,
}
use knowtion.Base.Dict.{Dict, lookup, insert, erase}
use knowtion.Pack.Bytes.{Bytes}
use knowtion.Evaluate.Matching.{starts_with}
use knowtion.Evaluate.Sorting.{stable_sort}
use knowtion.Storage.{Folder}

pub record MemoryStorageOptions : Type 0 where
  pub list_lag : ℕ
  pub reverse_listing : Bool

pub record MemoryStorage : Type 0 where
  pub objects : Dict Text Bytes
  pub write_order : List Text

unfoldable pub has : Text → MemoryStorage → Bool
has path s = is_some (lookup path s.objects)

unfoldable pub put_if_absent : Text → Bytes → MemoryStorage → Bool × MemoryStorage
unfolding has
put_if_absent path bytes s = if has path s then (false, s) else (
  true,
  record { objects = insert path bytes s.objects; write_order = s.write_order ++ (path ∷ []) },
)

unfoldable pub put_own : Text → Bytes → MemoryStorage → MemoryStorage
put_own path bytes s = record {
  objects = insert path bytes s.objects;
  write_order = if has path s then s.write_order else s.write_order ++ (path ∷ []);
}

unfoldable pub get : Text → MemoryStorage → Option Bytes
get path s = lookup path s.objects

unfoldable pub delete : Text → MemoryStorage → MemoryStorage
delete path s = record s { objects = erase path s.objects }

-- The objects under a prefix, without the hidden ones.
unfoldable pub found : Text → List Text → Dict Text Bytes → List Text
found prefix hidden [] = []
found prefix hidden ((path, bytes) ∷ objects) =
    let rest = found prefix hidden objects in
    if starts_with path prefix && not (contains path hidden) then path ∷ rest else rest

unfoldable pub reversed : List Text → List Text → List Text
reversed done [] = done
reversed done (path ∷ paths) = reversed (path ∷ done) paths

-- `compare` is `localeCompare`. `slice(-lag)` is the last `lag` writes.
module _ (compare : Text → Text → Ordering) (options : MemoryStorageOptions) where
  unfoldable pub hidden_by : MemoryStorage → List Text
  hidden_by s = elim options.list_lag [
    | zero ↦ []
    | suc lag ↦ drop (length s.write_order - suc lag) s.write_order
  ]

  unfoldable pub list : Text → MemoryStorage → List Text
  list prefix s =
      let sorted = stable_sort compare (found prefix (hidden_by s) s.objects) in
      if options.reverse_listing then reversed [] sorted else sorted

  abbrev pub memory_folder : Folder MemoryStorage
  memory_folder = record {
    put_if_absent = put_if_absent;
    get = get;
    list = list;
    delete = delete;
    put_own = put_own;
  }

-- `truncate`, which throws on a missing object.
unfoldable pub truncate : Text → ℕ → MemoryStorage → Option MemoryStorage
truncate path keep s = elim (lookup path s.objects) [
  | none ↦ none
  | some bytes ↦ some (record s { objects = insert path (take keep bytes) s.objects })
]
