-- ===== src/Storage.antt =====
-- The storage port of packages/sync/src/storage-port.ts as an interface, for a folder that answers every
-- call, and its implementation in memory.
pub mod Memory
pub mod Refined
use knowtion.Base.{
  ℕ, suc, ◌≤◌, ◌≡◌, Bool, true, false, not, ◌&&◌, Option, none, some, is_some, List, [], ◌∷◌, Text,
  ◌==◌, list_eq, nat_eq, if◌then◌else◌, length, contains,
}
use knowtion.Pack.Bytes.{Bytes}
use knowtion.Evaluate.Matching.{starts_with}

-- The five calls on a folder whose state is an `S`. A listing is of paths, without sizes.
pub record Folder (S : Type 0) : Type 0 where
  pub put_if_absent : Text → Bytes → S → Bool × S
  pub get : Text → S → Option Bytes
  pub list : Text → S → List Text
  pub delete : Text → S → S
  pub put_own : Text → Bytes → S → S

-- What a folder with a complete listing promises.
pub record IsFolder {S : Type 0} (folder : Folder S) : Type 0 where
  pub put_if_absent-get :
      (p : Text) (b : Bytes) (s : S)
      → (folder.put_if_absent p b s).0 ≡ not (is_some (folder.get p s))
  pub get-put_if_absent :
      (q p : Text) (b : Bytes) (s : S)
      → folder.get q (folder.put_if_absent p b s).1
        ≡ (if q == p && not (is_some (folder.get p s)) then some b else folder.get q s)
  pub get-put_own :
      (q p : Text) (b : Bytes) (s : S)
      → folder.get q (folder.put_own p b s) ≡ (if q == p then some b else folder.get q s)
  pub get-delete :
      (q p : Text) (s : S)
      → folder.get q (folder.delete p s) ≡ (if q == p then none else folder.get q s)
  pub contains-list :
      (p prefix : Text) (s : S)
      → contains p (folder.list prefix s) ≡ (starts_with p prefix && is_some (folder.get p s))
  -- Deleting adds nothing to a listing, and takes a listed path off it.
  pub length-list-delete :
      (p prefix : Text) (s : S)
      → length (folder.list prefix (folder.delete p s)) ≤ length (folder.list prefix s)
  pub length-list-delete_listed :
      (p prefix : Text) (s : S)
      → contains p (folder.list prefix s) ≡ true
      → suc (length (folder.list prefix (folder.delete p s))) ≤ length (folder.list prefix s)
  pub length-list-put_own :
      (p prefix : Text) (b : Bytes) (s : S)
      → starts_with p prefix ≡ false
      → length (folder.list prefix (folder.put_own p b s)) ≤ length (folder.list prefix s)
