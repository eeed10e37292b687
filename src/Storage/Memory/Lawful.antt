-- ===== src/Storage/Memory/Lawful.antt =====
-- The memory storage of packages/sync/src/memory-storage.ts keeps the promises of the port.
use knowtion.Base.{
  suc, ◌+◌, ◌≤◌, ◌≡◌, refl, ap, sym, ◌∙◌, Bool, true, false, ◌&&◌, ◌||◌, is_some, List, [], ◌∷◌,
  Text, ◌==◌, list_eq, nat_eq, list_beq_iff, length, contains, Ordering, arith, Bool-cases, inl,
  inr,
}
use knowtion.Base.Dict.{Dict, lookup, insert, erase, lookup-insert, lookup-erase}
use knowtion.Pack.Bytes.{Bytes}
use knowtion.Evaluate.Matching.{starts_with}
use knowtion.Evaluate.Sorting.{insert_sorted, stable_sort}
use knowtion.Storage.{IsFolder}
use knowtion.Storage.Refined.{FolderCall, answers, expected_answers, answers-Represents}
use knowtion.Storage.Memory.{
  MemoryStorageOptions, MemoryStorage, has, put_if_absent, put_own, get, delete, found, reversed,
  hidden_by, list, memory_folder,
}

module _ (compare : Text → Text → Ordering) where
  contains-insert_sorted :
      (p x : Text) (ys : List Text)
      → contains p (insert_sorted compare x ys) ≡ (p == x || contains p ys)
  unfolding insert_sorted contains
  contains-insert_sorted p x [] = refl
  contains-insert_sorted p x (y ∷ ys) = ground (arith, contains-insert_sorted p x ys)

  contains-stable_sort :
      (p : Text) (xs : List Text) → contains p (stable_sort compare xs) ≡ contains p xs
  unfolding stable_sort contains
  contains-stable_sort p [] = refl
  contains-stable_sort p (x ∷ xs) =
      ground (arith, contains-insert_sorted p x (stable_sort compare xs), contains-stable_sort p xs)

  length-insert_sorted :
      (x : Text) (ys : List Text) → length (insert_sorted compare x ys) ≡ suc (length ys)
  unfolding insert_sorted
  length-insert_sorted x [] = refl
  length-insert_sorted x (y ∷ ys) = ground (arith, length-insert_sorted x ys)

  length-stable_sort : (xs : List Text) → length (stable_sort compare xs) ≡ length xs
  unfolding stable_sort
  length-stable_sort [] = refl
  length-stable_sort (x ∷ xs) =
      omega (arith, length-insert_sorted x (stable_sort compare xs), length-stable_sort xs)

contains-reversed :
    (p : Text) (done xs : List Text)
    → contains p (reversed done xs) ≡ (contains p done || contains p xs)
unfolding reversed contains
contains-reversed p done [] = ground arith
contains-reversed p done (x ∷ xs) = ground (arith, contains-reversed p (x ∷ done) xs)

length-reversed : (done xs : List Text) → length (reversed done xs) ≡ length done + length xs
unfolding reversed
length-reversed done [] = omega arith
length-reversed done (x ∷ xs) = omega (arith, length-reversed (x ∷ done) xs)

contains-found :
    (p prefix : Text) (objects : Dict Text Bytes)
    → contains p (found prefix [] objects) ≡ (starts_with p prefix && is_some (lookup p objects))
unfolding found contains lookup
contains-found p prefix [] = ground arith
contains-found p prefix ((path, bytes) ∷ objects) = elim (Bool-cases (p == path)) [
  | inl same ↦
      let alike = ap (λ x. starts_with x prefix) ((list_beq_iff p path).0 same) in
      ground (arith, contains-found p prefix objects)
  | inr other ↦ ground (arith, contains-found p prefix objects)
]

length-found-erase :
    (p prefix : Text) (objects : Dict Text Bytes)
    → length (found prefix [] (erase p objects)) ≤ length (found prefix [] objects)
unfolding found erase contains
length-found-erase p prefix [] = omega arith
length-found-erase p prefix ((path, bytes) ∷ objects) =
    ground (arith, length-found-erase p prefix objects)

length-found-insert :
    (p prefix : Text) (b : Bytes) (objects : Dict Text Bytes)
    → starts_with p prefix ≡ false
    → length (found prefix [] (insert p b objects)) ≤ length (found prefix [] objects)
unfolding found insert contains
length-found-insert p prefix b [] h = ground arith
length-found-insert p prefix b ((path, bytes) ∷ objects) h =
    ground (arith, length-found-insert p prefix b objects h, list_beq_iff p path)

length-found-erase_listed :
    (p prefix : Text) (objects : Dict Text Bytes)
    → contains p (found prefix [] objects) ≡ true
    → suc (length (found prefix [] (erase p objects))) ≤ length (found prefix [] objects)
unfolding found erase contains
length-found-erase_listed p prefix [] h = cc
length-found-erase_listed p prefix ((path, bytes) ∷ objects) h =
    let alike : p == path ≡ true → starts_with p prefix ≡ starts_with path prefix =
      λ same. ap (λ x. starts_with x prefix) ((list_beq_iff p path).0 same) in
    let listed = contains-found p prefix ((path, bytes) ∷ objects) in
    ground (
      arith,
      length-found-erase_listed p prefix objects,
      length-found-erase p prefix objects,
      contains-found p prefix objects,
    )

module _ (compare : Text → Text → Ordering) where
  abbrev pub complete : Bool → MemoryStorageOptions
  complete reverse = record { list_lag = 0; reverse_listing = reverse }

  abbrev listed : Text → MemoryStorage → List Text
  listed prefix s = found prefix [] s.objects

  contains-list :
      (reverse : Bool) (p prefix : Text) (s : MemoryStorage)
      → contains p (list compare (complete reverse) prefix s) ≡ contains p (listed prefix s)
  unfolding list hidden_by contains
  contains-list true p prefix s =
      contains-reversed p [] (stable_sort compare (listed prefix s))
      ∙ contains-stable_sort compare p (listed prefix s)
  contains-list false p prefix s = contains-stable_sort compare p (listed prefix s)

  length-list :
      (reverse : Bool) (prefix : Text) (s : MemoryStorage)
      → length (list compare (complete reverse) prefix s) ≡ length (listed prefix s)
  unfolding list hidden_by
  length-list true prefix s = omega (
    arith,
    length-reversed [] (stable_sort compare (listed prefix s)),
    length-stable_sort compare (listed prefix s),
  )
  length-list false prefix s = length-stable_sort compare (listed prefix s)

  -- The memory storage without a lag is a folder as the port asks for one, in either order of listing.
  pub memory_folder-IsFolder :
      (reverse : Bool) → IsFolder (memory_folder compare (complete reverse))
  unfolding put_if_absent put_own get delete has
  memory_folder-IsFolder reverse = record {
    put_if_absent-get = λ p b s. ground arith;
    get-put_if_absent = λ q p b s. ground (arith, lookup-insert q p b s.objects);
    get-put_own = λ q p b s. lookup-insert q p b s.objects;
    get-delete = λ q p s. lookup-erase q p s.objects;
    contains-list =
        λ p prefix s. contains-list reverse p prefix s ∙ contains-found p prefix s.objects;
    length-list-delete = λ p prefix s.
        rw (length-list reverse prefix s, length-list reverse prefix (delete p s))
          (length-found-erase p prefix s.objects);
    length-list-delete_listed = λ p prefix s h.
        rw (length-list reverse prefix s, length-list reverse prefix (delete p s))
          (length-found-erase_listed p prefix s.objects
            (sym (contains-list reverse p prefix s) ∙ h));
    length-list-put_own = λ p prefix b s h.
        rw (length-list reverse prefix s, length-list reverse prefix (put_own p b s))
          (length-found-insert p prefix b s.objects h);
  }

  -- Without a lag, and in either order of listing, every sequence of calls on the memory storage is
  -- answered as a map from paths to contents answers it.
  pub memory_folder-answers :
      (reverse : Bool) (calls : List FolderCall) (s : MemoryStorage)
      → answers (memory_folder compare (complete reverse)) calls s
        ≡ expected_answers calls (λ p. lookup p s.objects)
  unfolding get
  memory_folder-answers reverse calls s =
      answers-Represents (memory_folder compare (complete reverse)) (memory_folder-IsFolder reverse)
        calls s (λ p. lookup p s.objects) (λ p. refl)
