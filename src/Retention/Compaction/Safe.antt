-- ===== src/Retention/Compaction/Safe.antt =====
-- What `collect` (packages/sync/src/compactor.ts) may take out of a folder.
use knowtion.Base.{
  ℕ, ◌+◌, ◌-◌, ◌≤◌, ◌≡◌, refl, ap, sym, ◌∙◌, subst, ◌⊎◌, inl, inr, Bool, true, ◌&&◌, Option, none,
  some, List, [], ◌∷◌, ◌++◌, Text, leb, length, take, All, All-take, any, replicate, ◌==◌, list_eq,
  nat_eq, list_beq_iff, if◌then◌else◌, Ordering, arith, Bool-cases,
}
use knowtion.Evaluate.Sorting.{insert_sorted, stable_sort}
use knowtion.Storage.{Folder, IsFolder}
use knowtion.Sync.Paths.{ParsedPath, parse_pack_path}
use knowtion.Retention.Compaction.{
  SnapshotRecord, CompactionState, StateCodec, CompactorOptions, mature_snapshots, highest,
  is_superseded, superseded_among, by_seq, compaction_path, own_prefix, read_compaction,
  delete_entries, collect_some, collect_superseded, collect_mature, collect,
}

module _ {ℓ κ} {A : Type ℓ} (P : A → Type κ) (cmp : A → A → Ordering) where
  All-insert_sorted : (x : A) (ys : List A) → P x → All P ys → All P (insert_sorted cmp x ys)
  unfolding insert_sorted
  All-insert_sorted x [] p h = (p, tt)
  All-insert_sorted x (y ∷ ys) p (q, h) =
      elim (cmp y x)
        as (λ o. All P (elim o [ Ordering.lt ↦ y ∷ insert_sorted cmp x ys | _ ↦ x ∷ y ∷ ys ])) [
          | Ordering.lt ↦ (q, All-insert_sorted x ys p h)
          | Ordering.eq ↦ (p, (q, h))
          | Ordering.gt ↦ (p, (q, h))
        ]

  All-stable_sort : (xs : List A) → All P xs → All P (stable_sort cmp xs)
  unfolding stable_sort
  All-stable_sort [] h = tt
  All-stable_sort (x ∷ xs) (p, h) =
      All-insert_sorted x (stable_sort cmp xs) p (All-stable_sort xs h)

All-weaker {ℓ κ κ'} :
    {A : Type ℓ} (P : A → Type κ) (Q : A → Type κ')
    → ((a : A) → P a → Q a)
    → (xs : List A) → All P xs
    → All Q xs
All-weaker P Q w [] h = tt
All-weaker P Q w (x ∷ xs) (p, h) = (w x p, All-weaker P Q w xs h)

-- Whether a snapshot of the list is a grace period old and covers the sequence number.
abbrev pub is_covered : ℕ → ℕ → ℕ → List SnapshotRecord → Bool
is_covered now grace n snapshots =
    any (λ s. leb (s.created_at + grace) now && leb n s.supersedes_through) snapshots

highest-any :
    (n : ℕ) (first : SnapshotRecord) (mature : List SnapshotRecord)
    → n ≤ highest first mature
    → any (λ s. leb n s.supersedes_through) (first ∷ mature) ≡ true
unfolding highest
highest-any n first [] h = ground arith
highest-any n first (s ∷ mature) h = ground (arith, highest-any n s mature)

any-mature :
    (now grace n : ℕ) (snapshots : List SnapshotRecord)
    → any (λ s. leb n s.supersedes_through) (mature_snapshots now grace snapshots)
      ≡ is_covered now grace n snapshots
unfolding mature_snapshots
any-mature now grace n [] = refl
any-mature now grace n (s ∷ snapshots) = ground (arith, any-mature now grace n snapshots)

highest-covered :
    (now grace n : ℕ) (snapshots : List SnapshotRecord) (first : SnapshotRecord)
    (mature : List SnapshotRecord)
    → mature_snapshots now grace snapshots ≡ first ∷ mature
    → n ≤ highest first mature
    → is_covered now grace n snapshots ≡ true
highest-covered now grace n snapshots first mature h k =
    sym (any-mature now grace n snapshots)
    ∙ ap (any (λ s. leb n s.supersedes_through)) h
    ∙ highest-any n first mature k

-- A pack of the device whose number is at or below one.
abbrev pub IsOwn : Text → ℕ → Text → Type 0
IsOwn device through path = is_superseded device through (parse_pack_path path) ≡ true

module _ (device : Text) (through : ℕ) where
  abbrev OwnEntry : Text × ℕ → Type 0
  OwnEntry (path, n) = IsOwn device through path

  superseded_among-own : (paths : List Text) → All OwnEntry (superseded_among device through paths)
  unfolding superseded_among
  superseded_among-own [] = tt
  superseded_among-own (path ∷ paths) =
      elim (Bool-cases (is_superseded device through (parse_pack_path path))) [
        | inl e ↦ rw e (e, superseded_among-own paths)
        | inr e ↦ rw e (superseded_among-own paths)
      ]

module _ {S : Type 0} (folder : Folder S) (lawful : IsFolder folder) (codec : StateCodec)
    (options : CompactorOptions) where
  get-delete_entries {κ} :
      (P : Text → Type κ) (q : Text) (entries : List (Text × ℕ)) (s : S)
      → All (λ e. P e.0) entries
      → (folder.get q (delete_entries folder codec options entries s) ≡ folder.get q s) ⊎ P q
  unfolding delete_entries
  get-delete_entries P q [] s h = inl refl
  get-delete_entries P q ((path, n) ∷ entries) s (p, h) =
      elim (get-delete_entries P q entries (folder.delete path s) h) [
        | inr found ↦ inr found
        | inl same ↦ elim (Bool-cases (q == path)) [
          | inl e ↦ inr (subst P (sym ((list_beq_iff q path).0 e)) p)
          | inr e ↦
              inl
                (same ∙ lawful.get-delete q path s ∙ ap (λ t. if t then none else folder.get q s) e)
        ]
      ]

  -- The pack at a path is this device's own, and a snapshot on record that is a grace period old covers
  -- its number.
  abbrev MayGo : ℕ → S → Text → Type 0
  MayGo now s path =
      (parsed : ParsedPath) × (parse_pack_path path ≡ some parsed)
      × (parsed.device_hex ≡ options.device_hex)
      × (is_covered now options.grace_ms parsed.seq
            (read_compaction folder codec options s).snapshots
          ≡ true)

  may_go :
      (now : ℕ) (s : S) (first : SnapshotRecord) (mature : List SnapshotRecord) (path : Text)
      → mature_snapshots now options.grace_ms (read_compaction folder codec options s).snapshots
        ≡ first ∷ mature
      → (o : Option ParsedPath) → parse_pack_path path ≡ o
      → is_superseded options.device_hex (highest first mature) o ≡ true
      → MayGo now s path
  unfolding is_superseded
  may_go now s first mature path h none e k = cc
  may_go now s first mature path h (some parsed) e k = (
    parsed,
    e,
    (list_beq_iff parsed.device_hex options.device_hex).0 (ground arith),
    highest-covered now options.grace_ms parsed.seq _ first mature h (ground arith),
  )

  -- What a call may change at a path.
  abbrev OutcomeAt : ℕ → S → Text → S → Type 0
  OutcomeAt now s q after =
      (folder.get q after ≡ folder.get q s)
      ⊎ ((q ≡ compaction_path folder codec options) ⊎ MayGo now s q)

  collect_some-at :
      (now budget : ℕ) (state : CompactionState) (recent : List ℕ) (entries : List (Text × ℕ))
      (s : S) (q : Text)
      → All (λ e. MayGo now s e.0) entries
      → OutcomeAt now s q (collect_some folder codec options now budget state recent entries s).1
  unfolding collect_some
  collect_some-at now budget state recent entries s q h =
      let path = compaction_path folder codec options in
      let chosen = take budget entries in
      let left = delete_entries folder codec options chosen s in
      let bytes =
        codec.encode (record state { recent = recent ++ replicate (length chosen) now }) in
      elim (Bool-cases (q == path)) [
        | inl e ↦ inr (inl ((list_beq_iff q path).0 e))
        | inr e ↦ elim (get-delete_entries (MayGo now s) q chosen s (All-take _ budget entries h)) [
          | inr found ↦ inr (inr found)
          | inl same ↦ inl (
              lawful.get-put_own q path bytes left
              ∙ ap (λ t. if t then some bytes else folder.get q left) e
              ∙ same)
        ]
      ]

  collect_superseded-at :
      (now : ℕ) (state : CompactionState) (recent : List ℕ) (entries : List (Text × ℕ)) (s : S)
      (q : Text)
      → All (λ e. MayGo now s e.0) entries
      → OutcomeAt now s q (collect_superseded folder codec options now state recent entries s).1
  unfolding collect_superseded
  collect_superseded-at now state recent entries s q h =
      elim (Bool-cases (options.deletes_per_hour - length recent == 0)) [
        | inl e ↦ rw e (inl refl)
        | inr e ↦ rw e (collect_some-at now _ state recent entries s q h)
      ]

  collect_mature-at :
      (now : ℕ) (mature : List SnapshotRecord) (s : S) (q : Text)
      → mature_snapshots now options.grace_ms (read_compaction folder codec options s).snapshots
        ≡ mature
      → OutcomeAt now s q
          (collect_mature folder codec options now
            (read_compaction folder codec options s)
            mature
            s).1
  unfolding collect_mature
  collect_mature-at now [] s q h = inl refl
  collect_mature-at now (first ∷ mature) s q h =
      let through = highest first mature in
      let paths = folder.list (own_prefix folder codec options) s in
      collect_superseded-at now _ _
        (stable_sort by_seq (superseded_among options.device_hex through paths)) s q
        (All-stable_sort (λ e. MayGo now s e.0) by_seq _
          (All-weaker (OwnEntry options.device_hex through) (λ e. MayGo now s e.0)
            (λ (path, n) own. may_go now s first mature path h (parse_pack_path path) refl own)
            (superseded_among options.device_hex through paths)
            (superseded_among-own options.device_hex through paths)))

  -- On a folder that keeps its promises, a collection leaves every path as it is but its own record and
  -- packs of this device whose number a snapshot on record covers that is a grace period old.
  pub collect-safe :
      (now : ℕ) (s : S) (q : Text)
      → let after = (collect folder codec options now s).1 in
        (folder.get q after ≡ folder.get q s)
        ⊎ ((q ≡ compaction_path folder codec options)
            ⊎ ((parsed : ParsedPath) × (parse_pack_path q ≡ some parsed)
                × (parsed.device_hex ≡ options.device_hex)
                × (is_covered now options.grace_ms parsed.seq
                      (read_compaction folder codec options s).snapshots
                    ≡ true)))
  unfolding collect
  collect-safe now s q = collect_mature-at now _ s q refl
