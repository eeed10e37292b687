-- ===== src/Retention/Eviction/Gone.antt =====
-- How far repeated calls of `forget` get (packages/sync/src/eviction.ts).
use knowtion.Base.{
  ℕ, zero, suc, ◌+◌, ◌-◌, ◌≤◌, ◌≡◌, refl, ap, sym, ◌∙◌, subst, Bool, true, false, ◌||◌, some, List,
  [], ◌∷◌, ◌++◌, Text, codes, length, take, replicate, All, contains, ◌==◌, list_eq, nat_eq,
  list_beq, beq_refl, if◌then◌else◌, ok, arith,
}
use knowtion.Evaluate.Matching.{starts_with}
use knowtion.Storage.{Folder, IsFolder}
use knowtion.Retention.Eviction.{
  DeletesCodec, EvictionOptions, hour, recent_deletes, device_path, prefix_of, state_path, decoded,
  read_state, delete_all, delete_some, within_budget, forget,
}

-- A device's name has no slash.
unfoldable pub has_slash : Text → Bool
unfolding contains
has_slash name = contains 47 name

-- A path under one device is not under another.
other_prefix :
    (acting target rest : Text)
    → has_slash acting ≡ false
    → has_slash target ≡ false
    → target == acting ≡ false
    → starts_with (acting ++ (47 ∷ rest)) (target ++ codes "/") ≡ false
unfolding has_slash contains starts_with list_beq
other_prefix [] [] rest h k e = cc
other_prefix [] (t ∷ target) rest h k e = ground arith
other_prefix (c ∷ acting) [] rest h k e = ground arith
other_prefix (c ∷ acting) (t ∷ target) rest h k e = ground (arith, other_prefix acting target rest)

starts_with-state_path :
    (acting target : Text)
    → has_slash acting ≡ false
    → has_slash target ≡ false
    → target == acting ≡ false
    → starts_with (state_path acting) (prefix_of target) ≡ false
unfolding starts_with
starts_with-state_path acting target h k e =
    other_prefix acting target (codes "eviction.json") h k e

recent_deletes-old :
    (last now : ℕ) (deletes : List ℕ)
    → All (λ at. at ≤ last) deletes
    → last + hour ≤ now
    → recent_deletes now deletes ≡ []
unfolding recent_deletes
recent_deletes-old last now [] h k = refl
recent_deletes-old last now (at ∷ deletes) (h, hs) k =
    ground (arith, recent_deletes-old last now deletes hs k)

All-replicate : (n now : ℕ) → All (λ at. at ≤ now) (replicate n now)
All-replicate zero now = tt
All-replicate (suc n) now = (omega arith, All-replicate n now)

All-older :
    (last now : ℕ) (deletes : List ℕ)
    → last ≤ now
    → All (λ at. at ≤ last) deletes
    → All (λ at. at ≤ now) deletes
All-older last now [] k h = tt
All-older last now (at ∷ deletes) k (h, hs) = (omega arith, All-older last now deletes k hs)

no_length : (paths : List Text) → length paths ≤ 0 → paths ≡ []
no_length [] h = refl
no_length (path ∷ paths) h = absurd (omega arith)

listed_first :
    (object : Text) (objects listing : List Text)
    → listing ≡ object ∷ objects
    → contains object listing ≡ true
unfolding contains
listed_first object objects listing h =
    ap (contains object) h ∙ ap (λ same. same || contains object objects) (beq_refl object)

-- Each time is an hour or more after the one before.
abbrev pub Spaced : ℕ → List ℕ → Type 0
Spaced last [] = Unit
Spaced last (now ∷ times) = (last + hour ≤ now) × Spaced now times

module _ {S : Type 0} (folder : Folder S) (lawful : IsFolder folder) (codec : DeletesCodec)
    (options : EvictionOptions) where
  abbrev pub RecordedBy : ℕ → S → Type 0
  RecordedBy last s = All (λ at. at ≤ last) (read_state folder codec options s)

  read_state-get :
      (s s' : S)
      → folder.get (state_path options.acting_device_hex) s'
        ≡ folder.get (state_path options.acting_device_hex) s
      → read_state folder codec options s' ≡ read_state folder codec options s
  unfolding read_state
  read_state-get s s' h = ap (decoded folder codec options) h

  -- The device record is no record of deletions.
  pub read_state-device :
      (target : Text) (s : S)
      → read_state folder codec options (folder.delete (device_path target) s)
        ≡ read_state folder codec options s
  unfolding list_beq
  read_state-device target s =
      read_state-get s (folder.delete (device_path target) s)
        (lawful.get-delete (state_path options.acting_device_hex) (device_path target) s)

  length-delete_all :
      (prefix : Text) (paths : List Text) (s : S)
      → length (folder.list prefix (delete_all folder codec options paths s))
        ≤ length (folder.list prefix s)
  unfolding delete_all
  length-delete_all prefix [] s = omega arith
  length-delete_all prefix (path ∷ paths) s = omega (
    arith,
    length-delete_all prefix paths (folder.delete path s),
    lawful.length-list-delete path prefix s,
  )

  module _ (encoded : (deletes : List ℕ) → codec.decode (codec.encode deletes) ≡ deletes) where
    pub read_state-put_own :
        (deletes : List ℕ) (s : S)
        → read_state folder codec options
            (folder.put_own (state_path options.acting_device_hex) (codec.encode deletes) s)
          ≡ deletes
    unfolding read_state
    read_state-put_own deletes s =
        let path = state_path options.acting_device_hex in
        ap (decoded folder codec options) (
          lawful.get-put_own path path (codec.encode deletes) s
          ∙ ap (λ same. if same then some (codec.encode deletes) else folder.get path s)
              (beq_refl path))
        ∙ encoded deletes

    -- A call with a budget takes the first listed path away, and leaves its own times on record.
    delete_some-shrinks :
        (target object : Text) (objects : List Text) (budget now : ℕ) (s : S)
        → starts_with (state_path options.acting_device_hex) (prefix_of target) ≡ false
        → folder.list (prefix_of target) s ≡ object ∷ objects
        → let after =
            (delete_some folder codec options (suc budget) now [] (object ∷ objects) s).1 in
          (length (folder.list (prefix_of target) after) ≤ length objects) × RecordedBy now after
    unfolding delete_some delete_all
    delete_some-shrinks target object objects budget now s apart h =
        let prefix = prefix_of target in
        let chosen = take budget objects in
        let deleted = delete_all folder codec options chosen (folder.delete object s) in
        (
          omega (
            arith,
            lawful.length-list-put_own (state_path options.acting_device_hex) prefix
                (codec.encode (replicate (length (object ∷ chosen)) now)) deleted apart,
            length-delete_all prefix chosen (folder.delete object s),
            lawful.length-list-delete_listed object prefix s (listed_first object objects _ h),
            ap length h,
          ),
          subst (All (λ at. at ≤ now))
              (sym (read_state-put_own (replicate (length (object ∷ chosen)) now) deleted))
              (All-replicate (length (object ∷ chosen)) now),
        )

    within_budget-shrinks :
        (target : Text) (objects : List Text) (last now : ℕ) (s : S)
        → starts_with (state_path options.acting_device_hex) (prefix_of target) ≡ false
        → 1 ≤ options.deletes_per_hour
        → last ≤ now
        → RecordedBy last s
        → folder.list (prefix_of target) s ≡ objects
        → let after = (within_budget folder codec options now [] objects s).1 in
          (length (folder.list (prefix_of target) after) ≤ length objects - 1)
          × RecordedBy now after
    unfolding within_budget
    within_budget-shrinks target [] last now s apart some_budget k r h =
        (rw h (omega arith), All-older last now _ k r)
    within_budget-shrinks target (object ∷ objects) last now s apart some_budget k r h =
        let left : options.deletes_per_hour - 0 == 0 ≡ false = ground arith in
        let budget : options.deletes_per_hour - 0 ≡ suc (options.deletes_per_hour - 1) =
          omega arith in
        let (fewer, recorded) =
          delete_some-shrinks target object objects (options.deletes_per_hour - 1) now s apart h in
        rw (left, budget) (omega (arith, fewer), recorded)

    module _ (target : Text) where
      -- The calls at some times, one after the other.
      unfoldable pub forget_all : List ℕ → S → S
      forget_all [] s = s
      forget_all (now ∷ times) s = forget_all times (forget folder codec options now target s).1

      module _ (plain_target : has_slash target ≡ false)
          (plain_acting : has_slash options.acting_device_hex ≡ false)
          (other : target == options.acting_device_hex ≡ false)
          (some_budget : 1 ≤ options.deletes_per_hour) where
        forget-shrinks :
            (last now : ℕ) (s : S)
            → last + hour ≤ now
            → RecordedBy last s
            → let after = (forget folder codec options now target s).1 in
              (length (folder.list (prefix_of target) after)
                ≤ length (folder.list (prefix_of target) s) - 1)
              × RecordedBy now after
        unfolding forget
        forget-shrinks last now s k r =
            let s' = folder.delete (device_path target) s in
            let apart =
              starts_with-state_path options.acting_device_hex target plain_acting plain_target
                other in
            let r' = subst (All (λ at. at ≤ last)) (sym (read_state-device target s)) r in
            let (fewer, recorded) =
              within_budget-shrinks target (folder.list (prefix_of target) s') last now s' apart
                some_budget (omega arith) r' refl in
            rw (other, recent_deletes-old last now (read_state folder codec options s) r k)
              (
                omega (
                  arith,
                  fewer,
                  lawful.length-list-delete (device_path target) (prefix_of target) s,
                ),
                recorded,
              )

        forget_all-length :
            (last : ℕ) (times : List ℕ) (s : S)
            → Spaced last times
            → RecordedBy last s
            → length (folder.list (prefix_of target) s) ≤ length times
            → length (folder.list (prefix_of target) (forget_all times s)) ≤ 0
        unfolding forget_all
        forget_all-length last [] s sp r h = h
        forget_all-length last (now ∷ times) s (k, sp) r h =
            let (fewer, recorded) = forget-shrinks last now s k r in
            forget_all-length now times (forget folder codec options now target s).1 sp recorded
              (omega (arith, fewer, h))

        -- On a folder that keeps its promises, for a device other than the acting one, both with names
        -- without a slash, and with a budget of one deletion an hour or more: after as many calls an hour
        -- apart as the device has objects, the first of them an hour or more after every deletion on record,
        -- the next call finds none left and says that it is done.
        pub forget-done :
            (last : ℕ) (times : List ℕ) (now : ℕ) (s : S)
            → Spaced last times
            → RecordedBy last s
            → length (folder.list (prefix_of target) s) ≤ length times
            → (forget folder codec options now target (forget_all times s)).0
              ≡ ok (record { deleted = 0; remaining = 0; done = true })
        unfolding forget within_budget
        forget-done last times now s sp r h =
            let after = forget_all times s in
            let gone =
              no_length (folder.list (prefix_of target) (folder.delete (device_path target) after))
                (omega (
                  arith,
                  forget_all-length last times s sp r h,
                  lawful.length-list-delete (device_path target) (prefix_of target) after,
                )) in
            rw (other, gone) refl
