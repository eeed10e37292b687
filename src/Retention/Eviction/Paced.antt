-- ===== src/Retention/Eviction/Paced.antt =====
-- How much one call of `forget` deletes (packages/sync/src/eviction.ts).
use knowtion.Base.{
  ℕ, zero, suc, ◌+◌, ◌-◌, ◌≤◌, ◌≡◌, ◌≢◌, subst, refl, ap, sym, ◌∙◌, true, false, ◌||◌, none, some,
  List, [], ◌∷◌, ◌++◌, Text, length, take, replicate, contains, All, All-take, ◌==◌, list_eq,
  nat_eq, if◌then◌else◌, Outcome, ok, err, arith, length-take, Bool-cases, inl, inr, beq_refl,
}
use knowtion.Storage.{Folder, IsFolder}
use knowtion.Retention.Eviction.Gone.{read_state-put_own}
use knowtion.Retention.Eviction.{
  DeletesCodec, EvictionOptions, EvictionProgress, EvictionError, recent_deletes, device_path,
  prefix_of, state_path, read_state, delete_all, delete_some, within_budget, forget,
}

All-listed_too :
    (x : Text) (xs ys : List Text)
    → All (λ path. contains path xs ≡ true) ys
    → All (λ path. contains path (x ∷ xs) ≡ true) ys
unfolding contains
All-listed_too x xs [] h = tt
All-listed_too x xs (y ∷ ys) (h, hs) = (ground arith, All-listed_too x xs ys hs)

All-listed : (xs : List Text) → All (λ path. contains path xs ≡ true) xs
unfolding contains
All-listed [] = tt
All-listed (x ∷ xs) =
    (ap (λ same. same || contains x xs) (beq_refl x), All-listed_too x xs xs (All-listed xs))

module _ {S : Type 0} (folder : Folder S) (lawful : IsFolder folder) (codec : DeletesCodec)
    (options : EvictionOptions)
    (encoded : (deletes : List ℕ) → codec.decode (codec.encode deletes) ≡ deletes) where
  -- What a call does to a folder with those objects, and what it reports, after the given deletions
  -- of the last hour.
  pub record IsPaced (now : ℕ) (recent : List ℕ) (objects : List Text) (s : S)
      (p : EvictionProgress) (after : S) : Type 0 where
    pub gone : List Text
    pub counted : length gone ≡ p.deleted
    pub within : p.deleted ≤ options.deletes_per_hour - length recent
    pub listed : All (λ path. contains path objects ≡ true) gone
    pub remaining : p.deleted + p.remaining ≡ length objects
    pub done : p.done ≡ (p.remaining == 0)
    pub contents :
        (path : Text)
        → (path == state_path options.acting_device_hex) ≡ false
        → folder.get path after ≡ (if contains path gone then none else folder.get path s)
    pub recorded : read_state folder codec options after ≡ (
        if p.deleted == 0
        then read_state folder codec options s
        else recent ++ replicate p.deleted now)

  get-delete_all :
      (path : Text) (paths : List Text) (s : S)
      → folder.get path (delete_all folder codec options paths s)
        ≡ (if contains path paths then none else folder.get path s)
  unfolding delete_all contains
  get-delete_all path [] s = refl
  get-delete_all path (p ∷ paths) s =
      ground (arith, get-delete_all path paths (folder.delete p s), lawful.get-delete path p s)

  nothing_deleted :
      (now : ℕ) (recent : List ℕ) (objects : List Text) (s : S)
      → IsPaced now recent objects s
          (record { deleted = 0; remaining = length objects; done = length objects == 0 })
          s
  unfolding contains
  nothing_deleted now recent objects s = record {
    gone = [];
    counted = refl;
    within = omega arith;
    listed = tt;
    remaining = omega arith;
    done = refl;
    contents = λ path apart. refl;
    recorded = refl;
  }

  delete_some-IsPaced :
      (budget now : ℕ) (recent : List ℕ) (object : Text) (objects : List Text) (s : S)
      → suc budget ≡ options.deletes_per_hour - length recent
      → let run = delete_some folder codec options (suc budget) now recent (object ∷ objects) s in
        IsPaced now recent (object ∷ objects) s run.0 run.1
  unfolding delete_some read_state
  delete_some-IsPaced budget now recent object objects s e =
      let chosen = object ∷ take budget objects in
      let cut = length-take budget objects in
      let record_path = state_path options.acting_device_hex in
      let state = codec.encode (recent ++ replicate (length chosen) now) in
      let deleted = delete_all folder codec options chosen s in
      let some_gone : (length chosen == 0) ≡ false = ground arith in
      record {
        gone = chosen;
        counted = refl;
        within = omega (arith, cut, e);
        listed = All-take _ (suc budget) (object ∷ objects) (All-listed (object ∷ objects));
        remaining = omega (arith, cut);
        done = refl;
        contents = λ path apart.
            lawful.get-put_own path record_path state deleted
            ∙ ap (λ same. if same then some state else folder.get path deleted) apart
            ∙ get-delete_all path chosen s;
        recorded =
            read_state-put_own folder lawful codec options encoded
              (recent ++ replicate (length chosen) now) deleted
            ∙ sym (
                ap
                  (λ none_gone.
                    if none_gone
                    then read_state folder codec options s
                    else recent ++ replicate (length chosen) now)
                  some_gone);
      }

  within_budget-IsPaced :
      (now : ℕ) (recent : List ℕ) (objects : List Text) (s : S)
      → let run = within_budget folder codec options now recent objects s in
        IsPaced now recent objects s run.0 run.1
  unfolding within_budget
  within_budget-IsPaced now recent [] s = nothing_deleted now recent [] s
  within_budget-IsPaced now recent (object ∷ objects) s =
      go (options.deletes_per_hour - length recent) refl
    where
      go :
          (budget : ℕ)
          → budget ≡ options.deletes_per_hour - length recent
          → let run = within_budget folder codec options now recent (object ∷ objects) s in
            IsPaced now recent (object ∷ objects) s run.0 run.1
      go zero e = rw (sym e) (nothing_deleted now recent (object ∷ objects) s)
      go (suc budget) e =
          let positive : (suc budget == 0) ≡ false = ground arith in
          rw (sym e, positive) (delete_some-IsPaced budget now recent object objects s e)

  no_progress : (p : EvictionProgress) → err EvictionError.forgets_itself ≢ ok p
  no_progress p h = cc

  same_progress :
      (p q : EvictionProgress)
      → ◌≡◌ {A = Outcome EvictionError EvictionProgress} (ok p) (ok q)
      → p ≡ q
  same_progress p q h = cc

  -- On a folder that keeps its promises, a call that does not refuse deletes the device's own record and
  -- listed objects, no more of them than the hourly budget leaves after the deletions on record in the last
  -- hour. Every other path but the record of deletions holds what it held. The deletions are reported, counted against
  -- the listing and put on record at the present time; the call is done exactly when nothing remains.
  pub forget-IsPaced :
      (now : ℕ) (target : Text) (s : S) (p : EvictionProgress)
      → (forget folder codec options now target s).0 ≡ ok p
      → let s' = folder.delete (device_path target) s in
        IsPaced now
          (recent_deletes now (read_state folder codec options s))
          (folder.list (prefix_of target) s')
          s'
          p
          (forget folder codec options now target s).1
  unfolding forget
  forget-IsPaced now target s p h = elim (Bool-cases (target == options.acting_device_hex)) [
    | inl e ↦ absurd (no_progress p (rw e at h))
    | inr e ↦
        let recent = recent_deletes now (read_state folder codec options s) in
        let s' = folder.delete (device_path target) s in
        let objects = folder.list (prefix_of target) s' in
        let run = within_budget folder codec options now recent objects s' in
        rw e (
          subst (λ q. IsPaced now recent objects s' q run.1) (same_progress _ p (rw e at h))
            (within_budget-IsPaced now recent objects s'))
  ]
