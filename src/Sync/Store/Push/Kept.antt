-- ===== src/Sync/Store/Push/Kept.antt =====
-- What a push leaves in the folder (packages/sync/src/pack-store.ts).
use knowtion.Base.{
  ◌≡◌, ◌≢◌, refl, sym, ◌∙◌, subst, inl, inr, Bool, true, false, Option, none, some, Text, ok, err,
  Outcome, ◌==◌, list_eq, nat_eq, list_beq_iff, Bool-cases,
}
use knowtion.Pack.Bytes.{Bytes}
use knowtion.Pack.Envelope.{Crypto, EncodeError, DecodedPack, decode_pack}
use knowtion.Sync.Store.{Platform, StoreOptions, PackStore, StoreError, has_new_operations}
use knowtion.Sync.Store.Push.{
  StoragePort, PushResult, is_own_torn_pack, after_replace, after_delete, after_get,
  resolve_occupied_seq, after_put, head_path, head_text, pushed, after_head, after_write,
  after_build, build_pack, payload_of, push,
}
use knowtion.Sync.Store.Push.Chained.{next_path}

-- What a port promises of the contents of its folder, whatever its calls answer.
pub record IsPort {S : Type 0} (port : StoragePort S) (contents : S → Text → Option Bytes)
    : Type 0 where
  pub put_if_absent_keeps :
      (q p : Text) (b bytes : Bytes) (st : S)
      → contents st q ≡ some b
      → contents (port.put_if_absent p bytes st).1 q ≡ some b
  pub put_if_absent_created :
      (p : Text) (bytes : Bytes) (st : S)
      → (port.put_if_absent p bytes st).0 ≡ ok true
      → contents st p ≡ none
  pub get_keeps : (q p : Text) (st : S) → contents (port.get p st).1 q ≡ contents st q
  pub get_found :
      (p : Text) (found : Option Bytes) (st : S)
      → (port.get p st).0 ≡ ok found
      → contents st p ≡ found
  pub delete_keeps :
      (q p : Text) (st : S) → (q == p) ≡ false → contents (port.delete p st).1 q ≡ contents st q
  pub put_own_keeps :
      (q p : Text) (bytes : Bytes) (st : S)
      → (q == p) ≡ false
      → contents (port.put_own p bytes st).1 q ≡ contents st q

readable_not_torn :
    (existing : Bytes) (d : DecodedPack)
    → decode_pack existing ≡ ok d
    → is_own_torn_pack existing ≡ false
unfolding is_own_torn_pack
readable_not_torn existing d e = rw (is_own_torn_pack, e) refl

module _ {S : Type 0} (port : StoragePort S) (contents : S → Text → Option Bytes)
    (law : IsPort port contents) (q : Text) (b : Bytes) where
  abbrev Holds : S → Type 0
  Holds st = contents st q ≡ some b

  -- At the path itself, no torn pack.
  abbrev SafeAt : Text → Type 0
  SafeAt path = (q == path) ≡ true → is_own_torn_pack b ≡ false

  after_replace-state :
      (path : Text) (w : Outcome (Option Text) Bool × S) → (after_replace port path w).1 ≡ w.1
  after_replace-state path (ok true, st) = refl
  after_replace-state path (ok false, st) = refl
  after_replace-state path (err code, st) = refl

  after_delete-Holds :
      (path : Text) (pack : Bytes) (w : Outcome (Option Text) (Unit {0}) × S)
      → Holds w.1
      → Holds (after_delete port path pack w).1
  after_delete-Holds path pack (err code, st) h = h
  after_delete-Holds path pack (ok done, st) h =
      subst Holds (sym (after_replace-state path (port.put_if_absent path pack st)))
        (law.put_if_absent_keeps q path b pack st h)

  torn_twice :
      (path : Text) (existing : Bytes) (st : S)
      → SafeAt path
      → contents st path ≡ some existing
      → Holds st
      → is_own_torn_pack existing ≡ true
      → (q == path) ≡ true
      → ⊥
  torn_twice path existing st safe found h torn same =
      let here : q ≡ path = (list_beq_iff q path).0 same in
      let whole : is_own_torn_pack b ≡ false = safe same in cc

  after_get-Holds :
      (path : Text) (pack : Bytes) (w : Outcome (Option Text) (Option Bytes) × S)
      → SafeAt path
      → ((found : Option Bytes) → w.0 ≡ ok found → contents w.1 path ≡ found)
      → Holds w.1
      → Holds (after_get port path pack w).1
  after_get-Holds path pack (err code, st) safe found h = h
  after_get-Holds path pack (ok none, st) safe found h = h
  after_get-Holds path pack (ok (some existing), st) safe found h =
      elim (Bool-cases (is_own_torn_pack existing)) [
        | inr whole ↦ rw whole h
        | inl torn ↦ rw torn (
            after_delete-Holds path pack (port.delete path st) (elim (Bool-cases (q == path)) [
              | inl same ↦ absurd (torn_twice path existing st safe (found _ refl) h torn same)
              | inr apart ↦ law.delete_keeps q path st apart ∙ h
            ]))
      ]

  after_put-Holds :
      (path : Text) (pack : Bytes) (w : Outcome (Option Text) Bool × S)
      → SafeAt path
      → Holds w.1
      → Holds (after_put port path pack w).1
  unfolding resolve_occupied_seq
  after_put-Holds path pack (ok true, st) safe h = h
  after_put-Holds path pack (err code, st) safe h = h
  after_put-Holds path pack (ok false, st) safe h =
      after_get-Holds path pack (port.get path st) safe
        (λ found e. law.get_keeps path path st ∙ law.get_found path found st e)
        (law.get_keeps q path st ∙ h)

  after_get_refused :
      (pack : Bytes) (w : Outcome (Option Text) (Option Bytes) × S)
      → is_own_torn_pack b ≡ false
      → ((found : Option Bytes) → w.0 ≡ ok found → found ≡ some b)
      → (after_get port q pack w).0 ≢ ok tt
  after_get_refused pack (err code, st) whole found = λ e. cc
  after_get_refused pack (ok none, st) whole found = λ e. cc
  after_get_refused pack (ok (some existing), st) whole found =
      let torn : is_own_torn_pack existing ≡ false = let same = found (some existing) refl in cc in
      rw torn λ e. cc

  -- A path that holds a whole pack is not written.
  after_put_refused :
      (pack : Bytes) (w : Outcome (Option Text) Bool × S)
      → is_own_torn_pack b ≡ false
      → w.0 ≢ ok true
      → Holds w.1
      → (after_put port q pack w).0 ≢ ok tt
  unfolding resolve_occupied_seq
  after_put_refused pack (ok true, st) whole new h = absurd (new refl)
  after_put_refused pack (err code, st) whole new h = λ e. cc
  after_put_refused pack (ok false, st) whole new h =
      after_get_refused pack (port.get q st) whole λ found e. sym (law.get_found q found st e) ∙ h

-- The push did not write, and the store is as it was.
abbrev pub Refused :
    {S : Type 0} → PackStore → Outcome StoreError (Option PushResult) × (PackStore × S) → Type 0
Refused s run = ((r : PushResult) → run.0 ≢ ok (some r)) × (run.1.0 ≡ s)

module _ (c : Crypto) (o : StoreOptions) (p : Platform) {S : Type 0} (port : StoragePort S)
    (contents : S → Text → Option Bytes) (law : IsPort port contents) where
  open p use {Doc}

  after_head-state :
      (r : PushResult) (s : PackStore) (w : Outcome (Option Text) (Unit {0}) × S)
      → (after_head c o p port r s w).1.1 ≡ w.1
  after_head-state r s (ok done, st) = refl
  after_head-state r s (err code, st) = refl

  after_write-Holds :
      (q : Text) (b : Bytes) (s : PackStore) (doc : Doc) (pack : Bytes)
      (w : Outcome StoreError (Unit {0}) × S)
      → (q == head_path c o) ≡ false
      → contents w.1 q ≡ some b
      → contents (after_write c o p port s doc pack w).1.1 q ≡ some b
  after_write-Holds q b s doc pack (err e, st) apart h = h
  after_write-Holds q b s doc pack (ok done, st) apart h =
      subst (λ st'. contents st' q ≡ some b)
        (sym (
          after_head-state _ (pushed c o p s doc pack)
            (port.put_own (head_path c o) (head_text c o (pushed c o p s doc pack)) st)))
        (law.put_own_keeps q (head_path c o) (head_text c o (pushed c o p s doc pack)) st apart ∙ h)

  after_build-Holds :
      (q : Text) (b : Bytes) (s : PackStore) (doc : Doc) (st : S)
      (built : Outcome EncodeError Bytes)
      → (q == head_path c o) ≡ false
      → ((q == next_path c o p port s) ≡ true → is_own_torn_pack b ≡ false)
      → contents st q ≡ some b
      → contents (after_build c o p port s doc st built).1.1 q ≡ some b
  after_build-Holds q b s doc st (err e) apart safe h = h
  after_build-Holds q b s doc st (ok pack) apart safe h =
      let path = next_path c o p port s in
      after_write-Holds q b s doc pack (after_put port path pack (port.put_if_absent path pack st))
        apart
        (after_put-Holds port contents law q b path pack (port.put_if_absent path pack st) safe
          (law.put_if_absent_keeps q path b pack st h))

  after_write-Refused :
      (s : PackStore) (doc : Doc) (pack : Bytes) (w : Outcome StoreError (Unit {0}) × S)
      → w.0 ≢ ok tt
      → Refused s (after_write c o p port s doc pack w)
  after_write-Refused s doc pack (err e, st) h = ((λ r k. cc), refl)
  after_write-Refused s doc pack (ok done, st) h = absurd (h refl)

  after_build-Refused :
      (b : Bytes) (s : PackStore) (doc : Doc) (st : S) (built : Outcome EncodeError Bytes)
      → is_own_torn_pack b ≡ false
      → contents st (next_path c o p port s) ≡ some b
      → Refused s (after_build c o p port s doc st built)
  after_build-Refused b s doc st (err e) whole h = ((λ r k. cc), refl)
  after_build-Refused b s doc st (ok pack) whole h =
      let path = next_path c o p port s in
      let w = port.put_if_absent path pack st in
      after_write-Refused s doc pack (after_put port path pack w) (
        after_put_refused port contents law path b pack w whole
          (λ new. taken st path b h (law.put_if_absent_created path pack st new))
          (law.put_if_absent_keeps path path b pack st h))
    where
      taken :
          (st : S) (path : Text) (b : Bytes)
          → contents st path ≡ some b
          → contents st path ≡ none
          → ⊥
      taken st path b h k = cc

  push-Holds :
      (q : Text) (b : Bytes) (s : PackStore) (doc : Doc) (st : S)
      → (q == head_path c o) ≡ false
      → ((q == next_path c o p port s) ≡ true → is_own_torn_pack b ≡ false)
      → contents st q ≡ some b
      → contents (push c o p port s doc st).1.1 q ≡ some b
  unfolding push
  push-Holds q b s doc st apart safe h =
      elim (Bool-cases (has_new_operations (p.version doc) s.published_counters)) [
        | inl new ↦ rw new (
            after_build-Holds q b s doc st (build_pack c o s (payload_of c o p s doc)) apart safe h)
        | inr old ↦ rw old h
      ]

  push-Refused :
      (b : Bytes) (s : PackStore) (doc : Doc) (st : S)
      → is_own_torn_pack b ≡ false
      → contents st (next_path c o p port s) ≡ some b
      → Refused s (push c o p port s doc st)
  unfolding push
  push-Refused b s doc st whole h =
      elim (Bool-cases (has_new_operations (p.version doc) s.published_counters)) [
        | inl new ↦
            rw new
              (after_build-Refused b s doc st (build_pack c o s (payload_of c o p s doc)) whole h)
        | inr old ↦ rw old ((λ r k. cc), refl)
      ]

  -- On a port that keeps its promises, whatever its calls answer: a file other than the device's head
  -- that decodes as a pack holds the same bytes after a push; and if it stands at the next path, the
  -- push reports no pack written and the store is unchanged.
  pub push-keeps_packs :
      (q : Text) (b : Bytes) (d : DecodedPack) (s : PackStore) (doc : Doc) (st : S)
      → (q == head_path c o) ≡ false
      → contents st q ≡ some b
      → decode_pack b ≡ ok d
      → (contents (push c o p port s doc st).1.1 q ≡ some b)
        × (q ≡ next_path c o p port s → Refused s (push c o p port s doc st))
  push-keeps_packs q b d s doc st apart h decodes =
      let whole = readable_not_torn b d decodes in
      (
        push-Holds q b s doc st apart (λ same. whole) h,
        λ here. push-Refused b s doc st whole (subst (λ path. contents st path ≡ some b) here h),
      )
