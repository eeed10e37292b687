-- ===== src/Sync/Store/Pull/Twice.antt =====
-- Merging the same packs a second time.
use knowtion.Base.{
  ℕ, zero, suc, ◌≤◌, ◌≡◌, refl, subst, Bool, true, false, List, [], ◌∷◌, length, length-append,
  Text, list_eq, nat_eq, contains, Outcome, ok, err, All, arith, beq_refl,
}
use knowtion.Base.Dict.{add, contains-add}
use knowtion.Pack.Envelope.{Crypto}
use knowtion.Sync.Store.{
  Platform, StoreOptions, PackStore, RejectedPack, PackCandidate, StoreError, World, skip, reject,
}
use knowtion.Sync.Store.Pull.{
  remember, settle, count, adopt_own, after_import, merge_candidate, merge_candidates, after,
}
use knowtion.Sync.Store.Pull.Growth.{Grows, merge_candidate-cases, merge_candidates-Grows}

abbrev rejections : {D : Type 0} → World D → ℕ
rejections w = length w.result.rejected

-- Nothing was rejected, or something was.
record Merged {D : Type 0} (x : PackCandidate) (w : World D)
    (r : Outcome StoreError (Unit {0}) × World D) : Type 0 where
  more : rejections w ≤ rejections r.1
  known : r.0 ≡ ok tt → rejections r.1 ≤ rejections w → contains x.path r.1.store.known ≡ true

contains-add_same : (a : Text) (xs : List Text) → contains a (add a xs) ≡ true
contains-add_same a xs = ground (arith, contains-add a a xs, beq_refl a)

abbrev pub skips : {D : Type 0} → ℕ → World D → World D
skips zero w = w
skips (suc n) w = skips n (skip w)

module _ (c : Crypto) (o : StoreOptions) (p : Platform) where
  open p use {Doc}

  reject-Merged :
      (x : PackCandidate) (w : World Doc) (q : RejectedPack) → Merged x w (ok tt, reject q w)
  unfolding reject
  reject-Merged x w q = record {
    more = omega (arith, length-append w.result.rejected (q ∷ []));
    known = λ e h. absurd (omega (arith, length-append w.result.rejected (q ∷ []), h));
  }

  adopt_own-keeps :
      (x : PackCandidate) (w : World Doc)
      → ((adopt_own c o x w).store.known ≡ w.store.known) × ((adopt_own c o x w).result ≡ w.result)
  unfolding adopt_own
  adopt_own-keeps x w = ground arith

  count-keeps :
      (x : PackCandidate) (w : World Doc)
      → ((count c o x w).store.known ≡ w.store.known)
        × ((count c o x w).result.rejected ≡ w.result.rejected)
  unfolding count
  count-keeps x w = ground arith

  after_import-Merged :
      (x : PackCandidate) (w : World Doc) (r : Bool × Doc) → Merged x w (after_import c o p x w r)
  unfolding settle
  after_import-Merged x w (false, doc) = record { more = omega arith; known = λ e h. cc }
  after_import-Merged x w (true, doc) =
      let w1 = settle c o x (record w { doc = doc }) in
      let (k1, r1) = count-keeps x w1 in
      let (k2, r2) = adopt_own-keeps x (count c o x w1) in
      record {
        more = rw (r2, r1) (omega arith);
        known = λ e h. rw (k2, k1) (contains-add_same x.path w.store.known);
      }

  merge_candidate-Merged :
      (x : PackCandidate) (w : World Doc) → Merged x w (merge_candidate c o p x w)
  unfolding skip settle remember
  merge_candidate-Merged x w =
      merge_candidate-cases c o p (Merged x w) x w (reject-Merged x w)
        (record { more = omega arith; known = λ e h. contains-add_same x.path w.store.known })
        (record { more = omega arith; known = λ e h. cc })
        (λ plaintext. after_import-Merged x w (p.import_update plaintext w.doc))
        (λ k. record { more = omega arith; known = λ e h. k })
        (record { more = omega arith; known = λ e h. contains-add_same x.path w.store.known })

  still_known :
      (x : PackCandidate) (s t : PackStore)
      → Grows s t
      → contains x.path s.known ≡ true
      → contains x.path t.known ≡ true
  still_known x s t g h = g.known x.path h

  -- What a run of the loop leaves: as many rejections or more, and every path known if no more.
  record MergedAll (xs : List PackCandidate) (w : World Doc)
      (r : Outcome StoreError (Unit {0}) × World Doc) : Type 0 where
    more : rejections w ≤ rejections r.1
    known :
        r.0 ≡ ok tt
        → rejections r.1 ≤ rejections w
        → All (λ x. contains x.path r.1.store.known ≡ true) xs

  after-MergedAll :
      (x : PackCandidate) (xs : List PackCandidate) (w : World Doc)
      (r : Outcome StoreError (Unit {0}) × World Doc)
      → Merged x w r
      → ((v : World Doc) → MergedAll xs v (merge_candidates c o p xs v))
      → MergedAll (x ∷ xs) w (after c o p r (merge_candidates c o p xs))
  after-MergedAll x xs w (err e, v) m rest = record { more = m.more; known = λ e h. cc }
  after-MergedAll x xs w (ok tt, v) m rest =
      let m2 = rest v in
      record {
        more = omega (arith, m.more, m2.more);
        known = λ e h. (
          still_known x v.store _ (merge_candidates-Grows c o p xs v)
              (m.known refl (omega (arith, m.more, m2.more, h))),
          m2.known e (omega (arith, m.more, m2.more, h)),
        );
      }

  merge_candidates-MergedAll :
      (xs : List PackCandidate) (w : World Doc) → MergedAll xs w (merge_candidates c o p xs w)
  unfolding merge_candidates
  merge_candidates-MergedAll [] w = record { more = omega arith; known = λ e h. tt }
  merge_candidates-MergedAll (x ∷ xs) w =
      after-MergedAll x xs w (merge_candidate c o p x w) (merge_candidate-Merged x w)
        (merge_candidates-MergedAll xs)

  merge_candidates_known :
      (xs : List PackCandidate) (w : World Doc)
      → All (λ x. contains x.path w.store.known ≡ true) xs
      → merge_candidates c o p xs w ≡ (ok tt, skips (length xs) w)
  unfolding merge_candidates merge_candidate skip
  merge_candidates_known [] w h = refl
  merge_candidates_known (x ∷ xs) w (k, ks) = rw k (merge_candidates_known xs (skip w) ks)

  -- When a run rejects nothing, a second run over the same packs skips every one of them: the
  -- document and the store stay as they are.
  pub merge_candidates_again :
      (xs : List PackCandidate) (w w' : World Doc)
      → merge_candidates c o p xs w ≡ (ok tt, w')
      → length w'.result.rejected ≡ length w.result.rejected
      → merge_candidates c o p xs w' ≡ (ok tt, skips (length xs) w')
  merge_candidates_again xs w w' e h =
      let m = subst (MergedAll xs w) e (merge_candidates-MergedAll xs w) in
      merge_candidates_known xs w' (m.known refl (omega (arith, h)))
