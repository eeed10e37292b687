-- ===== src/Sync/Store/Push/Chained.antt =====
-- The pack and the state that `push` leaves.
use knowtion.Base.{
  suc, ◌≡◌, refl, sym, ap, ◌∙◌, inl, inr, false, Option, none, some, [], ◌∷◌, length, Text, list_eq,
  nat_eq, Outcome, ok, err, Bool-cases, All, contains, arith,
}
use knowtion.Base.Dict.{lookup}
use knowtion.Pack.Bytes.{Bytes}
use knowtion.Pack.Envelope.{Crypto, IsLawful, EncodeError, DecodedPack, decode_pack, encode_pack}
use knowtion.Pack.Envelope.Encoded.{HasRoom, expected_header}
use knowtion.Pack.Envelope.RoundTrip.{decode_pack-encode_pack}
use knowtion.Sync.Paths.{pack_path}
use knowtion.Sync.Store.{Version, Platform, StoreOptions, PackStore, StoreError, has_new_operations}
use knowtion.Sync.Store.Push.{
  StoragePort, PushResult, pack_input, build_pack, payload_of, pushed, after_head, after_write,
  after_build, after_put, push, head_text, head_path,
}

-- A version's peers are distinct, as a `Map`'s keys are.
abbrev pub IsMap : Version → Type 0
IsMap v = All (λ entry. lookup entry.0 v ≡ some entry.1) v

has_new_operations_covered :
    (rest v : Version)
    → All (λ entry. lookup entry.0 v ≡ some entry.1) rest
    → has_new_operations rest v ≡ false
unfolding has_new_operations
has_new_operations_covered [] v h = refl
has_new_operations_covered ((peer, counter) ∷ rest) v (e, h) =
    rw (has_new_operations, e, has_new_operations_covered rest v h) (ground arith)

module _ (c : Crypto) (o : StoreOptions) (p : Platform) {S : Type 0} (port : StoragePort S) where
  open p use {Doc}

  -- The path under which a push of this state writes.
  abbrev pub next_path : PackStore → Text
  next_path s = pack_path o.device_hex o.document_hex (suc s.last_seq)

  -- The port has stored the pack under the next path: it was created, or it replaced a torn one.
  abbrev pub Stored : PackStore → S → Bytes → Type 0
  Stored s st pack =
      (after_put port (next_path s) pack (port.put_if_absent (next_path s) pack st)).0 ≡ ok tt

  -- The pack that a successful push wrote, and the state that it left.
  pub record Wrote (s : PackStore) (doc : Doc) (st : S) (r : PushResult) (s' : PackStore)
      : Type 0 where
    pub pack : Bytes
    pub stored : Stored s st pack
    pub path : r.path ≡ next_path s
    pub built : build_pack c o s (payload_of c o p s doc) ≡ ok pack
    pub store : s' ≡ pushed c o p s doc pack
    pub seq : r.seq ≡ suc s.last_seq
    pub bytes : r.bytes ≡ length pack

  after_head-inv :
      (q r : PushResult) (t s' : PackStore) (head : Outcome (Option Text) (Unit {0}) × S) (st' : S)
      → after_head c o p port q t head ≡ (ok (some r), (s', st'))
      → (q ≡ r) × (t ≡ s')
  after_head-inv q r t s' (ok done, st) st' h = (cc, cc)
  after_head-inv q r t s' (err code, st) st' h = cc

  after_write-inv :
      (s s' : PackStore) (doc : Doc) (pack : Bytes) (w : Outcome StoreError (Unit {0}) × S)
      (r : PushResult) (st st' : S)
      → after_put port (next_path s) pack (port.put_if_absent (next_path s) pack st) ≡ w
      → build_pack c o s (payload_of c o p s doc) ≡ ok pack
      → after_write c o p port s doc pack w ≡ (ok (some r), (s', st'))
      → Wrote s doc st r s'
  after_write-inv s s' doc pack (err e, st1) r st st' w b h = cc
  after_write-inv s s' doc pack (ok done, st1) r st st' w b h =
      let (q, t) =
        after_head-inv _ r (pushed c o p s doc pack) s'
          (port.put_own (head_path c o) (head_text c o (pushed c o p s doc pack)) st1) st' h in
      record {
        pack = pack;
        stored = ap (λ x. x.0) w;
        path = ap (λ x. x.path) (sym q);
        built = b;
        store = sym t;
        seq = ap (λ x. x.seq) (sym q);
        bytes = ap (λ x. x.bytes) (sym q);
      }

  after_build-inv :
      (s s' : PackStore) (doc : Doc) (st st' : S) (b : Outcome EncodeError Bytes) (r : PushResult)
      → build_pack c o s (payload_of c o p s doc) ≡ b
      → after_build c o p port s doc st b ≡ (ok (some r), (s', st'))
      → Wrote s doc st r s'
  after_build-inv s s' doc st st' (err e) r b h = cc
  after_build-inv s s' doc st st' (ok pack) r b h =
      after_write-inv s s' doc pack _ r st st' refl b h

  pub push-Wrote :
      (s s' : PackStore) (doc : Doc) (st st' : S) (r : PushResult)
      → push c o p port s doc st ≡ (ok (some r), (s', st'))
      → Wrote s doc st r s'
  unfolding push
  push-Wrote s s' doc st st' r h =
      elim (Bool-cases (has_new_operations (p.version doc) s.published_counters)) [
        | inl new ↦ after_build-inv s s' doc st st' _ r refl (rw new at h)
        | inr old ↦ absurd (quiet s s' st st' r (rw old at h))
      ]
    where
      quiet :
          (s s' : PackStore) (st st' : S) (r : PushResult)
          → ◌≡◌ {A = Outcome StoreError (Option PushResult) × (PackStore × S)}
              (ok none, (s, st))
              (ok (some r), (s', st'))
          → ⊥
      quiet s s' st st' r h = cc

  -- Once a push has published a version, pushing the same document again writes nothing: the
  -- folder and the store stay as they are.
  pub push_again :
      (s s' : PackStore) (doc : Doc) (st st' : S) (r : PushResult)
      → IsMap (p.version doc)
      → push c o p port s doc st ≡ (ok (some r), (s', st'))
      → push c o p port s' doc st' ≡ (ok none, (s', st'))
  unfolding push pushed
  push_again s s' doc st st' r v h =
      let wrote = push-Wrote s s' doc st st' r h in
      let published : s'.published_counters ≡ p.version doc =
        ap (λ x. x.published_counters) wrote.store in
      rw (published, has_new_operations_covered (p.version doc) (p.version doc) v)

  build_pack_plain :
      (s : PackStore) (payload : Bytes)
      → o.crypto ≡ none
      → build_pack c o s payload ≡ encode_pack c (pack_input c o s payload)
  unfolding build_pack
  build_pack_plain s payload plain = rw plain refl

  plain_room : (s : PackStore) (payload : Bytes) → HasRoom (pack_input c o s payload)
  unfolding contains
  plain_room s payload = record {
    suite_known = refl;
    suite_id = omega arith;
    key_epoch = omega arith;
  }

  -- The link that a push adds to the device's chain: what was stored, how a reader decodes it, and
  -- the state from which the next push goes on.
  pub record NextLink (s s' : PackStore) (doc : Doc) (st : S) (r : PushResult) : Type 0 where
    pub pack : Bytes
    pub decoded : DecodedPack
    pub stored : Stored s st pack
    pub decodes : decode_pack pack ≡ ok decoded
    pub path : r.path ≡ next_path s
    pub seq : decoded.header.seq ≡ suc s.last_seq
    pub prev_pack_hash : decoded.header.prev_pack_hash ≡ s.last_hash
    pub payload : decoded.payload ≡ payload_of c o p s doc
    pub last_seq : s'.last_seq ≡ suc s.last_seq
    pub last_hash : s'.last_hash ≡ c.hash pack

  -- A successful plaintext push has stored, under the path of the next sequence number, a pack that
  -- decodes to that number, the hash of the device's previous pack and exactly the exported
  -- operations; its own hash becomes the link for the next push.
  pub push-NextLink :
      (law : IsLawful c) (s s' : PackStore) (doc : Doc) (st st' : S) (r : PushResult)
      → o.crypto ≡ none
      → push c o p port s doc st ≡ (ok (some r), (s', st'))
      → NextLink s s' doc st r
  unfolding pushed
  push-NextLink law s s' doc st st' r plain h =
      let wrote = push-Wrote s s' doc st st' r h in
      let input = pack_input c o s (payload_of c o p s doc) in
      let encoded : encode_pack c input ≡ ok wrote.pack =
        sym (build_pack_plain s (payload_of c o p s doc) plain) ∙ wrote.built in
      record {
        pack = wrote.pack;
        decoded = record { header = expected_header c input; payload = input.payload };
        stored = wrote.stored;
        decodes =
            decode_pack-encode_pack c law input (plain_room s (payload_of c o p s doc)) wrote.pack
              encoded;
        path = wrote.path;
        seq = refl;
        prev_pack_hash = refl;
        payload = refl;
        last_seq = ap (λ x. x.last_seq) wrote.store;
        last_hash = ap (λ x. x.last_hash) wrote.store;
      }
