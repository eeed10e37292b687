-- ===== src/Pack/Sealed/RoundTrip.antt =====
-- Opening what was sealed (packages/format/src/sealed-pack.ts).
use knowtion.Base.{
  ℕ, ◌<◌, ◌≡◌, refl, ap, sym, ◌∙◌, some, length, ltb, nat_eq, Outcome, ok, err, ◌>>=◌, ◌>>◌, arith,
  contains, after_throw_if,
}
use knowtion.Base.Dict.{lookup}
use knowtion.Pack.Bytes.{Bytes}
use knowtion.Pack.Envelope.{Crypto, IsLawful, DecodedPack, EncodeError, encode_pack, decode_pack}
use knowtion.Pack.Envelope.Encoded.{HasRoom, expected_header}
use knowtion.Pack.Envelope.RoundTrip.{decode_pack-encode_pack, checked}
use knowtion.Pack.Aead.{
  Cipher, IsCipher, AeadError, require_bytes, derive_pack_key, encrypt_payload,
}
use knowtion.Pack.Aead.Framed.{decrypt_payload-encrypt_payload}
use knowtion.Pack.Sealed.{
  SealPackInput, Keyring, SealError, in_aead, in_encode, binding_of, binding_of_input, sealed_input,
  seal_pack, open_with, open_pack,
}

bind-ok {ℓ κ μ} :
    {E : Type ℓ} {A : Type κ} {B : Type μ} (m : Outcome E A) (f : A → Outcome E B) {b : B}
    → (m >>= f) ≡ ok b
    → (a : A) × (m ≡ ok a) × (f a ≡ ok b)
bind-ok (ok a) f h = (a, refl, h)
bind-ok (err e) f h = cc

after_checks :
    (m1 m2 m3 m4 : Outcome AeadError (Unit {0})) {k a : Bytes}
    → (m1 >> (m2 >> (m3 >> (m4 >> ok k)))) ≡ ok a
    → k ≡ a
after_checks (ok u) (ok v) (ok w) (ok x) h = cc
after_checks (err e) m2 m3 m4 h = cc
after_checks (ok u) (err e) m3 m4 h = cc
after_checks (ok u) (ok v) (err e) m4 h = cc
after_checks (ok u) (ok v) (ok w) (err e) h = cc

in_aead-ok {ℓ} : {A : Type ℓ} (m : Outcome AeadError A) {a : A} → in_aead m ≡ ok a → m ≡ ok a
in_aead-ok (ok a) h = cc
in_aead-ok (err e) h = cc

in_encode-ok {ℓ} : {A : Type ℓ} (m : Outcome EncodeError A) {a : A} → in_encode m ≡ ok a → m ≡ ok a
in_encode-ok (ok a) h = cc
in_encode-ok (err e) h = cc

module _ (crypto : Crypto) (law : IsLawful crypto) (c : Cipher) (lawful : IsCipher c) (salt : Bytes)
    (nonces : ℕ → Bytes) (nonce_width : (i : ℕ) → length (nonces i) ≡ 24) (input : SealPackInput)
    (epoch_fits : input.workspace_key.epoch < 4294967296) where
  derived-width :
      (key : Bytes)
      → derive_pack_key c input.workspace_key.key salt (binding_of_input input) ≡ ok key
      → length key ≡ 32
  unfolding derive_pack_key
  derived-width key h =
      let b = binding_of_input input in
      ap length (
        sym (
          after_checks (require_bytes input.workspace_key.key 32) (require_bytes salt 16)
            (require_bytes b.workspace_id 16) (require_bytes b.device_id 16) h))
      ∙ lawful.length-hkdf _ _ _

  -- The encoder's bounds hold of what is sealed.
  has_room : (body : Bytes) → HasRoom (sealed_input input salt body)
  unfolding sealed_input contains
  has_room body = record { suite_known = refl; suite_id = omega arith; key_epoch = epoch_fits }

  open_with-sealed :
      (key body : Bytes)
      → derive_pack_key c input.workspace_key.key salt (binding_of_input input) ≡ ok key
      → encrypt_payload c key (binding_of_input input) nonces input.payload ≡ ok body
      → length input.workspace_id ≡ 16
      → length input.device_id ≡ 16
      → open_with crypto c (some input.workspace_key.key) (record {
        header = expected_header crypto (sealed_input input salt body);
        payload = body;
      })
        ≡ ok input.payload
  unfolding open_with sealed_input binding_of binding_of_input
  open_with-sealed key body derived encrypted ws dev = rw derived (
      decrypt_payload-encrypt_payload c lawful key (binding_of_input input) nonces nonce_width ws
        dev (derived-width key derived) input.payload body encrypted)

  -- The bytes are decoded and opened to the payload.
  abbrev Opens : Keyring → Bytes → Type 0
  Opens keys bytes =
      (decoded : DecodedPack) × (decode_pack bytes ≡ ok decoded)
      × (open_pack crypto c decoded keys ≡ ok input.payload)

  open_pack-encoded :
      (keys : Keyring) (bytes key body : Bytes)
      → derive_pack_key c input.workspace_key.key salt (binding_of_input input) ≡ ok key
      → encrypt_payload c key (binding_of_input input) nonces input.payload ≡ ok body
      → encode_pack crypto (sealed_input input salt body) ≡ ok bytes
      → lookup input.workspace_key.epoch keys ≡ some input.workspace_key.key
      → Opens keys bytes
  unfolding open_pack sealed_input
  open_pack-encoded keys bytes key body derived encrypted encoded held =
      let sealed = sealed_input input salt body in
      let valid = checked crypto law sealed (has_room body) bytes encoded in
      (
        record { header = expected_header crypto sealed; payload = body },
        decode_pack-encode_pack crypto law sealed (has_room body) bytes encoded,
        rw held (open_with-sealed key body derived encrypted valid.workspace_id valid.device_id),
      )

  -- A pack sealed under an epoch that fits its field and under nonces of 24 bytes is decoded, and opened
  -- by a keyring that holds its epoch's key to the payload that was sealed.
  pub open_pack-seal_pack :
      (keys : Keyring) (bytes : Bytes)
      → seal_pack crypto c salt nonces input ≡ ok bytes
      → lookup input.workspace_key.epoch keys ≡ some input.workspace_key.key
      → (decoded : DecodedPack) × (decode_pack bytes ≡ ok decoded)
        × (open_pack crypto c decoded keys ≡ ok input.payload)
  unfolding seal_pack
  open_pack-seal_pack keys bytes sealed held =
      let b = binding_of_input input in
      let (_, keyed) =
        after_throw_if (ltb input.workspace_key.epoch 1) SealError.bad_epoch _ sealed in
      let (key, derived, rest) =
        bind-ok (in_aead (derive_pack_key c input.workspace_key.key salt b)) _ keyed in
      let (body, encrypted, last) =
        bind-ok (in_aead (encrypt_payload c key b nonces input.payload)) _ rest in
      open_pack-encoded keys bytes key body (in_aead-ok _ derived) (in_aead-ok _ encrypted)
        (in_encode-ok _ last) held
