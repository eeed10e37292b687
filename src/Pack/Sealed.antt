-- ===== src/Pack/Sealed.antt =====
-- packages/format/src/sealed-pack.ts: packs under cipher suite 1.
pub mod RoundTrip
use knowtion.Base.{
  ℕ, ◌-◌, ◌≡◌, refl, Bool, true, false, Option, none, some, Text, length, take, ltb, ◌==◌, nat_eq,
  if◌then◌else◌, Outcome, ok, err, ◌>>=◌, ◌>>◌, throw_if,
}
use knowtion.Base.Dict.{Dict, lookup}
use knowtion.Pack.Bytes.{Bytes}
use knowtion.Pack.Layout.{envelope_version, suite_none, suite_xchacha20poly1305_argon2id}
use knowtion.Pack.Envelope.{
  Crypto, PackInput, PackHeader, DecodedPack, PackRejectionCode, EncodeError, encode_pack,
}
use knowtion.Pack.Aead.{
  Cipher, AeadError, PackBinding, derive_pack_key, encrypt_payload, decrypt_payload,
}

pub record WorkspaceKey : Type 0 where
  pub epoch : ℕ
  pub key : Bytes

pub record SealPackInput : Type 0 where
  pub workspace_id : Bytes
  pub device_id : Bytes
  pub seq : ℕ
  pub payload : Bytes
  pub is_shallow_snapshot : Option Bool
  pub prev_pack_hash : Option Bytes
  pub workspace_key : WorkspaceKey
  pub signing_secret_key : Bytes

-- Epoch to key.
abbrev pub Keyring : Type 0
Keyring = Dict ℕ Bytes

pub data SealError : Type 0 where
  bad_epoch : SealError
  aead : AeadError → SealError
  encode : EncodeError → SealError

abbrev in_aead {ℓ} : {A : Type ℓ} → Outcome AeadError A → Outcome SealError A
in_aead (ok a) = ok a
in_aead (err e) = err (aead e)

abbrev in_encode {ℓ} : {A : Type ℓ} → Outcome EncodeError A → Outcome SealError A
in_encode (ok a) = ok a
in_encode (err e) = err (encode e)

-- `bindingOf`
unfoldable pub binding_of : Bytes → Bytes → ℕ → ℕ → PackBinding
binding_of workspace_id device_id seq key_epoch = record {
  envelope_version = envelope_version;
  suite_id = suite_xchacha20poly1305_argon2id;
  workspace_id = workspace_id;
  device_id = device_id;
  seq = seq;
  key_epoch = key_epoch;
}

unfoldable pub binding_of_input : SealPackInput → PackBinding
unfolding binding_of
binding_of_input input =
    binding_of input.workspace_id input.device_id input.seq input.workspace_key.epoch

-- What is encoded, for a salt and an encrypted payload.
unfoldable pub sealed_input : SealPackInput → Bytes → Bytes → PackInput
sealed_input input salt body = record {
  workspace_id = input.workspace_id;
  device_id = input.device_id;
  seq = input.seq;
  payload = body;
  is_shallow_snapshot = input.is_shallow_snapshot;
  suite_id = some suite_xchacha20poly1305_argon2id;
  key_epoch = some input.workspace_key.epoch;
  padding_len = none;
  prev_pack_hash = input.prev_pack_hash;
  pack_salt = some salt;
  device_signature = none;
  signing_secret_key = some input.signing_secret_key;
}

module _ (crypto : Crypto) (c : Cipher) where
  -- `salt` and `nonces` are the random bytes.
  unfoldable pub seal_pack : Bytes → (ℕ → Bytes) → SealPackInput → Outcome SealError Bytes
  seal_pack salt nonces input = do
    throw_if (ltb input.workspace_key.epoch 1) SealError.bad_epoch
    pack_key ← in_aead (derive_pack_key c input.workspace_key.key salt (binding_of_input input))
    body ← in_aead (encrypt_payload c pack_key (binding_of_input input) nonces input.payload)
    in_encode (encode_pack crypto (sealed_input input salt body))

  unfoldable pub open_with : Option Bytes → DecodedPack → Outcome AeadError Bytes
  unfolding binding_of
  open_with none decoded = err (AeadError.rejected PackRejectionCode.unknown_key_epoch)
  open_with (some key) decoded = do
    let h = decoded.header
    let body =
        if h.padding_len == 0
        then decoded.payload
        else take (length decoded.payload - h.padding_len) decoded.payload
    let binding = binding_of h.workspace_id h.device_id h.seq h.key_epoch
    pack_key ← derive_pack_key c key h.pack_salt binding
    decrypt_payload c pack_key binding body

  unfoldable pub open_pack : DecodedPack → Keyring → Outcome AeadError Bytes
  open_pack decoded keys =
      if decoded.header.suite_id == suite_none
      then err (AeadError.rejected PackRejectionCode.unknown_suite)
      else open_with (lookup decoded.header.key_epoch keys) decoded
