-- ===== src/Pack/Aead.antt =====
-- packages/format/src/aead.ts: the framed chunks of an encrypted payload.
pub mod Framed
use knowtion.Base.{
  ℕ, zero, suc, ◌+◌, ◌-◌, ◌/◌, ◌≡◌, refl, Bool, true, false, not, ◌||◌, Option, none, some, List,
  [], ◌∷◌, ◌++◌, Text, codes, length, take, drop, max, ltb, leb, ◌==◌, nat_eq, if◌then◌else◌,
  Outcome, ok, err, ◌>>=◌, ◌>>◌, throw_if,
}
use knowtion.Pack.Bytes.{Bytes, to_le}
use knowtion.Pack.Envelope.{PackRejectionCode}

-- HKDF-SHA256 and XChaCha20-Poly1305. Decryption fails on what does not authenticate.
pub record Cipher : Type 0 where
  pub hkdf : Bytes → Bytes → Bytes → Bytes
  pub encrypt : Bytes → Bytes → Bytes → Bytes → Bytes
  pub decrypt : Bytes → Bytes → Bytes → Bytes → Option Bytes

-- A content key has 32 bytes, a ciphertext 16 more than its plaintext, and a key opens what it sealed.
pub record IsCipher (c : Cipher) : Type 0 where
  pub length-hkdf : (key salt info : Bytes) → length (c.hkdf key salt info) ≡ 32
  pub length-encrypt :
      (key nonce aad text : Bytes) → length (c.encrypt key nonce aad text) ≡ length text + 16
  pub decrypt-encrypt :
      (key nonce aad text : Bytes)
      → c.decrypt key nonce aad (c.encrypt key nonce aad text) ≡ some text

-- A field of the wrong width, or a refused payload. `out_of_fuel` has no counterpart in the source.
pub data AeadError : Type 0 where
  wrong_width out_of_fuel : AeadError
  rejected : PackRejectionCode → AeadError

abbrev pub content_chunk_size : ℕ
content_chunk_size = 262144

-- 24 bytes of nonce and 16 of tag
abbrev pub min_framed_chunk_size : ℕ
min_framed_chunk_size = 40

abbrev pub framed_chunk_size : ℕ
framed_chunk_size = 262184

pub record PackBinding : Type 0 where
  pub envelope_version : ℕ
  pub suite_id : ℕ
  pub workspace_id : Bytes
  pub device_id : Bytes
  pub seq : ℕ
  pub key_epoch : ℕ

unfoldable pub require_bytes : Bytes → ℕ → Outcome AeadError (Unit {0})
require_bytes value expected = throw_if (not (length value == expected)) AeadError.wrong_width

-- The fields of the associated data in their order; each has a fixed width.
unfoldable pub aad_of : PackBinding → ℕ → Bool → Bytes
aad_of b index is_final =
    to_le 2 b.envelope_version
    ++ to_le 1 b.suite_id
    ++ b.workspace_id
    ++ b.device_id
    ++ to_le 8 b.seq
    ++ to_le 4 b.key_epoch
    ++ to_le 4 index
    ++ to_le 1 (if is_final then 1 else 0)

unfoldable pub chunk_aad : PackBinding → ℕ → Bool → Outcome AeadError Bytes
chunk_aad b index is_final = do
  require_bytes b.workspace_id 16
  require_bytes b.device_id 16
  ok (aad_of b index is_final)

module _ (c : Cipher) where
  unfoldable pub derive_pack_key : Bytes → Bytes → PackBinding → Outcome AeadError Bytes
  derive_pack_key workspace_key pack_salt b = do
    require_bytes workspace_key 32
    require_bytes pack_salt 16
    require_bytes b.workspace_id 16
    require_bytes b.device_id 16
    ok (
        c.hkdf workspace_key pack_salt (
          codes "knowtion/pack-key/v1"
          ++ b.workspace_id
          ++ b.device_id
          ++ to_le 8 b.seq
          ++ to_le 4 b.key_epoch))

  module _ (key : Bytes) (binding : PackBinding) where
    -- The loop of `encryptPayload` over the chunks that are left. `nonces` are the random bytes.
    unfoldable pub encrypt_chunks : (ℕ → Bytes) → ℕ → ℕ → Bytes → Outcome AeadError Bytes
    encrypt_chunks nonces zero index text = ok []
    encrypt_chunks nonces (suc n) index text = do
      aad ← chunk_aad binding index (n == 0)
      rest ← encrypt_chunks nonces n (suc index) (drop content_chunk_size text)
      ok ((nonces index ++ c.encrypt key (nonces index) aad (take content_chunk_size text)) ++ rest)

    unfoldable pub encrypt_payload : (ℕ → Bytes) → Bytes → Outcome AeadError Bytes
    encrypt_payload nonces text = do
      require_bytes key 32
      encrypt_chunks nonces (max 1 ((length text + 262143) / content_chunk_size)) 0 text

    abbrev pub authentic : Option Bytes → Outcome AeadError Bytes
    authentic none = err (AeadError.rejected PackRejectionCode.decrypt_failed)
    authentic (some text) = ok text

    -- Associated data that cannot be formed counts as a chunk that does not authenticate.
    abbrev pub caught : Outcome AeadError Bytes → Outcome AeadError Bytes
    caught (ok aad) = ok aad
    caught (err e) = err (AeadError.rejected PackRejectionCode.decrypt_failed)

    -- One chunk, of `framed` bytes at the front.
    unfoldable pub open_chunk : ℕ → Bool → ℕ → Bytes → Outcome AeadError Bytes
    open_chunk index is_final framed bytes = do
      throw_if (ltb framed min_framed_chunk_size)
          (AeadError.rejected PackRejectionCode.bad_ciphertext_framing)
      aad ← caught (chunk_aad binding index is_final)
      authentic (c.decrypt key (take 24 bytes) aad (take (framed - 24) (drop 24 bytes)))

    -- The loop of `decryptPayload`. Each round takes a nonce and a tag at least.
    unfoldable pub decrypt_chunks : ℕ → ℕ → Bytes → Outcome AeadError Bytes
    decrypt_chunks zero index bytes = err AeadError.out_of_fuel
    decrypt_chunks (suc fuel) index bytes = elim (leb (length bytes) framed_chunk_size) [
      | true ↦ open_chunk index true (length bytes) bytes
      | false ↦ do
        opened ← open_chunk index false framed_chunk_size bytes
        rest ← decrypt_chunks fuel (suc index) (drop framed_chunk_size bytes)
        ok (opened ++ rest)
    ]

    unfoldable pub decrypt_payload : Bytes → Outcome AeadError Bytes
    decrypt_payload bytes = do
      require_bytes key 32
      throw_if (ltb (length bytes) min_framed_chunk_size)
          (AeadError.rejected PackRejectionCode.bad_ciphertext_framing)
      decrypt_chunks (suc (length bytes)) 0 bytes
