-- ===== src/Pack/Envelope.antt =====
-- The pack envelope's encoder and decoder (packages/format/src/envelope.ts). BLAKE3 and Ed25519
-- come from third-party packages: they are the parameter `Crypto`.
pub mod Checked
pub mod Written
pub mod Encoded
pub mod RoundTrip
pub mod Signature
use Prim.Native.Nat.{bit_and}
use knowtion.Base.{
  ℕ, ◌+◌, ◌≡◌, List, [], ◌∷◌, ◌++◌, length, take, drop, replicate, all, Bool, true, false, not,
  ◌&&◌, ◌||◌, Option, none, some, is_some, ltb, ◌==◌, nat_eq, contains, if◌then◌else◌, Outcome, ok,
  ◌>>◌, throw_if,
}
use knowtion.Pack.Bytes.{Bytes, to_le, of_le, slice, write, write_all}
use knowtion.Pack.Layout.{
  magic, envelope_version, header_size, offset, size_of, suite_none, known_suites,
  shallow_snapshot_flag,
}
use knowtion.Pack.Crc.{crc32c}

-- hash.ts and keys.ts, which call a package for BLAKE3 and for Ed25519.
pub record Crypto : Type 0 where
  pub hash : Bytes → Bytes
  -- The signature of a message under a secret key.
  pub sign : Bytes → Bytes → Bytes
  -- A signature, a message and a public key.
  pub verify : Bytes → Bytes → Bytes → Bool
  pub public_key : Bytes → Bytes

-- What the two primitives document: fixed widths, and that a signature verifies.
pub record IsLawful (c : Crypto) : Type 0 where
  pub length-hash : (bytes : Bytes) → length (c.hash bytes) ≡ 32
  pub length-sign : (message secret : Bytes) → length (c.sign message secret) ≡ 64
  pub verify-sign :
      (message secret : Bytes)
      → c.verify (c.sign message secret) message (c.public_key secret) ≡ true

pub record PackHeader : Type 0 where
  pub envelope_version : ℕ
  pub suite_id : ℕ
  pub flags : ℕ
  pub workspace_id : Bytes
  pub device_id : Bytes
  pub seq : ℕ
  pub key_epoch : ℕ
  pub payload_len : ℕ
  pub padding_len : ℕ
  pub prev_pack_hash : Bytes
  pub pack_salt : Bytes
  pub device_signature : Bytes

-- Numbers are non-negative integers; a negative `seq` is refused by the code as 0 is here.
pub record PackInput : Type 0 where
  pub workspace_id : Bytes
  pub device_id : Bytes
  pub seq : ℕ
  pub payload : Bytes
  pub is_shallow_snapshot : Option Bool
  pub suite_id : Option ℕ
  pub key_epoch : Option ℕ
  pub padding_len : Option ℕ
  pub prev_pack_hash : Option Bytes
  pub pack_salt : Option Bytes
  pub device_signature : Option Bytes
  pub signing_secret_key : Option Bytes

pub record DecodedPack : Type 0 where
  pub header : PackHeader
  pub payload : Bytes

-- The `TypeError`s of the encoder.
pub data EncodeError : Type 0 where
  both_signatures unsigned_suite crypto_under_none : EncodeError
  wrong_length : ℕ → EncodeError
  bad_seq padding_exceeds_payload payload_too_long : EncodeError

-- errors.ts
pub data PackRejectionCode : Type 0 where
  too_short bad_magic bad_header_crc unsupported_version unknown_suite length_mismatch :
      PackRejectionCode
  bad_padding nonzero_reserved_field bad_ciphertext_framing decrypt_failed : PackRejectionCode
  unknown_key_epoch bad_signature : PackRejectionCode

unfoldable pub is_unsupported_version : PackRejectionCode → Bool
is_unsupported_version unsupported_version = true
is_unsupported_version _ = false

abbrev or_default {ℓ} : {A : Type ℓ} → A → Option A → A
or_default d none = d
or_default d (some a) = a

unfoldable pub all_zero : Bytes → Bool
all_zero = all (λ b. b == 0)

abbrev pub zero_hash : Bytes
zero_hash = replicate size_of.prev_pack_hash 0

unfoldable pub is_chain_root : PackHeader → Bool
is_chain_root header = all_zero header.prev_pack_hash

unfoldable pub is_shallow_snapshot : PackHeader → Bool
is_shallow_snapshot header = not (bit_and header.flags shallow_snapshot_flag == 0)

abbrev require_length : Bytes → ℕ → Outcome EncodeError (Unit {0})
require_length value expected =
    throw_if (not (length value == expected)) (EncodeError.wrong_length expected)

-- The bytes that a signature covers: the header up to the signature, then the payload.
unfoldable pub signed_bytes : Bytes → Bytes
signed_bytes pack = take offset.device_signature pack ++ drop header_size pack

module _ (c : Crypto) where
  unfoldable pub pack_signature_message : Bytes → Bytes
  pack_signature_message pack = c.hash (signed_bytes pack)

-- The input after its defaults.
pub record Fields : Type 0 where
  pub shallow : Bool
  pub suite_id : ℕ
  pub key_epoch : ℕ
  pub padding_len : ℕ
  pub prev_pack_hash : Bytes
  pub pack_salt : Bytes
  pub device_signature : Bytes

abbrev pub fields_of : PackInput → Fields
fields_of input = record {
  shallow = or_default false input.is_shallow_snapshot;
  suite_id = or_default suite_none input.suite_id;
  key_epoch = or_default 0 input.key_epoch;
  padding_len = or_default 0 input.padding_len;
  prev_pack_hash = or_default zero_hash input.prev_pack_hash;
  pack_salt = or_default (replicate size_of.pack_salt 0) input.pack_salt;
  device_signature = or_default (replicate size_of.device_signature 0) input.device_signature;
}

-- The checks of `encodePack`, in its order.
unfoldable pub check_input : PackInput → Outcome EncodeError (Unit {0})
check_input input = do
  let f = fields_of input
  throw_if (is_some input.signing_secret_key && is_some input.device_signature)
      EncodeError.both_signatures
  throw_if
      (not (f.suite_id == suite_none)
        && (not (is_some input.signing_secret_key) && not (is_some input.device_signature)))
      EncodeError.unsigned_suite
  throw_if (f.suite_id == suite_none && (not (f.key_epoch == 0) || not (all_zero f.pack_salt)))
      EncodeError.crypto_under_none
  require_length input.workspace_id size_of.workspace_id
  require_length input.device_id size_of.device_id
  require_length f.prev_pack_hash size_of.prev_pack_hash
  require_length f.pack_salt size_of.pack_salt
  require_length f.device_signature size_of.device_signature
  throw_if (ltb input.seq 1 || ltb 0xffffffffffffffff input.seq) EncodeError.bad_seq
  throw_if (ltb (length input.payload) f.padding_len) EncodeError.padding_exceeds_payload
  throw_if (ltb 0xffffffff (length input.payload)) EncodeError.payload_too_long

-- The writes of `encodePack` before it signs, in its order.
abbrev pub header_writes : PackInput → List (ℕ × Bytes)
header_writes input =
    let f = fields_of input in
    (offset.magic, magic)
    ∷ (offset.envelope_version, to_le 2 envelope_version)
    ∷ (offset.suite_id, to_le 1 f.suite_id)
    ∷ (offset.flags, to_le 1 (if f.shallow then shallow_snapshot_flag else 0))
    ∷ (offset.workspace_id, input.workspace_id)
    ∷ (offset.device_id, input.device_id)
    ∷ (offset.seq, to_le 8 input.seq)
    ∷ (offset.key_epoch, to_le 4 f.key_epoch)
    ∷ (offset.payload_len, to_le 4 (length input.payload))
    ∷ (offset.padding_len, to_le 4 f.padding_len)
    ∷ (offset.prev_pack_hash, f.prev_pack_hash)
    ∷ (offset.pack_salt, f.pack_salt)
    ∷ (offset.device_signature, f.device_signature)
    ∷ (header_size, input.payload)
    ∷ []

unfoldable pub unsigned_pack : PackInput → Bytes
unsigned_pack input =
    write_all (header_writes input) (replicate (header_size + length input.payload) 0)

module _ (c : Crypto) where
  -- The signature is computed with the payload in place and its own slot still zero.
  unfoldable pub sign_pack : Option Bytes → Bytes → Bytes
  sign_pack none bytes = bytes
  sign_pack (some secret) bytes =
      write offset.device_signature (c.sign (pack_signature_message c bytes) secret) bytes

  -- The checksum is computed last, over everything before it.
  unfoldable pub add_crc : Bytes → Bytes
  add_crc bytes =
      write offset.header_crc32c (to_le 4 (crc32c (take offset.header_crc32c bytes))) bytes

  unfoldable pub encode_pack : PackInput → Outcome EncodeError Bytes
  encode_pack input = do
    check_input input
    ok (add_crc (sign_pack input.signing_secret_key (unsigned_pack input)))

  unfoldable pub verify_pack_signature : Bytes → Bytes → Bool
  verify_pack_signature pack public_key =
      if ltb (length pack) header_size
      then false
      else c.verify (slice offset.device_signature size_of.device_signature pack)
          (pack_signature_message c pack) public_key

-- The loop of rule 2: every byte of the magic stands in its place.
unfoldable pub has_magic : Bytes → Bytes → Bool
has_magic [] bytes = true
has_magic (m ∷ ms) [] = false
has_magic (m ∷ ms) (b ∷ bytes) = b == m && has_magic ms bytes

-- `view.getUint16(offset, true)` and its kin, by their width.
abbrev pub uint_at : ℕ → ℕ → Bytes → ℕ
uint_at width offset bytes = of_le (slice offset width bytes)

unfoldable pub read_header : Bytes → PackHeader
read_header bytes = record {
  envelope_version = uint_at 2 offset.envelope_version bytes;
  suite_id = uint_at 1 offset.suite_id bytes;
  flags = uint_at 1 offset.flags bytes;
  workspace_id = slice offset.workspace_id size_of.workspace_id bytes;
  device_id = slice offset.device_id size_of.device_id bytes;
  seq = uint_at 8 offset.seq bytes;
  key_epoch = uint_at 4 offset.key_epoch bytes;
  payload_len = uint_at 4 offset.payload_len bytes;
  padding_len = uint_at 4 offset.padding_len bytes;
  prev_pack_hash = slice offset.prev_pack_hash size_of.prev_pack_hash bytes;
  pack_salt = slice offset.pack_salt size_of.pack_salt bytes;
  device_signature = slice offset.device_signature size_of.device_signature bytes;
}

-- Reading rules 1 to 6, in the order that the format fixes.
unfoldable pub decode_pack : Bytes → Outcome PackRejectionCode DecodedPack
decode_pack bytes = do
  throw_if (ltb (length bytes) header_size) PackRejectionCode.too_short
  throw_if (not (has_magic magic (drop offset.magic bytes))) PackRejectionCode.bad_magic
  throw_if (not (uint_at 4 offset.header_crc32c bytes == crc32c (take offset.header_crc32c bytes)))
      PackRejectionCode.bad_header_crc
  let header = read_header bytes
  throw_if (ltb envelope_version header.envelope_version) PackRejectionCode.unsupported_version
  throw_if (not (contains header.suite_id known_suites)) PackRejectionCode.unknown_suite
  throw_if (not (length bytes == header_size + header.payload_len))
      PackRejectionCode.length_mismatch
  throw_if (ltb header.payload_len header.padding_len) PackRejectionCode.bad_padding
  ok (record { header = header; payload = slice header_size header.payload_len bytes })
