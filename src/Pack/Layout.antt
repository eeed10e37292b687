-- ===== src/Pack/Layout.antt =====
-- The envelope's fixed offsets and sizes, suites and flags (packages/format/src/constants.ts).
use knowtion.Base.{ℕ, List, [], ◌∷◌}
use knowtion.Pack.Bytes.{Bytes}

-- "KNOW" in ASCII.
abbrev pub magic : Bytes
magic = 0x4b ∷ 0x4e ∷ 0x4f ∷ 0x57 ∷ []

abbrev pub envelope_version : ℕ
envelope_version = 0

abbrev pub header_size : ℕ
header_size = 180

abbrev pub Offsets : Type 0
Offsets = record {
  magic : ℕ;
  envelope_version : ℕ;
  suite_id : ℕ;
  flags : ℕ;
  workspace_id : ℕ;
  device_id : ℕ;
  seq : ℕ;
  key_epoch : ℕ;
  payload_len : ℕ;
  padding_len : ℕ;
  reserved : ℕ;
  prev_pack_hash : ℕ;
  pack_salt : ℕ;
  device_signature : ℕ;
  header_crc32c : ℕ;
}

abbrev pub offset : Offsets
offset = record {
  magic = 0;
  envelope_version = 4;
  suite_id = 6;
  flags = 7;
  workspace_id = 8;
  device_id = 24;
  seq = 40;
  key_epoch = 48;
  payload_len = 52;
  padding_len = 56;
  reserved = 60;
  prev_pack_hash = 64;
  pack_salt = 96;
  device_signature = 112;
  header_crc32c = 176;
}

abbrev pub Sizes : Type 0
Sizes = record {
  magic : ℕ;
  workspace_id : ℕ;
  device_id : ℕ;
  prev_pack_hash : ℕ;
  pack_salt : ℕ;
  device_signature : ℕ;
}

abbrev pub size_of : Sizes
size_of = record {
  magic = 4;
  workspace_id = 16;
  device_id = 16;
  prev_pack_hash = 32;
  pack_salt = 16;
  device_signature = 64;
}

-- The suite of a plaintext payload, and the one cipher suite.
abbrev pub suite_none : ℕ
suite_none = 0

abbrev pub suite_xchacha20poly1305_argon2id : ℕ
suite_xchacha20poly1305_argon2id = 1

abbrev pub known_suites : List ℕ
known_suites = suite_none ∷ suite_xchacha20poly1305_argon2id ∷ []

-- The flag bit of a shallow snapshot.
abbrev pub shallow_snapshot_flag : ℕ
shallow_snapshot_flag = 1
