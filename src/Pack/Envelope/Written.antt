-- ===== src/Pack/Envelope/Written.antt =====
-- Where each field of the header stands in a pack that is not yet signed.
use knowtion.Base.{
  ℕ, suc, ◌+◌, ◌≤◌, ◌≡◌, refl, length, drop, replicate, length-replicate, get_elem?, some,
  if◌then◌else◌, arith,
}
use knowtion.Pack.Bytes.{Bytes, to_le, slice}
use knowtion.Pack.Bytes.Slices.{slice-written, Apart}
use knowtion.Pack.Layout.{magic}
use knowtion.Pack.Envelope.{PackInput, fields_of, header_writes, unsigned_pack}
use knowtion.Pack.Envelope.Checked.{IsChecked}

module _ (input : PackInput) (ch : IsChecked input) where
  abbrev pub zeros : Bytes
  zeros = replicate (180 + length input.payload) 0

  pub length-zeros : length zeros ≡ 180 + length input.payload
  length-zeros = length-replicate _ 0

  -- The slice of each write of the header.
  pub slice-unsigned :
      (i size o : ℕ) (part : Bytes)
      → get_elem? (header_writes input) i ≡ some (o, part)
      → length part ≡ size
      → o + size ≤ 180 + length input.payload
      → Apart o size (drop (suc i) (header_writes input))
      → slice o size (unsigned_pack input) ≡ part
  unfolding unsigned_pack
  slice-unsigned i size o part e l h k =
      slice-written i size o part (header_writes input) zeros e l (omega (arith, length-zeros)) k

  pub slice-magic : slice 0 4 (unsigned_pack input) ≡ magic
  unfolding to_le
  slice-magic = slice-unsigned 0 4 0 _ refl refl (omega arith) (omega arith)

  pub slice-version : slice 4 2 (unsigned_pack input) ≡ to_le 2 0
  unfolding to_le
  slice-version = slice-unsigned 1 2 4 _ refl refl (omega arith) (omega arith)

  pub slice-suite_id : slice 6 1 (unsigned_pack input) ≡ to_le 1 (fields_of input).suite_id
  unfolding to_le
  slice-suite_id = slice-unsigned 2 1 6 _ refl refl (omega arith) (omega arith)

  pub slice-flags :
      slice 7 1 (unsigned_pack input) ≡ to_le 1 (if (fields_of input).shallow then 1 else 0)
  unfolding to_le
  slice-flags = slice-unsigned 3 1 7 _ refl refl (omega arith) (omega arith)

  pub slice-workspace_id : slice 8 16 (unsigned_pack input) ≡ input.workspace_id
  unfolding to_le
  slice-workspace_id = slice-unsigned 4 16 8 _ refl ch.workspace_id (omega arith) (omega arith)

  pub slice-device_id : slice 24 16 (unsigned_pack input) ≡ input.device_id
  unfolding to_le
  slice-device_id = slice-unsigned 5 16 24 _ refl ch.device_id (omega arith) (omega arith)

  pub slice-seq : slice 40 8 (unsigned_pack input) ≡ to_le 8 input.seq
  unfolding to_le
  slice-seq = slice-unsigned 6 8 40 _ refl refl (omega arith) (omega arith)

  pub slice-key_epoch : slice 48 4 (unsigned_pack input) ≡ to_le 4 (fields_of input).key_epoch
  unfolding to_le
  slice-key_epoch = slice-unsigned 7 4 48 _ refl refl (omega arith) (omega arith)

  pub slice-payload_len : slice 52 4 (unsigned_pack input) ≡ to_le 4 (length input.payload)
  unfolding to_le
  slice-payload_len = slice-unsigned 8 4 52 _ refl refl (omega arith) (omega arith)

  pub slice-padding_len : slice 56 4 (unsigned_pack input) ≡ to_le 4 (fields_of input).padding_len
  unfolding to_le
  slice-padding_len = slice-unsigned 9 4 56 _ refl refl (omega arith) (omega arith)

  pub slice-prev_pack_hash : slice 64 32 (unsigned_pack input) ≡ (fields_of input).prev_pack_hash
  unfolding to_le
  slice-prev_pack_hash =
      slice-unsigned 10 32 64 _ refl ch.prev_pack_hash (omega arith) (omega arith)

  pub slice-pack_salt : slice 96 16 (unsigned_pack input) ≡ (fields_of input).pack_salt
  unfolding to_le
  slice-pack_salt = slice-unsigned 11 16 96 _ refl ch.pack_salt (omega arith) (omega arith)

  pub slice-device_signature :
      slice 112 64 (unsigned_pack input) ≡ (fields_of input).device_signature
  unfolding to_le
  slice-device_signature =
      slice-unsigned 12 64 112 _ refl ch.device_signature (omega arith) (omega arith)

  pub slice-payload : slice 180 (length input.payload) (unsigned_pack input) ≡ input.payload
  unfolding to_le
  slice-payload =
      slice-unsigned 13 (length input.payload) 180 _ refl refl (omega arith) (omega arith)
