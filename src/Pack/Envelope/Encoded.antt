-- ===== src/Pack/Envelope/Encoded.antt =====
-- What the finished pack holds, and every prefix of it that has a whole header.
use knowtion.Base.{
  ℕ, ◌+◌, ◌≤◌, ◌<◌, ◌≡◌, refl, sym, ap, ◌∙◌, ◌⊎◌, inr, length, true, Option, none, some,
  if◌then◌else◌, contains, nat_eq, arith,
}
use knowtion.Pack.Bytes.{Bytes, to_le, of_le, slice, write}
use knowtion.Pack.Bytes.Slices.{
  length-to_le, of_le-to_le, length-write, length-write_all, slice-write_sized, slice-write_apart,
}
use knowtion.Pack.Layout.{known_suites}
use knowtion.Pack.Crc.{crc32c, crc32c-lt}
use knowtion.Pack.Envelope.{
  Crypto, IsLawful, PackInput, PackHeader, fields_of, header_writes, unsigned_pack, sign_pack,
  add_crc, pack_signature_message, uint_at,
}
use knowtion.Pack.Envelope.Checked.{IsChecked}
use knowtion.Pack.Envelope.Written.{length-zeros, slice-device_signature}

-- The fields that the encoder does not check and that have a bounded slot in the header.
pub record HasRoom (input : PackInput) : Type 0 where
  pub suite_known : contains (fields_of input).suite_id known_suites ≡ true
  pub suite_id : (fields_of input).suite_id < 256
  pub key_epoch : (fields_of input).key_epoch < 4294967296

module _ (c : Crypto) (input : PackInput) where
  abbrev pub finished : Bytes
  finished = add_crc c (sign_pack c input.signing_secret_key (unsigned_pack input))

  -- The signature slot: signed over the pack with its slot still zero, or as it was given.
  abbrev pub signature_of : Option Bytes → Bytes
  signature_of none = (fields_of input).device_signature
  signature_of (some secret) = c.sign (pack_signature_message c (unsigned_pack input)) secret

  -- The header that a reader should see.
  abbrev pub expected_header : PackHeader
  expected_header = record {
    envelope_version = 0;
    suite_id = (fields_of input).suite_id;
    flags = if (fields_of input).shallow then 1 else 0;
    workspace_id = input.workspace_id;
    device_id = input.device_id;
    seq = input.seq;
    key_epoch = (fields_of input).key_epoch;
    payload_len = length input.payload;
    padding_len = (fields_of input).padding_len;
    prev_pack_hash = (fields_of input).prev_pack_hash;
    pack_salt = (fields_of input).pack_salt;
    device_signature = signature_of input.signing_secret_key;
  }

module _ (c : Crypto) (law : IsLawful c) (input : PackInput) (ch : IsChecked input) where
  pub length-unsigned_pack : length (unsigned_pack input) ≡ 180 + length input.payload
  unfolding unsigned_pack
  length-unsigned_pack = length-write_all (header_writes input) _ ∙ length-zeros input ch

  length-sign_pack :
      (key : Option Bytes) (bytes : Bytes) → length (sign_pack c key bytes) ≡ length bytes
  unfolding sign_pack
  length-sign_pack none bytes = refl
  length-sign_pack (some secret) bytes = length-write 112 _ bytes

  pub length-finished : length (finished c input) ≡ 180 + length input.payload
  unfolding add_crc
  length-finished =
      length-write 176 _ _
      ∙ (length-sign_pack input.signing_secret_key (unsigned_pack input) ∙ length-unsigned_pack)

  slice-sign_pack :
      (key : Option Bytes) (o size : ℕ)
      → (o + size ≤ 112) ⊎ (176 ≤ o)
      → slice o size (sign_pack c key (unsigned_pack input)) ≡ slice o size (unsigned_pack input)
  unfolding sign_pack
  slice-sign_pack none o size h = refl
  slice-sign_pack (some secret) o size h =
      slice-write_apart o size 112 _ _ (omega (arith, law.length-sign _ secret))

  slice-add_crc :
      (o size : ℕ) (bytes : Bytes)
      → (o + size ≤ 176) ⊎ (180 ≤ o)
      → slice o size (add_crc c bytes) ≡ slice o size bytes
  unfolding add_crc
  slice-add_crc o size bytes h =
      slice-write_apart o size 176 _ bytes (omega (arith, length-to_le 4))

  -- Outside the signature and the checksum the finished pack is the unsigned one.
  pub slice-finished :
      (o size : ℕ)
      → (o + size ≤ 112) ⊎ (180 ≤ o)
      → slice o size (finished c input) ≡ slice o size (unsigned_pack input)
  slice-finished o size h =
      slice-add_crc o size _ (omega arith)
      ∙ slice-sign_pack input.signing_secret_key o size (omega arith)

  slice-sign_pack_signature :
      (key : Option Bytes)
      → slice 112 64 (sign_pack c key (unsigned_pack input)) ≡ signature_of c input key
  unfolding sign_pack
  slice-sign_pack_signature none = slice-device_signature input ch
  slice-sign_pack_signature (some secret) =
      slice-write_sized 112 64 _ (unsigned_pack input) (law.length-sign _ secret)
        (omega (arith, length-unsigned_pack))

  pub slice-finished_signature :
      slice 112 64 (finished c input) ≡ signature_of c input input.signing_secret_key
  slice-finished_signature =
      slice-add_crc 112 64 _ (omega arith) ∙ slice-sign_pack_signature input.signing_secret_key

  crc-add_crc :
      (bytes : Bytes)
      → 180 ≤ length bytes
      → uint_at 4 176 (add_crc c bytes) ≡ crc32c (slice 0 176 (add_crc c bytes))
  unfolding add_crc slice
  crc-add_crc bytes h =
      let crc = crc32c (slice 0 176 bytes) in
      let stored : slice 176 4 (write 176 (to_le 4 crc) bytes) ≡ to_le 4 crc =
        slice-write_sized 176 4 (to_le 4 crc) bytes (length-to_le 4 crc) (omega arith) in
      let kept : slice 0 176 (write 176 (to_le 4 crc) bytes) ≡ slice 0 176 bytes =
        slice-write_apart 0 176 176 (to_le 4 crc) bytes (inr (omega arith)) in
      ap of_le stored ∙ (of_le-to_le 4 crc (crc32c-lt _) ∙ ap crc32c (sym kept))

  pub crc-finished : uint_at 4 176 (finished c input) ≡ crc32c (slice 0 176 (finished c input))
  crc-finished =
      crc-add_crc _ (omega (arith, length-sign_pack input.signing_secret_key, length-unsigned_pack))
