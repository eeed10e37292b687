-- ===== src/Tests/Sealed.antt =====
-- A pack that is sealed and opened.
use knowtion.Base.{
  ◌-◌, ◌≡◌, refl, ap, ◌∙◌, none, some, [], ◌∷◌, ◌++◌, length, take, replicate, ok, arith,
  length-append, take-append,
}
use knowtion.Base.Dict.{lookup}
use knowtion.Pack.Bytes.{Bytes}
use knowtion.Pack.Envelope.{DecodedPack, decode_pack, encode_pack, check_input, all_zero}
use knowtion.Pack.Envelope.Encoded.{finished}
use knowtion.Pack.Aead.{
  Cipher, IsCipher, require_bytes, aad_of, chunk_aad, derive_pack_key, encrypt_chunks,
  encrypt_payload,
}
use knowtion.Pack.Sealed.{
  SealPackInput, binding_of, binding_of_input, sealed_input, seal_pack, open_pack,
}
use knowtion.Pack.Sealed.RoundTrip.{open_pack-seal_pack}
use knowtion.Tests.Samples.{toy, toy-IsLawful}

-- The ciphertext is the plaintext with a constant tag.
abbrev plain : Cipher
plain = record {
  hkdf = λ key salt info. replicate 32 1;
  encrypt = λ key nonce aad text. text ++ replicate 16 7;
  decrypt = λ key nonce aad bytes. some (take (length bytes - 16) bytes);
}

tag_width : (text : Bytes) → length (text ++ replicate 16 7) - 16 ≡ length text
tag_width text = omega (arith, length-append text (replicate 16 7))

without_tag :
    (text : Bytes) → take (length (text ++ replicate 16 7) - 16) (text ++ replicate 16 7) ≡ text
without_tag text =
    ap (λ n. take n (text ++ replicate 16 7)) (tag_width text) ∙ take-append text (replicate 16 7)

plain-IsCipher : IsCipher plain
plain-IsCipher = record {
  length-hkdf = λ key salt info. refl;
  length-encrypt = λ key nonce aad text. length-append text (replicate 16 7);
  decrypt-encrypt = λ key nonce aad text. ap some (without_tag text);
}

abbrev secret_note : SealPackInput
secret_note = record {
  workspace_id = replicate 16 1;
  device_id = replicate 16 2;
  seq = 1;
  payload = 5 ∷ 6 ∷ [];
  is_shallow_snapshot = none;
  prev_pack_hash = none;
  workspace_key = record { epoch = 1; key = replicate 32 3 };
  signing_secret_key = replicate 32 4;
}

abbrev salt : Bytes
salt = replicate 16 9

abbrev body : Bytes
body = replicate 24 8 ++ ((5 ∷ 6 ∷ []) ++ replicate 16 7)

abbrev sealed : Bytes
unfolding sealed_input
sealed = finished toy (sealed_input secret_note salt body)

seals : seal_pack toy plain salt (λ i. replicate 24 8) secret_note ≡ ok sealed
unfolding seal_pack derive_pack_key encrypt_payload encrypt_chunks require_bytes chunk_aad aad_of
    binding_of binding_of_input sealed_input encode_pack check_input all_zero
seals = refl

open_pack-seal_pack_example :
    (decoded : DecodedPack) × (decode_pack sealed ≡ ok decoded)
    × (open_pack toy plain decoded ((1, replicate 32 3) ∷ []) ≡ ok (5 ∷ 6 ∷ []))
unfolding lookup
open_pack-seal_pack_example =
    open_pack-seal_pack toy toy-IsLawful plain plain-IsCipher salt (λ i. replicate 24 8) (λ i. refl)
      secret_note (omega arith) ((1, replicate 32 3) ∷ []) sealed seals refl
