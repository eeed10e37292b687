-- ===== src/Tests/Packs.antt =====
-- The envelope and the push at concrete packs.
use knowtion.Base.{◌≡◌, ◌⊎◌, refl, true, [], ◌∷◌, length, take, replicate, ok, err, arith}
use knowtion.Pack.Envelope.{decode_pack, verify_pack_signature, PackRejectionCode}
use knowtion.Pack.Envelope.Encoded.{expected_header, finished, length-finished}
use knowtion.Pack.Envelope.RoundTrip.{decode_pack-encode_pack, decode_pack_torn, checked}
use knowtion.Pack.Envelope.Signature.{verify_pack_signature-encode_pack}
use knowtion.Tests.Samples.{
  toy, toy-IsLawful, plain_input, signed_input, plain-HasRoom, signed-HasRoom, plain_encoded,
  signed_encoded,
}

decode_pack-encode_pack_example :
    decode_pack (finished toy plain_input)
    ≡ ok (record { header = expected_header toy plain_input; payload = 5 ∷ 6 ∷ 7 ∷ [] })
decode_pack-encode_pack_example =
    decode_pack-encode_pack toy toy-IsLawful plain_input plain-HasRoom (finished toy plain_input)
      plain_encoded

plain_length : length (finished toy plain_input) ≡ 183
plain_length =
    length-finished toy toy-IsLawful plain_input
      (checked toy toy-IsLawful plain_input plain-HasRoom (finished toy plain_input) plain_encoded)

decode_pack_torn_example :
    (decode_pack (take 182 (finished toy plain_input)) ≡ err PackRejectionCode.too_short)
    ⊎ (decode_pack (take 182 (finished toy plain_input)) ≡ err PackRejectionCode.length_mismatch)
decode_pack_torn_example =
    decode_pack_torn toy toy-IsLawful plain_input plain-HasRoom (finished toy plain_input)
      plain_encoded 182 (omega (arith, plain_length))

verify_pack_signature_example :
    verify_pack_signature toy (finished toy signed_input) (replicate 32 4) ≡ true
verify_pack_signature_example =
    verify_pack_signature-encode_pack toy toy-IsLawful signed_input signed-HasRoom (replicate 32 4)
      (finished toy signed_input) refl signed_encoded
