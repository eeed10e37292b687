-- ===== src/Pack/Envelope/Signature.antt =====
-- The signature of an encoded pack, and what it covers.
use native.Mathlib.Omega.{arith}
use knowtion.Base.{
  ℕ, ◌+◌, ◌≡◌, sym, ap, ◌∙◌, inl, inr, true, false, some, length, drop, ◌++◌, ok, ltb, le→ltb-false,
  length-drop,
}
use knowtion.Pack.Bytes.{Bytes, slice}
use knowtion.Pack.Envelope.{
  Crypto, IsLawful, PackInput, unsigned_pack, signed_bytes, pack_signature_message,
  verify_pack_signature, encode_pack,
}
use knowtion.Pack.Envelope.Checked.{IsChecked}
use knowtion.Pack.Envelope.Encoded.{
  HasRoom, finished, length-finished, length-unsigned_pack, slice-finished,
  slice-finished_signature, signature_of,
}
use knowtion.Pack.Envelope.RoundTrip.{take-all, checked, finished_of_encoded}

drop-eq-slice : (o n : ℕ) (bytes : Bytes) → length bytes ≡ o + n → drop o bytes ≡ slice o n bytes
unfolding slice
drop-eq-slice o n bytes e = sym (take-all n (drop o bytes) (omega (arith, length-drop o bytes)))

module _ (c : Crypto) (law : IsLawful c) (input : PackInput) (ch : IsChecked input) where
  -- Neither the signature nor the checksum is among the bytes that are signed.
  signed_bytes-finished : signed_bytes (finished c input) ≡ signed_bytes (unsigned_pack input)
  unfolding signed_bytes
  signed_bytes-finished =
      let n = length input.payload in
      let head : slice 0 112 (finished c input) ≡ slice 0 112 (unsigned_pack input) =
        slice-finished c law input ch 0 112 (inl (omega arith)) in
      let tail : slice 180 n (finished c input) ≡ slice 180 n (unsigned_pack input) =
        slice-finished c law input ch 180 n (inr (omega arith)) in
      rw
        (
          drop-eq-slice 180 n (finished c input) (length-finished c law input ch),
          drop-eq-slice 180 n (unsigned_pack input) (length-unsigned_pack c law input ch),
          tail,
        )
        (ap (λ t. t ++ slice 180 n (unsigned_pack input)) (unfold slice in head))

  verify-finished :
      (secret : Bytes)
      → input.signing_secret_key ≡ some secret
      → verify_pack_signature c (finished c input) (c.public_key secret) ≡ true
  unfolding verify_pack_signature pack_signature_message
  verify-finished secret e =
      let long : ltb (length (finished c input)) 180 ≡ false =
        le→ltb-false _ _ (omega (arith, length-finished c law input ch)) in
      let signature = slice-finished_signature c law input ch ∙ ap (signature_of c input) e in
      let message : pack_signature_message c (finished c input)
          ≡ pack_signature_message c (unsigned_pack input) =
        ap c.hash signed_bytes-finished in
      rw (long, signature, message) (law.verify-sign _ secret)

-- A pack that was encoded with a secret key verifies against the key's public half.
pub verify_pack_signature-encode_pack :
    (c : Crypto) (law : IsLawful c) (input : PackInput) (room : HasRoom input)
    (secret bytes : Bytes)
    → input.signing_secret_key ≡ some secret
    → encode_pack c input ≡ ok bytes
    → verify_pack_signature c bytes (c.public_key secret) ≡ true
verify_pack_signature-encode_pack c law input room secret bytes key encoded =
    rw (finished_of_encoded c law input room bytes encoded)
      (verify-finished c law input (checked c law input room bytes encoded) secret key)
