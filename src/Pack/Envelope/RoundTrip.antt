-- ===== src/Pack/Envelope/RoundTrip.antt =====
-- Decoding what was encoded, whole or cut short.
use native.Mathlib.Omega.{arith}
use native.Mathlib.Decide.{dec_lt}
use knowtion.Base.{
  ℕ, zero, suc, ◌+◌, ◌≤◌, ◌<◌, ◌≡◌, ◌≢◌, refl, sym, ap, ◌∙◌, ◌⊎◌, inl, inr, [], ◌∷◌, length, take,
  true, false, if◌then◌else◌, length-take, contains, nat_eq, nat_beq_iff, ltb, le→ltb-false, lt→ltb,
  ◌==◌, Outcome, ok, err, ◌>>◌, not, Bool-cases,
}
use knowtion.Pack.Bytes.{Bytes, of_le, slice}
use knowtion.Pack.Bytes.Slices.{of_le-to_le, slice-take}
use knowtion.Pack.Layout.{known_suites, magic}
use knowtion.Pack.Crc.{crc32c}
use knowtion.Pack.Envelope.{
  Crypto, IsLawful, PackInput, PackHeader, PackRejectionCode, fields_of, unsigned_pack, read_header,
  uint_at, has_magic, decode_pack, encode_pack, check_input,
}
use knowtion.Pack.Envelope.Checked.{IsChecked, check_input-IsChecked}
use knowtion.Pack.Envelope.Written.{
  slice-magic, slice-version, slice-suite_id, slice-flags, slice-workspace_id, slice-device_id,
  slice-seq, slice-key_epoch, slice-payload_len, slice-padding_len, slice-prev_pack_hash,
  slice-pack_salt, slice-payload,
}
use knowtion.Pack.Envelope.Encoded.{
  HasRoom, finished, expected_header, length-finished, slice-finished, slice-finished_signature,
  crc-finished,
}

-- A file that begins with the magic, in the form in which a slice is known.
has_magic_of_slice : (bytes : Bytes) → slice 0 4 bytes ≡ magic → has_magic magic bytes ≡ true
unfolding has_magic slice
has_magic_of_slice [] e = cc
has_magic_of_slice (a ∷ []) e = cc
has_magic_of_slice (a ∷ b ∷ []) e = cc
has_magic_of_slice (a ∷ b ∷ c ∷ []) e = cc
has_magic_of_slice (a ∷ b ∷ c ∷ d ∷ bytes) e = ground arith

decode_pack_short :
    (bytes : Bytes) → length bytes < 180 → decode_pack bytes ≡ err PackRejectionCode.too_short
unfolding decode_pack
decode_pack_short bytes h = rw (lt→ltb _ _ h)

beq-false : (a b : ℕ) → a ≢ b → (a == b) ≡ false
beq-false a b h = ground arith

-- A file that passes rules 1 to 4 is accepted or refused by its length.
decode_pack_of :
    (bytes : Bytes) (n : ℕ) (h : PackHeader)
    → length bytes ≡ n
    → 180 ≤ n
    → has_magic magic bytes ≡ true
    → uint_at 4 176 bytes ≡ crc32c (take 176 bytes)
    → read_header bytes ≡ h
    → h.envelope_version ≡ 0
    → contains h.suite_id known_suites ≡ true
    → h.padding_len ≤ h.payload_len
    → decode_pack bytes ≡ (
        if n == 180 + h.payload_len
        then ok (record { header = h; payload = slice 180 h.payload_len bytes })
        else err PackRejectionCode.length_mismatch)
unfolding decode_pack
decode_pack_of bytes n h l long m crc e version suite padding =
    let rule1 : ltb n 180 ≡ false = le→ltb-false n 180 long in
    let rule2 : not (has_magic magic bytes) ≡ false = rw m in
    let rule3 : not (uint_at 4 176 bytes == crc32c (take 176 bytes)) ≡ false =
      ap not ((nat_beq_iff _ _).1 crc) in
    let rule4 : ltb 0 h.envelope_version ≡ false = rw version in
    let suite_rule : not (contains h.suite_id known_suites) ≡ false = rw suite in
    let rule6 : ltb h.payload_len h.padding_len ≡ false = le→ltb-false _ _ padding in
    rw (e, l, rule1, rule2, rule3, rule4, suite_rule)
      (elim (Bool-cases (n == 180 + h.payload_len)) [
        | inl whole ↦ rw (whole, rule6)
        | inr torn ↦ rw torn
      ])

module _ (c : Crypto) (law : IsLawful c) (input : PackInput) (ch : IsChecked input)
    (room : HasRoom input) (k : ℕ) (header_kept : 180 ≤ k)
    (short : k ≤ 180 + length input.payload) where
  abbrev cut : Bytes
  cut = take k (finished c input)

  length-cut : length cut ≡ k
  length-cut = omega (arith, length-take k (finished c input), length-finished c law input ch)

  slice-cut : (o size : ℕ) → o + size ≤ 112 → slice o size cut ≡ slice o size (unsigned_pack input)
  slice-cut o size h =
      slice-take o size k (finished c input) (omega arith)
      ∙ slice-finished c law input ch o size (inl h)

  read_header-cut : read_header cut ≡ expected_header c input
  unfolding read_header
  read_header-cut = ground (
    arith,
    ap of_le (slice-cut 4 2 (omega arith) ∙ slice-version input ch),
    ap of_le (slice-cut 6 1 (omega arith) ∙ slice-suite_id input ch),
    ap of_le (slice-cut 7 1 (omega arith) ∙ slice-flags input ch),
    slice-cut 8 16 (omega arith) ∙ slice-workspace_id input ch,
    slice-cut 24 16 (omega arith) ∙ slice-device_id input ch,
    ap of_le (slice-cut 40 8 (omega arith) ∙ slice-seq input ch),
    ap of_le (slice-cut 48 4 (omega arith) ∙ slice-key_epoch input ch),
    ap of_le (slice-cut 52 4 (omega arith) ∙ slice-payload_len input ch),
    ap of_le (slice-cut 56 4 (omega arith) ∙ slice-padding_len input ch),
    slice-cut 64 32 (omega arith) ∙ slice-prev_pack_hash input ch,
    slice-cut 96 16 (omega arith) ∙ slice-pack_salt input ch,
    slice-take 112 64 k (finished c input) (omega arith) ∙ slice-finished_signature c law input ch,
    of_le-to_le 2 0 (omega arith),
    of_le-to_le 1 (fields_of input).suite_id room.suite_id,
    of_le-to_le 1 (if (fields_of input).shallow then 1 else 0) (ground arith),
    of_le-to_le 8 input.seq ch.seq_lt,
    of_le-to_le 4 (fields_of input).key_epoch room.key_epoch,
    of_le-to_le 4 (length input.payload) ch.payload,
    of_le-to_le 4 (fields_of input).padding_len (omega (arith, ch.padding, ch.payload)),
  )

  crc-cut : uint_at 4 176 cut ≡ crc32c (take 176 cut)
  unfolding slice
  crc-cut =
      ap of_le (slice-take 176 4 k (finished c input) (omega arith))
      ∙ (crc-finished c law input ch
          ∙ ap crc32c (sym (slice-take 0 176 k (finished c input) (omega arith))))

  -- A prefix with a whole header passes rules 1 to 4, and its length decides the rest.
  pub decode_pack-cut : decode_pack cut ≡ (
      if k == 180 + length input.payload
      then ok (record {
        header = expected_header c input;
        payload = slice 180 (length input.payload) cut;
      })
      else err PackRejectionCode.length_mismatch)
  decode_pack-cut =
      decode_pack_of cut k (expected_header c input) length-cut header_kept
        (has_magic_of_slice cut (slice-cut 0 4 (omega arith) ∙ slice-magic input ch)) crc-cut
        read_header-cut refl room.suite_known ch.padding

pub take-all : (k : ℕ) (bytes : Bytes) → length bytes ≤ k → take k bytes ≡ bytes
take-all zero [] h = refl
take-all zero (b ∷ bs) h = absurd (omega arith)
take-all (suc k) [] h = refl
take-all (suc k) (b ∷ bs) h = ap (◌∷◌ b) (take-all k bs (omega arith))

checked_of {ℓ κ} :
    {E : Type ℓ} {A : Type κ} (m : Outcome E (Unit {0})) (k : Outcome E A) {a : A}
    → (m >> k) ≡ ok a
    → m ≡ ok tt
checked_of (ok u) k h = refl
checked_of (err e) k h = cc

module _ (c : Crypto) (law : IsLawful c) (input : PackInput) (room : HasRoom input) (bytes : Bytes)
    (encoded : encode_pack c input ≡ ok bytes) where
  pub checked : IsChecked input
  unfolding encode_pack
  checked = check_input-IsChecked input (checked_of (check_input input) _ encoded)

  pub finished_of_encoded : bytes ≡ finished c input
  unfolding encode_pack
  finished_of_encoded = ground arith

  length-encoded : length bytes ≡ 180 + length input.payload
  length-encoded = rw finished_of_encoded (length-finished c law input checked)

  -- A pack that the encoder wrote, with a known suite and fields that fit their slots, is decoded to
  -- exactly the header fields and the payload that were given.
  pub decode_pack-encode_pack :
      decode_pack bytes ≡ ok (record { header = expected_header c input; payload = input.payload })
  decode_pack-encode_pack =
      let n = 180 + length input.payload in
      let whole : take n bytes ≡ bytes = take-all n bytes (omega (arith, length-encoded)) in
      let body : slice 180 (length input.payload) bytes ≡ input.payload = rw finished_of_encoded (
        slice-finished c law input checked 180 (length input.payload) (inr (omega arith))
        ∙ slice-payload input checked) in
      let read = decode_pack-cut c law input checked room n (omega arith) (omega arith) in
      rw (← finished_of_encoded, whole, (nat_beq_iff n n).1 refl, body) at read

  -- An encoded pack of a known suite and with fields that fit, cut short at any byte, is refused by one
  -- of the codes that mean a torn write.
  pub decode_pack_torn :
      (k : ℕ)
      → k < length bytes
      → (decode_pack (take k bytes) ≡ err PackRejectionCode.too_short)
        ⊎ (decode_pack (take k bytes) ≡ err PackRejectionCode.length_mismatch)
  decode_pack_torn k h = elim (dec_lt k 180) [
    | yes p ↦ inl (decode_pack_short (take k bytes) (omega (arith, length-take k bytes)))
    | no p ↦
        let read =
          decode_pack-cut c law input checked room k (omega arith)
            (omega (arith, length-encoded)) in
        let torn : (k == 180 + length input.payload) ≡ false =
          beq-false _ _ (omega (arith, length-encoded)) in
        inr (rw (← finished_of_encoded, torn) at read)
  ]
