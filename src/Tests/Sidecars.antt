-- ===== src/Tests/Sidecars.antt =====
-- A sidecar record with a nested object.
use knowtion.Base.{
  ℕ, ◌≡◌, ◌≤◌, refl, Option, none, some, [], ◌∷◌, codes, contains, list_beq, All, ok,
}
use knowtion.Pack.Bytes.{Bytes}
use knowtion.Pack.Sidecar.{
  Decoded, DecodedItems, DecodedEntries, Plain, PlainItems, PlainFields, map, entry, object,
  to_safe_value, decode_sidecar,
}
use knowtion.Pack.Sidecar.Safe.{keys_of, height, IsAllowed, decode_sidecar-clean}

abbrev listed : Decoded ℕ
listed = Decoded.array (DecodedItems.cons (Decoded.scalar 3) DecodedItems.nil)

abbrev device_record : Decoded ℕ
device_record = map (entry (Decoded.text (codes "acks")) listed DecodedEntries.no_entries)

abbrev decoder : Bytes → Option (Decoded ℕ)
decoder [] = none
decoder (b ∷ bs) = some device_record

abbrev plain_record : Plain ℕ
plain_record = object (
    PlainFields.field (codes "acks") (Plain.array (PlainItems.cons (Plain.scalar 3) PlainItems.nil))
      PlainFields.end)

accepted : decode_sidecar decoder (1 ∷ []) ≡ ok plain_record
unfolding decode_sidecar to_safe_value contains list_beq
accepted = refl

decode_sidecar-clean_example : All IsAllowed (keys_of plain_record) × (height plain_record ≤ 64)
decode_sidecar-clean_example = decode_sidecar-clean decoder (1 ∷ []) plain_record accepted
