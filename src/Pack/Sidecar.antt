-- ===== src/Pack/Sidecar.antt =====
-- packages/format/src/cbor.ts: what a decoded sidecar record may hold.
pub mod Safe
use knowtion.Base.{
  ℕ, suc, ◌+◌, ◌≡◌, Bool, true, false, Option, none, some, List, [], ◌∷◌, Text, codes, contains,
  ltb, list_eq, nat_eq, Outcome, ok, err, ◌>>=◌, ◌>>◌, throw_if,
}
use knowtion.Pack.Bytes.{Bytes}

-- What the CBOR library decodes. `scalar` is a null, a Boolean, a number or undefined, `other` an object
-- with its own keys. The keys of a map and of an object are distinct.
mutual
  pub data Decoded (N : Type 0) : Type 0 where
    scalar : N → Decoded N
    text : Text → Decoded N
    bytes : Bytes → Decoded N
    array : DecodedItems N → Decoded N
    map : DecodedEntries N → Decoded N
    other : DecodedFields N → Decoded N

  pub data DecodedItems (N : Type 0) : Type 0 where
    nil : DecodedItems N
    cons : Decoded N → DecodedItems N → DecodedItems N

  pub data DecodedEntries (N : Type 0) : Type 0 where
    no_entries : DecodedEntries N
    entry : Decoded N → Decoded N → DecodedEntries N → DecodedEntries N

  pub data DecodedFields (N : Type 0) : Type 0 where
    no_fields : DecodedFields N
    field : Text → Decoded N → DecodedFields N → DecodedFields N

-- What is handed to the callers.
mutual
  pub data Plain (N : Type 0) : Type 0 where
    scalar : N → Plain N
    text : Text → Plain N
    bytes : Bytes → Plain N
    array : PlainItems N → Plain N
    object : PlainFields N → Plain N

  pub data PlainItems (N : Type 0) : Type 0 where
    nil : PlainItems N
    cons : Plain N → PlainItems N → PlainItems N

  pub data PlainFields (N : Type 0) : Type 0 where
    end : PlainFields N
    field : Text → Plain N → PlainFields N → PlainFields N

pub data SidecarError : Type 0 where
  undecodable too_deep key_not_string key_forbidden : SidecarError

abbrev pub forbidden : List Text
forbidden = codes "__proto__" ∷ codes "constructor" ∷ codes "prototype" ∷ []

abbrev pub max_depth : ℕ
max_depth = 64

module _ {N : Type 0} where
  unfoldable mutual
    pub to_safe_value : ℕ → Decoded N → Outcome SidecarError (Plain N)
    to_safe_value depth (Decoded.scalar n) = do
      throw_if (ltb max_depth depth) too_deep
      ok (Plain.scalar n)
    to_safe_value depth (Decoded.text t) = do
      throw_if (ltb max_depth depth) too_deep
      ok (Plain.text t)
    to_safe_value depth (Decoded.bytes b) = do
      throw_if (ltb max_depth depth) too_deep
      ok (Plain.bytes b)
    to_safe_value depth (Decoded.array items) = do
      throw_if (ltb max_depth depth) too_deep
      safe ← to_safe_items (suc depth) items
      ok (Plain.array safe)
    to_safe_value depth (map entries) = do
      throw_if (ltb max_depth depth) too_deep
      safe ← to_safe_entries (suc depth) entries
      ok (object safe)
    to_safe_value depth (other fields) = do
      throw_if (ltb max_depth depth) too_deep
      safe ← to_safe_fields (suc depth) fields
      ok (object safe)

    pub to_safe_items : ℕ → DecodedItems N → Outcome SidecarError (PlainItems N)
    to_safe_items depth DecodedItems.nil = ok PlainItems.nil
    to_safe_items depth (DecodedItems.cons v rest) = do
      first ← to_safe_value depth v
      others ← to_safe_items depth rest
      ok (PlainItems.cons first others)

    -- The loop over a map.
    pub to_safe_entries : ℕ → DecodedEntries N → Outcome SidecarError (PlainFields N)
    to_safe_entries depth DecodedEntries.no_entries = ok PlainFields.end
    to_safe_entries depth (entry (Decoded.text key) v rest) = do
      throw_if (contains key forbidden) key_forbidden
      first ← to_safe_value depth v
      others ← to_safe_entries depth rest
      ok (PlainFields.field key first others)
    to_safe_entries depth (entry _ v rest) = err key_not_string

    -- The loop over any other object.
    pub to_safe_fields : ℕ → DecodedFields N → Outcome SidecarError (PlainFields N)
    to_safe_fields depth DecodedFields.no_fields = ok PlainFields.end
    to_safe_fields depth (DecodedFields.field key v rest) = do
      throw_if (contains key forbidden) key_forbidden
      first ← to_safe_value depth v
      others ← to_safe_fields depth rest
      ok (PlainFields.field key first others)

  -- `decode` is the library's decoder, which fails on what is no CBOR.
  unfoldable pub decode_sidecar :
      (Bytes → Option (Decoded N)) → Bytes → Outcome SidecarError (Plain N)
  decode_sidecar decode source = elim (decode source) [
    | none ↦ err undecodable
    | some decoded ↦ to_safe_value 0 decoded
  ]
