-- ===== src/Pack/Sidecar/Safe.antt =====
-- What a sidecar record that packages/format/src/cbor.ts accepts cannot hold.
use knowtion.Base.{
  ℕ, suc, max, ◌+◌, ◌≤◌, ◌≡◌, refl, Bool, true, false, Option, none, some, List, [], ◌∷◌, ◌++◌,
  Text, contains, ltb, list_eq, nat_eq, Outcome, ok, err, ◌>>=◌, ◌>>◌, throw_if, All, All-append,
  arith, subst,
}
use knowtion.Pack.Bytes.{Bytes}
use knowtion.Pack.Sidecar.{
  Decoded, DecodedItems, DecodedEntries, DecodedFields, Plain, PlainItems, PlainFields,
  SidecarError, forbidden, max_depth, to_safe_value, to_safe_items, to_safe_entries, to_safe_fields,
  decode_sidecar, map, other, entry,
}

-- What was returned satisfies `P`.
data After {ℓ κ μ} {E : Type ℓ} {A : Type κ} (P : A → Type μ) : Outcome E A → Type (ℓ ⊔ κ ⊔ μ) where
  returns : {a : A} → P a → After P (ok a)
  throws : {e : E} → After P (err e)

After-bind {ℓ κ κ' μ μ'} :
    {E : Type ℓ} {A : Type κ} {B : Type κ'} {P : A → Type μ} {Q : B → Type μ'} {m : Outcome E A}
    {f : A → Outcome E B}
    → After P m
    → ((a : A) → P a → After Q (f a))
    → After Q (m >>= f)
After-bind (returns {a} h) k = k a h
After-bind throws k = throws

After-check {ℓ κ μ} :
    {E : Type ℓ} {B : Type κ} {Q : B → Type μ} (b : Bool) (e : E) {m : Outcome E B}
    → (b ≡ false → After Q m)
    → After Q (throw_if b e >> m)
After-check true e k = throws
After-check false e k = k refl

after-ok {ℓ κ μ} : {E : Type ℓ} {A : Type κ} {P : A → Type μ} {a : A} → After {E = E} P (ok a) → P a
after-ok (returns h) = h

abbrev pub IsAllowed : Text → Type 0
IsAllowed key = contains key forbidden ≡ false

module _ {N : Type 0} where
  unfoldable mutual
    -- The keys of every object in a value.
    pub keys_of : Plain N → List Text
    keys_of (Plain.array items) = keys_of_items items
    keys_of (Plain.object fields) = keys_of_fields fields
    keys_of _ = []

    pub keys_of_items : PlainItems N → List Text
    keys_of_items PlainItems.nil = []
    keys_of_items (PlainItems.cons v rest) = keys_of v ++ keys_of_items rest

    pub keys_of_fields : PlainFields N → List Text
    keys_of_fields PlainFields.end = []
    keys_of_fields (PlainFields.field key v rest) = key ∷ (keys_of v ++ keys_of_fields rest)

  unfoldable mutual
    -- How deep the arrays and objects of a value are nested.
    pub height : Plain N → ℕ
    height (Plain.array items) = height_items items
    height (Plain.object fields) = height_fields fields
    height _ = 0

    pub height_items : PlainItems N → ℕ
    height_items PlainItems.nil = 0
    height_items (PlainItems.cons v rest) = max (suc (height v)) (height_items rest)

    pub height_fields : PlainFields N → ℕ
    height_fields PlainFields.end = 0
    height_fields (PlainFields.field key v rest) = max (suc (height v)) (height_fields rest)

  abbrev IsClean : ℕ → Plain N → Type 0
  IsClean depth w = All IsAllowed (keys_of w) × (depth + height w ≤ 64)

  abbrev CleanItems : ℕ → PlainItems N → Type 0
  CleanItems depth w = All IsAllowed (keys_of_items w) × (depth + height_items w ≤ 64)

  abbrev CleanFields : ℕ → PlainFields N → Type 0
  CleanFields depth w = All IsAllowed (keys_of_fields w) × (depth + height_fields w ≤ 64)

  field-Clean :
      (depth : ℕ) (key : Text) (v : Plain N) (rest : PlainFields N)
      → IsAllowed key
      → IsClean (suc depth) v
      → CleanFields depth rest
      → CleanFields depth (PlainFields.field key v rest)
  unfolding keys_of height
  field-Clean depth key v rest allowed (k, h) (k', h') =
      ((allowed, All-append IsAllowed (keys_of v) (keys_of_fields rest) k k'), omega (arith, h, h'))

  mutual
    unfolding to_safe_value keys_of height

    to_safe_value-Clean :
        (depth : ℕ) (v : Decoded N) → After (IsClean depth) (to_safe_value depth v)
    to_safe_value-Clean depth (Decoded.scalar n) =
        After-check (ltb max_depth depth) SidecarError.too_deep λ e. returns (tt, ground arith)
    to_safe_value-Clean depth (Decoded.text n) =
        After-check (ltb max_depth depth) SidecarError.too_deep λ e. returns (tt, ground arith)
    to_safe_value-Clean depth (Decoded.bytes n) =
        After-check (ltb max_depth depth) SidecarError.too_deep λ e. returns (tt, ground arith)
    to_safe_value-Clean depth (Decoded.array items) =
        After-check (ltb max_depth depth) SidecarError.too_deep
          λ e. After-bind (to_safe_items-Clean depth (ground arith) items) λ w h. returns h
    to_safe_value-Clean depth (map entries) =
        After-check (ltb max_depth depth) SidecarError.too_deep
          λ e. After-bind (to_safe_entries-Clean depth (ground arith) entries) λ w h. returns h
    to_safe_value-Clean depth (other fields) =
        After-check (ltb max_depth depth) SidecarError.too_deep
          λ e. After-bind (to_safe_fields-Clean depth (ground arith) fields) λ w h. returns h

    to_safe_items-Clean :
        (depth : ℕ)
        → depth ≤ 64
        → (items : DecodedItems N) → After (CleanItems depth) (to_safe_items (suc depth) items)
    to_safe_items-Clean depth le DecodedItems.nil = returns (tt, omega (arith, le))
    to_safe_items-Clean depth le (DecodedItems.cons v rest) =
        After-bind (to_safe_value-Clean (suc depth) v) λ w (k, h).
          After-bind (to_safe_items-Clean depth le rest) λ ws (k', h').
            returns (All-append IsAllowed (keys_of w) (keys_of_items ws) k k', omega (arith, h, h'))

    to_safe_entries-Clean :
        (depth : ℕ)
        → depth ≤ 64
        → (entries : DecodedEntries N)
        → After (CleanFields depth) (to_safe_entries (suc depth) entries)
    to_safe_entries-Clean depth le DecodedEntries.no_entries = returns (tt, omega (arith, le))
    to_safe_entries-Clean depth le (entry (Decoded.text key) v rest) =
        After-check (contains key forbidden) SidecarError.key_forbidden λ e.
          After-bind (to_safe_value-Clean (suc depth) v) λ w h.
            After-bind (to_safe_entries-Clean depth le rest)
              λ ws h'. returns (field-Clean depth key w ws e h h')
    to_safe_entries-Clean depth le (entry (Decoded.scalar _) v rest) = throws
    to_safe_entries-Clean depth le (entry (Decoded.bytes _) v rest) = throws
    to_safe_entries-Clean depth le (entry (Decoded.array _) v rest) = throws
    to_safe_entries-Clean depth le (entry (map _) v rest) = throws
    to_safe_entries-Clean depth le (entry (other _) v rest) = throws

    to_safe_fields-Clean :
        (depth : ℕ)
        → depth ≤ 64
        → (fields : DecodedFields N) → After (CleanFields depth) (to_safe_fields (suc depth) fields)
    to_safe_fields-Clean depth le DecodedFields.no_fields = returns (tt, omega (arith, le))
    to_safe_fields-Clean depth le (DecodedFields.field key v rest) =
        After-check (contains key forbidden) SidecarError.key_forbidden λ e.
          After-bind (to_safe_value-Clean (suc depth) v) λ w h.
            After-bind (to_safe_fields-Clean depth le rest)
              λ ws h'. returns (field-Clean depth key w ws e h h')

  -- A record that is decoded holds no forbidden key, in whatever object, and its arrays and objects
  -- are nested no deeper than 64.
  pub decode_sidecar-clean :
      (decode : Bytes → Option (Decoded N)) (source : Bytes) (w : Plain N)
      → decode_sidecar decode source ≡ ok w
      → All IsAllowed (keys_of w) × (height w ≤ 64)
  unfolding decode_sidecar
  decode_sidecar-clean decode source w h =
      let (allowed, bound) = after-ok (subst (After (IsClean 0)) h (go (decode source))) in
      (allowed, omega (arith, bound))
    where
      go :
          (o : Option (Decoded N))
          → After
              (IsClean 0)
              (elim o [ none ↦ err SidecarError.undecodable | some v ↦ to_safe_value 0 v ])
      go none = throws
      go (some v) = to_safe_value-Clean 0 v
