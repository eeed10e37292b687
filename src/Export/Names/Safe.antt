-- ===== src/Export/Names/Safe.antt =====
-- The names that `sanitiseName` of packages/exporters/src/paths.ts gives.
use knowtion.Base.{
  ℕ, suc, ◌≤◌, ◌≡◌, refl, ap, Bool, true, false, [], ◌∷◌, Text, All, All-take, ◌⊎◌, take, contains,
  map, length, length-take, ◌==◌, nat_eq, list_eq, list_beq, list_beq_iff, if◌then◌else◌, arith,
  Bool-cases, inl, inr,
}
use knowtion.Export.Names.{
  is_illegal, reserved_stems, max_stem, is_white, collapse, keep, strip_end, strip_start,
  dot_or_space, stem_of, stripped, truncated, sanitise_name,
}

abbrev IsLegal : ℕ → Type 0
IsLegal c = is_illegal c ≡ false

-- A component that every platform keeps as it is written: no illegal character, no dot or space at the
-- end, no more than 61 characters, and not a reserved name before the first dot.
pub record IsSafe (lower : Text → Text) (name : Text) : Type 0 where
  pub legal : All IsLegal name
  pub ends_well : strip_end dot_or_space name ≡ name
  pub short : length name ≤ 61
  pub free : contains (lower (stem_of name)) reserved_stems ≡ false

space-IsLegal : IsLegal 32
unfolding is_illegal contains
space-IsLegal = refl

cleaned-IsLegal : (c : ℕ) (b : Bool) → is_illegal c ≡ b → IsLegal (if b then 32 else c)
cleaned-IsLegal c true h = space-IsLegal
cleaned-IsLegal c false h = h

All-cleaned : (title : Text) → All IsLegal (map (λ c. if is_illegal c then 32 else c) title)
All-cleaned [] = tt
All-cleaned (c ∷ cs) = (cleaned-IsLegal c (is_illegal c) refl, All-cleaned cs)

All-run :
    (in_run : Bool) (rest : Text)
    → All IsLegal rest
    → All IsLegal (if in_run then rest else 32 ∷ rest)
All-run true rest h = h
All-run false rest h = (space-IsLegal, h)

All-collapse : (in_run : Bool) (text : Text) → All IsLegal text → All IsLegal (collapse in_run text)
unfolding collapse
All-collapse in_run [] h = tt
All-collapse in_run (c ∷ cs) (p, h) = elim (Bool-cases (is_white c)) [
  | inl e ↦ rw (e, collapse) (All-run in_run (collapse true cs) (All-collapse true cs h))
  | inr e ↦ rw (e, collapse) (p, All-collapse false cs h)
]

All-strip_start : (p : ℕ → Bool) (text : Text) → All IsLegal text → All IsLegal (strip_start p text)
unfolding strip_start
All-strip_start p [] h = tt
All-strip_start p (c ∷ cs) (q, h) = elim (Bool-cases (p c)) [
  | inl e ↦ rw e (All-strip_start p cs h)
  | inr e ↦ rw e (q, h)
]

All-keep :
    (p : ℕ → Bool) (c : ℕ) (rest : Text)
    → IsLegal c
    → All IsLegal rest
    → All IsLegal (keep p c rest)
unfolding keep
All-keep p c [] q h = elim (Bool-cases (p c)) [ inl e ↦ rw e tt | inr e ↦ rw e (q, tt) ]
All-keep p c (d ∷ ds) q h = (q, h)

All-strip_end : (p : ℕ → Bool) (text : Text) → All IsLegal text → All IsLegal (strip_end p text)
unfolding strip_end
All-strip_end p [] h = tt
All-strip_end p (c ∷ cs) (q, h) = All-keep p c (strip_end p cs) q (All-strip_end p cs h)

length-keep : (p : ℕ → Bool) (c : ℕ) (rest : Text) → length (keep p c rest) ≤ suc (length rest)
unfolding keep
length-keep p c [] = elim (Bool-cases (p c)) [
  | inl e ↦ rw e (omega arith)
  | inr e ↦ rw e (omega arith)
]
length-keep p c (d ∷ ds) = omega arith

length-strip_end : (p : ℕ → Bool) (text : Text) → length (strip_end p text) ≤ length text
unfolding strip_end
length-strip_end p [] = omega arith
length-strip_end p (c ∷ cs) = omega (arith, length-keep p c (strip_end p cs), length-strip_end p cs)

keep-one : (p : ℕ → Bool) (c : ℕ) → p c ≡ false → keep p c [] ≡ c ∷ []
unfolding keep
keep-one p c e = rw e refl

strip_end-keep :
    (p : ℕ → Bool) (c : ℕ) (rest : Text)
    → strip_end p rest ≡ rest
    → strip_end p (keep p c rest) ≡ keep p c rest
unfolding strip_end keep
strip_end-keep p c [] same = elim (Bool-cases (p c)) [
  | inl e ↦ rw e refl
  | inr e ↦ ap (strip_end p) (keep-one p c e)
]
strip_end-keep p c (d ∷ ds) same = ap (keep p c) same

strip_end_idem : (p : ℕ → Bool) (text : Text) → strip_end p (strip_end p text) ≡ strip_end p text
unfolding strip_end
strip_end_idem p [] = refl
strip_end_idem p (c ∷ cs) = strip_end-keep p c (strip_end p cs) (strip_end_idem p cs)

stripped-IsLegal : (title : Text) → All IsLegal (stripped title)
unfolding stripped
stripped-IsLegal title = All-strip_end dot_or_space _ (
    All-strip_end is_white _
      (All-strip_start is_white _ (All-collapse false _ (All-cleaned title))))

truncated-IsLegal : (title : Text) → All IsLegal (truncated title)
truncated-IsLegal title =
    All-strip_end dot_or_space _
      (All-take IsLegal max_stem (stripped title) (stripped-IsLegal title))

length-truncated : (title : Text) → length (truncated title) ≤ 60
length-truncated title = omega (
  arith,
  length-strip_end dot_or_space (take max_stem (stripped title)),
  length-take max_stem (stripped title),
)

underscore-IsLegal : IsLegal b'_'
unfolding is_illegal contains
underscore-IsLegal = refl

-- Lowering keeps an underscore at the front.
abbrev pub KeepsUnderscore : (Text → Text) → Type 0
KeepsUnderscore lower = (t : Text) → (u : Text) × (lower (b'_' ∷ t) ≡ b'_' ∷ u)

underscored-free : (t : Text) → contains (b'_' ∷ t) reserved_stems ≡ false
unfolding contains list_beq
underscored-free t = refl

strip_end-underscore :
    (t : Text) → strip_end dot_or_space t ≡ t → strip_end dot_or_space (b'_' ∷ t) ≡ b'_' ∷ t
unfolding strip_end keep
strip_end-underscore [] same = refl
strip_end-underscore (c ∷ cs) same = ap (keep dot_or_space b'_') same

-- What a title gives: no name, or its letters in a safe name.
abbrev pub Named : (Text → Text) → Text → Text → Type 0
Named lower t name =
    ((t ≡ []) × (name ≡ [])) ⊎ (IsSafe lower name × ((name ≡ t) ⊎ (name ≡ b'_' ∷ t)))

module _ (lower : Text → Text) (keeps : KeepsUnderscore lower) where
  underscored-IsSafe :
      (t : Text)
      → All IsLegal t
      → strip_end dot_or_space t ≡ t
      → length t ≤ 60
      → IsSafe lower (b'_' ∷ t)
  unfolding stem_of
  underscored-IsSafe t legal same short =
      let (u, lowered) = keeps (stem_of t) in
      record {
        legal = (underscore-IsLegal, legal);
        ends_well = strip_end-underscore t same;
        short = omega (arith, short);
        free = rw lowered (underscored-free u);
      }

  named :
      (t : Text) (taken : Bool)
      → All IsLegal t
      → strip_end dot_or_space t ≡ t
      → length t ≤ 60
      → contains (lower (stem_of t)) reserved_stems ≡ taken
      → Named lower t (if taken then b'_' ∷ t else t)
  named t true legal same short _ = inr (underscored-IsSafe t legal same short, inr refl)
  named t false legal same short free = inr (
    record { legal = legal; ends_well = same; short = omega (arith, short); free = free },
    inl refl,
  )

  truncated-nothing : (title : Text) → stripped title ≡ [] → truncated title ≡ []
  unfolding strip_end
  truncated-nothing title nothing = rw nothing refl

  -- A title whose truncation is empty gives no name. Any other gives its truncation, or that after an
  -- underscore: a name without illegal characters, without a dot or a space at its end, of at most 61
  -- characters, and not reserved before its first dot, where lowering keeps an underscore at the front of a text.
  pub sanitise_name-Named :
      (title : Text) → Named lower (truncated title) (sanitise_name lower title)
  unfolding sanitise_name
  sanitise_name-Named title = elim (Bool-cases (stripped title == [])) [
    | inl e ↦ rw e (inl (truncated-nothing title ((list_beq_iff (stripped title) []).0 e), refl))
    | inr e ↦ rw e (elim (Bool-cases (truncated title == [])) [
      | inl e' ↦ rw e' (inl ((list_beq_iff (truncated title) []).0 e', refl))
      | inr e' ↦ rw e' (
          named (truncated title) (contains (lower (stem_of (truncated title))) reserved_stems)
            (truncated-IsLegal title) (strip_end_idem dot_or_space (take max_stem (stripped title)))
            (length-truncated title) refl)
    ])
  ]
