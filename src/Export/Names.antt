-- ===== src/Export/Names.antt =====
-- `sanitiseName` of packages/exporters/src/paths.ts.
pub mod Safe
use knowtion.Base.{
  ℕ, ◌≡◌, refl, Bool, true, false, not, ◌&&◌, ◌||◌, List, [], ◌∷◌, ◌++◌, Text, codes, take,
  contains, map, ltb, leb, ◌==◌, nat_eq, list_eq, if◌then◌else◌,
}

-- `PUNCTUATION_BANNED_BY_WINDOWS`
abbrev pub banned : List ℕ
banned = codes "<>:\"/|?*\\"

unfoldable pub is_illegal : ℕ → Bool
is_illegal code = ltb code 32 || (code == 127) || contains code banned

abbrev pub reserved_stems : List Text
reserved_stems =
    codes "con"
    ∷ codes "prn"
    ∷ codes "aux"
    ∷ codes "nul"
    ∷ codes "com1"
    ∷ codes "com2"
    ∷ codes "com3"
    ∷ codes "com4"
    ∷ codes "com5"
    ∷ codes "com6"
    ∷ codes "com7"
    ∷ codes "com8"
    ∷ codes "com9"
    ∷ codes "lpt1"
    ∷ codes "lpt2"
    ∷ codes "lpt3"
    ∷ codes "lpt4"
    ∷ codes "lpt5"
    ∷ codes "lpt6"
    ∷ codes "lpt7"
    ∷ codes "lpt8"
    ∷ codes "lpt9"
    ∷ []

abbrev pub max_stem : ℕ
max_stem = 60

-- What `\s` matches and `trim` removes.
unfoldable pub is_white : ℕ → Bool
is_white c =
    (leb 9 c && leb c 13)
    || contains c (32 ∷ 0xa0 ∷ 0x1680 ∷ 0x2028 ∷ 0x2029 ∷ 0x202f ∷ 0x205f ∷ 0x3000 ∷ 0xfeff ∷ [])
    || (leb 0x2000 c && leb c 0x200a)

-- `replace(/\s+/g, ' ')`, where the flag says that a run goes on.
unfoldable pub collapse : Bool → Text → Text
collapse in_run [] = []
collapse in_run (c ∷ cs) = elim (is_white c) [
  | true ↦ if in_run then collapse true cs else 32 ∷ collapse true cs
  | false ↦ c ∷ collapse false cs
]

keep : (ℕ → Bool) → ℕ → Text → Text
keep p c [] = if p c then [] else c ∷ []
keep p c (d ∷ ds) = c ∷ d ∷ ds

-- The text without its last characters that pass the test.
unfoldable pub strip_end : (ℕ → Bool) → Text → Text
unfolding keep
strip_end p [] = []
strip_end p (c ∷ cs) = keep p c (strip_end p cs)

-- The text without its first characters that pass the test.
unfoldable pub strip_start : (ℕ → Bool) → Text → Text
strip_start p [] = []
strip_start p (c ∷ cs) = if p c then strip_start p cs else c ∷ cs

abbrev pub dot_or_space : ℕ → Bool
dot_or_space c = (c == b'.') || (c == 32)

-- `split('.')[0]`
unfoldable pub stem_of : Text → Text
stem_of [] = []
stem_of (c ∷ cs) = if c == b'.' then [] else c ∷ stem_of cs

unfoldable pub stripped : Text → Text
stripped title = strip_end dot_or_space (
    strip_end is_white
      (strip_start is_white (collapse false (map (λ c. if is_illegal c then 32 else c) title))))

abbrev pub truncated : Text → Text
truncated title = strip_end dot_or_space (take max_stem (stripped title))

-- `lower` is `toLowerCase`.
module _ (lower : Text → Text) where
  unfoldable pub sanitise_name : Text → Text
  sanitise_name title =
      if stripped title == []
      then []
      else if truncated title == []
      then []
      else if contains (lower (stem_of (truncated title))) reserved_stems
      then b'_' ∷ truncated title
      else truncated title
