-- ===== src/Pack/Bytes/Slices.antt =====
-- What a slice holds after writes in place, and how little-endian numbers are read back.
use native.Mathlib.Nat.{pow-suc}
use knowtion.Base.{
  ℕ, zero, suc, ◌+◌, ◌*◌, ◌/◌, ◌^◌, ◌≤◌, ◌<◌, ◌≡◌, refl, ap, ◌∙◌, ◌⊎◌, inl, inr, List, [], ◌∷◌,
  ◌++◌, length, take, drop, get_elem?, some, All, arith,
}
use knowtion.Pack.Bytes.{Bytes, to_le, of_le, slice, write, write_all}

pub length-to_le : (width v : ℕ) → length (to_le width v) ≡ width
unfolding to_le
length-to_le zero v = refl
length-to_le (suc width) v = ap suc (length-to_le width (v / 256))

pub of_le-to_le : (width v : ℕ) → v < 256 ^ width → of_le (to_le width v) ≡ v
unfolding to_le of_le
of_le-to_le zero v h = omega arith
of_le-to_le (suc width) v h =
    let bound : v < 256 ^ width * 256 = rw pow-suc at h in
    omega (arith, of_le-to_le width (v / 256) (omega arith))

pub length-write :
    (offset : ℕ) (part bytes : Bytes) → length (write offset part bytes) ≡ length bytes
unfolding write
length-write zero part [] = refl
length-write (suc offset) part [] = refl
length-write zero [] (b ∷ bs) = refl
length-write zero (p ∷ part) (b ∷ bs) = ap suc (length-write zero part bs)
length-write (suc offset) part (b ∷ bs) = ap suc (length-write offset part bs)

pub length-write_all :
    (ws : List (ℕ × Bytes)) (bytes : Bytes) → length (write_all ws bytes) ≡ length bytes
unfolding write_all
length-write_all [] bytes = refl
length-write_all ((offset, part) ∷ ws) bytes =
    length-write_all ws _ ∙ length-write offset part bytes

slice-write-zero_self :
    (part bytes : Bytes)
    → length part ≤ length bytes
    → take (length part) (write zero part bytes) ≡ part
unfolding write
slice-write-zero_self [] [] h = refl
slice-write-zero_self [] (b ∷ bs) h = refl
slice-write-zero_self (p ∷ part) [] h = absurd (omega arith)
slice-write-zero_self (p ∷ part) (b ∷ bs) h =
    ap (◌∷◌ p) (slice-write-zero_self part bs (omega arith))

pub slice-write_self :
    (offset : ℕ) (part bytes : Bytes)
    → offset + length part ≤ length bytes
    → slice offset (length part) (write offset part bytes) ≡ part
unfolding write slice
slice-write_self zero part bytes h = slice-write-zero_self part bytes (omega arith)
slice-write_self (suc offset) [] [] h = refl
slice-write_self (suc offset) (p ∷ part) [] h = absurd (omega arith)
slice-write_self (suc offset) part (b ∷ bs) h = slice-write_self offset part bs (omega arith)

drop-write_below :
    (k : ℕ) (part bytes : Bytes) → length part ≤ k → drop k (write zero part bytes) ≡ drop k bytes
unfolding write
drop-write_below k part [] h = refl
drop-write_below k [] (b ∷ bs) h = refl
drop-write_below zero (p ∷ part) (b ∷ bs) h = absurd (omega arith)
drop-write_below (suc k) (p ∷ part) (b ∷ bs) h = drop-write_below k part bs (omega arith)

take-write_above :
    (size offset : ℕ) (part bytes : Bytes)
    → size ≤ offset
    → take size (write offset part bytes) ≡ take size bytes
unfolding write
take-write_above zero offset part bytes h = refl
take-write_above (suc size) offset part [] h = refl
take-write_above (suc size) zero part (b ∷ bs) h = absurd (omega arith)
take-write_above (suc size) (suc offset) part (b ∷ bs) h =
    ap (◌∷◌ b) (take-write_above size offset part bs (omega arith))

-- A write beside the slice is not seen.
pub slice-write_apart :
    (o size offset : ℕ) (part bytes : Bytes)
    → (offset + length part ≤ o) ⊎ (o + size ≤ offset)
    → slice o size (write offset part bytes) ≡ slice o size bytes
unfolding write slice
slice-write_apart o size offset part [] h = refl
slice-write_apart zero size zero part (b ∷ bs) (inl h) =
    ap (take size) (drop-write_below zero part (b ∷ bs) (omega arith))
slice-write_apart zero size (suc offset) part (b ∷ bs) (inl h) = absurd (omega arith)
slice-write_apart zero size offset part (b ∷ bs) (inr h) =
    take-write_above size offset part (b ∷ bs) (omega arith)
slice-write_apart (suc o) size zero part (b ∷ bs) (inl h) =
    ap (take size) (drop-write_below (suc o) part (b ∷ bs) (omega arith))
slice-write_apart (suc o) size zero part (b ∷ bs) (inr h) = absurd (omega arith)
slice-write_apart (suc o) size (suc offset) part (b ∷ bs) (inl h) =
    slice-write_apart o size offset part bs (inl (omega arith))
slice-write_apart (suc o) size (suc offset) part (b ∷ bs) (inr h) =
    slice-write_apart o size offset part bs (inr (omega arith))

-- None of the writes touches the slice.
abbrev pub Apart : ℕ → ℕ → List (ℕ × Bytes) → Type 0
Apart o size ws = All (λ w. (w.0 + length w.1 ≤ o) ⊎ (o + size ≤ w.0)) ws

pub slice-write_all-Apart :
    (o size : ℕ) (ws : List (ℕ × Bytes)) (bytes : Bytes)
    → Apart o size ws
    → slice o size (write_all ws bytes) ≡ slice o size bytes
unfolding write_all
slice-write_all-Apart o size [] bytes h = refl
slice-write_all-Apart o size ((offset, part) ∷ ws) bytes (h, hs) =
    slice-write_all-Apart o size ws _ hs ∙ slice-write_apart o size offset part bytes h

-- A slice holds what was written there last.
pub slice-write_all_self :
    (before : List (ℕ × Bytes)) (offset : ℕ) (part : Bytes) (after : List (ℕ × Bytes))
    (bytes : Bytes)
    → offset + length part ≤ length bytes
    → Apart offset (length part) after
    → slice offset (length part) (write_all (before ++ (offset, part) ∷ after) bytes) ≡ part
unfolding write_all
slice-write_all_self [] offset part after bytes h k =
    slice-write_all-Apart offset (length part) after _ k ∙ slice-write_self offset part bytes h
slice-write_all_self ((o, p) ∷ before) offset part after bytes h k =
    slice-write_all_self before offset part after (write o p bytes)
      (omega (arith, length-write o p bytes)) k

-- The slice of the `i`-th write, where no later write touches it.
pub slice-written :
    (i size offset : ℕ) (part : Bytes) (ws : List (ℕ × Bytes)) (bytes : Bytes)
    → get_elem? ws i ≡ some (offset, part)
    → length part ≡ size
    → offset + size ≤ length bytes
    → Apart offset size (drop (suc i) ws)
    → slice offset size (write_all ws bytes) ≡ part
unfolding write_all
slice-written i size offset part [] bytes e l h k = cc
slice-written zero size offset part ((o, p) ∷ ws) bytes e l h k =
    let same_offset : o ≡ offset = cc in
    let same_part : p ≡ part = cc in
    rw (same_offset, same_part, ← l)
      (slice-write_all_self [] offset part ws bytes (rw l h) (rw l k))
slice-written (suc i) size offset part ((o, p) ∷ ws) bytes e l h k =
    slice-written i size offset part ws (write o p bytes) e l
      (omega (arith, length-write o p bytes)) k

pub slice-take :
    (o size k : ℕ) (bytes : Bytes) → o + size ≤ k → slice o size (take k bytes) ≡ slice o size bytes
unfolding slice
slice-take zero zero k bytes h = refl
slice-take zero (suc size) zero bytes h = absurd (omega arith)
slice-take zero (suc size) (suc k) [] h = refl
slice-take zero (suc size) (suc k) (b ∷ bs) h = ap (◌∷◌ b) (slice-take zero size k bs (omega arith))
slice-take (suc o) size zero bytes h = absurd (omega arith)
slice-take (suc o) size (suc k) [] h = refl
slice-take (suc o) size (suc k) (b ∷ bs) h = slice-take o size k bs (omega arith)

pub slice-write_sized :
    (offset size : ℕ) (part bytes : Bytes)
    → length part ≡ size
    → offset + size ≤ length bytes
    → slice offset size (write offset part bytes) ≡ part
slice-write_sized offset size part bytes e h =
    rw (← e) (slice-write_self offset part bytes (rw e h))
