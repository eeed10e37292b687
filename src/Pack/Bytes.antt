-- ===== src/Pack/Bytes.antt =====
-- `Uint8Array` and `DataView` as lists of bytes: little-endian numbers, slices and writes in place.
pub mod Slices
use knowtion.Base.{ℕ, zero, suc, ◌+◌, ◌*◌, ◌/◌, ◌%◌, List, [], ◌∷◌, take, drop}

abbrev pub Bytes : Type 0
Bytes = List ℕ

-- `setUint16`, `setUint32` and `setBigUint64` keep the low bytes of the value.
unfoldable pub to_le : ℕ → ℕ → Bytes
to_le zero v = []
to_le (suc width) v = (v % 256) ∷ to_le width (v / 256)

unfoldable pub of_le : Bytes → ℕ
of_le [] = 0
of_le (b ∷ bs) = b + 256 * of_le bs

-- `bytes.slice(offset, offset + size)`
unfoldable pub slice : ℕ → ℕ → Bytes → Bytes
slice offset size bytes = take size (drop offset bytes)

-- `bytes.set(part, offset)`
unfoldable pub write : ℕ → Bytes → Bytes → Bytes
write offset part [] = []
write zero [] (b ∷ bs) = b ∷ bs
write zero (p ∷ part) (b ∷ bs) = p ∷ write zero part bs
write (suc offset) part (b ∷ bs) = b ∷ write offset part bs

-- Several writes, one after the other.
unfoldable pub write_all : List (ℕ × Bytes) → Bytes → Bytes
write_all [] bytes = bytes
write_all ((offset, part) ∷ rest) bytes = write_all rest (write offset part bytes)
