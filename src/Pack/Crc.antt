-- ===== src/Pack/Crc.antt =====
-- CRC-32C (packages/format/src/crc32c.ts). A number that JavaScript keeps in 32 bits is its
-- unsigned value; `>>> 0` is the remainder by 2 ^ 32.
use Prim.Native.Nat.{bit_and, bit_xor}
use knowtion.Base.{
  ℕ, zero, suc, ◌+◌, ◌/◌, ◌%◌, ◌^◌, ◌<◌, ◌≡◌, refl, List, [], ◌∷◌, get_elem?, none, some, codes,
  ◌==◌, nat_eq, if◌then◌else◌, arith,
}
use knowtion.Pack.Bytes.{Bytes}

abbrev polynomial : ℕ
polynomial = 0x82f63b78

-- The inner loop of `buildTable`, over the rounds left.
crc_bits : ℕ → ℕ → ℕ
crc_bits zero crc = crc
crc_bits (suc rounds) crc =
    crc_bits rounds (if bit_and crc 1 == 0 then crc / 2 else bit_xor (crc / 2) polynomial)

-- The outer loop, from entry `i` on, over the entries left.
table_from : ℕ → ℕ → List ℕ
table_from i zero = []
table_from i (suc entries) = crc_bits 8 i % 2 ^ 32 ∷ table_from (i + 1) entries

build_table : List ℕ
unfolding crc_bits table_from
build_table = table_from 0 256

-- The table has 256 entries, so the throw on a missing one is never taken; it reads as 0 here.
table_at : List ℕ → ℕ → ℕ
table_at table index = elim (get_elem? table index) [ none ↦ 0 | some value ↦ value ]

crc_loop : List ℕ → ℕ → Bytes → ℕ
crc_loop table crc [] = crc
crc_loop table crc (byte ∷ bytes) =
    crc_loop table (bit_xor (crc / 256) (table_at table (bit_and (bit_xor crc byte) 0xff))) bytes

unfoldable pub crc32c : Bytes → ℕ
unfolding build_table table_at crc_loop
crc32c bytes = bit_xor (crc_loop build_table 0xffffffff bytes) 0xffffffff % 2 ^ 32

pub crc32c-lt : (bytes : Bytes) → crc32c bytes < 2 ^ 32
unfolding crc32c
crc32c-lt bytes = omega arith

-- The standard test vector.
crc32c_check : crc32c (codes "123456789") ≡ 0xe3069283
unfolding crc32c
crc32c_check = refl
