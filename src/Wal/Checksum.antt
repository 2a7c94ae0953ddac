-- ===== src/Wal/Checksum.antt =====
-- hash/crc32's ChecksumIEEE, bit by bit, as wal/wal.go calls it.
use Prim.Native.Nat.{bit_xor}
use golang_db.Base.{
  ℕ, zero, suc, ◌/◌, ◌%◌, ◌^◌, ◌<◌, ◌≡◌, refl, [], ◌∷◌, arith, ◌==◌, if◌then◌else◌,
}
use golang_db.Base.Bytes.{Bytes}

crc_bits : ℕ → ℕ → ℕ
crc_bits zero crc = crc
crc_bits (suc n) crc = crc_bits n (if crc % 2 == 1 then bit_xor (crc / 2) 0xedb88320 else crc / 2)

crc_loop : ℕ → Bytes → ℕ
unfolding crc_bits
crc_loop crc [] = crc
crc_loop crc (b ∷ bs) = crc_loop (crc_bits 8 (bit_xor crc b)) bs

-- The type uint32 of the result is the `% 2 ^ 32`.
unfoldable pub checksum_ieee : Bytes → ℕ
unfolding crc_loop
checksum_ieee payload = bit_xor (crc_loop 0xffffffff payload) 0xffffffff % 2 ^ 32

pub checksum_ieee-lt : (payload : Bytes) → checksum_ieee payload < 2 ^ 32
unfolding checksum_ieee
checksum_ieee-lt payload = omega arith

-- The check value of the standard, for "123456789".
check_value : checksum_ieee (49 ∷ 50 ∷ 51 ∷ 52 ∷ 53 ∷ 54 ∷ 55 ∷ 56 ∷ 57 ∷ []) ≡ 0xcbf43926
unfolding checksum_ieee
check_value = refl
