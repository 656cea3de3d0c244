-- ===== src/Protocol/Crc.antt =====
-- src/protocol/crc.rs. A `u16` is a number below 2 ^ 16.
pub mod Detection
use medius.Base.{ℕ, zero, suc, ◌*◌, ◌%◌, ◌^◌, bit_and, bit_xor, ◌==◌, if◌then◌else◌, List, [], ◌∷◌}

-- One round of the inner loop, for one bit.
unfoldable pub crc_shift : ℕ → ℕ
crc_shift crc =
    if bit_and crc 0x8000 == 0 then crc * 2 % 2 ^ 16 else bit_xor (crc * 2 % 2 ^ 16) 0x1021

-- `for _ in 0..8`
unfoldable pub crc_shifts : ℕ → ℕ → ℕ
crc_shifts zero crc = crc
crc_shifts (suc n) crc = crc_shifts n (crc_shift crc)

unfoldable pub crc_byte : ℕ → ℕ → ℕ
crc_byte crc b = crc_shifts 8 (bit_xor crc (b * 2 ^ 8 % 2 ^ 16))

-- `for &b in data`
unfoldable pub crc_bytes : ℕ → List ℕ → ℕ
crc_bytes crc [] = crc
crc_bytes crc (b ∷ bytes) = crc_bytes (crc_byte crc b) bytes

unfoldable pub crc16_ccitt : List ℕ → ℕ
crc16_ccitt bytes = crc_bytes 0xFFFF bytes
