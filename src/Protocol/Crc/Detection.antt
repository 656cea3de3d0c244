-- ===== src/Protocol/Crc/Detection.antt =====
-- What the CRC detects. Every step is injective, so one wrong byte always shows.
use medius.Base.{
  ℕ, zero, suc, ◌*◌, ◌/◌, ◌%◌, ◌^◌, ◌≤◌, ◌<◌, bit_and, bit_xor, ◌≡◌, refl, sym, ◌∙◌, ◌≢◌, ◌⊎◌,
  arith, List, [], ◌∷◌, ◌++◌, IsByte, IsU16,
}
use medius.Base.Bits.{bit_xor-lt, bit_xor_parts, bit_xor_injective, bit_xor_comm, bit_and_bit}
use medius.Protocol.Crc.{crc_shift, crc_shifts, crc_byte, crc_bytes, crc16_ccitt}

-- The test of the top bit.
top_bit : (c : ℕ) → IsU16 c → bit_and c 0x8000 ≡ c / 32768 * 32768
top_bit c h = omega (arith, bit_and_bit 15 c)

crc_shift-IsU16 : (c : ℕ) → IsU16 c → IsU16 (crc_shift c)
unfolding crc_shift
crc_shift-IsU16 c h =
    ground (arith, bit_xor-lt 16 (c * 2 % 65536) 0x1021 (omega arith) (omega arith))

-- A round keeps the top bit of its input as the lowest bit of its output.
crc_shift_parity : (c : ℕ) → IsU16 c → crc_shift c % 2 ≡ c / 32768
unfolding crc_shift
crc_shift_parity c h = ground (arith, top_bit c h, (bit_xor_parts (c * 2 % 65536) 0x1021).1)

crc_shift_cases :
    (c : ℕ)
    → IsU16 c
    → ((c < 32768) × (crc_shift c ≡ c * 2 % 65536))
      ⊎ ((32768 ≤ c) × (crc_shift c ≡ bit_xor (c * 2 % 65536) 0x1021))
unfolding crc_shift
crc_shift_cases c h = ground (arith, top_bit c h)

crc_shift_injective : (c d : ℕ) → IsU16 c → IsU16 d → crc_shift c ≡ crc_shift d → c ≡ d
crc_shift_injective c d hc hd e = ground (
  arith,
  crc_shift_cases c hc,
  crc_shift_cases d hd,
  crc_shift_parity c hc,
  crc_shift_parity d hd,
  bit_xor_injective 16 (c * 2 % 65536) (d * 2 % 65536) 0x1021 (omega arith) (omega arith)
      (omega arith),
)

crc_shifts-IsU16 : (n c : ℕ) → IsU16 c → IsU16 (crc_shifts n c)
unfolding crc_shifts
crc_shifts-IsU16 zero c h = h
crc_shifts-IsU16 (suc n) c h = crc_shifts-IsU16 n (crc_shift c) (crc_shift-IsU16 c h)

crc_shifts_injective : (n c d : ℕ) → IsU16 c → IsU16 d → crc_shifts n c ≡ crc_shifts n d → c ≡ d
unfolding crc_shifts
crc_shifts_injective zero c d hc hd e = e
crc_shifts_injective (suc n) c d hc hd e = crc_shift_injective c d hc hd (
    crc_shifts_injective n (crc_shift c) (crc_shift d) (crc_shift-IsU16 c hc) (crc_shift-IsU16 d hd)
      e)

mixed-IsU16 : (c b : ℕ) → IsU16 c → IsU16 (bit_xor c (b * 2 ^ 8 % 2 ^ 16))
mixed-IsU16 c b h = bit_xor-lt 16 c (b * 256 % 65536) h (omega arith)

crc_byte-IsU16 : (c b : ℕ) → IsU16 c → IsU16 (crc_byte c b)
unfolding crc_byte
crc_byte-IsU16 c b h = crc_shifts-IsU16 8 _ (mixed-IsU16 c b h)

crc_bytes-IsU16 : (bytes : List ℕ) (c : ℕ) → IsU16 c → IsU16 (crc_bytes c bytes)
unfolding crc_bytes
crc_bytes-IsU16 [] c h = h
crc_bytes-IsU16 (b ∷ bytes) c h = crc_bytes-IsU16 bytes (crc_byte c b) (crc_byte-IsU16 c b h)

pub crc16_ccitt-IsU16 : (bytes : List ℕ) → IsU16 (crc16_ccitt bytes)
unfolding crc16_ccitt
crc16_ccitt-IsU16 bytes = crc_bytes-IsU16 bytes 0xFFFF (omega arith)

-- The step is injective in the register and in the byte.
crc_byte_injective : (c d b : ℕ) → IsU16 c → IsU16 d → crc_byte c b ≡ crc_byte d b → c ≡ d
unfolding crc_byte
crc_byte_injective c d b hc hd e =
    bit_xor_injective 16 c d (b * 2 ^ 8 % 2 ^ 16) hc hd (omega arith)
      (crc_shifts_injective 8 _ _ (mixed-IsU16 c b hc) (mixed-IsU16 d b hd) e)

crc_byte_injective_byte :
    (c a b : ℕ) → IsU16 c → IsByte a → IsByte b → crc_byte c a ≡ crc_byte c b → a ≡ b
unfolding crc_byte
crc_byte_injective_byte c a b hc ha hb e =
    let x : ℕ = a * 2 ^ 8 % 2 ^ 16 in
    let y : ℕ = b * 2 ^ 8 % 2 ^ 16 in
    let same : bit_xor c x ≡ bit_xor c y =
      crc_shifts_injective 8 _ _ (mixed-IsU16 c a hc) (mixed-IsU16 c b hc) e in
    let flipped : bit_xor x c ≡ bit_xor y c =
      bit_xor_comm 16 x c (omega arith) hc ∙ same ∙ bit_xor_comm 16 c y hc (omega arith) in
    omega (arith, bit_xor_injective 16 x y c (omega arith) (omega arith) hc flipped)

crc_bytes_injective :
    (bytes : List ℕ) (c d : ℕ) → IsU16 c → IsU16 d → crc_bytes c bytes ≡ crc_bytes d bytes → c ≡ d
unfolding crc_bytes
crc_bytes_injective [] c d hc hd e = e
crc_bytes_injective (b ∷ bytes) c d hc hd e = crc_byte_injective c d b hc hd (
    crc_bytes_injective bytes (crc_byte c b) (crc_byte d b) (crc_byte-IsU16 c b hc)
      (crc_byte-IsU16 d b hd) e)

crc_bytes-append : (xs ys : List ℕ) (c : ℕ) → crc_bytes c (xs ++ ys) ≡ crc_bytes (crc_bytes c xs) ys
unfolding crc_bytes
crc_bytes-append [] ys c = refl
crc_bytes-append (x ∷ xs) ys c = crc_bytes-append xs ys (crc_byte c x)

-- Two messages that differ in one byte, at the same place, have different checksums.
pub crc16_ccitt_detects :
    (front back : List ℕ) (a b : ℕ)
    → IsByte a
    → IsByte b
    → a ≢ b
    → crc16_ccitt (front ++ (a ∷ back)) ≢ crc16_ccitt (front ++ (b ∷ back))
unfolding crc16_ccitt crc_bytes
crc16_ccitt_detects front back a b ha hb ne e =
    let c : ℕ = crc_bytes 0xFFFF front in
    let hc : IsU16 c = crc_bytes-IsU16 front 0xFFFF (omega arith) in
    let tail : crc_bytes (crc_byte c a) back ≡ crc_bytes (crc_byte c b) back =
      sym (crc_bytes-append front (a ∷ back) 0xFFFF)
      ∙ e
      ∙ crc_bytes-append front (b ∷ back) 0xFFFF in
    ne (
      crc_byte_injective_byte c a b hc ha hb
        (crc_bytes_injective back _ _ (crc_byte-IsU16 c a hc) (crc_byte-IsU16 c b hc) tail))
