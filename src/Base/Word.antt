-- ===== src/Base/Word.antt =====
-- Bytes and 16-bit words: the little-endian split that `to_le_bytes` and `from_le_bytes` stand for.
use Prim.Native.Nat.{ℕ, ◌+◌, ◌*◌, ◌/◌, ◌%◌, ◌<◌}
use mathlib.Core.Path.{◌≡◌}
use native.Mathlib.Omega.{arith}

abbrev pub IsByte : ℕ → Type 0
IsByte b = b < 256

abbrev pub IsU16 : ℕ → Type 0
IsU16 w = w < 65536

abbrev pub lo_byte : ℕ → ℕ
lo_byte w = w % 256

abbrev pub hi_byte : ℕ → ℕ
hi_byte w = w / 256

abbrev pub from_le : ℕ → ℕ → ℕ
from_le lo hi = lo + hi * 256

pub from_le-to_le : (w : ℕ) → from_le (lo_byte w) (hi_byte w) ≡ w
from_le-to_le w = omega arith
