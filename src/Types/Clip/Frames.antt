-- ===== src/Types/Clip/Frames.antt =====
-- src/types/clip.rs: the frames and gaps of a clip, and their encoded length. `Setup` is of
-- src/types/transfer.rs.
use medius.Base.{ℕ, ◌+◌, ◌*◌, Bool, true, false, ◌||◌, negate, if◌then◌else◌, ◌==◌}
use medius.Base.{List, [], ◌∷◌, length, bit_and, lo_byte, hi_byte}
use medius.Base.Int.{ℤ, pos, eq_ℤ}
use medius.Types.Direction.{Direction}
use medius.Types.Usage.{Usage, Action}

pub record Setup : Type 0 where
  pub request_type : ℕ
  pub request : ℕ
  pub value : ℕ
  pub index : ℕ
  pub length : ℕ

unfoldable pub setup_bytes : Setup → List ℕ
setup_bytes s =
    s.request_type
    ∷ s.request
    ∷ lo_byte s.value
    ∷ hi_byte s.value
    ∷ lo_byte s.index
    ∷ hi_byte s.index
    ∷ lo_byte s.length
    ∷ hi_byte s.length
    ∷ []

unfoldable pub is_in : Setup → Bool
is_in s = negate (bit_and s.request_type 0x80 == 0)

pub record RawItem : Type 0 where
  pub ep : ℕ
  pub direction : Direction
  pub bytes : List ℕ

pub record TransferItem : Type 0 where
  pub ep : ℕ
  pub setup : Setup
  pub out : List ℕ

pub record ClipFrame : Type 0 where
  pub dx : ℤ
  pub dy : ℤ
  pub wheel : ℤ
  pub pan : ℤ
  pub edges : List (Usage × Action)
  pub raw : List RawItem
  pub transfers : List TransferItem

pub data ClipEntry : Type 0 where
  gap : ℕ → ClipEntry
  frame : ClipFrame → ClipEntry

-- The tests of a frame's fields.
unfoldable pub moves : ℤ → Bool
moves z = negate (eq_ℤ z (pos 0))

unfoldable pub has_items {ℓ} : {A : Type ℓ} → List A → Bool
has_items [] = false
has_items (x ∷ xs) = true

unfoldable pub raw_len : List RawItem → ℕ
raw_len [] = 0
raw_len (r ∷ rs) = 4 + length r.bytes + raw_len rs

unfoldable pub transfers_len : List TransferItem → ℕ
transfers_len [] = 0
transfers_len (t ∷ ts) = 9 + length t.out + transfers_len ts

unfoldable pub motion_len : ClipFrame → ℕ
unfolding moves
motion_len f = (if moves f.wheel then 2 else 0) + (if moves f.pan then 2 else 0)

unfoldable pub items_len : ClipFrame → ℕ
unfolding has_items raw_len transfers_len
items_len f =
    (if has_items f.edges then 1 + length f.edges * 4 else 0)
    + raw_len f.raw
    + (if has_items f.raw then 1 else 0)
    + transfers_len f.transfers
    + (if has_items f.transfers then 1 else 0)

unfoldable pub byte_len : ClipFrame → ℕ
unfolding moves motion_len items_len
byte_len f =
    let rest : ℕ = motion_len f + items_len f in
    1 + (if moves f.dx || (moves f.dy || rest == 0) then 4 else 0) + rest
