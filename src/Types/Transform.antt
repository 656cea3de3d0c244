-- ===== src/Types/Transform.antt =====
-- src/types/transform.rs: field operations, and the entries that RESP(TRANSFORMS) lists.
use medius.Base.{ℕ, zero, suc, if◌then◌else◌, ◌==◌, Bool, true, false, negate, from_le, bit_and}
use medius.Base.{Option, none, some, List, [], ◌∷◌}
use medius.Base.Options.{◌>>=◌, keep}
use medius.Types.Usage.{Class}
use medius.Types.Lock.{LockTarget, from_class_id, target_eq}

pub data TransformOp : Type 0 where
  remap swap : TransformOp

unfoldable pub op_u8 : TransformOp → ℕ
op_u8 TransformOp.remap = 0
op_u8 TransformOp.swap = 1

unfoldable pub op_from_u8 : ℕ → Option TransformOp
op_from_u8 v =
    if v == 0 then some TransformOp.remap else if v == 1 then some TransformOp.swap else none

unfoldable pub is_button : Class → Bool
is_button Class.button = true
is_button _ = false

-- The fields that an operation takes, once source and destination differ.
unfoldable pub op_fields : TransformOp → LockTarget → LockTarget → Bool
unfolding is_button
op_fields op (LockTarget.axis a) (LockTarget.axis b) = true
op_fields TransformOp.remap (LockTarget.usage s) (LockTarget.usage d) = is_button s.class
op_fields op source dest = false

-- TransformOp::admits
unfoldable pub op_admits : TransformOp → LockTarget → LockTarget → Bool
unfolding op_fields target_eq
op_admits op source dest = if target_eq source dest then false else op_fields op source dest

pub record Transform : Type 0 where
  pub op : TransformOp
  pub source : LockTarget
  pub dest : LockTarget

pub record Transforms : Type 0 where
  pub table_full : Bool
  pub entries : List Transform

-- An operation or a field that a newer box added has no entry.
unfoldable pub transform_of : ℕ → ℕ → ℕ → ℕ → ℕ → Option Transform
unfolding op_from_u8 from_class_id
transform_of op sclass sid dclass did = do
  o ← op_from_u8 op
  source ← from_class_id sclass sid
  dest ← from_class_id dclass did
  some (record { op = o; source = source; dest = dest })

-- `[op][scls][sid u16][dcls][did u16]`; a row cut short fails the whole reply.
unfoldable pub transform_rows : ℕ → List ℕ → Option (List Transform)
unfolding transform_of
transform_rows zero rest = some []
transform_rows (suc n) (op ∷ sc ∷ s0 ∷ s1 ∷ dc ∷ d0 ∷ d1 ∷ rest) = do
  let entry = transform_of op sc (from_le s0 s1) dc (from_le d0 d1)
  entries ← transform_rows n rest
  some (keep entry entries)
transform_rows (suc n) _ = none

-- Transforms::from_payload
unfoldable pub transforms_from_payload : List ℕ → Option Transforms
unfolding transform_rows
transforms_from_payload (what ∷ flags ∷ n ∷ rest) = do
  entries ← transform_rows n rest
  some (record { table_full = negate (bit_and flags 1 == 0); entries = entries })
transforms_from_payload _ = none
