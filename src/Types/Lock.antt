-- ===== src/Types/Lock.antt =====
-- src/types/lock.rs: lock targets, and the lock rows that RESP(LOCKS) lists.
pub mod Scale
use medius.Base.{
  ℕ, zero, suc, ◌+◌, ◌*◌, ◌≡◌, if◌then◌else◌, ltb, leb, ◌==◌, Bool, true, false, negate,
}
use medius.Base.{
  ◌&&◌, ◌||◌, Option, none, some, List, [], ◌∷◌, ◌++◌, from_le, get_elem?, retain, map,
}
use medius.Base.Int.{ℤ, pos, negsuc, abs, eq_ℤ, ltb_ℤ, word_i16}
use medius.Base.Options.{◌>>=◌, keep}
use medius.Link.Reconcile.Slots.{lock_scale_pass, lock_scale_block}
use medius.Link.Reconcile.Locks.Ops.{lock_cls_axis, lock_id_all}
use medius.Types.Direction.{Direction, dir_from_u8, admits, dir_eq}
use medius.Types.Usage.{
  Axis, axis_u16, axis_from_u16, Class, class_u8, class_from_u8, Usage, class_id,
}

pub data LockTarget : Type 0 where
  axis : Axis → LockTarget
  usage : Usage → LockTarget

unfoldable pub target_class_id : LockTarget → ℕ × ℕ
unfolding axis_u16 class_id
target_class_id (LockTarget.axis a) = (lock_cls_axis, axis_u16 a)
target_class_id (LockTarget.usage u) = class_id u

unfoldable pub from_class_id : ℕ → ℕ → Option LockTarget
unfolding axis_from_u16 class_from_u8
from_class_id class id =
    if class == lock_cls_axis
    then (axis_from_u16 id >>= λ a. some (LockTarget.axis a))
    else (class_from_u8 class >>= λ c. some (LockTarget.usage (record { class = c; id = id })))

unfoldable pub as_axis : LockTarget → Option Axis
as_axis (LockTarget.axis a) = some a
as_axis (LockTarget.usage u) = none

-- Derived equality.
unfoldable pub target_eq : LockTarget → LockTarget → Bool
unfolding axis_u16 class_u8
target_eq (LockTarget.axis a) (LockTarget.axis b) = axis_u16 a == axis_u16 b
target_eq (LockTarget.usage u) (LockTarget.usage v) =
    (class_u8 u.class == class_u8 v.class) && (u.id == v.id)
target_eq _ _ = false

pub data LockScope : Type 0 where
  target : LockTarget → LockScope
  blanket : Class → LockScope

pub record LockEntry : Type 0 where
  pub scope : LockScope
  pub direction : Direction
  pub scale : ℤ

unfoldable pub is_block : LockEntry → Bool
is_block e = eq_ℤ e.scale (pos 0)

unfoldable pub decode_scope : ℕ → ℕ → Option LockScope
unfolding axis_from_u16 class_from_u8
decode_scope cls id =
    if cls == lock_cls_axis
    then (axis_from_u16 id >>= λ a. some (LockScope.target (LockTarget.axis a)))
    else if id == lock_id_all
    then (class_from_u8 cls >>= λ c. some (LockScope.blanket c))
    else (class_from_u8 cls >>= λ c.
        some (LockScope.target (LockTarget.usage (record { class = c; id = id }))))

-- A row that this build has no name for has no entry.
unfoldable pub lock_entry_of : ℕ → ℕ → ℕ → ℤ → Option LockEntry
unfolding decode_scope dir_from_u8
lock_entry_of cls id dir scale = do
  scope ← decode_scope cls id
  direction ← dir_from_u8 dir
  some (record { scope = scope; direction = direction; scale = scale })

-- `[cls][id u16][dir][scale i16]`; a row cut short fails the whole reply.
unfoldable pub lock_rows : ℕ → List ℕ → Option (List LockEntry)
unfolding lock_entry_of
lock_rows zero rest = some []
lock_rows (suc n) (cls ∷ i0 ∷ i1 ∷ dir ∷ s0 ∷ s1 ∷ rest) = do
  let entry = lock_entry_of cls (from_le i0 i1) dir (word_i16 (from_le s0 s1))
  entries ← lock_rows n rest
  some (keep entry entries)
lock_rows (suc n) _ = none

-- Locks::from_payload
unfoldable pub locks_from_payload : List ℕ → Option (List LockEntry)
unfolding lock_rows
locks_from_payload (what ∷ n ∷ rest) = lock_rows n rest
locks_from_payload _ = none

unfoldable pub scope_covers : LockTarget → LockScope → Bool
unfolding target_eq class_u8
scope_covers t (LockScope.target u) = target_eq u t
scope_covers (LockTarget.usage u) (LockScope.blanket c) = class_u8 u.class == class_u8 c
scope_covers (LockTarget.axis a) (LockScope.blanket c) = false

-- The order of the keys `(s.unsigned_abs(), s)`: whether the second is the smaller.
abbrev pub scale_before : ℤ → ℤ → Bool
scale_before s t = ltb (abs s) (abs t) || ((abs s == abs t) && ltb_ℤ s t)

-- `min_by_key`, which keeps the first of equal keys.
unfoldable pub min_scale : List ℤ → Option ℤ
min_scale [] = none
min_scale (s ∷ scales) = elim (min_scale scales) [
  | none ↦ some s
  | some t ↦ some (if scale_before t s then t else s)
]

unfoldable pub counts_for : LockTarget → Direction → LockEntry → Bool
unfolding scope_covers dir_eq admits
counts_for t dir e = scope_covers t e.scope && (dir_eq dir Direction.both || admits e.direction dir)

abbrev pub scales_for : LockTarget → Direction → List LockEntry → List ℤ
scales_for t dir entries = map (λ e. e.scale) (retain (counts_for t dir) entries)

unfoldable pub scale_of : LockTarget → Direction → List LockEntry → ℤ
unfolding counts_for min_scale
scale_of t dir entries = elim (min_scale (scales_for t dir entries)) [
  | none ↦ lock_scale_pass
  | some s ↦ s
]

unfoldable pub is_locked : LockTarget → Direction → List LockEntry → Bool
unfolding scale_of
is_locked t Direction.both entries =
    eq_ℤ (scale_of t Direction.positive entries) (pos 0)
    && eq_ℤ (scale_of t Direction.negative entries) (pos 0)
is_locked t dir entries = eq_ℤ (scale_of t dir entries) (pos 0)
