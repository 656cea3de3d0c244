-- ===== src/Device/Transform.antt =====
-- src/device/transform.rs: the transform calls, their checks and what they undo. Each holds the
-- re-assert guard throughout, so it is one step; whether its send succeeds is an argument.
pub mod Calls
use medius.Base.{
  ℕ, if◌then◌else◌, leb, Bool, true, false, negate, ◌&&◌, List, [], ◌∷◌, Result, ok, err,
}
use medius.Types.Lock.{LockTarget, target_class_id}
use medius.Types.Transform.{TransformOp, op_u8, op_admits, Transform}
use medius.Link.Reconcile.State.{DesiredState, StoredTransform}
use medius.Link.Reconcile.Transforms.{
  key, apply_transform, remove_transform, restore_transform, holds_transform, transform_count,
  clear_transforms,
}

abbrev pub transform_max_entries : ℕ
transform_max_entries = 32

pub data TransformError : Type 0 where
  op_fields_refused : TransformOp → LockTarget → LockTarget → TransformError
  transform_table_full : ℕ → TransformError
  transform_send_failed : TransformError

unfoldable pub transform_to_stored : Transform → StoredTransform
unfolding op_u8 target_class_id
transform_to_stored t = record {
  op = op_u8 t.op;
  sclass = (target_class_id t.source).0;
  sid = (target_class_id t.source).1;
  dclass = (target_class_id t.dest).0;
  did = (target_class_id t.dest).1;
}

unfoldable pub validate_transform : Transform → Result TransformError (Unit {0})
unfolding op_admits
validate_transform t =
    if op_admits t.op t.source t.dest
    then ok tt
    else err (TransformError.op_fields_refused t.op t.source t.dest)

-- The state is SET or REMOVE.
unfoldable pub transform_send :
    Bool → Bool → Transform → DesiredState → DesiredState × Result TransformError (Unit {0})
transform_send sent is_set t s =
    let stored = transform_to_stored t in
    let (s', undo) = if is_set then apply_transform stored s else remove_transform (key stored) s in
    if sent
    then (s', ok tt)
    else (restore_transform undo s', err TransformError.transform_send_failed)

unfoldable pub transform :
    Bool → Transform → DesiredState → DesiredState × Result TransformError (Unit {0})
transform sent t s = elim (validate_transform t) [
  | err e ↦ (s, err e)
  | ok _ ↦
      if negate (holds_transform (key (transform_to_stored t)) s)
        && leb transform_max_entries (transform_count s)
      then (s, err (TransformError.transform_table_full transform_max_entries))
      else transform_send sent true t s
]

unfoldable pub untransform :
    Bool → Transform → DesiredState → DesiredState × Result TransformError (Unit {0})
untransform sent t s = transform_send sent false t s

unfoldable pub apply_transforms : List StoredTransform → DesiredState → DesiredState
apply_transforms [] s = s
apply_transforms (t ∷ entries) s = apply_transforms entries (apply_transform t s).0

unfoldable pub clear_transforms_call :
    Bool → DesiredState → DesiredState × Result TransformError (Unit {0})
clear_transforms_call sent s =
    let s' = clear_transforms s in
    if sent
    then (s', ok tt)
    else (apply_transforms s.transforms s', err TransformError.transform_send_failed)
