-- ===== src/Device/Runs.antt =====
-- Runs of the lock and transform calls of src/device.
use medius.Base.{◌≡◌, ◌⊎◌, refl, true, false, List, [], ◌∷◌, ok, err}
use medius.Base.Int.{pos, negsuc}
use medius.Base.Keys.{nat_key, pair_key}
use medius.Types.Direction.{Direction}
use medius.Types.Usage.{Axis, Class}
use medius.Types.Lock.{LockTarget, LockScope, LockEntry, is_locked}
use medius.Types.Lock.Scale.{blocked, is_locked_lem}
use medius.Types.Transform.{Transform, TransformOp}
use medius.Link.Reconcile.State.{DesiredState, default_state}
use medius.Link.Reconcile.Slots.{lock_scale_pass}
use medius.Link.Reconcile.Locks.Ops.{lock_cls_btn, lock_cls_axis}
use medius.Device.Lock.{LockError, send_lock}
use medius.Types.Clip.{Blanket}
use medius.Device.Lock.{blanket}
use medius.Device.Lock.Calls.{LockCall, run_lock}
use medius.Device.Transform.{transform_to_stored}
use medius.Device.Transform.Calls.{TransformCall, run_transform, run_transform-undone}

-- The wheel is blocked downwards.
abbrev wheel_held : DesiredState
wheel_held = record default_state {
  locks =
      (
        (lock_cls_axis, 2),
        record { p = lock_scale_pass; n = pos 0; w = lock_scale_pass; a = lock_scale_pass },
      )
      ∷ [];
}

aim_fails :
    (run_lock true false (LockCall.group Blanket.aim) Direction.both (pos 0) wheel_held).1
    ≡ err LockError.lock_send_failed
unfolding run_lock blanket send_lock
aim_fails = refl

button_cannot_reverse :
    (send_lock true lock_cls_btn 1 Direction.both (negsuc 99) wheel_held).1
    ≡ err (LockError.scale_usage (negsuc 99) lock_cls_btn)
unfolding send_lock
button_cannot_reverse = refl

abbrev axes_swapped : Transform
axes_swapped = record {
  op = TransformOp.swap;
  source = LockTarget.axis Axis.x;
  dest = LockTarget.axis Axis.y;
}

abbrev wheel_to_pan : Transform
wheel_to_pan = record {
  op = TransformOp.remap;
  source = LockTarget.axis Axis.wheel;
  dest = LockTarget.axis Axis.pan;
}

abbrev one_swap : DesiredState
one_swap = record default_state { transforms = transform_to_stored axes_swapped ∷ [] }

run_transform-undone_example :
    ((run_transform (TransformCall.put false wheel_to_pan) one_swap).1 ≡ ok tt)
    ⊎ ((run_transform (TransformCall.put false wheel_to_pan) one_swap).0 ≡ one_swap)
run_transform-undone_example =
    run_transform-undone (TransformCall.put false wheel_to_pan) one_swap (refl, tt)

-- A blanket over the buttons, and half speed on one of them.
abbrev two_locks : List LockEntry
two_locks =
    record { scope = LockScope.blanket Class.button; direction = Direction.positive; scale = pos 0 }
    ∷ record {
      scope = LockScope.target (LockTarget.usage (record { class = Class.button; id = 3 }));
      direction = Direction.both;
      scale = pos 50;
    }
    ∷ []

abbrev button_3 : LockTarget
button_3 = LockTarget.usage (record { class = Class.button; id = 3 })

is_locked_lem_example :
    is_locked button_3 Direction.positive two_locks ≡ blocked button_3 Direction.positive two_locks
is_locked_lem_example = is_locked_lem button_3 Direction.positive two_locks

pressed_locked : is_locked button_3 Direction.positive two_locks ≡ true
unfolding is_locked
pressed_locked = refl
