-- ===== src/Device/Lock.antt =====
-- src/device/lock.rs: the lock calls, their checks and what they undo. Each send holds the re-assert
-- guard throughout, so it is one step; whether it succeeds is an argument.
pub mod Calls
use medius.Base.{ℕ, if◌then◌else◌, ◌==◌, Bool, true, false, negate, ◌&&◌, ◌||◌, Result, ok, err}
use medius.Base.Int.{ℤ, pos, negsuc, ltb_ℤ, leb_ℤ}
use medius.Types.Direction.{Direction, dir_as_u8, is_relative}
use medius.Types.Clip.{Blanket}
use medius.Link.Reconcile.State.{DesiredState}
use medius.Link.Reconcile.Locks.Ops.{
  lock_cls_axis, lock_cls_btn, lock_cls_media, lock_id_all, apply_lock, restore_lock,
}

abbrev pub lock_scale_max : ℤ
lock_scale_max = pos 255

abbrev pub lock_scale_min : ℤ
lock_scale_min = negsuc 254

pub data LockError : Type 0 where
  scale_range : ℤ → LockError
  scale_usage : ℤ → ℕ → LockError
  lock_direction_relative : Direction → LockError
  lock_send_failed : LockError

-- Only an axis has a bearing, and a media usage has no direction.
unfoldable pub lock_direction : ℕ → Direction → Result LockError Direction
unfolding is_relative
lock_direction class direction =
    if class == lock_cls_axis
    then ok direction
    else if is_relative direction
    then err (LockError.lock_direction_relative direction)
    else ok (if class == lock_cls_media then Direction.both else direction)

unfoldable pub send_lock :
    Bool → ℕ → ℕ → Direction → ℤ → DesiredState → DesiredState × Result LockError (Unit {0})
unfolding lock_direction dir_as_u8
send_lock sent class id direction scale s =
    if negate (leb_ℤ lock_scale_min scale && leb_ℤ scale lock_scale_max)
    then (s, err (LockError.scale_range scale))
    else if ltb_ℤ scale (pos 0) && negate (class == lock_cls_axis)
    then (s, err (LockError.scale_usage scale class))
    else elim (lock_direction class direction) [
      | err e ↦ (s, err e)
      | ok dir ↦
          let (s', undo) = apply_lock (class, (id, dir_as_u8 dir)) scale s in
          if sent then (s', ok tt) else (restore_lock undo s', err LockError.lock_send_failed)
    ]

abbrev pub lock_cls_key : ℕ
lock_cls_key = 1

-- Device::blanket; of the two sends for the aim, the second is made if the first succeeds.
unfoldable pub blanket :
    Bool
    → Bool
    → Blanket
    → Direction
    → ℤ
    → DesiredState
    → DesiredState × Result LockError (Unit {0})
blanket sent sent_y Blanket.aim direction scale s =
    let (s1, first) = send_lock sent lock_cls_axis 0 direction scale s in
    elim first [ err e ↦ (s1, err e) | ok _ ↦ send_lock sent_y lock_cls_axis 1 direction scale s1 ]
blanket sent sent_y Blanket.wheel direction scale s =
    send_lock sent lock_cls_axis 2 direction scale s
blanket sent sent_y Blanket.buttons direction scale s =
    send_lock sent lock_cls_btn lock_id_all direction scale s
blanket sent sent_y Blanket.keys direction scale s =
    send_lock sent lock_cls_key lock_id_all direction scale s
blanket sent sent_y Blanket.media direction scale s =
    send_lock sent lock_cls_media lock_id_all direction scale s
