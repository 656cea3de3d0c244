-- ===== src/Device/Lock/Calls.antt =====
-- The calls of src/device/lock.rs that fail.
use medius.Base.{ℕ, ◌≤◌, ◌≡◌, ◌⊎◌, inl, inr, refl, Bool, negate, ◌&&◌, ◌==◌}
use medius.Base.{Bool-cases, ok, err, Result}
use medius.Base.Int.{ℤ, pos, ltb_ℤ, leb_ℤ}
use medius.Base.Map.{IsSorted}
use medius.Base.{if◌then◌else◌}
use medius.Base.Keys.{nat_key, pair_key}
use medius.Types.Direction.{Direction, dir_as_u8}
use medius.Link.Reconcile.State.{DesiredState}
use medius.Link.Reconcile.Locks.Ops.{lock_cls_axis, lock_id_all, button_count}
use medius.Types.Clip.{Blanket}
use medius.Link.Reconcile.Locks.Undo.{restore_lock-apply_lock}
use medius.Device.Lock.{
  blanket, LockError, lock_scale_min, lock_scale_max, lock_direction, send_lock,
}

direction_cases :
    (m : Result LockError Direction)
    → ((d : Direction) × (m ≡ ok d)) ⊎ ((e : LockError) × (m ≡ err e))
direction_cases (ok d) = inl (d, refl)
direction_cases (err e) = inr (e, refl)

module _ (s : DesiredState) (sorted : IsSorted s.locks) (few : button_count s ≤ lock_id_all) where
  -- One write, of any call, succeeds or leaves the whole state as it was.
  pub send_lock-undone :
      (sent : Bool) (class id : ℕ) (direction : Direction) (scale : ℤ)
      → ((send_lock sent class id direction scale s).1 ≡ ok tt)
        ⊎ ((send_lock sent class id direction scale s).0 ≡ s)
  unfolding send_lock
  send_lock-undone sent class id direction scale =
      elim (Bool-cases (negate (leb_ℤ lock_scale_min scale && leb_ℤ scale lock_scale_max))) [
        | inl out ↦ rw (send_lock, out) (inr refl)
        | inr within ↦ elim (Bool-cases (ltb_ℤ scale (pos 0) && negate (class == lock_cls_axis))) [
          | inl reversed ↦ rw (send_lock, within, reversed) (inr refl)
          | inr fits ↦ elim (direction_cases (lock_direction class direction)) [
            | inr (e, h) ↦ rw (send_lock, within, fits, h) (inr refl)
            | inl (dir, h) ↦ elim (Bool-cases sent) [
              | inl went ↦ rw (send_lock, within, fits, h, went) (inl refl)
              | inr failed ↦
                  rw (send_lock, within, fits, h, failed)
                    (inr (restore_lock-apply_lock (class, (id, dir_as_u8 dir)) scale s sorted few))
            ]
          ]
        ]
      ]

-- A call on one class and id, or on a group.
pub data LockCall : Type 0 where
  one : ℕ → ℕ → LockCall
  group : Blanket → LockCall

-- Whether the first send succeeds, and for the aim the second.
unfoldable pub run_lock :
    Bool
    → Bool
    → LockCall
    → Direction
    → ℤ
    → DesiredState
    → DesiredState × Result LockError (Unit {0})
run_lock sent sent_y (LockCall.one class id) direction scale s =
    send_lock sent class id direction scale s
run_lock sent sent_y (LockCall.group what) direction scale s =
    blanket sent sent_y what direction scale s

-- The aim's write to X succeeded and is all that changed.
abbrev pub KeepsX : Bool → LockCall → Direction → ℤ → DesiredState → DesiredState → Type 0
KeepsX sent c direction scale s s' =
    (c ≡ LockCall.group Blanket.aim)
    × ((send_lock sent lock_cls_axis 0 direction scale s).1 ≡ ok tt)
    × (s' ≡ (send_lock sent lock_cls_axis 0 direction scale s).0)

-- What a call that succeeds leaves is the state with its write.
abbrev tested :
    Bool
    → Bool
    → Bool
    → DesiredState
    → DesiredState
    → DesiredState
    → LockError
    → LockError
    → DesiredState × Result LockError (Unit {0})
tested out back sent s t u x y =
    if out
    then (s, err x)
    else if back
    then (s, err y)
    else if sent
    then (t, ok tt)
    else (u, err LockError.lock_send_failed)
