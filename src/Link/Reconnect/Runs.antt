-- ===== src/Link/Reconnect/Runs.antt =====
-- Runs of the replay of src/link/reconnect.rs.
use medius.Base.{◌≡◌, refl, true, []}
use medius.Link.Reconcile.State.{default_state}
use medius.Link.Reconcile.Session.{is_idle}
use medius.Link.Reconnect.{reapply_locked, reapply_locked-is_idle}

default_state-is_idle : is_idle default_state ≡ true
unfolding is_idle
default_state-is_idle = refl

reapply_locked-is_idle_example : reapply_locked true default_state ≡ []
reapply_locked-is_idle_example = reapply_locked-is_idle true default_state default_state-is_idle
