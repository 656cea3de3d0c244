-- ===== src/Link/Reconcile/Session/Idle.antt =====
-- is_idle and clear of src/link/reconcile.rs.
use medius.Base.{◌≡◌, refl, ap, arith, true, false}
use medius.Base.{List, [], ◌∷◌}
use medius.Base.Keyed.{bytes_eq, bytes_eq_iff}
use medius.Link.Reconcile.State.{DesiredState}
use medius.Link.Reconcile.Clip.{clip_config_frames, setting_frames, trigger_frames, packet_frames}
use medius.Link.Reconcile.Locks.Held.{held_locks, sort_rows, flat_map_rows}
use medius.Link.Reconcile.Session.{held, held_entries, clear, is_idle, is_empty}

-- Nothing that a reconnect would send.
abbrev pub SendsNothing : DesiredState → Type 0
SendsNothing s =
    (held s ≡ [])
    × (held_locks s ≡ [])
    × (s.rewrites ≡ [])
    × (s.transforms ≡ [])
    × (clip_config_frames s ≡ [])
    × (s.catch ≡ [])

is_empty→≡ : {A : Type 0} (xs : List A) → is_empty xs ≡ true → xs ≡ []
is_empty→≡ [] h = refl
is_empty→≡ (x ∷ xs) h = absurd (ground (arith, h))

held_none : (s : DesiredState) → s.overrides ≡ [] → held s ≡ []
unfolding held held_entries
held_none s e = rw e refl

held_locks_none : (s : DesiredState) → s.locks ≡ [] → held_locks s ≡ []
unfolding held_locks sort_rows flat_map_rows
held_locks_none s e = rw (ap (sort_rows s) e) refl

config_none :
    (s : DesiredState)
    → s.clip.settings ≡ 0 ∷ 0 ∷ 0 ∷ 0 ∷ []
    → s.clip.triggers ≡ []
    → s.clip.packet_triggers ≡ []
    → clip_config_frames s ≡ []
unfolding clip_config_frames setting_frames trigger_frames packet_frames
config_none s e f g = rw (e, f, g) refl

-- An idle state has no override, lock command, rewrite, transform, clip configuration frame or
-- catch to send again, and no clip loaded.
pub is_idle-SendsNothing :
    (s : DesiredState) → is_idle s ≡ true → SendsNothing s × (s.clip.loaded ≡ false)
unfolding is_idle
is_idle-SendsNothing s h =
    let settings = bytes_eq_iff s.clip.settings (0 ∷ 0 ∷ 0 ∷ 0 ∷ []) in
    let e0 : is_empty s.overrides ≡ true = ground (arith, h) in
    let e1 : is_empty s.locks ≡ true = ground (arith, h) in
    let e2 : is_empty s.rewrites ≡ true = ground (arith, h) in
    let e3 : is_empty s.transforms ≡ true = ground (arith, h) in
    let e4 : is_empty s.clip.triggers ≡ true = ground (arith, h) in
    let e5 : is_empty s.clip.packet_triggers ≡ true = ground (arith, h) in
    let e6 : is_empty s.catch ≡ true = ground (arith, h) in
    let e7 : bytes_eq s.clip.settings (0 ∷ 0 ∷ 0 ∷ 0 ∷ []) ≡ true = ground (arith, h) in
    (
      (
        held_none s (is_empty→≡ s.overrides e0),
        held_locks_none s (is_empty→≡ s.locks e1),
        is_empty→≡ s.rewrites e2,
        is_empty→≡ s.transforms e3,
        config_none s (settings.0 e7) (is_empty→≡ s.clip.triggers e4)
            (is_empty→≡ s.clip.packet_triggers e5),
        is_empty→≡ s.catch e6,
      ),
      ground (arith, h),
    )

-- After a reset, the state is idle unless a catch is open.
pub is_idle-clear : (s : DesiredState) → is_idle (clear s) ≡ is_empty s.catch
unfolding is_idle clear
is_idle-clear s = ground arith
