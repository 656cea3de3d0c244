-- ===== src/Link/Reconcile/Session.antt =====
-- The whole of src/link/reconcile.rs's DesiredState: the overrides, what a reset drops, and when
-- nothing is left for the keepalive.
pub mod Held
pub mod Idle
use medius.Base.{
  ℕ, ◌≡◌, ◌≢◌, ◌↔◌, refl, sym, ap, ◌∙◌, arith, Bool, true, false, ◌&&◌, negate, length,
}
use medius.Base.{if◌then◌else◌, ◌==◌, Option, none, some, List, [], ◌∷◌, ◌++◌, get_elem?}
use medius.Base.{Bool-cases, Option-cases, ◌⊎◌, inl, inr}
use medius.Base.Map.{
  Map, Key, key_eq, lookup, insert, remove, IsSorted, lookup-insert, lookup-remove, insert-IsSorted,
  remove-IsSorted,
}
use medius.Base.Keys.{nat_key, pair_key}
use medius.Base.Keyed.{bytes_eq, bytes_eq_iff}
use medius.Types.Usage.{Class, Usage, class_from_u8, class_id}
use medius.Types.Usage.{Action}
use medius.Link.Reconcile.State.{DesiredState, Override, FilterSet, default_state, default_clip}
use medius.Link.Reconcile.Clip.{clip_config_frames}
use medius.Link.Reconcile.Locks.Held.{held_locks}

unfoldable pub as_action : Override → Option Action
as_action Override.nothing = none
as_action Override.press = some Action.press
as_action Override.force = some Action.force_release

unfoldable pub applied : Action → Override
applied Action.press = Override.press
applied Action.force_release = Override.force
applied Action.soft_release = Override.nothing

unfoldable pub apply : Usage → Action → DesiredState → DesiredState
unfolding class_id applied
apply usage action s = elim (applied action) [
  | Override.nothing ↦ record s { overrides = remove (class_id usage) s.overrides }
  | ov ↦ record s { overrides = insert (class_id usage) ov s.overrides }
]

-- `filter_map` with the two `?` of its closure.
unfoldable pub held_entries : Map (ℕ × ℕ) Override → List (Usage × Action)
unfolding as_action class_from_u8
held_entries [] = []
held_entries (((cls, id), ov) ∷ m) =
    let rest = held_entries m in
    elim (as_action ov) [
      | none ↦ rest
      | some action ↦ elim (class_from_u8 cls) [
        | none ↦ rest
        | some class ↦ (record { class = class; id = id }, action) ∷ rest
      ]
    ]

unfoldable pub held : DesiredState → List (Usage × Action)
unfolding held_entries
held s = held_entries s.overrides

unfoldable pub set_catch : FilterSet → DesiredState → DesiredState
set_catch filters s = record s { catch = filters }

unfoldable pub clear : DesiredState → DesiredState
clear s = record s {
  overrides = [];
  locks = [];
  media_order = [];
  rewrites = [];
  transforms = [];
  clip = default_clip;
}

abbrev pub is_empty : {A : Type 0} → List A → Bool
is_empty [] = true
is_empty (x ∷ xs) = false

unfoldable pub is_idle : DesiredState → Bool
is_idle s =
    is_empty s.catch
    && (is_empty s.overrides
        && (is_empty s.locks
            && (is_empty s.rewrites
                && (is_empty s.transforms
                    && (negate s.clip.loaded
                        && (bytes_eq s.clip.settings (0 ∷ 0 ∷ 0 ∷ 0 ∷ [])
                            && (is_empty s.clip.triggers && is_empty s.clip.packet_triggers)))))))
