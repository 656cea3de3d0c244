-- ===== src/Link/Reconcile/Runs.antt =====
-- Runs of the models of src/link/reconcile.rs on small states.
use medius.Base.{ℕ, ◌≡◌, ◌≤◌, ◌<◌, ◌^◌, refl, arith, true, none, some, [], ◌∷◌}
use medius.Base.{length}
use medius.Base.Int.{pos}
use medius.Base.Map.{IsSorted, lookup, contains_key, insert, remove}
use medius.Base.Keys.{nat_key, pair_key}
use medius.Types.Direction.{lock_dir_both, lock_dir_against, lock_dir_with}
use medius.Types.Clip.{ClipStatus, ClipState}
use medius.Link.Reconcile.State.{DesiredState, Override, StoredRewrite, default_state, default_clip}
use medius.Link.Reconcile.Slots.{
  Slots, default, write, is_clear, commands, replay, lock_scale_pass, replay-commands,
  commands_not_fewest,
}
use medius.Link.Reconcile.Locks.Ops.{
  lock_cls_btn, lock_cls_media, lock_id_all, is_media_slot, button_count, apply_lock, restore_lock,
}
use medius.Link.Reconcile.Locks.Undo.{restore_lock-apply_lock}
use medius.Link.Reconcile.Locks.Rows.{
  IsValid, IsNodup, HasNoClearRow, ListsMedia, apply_lock-IsValid,
}
use medius.Link.Reconcile.Locks.Blanket.{row_after, lookup-apply_lock}
use medius.Link.Reconcile.Locks.Held.{held_locks, writes_to}
use medius.Link.Reconcile.Locks.Replay.{
  source_row, BlanketIsAlone, replay-held_locks, apply_lock-BlanketIsAlone,
}
use medius.Link.Reconcile.Rewrites
use medius.Link.Reconcile.Rewrites.{
  HasUniqueRules, apply_rewrite, remove_rewrite, restore_rewrite, restore_rewrite-apply_rewrite,
}
use medius.Link.Reconcile.Clip.{clip_loaded, clip_ring_gen, clip_note_ring}
use medius.Link.Reconcile.Clip.Ring.{clip_note_ring-clip_loaded}
use medius.Link.Reconcile.Session.{held, is_idle}
use medius.Link.Reconcile.Session.Held.{apply_all, apply_all-held}

abbrev blocked : Slots
blocked = record { p = pos 0; n = pos 0; w = lock_scale_pass; a = lock_scale_pass }

-- The button blanket and one media usage are blocked, on a mouse of eight buttons.
abbrev blanketed : DesiredState
blanketed = record default_state {
  locks = ((lock_cls_btn, lock_id_all), blocked) ∷ ((lock_cls_media, 0xE9), blocked) ∷ [];
  media_order = 0xE9 ∷ [];
  declared_buttons = some 8;
}

blanketed-IsSorted : IsSorted blanketed.locks
blanketed-IsSorted = ((refl, tt), (tt, tt))

blanketed_few : button_count blanketed ≤ lock_id_all
unfolding button_count
blanketed_few = omega arith

-- Releasing one button leaves the other seven and the media usage held.
release_one :
    length (held_locks (apply_lock (lock_cls_btn, (2, lock_dir_both)) lock_scale_pass blanketed).0)
    ≡ 8
unfolding held_locks apply_lock contains_key is_clear write remove lookup insert commands
release_one = refl

restore_lock-apply_lock_example :
    restore_lock
      (apply_lock (lock_cls_btn, (2, lock_dir_both)) lock_scale_pass blanketed).1
      (apply_lock (lock_cls_btn, (2, lock_dir_both)) lock_scale_pass blanketed).0
    ≡ blanketed
restore_lock-apply_lock_example =
    restore_lock-apply_lock (lock_cls_btn, (2, lock_dir_both)) lock_scale_pass blanketed
      blanketed-IsSorted blanketed_few

blanketed-HasNoClearRow : HasNoClearRow blanketed.locks
unfolding lookup is_clear
blanketed-HasNoClearRow k r h = ground (arith, h)

blanketed-ListsMedia : ListsMedia blanketed.locks blanketed.media_order
unfolding contains_key is_media_slot
blanketed-ListsMedia id = ground arith

blanketed-IsValid : IsValid blanketed
unfolding IsNodup
blanketed-IsValid =
    (blanketed-IsSorted, (blanketed-HasNoClearRow, (blanketed-ListsMedia, (refl, tt))))

apply_lock-IsValid_example :
    IsValid (apply_lock (lock_cls_btn, (2, lock_dir_both)) lock_scale_pass blanketed).0
apply_lock-IsValid_example =
    apply_lock-IsValid (lock_cls_btn, (2, lock_dir_both)) lock_scale_pass blanketed
      blanketed-IsValid

lookup-apply_lock_example :
    lookup
      (lock_cls_btn, 3)
      (apply_lock (lock_cls_btn, (2, lock_dir_both)) lock_scale_pass blanketed).0.locks
    ≡ row_after (lock_cls_btn, (2, lock_dir_both)) lock_scale_pass blanketed (lock_cls_btn, 3)
lookup-apply_lock_example =
    lookup-apply_lock (lock_cls_btn, (2, lock_dir_both)) lock_scale_pass blanketed (lock_cls_btn, 3)

-- The row is the blanket's.
row_after_blanket :
    row_after (lock_cls_btn, (2, lock_dir_both)) lock_scale_pass blanketed (lock_cls_btn, 3)
    ≡ some blocked
unfolding lookup button_count
row_after_blanket = refl

blanketed-BlanketIsAlone : BlanketIsAlone blanketed
unfolding lookup
blanketed-BlanketIsAlone h i other = ground (arith, other)

replay-held_locks_example :
    replay default (writes_to (lock_cls_btn, 3) (held_locks blanketed))
    ≡ elim (lookup (source_row blanketed (lock_cls_btn, 3)) blanketed.locks) as (λ o. Slots) [
      | none ↦ default
      | some r ↦ r
    ]
replay-held_locks_example =
    replay-held_locks blanketed lock_cls_btn 3 blanketed-IsSorted blanketed-BlanketIsAlone
      blanketed_few refl

apply_lock-BlanketIsAlone_example :
    BlanketIsAlone (apply_lock (lock_cls_btn, (2, lock_dir_both)) lock_scale_pass blanketed).0
apply_lock-BlanketIsAlone_example =
    apply_lock-BlanketIsAlone (lock_cls_btn, (2, lock_dir_both)) lock_scale_pass blanketed
      blanketed-BlanketIsAlone

replay-commands_example : replay default (commands blocked) ≡ blocked
replay-commands_example = replay-commands blocked

commands_not_fewest_example :
    (length (commands (record { p = pos 50; n = pos 50; w = pos 0; a = lock_scale_pass })) ≡ 3)
    × (replay default ((lock_dir_both, pos 50) ∷ (lock_dir_with, pos 0) ∷ [])
        ≡ (record { p = pos 50; n = pos 50; w = pos 0; a = lock_scale_pass }))
    × (length (commands (record { p = pos 50; n = pos 50; w = lock_scale_pass; a = pos 0 })) ≡ 3)
    × (replay default ((lock_dir_both, pos 50) ∷ (lock_dir_against, pos 0) ∷ [])
        ≡ (record { p = pos 50; n = pos 50; w = lock_scale_pass; a = pos 0 }))
commands_not_fewest_example =
    commands_not_fewest (pos 50) (pos 0) (λ h. ground (arith, h)) (λ h. ground (arith, h))

abbrev rule_on : ℕ → ℕ → StoredRewrite
rule_on id action = record {
  class = 4;
  id = id;
  direction = 1;
  action = action;
  offset = 0;
  match_bytes = 7 ∷ [];
  mask = 255 ∷ [];
  payload = 1 ∷ 2 ∷ [];
}

abbrev two_rules : DesiredState
two_rules = record default_state { rewrites = rule_on 1 0 ∷ rule_on 2 0 ∷ [] }

two_rules-HasUniqueRules : HasUniqueRules two_rules
unfolding Rewrites.key Rewrites.key_eq
two_rules-HasUniqueRules = (refl, (refl, tt))

restore_rewrite-apply_rewrite_example :
    restore_rewrite
      (apply_rewrite (rule_on 1 3) two_rules).1
      (apply_rewrite (rule_on 1 3) two_rules).0
    ≡ two_rules
restore_rewrite-apply_rewrite_example =
    restore_rewrite-apply_rewrite (rule_on 1 3) two_rules two_rules-HasUniqueRules

-- An idle engine over an empty ring.
abbrev drained : ClipStatus
drained = record {
  state = ClipState.idle;
  free = 4096;
  total = 0;
  played = 0;
  ticks = 12;
  underruns = 0;
  overruns = 0;
  seq_gaps = 0;
  xfers = 0;
  xfer_errs = 0;
  gated = 0;
  held = [];
}

abbrev clip_held : DesiredState
clip_held = record default_state {
  clip = record default_clip { loaded = true; ring = true; ring_gen = 1 };
}

clip_held_gen : clip_ring_gen clip_held < 2 ^ 64
unfolding clip_ring_gen
clip_held_gen = omega arith

clip_note_ring-clip_loaded_example :
    clip_note_ring (clip_ring_gen clip_held) drained true (clip_loaded true clip_held)
    ≡ clip_loaded true clip_held
clip_note_ring-clip_loaded_example =
    clip_note_ring-clip_loaded true true drained clip_held clip_held_gen

abbrev pressed : DesiredState
pressed = record default_state {
  overrides = ((0, 1), Override.press) ∷ ((1, 4), Override.force) ∷ [];
}

apply_all-held_example : (apply_all (held pressed) default_state).overrides ≡ pressed.overrides
apply_all-held_example =
    apply_all-held pressed ((refl, tt), (tt, tt))
      ((omega arith, λ h. ground (arith, h)), ((omega arith, λ h. ground (arith, h)), tt))

default_idle : is_idle default_state ≡ true
unfolding is_idle
default_idle = refl
