-- ===== src/Device/Rewrite.antt =====
-- src/device/rewrite.rs: the rewrite calls, their checks and what they undo. Each call that changes the
-- table holds the re-assert guard throughout, so it is one step; whether its send succeeds is an
-- argument, and so is the answer of the imperfect-clone query (`none` where it fails).
pub mod Fits
pub mod Calls
mod Runs
use medius.Base.{
  ℕ, ◌+◌, ◌-◌, ◌*◌, if◌then◌else◌, ltb, leb, ◌==◌, Bool, true, false, negate, ◌&&◌, ◌||◌,
}
use medius.Base.{Option, none, some, List, [], ◌∷◌, length}
use medius.Base.{Result, ok, err}
use medius.Types.Direction.{Direction, dir_as_u8, is_relative}
use medius.Types.Rewrite.{
  RewriteClass, rewrite_class_u8, is_control, RewriteAction, rewrite_action_u8, is_valid_for,
  RewriteRule,
}
use medius.Protocol.Opcode.{max_payload}
use medius.Link.Reconcile.State.{DesiredState, StoredRewrite}
use medius.Link.Reconcile.Rewrites.{
  key, apply_rewrite, remove_rewrite, restore_rewrite, clear_rewrites, holds_rewrite, rewrite_count,
  rewrite_pool_used_except,
}

abbrev pub rewrite_match_max : ℕ
rewrite_match_max = 16

abbrev pub rewrite_max_entries : ℕ
rewrite_max_entries = 32

abbrev pub rewrite_payload_pool : ℕ
rewrite_payload_pool = 2048

pub data RewriteError : Type 0 where
  mask_length : ℕ → ℕ → RewriteError
  match_too_long : ℕ → ℕ → RewriteError
  relative_direction : Direction → RewriteError
  action_class : RewriteAction → RewriteClass → RewriteError
  -- The length, the offset and the cap.
  payload_too_large : ℕ → ℕ → ℕ → RewriteError
  imperfect_required : RewriteError
  query_failed : RewriteError
  -- The length, what is free and the limit.
  pool_full : ℕ → ℕ → ℕ → RewriteError
  table_full : ℕ → RewriteError
  send_failed : RewriteError

unfoldable pub rewrite_to_stored : RewriteRule → StoredRewrite
unfolding rewrite_class_u8 dir_as_u8 rewrite_action_u8
rewrite_to_stored r = record {
  class = rewrite_class_u8 r.class;
  id = r.id;
  direction = dir_as_u8 r.direction;
  action = rewrite_action_u8 r.action;
  offset = r.offset;
  match_bytes = r.match_bytes;
  mask = r.mask;
  payload = r.payload;
}

-- The box's head caps.
abbrev pub report_cap : RewriteClass → ℕ
report_cap class = if is_control class then 8 + 2048 else 64

-- Whether a rule's payload passes the cap of its action, and that cap.
unfoldable pub over_cap : RewriteAction → RewriteClass → ℕ → ℕ → Bool × ℕ
unfolding is_control
over_cap RewriteAction.patch class off plen =
    (ltb (report_cap class) (off + plen), report_cap class)
over_cap RewriteAction.reply_patch class off plen =
    (ltb (report_cap class) (off + plen), report_cap class)
over_cap RewriteAction.replace class off plen = (ltb (report_cap class) plen, report_cap class)
over_cap RewriteAction.answer class off plen = (ltb (8 + 2048) plen, 8 + 2048)
over_cap RewriteAction.reply_replace class off plen = (ltb (8 + 2048) plen, 8 + 2048)
over_cap _ class off plen = (false, 0)

-- The payload that the read-back of a rule has room for.
abbrev pub room : RewriteRule → ℕ
room r = max_payload - 11 - 2 * length r.match_bytes

unfoldable pub validate_rule : RewriteRule → Result RewriteError (Unit {0})
unfolding is_relative is_valid_for over_cap
validate_rule r =
    let (over, cap) = over_cap r.action r.class r.offset (length r.payload) in
    if negate (length r.match_bytes == length r.mask)
    then err (RewriteError.mask_length (length r.match_bytes) (length r.mask))
    else if ltb rewrite_match_max (length r.match_bytes)
    then err (RewriteError.match_too_long (length r.match_bytes) rewrite_match_max)
    else if is_relative r.direction
    then err (RewriteError.relative_direction r.direction)
    else if negate (is_valid_for r.action r.class)
    then err (RewriteError.action_class r.action r.class)
    else if ltb (room r) (length r.payload)
    then err (RewriteError.payload_too_large (length r.payload) r.offset (room r))
    else if over
    then err (RewriteError.payload_too_large (length r.payload) r.offset cap)
    else ok tt

unfoldable pub set_rewrite_send :
    Bool → RewriteRule → DesiredState → DesiredState × Result RewriteError (Unit {0})
set_rewrite_send sent r s =
    let (s', undo) = apply_rewrite (rewrite_to_stored r) s in
    if sent then (s', ok tt) else (restore_rewrite undo s', err RewriteError.send_failed)

unfoldable pub set_rewrite_checked :
    Bool → RewriteRule → DesiredState → DesiredState × Result RewriteError (Unit {0})
set_rewrite_checked sent r s =
    let k = key (rewrite_to_stored r) in
    let free = rewrite_payload_pool - rewrite_pool_used_except k s in
    if ltb free (length r.payload)
    then (s, err (RewriteError.pool_full (length r.payload) free rewrite_payload_pool))
    else if negate (holds_rewrite k s) && leb rewrite_max_entries (rewrite_count s)
    then (s, err (RewriteError.table_full rewrite_max_entries))
    else set_rewrite_send sent r s

-- Device::require_imperfect over the answer of its query.
unfoldable pub require_imperfect : Option Bool → Result RewriteError (Unit {0})
require_imperfect none = err RewriteError.query_failed
require_imperfect (some true) = ok tt
require_imperfect (some false) = err RewriteError.imperfect_required

unfoldable pub set_rewrite :
    Option Bool → Bool → RewriteRule → DesiredState → DesiredState × Result RewriteError (Unit {0})
set_rewrite imperfect sent r s = elim (validate_rule r) [
  | err e ↦ (s, err e)
  | ok _ ↦ elim (require_imperfect imperfect) [
    | err e ↦ (s, err e)
    | ok _ ↦ set_rewrite_checked sent r s
  ]
]

-- Device::remove_rewrite
unfoldable pub remove_rewrite_call :
    Bool → RewriteRule → DesiredState → DesiredState × Result RewriteError (Unit {0})
remove_rewrite_call sent r s =
    let (s', undo) = remove_rewrite (key (rewrite_to_stored r)) s in
    if negate (length r.match_bytes == length r.mask)
    then (s, err (RewriteError.mask_length (length r.match_bytes) (length r.mask)))
    else if sent
    then (s', ok tt)
    else (restore_rewrite undo s', err RewriteError.send_failed)

unfoldable pub apply_each : List StoredRewrite → DesiredState → DesiredState
apply_each [] s = s
apply_each (r ∷ rules) s = apply_each rules (apply_rewrite r s).0

unfoldable pub clear_rewrite : Bool → DesiredState → DesiredState × Result RewriteError (Unit {0})
clear_rewrite sent s =
    let s' = clear_rewrites s in
    if sent then (s', ok tt) else (apply_each s.rewrites s', err RewriteError.send_failed)
