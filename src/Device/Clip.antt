-- ===== src/Device/Clip.antt =====
-- src/device/clip.rs: the checks of a packet trigger, and the calls that change the clip's settings
-- and triggers. Each call holds the re-assert guard throughout, so it is one step; whether its send
-- succeeds is an argument. Beside the new state a call gives the frame that it sends, if it comes to
-- that.
pub mod Packets
pub mod Calls
pub mod Encode
pub mod Lengths
pub mod Chunks
pub mod Append
mod Runs
use medius.Base.{
  ℕ, ◌+◌, ◌-◌, Bool, true, false, ◌&&◌, ◌||◌, negate, if◌then◌else◌, ltb, leb, ◌==◌, bit_and,
}
use medius.Base.{Option, none, some, List, [], ◌∷◌, length, drop, any, Result, ok, err}
use medius.Types.Direction.{Direction, dir_as_u8, is_relative, dir_eq, lock_dir_both}
use medius.Types.Usage.{Usage, class_id}
use medius.Types.Clip.{
  Blanket, blanket_scope, Edge, edge_u8, ClipTrigger, TrafficClass, traffic_u8, ClipPacketTrigger,
}
use medius.Types.Clip.Reply.{is_surface, class_carries, pkt_match_max}
use medius.Protocol.Opcode.{FrameType}
use medius.Protocol.Command.{
  clip_op_payload, clip_set_payload, clip_trigger_payload, clip_packet_trigger_payload,
}
use medius.Link.Reconcile.State.{DesiredState}
use medius.Link.Reconcile.Clip.{
  clip_packet_key, clip_setting, clip_bind, clip_unbind, clip_packet_bind, clip_packet_unbind,
  clip_triggers_clear, clip_loaded, bind_payload, bind_packet_payload, bool_u8,
}

-- The refusals, named after their messages.
pub data ClipError : Type 0 where
  not_a_surface unequal_lengths match_too_long never_carried outside_mask : ClipError
  relative_packet : Direction → ClipError
  consumes_control selector_without_run not_one_stream no_condition no_masked_bit : ClipError
  clip_send_failed : ClipError

-- `m & !k != 0` for some match byte and its mask.
unfoldable pub has_bit_outside : List ℕ → List ℕ → Bool
has_bit_outside (m ∷ ms) (k ∷ ks) = negate (bit_and m (255 - k) == 0) || has_bit_outside ms ks
has_bit_outside _ _ = false

unfoldable pub validate_packet_key : ClipPacketTrigger → Result ClipError (Unit {0})
unfolding is_surface is_relative dir_eq class_carries has_bit_outside
validate_packet_key t =
    if negate (is_surface t.class)
    then err ClipError.not_a_surface
    else if is_relative t.direction
    then err (ClipError.relative_packet t.direction)
    else if negate (length t.match_bytes == length t.mask)
    then err ClipError.unequal_lengths
    else if ltb pkt_match_max (length t.match_bytes)
    then err ClipError.match_too_long
    else if negate (dir_eq t.direction Direction.both) && negate (class_carries t.class t.direction)
    then err ClipError.never_carried
    else if has_bit_outside t.match_bytes t.mask
    then err ClipError.outside_mask
    else ok tt

unfoldable pub is_control_class : TrafficClass → Bool
is_control_class TrafficClass.control = true
is_control_class _ = false

abbrev pub any_id : ℕ
any_id = 0xFFFF

unfoldable pub is_one_stream : ClipPacketTrigger → Bool
unfolding is_control_class dir_eq
is_one_stream t =
    negate (is_control_class t.class)
    && (negate (t.id == any_id) && negate (dir_eq t.direction Direction.both))

-- The checks of a run.
unfoldable pub validate_run : ClipPacketTrigger → Result ClipError (Unit {0})
unfolding is_one_stream
validate_run t =
    if negate (is_one_stream t)
    then err ClipError.not_one_stream
    else if leb (length t.match_bytes) t.selector_len
    then err ClipError.no_condition
    else if negate (any (λ k. negate (k == 0)) (drop t.selector_len t.mask))
    then err ClipError.no_masked_bit
    else ok tt

unfoldable pub validate_packet_trigger : ClipPacketTrigger → Result ClipError (Unit {0})
unfolding validate_packet_key is_control_class validate_run
validate_packet_trigger t = elim (validate_packet_key t) [
  | err e ↦ err e
  | ok _ ↦
      if t.consume && is_control_class t.class
      then err ClipError.consumes_control
      else if negate t.once_per_run
      then if t.selector_len == 0 then ok tt else err ClipError.selector_without_run
      else validate_run t
]

abbrev pub Frame : Type 0
Frame = FrameType × List ℕ

abbrev pub Outcome : Type 0
Outcome = DesiredState × Option Frame × Result ClipError (Unit {0})

-- A change is recorded once its frame is sent.
abbrev pub send_then : Bool → Frame → (DesiredState → DesiredState) → DesiredState → Outcome
send_then sent frame record_it s =
    if sent
    then (record_it s, some frame, ok tt)
    else (s, some frame, err ClipError.clip_send_failed)

-- ClipHandle::set
unfoldable pub set_value : Bool → ℕ → ℕ → DesiredState → Outcome
set_value sent id value s =
    send_then sent (FrameType.clip_set, clip_set_payload id value) (clip_setting id value) s

unfoldable pub set_autolock : Bool → List Blanket → DesiredState → Outcome
unfolding set_value blanket_scope
set_autolock sent scope s = set_value sent 0 (blanket_scope scope) s

unfoldable pub set_loop : Bool → Bool → DesiredState → Outcome
unfolding set_value
set_loop sent on s = set_value sent 1 (bool_u8 on) s

unfoldable pub set_retain : Bool → Bool → DesiredState → Outcome
unfolding set_value
set_retain sent on s = set_value sent 2 (bool_u8 on) s

unfoldable pub set_ride : Bool → Bool → DesiredState → Outcome
unfolding set_value
set_ride sent on s = set_value sent 3 (bool_u8 on) s

unfoldable pub bind : Bool → ClipTrigger → DesiredState → Outcome
bind sent t s = send_then sent (FrameType.clip_trigger, bind_payload t) (clip_bind t) s

unfoldable pub unbind : Bool → Usage → Edge → DesiredState → Outcome
unfolding class_id edge_u8
unbind sent u e s =
    let (class, id) = class_id u in
    send_then sent (FrameType.clip_trigger, clip_trigger_payload class id (edge_u8 e) 0 0)
      (clip_unbind (class, (id, edge_u8 e))) s

unfoldable pub bind_packet : Bool → ClipPacketTrigger → DesiredState → Outcome
unfolding validate_packet_trigger
bind_packet sent t s = elim (validate_packet_trigger t) [
  | err e ↦ (s, none, err e)
  | ok _ ↦ send_then sent (FrameType.clip_trigger, bind_packet_payload t) (clip_packet_bind t) s
]

unfoldable pub unbind_packet : Bool → ClipPacketTrigger → DesiredState → Outcome
unfolding validate_packet_key traffic_u8 dir_as_u8
unbind_packet sent t s = elim (validate_packet_key t) [
  | err e ↦ (s, none, err e)
  | ok _ ↦
      send_then sent
        (
          FrameType.clip_trigger,
          clip_packet_trigger_payload (traffic_u8 t.class) t.id (dir_as_u8 t.direction) 0 0 0
              t.match_bytes t.mask,
        )
        (clip_packet_unbind (clip_packet_key t)) s
]

abbrev pub clip_cond_any_class : ℕ
clip_cond_any_class = 0xFF

abbrev pub clip_cond_any_id : ℕ
clip_cond_any_id = 0xFFFF

unfoldable pub clear_triggers : Bool → DesiredState → Outcome
clear_triggers sent s =
    send_then sent
      (
        FrameType.clip_trigger,
        clip_trigger_payload clip_cond_any_class clip_cond_any_id lock_dir_both 0 0,
      )
      clip_triggers_clear s

abbrev pub clip_op_clear : ℕ
clip_op_clear = 6

-- ClipHandle::clear
unfoldable pub clear_clip : Bool → DesiredState → Outcome
unfolding clip_op_payload
clear_clip sent s =
    send_then sent (FrameType.clip_ctrl, clip_op_payload clip_op_clear) (clip_loaded false) s
