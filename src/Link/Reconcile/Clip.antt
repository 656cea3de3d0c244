-- ===== src/Link/Reconcile/Clip.antt =====
-- What src/link/reconcile.rs holds of the box's clip: the ring, the settings and the triggers.
pub mod Ring
pub mod Packets
use medius.Base.{
  ℕ, ◌+◌, ◌<◌, ◌≤◌, ◌%◌, ◌^◌, min, ◌≡◌, ◌≢◌, ◌↔◌, refl, sym, ap, ◌∙◌, arith, Bool, true, false,
  ◌&&◌, ◌||◌, negate,
}
use medius.Base.{
  if◌then◌else◌, ◌==◌, Option, none, some, List, [], ◌∷◌, ◌++◌, retain, length, bit_or,
}
use medius.Base.{get_elem?, set, map, All, Bool-cases, Option-cases, ◌⊎◌, inl, inr, append_empty}
use medius.Base.Options.{position}
use medius.Base.Keyed.{
  bytes_eq, bytes_eq_iff, matches, IsUnique, matches_self, position-get_elem?, position-set,
  append-IsUnique, set-IsUnique, position-append,
}
use medius.Base.Map.{Map, Key, lookup, insert, remove}
use medius.Base.Keys.{nat_key, pair_key}
use medius.Types.Direction.{dir_as_u8}
use medius.Types.Usage.{class_id}
use medius.Types.Clip.{
  ClipTrigger, ClipPacketTrigger, ClipPacketTriggerEntry, ClipStatus, ClipState, ClipSettings,
  edge_u8, action_u8, traffic_u8, flags, clip_trig_f_present, clip_trig_f_consume, blanket_scope,
}
use medius.Protocol.Opcode.{FrameType}
use medius.Protocol.Command.{clip_set_payload, clip_trigger_payload, clip_packet_trigger_payload}
use medius.Link.Reconcile.State.{DesiredState, ClipHeld, ClipTriggerKey}

unfoldable pub ring_holds : ClipStatus → Bool
ring_holds status =
    negate (status.total == 0) || elim status.state [ ClipState.idle ↦ false | _ ↦ true ]

unfoldable pub clip_trigger_key : ClipTrigger → ClipTriggerKey
unfolding class_id edge_u8
clip_trigger_key t = ((class_id t.on).0, ((class_id t.on).1, edge_u8 t.edge))

abbrev pub ClipPacketKey : Type 0
ClipPacketKey = ℕ × ℕ × ℕ × List ℕ × List ℕ

unfoldable pub clip_packet_key : ClipPacketTrigger → ClipPacketKey
unfolding traffic_u8 dir_as_u8
clip_packet_key t = (traffic_u8 t.class, t.id, dir_as_u8 t.direction, t.match_bytes, t.mask)

unfoldable pub packet_key_eq : ClipPacketKey → ClipPacketKey → Bool
packet_key_eq (c, i, d, m, k) (c', i', d', m', k') =
    (c == c') && ((i == i') && ((d == d') && (bytes_eq m m' && bytes_eq k k')))

abbrev pub has_packet_key : ClipPacketKey → ClipPacketTrigger → Bool
has_packet_key k = matches clip_packet_key packet_key_eq k

-- `ring_gen += 1` on a `u64`.
abbrev pub next_gen : ℕ → ℕ
next_gen g = (g + 1) % 2 ^ 64

unfoldable pub clip_loaded : Bool → DesiredState → DesiredState
clip_loaded loaded s = record s {
  clip = record (s.clip) {
    loaded = loaded;
    ring = loaded;
    ring_gen = next_gen s.clip.ring_gen;
    lost = false;
  };
}

unfoldable pub clip_ring_gen : DesiredState → ℕ
clip_ring_gen s = s.clip.ring_gen

unfoldable pub clip_ring_held : DesiredState → Bool
clip_ring_held s = s.clip.ring

unfoldable pub clip_note_ring : ℕ → ClipStatus → Bool → DesiredState → DesiredState
unfolding ring_holds
clip_note_ring seen status released s =
    if negate (seen == s.clip.ring_gen)
    then s
    else if released && (s.clip.ring && negate (ring_holds status))
    then record s {
      clip = record (s.clip) { lost = true; loaded = false; ring = ring_holds status };
    }
    else record s { clip = record (s.clip) { ring = ring_holds status } }

unfoldable pub clip_lost : DesiredState → Bool
clip_lost s = s.clip.lost

unfoldable pub clip_setting : ℕ → ℕ → DesiredState → DesiredState
clip_setting id value s = record s {
  clip = record (s.clip) { settings = set s.clip.settings id value };
}

unfoldable pub clip_bind : ClipTrigger → DesiredState → DesiredState
unfolding clip_trigger_key
clip_bind t s = record s {
  clip = record (s.clip) { triggers = insert (clip_trigger_key t) t s.clip.triggers };
}

unfoldable pub clip_unbind : ClipTriggerKey → DesiredState → DesiredState
clip_unbind k s = record s { clip = record (s.clip) { triggers = remove k s.clip.triggers } }

-- The vector after a bind: the first entry of the key is overwritten, else the trigger goes last.
unfoldable pub packet_bound : ClipPacketTrigger → List ClipPacketTrigger → List ClipPacketTrigger
unfolding clip_packet_key packet_key_eq
packet_bound t held = elim (position (has_packet_key (clip_packet_key t)) held) [
  | none ↦ held ++ (t ∷ [])
  | some i ↦ set held i t
]

unfoldable pub clip_packet_bind : ClipPacketTrigger → DesiredState → DesiredState
unfolding packet_bound
clip_packet_bind t s = record s {
  clip = record (s.clip) { packet_triggers = packet_bound t s.clip.packet_triggers };
}

unfoldable pub clip_packet_unbind : ClipPacketKey → DesiredState → DesiredState
unfolding clip_packet_key packet_key_eq
clip_packet_unbind k s = record s {
  clip = record (s.clip) {
    packet_triggers = retain (λ t. negate (has_packet_key k t)) s.clip.packet_triggers;
  };
}

unfoldable pub clip_packet_drop_consuming : DesiredState → DesiredState × List ClipPacketTrigger
clip_packet_drop_consuming s = (
  record s {
    clip = record (s.clip) {
      packet_triggers = retain (λ t. negate t.consume) s.clip.packet_triggers;
    };
  },
  retain (λ t. t.consume) s.clip.packet_triggers,
)

-- `bind_payload` and `bind_packet_payload` of src/device/clip.rs.
unfoldable pub bind_payload : ClipTrigger → List ℕ
unfolding class_id edge_u8 action_u8 clip_trigger_payload
bind_payload t =
    clip_trigger_payload (class_id t.on).0 (class_id t.on).1 (edge_u8 t.edge) (action_u8 t.action)
      (bit_or clip_trig_f_present (if t.consume then clip_trig_f_consume else 0))

unfoldable pub bind_packet_payload : ClipPacketTrigger → List ℕ
unfolding traffic_u8 dir_as_u8 action_u8 flags clip_packet_trigger_payload
bind_packet_payload t =
    clip_packet_trigger_payload (traffic_u8 t.class) t.id (dir_as_u8 t.direction)
      (action_u8 t.action) (bit_or clip_trig_f_present (flags t)) t.selector_len t.match_bytes
      t.mask

-- The settings off their default, numbered from `id` on.
unfoldable pub setting_frames : ℕ → List ℕ → List (FrameType × List ℕ)
unfolding clip_set_payload
setting_frames id [] = []
setting_frames id (v ∷ vs) =
    let rest = setting_frames (id + 1) vs in
    if v == 0 then rest else (FrameType.clip_set, clip_set_payload id v) ∷ rest

unfoldable pub trigger_frames : Map ClipTriggerKey ClipTrigger → List (FrameType × List ℕ)
unfolding bind_payload
trigger_frames [] = []
trigger_frames ((k, t) ∷ m) = (FrameType.clip_trigger, bind_payload t) ∷ trigger_frames m

unfoldable pub packet_frames : List ClipPacketTrigger → List (FrameType × List ℕ)
unfolding bind_packet_payload
packet_frames [] = []
packet_frames (t ∷ ts) = (FrameType.clip_trigger, bind_packet_payload t) ∷ packet_frames ts

unfoldable pub clip_config_frames : DesiredState → List (FrameType × List ℕ)
unfolding setting_frames trigger_frames packet_frames
clip_config_frames s =
    (setting_frames 0 s.clip.settings ++ trigger_frames s.clip.triggers)
    ++ packet_frames s.clip.packet_triggers

unfoldable pub clip_triggers_clear : DesiredState → DesiredState
clip_triggers_clear s = record s { clip = record (s.clip) { triggers = []; packet_triggers = [] } }

-- Collecting keyed triggers into a map: a later one of a key replaces the earlier.
unfoldable pub collect_triggers :
    Map ClipTriggerKey ClipTrigger → List ClipTrigger → Map ClipTriggerKey ClipTrigger
unfolding clip_trigger_key
collect_triggers m [] = m
collect_triggers m (t ∷ ts) = collect_triggers (insert (clip_trigger_key t) t m) ts

abbrev pub bool_u8 : Bool → ℕ
bool_u8 b = if b then 1 else 0

unfoldable pub clip_adopt : ClipStatus → ClipSettings → DesiredState → DesiredState
unfolding ring_holds blanket_scope collect_triggers
clip_adopt status settings s =
    let loaded : Bool = ring_holds status in
    record s {
      clip = record {
        loaded = loaded;
        ring = loaded;
        ring_gen = next_gen s.clip.ring_gen;
        lost = s.clip.lost || (s.clip.ring && negate loaded);
        settings =
            blanket_scope settings.autolock
            ∷ bool_u8 settings.loop
            ∷ bool_u8 settings.retain
            ∷ bool_u8 settings.ride
            ∷ [];
        triggers = collect_triggers [] settings.triggers;
        packet_triggers = map (λ e. e.trigger) settings.packet_triggers;
      };
    }
