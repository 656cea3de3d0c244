-- ===== src/Types/Clip/Reply.antt =====
-- src/types/clip.rs: RESP(CLIP), read as the status and as the settings of the clip. An index out of
-- bounds, where the source would panic, is `none` here, as an unreadable payload is.
use medius.Base.{ℕ, zero, suc, ◌+◌, ◌*◌, Bool, true, false, ◌||◌, negate, if◌then◌else◌, ltb, ◌==◌}
use medius.Base.{
  Option, none, some, List, [], ◌∷◌, length, get_elem?, drop, retain, from_le, bit_and,
}
use medius.Base.Options.{◌>>=◌, keep, split}
use medius.Types.Direction.{Direction, is_relative, dir_eq, dir_from_u8}
use medius.Types.Usage.{class_from_u8, decode_list}
use medius.Types.Catch.{CatchClass, from_u8}
use medius.Types.Clip.{
  edge_from_u8, action_from_u8, ClipAction, ClipTrigger, TrafficClass, clip_trig_f_consume,
  clip_trig_f_run, state_from_u8, ClipStatus, Blanket, clip_lock_bit, ClipPacketTriggerEntry,
  ClipSettings,
}

abbrev pub resp_clip_hdr : ℕ
resp_clip_hdr = 31

abbrev pub clip_trig_max : ℕ
clip_trig_max = 8

abbrev pub clip_pkt_trig_max : ℕ
clip_pkt_trig_max = 8

abbrev pub clip_pkt_trig_entry : ℕ
clip_pkt_trig_entry = 10

abbrev pub pkt_match_max : ℕ
pkt_match_max = 16

-- `TrafficClass::try_from`: an input class is not traffic.
unfoldable pub traffic_of : CatchClass → Option TrafficClass
traffic_of CatchClass.hid_in = some TrafficClass.hid_in
traffic_of CatchClass.hid_out = some TrafficClass.hid_out
traffic_of CatchClass.vendor_interrupt = some TrafficClass.vendor_interrupt
traffic_of CatchClass.vendor_bulk = some TrafficClass.vendor_bulk
traffic_of CatchClass.control = some TrafficClass.control
traffic_of CatchClass.emit = some TrafficClass.emit
traffic_of CatchClass.bus = some TrafficClass.bus
traffic_of CatchClass.clip_transfer = some TrafficClass.clip_transfer
traffic_of _ = none

unfoldable pub is_surface : TrafficClass → Bool
is_surface TrafficClass.bus = false
is_surface TrafficClass.clip_transfer = false
is_surface _ = true

unfoldable pub class_carries : TrafficClass → Direction → Bool
unfolding dir_eq
class_carries TrafficClass.hid_in d = dir_eq d Direction.positive
class_carries TrafficClass.emit d = dir_eq d Direction.positive
class_carries TrafficClass.hid_out d = dir_eq d Direction.negative
class_carries TrafficClass.bus d = false
class_carries TrafficClass.clip_transfer d = false
class_carries _ d = dir_eq d Direction.positive || dir_eq d Direction.negative

-- The parts of a packet row that this crate may have no name for.
unfoldable pub packet_head : ℕ → ℕ → ℕ → Option (TrafficClass × (Direction × ClipAction))
unfolding from_u8 traffic_of dir_from_u8 is_relative action_from_u8 is_surface
packet_head c d a = do
  catch_class ← from_u8 c
  class ← traffic_of catch_class
  direction ← dir_from_u8 d
  absolute ← if is_relative direction then none else some direction
  action ← action_from_u8 a
  if is_surface class then some (class, (absolute, action)) else none

unfoldable pub has_flag : ℕ → ℕ → Bool
has_flag flags bit = negate (bit_and flags bit == 0)

-- ClipPacketTriggerEntry::from_wire: the inner option is what it returns.
unfoldable pub packet_from_wire : List ℕ → Option (Option ClipPacketTriggerEntry)
unfolding packet_head has_flag split
packet_from_wire (c ∷ i0 ∷ i1 ∷ d ∷ a ∷ f ∷ slen ∷ mlen ∷ h0 ∷ h1 ∷ body) =
    elim (packet_head c d a) [
      | none ↦ some none
      | some (class, (direction, action)) ↦ elim (split mlen body) [
        | none ↦ none
        | some (match_bytes, mask) ↦ some (
            some (record {
              trigger = record {
                class = class;
                id = from_le i0 i1;
                direction = direction;
                action = action;
                match_bytes = match_bytes;
                mask = mask;
                consume = has_flag f clip_trig_f_consume;
                once_per_run = has_flag f clip_trig_f_run;
                selector_len = slen;
              };
              hits = from_le h0 h1;
            }))
      ]
    ]
packet_from_wire _ = none

-- Where `n` packet rows that start at `end` end, each as long as its own match says.
unfoldable pub packets_end : List ℕ → ℕ → ℕ → Option ℕ
packets_end p zero end = some end
packets_end p (suc n) end = do
  mlen ← get_elem? p (end + 7)
  if ltb pkt_match_max mlen then none else packets_end p n (end + clip_pkt_trig_entry + 2 * mlen)

-- The end of the payload, from the count of the input triggers on.
unfoldable pub triggers_end : List ℕ → ℕ → ℕ → Option ℕ
unfolding packets_end
triggers_end p cfg n_trig = do
  let end : ℕ = cfg + 3 + n_trig * 6
  n_pkt ← get_elem? p end
  if ltb clip_pkt_trig_max n_pkt then none else packets_end p n_pkt (end + 1)

unfoldable pub config_end : List ℕ → ℕ → Option ℕ
unfolding triggers_end
config_end p cfg = do
  n_trig ← get_elem? p (cfg + 2)
  if ltb clip_trig_max n_trig then none else triggers_end p cfg n_trig

unfoldable pub config_offset_of : List ℕ → ℕ → Option ℕ
unfolding config_end
config_offset_of p held_n = do
  let cfg : ℕ = resp_clip_hdr + held_n * 3
  end ← config_end p cfg
  if length p == end then some cfg else none

unfoldable pub clip_config_offset : List ℕ → Option ℕ
unfolding config_offset_of
clip_config_offset p =
    if ltb (length p) resp_clip_hdr then none else (get_elem? p 30 >>= config_offset_of p)

unfoldable pub u16_at : List ℕ → ℕ → Option ℕ
u16_at p off = do lo ← get_elem? p off; hi ← get_elem? p (off + 1); some (from_le lo hi)

unfoldable pub u32_at : List ℕ → ℕ → Option ℕ
unfolding u16_at
u32_at p off = do lo ← u16_at p off; hi ← u16_at p (off + 2); some (lo + 0x10000 * hi)

-- ClipStatus::from_payload
unfoldable pub status_from_payload : List ℕ → Option ClipStatus
unfolding clip_config_offset decode_list state_from_u8 u16_at u32_at
status_from_payload p = do
  cfg ← clip_config_offset p
  held ← decode_list (drop 30 p)
  state_byte ← get_elem? p 1
  state ← state_from_u8 state_byte
  free ← u32_at p 2
  total ← u32_at p 6
  played ← u32_at p 10
  ticks ← u32_at p 14
  underruns ← u16_at p 18
  overruns ← u16_at p 20
  seq_gaps ← u16_at p 22
  xfers ← u16_at p 24
  xfer_errs ← u16_at p 26
  gated ← u16_at p 28
  some (record {
    state = state;
    free = free;
    total = total;
    played = played;
    ticks = ticks;
    underruns = underruns;
    overruns = overruns;
    seq_gaps = seq_gaps;
    xfers = xfers;
    xfer_errs = xfer_errs;
    gated = gated;
    held = held;
  })

abbrev pub all_blankets : List Blanket
all_blankets = Blanket.aim ∷ Blanket.wheel ∷ Blanket.buttons ∷ Blanket.keys ∷ Blanket.media ∷ []

unfoldable pub blanket_from_scope : ℕ → List Blanket
unfolding has_flag clip_lock_bit
blanket_from_scope scope = retain (λ b. has_flag scope (clip_lock_bit b)) all_blankets

-- An input row by its bytes; a binding of every class has no trigger.
unfoldable pub trigger_of : ℕ → ℕ → ℕ → ℕ → ℕ → Option ClipTrigger
unfolding class_from_u8 edge_from_u8 action_from_u8
trigger_of c id e a consume = do
  class ← class_from_u8 c
  edge ← edge_from_u8 e
  action ← action_from_u8 a
  some (record {
    on = record { class = class; id = id };
    edge = edge;
    action = action;
    consume = negate (consume == 0);
  })

-- The rows of the input triggers, `n` from `off` on. The model reads each byte of a row; the source
-- leaves the id and the last byte unread in a row that it skips.
unfoldable pub triggers_from : List ℕ → ℕ → ℕ → Option (List ClipTrigger)
unfolding trigger_of u16_at
triggers_from p zero off = some []
triggers_from p (suc n) off = do
  c ← get_elem? p off
  id ← u16_at p (off + 1)
  e ← get_elem? p (off + 3)
  a ← get_elem? p (off + 4)
  consume ← get_elem? p (off + 5)
  rest ← triggers_from p n (off + 6)
  some (keep (trigger_of c id e a consume) rest)

-- `&p[off..off + n]`
unfoldable pub slice : List ℕ → ℕ → ℕ → Option (List ℕ)
unfolding split
slice p off n = do (before, from_off) ← split off p; (row, after) ← split n from_off; some row

unfoldable pub packets_from : List ℕ → ℕ → ℕ → Option (List ClipPacketTriggerEntry)
unfolding slice packet_from_wire
packets_from p zero off = some []
packets_from p (suc n) off = do
  mlen ← get_elem? p (off + 7)
  row ← slice p off (clip_pkt_trig_entry + 2 * mlen)
  entry ← packet_from_wire row
  rest ← packets_from p n (off + clip_pkt_trig_entry + 2 * mlen)
  some (keep entry rest)

-- ClipSettings::from_payload
unfoldable pub settings_from_payload : List ℕ → Option ClipSettings
unfolding clip_config_offset blanket_from_scope has_flag triggers_from packets_from
settings_from_payload p = do
  off ← clip_config_offset p
  scope ← get_elem? p off
  flags ← get_elem? p (off + 1)
  n_trig ← get_elem? p (off + 2)
  triggers ← triggers_from p n_trig (off + 3)
  n_pkt ← get_elem? p (off + 3 + n_trig * 6)
  packet_triggers ← packets_from p n_pkt (off + 3 + n_trig * 6 + 1)
  some (record {
    autolock = blanket_from_scope scope;
    loop = has_flag flags 1;
    retain = has_flag flags 2;
    finalized = has_flag flags 4;
    ride = has_flag flags 8;
    triggers = triggers;
    packet_triggers = packet_triggers;
  })
