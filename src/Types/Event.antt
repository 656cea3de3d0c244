-- ===== src/Types/Event.antt =====
-- src/types/event.rs and src/types/transfer.rs: the three catch event frames, decoded, and the status
-- of a control transfer.
use medius.Base.{ℕ, if◌then◌else◌, ltb, leb, ◌==◌, ◌%◌, ◌^◌}
use medius.Base.{Bool, true, false, ◌&&◌, negate, Option, none, some, List, [], ◌∷◌, from_le}
use medius.Base.{bit_and, length, take, drop, get_elem?, retain}
use medius.Base.Int.{ℤ, pos, word_i16, eq_ℤ}
use medius.Base.Options.{◌>>=◌}
use medius.Types.Direction.{Direction, dir_from_u8}
use medius.Types.Usage.{Axis, Class, class_from_u8, Usage, decode_list}
use medius.Types.Catch.{CatchClass, from_u8, of_class, class_eq}
use medius.Types.Clock.{ClockDomain, domain_from_u8, from_le32}

pub record MotionEvent : Type 0 where
  pub ts_us : ℕ
  pub clock : ClockDomain
  pub dx : ℤ
  pub dy : ℤ
  pub dz : ℤ
  pub pan : ℤ

unfoldable pub motion_from_payload : List ℕ → Option MotionEvent
unfolding domain_from_u8
motion_from_payload (t0 ∷ t1 ∷ t2 ∷ t3 ∷ clk ∷ x0 ∷ x1 ∷ y0 ∷ y1 ∷ z0 ∷ z1 ∷ p0 ∷ p1 ∷ _) =
    some (record {
      ts_us = from_le32 t0 t1 t2 t3;
      clock = domain_from_u8 clk;
      dx = word_i16 (from_le x0 x1);
      dy = word_i16 (from_le y0 y1);
      dz = word_i16 (from_le z0 z1);
      pan = word_i16 (from_le p0 p1);
    })
motion_from_payload _ = none

unfoldable pub all_axes : MotionEvent → List (Axis × ℤ)
all_axes m = (Axis.x, m.dx) ∷ (Axis.y, m.dy) ∷ (Axis.wheel, m.dz) ∷ (Axis.pan, m.pan) ∷ []

unfoldable pub axes : MotionEvent → List (Axis × ℤ)
unfolding all_axes
axes m = retain (λ a. negate (eq_ℤ a.1 (pos 0))) (all_axes m)

pub record UsageSnapshot : Type 0 where
  pub ts_us : ℕ
  pub clock : ClockDomain
  pub class : Class
  pub direction : Direction
  pub usages : List Usage

-- `[ts u32][clk u8][cls u8][dir u8][n u8]`, then the usages.
unfoldable pub snapshot_from_payload : List ℕ → Option UsageSnapshot
unfolding domain_from_u8 class_from_u8 dir_from_u8 decode_list
snapshot_from_payload (t0 ∷ t1 ∷ t2 ∷ t3 ∷ clk ∷ cls ∷ dir ∷ list) = do
  class ← class_from_u8 cls
  direction ← dir_from_u8 dir
  usages ← decode_list list
  some (record {
    ts_us = from_le32 t0 t1 t2 t3;
    clock = domain_from_u8 clk;
    class = class;
    direction = direction;
    usages = usages;
  })
snapshot_from_payload _ = none

pub data BusEvent : Type 0 where
  reset suspend resume deconfigured device_attached device_detached clone_up clone_down : BusEvent
  configured : ℕ → BusEvent
  set_interface : ℕ → ℕ → BusEvent

pub data ControlStatus : Type 0 where
  done stalled naked : ControlStatus
  other : ℕ → ControlStatus

pub data TransferStatus : Type 0 where
  done stall nak no_device refused : TransferStatus
  other : ℕ → TransferStatus

unfoldable pub transfer_status_from_u8 : ℕ → TransferStatus
transfer_status_from_u8 v =
    if v == 0
    then TransferStatus.done
    else if v == 0xFD
    then TransferStatus.stall
    else if v == 0xFE
    then TransferStatus.nak
    else if v == 0xFF
    then TransferStatus.no_device
    else if v == 0xFC
    then TransferStatus.refused
    else TransferStatus.other v

unfoldable pub transfer_status_u8 : TransferStatus → ℕ
transfer_status_u8 TransferStatus.done = 0
transfer_status_u8 TransferStatus.stall = 0xFD
transfer_status_u8 TransferStatus.nak = 0xFE
transfer_status_u8 TransferStatus.no_device = 0xFF
transfer_status_u8 TransferStatus.refused = 0xFC
transfer_status_u8 (TransferStatus.other v) = v

pub record TrafficEvent : Type 0 where
  pub ts_us : ℕ
  pub clock : ClockDomain
  pub class : CatchClass
  pub id : ℕ
  pub direction : Direction
  pub flags : ℕ
  pub true_len : ℕ
  pub bytes : List ℕ

unfoldable pub traffic_from_payload : List ℕ → Option TrafficEvent
unfolding domain_from_u8 from_u8 dir_from_u8
traffic_from_payload (t0 ∷ t1 ∷ t2 ∷ t3 ∷ clk ∷ cls ∷ i0 ∷ i1 ∷ dir ∷ fl ∷ l0 ∷ l1 ∷ body) = do
  class ← from_u8 cls
  direction ← dir_from_u8 dir
  some (record {
    ts_us = from_le32 t0 t1 t2 t3;
    clock = domain_from_u8 clk;
    class = class;
    id = from_le i0 i1;
    direction = direction;
    flags = fl;
    true_len = from_le l0 l1;
    bytes = body;
  })
traffic_from_payload _ = none

unfoldable pub truncated : TrafficEvent → Bool
truncated t = ltb (length t.bytes % 2 ^ 16) t.true_len

unfoldable pub is_control_shaped : CatchClass → Bool
is_control_shaped CatchClass.control = true
is_control_shaped CatchClass.clip_transfer = true
is_control_shaped _ = false

unfoldable pub setup_of : TrafficEvent → Option (List ℕ)
unfolding is_control_shaped
setup_of t =
    if is_control_shaped t.class && leb 8 (length t.bytes) then some (take 8 t.bytes) else none

unfoldable pub data_of : TrafficEvent → List ℕ
unfolding is_control_shaped
data_of t =
    if negate (is_control_shaped t.class)
    then t.bytes
    else if leb 8 (length t.bytes)
    then drop 8 t.bytes
    else []

unfoldable pub control_status : TrafficEvent → Option ControlStatus
unfolding class_eq
control_status t =
    let status = bit_and t.flags 3 in
    if negate (class_eq t.class CatchClass.control)
    then none
    else if status == 0
    then some ControlStatus.done
    else if status == 1
    then some ControlStatus.stalled
    else if status == 2
    then some ControlStatus.naked
    else some (ControlStatus.other status)

unfoldable pub is_ruled : CatchClass → Bool
is_ruled CatchClass.hid_in = true
is_ruled CatchClass.hid_out = true
is_ruled CatchClass.vendor_interrupt = true
is_ruled CatchClass.vendor_bulk = true
is_ruled CatchClass.control = true
is_ruled CatchClass.emit = true
is_ruled _ = false

unfoldable pub rule_acted : TrafficEvent → Bool
unfolding is_ruled
rule_acted t = is_ruled t.class && negate (bit_and t.flags 0x80 == 0)

unfoldable pub transfer_status : TrafficEvent → Option TransferStatus
unfolding class_eq transfer_status_from_u8
transfer_status t =
    if class_eq t.class CatchClass.clip_transfer
    then some (transfer_status_from_u8 t.flags)
    else none

abbrev byte_or_0 : ℕ → List ℕ → ℕ
byte_or_0 i bytes = elim (get_elem? bytes i) [ none ↦ 0 | some b ↦ b ]

unfoldable pub bus_event : TrafficEvent → Option BusEvent
unfolding class_eq
bus_event t =
    let a = byte_or_0 0 t.bytes in
    let b = byte_or_0 1 t.bytes in
    if negate (class_eq t.class CatchClass.bus)
    then none
    else if t.flags == 0
    then some BusEvent.reset
    else if t.flags == 1
    then some BusEvent.suspend
    else if t.flags == 2
    then some BusEvent.resume
    else if t.flags == 3
    then some (BusEvent.configured a)
    else if t.flags == 4
    then some BusEvent.deconfigured
    else if t.flags == 5
    then some (BusEvent.set_interface a b)
    else if t.flags == 6
    then some BusEvent.device_attached
    else if t.flags == 7
    then some BusEvent.device_detached
    else if t.flags == 8
    then some BusEvent.clone_up
    else if t.flags == 9
    then some BusEvent.clone_down
    else none

unfoldable pub bulk_end_of_transfer : TrafficEvent → Bool
unfolding class_eq
bulk_end_of_transfer t = class_eq t.class CatchClass.vendor_bulk && negate (bit_and t.flags 1 == 0)

unfoldable pub is_packet : CatchClass → Bool
is_packet CatchClass.hid_in = true
is_packet CatchClass.hid_out = true
is_packet CatchClass.vendor_interrupt = true
is_packet CatchClass.vendor_bulk = true
is_packet CatchClass.emit = true
is_packet _ = false

unfoldable pub zlp : TrafficEvent → Bool
unfolding is_packet
zlp t = is_packet t.class && negate (bit_and t.flags 2 == 0)

pub data CatchEvent : Type 0 where
  motion : MotionEvent → CatchEvent
  usages : UsageSnapshot → CatchEvent
  traffic : TrafficEvent → CatchEvent

-- CatchEvent::class
unfoldable pub event_class : CatchEvent → CatchClass
unfolding of_class
event_class (CatchEvent.motion m) = CatchClass.axis
event_class (CatchEvent.usages u) = of_class u.class
event_class (CatchEvent.traffic t) = t.class

unfoldable pub event_direction : CatchEvent → Direction
event_direction (CatchEvent.motion m) = Direction.both
event_direction (CatchEvent.usages u) = u.direction
event_direction (CatchEvent.traffic t) = t.direction

unfoldable pub event_ts_us : CatchEvent → ℕ
event_ts_us (CatchEvent.motion m) = m.ts_us
event_ts_us (CatchEvent.usages u) = u.ts_us
event_ts_us (CatchEvent.traffic t) = t.ts_us
