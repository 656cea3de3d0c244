-- ===== src/Types/Clip.antt =====
-- src/types/clip.rs and the blankets of src/types/lock.rs: triggers, status and settings of a clip.
pub mod Reply
pub mod Bounds
pub mod Rows
pub mod Wire
pub mod Frames
use medius.Base.{ℕ, ◌≡◌, arith, Bool, if◌then◌else◌, ◌==◌, bit_or}
use medius.Base.{Option, none, some, List, [], ◌∷◌}
use medius.Types.Direction.{Direction}
use medius.Types.Usage.{Usage}

pub data Edge : Type 0 where
  both press release : Edge

unfoldable pub edge_u8 : Edge → ℕ
edge_u8 Edge.both = 0
edge_u8 Edge.press = 1
edge_u8 Edge.release = 2

unfoldable pub edge_from_u8 : ℕ → Option Edge
edge_from_u8 v =
    if v == 0
    then some Edge.both
    else if v == 1
    then some Edge.press
    else if v == 2
    then some Edge.release
    else none

pub data ClipAction : Type 0 where
  start stop pause resume restart toggle : ClipAction

unfoldable pub action_u8 : ClipAction → ℕ
action_u8 ClipAction.start = 0
action_u8 ClipAction.stop = 1
action_u8 ClipAction.pause = 2
action_u8 ClipAction.resume = 3
action_u8 ClipAction.restart = 4
action_u8 ClipAction.toggle = 5

unfoldable pub action_from_u8 : ℕ → Option ClipAction
action_from_u8 v =
    if v == 0
    then some ClipAction.start
    else if v == 1
    then some ClipAction.stop
    else if v == 2
    then some ClipAction.pause
    else if v == 3
    then some ClipAction.resume
    else if v == 4
    then some ClipAction.restart
    else if v == 5
    then some ClipAction.toggle
    else none

pub record ClipTrigger : Type 0 where
  pub on : Usage
  pub edge : Edge
  pub action : ClipAction
  pub consume : Bool

-- `TrafficClass` of src/types/catch.rs.
pub data TrafficClass : Type 0 where
  hid_in hid_out vendor_interrupt vendor_bulk control emit bus clip_transfer : TrafficClass

unfoldable pub traffic_u8 : TrafficClass → ℕ
traffic_u8 TrafficClass.hid_in = 4
traffic_u8 TrafficClass.hid_out = 5
traffic_u8 TrafficClass.vendor_interrupt = 6
traffic_u8 TrafficClass.vendor_bulk = 7
traffic_u8 TrafficClass.control = 8
traffic_u8 TrafficClass.emit = 9
traffic_u8 TrafficClass.bus = 10
traffic_u8 TrafficClass.clip_transfer = 11

pub record ClipPacketTrigger : Type 0 where
  pub class : TrafficClass
  pub id : ℕ
  pub direction : Direction
  pub action : ClipAction
  pub match_bytes : List ℕ
  pub mask : List ℕ
  pub consume : Bool
  pub once_per_run : Bool
  pub selector_len : ℕ

abbrev pub clip_trig_f_present : ℕ
clip_trig_f_present = 0x01

abbrev pub clip_trig_f_consume : ℕ
clip_trig_f_consume = 0x02

abbrev pub clip_trig_f_run : ℕ
clip_trig_f_run = 0x04

unfoldable pub flags : ClipPacketTrigger → ℕ
flags t =
    bit_or (if t.consume then clip_trig_f_consume else 0)
      (if t.once_per_run then clip_trig_f_run else 0)

pub data ClipState : Type 0 where
  idle playing paused faulted : ClipState

unfoldable pub state_from_u8 : ℕ → Option ClipState
state_from_u8 v =
    if v == 0
    then some ClipState.idle
    else if v == 1
    then some ClipState.playing
    else if v == 2
    then some ClipState.paused
    else if v == 3
    then some ClipState.faulted
    else none

pub record ClipStatus : Type 0 where
  pub state : ClipState
  pub free : ℕ
  pub total : ℕ
  pub played : ℕ
  pub ticks : ℕ
  pub underruns : ℕ
  pub overruns : ℕ
  pub seq_gaps : ℕ
  pub xfers : ℕ
  pub xfer_errs : ℕ
  pub gated : ℕ
  pub held : List Usage

pub data Blanket : Type 0 where
  aim wheel buttons keys media : Blanket

unfoldable pub clip_lock_bit : Blanket → ℕ
clip_lock_bit Blanket.aim = 0x01
clip_lock_bit Blanket.wheel = 0x02
clip_lock_bit Blanket.buttons = 0x04
clip_lock_bit Blanket.keys = 0x08
clip_lock_bit Blanket.media = 0x10

-- `fold(0, |m, b| m | b.clip_lock_bit())`
unfoldable pub scope_from : ℕ → List Blanket → ℕ
unfolding clip_lock_bit
scope_from m [] = m
scope_from m (b ∷ bs) = scope_from (bit_or m (clip_lock_bit b)) bs

unfoldable pub blanket_scope : List Blanket → ℕ
unfolding scope_from
blanket_scope scope = scope_from 0 scope

-- A packet trigger read back carries its hits.
pub record ClipPacketTriggerEntry : Type 0 where
  pub trigger : ClipPacketTrigger
  pub hits : ℕ

pub record ClipSettings : Type 0 where
  pub autolock : List Blanket
  pub loop : Bool
  pub retain : Bool
  pub finalized : Bool
  pub ride : Bool
  pub triggers : List ClipTrigger
  pub packet_triggers : List ClipPacketTriggerEntry

pub edge_from_u8-edge_u8 : (e : Edge) → edge_from_u8 (edge_u8 e) ≡ some e
unfolding edge_from_u8 edge_u8
edge_from_u8-edge_u8 e = ground arith

pub action_from_u8-action_u8 : (a : ClipAction) → action_from_u8 (action_u8 a) ≡ some a
unfolding action_from_u8 action_u8
action_from_u8-action_u8 a = ground arith
