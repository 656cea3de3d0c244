-- ===== src/Link/Reconcile/State.antt =====
-- The state of src/link/reconcile.rs: the tables of DesiredState and the entries they hold.
use medius.Base.{ℕ, Bool, false, Option, none, List, [], ◌∷◌}
use medius.Base.Map.{Map}
use medius.Base.Keys.{nat_key, pair_key}
use medius.Types.Catch.{CatchFilter, FilterKey}
use medius.Types.Clip.{ClipTrigger, ClipPacketTrigger}
use medius.Link.Reconcile.Slots.{Slots}

pub data Override : Type 0 where
  nothing press force : Override

pub record StoredRewrite : Type 0 where
  pub class : ℕ
  pub id : ℕ
  pub direction : ℕ
  pub action : ℕ
  pub offset : ℕ
  pub match_bytes : List ℕ
  pub mask : List ℕ
  pub payload : List ℕ

pub record StoredTransform : Type 0 where
  pub op : ℕ
  pub sclass : ℕ
  pub sid : ℕ
  pub dclass : ℕ
  pub did : ℕ

abbrev pub ClipTriggerKey : Type 0
ClipTriggerKey = ℕ × (ℕ × ℕ)

pub record ClipHeld : Type 0 where
  pub loaded : Bool
  pub ring : Bool
  pub ring_gen : ℕ
  pub lost : Bool
  -- By CLIP_SET id.
  pub settings : List ℕ
  pub triggers : Map ClipTriggerKey ClipTrigger
  pub packet_triggers : List ClipPacketTrigger

abbrev pub FilterSet : Type 0
FilterSet = Map FilterKey CatchFilter

pub record DesiredState : Type 0 where
  pub overrides : Map (ℕ × ℕ) Override
  pub locks : Map (ℕ × ℕ) Slots
  pub media_order : List ℕ
  pub catch : FilterSet
  pub rewrites : List StoredRewrite
  pub transforms : List StoredTransform
  pub declared_buttons : Option ℕ
  pub clip : ClipHeld

abbrev pub default_clip : ClipHeld
default_clip = record {
  loaded = false;
  ring = false;
  ring_gen = 0;
  lost = false;
  settings = 0 ∷ 0 ∷ 0 ∷ 0 ∷ [];
  triggers = [];
  packet_triggers = [];
}

abbrev pub default_state : DesiredState
default_state = record {
  overrides = [];
  locks = [];
  media_order = [];
  catch = [];
  rewrites = [];
  transforms = [];
  declared_buttons = none;
  clip = default_clip;
}
