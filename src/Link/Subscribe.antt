-- ===== src/Link/Subscribe.antt =====
-- src/link/catch.rs: the registry of subscribers, the delivery of events to them, and the calls that
-- change the subscriptions. `catch_lock` is held over each of these calls, so a call is one step.
-- Which sends of a call succeed is the environment's choice: the count of the frames that reach the
-- box before one fails. A subscriber's channel is the list of the events that wait in it.
pub mod Delivery
pub mod Synced
pub mod Undo
pub mod Lost
mod Runs
use medius.Base.{ℕ, zero, suc, ◌+◌, ◌%◌, ◌^◌, if◌then◌else◌, ltb, leb, ◌==◌, length, any, drop}
use medius.Base.{
  Bool, true, false, ◌&&◌, negate, Option, none, some, List, [], ◌∷◌, ◌++◌, map, retain,
}
use medius.Base.Options.{◌>>=◌}
use medius.Base.{Result, ok, err}
use medius.Base.Int.{ℤ}
use medius.Types.Direction.{Direction, of_delta, admits}
use medius.Types.Usage.{Axis, axis_u16}
use medius.Types.Catch.{CatchClass, CatchFilter, matches, matches_class_only, of_class}
use medius.Types.Event.{
  CatchEvent, MotionEvent, axes, motion_from_payload, snapshot_from_payload, traffic_from_payload,
}
use medius.Protocol.Opcode.{FrameType}
use medius.Link.Reconcile.State.{FilterSet, DesiredState}
use medius.Link.Reconcile.Session.{set_catch}
use medius.Link.Catch.{CatchFrame, values, effective, catch_sync}
use medius.Link.Catch.Box.{box_apply}

abbrev pub catch_capacity : ℕ
catch_capacity = 256

abbrev pub catch_max_entries : ℕ
catch_max_entries = 32

pub record CatchSub : Type 0 where
  pub id : ℕ
  pub filters : FilterSet
  pub queue : List CatchEvent
  pub dropped : ℕ

unfoldable pub decode_event : FrameType → List ℕ → Option CatchEvent
unfolding motion_from_payload snapshot_from_payload traffic_from_payload
decode_event FrameType.motion_event payload = do
  m ← motion_from_payload payload
  some (CatchEvent.motion m)
decode_event FrameType.usage_event payload = do
  u ← snapshot_from_payload payload
  some (CatchEvent.usages u)
decode_event FrameType.traffic_event payload = do
  t ← traffic_from_payload payload
  some (CatchEvent.traffic t)
decode_event _ payload = none

unfoldable pub any_matches : CatchClass → ℕ → Direction → FilterSet → Bool
unfolding values matches
any_matches class id dir filters = any (λ f. matches f class id dir) (values filters)

-- Any axis that moved, with the sign of its delta; for a report that moved none, the class alone.
unfoldable pub motion_wanted : FilterSet → List (Axis × ℤ) → Bool
unfolding values matches_class_only any_matches axis_u16 of_delta
motion_wanted filters [] = any (λ f. matches_class_only f CatchClass.axis) (values filters)
motion_wanted filters (a ∷ moved) =
    any (λ d. any_matches CatchClass.axis (axis_u16 d.0) (of_delta d.1) filters) (a ∷ moved)

unfoldable pub wanted : FilterSet → CatchEvent → Bool
unfolding values matches_class_only of_class admits axes motion_wanted any_matches
wanted filters (CatchEvent.motion m) = motion_wanted filters (axes m)
wanted filters (CatchEvent.usages u) =
    any (λ f. matches_class_only f (of_class u.class) && admits f.direction u.direction)
      (values filters)
wanted filters (CatchEvent.traffic t) = any_matches t.class t.id t.direction filters

-- A full buffer drops its oldest event. The registry holds a receiver of each channel, so a send
-- never finds it disconnected.
unfoldable pub push_event : CatchEvent → CatchSub → CatchSub
push_event e s =
    if ltb (length s.queue) catch_capacity
    then record s { queue = s.queue ++ (e ∷ []) }
    else record s { queue = drop 1 s.queue ++ (e ∷ []); dropped = (s.dropped + 1) % 2 ^ 64 }

unfoldable pub deliver_to : CatchEvent → CatchSub → CatchSub
unfolding wanted push_event
deliver_to e s = if wanted s.filters e then push_event e s else s

unfoldable pub deliver_event : FrameType → List ℕ → List CatchSub → List CatchSub
unfolding decode_event deliver_to
deliver_event ty payload subs = elim (decode_event ty payload) [
  | none ↦ subs
  | some event ↦ map (deliver_to event) subs
]

-- The link as far as the subscriptions go, with the box's table.
pub record CatchLink : Type 0 where
  pub subs : List CatchSub
  pub catch_gen : ℕ
  pub desired : DesiredState
  pub table : FilterSet

pub data SubscribeError : Type 0 where
  catch_table_full : ℕ → ℕ → SubscribeError
  send_failed : SubscribeError

abbrev pub filter_sets : List CatchSub → List FilterSet
filter_sets [] = []
filter_sets (s ∷ subs) = s.filters ∷ filter_sets subs

-- CatchReg::effective
unfoldable pub reg_effective : List CatchSub → FilterSet
unfolding effective
reg_effective subs = effective (filter_sets subs)

-- The box's table after the frames that reach it, and whether all of them did.
unfoldable pub send_frames : ℕ → List CatchFrame → FilterSet → FilterSet × Bool
unfolding box_apply
send_frames sends [] table = (table, true)
send_frames zero (c ∷ cs) table = (table, false)
send_frames (suc sends) (c ∷ cs) table = send_frames sends cs (box_apply c table)

unfoldable pub detach_sub : ℕ → CatchLink → CatchLink × FilterSet
detach_sub id l =
    let subs = retain (λ s. negate (s.id == id)) l.subs in
    (
      record l { subs = subs; desired = set_catch (reg_effective subs) l.desired },
      reg_effective subs,
    )

abbrev new_sub : ℕ → FilterSet → CatchSub
new_sub id filters = record { id = id; filters = filters; queue = []; dropped = 0 }

-- The undo of a subscription of which a send failed.
unfoldable pub roll_back : ℕ → ℕ → FilterSet → CatchLink → CatchLink
roll_back sends id effective_set l =
    let (detached, restored) = detach_sub id l in
    record detached {
      table = (send_frames sends (catch_sync effective_set restored) detached.table).0;
    }

unfoldable pub catch_subscribe : ℕ → ℕ → FilterSet → CatchLink → CatchLink × Result SubscribeError ℕ
catch_subscribe sends undo_sends filters l =
    let id = l.catch_gen in
    let prev = reg_effective l.subs in
    let subs = l.subs ++ (new_sub id filters ∷ []) in
    let next = reg_effective subs in
    let l1 = record l { catch_gen = (id + 1) % 2 ^ 64; subs = subs } in
    let (table, sent) = send_frames sends (catch_sync prev next) l.table in
    let l2 = record l1 { desired = set_catch next l.desired; table = table } in
    if ltb catch_max_entries (length next)
    then (
      record l1 { subs = retain (λ s. negate (s.id == id)) subs },
      err (SubscribeError.catch_table_full (length next) catch_max_entries),
    )
    else if sent
    then (l2, ok id)
    else (roll_back undo_sends id next l2, err SubscribeError.send_failed)

unfoldable pub catch_unsubscribe : ℕ → ℕ → CatchLink → CatchLink
catch_unsubscribe sends id l =
    let prev = reg_effective l.subs in
    let (detached, next) = detach_sub id l in
    record detached { table = (send_frames sends (catch_sync prev next) detached.table).0 }

unfoldable pub catch_disconnect_all : ℕ → CatchLink → CatchLink
catch_disconnect_all sends l = record l {
  subs = [];
  desired = set_catch [] l.desired;
  table = (send_frames sends (CatchFrame.clear_table ∷ []) l.table).0;
}
