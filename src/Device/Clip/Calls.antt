-- ===== src/Device/Clip/Calls.antt =====
-- The calls of src/device/clip.rs in any order, sent or not.
use medius.Base.{ℕ, zero, suc, ◌≡◌, refl, arith, Bool, true, false}
use medius.Base.{
  none, List, [], ◌∷◌, set, retain, All, All-append, Result, ok, err, Bool-cases, Option-cases, inl,
  inr,
}
use medius.Base.Options.{position}
use medius.Types.Usage.{Usage, class_id}
use medius.Base.Keyed.{IsUnique}
use medius.Types.Clip.{blanket_scope, edge_u8, Blanket, Edge, ClipTrigger, ClipPacketTrigger}
use medius.Link.Reconcile.State.{DesiredState}
use medius.Link.Reconcile.Clip.{
  packet_key_eq, bool_u8, clip_packet_key, has_packet_key, packet_bound, clip_packet_bind,
  clip_packet_unbind, clip_setting, clip_bind, clip_unbind, clip_triggers_clear, clip_loaded,
}
use medius.Link.Reconcile.Clip.Packets.{HasUniquePackets, clip_packet_bind-HasUniquePackets}
use medius.Device.Clip.{
  ClipError, Outcome, Frame, send_then, validate_packet_trigger, validate_packet_key, set_value,
  set_autolock, set_loop, set_retain, set_ride, bind, unbind, bind_packet, unbind_packet,
  clear_triggers, clear_clip,
}

pub data ClipCall : Type 0 where
  autolock : List Blanket → ClipCall
  loop retain_clip ride : Bool → ClipCall
  bind_trigger : ClipTrigger → ClipCall
  unbind_trigger : Usage → Edge → ClipCall
  bind_packet_trigger unbind_packet_trigger : ClipPacketTrigger → ClipCall
  clear_all discard : ClipCall

unfoldable pub run_clip_call : Bool → ClipCall → DesiredState → Outcome
run_clip_call sent (ClipCall.autolock scope) s = set_autolock sent scope s
run_clip_call sent (ClipCall.loop on) s = set_loop sent on s
run_clip_call sent (ClipCall.retain_clip on) s = set_retain sent on s
run_clip_call sent (ClipCall.ride on) s = set_ride sent on s
run_clip_call sent (ClipCall.bind_trigger t) s = bind sent t s
run_clip_call sent (ClipCall.unbind_trigger u e) s = unbind sent u e s
run_clip_call sent (ClipCall.bind_packet_trigger t) s = bind_packet sent t s
run_clip_call sent (ClipCall.unbind_packet_trigger t) s = unbind_packet sent t s
run_clip_call sent ClipCall.clear_all s = clear_triggers sent s
run_clip_call sent ClipCall.discard s = clear_clip sent s

-- What the host holds could be bound again: every packet trigger passes the checks of a bind, and
-- there is one to a key.
abbrev pub IsBindable : ClipPacketTrigger → Type 0
IsBindable t = validate_packet_trigger t ≡ ok tt

abbrev pub HoldsBindable : DesiredState → Type 0
HoldsBindable s = All IsBindable s.clip.packet_triggers × HasUniquePackets s

All-set :
    (ts : List ClipPacketTrigger) (i : ℕ) (t : ClipPacketTrigger)
    → All IsBindable ts
    → IsBindable t
    → All IsBindable (set ts i t)
All-set [] i t all one = tt
All-set (x ∷ ts) zero t all one = (one, all.1)
All-set (x ∷ ts) (suc i) t all one = (all.0, All-set ts i t all.1 one)

All-packet_bound :
    (t : ClipPacketTrigger) (ts : List ClipPacketTrigger)
    → All IsBindable ts
    → IsBindable t
    → All IsBindable (packet_bound t ts)
unfolding packet_bound
All-packet_bound t ts all one =
    elim (Option-cases (position (has_packet_key (clip_packet_key t)) ts)) [
      | inl e ↦ rw (packet_bound, e) (All-append IsBindable ts (t ∷ []) all (one, tt))
      | inr (i, e) ↦ rw (packet_bound, e) (All-set ts i t all one)
    ]

All-retain :
    (p : ClipPacketTrigger → Bool) (ts : List ClipPacketTrigger)
    → All IsBindable ts
    → All IsBindable (retain p ts)
All-retain p [] all = tt
All-retain p (x ∷ ts) all = elim (Bool-cases (p x)) [
  | inl e ↦ rw e (all.0, All-retain p ts all.1)
  | inr e ↦ rw e (All-retain p ts all.1)
]

-- A change that keeps the invariant does so whether its frame is sent or not.
send_then-HoldsBindable :
    (sent : Bool) (frame : Frame) (record_it : DesiredState → DesiredState) (s : DesiredState)
    → HoldsBindable s
    → HoldsBindable (record_it s)
    → HoldsBindable (send_then sent frame record_it s).0
send_then-HoldsBindable true frame record_it s before after = after
send_then-HoldsBindable false frame record_it s before after = before

position-retain :
    (q p : ClipPacketTrigger → Bool) (ts : List ClipPacketTrigger)
    → position q ts ≡ none
    → position q (retain p ts) ≡ none
position-retain q p [] h = refl
position-retain q p (x ∷ ts) h = ground (arith, h, position-retain q p ts)

retain-IsUnique :
    (p : ClipPacketTrigger → Bool) (ts : List ClipPacketTrigger)
    → IsUnique clip_packet_key packet_key_eq ts
    → IsUnique clip_packet_key packet_key_eq (retain p ts)
retain-IsUnique p [] u = tt
retain-IsUnique p (x ∷ ts) u = elim (Bool-cases (p x)) [
  | inl e ↦
      rw e (position-retain (has_packet_key (clip_packet_key x)) p ts u.0, retain-IsUnique p ts u.1)
  | inr e ↦ rw e (retain-IsUnique p ts u.1)
]

bind_packet-HoldsBindable :
    (sent : Bool) (t : ClipPacketTrigger) (s : DesiredState)
    → HoldsBindable s
    → HoldsBindable (bind_packet sent t s).0
unfolding bind_packet clip_packet_bind
bind_packet-HoldsBindable sent t s held = checked (validate_packet_trigger t) refl
  where
    checked :
        (r : Result ClipError (Unit {0}))
        → validate_packet_trigger t ≡ r
        → HoldsBindable (bind_packet sent t s).0
    checked (err f) e = rw (bind_packet, e) held
    checked (ok tt) e =
        rw (bind_packet, e)
          (send_then-HoldsBindable sent _ (clip_packet_bind t) s held (
            All-packet_bound t s.clip.packet_triggers held.0 e,
            clip_packet_bind-HasUniquePackets t s held.1,
          ))

unbind_packet-HoldsBindable :
    (sent : Bool) (t : ClipPacketTrigger) (s : DesiredState)
    → HoldsBindable s
    → HoldsBindable (unbind_packet sent t s).0
unfolding unbind_packet clip_packet_unbind
unbind_packet-HoldsBindable sent t s held = checked (validate_packet_key t) refl
  where
    checked :
        (r : Result ClipError (Unit {0}))
        → validate_packet_key t ≡ r
        → HoldsBindable (unbind_packet sent t s).0
    checked (err f) e = rw (unbind_packet, e) held
    checked (ok tt) e =
        rw (unbind_packet, e)
          (send_then-HoldsBindable sent _ (clip_packet_unbind (clip_packet_key t)) s held (
            All-retain _ s.clip.packet_triggers held.0,
            retain-IsUnique _ s.clip.packet_triggers held.1,
          ))

-- A call that changes the clip's settings or triggers or discards the clip, sent or not, keeps
-- what the host holds bindable: one packet trigger to a key, each of which passes the checks of a
-- bind.
pub run_clip_call-HoldsBindable :
    (sent : Bool) (c : ClipCall) (s : DesiredState)
    → HoldsBindable s
    → HoldsBindable (run_clip_call sent c s).0
unfolding run_clip_call set_autolock set_loop set_retain set_ride set_value clip_setting bind
    clip_bind unbind clip_unbind clear_triggers clip_triggers_clear clear_clip clip_loaded
run_clip_call-HoldsBindable sent (ClipCall.autolock scope) s held =
    send_then-HoldsBindable sent _ (clip_setting 0 (blanket_scope scope)) s held held
run_clip_call-HoldsBindable sent (ClipCall.loop on) s held =
    send_then-HoldsBindable sent _ (clip_setting 1 (bool_u8 on)) s held held
run_clip_call-HoldsBindable sent (ClipCall.retain_clip on) s held =
    send_then-HoldsBindable sent _ (clip_setting 2 (bool_u8 on)) s held held
run_clip_call-HoldsBindable sent (ClipCall.ride on) s held =
    send_then-HoldsBindable sent _ (clip_setting 3 (bool_u8 on)) s held held
run_clip_call-HoldsBindable sent (ClipCall.bind_trigger t) s held =
    send_then-HoldsBindable sent _ (clip_bind t) s held held
run_clip_call-HoldsBindable sent (ClipCall.unbind_trigger u e) s held =
    send_then-HoldsBindable sent _ (clip_unbind ((class_id u).0, ((class_id u).1, edge_u8 e))) s
      held held
run_clip_call-HoldsBindable sent (ClipCall.bind_packet_trigger t) s held =
    bind_packet-HoldsBindable sent t s held
run_clip_call-HoldsBindable sent (ClipCall.unbind_packet_trigger t) s held =
    unbind_packet-HoldsBindable sent t s held
run_clip_call-HoldsBindable sent ClipCall.clear_all s held =
    send_then-HoldsBindable sent _ clip_triggers_clear s held (tt, tt)
run_clip_call-HoldsBindable sent ClipCall.discard s held =
    send_then-HoldsBindable sent _ (clip_loaded false) s held held
