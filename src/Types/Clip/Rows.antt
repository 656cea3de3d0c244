-- ===== src/Types/Clip/Rows.antt =====
-- The rows of RESP(CLIP) that list the triggers of src/types/clip.rs, one by one.
use medius.Base.{ℕ, ◌+◌, ◌*◌, ◌≤◌, ◌≡◌, refl, ap, ◌∙◌, arith, ◌==◌}
use medius.Base.{Bool, true, false, negate, if◌then◌else◌, bit_or}
use medius.Base.{
  some, List, [], ◌∷◌, ◌++◌, length, length-append, get_elem?, get_elem?-append, lo_byte, hi_byte,
  from_le-to_le,
}
use medius.Base.Options.{◌>>=◌, split-append, bind-some}
use medius.Types.Direction.{is_relative, dir_as_u8, dir_from_u8-dir_as_u8}
use medius.Types.Usage.{class_u8, class_from_u8-class_u8}
use medius.Types.Catch.{from_u8}
use medius.Types.Clip.{
  edge_u8, edge_from_u8-edge_u8, action_u8, action_from_u8-action_u8, ClipTrigger, TrafficClass,
  traffic_u8, flags, clip_trig_f_consume, clip_trig_f_run, ClipPacketTrigger,
  ClipPacketTriggerEntry,
}
use medius.Types.Clip.Reply.{
  traffic_of, is_surface, packet_head, has_flag, packet_from_wire, trigger_of, u16_at,
  triggers_from, pkt_match_max, clip_pkt_trig_entry,
}

abbrev pub trigger_row : ClipTrigger → List ℕ
trigger_row t =
    class_u8 t.on.class
    ∷ lo_byte t.on.id
    ∷ hi_byte t.on.id
    ∷ edge_u8 t.edge
    ∷ action_u8 t.action
    ∷ (if t.consume then 1 else 0)
    ∷ []

abbrev pub trigger_rows : List ClipTrigger → List ℕ
trigger_rows [] = []
trigger_rows (t ∷ ts) = trigger_row t ++ trigger_rows ts

-- The flags come without the bit that a bind adds.
abbrev pub packet_row : ClipPacketTriggerEntry → List ℕ
packet_row e =
    traffic_u8 e.trigger.class
    ∷ lo_byte e.trigger.id
    ∷ hi_byte e.trigger.id
    ∷ dir_as_u8 e.trigger.direction
    ∷ action_u8 e.trigger.action
    ∷ flags e.trigger
    ∷ e.trigger.selector_len
    ∷ length e.trigger.match_bytes
    ∷ lo_byte e.hits
    ∷ hi_byte e.hits
    ∷ (e.trigger.match_bytes ++ e.trigger.mask)

abbrev pub packet_rows : List ClipPacketTriggerEntry → List ℕ
packet_rows [] = []
packet_rows (e ∷ es) = packet_row e ++ packet_rows es

-- A trigger that the box can hold, as far as reading it back needs.
abbrev pub IsListable : ClipPacketTrigger → Type 0
IsListable t =
    (is_surface t.class ≡ true)
    × (is_relative t.direction ≡ false)
    × (length t.mask ≡ length t.match_bytes)
    × (length t.match_bytes ≤ pkt_match_max)

pub trigger_of-row :
    (t : ClipTrigger)
    → trigger_of
        (class_u8 t.on.class)
        t.on.id
        (edge_u8 t.edge)
        (action_u8 t.action)
        (if t.consume then 1 else 0)
      ≡ some t
unfolding trigger_of
trigger_of-row t =
    rw
      (
        class_from_u8-class_u8 t.on.class,
        edge_from_u8-edge_u8 t.edge,
        action_from_u8-action_u8 t.action,
      )
      (consumed t.consume)
  where
    consumed :
        (b : Bool)
        → some (record {
          on = record { class = t.on.class; id = t.on.id };
          edge = t.edge;
          action = t.action;
          consume = negate ((if b then 1 else 0) == 0);
        })
          ≡ some (record t { consume = b })
    consumed true = refl
    consumed false = refl

-- What stands in a payload from an offset on.
abbrev pub View : List ℕ → ℕ → List ℕ → Type 0
View p off ys = (j : ℕ) → get_elem? p (off + j) ≡ get_elem? ys j

pub View-append :
    (p : List ℕ) (off : ℕ) (xs ys : List ℕ) → View p off (xs ++ ys) → View p (off + length xs) ys
View-append p off xs ys view j =
    let at : off + length xs + j ≡ off + (length xs + j) = omega arith in
    ap (get_elem? p) at ∙ (view (length xs + j) ∙ get_elem?-append xs ys j (length xs + j) refl)

pub View-at :
    (p : List ℕ) (off i j : ℕ) (ys : List ℕ)
    → View p off ys
    → i ≡ off + j
    → get_elem? p i ≡ get_elem? ys j
View-at p off i j ys view h = ap (get_elem? p) h ∙ view j

pub u16_at-View :
    (p : List ℕ) (i v : ℕ)
    → get_elem? p i ≡ some (lo_byte v)
    → get_elem? p (i + 1) ≡ some (hi_byte v)
    → u16_at p i ≡ some v
unfolding u16_at
u16_at-View p i v lo hi = rw (lo, hi) (ap some (from_le-to_le v))

pub triggers_from-trigger_rows :
    (p rest : List ℕ) (ts : List ClipTrigger) (off : ℕ)
    → View p off (trigger_rows ts ++ rest)
    → triggers_from p (length ts) off ≡ some ts
unfolding triggers_from
triggers_from-trigger_rows p rest [] off view = refl
triggers_from-trigger_rows p rest (t ∷ ts) off view =
    let later =
      triggers_from-trigger_rows p rest ts (off + 6)
        (View-append p off (trigger_row t) (trigger_rows ts ++ rest) view) in
    let at : (i j : ℕ) → i ≡ off + j → get_elem? p i ≡ get_elem? (trigger_rows (t ∷ ts) ++ rest) j =
      λ i j h. View-at p off i j (trigger_rows (t ∷ ts) ++ rest) view h in
    let id =
      u16_at-View p (off + 1) t.on.id (at (off + 1) 1 refl) (at (off + 1 + 1) 2 (omega arith)) in
    rw
      (
        at off 0 (omega arith),
        id,
        at (off + 3) 3 refl,
        at (off + 4) 4 refl,
        at (off + 5) 5 refl,
        later,
        trigger_of-row t,
      )
      refl

has_flag-consume : (t : ClipPacketTrigger) → has_flag (flags t) clip_trig_f_consume ≡ t.consume
unfolding has_flag flags
has_flag-consume t = consume t.consume t.once_per_run
  where
    consume :
        (c r : Bool)
        → has_flag
            (bit_or (if c then clip_trig_f_consume else 0) (if r then clip_trig_f_run else 0))
            clip_trig_f_consume
          ≡ c
    consume true true = refl
    consume true false = refl
    consume false true = refl
    consume false false = refl

has_flag-run : (t : ClipPacketTrigger) → has_flag (flags t) clip_trig_f_run ≡ t.once_per_run
unfolding has_flag flags
has_flag-run t = run t.consume t.once_per_run
  where
    run :
        (c r : Bool)
        → has_flag
            (bit_or (if c then clip_trig_f_consume else 0) (if r then clip_trig_f_run else 0))
            clip_trig_f_run
          ≡ r
    run true true = refl
    run true false = refl
    run false true = refl
    run false false = refl

traffic_named : (c : TrafficClass) → (from_u8 (traffic_u8 c) >>= traffic_of) ≡ some c
unfolding from_u8 traffic_u8 traffic_of
traffic_named c = ground arith

packet_head-row :
    (t : ClipPacketTrigger)
    → IsListable t
    → packet_head (traffic_u8 t.class) (dir_as_u8 t.direction) (action_u8 t.action)
      ≡ some (t.class, (t.direction, t.action))
unfolding packet_head
packet_head-row t (surface, absolute, _, _) =
    let (k, (from, of)) =
      bind-some (from_u8 (traffic_u8 t.class)) traffic_of t.class (traffic_named t.class) in
    rw
      (
        packet_head,
        from,
        of,
        dir_from_u8-dir_as_u8 t.direction,
        absolute,
        action_from_u8-action_u8 t.action,
        surface,
      )
      refl

pub packet_from_wire-packet_row :
    (e : ClipPacketTriggerEntry)
    → IsListable e.trigger
    → packet_from_wire (packet_row e) ≡ some (some e)
unfolding packet_from_wire
packet_from_wire-packet_row e listable =
    let t = e.trigger in
    rw
      (
        packet_from_wire,
        packet_head-row t listable,
        split-append (length t.match_bytes) t.match_bytes t.mask refl,
        has_flag-consume t,
        has_flag-run t,
        from_le-to_le t.id,
        from_le-to_le e.hits,
      )
      refl

pub length-packet_row :
    (e : ClipPacketTriggerEntry)
    → IsListable e.trigger
    → length (packet_row e) ≡ clip_pkt_trig_entry + 2 * length e.trigger.match_bytes
length-packet_row e (_, _, same, _) =
    omega (arith, length-append e.trigger.match_bytes e.trigger.mask, same)
