-- ===== src/Types/Clip/Wire.antt =====
-- The settings of src/types/clip.rs against the bytes of RESP(CLIP) that list them.
use medius.Base.{ℕ, ◌+◌, ◌*◌, ◌≤◌, ◌≡◌, refl, sym, ap, ◌∙◌, arith, ltb, ◌==◌}
use medius.Base.{Bool, true, false, if◌then◌else◌}
use medius.Base.{
  some, List, [], ◌∷◌, ◌++◌, length, length-append, get_elem?, All, get_elem?_ext, get_elem?-append,
  get_elem?-append_left, retain,
}
use mathlib.Core.Path.{subst}
use medius.Types.Clip.{ClipTrigger, Blanket, blanket_scope, ClipPacketTriggerEntry, ClipSettings}
use medius.Types.Clip.Reply.{
  has_flag, packets_end, triggers_end, config_end, config_offset_of, clip_config_offset,
  blanket_from_scope, all_blankets, slice, packets_from, settings_from_payload, resp_clip_hdr,
  pkt_match_max, clip_trig_max, clip_pkt_trig_max, clip_pkt_trig_entry,
}
use medius.Types.Clip.Bounds.{slice-IsSome}
use medius.Types.Clip.Rows.{
  trigger_rows, packet_row, packet_rows, IsListable, View, View-append, View-at,
  triggers_from-trigger_rows, packet_from_wire-packet_row, length-packet_row,
}

-- What follows a row.
View-packet_row :
    (p : List ℕ) (e : ClipPacketTriggerEntry) (es : List ClipPacketTriggerEntry) (off : ℕ)
    → IsListable e.trigger
    → View p off (packet_rows (e ∷ es))
    → View p (off + clip_pkt_trig_entry + 2 * length e.trigger.match_bytes) (packet_rows es)
View-packet_row p e es off listable view =
    let next : off + length (packet_row e)
        ≡ off + clip_pkt_trig_entry + 2 * length e.trigger.match_bytes =
      omega (arith, length-packet_row e listable) in
    subst (λ i. View p i (packet_rows es)) next
      (View-append p off (packet_row e) (packet_rows es) view)

slice-View :
    (p row rest : List ℕ) (off n : ℕ)
    → View p off (row ++ rest)
    → length row ≡ n
    → off + n ≤ length p
    → slice p off n ≡ some row
slice-View p row rest off n view h within =
    let (found, e, long, at) = slice-IsSome p off n within in
    let same : found ≡ row = get_elem?_ext found row (long ∙ sym h) (λ j k.
      at j (omega (arith, k, long))
      ∙ (view j ∙ get_elem?-append_left row rest j (omega (arith, k, long, h)))) in
    e ∙ ap some same

packets_from-packet_rows :
    (p : List ℕ) (es : List ClipPacketTriggerEntry) (off : ℕ)
    → All (λ e. IsListable e.trigger) es
    → View p off (packet_rows es)
    → off + length (packet_rows es) ≡ length p
    → packets_from p (length es) off ≡ some es
unfolding packets_from
packets_from-packet_rows p [] off listable view h = refl
packets_from-packet_rows p (e ∷ es) off (first, others) view h =
    let m : ℕ = length e.trigger.match_bytes in
    let long = length-packet_row e first in
    let both = length-append (packet_row e) (packet_rows es) in
    let view' = View-packet_row p e es off first view in
    let later =
      packets_from-packet_rows p es (off + clip_pkt_trig_entry + 2 * m) others view'
        (omega (arith, both, long, h)) in
    let row =
      slice-View p (packet_row e) (packet_rows es) off (clip_pkt_trig_entry + 2 * m) view long
        (omega (arith, both, long, h)) in
    let mlen : get_elem? p (off + 7) ≡ some m = view 7 in
    rw (mlen, row, packet_from_wire-packet_row e first, later) refl

packets_end-packet_rows :
    (p : List ℕ) (es : List ClipPacketTriggerEntry) (off : ℕ)
    → All (λ e. IsListable e.trigger) es
    → View p off (packet_rows es)
    → packets_end p (length es) off ≡ some (off + length (packet_rows es))
unfolding packets_end
packets_end-packet_rows p [] off listable view = ap some (omega arith)
packets_end-packet_rows p (e ∷ es) off (first, others) view =
    let m : ℕ = length e.trigger.match_bytes in
    let long = length-packet_row e first in
    let view' = View-packet_row p e es off first view in
    let later = packets_end-packet_rows p es (off + clip_pkt_trig_entry + 2 * m) others view' in
    let mlen : get_elem? p (off + 7) ≡ some m = view 7 in
    let short : ltb pkt_match_max m ≡ false = ground (arith, first.3) in
    let sum : off + clip_pkt_trig_entry + 2 * m + length (packet_rows es)
        ≡ off + length (packet_row e ++ packet_rows es) =
      omega (arith, length-append (packet_row e) (packet_rows es), long) in
    rw (mlen, short, later) (ap some sum)

-- The groups of an autolock, in the order of `Blanket::ALL`.
abbrev pub groups : (Blanket → Bool) → List Blanket
groups p = retain p all_blankets

abbrev pick : Bool → Blanket → List Blanket → List Blanket
pick b x xs = if b then x ∷ xs else xs

abbrev picked : Bool → Bool → Bool → Bool → Bool → List Blanket
picked a w b k m =
    pick a Blanket.aim (
      pick w Blanket.wheel (pick b Blanket.buttons (pick k Blanket.keys (pick m Blanket.media []))))

blanket_from_scope-picked :
    (a w b k m : Bool) → blanket_from_scope (blanket_scope (picked a w b k m)) ≡ picked a w b k m
unfolding blanket_from_scope blanket_scope has_flag
blanket_from_scope-picked a w b k m = ground arith

blanket_from_scope-groups :
    (p : Blanket → Bool) → blanket_from_scope (blanket_scope (groups p)) ≡ groups p
blanket_from_scope-groups p =
    blanket_from_scope-picked (p Blanket.aim) (p Blanket.wheel) (p Blanket.buttons) (p Blanket.keys)
      (p Blanket.media)

-- The flag byte of the settings.
abbrev pub config_flags : Bool → Bool → Bool → Bool → ℕ
config_flags l r f d =
    (if l then 1 else 0) + (if r then 2 else 0) + (if f then 4 else 0) + (if d then 8 else 0)

config_flags_lem :
    (l r f d : Bool)
    → (has_flag (config_flags l r f d) 1 ≡ l)
      × (has_flag (config_flags l r f d) 2 ≡ r)
      × (has_flag (config_flags l r f d) 4 ≡ f)
      × (has_flag (config_flags l r f d) 8 ≡ d)
unfolding has_flag
config_flags_lem l r f d = ground arith

-- The configuration of a RESP(CLIP) payload, after its header and the held usages.
abbrev pub settings_bytes : ClipSettings → List ℕ
settings_bytes s =
    blanket_scope s.autolock
    ∷ config_flags s.loop s.retain s.finalized s.ride
    ∷ length s.triggers
    ∷ (trigger_rows s.triggers ++ (length s.packet_triggers ∷ packet_rows s.packet_triggers))

-- The settings that one reply can list.
abbrev pub IsReported : ClipSettings → Type 0
IsReported s =
    (((p : Blanket → Bool) × (s.autolock ≡ groups p)))
    × (length s.triggers ≤ clip_trig_max)
    × (length s.packet_triggers ≤ clip_pkt_trig_max)
    × (All (λ e. IsListable e.trigger) s.packet_triggers)

length-trigger_rows : (ts : List ClipTrigger) → length (trigger_rows ts) ≡ length ts * 6
length-trigger_rows [] = refl
length-trigger_rows (t ∷ ts) = omega (arith, length-trigger_rows ts)

module _ (header : List ℕ) (held_n : ℕ) (s : ClipSettings)
    (long : length header ≡ resp_clip_hdr + held_n * 3)
    (counted : get_elem? header 30 ≡ some held_n) (reported : IsReported s) where
  abbrev payload : List ℕ
  payload = header ++ settings_bytes s

  abbrev cfg : ℕ
  cfg = resp_clip_hdr + held_n * 3

  abbrev after : List ℕ
  after = length s.packet_triggers ∷ packet_rows s.packet_triggers

  view : View payload cfg (settings_bytes s)
  view j = get_elem?-append header (settings_bytes s) j (cfg + j) (omega (arith, long))

  rows_at : View payload (cfg + 3) (trigger_rows s.triggers ++ after)
  rows_at =
      View-append payload cfg
        (blanket_scope s.autolock
          ∷ config_flags s.loop s.retain s.finalized s.ride
          ∷ length s.triggers
          ∷ [])
        (trigger_rows s.triggers ++ after) view

  after_at : View payload (cfg + 3 + length s.triggers * 6) after
  after_at =
      subst (λ i. View payload (cfg + 3 + i) after) (length-trigger_rows s.triggers)
        (View-append payload (cfg + 3) (trigger_rows s.triggers) after rows_at)

  packets_at : View payload (cfg + 3 + length s.triggers * 6 + 1) (packet_rows s.packet_triggers)
  packets_at =
      View-append payload (cfg + 3 + length s.triggers * 6) (length s.packet_triggers ∷ [])
        (packet_rows s.packet_triggers) after_at

  length-payload :
      length payload ≡ cfg + 3 + length s.triggers * 6 + 1 + length (packet_rows s.packet_triggers)
  length-payload = omega (
    arith,
    long,
    length-append header (settings_bytes s),
    length-append (trigger_rows s.triggers) after,
    length-trigger_rows s.triggers,
  )

  count_at : get_elem? payload (cfg + 3 + length s.triggers * 6) ≡ some (length s.packet_triggers)
  count_at = View-at payload _ (cfg + 3 + length s.triggers * 6) 0 after after_at (omega arith)

  held_at : get_elem? payload 30 ≡ some held_n
  held_at = get_elem?-append_left header (settings_bytes s) 30 (omega (arith, long)) ∙ counted

  clip_config_offset-payload : clip_config_offset payload ≡ some cfg
  unfolding clip_config_offset config_offset_of config_end triggers_end
  clip_config_offset-payload =
      let ends =
        packets_end-packet_rows payload s.packet_triggers (cfg + 3 + length s.triggers * 6 + 1)
          reported.3 packets_at in
      let enough : ltb (length payload) resp_clip_hdr ≡ false = ground (arith, length-payload) in
      let few : ltb clip_trig_max (length s.triggers) ≡ false = ground (arith, reported.1) in
      let few' : ltb clip_pkt_trig_max (length s.packet_triggers) ≡ false =
        ground (arith, reported.2) in
      let whole : (length payload
            == cfg + 3 + length s.triggers * 6 + 1 + length (packet_rows s.packet_triggers))
          ≡ true =
        ground (arith, length-payload) in
      rw (enough, held_at, view 2, few, count_at, few', ends, whole) refl

  -- When the autolock lists its groups in the order of the source, there are at most 8 triggers of
  -- each kind and each packet trigger names a surface and an absolute direction and has a match of
  -- at most 16 bytes and a mask of the same length, the settings are read back from a RESP(CLIP)
  -- payload that lists them after its header and the held usages.
  pub settings_from_payload-settings_bytes :
      settings_from_payload (header ++ settings_bytes s) ≡ some s
  unfolding settings_from_payload
  settings_from_payload-settings_bytes =
      let (p, order) = reported.0 in
      let scope : blanket_from_scope (blanket_scope s.autolock) ≡ s.autolock =
        ap (λ g. blanket_from_scope (blanket_scope g)) order
        ∙ (blanket_from_scope-groups p ∙ sym order) in
      let (f1, f2, f4, f8) = config_flags_lem s.loop s.retain s.finalized s.ride in
      let triggers = triggers_from-trigger_rows payload after s.triggers (cfg + 3) rows_at in
      let packets =
        packets_from-packet_rows payload s.packet_triggers (cfg + 3 + length s.triggers * 6 + 1)
          reported.3 packets_at (sym length-payload) in
      let scope_at : get_elem? payload cfg ≡ some (blanket_scope s.autolock) =
        View-at payload cfg cfg 0 (settings_bytes s) view (omega arith) in
      rw
        (
          clip_config_offset-payload,
          scope_at,
          view 1,
          view 2,
          triggers,
          count_at,
          packets,
          scope,
          f1,
          f2,
          f4,
          f8,
        )
        refl
