-- ===== src/Types/Rewrite.antt =====
-- src/types/rewrite.rs: rules, their classes and actions, and the two replies that list them.
pub mod Wire
use medius.Base.{
  ℕ, zero, suc, ◌+◌, ◌*◌, ◌≡◌, refl, arith, if◌then◌else◌, ◌==◌, Bool, true, false, negate,
}
use medius.Base.{
  Option, none, some, List, [], ◌∷◌, ◌++◌, ◌&&◌, from_le, bit_and, length, sym, ap, ◌∙◌,
}
use medius.Base.Options.{◌>>=◌, keep, split}
use medius.Types.Direction.{Direction, dir_from_u8}

pub data RewriteClass : Type 0 where
  hid_in hid_out vendor_interrupt vendor_bulk control emit anything : RewriteClass

unfoldable pub rewrite_class_u8 : RewriteClass → ℕ
rewrite_class_u8 RewriteClass.hid_in = 4
rewrite_class_u8 RewriteClass.hid_out = 5
rewrite_class_u8 RewriteClass.vendor_interrupt = 6
rewrite_class_u8 RewriteClass.vendor_bulk = 7
rewrite_class_u8 RewriteClass.control = 8
rewrite_class_u8 RewriteClass.emit = 9
rewrite_class_u8 RewriteClass.anything = 0xFF

unfoldable pub rewrite_class_from_u8 : ℕ → Option RewriteClass
rewrite_class_from_u8 v =
    if v == 4
    then some RewriteClass.hid_in
    else if v == 5
    then some RewriteClass.hid_out
    else if v == 6
    then some RewriteClass.vendor_interrupt
    else if v == 7
    then some RewriteClass.vendor_bulk
    else if v == 8
    then some RewriteClass.control
    else if v == 9
    then some RewriteClass.emit
    else if v == 0xFF
    then some RewriteClass.anything
    else none

unfoldable pub is_control : RewriteClass → Bool
is_control RewriteClass.control = true
is_control _ = false

unfoldable pub is_any : RewriteClass → Bool
is_any RewriteClass.anything = true
is_any _ = false

pub data RewriteAction : Type 0 where
  pass drop patch replace answer stall nak reply_patch reply_replace : RewriteAction

unfoldable pub rewrite_action_u8 : RewriteAction → ℕ
rewrite_action_u8 RewriteAction.pass = 0
rewrite_action_u8 RewriteAction.drop = 1
rewrite_action_u8 RewriteAction.patch = 2
rewrite_action_u8 RewriteAction.replace = 3
rewrite_action_u8 RewriteAction.answer = 4
rewrite_action_u8 RewriteAction.stall = 5
rewrite_action_u8 RewriteAction.nak = 6
rewrite_action_u8 RewriteAction.reply_patch = 7
rewrite_action_u8 RewriteAction.reply_replace = 8

unfoldable pub rewrite_action_from_u8 : ℕ → Option RewriteAction
rewrite_action_from_u8 v =
    if v == 0
    then some RewriteAction.pass
    else if v == 1
    then some RewriteAction.drop
    else if v == 2
    then some RewriteAction.patch
    else if v == 3
    then some RewriteAction.replace
    else if v == 4
    then some RewriteAction.answer
    else if v == 5
    then some RewriteAction.stall
    else if v == 6
    then some RewriteAction.nak
    else if v == 7
    then some RewriteAction.reply_patch
    else if v == 8
    then some RewriteAction.reply_replace
    else none

unfoldable pub carries_payload : RewriteAction → Bool
carries_payload RewriteAction.patch = true
carries_payload RewriteAction.replace = true
carries_payload RewriteAction.answer = true
carries_payload RewriteAction.reply_patch = true
carries_payload RewriteAction.reply_replace = true
carries_payload _ = false

unfoldable pub is_valid_for : RewriteAction → RewriteClass → Bool
unfolding is_control is_any
is_valid_for RewriteAction.pass class = true
is_valid_for RewriteAction.patch class = true
is_valid_for RewriteAction.replace class = true
is_valid_for RewriteAction.drop class = negate (is_control class) && negate (is_any class)
is_valid_for _ class = is_control class

pub record RewriteRule : Type 0 where
  pub class : RewriteClass
  pub id : ℕ
  pub direction : Direction
  pub action : RewriteAction
  pub offset : ℕ
  pub match_bytes : List ℕ
  pub mask : List ℕ
  pub payload : List ℕ

pub record RewriteEntry : Type 0 where
  pub class : RewriteClass
  pub id : ℕ
  pub direction : Direction
  pub action : RewriteAction
  pub match_len : ℕ
  pub offset : ℕ
  pub payload_len : ℕ
  pub hits : ℕ

pub record RewriteTable : Type 0 where
  pub table_full : Bool
  pub generation : ℕ
  pub entries : List RewriteEntry

-- A row by its fields; a class, action or direction that a newer box added has no entry.
unfoldable pub rewrite_entry_of : ℕ → ℕ → ℕ → ℕ → ℕ → ℕ → ℕ → ℕ → Option RewriteEntry
unfolding rewrite_class_from_u8 rewrite_action_from_u8 dir_from_u8
rewrite_entry_of c id d a match_len offset payload_len hits = do
  class ← rewrite_class_from_u8 c
  action ← rewrite_action_from_u8 a
  direction ← dir_from_u8 d
  some (record {
    class = class;
    id = id;
    direction = direction;
    action = action;
    match_len = match_len;
    offset = offset;
    payload_len = payload_len;
    hits = hits;
  })

-- `[cls][id u16][dir][action][mlen][off u16][plen u16][hits u16]`; a row cut short fails the table.
unfoldable pub rewrite_rows : ℕ → List ℕ → Option (List RewriteEntry)
unfolding rewrite_entry_of
rewrite_rows zero rest = some []
rewrite_rows (suc n) (c ∷ i0 ∷ i1 ∷ d ∷ a ∷ m ∷ o0 ∷ o1 ∷ p0 ∷ p1 ∷ h0 ∷ h1 ∷ rest) = do
  let entry =
      rewrite_entry_of c (from_le i0 i1) d a m (from_le o0 o1) (from_le p0 p1) (from_le h0 h1)
  entries ← rewrite_rows n rest
  some (keep entry entries)
rewrite_rows (suc n) _ = none

-- RewriteTable::from_payload
unfoldable pub table_from_payload : List ℕ → Option RewriteTable
unfolding rewrite_rows
table_from_payload (what ∷ flags ∷ generation ∷ n ∷ rest) = do
  entries ← rewrite_rows n rest
  some (record {
    table_full = negate (bit_and flags 1 == 0);
    generation = generation;
    entries = entries;
  })
table_from_payload _ = none

-- `[what][index][cls][id u16][dir][state][action][off u16][mlen][match][mask][payload]`
unfoldable pub rewrite_entry_from_payload : List ℕ → Option RewriteRule
unfolding rewrite_class_from_u8 rewrite_action_from_u8 dir_from_u8 split
rewrite_entry_from_payload (what ∷ index ∷ c ∷ i0 ∷ i1 ∷ d ∷ state ∷ a ∷ o0 ∷ o1 ∷ mlen ∷ rest) = do
  class ← rewrite_class_from_u8 c
  direction ← dir_from_u8 d
  action ← rewrite_action_from_u8 a
  (match_bytes, after) ← split mlen rest
  (mask, payload) ← split mlen after
  some (record {
    class = class;
    id = from_le i0 i1;
    direction = direction;
    action = action;
    offset = from_le o0 o1;
    match_bytes = match_bytes;
    mask = mask;
    payload = payload;
  })
rewrite_entry_from_payload _ = none
