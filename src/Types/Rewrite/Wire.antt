-- ===== src/Types/Rewrite/Wire.antt =====
-- The replies of src/types/rewrite.rs against the rows and the command that they repeat.
use medius.Base.{ℕ, ◌%◌, ◌<◌, ◌≡◌, refl, arith}
use medius.Base.{
  some, List, [], ◌∷◌, ◌++◌, lo_byte, hi_byte, from_le-to_le, length, negate, bit_and, ◌==◌,
}
use medius.Base.Options.{split-append}
use medius.Types.Direction.{dir_as_u8, dir_from_u8-dir_as_u8}
use medius.Types.Rewrite.{
  RewriteClass, rewrite_class_u8, rewrite_class_from_u8, RewriteAction, rewrite_action_u8,
  rewrite_action_from_u8, RewriteRule, RewriteEntry, rewrite_rows, table_from_payload,
  rewrite_entry_from_payload, rewrite_entry_of,
}
use medius.Protocol.Command.{rewrite_payload}

pub rewrite_class_from_u8-rewrite_class_u8 :
    (c : RewriteClass) → rewrite_class_from_u8 (rewrite_class_u8 c) ≡ some c
unfolding rewrite_class_from_u8 rewrite_class_u8
rewrite_class_from_u8-rewrite_class_u8 RewriteClass.hid_in = refl
rewrite_class_from_u8-rewrite_class_u8 _ = refl

pub rewrite_action_from_u8-rewrite_action_u8 :
    (a : RewriteAction) → rewrite_action_from_u8 (rewrite_action_u8 a) ≡ some a
unfolding rewrite_action_from_u8 rewrite_action_u8
rewrite_action_from_u8-rewrite_action_u8 RewriteAction.pass = refl
rewrite_action_from_u8-rewrite_action_u8 _ = refl

-- The REWRITE command that sets a rule.
abbrev pub set_payload : RewriteRule → List ℕ
set_payload r =
    rewrite_payload (rewrite_class_u8 r.class) r.id (dir_as_u8 r.direction) 1
      (rewrite_action_u8 r.action) r.offset r.match_bytes r.mask r.payload

-- When the mask is as long as the match and both are under 256 bytes, the reply that repeats a
-- rule's REWRITE command after two bytes is read back as the rule.
pub rewrite_entry_from_payload-set_payload :
    (what index : ℕ) (r : RewriteRule)
    → length r.mask ≡ length r.match_bytes
    → length r.match_bytes < 256
    → rewrite_entry_from_payload (what ∷ index ∷ set_payload r) ≡ some r
unfolding rewrite_entry_from_payload rewrite_payload
rewrite_entry_from_payload-set_payload what index r same short =
    let mlen : length r.match_bytes % 256 ≡ length r.match_bytes = omega arith in
    rw
      (
        mlen,
        rewrite_class_from_u8-rewrite_class_u8 r.class,
        dir_from_u8-dir_as_u8 r.direction,
        rewrite_action_from_u8-rewrite_action_u8 r.action,
        split-append (length r.match_bytes) r.match_bytes (r.mask ++ r.payload) refl,
        split-append (length r.match_bytes) r.mask r.payload same,
        from_le-to_le r.id,
        from_le-to_le r.offset,
      )
      refl

-- A row of RESP(REWRITE).
abbrev pub row_bytes : RewriteEntry → List ℕ
row_bytes e =
    rewrite_class_u8 e.class
    ∷ lo_byte e.id
    ∷ hi_byte e.id
    ∷ dir_as_u8 e.direction
    ∷ rewrite_action_u8 e.action
    ∷ e.match_len
    ∷ lo_byte e.offset
    ∷ hi_byte e.offset
    ∷ lo_byte e.payload_len
    ∷ hi_byte e.payload_len
    ∷ lo_byte e.hits
    ∷ hi_byte e.hits
    ∷ []

abbrev pub rows_bytes : List RewriteEntry → List ℕ
rows_bytes [] = []
rows_bytes (e ∷ es) = row_bytes e ++ rows_bytes es

rewrite_entry_of-row :
    (e : RewriteEntry)
    → rewrite_entry_of
        (rewrite_class_u8 e.class)
        e.id
        (dir_as_u8 e.direction)
        (rewrite_action_u8 e.action)
        e.match_len
        e.offset
        e.payload_len
        e.hits
      ≡ some e
unfolding rewrite_entry_of
rewrite_entry_of-row e =
    rw
      (
        rewrite_class_from_u8-rewrite_class_u8 e.class,
        rewrite_action_from_u8-rewrite_action_u8 e.action,
        dir_from_u8-dir_as_u8 e.direction,
      )
      refl

rewrite_rows-rows_bytes :
    (es : List RewriteEntry) → rewrite_rows (length es) (rows_bytes es) ≡ some es
unfolding rewrite_rows
rewrite_rows-rows_bytes [] = refl
rewrite_rows-rows_bytes (e ∷ es) =
    rw
      (
        from_le-to_le e.id,
        from_le-to_le e.offset,
        from_le-to_le e.payload_len,
        from_le-to_le e.hits,
        rewrite_entry_of-row e,
        rewrite_rows-rows_bytes es,
      )
      refl

pub table_from_payload-rows_bytes :
    (what flags generation : ℕ) (es : List RewriteEntry)
    → table_from_payload (what ∷ flags ∷ generation ∷ length es ∷ rows_bytes es)
      ≡ some (record {
        table_full = negate (bit_and flags 1 == 0);
        generation = generation;
        entries = es;
      })
unfolding table_from_payload
table_from_payload-rows_bytes what flags generation es = rw (rewrite_rows-rows_bytes es) refl
