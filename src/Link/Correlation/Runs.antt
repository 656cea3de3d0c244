-- ===== src/Link/Correlation/Runs.antt =====
-- Runs of the reply table of src/link/correlation.rs.
use medius.Base.{◌≡◌, ◌≢◌, refl, arith, true, none, some, [], ◌∷◌, ◌++◌}
use medius.Base.Map.{lookup, contains_key}
use medius.Base.Keys.{nat_key}
use medius.Protocol.Opcode.{FrameType, as_u8}
use medius.Link.Correlation.{PendingEntry, Pending, hello_seq, register, expects, deliver, take_seq}
use medius.Link.Correlation.Seq.{is_free}
use medius.Base.{if◌then◌else◌, ◌==◌}
use medius.Link.Correlation.Replies.{IsTable, entry_of, register_free, deliver-register}

-- A transfer waits on SEQ 255, and the counter stands there too.
abbrev waiting : PendingEntry
waiting = record { gen_id = 6; expected_ty = FrameType.transfer_resp; expected_what = 2 }

abbrev table : Pending
table = record { pending = (255, waiting) ∷ []; query_gen = 7; seq_counter = 255; sent = [] }

table-IsTable : IsTable table
table-IsTable = ((tt, tt), omega arith)

-- The next request passes over 255 and the hello's 0.
register_wraps : (register FrameType.resp 0 table).1 ≡ 1
unfolding register take_seq contains_key
register_wraps = refl

one_free : is_free table.pending 1 ≡ true
unfolding contains_key
one_free = refl

register_free_example :
    (lookup (register FrameType.resp 0 table).1 table.pending ≡ none)
    × ((register FrameType.resp 0 table).1 ≢ hello_seq)
    × (lookup 255 (register FrameType.resp 0 table).0.pending ≡ (
        if (register FrameType.resp 0 table).1 == 255
        then some (entry_of FrameType.resp 0 table)
        else lookup 255 table.pending))
register_free_example =
    register_free FrameType.resp 0 table 1 255 table-IsTable (omega arith) one_free

version_expected : expects (entry_of FrameType.resp 0 table) FrameType.resp (0 ∷ 9 ∷ []) ≡ true
unfolding expects as_u8
version_expected = refl

deliver-register_example :
    ((deliver FrameType.resp
        (register FrameType.resp 0 table).1
        (0 ∷ 9 ∷ [])
        (register FrameType.resp 0 table).0).pending
      ≡ table.pending)
    × ((deliver FrameType.resp
          (register FrameType.resp 0 table).1
          (0 ∷ 9 ∷ [])
          (register FrameType.resp 0 table).0).sent
        ≡ table.sent ++ (((register FrameType.resp 0 table).2, 0 ∷ 9 ∷ []) ∷ []))
deliver-register_example =
    deliver-register FrameType.resp 0 1 (0 ∷ 9 ∷ []) table table-IsTable (omega arith) one_free
      version_expected

-- A RESP on a waiting transfer's SEQ is not its reply, whatever its first byte.
stale_reply : (deliver FrameType.resp 255 (2 ∷ []) table).pending ≡ table.pending
unfolding deliver expects lookup as_u8
stale_reply = refl
