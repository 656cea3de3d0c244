-- ===== src/Protocol/Frame/Runs.antt =====
-- Runs of the frame codec on concrete bytes, and its theorems at concrete inputs.
use medius.Base.{
  ℕ, ◌^◌, ◌+◌, ◌%◌, ◌≡◌, ◌≢◌, refl, arith, List, [], map, ◌∷◌, ◌++◌, replicate, ok, err,
}
use medius.Protocol.Crc.{crc16_ccitt, crc_bytes, crc_byte, crc_shifts, crc_shift}
use medius.Protocol.Crc.Detection.{crc16_ccitt_detects}
use medius.Protocol.Opcode.{FrameType, as_u8, try_from, sof, as_u8-try_from}
use medius.Protocol.Frame.{State, payload_too_long, crc_input, encode, feed_byte, feed, new}
use medius.Protocol.Frame.RoundTrip.{feed-encode, encode_too_long}
use medius.Protocol.Frame.Stream.{feed_chunks, Segment, sent, wire, feed-wire}
use medius.Protocol.Frame.Corruption.{OneByteOff, feed-corrupted}
use medius.Protocol.Frame.Bounds.{new-IsValid, feed_resyncs}
use medius.Protocol.Frame.Soundness.{Delivers, feed-new-Delivers}

-- The check value of CRC-16/CCITT-FALSE.
crc_check_value :
    crc16_ccitt (0x31 ∷ 0x32 ∷ 0x33 ∷ 0x34 ∷ 0x35 ∷ 0x36 ∷ 0x37 ∷ 0x38 ∷ 0x39 ∷ []) ≡ 0x29B1
unfolding crc16_ccitt crc_bytes crc_byte crc_shifts crc_shift
crc_check_value = refl

-- QUERY(HEALTH) with sequence number 7.
abbrev health_query : List ℕ
health_query = 0xA5 ∷ 0x05 ∷ 7 ∷ 1 ∷ 0 ∷ 1 ∷ 0x67 ∷ 0x44 ∷ []

encode_query : encode FrameType.query 7 (1 ∷ []) ≡ ok health_query
unfolding encode as_u8 crc16_ccitt crc_bytes crc_byte crc_shifts crc_shift
encode_query = refl

-- The same frame behind two bytes of noise, in three reads.
chunked : List (List ℕ)
chunked = (0 ∷ 0x11 ∷ 0xA5 ∷ []) ∷ (0x05 ∷ 7 ∷ []) ∷ (1 ∷ 0 ∷ 1 ∷ 0x67 ∷ 0x44 ∷ []) ∷ []

feed_chunked :
    (feed_chunks new chunked).1 ≡ record { ty = FrameType.query; seq = 7; payload = 1 ∷ [] } ∷ []
unfolding feed_chunks chunked new feed feed_byte crc16_ccitt crc_bytes crc_byte crc_shifts crc_shift
    try_from crc_input
feed_chunked = refl

crc16_ccitt_detects_example : crc16_ccitt (5 ∷ 7 ∷ 1 ∷ []) ≢ crc16_ccitt (5 ∷ 8 ∷ 1 ∷ [])
crc16_ccitt_detects_example =
    crc16_ccitt_detects (5 ∷ []) (1 ∷ []) 7 8 (omega arith) (omega arith) (omega arith)

as_u8-try_from_example : as_u8 FrameType.usage_event ≡ 0x0F
as_u8-try_from_example = as_u8-try_from 0x0F FrameType.usage_event (unfold try_from in refl)

feed-encode_example :
    (frame : List ℕ) × (encode FrameType.query 7 (1 ∷ []) ≡ ok frame)
    × ((feed new frame).1 ≡ record { ty = FrameType.query; seq = 7; payload = 1 ∷ [] } ∷ [])
    × ((feed new frame).0.state ≡ State.at_sof)
    × ((feed new frame).0.crc_error_count ≡ new.crc_error_count)
feed-encode_example = feed-encode new FrameType.query 7 (1 ∷ []) (unfold new in refl) (omega arith)

encode_too_long_example : encode FrameType.raw 1 (replicate 513 0) ≡ err (payload_too_long 513)
encode_too_long_example = encode_too_long FrameType.raw 1 (replicate 513 0) (omega arith)

abbrev two_segments : List Segment
two_segments =
    record { noise = 1 ∷ 2 ∷ []; ty = FrameType.query; seq = 7; payload = 1 ∷ [] }
    ∷ record { noise = 3 ∷ []; ty = FrameType.reset; seq = 8; payload = [] }
    ∷ []

feed-wire_example :
    (bytes : List ℕ) × (wire two_segments ≡ ok bytes)
    × ((feed new bytes).1 ≡ map sent two_segments)
    × ((feed new bytes).0.state ≡ State.at_sof)
    × ((feed new bytes).0.crc_error_count ≡ new.crc_error_count)
feed-wire_example = feed-wire new two_segments (unfold new in refl) (ground arith)

wrong_byte : OneByteOff (crc_input (as_u8 FrameType.query) 7 (1 ∷ [])) (crc_input 5 7 (3 ∷ []))
unfolding crc_input as_u8
wrong_byte =
    OneByteOff.off (5 ∷ 7 ∷ 1 ∷ 0 ∷ []) [] 1 3 (omega arith) (omega arith) (omega arith) refl refl

-- The payload byte 1 arrives as 3.
feed-corrupted_example :
    (lo hi : ℕ) × (encode FrameType.query 7 (1 ∷ [])
      ≡ ok (sof ∷ (crc_input (as_u8 FrameType.query) 7 (1 ∷ []) ++ (lo ∷ hi ∷ []))))
    × (feed new (sof ∷ (crc_input 5 7 (3 ∷ []) ++ (lo ∷ hi ∷ []))) ≡ (
      record new {
        state = State.at_sof;
        ty = 5;
        seq = 7;
        len = 1;
        buf = 3 ∷ [];
        crc_rx = crc16_ccitt (crc_input (as_u8 FrameType.query) 7 (1 ∷ []));
        crc_error_count = (new.crc_error_count + 1) % 2 ^ 64;
      },
      [],
    ))
feed-corrupted_example =
    feed-corrupted new FrameType.query 7 5 7 (1 ∷ []) (3 ∷ []) (unfold new in refl) (omega arith)
      (omega arith) wrong_byte

feed_resyncs_example : (feed new (replicate 518 0)).0.state ≡ State.at_sof
feed_resyncs_example =
    feed_resyncs new (replicate 518 0) new-IsValid (omega arith) (omega arith) (omega arith)

feed-new-Delivers_example : Delivers health_query (feed new health_query).1
feed-new-Delivers_example = feed-new-Delivers health_query (omega arith)
