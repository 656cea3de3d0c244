-- ===== src/Protocol/Frame/RoundTrip.antt =====
-- What `encode` writes, the decoder reads back.
use medius.Base.{
  ℕ, ◌/◌, ◌%◌, ◌≤◌, ◌<◌, ◌≡◌, refl, ap, ◌∙◌, arith, List, [], ◌∷◌, ◌++◌, length, from_le-to_le, ok,
  err,
}
use medius.Protocol.Crc.{crc16_ccitt}
use medius.Protocol.Crc.Detection.{crc16_ccitt-IsU16}
use medius.Protocol.Opcode.{FrameType, as_u8, sof, max_payload, try_from-as_u8}
use medius.Protocol.Frame.{
  State, FrameDecoder, payload_too_long, crc_input, encode, feed, finish_frame, emit_known,
}
use medius.Protocol.Frame.Steps.{feed_frame, conclude, low_byte}

-- The bytes of a frame, in plain arithmetic.
abbrev pub covered : ℕ → ℕ → List ℕ → List ℕ
covered ty seq payload = ty ∷ seq ∷ (length payload % 256) ∷ (length payload / 256) ∷ payload

abbrev pub frame_bytes : ℕ → ℕ → List ℕ → ℕ → List ℕ
frame_bytes ty seq payload crc =
    sof
    ∷ ty
    ∷ seq
    ∷ (length payload % 256)
    ∷ (length payload / 256)
    ∷ (payload ++ ((crc % 256) ∷ (crc / 256) ∷ []))

pub crc_input-covered :
    (ty seq : ℕ) (payload : List ℕ)
    → length payload ≤ max_payload
    → crc_input ty seq payload ≡ covered ty seq payload
unfolding crc_input
crc_input-covered ty seq payload h = ground (arith, low_byte (length payload % 65536))

pub encode_bytes :
    (ty : FrameType) (seq : ℕ) (payload : List ℕ)
    → length payload ≤ max_payload
    → encode ty seq payload
      ≡ ok (frame_bytes (as_u8 ty) seq payload (crc16_ccitt (covered (as_u8 ty) seq payload)))
unfolding encode
encode_bytes ty seq payload h =
    let e = crc_input-covered (as_u8 ty) seq payload h in
    let crc = crc16_ccitt (covered (as_u8 ty) seq payload) in
    let fits : crc < 65536 = crc16_ccitt-IsU16 (covered (as_u8 ty) seq payload) in
    ground (arith, e, low_byte crc)

finish_known :
    (d : FrameDecoder) (ty : FrameType)
    → d.ty ≡ as_u8 ty
    → crc16_ccitt (crc_input d.ty d.seq d.buf) ≡ d.crc_rx
    → finish_frame d
      ≡ (record d { buf = [] }, record { ty = ty; seq = d.seq; payload = d.buf } ∷ [])
unfolding finish_frame emit_known
finish_known d ty t c = ground (arith, try_from-as_u8 ty)

-- Before its CRC is looked at: the decoder that has read all of a frame.
abbrev pub read_frame : FrameDecoder → ℕ → ℕ → List ℕ → ℕ → FrameDecoder
read_frame d ty seq payload crc = record d {
  state = State.at_crc_hi;
  ty = ty;
  seq = seq;
  len = length payload;
  buf = payload;
  crc_rx = crc;
}

pub feed-frame_bytes :
    (d : FrameDecoder) (ty seq : ℕ) (payload : List ℕ) (crc : ℕ)
    → d.state ≡ State.at_sof
    → length payload ≤ max_payload
    → feed d (frame_bytes ty seq payload crc) ≡ conclude (read_frame d ty seq payload crc)
feed-frame_bytes d ty seq payload crc e h =
    let n = length payload in
    feed_frame d ty seq (n % 256) (n / 256) (crc % 256) (crc / 256) payload e (omega arith)
      (omega arith) h (omega arith)
    ∙ ap (λ (c : ℕ). conclude (read_frame d ty seq payload c)) (from_le-to_le crc)

pub feed-good_frame :
    (d : FrameDecoder) (ty : FrameType) (seq : ℕ) (payload : List ℕ)
    → d.state ≡ State.at_sof
    → length payload ≤ max_payload
    → let crc = crc16_ccitt (covered (as_u8 ty) seq payload) in
      feed d (frame_bytes (as_u8 ty) seq payload crc) ≡ (
        record (read_frame d (as_u8 ty) seq payload crc) { state = State.at_sof; buf = [] },
        record { ty = ty; seq = seq; payload = payload } ∷ [],
      )
feed-good_frame d ty seq payload e h =
    let crc = crc16_ccitt (covered (as_u8 ty) seq payload) in
    let r = read_frame d (as_u8 ty) seq payload crc in
    let good = ap crc16_ccitt (crc_input-covered (as_u8 ty) seq payload h) in
    feed-frame_bytes d (as_u8 ty) seq payload crc e h ∙ rw (finish_known r ty refl good) refl

-- On a payload that fits, `encode` gives a frame, and feeding that frame to a decoder that scans for
-- a start byte delivers exactly the frame, counts no error and ends scanning again.
pub feed-encode :
    (d : FrameDecoder) (ty : FrameType) (seq : ℕ) (payload : List ℕ)
    → d.state ≡ State.at_sof
    → length payload ≤ max_payload
    → (frame : List ℕ) × (encode ty seq payload ≡ ok frame)
      × ((feed d frame).1 ≡ record { ty = ty; seq = seq; payload = payload } ∷ [])
      × ((feed d frame).0.state ≡ State.at_sof)
      × ((feed d frame).0.crc_error_count ≡ d.crc_error_count)
feed-encode d ty seq payload e h =
    let run = feed-good_frame d ty seq payload e h in
    (_, encode_bytes ty seq payload h, rw run refl, rw run refl, rw run refl)

-- A payload over the limit is refused with its length.
pub encode_too_long :
    (ty : FrameType) (seq : ℕ) (payload : List ℕ)
    → max_payload < length payload
    → encode ty seq payload ≡ err (payload_too_long (length payload))
unfolding encode
encode_too_long ty seq payload h = ground arith
