-- ===== src/Protocol/Frame.antt =====
-- src/protocol/frame.rs: `encode` and the streaming `FrameDecoder`. The callback of `feed` is the
-- list of the frames that it is called with, in order.
pub mod Steps
pub mod RoundTrip
pub mod Stream
pub mod Corruption
pub mod Soundness
pub mod Bounds
mod Runs
use medius.Base.{
  ℕ, suc, ◌+◌, ◌*◌, ◌/◌, ◌%◌, ◌^◌, bit_and, bit_or, Bool, if◌then◌else◌, ltb, leb, ◌==◌, List, [],
  ◌∷◌, ◌++◌, length, Result, ok, err,
}
use medius.Protocol.Crc.{crc16_ccitt}
use medius.Protocol.Opcode.{FrameType, as_u8, try_from, sof, max_payload}

pub record DecodedFrame : Type 0 where
  pub ty : FrameType
  pub seq : ℕ
  pub payload : List ℕ

pub data FrameError : Type 0 where
  payload_too_long : ℕ → FrameError

-- `[TYPE][SEQ][LEN_LO][LEN_HI][PAYLOAD..]`, what the CRC covers, with the length as a `u16`.
pub crc_input : ℕ → ℕ → List ℕ → List ℕ
crc_input ty seq payload =
    let len = length payload % 2 ^ 16 in ty ∷ seq ∷ bit_and len 0xFF ∷ (len / 2 ^ 8 % 256) ∷ payload

pub encode : FrameType → ℕ → List ℕ → Result FrameError (List ℕ)
unfolding crc_input
encode ty seq payload =
    let covered = crc_input (as_u8 ty) seq payload in
    let crc = crc16_ccitt covered in
    if ltb max_payload (length payload)
    then err (payload_too_long (length payload))
    else ok (sof ∷ (covered ++ (bit_and crc 0xFF ∷ (crc / 2 ^ 8 % 256) ∷ [])))

pub data State : Type 0 where
  at_sof at_type at_seq at_len_lo at_len_hi at_payload at_crc_lo at_crc_hi : State

pub record FrameDecoder : Type 0 where
  pub state : State
  pub ty : ℕ
  pub seq : ℕ
  pub len : ℕ
  pub buf : List ℕ
  pub crc_rx : ℕ
  pub crc_error_count : ℕ

pub new : FrameDecoder
new = record {
  state = State.at_sof;
  ty = 0;
  seq = 0;
  len = 0;
  buf = [];
  crc_rx = 0;
  crc_error_count = 0;
}

-- The end of `finish_frame`, after the CRC has matched: an unknown opcode is dropped in silence.
pub emit_known : FrameDecoder → Result ℕ FrameType → FrameDecoder × List DecodedFrame
emit_known d (ok ty) =
    (record d { buf = [] }, record { ty = ty; seq = d.seq; payload = d.buf } ∷ [])
emit_known d (err other) = (d, [])

pub finish_frame : FrameDecoder → FrameDecoder × List DecodedFrame
unfolding emit_known
finish_frame d =
    if crc16_ccitt (crc_input d.ty d.seq d.buf) == d.crc_rx
    then emit_known d (try_from d.ty)
    else (record d { crc_error_count = (d.crc_error_count + 1) % 2 ^ 64 }, [])

-- The state after the high length byte.
pub after_len : ℕ → State
after_len len =
    if ltb max_payload len
    then State.at_sof
    else if len == 0
    then State.at_crc_lo
    else State.at_payload

pub feed_byte : FrameDecoder → ℕ → FrameDecoder × List DecodedFrame
unfolding finish_frame after_len
feed_byte d b = elim d.state [
  | State.at_sof ↦ ((if b == sof then record d { state = State.at_type } else d), [])
  | State.at_type ↦ (record d { ty = b; state = State.at_seq }, [])
  | State.at_seq ↦ (record d { seq = b; state = State.at_len_lo }, [])
  | State.at_len_lo ↦ (record d { len = b; state = State.at_len_hi }, [])
  | State.at_len_hi ↦
      let len = bit_or d.len (b * 2 ^ 8) in
      (record d { len = len; buf = []; state = after_len len }, [])
  | State.at_payload ↦
      let buf = d.buf ++ (b ∷ []) in
      let state = if leb d.len (length buf) then State.at_crc_lo else State.at_payload in
      (record d { buf = buf; state = state }, [])
  | State.at_crc_lo ↦ (record d { crc_rx = b; state = State.at_crc_hi }, [])
  | State.at_crc_hi ↦
      let (e, frames) = finish_frame (record d { crc_rx = bit_or d.crc_rx (b * 2 ^ 8) }) in
      (record e { state = State.at_sof }, frames)
]

pub feed : FrameDecoder → List ℕ → FrameDecoder × List DecodedFrame
feed d [] = (d, [])
feed d (b ∷ bytes) =
    let (e, frames) = feed_byte d b in let (f, more) = feed e bytes in (f, frames ++ more)
