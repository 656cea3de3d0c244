-- ===== src/Protocol/Frame/Stream.antt =====
-- Frames among noise, and reads of any size, as the reader thread feeds them.
use medius.Base.{
  ℕ, ◌≤◌, ◌≡◌, ◌≢◌, refl, ap, ◌∙◌, arith, List, [], ◌∷◌, ◌++◌, map, length, All, Result, ok, ◌>>=◌,
}
use medius.Protocol.Crc.{crc16_ccitt}
use medius.Protocol.Opcode.{FrameType, as_u8, sof, max_payload}
use medius.Protocol.Frame.{State, FrameDecoder, DecodedFrame, FrameError, encode, feed_byte, feed}
use medius.Protocol.Frame.Steps.{feed-append}
use medius.Protocol.Frame.RoundTrip.{
  covered, frame_bytes, read_frame, encode_bytes, feed-good_frame,
}

-- The reads of `reader_loop`, each fed to the same decoder.
unfoldable pub feed_chunks : FrameDecoder → List (List ℕ) → FrameDecoder × List DecodedFrame
feed_chunks d [] = (d, [])
feed_chunks d (c ∷ chunks) =
    let (e, frames) = feed d c in let (f, more) = feed_chunks e chunks in (f, frames ++ more)

abbrev pub concat : List (List ℕ) → List ℕ
concat [] = []
concat (c ∷ chunks) = c ++ concat chunks

-- Splitting the input into reads changes neither frames nor decoder.
pub feed_chunks_lem :
    (d : FrameDecoder) (chunks : List (List ℕ)) → feed_chunks d chunks ≡ feed d (concat chunks)
unfolding feed_chunks
feed_chunks_lem d [] = unfold feed in refl
feed_chunks_lem d (c ∷ chunks) =
    rw (feed-append d c (concat chunks), feed_chunks_lem (feed d c).0 chunks) refl

-- A frame and the line noise before it.
pub record Segment : Type 0 where
  pub noise : List ℕ
  pub ty : FrameType
  pub seq : ℕ
  pub payload : List ℕ

abbrev pub sent : Segment → DecodedFrame
sent s = record { ty = s.ty; seq = s.seq; payload = s.payload }

-- The noise holds no start byte, and the payload fits.
abbrev pub IsSendable : Segment → Type 0
IsSendable s = All (λ b. b ≢ sof) s.noise × (length s.payload ≤ max_payload)

-- The bytes on the line.
pub wire : List Segment → Result FrameError (List ℕ)
wire [] = ok []
wire (s ∷ segments) = do
  frame ← encode s.ty s.seq s.payload
  rest ← wire segments
  ok (s.noise ++ (frame ++ rest))

skip_byte : (d : FrameDecoder) (b : ℕ) → d.state ≡ State.at_sof → b ≢ sof → feed_byte d b ≡ (d, [])
unfolding feed_byte
skip_byte d b e ne = rw (e, feed_byte) (ground arith)

feed-noise :
    (d : FrameDecoder) (noise : List ℕ)
    → d.state ≡ State.at_sof
    → All (λ b. b ≢ sof) noise
    → feed d noise ≡ (d, [])
unfolding feed
feed-noise d [] e h = refl
feed-noise d (b ∷ noise) e h = rw (skip_byte d b e h.0, feed-noise d noise e h.1) refl

abbrev checksum : Segment → ℕ
checksum s = crc16_ccitt (covered (as_u8 s.ty) s.seq s.payload)

abbrev frame_of : Segment → List ℕ
frame_of s = frame_bytes (as_u8 s.ty) s.seq s.payload (checksum s)

-- The decoder after a segment.
abbrev settle : FrameDecoder → Segment → FrameDecoder
settle d s = record (read_frame d (as_u8 s.ty) s.seq s.payload (checksum s)) {
  state = State.at_sof;
  buf = [];
}

abbrev line : List Segment → List ℕ
line [] = []
line (s ∷ segments) = s.noise ++ (frame_of s ++ line segments)

wire-line : (segments : List Segment) → All IsSendable segments → wire segments ≡ ok (line segments)
unfolding wire
wire-line [] h = refl
wire-line (s ∷ segments) h =
    rw (encode_bytes s.ty s.seq s.payload h.0.1, wire-line segments h.1) refl

-- One segment: its frame comes out, and the decoder scans again.
feed-segment :
    (d : FrameDecoder) (s : Segment) (rest : List ℕ)
    → d.state ≡ State.at_sof
    → IsSendable s
    → feed d (s.noise ++ (frame_of s ++ rest))
      ≡ ((feed (settle d s) rest).0, sent s ∷ (feed (settle d s) rest).1)
feed-segment d s rest e h =
    feed-append d s.noise (frame_of s ++ rest)
    ∙ rw (feed-noise d s.noise e h.0)
        (feed-append d (frame_of s) rest ∙ rw (feed-good_frame d s.ty s.seq s.payload e h.1) refl)

feed-line :
    (d : FrameDecoder) (segments : List Segment)
    → d.state ≡ State.at_sof
    → All IsSendable segments
    → ((feed d (line segments)).1 ≡ map sent segments)
      × ((feed d (line segments)).0.state ≡ State.at_sof)
      × ((feed d (line segments)).0.crc_error_count ≡ d.crc_error_count)
feed-line d [] e h = unfold feed in (refl, e, refl)
feed-line d (s ∷ segments) e h =
    let (frames, state, count) = feed-line (settle d s) segments refl h.1 in
    rw (feed-segment d s (line segments) e h.0) (ap (◌∷◌ (sent s)) frames, state, count)

-- Frames encoded and sent among noise without start bytes are all delivered, in order.
pub feed-wire :
    (d : FrameDecoder) (segments : List Segment)
    → d.state ≡ State.at_sof
    → All IsSendable segments
    → (bytes : List ℕ) × (wire segments ≡ ok bytes)
      × ((feed d bytes).1 ≡ map sent segments)
      × ((feed d bytes).0.state ≡ State.at_sof)
      × ((feed d bytes).0.crc_error_count ≡ d.crc_error_count)
feed-wire d segments e h =
    let (frames, state, count) = feed-line d segments e h in
    (line segments, wire-line segments h, frames, state, count)
