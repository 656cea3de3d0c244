-- ===== src/Protocol/Frame/Corruption.antt =====
-- A frame with one wrong byte under its CRC.
use medius.Base.{
  ℕ, ◌+◌, ◌/◌, ◌%◌, ◌^◌, ◌≤◌, ◌≡◌, ◌≢◌, refl, sym, ap, ◌∙◌, arith, List, [], ◌∷◌, ◌++◌, length,
  IsByte, ok,
}
use medius.Protocol.Crc.{crc16_ccitt}
use medius.Protocol.Crc.Detection.{crc16_ccitt_detects}
use medius.Protocol.Opcode.{FrameType, as_u8, sof, max_payload}
use medius.Protocol.Frame.{State, FrameDecoder, crc_input, encode, feed, finish_frame}
use medius.Protocol.Frame.RoundTrip.{
  frame_bytes, read_frame, crc_input-covered, encode_bytes, feed-frame_bytes,
}

-- Two byte strings that differ in one byte, at the same place.
pub data OneByteOff (xs ys : List ℕ) : Type 0 where
  off :
      (front back : List ℕ) (a b : ℕ)
      → IsByte a
      → IsByte b
      → a ≢ b
      → xs ≡ front ++ (a ∷ back)
      → ys ≡ front ++ (b ∷ back)
      → OneByteOff xs ys

crc16_ccitt-OneByteOff : (xs ys : List ℕ) → OneByteOff xs ys → crc16_ccitt xs ≢ crc16_ccitt ys
crc16_ccitt-OneByteOff xs ys (off front back a b ha hb ne p q) e =
    crc16_ccitt_detects front back a b ha hb ne (ap crc16_ccitt (sym p) ∙ e ∙ ap crc16_ccitt q)

finish_wrong :
    (d : FrameDecoder)
    → crc16_ccitt (crc_input d.ty d.seq d.buf) ≢ d.crc_rx
    → finish_frame d ≡ (record d { crc_error_count = (d.crc_error_count + 1) % 2 ^ 64 }, [])
unfolding finish_frame
finish_wrong d ne = ground arith

feed-split :
    (d : FrameDecoder) (ty seq : ℕ) (payload : List ℕ) (crc : ℕ)
    → length payload ≤ max_payload
    → feed d (sof ∷ (crc_input ty seq payload ++ ((crc % 256) ∷ (crc / 256) ∷ [])))
      ≡ feed d (frame_bytes ty seq payload crc)
feed-split d ty seq payload crc h = rw (crc_input-covered ty seq payload h) refl

-- To a decoder that waits for a start byte, a frame of at most 512 bytes of payload with one wrong
-- byte in its type, its SEQ or its payload delivers nothing and counts one error.
pub feed-corrupted :
    (d : FrameDecoder) (ty : FrameType) (seq ty' seq' : ℕ) (payload payload' : List ℕ)
    → d.state ≡ State.at_sof
    → length payload ≤ max_payload
    → length payload' ≡ length payload
    → OneByteOff (crc_input (as_u8 ty) seq payload) (crc_input ty' seq' payload')
    → (lo hi : ℕ) × (encode ty seq payload
        ≡ ok (sof ∷ (crc_input (as_u8 ty) seq payload ++ (lo ∷ hi ∷ []))))
      × (feed d (sof ∷ (crc_input ty' seq' payload' ++ (lo ∷ hi ∷ []))) ≡ (
        record d {
          state = State.at_sof;
          ty = ty';
          seq = seq';
          len = length payload';
          buf = payload';
          crc_rx = crc16_ccitt (crc_input (as_u8 ty) seq payload);
          crc_error_count = (d.crc_error_count + 1) % 2 ^ 64;
        },
        [],
      ))
feed-corrupted d ty seq ty' seq' payload payload' e h n off_by =
    let c = crc16_ccitt (crc_input (as_u8 ty) seq payload) in
    let h' : length payload' ≤ max_payload = omega arith in
    let wrong = λ (q : crc16_ccitt (crc_input ty' seq' payload') ≡ c).
      crc16_ccitt-OneByteOff _ _ off_by (sym q) in
    let r : FrameDecoder = read_frame d ty' seq' payload' c in
    (
      c % 256,
      c / 256,
      rw (crc_input-covered (as_u8 ty) seq payload h) (encode_bytes ty seq payload h),
      feed-split d ty' seq' payload' c h'
          ∙ feed-frame_bytes d ty' seq' payload' c e h'
          ∙ rw (finish_wrong r wrong) refl,
    )
