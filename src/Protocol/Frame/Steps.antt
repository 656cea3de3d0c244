-- ===== src/Protocol/Frame/Steps.antt =====
-- How `feed` moves through the header and the payload of one frame.
use medius.Base.{
  ℕ, ◌+◌, ◌*◌, ◌%◌, ◌^◌, ◌≤◌, ◌<◌, bit_and, bit_or, ◌≡◌, refl, ◌∙◌, arith, List, [], ◌∷◌, ◌++◌,
  length, IsByte, length-append,
}
use mathlib.Core.List.{append_assoc, append-nil}
use medius.Base.Bits.{bit_or_fields, bit_and_mask}
use medius.Protocol.Opcode.{sof, max_payload}
use medius.Protocol.Frame.{
  State, FrameDecoder, DecodedFrame, after_len, finish_frame, feed_byte, feed,
}

-- Feeding in two chunks is feeding their concatenation.
pub feed-append :
    (d : FrameDecoder) (xs ys : List ℕ)
    → feed d (xs ++ ys) ≡ ((feed (feed d xs).0 ys).0, (feed d xs).1 ++ (feed (feed d xs).0 ys).1)
unfolding feed
feed-append d [] ys = refl
feed-append d (x ∷ xs) ys = rw (feed-append (feed_byte d x).0 xs ys, append_assoc) refl

pub low_byte : (w : ℕ) → bit_and w 0xFF ≡ w % 256
low_byte w = bit_and_mask 8 w

pub join_bytes : (lo hi : ℕ) → IsByte lo → bit_or lo (hi * 2 ^ 8) ≡ lo + hi * 256
join_bytes lo hi h = bit_or_fields 8 lo hi h

-- The last byte of a frame: the check, and back to the scan.
abbrev pub conclude : FrameDecoder → FrameDecoder × List DecodedFrame
conclude d = (record (finish_frame d).0 { state = State.at_sof }, (finish_frame d).1)

-- The decoder that has read a header and stands where `state` says.
abbrev pub headed : FrameDecoder → State → ℕ → ℕ → ℕ → FrameDecoder
headed d state ty seq len = record d { state = state; ty = ty; seq = seq; len = len; buf = [] }

feed-sof :
    (d : FrameDecoder) (rest : List ℕ)
    → d.state ≡ State.at_sof
    → feed d (sof ∷ rest) ≡ feed (record d { state = State.at_type }) rest
unfolding feed feed_byte
feed-sof d rest e = rw (e, feed_byte) refl

feed_header :
    (d : FrameDecoder) (ty seq lo hi : ℕ) (rest : List ℕ)
    → d.state ≡ State.at_sof
    → IsByte lo
    → feed d (sof ∷ ty ∷ seq ∷ lo ∷ hi ∷ rest)
      ≡ feed (headed d (after_len (lo + hi * 256)) ty seq (lo + hi * 256)) rest
unfolding feed feed_byte
feed_header d ty seq lo hi rest e h =
    feed-sof d (ty ∷ seq ∷ lo ∷ hi ∷ rest) e ∙ rw (join_bytes lo hi h) refl

-- A byte that completes no frame.
feed_quiet :
    (d : FrameDecoder) (e : FrameDecoder) (b : ℕ) (rest : List ℕ)
    → feed_byte d b ≡ (e, [])
    → feed d (b ∷ rest) ≡ feed e rest
unfolding feed
feed_quiet d e b rest h = rw h refl

payload_last :
    (d : FrameDecoder) (p : ℕ)
    → d.state ≡ State.at_payload
    → d.len ≡ length d.buf + 1
    → feed_byte d p ≡ (record d { buf = d.buf ++ (p ∷ []); state = State.at_crc_lo }, [])
unfolding feed_byte
payload_last d p e n = ground (arith, length-append d.buf (p ∷ []))

payload_more :
    (d : FrameDecoder) (p : ℕ)
    → d.state ≡ State.at_payload
    → length d.buf + 1 < d.len
    → feed_byte d p ≡ (record d { buf = d.buf ++ (p ∷ []); state = State.at_payload }, [])
unfolding feed_byte
payload_more d p e n = ground (arith, length-append d.buf (p ∷ []))

feed_payload :
    (d : FrameDecoder) (p : ℕ) (ps rest : List ℕ)
    → d.state ≡ State.at_payload
    → d.len ≡ length d.buf + length (p ∷ ps)
    → feed d (p ∷ (ps ++ rest))
      ≡ feed (record d { state = State.at_crc_lo; buf = d.buf ++ (p ∷ ps) }) rest
feed_payload d p [] rest e n = feed_quiet d _ p rest (payload_last d p e n)
feed_payload d p (q ∷ ps) rest e n =
    let d' : FrameDecoder = record d { buf = d.buf ++ (p ∷ []); state = State.at_payload } in
    feed_quiet d d' p (q ∷ (ps ++ rest)) (payload_more d p e (omega arith))
    ∙ feed_payload d' q ps rest refl (omega (arith, length-append d.buf (p ∷ [])))
    ∙ rw (append_assoc d.buf (p ∷ []) (q ∷ ps)) refl

-- A whole payload, the empty one too.
feed_body :
    (d : FrameDecoder) (payload rest : List ℕ)
    → d.state ≡ after_len (length payload)
    → d.len ≡ length payload
    → d.buf ≡ []
    → length payload ≤ max_payload
    → feed d (payload ++ rest) ≡ feed (record d { state = State.at_crc_lo; buf = payload }) rest
unfolding after_len
feed_body d [] rest s n e h = λ i. feed (record d { state = s i; buf = e i }) rest
feed_body d (p ∷ ps) rest s n e h =
    feed_payload d p ps rest (ground arith) (ground arith) ∙ rw e refl

checksum_lo :
    (d : FrameDecoder) (lo : ℕ)
    → d.state ≡ State.at_crc_lo
    → feed_byte d lo ≡ (record d { state = State.at_crc_hi; crc_rx = lo }, [])
unfolding feed_byte
checksum_lo d lo e = rw (e, feed_byte) refl

checksum_hi :
    (d : FrameDecoder) (lo hi : ℕ)
    → feed (record d { state = State.at_crc_hi; crc_rx = lo }) (hi ∷ [])
      ≡ conclude (record d { state = State.at_crc_hi; crc_rx = bit_or lo (hi * 2 ^ 8) })
unfolding feed feed_byte
checksum_hi d lo hi = rw append-nil refl

feed_checksum :
    (d : FrameDecoder) (lo hi : ℕ)
    → d.state ≡ State.at_crc_lo
    → IsByte lo
    → feed d (lo ∷ hi ∷ [])
      ≡ conclude (record d { state = State.at_crc_hi; crc_rx = lo + hi * 256 })
feed_checksum d lo hi e h =
    feed_quiet d (record d { state = State.at_crc_hi; crc_rx = lo }) lo (hi ∷ [])
      (checksum_lo d lo e)
    ∙ checksum_hi d lo hi
    ∙ rw (join_bytes lo hi h) refl

-- One whole frame, from the scan to its last byte.
pub feed_frame :
    (d : FrameDecoder) (ty seq lo hi clo chi : ℕ) (payload : List ℕ)
    → d.state ≡ State.at_sof
    → IsByte lo
    → lo + hi * 256 ≡ length payload
    → length payload ≤ max_payload
    → IsByte clo
    → feed d (sof ∷ ty ∷ seq ∷ lo ∷ hi ∷ (payload ++ (clo ∷ chi ∷ [])))
      ≡ conclude (record d {
        state = State.at_crc_hi;
        ty = ty;
        seq = seq;
        len = length payload;
        buf = payload;
        crc_rx = clo + chi * 256;
      })
feed_frame d ty seq lo hi clo chi payload e hlo n h hclo =
    feed_header d ty seq lo hi (payload ++ (clo ∷ chi ∷ [])) e hlo
    ∙ rw n (
        feed_body (headed d (after_len (length payload)) ty seq (length payload)) payload
          (clo ∷ chi ∷ []) refl refl refl h
        ∙ feed_checksum
            (record (headed d State.at_crc_lo ty seq (length payload)) { buf = payload }) clo chi
            refl hclo)
