-- ===== src/Protocol/Frame/Bounds.antt =====
-- The decoder's buffer is bounded, and a stuck frame cannot hold the decoder for long.
use medius.Base.{
  ℕ, ◌+◌, ◌-◌, ◌*◌, ◌^◌, ◌≤◌, ◌<◌, bit_or, ◌≡◌, ◌≢◌, refl, arith, List, [], ◌∷◌, length,
  length-append, All, IsByte, Result, ok, err,
}
use medius.Protocol.Opcode.{FrameType, sof, max_payload, try_from}
use medius.Protocol.Frame.{
  State, FrameDecoder, feed_byte, feed, finish_frame, emit_known, after_len, new,
}
use medius.Protocol.Frame.Steps.{join_bytes}

-- What the decoder holds in each state of the scan.
abbrev pub Fits : State → FrameDecoder → Type 0
Fits State.at_sof d = Unit {0}
Fits State.at_type d = Unit {0}
Fits State.at_seq d = Unit {0}
Fits State.at_len_lo d = Unit {0}
Fits State.at_len_hi d = d.len < 256
Fits State.at_payload d = (length d.buf < d.len) × (d.len ≤ max_payload)
Fits State.at_crc_lo d = d.len ≡ length d.buf
Fits State.at_crc_hi d = (d.len ≡ length d.buf) × (d.crc_rx < 256)

pub record IsValid (d : FrameDecoder) : Type 0 where
  pub bounded : length d.buf ≤ max_payload
  pub fits : Fits d.state d

pub new-IsValid : IsValid new
unfolding new
new-IsValid = omega arith

emit_known-bounded :
    (d : FrameDecoder) (r : Result ℕ FrameType)
    → length d.buf ≤ max_payload
    → length (emit_known d r).0.buf ≤ max_payload
unfolding emit_known
emit_known-bounded d (ok t) h = omega arith
emit_known-bounded d (err e) h = h

finish_frame-bounded :
    (d : FrameDecoder) → length d.buf ≤ max_payload → length (finish_frame d).0.buf ≤ max_payload
unfolding finish_frame
finish_frame-bounded d h = ground (arith, emit_known-bounded d (try_from d.ty))

feed_byte-IsValid_at :
    (s : State) (d : FrameDecoder) (b : ℕ)
    → d.state ≡ s
    → IsByte b
    → IsValid d
    → IsValid (feed_byte d b).0
unfolding feed_byte after_len
feed_byte-IsValid_at State.at_sof d b e h v = ground arith
feed_byte-IsValid_at State.at_len_hi d b e h v = ground (arith, join_bytes d.len b)
feed_byte-IsValid_at State.at_payload d b e h v = ground (arith, length-append d.buf (b ∷ []))
feed_byte-IsValid_at State.at_crc_hi d b e h v =
    ground (arith, finish_frame-bounded (record d { crc_rx = bit_or d.crc_rx (b * 2 ^ 8) }))
feed_byte-IsValid_at s d b e h v = ground arith

pub feed_byte-IsValid :
    (d : FrameDecoder) (b : ℕ) → IsByte b → IsValid d → IsValid (feed_byte d b).0
feed_byte-IsValid d b h v = feed_byte-IsValid_at d.state d b refl h v

-- The decoder's invariant holds after any input: the buffer never passes the payload limit, and the
-- partial frame agrees with the announced length.
pub feed-IsValid :
    (d : FrameDecoder) (bytes : List ℕ) → All IsByte bytes → IsValid d → IsValid (feed d bytes).0
unfolding feed
feed-IsValid d [] h v = v
feed-IsValid d (b ∷ bytes) h v =
    feed-IsValid (feed_byte d b).0 bytes h.1 (feed_byte-IsValid d b h.0 v)

-- The most bytes that can pass before the decoder scans for a start byte again.
abbrev pub remaining : FrameDecoder → ℕ
remaining d = elim d.state [
  | State.at_sof ↦ 0
  | State.at_type ↦ 518
  | State.at_seq ↦ 517
  | State.at_len_lo ↦ 516
  | State.at_len_hi ↦ 515
  | State.at_payload ↦ d.len - length d.buf + 2
  | State.at_crc_lo ↦ 2
  | State.at_crc_hi ↦ 1
]

remaining_step_at :
    (s : State) (d : FrameDecoder) (b : ℕ)
    → d.state ≡ s
    → IsByte b
    → b ≢ sof
    → IsValid d
    → remaining (feed_byte d b).0 ≤ remaining d - 1
unfolding feed_byte after_len
remaining_step_at State.at_len_hi d b e h ne v = ground (arith, join_bytes d.len b)
remaining_step_at State.at_payload d b e h ne v = ground (arith, length-append d.buf (b ∷ []))
remaining_step_at s d b e h ne v = ground arith

remaining-feed :
    (d : FrameDecoder) (bytes : List ℕ)
    → All IsByte bytes
    → All (λ b. b ≢ sof) bytes
    → IsValid d
    → remaining (feed d bytes).0 ≤ remaining d - length bytes
unfolding feed
remaining-feed d [] h q v = omega arith
remaining-feed d (b ∷ bytes) h q v = omega (
  arith,
  remaining_step_at d.state d b refl h.0 q.0 v,
  remaining-feed (feed_byte d b).0 bytes h.1 q.1 (feed_byte-IsValid d b h.0 v),
)

remaining-le : (d : FrameDecoder) → IsValid d → remaining d ≤ 518
remaining-le d v = ground arith

at_sof_of_remaining : (d : FrameDecoder) → remaining d ≡ 0 → d.state ≡ State.at_sof
at_sof_of_remaining d h = ground arith

-- 518 bytes without a start byte bring the decoder back to the scan from any valid state.
pub feed_resyncs :
    (d : FrameDecoder) (bytes : List ℕ)
    → IsValid d
    → All IsByte bytes
    → All (λ b. b ≢ sof) bytes
    → 518 ≤ length bytes
    → (feed d bytes).0.state ≡ State.at_sof
feed_resyncs d bytes v h q n =
    at_sof_of_remaining (feed d bytes).0
      (omega (arith, remaining-feed d bytes h q v, remaining-le d v))
