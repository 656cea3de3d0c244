-- ===== src/Protocol/Frame/Soundness.antt =====
-- Every frame that the decoder delivers was received, byte for byte, as `encode` writes it.
use medius.Base.{
  ℕ, ◌+◌, ◌*◌, ◌/◌, ◌%◌, ◌^◌, ◌≤◌, ◌<◌, bit_or, ◌≡◌, refl, sym, ap, ◌∙◌, arith, List, [], ◌∷◌, ◌++◌,
  length, All, IsByte, ok, leb, ◌==◌, ◌⊎◌, inl, inr, Bool-cases,
}
use mathlib.Core.Path.{subst}
use mathlib.Core.List.{append_assoc, append-nil}
use medius.Protocol.Crc.{crc16_ccitt}
use medius.Protocol.Opcode.{FrameType, as_u8, sof, max_payload, try_from, as_u8-try_from}
use medius.Protocol.Frame.{
  State, FrameDecoder, DecodedFrame, crc_input, encode, feed_byte, feed, finish_frame, emit_known,
  after_len, new,
}
use medius.Protocol.Frame.Steps.{join_bytes}
use medius.Protocol.Frame.RoundTrip.{covered, crc_input-covered, encode_bytes}
use medius.Protocol.Frame.Bounds.{IsValid, feed_byte-IsValid, new-IsValid}

-- The frames are found in the bytes as whole encodings, in order and without overlap.
pub data Delivers : List ℕ → List DecodedFrame → Type 0 where
  none_left : (bytes : List ℕ) → Delivers bytes []
  next :
      {bytes : List ℕ} (front frame rest : List ℕ) (f : DecodedFrame) {frames : List DecodedFrame}
      → bytes ≡ front ++ (frame ++ rest)
      → encode f.ty f.seq f.payload ≡ ok frame
      → Delivers rest frames
      → Delivers bytes (f ∷ frames)

Delivers-pad :
    (front : List ℕ) {bytes : List ℕ} {frames : List DecodedFrame}
    → Delivers bytes frames
    → Delivers (front ++ bytes) frames
Delivers-pad front (none_left bytes) = none_left (front ++ bytes)
Delivers-pad front (next before frame rest f e h more) =
    next (front ++ before) frame rest f
      (ap (◌++◌ front) e ∙ sym (append_assoc front before (frame ++ rest))) h more

abbrev header : FrameDecoder → List ℕ
header d = sof ∷ d.ty ∷ d.seq ∷ (d.len % 256) ∷ (d.len / 256) ∷ []

-- The bytes of the frame that the decoder is in the middle of.
abbrev partial : FrameDecoder → List ℕ
partial d = elim d.state [
  | State.at_sof ↦ []
  | State.at_type ↦ sof ∷ []
  | State.at_seq ↦ sof ∷ d.ty ∷ []
  | State.at_len_lo ↦ sof ∷ d.ty ∷ d.seq ∷ []
  | State.at_len_hi ↦ sof ∷ d.ty ∷ d.seq ∷ d.len ∷ []
  | State.at_payload ↦ header d ++ d.buf
  | State.at_crc_lo ↦ header d ++ d.buf
  | State.at_crc_hi ↦ header d ++ (d.buf ++ (d.crc_rx ∷ []))
]

-- A byte either extends or drops the partial frame, or completes it.
abbrev Steps : List ℕ → FrameDecoder × List DecodedFrame → Type 0
Steps seen (e, frames) =
    ((front : List ℕ) × (frames ≡ []) × (seen ≡ front ++ partial e))
    ⊎ ((f : DecodedFrame) × (frames ≡ f ∷ [])
        × (encode f.ty f.seq f.payload ≡ ok seen)
        × (partial e ≡ []))

abbrev at : FrameDecoder → State → FrameDecoder
at d s = record d { state = s }

step_sof : (d : FrameDecoder) (b : ℕ) → Steps (b ∷ []) (feed_byte (at d State.at_sof) b)
unfolding feed_byte
step_sof d b = elim (Bool-cases (b == sof)) [
  | inl e ↦ rw e (inl ([], refl, ground arith))
  | inr e ↦ rw e (inl (b ∷ [], refl, refl))
]

after_len_cases :
    (n : ℕ)
    → (after_len n ≡ State.at_sof)
      ⊎ ((after_len n ≡ State.at_crc_lo) ⊎ (after_len n ≡ State.at_payload))
unfolding after_len
after_len_cases n = ground arith

step_len_hi :
    (d : FrameDecoder) (b : ℕ)
    → d.len < 256
    → IsByte b
    → Steps (sof ∷ d.ty ∷ d.seq ∷ d.len ∷ b ∷ []) (feed_byte (at d State.at_len_hi) b)
unfolding feed_byte
step_len_hi d b h hb =
    let n : ℕ = d.len + b * 256 in
    let seen : List ℕ = sof ∷ d.ty ∷ d.seq ∷ d.len ∷ b ∷ [] in
    let same : seen ≡ header (record d { len = n }) = ground arith in
    rw (join_bytes d.len b h) (elim (after_len_cases n) [
      | inl e ↦ rw e (inl (seen, refl, sym (append-nil seen)))
      | inr (inl e) ↦ rw e (inl ([], refl, same))
      | inr (inr e) ↦ rw e (inl ([], refl, same))
    ])

step_payload :
    (d : FrameDecoder) (b : ℕ)
    → Steps (header d ++ (d.buf ++ (b ∷ []))) (feed_byte (at d State.at_payload) b)
unfolding feed_byte
step_payload d b = elim (Bool-cases (leb d.len (length (d.buf ++ (b ∷ []))))) [
  | inl e ↦ rw e (inl ([], refl, refl))
  | inr e ↦ rw e (inl ([], refl, refl))
]

-- The CRC that was received is that of the covered bytes, and the type byte is known.
step_known :
    (d : FrameDecoder) (b : ℕ) (ty : FrameType)
    → d.len ≡ length d.buf
    → length d.buf ≤ max_payload
    → d.crc_rx < 256
    → try_from d.ty ≡ ok ty
    → crc16_ccitt (crc_input d.ty d.seq d.buf) ≡ d.crc_rx + b * 256
    → IsByte b
    → encode ty d.seq d.buf ≡ ok (header d ++ (d.buf ++ (d.crc_rx ∷ b ∷ [])))
step_known d b ty n h hc t c hb =
    let u : as_u8 ty ≡ d.ty = as_u8-try_from d.ty ty t in
    let covers = crc_input-covered d.ty d.seq d.buf h in
    let crc : crc16_ccitt (covered d.ty d.seq d.buf) ≡ d.crc_rx + b * 256 =
      ap crc16_ccitt (sym covers) ∙ c in
    let lo : (d.crc_rx + b * 256) % 256 ≡ d.crc_rx = omega arith in
    let hi : (d.crc_rx + b * 256) / 256 ≡ b = omega arith in
    encode_bytes ty d.seq d.buf h ∙ rw (u, crc, lo, hi, n) refl

finish_cases :
    (d : FrameDecoder)
    → ((finish_frame d).1 ≡ [])
      ⊎ ((ty : FrameType) × (try_from d.ty ≡ ok ty)
          × (crc16_ccitt (crc_input d.ty d.seq d.buf) ≡ d.crc_rx)
          × ((finish_frame d).1 ≡ record { ty = ty; seq = d.seq; payload = d.buf } ∷ []))
unfolding finish_frame emit_known
finish_cases d = ground arith

step_crc_hi :
    (d : FrameDecoder) (b : ℕ)
    → d.len ≡ length d.buf
    → length d.buf ≤ max_payload
    → d.crc_rx < 256
    → IsByte b
    → Steps (header d ++ (d.buf ++ (d.crc_rx ∷ b ∷ []))) (feed_byte (at d State.at_crc_hi) b)
unfolding feed_byte
step_crc_hi d b n h hc hb =
    let r : FrameDecoder = record d {
      state = State.at_crc_hi;
      crc_rx = bit_or d.crc_rx (b * 2 ^ 8);
    } in
    let seen : List ℕ = header d ++ (d.buf ++ (d.crc_rx ∷ b ∷ [])) in
    elim (finish_cases r) [
      | inl e ↦ inl (seen, e, sym (append-nil seen))
      | inr (ty, t, c, f) ↦
          inr (_, f, step_known d b ty n h hc t (c ∙ join_bytes d.crc_rx b hc) hb, refl)
    ]

step_at :
    (s : State) (d : FrameDecoder) (b : ℕ)
    → IsValid (at d s)
    → IsByte b
    → Steps (partial (at d s) ++ (b ∷ [])) (feed_byte (at d s) b)
step_at State.at_sof d b v h = step_sof d b
step_at State.at_type d b v h = unfold feed_byte in inl ([], refl, refl)
step_at State.at_seq d b v h = unfold feed_byte in inl ([], refl, refl)
step_at State.at_len_lo d b v h = unfold feed_byte in inl ([], refl, refl)
step_at State.at_len_hi d b v h = step_len_hi d b v.fits h
step_at State.at_payload d b v h = rw (append_assoc (header d) d.buf (b ∷ [])) (step_payload d b)
step_at State.at_crc_lo d b v h =
    unfold feed_byte in inl ([], refl, append_assoc (header d) d.buf (b ∷ []))
step_at State.at_crc_hi d b v h =
    rw (append_assoc d.buf (d.crc_rx ∷ []) (b ∷ [])) (step_crc_hi d b v.fits.0 v.bounded v.fits.1 h)

step :
    (d : FrameDecoder) (b : ℕ)
    → IsValid d
    → IsByte b
    → Steps (partial d ++ (b ∷ [])) (feed_byte d b)
step d b v h = step_at d.state d b v h

Delivers-step :
    (seen bytes : List ℕ) (e : FrameDecoder) (frames more : List DecodedFrame)
    → Steps seen (e, frames)
    → Delivers (partial e ++ bytes) more
    → Delivers (seen ++ bytes) (frames ++ more)
Delivers-step seen bytes e frames more (inl (front, q, p)) m =
    rw (q, p, append_assoc front (partial e) bytes) (Delivers-pad front m)
Delivers-step seen bytes e frames more (inr (f, q, h, p)) m =
    rw q (next [] seen bytes f refl h (rw p at m))

feed-Delivers :
    (d : FrameDecoder) (bytes : List ℕ)
    → IsValid d
    → All IsByte bytes
    → Delivers (partial d ++ bytes) (feed d bytes).1
unfolding feed
feed-Delivers d [] v h = none_left _
feed-Delivers d (b ∷ bytes) v h =
    let e = (feed_byte d b).0 in
    let later = feed-Delivers e bytes (feed_byte-IsValid d b h.0 v) h.1 in
    let now = Delivers-step _ bytes e (feed_byte d b).1 (feed e bytes).1 (step d b v h.0) later in
    subst (λ seen. Delivers seen ((feed_byte d b).1 ++ (feed e bytes).1))
      (append_assoc (partial d) (b ∷ []) bytes) now

-- Every frame that a fresh decoder delivers stands in the input as a whole encoding of that frame,
-- in order and without overlap.
pub feed-new-Delivers : (bytes : List ℕ) → All IsByte bytes → Delivers bytes (feed new bytes).1
unfolding new
feed-new-Delivers bytes h = feed-Delivers new bytes new-IsValid h
