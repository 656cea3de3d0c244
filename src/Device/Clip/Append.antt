-- ===== src/Device/Clip/Append.antt =====
-- ClipHandle::append of src/device/clip.rs. The handle's counter is a `u8`, and `sends` is the number
-- of sends that succeed before one fails.
use medius.Base.{ℕ, zero, suc, ◌+◌, ◌%◌, ◌≡◌, refl, ap, true, ◌⊎◌, inl, inr}
use medius.Base.{List, [], ◌∷◌, take, Result, ok, err}
use medius.Protocol.Opcode.{max_payload}
use medius.Types.Clip.Frames.{ClipEntry}
use medius.Link.Reconcile.State.{DesiredState}
use medius.Link.Reconcile.Clip.{clip_loaded}
use medius.Device.Clip.Chunks.{Result-cases}
use medius.Device.Clip.Encode.{EncodeError, encode_chunks}

abbrev pub Appended : Type 0
Appended = ℕ × DesiredState × List (ℕ × List ℕ) × Result EncodeError (Unit {0})

unfoldable pub send_chunks : ℕ → List (List ℕ) → ℕ → DesiredState → Appended
unfolding clip_loaded
send_chunks sends [] seq s = (seq, s, [], ok tt)
send_chunks zero (c ∷ cs) seq s =
    ((seq + 1) % 256, s, (seq, c) ∷ [], err EncodeError.append_send_failed)
send_chunks (suc sends) (c ∷ cs) seq s =
    let (seq', s', frames, result) = send_chunks sends cs ((seq + 1) % 256) (clip_loaded true s) in
    (seq', s', (seq, c) ∷ frames, result)

unfoldable pub append : ℕ → List ClipEntry → ℕ → DesiredState → Appended
unfolding encode_chunks send_chunks
append sends entries seq s = elim (encode_chunks max_payload entries) [
  | err e ↦ (seq, s, [], err e)
  | ok chunks ↦ send_chunks sends chunks seq s
]

-- The pieces with consecutive numbers from `seq` on.
abbrev pub numbered : ℕ → List (List ℕ) → List (ℕ × List ℕ)
numbered seq [] = []
numbered seq (c ∷ cs) = (seq, c) ∷ numbered ((seq + 1) % 256) cs

send_chunks-numbered :
    (sends : ℕ) (chunks : List (List ℕ)) (seq : ℕ) (s : DesiredState)
    → (send_chunks sends chunks seq s).2 ≡ numbered seq (take (suc sends) chunks)
unfolding send_chunks
send_chunks-numbered sends [] seq s = refl
send_chunks-numbered zero (c ∷ cs) seq s = refl
send_chunks-numbered (suc sends) (c ∷ cs) seq s =
    ap ((seq, c) ∷◌) (send_chunks-numbered sends cs ((seq + 1) % 256) (clip_loaded true s))

-- An append sends the pieces in order, numbered one after the other from the counter on, up to the
-- first send that fails; a refused clip sends nothing and changes nothing.
pub append_lem :
    (sends : ℕ) (entries : List ClipEntry) (seq : ℕ) (s : DesiredState)
    → ((chunks : List (List ℕ)) × (encode_chunks max_payload entries ≡ ok chunks)
        × ((append sends entries seq s).2 ≡ numbered seq (take (suc sends) chunks)))
      ⊎ ((x : EncodeError) × (encode_chunks max_payload entries ≡ err x)
          × (append sends entries seq s ≡ (seq, s, [], err x)))
unfolding append
append_lem sends entries seq s = elim (Result-cases (encode_chunks max_payload entries)) [
  | inl (chunks, h) ↦ rw (append, h) (inl (chunks, refl, send_chunks-numbered sends chunks seq s))
  | inr (x, h) ↦ rw (append, h) (inr (x, refl, refl))
]
