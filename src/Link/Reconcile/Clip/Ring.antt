-- ===== src/Link/Reconcile/Clip/Ring.antt =====
-- The ring and the settings of the clip in src/link/reconcile.rs: which readings are trusted, when a
-- clip counts as lost, and what the configuration frames rebuild.
use medius.Base.{
  ℕ, zero, suc, ◌+◌, ◌<◌, ◌%◌, ◌^◌, ◌≡◌, refl, sym, ap, ◌∙◌, arith, Bool, false, ◌&&◌, ◌||◌, negate,
}
use medius.Base.{◌==◌, List, [], ◌∷◌, ◌++◌, set, length, replicate}
use medius.Base.{==_iff, length-append, Bool-cases, inl, inr}
use medius.Protocol.Opcode.{FrameType}
use medius.Protocol.Command.{clip_set_payload}
use medius.Types.Clip.{ClipStatus}
use medius.Link.Reconcile.State.{DesiredState}
use medius.Link.Reconcile.Clip.{
  ring_holds, clip_loaded, clip_ring_gen, clip_ring_held, clip_note_ring, clip_lost, setting_frames,
}

-- A ring reading taken before an append or a clear changes nothing after it, while the generation
-- is below 2^64.
pub clip_note_ring-clip_loaded :
    (loaded released : Bool) (status : ClipStatus) (s : DesiredState)
    → clip_ring_gen s < 2 ^ 64
    → clip_note_ring (clip_ring_gen s) status released (clip_loaded loaded s) ≡ clip_loaded loaded s
unfolding clip_note_ring clip_loaded clip_ring_gen
clip_note_ring-clip_loaded loaded released status s h =
    let moved : (s.clip.ring_gen == ((s.clip.ring_gen + 1) % 2 ^ 64)) ≡ false = ground (arith, h) in
    rw moved refl

-- A ring reading of the current generation sets the ring to what was read; it marks the clip lost
-- and not loaded when the box released a ring that held it and now holds nothing, and otherwise
-- keeps both marks.
pub clip_note_ring-lost :
    (status : ClipStatus) (released : Bool) (s : DesiredState)
    → (let after : DesiredState = clip_note_ring (clip_ring_gen s) status released s in
        let lost : Bool = released && (clip_ring_held s && negate (ring_holds status)) in
        (clip_ring_held after ≡ ring_holds status)
        × (clip_lost after ≡ (clip_lost s || lost))
        × (after.clip.loaded ≡ (s.clip.loaded && negate lost)))
unfolding clip_note_ring clip_ring_gen clip_ring_held clip_lost
clip_note_ring-lost status released s = ground arith

-- The box taking CLIP_SET frames into its settings.
unfoldable pub replay_settings : List (FrameType × List ℕ) → List ℕ → List ℕ
replay_settings [] settings = settings
replay_settings ((FrameType.clip_set, id ∷ value ∷ []) ∷ fs) settings =
    replay_settings fs (set settings id value)
replay_settings (_ ∷ fs) settings = replay_settings fs settings

set-append :
    (xs ys : List ℕ) (v w i : ℕ) → i ≡ length xs → set (xs ++ (v ∷ ys)) i w ≡ xs ++ (w ∷ ys)
set-append [] ys v w zero h = refl
set-append [] ys v w (suc i) h = absurd (omega (arith, h))
set-append (x ∷ xs) ys v w zero h = absurd (omega (arith, h))
set-append (x ∷ xs) ys v w (suc i) h = ap (x ∷◌) (set-append xs ys v w i (omega (arith, h)))

append_one : (xs ys : List ℕ) (v : ℕ) → xs ++ (v ∷ ys) ≡ (xs ++ (v ∷ [])) ++ ys
append_one [] ys v = refl
append_one (x ∷ xs) ys v = ap (x ∷◌) (append_one xs ys v)

replay-setting_frames_at :
    (done vs : List ℕ) (id : ℕ)
    → id ≡ length done
    → replay_settings (setting_frames id vs) (done ++ replicate (length vs) 0) ≡ done ++ vs
unfolding replay_settings setting_frames clip_set_payload
replay-setting_frames_at done [] id h = refl
replay-setting_frames_at done (v ∷ vs) id h =
    let zeros : List ℕ = replicate (length vs) 0 in
    let rest : replay_settings (setting_frames (id + 1) vs) (done ++ (v ∷ zeros))
        ≡ done ++ (v ∷ vs) =
      ap (replay_settings (setting_frames (id + 1) vs)) (append_one done zeros v)
      ∙ (replay-setting_frames_at (done ++ (v ∷ [])) vs (id + 1)
            (omega (arith, h, length-append done (v ∷ [])))
          ∙ sym (append_one done vs v)) in
    elim (Bool-cases (v == 0)) [
      | inl e ↦
          let z : 0 ≡ v = omega (arith, (==_iff v 0).0 e) in
          rw e
            (ap (λ n. replay_settings (setting_frames (id + 1) vs) (done ++ (n ∷ zeros))) z ∙ rest)
      | inr e ↦ rw e (
          ap (replay_settings (setting_frames (id + 1) vs)) (set-append done zeros 0 v id h) ∙ rest)
    ]

-- The frames of the settings off their default rebuild all of them on a box at its defaults.
pub replay-setting_frames :
    (settings : List ℕ)
    → replay_settings (setting_frames 0 settings) (replicate (length settings) 0) ≡ settings
replay-setting_frames settings = replay-setting_frames_at [] settings 0 refl
