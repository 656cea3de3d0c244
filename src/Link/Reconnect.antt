-- ===== src/Link/Reconnect.antt =====
-- src/link/reconnect.rs: the frames that a reconnect or a recovery sends again, in order, while each
-- send succeeds; a failed one ends it there.
use medius.Base.{ℕ, ◌≡◌, refl, ap, arith, Bool, true, false, if◌then◌else◌, List, [], ◌∷◌, ◌++◌}
use medius.Protocol.Opcode.{FrameType}
use medius.Protocol.Command.{inject_payload, lock_payload, rewrite_payload, transform_payload}
use medius.Types.Usage.{Usage, Action, class_id, usage_action_u8}
use medius.Link.Reconcile.State.{DesiredState, StoredRewrite, StoredTransform, FilterSet}
use medius.Link.Reconcile.Clip.{clip_config_frames}
use medius.Link.Reconcile.Locks.Held.{Command, held_locks}
use medius.Link.Reconcile.Session.{held, is_idle}
use medius.Link.Reconcile.Session.Idle.{is_idle-SendsNothing}
use medius.Link.Catch.{CatchFrame, frame_payload}
mod Runs

abbrev pub Frame : Type 0
Frame = FrameType × List ℕ

unfoldable pub inject_frames : List (Usage × Action) → List Frame
unfolding inject_payload class_id usage_action_u8
inject_frames [] = []
inject_frames ((u, action) ∷ us) =
    (FrameType.inject, inject_payload (class_id u).0 (class_id u).1 (usage_action_u8 action))
    ∷ inject_frames us

unfoldable pub lock_frames : List Command → List Frame
unfolding lock_payload
lock_frames [] = []
lock_frames (((class, (id, dir)), scale) ∷ cs) =
    (FrameType.lock, lock_payload class id dir scale) ∷ lock_frames cs

unfoldable pub catch_frames : FilterSet → List Frame
unfolding frame_payload
catch_frames [] = []
catch_frames ((k, f) ∷ set) = (FrameType.catch, frame_payload (CatchFrame.add f)) ∷ catch_frames set

unfoldable pub rewrite_frames : List StoredRewrite → List Frame
unfolding rewrite_payload
rewrite_frames [] = []
rewrite_frames (r ∷ rules) =
    (
      FrameType.rewrite,
      rewrite_payload r.class r.id r.direction 1 r.action r.offset r.match_bytes r.mask r.payload,
    )
    ∷ rewrite_frames rules

unfoldable pub transform_frames : List StoredTransform → List Frame
unfolding transform_payload
transform_frames [] = []
transform_frames (t ∷ entries) =
    (FrameType.transform, transform_payload t.op t.sclass t.sid t.dclass t.did 1)
    ∷ transform_frames entries

unfoldable pub reapply_locked : Bool → DesiredState → List Frame
unfolding inject_frames lock_frames catch_frames rewrite_frames transform_frames
reapply_locked with_clip s =
    inject_frames (held s)
    ++ (lock_frames (held_locks s)
        ++ (catch_frames s.catch
            ++ (rewrite_frames s.rewrites
                ++ (transform_frames s.transforms
                    ++ (if with_clip then clip_config_frames s else [])))))

abbrev no_frames : List Frame
no_frames = []

nothing_or_nothing : (b : Bool) → (if b then no_frames else no_frames) ≡ no_frames
nothing_or_nothing true = refl
nothing_or_nothing false = refl

-- An idle state has nothing to send again: the replay is empty, with or without the clip's
-- configuration.
pub reapply_locked-is_idle :
    (with_clip : Bool) (s : DesiredState) → is_idle s ≡ true → reapply_locked with_clip s ≡ []
unfolding reapply_locked inject_frames lock_frames catch_frames rewrite_frames transform_frames
reapply_locked-is_idle with_clip s h =
    let (sends, loaded) = is_idle-SendsNothing s h in
    let (e0, e1, e2, e3, e4, e5) = sends in
    rw (e4, e0, e1, e5, e2, e3) (nothing_or_nothing with_clip)
