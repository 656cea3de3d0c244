-- ===== src/Device/Rewrite/Runs.antt =====
-- Runs of the calls of src/device/rewrite.rs, and of the replies of src/types/rewrite.rs.
use medius.Base.{ℕ, ◌≡◌, ◌⊎◌, refl, arith, true, false, some, [], ◌∷◌, ok, err}
use medius.Types.Direction.{Direction, is_relative}
use medius.Types.Rewrite.{RewriteClass, RewriteAction, RewriteRule, rewrite_entry_from_payload}
use medius.Types.Rewrite.Wire.{set_payload, rewrite_entry_from_payload-set_payload}
use medius.Link.Reconcile.State.{DesiredState, default_state}
use medius.Link.Reconcile.Rewrites.{pool_used}
use medius.Device.Rewrite.{rewrite_to_stored, RewriteError, set_rewrite, validate_rule}
use medius.Device.Rewrite.Fits.{FitsBox}
use medius.Device.Rewrite.Calls.{RewriteCall, run_call, run_call-undone, run_call-FitsBox}

abbrev patch_rule : ℕ → RewriteRule
patch_rule id = record {
  class = RewriteClass.hid_in;
  id = id;
  direction = Direction.positive;
  action = RewriteAction.patch;
  offset = 3;
  match_bytes = 1 ∷ 0 ∷ [];
  mask = 0xFF ∷ 0x80 ∷ [];
  payload = 7 ∷ 8 ∷ 9 ∷ [];
}

abbrev one_rule : DesiredState
one_rule = record default_state { rewrites = rewrite_to_stored (patch_rule 1) ∷ [] }

one_rule-FitsBox : FitsBox one_rule
unfolding rewrite_to_stored pool_used
one_rule-FitsBox = record {
  unique = (refl, tt);
  count = omega arith;
  pool = omega arith;
  readable = omega arith;
}

rewrite_entry_from_payload-set_payload_example :
    rewrite_entry_from_payload (13 ∷ 0 ∷ set_payload (patch_rule 700)) ≡ some (patch_rule 700)
rewrite_entry_from_payload-set_payload_example =
    rewrite_entry_from_payload-set_payload 13 0 (patch_rule 700) refl (omega arith)

-- A second rule whose send fails.
run_call-undone_example :
    let c = RewriteCall.set (some true) false (patch_rule 2) in
    ((run_call c one_rule).1 ≡ ok tt) ⊎ ((run_call c one_rule).0 ≡ one_rule)
run_call-undone_example =
    run_call-undone (RewriteCall.set (some true) false (patch_rule 2)) one_rule
      one_rule-FitsBox.unique

run_call-FitsBox_example :
    FitsBox (run_call (RewriteCall.set (some true) true (patch_rule 2)) one_rule).0
run_call-FitsBox_example =
    run_call-FitsBox (RewriteCall.set (some true) true (patch_rule 2)) one_rule one_rule-FitsBox

relative_refused :
    (set_rewrite
      (some true)
      true
      (record (patch_rule 2) { direction = Direction.along })
      one_rule).1
    ≡ err (RewriteError.relative_direction Direction.along)
unfolding set_rewrite validate_rule is_relative
relative_refused = refl
