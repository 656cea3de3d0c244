-- ===== src/Device/Rewrite/Calls.antt =====
-- The calls of src/device/rewrite.rs on the rules that the host holds, failed ones included.
use medius.Base.{◌-◌, ◌≡◌, ◌⊎◌, inl, inr, refl, ap, ◌∙◌}
use medius.Base.{
  Bool, true, false, negate, ◌&&◌, ltb, leb, ◌==◌, List, [], ◌∷◌, ◌++◌, length, append_empty,
}
use medius.Base.{Option, none, Bool-cases, ok, Result}
use medius.Base.Options.{position}
use medius.Base.Keyed.{IsUnique, position_before}
use mathlib.Core.List.{append_assoc}
use medius.Types.Rewrite.{RewriteRule}
use medius.Link.Reconcile.State.{DesiredState, StoredRewrite}
use medius.Link.Reconcile.Rewrites.{
  key, key_eq, key_eq_iff, has_key, apply_rewrite, clear_rewrites, holds_rewrite, rewrite_count,
  rewrite_pool_used_except, HasUniqueRules, restore_rewrite-apply_rewrite,
  restore_rewrite-remove_rewrite,
}
use medius.Device.Rewrite.{
  rewrite_max_entries, rewrite_payload_pool, rewrite_to_stored, validate_rule, require_imperfect,
  set_rewrite_send, set_rewrite_checked, set_rewrite, remove_rewrite_call, apply_each,
  clear_rewrite, RewriteError,
}
use medius.Device.Rewrite.Fits.{
  Result-cases, FitsBox, set_rewrite-FitsBox, remove_rewrite-FitsBox, clear_rewrites-FitsBox,
}

apply_each-nil : (s : DesiredState) → apply_each [] s ≡ s
unfolding apply_each
apply_each-nil s = refl

apply_each-cons :
    (r : StoredRewrite) (rules : List StoredRewrite) (s : DesiredState)
    → apply_each (r ∷ rules) s ≡ apply_each rules (apply_rewrite r s).0
unfolding apply_each
apply_each-cons r rules s = refl

-- A rule of a new key goes to the end.
apply_rewrite-new :
    (r : StoredRewrite) (s : DesiredState)
    → position (has_key (key r)) s.rewrites ≡ none
    → (apply_rewrite r s).0 ≡ record s { rewrites = s.rewrites ++ (r ∷ []) }
unfolding apply_rewrite
apply_rewrite-new r s e = rw (apply_rewrite, e) refl

apply_each-append :
    (rules done : List StoredRewrite) (s : DesiredState)
    → IsUnique key key_eq (done ++ rules)
    → apply_each rules (record s { rewrites = done }) ≡ record s { rewrites = done ++ rules }
apply_each-append [] done s u =
    rw (append_empty done) (apply_each-nil (record s { rewrites = done }))
apply_each-append (r ∷ rules) done s u =
    let e = append_assoc done (r ∷ []) rules in
    apply_each-cons r rules (record s { rewrites = done })
    ∙ (ap (apply_each rules) (
          apply_rewrite-new r (record s { rewrites = done })
            (position_before key key_eq key_eq_iff done r rules u))
        ∙ (apply_each-append rules (done ++ (r ∷ [])) s (rw e u)
            ∙ ap (λ l. record s { rewrites = l }) e))

set_rewrite_checked-undone :
    (sent : Bool) (r : RewriteRule) (s : DesiredState)
    → HasUniqueRules s
    → ((set_rewrite_checked sent r s).1 ≡ ok tt) ⊎ ((set_rewrite_checked sent r s).0 ≡ s)
unfolding set_rewrite_checked set_rewrite_send
set_rewrite_checked-undone sent r s u =
    let k = key (rewrite_to_stored r) in
    elim (Bool-cases
      (ltb (rewrite_payload_pool - rewrite_pool_used_except k s) (length r.payload))) [
        | inl over ↦ rw over (inr refl)
        | inr enough ↦
            elim (Bool-cases
              (negate (holds_rewrite k s) && leb rewrite_max_entries (rewrite_count s))) [
                | inl full ↦ rw (enough, full) (inr refl)
                | inr slot ↦ elim (Bool-cases sent) [
                  | inl went ↦ rw (enough, slot, went) (inl refl)
                  | inr failed ↦
                      rw (enough, slot, failed)
                        (inr (restore_rewrite-apply_rewrite (rewrite_to_stored r) s u))
                ]
              ]
      ]

pub set_rewrite-undone :
    (imperfect : Option Bool) (sent : Bool) (r : RewriteRule) (s : DesiredState)
    → HasUniqueRules s
    → ((set_rewrite imperfect sent r s).1 ≡ ok tt) ⊎ ((set_rewrite imperfect sent r s).0 ≡ s)
unfolding set_rewrite
set_rewrite-undone imperfect sent r s u = elim (Result-cases (validate_rule r)) [
  | inr (e, h) ↦ rw (set_rewrite, h) (inr refl)
  | inl h ↦ elim (Result-cases (require_imperfect imperfect)) [
    | inr (e, g) ↦ rw (set_rewrite, h, g) (inr refl)
    | inl g ↦ rw (set_rewrite, h, g) (set_rewrite_checked-undone sent r s u)
  ]
]

pub remove_rewrite_call-undone :
    (sent : Bool) (r : RewriteRule) (s : DesiredState)
    → HasUniqueRules s
    → ((remove_rewrite_call sent r s).1 ≡ ok tt) ⊎ ((remove_rewrite_call sent r s).0 ≡ s)
unfolding remove_rewrite_call
remove_rewrite_call-undone sent r s u =
    elim (Bool-cases (negate (length r.match_bytes == length r.mask))) [
      | inl uneven ↦ rw uneven (inr refl)
      | inr even ↦ elim (Bool-cases sent) [
        | inl went ↦ rw (even, went) (inl refl)
        | inr failed ↦
            rw (even, failed) (inr (restore_rewrite-remove_rewrite (key (rewrite_to_stored r)) s u))
      ]
    ]

pub clear_rewrite-undone : (s : DesiredState) → HasUniqueRules s → (clear_rewrite false s).0 ≡ s
unfolding clear_rewrite clear_rewrites
clear_rewrite-undone s u = apply_each-append s.rewrites [] s u

-- A call on the rules, with what decides its outcome outside the state.
pub data RewriteCall : Type 0 where
  set : Option Bool → Bool → RewriteRule → RewriteCall
  remove : Bool → RewriteRule → RewriteCall
  clear : Bool → RewriteCall

pub run_call : RewriteCall → DesiredState → DesiredState × Result RewriteError (Unit {0})
run_call (RewriteCall.set imperfect sent r) s = set_rewrite imperfect sent r s
run_call (RewriteCall.remove sent r) s = remove_rewrite_call sent r s
run_call (RewriteCall.clear sent) s = clear_rewrite sent s

-- With one rule to a key, a call that sets, removes or clears rewrite rules succeeds or leaves the
-- whole state as it was, the order of the rules included.
pub run_call-undone :
    (c : RewriteCall) (s : DesiredState)
    → HasUniqueRules s
    → ((run_call c s).1 ≡ ok tt) ⊎ ((run_call c s).0 ≡ s)
unfolding run_call
run_call-undone (RewriteCall.set imperfect sent r) s u = set_rewrite-undone imperfect sent r s u
run_call-undone (RewriteCall.remove sent r) s u = remove_rewrite_call-undone sent r s u
run_call-undone (RewriteCall.clear true) s u = unfold clear_rewrite in inl refl
run_call-undone (RewriteCall.clear false) s u = inr (clear_rewrite-undone s u)

remove_rewrite_call-FitsBox :
    (sent : Bool) (r : RewriteRule) (s : DesiredState)
    → FitsBox s
    → FitsBox (remove_rewrite_call sent r s).0
unfolding remove_rewrite_call
remove_rewrite_call-FitsBox sent r s fits =
    let k = key (rewrite_to_stored r) in
    elim (Bool-cases (negate (length r.match_bytes == length r.mask))) [
      | inl uneven ↦ rw uneven fits
      | inr even ↦ elim (Bool-cases sent) [
        | inl went ↦ rw (even, went) (remove_rewrite-FitsBox k s fits)
        | inr failed ↦ rw (even, failed, restore_rewrite-remove_rewrite k s fits.unique) fits
      ]
    ]

-- A call that sets, removes or clears rewrite rules, failed or not, keeps what the host holds
-- within the box: one rule to a key, at most 32 rules, at most 2048 bytes of payload in all, and
-- each rule with a mask as long as its match, a match of at most 16 bytes and a read-back of at
-- most 512.
pub run_call-FitsBox : (c : RewriteCall) (s : DesiredState) → FitsBox s → FitsBox (run_call c s).0
unfolding run_call
run_call-FitsBox (RewriteCall.set imperfect sent r) s fits =
    set_rewrite-FitsBox imperfect sent r s fits
run_call-FitsBox (RewriteCall.remove sent r) s fits = remove_rewrite_call-FitsBox sent r s fits
run_call-FitsBox (RewriteCall.clear true) s fits = unfold clear_rewrite in clear_rewrites-FitsBox s
run_call-FitsBox (RewriteCall.clear false) s fits = rw (clear_rewrite-undone s fits.unique) fits
