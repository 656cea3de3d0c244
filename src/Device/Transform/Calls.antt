-- ===== src/Device/Transform/Calls.antt =====
-- The calls of src/device/transform.rs on the entries that the host holds, failed ones included.
use medius.Base.{◌≡◌, ◌⊎◌, inl, inr, refl, ap, ◌∙◌}
use medius.Base.{Bool, true, false, negate, ◌&&◌, leb, List, [], ◌∷◌, ◌++◌, append_empty}
use medius.Base.{none, Bool-cases, ok, err, Result}
use medius.Base.Options.{position}
use medius.Base.Keyed.{IsUnique, position_before}
use mathlib.Core.List.{append_assoc}
use medius.Types.Transform.{Transform}
use medius.Link.Reconcile.State.{DesiredState, StoredTransform}
use medius.Link.Reconcile.Transforms.{
  key, key_eq, key_eq_iff, has_key, apply_transform, clear_transforms, holds_transform,
  transform_count, HasUniqueEntries, restore_transform-apply_transform,
  restore_transform-remove_transform,
}
use medius.Device.Transform.{
  TransformError, transform_max_entries, transform_to_stored, validate_transform, transform_send,
  transform, untransform, apply_transforms, clear_transforms_call,
}

-- An entry of a new key goes to the end.
apply_transform-new :
    (t : StoredTransform) (s : DesiredState)
    → position (has_key (key t)) s.transforms ≡ none
    → (apply_transform t s).0 ≡ record s { transforms = s.transforms ++ (t ∷ []) }
unfolding apply_transform
apply_transform-new t s e = rw (apply_transform, e) refl

apply_transforms-nil : (s : DesiredState) → apply_transforms [] s ≡ s
unfolding apply_transforms
apply_transforms-nil s = refl

apply_transforms-cons :
    (t : StoredTransform) (entries : List StoredTransform) (s : DesiredState)
    → apply_transforms (t ∷ entries) s ≡ apply_transforms entries (apply_transform t s).0
unfolding apply_transforms
apply_transforms-cons t entries s = refl

apply_transforms-append :
    (entries done : List StoredTransform) (s : DesiredState)
    → IsUnique key key_eq (done ++ entries)
    → apply_transforms entries (record s { transforms = done })
      ≡ record s { transforms = done ++ entries }
apply_transforms-append [] done s u =
    rw (append_empty done) (apply_transforms-nil (record s { transforms = done }))
apply_transforms-append (t ∷ entries) done s u =
    let e = append_assoc done (t ∷ []) entries in
    apply_transforms-cons t entries (record s { transforms = done })
    ∙ (ap (apply_transforms entries) (
          apply_transform-new t (record s { transforms = done })
            (position_before key key_eq key_eq_iff done t entries u))
        ∙ (apply_transforms-append entries (done ++ (t ∷ [])) s (rw e u)
            ∙ ap (λ l. record s { transforms = l }) e))

-- A call on the entries, with whether its send succeeds.
pub data TransformCall : Type 0 where
  put : Bool → Transform → TransformCall
  remove : Bool → Transform → TransformCall
  clear : Bool → TransformCall

pub run_transform : TransformCall → DesiredState → DesiredState × Result TransformError (Unit {0})
run_transform (TransformCall.put sent t) s = transform sent t s
run_transform (TransformCall.remove sent t) s = untransform sent t s
run_transform (TransformCall.clear sent) s = clear_transforms_call sent s

validate_cases :
    (m : Result TransformError (Unit {0})) → (m ≡ ok tt) ⊎ ((e : TransformError) × (m ≡ err e))
validate_cases (ok _) = inl refl
validate_cases (err e) = inr (e, refl)

transform_send-undone :
    (sent is_set : Bool) (t : Transform) (s : DesiredState)
    → HasUniqueEntries s
    → ((transform_send sent is_set t s).1 ≡ ok tt) ⊎ ((transform_send sent is_set t s).0 ≡ s)
unfolding transform_send
transform_send-undone true is_set t s u = inl refl
transform_send-undone false true t s u =
    inr (restore_transform-apply_transform (transform_to_stored t) s)
transform_send-undone false false t s u =
    inr (restore_transform-remove_transform (key (transform_to_stored t)) s u)

transform-undone :
    (sent : Bool) (t : Transform) (s : DesiredState)
    → HasUniqueEntries s
    → ((transform sent t s).1 ≡ ok tt) ⊎ ((transform sent t s).0 ≡ s)
unfolding transform
transform-undone sent t s u =
    let k = key (transform_to_stored t) in
    elim (validate_cases (validate_transform t)) [
      | inr (e, h) ↦ rw (transform, h) (inr refl)
      | inl h ↦
          elim (Bool-cases
            (negate (holds_transform k s) && leb transform_max_entries (transform_count s))) [
              | inl full ↦ rw (transform, h, full) (inr refl)
              | inr slot ↦ rw (transform, h, slot) (transform_send-undone sent true t s u)
            ]
    ]

-- With one entry to a key, a call that sets, removes or clears field transforms succeeds or leaves
-- the whole state as it was, the order of the entries included.
pub run_transform-undone :
    (c : TransformCall) (s : DesiredState)
    → HasUniqueEntries s
    → ((run_transform c s).1 ≡ ok tt) ⊎ ((run_transform c s).0 ≡ s)
unfolding run_transform
run_transform-undone (TransformCall.put sent t) s u = transform-undone sent t s u
run_transform-undone (TransformCall.remove sent t) s u =
    unfold untransform in transform_send-undone sent false t s u
run_transform-undone (TransformCall.clear true) s u = unfold clear_transforms_call in inl refl
run_transform-undone (TransformCall.clear false) s u =
    unfold clear_transforms_call clear_transforms in
    inr (apply_transforms-append s.transforms [] s u)
