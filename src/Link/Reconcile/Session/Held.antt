-- ===== src/Link/Reconcile/Session/Held.antt =====
-- The overrides of src/link/reconcile.rs: what an action leaves, and what the replay rebuilds.
use mathlib.Core.Path.{subst}
use medius.Base.{ℕ, ◌<◌, ◌≡◌, ◌≢◌, refl, ap, ◌∙◌, arith}
use medius.Base.{if◌then◌else◌, ◌==◌, Option, none, some, List, [], ◌∷◌, All}
use medius.Base.{Bool-cases, inl, inr}
use medius.Base.Map.{
  Map, key_eq, key_eq→eq, lookup, Above, IsSorted, lookup-insert, lookup-remove, insert-IsSorted,
  remove-IsSorted, lookup_below, lookup_ext,
}
use medius.Base.Keys.{nat_key, pair_key}
use medius.Types.Usage.{Class, Usage, Action, class_u8, class_from_u8, class_id}
use medius.Link.Reconcile.State.{DesiredState, Override, default_state}
use medius.Link.Reconcile.Session.{as_action, applied, apply, held_entries, held}

abbrev pub Overrides : Type 0
Overrides = Map (ℕ × ℕ) Override

-- The override that an action leaves.
abbrev pub left_by : Action → Option Override
left_by Action.press = some Override.press
left_by Action.force_release = some Override.force
left_by Action.soft_release = none

-- An action decides its usage's override and no other.
pub lookup-apply :
    (u : Usage) (action : Action) (s : DesiredState) (k : ℕ × ℕ)
    → lookup k (apply u action s).overrides
      ≡ (if key_eq (class_id u) k then left_by action else lookup k s.overrides)
unfolding apply applied
lookup-apply u Action.press s k = lookup-insert (class_id u) k Override.press s.overrides
lookup-apply u Action.force_release s k = lookup-insert (class_id u) k Override.force s.overrides
lookup-apply u Action.soft_release s k = lookup-remove (class_id u) k s.overrides

pub apply-IsSorted :
    (u : Usage) (action : Action) (s : DesiredState)
    → IsSorted s.overrides
    → IsSorted (apply u action s).overrides
unfolding apply applied
apply-IsSorted u Action.press s h = insert-IsSorted (class_id u) Override.press s.overrides h
apply-IsSorted u Action.force_release s h =
    insert-IsSorted (class_id u) Override.force s.overrides h
apply-IsSorted u Action.soft_release s h = remove-IsSorted (class_id u) s.overrides h

-- An entry that the replay sends: an action in a class with a name.
abbrev pub IsHeldEntry : (ℕ × ℕ) × Override → Type 0
IsHeldEntry e = (e.0.0 < 3) × (e.1 ≢ Override.nothing)

unfoldable pub apply_all : List (Usage × Action) → DesiredState → DesiredState
unfolding apply
apply_all [] s = s
apply_all ((u, action) ∷ rest) s = apply_all rest (apply u action s)

apply_all-IsSorted :
    (us : List (Usage × Action)) (s : DesiredState)
    → IsSorted s.overrides
    → IsSorted (apply_all us s).overrides
unfolding apply_all
apply_all-IsSorted [] s h = h
apply_all-IsSorted ((u, action) ∷ us) s h =
    apply_all-IsSorted us (apply u action s) (apply-IsSorted u action s h)

known_class : (cls : ℕ) → cls < 3 → (c : Class) × (class_from_u8 cls ≡ some c) × (class_u8 c ≡ cls)
unfolding class_from_u8 class_u8
known_class cls h = elim (Bool-cases (cls == 0)) [
  | inl e ↦ (Class.button, ground (arith, e), ground (arith, e))
  | inr e ↦ elim (Bool-cases (cls == 1)) [
    | inl f ↦ (Class.key, ground (arith, f), ground (arith, f))
    | inr f ↦ (Class.media, ground (arith, h, e, f), ground (arith, h, e, f))
  ]
]

-- One entry of the map, sent and applied, is inserted.
held_entry :
    (cls id : ℕ) (ov : Override)
    → IsHeldEntry ((cls, id), ov)
    → (u : Usage) × (action : Action) × (class_id u ≡ (cls, id))
      × (left_by action ≡ some ov)
      × ((m : Overrides) → held_entries (((cls, id), ov) ∷ m) ≡ (u, action) ∷ held_entries m)
unfolding held_entries as_action class_from_u8 class_id class_u8
held_entry cls id Override.nothing h = absurd (h.1 refl)
held_entry cls id Override.press h =
    let (c, e, b) = known_class cls h.0 in
    (
      record { class = c; id = id },
      Action.press,
      ap (λ n. (n, id)) b,
      refl,
      λ m. rw (held_entries, e) refl,
    )
held_entry cls id Override.force h =
    let (c, e, b) = known_class cls h.0 in
    (
      record { class = c; id = id },
      Action.force_release,
      ap (λ n. (n, id)) b,
      refl,
      λ m. rw (held_entries, e) refl,
    )

lookup-apply_all :
    (m : Overrides) (s : DesiredState) (k : ℕ × ℕ)
    → IsSorted m
    → All IsHeldEntry m
    → lookup k (apply_all (held_entries m) s).overrides
      ≡ elim (lookup k m) as (λ o. Option Override) [
        | none ↦ lookup k s.overrides
        | some ov ↦ some ov
      ]
unfolding apply_all held_entries lookup
lookup-apply_all [] s k sorted h = refl
lookup-apply_all (((cls, id), ov) ∷ m) s k sorted h =
    let (u, action, key, left, sent) = held_entry cls id ov h.0 in
    let next : DesiredState = apply u action s in
    let rest = lookup-apply_all m next k sorted.1 h.1 in
    let first : lookup k next.overrides
        ≡ (if key_eq (cls, id) k then some ov else lookup k s.overrides) =
      subst (λ j. lookup k next.overrides ≡ (if key_eq j k then some ov else lookup k s.overrides))
        key
        (subst
          (λ o.
            lookup k next.overrides ≡ (if key_eq (class_id u) k then o else lookup k s.overrides))
          left (lookup-apply u action s k)) in
    elim (Bool-cases (key_eq (cls, id) k)) [
      | inl e ↦
          let below : lookup k m ≡ none =
            lookup_below k m (subst (λ j. Above j m) (key_eq→eq (cls, id) k e) sorted.0) in
          rw (sent m, e) (rest ∙ rw (below, first, e) refl)
      | inr e ↦
          let same : lookup k next.overrides ≡ lookup k s.overrides = ground (arith, first, e) in
          rw (sent m, e)
            (rest
              ∙ ap (λ o. elim (lookup k m) as (λ x. Option Override) [ none ↦ o | some v ↦ some v ])
                  same)
    ]

lookup_or_none :
    (o : Option Override) → elim o as (λ x. Option Override) [ none ↦ none | some v ↦ some v ] ≡ o
lookup_or_none none = refl
lookup_or_none (some v) = refl

-- When the overrides are in key order, in named classes and none of them cleared, applying the
-- overrides that a reconnect sends to the default state rebuilds all of them.
pub apply_all-held :
    (s : DesiredState)
    → IsSorted s.overrides
    → All IsHeldEntry s.overrides
    → (apply_all (held s) default_state).overrides ≡ s.overrides
unfolding held lookup
apply_all-held s sorted h =
    lookup_ext (apply_all (held s) default_state).overrides s.overrides
      (apply_all-IsSorted (held s) default_state tt) sorted
      (λ k.
        lookup-apply_all s.overrides default_state k sorted h
        ∙ lookup_or_none (lookup k s.overrides))
