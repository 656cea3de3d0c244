-- ===== src/Link/Catch/Union.antt =====
-- The union of the subscriptions of src/link/catch.rs, as a table by address.
use medius.Base.{ℕ, ◌≡◌, refl, ◌∙◌}
use medius.Base.{Option, List, [], ◌∷◌, Option-cases, inl, inr}
use medius.Base.Map.{lookup, insert, remove, Above, IsSorted, insert-IsSorted, remove-IsSorted}
use medius.Base.Entries.{insert-All, remove-All}
use medius.Types.Direction.{Direction}
use medius.Types.Catch.{
  CatchClass, CatchFilter, FilterKey, Capture, filter_key, filter_key_order, with_capture, widest,
}
use medius.Link.Reconcile.State.{FilterSet}
use medius.Link.Catch.{
  collapse_one, collapse_into, collapse, entry_at, merge_siblings, merge_all, values, directed,
  collapse_opposite_siblings, widened, widen_all, all_filters, effective, catch_sync,
}
use medius.Link.Catch.Box.{IsKeyed, box_apply_all}
use medius.Link.Catch.Sync.{lookup-IsKeyed, box_apply_all-catch_sync}

-- A table in key order, with every filter under its own key.
abbrev pub IsTable : FilterSet → Type 0
IsTable set = IsSorted set × IsKeyed set

filter_key-with_capture :
    (c : Capture) (f : CatchFilter) → filter_key (with_capture c f) ≡ filter_key f
unfolding filter_key with_capture
filter_key-with_capture c f = refl

insert-IsTable :
    (k : FilterKey) (f : CatchFilter) (set : FilterSet)
    → filter_key f ≡ k
    → IsTable set
    → IsTable (insert k f set)
insert-IsTable k f set p (s, h) =
    (insert-IsSorted k f set s, insert-All (λ e. filter_key e.1 ≡ e.0) k f set p h)

remove-IsTable : (k : FilterKey) (set : FilterSet) → IsTable set → IsTable (remove k set)
remove-IsTable k set (s, h) =
    (remove-IsSorted k set s, remove-All (λ e. filter_key e.1 ≡ e.0) k set h)

collapse_one-IsTable :
    (out : FilterSet) (f : CatchFilter) → IsTable out → IsTable (collapse_one out f)
unfolding collapse_one
collapse_one-IsTable out f t = elim (Option-cases (lookup (filter_key f) out)) [
  | inl e ↦ rw (collapse_one, e) (insert-IsTable (filter_key f) f out refl t)
  | inr (g, e) ↦
      let c : Capture = widest g.capture f.capture in
      rw (collapse_one, e)
        (insert-IsTable (filter_key f) (with_capture c g) out
          (filter_key-with_capture c g ∙ lookup-IsKeyed out (filter_key f) g t.1 e) t)
]

collapse_into-IsTable :
    (out : FilterSet) (fs : List CatchFilter) → IsTable out → IsTable (collapse_into out fs)
unfolding collapse_into
collapse_into-IsTable out [] t = t
collapse_into-IsTable out (f ∷ fs) t =
    collapse_into-IsTable (collapse_one out f) fs (collapse_one-IsTable out f t)

widen_all-Above :
    (all : List CatchFilter) (k : FilterKey) (set : FilterSet)
    → Above k set
    → Above k (widen_all all set)
unfolding widen_all
widen_all-Above all k [] a = tt
widen_all-Above all k ((j, f) ∷ set) a = (a.0, widen_all-Above all k set a.1)

widen_all-IsTable :
    (all : List CatchFilter) (set : FilterSet) → IsTable set → IsTable (widen_all all set)
unfolding widen_all
widen_all-IsTable all [] t = (tt, tt)
widen_all-IsTable all ((k, f) ∷ set) (s, h) =
    let rest : IsTable (widen_all all set) = widen_all-IsTable all set (s.1, h.1) in
    (
      (widen_all-Above all k set s.0, rest.0),
      (filter_key-with_capture (widened f.capture f all) f ∙ h.0, rest.1),
    )

merge_siblings-IsTable :
    (class : Option CatchClass) (id : Option ℕ) (set : FilterSet)
    → IsTable set
    → IsTable (merge_siblings class id set)
unfolding merge_siblings
merge_siblings-IsTable class id set t =
    elim (Option-cases (entry_at set class id Direction.positive)) [
      | inl e ↦ rw (merge_siblings, e) t
      | inr (pos, e) ↦ elim (Option-cases (entry_at set class id Direction.negative)) [
        | inl f ↦ rw (merge_siblings, e, f) t
        | inr (neg, f) ↦
            rw (merge_siblings, e, f)
              (insert-IsTable _ _ (remove (filter_key neg) (remove (filter_key pos) set)) refl (
                remove-IsTable (filter_key neg) (remove (filter_key pos) set)
                  (remove-IsTable (filter_key pos) set t)))
      ]
    ]

merge_all-IsTable :
    (addresses : List (Option CatchClass × Option ℕ)) (set : FilterSet)
    → IsTable set
    → IsTable (merge_all addresses set)
unfolding merge_all
merge_all-IsTable [] set t = t
merge_all-IsTable ((class, id) ∷ addresses) set t =
    merge_all-IsTable addresses (merge_siblings class id set)
      (merge_siblings-IsTable class id set t)

pub effective-IsTable : (subs : List FilterSet) → IsTable (effective subs)
unfolding effective collapse collapse_opposite_siblings
effective-IsTable subs =
    let all : List CatchFilter = all_filters subs in
    let wide : FilterSet = widen_all all (collapse_into [] all) in
    merge_all-IsTable (directed (values wide)) wide
      (widen_all-IsTable all (collapse_into [] all) (collapse_into-IsTable [] all (tt, tt)))

-- The frames sent at a change of the subscriptions, applied in order by a box that holds the union
-- of those before and clears its whole table when a wildcard entry is taken out, leave it with the
-- union of those after.
pub box_apply_all-effective :
    (before after : List FilterSet)
    → box_apply_all (catch_sync (effective before) (effective after)) (effective before)
      ≡ effective after
box_apply_all-effective before after =
    let b : IsTable (effective before) = effective-IsTable before in
    let a : IsTable (effective after) = effective-IsTable after in
    box_apply_all-catch_sync (effective before) (effective after) b.0 a.0 b.1 a.1
