-- ===== src/Link/Catch/Box.antt =====
-- The box's table under the frames of catch_sync of src/link/catch.rs, address by address.
use mathlib.Core.Path.{subst}
use medius.Base.{◌≡◌, refl, ap, ◌∙◌, arith, Bool, true, false, ◌&&◌, negate, if◌then◌else◌}
use medius.Base.{Option, none, some, List, [], ◌∷◌, ◌++◌, All, Bool-cases, inl, inr}
use medius.Base.Map.{
  key_eq, key_eq→eq, lookup, contains_key, insert, remove, Above, IsSorted, lookup-insert,
  lookup-remove, insert-IsSorted, remove-IsSorted, lookup_below,
}
use medius.Types.Catch.{CatchFilter, FilterKey, filter_key, filter_key_order}
use medius.Link.Reconcile.State.{FilterSet}
use medius.Link.Catch.{CatchFrame, is_wildcard, removes_wildcard, removals, already_held, additions}

-- The box's table under a frame, by the address of the frame's filter. Taking out a wildcard entry is
-- byte for byte the clear of the whole table, whatever the direction (the comment of catch_sync).
unfoldable pub box_apply : CatchFrame → FilterSet → FilterSet
unfolding filter_key
box_apply (CatchFrame.add f) table = insert (filter_key f) f table
box_apply (CatchFrame.take f) table = if is_wildcard f then [] else remove (filter_key f) table
box_apply CatchFrame.clear_table table = []

unfoldable pub box_apply_all : List CatchFrame → FilterSet → FilterSet
unfolding box_apply
box_apply_all [] table = table
box_apply_all (c ∷ cs) table = box_apply_all cs (box_apply c table)

-- Every filter of the set stands under its own key.
abbrev pub IsKeyed : FilterSet → Type 0
IsKeyed set = All (λ e. filter_key e.1 ≡ e.0) set

pub box_apply_all-append :
    (cs ds : List CatchFrame) (table : FilterSet)
    → box_apply_all (cs ++ ds) table ≡ box_apply_all ds (box_apply_all cs table)
unfolding box_apply_all
box_apply_all-append [] ds table = refl
box_apply_all-append (c ∷ cs) ds table = box_apply_all-append cs ds (box_apply c table)

pub box_apply-IsSorted :
    (c : CatchFrame) (table : FilterSet) → IsSorted table → IsSorted (box_apply c table)
unfolding box_apply
box_apply-IsSorted (CatchFrame.add f) table s = insert-IsSorted (filter_key f) f table s
box_apply-IsSorted (CatchFrame.take f) table s = elim (Bool-cases (is_wildcard f)) [
  | inl e ↦ rw e tt
  | inr e ↦ rw e (remove-IsSorted (filter_key f) table s)
]
box_apply-IsSorted CatchFrame.clear_table table s = tt

pub box_apply_all-IsSorted :
    (cs : List CatchFrame) (table : FilterSet) → IsSorted table → IsSorted (box_apply_all cs table)
unfolding box_apply_all
box_apply_all-IsSorted [] table s = s
box_apply_all-IsSorted (c ∷ cs) table s =
    box_apply_all-IsSorted cs (box_apply c table) (box_apply-IsSorted c table s)

taken_key :
    (t b c : Bool) (o : Option CatchFilter)
    → (t ≡ true → c ≡ false)
    → (if b && negate c then none else if t then none else o)
      ≡ (if (if t then true else b) && negate c then none else o)
taken_key true b c o h = rw (h refl) (ground arith)
taken_key false b c o h = refl

kept_key :
    (t b c : Bool) (o : Option CatchFilter)
    → (t ≡ true → c ≡ true)
    → (if b && negate c then none else o)
      ≡ (if (if t then true else b) && negate c then none else o)
kept_key true b c o h = rw (h refl) (ground arith)
kept_key false b c o h = refl

pub and_false : (b : Bool) → (b && false) ≡ false
and_false true = refl
and_false false = refl

contains_key_at :
    (j k : FilterKey) (next : FilterSet) (b : Bool)
    → contains_key j next ≡ b
    → key_eq j k ≡ true
    → contains_key k next ≡ b
contains_key_at j k next b e t = subst (λ i. contains_key i next ≡ b) (key_eq→eq j k t) e

-- Where no wildcard is removed, none is among the later entries, and an entry taken out is none.
pub later_keeps :
    (f : CatchFilter) (j : FilterKey) (m next : FilterSet)
    → removes_wildcard ((j, f) ∷ m) next ≡ false
    → removes_wildcard m next ≡ false
unfolding removes_wildcard
later_keeps f j m next w = ground (arith, w)

pub taken_keeps :
    (f : CatchFilter) (j : FilterKey) (m next : FilterSet)
    → removes_wildcard ((j, f) ∷ m) next ≡ false
    → contains_key j next ≡ false
    → is_wildcard f ≡ false
unfolding removes_wildcard
taken_keeps f j m next w e = ground (arith, w, e)

-- A frame that takes out an entry of a class removes its address.
take_concrete :
    (f : CatchFilter) (table : FilterSet)
    → is_wildcard f ≡ false
    → box_apply (CatchFrame.take f) table ≡ remove (filter_key f) table
unfolding box_apply
take_concrete f table h = rw h refl

-- Without a wildcard removed, the removals take out the keys of `m` that are not in `next`.
pub lookup-removals :
    (m next table : FilterSet) (k : FilterKey)
    → removes_wildcard m next ≡ false
    → IsKeyed m
    → lookup k (box_apply_all (removals false m next) table)
      ≡ (if contains_key k m && negate (contains_key k next) then none else lookup k table)
unfolding removals removes_wildcard box_apply_all box_apply contains_key
lookup-removals [] next table k w h = refl
lookup-removals ((j, f) ∷ m) next table k w h = elim (Bool-cases (contains_key j next)) [
  | inl e ↦ rw e (
      lookup-removals m next table k (later_keeps f j m next w) h.1
      ∙ kept_key (key_eq j k) (contains_key k m) (contains_key k next) (lookup k table)
          (contains_key_at j k next true e))
  | inr e ↦
      let out : lookup k (remove (filter_key f) table)
          ≡ (if key_eq j k then none else lookup k table) =
        lookup-remove (filter_key f) k table
        ∙ ap (λ i. if key_eq i k then none else lookup k table) h.0 in
      rw (e, and_false (is_wildcard f))
        (ap (λ t. lookup k (box_apply_all (removals false m next) t))
            (take_concrete f table (taken_keeps f j m next w e))
          ∙ (lookup-removals m next (remove (filter_key f) table) k (later_keeps f j m next w) h.1
              ∙ (ap (λ o. if contains_key k m && negate (contains_key k next) then none else o) out
                  ∙ taken_key (key_eq j k) (contains_key k m) (contains_key k next) (lookup k table)
                      (contains_key_at j k next false e))))
]

-- The additions put in the entries of `m` that are not held already, and nothing else.
pub lookup-additions :
    (w : Bool) (prev m table : FilterSet) (k : FilterKey)
    → IsSorted m
    → IsKeyed m
    → lookup k (box_apply_all (additions w prev m) table)
      ≡ elim (lookup k m) as (λ o. Option CatchFilter) [
        | none ↦ lookup k table
        | some f ↦ if already_held w prev k f then lookup k table else some f
      ]
unfolding additions box_apply_all box_apply lookup
lookup-additions w prev [] table k s h = refl
lookup-additions w prev ((j, f) ∷ m) table k s h = elim (Bool-cases (key_eq j k)) [
  | inl t ↦
      let p : j ≡ k = key_eq→eq j k t in
      let below : lookup k m ≡ none = lookup_below k m (subst (λ i. Above i m) p s.0) in
      elim (Bool-cases (already_held w prev j f)) [
        | inl e ↦
            let same : already_held w prev k f ≡ true =
              subst (λ i. already_held w prev i f ≡ true) p e in
            rw (e, t, same) (lookup-additions w prev m table k s.1 h.1 ∙ rw below refl)
        | inr e ↦
            let same : already_held w prev k f ≡ false =
              subst (λ i. already_held w prev i f ≡ false) p e in
            let put : lookup k (insert (filter_key f) f table) ≡ some f =
              lookup-insert (filter_key f) k f table
              ∙ (ap (λ i. if key_eq i k then some f else lookup k table) h.0 ∙ rw t refl) in
            rw (e, t, same)
              (lookup-additions w prev m (insert (filter_key f) f table) k s.1 h.1 ∙ rw below put)
      ]
  | inr t ↦ elim (Bool-cases (already_held w prev j f)) [
    | inl e ↦ rw (e, t) (lookup-additions w prev m table k s.1 h.1)
    | inr e ↦
        let put : lookup k (insert (filter_key f) f table) ≡ lookup k table =
          lookup-insert (filter_key f) k f table
          ∙ (ap (λ i. if key_eq i k then some f else lookup k table) h.0 ∙ rw t refl) in
        rw (e, t)
          (lookup-additions w prev m (insert (filter_key f) f table) k s.1 h.1
            ∙ ap
                (λ o. elim (lookup k m) as (λ x. Option CatchFilter) [
                  | none ↦ o
                  | some g ↦ if already_held w prev k g then o else some g
                ])
                put)
  ]
]
