-- ===== src/Link/Catch/Sync.antt =====
-- The frames of catch_sync of src/link/catch.rs, from one table to the next.
use mathlib.Core.Path.{subst}
use medius.Base.{
  ◌≡◌, refl, sym, ap, ◌∙◌, arith, Bool, true, false, ◌&&◌, negate, if◌then◌else◌, ==_iff,
}
use medius.Base.{
  append_empty, Option, none, some, [], ◌∷◌, ◌++◌, Bool-cases, Option-cases, inl, inr,
}
use medius.Base.Map.{
  key_eq, key_eq→eq, lookup, contains_key, IsSorted, contains_key-lookup, lookup_ext,
}
use medius.Types.Catch.{CatchFilter, FilterKey, Capture, filter_key, filter_key_order}
use medius.Link.Reconcile.State.{FilterSet}
use medius.Link.Catch.{
  CatchFrame, removes_wildcard, removals, capture_eq, already_held, additions, catch_sync,
}
use medius.Link.Catch.Box.{
  box_apply, box_apply_all, IsKeyed, box_apply_all-append, box_apply_all-IsSorted, lookup-removals,
  lookup-additions,
}

pub lookup-IsKeyed :
    (m : FilterSet) (k : FilterKey) (f : CatchFilter)
    → IsKeyed m
    → lookup k m ≡ some f
    → filter_key f ≡ k
unfolding lookup
lookup-IsKeyed [] k f h e = absurd (ground (arith, e))
lookup-IsKeyed ((j, g) ∷ m) k f h e = elim (Bool-cases (key_eq j k)) [
  | inl t ↦
      let same : some g ≡ some f = sym (the_head j k g (lookup k m) t) ∙ e in
      subst (λ x. filter_key x ≡ k) (cc same) (h.0 ∙ key_eq→eq j k t)
  | inr t ↦ lookup-IsKeyed m k f h.1 (sym (the_tail j k g (lookup k m) t) ∙ e)
]
  where
    the_head :
        (j k : FilterKey) (g : CatchFilter) (o : Option CatchFilter)
        → key_eq j k ≡ true
        → (if key_eq j k then some g else o) ≡ some g
    the_head j k g o t = rw t refl

    the_tail :
        (j k : FilterKey) (g : CatchFilter) (o : Option CatchFilter)
        → key_eq j k ≡ false
        → (if key_eq j k then some g else o) ≡ o
    the_tail j k g o t = rw t refl

capture_eq→eq : (a b : Capture) → capture_eq a b ≡ true → a ≡ b
unfolding capture_eq
capture_eq→eq Capture.whole Capture.whole h = refl
capture_eq→eq Capture.whole (Capture.first n) h = absurd (ground (arith, h))
capture_eq→eq (Capture.first m) Capture.whole h = absurd (ground (arith, h))
capture_eq→eq (Capture.first m) (Capture.first n) h = ap Capture.first ((==_iff m n).0 h)

filter_ext : (f g : CatchFilter) → filter_key f ≡ filter_key g → f.capture ≡ g.capture → f ≡ g
unfolding filter_key
filter_ext f g p q =
    λ i. record { class = (p i).class; id = (p i).id; direction = (p i).direction; capture = q i }

-- An entry held already is the entry itself.
pub held_entry :
    (prev : FilterSet) (k : FilterKey) (f : CatchFilter)
    → IsKeyed prev
    → filter_key f ≡ k
    → already_held false prev k f ≡ true
    → lookup k prev ≡ some f
held_entry prev k f keyed p h = elim (Option-cases (lookup k prev)) [
  | inl e ↦ absurd (cc (sym (the_none e) ∙ h))
  | inr (had, e) ↦
      let same : capture_eq had.capture f.capture ≡ true = sym (held_capture had e) ∙ h in
      e
      ∙ ap some (
          filter_ext had f (lookup-IsKeyed prev k had keyed e ∙ sym p)
            (capture_eq→eq had.capture f.capture same))
]
  where
    the_none : lookup k prev ≡ none → already_held false prev k f ≡ false
    the_none e = rw e refl

    held_capture :
        (had : CatchFilter)
        → lookup k prev ≡ some had
        → already_held false prev k f ≡ capture_eq had.capture f.capture
    held_capture had e = rw e refl

or_none :
    (o : Option CatchFilter)
    → elim o as (λ x. Option CatchFilter) [ none ↦ none | some f ↦ some f ] ≡ o
or_none none = refl
or_none (some f) = refl

-- From an empty table, every entry is put in.
pub lookup-additions_all :
    (prev next table : FilterSet) (k : FilterKey)
    → IsSorted next
    → IsKeyed next
    → lookup k (
        box_apply_all
          (additions true prev next)
          (box_apply_all (CatchFrame.clear_table ∷ []) table))
      ≡ lookup k next
unfolding box_apply_all box_apply lookup
lookup-additions_all prev next table k s h =
    lookup-additions true prev next [] k s h ∙ or_none (lookup k next)

-- The table after the removals: an entry of the next union is as it was, any other is gone.
lookup-removals_next :
    (prev next : FilterSet) (k : FilterKey)
    → removes_wildcard prev next ≡ false
    → IsKeyed prev
    → lookup k (box_apply_all (removals false prev next) prev)
      ≡ elim (lookup k next) as (λ o. Option CatchFilter) [ none ↦ none | some f ↦ lookup k prev ]
lookup-removals_next prev next k w h =
    lookup-removals prev next prev k w h
    ∙ (ap (λ c. if contains_key k prev && negate c then none else lookup k prev)
          (contains_key-lookup k next)
        ∙ (ap
              (λ c.
                if c
                  && negate (elim (lookup k next) as (λ o. Bool) [ none ↦ false | some f ↦ true ])
                then none
                else lookup k prev)
              (contains_key-lookup k prev)
            ∙ by_entries (lookup k next) (lookup k prev)))
  where
    by_entries :
        (n p : Option CatchFilter)
        → (if elim p as (λ o. Bool) [ none ↦ false | some f ↦ true ]
              && negate (elim n as (λ o. Bool) [ none ↦ false | some f ↦ true ])
            then none
            else p)
          ≡ elim n as (λ o. Option CatchFilter) [ none ↦ none | some f ↦ p ]
    by_entries none none = refl
    by_entries none (some f) = refl
    by_entries (some f) none = refl
    by_entries (some f) (some g) = refl

lookup-diff :
    (prev next : FilterSet) (k : FilterKey)
    → removes_wildcard prev next ≡ false
    → IsSorted next
    → IsKeyed prev
    → IsKeyed next
    → lookup k
        (box_apply_all (additions false prev next) (box_apply_all (removals false prev next) prev))
      ≡ lookup k next
lookup-diff prev next k w s kp kn =
    let table : FilterSet = box_apply_all (removals false prev next) prev in
    let kept = lookup-removals_next prev next k w kp in
    lookup-additions false prev next table k s kn ∙ elim (Option-cases (lookup k next)) [
      | inl e ↦ rw (e, kept, e) refl
      | inr (f, e) ↦ elim (Bool-cases (already_held false prev k f)) [
        | inl t ↦ rw (e, t, kept, e) (held_entry prev k f kp (lookup-IsKeyed next k f kn e) t)
        | inr t ↦ rw (e, t) refl
      ]
    ]

lookup-catch_sync :
    (prev next : FilterSet) (k : FilterKey)
    → IsSorted next
    → IsKeyed prev
    → IsKeyed next
    → lookup k (box_apply_all (catch_sync prev next) prev) ≡ lookup k next
unfolding catch_sync
lookup-catch_sync prev next k s kp kn = elim (Bool-cases (removes_wildcard prev next)) [
  | inl e ↦
      rw
        (
          e,
          box_apply_all-append (removals true prev next ++ (CatchFrame.clear_table ∷ []))
              (additions true prev next) prev,
          box_apply_all-append (removals true prev next) (CatchFrame.clear_table ∷ []) prev,
        )
        (lookup-additions_all prev next (box_apply_all (removals true prev next) prev) k s kn)
  | inr e ↦
      rw
        (
          e,
          append_empty (removals false prev next),
          box_apply_all-append (removals false prev next) (additions false prev next) prev,
        )
        (lookup-diff prev next k e s kp kn)
]

-- The frames turn the table of one union into the next.
pub box_apply_all-catch_sync :
    (prev next : FilterSet)
    → IsSorted prev
    → IsSorted next
    → IsKeyed prev
    → IsKeyed next
    → box_apply_all (catch_sync prev next) prev ≡ next
box_apply_all-catch_sync prev next sp sn kp kn =
    lookup_ext (box_apply_all (catch_sync prev next) prev) next
      (box_apply_all-IsSorted (catch_sync prev next) prev sp) sn
      (λ k. lookup-catch_sync prev next k sn kp kn)
