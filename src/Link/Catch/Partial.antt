-- ===== src/Link/Catch/Partial.antt =====
-- A catch_sync of src/link/catch.rs that a failed send ends early, and the one that undoes it.
use medius.Base.{◌≡◌, refl, ap, ◌∙◌, arith, Bool, true, false, ◌&&◌, negate, if◌then◌else◌}
use medius.Base.{
  append_empty, Option, none, some, [], ◌∷◌, ◌++◌, Bool-cases, Option-cases, inl, inr, ◌⊎◌, All,
  All-append,
}
use medius.Base.Map.{
  key_eq, key_eq→eq, lookup, contains_key, IsSorted, contains_key-lookup, lookup_ext, lookup-insert,
  lookup-remove,
}
use medius.Base.Entries.{All-lookup}
use medius.Types.Catch.{CatchFilter, FilterKey, filter_key, filter_key_order}
use medius.Link.Reconcile.State.{FilterSet}
use medius.Link.Catch.{
  CatchFrame, removes_wildcard, removals, already_held, additions, catch_sync, is_wildcard,
}
use medius.Link.Catch.Box.{
  box_apply, box_apply_all, IsKeyed, box_apply_all-append, box_apply_all-IsSorted, lookup-removals,
  lookup-additions, and_false, later_keeps, taken_keeps,
}
use medius.Link.Catch.Sync.{lookup-IsKeyed, held_entry, lookup-additions_all}

-- Every address is as in one of two tables.
abbrev pub IsBetween : FilterSet → FilterSet → FilterSet → Type 0
IsBetween a b t = (k : FilterKey) → (lookup k t ≡ lookup k a) ⊎ (lookup k t ≡ lookup k b)

-- The frame brings its address to what the table `b` holds there.
abbrev pub Toward : FilterSet → CatchFrame → Type 0
Toward b (CatchFrame.add f) = lookup (filter_key f) b ≡ some f
Toward b (CatchFrame.take f) = (is_wildcard f ≡ false) × (lookup (filter_key f) b ≡ none)
Toward b CatchFrame.clear_table = ⊥

pub box_apply-IsBetween :
    (c : CatchFrame) (a b t : FilterSet)
    → Toward b c
    → IsBetween a b t
    → IsBetween a b (box_apply c t)
unfolding box_apply
box_apply-IsBetween (CatchFrame.add f) a b t h between k =
    elim (Bool-cases (key_eq (filter_key f) k)) [
      | inl e ↦
          let p : filter_key f ≡ k = key_eq→eq (filter_key f) k e in
          inr (ground (arith, lookup-insert (filter_key f) k f t, p, h, e))
      | inr e ↦ rw (lookup-insert (filter_key f) k f t, e) (between k)
    ]
box_apply-IsBetween (CatchFrame.take f) a b t h between k =
    elim (Bool-cases (key_eq (filter_key f) k)) [
      | inl e ↦
          let p : filter_key f ≡ k = key_eq→eq (filter_key f) k e in
          rw h.0 (inr (ground (arith, lookup-remove (filter_key f) k t, p, h.1, e)))
      | inr e ↦ rw (h.0, lookup-remove (filter_key f) k t, e) (between k)
    ]
box_apply-IsBetween CatchFrame.clear_table a b t h between k = elim h [ ]

removals-Toward :
    (m next : FilterSet)
    → removes_wildcard m next ≡ false
    → IsKeyed m
    → All (Toward next) (removals false m next)
unfolding removals
removals-Toward [] next w h = tt
removals-Toward ((k, f) ∷ m) next w h = elim (Bool-cases (contains_key k next)) [
  | inl e ↦ rw e (removals-Toward m next (later_keeps f k m next w) h.1)
  | inr e ↦
      let gone : lookup (filter_key f) next ≡ none =
        ground (arith, contains_key-lookup k next, h.0, e) in
      rw (e, and_false (is_wildcard f))
        ((taken_keeps f k m next w e, gone), removals-Toward m next (later_keeps f k m next w) h.1)
]

additions-Toward :
    (prev next m : FilterSet)
    → IsKeyed m
    → All (λ e. lookup e.0 next ≡ some e.1) m
    → All (Toward next) (additions false prev m)
unfolding additions
additions-Toward prev next [] h l = tt
additions-Toward prev next ((k, f) ∷ m) h l = elim (Bool-cases (already_held false prev k f)) [
  | inl e ↦ rw e (additions-Toward prev next m h.1 l.1)
  | inr e ↦ rw e (ap (λ j. lookup j next) h.0 ∙ l.0, additions-Toward prev next m h.1 l.1)
]

-- Without a wildcard removed, each frame of a sync brings its address to the next table.
pub catch_sync-Toward :
    (prev next : FilterSet)
    → removes_wildcard prev next ≡ false
    → IsSorted next
    → IsKeyed prev
    → IsKeyed next
    → All (Toward next) (catch_sync prev next)
unfolding catch_sync
catch_sync-Toward prev next e s kp kn =
    rw (e, append_empty (removals false prev next))
      (All-append (Toward next) (removals false prev next) (additions false prev next)
        (removals-Toward prev next e kp)
        (additions-Toward prev next next kn
          (All-lookup (λ x. lookup x.0 next ≡ some x.1) next s (λ k f h. h))))

abbrev has : Option CatchFilter → Bool
has none = false
has (some f) = true

settled_none :
    (p t : Option CatchFilter)
    → (t ≡ p) ⊎ (t ≡ none)
    → (if has p && negate (has none) then none else t) ≡ none
settled_none none t (inl e) = e
settled_none none t (inr e) = e
settled_none (some f) t h = refl

settled_some :
    (p t : Option CatchFilter) (f : CatchFilter)
    → p ≡ some f
    → (t ≡ p) ⊎ (t ≡ some f)
    → (if has p && negate (has (some f)) then none else t) ≡ some f
settled_some p t f e (inl h) = rw (and_false (has p)) (h ∙ e)
settled_some p t f e (inr h) = rw (and_false (has p)) h

has_lem : (k : FilterKey) (m : FilterSet) → contains_key k m ≡ has (lookup k m)
has_lem k m = contains_key-lookup k m ∙ the_test (lookup k m)
  where
    the_test :
        (o : Option CatchFilter) → elim o as (λ x. Bool) [ none ↦ false | some f ↦ true ] ≡ has o
    the_test none = refl
    the_test (some f) = refl

swap_sides {ℓ} : {A B : Type ℓ} → A ⊎ B → B ⊎ A
swap_sides (inl a) = inr a
swap_sides (inr b) = inl b

-- From a table between the two, the removals and additions lead to the next.
lookup-diff_between :
    (prev next t : FilterSet) (k : FilterKey)
    → removes_wildcard prev next ≡ false
    → IsSorted next
    → IsKeyed prev
    → IsKeyed next
    → (lookup k t ≡ lookup k prev) ⊎ (lookup k t ≡ lookup k next)
    → lookup k
        (box_apply_all (additions false prev next) (box_apply_all (removals false prev next) t))
      ≡ lookup k next
lookup-diff_between prev next t k w s kp kn h =
    let table : FilterSet = box_apply_all (removals false prev next) t in
    let kept : lookup k table
        ≡ (if has (lookup k prev) && negate (has (lookup k next)) then none else lookup k t) =
      lookup-removals prev next t k w kp ∙ rw (has_lem k prev, has_lem k next) refl in
    lookup-additions false prev next table k s kn ∙ elim (Option-cases (lookup k next)) [
      | inl e ↦ rw (e, kept, e) (settled_none (lookup k prev) (lookup k t) (rw e at h))
      | inr (f, e) ↦ elim (Bool-cases (already_held false prev k f)) [
        | inl held ↦
            rw (e, held, kept, e)
              (settled_some (lookup k prev) (lookup k t) f
                (held_entry prev k f kp (lookup-IsKeyed next k f kn e) held) (rw e at h))
        | inr new ↦ rw (e, new) refl
      ]
    ]

lookup-catch_sync_between :
    (prev next t : FilterSet) (k : FilterKey)
    → IsSorted next
    → IsKeyed prev
    → IsKeyed next
    → (lookup k t ≡ lookup k prev) ⊎ (lookup k t ≡ lookup k next)
    → lookup k (box_apply_all (catch_sync prev next) t) ≡ lookup k next
unfolding catch_sync
lookup-catch_sync_between prev next t k s kp kn h = elim (Bool-cases (removes_wildcard prev next)) [
  | inl e ↦
      rw
        (
          e,
          box_apply_all-append (removals true prev next ++ (CatchFrame.clear_table ∷ []))
              (additions true prev next) t,
          box_apply_all-append (removals true prev next) (CatchFrame.clear_table ∷ []) t,
        )
        (lookup-additions_all prev next (box_apply_all (removals true prev next) t) k s kn)
  | inr e ↦
      rw
        (
          e,
          append_empty (removals false prev next),
          box_apply_all-append (removals false prev next) (additions false prev next) t,
        )
        (lookup-diff_between prev next t k e s kp kn h)
]

-- A sync from a table between the two leads to the next.
pub catch_sync-IsBetween :
    (prev next t : FilterSet)
    → IsSorted t
    → IsSorted next
    → IsKeyed prev
    → IsKeyed next
    → IsBetween next prev t
    → box_apply_all (catch_sync prev next) t ≡ next
catch_sync-IsBetween prev next t st sn kp kn h =
    lookup_ext (box_apply_all (catch_sync prev next) t) next
      (box_apply_all-IsSorted (catch_sync prev next) t st) sn
      (λ k. lookup-catch_sync_between prev next t k sn kp kn (swap_sides (h k)))
