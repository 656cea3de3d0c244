-- ===== src/Link/Reconcile/Transforms.antt =====
-- The field transforms that src/link/reconcile.rs holds for replay, in installation order.
use medius.Base.{ℕ, min, ◌≡◌, ◌↔◌, refl, sym, ap, ◌∙◌, arith, Bool, true, ◌&&◌, negate}
use medius.Base.{◌==◌, Option, none, some, List, [], ◌∷◌, ◌++◌, any, retain, length}
use medius.Base.{append_empty, get_elem?, set, insert_at, remove_at, Option-cases, inl, inr}
use medius.Base.Options.{position, ◌>>=◌}
use medius.Base.Keyed.{
  matches, IsUnique, IsUnique→IsSole, matches_self, position-get_elem?, retain_others,
  position-remove_at, position-set, insert_at-remove_at, set-set, retain-append, append-IsUnique,
  set-IsUnique,
}
use medius.Link.Reconcile.State.{DesiredState, StoredTransform}

abbrev pub TransformWireKey : Type 0
TransformWireKey = ℕ × ℕ × ℕ × ℕ

unfoldable pub key : StoredTransform → TransformWireKey
key e = (e.sclass, e.sid, e.dclass, e.did)

unfoldable pub key_eq : TransformWireKey → TransformWireKey → Bool
key_eq (c, i, d, j) (c', i', d', j') = (c == c') && ((i == i') && ((d == d') && (j == j')))

-- `|e| e.key() == key`
abbrev pub has_key : TransformWireKey → StoredTransform → Bool
has_key k = matches key key_eq k

pub record TransformUndo : Type 0 where
  pub undo_key : TransformWireKey
  pub prior : Option (ℕ × StoredTransform)

-- The entry at `i`, with its place, as `replace` and `remove(i)` return it.
unfoldable pub placed : List StoredTransform → ℕ → Option (ℕ × StoredTransform)
placed entries i = do e ← get_elem? entries i; some (i, e)

unfoldable pub apply_transform : StoredTransform → DesiredState → DesiredState × TransformUndo
unfolding key key_eq placed
apply_transform entry s = elim (position (has_key (key entry)) s.transforms) [
  | none ↦ (
    record s { transforms = s.transforms ++ (entry ∷ []) },
    record { undo_key = key entry; prior = none },
  )
  | some i ↦ (
    record s { transforms = set s.transforms i entry },
    record { undo_key = key entry; prior = placed s.transforms i },
  )
]

unfoldable pub remove_transform : TransformWireKey → DesiredState → DesiredState × TransformUndo
unfolding key key_eq placed
remove_transform k s = elim (position (has_key k) s.transforms) [
  | none ↦ (s, record { undo_key = k; prior = none })
  | some i ↦ (
    record s { transforms = remove_at i s.transforms },
    record { undo_key = k; prior = placed s.transforms i },
  )
]

unfoldable pub restored : TransformUndo → List StoredTransform → List StoredTransform
unfolding key key_eq
restored undo entries = elim undo.prior [
  | none ↦ retain (λ e. negate (has_key undo.undo_key e)) entries
  | some p ↦ elim (position (has_key undo.undo_key) entries) [
    | none ↦ insert_at (min p.0 (length entries)) p.1 entries
    | some cur ↦ set entries cur p.1
  ]
]

unfoldable pub restore_transform : TransformUndo → DesiredState → DesiredState
unfolding restored
restore_transform undo s = record s { transforms = restored undo s.transforms }

unfoldable pub clear_transforms : DesiredState → DesiredState
clear_transforms s = record s { transforms = [] }

unfoldable pub holds_transform : TransformWireKey → DesiredState → Bool
unfolding key key_eq
holds_transform k s = any (has_key k) s.transforms

unfoldable pub transform_count : DesiredState → ℕ
transform_count s = length s.transforms

pub key_eq_iff : (a b : TransformWireKey) → (key_eq a b ≡ true) ↔ (a ≡ b)
unfolding key_eq
key_eq_iff (c, i, d, j) (c', i', d', j') = ground arith

abbrev pub HasUniqueEntries : DesiredState → Type 0
HasUniqueEntries s = IsUnique key key_eq s.transforms

-- The two ways in which a prior entry comes back.
restored_found :
    (k : TransformWireKey) (i : ℕ) (old : StoredTransform) (entries : List StoredTransform)
    (cur : ℕ)
    → position (has_key k) entries ≡ some cur
    → restored (record { undo_key = k; prior = some (i, old) }) entries ≡ set entries cur old
unfolding restored
restored_found k i old entries cur e = rw (restored, e) refl

restored_gone :
    (k : TransformWireKey) (i : ℕ) (old : StoredTransform) (entries : List StoredTransform)
    → position (has_key k) entries ≡ none
    → restored (record { undo_key = k; prior = some (i, old) }) entries
      ≡ insert_at (min i (length entries)) old entries
unfolding restored
restored_gone k i old entries e = rw (restored, e) refl

-- Undoing a transform that was just set gives back the whole state, the order of the entries
-- included.
pub restore_transform-apply_transform :
    (entry : StoredTransform) (s : DesiredState)
    → restore_transform (apply_transform entry s).1 (apply_transform entry s).0 ≡ s
unfolding restore_transform restored apply_transform placed
restore_transform-apply_transform entry s =
    let k : TransformWireKey = key entry in
    let entries : List StoredTransform = s.transforms in
    let self : has_key k entry ≡ true = matches_self key key_eq key_eq_iff entry in
    let with_entries : List StoredTransform → DesiredState = λ l. record s { transforms = l } in
    elim (Option-cases (position (has_key k) entries)) [
      | inl e ↦
          let kept : retain (λ x. negate (has_key k x)) (entries ++ (entry ∷ [])) ≡ entries =
            ground (
              arith,
              retain-append (λ x. negate (has_key k x)) entries (entry ∷ []),
              self,
              retain_others (has_key k) entries e,
              append_empty entries,
            ) in
          rw (apply_transform, e) (ap with_entries kept)
      | inr (i, e) ↦
          let (old, at, has) = position-get_elem? (has_key k) entries i e in
          let found = position-set (has_key k) entries i entry self e in
          rw (apply_transform, e, at)
            (ap with_entries (
              restored_found k i old (set entries i entry) i found
              ∙ set-set entries i old entry at))
    ]

-- With one entry to a key, undoing a removal gives back the whole state, the order of the entries
-- included.
pub restore_transform-remove_transform :
    (k : TransformWireKey) (s : DesiredState)
    → HasUniqueEntries s
    → restore_transform (remove_transform k s).1 (remove_transform k s).0 ≡ s
unfolding restore_transform restored remove_transform placed
restore_transform-remove_transform k s u =
    let entries : List StoredTransform = s.transforms in
    let sole = IsUnique→IsSole key key_eq key_eq_iff k entries u in
    let with_entries : List StoredTransform → DesiredState = λ l. record s { transforms = l } in
    elim (Option-cases (position (has_key k) entries)) [
      | inl e ↦ rw (remove_transform, e) (ap with_entries (retain_others (has_key k) entries e))
      | inr (i, e) ↦
          let (old, at, has) = position-get_elem? (has_key k) entries i e in
          let free = position-remove_at (has_key k) entries i sole e in
          rw (remove_transform, e, at)
            (ap with_entries (
              restored_gone k i old (remove_at i entries) free
              ∙ insert_at-remove_at entries i old at))
    ]

-- Setting an entry keeps one entry to a key.
pub apply_transform-HasUniqueEntries :
    (entry : StoredTransform) (s : DesiredState)
    → HasUniqueEntries s
    → HasUniqueEntries (apply_transform entry s).0
unfolding apply_transform
apply_transform-HasUniqueEntries entry s u =
    let k : TransformWireKey = key entry in
    let entries : List StoredTransform = s.transforms in
    elim (Option-cases (position (has_key k) entries)) [
      | inl e ↦ rw (apply_transform, e) (append-IsUnique key key_eq key_eq_iff entry entries e u)
      | inr (i, e) ↦
          let (old, at, has) = position-get_elem? (has_key k) entries i e in
          let same : key entry ≡ key old = sym ((key_eq_iff (key old) k).0 has) in
          rw (apply_transform, e) (set-IsUnique key key_eq key_eq_iff entries i old entry at same u)
    ]
