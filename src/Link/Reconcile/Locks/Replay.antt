-- ===== src/Link/Reconcile/Locks/Replay.antt =====
-- The commands of held_locks of src/link/reconcile.rs, replayed on a box that holds nothing.
use mathlib.Core.Path.{subst}
use medius.Base.{ℕ, ◌≤◌, ◌≡◌, refl, ◌∙◌, arith, true, false, ◌&&◌}
use medius.Base.{append_empty, if◌then◌else◌, ◌==◌, ltb, none, some, List, [], ◌∷◌, All}
use medius.Base.{Bool-cases, Option-cases, inl, inr}
use medius.Base.Map.{
  key_eq, key_eq→eq, key_eq_above, lookup, contains_key, contains_key-lookup, Above, IsSorted,
}
use medius.Base.Entries.{All-lookup}
use medius.Base.Keys.{nat_key, pair_key}
use medius.Base.Int.{ℤ}
use medius.Link.Reconcile.State.{DesiredState}
use medius.Link.Reconcile.Slots.{Slots, default, commands, replay, replay_none, replay-commands}
use medius.Link.Reconcile.Locks.Ops.{lock_cls_btn, lock_id_all, button_count, apply_lock}
use medius.Link.Reconcile.Locks.Blanket.{lookup-apply_lock}
use medius.Link.Reconcile.Locks.Held.{
  Row, insert_row, sort_rows, row_commands, flat_map_rows, held_locks, writes_to, writes_to_none,
  writes_to-append, writes_to-row_commands,
}

writes_to-insert_row_other :
    (s : DesiredState) (k : ℕ × ℕ) (r : Row) (rows : List Row)
    → writes_to k (row_commands s r) ≡ []
    → writes_to k (flat_map_rows s (insert_row s r rows)) ≡ writes_to k (flat_map_rows s rows)
unfolding flat_map_rows insert_row
writes_to-insert_row_other s k r [] h =
    rw (writes_to-append k (row_commands s r) [], h) (ground (arith, writes_to_none k))
writes_to-insert_row_other s k r (q ∷ rows) h = ground (
  arith,
  h,
  writes_to-append k (row_commands s r) (flat_map_rows s (q ∷ rows)),
  writes_to-append k (row_commands s q) (flat_map_rows s rows),
  writes_to-append k (row_commands s q) (flat_map_rows s (insert_row s r rows)),
  writes_to-insert_row_other s k r rows h,
)

-- A row that writes nothing to `k`.
abbrev pub IsAside : DesiredState → ℕ × ℕ → Row → Type 0
IsAside s k r = writes_to k (row_commands s r) ≡ []

writes_to-flat_map_rows_aside :
    (s : DesiredState) (k : ℕ × ℕ) (rows : List Row)
    → All (IsAside s k) rows
    → writes_to k (flat_map_rows s rows) ≡ []
unfolding flat_map_rows
writes_to-flat_map_rows_aside s k [] h = writes_to_none k
writes_to-flat_map_rows_aside s k (q ∷ rows) h = rw (
  writes_to-append k (row_commands s q) (flat_map_rows s rows),
  h.0,
  writes_to-flat_map_rows_aside s k rows h.1,
)

writes_to-insert_row_sole :
    (s : DesiredState) (k : ℕ × ℕ) (r : Row) (rows : List Row)
    → All (IsAside s k) rows
    → writes_to k (flat_map_rows s (insert_row s r rows)) ≡ writes_to k (row_commands s r)
unfolding flat_map_rows insert_row
writes_to-insert_row_sole s k r [] h =
    rw (writes_to-append k (row_commands s r) [], writes_to_none k)
      (append_empty (writes_to k (row_commands s r)))
writes_to-insert_row_sole s k r (q ∷ rows) h = ground (
  arith,
  h.0,
  writes_to-append k (row_commands s r) (flat_map_rows s (q ∷ rows)),
  writes_to-flat_map_rows_aside s k (q ∷ rows) h,
  append_empty (writes_to k (row_commands s r)),
  writes_to-append k (row_commands s q) (flat_map_rows s (insert_row s r rows)),
  writes_to-insert_row_sole s k r rows h.1,
)

insert_row-All :
    (P : Row → Type 0) (s : DesiredState) (r : Row) (rows : List Row)
    → P r
    → All P rows
    → All P (insert_row s r rows)
unfolding insert_row
insert_row-All P s r [] p h = (p, tt)
insert_row-All P s r (q ∷ rows) p h = ground (arith, p, h, insert_row-All P s r rows p h.1)

sort_rows-All :
    (P : Row → Type 0) (s : DesiredState) (rows : List Row) → All P rows → All P (sort_rows s rows)
unfolding sort_rows
sort_rows-All P s [] h = tt
sort_rows-All P s (r ∷ rows) h =
    insert_row-All P s r (sort_rows s rows) h.0 (sort_rows-All P s rows h.1)

-- The held row that stands for the row (c, i) of the box: the button blanket for a declared button
-- while it is held, else the row itself.
abbrev pub source_row : DesiredState → ℕ × ℕ → ℕ × ℕ
source_row s (c, i) =
    if (c == lock_cls_btn)
      && (ltb i (button_count s) && contains_key (lock_cls_btn, lock_id_all) s.locks)
    then (lock_cls_btn, lock_id_all)
    else (c, i)

-- No button row stands beside the button blanket.
abbrev pub BlanketIsAlone : DesiredState → Type 0
BlanketIsAlone s =
    contains_key (lock_cls_btn, lock_id_all) s.locks ≡ true
    → (i : ℕ) → (i == lock_id_all) ≡ false
    → lookup (lock_cls_btn, i) s.locks ≡ none

-- An entry writes its commands to the row whose source it is, and nothing else there.
abbrev pub WritesBySource : DesiredState → ℕ × ℕ → Row → Type 0
WritesBySource s k r =
    writes_to k (row_commands s r) ≡ (if key_eq r.0 (source_row s k) then commands r.1 else [])

entry-WritesBySource :
    (s : DesiredState) (c i class id : ℕ) (row : Slots)
    → BlanketIsAlone s
    → button_count s ≤ lock_id_all
    → ((c == lock_cls_btn) && (i == lock_id_all)) ≡ false
    → lookup (class, id) s.locks ≡ some row
    → WritesBySource s (c, i) ((class, id), row)
entry-WritesBySource s c i class id row alone few other held =
    let writes = writes_to-row_commands s c i class id row in
    let blanket = contains_key-lookup (lock_cls_btn, lock_id_all) s.locks in
    elim (Bool-cases (contains_key (lock_cls_btn, lock_id_all) s.locks)) [
      | inl e ↦
          let gone : (id == lock_id_all) ≡ false → lookup (lock_cls_btn, id) s.locks ≡ none =
            alone e id in
          rw e (ground (arith, writes, gone, few, other, held))
      | inr e ↦ rw e (ground (arith, writes, e, other, held, blanket))
    ]

IsAside-Above :
    (s : DesiredState) (k : ℕ × ℕ) (rows : List Row)
    → All (WritesBySource s k) rows
    → Above (source_row s k) rows
    → All (IsAside s k) rows
IsAside-Above s k [] h a = tt
IsAside-Above s k (q ∷ rows) h a =
    let off : key_eq q.0 (source_row s k) ≡ false = key_eq_above (source_row s k) q.0 a.0 in
    (rw (h.0, off) refl, IsAside-Above s k rows h.1 a.1)

-- Among sorted rows, what is written to `k` comes from its source alone.
writes_to-sort_rows :
    (s : DesiredState) (k : ℕ × ℕ) (rows : List Row)
    → IsSorted rows
    → All (WritesBySource s k) rows
    → writes_to k (flat_map_rows s (sort_rows s rows))
      ≡ elim (lookup (source_row s k) rows) as (λ o. List (ℕ × ℤ)) [
        | none ↦ []
        | some r ↦ commands r
      ]
unfolding sort_rows flat_map_rows lookup
writes_to-sort_rows s k [] h w = writes_to_none k
writes_to-sort_rows s k ((q, r) ∷ rows) h w = elim (Bool-cases (key_eq q (source_row s k))) [
  | inl e ↦
      let here : writes_to k (row_commands s (q, r)) ≡ commands r = w.0 ∙ rw e refl in
      let p : q ≡ source_row s k = key_eq→eq q (source_row s k) e in
      let above : Above (source_row s k) rows = subst (λ j. Above j rows) p h.0 in
      let aside : All (IsAside s k) (sort_rows s rows) =
        sort_rows-All (IsAside s k) s rows (IsAside-Above s k rows w.1 above) in
      rw (writes_to-insert_row_sole s k (q, r) (sort_rows s rows) aside, here, e) refl
  | inr e ↦
      let none_here : writes_to k (row_commands s (q, r)) ≡ [] = w.0 ∙ rw e refl in
      rw
        (
          writes_to-insert_row_other s k (q, r) (sort_rows s rows) none_here,
          writes_to-sort_rows s k rows h.1 w.1,
          e,
        )
        refl
]

-- When the rows are in key order, the button blanket stands alone and at most 65535 buttons are
-- counted, the commands of held_locks rebuild each row but the blanket on a box that holds
-- nothing: a declared button under a held blanket gets the blanket's row, every other row its own.
pub replay-held_locks :
    (s : DesiredState) (c i : ℕ)
    → IsSorted s.locks
    → BlanketIsAlone s
    → button_count s ≤ lock_id_all
    → ((c == lock_cls_btn) && (i == lock_id_all)) ≡ false
    → replay default (writes_to (c, i) (held_locks s))
      ≡ elim (lookup (source_row s (c, i)) s.locks) as (λ o. Slots) [ none ↦ default | some r ↦ r ]
unfolding held_locks
replay-held_locks s c i sorted alone few other =
    let by_source : All (WritesBySource s (c, i)) s.locks =
      All-lookup (WritesBySource s (c, i)) s.locks sorted
        (λ q r e. entry-WritesBySource s c i q.0 q.1 r alone few other e) in
    let sent = writes_to-sort_rows s (c, i) s.locks sorted by_source in
    elim (Option-cases (lookup (source_row s (c, i)) s.locks)) [
      | inl e ↦ rw (sent, e) (replay_none default)
      | inr (r, e) ↦ rw (sent, e) (replay-commands r)
    ]

-- A lock write keeps every button row away while the button blanket is held.
pub apply_lock-BlanketIsAlone :
    (k : ℕ × (ℕ × ℕ)) (scale : ℤ) (s : DesiredState)
    → BlanketIsAlone s
    → BlanketIsAlone (apply_lock k scale s).0
apply_lock-BlanketIsAlone (class, (id, dir)) scale s alone held i other =
    let after : DesiredState = (apply_lock (class, (id, dir)) scale s).0 in
    let all_row = lookup-apply_lock (class, (id, dir)) scale s (lock_cls_btn, lock_id_all) in
    let row = lookup-apply_lock (class, (id, dir)) scale s (lock_cls_btn, i) in
    let present = contains_key-lookup (lock_cls_btn, lock_id_all) after.locks in
    let before : contains_key (lock_cls_btn, lock_id_all) s.locks ≡ true
        → lookup (lock_cls_btn, i) s.locks ≡ none =
      λ h. alone h i other in
    let was = contains_key-lookup (lock_cls_btn, lock_id_all) s.locks in
    ground (arith, all_row, row, present, before, was, held, other)
