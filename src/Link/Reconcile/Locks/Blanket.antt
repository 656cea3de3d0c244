-- ===== src/Link/Reconcile/Locks/Blanket.antt =====
-- The rows after a lock write of src/link/reconcile.rs, with the button blanket's part in them.
use medius.Base.{ℕ, zero, suc, ◌+◌, ◌≡◌, refl, arith, true, false, ◌&&◌, negate}
use medius.Base.{if◌then◌else◌, ◌==◌, ltb, leb, Option, none, some, List, [], ◌∷◌, ◌++◌, any}
use medius.Base.{Bool-cases, Option-cases, inl, inr}
use medius.Base.Int.{ℤ}
use medius.Base.Map.{
  Map, lookup, contains_key, insert, remove, lookup-insert, lookup-remove, contains_key-lookup,
}
use medius.Base.Keys.{nat_key, pair_key}
use medius.Link.Reconcile.State.{DesiredState}
use medius.Link.Reconcile.Slots.{Slots, default, write, is_clear}
use medius.Link.Reconcile.Locks.Ops.{
  Rows, lock_cls_btn, lock_id_all, write_lock_row, button_ids, clear_rows, clear_button_rows,
  button_count, burst_rows, burst_button_blanket, stored_scale, apply_rows, apply_lock,
}

-- The row that a write leaves where `prior` stood.
abbrev pub written : Option Slots → ℕ → ℤ → Option Slots
written prior dir scale =
    let row : Slots = write (elim prior [ none ↦ default | some r ↦ r ]) dir scale in
    if is_clear row then none else some row

-- The table under the write: what the blanket's own write, or the expansion of a held blanket, makes
-- of the rows first.
abbrev pub row_before : ℕ → ℕ → DesiredState → ℕ × ℕ → Option Slots
row_before class id s (c, i) =
    let held : Option Slots = lookup (c, i) s.locks in
    if (class == lock_cls_btn) && (id == lock_id_all)
    then (if (c == lock_cls_btn) && negate (i == lock_id_all) then none else held)
    else elim (if class == lock_cls_btn then lookup (lock_cls_btn, lock_id_all) s.locks else none) [
      | none ↦ held
      | some blanket ↦ if (c == lock_cls_btn) && (i == lock_id_all) then none else elim held [
        | none ↦ if (c == lock_cls_btn) && ltb i (button_count s) then some blanket else none
        | some r ↦ some r
      ]
    ]

abbrev pub row_after : ℕ × (ℕ × ℕ) → ℤ → DesiredState → ℕ × ℕ → Option Slots
row_after (class, (id, dir)) scale s (c, i) =
    if (class == c) && (id == i)
    then written (row_before class id s (class, id)) dir (stored_scale class scale)
    else row_before class id s (c, i)

lookup-write_lock_row :
    (class id dir : ℕ) (scale : ℤ) (s : DesiredState) (undo : Rows) (c i : ℕ)
    → lookup (c, i) (write_lock_row class id dir scale s undo).0.locks ≡ (
        if (class == c) && (id == i)
        then written (lookup (class, id) s.locks) dir scale
        else lookup (c, i) s.locks)
unfolding write_lock_row
lookup-write_lock_row class id dir scale s undo c i =
    let row : Slots =
      write (elim (lookup (class, id) s.locks) [ none ↦ default | some r ↦ r ]) dir scale in
    ground (
      arith,
      lookup-insert (class, id) (c, i) row s.locks,
      lookup-remove (class, id) (c, i) s.locks,
    )

lookup-clear_rows :
    (ids : List ℕ) (s : DesiredState) (undo : Rows) (c i : ℕ)
    → lookup (c, i) (clear_rows ids s undo).0.locks
      ≡ (if (c == lock_cls_btn) && any (λ id. id == i) ids then none else lookup (c, i) s.locks)
unfolding clear_rows
lookup-clear_rows [] s undo c i = ground arith
lookup-clear_rows (id ∷ ids) s undo c i =
    let key : ℕ × ℕ = (lock_cls_btn, id) in
    let next : DesiredState = record s { locks = remove key s.locks } in
    ground (
      arith,
      lookup-clear_rows ids next (undo ++ ((key, lookup key s.locks) ∷ [])) c i,
      lookup-remove key (c, i) s.locks,
    )

any-button_ids :
    (m : Map (ℕ × ℕ) Slots) (i : ℕ)
    → any (λ id. id == i) (button_ids m)
      ≡ (contains_key (lock_cls_btn, i) m && negate (i == lock_id_all))
unfolding button_ids contains_key
any-button_ids [] i = refl
any-button_ids (((c, j), r) ∷ m) i = ground (arith, any-button_ids m i)

lookup-clear_button_rows :
    (s : DesiredState) (undo : Rows) (c i : ℕ)
    → lookup (c, i) (clear_button_rows s undo).0.locks
      ≡ (if (c == lock_cls_btn) && negate (i == lock_id_all) then none else lookup (c, i) s.locks)
unfolding clear_button_rows
lookup-clear_button_rows s undo c i = ground (
  arith,
  lookup-clear_rows (button_ids s.locks) s undo c i,
  any-button_ids s.locks i,
  contains_key-lookup (lock_cls_btn, i) s.locks,
)

-- The rows from `b` to `b + k` that the loop fills where none is held.
abbrev burst_row : Slots → ℕ → ℕ → DesiredState → ℕ → ℕ → Option Slots
burst_row blanket b k s c i = elim (lookup (c, i) s.locks) [
  | none ↦ if (c == lock_cls_btn) && (leb b i && ltb i (b + k)) then some blanket else none
  | some r ↦ some r
]

lookup-burst_rows :
    (blanket : Slots) (b k : ℕ) (s : DesiredState) (undo : Rows) (c i : ℕ)
    → lookup (c, i) (burst_rows blanket b k s undo).0.locks ≡ burst_row blanket b k s c i
unfolding burst_rows
lookup-burst_rows blanket b zero s undo c i = ground arith
lookup-burst_rows blanket b (suc k) s undo c i =
    let row : ℕ × ℕ = (lock_cls_btn, b) in
    let next : DesiredState = record s { locks = insert row blanket s.locks } in
    elim (Bool-cases (contains_key row s.locks)) [
      | inl f ↦
          rw (burst_rows, f)
            (ground (
              arith,
              f,
              contains_key-lookup row s.locks,
              lookup-burst_rows blanket (suc b) k s undo c i,
            ))
      | inr f ↦
          rw (burst_rows, f)
            (ground (
              arith,
              f,
              contains_key-lookup row s.locks,
              lookup-insert row (c, i) blanket s.locks,
              lookup-burst_rows blanket (suc b) k next (undo ++ ((row, none) ∷ [])) c i,
            ))
    ]

lookup-burst_button_blanket :
    (s : DesiredState) (undo : Rows) (blanket : Slots) (c i : ℕ)
    → lookup (lock_cls_btn, lock_id_all) s.locks ≡ some blanket
    → lookup (c, i) (burst_button_blanket s undo).0.locks ≡ (
        if (c == lock_cls_btn) && (i == lock_id_all)
        then none
        else burst_row blanket 0 (button_count s) s c i)
unfolding burst_button_blanket
lookup-burst_button_blanket s undo blanket c i e =
    let key : ℕ × ℕ = (lock_cls_btn, lock_id_all) in
    let burst : DesiredState × Rows = burst_rows blanket 0 (button_count s) s undo in
    rw (burst_button_blanket, e)
      (ground (
        arith,
        lookup-remove key (c, i) burst.0.locks,
        lookup-burst_rows blanket 0 (button_count s) s undo c i,
      ))

-- Every row after a lock write: the row written holds the stored scale in the direction written,
-- over what the button blanket's clearing or expansion left there, and every other row is as that
-- clearing or expansion left it.
pub lookup-apply_lock :
    (k : ℕ × (ℕ × ℕ)) (scale : ℤ) (s : DesiredState) (j : ℕ × ℕ)
    → lookup j (apply_lock k scale s).0.locks ≡ row_after k scale s j
unfolding apply_lock apply_rows
lookup-apply_lock (class, (id, dir)) scale s (c, i) =
    let stored : ℤ = stored_scale class scale in
    let cleared : DesiredState × Rows = clear_button_rows s [] in
    let burst : DesiredState × Rows = burst_button_blanket s [] in
    elim (Bool-cases (class == lock_cls_btn)) [
      | inl p ↦ elim (Bool-cases (id == lock_id_all)) [
        | inl q ↦
            rw (p, q)
              (ground (
                arith,
                lookup-write_lock_row class id dir stored cleared.0 cleared.1 c i,
                lookup-clear_button_rows s [] c i,
                lookup-clear_button_rows s [] class id,
              ))
        | inr q ↦ elim (Option-cases (lookup (lock_cls_btn, lock_id_all) s.locks)) [
          | inl e ↦
              let absent : contains_key (lock_cls_btn, lock_id_all) s.locks ≡ false =
                ground (arith, e, contains_key-lookup (lock_cls_btn, lock_id_all) s.locks) in
              rw (p, q, absent, e)
                (ground (arith, lookup-write_lock_row class id dir stored s [] c i))
          | inr (blanket, e) ↦
              let held : contains_key (lock_cls_btn, lock_id_all) s.locks ≡ true =
                ground (arith, e, contains_key-lookup (lock_cls_btn, lock_id_all) s.locks) in
              rw (p, q, held, e)
                (ground (
                  arith,
                  lookup-write_lock_row class id dir stored burst.0 burst.1 c i,
                  lookup-burst_button_blanket s [] blanket c i e,
                  lookup-burst_button_blanket s [] blanket class id e,
                ))
        ]
      ]
      | inr p ↦ rw p (ground (arith, lookup-write_lock_row class id dir stored s [] c i))
    ]
