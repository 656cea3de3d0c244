-- ===== src/Link/Reconcile/Locks/Undo.antt =====
-- restore_lock of src/link/reconcile.rs, after apply_lock.
use medius.Base.{ℕ, zero, suc, ◌+◌, ◌≤◌, ◌≡◌, refl, ap, ◌∙◌, arith, false, ◌&&◌, inl, inr}
use medius.Base.{
  if◌then◌else◌, ◌==◌, negate, any, retain, Option, none, some, List, [], ◌∷◌, ◌++◌, Bool-cases,
  Option-cases,
}
use mathlib.Core.Path.{subst}
use medius.Base.Int.{ℤ}
use medius.Base.Map.{
  Map, key_eq, key_eq→eq, lookup, contains_key, insert, remove, IsSorted, lookup-insert,
  lookup-remove, contains_key-lookup, insert-IsSorted, remove-IsSorted, lookup_ext,
}
use medius.Base.Keys.{nat_key, pair_key}
use medius.Link.Reconcile.State.{DesiredState}
use medius.Link.Reconcile.Slots.{Slots, default, write, is_clear}
use medius.Link.Reconcile.Locks.Ops.{
  Rows, lock_cls_btn, lock_id_all, is_media_slot, write_lock_row, button_ids, clear_rows,
  clear_button_rows, button_count, burst_rows, burst_button_blanket, stored_scale, apply_rows,
  apply_lock, restore_row, restore_rows, restore_lock,
}

restore_row-IsSorted :
    (e : (ℕ × ℕ) × Option Slots) (m : Map (ℕ × ℕ) Slots) → IsSorted m → IsSorted (restore_row e m)
unfolding restore_row
restore_row-IsSorted (key, none) m h = remove-IsSorted key m h
restore_row-IsSorted (key, some r) m h = insert-IsSorted key r m h

lookup-restore_row :
    (key j : ℕ × ℕ) (row : Option Slots) (m : Map (ℕ × ℕ) Slots)
    → lookup j (restore_row (key, row) m) ≡ (if key_eq key j then row else lookup j m)
unfolding restore_row
lookup-restore_row key j none m = lookup-remove key j m
lookup-restore_row key j (some r) m = lookup-insert key j r m

-- Two maps that agree off one key differ by that row.
AgreeOff : ℕ × ℕ → Map (ℕ × ℕ) Slots → Map (ℕ × ℕ) Slots → Type 0
AgreeOff key m m' = (j : ℕ × ℕ) → key_eq key j ≡ false → lookup j m' ≡ lookup j m

restore_row-lookup :
    (key : ℕ × ℕ) (m m' : Map (ℕ × ℕ) Slots)
    → IsSorted m
    → IsSorted m'
    → AgreeOff key m m'
    → restore_row (key, lookup key m) m' ≡ m
unfolding AgreeOff
restore_row-lookup key m m' s s' h =
    lookup_ext (restore_row (key, lookup key m) m') m
      (restore_row-IsSorted (key, lookup key m) m' s') s
      (λ j. lookup-restore_row key j (lookup key m) m' ∙ (elim (Bool-cases (key_eq key j)) [
        | inl e ↦
            let q : key ≡ j = key_eq→eq key j e in ground (arith, e, q, ap (λ k. lookup k m) q)
        | inr e ↦ ground (arith, e, h j e)
      ]))

restore_rows-append :
    (rows : Rows) (e : (ℕ × ℕ) × Option Slots) (m : Map (ℕ × ℕ) Slots)
    → restore_rows (rows ++ (e ∷ [])) m ≡ restore_rows rows (restore_row e m)
unfolding restore_rows
restore_rows-append [] e m = refl
restore_rows-append (d ∷ rows) e m = ap (restore_row d) (restore_rows-append rows e m)

-- The rows recorded so far lead from the state back to the start, but for the media order.
abbrev pub LeadsBack : DesiredState → DesiredState × Rows → Type 0
LeadsBack start (s, undo) =
    IsSorted s.locks
    × (record s { locks = restore_rows undo s.locks; media_order = start.media_order } ≡ start)

-- A change of one row, recorded with what it overwrote, keeps the way back.
LeadsBack-step :
    (start s : DesiredState) (undo : Rows) (key : ℕ × ℕ) (locks : Map (ℕ × ℕ) Slots)
    (media : List ℕ)
    → LeadsBack start (s, undo)
    → IsSorted locks
    → AgreeOff key s.locks locks
    → LeadsBack start
        (record s { locks = locks; media_order = media }, undo ++ ((key, lookup key s.locks) ∷ []))
LeadsBack-step start s undo key locks media b sorted h =
    let back : restore_rows (undo ++ ((key, lookup key s.locks) ∷ [])) locks
        ≡ restore_rows undo s.locks =
      restore_rows-append undo (key, lookup key s.locks) locks
      ∙ ap (restore_rows undo) (restore_row-lookup key s.locks locks b.0 sorted h) in
    (sorted, ap (λ m. record s { locks = m; media_order = start.media_order }) back ∙ b.1)

insert-AgreeOff :
    (key : ℕ × ℕ) (r : Slots) (m : Map (ℕ × ℕ) Slots) → AgreeOff key m (insert key r m)
unfolding AgreeOff
insert-AgreeOff key r m j e = ground (arith, lookup-insert key j r m, e)

remove-AgreeOff : (key : ℕ × ℕ) (m : Map (ℕ × ℕ) Slots) → AgreeOff key m (remove key m)
unfolding AgreeOff
remove-AgreeOff key m j e = ground (arith, lookup-remove key j m, e)

write_lock_row-LeadsBack :
    (class id dir : ℕ) (scale : ℤ) (start s : DesiredState) (undo : Rows)
    → LeadsBack start (s, undo)
    → LeadsBack start (write_lock_row class id dir scale s undo)
unfolding write_lock_row
write_lock_row-LeadsBack class id dir scale start s undo b =
    let key : ℕ × ℕ = (class, id) in
    let prior : Option Slots = lookup key s.locks in
    let row : Slots = write (elim prior [ none ↦ default | some r ↦ r ]) dir scale in
    let dropped : List ℕ =
      if is_media_slot class id
      then retain (λ m. negate (m == id)) s.media_order
      else s.media_order in
    let taken : List ℕ =
      if is_media_slot class id && negate (any (λ m. m == id) s.media_order)
      then s.media_order ++ (id ∷ [])
      else s.media_order in
    elim (Bool-cases (is_clear row)) [
      | inl e ↦ rw e (
          LeadsBack-step start s undo key (remove key s.locks) dropped b
            (remove-IsSorted key s.locks b.0) (remove-AgreeOff key s.locks))
      | inr e ↦ rw e (
          LeadsBack-step start s undo key (insert key row s.locks) taken b
            (insert-IsSorted key row s.locks b.0) (insert-AgreeOff key row s.locks))
    ]

clear_rows-LeadsBack :
    (ids : List ℕ) (start s : DesiredState) (undo : Rows)
    → LeadsBack start (s, undo)
    → LeadsBack start (clear_rows ids s undo)
unfolding clear_rows
clear_rows-LeadsBack [] start s undo b = b
clear_rows-LeadsBack (id ∷ ids) start s undo b =
    let key : ℕ × ℕ = (lock_cls_btn, id) in
    clear_rows-LeadsBack ids start (record s { locks = remove key s.locks })
      (undo ++ ((key, lookup key s.locks) ∷ []))
      (LeadsBack-step start s undo key (remove key s.locks) s.media_order b
        (remove-IsSorted key s.locks b.0) (remove-AgreeOff key s.locks))

lookup_vacant :
    (key : ℕ × ℕ) (m : Map (ℕ × ℕ) Slots) → contains_key key m ≡ false → lookup key m ≡ none
lookup_vacant key m e = elim (Option-cases (lookup key m)) [
  | inl h ↦ h
  | inr (r, h) ↦ absurd (ground (arith, e, h, contains_key-lookup key m))
]

burst_rows-LeadsBack :
    (blanket : Slots) (b k : ℕ) (start s : DesiredState) (undo : Rows)
    → LeadsBack start (s, undo)
    → LeadsBack start (burst_rows blanket b k s undo)
unfolding burst_rows
burst_rows-LeadsBack blanket b zero start s undo h = h
burst_rows-LeadsBack blanket b (suc k) start s undo h =
    let row : ℕ × ℕ = (lock_cls_btn, b) in
    let locks : Map (ℕ × ℕ) Slots = insert row blanket s.locks in
    elim (Bool-cases (contains_key row s.locks)) [
      | inl e ↦ rw (burst_rows, e) (burst_rows-LeadsBack blanket (suc b) k start s undo h)
      | inr e ↦
          let free : lookup row s.locks ≡ none = lookup_vacant row s.locks e in
          let here : LeadsBack start (record s { locks = locks }, undo ++ ((row, none) ∷ [])) =
            subst
              (λ prior. LeadsBack start (record s { locks = locks }, undo ++ ((row, prior) ∷ [])))
              free
              (LeadsBack-step start s undo row locks s.media_order h
                (insert-IsSorted row blanket s.locks h.0) (insert-AgreeOff row blanket s.locks)) in
          rw (burst_rows, e)
            (burst_rows-LeadsBack blanket (suc b) k start (record s { locks = locks })
              (undo ++ ((row, none) ∷ [])) here)
    ]

-- The loop touches the buttons from `b` on, below the blanket's own row.
burst_rows_blanket :
    (blanket : Slots) (b k : ℕ) (s : DesiredState) (undo : Rows)
    → b + k ≤ lock_id_all
    → lookup (lock_cls_btn, lock_id_all) (burst_rows blanket b k s undo).0.locks
      ≡ lookup (lock_cls_btn, lock_id_all) s.locks
unfolding burst_rows
burst_rows_blanket blanket b zero s undo h = refl
burst_rows_blanket blanket b (suc k) s undo h =
    let row : ℕ × ℕ = (lock_cls_btn, b) in
    let locks : Map (ℕ × ℕ) Slots = insert row blanket s.locks in
    elim (Bool-cases (contains_key row s.locks)) [
      | inl e ↦ rw (burst_rows, e) (burst_rows_blanket blanket (suc b) k s undo (omega (arith, h)))
      | inr e ↦
          let kept : lookup (lock_cls_btn, lock_id_all) locks
              ≡ lookup (lock_cls_btn, lock_id_all) s.locks =
            ground (arith, h, lookup-insert row (lock_cls_btn, lock_id_all) blanket s.locks) in
          rw (burst_rows, e)
            (burst_rows_blanket blanket (suc b) k (record s { locks = locks })
                (undo ++ ((row, none) ∷ [])) (omega (arith, h))
              ∙ kept)
    ]

burst_button_blanket-LeadsBack :
    (start s : DesiredState) (undo : Rows)
    → button_count s ≤ lock_id_all
    → LeadsBack start (s, undo)
    → LeadsBack start (burst_button_blanket s undo)
unfolding burst_button_blanket
burst_button_blanket-LeadsBack start s undo few h =
    let key : ℕ × ℕ = (lock_cls_btn, lock_id_all) in
    elim (Option-cases (lookup key s.locks)) [
      | inl e ↦ rw (burst_button_blanket, e) h
      | inr (blanket, e) ↦
          let burst : DesiredState × Rows = burst_rows blanket 0 (button_count s) s undo in
          let held : lookup key burst.0.locks ≡ some blanket =
            burst_rows_blanket blanket 0 (button_count s) s undo (omega (arith, few)) ∙ e in
          let b : LeadsBack start burst =
            burst_rows-LeadsBack blanket 0 (button_count s) start s undo h in
          rw (burst_button_blanket, e)
            (subst
              (λ prior. LeadsBack start (
                record (burst.0) { locks = remove key burst.0.locks },
                burst.1 ++ ((key, prior) ∷ []),
              ))
              held
              (LeadsBack-step start burst.0 burst.1 key (remove key burst.0.locks)
                burst.0.media_order b (remove-IsSorted key burst.0.locks b.0)
                (remove-AgreeOff key burst.0.locks)))
    ]

apply_rows-LeadsBack :
    (class id dir : ℕ) (scale : ℤ) (s : DesiredState)
    → button_count s ≤ lock_id_all
    → IsSorted s.locks
    → LeadsBack s (apply_rows class id dir scale s)
unfolding apply_rows clear_button_rows restore_rows
apply_rows-LeadsBack class id dir scale s few h =
    let cleared = clear_rows-LeadsBack (button_ids s.locks) s s [] (h, refl) in
    let burst = burst_button_blanket-LeadsBack s s [] few (h, refl) in
    elim (Bool-cases ((class == lock_cls_btn) && (id == lock_id_all))) [
      | inl e ↦ rw e (write_lock_row-LeadsBack class id dir scale s _ _ cleared)
      | inr e ↦
          elim (Bool-cases
            ((class == lock_cls_btn) && contains_key (lock_cls_btn, lock_id_all) s.locks)) [
              | inl f ↦ rw (e, f) (write_lock_row-LeadsBack class id dir scale s _ _ burst)
              | inr f ↦ rw (e, f) (write_lock_row-LeadsBack class id dir scale s s [] (h, refl))
            ]
    ]

-- Undoing a lock write that was just applied gives back the whole state, when the rows are in key
-- order and at most 65535 buttons are counted.
pub restore_lock-apply_lock :
    (k : ℕ × (ℕ × ℕ)) (scale : ℤ) (s : DesiredState)
    → IsSorted s.locks
    → button_count s ≤ lock_id_all
    → restore_lock (apply_lock k scale s).1 (apply_lock k scale s).0 ≡ s
unfolding restore_lock apply_lock
restore_lock-apply_lock (class, (id, dir)) scale s h few =
    (apply_rows-LeadsBack class id dir (stored_scale class scale) s few h).1
