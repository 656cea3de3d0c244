-- ===== src/Link/Reconcile/Locks/Ops.antt =====
-- The operations on lock rows of src/link/reconcile.rs.
use medius.Base.{ℕ, zero, suc, Bool, ◌&&◌, negate, min}
use medius.Base.{if◌then◌else◌, ◌==◌, Option, none, some, List, [], ◌∷◌, ◌++◌, any, retain}
use medius.Base.Int.{ℤ, ltb_ℤ}
use medius.Base.Map.{Map, lookup, contains_key, insert, remove}
use medius.Base.Keys.{nat_key, pair_key}
use medius.Link.Reconcile.State.{DesiredState}
use medius.Link.Reconcile.Slots.{Slots, default, write, is_clear, lock_scale_block, lock_scale_pass}

abbrev pub lock_cls_btn : ℕ
lock_cls_btn = 0

abbrev pub lock_cls_media : ℕ
lock_cls_media = 2

abbrev pub lock_cls_axis : ℕ
lock_cls_axis = 3

abbrev pub lock_id_all : ℕ
lock_id_all = 0xFFFF

abbrev pub btn_count : ℕ
btn_count = 5

abbrev pub max_buttons : ℕ
max_buttons = 16

abbrev pub Rows : Type 0
Rows = List ((ℕ × ℕ) × Option Slots)

pub record LockUndo : Type 0 where
  pub rows : Rows
  pub media_order : List ℕ

unfoldable pub is_media_slot : ℕ → ℕ → Bool
is_media_slot class id = (class == lock_cls_media) && negate (id == lock_id_all)

-- The state and the rows of the undo, which `&mut self` and `undo` stand for.
unfoldable pub write_lock_row : ℕ → ℕ → ℕ → ℤ → DesiredState → Rows → DesiredState × Rows
unfolding is_media_slot
write_lock_row class id dir scale s undo =
    let key : ℕ × ℕ = (class, id) in
    let prior : Option Slots = lookup key s.locks in
    let row : Slots = write (elim prior [ none ↦ default | some r ↦ r ]) dir scale in
    let rows : Rows = undo ++ ((key, prior) ∷ []) in
    if is_clear row
    then (
      record s {
        locks = remove key s.locks;
        media_order =
            if is_media_slot class id
            then retain (λ m. negate (m == id)) s.media_order
            else s.media_order;
      },
      rows,
    )
    else (
      record s {
        locks = insert key row s.locks;
        media_order =
            if is_media_slot class id && negate (any (λ m. m == id) s.media_order)
            then s.media_order ++ (id ∷ [])
            else s.media_order;
      },
      rows,
    )

-- The ids of the button rows, in key order.
unfoldable pub button_ids : Map (ℕ × ℕ) Slots → List ℕ
button_ids [] = []
button_ids (((class, id), row) ∷ m) =
    if (class == lock_cls_btn) && negate (id == lock_id_all)
    then id ∷ button_ids m
    else button_ids m

unfoldable pub clear_rows : List ℕ → DesiredState → Rows → DesiredState × Rows
clear_rows [] s undo = (s, undo)
clear_rows (id ∷ ids) s undo =
    let key : ℕ × ℕ = (lock_cls_btn, id) in
    clear_rows ids (record s { locks = remove key s.locks })
      (undo ++ ((key, lookup key s.locks) ∷ []))

unfoldable pub clear_button_rows : DesiredState → Rows → DesiredState × Rows
unfolding clear_rows button_ids
clear_button_rows s undo = clear_rows (button_ids s.locks) s undo

unfoldable pub note_declared_buttons : ℕ → DesiredState → DesiredState
note_declared_buttons n_buttons s = record s { declared_buttons = some (min n_buttons max_buttons) }

unfoldable pub button_count : DesiredState → ℕ
button_count s = elim s.declared_buttons [ none ↦ btn_count | some n ↦ n ]

-- The loop of `burst_button_blanket` over the `k` buttons from `b` on.
unfoldable pub burst_rows : Slots → ℕ → ℕ → DesiredState → Rows → DesiredState × Rows
burst_rows blanket b zero s undo = (s, undo)
burst_rows blanket b (suc k) s undo =
    let row : ℕ × ℕ = (lock_cls_btn, b) in
    let next : DesiredState × Rows =
      if contains_key row s.locks
      then (s, undo)
      else (record s { locks = insert row blanket s.locks }, undo ++ ((row, none) ∷ [])) in
    burst_rows blanket (suc b) k next.0 next.1

unfoldable pub burst_button_blanket : DesiredState → Rows → DesiredState × Rows
unfolding burst_rows button_count
burst_button_blanket s undo =
    let key : ℕ × ℕ = (lock_cls_btn, lock_id_all) in
    elim (lookup key s.locks) [
      | none ↦ (s, undo)
      | some blanket ↦
          let burst : DesiredState × Rows = burst_rows blanket 0 (button_count s) s undo in
          (
            record (burst.0) { locks = remove key burst.0.locks },
            burst.1 ++ ((key, some blanket) ∷ []),
          )
    ]

unfoldable pub stored_scale : ℕ → ℤ → ℤ
stored_scale class scale =
    if class == lock_cls_axis
    then scale
    else if ltb_ℤ scale lock_scale_pass
    then lock_scale_block
    else lock_scale_pass

-- Each arm of `apply_lock`, on the state and the empty undo.
unfoldable pub apply_rows : ℕ → ℕ → ℕ → ℤ → DesiredState → DesiredState × Rows
unfolding write_lock_row clear_button_rows burst_button_blanket
apply_rows class id dir scale s =
    if (class == lock_cls_btn) && (id == lock_id_all)
    then (let cleared : DesiredState × Rows = clear_button_rows s [] in
        write_lock_row class id dir scale cleared.0 cleared.1)
    else if (class == lock_cls_btn) && contains_key (lock_cls_btn, lock_id_all) s.locks
    then (let burst : DesiredState × Rows = burst_button_blanket s [] in
        write_lock_row class id dir scale burst.0 burst.1)
    else write_lock_row class id dir scale s []

unfoldable pub apply_lock : ℕ × (ℕ × ℕ) → ℤ → DesiredState → DesiredState × LockUndo
unfolding apply_rows stored_scale
apply_lock (class, (id, dir)) scale s =
    let applied : DesiredState × Rows = apply_rows class id dir (stored_scale class scale) s in
    (applied.0, record { rows = applied.1; media_order = s.media_order })

-- One entry of the undo, put back.
unfoldable pub restore_row : (ℕ × ℕ) × Option Slots → Map (ℕ × ℕ) Slots → Map (ℕ × ℕ) Slots
restore_row (key, row) m = elim row [ none ↦ remove key m | some r ↦ insert key r m ]

-- The loop of `restore_lock` from the newest entry: the list is walked to its end first.
unfoldable pub restore_rows : Rows → Map (ℕ × ℕ) Slots → Map (ℕ × ℕ) Slots
unfolding restore_row
restore_rows [] m = m
restore_rows (e ∷ rows) m = restore_row e (restore_rows rows m)

unfoldable pub restore_lock : LockUndo → DesiredState → DesiredState
unfolding restore_rows
restore_lock undo s = record s {
  locks = restore_rows undo.rows s.locks;
  media_order = undo.media_order;
}
