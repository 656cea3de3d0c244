-- ===== src/Link/Reconcile/Locks/Rows.antt =====
-- The invariant of the lock rows of src/link/reconcile.rs: rows in key order, none of them at pass
-- in every slot, and the media rows listed once each in the order they were taken.
use medius.Base.{ℕ, zero, suc, ◌≡◌, refl, arith, Bool, true, false, ◌&&◌, negate}
use medius.Base.{if◌then◌else◌, ◌==◌, none, some, List, [], ◌∷◌, ◌++◌, any, retain}
use medius.Base.{Bool-cases, Option-cases, inl, inr}
use medius.Base.Int.{ℤ}
use medius.Base.Map.{
  Map, key_eq, lookup, contains_key, insert, remove, IsSorted, lookup-insert, lookup-remove,
  contains_key-lookup, insert-IsSorted, remove-IsSorted,
}
use medius.Base.Keys.{nat_key, pair_key}
use medius.Link.Reconcile.State.{DesiredState}
use medius.Link.Reconcile.Slots.{Slots, default, write, is_clear}
use medius.Link.Reconcile.Locks.Ops.{
  Rows, lock_cls_btn, lock_cls_media, lock_id_all, is_media_slot, write_lock_row, button_ids,
  clear_rows, clear_button_rows, button_count, burst_rows, burst_button_blanket, stored_scale,
  apply_rows, apply_lock,
}

abbrev pub holds_media : ℕ → List ℕ → Bool
holds_media id = any (λ m. m == id)

-- No id stands twice.
unfoldable pub IsNodup : List ℕ → Type 0
IsNodup [] = Unit {0}
IsNodup (m ∷ ms) = (holds_media m ms ≡ false) × IsNodup ms

abbrev pub HasNoClearRow : Map (ℕ × ℕ) Slots → Type 0
HasNoClearRow locks = (k : ℕ × ℕ) (r : Slots) → lookup k locks ≡ some r → is_clear r ≡ false

-- The media order lists the ids of the media rows, the blanket's aside.
abbrev pub ListsMedia : Map (ℕ × ℕ) Slots → List ℕ → Type 0
ListsMedia locks media =
    (id : ℕ)
    → holds_media id media
      ≡ (is_media_slot lock_cls_media id && contains_key (lock_cls_media, id) locks)

abbrev pub IsValid : DesiredState → Type 0
IsValid s =
    IsSorted s.locks
    × (HasNoClearRow s.locks × (ListsMedia s.locks s.media_order × IsNodup s.media_order))

holds_media-retain :
    (id j : ℕ) (ms : List ℕ)
    → holds_media j (retain (λ m. negate (m == id)) ms) ≡ (negate (id == j) && holds_media j ms)
holds_media-retain id j [] = ground arith
holds_media-retain id j (m ∷ ms) = ground (arith, holds_media-retain id j ms)

holds_media-append :
    (id j : ℕ) (ms : List ℕ)
    → holds_media j (ms ++ (id ∷ [])) ≡ (if id == j then true else holds_media j ms)
holds_media-append id j [] = ground arith
holds_media-append id j (m ∷ ms) = ground (arith, holds_media-append id j ms)

retain-IsNodup : (id : ℕ) (ms : List ℕ) → IsNodup ms → IsNodup (retain (λ m. negate (m == id)) ms)
unfolding IsNodup
retain-IsNodup id [] h = tt
retain-IsNodup id (m ∷ ms) h =
    ground (arith, h.0, retain-IsNodup id ms h.1, holds_media-retain id m ms)

append-IsNodup :
    (id : ℕ) (ms : List ℕ) → holds_media id ms ≡ false → IsNodup ms → IsNodup (ms ++ (id ∷ []))
unfolding IsNodup
append-IsNodup id [] f h = (refl, tt)
append-IsNodup id (m ∷ ms) f h =
    ground (arith, h.0, f, append-IsNodup id ms, h.1, holds_media-append id m ms)

insert-HasNoClearRow :
    (k : ℕ × ℕ) (r : Slots) (m : Map (ℕ × ℕ) Slots)
    → is_clear r ≡ false
    → HasNoClearRow m
    → HasNoClearRow (insert k r m)
insert-HasNoClearRow k r m e h j t eq = ground (arith, lookup-insert k j r m, e, h j t, eq)

remove-HasNoClearRow :
    (k : ℕ × ℕ) (m : Map (ℕ × ℕ) Slots) → HasNoClearRow m → HasNoClearRow (remove k m)
remove-HasNoClearRow k m h j t eq = ground (arith, lookup-remove k j m, h j t, eq)

contains_key-insert :
    (k j : ℕ × ℕ) (r : Slots) (m : Map (ℕ × ℕ) Slots)
    → contains_key j (insert k r m) ≡ (if key_eq k j then true else contains_key j m)
contains_key-insert k j r m =
    ground
      (arith, lookup-insert k j r m, contains_key-lookup j m, contains_key-lookup j (insert k r m))

contains_key-remove :
    (k j : ℕ × ℕ) (m : Map (ℕ × ℕ) Slots)
    → contains_key j (remove k m) ≡ (if key_eq k j then false else contains_key j m)
contains_key-remove k j m =
    ground (arith, lookup-remove k j m, contains_key-lookup j m, contains_key-lookup j (remove k m))

-- The two exits of `write_lock_row`.
drop_row-IsValid :
    (class id : ℕ) (s : DesiredState)
    → IsValid s
    → IsValid (record s {
      locks = remove (class, id) s.locks;
      media_order =
          if is_media_slot class id
          then retain (λ m. negate (m == id)) s.media_order
          else s.media_order;
    })
unfolding is_media_slot
drop_row-IsValid class id s (sorted, (rows, (media, nodup))) = (
  remove-IsSorted (class, id) s.locks sorted,
  (
    remove-HasNoClearRow (class, id) s.locks rows,
    (
      (λ j. ground (
        arith,
        media j,
        contains_key-remove (class, id) (lock_cls_media, j) s.locks,
        holds_media-retain id j s.media_order,
      )),
      ground (arith, nodup, retain-IsNodup id s.media_order nodup),
    ),
  ),
)

take_row-IsValid :
    (class id : ℕ) (r : Slots) (s : DesiredState)
    → is_clear r ≡ false
    → IsValid s
    → IsValid (record s {
      locks = insert (class, id) r s.locks;
      media_order =
          if is_media_slot class id && negate (any (λ m. m == id) s.media_order)
          then s.media_order ++ (id ∷ [])
          else s.media_order;
    })
unfolding is_media_slot
take_row-IsValid class id r s e (sorted, (rows, (media, nodup))) = (
  insert-IsSorted (class, id) r s.locks sorted,
  (
    insert-HasNoClearRow (class, id) r s.locks e rows,
    (
      (λ j. ground (
        arith,
        media j,
        contains_key-insert (class, id) (lock_cls_media, j) r s.locks,
        holds_media-append id j s.media_order,
      )),
      ground (arith, nodup, append-IsNodup id s.media_order),
    ),
  ),
)

write_lock_row-IsValid :
    (class id dir : ℕ) (scale : ℤ) (s : DesiredState) (undo : Rows)
    → IsValid s
    → IsValid (write_lock_row class id dir scale s undo).0
unfolding write_lock_row
write_lock_row-IsValid class id dir scale s undo h =
    let row : Slots =
      write (elim (lookup (class, id) s.locks) [ none ↦ default | some r ↦ r ]) dir scale in
    elim (Bool-cases (is_clear row)) [
      | inl e ↦ rw (write_lock_row, e) (drop_row-IsValid class id s h)
      | inr e ↦ rw (write_lock_row, e) (take_row-IsValid class id row s e h)
    ]

clear_rows-IsValid :
    (ids : List ℕ) (s : DesiredState) (undo : Rows) → IsValid s → IsValid (clear_rows ids s undo).0
unfolding clear_rows is_media_slot
clear_rows-IsValid [] s undo h = h
clear_rows-IsValid (id ∷ ids) s undo h =
    clear_rows-IsValid ids (record s { locks = remove (lock_cls_btn, id) s.locks })
      (undo ++ (((lock_cls_btn, id), lookup (lock_cls_btn, id) s.locks) ∷ []))
      (drop_row-IsValid lock_cls_btn id s h)

burst_rows-IsValid :
    (blanket : Slots) (b k : ℕ) (s : DesiredState) (undo : Rows)
    → is_clear blanket ≡ false
    → IsValid s
    → IsValid (burst_rows blanket b k s undo).0
unfolding burst_rows is_media_slot
burst_rows-IsValid blanket b zero s undo e h = h
burst_rows-IsValid blanket b (suc k) s undo e h =
    let row : ℕ × ℕ = (lock_cls_btn, b) in
    elim (Bool-cases (contains_key row s.locks)) [
      | inl f ↦ rw (burst_rows, f) (burst_rows-IsValid blanket (suc b) k s undo e h)
      | inr f ↦
          rw (burst_rows, f)
            (burst_rows-IsValid blanket (suc b) k (record s { locks = insert row blanket s.locks })
              (undo ++ ((row, none) ∷ [])) e (take_row-IsValid lock_cls_btn b blanket s e h))
    ]

burst_button_blanket-IsValid :
    (s : DesiredState) (undo : Rows) → IsValid s → IsValid (burst_button_blanket s undo).0
unfolding burst_button_blanket is_media_slot
burst_button_blanket-IsValid s undo h =
    let key : ℕ × ℕ = (lock_cls_btn, lock_id_all) in
    elim (Option-cases (lookup key s.locks)) [
      | inl e ↦ rw (burst_button_blanket, e) h
      | inr (blanket, e) ↦
          let burst : DesiredState × Rows = burst_rows blanket 0 (button_count s) s undo in
          rw (burst_button_blanket, e)
            (drop_row-IsValid lock_cls_btn lock_id_all burst.0
              (burst_rows-IsValid blanket 0 (button_count s) s undo (h.1.0 key blanket e) h))
    ]

-- A lock write keeps the rows in key order, none of them at pass in every slot, and the media
-- order listing each granular media row once and nothing else.
pub apply_lock-IsValid :
    (k : ℕ × (ℕ × ℕ)) (scale : ℤ) (s : DesiredState) → IsValid s → IsValid (apply_lock k scale s).0
unfolding apply_lock apply_rows clear_button_rows
apply_lock-IsValid (class, (id, dir)) scale s h =
    let stored : ℤ = stored_scale class scale in
    let cleared = clear_rows-IsValid (button_ids s.locks) s [] h in
    let burst = burst_button_blanket-IsValid s [] h in
    elim (Bool-cases ((class == lock_cls_btn) && (id == lock_id_all))) [
      | inl e ↦ rw e (write_lock_row-IsValid class id dir stored _ _ cleared)
      | inr e ↦
          elim (Bool-cases
            ((class == lock_cls_btn) && contains_key (lock_cls_btn, lock_id_all) s.locks)) [
              | inl f ↦ rw (e, f) (write_lock_row-IsValid class id dir stored _ _ burst)
              | inr f ↦ rw (e, f) (write_lock_row-IsValid class id dir stored s [] h)
            ]
    ]
