-- ===== src/Link/Reconcile/Locks/Held.antt =====
-- held_locks of src/link/reconcile.rs: the commands that a reconnect sends, and what they rebuild.
use medius.Base.{ℕ, zero, suc, ◌+◌, ◌≡◌, refl, arith, ◌&&◌, negate}
use medius.Base.{append_empty, if◌then◌else◌, ◌==◌, ltb, leb, none, some, List, [], ◌∷◌, ◌++◌}
use medius.Base.{Bool-cases, inl, inr}
use medius.Base.Options.{position}
use medius.Base.Int.{ℤ}
use medius.Base.Keys.{nat_key, pair_key}
use medius.Link.Reconcile.State.{DesiredState}
use medius.Link.Reconcile.Slots.{Slots, commands}
use medius.Link.Reconcile.Locks.Ops.{lock_cls_btn, lock_cls_media, lock_id_all, button_count}
use Prim.Native.Nat.{Ordering}

abbrev pub Row : Type 0
Row = (ℕ × ℕ) × Slots

abbrev pub Command : Type 0
Command = (ℕ × (ℕ × ℕ)) × ℤ

abbrev pub usize_max : ℕ
usize_max = 18446744073709551615

unfoldable pub media_rank : DesiredState → ℕ → ℕ → ℕ
media_rank s class id =
    if negate (class == lock_cls_media)
    then 0
    else elim (position (λ m. m == id) s.media_order) [ none ↦ usize_max | some i ↦ i ]

unfoldable pub row_rank : DesiredState → Row → ℕ × (ℕ × ℕ)
unfolding media_rank
row_rank s ((class, id), row) = (class, (media_rank s class id, id))

-- `sort_by_key` is stable: a row goes in before the first one of a rank that is not below its own.
unfoldable pub insert_row : DesiredState → Row → List Row → List Row
unfolding row_rank
insert_row s r [] = r ∷ []
insert_row s r (q ∷ rows) =
    let rest = insert_row s r rows in
    elim (pair_key.cmp (row_rank s q) (row_rank s r)) [ Ordering.lt ↦ q ∷ rest | _ ↦ r ∷ q ∷ rows ]

unfoldable pub sort_rows : DesiredState → List Row → List Row
unfolding insert_row
sort_rows s [] = []
sort_rows s (r ∷ rows) = insert_row s r (sort_rows s rows)

-- The commands of a row under one id.
unfoldable pub address : ℕ → ℕ → List (ℕ × ℤ) → List Command
address class id [] = []
address class id ((dir, scale) ∷ cs) = ((class, (id, dir)), scale) ∷ address class id cs

-- The range of `k` ids from `b` on.
unfoldable pub address_range : ℕ → ℕ → ℕ → List (ℕ × ℤ) → List Command
unfolding address
address_range class b zero cs = []
address_range class b (suc k) cs = address class b cs ++ address_range class (suc b) k cs

unfoldable pub row_commands : DesiredState → Row → List Command
unfolding address_range button_count
row_commands s ((class, id), row) =
    if (class == lock_cls_btn) && (id == lock_id_all)
    then address_range class 0 (button_count s) (commands row)
    else address class id (commands row)

unfoldable pub flat_map_rows : DesiredState → List Row → List Command
unfolding row_commands
flat_map_rows s [] = []
flat_map_rows s (r ∷ rows) = row_commands s r ++ flat_map_rows s rows

unfoldable pub held_locks : DesiredState → List Command
unfolding flat_map_rows sort_rows
held_locks s = flat_map_rows s (sort_rows s s.locks)

-- The part of a sequence of commands that writes one row of the box.
unfoldable pub writes_to : ℕ × ℕ → List Command → List (ℕ × ℤ)
writes_to (c, i) [] = []
writes_to (c, i) (((class, (id, dir)), scale) ∷ cs) =
    let rest = writes_to (c, i) cs in
    if (class == c) && (id == i) then (dir, scale) ∷ rest else rest

pub writes_to_none : (k : ℕ × ℕ) → writes_to k [] ≡ []
unfolding writes_to
writes_to_none (c, i) = refl

pub writes_to-append :
    (k : ℕ × ℕ) (xs ys : List Command) → writes_to k (xs ++ ys) ≡ writes_to k xs ++ writes_to k ys
unfolding writes_to
writes_to-append k [] ys = refl
writes_to-append (c, i) (((class, (id, dir)), scale) ∷ xs) ys =
    elim (Bool-cases ((class == c) && (id == i))) [
      | inl e ↦ rw (e, writes_to-append (c, i) xs ys)
      | inr e ↦ rw (e, writes_to-append (c, i) xs ys)
    ]

writes_to-address :
    (c i class id : ℕ) (cs : List (ℕ × ℤ))
    → writes_to (c, i) (address class id cs) ≡ (if (class == c) && (id == i) then cs else [])
unfolding writes_to address
writes_to-address c i class id [] = ground arith
writes_to-address c i class id ((dir, scale) ∷ cs) =
    ground (arith, writes_to-address c i class id cs)

writes_to-address_range :
    (c i class b k : ℕ) (cs : List (ℕ × ℤ))
    → writes_to (c, i) (address_range class b k cs)
      ≡ (if (class == c) && (leb b i && ltb i (b + k)) then cs else [])
unfolding address_range
writes_to-address_range c i class b zero cs = ground (arith, writes_to_none (c, i))
writes_to-address_range c i class b (suc k) cs =
    rw
      (
        writes_to-append (c, i) (address class b cs) (address_range class (suc b) k cs),
        writes_to-address c i class b cs,
        writes_to-address_range c i class (suc b) k cs,
      )
      (ground (arith, append_empty cs))

-- What a row's commands write to the row (c, i) of the box.
pub writes_to-row_commands :
    (s : DesiredState) (c i class id : ℕ) (row : Slots)
    → writes_to (c, i) (row_commands s ((class, id), row)) ≡ (
        if (class == lock_cls_btn) && (id == lock_id_all)
        then (if (class == c) && ltb i (button_count s) then commands row else [])
        else if (class == c) && (id == i)
        then commands row
        else [])
unfolding row_commands
writes_to-row_commands s c i class id row = ground (
  arith,
  writes_to-address_range c i class 0 (button_count s) (commands row),
  writes_to-address c i class id (commands row),
)
