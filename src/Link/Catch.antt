-- ===== src/Link/Catch.antt =====
-- src/link/catch.rs: the filters that subscribers ask for, collapsed onto the box's addresses, and the
-- frames that turn the box's table from one union into the next.
use medius.Base.{ℕ, ◌≡◌, Bool, true, false, ◌&&◌, ◌||◌, negate, if◌then◌else◌, ◌==◌}
use medius.Base.{Option, none, some, List, [], ◌∷◌, ◌++◌}
use medius.Base.Options.{find}
use medius.Base.Map.{Map, Key, lookup, contains_key, insert, remove}
use medius.Types.Direction.{Direction, dir_as_u8, dir_eq, admits}
use medius.Types.Catch.{
  CatchClass, CatchFilter, FilterKey, Capture, filter_key, filter_key_order, class_eq, widest,
  with_capture, with_direction, wire, capture_u8, catch_cls_any, catch_id_any,
}
use medius.Protocol.Command.{catch_payload}
use medius.Link.Reconcile.State.{FilterSet}
pub mod Box
pub mod Sync
pub mod Union
pub mod Partial
pub mod Runs

-- `entry(key).and_modify(..).or_insert(f)`
unfoldable pub collapse_one : FilterSet → CatchFilter → FilterSet
unfolding filter_key widest with_capture
collapse_one out f = elim (lookup (filter_key f) out) [
  | none ↦ insert (filter_key f) f out
  | some e ↦ insert (filter_key f) (with_capture (widest e.capture f.capture) e) out
]

unfoldable pub collapse_into : FilterSet → List CatchFilter → FilterSet
unfolding collapse_one
collapse_into out [] = out
collapse_into out (f ∷ fs) = collapse_into (collapse_one out f) fs

unfoldable pub collapse : List CatchFilter → FilterSet
unfolding collapse_into
collapse filters = collapse_into [] filters

-- `None` covers everything, else the two are compared.
unfoldable pub option_covers : {A : Type 0} → (A → A → Bool) → Option A → Option A → Bool
option_covers eqb none p = true
option_covers eqb (some o) (some f) = eqb o f
option_covers eqb (some o) none = false

unfoldable pub option_eq : {A : Type 0} → (A → A → Bool) → Option A → Option A → Bool
option_eq eqb none none = true
option_eq eqb (some o) (some f) = eqb o f
option_eq eqb _ _ = false

abbrev pub same_id : ℕ → ℕ → Bool
same_id a b = a == b

unfoldable pub covers : CatchFilter → CatchFilter → Bool
unfolding option_covers option_eq class_eq dir_eq admits
covers o f =
    if negate (option_covers class_eq o.class f.class && option_covers same_id o.id f.id)
    then false
    else if option_eq class_eq o.class f.class && option_eq same_id o.id f.id
    then dir_eq o.direction Direction.both
    else admits o.direction f.direction

unfoldable pub values : FilterSet → List CatchFilter
values [] = []
values ((k, f) ∷ set) = f ∷ values set

-- The addresses of the entries with one direction.
unfoldable pub directed : List CatchFilter → List (Option CatchClass × Option ℕ)
unfolding dir_eq
directed [] = []
directed (f ∷ fs) =
    let rest = directed fs in
    if dir_eq f.direction Direction.both then rest else (f.class, f.id) ∷ rest

-- The entry at an address and a direction.
unfoldable pub entry_at : FilterSet → Option CatchClass → Option ℕ → Direction → Option CatchFilter
unfolding values option_eq class_eq dir_eq
entry_at set class id dir =
    find
      (λ f.
        option_eq class_eq f.class class && (option_eq same_id f.id id && dir_eq f.direction dir))
      (values set)

-- One turn of the loop over the addresses.
unfoldable pub merge_siblings : Option CatchClass → Option ℕ → FilterSet → FilterSet
unfolding entry_at filter_key with_direction with_capture widest
merge_siblings class id set = elim (entry_at set class id Direction.positive) [
  | none ↦ set
  | some pos ↦ elim (entry_at set class id Direction.negative) [
    | none ↦ set
    | some neg ↦
        let merged : CatchFilter =
          with_capture (widest pos.capture neg.capture) (with_direction Direction.both pos) in
        let widened : CatchFilter = elim (entry_at set class id Direction.both) [
          | none ↦ merged
          | some both ↦ with_capture (widest merged.capture both.capture) merged
        ] in
        insert (filter_key widened) widened (remove (filter_key neg) (remove (filter_key pos) set))
  ]
]

unfoldable pub merge_all : List (Option CatchClass × Option ℕ) → FilterSet → FilterSet
unfolding merge_siblings
merge_all [] set = set
merge_all ((class, id) ∷ addresses) set = merge_all addresses (merge_siblings class id set)

unfoldable pub collapse_opposite_siblings : FilterSet → FilterSet
unfolding merge_all directed values
collapse_opposite_siblings set = merge_all (directed (values set)) set

-- The widest capture of the filters that cover `f`.
unfoldable pub widened : Capture → CatchFilter → List CatchFilter → Capture
unfolding covers widest
widened acc f [] = acc
widened acc f (o ∷ all) =
    let next : Capture = if covers o f then widest acc o.capture else acc in widened next f all

unfoldable pub widen_all : List CatchFilter → FilterSet → FilterSet
unfolding widened with_capture
widen_all all [] = []
widen_all all ((k, f) ∷ set) = (k, with_capture (widened f.capture f all) f) ∷ widen_all all set

unfoldable pub all_filters : List FilterSet → List CatchFilter
unfolding values
all_filters [] = []
all_filters (s ∷ subs) = values s ++ all_filters subs

-- The subscriptions' filter sets, in the order of the registry.
unfoldable pub effective : List FilterSet → FilterSet
unfolding all_filters collapse widen_all collapse_opposite_siblings
effective subs =
    let all : List CatchFilter = all_filters subs in
    collapse_opposite_siblings (widen_all all (collapse all))

-- A CATCH frame: an entry added or removed, or the clear of the whole table.
pub data CatchFrame : Type 0 where
  add : CatchFilter → CatchFrame
  take : CatchFilter → CatchFrame
  clear_table : CatchFrame

unfoldable pub frame_payload : CatchFrame → List ℕ
unfolding catch_payload wire dir_as_u8 capture_u8
frame_payload (CatchFrame.add f) =
    catch_payload (wire f).0 (wire f).1 (dir_as_u8 f.direction) 1 (capture_u8 f.capture)
frame_payload (CatchFrame.take f) =
    catch_payload (wire f).0 (wire f).1 (dir_as_u8 f.direction) 0 (capture_u8 f.capture)
frame_payload CatchFrame.clear_table = catch_payload catch_cls_any catch_id_any 0 0 0

abbrev pub is_wildcard : CatchFilter → Bool
is_wildcard f = elim f.class [ none ↦ true | some c ↦ false ]

unfoldable pub removes_wildcard : FilterSet → FilterSet → Bool
removes_wildcard [] next = false
removes_wildcard ((k, f) ∷ prev) next =
    (is_wildcard f && negate (contains_key k next)) || removes_wildcard prev next

unfoldable pub removals : Bool → FilterSet → FilterSet → List CatchFrame
removals wildcard_removed [] next = []
removals wildcard_removed ((k, f) ∷ prev) next =
    let rest = removals wildcard_removed prev next in
    if contains_key k next || (is_wildcard f && wildcard_removed)
    then rest
    else CatchFrame.take f ∷ rest

unfoldable pub capture_eq : Capture → Capture → Bool
capture_eq Capture.whole Capture.whole = true
capture_eq (Capture.first m) (Capture.first n) = m == n
capture_eq _ _ = false

abbrev pub already_held : Bool → FilterSet → FilterKey → CatchFilter → Bool
already_held wildcard_removed prev k f =
    negate wildcard_removed
    && elim (lookup k prev) [ none ↦ false | some had ↦ capture_eq had.capture f.capture ]

unfoldable pub additions : Bool → FilterSet → FilterSet → List CatchFrame
unfolding capture_eq
additions wildcard_removed prev [] = []
additions wildcard_removed prev ((k, f) ∷ next) =
    let rest = additions wildcard_removed prev next in
    if already_held wildcard_removed prev k f then rest else CatchFrame.add f ∷ rest

-- The frames of `catch_sync`, while each send succeeds; a failed one ends it there.
unfoldable pub catch_sync : FilterSet → FilterSet → List CatchFrame
unfolding removes_wildcard removals additions
catch_sync prev next =
    let wildcard_removed : Bool = removes_wildcard prev next in
    (removals wildcard_removed prev next
      ++ (if wildcard_removed then CatchFrame.clear_table ∷ [] else []))
    ++ additions wildcard_removed prev next
