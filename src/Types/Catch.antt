-- ===== src/Types/Catch.antt =====
-- src/types/catch.rs: the address space of CATCH, a subscription entry and its matching.
pub mod Wire
use medius.Base.{ℕ, ◌≡◌, ◌↔◌, ◌≢◌, ◌<◌, refl, arith, Bool, true, false, if◌then◌else◌, ◌==◌, negate}
use medius.Base.{Option, none, some, max}
use medius.Base.Options.{◌>>=◌}
use medius.Base.{sym, ap, ◌∙◌}
use medius.Base.Map.{Key}
use medius.Base.Keys.{nat_key, pair_key, option_key, image_key}
use medius.Types.Direction.{Direction, admits}
use medius.Types.Direction.{dir_from_u8, dir_as_u8, dir_from_u8-dir_as_u8}
use medius.Types.Usage.{Class}

pub data CatchClass : Type 0 where
  button key media axis hid_in hid_out vendor_interrupt vendor_bulk : CatchClass
  control emit bus clip_transfer : CatchClass

unfoldable pub as_u8 : CatchClass → ℕ
as_u8 CatchClass.button = 0
as_u8 CatchClass.key = 1
as_u8 CatchClass.media = 2
as_u8 CatchClass.axis = 3
as_u8 CatchClass.hid_in = 4
as_u8 CatchClass.hid_out = 5
as_u8 CatchClass.vendor_interrupt = 6
as_u8 CatchClass.vendor_bulk = 7
as_u8 CatchClass.control = 8
as_u8 CatchClass.emit = 9
as_u8 CatchClass.bus = 10
as_u8 CatchClass.clip_transfer = 11

unfoldable pub from_u8 : ℕ → Option CatchClass
from_u8 v =
    if v == 0
    then some CatchClass.button
    else if v == 1
    then some CatchClass.key
    else if v == 2
    then some CatchClass.media
    else if v == 3
    then some CatchClass.axis
    else if v == 4
    then some CatchClass.hid_in
    else if v == 5
    then some CatchClass.hid_out
    else if v == 6
    then some CatchClass.vendor_interrupt
    else if v == 7
    then some CatchClass.vendor_bulk
    else if v == 8
    then some CatchClass.control
    else if v == 9
    then some CatchClass.emit
    else if v == 10
    then some CatchClass.bus
    else if v == 11
    then some CatchClass.clip_transfer
    else none

unfoldable pub is_input : CatchClass → Bool
is_input CatchClass.button = true
is_input CatchClass.key = true
is_input CatchClass.media = true
is_input CatchClass.axis = true
is_input _ = false

unfoldable pub of_class : Class → CatchClass
of_class Class.button = CatchClass.button
of_class Class.key = CatchClass.key
of_class Class.media = CatchClass.media

pub data Capture : Type 0 where
  whole : Capture
  first : ℕ → Capture

unfoldable pub bytes : Capture → Option ℕ
bytes Capture.whole = none
bytes (Capture.first n) = if n == 0 then none else some n

unfoldable pub widest : Capture → Capture → Capture
unfolding bytes
widest a b = widest_of (bytes a) (bytes b)
  where
    widest_of : Option ℕ → Option ℕ → Capture
    widest_of (some m) (some n) = Capture.first (max m n)
    widest_of _ _ = Capture.whole

unfoldable pub capture_u8 : Capture → ℕ
unfolding bytes
capture_u8 c = elim (bytes c) [ none ↦ 0 | some n ↦ n ]

unfoldable pub capture_from_u8 : ℕ → Capture
capture_from_u8 v = if v == 0 then Capture.whole else Capture.first v

pub record CatchFilter : Type 0 where
  pub class : Option CatchClass
  pub id : Option ℕ
  pub direction : Direction
  pub capture : Capture

pub record FilterKey : Type 0 where
  pub class : Option CatchClass
  pub id : Option ℕ
  pub direction : Direction

unfoldable pub filter_key : CatchFilter → FilterKey
filter_key f = record { class = f.class; id = f.id; direction = f.direction }

unfoldable pub with_direction : Direction → CatchFilter → CatchFilter
with_direction d f = record f { direction = d }

unfoldable pub with_capture : Capture → CatchFilter → CatchFilter
unfolding bytes
with_capture c f = record f {
  capture = elim (bytes c) [ none ↦ Capture.whole | some n ↦ Capture.first n ];
}

unfoldable pub class_eq : CatchClass → CatchClass → Bool
unfolding as_u8
class_eq a b = as_u8 a == as_u8 b

unfoldable pub matches_class_only : CatchFilter → CatchClass → Bool
unfolding class_eq
matches_class_only f class = elim f.class [ none ↦ true | some c ↦ class_eq c class ]

unfoldable pub matches : CatchFilter → CatchClass → ℕ → Direction → Bool
unfolding class_eq admits
matches f class id direction = elim f.class [
  | none ↦ admits f.direction direction
  | some c ↦ if negate (class_eq c class) then false else elim f.id [
    | none ↦ admits f.direction direction
    | some i ↦ if negate (i == id) then false else admits f.direction direction
  ]
]

abbrev pub catch_cls_any : ℕ
catch_cls_any = 0xFF

abbrev pub catch_id_any : ℕ
catch_id_any = 0xFFFF

unfoldable pub wire : CatchFilter → ℕ × ℕ
unfolding as_u8
wire f = (
  elim f.class [ none ↦ catch_cls_any | some c ↦ as_u8 c ],
  elim f.id [ none ↦ catch_id_any | some i ↦ i ],
)

unfoldable pub from_wire : ℕ → ℕ → ℕ → ℕ → Option CatchFilter
unfolding from_u8 capture_from_u8 dir_from_u8
from_wire class_byte id_word direction capture = do
  class ←
      if class_byte == catch_cls_any then some none else (from_u8 class_byte >>= λ c. some (some c))
  id ← address_id class (if id_word == catch_id_any then none else some id_word)
  dir ← dir_from_u8 direction
  some (record { class = class; id = id; direction = dir; capture = capture_from_u8 capture })
  where
    -- The wildcard class takes no real id.
    address_id : Option CatchClass → Option ℕ → Option (Option ℕ)
    address_id none (some i) = none
    address_id _ id = some id

pub from_u8-as_u8 : (c : CatchClass) → from_u8 (as_u8 c) ≡ some c
unfolding from_u8 as_u8
from_u8-as_u8 c = ground arith

pub as_u8-lt : (c : CatchClass) → as_u8 c < 12
unfolding as_u8
as_u8-lt c = ground arith

pub as_u8-injective : (a b : CatchClass) → as_u8 a ≡ as_u8 b → a ≡ b
as_u8-injective a b h =
    let back : some a ≡ some b = sym (from_u8-as_u8 a) ∙ (ap from_u8 h ∙ from_u8-as_u8 b) in cc back

pub dir_as_u8-injective : (a b : Direction) → dir_as_u8 a ≡ dir_as_u8 b → a ≡ b
dir_as_u8-injective a b h =
    let back : some a ≡ some b =
      sym (dir_from_u8-dir_as_u8 a) ∙ (ap dir_from_u8 h ∙ dir_from_u8-dir_as_u8 b) in
    cc back

-- The orders that the source derives.
instance abbrev pub catch_class_key : Key CatchClass
catch_class_key = image_key nat_key as_u8 as_u8-injective

instance abbrev pub direction_key : Key Direction
direction_key = image_key nat_key dir_as_u8 dir_as_u8-injective

abbrev pub fields_of : FilterKey → Option CatchClass × (Option ℕ × Direction)
fields_of k = (k.class, (k.id, k.direction))

pub fields_of-injective : (a b : FilterKey) → fields_of a ≡ fields_of b → a ≡ b
fields_of-injective a b h = λ i. record { class = (h i).0; id = (h i).1.0; direction = (h i).1.1 }

instance abbrev pub filter_key_order : Key FilterKey
filter_key_order =
    image_key
      (pair_key ⦃s = option_key catch_class_key⦄
        ⦃t = pair_key ⦃s = option_key nat_key⦄ ⦃t = direction_key⦄⦄)
      fields_of fields_of-injective
