-- ===== src/Types/Catch/Wire.antt =====
-- The wire form of a filter of src/types/catch.rs, read back, and the laws of the wider capture.
use medius.Base.{ℕ, ◌≡◌, ◌↔◌, ◌≢◌, ◌<◌, refl, arith, true}
use medius.Base.{Option, none, some}
use medius.Base.Keys.{nat_key, pair_key}
use medius.Types.Direction.{Direction}
use medius.Types.Direction.{dir_as_u8, dir_from_u8-dir_as_u8}
use medius.Types.Catch.{
  CatchClass, as_u8, Capture, bytes, widest, capture_u8, capture_from_u8, CatchFilter, wire,
  from_wire, from_u8-as_u8, as_u8-lt, class_eq,
}

-- What the box accepts in a subscription: an id is 16 bits below its sentinel, the wildcard class
-- has no id, and a capture is one nonzero byte or the whole packet.
abbrev pub IsWireCapture : Capture → Type 0
IsWireCapture Capture.whole = Unit {0}
IsWireCapture (Capture.first n) = (0 < n) × (n < 256)

abbrev pub IsWireAddress : Option CatchClass → Option ℕ → Type 0
IsWireAddress class none = Unit {0}
IsWireAddress class (some i) = (i < 0xFFFF) × (class ≢ none)

abbrev pub IsWireFilter : CatchFilter → Type 0
IsWireFilter f = IsWireAddress f.class f.id × IsWireCapture f.capture

capture_from_u8-capture_u8 : (c : Capture) → IsWireCapture c → capture_from_u8 (capture_u8 c) ≡ c
unfolding capture_from_u8 capture_u8 bytes
capture_from_u8-capture_u8 Capture.whole h = refl
capture_from_u8-capture_u8 (Capture.first n) h = ground arith

wire_at :
    (class : Option CatchClass) (id : Option ℕ) (d : Direction) (c : Capture)
    → IsWireFilter (record { class = class; id = id; direction = d; capture = c })
    → (let f : CatchFilter = record { class = class; id = id; direction = d; capture = c } in
        from_wire (wire f).0 (wire f).1 (dir_as_u8 d) (capture_u8 c) ≡ some f)
unfolding from_wire wire
wire_at none none d c h = rw (dir_from_u8-dir_as_u8 d, capture_from_u8-capture_u8 c h.1)
wire_at none (some i) d c h = absurd (h.0.1 refl)
wire_at (some k) none d c h =
    ground (
      arith,
      dir_from_u8-dir_as_u8 d,
      capture_from_u8-capture_u8 c h.1,
      from_u8-as_u8 k,
      as_u8-lt k,
    )
wire_at (some k) (some i) d c h =
    ground (
      arith,
      dir_from_u8-dir_as_u8 d,
      capture_from_u8-capture_u8 c h.1,
      from_u8-as_u8 k,
      as_u8-lt k,
    )

-- A filter whose id is below the wildcard's and in a class, and whose capture is the whole packet
-- or 1 to 255 bytes, is read back from its four wire fields.
pub from_wire-wire :
    (f : CatchFilter)
    → IsWireFilter f
    → from_wire (wire f).0 (wire f).1 (dir_as_u8 f.direction) (capture_u8 f.capture) ≡ some f
from_wire-wire f h = wire_at f.class f.id f.direction f.capture h

-- `widest` on the bytes kept: whole wins, else the longer.
pub widest_comm : (a b : Capture) → widest a b ≡ widest b a
unfolding widest bytes
widest_comm a b = ground arith

pub widest_assoc : (a b c : Capture) → widest (widest a b) c ≡ widest a (widest b c)
unfolding widest bytes
widest_assoc a b c = ground arith

class_eq_iff : (a b : CatchClass) → (class_eq a b ≡ true) ↔ (a ≡ b)
unfolding class_eq as_u8
class_eq_iff a b = ground arith
