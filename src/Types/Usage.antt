-- ===== src/Types/Usage.antt =====
-- src/types/usage.rs: momentary usages, the axes, and the list of usages on the wire.
use medius.Base.{ℕ, zero, suc, ◌+◌, ◌*◌, ◌≡◌, refl, sym, ap, ◌∙◌, arith, if◌then◌else◌, ◌==◌}
use medius.Base.{
  Option, none, some, List, [], ◌∷◌, ◌++◌, length, length-append, get_elem?, get_elem?-append, All,
  IsU16,
}
use medius.Base.Options.{◌>>=◌}
use medius.Base.{lo_byte, hi_byte, from_le, from_le-to_le}

pub data Class : Type 0 where
  button key media : Class

unfoldable pub class_u8 : Class → ℕ
class_u8 Class.button = 0
class_u8 Class.key = 1
class_u8 Class.media = 2

unfoldable pub class_from_u8 : ℕ → Option Class
class_from_u8 v =
    if v == 0
    then some Class.button
    else if v == 1
    then some Class.key
    else if v == 2
    then some Class.media
    else none

-- `Action` of src/types/button.rs.
pub data Action : Type 0 where
  soft_release press force_release : Action

unfoldable pub usage_action_u8 : Action → ℕ
usage_action_u8 Action.soft_release = 0
usage_action_u8 Action.press = 1
usage_action_u8 Action.force_release = 2

pub record Usage : Type 0 where
  pub class : Class
  pub id : ℕ

unfoldable pub class_id : Usage → ℕ × ℕ
unfolding class_u8
class_id u = (class_u8 u.class, u.id)

unfoldable pub push_le : Usage → List ℕ → List ℕ
unfolding class_u8
push_le u out = out ++ (class_u8 u.class ∷ lo_byte u.id ∷ hi_byte u.id ∷ [])

-- One turn of the loop of `decode_list`: the usage at an offset.
unfoldable pub usage_at : List ℕ → ℕ → Option Usage
unfolding class_from_u8
usage_at p off = do
  byte ← get_elem? p off
  class ← class_from_u8 byte
  lo ← get_elem? p (off + 1)
  hi ← get_elem? p (off + 2)
  some (record { class = class; id = from_le lo hi })

-- The turns from the index `i` on, `k` of them.
unfoldable pub usages_from : List ℕ → ℕ → ℕ → Option (List Usage)
unfolding usage_at
usages_from p i zero = some []
usages_from p i (suc k) = do
  u ← usage_at p (1 + 3 * i)
  rest ← usages_from p (suc i) k
  some (u ∷ rest)

unfoldable pub decode_list : List ℕ → Option (List Usage)
unfolding usages_from
decode_list p = do n ← get_elem? p 0; usages_from p 0 n

pub data Axis : Type 0 where
  x y wheel pan : Axis

unfoldable pub axis_u16 : Axis → ℕ
axis_u16 Axis.x = 0
axis_u16 Axis.y = 1
axis_u16 Axis.wheel = 2
axis_u16 Axis.pan = 3

unfoldable pub axis_from_u16 : ℕ → Option Axis
axis_from_u16 v =
    if v == 0
    then some Axis.x
    else if v == 1
    then some Axis.y
    else if v == 2
    then some Axis.wheel
    else if v == 3
    then some Axis.pan
    else none

pub class_from_u8-class_u8 : (c : Class) → class_from_u8 (class_u8 c) ≡ some c
unfolding class_from_u8 class_u8
class_from_u8-class_u8 Class.button = refl
class_from_u8-class_u8 Class.key = refl
class_from_u8-class_u8 Class.media = refl

pub axis_from_u16-axis_u16 : (a : Axis) → axis_from_u16 (axis_u16 a) ≡ some a
unfolding axis_from_u16 axis_u16
axis_from_u16-axis_u16 a = ground arith

-- The usages written one after the other.
abbrev pub push_all : List Usage → List ℕ
push_all [] = []
push_all (u ∷ us) = class_u8 u.class ∷ lo_byte u.id ∷ hi_byte u.id ∷ push_all us

usage_at-append :
    (pre rest : List ℕ) (u : Usage) (off : ℕ)
    → IsU16 u.id
    → off ≡ length pre
    → usage_at (pre ++ (class_u8 u.class ∷ lo_byte u.id ∷ hi_byte u.id ∷ rest)) off ≡ some u
unfolding usage_at class_u8 class_from_u8
usage_at-append pre rest u off w h =
    let ys : List ℕ = class_u8 u.class ∷ lo_byte u.id ∷ hi_byte u.id ∷ rest in
    let e0 = get_elem?-append pre ys 0 off (omega (arith, h)) in
    let e1 = get_elem?-append pre ys 1 (off + 1) (omega (arith, h)) in
    let e2 = get_elem?-append pre ys 2 (off + 2) (omega (arith, h)) in
    rw (e0, e1, e2, class_from_u8-class_u8 u.class, from_le-to_le u.id)

append_assoc3 :
    (pre rest : List ℕ) (a b c : ℕ) → pre ++ (a ∷ b ∷ c ∷ rest) ≡ (pre ++ (a ∷ b ∷ c ∷ [])) ++ rest
append_assoc3 [] rest a b c = refl
append_assoc3 (d ∷ pre) rest a b c = ap (d ∷◌) (append_assoc3 pre rest a b c)

usages_from-push_all :
    (pre : List ℕ) (us : List Usage) (i : ℕ)
    → All (λ u. IsU16 u.id) us
    → length pre ≡ 1 + 3 * i
    → usages_from (pre ++ push_all us) i (length us) ≡ some us
unfolding usages_from
usages_from-push_all pre [] i w h = refl
usages_from-push_all pre (u ∷ us) i w h =
    let next : List ℕ = class_u8 u.class ∷ lo_byte u.id ∷ hi_byte u.id ∷ [] in
    let here = usage_at-append pre (push_all us) u (1 + 3 * i) w.0 (sym h) in
    let long : length (pre ++ next) ≡ 1 + 3 * suc i = omega (arith, length-append pre next, h) in
    let rest = usages_from-push_all (pre ++ next) us (suc i) w.1 long in
    let split : pre ++ push_all (u ∷ us) ≡ (pre ++ next) ++ push_all us =
      append_assoc3 pre (push_all us) (class_u8 u.class) (lo_byte u.id) (hi_byte u.id) in
    let rest_at : usages_from (pre ++ push_all (u ∷ us)) (suc i) (length us) ≡ some us =
      ap (λ p. usages_from p (suc i) (length us)) split ∙ rest in
    rw (here, rest_at)

-- A list of usages with 16-bit ids, counted and written one after the other, is read back.
pub decode_list-push_all :
    (us : List Usage) → All (λ u. IsU16 u.id) us → decode_list (length us ∷ push_all us) ≡ some us
unfolding decode_list
decode_list-push_all us w = usages_from-push_all (length us ∷ []) us 0 w refl
