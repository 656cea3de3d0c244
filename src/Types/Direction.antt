-- ===== src/Types/Direction.antt =====
-- src/types/direction.rs: the direction byte of LOCK, CLIP and CATCH.
use medius.Base.{ℕ, ◌≡◌, arith, Bool, true, false, ◌||◌, if◌then◌else◌, ◌==◌, Option, none, some}
use medius.Base.Int.{ℤ, pos, ltb_ℤ}

abbrev pub lock_dir_both : ℕ
lock_dir_both = 0

abbrev pub lock_dir_pos : ℕ
lock_dir_pos = 1

abbrev pub lock_dir_neg : ℕ
lock_dir_neg = 2

abbrev pub lock_dir_with : ℕ
lock_dir_with = 3

abbrev pub lock_dir_against : ℕ
lock_dir_against = 4

pub data Direction : Type 0 where
  both positive negative along against : Direction

unfoldable pub dir_as_u8 : Direction → ℕ
dir_as_u8 Direction.both = lock_dir_both
dir_as_u8 Direction.positive = lock_dir_pos
dir_as_u8 Direction.negative = lock_dir_neg
dir_as_u8 Direction.along = lock_dir_with
dir_as_u8 Direction.against = lock_dir_against

unfoldable pub dir_from_u8 : ℕ → Option Direction
dir_from_u8 v =
    if v == lock_dir_both
    then some Direction.both
    else if v == lock_dir_pos
    then some Direction.positive
    else if v == lock_dir_neg
    then some Direction.negative
    else if v == lock_dir_with
    then some Direction.along
    else if v == lock_dir_against
    then some Direction.against
    else none

unfoldable pub is_relative : Direction → Bool
is_relative Direction.along = true
is_relative Direction.against = true
is_relative _ = false

unfoldable pub dir_eq : Direction → Direction → Bool
unfolding dir_as_u8
dir_eq a b = dir_as_u8 a == dir_as_u8 b

unfoldable pub admits : Direction → Direction → Bool
unfolding dir_eq
admits d other = dir_eq d Direction.both || (dir_eq other Direction.both || dir_eq d other)

unfoldable pub of_delta : ℤ → Direction
of_delta delta =
    if ltb_ℤ (pos 0) delta
    then Direction.positive
    else if ltb_ℤ delta (pos 0)
    then Direction.negative
    else Direction.both

pub dir_from_u8-dir_as_u8 : (d : Direction) → dir_from_u8 (dir_as_u8 d) ≡ some d
unfolding dir_from_u8 dir_as_u8
dir_from_u8-dir_as_u8 d = ground arith

pub dir_as_u8-dir_from_u8 : (v : ℕ) (d : Direction) → dir_from_u8 v ≡ some d → dir_as_u8 d ≡ v
unfolding dir_from_u8 dir_as_u8
dir_as_u8-dir_from_u8 v d h = ground arith
