-- ===== src/Link/Reconcile/Slots.antt =====
-- One row of the box's lock table in src/link/reconcile.rs: a scale in each of its four slots.
use medius.Base.{ℕ, ◌≡◌, ◌≢◌, ◌↔◌, ◌≤◌, refl, arith, Bool, true, ◌&&◌}
use medius.Base.{if◌then◌else◌, ◌==◌, List, [], ◌∷◌, ◌++◌, length}
use medius.Base.Int.{ℤ, pos, eq_ℤ, eq_ℤ_iff}
use medius.Types.Direction.{
  lock_dir_both, lock_dir_pos, lock_dir_neg, lock_dir_with, lock_dir_against,
}

abbrev pub lock_scale_block : ℤ
lock_scale_block = pos 0

abbrev pub lock_scale_pass : ℤ
lock_scale_pass = pos 100

pub record Slots : Type 0 where
  pub p : ℤ
  pub n : ℤ
  pub w : ℤ
  pub a : ℤ

abbrev pub default : Slots
default = record {
  p = lock_scale_pass;
  n = lock_scale_pass;
  w = lock_scale_pass;
  a = lock_scale_pass;
}

unfoldable pub write : Slots → ℕ → ℤ → Slots
write s dir scale =
    if dir == lock_dir_both
    then record { p = scale; n = scale; w = lock_scale_pass; a = lock_scale_pass }
    else if dir == lock_dir_pos
    then record s { p = scale }
    else if dir == lock_dir_neg
    then record s { n = scale }
    else if dir == lock_dir_with
    then record s { w = scale }
    else if dir == lock_dir_against
    then record s { a = scale }
    else s

unfoldable pub is_clear : Slots → Bool
is_clear s =
    eq_ℤ s.p lock_scale_pass
    && (eq_ℤ s.n lock_scale_pass && (eq_ℤ s.w lock_scale_pass && eq_ℤ s.a lock_scale_pass))

-- One turn of `commands`' filter and map: a slot off its pass.
unfoldable pub slot_command : ℕ → ℤ → List (ℕ × ℤ)
slot_command dir scale = if eq_ℤ scale lock_scale_pass then [] else (dir, scale) ∷ []

unfoldable pub commands : Slots → List (ℕ × ℤ)
unfolding slot_command
commands s =
    if eq_ℤ s.p s.n && (eq_ℤ s.w lock_scale_pass && eq_ℤ s.a lock_scale_pass)
    then (if eq_ℤ s.p lock_scale_pass then [] else (lock_dir_both, s.p) ∷ [])
    else slot_command lock_dir_pos s.p
      ++ (slot_command lock_dir_neg s.n
          ++ (slot_command lock_dir_with s.w ++ slot_command lock_dir_against s.a))

-- The box writing a sequence of LOCK commands into a row.
unfoldable pub replay : Slots → List (ℕ × ℤ) → Slots
unfolding write
replay s [] = s
replay s ((dir, scale) ∷ cs) = replay (write s dir scale) cs

pub replay_none : (s : Slots) → replay s [] ≡ s
unfolding replay
replay_none s = refl

-- The commands of a row rebuild it on a box that holds nothing.
pub replay-commands : (s : Slots) → replay default (commands s) ≡ s
unfolding replay write commands slot_command
replay-commands s = ground (
  arith,
  eq_ℤ_iff s.p lock_scale_pass,
  eq_ℤ_iff s.n lock_scale_pass,
  eq_ℤ_iff s.w lock_scale_pass,
  eq_ℤ_iff s.a lock_scale_pass,
  eq_ℤ_iff s.p s.n,
)

pub is_clear_iff : (s : Slots) → (is_clear s ≡ true) ↔ (s ≡ default)
unfolding is_clear
is_clear_iff s = ground (
  arith,
  eq_ℤ_iff s.p lock_scale_pass,
  eq_ℤ_iff s.n lock_scale_pass,
  eq_ℤ_iff s.w lock_scale_pass,
  eq_ℤ_iff s.a lock_scale_pass,
)

pub length-commands-le : (s : Slots) → length (commands s) ≤ 4
unfolding commands slot_command
length-commands-le s = ground arith

-- A row whose fixed directions hold one scale off pass, with one relative scale off pass, WITH or
-- AGAINST, takes three commands, although two rebuild it.
pub commands_not_fewest :
    (p r : ℤ)
    → p ≢ lock_scale_pass
    → r ≢ lock_scale_pass
    → (let along : Slots = record { p = p; n = p; w = r; a = lock_scale_pass } in
        let against : Slots = record { p = p; n = p; w = lock_scale_pass; a = r } in
        (length (commands along) ≡ 3)
        × (replay default ((lock_dir_both, p) ∷ (lock_dir_with, r) ∷ []) ≡ along)
        × (length (commands against) ≡ 3)
        × (replay default ((lock_dir_both, p) ∷ (lock_dir_against, r) ∷ []) ≡ against))
unfolding replay write commands slot_command
commands_not_fewest p r hp hr =
    ground (arith, eq_ℤ_iff p lock_scale_pass, eq_ℤ_iff r lock_scale_pass, eq_ℤ_iff p p)
