-- ===== src/Types/Lock/Scale.antt =====
-- The scale that RESP(LOCKS) gives for a target, src/types/lock.rs.
use medius.Base.{◌≤◌, ◌≡◌, ◌⊎◌, inl, inr, refl, ap, ◌∙◌, arith, Bool, true, false, ◌&&◌, ◌||◌}
use medius.Base.{Option, none, some, List, [], ◌∷◌, any, All, Bool-cases, if◌then◌else◌}
use medius.Base.Int.{ℤ, pos, negsuc, abs, eq_ℤ}
use medius.Link.Reconcile.Slots.{lock_scale_pass}
use medius.Types.Direction.{Direction}
use medius.Types.Lock.{
  LockTarget, LockEntry, scale_before, min_scale, counts_for, scales_for, scale_of, is_locked,
  is_block,
}

abbrev pub Among : ℤ → List ℤ → Type 0
Among s [] = ⊥
Among s (t ∷ scales) = (s ≡ t) ⊎ Among s scales

abbrev Least : List ℤ → Option ℤ → Type 0
Least scales none = scales ≡ []
Least scales (some s) = Among s scales × All (λ t. abs s ≤ abs t) scales

All-le :
    (s t : ℤ) (scales : List ℤ)
    → abs s ≤ abs t
    → All (λ u. abs t ≤ abs u) scales
    → All (λ u. abs s ≤ abs u) scales
All-le s t [] h k = tt
All-le s t (u ∷ scales) h k = (omega (arith, k.0), All-le s t scales h k.1)

before-le : (s t : ℤ) → scale_before t s ≡ true → abs t ≤ abs s
before-le s t h = ground (arith, h)

not_before-le : (s t : ℤ) → scale_before t s ≡ false → abs s ≤ abs t
not_before-le s t h = ground (arith, h)

Least-pick :
    (s t : ℤ) (scales : List ℤ) (b : Bool)
    → scale_before t s ≡ b
    → Among t scales
    → All (λ u. abs t ≤ abs u) scales
    → Least (s ∷ scales) (some (if b then t else s))
Least-pick s t scales true e here below = (inr here, (before-le s t e, below))
Least-pick s t scales false e here below =
    (inl refl, (omega arith, All-le s t scales (not_before-le s t e) below))

Least-cons :
    (s : ℤ) (scales : List ℤ) (o : Option ℤ)
    → Least scales o
    → Least (s ∷ scales) (elim o as (λ x. Option ℤ) [
      | none ↦ some s
      | some t ↦ some (if scale_before t s then t else s)
    ])
Least-cons s scales none h = rw h (inl refl, (omega arith, tt))
Least-cons s scales (some t) (here, below) =
    Least-pick s t scales (scale_before t s) refl here below

min_scale-Least : (scales : List ℤ) → Least scales (min_scale scales)
unfolding min_scale
min_scale-Least [] = refl
min_scale-Least (s ∷ scales) = Least-cons s scales (min_scale scales) (min_scale-Least scales)

-- The scale of a target is one of those that the covering entries give it, and none of them is
-- smaller by magnitude.
pub scale_of_lem :
    (t : LockTarget) (dir : Direction) (entries : List LockEntry)
    → let scales = scales_for t dir entries in
      let s = scale_of t dir entries in
      ((scales ≡ []) × (s ≡ lock_scale_pass)) ⊎ (Among s scales × All (λ u. abs s ≤ abs u) scales)
unfolding scale_of
scale_of_lem t dir entries =
    by_least (min_scale (scales_for t dir entries)) (min_scale-Least (scales_for t dir entries))
  where
    by_least :
        (o : Option ℤ)
        → Least (scales_for t dir entries) o
        → let s = elim o as (λ x. ℤ) [ none ↦ lock_scale_pass | some s ↦ s ] in
          ((scales_for t dir entries ≡ []) × (s ≡ lock_scale_pass))
          ⊎ (Among s (scales_for t dir entries)
              × All (λ u. abs s ≤ abs u) (scales_for t dir entries))
    by_least none h = inl (h, refl)
    by_least (some s) h = inr h

-- Some entry that counts for the target and the direction is a block.
abbrev pub blocked : LockTarget → Direction → List LockEntry → Bool
blocked t dir entries = any (λ e. counts_for t dir e && is_block e) entries

zero_of : (o : Option ℤ) → Bool
zero_of none = false
zero_of (some s) = eq_ℤ s (pos 0)

zero-cons :
    (s : ℤ) (o : Option ℤ)
    → zero_of (elim o as (λ x. Option ℤ) [
      | none ↦ some s
      | some t ↦ some (if scale_before t s then t else s)
    ])
      ≡ (eq_ℤ s (pos 0) || zero_of o)
unfolding zero_of
zero-cons s none = ground arith
zero-cons (pos m) (some (pos n)) = ground arith
zero-cons (pos m) (some (negsuc n)) = ground arith
zero-cons (negsuc m) (some (pos n)) = ground arith
zero-cons (negsuc m) (some (negsuc n)) = ground arith

or_if : (a b : Bool) → (a || b) ≡ (if a then true else b)
or_if true b = refl
or_if false b = refl

min_scale-blocked :
    (t : LockTarget) (dir : Direction) (entries : List LockEntry)
    → zero_of (min_scale (scales_for t dir entries)) ≡ blocked t dir entries
unfolding min_scale is_block
min_scale-blocked t dir [] = unfold zero_of in refl
min_scale-blocked t dir (e ∷ entries) = elim (Bool-cases (counts_for t dir e)) [
  | inl c ↦ rw c (
      zero-cons e.scale (min_scale (scales_for t dir entries))
      ∙ (ap (λ b. eq_ℤ e.scale (pos 0) || b) (min_scale-blocked t dir entries)
          ∙ or_if (eq_ℤ e.scale (pos 0)) (blocked t dir entries)))
  | inr c ↦ rw c (min_scale-blocked t dir entries)
]

scale_of-blocked :
    (t : LockTarget) (dir : Direction) (entries : List LockEntry)
    → eq_ℤ (scale_of t dir entries) (pos 0) ≡ blocked t dir entries
unfolding scale_of
scale_of-blocked t dir entries =
    the_zero (min_scale (scales_for t dir entries)) ∙ min_scale-blocked t dir entries
  where
    the_zero :
        (o : Option ℤ)
        → eq_ℤ (elim o as (λ x. ℤ) [ none ↦ lock_scale_pass | some s ↦ s ]) (pos 0) ≡ zero_of o
    the_zero none = unfold zero_of in refl
    the_zero (some s) = unfold zero_of in refl

-- A target counts as locked in a direction just when an entry that covers it and admits that
-- direction is a block; in both directions, just when that holds of the positive and of the
-- negative one.
pub is_locked_lem :
    (t : LockTarget) (dir : Direction) (entries : List LockEntry)
    → is_locked t dir entries ≡ elim dir as (λ d. Bool) [
      | Direction.both ↦
          blocked t Direction.positive entries && blocked t Direction.negative entries
      | other ↦ blocked t other entries
    ]
unfolding is_locked
is_locked_lem t Direction.both entries =
    rw
      (scale_of-blocked t Direction.positive entries, scale_of-blocked t Direction.negative entries)
      refl
is_locked_lem t Direction.positive entries = scale_of-blocked t Direction.positive entries
is_locked_lem t dir entries = scale_of-blocked t dir entries
