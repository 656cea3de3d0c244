-- ===== src/Base/Keyed.antt =====
-- Vectors that hold at most one entry of each key, found by `position`.
use Prim.Native.Nat.{ℕ, zero, suc, min}
use mathlib.Core.Path.{◌≡◌, refl, ap, ◌∙◌, subst}
use mathlib.Core.Logic.{◌↔◌}
use mathlib.Core.Bool.{Bool, true, false, ◌&&◌}
use mathlib.Core.Option.{none, some}
use mathlib.Core.List.{List, [], ◌∷◌, ◌++◌}
use native.Mathlib.Omega.{arith}
use medius.Base.Tests.{if◌then◌else◌, negate, ◌==◌}
use medius.Base.Lists.{length, get_elem?, set, retain, any, insert_at, remove_at}
use medius.Base.Options.{position}

-- Equality of byte vectors.
abbrev pub bytes_eq : List ℕ → List ℕ → Bool
bytes_eq [] [] = true
bytes_eq [] (y ∷ ys) = false
bytes_eq (x ∷ xs) [] = false
bytes_eq (x ∷ xs) (y ∷ ys) = (x == y) && bytes_eq xs ys

pub bytes_eq_iff : (xs ys : List ℕ) → (bytes_eq xs ys ≡ true) ↔ (xs ≡ ys)
bytes_eq_iff [] [] = ground arith
bytes_eq_iff [] (y ∷ ys) = ground arith
bytes_eq_iff (x ∷ xs) [] = ground arith
bytes_eq_iff (x ∷ xs) (y ∷ ys) = ground (arith, bytes_eq_iff xs ys)

module _ {A : Type 0} (p : A → Bool) where
  pub position-get_elem? :
      (xs : List A) (i : ℕ)
      → position p xs ≡ some i
      → (x : A) × (get_elem? xs i ≡ some x) × (p x ≡ true)
  position-get_elem? [] i h = absurd (ground (arith, h))
  position-get_elem? (x ∷ xs) zero h = (x, refl, ground (arith, h))
  position-get_elem? (x ∷ xs) (suc i) h = position-get_elem? xs i (ground (arith, h))

  pub position-append :
      (xs : List A) (y : A)
      → position p xs ≡ none
      → position p (xs ++ (y ∷ [])) ≡ (if p y then some (length xs) else none)
  position-append [] y h = refl
  position-append (x ∷ xs) y h = ground (arith, h, position-append xs y)

  -- At most one entry satisfies `p`.
  abbrev pub IsSole : List A → Type 0
  IsSole [] = Unit {0}
  IsSole (x ∷ xs) = (p x ≡ true → position p xs ≡ none) × IsSole xs

  pub retain_others : (xs : List A) → position p xs ≡ none → retain (λ x. negate (p x)) xs ≡ xs
  retain_others [] h = refl
  retain_others (x ∷ xs) h = ground (arith, h, retain_others xs)

  pub any-position :
      (xs : List A) → any p xs ≡ elim (position p xs) [ none ↦ false | some i ↦ true ]
  any-position [] = refl
  any-position (x ∷ xs) = ground (arith, any-position xs)

  pub retain-remove_at :
      (xs : List A) (i : ℕ)
      → IsSole xs
      → position p xs ≡ some i
      → retain (λ x. negate (p x)) xs ≡ remove_at i xs
  retain-remove_at [] i s h = refl
  retain-remove_at (x ∷ xs) zero s h = ground (arith, h, s.0, retain_others xs)
  retain-remove_at (x ∷ xs) (suc i) s h = ground (arith, h, s.0, retain-remove_at xs i s.1)

  pub position-remove_at :
      (xs : List A) (i : ℕ)
      → IsSole xs
      → position p xs ≡ some i
      → position p (remove_at i xs) ≡ none
  position-remove_at [] i s h = refl
  position-remove_at (x ∷ xs) zero s h = ground (arith, h, s.0)
  position-remove_at (x ∷ xs) (suc i) s h = ground (arith, h, s.0, position-remove_at xs i s.1)

  pub position-set :
      (xs : List A) (i : ℕ) (y : A)
      → p y ≡ true
      → position p xs ≡ some i
      → position p (set xs i y) ≡ some i
  position-set [] i y e h = h
  position-set (x ∷ xs) zero y e h = ground (arith, e)
  position-set (x ∷ xs) (suc i) y e h = ground (arith, e, h, position-set xs i y e)

module _ {A : Type 0} where
  pub insert_at-remove_at :
      (xs : List A) (i : ℕ) (x : A)
      → get_elem? xs i ≡ some x
      → insert_at (min i (length (remove_at i xs))) x (remove_at i xs) ≡ xs
  insert_at-remove_at [] i x h = absurd (ground (arith, h))
  insert_at-remove_at (y ∷ xs) zero x h = ground (arith, h)
  insert_at-remove_at (y ∷ xs) (suc i) x h =
      let n : ℕ = length (remove_at i xs) in
      let e : min (suc i) (suc n) ≡ suc (min i n) = omega arith in
      ap (λ j. insert_at j x (y ∷ remove_at i xs)) e ∙ ap (y ∷◌) (insert_at-remove_at xs i x h)

  pub set-set :
      (xs : List A) (i : ℕ) (x y : A) → get_elem? xs i ≡ some x → set (set xs i y) i x ≡ xs
  set-set [] i x y h = refl
  set-set (z ∷ xs) zero x y h = ground (arith, h)
  set-set (z ∷ xs) (suc i) x y h = ap (z ∷◌) (set-set xs i x y h)

  pub retain-append :
      (q : A → Bool) (xs ys : List A) → retain q (xs ++ ys) ≡ retain q xs ++ retain q ys
  retain-append q [] ys = refl
  retain-append q (x ∷ xs) ys = ground (arith, retain-append q xs ys)

-- Entries under a key, with the Boolean equality of the keys.
module _ {A K : Type 0} (key : A → K) (eqb : K → K → Bool) where
  -- The test that `|r| r.key() == key` stands for.
  abbrev pub matches : K → A → Bool
  matches k x = eqb (key x) k

  -- No two entries have one key.
  abbrev pub IsUnique : List A → Type 0
  IsUnique [] = Unit {0}
  IsUnique (x ∷ xs) = (position (matches (key x)) xs ≡ none) × IsUnique xs

  module _ (eqb_iff : (a b : K) → (eqb a b ≡ true) ↔ (a ≡ b)) where
    pub IsUnique→IsSole : (k : K) (xs : List A) → IsUnique xs → IsSole (matches k) xs
    IsUnique→IsSole k [] u = tt
    IsUnique→IsSole k (x ∷ xs) u = (
      λ e. subst (λ j. position (matches j) xs ≡ none) ((eqb_iff (key x) k).0 e) u.0,
      IsUnique→IsSole k xs u.1,
    )

    pub matches_self : (x : A) → matches (key x) x ≡ true
    matches_self x = (eqb_iff (key x) (key x)).1 refl

    position_weaken :
        (q : A → Bool) (i : ℕ) (xs : List A)
        → position q xs ≡ none
        → position q (remove_at i xs) ≡ none
    position_weaken q i [] h = refl
    position_weaken q zero (x ∷ xs) h = ground (arith, h)
    position_weaken q (suc i) (x ∷ xs) h = ground (arith, h, position_weaken q i xs)

    pub remove_at-IsUnique : (i : ℕ) (xs : List A) → IsUnique xs → IsUnique (remove_at i xs)
    remove_at-IsUnique i [] u = tt
    remove_at-IsUnique zero (x ∷ xs) u = u.1
    remove_at-IsUnique (suc i) (x ∷ xs) u =
        (position_weaken (matches (key x)) i xs u.0, remove_at-IsUnique i xs u.1)

    pub eqb_sym : (a b : K) → eqb a b ≡ eqb b a
    eqb_sym a b = ground (arith, eqb_iff a b, eqb_iff b a)

    pub append-IsUnique :
        (y : A) (xs : List A)
        → position (matches (key y)) xs ≡ none
        → IsUnique xs
        → IsUnique (xs ++ (y ∷ []))
    append-IsUnique y [] h u = (refl, tt)
    append-IsUnique y (x ∷ xs) h u = ground (
      arith,
      h,
      u,
      append-IsUnique y xs,
      position-append (matches (key x)) xs y u.0,
      eqb_sym (key y) (key x),
    )

    -- An entry overwritten by one of its own key.
    position-set-none :
        (k : K) (xs : List A) (i : ℕ) (x y : A)
        → get_elem? xs i ≡ some x
        → key y ≡ key x
        → position (matches k) xs ≡ none
        → position (matches k) (set xs i y) ≡ none
    position-set-none k [] i x y g e h = refl
    position-set-none k (z ∷ xs) zero x y g e h =
        let same : eqb (key y) k ≡ eqb (key x) k = ap (λ j. eqb j k) e in
        let at : eqb (key z) k ≡ eqb (key x) k = ground (arith, g) in ground (arith, same, at, h)
    position-set-none k (z ∷ xs) (suc i) x y g e h =
        ground (arith, h, position-set-none k xs i x y g e)

    pub set-IsUnique :
        (xs : List A) (i : ℕ) (x y : A)
        → get_elem? xs i ≡ some x
        → key y ≡ key x
        → IsUnique xs
        → IsUnique (set xs i y)
    set-IsUnique [] i x y g e u = tt
    set-IsUnique (z ∷ xs) zero x y g e u =
        let same : key z ≡ key y = ground (arith, g, e, ap key {x = z} {y = x}) in
        (subst (λ j. position (matches j) xs ≡ none) same u.0, u.1)
    set-IsUnique (z ∷ xs) (suc i) x y g e u =
        (position-set-none (key z) xs i x y g e u.0, set-IsUnique xs i x y g e u.1)

    -- No entry before has the key of one in a list without repeated keys.
    pub position_before :
        (done : List A) (y : A) (rest : List A)
        → IsUnique (done ++ (y ∷ rest))
        → position (matches (key y)) done ≡ none
    position_before [] y rest u = refl
    position_before (x ∷ done) y rest u = ground (
      arith,
      u.0,
      position_before done y rest u.1,
      eqb_sym (key x) (key y),
      none_here (matches (key x)) done y rest u.0,
    )
      where
        none_here :
            (q : A → Bool) (done : List A) (y : A) (rest : List A)
            → position q (done ++ (y ∷ rest)) ≡ none
            → q y ≡ false
        none_here q [] y rest h = ground (arith, h)
        none_here q (x ∷ done) y rest h = ground (arith, h, none_here q done y rest)
