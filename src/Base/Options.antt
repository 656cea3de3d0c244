-- ===== src/Base/Options.antt =====
-- The `?` operator on options, and `Iterator::position` and `find`.
use Prim.Native.Nat.{ℕ, zero, suc}
use mathlib.Core.Bool.{Bool, true, false}
use mathlib.Core.Option.{Option, none, some}
use mathlib.Core.List.{List, [], ◌∷◌}
use mathlib.Core.List.{◌++◌}
use mathlib.Core.Path.{◌≡◌, refl}
use native.Mathlib.Omega.{arith}
use medius.Base.Tests.{if◌then◌else◌}
use medius.Base.Lists.{length}

infixl 20 ◌>>=◌
abbrev pub ◌>>=◌ {ℓ κ} : {A : Type ℓ} {B : Type κ} → Option A → (A → Option B) → Option B
none >>= f = none
some a >>= f = f a

module _ {ℓ} {A : Type ℓ} where
  abbrev pub position : (A → Bool) → List A → Option ℕ
  position p [] = none
  position p (x ∷ xs) =
      let rest = position p xs in
      if p x then some 0 else elim rest [ none ↦ none | some i ↦ some (suc i) ]

  abbrev pub find : (A → Bool) → List A → Option A
  find p [] = none
  find p (x ∷ xs) = if p x then some x else find p xs

  -- An entry that is there, before the others.
  abbrev pub keep : Option A → List A → List A
  keep none xs = xs
  keep (some x) xs = x ∷ xs

  -- The first `n` elements and what follows them, or nothing where fewer are left.
  unfoldable pub split : ℕ → List A → Option (List A × List A)
  split zero rest = some ([], rest)
  split (suc n) [] = none
  split (suc n) (x ∷ rest) = elim (split n rest) [
    | none ↦ none
    | some (front, back) ↦ some (x ∷ front, back)
  ]

  pub split-append : (n : ℕ) (xs ys : List A) → length xs ≡ n → split n (xs ++ ys) ≡ some (xs, ys)
  unfolding split
  split-append zero [] ys h = refl
  split-append zero (x ∷ xs) ys h = absurd (omega arith)
  split-append (suc n) [] ys h = absurd (omega arith)
  split-append (suc n) (x ∷ xs) ys h = rw (split-append n xs ys (omega arith)) refl

-- What a chain that gives a result went through.
pub bind-some {ℓ κ} :
    {A : Type ℓ} {B : Type κ} (m : Option A) (f : A → Option B) (b : B)
    → (m >>= f) ≡ some b
    → (a : A) × ((m ≡ some a) × (f a ≡ some b))
bind-some none f b h = absurd (cc h)
bind-some (some a) f b h = (a, (refl, h))

pub guard-some {ℓ} :
    {A : Type ℓ} (t : Bool) (m : Option A) (a : A)
    → (if t then none else m) ≡ some a
    → (t ≡ false) × (m ≡ some a)
guard-some true m a h = absurd (cc h)
guard-some false m a h = (refl, h)

pub guard-none {ℓ} :
    {A : Type ℓ} (t : Bool) (m : Option A) (a : A)
    → (if t then m else none) ≡ some a
    → (t ≡ true) × (m ≡ some a)
guard-none true m a h = (refl, h)
guard-none false m a h = absurd (cc h)
