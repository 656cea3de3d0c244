-- ===== src/Base/Keys.antt =====
-- The orders that `Ord` derives for numbers, pairs and triples.
use Prim.Native.Nat.{ℕ, compare, Ordering}
use mathlib.Core.Path.{◌≡◌, refl, ap}
use mathlib.Core.Option.{Option, none, some}
use native.Mathlib.Omega.{arith}
use medius.Base.Map.{Key}

-- The first comparison decides unless it is a tie.
abbrev pub then_cmp : Ordering → Ordering → Ordering
then_cmp Ordering.eq s = s
then_cmp r s = r

pub nat_eq_of_cmp : (a b : ℕ) → compare a b ≡ Ordering.eq → a ≡ b
nat_eq_of_cmp a b h = ground arith

pub nat_cmp_refl : (a : ℕ) → compare a a ≡ Ordering.eq
nat_cmp_refl a = ground arith

pub nat_cmp_flip : (a b : ℕ) → compare a b ≡ Ordering.gt → compare b a ≡ Ordering.lt
nat_cmp_flip a b h = ground arith

pub nat_lt_trans :
    (a b c : ℕ) → compare a b ≡ Ordering.lt → compare b c ≡ Ordering.lt → compare a c ≡ Ordering.lt
nat_lt_trans a b c h k = ground arith

instance abbrev pub nat_key : Key ℕ
nat_key = record {
  cmp = compare;
  eq_of_cmp = nat_eq_of_cmp;
  cmp_refl = nat_cmp_refl;
  cmp_flip = nat_cmp_flip;
  lt_trans = nat_lt_trans;
}

module _ {A B : Type 0} (s : Key A) (t : Key B) where
  abbrev pub pair_cmp : A × B → A × B → Ordering
  pair_cmp (a, b) (c, d) = then_cmp (s.cmp a c) (t.cmp b d)

  pub pair_eq_of_cmp : (p q : A × B) → pair_cmp p q ≡ Ordering.eq → p ≡ q
  pair_eq_of_cmp (a, b) (c, d) h = ground (arith, s.eq_of_cmp a c, t.eq_of_cmp b d)

  pub pair_cmp_refl : (p : A × B) → pair_cmp p p ≡ Ordering.eq
  pair_cmp_refl (a, b) = ground (arith, s.cmp_refl a, t.cmp_refl b)

  pub pair_cmp_flip : (p q : A × B) → pair_cmp p q ≡ Ordering.gt → pair_cmp q p ≡ Ordering.lt
  pair_cmp_flip (a, b) (c, d) h =
      ground (arith, s.cmp_flip a c, t.cmp_flip b d, s.eq_of_cmp a c, s.cmp_refl a)

  pub pair_lt_trans :
      (p q r : A × B)
      → pair_cmp p q ≡ Ordering.lt
      → pair_cmp q r ≡ Ordering.lt
      → pair_cmp p r ≡ Ordering.lt
  pair_lt_trans (a, b) (c, d) (e, f) h k =
      ground
        (arith, s.lt_trans a c e, t.lt_trans b d f, s.eq_of_cmp a c, s.eq_of_cmp c e, s.cmp_refl a)

instance abbrev pub pair_key : {A B : Type 0} ⦃s : Key A⦄ ⦃t : Key B⦄ → Key (A × B)
pair_key ⦃s⦄ ⦃t⦄ = record {
  cmp = pair_cmp s t;
  eq_of_cmp = pair_eq_of_cmp s t;
  cmp_refl = pair_cmp_refl s t;
  cmp_flip = pair_cmp_flip s t;
  lt_trans = pair_lt_trans s t;
}

-- The order that an injective map pulls back.
abbrev pub image_key :
    {A B : Type 0} → Key B → (f : A → B) → ((a b : A) → f a ≡ f b → a ≡ b) → Key A
image_key s f inj = record {
  cmp = λ a b. s.cmp (f a) (f b);
  eq_of_cmp = λ a b h. inj a b (s.eq_of_cmp (f a) (f b) h);
  cmp_refl = λ a. s.cmp_refl (f a);
  cmp_flip = λ a b. s.cmp_flip (f a) (f b);
  lt_trans = λ a b c. s.lt_trans (f a) (f b) (f c);
}

module _ {A : Type 0} (s : Key A) where
  -- `None` stands before every `Some`.
  abbrev pub option_cmp : Option A → Option A → Ordering
  option_cmp none none = Ordering.eq
  option_cmp none (some b) = Ordering.lt
  option_cmp (some a) none = Ordering.gt
  option_cmp (some a) (some b) = s.cmp a b

  pub option_eq_of_cmp : (p q : Option A) → option_cmp p q ≡ Ordering.eq → p ≡ q
  option_eq_of_cmp none none h = refl
  option_eq_of_cmp none (some b) h = ground arith
  option_eq_of_cmp (some a) none h = ground arith
  option_eq_of_cmp (some a) (some b) h = ap some (s.eq_of_cmp a b h)

  pub option_cmp_refl : (p : Option A) → option_cmp p p ≡ Ordering.eq
  option_cmp_refl none = refl
  option_cmp_refl (some a) = s.cmp_refl a

  pub option_cmp_flip :
      (p q : Option A) → option_cmp p q ≡ Ordering.gt → option_cmp q p ≡ Ordering.lt
  option_cmp_flip none none h = ground arith
  option_cmp_flip none (some b) h = ground arith
  option_cmp_flip (some a) none h = refl
  option_cmp_flip (some a) (some b) h = s.cmp_flip a b h

  pub option_lt_trans :
      (p q r : Option A)
      → option_cmp p q ≡ Ordering.lt
      → option_cmp q r ≡ Ordering.lt
      → option_cmp p r ≡ Ordering.lt
  option_lt_trans none none r h k = ground arith
  option_lt_trans none (some b) none h k = ground arith
  option_lt_trans none (some b) (some c) h k = refl
  option_lt_trans (some a) none r h k = ground arith
  option_lt_trans (some a) (some b) none h k = ground arith
  option_lt_trans (some a) (some b) (some c) h k = s.lt_trans a b c h k

  abbrev pub option_key : Key (Option A)
  option_key = record {
    cmp = option_cmp;
    eq_of_cmp = option_eq_of_cmp;
    cmp_refl = option_cmp_refl;
    cmp_flip = option_cmp_flip;
    lt_trans = option_lt_trans;
  }
