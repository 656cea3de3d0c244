-- ===== src/Base/Map.antt =====
-- `BTreeMap` as an association list in key order, and the orders of the keys that the program uses.
use Prim.Native.Nat.{Ordering}
use mathlib.Core.Path.{◌≡◌, refl}
use mathlib.Core.Logic.{◌⊎◌, inl, inr}
use mathlib.Core.Bool.{Bool, true, false}
use mathlib.Core.Option.{Option, none, some}
use mathlib.Core.List.{List, [], ◌∷◌}
use native.Mathlib.Omega.{arith}
use medius.Base.Tests.{if◌then◌else◌, Bool-cases}
use medius.Base.Lists.{All}

pub Ordering-cases : (r : Ordering) → (r ≡ Ordering.lt) ⊎ ((r ≡ Ordering.eq) ⊎ (r ≡ Ordering.gt))
Ordering-cases Ordering.lt = inl refl
Ordering-cases Ordering.eq = inr (inl refl)
Ordering-cases Ordering.gt = inr (inr refl)

-- A total order given by a three-way comparison, as `Ord` derives it.
pub record Key (K : Type 0) : Type 0 where
  pub cmp : K → K → Ordering
  pub eq_of_cmp : (a b : K) → cmp a b ≡ Ordering.eq → a ≡ b
  pub cmp_refl : (a : K) → cmp a a ≡ Ordering.eq
  pub cmp_flip : (a b : K) → cmp a b ≡ Ordering.gt → cmp b a ≡ Ordering.lt
  pub lt_trans : (a b c : K) → cmp a b ≡ Ordering.lt → cmp b c ≡ Ordering.lt → cmp a c ≡ Ordering.lt

abbrev pub Map : Type 0 → Type 0 → Type 0
Map K V = List (K × V)

module _ {K : Type 0} ⦃o : Key K⦄ where
  abbrev pub key_eq : K → K → Bool
  key_eq a b = elim (o.cmp a b) [ Ordering.eq ↦ true | _ ↦ false ]

  pub key_eq_refl : (a : K) → key_eq a a ≡ true
  key_eq_refl a = ground (arith, o.cmp_refl a)

  pub key_eq→eq : (a b : K) → key_eq a b ≡ true → a ≡ b
  key_eq→eq a b h = ground (arith, o.eq_of_cmp a b)

  pub key_eq_above : (k j : K) → o.cmp k j ≡ Ordering.lt → key_eq j k ≡ false
  key_eq_above k j h = ground (arith, h, o.eq_of_cmp j k, o.cmp_refl k)

module _ {K V : Type 0} ⦃o : Key K⦄ where
  unfoldable pub lookup : K → Map K V → Option V
  lookup k [] = none
  lookup k ((j, w) ∷ m) = if key_eq j k then some w else lookup k m

  unfoldable pub contains_key : K → Map K V → Bool
  contains_key k [] = false
  contains_key k ((j, w) ∷ m) = if key_eq j k then true else contains_key k m

  unfoldable pub insert : K → V → Map K V → Map K V
  insert k v [] = (k, v) ∷ []
  insert k v ((j, w) ∷ m) = elim (o.cmp k j) [
    | Ordering.lt ↦ (k, v) ∷ (j, w) ∷ m
    | Ordering.eq ↦ (k, v) ∷ m
    | Ordering.gt ↦ (j, w) ∷ insert k v m
  ]

  unfoldable pub remove : K → Map K V → Map K V
  remove k [] = []
  remove k ((j, w) ∷ m) = if key_eq j k then remove k m else (j, w) ∷ remove k m

  -- Every key of the map is above `k`.
  abbrev pub Above : K → Map K V → Type 0
  Above k m = All (λ e. o.cmp k e.0 ≡ Ordering.lt) m

  abbrev pub IsSorted : Map K V → Type 0
  IsSorted [] = Unit {0}
  IsSorted ((k, v) ∷ m) = Above k m × IsSorted m

  pub lookup-insert :
      (k j : K) (v : V) (m : Map K V)
      → lookup j (insert k v m) ≡ (if key_eq k j then some v else lookup j m)
  unfolding lookup insert
  lookup-insert k j v [] = refl
  lookup-insert k j v ((i, w) ∷ m) = ground (
    arith,
    lookup-insert k j v m,
    o.eq_of_cmp k i,
    o.eq_of_cmp k j,
    o.eq_of_cmp i j,
    o.cmp_refl k,
  )

  pub lookup-remove :
      (k j : K) (m : Map K V) → lookup j (remove k m) ≡ (if key_eq k j then none else lookup j m)
  unfolding lookup remove
  lookup-remove k j [] = ground arith
  lookup-remove k j ((i, w) ∷ m) =
      ground (
        arith,
        lookup-remove k j m,
        o.eq_of_cmp i k,
        o.eq_of_cmp k j,
        o.eq_of_cmp i j,
        o.cmp_refl k,
      )

  pub contains_key-lookup :
      (k : K) (m : Map K V) → contains_key k m ≡ elim (lookup k m) [ none ↦ false | some v ↦ true ]
  unfolding lookup contains_key
  contains_key-lookup k [] = refl
  contains_key-lookup k ((i, w) ∷ m) = ground (arith, contains_key-lookup k m)

  pub Above-trans : (k j : K) (m : Map K V) → o.cmp k j ≡ Ordering.lt → Above j m → Above k m
  Above-trans k j [] h a = tt
  Above-trans k j ((i, w) ∷ m) h a = (o.lt_trans k j i h a.0, Above-trans k j m h a.1)

  insert-Above :
      (k j : K) (v : V) (m : Map K V) → o.cmp j k ≡ Ordering.lt → Above j m → Above j (insert k v m)
  unfolding insert
  insert-Above k j v [] h a = (h, tt)
  insert-Above k j v ((i, w) ∷ m) h a = ground (arith, insert-Above k j v m h a.1)

  pub insert-IsSorted : (k : K) (v : V) (m : Map K V) → IsSorted m → IsSorted (insert k v m)
  unfolding insert
  insert-IsSorted k v [] s = (tt, tt)
  insert-IsSorted k v ((i, w) ∷ m) s = ground (
    arith,
    insert-IsSorted k v m s.1,
    Above-trans k i m,
    o.cmp_flip k i,
    insert-Above k i v m,
    o.eq_of_cmp k i,
  )

  remove-Above : (k j : K) (m : Map K V) → Above j m → Above j (remove k m)
  unfolding remove
  remove-Above k j [] a = tt
  remove-Above k j ((i, w) ∷ m) a = ground (arith, remove-Above k j m a.1)

  pub remove-IsSorted : (k : K) (m : Map K V) → IsSorted m → IsSorted (remove k m)
  unfolding remove
  remove-IsSorted k [] s = tt
  remove-IsSorted k ((i, w) ∷ m) s = ground (arith, remove-IsSorted k m s.1, remove-Above k i m s.0)

  pub lookup_below : (k : K) (m : Map K V) → Above k m → lookup k m ≡ none
  unfolding lookup
  lookup_below k [] a = refl
  lookup_below k ((i, w) ∷ m) a =
      ground (arith, lookup_below k m a.1, o.cmp_refl k, o.eq_of_cmp i k, a.0)

  lookup_empty : (k : K) (m : Map K V) → m ≡ [] → lookup k m ≡ none
  unfolding lookup
  lookup_empty k m e = rw e

  pub lookup_head : (k : K) (v : V) (m : Map K V) → lookup k ((k, v) ∷ m) ≡ some v
  unfolding lookup
  lookup_head k v m = ground (arith, o.cmp_refl k)

  pub lookup_skip :
      (k i : K) (v : V) (m : Map K V)
      → lookup i ((k, v) ∷ m) ≡ (if key_eq k i then some v else lookup i m)
  unfolding lookup
  lookup_skip k i v m = refl

  -- Below a common first key, maps with equal lookups have equal lookups in their tails.
  lookup_tails :
      (k j : K) (v w : V) (m n : Map K V)
      → k ≡ j
      → Above k m
      → Above j n
      → ((i : K) → lookup i ((k, v) ∷ m) ≡ lookup i ((j, w) ∷ n))
      → (i : K) → lookup i m ≡ lookup i n
  lookup_tails k j v w m n p a b h i = elim (Bool-cases (key_eq k i)) [
    | inl e ↦
        let q : k ≡ i = key_eq→eq k i e in
        let none_m : lookup k m ≡ none = lookup_below k m a in
        let none_n : lookup j n ≡ none = lookup_below j n b in cc (q, p, none_m, none_n)
    | inr e ↦ ground (arith, h i, lookup_skip k i v m, lookup_skip j i w n, e, p)
  ]

  -- A sorted map is determined by its lookups.
  pub lookup_ext :
      (m n : Map K V) → IsSorted m → IsSorted n → ((k : K) → lookup k m ≡ lookup k n) → m ≡ n
  lookup_ext [] [] s t h = refl
  lookup_ext [] ((j, w) ∷ n) s t h = absurd (cc (h j, lookup_head j w n, lookup_empty j [] refl))
  lookup_ext ((k, v) ∷ m) [] s t h = absurd (cc (h k, lookup_head k v m, lookup_empty k [] refl))
  lookup_ext ((k, v) ∷ m) ((j, w) ∷ n) s t h = elim (Ordering-cases (o.cmp k j)) [
    | inl e ↦
        absurd
          (cc (h k, lookup_head k v m, lookup_below k ((j, w) ∷ n) (e, Above-trans k j n e t.0)))
    | inr (inl e) ↦
        let p : k ≡ j = o.eq_of_cmp k j e in
        let rest : m ≡ n = lookup_ext m n s.1 t.1 (lookup_tails k j v w m n p s.0 t.0 h) in
        let value : v ≡ w =
          ground (arith, h k, lookup_head k v m, lookup_skip j k w n, p, key_eq_refl k) in
        cc (p, rest, value)
    | inr (inr e) ↦ absurd (
        cc (
          h j,
          lookup_head j w n,
          lookup_below j ((k, v) ∷ m) (o.cmp_flip k j e, Above-trans j k m (o.cmp_flip k j e) s.0),
        ))
  ]
