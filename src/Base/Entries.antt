-- ===== src/Base/Entries.antt =====
-- Entries of the maps in key order: what holds of them, and an entry put in and taken out again.
use mathlib.Core.Path.{◌≡◌, sym, ap, ◌∙◌}
use mathlib.Core.Logic.{inl, inr}
use mathlib.Core.Option.{none, some}
use mathlib.Core.List.{[], ◌∷◌}
use native.Mathlib.Omega.{arith}
use medius.Base.Tests.{Bool-cases}
use medius.Base.Lists.{All}
use medius.Base.Map.{
  Map, Key, Ordering-cases, key_eq, key_eq→eq, key_eq_refl, lookup, insert, remove, Above, IsSorted,
  lookup-insert, lookup-remove, insert-IsSorted, remove-IsSorted, lookup_below, lookup_head,
  lookup_skip, lookup_ext,
}

module _ {K V : Type 0} ⦃o : Key K⦄ where
  lookup_tail :
      (k q : K) (v r : V) (m : Map K V)
      → Above k m
      → lookup q m ≡ some r
      → lookup q ((k, v) ∷ m) ≡ some r
  lookup_tail k q v r m a h = elim (Bool-cases (key_eq k q)) [
    | inl e ↦
        let p : k ≡ q = key_eq→eq k q e in
        let gone : lookup k m ≡ none = lookup_below k m a in absurd (cc (p, gone, h))
    | inr e ↦ ground (arith, lookup_skip k q v m, e, h)
  ]

  -- What holds of every lookup holds of every entry of a sorted map.
  pub All-lookup :
      (P : K × V → Type 0) (m : Map K V)
      → IsSorted m
      → ((q : K) (r : V) → lookup q m ≡ some r → P (q, r))
      → All P m
  All-lookup P [] s h = tt
  All-lookup P ((k, v) ∷ m) s h =
      (h k v (lookup_head k v m), All-lookup P m s.1 (λ q r e. h q r (lookup_tail k q v r m s.0 e)))

  -- A key put into a map that has none of it, and taken out again.
  pub remove-insert :
      (k : K) (v : V) (m : Map K V) → IsSorted m → lookup k m ≡ none → remove k (insert k v m) ≡ m
  remove-insert k v m s free =
      lookup_ext (remove k (insert k v m)) m
        (remove-IsSorted k (insert k v m) (insert-IsSorted k v m s)) s
        (λ j. lookup-remove k j (insert k v m) ∙ elim (Bool-cases (key_eq k j)) [
          | inl e ↦
              let q : k ≡ j = key_eq→eq k j e in rw e (sym (ap (λ i. lookup i m) (sym q) ∙ free))
          | inr e ↦ ground (arith, lookup-insert k j v m, e)
        ])

  pub lookup_inserted : (k : K) (v : V) (m : Map K V) → lookup k (insert k v m) ≡ some v
  lookup_inserted k v m = ground (arith, lookup-insert k k v m, key_eq_refl k)

  pub insert-All :
      (P : K × V → Type 0) (k : K) (v : V) (m : Map K V) → P (k, v) → All P m → All P (insert k v m)
  unfolding insert
  insert-All P k v [] p h = (p, tt)
  insert-All P k v ((j, w) ∷ m) p h = elim (Ordering-cases (o.cmp k j)) [
    | inl e ↦ rw (insert, e) (p, h)
    | inr (inl e) ↦ rw (insert, e) (p, h.1)
    | inr (inr e) ↦ rw (insert, e) (h.0, insert-All P k v m p h.1)
  ]

  pub remove-All : (P : K × V → Type 0) (k : K) (m : Map K V) → All P m → All P (remove k m)
  unfolding remove
  remove-All P k [] h = tt
  remove-All P k ((j, w) ∷ m) h = elim (Bool-cases (key_eq j k)) [
    | inl e ↦ rw e (remove-All P k m h.1)
    | inr e ↦ rw e (h.0, remove-All P k m h.1)
  ]
