-- ===== src/Link/Subscribe/Delivery.antt =====
-- The queue of one subscriber under a run of events, src/link/catch.rs.
use medius.Base.{ℕ, suc, ◌+◌, ◌-◌, ◌^◌, ◌≤◌, ◌<◌, ◌≡◌, refl, ap, ◌∙◌, arith, length, drop}
use medius.Base.{
  List, [], ◌∷◌, ◌++◌, Bool-cases, inl, inr, length-append, append_empty, ltb, retain, true, false,
  Bool, if◌then◌else◌,
}
use medius.Link.Reconcile.State.{FilterSet}
use mathlib.Core.List.{append_assoc}
use medius.Types.Event.{CatchEvent}
use medius.Link.Subscribe.{CatchSub, wanted, push_event, deliver_to, catch_capacity}

-- What is left of a list that is too long by its first elements.
abbrev pub last_of {ℓ} : {A : Type ℓ} → ℕ → List A → List A
last_of cap xs = drop (length xs - cap) xs

module _ {ℓ} {A : Type ℓ} where
  appended : (q : List A) (e : A) (w : List A) → (q ++ (e ∷ [])) ++ w ≡ q ++ (e ∷ w)
  appended q e w = append_assoc q (e ∷ []) w

  -- A full buffer loses its first element for one more at the end.
  last_of-evict :
      (cap : ℕ) (q : List A) (e : A) (w : List A)
      → length q ≡ suc cap
      → (last_of (suc cap) ((drop 1 q ++ (e ∷ [])) ++ w) ≡ last_of (suc cap) (q ++ (e ∷ w)))
        × (length (q ++ (e ∷ w)) ≡ suc (length ((drop 1 q ++ (e ∷ [])) ++ w)))
        × (length (drop 1 q ++ (e ∷ [])) ≡ suc cap)
  last_of-evict cap [] e w h = absurd (omega arith)
  last_of-evict cap (x ∷ q) e w h =
      let size : length (q ++ (e ∷ w)) ≡ cap + suc (length w) =
        omega (arith, length-append q (e ∷ w)) in
      let step : suc (length (q ++ (e ∷ w))) - suc cap ≡ suc (length (q ++ (e ∷ w)) - suc cap) =
        omega arith in
      (
        rw (appended q e w, step) refl,
        rw (appended q e w) refl,
        omega (arith, length-append q (e ∷ [])),
      )

module _ (e : CatchEvent) (s : CatchSub) (w : List CatchEvent) (n : ℕ)
    (h : length s.queue ≤ catch_capacity) where
  -- An event that is wanted keeps the last of what was queued with it and what comes after.
  push_event-last :
      (last_of catch_capacity ((push_event e s).queue ++ w)
        ≡ last_of catch_capacity (s.queue ++ (e ∷ w)))
      × (length (push_event e s).queue ≤ catch_capacity)
      × ((push_event e s).filters ≡ s.filters)
  unfolding push_event
  push_event-last = elim (Bool-cases (ltb (length s.queue) catch_capacity)) [
    | inl room ↦ rw room (ap (last_of 256) (appended s.queue e w), fits room, refl)
    | inr full ↦
        let evicted = last_of-evict 255 s.queue e w (ground (arith, full)) in
        rw full (evicted.0, omega (arith, evicted.2), refl)
  ]
    where
      fits : ltb (length s.queue) 256 ≡ true → length (s.queue ++ (e ∷ [])) ≤ 256
      fits room = ground (arith, length-append s.queue (e ∷ []))

  push_event-dropped :
      s.dropped + suc n < 2 ^ 64
      → ((push_event e s).dropped + (length ((push_event e s).queue ++ w) - catch_capacity)
          ≡ s.dropped + (length (s.queue ++ (e ∷ w)) - catch_capacity))
        × ((push_event e s).dropped + n < 2 ^ 64)
  unfolding push_event
  push_event-dropped b = elim (Bool-cases (ltb (length s.queue) catch_capacity)) [
    | inl room ↦ rw (room, appended s.queue e w) (refl, omega arith)
    | inr full ↦
        let evicted = last_of-evict 255 s.queue e w (ground (arith, full)) in
        let size = length-append s.queue (e ∷ w) in
        let many : 256 ≤ length s.queue = ground (arith, full) in
        rw full (omega (arith, evicted.1), omega arith)
  ]

unfoldable pub deliver_all : List CatchEvent → CatchSub → CatchSub
unfolding deliver_to
deliver_all [] s = s
deliver_all (e ∷ es) s = deliver_all es (deliver_to e s)

deliver_to_lem :
    (e : CatchEvent) (s : CatchSub) (b : Bool)
    → wanted s.filters e ≡ b
    → deliver_to e s ≡ (if b then push_event e s else s)
unfolding deliver_to
deliver_to_lem e s b h = rw h refl

deliver_all-cons :
    (e : CatchEvent) (es : List CatchEvent) (s : CatchSub) (b : Bool)
    → wanted s.filters e ≡ b
    → deliver_all (e ∷ es) s ≡ deliver_all es (if b then push_event e s else s)
unfolding deliver_all
deliver_all-cons e es s b h = ap (deliver_all es) (deliver_to_lem e s b h)

deliver_all-nil : (s : CatchSub) → deliver_all [] s ≡ s
unfolding deliver_all
deliver_all-nil s = refl

deliver_all-filters :
    (es : List CatchEvent) (s : CatchSub) (filters : FilterSet)
    → s.filters ≡ filters
    → length s.queue ≤ catch_capacity
    → s.dropped + length es < 2 ^ 64
    → let all = s.queue ++ retain (wanted filters) es in
      ((deliver_all es s).queue ≡ last_of catch_capacity all)
      × ((deliver_all es s).dropped ≡ s.dropped + (length all - catch_capacity))
deliver_all-filters [] s filters p h b =
    let none_over : length s.queue - 256 ≡ 0 = omega arith in
    rw (deliver_all-nil s, append_empty s.queue, none_over) (refl, omega arith)
deliver_all-filters (e ∷ es) s filters p h b = elim (Bool-cases (wanted filters e)) [
  | inl want ↦
      let w = retain (wanted filters) es in
      let (last, fits, same) = push_event-last e s w (length es) h in
      let (over, small) = push_event-dropped e s w (length es) h b in
      let rest = deliver_all-filters es (push_event e s) filters (same ∙ p) fits small in
      rw (deliver_all-cons e es s true (ap (λ f. wanted f e) p ∙ want), want)
        (rest.0 ∙ last, rest.1 ∙ over)
  | inr skip ↦
      rw (deliver_all-cons e es s false (ap (λ f. wanted f e) p ∙ skip), skip)
        (deliver_all-filters es s filters p h (omega arith))
]

-- After a run of events with no receive between them, a subscriber's queue of at most 256 events
-- holds the last 256 of what it held and the events it wanted, and its count of dropped events has
-- grown by the number of the others, while the count stays below 2^64.
pub deliver_all_lem :
    (es : List CatchEvent) (s : CatchSub)
    → length s.queue ≤ catch_capacity
    → s.dropped + length es < 2 ^ 64
    → let all = s.queue ++ retain (wanted s.filters) es in
      ((deliver_all es s).queue ≡ last_of catch_capacity all)
      × ((deliver_all es s).dropped ≡ s.dropped + (length all - catch_capacity))
deliver_all_lem es s h b = deliver_all-filters es s s.filters refl h b
