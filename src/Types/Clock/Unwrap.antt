-- ===== src/Types/Clock/Unwrap.antt =====
-- The unwrapping of stamps of src/types/clock.rs against the chip's own count of microseconds.
use medius.Base.{ℕ, ◌+◌, ◌%◌, ◌^◌, ◌≤◌, ◌<◌, max, ◌≡◌, refl, arith, true, List, [], ◌∷◌}
use medius.Types.Clock.{DomainState, box_us_of, default_domain}

-- The state after stamps up to the count `high`.
pub record Tracks (high : ℕ) (d : DomainState) : Type 0 where
  pub seen : d.seen ≡ true
  pub whole : d.epoch % 2 ^ 32 ≡ 0
  pub word : d.last < 2 ^ 32
  pub sum : d.epoch + d.last ≡ high

abbrev pub Near : ℕ → ℕ → Type 0
Near high t = (t ≤ high + 2 ^ 31) × (high < t + 2 ^ 31) × (t < 2 ^ 64)

pub box_us_of-Tracks :
    (t high : ℕ) (d : DomainState)
    → Tracks high d
    → Near high t
    → high < 2 ^ 64
    → ((box_us_of (t % 2 ^ 32) d).1 ≡ t) × Tracks (max high t) (box_us_of (t % 2 ^ 32) d).0
unfolding box_us_of
box_us_of-Tracks t high d k n b = ground arith

-- The first stamp, counted from the rollover before it.
pub box_us_of-first :
    (t : ℕ)
    → t < 2 ^ 32
    → ((box_us_of t default_domain).1 ≡ t) × Tracks t (box_us_of t default_domain).0
unfolding box_us_of
box_us_of-first t h = ground arith

-- The counts of the chip's clock at the events, in the order of arrival.
abbrev pub Arrives : ℕ → List ℕ → Type 0
Arrives high [] = Unit {0}
Arrives high (t ∷ ts) = Near high t × Arrives (max high t) ts

-- The stamps of the events, unwrapped one after the other.
pub unwrap_all : List ℕ → DomainState → List ℕ
unwrap_all [] d = []
unwrap_all (t ∷ ts) d = let (d', us) = box_us_of (t % 2 ^ 32) d in us ∷ unwrap_all ts d'

unwrap_all-Tracks :
    (ts : List ℕ) (high : ℕ) (d : DomainState)
    → Tracks high d
    → high < 2 ^ 64
    → Arrives high ts
    → unwrap_all ts d ≡ ts
unfolding unwrap_all
unwrap_all-Tracks [] high d k b a = refl
unwrap_all-Tracks (t ∷ ts) high d k b a =
    let (same, next) = box_us_of-Tracks t high d k a.0 b in
    rw (same, unwrap_all-Tracks ts (max high t) (box_us_of (t % 2 ^ 32) d).0 next (omega arith) a.1)

-- On a fresh domain the stamps of events are unwrapped to the chip's own counts, reordered events
-- included, when the first count is below 2^32 and each later one is below 2^64, at most 2^31 past
-- the largest before it and less than 2^31 behind it.
pub unwrap_all-Arrives :
    (t : ℕ) (ts : List ℕ) → t < 2 ^ 32 → Arrives t ts → unwrap_all (t ∷ ts) default_domain ≡ t ∷ ts
unfolding unwrap_all
unwrap_all-Arrives t ts h a =
    let first = box_us_of-first t h in
    let e : t % 2 ^ 32 ≡ t = omega arith in
    rw (e, first.0, unwrap_all-Tracks ts t (box_us_of t default_domain).0 first.1 (omega arith) a)
