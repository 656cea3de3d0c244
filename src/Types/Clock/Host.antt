-- ===== src/Types/Clock/Host.antt =====
-- The place of an event on the host's clock, src/types/clock.rs: against its arrival and the event
-- before it.
use medius.Base.{ℕ, ◌+◌, ◌-◌, ◌*◌, ◌%◌, ◌^◌, ◌≤◌, ◌<◌, ◌≡◌, ◌⊎◌, inl, inr, refl, ◌∙◌, arith}
use medius.Base.{Bool-cases, ltb, max}
use medius.Base.Int.{ℤ, pos, ◌+ℤ◌, ◌-ℤ◌, ◌≤ℤ◌, +ℤ_parts, -ℤ_parts}
use medius.Types.Clock.{DomainState, push_lag, box_us_of, observe_domain, absorbed}
use medius.Types.Clock.{clamp_u64, resync_ns}

-- The floor is no greater than the lag just pushed.
pub push_lag-le : (lag : ℤ) (d : DomainState) → (push_lag lag d).1 ≤ℤ lag
unfolding push_lag
push_lag-le lag d = ground arith

push_lag-last : (lag : ℤ) (d : DomainState) → (push_lag lag d).0.last_host_ns ≡ d.last_host_ns
unfolding push_lag
push_lag-last lag d = ground arith

box_us_of-last : (raw : ℕ) (d : DomainState) → (box_us_of raw d).0.last_host_ns ≡ d.last_host_ns
unfolding box_us_of
box_us_of-last raw d = ground arith

-- A box time plus a floor that is no greater than its lag is no later than the time elapsed.
floored-le :
    (elapsed box : ℕ) (low : ℤ)
    → low ≤ℤ (pos elapsed -ℤ pos box)
    → clamp_u64 (pos box +ℤ low) ≤ elapsed
floored-le elapsed box low h =
    ground (arith, +ℤ_parts (pos box) low, -ℤ_parts (pos elapsed) (pos box))

absorbed_lem :
    (raw last elapsed : ℕ)
    → raw ≤ elapsed
    → last ≤ elapsed
    → elapsed + resync_ns < 2 ^ 64
    → (absorbed raw last ≤ elapsed)
      × ((last ≤ absorbed raw last) ⊎ (absorbed raw last + resync_ns < last))
unfolding absorbed
absorbed_lem raw last elapsed h k w = elim (Bool-cases (ltb ((raw + resync_ns) % 2 ^ 64) last)) [
  | inl back ↦ rw back (h, inr (ground arith))
  | inr held ↦ rw held (omega arith, inl (omega arith))
]

-- When the last event was placed no later than the time now elapsed, and that is over 1 ms short
-- of 2^64 ns, the event is placed no later than its arrival, or than the timeline's origin where
-- that is later, and either no earlier than the last event or more than 1 ms before it.
pub observe_domain-le :
    (origin ts_us now : ℕ) (d : DomainState)
    → d.last_host_ns ≤ now - origin
    → now - origin + resync_ns < 2 ^ 64
    → let (d', s) = observe_domain origin ts_us now d in
      (s.host ≡ origin + d'.last_host_ns)
      × (s.host ≤ max now origin)
      × (d'.last_host_ns ≤ now - origin)
      × ((d.last_host_ns ≤ d'.last_host_ns) ⊎ (d'.last_host_ns + resync_ns < d.last_host_ns))
unfolding observe_domain
observe_domain-le origin ts_us now d h w =
    let us = (box_us_of ts_us d).1 in
    let d1 = record (box_us_of ts_us d).0 {
      samples = ((box_us_of ts_us d).0.samples + 1) % 2 ^ 64;
    } in
    let lag = pos (now - origin) -ℤ pos (us * 1000) in
    let same : (push_lag lag d1).0.last_host_ns ≡ d.last_host_ns =
      push_lag-last lag d1 ∙ box_us_of-last ts_us d in
    let low = (push_lag lag d1).1 in
    let le = floored-le (now - origin) (us * 1000) low (push_lag-le lag d1) in
    let placed =
      absorbed_lem (clamp_u64 (pos (us * 1000) +ℤ low)) d.last_host_ns (now - origin) le h w in
    rw same (refl, omega (arith, placed.0), placed.0, placed.1)
