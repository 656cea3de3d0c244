-- ===== src/Types/Clock/Runs.antt =====
-- Runs of the timeline of src/types/clock.rs.
use medius.Base.{◌+◌, ◌-◌, ◌≤◌, ◌<◌, ◌≡◌, ◌⊎◌, refl, arith, true, some, max, [], ◌∷◌}
use medius.Base.Int.{negsuc, ◌+ℤ◌, ◌-ℤ◌}
use medius.Types.Clock.{DomainState, default_domain, box_us_of, observe_domain, resync_ns}
use medius.Types.Clock.{push_lag, absorbed, floor, floor_of}
use medius.Types.Clock.Unwrap.{unwrap_all, unwrap_all-Arrives}
use medius.Types.Clock.Host.{observe_domain-le}

-- A rollover between the first two events, and a straggler from before it.
unwrap_all-Arrives_example :
    unwrap_all (4294967290 ∷ 4294967300 ∷ 4294967295 ∷ []) default_domain
    ≡ 4294967290 ∷ 4294967300 ∷ 4294967295 ∷ []
unwrap_all-Arrives_example =
    unwrap_all-Arrives 4294967290 (4294967300 ∷ 4294967295 ∷ []) (omega arith) (omega arith)

-- A domain that has placed one event, at 900 ns.
abbrev placed_one : DomainState
placed_one = record default_domain {
  last = 7;
  seen = true;
  min_now = some (negsuc 6099);
  block = 1;
  last_host_ns = 900;
  samples = 1;
}

next_event : (observe_domain 5000 9 9000 placed_one).1.host ≡ 7900
unfolding observe_domain box_us_of push_lag absorbed floor floor_of ◌+ℤ◌ ◌-ℤ◌
next_event = refl

observe_domain-le_example :
    let (d', s) = observe_domain 5000 9 9000 placed_one in
    (s.host ≡ 5000 + d'.last_host_ns)
    × (s.host ≤ max 9000 5000)
    × (d'.last_host_ns ≤ 9000 - 5000)
    × ((placed_one.last_host_ns ≤ d'.last_host_ns)
        ⊎ (d'.last_host_ns + resync_ns < placed_one.last_host_ns))
observe_domain-le_example = observe_domain-le 5000 9 9000 placed_one (omega arith) (omega arith)
