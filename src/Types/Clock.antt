-- ===== src/Types/Clock.antt =====
-- src/types/clock.rs: the measured offset between the chips' clocks, and the timeline that places
-- box stamps on the host's clock. An `Instant` is its nanoseconds, and an addition that passes the
-- end of a machine word wraps, as in a release build.
pub mod Unwrap
pub mod Host
mod Runs
use medius.Base.{ℕ, ◌+◌, ◌-◌, ◌*◌, ◌/◌, ◌%◌, ◌^◌, min, max, arith, if◌then◌else◌, ltb, leb, ◌==◌}
use medius.Base.{Bool, true, false, negate, Option, none, some, List, [], ◌∷◌, from_le}
use medius.Base.Int.{ℤ, pos, negsuc, pos_part, neg_part, sub_ℕ, ◌+ℤ◌, ◌-ℤ◌, min_ℤ, eq_ℤ, word_i32}
use medius.Base.Options.{◌>>=◌}

pub data ClockDomain : Type 0 where
  host_chip device_chip : ClockDomain

unfoldable pub domain_from_u8 : ℕ → ClockDomain
domain_from_u8 v = if v == 0 then ClockDomain.host_chip else ClockDomain.device_chip

abbrev pub from_le32 : ℕ → ℕ → ℕ → ℕ → ℕ
from_le32 a b c d = a + b * 256 + c * 65536 + d * 16777216

pub record ClockEstimate : Type 0 where
  pub offset_us : ℤ
  pub rate_ppb : Option ℤ
  pub delay_us : ℕ
  -- Milliseconds.
  pub age : Option ℕ

-- CLK_RATE_NONE, `i32::MIN`.
abbrev pub clk_rate_none : ℤ
clk_rate_none = negsuc 2147483647

-- The 12 bytes inside RESP(CATCH).
unfoldable pub estimate_from_payload : List ℕ → Option ClockEstimate
estimate_from_payload (o0 ∷ o1 ∷ o2 ∷ o3 ∷ r0 ∷ r1 ∷ r2 ∷ r3 ∷ d0 ∷ d1 ∷ a0 ∷ a1 ∷ _) =
    let rate = word_i32 (from_le32 r0 r1 r2 r3) in
    let age_ms = from_le a0 a1 in
    some (record {
      offset_us = word_i32 (from_le32 o0 o1 o2 o3);
      rate_ppb = if eq_ℤ rate clk_rate_none then none else some rate;
      delay_us = from_le d0 d1;
      age = if age_ms == 65535 then none else some age_ms;
    })
estimate_from_payload _ = none

unfoldable pub error_bound_us : ClockEstimate → ℕ
error_bound_us e = e.delay_us / 2

unfoldable pub to_host_domain : ℕ → ClockEstimate → Option ℤ
to_host_domain device_us e = do _ ← e.age; some (pos device_us +ℤ e.offset_us)

abbrev pub floor_block : ℕ
floor_block = 4096

abbrev pub resync_ns : ℕ
resync_ns = 1000000

abbrev pub half_range : ℕ
half_range = 2 ^ 31

pub record DomainState : Type 0 where
  pub epoch : ℕ
  pub last : ℕ
  pub seen : Bool
  pub min_now : Option ℤ
  pub min_prev : Option ℤ
  pub block : ℕ
  pub last_host_ns : ℕ
  pub samples : ℕ

abbrev pub default_domain : DomainState
default_domain = record {
  epoch = 0;
  last = 0;
  seen = false;
  min_now = none;
  min_prev = none;
  block = 0;
  last_host_ns = 0;
  samples = 0;
}

unfoldable pub floor_of : Option ℤ → Option ℤ → Option ℤ
floor_of (some a) (some b) = some (min_ℤ a b)
floor_of (some a) none = some a
floor_of none b = b

-- DomainState::floor
unfoldable pub floor : DomainState → Option ℤ
unfolding floor_of
floor d = floor_of d.min_now d.min_prev

abbrev pub min_or : ℤ → Option ℤ → ℤ
min_or z none = z
min_or z (some m) = min_ℤ m z

abbrev pub unwrap_or : ℤ → Option ℤ → ℤ
unwrap_or z none = z
unwrap_or z (some m) = m

-- The state, and the floor.
unfoldable pub push_lag : ℤ → DomainState → DomainState × ℤ
unfolding floor floor_of
push_lag lag_ns d =
    let lowest = some (min_or lag_ns d.min_now) in
    let d' =
      if leb floor_block (d.block + 1)
      then record d { min_now = none; min_prev = lowest; block = 0 }
      else record d { min_now = lowest; block = d.block + 1 } in
    (d', unwrap_or lag_ns (floor d'))

-- The epoch after a stamp that is not behind the last one.
abbrev pub rolled_epoch : ℕ → DomainState → ℕ
rolled_epoch raw d = if ltb raw d.last then (d.epoch + 2 ^ 32) % 2 ^ 64 else d.epoch

-- Timeline::box_us_of on the domain's state: the state, and the unwrapped stamp.
unfoldable pub box_us_of : ℕ → DomainState → DomainState × ℕ
box_us_of raw d =
    if negate d.seen
    then (record d { seen = true; last = raw }, (d.epoch + raw) % 2 ^ 64)
    else if leb ((raw + 2 ^ 32 - d.last) % 2 ^ 32) half_range
    then (record d { epoch = rolled_epoch raw d; last = raw }, (rolled_epoch raw d + raw) % 2 ^ 64)
    else (d, (d.epoch + d.last) % 2 ^ 64 - (d.last + 2 ^ 32 - raw) % 2 ^ 32)

-- `as u64` after the clamp to the range of a u64.
abbrev pub clamp_u64 : ℤ → ℕ
clamp_u64 z = min (pos_part z) (2 ^ 64 - 1)

-- Small corrections are absorbed; a large one is taken.
unfoldable pub absorbed : ℕ → ℕ → ℕ
absorbed raw_host_ns last_host_ns =
    if ltb ((raw_host_ns + resync_ns) % 2 ^ 64) last_host_ns
    then raw_host_ns
    else max raw_host_ns last_host_ns

pub record Stamped : Type 0 where
  pub host : ℕ
  pub box_us : ℕ
  pub excess : ℕ

-- Timeline::observe_stamp on the domain's state.
unfoldable pub observe_domain : ℕ → ℕ → ℕ → DomainState → DomainState × Stamped
observe_domain origin ts_us now d =
    let (d1, box_us) = box_us_of ts_us d in
    let elapsed_ns = pos (now - origin) in
    let box_ns = pos (box_us * 1000) in
    let lag_ns = elapsed_ns -ℤ box_ns in
    let (d2, low) = push_lag lag_ns (record d1 { samples = (d1.samples + 1) % 2 ^ 64 }) in
    let host_ns = absorbed (clamp_u64 (box_ns +ℤ low)) d2.last_host_ns in
    (
      record d2 { last_host_ns = host_ns },
      record { host = origin + host_ns; box_us = box_us; excess = clamp_u64 (lag_ns -ℤ low) },
    )

pub record Timeline : Type 0 where
  pub origin : ℕ
  pub host_domain : DomainState
  pub device_domain : DomainState

unfoldable pub new_timeline : ℕ → Timeline
new_timeline now = record {
  origin = now;
  host_domain = default_domain;
  device_domain = default_domain;
}

abbrev pub domain : ClockDomain → Timeline → DomainState
domain ClockDomain.host_chip t = t.host_domain
domain ClockDomain.device_chip t = t.device_domain

abbrev pub set_domain : ClockDomain → DomainState → Timeline → Timeline
set_domain ClockDomain.host_chip d t = record t { host_domain = d }
set_domain ClockDomain.device_chip d t = record t { device_domain = d }

unfoldable pub observe_stamp : ℕ → ClockDomain → ℕ → Timeline → Timeline × Stamped
unfolding observe_domain
observe_stamp ts_us chip now t =
    let (d, stamped) = observe_domain t.origin ts_us now (domain chip t) in
    (set_domain chip d t, stamped)

-- Timeline::reset
unfoldable pub reset : ClockDomain → Timeline → Timeline
reset chip t = set_domain chip default_domain t

unfoldable pub samples_of : ClockDomain → Timeline → ℕ
samples_of chip t = (domain chip t).samples
