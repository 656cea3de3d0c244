-- ===== src/Link/Restart.antt =====
-- src/link/restart.rs: the watch on the chip's hellos, and the recovery that one owes. An Instant is
-- a number of milliseconds; a state change under the lock is a function on the watch.
use medius.Base.{
  ℕ, ◌+◌, ◌-◌, ◌<◌, ◌%◌, ◌^◌, ◌≡◌, arith, Bool, true, false, ◌&&◌, ◌||◌, negate, if◌then◌else◌,
  ◌==◌, ltb,
}
use medius.Base.{Option, none, some, List, [], ◌∷◌, get_elem?, length}
use medius.Protocol.Opcode.{proto_ver}
use medius.Link.Slot.{TransportSlot, refuse, accept, refused}
pub mod Hellos
pub mod Runs

abbrev pub q_version : ℕ
q_version = 0

pub record Watch : Type 0 where
  pub armed : Bool
  pub recovering : Bool
  pub owed : Bool
  pub hellos : ℕ
  pub booted : Bool
  pub session : Option ℕ
  pub represent_until : Option ℕ

-- The protocol in a payload that `parse_resp` reads as a version.
unfoldable pub version_proto : List ℕ → Option ℕ
version_proto payload = elim (get_elem? payload 0) [
  | none ↦ none
  | some what ↦
      if what == q_version
      then (if ltb (length payload) 11 then none else get_elem? payload 1)
      else none
]

-- `hellos += 1` on a `u64`.
abbrev pub count_hello : ℕ → ℕ
count_hello n = (n + 1) % 2 ^ 64

unfoldable pub note_reply : Watch → Watch
note_reply w = record w { armed = true }

-- What an accepted hello changes, with whether the box had been refused.
unfoldable pub accepted_hello : Bool → Watch → Watch
accepted_hello was_refused w =
    let armed : Bool = w.armed || was_refused in
    if w.recovering
    then record w { armed = armed; hellos = count_hello w.hellos; booted = true }
    else if negate armed
    then record w { armed = armed }
    else record w { armed = false; recovering = true; owed = true; hellos = count_hello w.hellos }

module _ {T : Type 0} where
  unfoldable pub note_hello : List ℕ → TransportSlot T → Watch → TransportSlot T × Watch
  unfolding version_proto accepted_hello refuse accept refused
  note_hello payload slot w = elim (version_proto payload) [
    | none ↦ (slot, w)
    | some proto ↦
        if negate (proto == proto_ver)
        then (refuse proto slot, w)
        else (accept slot, accepted_hello (elim (refused slot) [ none ↦ false | some p ↦ true ]) w)
  ]

unfoldable pub begin : Watch → Watch
begin w = record w { recovering = true; owed = true; hellos = count_hello w.hellos }

unfoldable pub take_owed : Watch → Watch × Bool
take_owed w = (record w { recovering = w.recovering || w.owed; owed = false }, w.owed)

unfoldable pub finish : ℕ → Watch → Watch × Bool
finish seen w =
    if negate (w.hellos == seen) then (w, false) else (record w { recovering = false }, true)

unfoldable pub note_session : ℕ → Watch → Watch
note_session session w = record w { session = some session }

unfoldable pub session_is : ℕ → Watch → Bool
session_is session w = elim w.session [ none ↦ false | some was ↦ was == session ]

unfoldable pub session_moved : ℕ → Watch → Watch × Bool
session_moved session w = (
  record w { session = some session },
  elim w.session [ none ↦ false | some was ↦ negate (was == session) ],
)

abbrev pub represent_watch : ℕ
represent_watch = 5000

unfoldable pub expect_represent : ℕ → Watch → Watch
expect_represent now w = record w { represent_until = some (now + represent_watch) }

unfoldable pub expecting_represent : ℕ → Watch → Bool
expecting_represent now w = elim w.represent_until [ none ↦ false | some t ↦ ltb now t ]

unfoldable pub begin_release : Watch → Watch
begin_release w = record w { recovering = true }

unfoldable pub take_booted : Watch → Watch × Bool
take_booted w = (record w { booted = false }, w.booted)

pub data Cause : Type 0 where
  restart released : Cause

pub record PendingRecovery : Type 0 where
  pub cause : Cause
  pub since : ℕ
  pub next : ℕ

unfoldable pub new_recovery : Cause → ℕ → PendingRecovery
new_recovery cause now = record { cause = cause; since = now; next = now }

abbrev pub clone_poll : ℕ
clone_poll = 50

abbrev pub clone_poll_slow : ℕ
clone_poll_slow = 500

abbrev pub clone_poll_close : ℕ
clone_poll_close = 5000

unfoldable pub wait : ℕ → PendingRecovery → PendingRecovery
wait now p = record p {
  next = now + (if ltb (now - p.since) clone_poll_close then clone_poll else clone_poll_slow);
}
