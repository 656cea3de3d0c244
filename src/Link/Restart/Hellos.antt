-- ===== src/Link/Restart/Hellos.antt =====
-- Sequences of hellos on the watch of src/link/restart.rs.
use medius.Base.{ℕ, ◌<◌, ◌^◌, ◌≡◌, ◌≢◌, refl, arith, Bool, true, false, ◌||◌}
use medius.Base.{◌==◌, none, some, List}
use medius.Protocol.Opcode.{proto_ver}
use medius.Link.Slot.{TransportSlot, refuse, accept, refused, refused-refuse, refused-accept}
use medius.Link.Restart.{
  Watch, version_proto, count_hello, accepted_hello, note_hello, take_owed, finish,
}

note_hello_accepted :
    {T : Type 0} (payload : List ℕ) (slot : TransportSlot T) (w : Watch)
    → version_proto payload ≡ some proto_ver
    → (note_hello payload slot w) ≡ (
      accept slot,
      accepted_hello (elim (refused slot) as (λ o. Bool) [ none ↦ false | some p ↦ true ]) w,
    )
unfolding note_hello
note_hello_accepted payload slot w v = rw (note_hello, v) refl

-- A hello of this build's protocol during a recovery keeps that recovery from ending on the count
-- read before it, and is noted as a boot, while the count is below 2^64.
pub finish-note_hello :
    {T : Type 0} (payload : List ℕ) (slot : TransportSlot T) (w : Watch)
    → version_proto payload ≡ some proto_ver
    → w.recovering ≡ true
    → w.hellos < 2 ^ 64
    → (let after : Watch = (note_hello payload slot w).1 in
        (finish w.hellos after ≡ (after, false))
        × (after.booted ≡ true)
        × (after.recovering ≡ true))
unfolding finish accepted_hello
finish-note_hello payload slot w v r h =
    let moved : (count_hello w.hellos == w.hellos) ≡ false = ground (arith, h) in
    rw (note_hello_accepted payload slot w v, r, moved) (refl, refl, refl)

-- On an armed watch with no recovery running, a hello owes one recovery; once that is taken, one
-- more hello owes none, and is noted as a boot.
pub note_hello-note_hello :
    {T : Type 0} (payload again : List ℕ) (slot : TransportSlot T) (w : Watch)
    → version_proto payload ≡ some proto_ver
    → version_proto again ≡ some proto_ver
    → w.armed ≡ true
    → w.recovering ≡ false
    → (let (slot_1, first) = note_hello payload slot w in
        let (running, owed) = take_owed first in
        let (slot_2, second) = note_hello again slot_1 running in
        (owed ≡ true) × (second.owed ≡ false) × (second.recovering ≡ true) × (second.booted ≡ true))
unfolding take_owed accepted_hello
note_hello-note_hello payload again slot w v v' a r =
    let first : Watch = (note_hello payload slot w).1 in
    rw
      (
        note_hello_accepted again (note_hello payload slot w).0 (take_owed first).0 v',
        note_hello_accepted payload slot w v,
        a,
        r,
      )
      (refl, refl, refl, refl)

note_hello_other :
    {T : Type 0} (payload : List ℕ) (proto : ℕ) (slot : TransportSlot T) (w : Watch)
    → version_proto payload ≡ some proto
    → proto ≢ proto_ver
    → note_hello payload slot w ≡ (refuse proto slot, w)
unfolding note_hello
note_hello_other payload proto slot w v other =
    let differs : (proto == proto_ver) ≡ false = ground (arith, other) in
    rw (note_hello, v, differs) refl

or_true : (b : Bool) → (b || true) ≡ true
or_true true = refl
or_true false = refl

-- With no recovery running, a hello on another protocol is refused and leaves the watch alone; the
-- next hello on this build's protocol is accepted and owes a recovery.
pub note_hello-refused :
    {T : Type 0} (payload again : List ℕ) (proto : ℕ) (slot : TransportSlot T) (w : Watch)
    → version_proto payload ≡ some proto
    → proto ≢ proto_ver
    → proto < 256
    → version_proto again ≡ some proto_ver
    → w.recovering ≡ false
    → (let (slot_1, first) = note_hello payload slot w in
        let (slot_2, second) = note_hello again slot_1 first in
        (refused slot_1 ≡ some proto)
        × (first ≡ w)
        × (refused slot_2 ≡ none)
        × (second.owed ≡ true))
unfolding accepted_hello
note_hello-refused payload again proto slot w v other small v' r =
    rw
      (
        note_hello_other payload proto slot w v other,
        note_hello_accepted again (refuse proto slot) w v',
        refused-refuse proto slot small,
        refused-accept (refuse proto slot),
        or_true w.armed,
        r,
      )
      (refl, refl, refl, refl)
