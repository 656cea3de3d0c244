-- ===== src/Link/Slot.antt =====
-- src/link/slot.rs: the transport in use, the count of its replacements, and the protocol that a box
-- came back on. Transports are a parameter.
use medius.Base.{ℕ, ◌+◌, ◌*◌, ◌<◌, ◌%◌, ◌^◌, ◌≡◌, refl, ◌∙◌, arith, if◌then◌else◌, ◌==◌}
use medius.Base.{Option, none, some, bit_or, bit_and}
use medius.Base.Bits.{bit_or_fields, bit_or_comm, bit_and_bit}

abbrev pub refused_flag : ℕ
refused_flag = 0x100

pub record TransportSlot (T : Type 0) : Type 0 where
  pub current : T
  pub generation : ℕ
  pub refusal : ℕ

module _ {T : Type 0} where
  unfoldable pub new : T → TransportSlot T
  new transport = record { current = transport; generation = 0; refusal = 0 }

  unfoldable pub refuse : ℕ → TransportSlot T → TransportSlot T
  refuse proto s = record s { refusal = bit_or refused_flag proto }

  unfoldable pub accept : TransportSlot T → TransportSlot T
  accept s = record s { refusal = 0 }

  -- With the transport that it wakes.
  unfoldable pub swap : T → TransportSlot T → TransportSlot T × T
  unfolding accept
  swap transport s = (
    accept (record s { current = transport; generation = (s.generation + 1) % 2 ^ 64 }),
    s.current,
  )

  -- `r as u8` keeps the low byte.
  unfoldable pub refused : TransportSlot T → Option ℕ
  refused s = if bit_and s.refusal refused_flag == 0 then none else some (s.refusal % 256)

  -- A refused protocol is reported until an accept or a swap, and none is before.
  pub refused-refuse :
      (proto : ℕ) (s : TransportSlot T) → proto < 256 → refused (refuse proto s) ≡ some proto
  unfolding refused refuse
  refused-refuse proto s h =
      let sum : bit_or refused_flag proto ≡ proto + 1 * 2 ^ 8 =
        bit_or_comm 9 refused_flag proto (omega arith) (omega (arith, h))
        ∙ bit_or_fields 8 proto 1 h in
      let flag = bit_and_bit 8 (proto + 1 * 2 ^ 8) in rw sum (ground (arith, flag, h))

  pub refused-accept : (s : TransportSlot T) → refused (accept s) ≡ none
  unfolding refused accept
  refused-accept s = refl

  pub refused-swap : (t : T) (s : TransportSlot T) → refused (swap t s).0 ≡ none
  unfolding refused swap accept
  refused-swap t s = refl
