-- ===== src/Device/Clip/Packets.antt =====
-- The packet triggers that src/device/clip.rs accepts, against the packets that they match and
-- against the box's listing of them.
use medius.Base.{ℕ, ◌-◌, ◌≡◌, ◌↔◌, refl, sym, ap, ◌∙◌, arith, true, false, ◌&&◌}
use medius.Base.{negate, ltb, ◌==◌, bit_and}
use medius.Base.{some, List, [], ◌∷◌, length, All, IsByte, Result, ok, err, check-ok}
use medius.Base.Bits.{bit_and_again, bit_and_complement}
use medius.Types.Direction.{Direction, is_relative, dir_eq}
use medius.Types.Clip.{ClipPacketTrigger}
use medius.Types.Clip.Reply.{is_surface, class_carries, pkt_match_max, packet_from_wire}
use medius.Types.Clip.Rows.{packet_row, IsListable, packet_from_wire-packet_row}
use medius.Device.Clip.{ClipError, has_bit_outside, validate_packet_key, validate_packet_trigger}

-- A packet's head against a trigger's match bytes and mask: `head[i] & mask[i] == match_bytes[i]`
-- for every match byte.
abbrev pub HeadMatches : List ℕ → List ℕ → List ℕ → Type 0
HeadMatches head [] ks = Unit {0}
HeadMatches [] (m ∷ ms) ks = ⊥
HeadMatches head (m ∷ ms) [] = ⊥
HeadMatches (h ∷ hs) (m ∷ ms) (k ∷ ks) = (bit_and h k ≡ m) × HeadMatches hs ms ks

-- Match bytes inside their mask are a packet that the trigger matches.
HeadMatches-itself :
    (ms ks : List ℕ)
    → All IsByte ms
    → All IsByte ks
    → length ms ≡ length ks
    → has_bit_outside ms ks ≡ false
    → HeadMatches ms ms ks
unfolding has_bit_outside
HeadMatches-itself [] ks bm bk h e = tt
HeadMatches-itself (m ∷ ms) [] bm bk h e = absurd (omega (arith, h))
HeadMatches-itself (m ∷ ms) (k ∷ ks) bm bk h e =
    let cleared : bit_and m (255 - k) ≡ 0 = ground (arith, e) in
    let rest : has_bit_outside ms ks ≡ false = ground (arith, e) in
    (
      (bit_and_complement 8 m k bm.0 bk.0).0 cleared,
      HeadMatches-itself ms ks bm.1 bk.1 (omega (arith, h)) rest,
    )

-- What some packet matches has no bit outside its mask.
HeadMatches-inside :
    (head ms ks : List ℕ)
    → All IsByte head
    → All IsByte ms
    → All IsByte ks
    → HeadMatches head ms ks
    → has_bit_outside ms ks ≡ false
unfolding has_bit_outside
HeadMatches-inside head [] ks bh bm bk h = refl
HeadMatches-inside [] (m ∷ ms) ks bh bm bk h = absurd h
HeadMatches-inside (b ∷ bs) (m ∷ ms) [] bh bm bk h = absurd h
HeadMatches-inside (b ∷ bs) (m ∷ ms) (k ∷ ks) bh bm bk h =
    let again : bit_and m k ≡ m =
      ap (λ v. bit_and v k) (sym h.0) ∙ (bit_and_again 8 b k bh.0 bk.0 ∙ h.0) in
    let cleared : bit_and m (255 - k) ≡ 0 = (bit_and_complement 8 m k bm.0 bk.0).1 again in
    let rest = HeadMatches-inside bs ms ks bh.1 bm.1 bk.1 h.1 in rw (cleared, rest) refl

-- A key that passes every check has none of the faults.
validate_packet_key-ok :
    (t : ClipPacketTrigger)
    → validate_packet_key t ≡ ok tt
    → IsListable t × (has_bit_outside t.match_bytes t.mask ≡ false)
unfolding validate_packet_key
validate_packet_key-ok t h =
    let (surface, h1) = check-ok (negate (is_surface t.class)) _ _ tt h in
    let (absolute, h2) = check-ok (is_relative t.direction) _ _ tt h1 in
    let (equal, h3) = check-ok (negate (length t.match_bytes == length t.mask)) _ _ tt h2 in
    let (short, h4) = check-ok (ltb pkt_match_max (length t.match_bytes)) _ _ tt h3 in
    let (_, h5) =
      check-ok
        (negate (dir_eq t.direction Direction.both) && negate (class_carries t.class t.direction)) _
        _ tt h4 in
    let (inside, _) = check-ok (has_bit_outside t.match_bytes t.mask) _ _ tt h5 in
    ((ground (arith, surface), absolute, ground (arith, equal), ground (arith, short)), inside)

-- A trigger that passes every check has a key that does.
validate_packet_trigger-key :
    (t : ClipPacketTrigger) → validate_packet_trigger t ≡ ok tt → validate_packet_key t ≡ ok tt
unfolding validate_packet_trigger
validate_packet_trigger-key t h = by_key (validate_packet_key t) refl
  where
    by_key :
        (r : Result ClipError (Unit {0}))
        → validate_packet_key t ≡ r
        → validate_packet_key t ≡ ok tt
    by_key (ok tt) e = e
    by_key (err f) e = absurd (cc (h, e))

-- With every other check passed, what is left is the bits outside the mask.
validate_packet_key-inside :
    (t : ClipPacketTrigger)
    → IsListable t
    → (negate (dir_eq t.direction Direction.both) && negate (class_carries t.class t.direction))
      ≡ false
    → has_bit_outside t.match_bytes t.mask ≡ false
    → validate_packet_key t ≡ ok tt
unfolding validate_packet_key
validate_packet_key-inside t (surface, absolute, same, short) carried inside =
    let equal : (length t.match_bytes == length t.mask) ≡ true = ground (arith, same) in
    let fits : ltb pkt_match_max (length t.match_bytes) ≡ false = ground (arith, short) in
    rw (surface, absolute, equal, fits, carried, inside) refl

-- A trigger on a surface with an absolute direction, one that its class carries or both, and with
-- a match and a mask of bytes, of one length of at most 16, has an accepted key just when some
-- packet's head matches it.
pub validate_packet_key-HeadMatches :
    (t : ClipPacketTrigger)
    → All IsByte t.match_bytes
    → All IsByte t.mask
    → IsListable t
    → (negate (dir_eq t.direction Direction.both) && negate (class_carries t.class t.direction))
      ≡ false
    → (validate_packet_key t ≡ ok tt)
      ↔ ((head : List ℕ) × All IsByte head × HeadMatches head t.match_bytes t.mask)
validate_packet_key-HeadMatches t bytes mask listable carried = (
  λ h. (
    t.match_bytes,
    bytes,
    HeadMatches-itself t.match_bytes t.mask bytes mask (sym listable.2)
        (validate_packet_key-ok t h).1,
  ),
  λ (head, b, hits).
      validate_packet_key-inside t listable carried
        (HeadMatches-inside head t.match_bytes t.mask b bytes mask hits),
)

-- What the checks accept is listed by the box in a row that is read back as the trigger.
pub packet_from_wire-validate :
    (t : ClipPacketTrigger) (hits : ℕ)
    → validate_packet_trigger t ≡ ok tt
    → packet_from_wire (packet_row (record { trigger = t; hits = hits }))
      ≡ some (some (record { trigger = t; hits = hits }))
packet_from_wire-validate t hits h =
    packet_from_wire-packet_row (record { trigger = t; hits = hits })
      (validate_packet_key-ok t (validate_packet_trigger-key t h)).0
