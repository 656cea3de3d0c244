-- ===== src/Link/Reconcile/Clip/Packets.antt =====
-- The packet triggers of the clip in src/link/reconcile.rs: one to a key, in the box's order.
use medius.Base.{ℕ, zero, suc, ◌+◌, ◌≡◌, ◌↔◌, refl, sym, arith, Bool, true, negate}
use medius.Base.{none, some, List, [], ◌∷◌, ◌++◌, set, retain, length, All}
use medius.Base.{Bool-cases, Option-cases, inl, inr}
use medius.Base.Options.{position, find}
use medius.Base.Keyed.{
  bytes_eq_iff, IsUnique, matches_self, position-get_elem?, append-IsUnique, set-IsUnique,
}
use medius.Types.Clip.{ClipPacketTrigger}
use medius.Link.Reconcile.State.{DesiredState}
use medius.Link.Reconcile.Clip.{
  ClipPacketKey, clip_packet_key, packet_key_eq, has_packet_key, packet_bound, clip_packet_bind,
  clip_packet_drop_consuming,
}

packet_key_eq_iff : (a b : ClipPacketKey) → (packet_key_eq a b ≡ true) ↔ (a ≡ b)
unfolding packet_key_eq
packet_key_eq_iff (c, i, d, m, k) (c', i', d', m', k') =
    ground (arith, bytes_eq_iff m m', bytes_eq_iff k k')

abbrev pub HasUniquePackets : DesiredState → Type 0
HasUniquePackets s = IsUnique clip_packet_key packet_key_eq s.clip.packet_triggers

-- A bind keeps one trigger to a key.
pub clip_packet_bind-HasUniquePackets :
    (t : ClipPacketTrigger) (s : DesiredState)
    → HasUniquePackets s
    → HasUniquePackets (clip_packet_bind t s)
unfolding clip_packet_bind packet_bound
clip_packet_bind-HasUniquePackets t s u =
    let k : ClipPacketKey = clip_packet_key t in
    let held : List ClipPacketTrigger = s.clip.packet_triggers in
    elim (Option-cases (position (has_packet_key k) held)) [
      | inl e ↦
          rw (packet_bound, e)
            (append-IsUnique clip_packet_key packet_key_eq packet_key_eq_iff t held e u)
      | inr (i, e) ↦
          let (old, at, has) = position-get_elem? (has_packet_key k) held i e in
          let same : k ≡ clip_packet_key old =
            sym ((packet_key_eq_iff (clip_packet_key old) k).0 has) in
          rw (packet_bound, e)
            (set-IsUnique clip_packet_key packet_key_eq packet_key_eq_iff held i old t at same u)
    ]

find-append :
    (p : ClipPacketTrigger → Bool) (ts : List ClipPacketTrigger) (t : ClipPacketTrigger)
    → p t ≡ true
    → position p ts ≡ none
    → find p (ts ++ (t ∷ [])) ≡ some t
find-append p [] t h e = rw h refl
find-append p (x ∷ ts) t h e = ground (arith, h, e, find-append p ts t h)

find-set :
    (p : ClipPacketTrigger → Bool) (ts : List ClipPacketTrigger) (i : ℕ) (t : ClipPacketTrigger)
    → p t ≡ true
    → position p ts ≡ some i
    → find p (set ts i t) ≡ some t
find-set p [] i t h e = absurd (ground (arith, e))
find-set p (x ∷ ts) zero t h e = rw h refl
find-set p (x ∷ ts) (suc i) t h e = ground (arith, h, e, find-set p ts i t h)

-- After a bind, the trigger found under its key is the one bound.
pub find-packet_bound :
    (t : ClipPacketTrigger) (held : List ClipPacketTrigger)
    → find (has_packet_key (clip_packet_key t)) (packet_bound t held) ≡ some t
unfolding packet_bound
find-packet_bound t held =
    let p : ClipPacketTrigger → Bool = has_packet_key (clip_packet_key t) in
    let self = matches_self clip_packet_key packet_key_eq packet_key_eq_iff t in
    elim (Option-cases (position p held)) [
      | inl e ↦ rw (packet_bound, e) (find-append p held t self e)
      | inr (i, e) ↦ rw (packet_bound, e) (find-set p held i t self e)
    ]

retain-All :
    (p : ClipPacketTrigger → Bool) (ts : List ClipPacketTrigger)
    → All (λ t. p t ≡ true) (retain p ts)
retain-All p [] = tt
retain-All p (x ∷ ts) = elim (Bool-cases (p x)) [
  | inl e ↦ rw e (e, retain-All p ts)
  | inr e ↦ rw e (retain-All p ts)
]

length-retain-split :
    (p : ClipPacketTrigger → Bool) (ts : List ClipPacketTrigger)
    → length (retain p ts) + length (retain (λ t. negate (p t)) ts) ≡ length ts
length-retain-split p [] = omega arith
length-retain-split p (x ∷ ts) = ground (arith, length-retain-split p ts)

-- Dropping the consuming triggers splits the vector: those returned consume, those kept do not, and
-- none goes missing.
pub clip_packet_drop_consuming-split :
    (s : DesiredState)
    → (let kept : List ClipPacketTrigger = (clip_packet_drop_consuming s).0.clip.packet_triggers in
        let dropped : List ClipPacketTrigger = (clip_packet_drop_consuming s).1 in
        All (λ t. t.consume ≡ true) dropped
        × All (λ t. negate t.consume ≡ true) kept
        × (length dropped + length kept ≡ length s.clip.packet_triggers))
unfolding clip_packet_drop_consuming
clip_packet_drop_consuming-split s = (
  retain-All (λ t. t.consume) s.clip.packet_triggers,
  retain-All (λ t. negate t.consume) s.clip.packet_triggers,
  length-retain-split (λ t. t.consume) s.clip.packet_triggers,
)
