-- ===== src/Types/Clip/Bounds.antt =====
-- RESP(CLIP) of src/types/clip.rs is read without an index out of bounds once its shape is accepted.
use medius.Base.{ℕ, zero, suc, ◌+◌, ◌*◌, ◌≤◌, ◌<◌, ◌≡◌, refl, sym, ap, ◌∙◌, arith, ltb, ◌==◌}
use medius.Base.{
  false, Option, none, some, List, [], ◌∷◌, length, get_elem?, Option-cases, inl, inr,
}
use medius.Base.Options.{keep, split, bind-some, guard-some, guard-none}
use medius.Types.Clip.Reply.{
  packet_head, packet_from_wire, pkt_match_max, clip_pkt_trig_entry, packets_end, triggers_end,
  config_end, config_offset_of, clip_trig_max, clip_pkt_trig_max, resp_clip_hdr, clip_config_offset,
  u16_at, triggers_from, slice, packets_from, settings_from_payload,
}

module _ {ℓ} {A : Type ℓ} where
  -- What is not `none`.
  abbrev pub IsSome : Option A → Type ℓ
  IsSome o = (a : A) × (o ≡ some a)

  pub get_elem?-IsSome : (xs : List A) (i : ℕ) → i < length xs → IsSome (get_elem? xs i)
  get_elem?-IsSome [] i h = absurd (omega arith)
  get_elem?-IsSome (x ∷ xs) zero h = (x, refl)
  get_elem?-IsSome (x ∷ xs) (suc i) h = get_elem?-IsSome xs i (omega arith)

  pub get_elem?-lt : (xs : List A) (i : ℕ) (a : A) → get_elem? xs i ≡ some a → i < length xs
  get_elem?-lt [] i a h = absurd (cc h)
  get_elem?-lt (x ∷ xs) zero a h = omega arith
  get_elem?-lt (x ∷ xs) (suc i) a h = omega (arith, get_elem?-lt xs i a h)

  -- A split within the list, with what each part holds.
  abbrev pub Splits : ℕ → List A → Type ℓ
  Splits n xs =
      (front : List A) × (back : List A) × (split n xs ≡ some (front, back))
      × (length front ≡ n)
      × (length xs ≡ n + length back)
      × ((j : ℕ) → get_elem? back j ≡ get_elem? xs (n + j))
      × ((j : ℕ) → j < n → get_elem? front j ≡ get_elem? xs j)

  pub split-Splits : (n : ℕ) (xs : List A) → n ≤ length xs → Splits n xs
  unfolding split
  split-Splits zero xs h = (
    [],
    xs,
    refl,
    refl,
    omega arith,
    λ j. ap (get_elem? xs) (omega arith),
    λ j k. absurd (omega (arith, k)),
  )
  split-Splits (suc n) [] h = absurd (omega arith)
  split-Splits (suc n) (x ∷ xs) h =
      let (front, back, e, lf, lb, at_back, at_front) = split-Splits n xs (omega arith) in
      (
        x ∷ front,
        back,
        rw e refl,
        ap suc lf,
        omega (arith, lb),
        λ j.
            let step : suc (n + j) ≡ suc n + j = omega arith in
            at_back j ∙ ap (get_elem? (x ∷ xs)) step,
        λ j k. front_at front at_front j k,
      )
    where
      front_at :
          (front : List A)
          → ((j : ℕ) → j < n → get_elem? front j ≡ get_elem? xs j)
          → (j : ℕ) → j < suc n
          → get_elem? (x ∷ front) j ≡ get_elem? (x ∷ xs) j
      front_at front f zero k = refl
      front_at front f (suc j) k = f j (omega (arith, k))

-- A row as long as its match says is read, whether this crate names its parts or not.
packet_from_wire-IsSome :
    (row : List ℕ) (mlen : ℕ)
    → length row ≡ clip_pkt_trig_entry + 2 * mlen
    → get_elem? row 7 ≡ some mlen
    → IsSome (packet_from_wire row)
unfolding packet_from_wire
packet_from_wire-IsSome (c ∷ i0 ∷ i1 ∷ d ∷ a ∷ f ∷ slen ∷ m ∷ h0 ∷ h1 ∷ body) mlen long h =
    let same : m ≡ mlen = cc h in
    let (front, back, e, _, _, _, _) = split-Splits m body (omega (arith, long, same)) in
    elim (Option-cases (packet_head c d a)) [
      | inl unnamed ↦ rw (packet_from_wire, unnamed) (none, refl)
      | inr ((class, (direction, action)), named) ↦ rw (packet_from_wire, named, e) (_, refl)
    ]
packet_from_wire-IsSome [] mlen long h = absurd (cc h)
packet_from_wire-IsSome (_ ∷ []) mlen long h = absurd (cc h)
packet_from_wire-IsSome (_ ∷ _ ∷ []) mlen long h = absurd (cc h)
packet_from_wire-IsSome (_ ∷ _ ∷ _ ∷ []) mlen long h = absurd (cc h)
packet_from_wire-IsSome (_ ∷ _ ∷ _ ∷ _ ∷ []) mlen long h = absurd (cc h)
packet_from_wire-IsSome (_ ∷ _ ∷ _ ∷ _ ∷ _ ∷ []) mlen long h = absurd (cc h)
packet_from_wire-IsSome (_ ∷ _ ∷ _ ∷ _ ∷ _ ∷ _ ∷ []) mlen long h = absurd (cc h)
packet_from_wire-IsSome (_ ∷ _ ∷ _ ∷ _ ∷ _ ∷ _ ∷ _ ∷ []) mlen long h = absurd (cc h)
packet_from_wire-IsSome (_ ∷ _ ∷ _ ∷ _ ∷ _ ∷ _ ∷ _ ∷ _ ∷ []) mlen long h =
    absurd (omega (arith, long))
packet_from_wire-IsSome (_ ∷ _ ∷ _ ∷ _ ∷ _ ∷ _ ∷ _ ∷ _ ∷ _ ∷ []) mlen long h =
    absurd (omega (arith, long))

pub slice-IsSome :
    (p : List ℕ) (off n : ℕ)
    → off + n ≤ length p
    → (row : List ℕ) × (slice p off n ≡ some row)
      × (length row ≡ n)
      × ((j : ℕ) → j < n → get_elem? row j ≡ get_elem? p (off + j))
unfolding slice
slice-IsSome p off n h =
    let (before, rest, e, _, long, at_rest, _) = split-Splits off p (omega (arith, h)) in
    let (row, after, e', lr, _, _, at_row) = split-Splits n rest (omega (arith, h, long)) in
    (row, rw (e, e') refl, lr, λ j k. at_row j k ∙ at_rest j)

packets_end_step :
    (p : List ℕ) (n off end : ℕ)
    → packets_end p (suc n) off ≡ some end
    → (mlen : ℕ) × (get_elem? p (off + 7) ≡ some mlen)
      × (ltb pkt_match_max mlen ≡ false)
      × (packets_end p n (off + clip_pkt_trig_entry + 2 * mlen) ≡ some end)
unfolding packets_end
packets_end_step p n off end h =
    let (mlen, (at, h')) = bind-some (get_elem? p (off + 7)) _ end h in
    let (fits, h'') = guard-some (ltb pkt_match_max mlen) _ end h' in (mlen, at, fits, h'')

-- The end of the rows is past their heads.
packets_end-le :
    (p : List ℕ) (n off end : ℕ)
    → packets_end p n off ≡ some end
    → off + clip_pkt_trig_entry * n ≤ end
unfolding packets_end
packets_end-le p zero off end h = let same : off ≡ end = cc h in omega (arith, same)
packets_end-le p (suc n) off end h =
    let (mlen, at, _, rest) = packets_end_step p n off end h in
    omega (arith, packets_end-le p n (off + clip_pkt_trig_entry + 2 * mlen) end rest)

packets_from-IsSome :
    (p : List ℕ) (n off end : ℕ)
    → packets_end p n off ≡ some end
    → end ≤ length p
    → IsSome (packets_from p n off)
unfolding packets_from
packets_from-IsSome p zero off end h within = ([], refl)
packets_from-IsSome p (suc n) off end h within =
    let (mlen, at, _, later) = packets_end_step p n off end h in
    let next : ℕ = off + clip_pkt_trig_entry + 2 * mlen in
    let past = packets_end-le p n next end later in
    let (row, e, long, at_row) =
      slice-IsSome p off (clip_pkt_trig_entry + 2 * mlen) (omega (arith, past, within)) in
    let (entry, e') = packet_from_wire-IsSome row mlen long (at_row 7 (omega arith) ∙ at) in
    let (rest, e'') = packets_from-IsSome p n next end later within in
    rw (at, e, e', e'') (keep entry rest, refl)

u16_at-IsSome : (p : List ℕ) (i : ℕ) → i + 2 ≤ length p → IsSome (u16_at p i)
unfolding u16_at
u16_at-IsSome p i h =
    let (lo, e) = get_elem?-IsSome p i (omega (arith, h)) in
    let (hi, e') = get_elem?-IsSome p (i + 1) (omega (arith, h)) in rw (e, e') (_, refl)

triggers_from-IsSome :
    (p : List ℕ) (n off : ℕ) → off + n * 6 ≤ length p → IsSome (triggers_from p n off)
unfolding triggers_from
triggers_from-IsSome p zero off h = ([], refl)
triggers_from-IsSome p (suc n) off h =
    let (c, e0) = get_elem?-IsSome p off (omega (arith, h)) in
    let (id, e1) = u16_at-IsSome p (off + 1) (omega (arith, h)) in
    let (edge, e3) = get_elem?-IsSome p (off + 3) (omega (arith, h)) in
    let (a, e4) = get_elem?-IsSome p (off + 4) (omega (arith, h)) in
    let (consume, e5) = get_elem?-IsSome p (off + 5) (omega (arith, h)) in
    let (rest, e6) = triggers_from-IsSome p n (off + 6) (omega (arith, h)) in
    rw (e0, e1, e3, e4, e5, e6) (_, refl)

-- What an accepted shape says: its counts, and that the rows end with the payload.
abbrev pub Shape : List ℕ → ℕ → Type 0
Shape p cfg =
    (held_n : ℕ) × (n_trig : ℕ) × (n_pkt : ℕ) × (get_elem? p 30 ≡ some held_n)
    × (cfg ≡ resp_clip_hdr + held_n * 3)
    × (get_elem? p (cfg + 2) ≡ some n_trig)
    × (get_elem? p (cfg + 3 + n_trig * 6) ≡ some n_pkt)
    × (packets_end p n_pkt (cfg + 3 + n_trig * 6 + 1) ≡ some (length p))

pub clip_config_offset-Shape :
    (p : List ℕ) (cfg : ℕ) → clip_config_offset p ≡ some cfg → Shape p cfg
unfolding clip_config_offset config_offset_of config_end triggers_end
clip_config_offset-Shape p cfg h =
    let (_, h1) = guard-some (ltb (length p) resp_clip_hdr) _ cfg h in
    let (held_n, (e30, h2)) = bind-some (get_elem? p 30) _ cfg h1 in
    let (end, (ends, h3)) = bind-some (config_end p (resp_clip_hdr + held_n * 3)) _ cfg h2 in
    let (whole, h4) = guard-none (length p == end) _ cfg h3 in
    let at : resp_clip_hdr + held_n * 3 ≡ cfg = cc h4 in
    let (n_trig, (e_trig, h5)) =
      bind-some (get_elem? p (resp_clip_hdr + held_n * 3 + 2)) _ end ends in
    let (_, h6) = guard-some (ltb clip_trig_max n_trig) _ end h5 in
    let (n_pkt, (e_pkt, h7)) =
      bind-some (get_elem? p (resp_clip_hdr + held_n * 3 + 3 + n_trig * 6)) _ end h6 in
    let (_, h8) = guard-some (ltb clip_pkt_trig_max n_pkt) _ end h7 in
    let all : end ≡ length p = ground (arith, whole) in
    rw (sym at) (held_n, n_trig, n_pkt, e30, refl, e_trig, e_pkt, h8 ∙ ap some all)

-- Once the shape of a RESP(CLIP) payload is accepted, its settings are read without an index out
-- of bounds, whatever its other bytes are.
pub settings_from_payload-IsSome :
    (p : List ℕ) (cfg : ℕ) → clip_config_offset p ≡ some cfg → IsSome (settings_from_payload p)
unfolding settings_from_payload
settings_from_payload-IsSome p cfg h =
    let (held_n, n_trig, n_pkt, _, _, e_trig, e_pkt, ends) = clip_config_offset-Shape p cfg h in
    let within = get_elem?-lt p (cfg + 3 + n_trig * 6) n_pkt e_pkt in
    let (scope, e0) = get_elem?-IsSome p cfg (omega (arith, within)) in
    let (flags, e1) = get_elem?-IsSome p (cfg + 1) (omega (arith, within)) in
    let (triggers, et) = triggers_from-IsSome p n_trig (cfg + 3) (omega (arith, within)) in
    let (packets, ep) =
      packets_from-IsSome p n_pkt (cfg + 3 + n_trig * 6 + 1) (length p) ends (omega arith) in
    rw (h, e0, e1, e_trig, et, e_pkt, ep) (_, refl)
