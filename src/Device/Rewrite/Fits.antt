-- ===== src/Device/Rewrite/Fits.antt =====
-- What the calls of src/device/rewrite.rs keep of the rules that the host holds: they fit the box's
-- table and pool, and each can be read back.
use medius.Base.{ℕ, zero, suc, ◌+◌, ◌-◌, ◌*◌, ◌≤◌, ◌<◌, ◌≡◌, refl, ap, ◌∙◌, arith}
use medius.Base.{Bool, true, false, negate, ◌&&◌, ltb, leb, List, [], ◌∷◌, ◌++◌, All, length}
use medius.Base.{length-append, All-append, Option, some, Option-cases, Bool-cases, inl, inr}
use medius.Base.{get_elem?, remove_at, retain, any, ok, err, Result, ◌⊎◌}
use medius.Base.Options.{position}
use medius.Base.Keyed.{
  IsUnique→IsSole, position-get_elem?, retain_others, retain-remove_at, any-position,
  remove_at-IsUnique,
}
use medius.Types.Rewrite.{RewriteRule}
use medius.Protocol.Opcode.{max_payload}
use medius.Link.Reconcile.State.{DesiredState, StoredRewrite}
use medius.Link.Reconcile.Rewrites.{
  RewriteWireKey, key, key_eq, key_eq_iff, has_key, rule_eq, apply_rewrite, remove_rewrite,
  clear_rewrites, holds_rewrite, rewrite_count, pool_used, rewrite_pool_used_except, HasUniqueRules,
  apply_rewrite-HasUniqueRules, restore_rewrite-apply_rewrite,
}
use medius.Device.Rewrite.{
  rewrite_match_max, rewrite_max_entries, rewrite_payload_pool, rewrite_to_stored, validate_rule,
  set_rewrite_send, set_rewrite_checked, set_rewrite, require_imperfect, RewriteError,
}

abbrev pub total : List StoredRewrite → ℕ
total rules = pool_used (λ r. true) rules

-- The reply of the box that lists the rule in full fits a frame, and so does the command.
abbrev pub IsReadable : StoredRewrite → Type 0
IsReadable r =
    (length r.match_bytes ≡ length r.mask)
    × (length r.match_bytes ≤ rewrite_match_max)
    × (11 + 2 * length r.match_bytes + length r.payload ≤ max_payload)

pub record FitsBox (s : DesiredState) : Type 0 where
  pub unique : HasUniqueRules s
  pub count : length s.rewrites ≤ rewrite_max_entries
  pub pool : total s.rewrites ≤ rewrite_payload_pool
  pub readable : All IsReadable s.rewrites

total-append :
    (rules : List StoredRewrite) (r : StoredRewrite)
    → total (rules ++ (r ∷ [])) ≡ total rules + length r.payload
unfolding pool_used
total-append [] r = omega arith
total-append (q ∷ rules) r = omega (arith, total-append rules r)

pool_used-retain :
    (p : StoredRewrite → Bool) (rules : List StoredRewrite)
    → pool_used p rules ≡ total (retain p rules)
unfolding pool_used
pool_used-retain p [] = refl
pool_used-retain p (r ∷ rules) = ground (arith, pool_used-retain p rules)

total-remove_at-le : (i : ℕ) (rules : List StoredRewrite) → total (remove_at i rules) ≤ total rules
unfolding pool_used
total-remove_at-le i [] = omega arith
total-remove_at-le zero (r ∷ rules) = omega arith
total-remove_at-le (suc i) (r ∷ rules) = omega (arith, total-remove_at-le i rules)

length-remove_at :
    (i : ℕ) (rules : List StoredRewrite) (r : StoredRewrite)
    → get_elem? rules i ≡ some r
    → suc (length (remove_at i rules)) ≡ length rules
length-remove_at i [] r h = absurd (cc)
length-remove_at zero (q ∷ rules) r h = refl
length-remove_at (suc i) (q ∷ rules) r h = ap suc (length-remove_at i rules r h)

All-remove_at :
    (i : ℕ) (rules : List StoredRewrite) → All IsReadable rules → All IsReadable (remove_at i rules)
All-remove_at i [] h = tt
All-remove_at zero (q ∷ rules) h = h.1
All-remove_at (suc i) (q ∷ rules) h = (h.0, All-remove_at i rules h.1)

-- A rule that validate_rule lets pass can be read back.
validate_rule-IsReadable :
    (r : RewriteRule) → validate_rule r ≡ ok tt → IsReadable (rewrite_to_stored r)
unfolding validate_rule rewrite_to_stored
validate_rule-IsReadable r h = ground arith

-- What FitsBox says of the list, but for the keys.
abbrev Fitting : List StoredRewrite → Type 0
Fitting rules =
    (length rules ≤ rewrite_max_entries)
    × (total rules ≤ rewrite_payload_pool)
    × All IsReadable rules

append-Fitting :
    (rules : List StoredRewrite) (rule : StoredRewrite)
    → length rules < rewrite_max_entries
    → total rules + length rule.payload ≤ rewrite_payload_pool
    → All IsReadable rules
    → IsReadable rule
    → Fitting (rules ++ (rule ∷ []))
append-Fitting rules rule n t h r = (
  omega (arith, length-append rules (rule ∷ [])),
  omega (arith, total-append rules rule),
  All-append IsReadable rules (rule ∷ []) h (r, tt),
)

module _ (rule : StoredRewrite) (s : DesiredState) (fits : FitsBox s) where
  -- A rule that the pool and the table have room for.
  module _ (readable : IsReadable rule)
      (free : length rule.payload ≤ rewrite_payload_pool - rewrite_pool_used_except (key rule) s)
      (slot : (negate (holds_rewrite (key rule) s) && leb rewrite_max_entries (rewrite_count s))
        ≡ false) where
    apply_rewrite-Fitting : Fitting (apply_rewrite rule s).0.rewrites
    unfolding rewrite_pool_used_except holds_rewrite rewrite_count apply_rewrite
    apply_rewrite-Fitting =
        let k : RewriteWireKey = key rule in
        let rules : List StoredRewrite = s.rewrites in
        let sole = IsUnique→IsSole key key_eq key_eq_iff k rules fits.unique in
        let used = pool_used-retain (λ r. negate (has_key k r)) rules in
        let found = any-position (has_key k) rules in
        elim (Option-cases (position (has_key k) rules)) [
          | inl e ↦
              let all : pool_used (λ r. negate (has_key k r)) rules ≡ total rules =
                used ∙ ap total (retain_others (has_key k) rules e) in
              let gone : any (has_key k) rules ≡ false = rw e at found in
              let few : length rules < rewrite_max_entries = ground (arith, rw gone at slot) in
              rw (apply_rewrite, e)
                (append-Fitting rules rule few (omega (arith, all, fits.pool)) fits.readable
                  readable)
          | inr (i, e) ↦
              let (r, at, has) = position-get_elem? (has_key k) rules i e in
              let others : pool_used (λ r. negate (has_key k r)) rules ≡ total (remove_at i rules) =
                used ∙ ap total (retain-remove_at (has_key k) rules i sole e) in
              elim (Bool-cases (rule_eq r rule)) [
                | inl f ↦ rw (apply_rewrite, e, at, f) (fits.count, fits.pool, fits.readable)
                | inr f ↦
                    rw (apply_rewrite, e, at, f)
                      (append-Fitting (remove_at i rules) rule
                        (omega (arith, length-remove_at i rules r at, fits.count))
                        (omega (arith, others, total-remove_at-le i rules, fits.pool))
                        (All-remove_at i rules fits.readable) readable)
              ]
        ]

    pub apply_rewrite-FitsBox : FitsBox (apply_rewrite rule s).0
    apply_rewrite-FitsBox = record {
      unique = apply_rewrite-HasUniqueRules rule s fits.unique;
      count = apply_rewrite-Fitting.0;
      pool = apply_rewrite-Fitting.1;
      readable = apply_rewrite-Fitting.2;
    }

payload_stored : (r : RewriteRule) → (rewrite_to_stored r).payload ≡ r.payload
unfolding rewrite_to_stored
payload_stored r = refl

set_rewrite_send-FitsBox :
    (sent : Bool) (r : RewriteRule) (s : DesiredState)
    → FitsBox s
    → FitsBox (apply_rewrite (rewrite_to_stored r) s).0
    → FitsBox (set_rewrite_send sent r s).0
unfolding set_rewrite_send
set_rewrite_send-FitsBox true r s fits after = after
set_rewrite_send-FitsBox false r s fits after =
    rw (restore_rewrite-apply_rewrite (rewrite_to_stored r) s fits.unique) fits

set_rewrite_checked-FitsBox :
    (sent : Bool) (r : RewriteRule) (s : DesiredState)
    → FitsBox s
    → IsReadable (rewrite_to_stored r)
    → FitsBox (set_rewrite_checked sent r s).0
unfolding set_rewrite_checked
set_rewrite_checked-FitsBox sent r s fits readable =
    let k = key (rewrite_to_stored r) in
    let free = rewrite_payload_pool - rewrite_pool_used_except k s in
    elim (Bool-cases (ltb free (length r.payload))) [
      | inl over ↦ rw over fits
      | inr enough ↦
          elim (Bool-cases
            (negate (holds_rewrite k s) && leb rewrite_max_entries (rewrite_count s))) [
              | inl full ↦ rw (enough, full) fits
              | inr slot ↦
                  let le : length r.payload ≤ free = ground (arith, enough) in
                  let stored : length (rewrite_to_stored r).payload ≤ free =
                    omega (arith, ap length (payload_stored r), le) in
                  rw (enough, slot)
                    (set_rewrite_send-FitsBox sent r s fits
                      (apply_rewrite-FitsBox (rewrite_to_stored r) s fits readable stored slot))
            ]
    ]

pub Result-cases :
    (m : Result RewriteError (Unit {0})) → (m ≡ ok tt) ⊎ ((e : RewriteError) × (m ≡ err e))
Result-cases (ok _) = inl refl
Result-cases (err e) = inr (e, refl)

-- Whatever the box answers and whether the send succeeds.
pub set_rewrite-FitsBox :
    (imperfect : Option Bool) (sent : Bool) (r : RewriteRule) (s : DesiredState)
    → FitsBox s
    → FitsBox (set_rewrite imperfect sent r s).0
unfolding set_rewrite
set_rewrite-FitsBox imperfect sent r s fits = elim (Result-cases (validate_rule r)) [
  | inr (e, h) ↦ rw (set_rewrite, h) fits
  | inl h ↦ elim (Result-cases (require_imperfect imperfect)) [
    | inr (e, g) ↦ rw (set_rewrite, h, g) fits
    | inl g ↦
        rw (set_rewrite, h, g)
          (set_rewrite_checked-FitsBox sent r s fits (validate_rule-IsReadable r h))
  ]
]

pub remove_rewrite-FitsBox :
    (k : RewriteWireKey) (s : DesiredState) → FitsBox s → FitsBox (remove_rewrite k s).0
unfolding remove_rewrite
remove_rewrite-FitsBox k s fits = elim (Option-cases (position (has_key k) s.rewrites)) [
  | inl e ↦ rw (remove_rewrite, e) fits
  | inr (i, e) ↦
      let (r, at, has) = position-get_elem? (has_key k) s.rewrites i e in
      let fewer = length-remove_at i s.rewrites r at in
      let smaller = total-remove_at-le i s.rewrites in
      rw (remove_rewrite, e)
        (record {
          unique = remove_at-IsUnique key key_eq key_eq_iff i s.rewrites fits.unique;
          count = omega (arith, fewer, fits.count);
          pool = omega (arith, smaller, fits.pool);
          readable = All-remove_at i s.rewrites fits.readable;
        })
]

pub clear_rewrites-FitsBox : (s : DesiredState) → FitsBox (clear_rewrites s)
unfolding clear_rewrites pool_used
clear_rewrites-FitsBox s = record {
  unique = tt;
  count = omega arith;
  pool = omega arith;
  readable = tt;
}
