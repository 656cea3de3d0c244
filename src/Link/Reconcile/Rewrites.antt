-- ===== src/Link/Reconcile/Rewrites.antt =====
-- The rewrite rules that src/link/reconcile.rs holds for replay, in the box's order.
use medius.Base.{ℕ, ◌+◌, min, ◌≡◌, ◌↔◌, ap, ◌∙◌, arith, Bool, true, false, ◌&&◌, negate}
use medius.Base.{if◌then◌else◌, ◌==◌, Option, none, some, List, [], ◌∷◌, ◌++◌, any, retain, length}
use medius.Base.{append_empty, get_elem?, insert_at, remove_at, Bool-cases, Option-cases, inl, inr}
use medius.Base.Options.{position, ◌>>=◌}
use medius.Base.Keyed.{
  bytes_eq, bytes_eq_iff, matches, IsUnique, IsUnique→IsSole, matches_self, position-get_elem?,
  retain_others, retain-remove_at, position-remove_at, insert_at-remove_at, retain-append,
  remove_at-IsUnique, append-IsUnique,
}
use medius.Link.Reconcile.State.{DesiredState, StoredRewrite}

abbrev pub RewriteWireKey : Type 0
RewriteWireKey = ℕ × ℕ × ℕ × List ℕ × List ℕ

unfoldable pub key : StoredRewrite → RewriteWireKey
key r = (r.class, r.id, r.direction, r.match_bytes, r.mask)

unfoldable pub key_eq : RewriteWireKey → RewriteWireKey → Bool
key_eq (c, i, d, m, k) (c', i', d', m', k') =
    (c == c') && ((i == i') && ((d == d') && (bytes_eq m m' && bytes_eq k k')))

unfoldable pub rule_eq : StoredRewrite → StoredRewrite → Bool
unfolding key_eq key
rule_eq r q =
    key_eq (key r) (key q)
    && ((r.action == q.action) && ((r.offset == q.offset) && bytes_eq r.payload q.payload))

-- `|r| r.key() == key`
abbrev pub has_key : RewriteWireKey → StoredRewrite → Bool
has_key k = matches key key_eq k

pub record RewriteUndo : Type 0 where
  pub undo_key : RewriteWireKey
  pub prior : Option (ℕ × StoredRewrite)

-- The rule at `i`, with its place, as `remove(i)` returns it.
unfoldable pub placed : List StoredRewrite → ℕ → Option (ℕ × StoredRewrite)
placed rules i = do r ← get_elem? rules i; some (i, r)

unfoldable pub apply_rewrite : StoredRewrite → DesiredState → DesiredState × RewriteUndo
unfolding key key_eq rule_eq placed
apply_rewrite rule s = elim (position (has_key (key rule)) s.rewrites) [
  | none ↦ (
    record s { rewrites = s.rewrites ++ (rule ∷ []) },
    record { undo_key = key rule; prior = none },
  )
  | some i ↦
      if elim (get_elem? s.rewrites i) [ none ↦ false | some r ↦ rule_eq r rule ]
      then (s, record { undo_key = key rule; prior = some (i, rule) })
      else (
        record s { rewrites = remove_at i s.rewrites ++ (rule ∷ []) },
        record { undo_key = key rule; prior = placed s.rewrites i },
      )
]

unfoldable pub remove_rewrite : RewriteWireKey → DesiredState → DesiredState × RewriteUndo
unfolding key key_eq placed
remove_rewrite k s = elim (position (has_key k) s.rewrites) [
  | none ↦ (s, record { undo_key = k; prior = none })
  | some i ↦ (
    record s { rewrites = remove_at i s.rewrites },
    record { undo_key = k; prior = placed s.rewrites i },
  )
]

unfoldable pub restored : RewriteUndo → List StoredRewrite → List StoredRewrite
unfolding key key_eq
restored undo rules =
    let kept : List StoredRewrite = retain (λ r. negate (has_key undo.undo_key r)) rules in
    elim undo.prior [ none ↦ kept | some p ↦ insert_at (min p.0 (length kept)) p.1 kept ]

unfoldable pub restore_rewrite : RewriteUndo → DesiredState → DesiredState
unfolding restored
restore_rewrite undo s = record s { rewrites = restored undo s.rewrites }

unfoldable pub clear_rewrites : DesiredState → DesiredState
clear_rewrites s = record s { rewrites = [] }

unfoldable pub holds_rewrite : RewriteWireKey → DesiredState → Bool
unfolding key key_eq
holds_rewrite k s = any (has_key k) s.rewrites

unfoldable pub rewrite_count : DesiredState → ℕ
rewrite_count s = length s.rewrites

-- The sum over the rules that `filter` keeps.
unfoldable pub pool_used : (StoredRewrite → Bool) → List StoredRewrite → ℕ
pool_used keep [] = 0
pool_used keep (r ∷ rules) = (if keep r then length r.payload else 0) + pool_used keep rules

unfoldable pub rewrite_pool_used_except : RewriteWireKey → DesiredState → ℕ
unfolding key key_eq pool_used
rewrite_pool_used_except k s = pool_used (λ r. negate (has_key k r)) s.rewrites

pub key_eq_iff : (a b : RewriteWireKey) → (key_eq a b ≡ true) ↔ (a ≡ b)
unfolding key_eq
key_eq_iff (c, i, d, m, k) (c', i', d', m', k') =
    ground (arith, bytes_eq_iff m m', bytes_eq_iff k k')

rule_eq→eq : (r q : StoredRewrite) → rule_eq r q ≡ true → r ≡ q
unfolding rule_eq key_eq key
rule_eq→eq r q h = ground (
  arith,
  h,
  bytes_eq_iff r.match_bytes q.match_bytes,
  bytes_eq_iff r.mask q.mask,
  bytes_eq_iff r.payload q.payload,
)

abbrev pub HasUniqueRules : DesiredState → Type 0
HasUniqueRules s = IsUnique key key_eq s.rewrites

-- The rules that `restore_rewrite` keeps once a rule of the key was appended to others.
kept_append :
    (k : RewriteWireKey) (rule : StoredRewrite) (rules : List StoredRewrite)
    → has_key k rule ≡ true
    → position (has_key k) rules ≡ none
    → retain (λ r. negate (has_key k r)) (rules ++ (rule ∷ [])) ≡ rules
kept_append k rule rules self free = ground (
  arith,
  retain-append (λ r. negate (has_key k r)) rules (rule ∷ []),
  self,
  retain_others (has_key k) rules free,
  append_empty rules,
)

-- With one rule to a key, undoing a rule that was just set gives back the whole state, the order
-- of the rules included.
pub restore_rewrite-apply_rewrite :
    (rule : StoredRewrite) (s : DesiredState)
    → HasUniqueRules s
    → restore_rewrite (apply_rewrite rule s).1 (apply_rewrite rule s).0 ≡ s
unfolding restore_rewrite restored apply_rewrite placed
restore_rewrite-apply_rewrite rule s u =
    let k : RewriteWireKey = key rule in
    let rules : List StoredRewrite = s.rewrites in
    let self : has_key k rule ≡ true = matches_self key key_eq key_eq_iff rule in
    let sole = IsUnique→IsSole key key_eq key_eq_iff k rules u in
    let with_rules : List StoredRewrite → DesiredState = λ l. record s { rewrites = l } in
    elim (Option-cases (position (has_key k) rules)) [
      | inl e ↦ rw (apply_rewrite, e) (ap with_rules (kept_append k rule rules self e))
      | inr (i, e) ↦
          let (r, at, has) = position-get_elem? (has_key k) rules i e in
          elim (Bool-cases (rule_eq r rule)) [
            | inl f ↦
                let here : get_elem? rules i ≡ some rule = at ∙ ap some (rule_eq→eq r rule f) in
                rw (apply_rewrite, e, at, f, retain-remove_at (has_key k) rules i sole e)
                  (ap with_rules (insert_at-remove_at rules i rule here))
            | inr f ↦
                let free = position-remove_at (has_key k) rules i sole e in
                rw (apply_rewrite, e, at, f, kept_append k rule (remove_at i rules) self free)
                  (ap with_rules (insert_at-remove_at rules i r at))
          ]
    ]

-- Undoing a removal puts the rule back where it was.
pub restore_rewrite-remove_rewrite :
    (k : RewriteWireKey) (s : DesiredState)
    → HasUniqueRules s
    → restore_rewrite (remove_rewrite k s).1 (remove_rewrite k s).0 ≡ s
unfolding restore_rewrite restored remove_rewrite placed
restore_rewrite-remove_rewrite k s u =
    let rules : List StoredRewrite = s.rewrites in
    let sole = IsUnique→IsSole key key_eq key_eq_iff k rules u in
    let with_rules : List StoredRewrite → DesiredState = λ l. record s { rewrites = l } in
    elim (Option-cases (position (has_key k) rules)) [
      | inl e ↦ rw (remove_rewrite, e) (ap with_rules (retain_others (has_key k) rules e))
      | inr (i, e) ↦
          let (r, at, has) = position-get_elem? (has_key k) rules i e in
          let free = position-remove_at (has_key k) rules i sole e in
          rw (remove_rewrite, e, at, retain_others (has_key k) (remove_at i rules) free)
            (ap with_rules (insert_at-remove_at rules i r at))
    ]

-- Setting a rule keeps one rule to a key.
pub apply_rewrite-HasUniqueRules :
    (rule : StoredRewrite) (s : DesiredState)
    → HasUniqueRules s
    → HasUniqueRules (apply_rewrite rule s).0
unfolding apply_rewrite
apply_rewrite-HasUniqueRules rule s u =
    let k : RewriteWireKey = key rule in
    let rules : List StoredRewrite = s.rewrites in
    let sole = IsUnique→IsSole key key_eq key_eq_iff k rules u in
    elim (Option-cases (position (has_key k) rules)) [
      | inl e ↦ rw (apply_rewrite, e) (append-IsUnique key key_eq key_eq_iff rule rules e u)
      | inr (i, e) ↦
          let free = position-remove_at (has_key k) rules i sole e in
          let moved =
            append-IsUnique key key_eq key_eq_iff rule (remove_at i rules) free
              (remove_at-IsUnique key key_eq key_eq_iff i rules u) in
          elim (Bool-cases
            (elim (get_elem? rules i) as (λ o. Bool) [ none ↦ false | some r ↦ rule_eq r rule ])) [
              | inl f ↦ rw (apply_rewrite, e, f) u
              | inr f ↦ rw (apply_rewrite, e, f) moved
            ]
    ]
