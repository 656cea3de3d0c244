-- ===== src/Link/Correlation/Replies.antt =====
-- A request's entry in src/link/correlation.rs, from its register to its reply or its cancel.
use medius.Base.{ℕ, ◌<◌, ◌≡◌, ◌≢◌, refl, ◌∙◌, arith, true, false, ◌&&◌, ◌⊎◌, inl, inr}
use medius.Base.{
  if◌then◌else◌, ◌==◌, ==_refl, ==_iff, Option, none, some, List, [], ◌∷◌, ◌++◌, Bool-cases,
  Option-cases,
}
use medius.Base.Map.{
  Map, lookup, remove, IsSorted, lookup-insert, lookup-remove, contains_key-lookup,
}
use medius.Base.Entries.{remove-insert, lookup_inserted}
use medius.Base.Keys.{nat_key}
use medius.Protocol.Opcode.{FrameType}
use medius.Link.Correlation.{
  PendingEntry, Pending, hello_seq, take_seq, register, cancel, expects, deliver,
}
use medius.Link.Correlation.Seq.{is_free, take_seq_bounds, take_seq_free}

-- The table in key order, and the counter one byte.
abbrev pub IsTable : Pending → Type 0
IsTable s = IsSorted s.pending × (s.seq_counter < 256)

-- The entry that a request waits in.
abbrev pub entry_of : FrameType → ℕ → Pending → PendingEntry
entry_of ty what s = record { gen_id = s.query_gen; expected_ty = ty; expected_what = what }

free_absent :
    (pending : Map ℕ PendingEntry) (seq : ℕ)
    → is_free pending seq ≡ true
    → lookup seq pending ≡ none
free_absent pending seq f = elim (Option-cases (lookup seq pending)) [
  | inl e ↦ e
  | inr (v, e) ↦ absurd (ground (arith, f, e, contains_key-lookup seq pending))
]

-- With the table in key order, the counter one byte and some SEQ free, a request takes a SEQ that
-- no reply waits on and that is not the hello's; the table then has the request's entry there, and
-- is as before at every other SEQ.
pub register_free :
    (ty : FrameType) (what : ℕ) (s : Pending) (free q : ℕ)
    → IsTable s
    → free < 256
    → is_free s.pending free ≡ true
    → (let (after, seq, gen_id) = register ty what s in
        (lookup seq s.pending ≡ none)
        × (seq ≢ hello_seq)
        × (lookup q after.pending
            ≡ (if seq == q then some (entry_of ty what s) else lookup q s.pending)))
unfolding register
register_free ty what s free q h lt f =
    let seq : ℕ = (take_seq s.pending s.seq_counter).0 in
    (
      free_absent s.pending seq (take_seq_free s.pending s.seq_counter free h.1 lt f),
      (take_seq_bounds s.pending s.seq_counter h.1).1,
      lookup-insert seq q (entry_of ty what s) s.pending,
    )

deliver_expected :
    (ty : FrameType) (seq : ℕ) (payload : List ℕ) (s : Pending) (e : PendingEntry)
    → lookup seq s.pending ≡ some e
    → expects e ty payload ≡ true
    → ((deliver ty seq payload s).pending ≡ remove seq s.pending)
      × ((deliver ty seq payload s).sent ≡ s.sent ++ ((e.gen_id, payload) ∷ []))
unfolding deliver
deliver_expected ty seq payload s e h x = rw (deliver, h, x) (refl, refl)

cancel_own :
    (seq : ℕ) (s : Pending) (e : PendingEntry)
    → lookup seq s.pending ≡ some e
    → (cancel seq e.gen_id s).pending ≡ remove seq s.pending
unfolding cancel
cancel_own seq s e h = rw (cancel, h, ==_refl e.gen_id) refl

-- With the table in key order, the counter one byte and some SEQ free, the reply that a request
-- waits on goes to its channel once, and the table is then as before the request.
pub deliver-register :
    (ty : FrameType) (what free : ℕ) (payload : List ℕ) (s : Pending)
    → IsTable s
    → free < 256
    → is_free s.pending free ≡ true
    → expects (entry_of ty what s) ty payload ≡ true
    → (let (after, seq, gen_id) = register ty what s in
        let done : Pending = deliver ty seq payload after in
        (done.pending ≡ s.pending) × (done.sent ≡ s.sent ++ ((gen_id, payload) ∷ [])))
unfolding register deliver
deliver-register ty what free payload s h lt f x =
    let seq : ℕ = (take_seq s.pending s.seq_counter).0 in
    let new : PendingEntry = entry_of ty what s in
    let absent : lookup seq s.pending ≡ none =
      free_absent s.pending seq (take_seq_free s.pending s.seq_counter free h.1 lt f) in
    let found = lookup_inserted seq new s.pending in
    let (table, sent) = deliver_expected ty seq payload (register ty what s).0 new found x in
    (table ∙ remove-insert seq new s.pending h.0 absent, sent)

-- A request that is cancelled leaves the table as it was.
pub cancel-register :
    (ty : FrameType) (what free : ℕ) (s : Pending)
    → IsTable s
    → free < 256
    → is_free s.pending free ≡ true
    → (let (after, seq, gen_id) = register ty what s in
        (cancel seq gen_id after).pending ≡ s.pending)
unfolding register cancel
cancel-register ty what free s h lt f =
    let seq : ℕ = (take_seq s.pending s.seq_counter).0 in
    let new : PendingEntry = entry_of ty what s in
    let absent : lookup seq s.pending ≡ none =
      free_absent s.pending seq (take_seq_free s.pending s.seq_counter free h.1 lt f) in
    let found = lookup_inserted seq new s.pending in
    cancel_own seq (register ty what s).0 new found ∙ remove-insert seq new s.pending h.0 absent

-- A reply takes out the entry under its own SEQ when its type and first byte are those the entry
-- waits on, and changes no other entry.
pub lookup-deliver :
    (ty : FrameType) (seq q : ℕ) (payload : List ℕ) (s : Pending)
    → lookup q (deliver ty seq payload s).pending
      ≡ elim (lookup q s.pending) as (λ o. Option PendingEntry) [
        | none ↦ none
        | some e ↦ if (seq == q) && expects e ty payload then none else some e
      ]
unfolding deliver
lookup-deliver ty seq q payload s = elim (Option-cases (lookup seq s.pending)) [
  | inl e ↦ rw (deliver, e) (ground (arith, e))
  | inr (v, e) ↦ elim (Bool-cases (expects v ty payload)) [
    | inl x ↦ rw (deliver, e, x) (ground (arith, e, x, lookup-remove seq q s.pending))
    | inr x ↦ rw (deliver, e, x) (unexpected (Option-cases (lookup q s.pending)) v e x)
  ]
]
  where
    unexpected :
        ((lookup q s.pending ≡ none) ⊎ ((w : PendingEntry) × (lookup q s.pending ≡ some w)))
        → (v : PendingEntry) → lookup seq s.pending ≡ some v
        → expects v ty payload ≡ false
        → lookup q s.pending ≡ elim (lookup q s.pending) as (λ o. Option PendingEntry) [
          | none ↦ none
          | some e ↦ if (seq == q) && expects e ty payload then none else some e
        ]
    unexpected (inl f) v e x = rw f refl
    unexpected (inr (w, f)) v e x = elim (Bool-cases (seq == q)) [
      | inl t ↦
          let p : seq ≡ q = (==_iff seq q).0 t in
          let same : expects w ty payload ≡ false = cc (p, e, f, x) in rw (f, t, same) refl
      | inr t ↦ rw (f, t) refl
    ]
