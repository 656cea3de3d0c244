-- ===== src/Link/Correlation/Seq.antt =====
-- The SEQ that register of src/link/correlation.rs takes.
use medius.Base.{
  ℕ, zero, suc, ◌+◌, ◌-◌, ◌<◌, ◌%◌, ◌≡◌, ◌≢◌, refl, ap, ◌∙◌, arith, Bool, true, ◌&&◌, negate,
}
use medius.Base.{◌==◌, Bool-cases, inl, inr}
use medius.Base.Map.{Map, contains_key}
use medius.Base.Keys.{nat_key}
use medius.Link.Correlation.{PendingEntry, hello_seq, next_u8, search, settle, take_seq}

-- A SEQ that `register` may take.
abbrev pub is_free : Map ℕ PendingEntry → ℕ → Bool
is_free pending seq = negate (seq == hello_seq) && negate (contains_key seq pending)

search_next :
    (k : ℕ) (pending : Map ℕ PendingEntry) (seq : ℕ)
    → seq < 256
    → ((search k pending seq (next_u8 seq)).0 < 256)
      × ((search k pending seq (next_u8 seq)).1 ≡ next_u8 (search k pending seq (next_u8 seq)).0)
unfolding search
search_next zero pending seq h = (h, refl)
search_next (suc k) pending seq h = elim (Bool-cases (is_free pending seq)) [
  | inl e ↦ rw e (h, refl)
  | inr e ↦ rw e (search_next k pending (next_u8 seq) (omega arith))
]

-- The search takes a free SEQ that stands fewer than `k` turns ahead.
search_finds :
    (k : ℕ) (pending : Map ℕ PendingEntry) (seq d q : ℕ)
    → is_free pending q ≡ true
    → d < k
    → seq < 256
    → q ≡ (seq + d) % 256
    → is_free pending (search k pending seq (next_u8 seq)).0 ≡ true
unfolding search
search_finds zero pending seq d q f lt h e = absurd (omega (arith, lt))
search_finds (suc k) pending seq zero q f lt h e =
    let same : seq ≡ q = omega (arith, e, h) in
    let here : is_free pending seq ≡ true = ap (is_free pending) same ∙ f in rw (here, here) refl
search_finds (suc k) pending seq (suc d) q f lt h e = elim (Bool-cases (is_free pending seq)) [
  | inl t ↦ rw (t, t) refl
  | inr t ↦ rw t (
      search_finds k pending (next_u8 seq) d q f (omega (arith, lt)) (omega arith)
        (omega (arith, e)))
]

settle_bounds :
    (seq counter : ℕ)
    → seq < 256
    → counter ≡ next_u8 seq
    → ((settle (seq, counter)).0 < 256)
      × ((settle (seq, counter)).0 ≢ hello_seq)
      × ((settle (seq, counter)).1 < 256)
unfolding settle
settle_bounds seq counter h e = ground (arith, h, e)

settle_free :
    (pending : Map ℕ PendingEntry) (seq counter : ℕ)
    → is_free pending seq ≡ true
    → is_free pending (settle (seq, counter)).0 ≡ true
unfolding settle
settle_free pending seq counter f = elim (Bool-cases (seq == hello_seq)) [
  | inl e ↦ absurd (ground (arith, f, e))
  | inr e ↦ rw (e, f) refl
]

-- The SEQ taken is one byte and never the hello's, and the counter stays one byte.
pub take_seq_bounds :
    (pending : Map ℕ PendingEntry) (counter : ℕ)
    → counter < 256
    → ((take_seq pending counter).0 < 256)
      × ((take_seq pending counter).0 ≢ hello_seq)
      × ((take_seq pending counter).1 < 256)
unfolding take_seq
take_seq_bounds pending counter h =
    let next = search_next 256 pending counter h in
    let found : ℕ × ℕ = search 256 pending counter (next_u8 counter) in
    settle_bounds found.0 found.1 next.0 next.1

-- While some SEQ is free, the one taken is free.
pub take_seq_free :
    (pending : Map ℕ PendingEntry) (counter q : ℕ)
    → counter < 256
    → q < 256
    → is_free pending q ≡ true
    → is_free pending (take_seq pending counter).0 ≡ true
unfolding take_seq
take_seq_free pending counter q h lt f =
    let d : ℕ = (q + 256 - counter) % 256 in
    let found : ℕ × ℕ = search 256 pending counter (next_u8 counter) in
    settle_free pending found.0 found.1
      (search_finds 256 pending counter d q f (omega arith) h (omega (arith, h, lt)))
