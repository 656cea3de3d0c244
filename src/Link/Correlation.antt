-- ===== src/Link/Correlation.antt =====
-- src/link/correlation.rs: the table of replies that the library waits on, by the SEQ of the request.
-- A reply's channel is named by the generation of its entry.
use medius.Base.{
  ℕ, zero, suc, ◌+◌, ◌%◌, ◌^◌, ◌≡◌, arith, Bool, true, false, ◌&&◌, ◌||◌, negate, if◌then◌else◌,
  ◌==◌,
}
use medius.Base.{Option, none, some, List, [], ◌∷◌, ◌++◌, get_elem?, drop}
use medius.Base.Map.{Map, Key, lookup, contains_key, insert, remove}
use medius.Base.Keys.{nat_key}
use medius.Protocol.Opcode.{FrameType, as_u8}
pub mod Seq
pub mod Replies
pub mod Runs

pub record PendingEntry : Type 0 where
  pub gen_id : ℕ
  pub expected_ty : FrameType
  pub expected_what : ℕ

-- The counters and the table that `register`, `cancel` and `deliver` share, with the payloads sent
-- on the entries' channels so far, the newest last.
pub record Pending : Type 0 where
  pub pending : Map ℕ PendingEntry
  pub query_gen : ℕ
  pub seq_counter : ℕ
  pub sent : List (ℕ × List ℕ)

abbrev pub hello_seq : ℕ
hello_seq = 0

-- The value that `fetch_add(1)` leaves in a `u8`; it returns the one before.
abbrev pub next_u8 : ℕ → ℕ
next_u8 c = (c + 1) % 256

-- `for _ in 0..k`, on the candidate and the counter.
unfoldable pub search : ℕ → Map ℕ PendingEntry → ℕ → ℕ → ℕ × ℕ
search zero pending seq counter = (seq, counter)
search (suc k) pending seq counter =
    let rest = search k pending counter (next_u8 counter) in
    if negate (seq == hello_seq) && negate (contains_key seq pending) then (seq, counter) else rest

-- The hello's SEQ is passed over once more when the search ends on it.
unfoldable pub settle : ℕ × ℕ → ℕ × ℕ
settle (seq, counter) = if seq == hello_seq then (counter, next_u8 counter) else (seq, counter)

-- The SEQ that `register` takes, and the counter after it.
unfoldable pub take_seq : Map ℕ PendingEntry → ℕ → ℕ × ℕ
unfolding search settle
take_seq pending counter = settle (search 256 pending counter (next_u8 counter))

-- The new state, with the SEQ and the generation.
unfoldable pub register : FrameType → ℕ → Pending → Pending × ℕ × ℕ
unfolding take_seq
register expected_ty expected_what s =
    let taken : ℕ × ℕ = take_seq s.pending s.seq_counter in
    (
      record s {
        query_gen = (s.query_gen + 1) % 2 ^ 64;
        seq_counter = taken.1;
        pending =
            insert taken.0
              (record {
                gen_id = s.query_gen;
                expected_ty = expected_ty;
                expected_what = expected_what;
              })
              s.pending;
      },
      taken.0,
      s.query_gen,
    )

unfoldable pub cancel : ℕ → ℕ → Pending → Pending
cancel seq gen_id s =
    if elim (lookup seq s.pending) [ none ↦ false | some e ↦ e.gen_id == gen_id ]
    then record s { pending = remove seq s.pending }
    else s

-- Whether a reply of this type and first byte is the one an entry waits on.
unfoldable pub expects : PendingEntry → FrameType → List ℕ → Bool
unfolding as_u8
expects e ty payload =
    (as_u8 e.expected_ty == as_u8 ty)
    && elim (get_elem? payload 0) [ none ↦ false | some what ↦ what == e.expected_what ]

unfoldable pub deliver : FrameType → ℕ → List ℕ → Pending → Pending
unfolding expects
deliver ty seq payload s = elim (lookup seq s.pending) [
  | none ↦ s
  | some e ↦
      if expects e ty payload
      then record s { pending = remove seq s.pending; sent = s.sent ++ ((e.gen_id, payload) ∷ []) }
      else s
]

-- A reply too short for a status reads as refused.
unfoldable pub split_transfer_resp : List ℕ → ℕ × List ℕ
split_transfer_resp payload =
    (elim (get_elem? payload 1) [ none ↦ 0xFC | some status ↦ status ], drop 2 payload)
