-- ===== src/Device/Clip/Chunks.antt =====
-- The pieces of `encode_chunks` in src/device/clip.rs: whole entries, in order, in bounded pieces.
use medius.Base.{ℕ, ◌+◌, ◌≤◌, ◌≡◌, refl, sym, ap, ◌∙◌, arith, true, false, ◌&&◌, ltb}
use medius.Base.{
  List, [], ◌∷◌, ◌++◌, map, length, length-append, All, All-append, append_empty, Result, ok, err,
  Bool-cases, inl, inr, ◌⊎◌,
}
use mathlib.Core.Path.{subst}
use medius.Protocol.Command.{word_le}
use medius.Protocol.Opcode.{max_payload}
use medius.Types.Clip.Frames.{has_items, ClipEntry}
use medius.Device.Clip.Encode.{
  EncodeError, encode_entry, chunk_step, chunk_all, close_chunk, encode_chunks,
}
use medius.Device.Clip.Lengths.{length-encode_frame, byte_len-positive}

abbrev pub flatten {ℓ} : {A : Type ℓ} → List (List A) → List A
flatten [] = []
flatten (xs ∷ xss) = xs ++ flatten xss

-- The entries encoded one by one, up to the first that is refused.
unfoldable pub encode_all : List ClipEntry → Result EncodeError (List (List ℕ))
encode_all [] = ok []
encode_all (e ∷ es) = elim (encode_entry e) [
  | err x ↦ err x
  | ok entry ↦ elim (encode_all es) [ err x ↦ err x | ok rest ↦ ok (entry ∷ rest) ]
]

-- The pieces are the entries in order, none of them split, each piece with some entry and at most
-- `limit` bytes long.
abbrev pub ArePieces : ℕ → List (List ℕ) → List (List ℕ) → Type 0
ArePieces limit entries chunks =
    (groups : List (List (List ℕ))) × (flatten groups ≡ entries)
    × (map flatten groups ≡ chunks)
    × All (λ c. (1 ≤ length c) × (length c ≤ limit)) chunks

append_assoc {ℓ} : {A : Type ℓ} (xs ys zs : List A) → (xs ++ ys) ++ zs ≡ xs ++ (ys ++ zs)
append_assoc [] ys zs = refl
append_assoc (x ∷ xs) ys zs = ap (x ∷◌) (append_assoc xs ys zs)

flatten-append {ℓ} :
    {A : Type ℓ} (xss : List (List A)) (xs : List A)
    → flatten (xss ++ (xs ∷ [])) ≡ flatten xss ++ xs
flatten-append [] xs = append_empty xs
flatten-append (ys ∷ xss) xs =
    ap (ys ++◌) (flatten-append xss xs) ∙ sym (append_assoc ys (flatten xss) xs)

map-flatten-append :
    (gs : List (List (List ℕ))) (g : List (List ℕ))
    → map flatten (gs ++ (g ∷ [])) ≡ map flatten gs ++ (flatten g ∷ [])
map-flatten-append [] g = refl
map-flatten-append (h ∷ gs) g = ap (flatten h ∷◌) (map-flatten-append gs g)

-- What the loop has after the entries so far: the pieces, and the entries of the open one.
abbrev Loop : ℕ → List (List ℕ) → List (List ℕ) × List ℕ → Type 0
Loop limit entries acc =
    (groups : List (List (List ℕ))) × (open_group : List (List ℕ)) × (flatten groups ++ open_group
      ≡ entries)
    × (map flatten groups ≡ acc.0)
    × (flatten open_group ≡ acc.1)
    × (length open_group ≤ length acc.1)
    × (length acc.1 ≤ limit)
    × All (λ c. (1 ≤ length c) × (length c ≤ limit)) acc.0

has_items-length : (xs : List ℕ) → has_items xs ≡ true → 1 ≤ length xs
unfolding has_items
has_items-length [] h = absurd (cc h)
has_items-length (x ∷ xs) h = omega arith

no_items-length : (xs : List ℕ) → has_items xs ≡ false → length xs ≡ 0
unfolding has_items
no_items-length [] h = refl
no_items-length (x ∷ xs) h = absurd (cc h)

-- An entry that closes no piece has room in the open one.
room-le :
    (cur entry : List ℕ) (limit : ℕ)
    → (has_items cur && ltb limit (length cur + length entry)) ≡ false
    → length entry ≤ limit
    → length cur + length entry ≤ limit
room-le cur entry limit room fits = elim (Bool-cases (has_items cur)) [
  | inl items ↦ ground (arith, room, items)
  | inr empty ↦ omega (arith, no_items-length cur empty, fits)
]

module _ (limit : ℕ) where
  chunk_step-Loop :
      (entries : List (List ℕ)) (acc : List (List ℕ) × List ℕ) (entry : List ℕ)
      → 1 ≤ length entry
      → length entry ≤ limit
      → Loop limit entries acc
      → Loop limit (entries ++ (entry ∷ [])) (chunk_step limit acc entry)
  unfolding chunk_step
  chunk_step-Loop entries (out, cur) entry some_byte fits
        (groups, group, order, pieces, open_bytes, few, short, bounded) =
      elim (Bool-cases (has_items cur && ltb limit (length cur + length entry))) [
        | inl full ↦
            let items : has_items cur ≡ true = ground (arith, full) in
            rw (chunk_step, full)
              (
                groups ++ (group ∷ []),
                entry ∷ [],
                ap (λ g. g ++ (entry ∷ [])) (flatten-append groups group ∙ order),
                map-flatten-append groups group
                    ∙ (ap (λ o. o ++ (flatten group ∷ [])) pieces
                        ∙ ap (λ c. out ++ (c ∷ [])) open_bytes),
                append_empty entry,
                some_byte,
                fits,
                All-append _ out (cur ∷ []) bounded ((has_items-length cur items, short), tt),
              )
        | inr room ↦
            let within : length cur + length entry ≤ limit = room-le cur entry limit room fits in
            rw (chunk_step, room)
              (
                groups,
                group ++ (entry ∷ []),
                sym (append_assoc (flatten groups) group (entry ∷ []))
                    ∙ ap (λ g. g ++ (entry ∷ [])) order,
                pieces,
                flatten-append group entry ∙ ap (λ c. c ++ entry) open_bytes,
                omega (
                  arith,
                  length-append group (entry ∷ []),
                  length-append cur entry,
                  few,
                  some_byte,
                ),
                omega (arith, length-append cur entry, within),
                bounded,
              )
      ]

  close_chunk-ArePieces :
      (entries : List (List ℕ)) (acc : List (List ℕ) × List ℕ)
      → Loop limit entries acc
      → ArePieces limit entries (close_chunk acc)
  unfolding close_chunk
  close_chunk-ArePieces entries (out, cur)
        (groups, group, order, pieces, open_bytes, few, short, bounded) =
      elim (Bool-cases (has_items cur)) [
        | inl items ↦
            rw (close_chunk, items)
              (
                groups ++ (group ∷ []),
                flatten-append groups group ∙ order,
                map-flatten-append groups group
                    ∙ (ap (λ o. o ++ (flatten group ∷ [])) pieces
                        ∙ ap (λ c. out ++ (c ∷ [])) open_bytes),
                All-append _ out (cur ∷ []) bounded ((has_items-length cur items, short), tt),
              )
        | inr empty ↦
            let none : group ≡ [] =
              length-zero group (omega (arith, few, no_items-length cur empty)) in
            rw (close_chunk, empty)
              (
                groups,
                sym (append_empty (flatten groups)) ∙ (ap (flatten groups ++◌) (sym none) ∙ order),
                pieces,
                bounded,
              )
      ]
    where
      length-zero : (g : List (List ℕ)) → length g ≡ 0 → g ≡ []
      length-zero [] h = refl
      length-zero (x ∷ g) h = absurd (omega (arith, h))

encode_entry-length :
    (e : ClipEntry) (entry : List ℕ)
    → encode_entry e ≡ ok entry
    → (1 ≤ length entry) × (length entry ≤ max_payload)
unfolding encode_entry
encode_entry-length (ClipEntry.gap n) entry h =
    let same : (0 ∷ word_le n) ≡ entry = cc h in
    (omega (arith, ap length (sym same)), omega (arith, ap length (sym same)))
encode_entry-length (ClipEntry.frame f) entry h =
    let (long, short) = length-encode_frame f entry h in
    (omega (arith, long, byte_len-positive f), short)

pub Result-cases :
    {A : Type 0} (r : Result EncodeError A)
    → ((a : A) × (r ≡ ok a)) ⊎ ((e : EncodeError) × (r ≡ err e))
Result-cases (ok a) = inl (a, refl)
Result-cases (err e) = inr (e, refl)

-- The loop against the entries encoded one by one.
chunk_all_lem :
    (es : List ClipEntry) (done : List (List ℕ)) (acc : List (List ℕ) × List ℕ)
    → Loop max_payload done acc
    → ((rest : List (List ℕ)) × (acc' : List (List ℕ) × List ℕ) × (encode_all es ≡ ok rest)
        × (chunk_all max_payload acc es ≡ ok acc')
        × Loop max_payload (done ++ rest) acc')
      ⊎ ((x : EncodeError) × (encode_all es ≡ err x) × (chunk_all max_payload acc es ≡ err x))
unfolding encode_all chunk_all
chunk_all_lem [] done acc loop =
    inl ([], acc, refl, refl, subst (λ d. Loop max_payload d acc) (sym (append_empty done)) loop)
chunk_all_lem (e ∷ es) done acc loop = elim (Result-cases (encode_entry e)) [
  | inr (x, h) ↦ rw (encode_all, chunk_all, h) (inr (x, refl, refl))
  | inl (entry, h) ↦
      let (some_byte, fits) = encode_entry-length e entry h in
      let next = chunk_step-Loop max_payload done acc entry some_byte fits loop in
      elim (chunk_all_lem es (done ++ (entry ∷ [])) (chunk_step max_payload acc entry) next) [
        | inl (rest, acc', h1, h2, end) ↦
            rw (encode_all, chunk_all, h, h1, h2)
              (inl (
                entry ∷ rest,
                acc',
                refl,
                refl,
                subst (λ d. Loop max_payload d acc') (append_assoc done (entry ∷ []) rest) end,
              ))
        | inr (x, h1, h2) ↦ rw (encode_all, chunk_all, h, h1, h2) (inr (x, refl, refl))
      ]
]

-- A clip is encoded just when each of its entries is, or refused with the refusal of the first
-- that is not; its pieces are the entries in order, none of them split, with 1 to 512 bytes each.
pub encode_chunks_lem :
    (es : List ClipEntry)
    → ((entries : List (List ℕ)) × (chunks : List (List ℕ)) × (encode_all es ≡ ok entries)
        × (encode_chunks max_payload es ≡ ok chunks)
        × ArePieces max_payload entries chunks)
      ⊎ ((x : EncodeError) × (encode_all es ≡ err x) × (encode_chunks max_payload es ≡ err x))
unfolding encode_chunks
encode_chunks_lem es =
    elim (chunk_all_lem es [] ([], []) ([], [], refl, refl, refl, omega arith, omega arith, tt)) [
      | inl (entries, acc, h1, h2, end) ↦
          rw (encode_chunks, h2)
            (inl (
              entries,
              close_chunk acc,
              h1,
              refl,
              close_chunk-ArePieces max_payload entries acc end,
            ))
      | inr (x, h1, h2) ↦ rw (encode_chunks, h2) (inr (x, h1, refl))
    ]
