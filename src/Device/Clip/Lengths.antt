-- ===== src/Device/Clip/Lengths.antt =====
-- The bytes that src/device/clip.rs encodes for a frame, against the length that src/types/clip.rs
-- counts for it.
use medius.Base.{
  ℕ, suc, ◌+◌, ◌*◌, ◌%◌, ◌≤◌, ◌≡◌, refl, sym, ap, ◌∙◌, arith, Bool, true, false, ◌||◌,
}
use medius.Base.{negate, if◌then◌else◌, ltb, ◌==◌}
use medius.Base.{List, [], ◌∷◌, ◌++◌, length, length-append, ok, chain-ok, check-ok}
use medius.Base.Int.{i16_word}
use medius.Protocol.Command.{word_le}
use medius.Protocol.Opcode.{max_payload}
use medius.Types.Usage.{Usage, Action}
use medius.Types.Clip.Reply.{has_flag}
use medius.Types.Clip.Frames.{
  setup_bytes, RawItem, TransferItem, ClipFrame, moves, has_items, raw_len, transfers_len,
  motion_len, items_len, byte_len,
}
use medius.Device.Clip.Encode.{
  clip_edges_max, clip_raw_max, clip_f_xy, clip_f_wheel, clip_f_edges, clip_f_pan, clip_f_raw,
  clip_f_xfer, validate_raws, validate_transfers, validate_frame, tag_of, frame_tag, edge_rows,
  raw_rows, transfer_rows, entry_bytes, encode_frame,
}

-- Whether a frame with these fields takes an XY field.
abbrev takes_xy : Bool → Bool → Bool → Bool → Bool → Bool → Bool
takes_xy xy w p e r x = xy || negate (w || (p || (e || (r || x))))

tag_of_lem :
    (xy w p e r x : Bool)
    → (has_flag (tag_of xy w p e r x) clip_f_xy ≡ takes_xy xy w p e r x)
      × (has_flag (tag_of xy w p e r x) clip_f_wheel ≡ w)
      × (has_flag (tag_of xy w p e r x) clip_f_pan ≡ p)
      × (has_flag (tag_of xy w p e r x) clip_f_edges ≡ e)
      × (has_flag (tag_of xy w p e r x) clip_f_raw ≡ r)
      × (has_flag (tag_of xy w p e r x) clip_f_xfer ≡ x)
unfolding has_flag tag_of
tag_of_lem xy w p e r x = ground arith

length-edge_rows : (es : List (Usage × Action)) → length (edge_rows es) ≡ length es * 4
unfolding edge_rows
length-edge_rows [] = refl
length-edge_rows ((u, a) ∷ es) = omega (arith, length-edge_rows es)

length-raw_rows : (rs : List RawItem) → length (raw_rows rs) ≡ raw_len rs
unfolding raw_rows raw_len
length-raw_rows [] = refl
length-raw_rows (r ∷ rs) = omega (arith, length-append r.bytes (raw_rows rs), length-raw_rows rs)

length-transfer_rows : (ts : List TransferItem) → length (transfer_rows ts) ≡ transfers_len ts
unfolding transfer_rows transfers_len setup_bytes
length-transfer_rows [] = refl
length-transfer_rows (t ∷ ts) =
    omega (arith, length-append t.out (transfer_rows ts), length-transfer_rows ts)

length-if :
    (b : Bool) (row : List ℕ) (n : ℕ)
    → length row ≡ n
    → length (if b then row else []) ≡ (if b then n else 0)
length-if true row n h = h
length-if false row n h = refl

module _ (f : ClipFrame) where
  abbrev has_xy : Bool
  has_xy = moves f.dx || moves f.dy

  abbrev carries : Bool
  carries =
      takes_xy has_xy (moves f.wheel) (moves f.pan) (has_items f.edges) (has_items f.raw)
        (has_items f.transfers)

  -- The fields that the tag of the frame says are there.
  frame_tag_lem :
      (has_flag (frame_tag f) clip_f_xy ≡ carries)
      × (has_flag (frame_tag f) clip_f_wheel ≡ moves f.wheel)
      × (has_flag (frame_tag f) clip_f_pan ≡ moves f.pan)
      × (has_flag (frame_tag f) clip_f_edges ≡ has_items f.edges)
      × (has_flag (frame_tag f) clip_f_raw ≡ has_items f.raw)
      × (has_flag (frame_tag f) clip_f_xfer ≡ has_items f.transfers)
  unfolding frame_tag
  frame_tag_lem =
      tag_of_lem has_xy (moves f.wheel) (moves f.pan) (has_items f.edges) (has_items f.raw)
        (has_items f.transfers)

-- A frame without other fields, and only such a frame, has no length beside its XY field.
no_rest :
    (xy w p e r x : Bool) (m i : ℕ)
    → m ≡ (if w then 2 else 0) + (if p then 2 else 0)
    → (i == 0) ≡ negate (e || (r || x))
    → (xy || (m + i == 0)) ≡ takes_xy xy w p e r x
no_rest xy w p e r x m i hm hi = ground arith

raw_part :
    (rs : List RawItem)
    → (if has_items rs then 1 + raw_len rs else 0) ≡ raw_len rs + (if has_items rs then 1 else 0)
unfolding has_items raw_len
raw_part [] = refl
raw_part (r ∷ rs) = omega arith

transfers_part :
    (ts : List TransferItem)
    → (if has_items ts then 1 + transfers_len ts else 0)
      ≡ transfers_len ts + (if has_items ts then 1 else 0)
unfolding has_items transfers_len
transfers_part [] = refl
transfers_part (t ∷ ts) = omega arith

items_len_lem :
    (f : ClipFrame)
    → items_len f
      ≡ (if has_items f.edges then 1 + length f.edges * 4 else 0)
        + (if has_items f.raw then 1 + raw_len f.raw else 0)
        + (if has_items f.transfers then 1 + transfers_len f.transfers else 0)
unfolding items_len
items_len_lem f = omega (arith, raw_part f.raw, transfers_part f.transfers)

items_len-zero :
    (f : ClipFrame)
    → (items_len f == 0) ≡ negate (has_items f.edges || (has_items f.raw || has_items f.transfers))
items_len-zero f = ground (arith, items_len_lem f)

byte_len_lem :
    (f : ClipFrame) → byte_len f ≡ 1 + (if carries f then 4 else 0) + (motion_len f + items_len f)
unfolding byte_len motion_len
byte_len_lem f =
    let xy =
      no_rest (has_xy f) (moves f.wheel) (moves f.pan) (has_items f.edges) (has_items f.raw)
        (has_items f.transfers) (motion_len f) (items_len f) refl (items_len-zero f) in
    ground (arith, xy)

length-six :
    (a b c d e g : List ℕ) (i j k l m n : ℕ)
    → length a ≡ i
    → length b ≡ j
    → length c ≡ k
    → length d ≡ l
    → length e ≡ m
    → length g ≡ n
    → length (a ++ (b ++ (c ++ (d ++ (e ++ g))))) ≡ i + (j + k + (l + m + n))
length-six a b c d e g i j k l m n ha hb hc hd he hg = omega (
  arith,
  length-append a (b ++ (c ++ (d ++ (e ++ g)))),
  length-append b (c ++ (d ++ (e ++ g))),
  length-append c (d ++ (e ++ g)),
  length-append d (e ++ g),
  length-append e g,
)

length-entry_bytes : (f : ClipFrame) → length (entry_bytes f) ≡ byte_len f
unfolding entry_bytes motion_len
length-entry_bytes f =
    let (hxy, hw, hp, he, hr, hx) = frame_tag_lem f in
    let tag : ℕ = frame_tag f in
    let bxy : List ℕ = word_le (i16_word f.dx) ++ word_le (i16_word f.dy) in
    let be : List ℕ = length f.edges % 256 ∷ edge_rows f.edges in
    let br : List ℕ = length f.raw % 256 ∷ raw_rows f.raw in
    let bx : List ℕ = length f.transfers % 256 ∷ transfer_rows f.transfers in
    let lxy = length-if (carries f) bxy 4 refl in
    let lw = length-if (moves f.wheel) (word_le (i16_word f.wheel)) 2 refl in
    let lp = length-if (moves f.pan) (word_le (i16_word f.pan)) 2 refl in
    let le =
      length-if (has_items f.edges) be (1 + length f.edges * 4)
        (omega (arith, length-edge_rows f.edges)) in
    let lr =
      length-if (has_items f.raw) br (1 + raw_len f.raw) (omega (arith, length-raw_rows f.raw)) in
    let lx =
      length-if (has_items f.transfers) bx (1 + transfers_len f.transfers)
        (omega (arith, length-transfer_rows f.transfers)) in
    let fields = length-six _ _ _ _ _ _ _ _ _ _ _ _ lxy lw lp le lr lx in
    rw (hxy, hw, hp, he, hr, hx)
      (ap suc (
          fields
          ∙ ap (λ i. (if carries f then 4 else 0) + (motion_len f + i)) (sym (items_len_lem f)))
        ∙ (omega arith ∙ sym (byte_len_lem f)))

ltb-le : (a b : ℕ) → ltb b a ≡ false → a ≤ b
ltb-le a b h = ground (arith, h)

-- A frame that is accepted is encoded in as many bytes as its length counts, at most what one
-- CLIP_APPEND holds.
pub length-encode_frame :
    (f : ClipFrame) (bytes : List ℕ)
    → encode_frame f ≡ ok bytes
    → (length bytes ≡ byte_len f) × (length bytes ≤ max_payload)
unfolding encode_frame validate_frame
length-encode_frame f bytes h =
    let (_, valid, encoded) = chain-ok (validate_frame f) (λ _. ok (entry_bytes f)) bytes h in
    let (_, v1) = check-ok (ltb clip_edges_max (length f.edges)) _ _ tt valid in
    let (_, v2) = check-ok (ltb clip_raw_max (length f.raw)) _ _ tt v1 in
    let (_, _, v3) = chain-ok (validate_raws f.raw) _ tt v2 in
    let (_, _, v4) = chain-ok (validate_transfers f.transfers) _ tt v3 in
    let (fits, _) = check-ok (ltb max_payload (byte_len f)) _ _ tt v4 in
    let same : entry_bytes f ≡ bytes = cc encoded in
    let long : length bytes ≡ byte_len f = ap length (sym same) ∙ length-entry_bytes f in
    let short : byte_len f ≤ max_payload = ltb-le (byte_len f) max_payload fits in
    (long, omega (arith, long, short))

pub byte_len-positive : (f : ClipFrame) → 1 ≤ byte_len f
byte_len-positive f = omega (arith, byte_len_lem f)
