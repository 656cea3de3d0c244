-- ===== src/Device/Clip/Encode.antt =====
-- src/device/clip.rs: a clip encoded in pieces that end on entry boundaries.
use medius.Base.{ℕ, ◌+◌, ◌%◌, Bool, ◌&&◌, ◌||◌, negate, if◌then◌else◌, ltb, ◌==◌, bit_and, bit_or}
use medius.Base.{List, [], ◌∷◌, ◌++◌, length, Result, ok, err, lo_byte, hi_byte}
use medius.Base.Int.{i16_word}
use medius.Protocol.Command.{word_le}
use medius.Protocol.Opcode.{max_payload}
use medius.Types.Direction.{Direction, dir_as_u8, is_relative}
use medius.Types.Usage.{Usage, class_id, Action, usage_action_u8}
use medius.Types.Clip.Reply.{has_flag}
use medius.Types.Clip.Frames.{
  setup_bytes, is_in, RawItem, TransferItem, ClipFrame, ClipEntry, moves, has_items, byte_len,
}

abbrev pub clip_edges_max : ℕ
clip_edges_max = 8

abbrev pub clip_raw_max : ℕ
clip_raw_max = 8

abbrev pub clip_f_xy : ℕ
clip_f_xy = 0x01

abbrev pub clip_f_wheel : ℕ
clip_f_wheel = 0x02

abbrev pub clip_f_edges : ℕ
clip_f_edges = 0x04

abbrev pub clip_f_pan : ℕ
clip_f_pan = 0x08

abbrev pub clip_f_raw : ℕ
clip_f_raw = 0x10

abbrev pub clip_f_xfer : ℕ
clip_f_xfer = 0x20

pub data EncodeError : Type 0 where
  edge_count raw_count frame_too_long : ℕ → EncodeError
  relative_raw raw_direction : Direction → EncodeError
  -- What the setup packet asks for and what there is.
  transfer_data : ℕ → ℕ → EncodeError
  append_send_failed : EncodeError

unfoldable pub validate_raw_direction : Direction → Result EncodeError (Unit {0})
unfolding is_relative
validate_raw_direction Direction.positive = ok tt
validate_raw_direction Direction.negative = ok tt
validate_raw_direction d =
    if is_relative d then err (EncodeError.relative_raw d) else err (EncodeError.raw_direction d)

unfoldable pub validate_raws : List RawItem → Result EncodeError (Unit {0})
unfolding validate_raw_direction
validate_raws [] = ok tt
validate_raws (r ∷ rs) = elim (validate_raw_direction r.direction) [
  | err e ↦ err e
  | ok _ ↦ validate_raws rs
]

unfoldable pub validate_transfers : List TransferItem → Result EncodeError (Unit {0})
unfolding is_in
validate_transfers [] = ok tt
validate_transfers (t ∷ ts) =
    let want : ℕ = if is_in t.setup then 0 else t.setup.length in
    let rest = validate_transfers ts in
    if negate (length t.out == want)
    then err (EncodeError.transfer_data want (length t.out))
    else rest

-- The checks at the head of `encode_frame`, in their order.
unfoldable pub validate_frame : ClipFrame → Result EncodeError (Unit {0})
unfolding validate_raws validate_transfers byte_len
validate_frame f =
    if ltb clip_edges_max (length f.edges)
    then err (EncodeError.edge_count (length f.edges))
    else if ltb clip_raw_max (length f.raw)
    then err (EncodeError.raw_count (length f.raw))
    else elim (validate_raws f.raw) [
      | err e ↦ err e
      | ok _ ↦ elim (validate_transfers f.transfers) [
        | err e ↦ err e
        | ok _ ↦
            if ltb max_payload (byte_len f)
            then err (EncodeError.frame_too_long (byte_len f))
            else ok tt
      ]
    ]

abbrev pub flag : Bool → ℕ → ℕ
flag b bit = if b then bit else 0

-- The tag of a frame with these fields; a frame without any takes an XY field.
unfoldable pub tag_of : Bool → Bool → Bool → Bool → Bool → Bool → ℕ
tag_of xy wheel pan edges raw xfer =
    let flags : ℕ =
      bit_or (bit_or (bit_or (flag xy clip_f_xy) (flag wheel clip_f_wheel)) (flag pan clip_f_pan))
        (bit_or (bit_or (flag edges clip_f_edges) (flag raw clip_f_raw)) (flag xfer clip_f_xfer)) in
    if flags == 0 then clip_f_xy else flags

unfoldable pub frame_tag : ClipFrame → ℕ
unfolding tag_of moves has_items
frame_tag f =
    tag_of (moves f.dx || moves f.dy) (moves f.wheel) (moves f.pan) (has_items f.edges)
      (has_items f.raw) (has_items f.transfers)

unfoldable pub edge_rows : List (Usage × Action) → List ℕ
unfolding class_id usage_action_u8
edge_rows [] = []
edge_rows ((u, a) ∷ es) =
    (class_id u).0
    ∷ lo_byte (class_id u).1
    ∷ hi_byte (class_id u).1
    ∷ usage_action_u8 a
    ∷ edge_rows es

unfoldable pub raw_rows : List RawItem → List ℕ
unfolding dir_as_u8
raw_rows [] = []
raw_rows (r ∷ rs) =
    bit_and r.ep 0x0f
    ∷ dir_as_u8 r.direction
    ∷ lo_byte (length r.bytes % 65536)
    ∷ hi_byte (length r.bytes % 65536)
    ∷ (r.bytes ++ raw_rows rs)

unfoldable pub transfer_rows : List TransferItem → List ℕ
unfolding setup_bytes
transfer_rows [] = []
transfer_rows (t ∷ ts) = t.ep ∷ (setup_bytes t.setup ++ (t.out ++ transfer_rows ts))

-- A field that its flag says is there.
abbrev pub field : ℕ → ℕ → List ℕ → List ℕ
field tag bit row = if has_flag tag bit then row else []

unfoldable pub entry_bytes : ClipFrame → List ℕ
unfolding frame_tag edge_rows raw_rows transfer_rows has_flag
entry_bytes f =
    let tag : ℕ = frame_tag f in
    tag
    ∷ (field tag clip_f_xy (word_le (i16_word f.dx) ++ word_le (i16_word f.dy))
        ++ (field tag clip_f_wheel (word_le (i16_word f.wheel))
            ++ (field tag clip_f_pan (word_le (i16_word f.pan))
                ++ (field tag clip_f_edges (length f.edges % 256 ∷ edge_rows f.edges)
                    ++ (field tag clip_f_raw (length f.raw % 256 ∷ raw_rows f.raw)
                        ++ field tag clip_f_xfer
                            (length f.transfers % 256 ∷ transfer_rows f.transfers))))))

unfoldable pub encode_frame : ClipFrame → Result EncodeError (List ℕ)
unfolding validate_frame entry_bytes
encode_frame f = elim (validate_frame f) [ err e ↦ err e | ok _ ↦ ok (entry_bytes f) ]

unfoldable pub encode_entry : ClipEntry → Result EncodeError (List ℕ)
unfolding encode_frame
encode_entry (ClipEntry.gap n) = ok (0 ∷ word_le n)
encode_entry (ClipEntry.frame f) = encode_frame f

-- One turn of the loop of `encode_chunks` over the pieces so far and the open one.
unfoldable pub chunk_step : ℕ → List (List ℕ) × List ℕ → List ℕ → List (List ℕ) × List ℕ
unfolding has_items
chunk_step limit (out, cur) entry =
    if has_items cur && ltb limit (length cur + length entry)
    then (out ++ (cur ∷ []), entry)
    else (out, cur ++ entry)

unfoldable pub chunk_all :
    ℕ → List (List ℕ) × List ℕ → List ClipEntry → Result EncodeError (List (List ℕ) × List ℕ)
unfolding encode_entry chunk_step
chunk_all limit acc [] = ok acc
chunk_all limit acc (e ∷ es) = elim (encode_entry e) [
  | err x ↦ err x
  | ok entry ↦ chunk_all limit (chunk_step limit acc entry) es
]

unfoldable pub close_chunk : List (List ℕ) × List ℕ → List (List ℕ)
unfolding has_items
close_chunk (out, cur) = if has_items cur then out ++ (cur ∷ []) else out

unfoldable pub encode_chunks : ℕ → List ClipEntry → Result EncodeError (List (List ℕ))
unfolding chunk_all close_chunk
encode_chunks limit entries = elim (chunk_all limit ([], []) entries) [
  | err e ↦ err e
  | ok acc ↦ ok (close_chunk acc)
]
