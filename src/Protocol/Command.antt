-- ===== src/Protocol/Command.antt =====
-- src/protocol/command.rs: the payload of every command, field by field in little endian.
use medius.Base.{ℕ, ◌%◌, List, [], ◌∷◌, ◌++◌, length}
use medius.Base.{lo_byte, hi_byte, bit_and}
use medius.Base.Int.{ℤ, i16_word}
use medius.Types.Direction.{Direction, dir_as_u8}

abbrev pub word_le : ℕ → List ℕ
word_le w = lo_byte w ∷ hi_byte w ∷ []

unfoldable pub move_cursor_payload : ℤ → ℤ → ℕ → List ℕ
move_cursor_payload dx dy flags =
    (0 ∷ word_le (i16_word dx)) ++ (word_le (i16_word dy) ++ (flags ∷ []))

unfoldable pub move_wheel_payload : ℤ → ℕ → List ℕ
move_wheel_payload dz flags = 1 ∷ (word_le (i16_word dz) ++ (flags ∷ []))

unfoldable pub move_pan_payload : ℤ → ℕ → List ℕ
move_pan_payload dpan flags = 2 ∷ (word_le (i16_word dpan) ++ (flags ∷ []))

unfoldable pub inject_payload : ℕ → ℕ → ℕ → List ℕ
inject_payload class id action = class ∷ (word_le id ++ (action ∷ []))

unfoldable pub lock_payload : ℕ → ℕ → ℕ → ℤ → List ℕ
lock_payload class usage direction scale =
    class ∷ (word_le usage ++ (direction ∷ word_le (i16_word scale)))

unfoldable pub catch_payload : ℕ → ℕ → ℕ → ℕ → ℕ → List ℕ
catch_payload class id direction state snaplen =
    class ∷ (word_le id ++ (direction ∷ state ∷ snaplen ∷ []))

unfoldable pub clip_set_payload : ℕ → ℕ → List ℕ
clip_set_payload id value = id ∷ value ∷ []

unfoldable pub clip_op_payload : ℕ → List ℕ
clip_op_payload op = op ∷ []

unfoldable pub clip_trigger_payload : ℕ → ℕ → ℕ → ℕ → ℕ → List ℕ
clip_trigger_payload class id edge action flags =
    class ∷ (word_le id ++ (edge ∷ action ∷ flags ∷ []))

unfoldable pub clip_packet_trigger_payload : ℕ → ℕ → ℕ → ℕ → ℕ → ℕ → List ℕ → List ℕ → List ℕ
unfolding clip_trigger_payload
clip_packet_trigger_payload class id dir action flags slen match_bytes mask =
    clip_trigger_payload class id dir action flags
    ++ (slen ∷ (length match_bytes % 256) ∷ (match_bytes ++ mask))

unfoldable pub raw_payload : ℕ → Direction → List ℕ → List ℕ
unfolding dir_as_u8
raw_payload ep direction bytes = bit_and ep 0x0f ∷ dir_as_u8 direction ∷ bytes

unfoldable pub rewrite_payload : ℕ → ℕ → ℕ → ℕ → ℕ → ℕ → List ℕ → List ℕ → List ℕ → List ℕ
rewrite_payload class id direction state action offset match_bytes mask payload =
    class
    ∷ (word_le id
        ++ (direction
            ∷ state
            ∷ action
            ∷ (word_le offset
                ++ ((length match_bytes % 256) ∷ (match_bytes ++ (mask ++ payload))))))

unfoldable pub patch_payload : ℕ → ℕ → ℕ → ℕ → List ℕ → List ℕ
patch_payload section cfg index offset bytes = section ∷ cfg ∷ index ∷ (word_le offset ++ bytes)

unfoldable pub transform_payload : ℕ → ℕ → ℕ → ℕ → ℕ → ℕ → List ℕ
transform_payload op sclass sid dclass did state =
    op ∷ sclass ∷ (word_le sid ++ (dclass ∷ (word_le did ++ (state ∷ []))))
