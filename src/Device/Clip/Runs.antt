-- ===== src/Device/Clip/Runs.antt =====
-- Runs of the clip calls of src/device/clip.rs and of the RESP(CLIP) reader of src/types/clip.rs.
use medius.Base.{
  ℕ, ◌≡◌, ◌↔◌, refl, arith, Bool, true, false, none, some, List, [], ◌∷◌, ◌++◌, replicate, All,
  IsByte, ok, err, negate, ◌&&◌,
}
use medius.Types.Direction.{Direction, is_relative, dir_eq}
use medius.Types.Usage.{Class, Action}
use medius.Base.{length, ◌≤◌, ◌⊎◌}
use medius.Base.Int.{pos, negsuc}
use medius.Protocol.Opcode.{max_payload}
use medius.Types.Clip.Frames.{ClipFrame, ClipEntry, byte_len}
use medius.Device.Clip.Encode.{EncodeError, encode_frame, entry_bytes, encode_chunks}
use medius.Device.Clip.Lengths.{length-encode_frame}
use medius.Base.{take}
use medius.Device.Clip.Append.{append, numbered, append_lem}
use medius.Device.Clip.Chunks.{encode_all, ArePieces, encode_chunks_lem}
use medius.Types.Clip.{
  Blanket, Edge, ClipAction, ClipTrigger, TrafficClass, ClipPacketTrigger, ClipSettings,
}
use medius.Types.Clip.Reply.{is_surface, class_carries, clip_config_offset, settings_from_payload}
use medius.Types.Clip.Bounds.{IsSome, settings_from_payload-IsSome}
use medius.Types.Clip.Rows.{IsListable}
use medius.Types.Clip.Wire.{settings_bytes, settings_from_payload-settings_bytes}
use medius.Link.Reconcile.State.{DesiredState, default_state}
use medius.Link.Reconcile.Clip.{clip_packet_bind}
use medius.Device.Clip.{ClipError, validate_packet_key, validate_packet_trigger, bind_packet}
use medius.Device.Clip.Packets.{HeadMatches, validate_packet_key-HeadMatches}
use medius.Device.Clip.Calls.{ClipCall, run_clip_call, HoldsBindable, run_clip_call-HoldsBindable}

-- Report 7 of interface 2 has a button in bit 5 of its second byte; holding it plays the clip.
abbrev held_to_play : ClipPacketTrigger
held_to_play = record {
  class = TrafficClass.hid_in;
  id = 2;
  direction = Direction.positive;
  action = ClipAction.start;
  match_bytes = 0x07 ∷ 0x20 ∷ [];
  mask = 0xFF ∷ 0x20 ∷ [];
  consume = true;
  once_per_run = true;
  selector_len = 1;
}

abbrev key_pauses : ClipTrigger
key_pauses = record {
  on = record { class = Class.key; id = 0x3A };
  edge = Edge.press;
  action = ClipAction.pause;
  consume = true;
}

abbrev looping : ClipSettings
looping = record {
  autolock = Blanket.aim ∷ Blanket.keys ∷ [];
  loop = true;
  retain = true;
  finalized = false;
  ride = false;
  triggers = key_pauses ∷ [];
  packet_triggers = record { trigger = held_to_play; hits = 300 } ∷ [];
}

-- A playing clip that holds one button.
abbrev header : List ℕ
header = (3 ∷ 1 ∷ []) ++ (replicate 28 0 ++ (1 ∷ 0 ∷ 2 ∷ 0 ∷ []))

abbrev aim_and_keys : Blanket → Bool
aim_and_keys Blanket.aim = true
aim_and_keys Blanket.keys = true
aim_and_keys _ = false

held_to_play-IsListable : IsListable held_to_play
unfolding is_surface is_relative
held_to_play-IsListable = (refl, refl, refl, omega arith)

settings_from_payload-settings_bytes_example :
    settings_from_payload (header ++ settings_bytes looping) ≡ some looping
settings_from_payload-settings_bytes_example =
    settings_from_payload-settings_bytes header 1 looping refl refl
      ((aim_and_keys, refl), omega arith, omega arith, (held_to_play-IsListable, tt))

header_accepted : clip_config_offset (header ++ settings_bytes looping) ≡ some 34
unfolding clip_config_offset
header_accepted = refl

settings_from_payload-IsSome_example :
    IsSome (settings_from_payload (header ++ settings_bytes looping))
settings_from_payload-IsSome_example =
    settings_from_payload-IsSome (header ++ settings_bytes looping) 34 header_accepted

one_byte_short : clip_config_offset (header ++ (0 ∷ 0 ∷ 0 ∷ [])) ≡ none
unfolding clip_config_offset
one_byte_short = refl

held_to_play-carried :
    (negate (dir_eq held_to_play.direction Direction.both)
      && negate (class_carries held_to_play.class held_to_play.direction))
    ≡ false
unfolding dir_eq class_carries
held_to_play-carried = refl

validate_packet_key-HeadMatches_example : (validate_packet_key held_to_play ≡ ok tt) ↔ (
    (head : List ℕ) × All IsByte head × HeadMatches head held_to_play.match_bytes held_to_play.mask)
validate_packet_key-HeadMatches_example =
    validate_packet_key-HeadMatches held_to_play (omega arith, (omega arith, tt))
      (omega arith, (omega arith, tt)) held_to_play-IsListable held_to_play-carried

held_to_play_bindable : validate_packet_trigger held_to_play ≡ ok tt
unfolding validate_packet_trigger
held_to_play_bindable = refl

-- A match bit outside the mask, and a selector with no condition after it.
outside_refused :
    validate_packet_trigger (record held_to_play { mask = 0xFF ∷ 0x10 ∷ [] })
    ≡ err ClipError.outside_mask
unfolding validate_packet_trigger
outside_refused = refl

no_condition_refused :
    validate_packet_trigger (record held_to_play { selector_len = 2 }) ≡ err ClipError.no_condition
unfolding validate_packet_trigger
no_condition_refused = refl

abbrev one_packet : DesiredState
one_packet = record default_state {
  clip = record (default_state.clip) { packet_triggers = held_to_play ∷ [] };
}

run_clip_call-HoldsBindable_example :
    HoldsBindable
      (run_clip_call true
        (ClipCall.bind_packet_trigger (record held_to_play { action = ClipAction.restart }))
        one_packet).0
run_clip_call-HoldsBindable_example =
    run_clip_call-HoldsBindable true
      (ClipCall.bind_packet_trigger (record held_to_play { action = ClipAction.restart }))
      one_packet ((held_to_play_bindable, tt), (refl, tt))

packet_replaced :
    ((bind_packet true (record held_to_play { action = ClipAction.restart }) one_packet).0
    ).clip.packet_triggers
    ≡ record held_to_play { action = ClipAction.restart } ∷ []
unfolding bind_packet clip_packet_bind
packet_replaced = refl

-- A press with motion, and a transfer that sends two bytes.
abbrev press_and_move : ClipFrame
press_and_move = record {
  dx = pos 5;
  dy = negsuc 0;
  wheel = pos 0;
  pan = pos 0;
  edges = (record { class = Class.button; id = 1 }, Action.press) ∷ [];
  raw = [];
  transfers =
      record {
        ep = 0;
        setup = record { request_type = 0x21; request = 9; value = 0x200; index = 1; length = 2 };
        out = 7 ∷ 8 ∷ [];
      }
      ∷ [];
}

press_and_move_bytes :
    encode_frame press_and_move
    ≡ ok (
        0x25 ∷ 5 ∷ 0 ∷ 255 ∷ 255 ∷ 1 ∷ 0 ∷ 1 ∷ 0 ∷ 1 ∷ 1 ∷ 0 ∷ 0x21 ∷ 9 ∷ 0 ∷ 2 ∷ 1 ∷ 0 ∷ 2 ∷ 0 ∷ 7
        ∷ 8 ∷ [])
unfolding encode_frame
press_and_move_bytes = refl

length-encode_frame_example :
    (length (entry_bytes press_and_move) ≡ byte_len press_and_move)
    × (length (entry_bytes press_and_move) ≤ max_payload)
unfolding encode_frame
length-encode_frame_example = length-encode_frame press_and_move (entry_bytes press_and_move) refl

encode_chunks_lem_example :
    ((entries : List (List ℕ)) × (chunks : List (List ℕ)) × (encode_all
          (ClipEntry.frame press_and_move ∷ ClipEntry.gap 300 ∷ [])
        ≡ ok entries)
      × (encode_chunks max_payload (ClipEntry.frame press_and_move ∷ ClipEntry.gap 300 ∷ [])
          ≡ ok chunks)
      × ArePieces max_payload entries chunks)
    ⊎ ((x : EncodeError) × (encode_all (ClipEntry.frame press_and_move ∷ ClipEntry.gap 300 ∷ [])
          ≡ err x)
        × (encode_chunks max_payload (ClipEntry.frame press_and_move ∷ ClipEntry.gap 300 ∷ [])
            ≡ err x))
encode_chunks_lem_example =
    encode_chunks_lem (ClipEntry.frame press_and_move ∷ ClipEntry.gap 300 ∷ [])

-- An empty tick takes an XY field, and a limit of four bytes splits it from a gap.
two_pieces :
    encode_chunks 4 (
      ClipEntry.gap 2
      ∷ ClipEntry.frame
          (record press_and_move { dx = pos 0; dy = pos 0; edges = []; transfers = [] })
      ∷ [])
    ≡ ok ((0 ∷ 2 ∷ 0 ∷ []) ∷ (1 ∷ 0 ∷ 0 ∷ 0 ∷ 0 ∷ []) ∷ [])
unfolding encode_chunks
two_pieces = refl

append_lem_example :
    ((chunks : List (List ℕ)) × (encode_chunks max_payload (ClipEntry.frame press_and_move ∷ [])
        ≡ ok chunks)
      × ((append 9 (ClipEntry.frame press_and_move ∷ []) 255 default_state).2
          ≡ numbered 255 (take 10 chunks)))
    ⊎ ((x : EncodeError) × (encode_chunks max_payload (ClipEntry.frame press_and_move ∷ []) ≡ err x)
        × (append 9 (ClipEntry.frame press_and_move ∷ []) 255 default_state
            ≡ (255, default_state, [], err x)))
append_lem_example = append_lem 9 (ClipEntry.frame press_and_move ∷ []) 255 default_state
