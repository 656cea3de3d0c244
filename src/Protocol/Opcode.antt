-- ===== src/Protocol/Opcode.antt =====
-- src/protocol/opcode.rs: the wire constants that the models use, and the frame opcodes.
use medius.Base.{ℕ, ◌≡◌, arith, if◌then◌else◌, ◌==◌, Result, ok, err, IsByte}

abbrev pub sof : ℕ
sof = 0xA5

abbrev pub max_payload : ℕ
max_payload = 512

abbrev pub proto_ver : ℕ
proto_ver = 9

pub data FrameType : Type 0 where
  move inject reset query resp reboot_dl log led lock catch motion_event usage_event : FrameType
  traffic_event option clip_append clip_ctrl clip_set clip_trigger update update_resp : FrameType
  raw transfer transfer_resp rewrite patch transform : FrameType

-- `ty as u8`
unfoldable pub as_u8 : FrameType → ℕ
as_u8 FrameType.move = 0x01
as_u8 FrameType.inject = 0x03
as_u8 FrameType.reset = 0x04
as_u8 FrameType.query = 0x05
as_u8 FrameType.resp = 0x06
as_u8 FrameType.reboot_dl = 0x07
as_u8 FrameType.log = 0x08
as_u8 FrameType.led = 0x09
as_u8 FrameType.lock = 0x0A
as_u8 FrameType.catch = 0x0B
as_u8 FrameType.motion_event = 0x0C
as_u8 FrameType.usage_event = 0x0F
as_u8 FrameType.traffic_event = 0x16
as_u8 FrameType.option = 0x11
as_u8 FrameType.clip_append = 0x12
as_u8 FrameType.clip_ctrl = 0x13
as_u8 FrameType.clip_set = 0x14
as_u8 FrameType.clip_trigger = 0x15
as_u8 FrameType.update = 0x17
as_u8 FrameType.update_resp = 0x18
as_u8 FrameType.raw = 0x19
as_u8 FrameType.transfer = 0x1A
as_u8 FrameType.transfer_resp = 0x1B
as_u8 FrameType.rewrite = 0x1C
as_u8 FrameType.patch = 0x1D
as_u8 FrameType.transform = 0x1E

-- A byte that names no opcode comes back as the error.
unfoldable pub try_from : ℕ → Result ℕ FrameType
try_from v =
    if v == 0x01
    then ok FrameType.move
    else if v == 0x03
    then ok FrameType.inject
    else if v == 0x04
    then ok FrameType.reset
    else if v == 0x05
    then ok FrameType.query
    else if v == 0x06
    then ok FrameType.resp
    else if v == 0x07
    then ok FrameType.reboot_dl
    else if v == 0x08
    then ok FrameType.log
    else if v == 0x09
    then ok FrameType.led
    else if v == 0x0A
    then ok FrameType.lock
    else if v == 0x0B
    then ok FrameType.catch
    else if v == 0x0C
    then ok FrameType.motion_event
    else if v == 0x0F
    then ok FrameType.usage_event
    else if v == 0x16
    then ok FrameType.traffic_event
    else if v == 0x11
    then ok FrameType.option
    else if v == 0x12
    then ok FrameType.clip_append
    else if v == 0x13
    then ok FrameType.clip_ctrl
    else if v == 0x14
    then ok FrameType.clip_set
    else if v == 0x15
    then ok FrameType.clip_trigger
    else if v == 0x17
    then ok FrameType.update
    else if v == 0x18
    then ok FrameType.update_resp
    else if v == 0x19
    then ok FrameType.raw
    else if v == 0x1A
    then ok FrameType.transfer
    else if v == 0x1B
    then ok FrameType.transfer_resp
    else if v == 0x1C
    then ok FrameType.rewrite
    else if v == 0x1D
    then ok FrameType.patch
    else if v == 0x1E
    then ok FrameType.transform
    else err v

pub as_u8-IsByte : (t : FrameType) → IsByte (as_u8 t)
unfolding as_u8
as_u8-IsByte t = ground arith

-- Every opcode is read back from its byte.
pub try_from-as_u8 : (t : FrameType) → try_from (as_u8 t) ≡ ok t
unfolding try_from as_u8
try_from-as_u8 t = ground arith

-- A byte reads as an opcode only if it is that opcode's byte.
pub as_u8-try_from : (v : ℕ) (t : FrameType) → try_from v ≡ ok t → as_u8 t ≡ v
unfolding try_from as_u8
as_u8-try_from v t h = ground arith
