-- ===== src/Console/Frame.antt =====
-- `Frame` of scripts/console-monitor: the binary frames of the serial link.
pub mod RoundTrip
use Prim.Native.Nat.{bit_or}
use sonic_host_services.Base.{
  ℕ, ◌-◌, ◌*◌, ◌/◌, ◌%◌, ◌^◌, Bool, ◌&&◌, true, Option, none, some, List, [], ◌∷◌, ◌++◌, ◌==◌, ltb,
  length, get_or, take, drop, not, if◌then◌else◌,
}
use sonic_host_services.Console.Crc.{crc16_modbus}
use sonic_host_services.Console.Escape.{sof, eof, escape_data, unescape_data}

pub record Frame : Type 0 where
  pub version : ℕ
  pub seq : ℕ
  pub flag : ℕ
  pub frame_type : ℕ
  pub payload : List ℕ

-- FrameType.HEARTBEAT, PROTOCOL_VERSION, MAX_FRAME_BUFFER_SIZE
abbrev pub heartbeat : ℕ
heartbeat = 0x01

abbrev pub protocol_version : ℕ
protocol_version = 0x01

abbrev pub max_frame_buffer_size : ℕ
max_frame_buffer_size = 64

-- SOF_SEQUENCE, EOF_SEQUENCE
abbrev pub sof_sequence : List ℕ
sof_sequence = sof ∷ sof ∷ sof ∷ []

abbrev pub eof_sequence : List ℕ
eof_sequence = eof ∷ eof ∷ eof ∷ []

abbrev all_bytes : List ℕ → Bool
all_bytes [] = true
all_bytes (b ∷ bs) = ltb b 256 && all_bytes bs

-- Python's `bytes([...])`; `none` is its ValueError on a number past 255.
abbrev pub to_bytes : List ℕ → Option (List ℕ)
to_bytes bs = if all_bytes bs then some bs else none

infixl 5 ◌>>=◌
abbrev ◌>>=◌ : {A B : Type 0} → Option A → (A → Option B) → Option B
none >>= f = none
some a >>= f = f a

-- `none` is a ValueError.
unfoldable pub build : Frame → Option (List ℕ)
build f = do
  header ← to_bytes (f.version ∷ (f.seq % 256) ∷ f.flag ∷ f.frame_type ∷ length f.payload ∷ [])
  let content = header ++ f.payload
  let crc = crc16_modbus content
  crc_bytes ← to_bytes ((crc / 2 ^ 8) ∷ (crc % 256) ∷ [])
  some (sof_sequence ++ escape_data (content ++ crc_bytes) ++ eof_sequence)

-- The fields, read from the content before the checksum.
abbrev pub fields : List ℕ → Frame
fields content =
    let size = get_or content 4 0 in
    record {
      version = get_or content 0 0;
      seq = get_or content 1 0;
      flag = get_or content 2 0;
      frame_type = get_or content 3 0;
      payload = if ltb 0 size then take size (drop 5 content) else [];
    }

-- `parse` once the checksum is split off.
unfoldable pub check_content : List ℕ → List ℕ → Option Frame
check_content content crc_bytes =
    let received_crc = bit_or (get_or crc_bytes 0 0 * 2 ^ 8) (get_or crc_bytes 1 0) in
    if not (crc16_modbus content == received_crc)
    then none
    else if ltb (length content) 5
    then none
    else some (fields content)

-- `parse` from the unescaped bytes on.
unfoldable pub parse_unescaped : List ℕ → Option Frame
unfolding check_content
parse_unescaped unescaped =
    if ltb (length unescaped) 7
    then none
    else check_content (take (length unescaped - 2) unescaped)
        (drop (length unescaped - 2) unescaped)

unfoldable pub parse : List ℕ → Option Frame
unfolding parse_unescaped
parse buffer = parse_unescaped (unescape_data buffer)

abbrev pub create_heartbeat : ℕ → Frame
create_heartbeat seq = record {
  version = protocol_version;
  seq = seq;
  flag = 0x00;
  frame_type = heartbeat;
  payload = [];
}

abbrev pub is_heartbeat : Frame → Bool
is_heartbeat f = f.frame_type == heartbeat
