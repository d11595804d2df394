-- ===== src/Console/Filter.antt =====
-- `FrameFilter` of scripts/console-monitor: splits the bytes of a serial link into frames and user
-- data. A callback's call is an event of the list that an operation returns with the new state.
pub mod Resync
pub mod Bounds
pub mod UserData
use sonic_host_services.Base.{
  ℕ, ◌≡◌, Bool, ◌&&◌, true, false, Option, none, some, List, [], ◌∷◌, ◌++◌, ◌==◌, ltb, leb, not,
  length, if◌then◌else◌,
}
use sonic_host_services.Console.Escape.{sof, eof, dle}
use sonic_host_services.Console.Frame.{Frame, parse, max_frame_buffer_size}

-- The two callbacks are optional in the source: the flags say which are set.
pub record FrameFilter : Type 0 where
  pub on_frame : Bool
  pub on_user_data : Bool
  pub buffer : List ℕ
  pub escape_next : Bool
  pub in_frame : Bool

pub data Event : Type 0 where
  frame : Frame → Event
  user_data : List ℕ → Event

-- A filter whose two callbacks are set.
abbrev pub init : FrameFilter
init = record {
  on_frame = true;
  on_user_data = true;
  buffer = [];
  escape_next = false;
  in_frame = false;
}

abbrev pub Step : Type 0
Step = FrameFilter × List Event

abbrev pub is_empty : List ℕ → Bool
is_empty [] = true
is_empty (x ∷ xs) = false

unfoldable pub flush_as_user_data : FrameFilter → Step
flush_as_user_data s = (
  record s { buffer = []; escape_next = false },
  if not (is_empty s.buffer) && s.on_user_data then user_data s.buffer ∷ [] else [],
)

unfoldable pub discard_buffer : FrameFilter → Step
discard_buffer s = (record s { buffer = []; escape_next = false }, [])

-- What `_flush_buffer`, `on_timeout` and a start mark share: the buffer leaves as user data outside
-- a frame, and is dropped inside one.
unfoldable pub leave_buffer : FrameFilter → Step
unfolding flush_as_user_data discard_buffer
leave_buffer s = if not s.in_frame then flush_as_user_data s else discard_buffer s

unfoldable pub flush_buffer : FrameFilter → Step
unfolding leave_buffer
flush_buffer s = let (t, events) = leave_buffer s in (record t { in_frame = false }, events)

unfoldable pub on_timeout : FrameFilter → Step
unfolding leave_buffer
on_timeout s = let (t, events) = leave_buffer s in (record t { in_frame = false }, events)

abbrev pub frame_events : Bool → Option Frame → List Event
frame_events true (some f) = frame f ∷ []
frame_events _ _ = []

unfoldable pub try_parse_frame : FrameFilter → Step
try_parse_frame s =
    if is_empty s.buffer
    then (record s { escape_next = false }, [])
    else (record s { buffer = []; escape_next = false }, frame_events s.on_frame (parse s.buffer))

-- `if len(self._buffer) >= MAX_FRAME_BUFFER_SIZE: self._flush_buffer()`
unfoldable pub check_size : FrameFilter → Step
unfolding flush_buffer
check_size s = if leb max_frame_buffer_size (length s.buffer) then flush_buffer s else (s, [])

-- The body of the loop of `process`.
unfoldable pub process_byte : FrameFilter → ℕ → Step
unfolding check_size leave_buffer try_parse_frame
process_byte s byte =
    if s.escape_next
    then check_size (record s { buffer = s.buffer ++ byte ∷ []; escape_next = false })
    else if byte == dle
    then (record s { buffer = s.buffer ++ byte ∷ []; escape_next = s.in_frame }, [])
    else if byte == sof
    then (let (t, events) = leave_buffer s in (record t { in_frame = true }, events))
    else if byte == eof
    then (let (t, events) = try_parse_frame s in (record t { in_frame = false }, events))
    else check_size (record s { buffer = s.buffer ++ byte ∷ [] })

unfoldable pub process : FrameFilter → List ℕ → Step
process s [] = (s, [])
process s (byte ∷ bytes) =
    let (t, now) = process_byte s byte in let (u, later) = process t bytes in (u, now ++ later)

-- `flush`: the state and the bytes that were left.
unfoldable pub flush : FrameFilter → FrameFilter × List ℕ
flush s = (record s { buffer = []; escape_next = false; in_frame = false }, s.buffer)

abbrev pub has_pending_data : FrameFilter → Bool
has_pending_data s = ltb 0 (length s.buffer)
