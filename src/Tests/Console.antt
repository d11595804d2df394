-- ===== src/Tests/Console.antt =====
-- scripts/console-monitor at concrete inputs.
use sonic_host_services.Base.{
  ◌%◌, ℕ, ◌+◌, ◌≤◌, ◌≡◌, refl, Bool, true, false, none, some, List, [], ◌∷◌, ◌++◌, String, eq_iff,
  inr, arith,
}
use sonic_host_services.Base.Dict
use sonic_host_services.Base.Set
use sonic_host_services.Console.Crc.{crc16_modbus}
use sonic_host_services.Console.Escape.{escape_data, unescape_data, unescape_data-escape_data}
use sonic_host_services.Console.Frame.{
  Frame, build, parse, create_heartbeat, sof_sequence, eof_sequence,
}
use sonic_host_services.Console.Frame.RoundTrip.{parse-build, body}
use sonic_host_services.Console.Filter.{FrameFilter, frame, init, process, process_byte}
use sonic_host_services.Console.Filter.Resync.{process-frame, idle}
use sonic_host_services.Console.Filter.Bounds.{IsBounded, process-IsBounded}
use sonic_host_services.Console.Filter.UserData.{user_bytes, process-plain}
use sonic_host_services.Console.Dte.{DteService, send_heartbeat, heartbeat_loop}
use sonic_host_services.Console.Dte
use sonic_host_services.Console.Dte.Heartbeats.{
  count_true, heartbeats_sent, heartbeat_loop-sent, wire_of, send_heartbeat-process,
}
use sonic_host_services.Console.Proxy.{ProxyService, Readable, unknown, round, run_loop, initialize}
use sonic_host_services.Console.Proxy.Heartbeat.{
  IsTimely, IsFresh, round_silent, round_active, round_heartbeat,
}
use sonic_host_services.Console.Proxy.Writes.{Tracks, run_loop-Tracks}
use sonic_host_services.Console.Dce
use sonic_host_services.Console.Dce.{DceService, Command, sync_enabled}
use sonic_host_services.Console.Dce.Running.{Runs, runs_after, sync_enabled-Runs}
use sonic_host_services.Console.Dce.Sync.{
  NodupKeys, is_some, sync_enabled-keeps, sync_enabled-cached,
}

escaped :
    escape_data (0x05 ∷ 0x00 ∷ 0x10 ∷ 0x41 ∷ [])
    ≡ 0x10 ∷ 0x05 ∷ 0x10 ∷ 0x00 ∷ 0x10 ∷ 0x10 ∷ 0x41 ∷ []
unfolding escape_data
escaped = refl

crc_check :
    crc16_modbus (0x31 ∷ 0x32 ∷ 0x33 ∷ 0x34 ∷ 0x35 ∷ 0x36 ∷ 0x37 ∷ 0x38 ∷ 0x39 ∷ []) ≡ 0x4B37
unfolding crc16_modbus
crc_check = refl

abbrev sample : Frame
sample = record { version = 1; seq = 300; flag = 0; frame_type = 1; payload = 0x41 ∷ 0x05 ∷ [] }

unescape_data-escape_data_example :
    unescape_data (escape_data (0x05 ∷ 0x41 ∷ [])) ≡ 0x05 ∷ 0x41 ∷ []
unescape_data-escape_data_example = unescape_data-escape_data (0x05 ∷ 0x41 ∷ [])

parse-build_example :
    (build sample ≡ some (sof_sequence ++ body sample ++ eof_sequence))
    × (parse (body sample) ≡ some (record sample { seq = 44 }))
parse-build_example = parse-build sample (omega arith)

-- A filter that is waiting for the partner of an escape byte.
abbrev midway : FrameFilter
midway = record init { buffer = 0x41 ∷ 0x10 ∷ []; escape_next = true; in_frame = true }

abbrev wire : List ℕ
wire = sof_sequence ++ body sample ++ eof_sequence

process-frame_example : process midway wire ≡ (idle midway, frame (record sample { seq = 44 }) ∷ [])
unfolding process process_byte
process-frame_example =
    process-frame midway sample wire (omega arith) (omega arith) refl parse-build_example.0

process-IsBounded_example : IsBounded (process init (0x05 ∷ 0x10 ∷ [])).0
process-IsBounded_example = process-IsBounded init (0x05 ∷ 0x10 ∷ []) (ground arith)

abbrev hello : List ℕ
hello = 0x68 ∷ 0x10 ∷ 0x69 ∷ []

process-plain_example : user_bytes (process init hello).1 ++ (process init hello).0.buffer ≡ hello
process-plain_example = process-plain init hello (ground arith) (ground arith)

send_heartbeat-process_example :
    (send_heartbeat true Dte.init ≡ some (record Dte.init { seq = 1 }, wire_of 0))
    × (process midway (wire_of 0) ≡ (idle midway, frame (create_heartbeat 0) ∷ []))
unfolding process process_byte
send_heartbeat-process_example = send_heartbeat-process Dte.init midway (omega arith) refl

abbrev quiet : Readable
quiet = record { serial = none; ptm = none }

abbrev beat : Readable
beat = record { serial = some (some (wire_of 7)); ptm = none }

abbrev fresh : ProxyService
fresh = record {
  running = true;
  ptm_open = true;
  filter = init;
  current_oper_state = none;
  last_heartbeat_time = 1000;
  last_data_activity = 1000;
  last_serial_data_time = 0;
}

initialize-fresh : initialize 1000 ≡ fresh
unfolding initialize
initialize-fresh = refl

fresh-IsTimely : IsTimely 1000 fresh
fresh-IsTimely = record {
  heartbeat = omega arith;
  activity = omega arith;
  near = inr (omega arith);
}

round_silent_example : (round 200 40000 quiet fresh).0.current_oper_state ≡ some unknown
round_silent_example = round_silent 200 1000 40000 quiet fresh fresh-IsTimely refl (omega arith)

round_active_example : (1000 + 15000 ≤ 40000) × (1000 + 15000 ≤ 40000)
round_active_example = round_active 200 40000 quiet fresh (λ e. cc) round_silent_example

round_heartbeat_example : IsFresh 2000 (round 200 2000 beat fresh).0
round_heartbeat_example = round_heartbeat 200 2000 beat fresh 7 refl refl (omega arith) refl

run_loop-Tracks_example : Tracks fresh (run_loop 200 ((2000, beat) ∷ (40000, quiet) ∷ []) fresh)
run_loop-Tracks_example = run_loop-Tracks 200 ((2000, beat) ∷ (40000, quiet) ∷ []) fresh

abbrev configs : List (String × ℕ)
configs = ("1", 9600) ∷ ("2", 115200) ∷ []

-- Link 1 is active with another baud rate, link 3 is not configured.
abbrev service : DceService
service = record {
  active_links = "1" ∷ "3" ∷ [];
  config_cache = ("1", 1200) ∷ ("3", 9600) ∷ [];
  commands = [];
}

abbrev both : DceService
both = record {
  active_links = "1" ∷ "2" ∷ [];
  config_cache = ("1", 1200) ∷ ("2", 115200) ∷ [];
  commands = [];
}

abbrev refuses : List Command → Command → Bool
refuses log c = false

abbrev succeeds : List Command → Command → Bool
succeeds log c = true

-- Nothing of a start or a restart succeeds, and the second synchronisation calls nothing.
sync_failing :
    (sync_enabled refuses configs both).commands
    ≡ Command.stop_proxy "1" ∷ Command.stop_pty_bridge "1" ∷ Command.start_pty_bridge "1" ∷ []
unfolding sync_enabled Dce.drop_links Dce.start_links Dce.restart_links Dce.restart_changed
    Dce.restart_link Dict.lookup Dict.insert Set.contains Set.filter
sync_failing = refl

configs-NodupKeys : NodupKeys configs
unfolding Dict.lookup
configs-NodupKeys = (refl, (refl, tt))

sync_enabled-keeps_example :
    Set.contains "1" (sync_enabled refuses configs service).active_links ≡ true
unfolding Dict.lookup Set.contains
sync_enabled-keeps_example = sync_enabled-keeps refuses configs service "1" configs-NodupKeys refl

sync_enabled-cached_example :
    (is_some (Dict.lookup "1" configs) ≡ true)
    × (Dict.lookup "1" (sync_enabled refuses configs service).config_cache
        ≡ Dict.lookup "1" configs)
sync_enabled-cached_example =
    sync_enabled-cached refuses configs service "1" configs-NodupKeys sync_enabled-keeps_example

sync_enabled-Runs_example : Runs "2" (sync_enabled succeeds configs service) true
unfolding Dict.lookup Set.contains runs_after
sync_enabled-Runs_example =
    sync_enabled-Runs succeeds (λ log c. refl) configs service "2" configs-NodupKeys (refl, refl)

both-links : (x : String) → Set.contains x both.active_links ≡ is_some (Dict.lookup x configs)
unfolding Dict.lookup Set.contains
both-links x = ground (arith, eq_iff "1" x, eq_iff "2" x)

-- The second write fails.
heartbeat_loop-sent_example :
    heartbeat_loop (true ∷ false ∷ []) Dte.init
    ≡ some (
      record Dte.init { seq = (0 + count_true (true ∷ false ∷ [])) % 256 },
      heartbeats_sent (true ∷ false ∷ []) 0,
    )
heartbeat_loop-sent_example = heartbeat_loop-sent (true ∷ false ∷ []) Dte.init (omega arith)
