-- ===== src/Console/Dte.antt =====
-- `DTEService` of scripts/console-monitor: sends heartbeat frames while it is enabled.
pub mod Heartbeats
use sonic_host_services.Base.{
  ℕ, zero, suc, ◌+◌, ◌%◌, Bool, true, false, Option, none, some, List, [], ◌∷◌, ◌++◌, String,
  str_eq, if◌then◌else◌,
}
use sonic_host_services.Base.Dict.{lookup}
use sonic_host_services.Console.Frame.{build, create_heartbeat}

-- `heartbeat_thread` says that the thread exists and is alive.
pub record DteService : Type 0 where
  pub enabled : Bool
  pub seq : ℕ
  pub heartbeat_thread : Bool
  pub heartbeat_stop : Bool

abbrev pub init : DteService
init = record { enabled = false; seq = 0; heartbeat_thread = false; heartbeat_stop = false }

abbrev entry_enabled : Option (List (String × String)) → Bool
entry_enabled none = false
entry_enabled (some entry) = elim (lookup "enabled" entry) [
  | none ↦ false
  | some v ↦ str_eq v "yes"
]

-- `entry` is what the configuration database returns, `none` for no entry or an exception.
unfoldable pub check_enabled : Option (List (String × String)) → Bool
unfolding lookup
check_enabled entry = entry_enabled entry

unfoldable pub start_heartbeat : DteService → DteService
start_heartbeat s =
    if s.heartbeat_thread then s else record s { heartbeat_stop = false; heartbeat_thread = true }

unfoldable pub stop_heartbeat : DteService → DteService
stop_heartbeat s = record s { heartbeat_stop = true; heartbeat_thread = false }

unfoldable pub load_initial_config : Option (List (String × String)) → DteService → DteService
unfolding start_heartbeat
load_initial_config entry s =
    let t = record s { enabled = check_enabled entry } in if t.enabled then start_heartbeat t else t

abbrev same : Bool → Bool → Bool
same true b = b
same false true = false
same false false = true

unfoldable pub console_switch_handler : Option (List (String × String)) → DteService → DteService
unfolding start_heartbeat stop_heartbeat
console_switch_handler entry s =
    let new_enabled = check_enabled entry in
    let t = record s { enabled = new_enabled } in
    if same new_enabled s.enabled
    then s
    else if new_enabled
    then start_heartbeat t
    else stop_heartbeat t

-- `stop` of the service.
unfoldable pub stop : DteService → DteService
unfolding stop_heartbeat
stop s = stop_heartbeat s

-- `written` says whether the device was opened and the write went through. The second part is what
-- was written; `none` on the outside is an exception of `build`, which nothing catches.
unfoldable pub send_heartbeat : Bool → DteService → Option (DteService × List ℕ)
send_heartbeat written s = elim (build (create_heartbeat s.seq)) [
  | none ↦ none
  | some frame_bytes ↦
      if written then some (record s { seq = (s.seq + 1) % 256 }, frame_bytes) else some (s, [])
]

-- The rounds of `_heartbeat_loop`, one for each answer of the device.
unfoldable pub heartbeat_loop : List Bool → DteService → Option (DteService × List (List ℕ))
heartbeat_loop [] s = some (s, [])
heartbeat_loop (written ∷ rest) s = elim (send_heartbeat written s) [
  | none ↦ none
  | some (t, frame_bytes) ↦ elim (heartbeat_loop rest t) [
    | none ↦ none
    | some (u, sent) ↦ some (u, frame_bytes ∷ sent)
  ]
]
