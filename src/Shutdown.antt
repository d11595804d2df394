-- ===== src/Shutdown.antt =====
-- scripts/gnoi_shutdown_daemon.py: halts the services of a DPU module that is shut down. Times are
-- whole milliseconds.
pub mod Polls
pub mod Daemon
pub mod Outcome
use sonic_host_services.Base.{
  ℕ, zero, suc, ◌*◌, Bool, true, false, not, ◌&&◌, Option, none, some, List, [], ◌∷◌, String, ◌>>=◌,
  str_eq, ltb, if◌then◌else◌, ◌<>◌,
}

abbrev pub status_poll_timeout_sec : ℕ
status_poll_timeout_sec = 60

abbrev pub default_gnmi_port : String
default_gnmi_port = "8080"

-- What `_get_halt_timeout` finds: no platform name, no file or an error that it catches, a file
-- without the field, a field with a number, or what raises another exception, such as a field that
-- is null (TypeError), a file that is no object (AttributeError) or a missing module (ImportError).
pub data Platform : Type 0 where
  not_found no_timeout raising : Platform
  timeout_sec : ℕ → Platform

-- `none` for the exception, which nothing catches before the thread of the transition does.
unfoldable pub get_halt_timeout : Platform → Option ℕ
get_halt_timeout not_found = some status_poll_timeout_sec
get_halt_timeout no_timeout = some status_poll_timeout_sec
get_halt_timeout (timeout_sec n) = some n
get_halt_timeout raising = none

-- `hget` of CONFIG_DB, by key and field.
abbrev pub Hget : Type 0
Hget = String → String → Option String

abbrev pub non_empty : Option String → Option String
non_empty none = none
non_empty (some s) = if str_eq s "" then none else some s

unfoldable pub get_dpu_ip : Hget → String → Option String
get_dpu_ip hget dpu_name_lower =
    non_empty (hget ("DHCP_SERVER_IPV4_PORT|bridge-midplane|" <> dpu_name_lower) "ips@")

-- The loop over the spellings of the name.
unfoldable pub get_dpu_gnmi_port : Hget → List String → String
get_dpu_gnmi_port hget [] = default_gnmi_port
get_dpu_gnmi_port hget (k ∷ names) =
    let rest = get_dpu_gnmi_port hget names in
    elim (non_empty (hget ("DPU|" <> k) "gnmi_port")) [ none ↦ rest | some port ↦ port ]

-- The tests of a loop that polls: how long after its start the i-th comes, and what it finds.
pub record Tests : Type 0 where
  pub elapsed : ℕ → ℕ
  pub found : ℕ → Bool

-- A loop that tests until its deadline, from the i-th test on; `none` when the fuel is used up.
unfoldable pub poll : Tests → ℕ → ℕ → ℕ → Option Bool
poll tests timeout zero i = none
poll tests timeout (suc fuel) i =
    let rest = poll tests timeout fuel (suc i) in
    if ltb (tests.elapsed i) (timeout * 1000)
    then if tests.found i then some true else rest
    else some false

-- What the chassis knows of the module: its index is negative or it has no such module, asking
-- raises, or it is there.
pub data Module : Type 0 where
  no_module asking_raises there : Module

-- The operational status: offline or powered down, another, or asking raises.
pub data OperStatus : Type 0 where
  down not_down status_raises : OperStatus

pub record Env : Type 0 where
  pub module_ : Module
  pub oper_status : OperStatus
  -- Whether clear_module_gnoi_halt_in_progress returns.
  pub clears : Bool
  pub hget : Hget
  -- Whether reading the configuration raises what get_dpu_ip does not catch.
  pub config_raises : Bool
  -- Whether the gnoi_client command for Reboot ends with code 0.
  pub reboot_succeeds : Bool
  pub platform : Platform
  -- The reads of the flag gnoi_halt_in_progress, and the replies to RebootStatus.
  pub halt_tests : Tests
  pub status_tests : Tests

-- What the handler does to the outside, in order: it sends a reboot, and it calls _clear_halt_flag,
-- which clears the flag of a module that is there, unless the platform raises.
pub data Action : Type 0 where
  send_reboot : String → String → Action
  call_clear_halt_flag : Action

abbrev pub skip_of : Module → OperStatus → Option Bool
skip_of there down = some true
skip_of there not_down = some false
skip_of _ _ = none

-- `none` for "cannot determine" and for an exception, with which the caller proceeds alike.
unfoldable pub should_skip_gnoi_shutdown : Env → Option Bool
should_skip_gnoi_shutdown env = skip_of env.module_ env.oper_status

abbrev pub cleared : Module → Bool → Bool
cleared there clears = clears
cleared _ clears = false

-- Whether `_clear_halt_flag` returns True.
unfoldable pub clear_halt_flag : Env → Bool
clear_halt_flag env = cleared env.module_ env.clears

unfoldable pub wait_for_gnoi_halt_in_progress : Env → ℕ → Option Bool
wait_for_gnoi_halt_in_progress env fuel = do
  timeout ← get_halt_timeout env.platform
  poll env.halt_tests timeout fuel 0

unfoldable pub poll_reboot_status : Env → ℕ → Option Bool
poll_reboot_status env fuel = do
  timeout ← get_halt_timeout env.platform
  poll env.status_tests timeout fuel 0

-- The actions and the result. A handler without an outcome raised, or ran out of fuel.
abbrev pub Outcome : Type 0
Outcome = List Action × Bool

abbrev pub after_status : String → String → Option Bool → Option Outcome
after_status ip port none = none
after_status ip port (some successful) =
    some (send_reboot ip port ∷ call_clear_halt_flag ∷ [], successful)

-- From the configuration on.
abbrev pub with_ip : Env → ℕ → String → Option String → Option Outcome
with_ip env fuel port none = some (call_clear_halt_flag ∷ [], false)
with_ip env fuel port (some ip) =
    if not env.reboot_succeeds
    then some (send_reboot ip port ∷ call_clear_halt_flag ∷ [], false)
    else after_status ip port (poll_reboot_status env fuel)

abbrev pub lower_name : List String → String
lower_name [] = ""
lower_name (name ∷ more) = name

abbrev pub after_wait : Env → ℕ → List String → Option Bool → Option Outcome
after_wait env fuel names none = none
after_wait env fuel names (some detached) =
    if env.config_raises
    then some (call_clear_halt_flag ∷ [], false)
    else with_ip env fuel (get_dpu_gnmi_port env.hget names)
        (get_dpu_ip env.hget (lower_name names))

abbrev pub is_true : Option Bool → Bool
is_true none = false
is_true (some b) = b

-- `names` are the spellings of the module's name: in lower case, in upper case, and as it is.
unfoldable pub handle_transition : Env → ℕ → List String → Option Outcome
handle_transition env fuel names =
    if is_true (should_skip_gnoi_shutdown env)
    then some (call_clear_halt_flag ∷ [], clear_halt_flag env)
    else after_wait env fuel names (wait_for_gnoi_halt_in_progress env fuel)
