-- ===== src/Host/Reboot.antt =====
-- host_modules/reboot.py: reboots the host in a thread and reports on it. Times of the clock are
-- whole milliseconds.
pub mod Halt
pub mod Status
pub mod Ends
use sonic_host_services.Base.{
  ℕ, zero, suc, ◌+◌, ◌*◌, Bool, true, false, not, ◌&&◌, ◌||◌, Option, none, some, List, [], ◌∷◌,
  String, str_eq, ltb, ◌==◌, if◌then◌else◌,
}

-- A value of a JSON object, as far as the code tells values apart. `other` is null, a negative or a
-- fractional number; `container` is an array or an object, which no Python set can hold.
pub data Value : Type 0 where
  number : ℕ → Value
  bool : Bool → Value
  text : String → Value
  other container : Value

-- The request, an object whose fields may be missing.
pub record Request : Type 0 where
  pub method : Option Value
  pub delay : Option Value
  pub message : Option Value

pub data RebootStatus : Type 0 where
  status_unknown status_success status_retriable_failure status_failure : RebootStatus

-- `reboot_status_flag`; the message of its status is always empty.
pub record Flag : Type 0 where
  pub active : Bool
  pub when : ℕ
  pub reason : Value
  pub count : ℕ
  pub method : Value
  pub status : RebootStatus

pub record Reboot : Type 0 where
  pub reboot_status_flag : Flag
  pub reboot_count : ℕ

pub data Command : Type 0 where
  reboot reboot_halt warm_reboot : Command

abbrev pub halt_timeout : ℕ
halt_timeout = 60

-- `platform.json` as far as get_dpu_halt_services_timeout reads it. `not_int` is a value that int()
-- refuses, `int_of` a value that it makes a number of, and `negative` one that is below zero.
pub data Platform : Type 0 where
  unreadable no_timeout null_timeout not_int negative : Platform
  int_of : ℕ → Platform

unfoldable pub get_dpu_halt_services_timeout : Platform → ℕ
get_dpu_halt_services_timeout (int_of timeout) = if ltb 0 timeout then timeout else halt_timeout
get_dpu_halt_services_timeout _ = halt_timeout

-- Whether a value is in the set of a number from 1 on and a name; Python's True is 1.
abbrev pub is_in : ℕ → String → Value → Bool
is_in n name (number m) = m == n
is_in n name (bool true) = n == 1
is_in n name (text s) = str_eq s name
is_in n name _ = false

abbrev pub is_cold_boot : Value → Bool
is_cold_boot v = is_in 1 "COLD" v

abbrev pub is_halt_boot : Value → Bool
is_halt_boot v = is_in 3 "HALT" v

abbrev pub is_warm_boot : Value → Bool
is_warm_boot v = is_in 4 "WARM" v

unfoldable pub populate_reboot_status_flag :
    Bool → ℕ → Value → Value → RebootStatus → Reboot → Reboot
populate_reboot_status_flag active when reason method status r = record {
  reboot_status_flag = record {
    active = active;
    when = when;
    reason = reason;
    count = r.reboot_count;
    method = method;
    status = status;
  };
  reboot_count = r.reboot_count;
}

abbrev pub init : Reboot
init = record {
  reboot_status_flag = record {
    active = false;
    when = 0;
    reason = text "";
    count = 0;
    method = text "";
    status = status_unknown;
  };
  reboot_count = 0;
}

pub data Message : Type 0 where
  no_message no_method unsupported_method delayed_reboot : Message
  previous_ongoing parse_failed start_failed issued : Message

-- A reply; `none` where an exception leaves the method.
abbrev pub Reply : Type 0
Reply = Option (ℕ × Message)

abbrev pub is_zero : Value → Bool
is_zero (number n) = n == 0
is_zero (bool b) = not b
is_zero _ = false

abbrev pub check_delay : Option Value → Reply
check_delay none = some (0, no_message)
check_delay (some delay) = if is_zero delay then some (0, no_message) else some (1, delayed_reboot)

abbrev pub check_method : Option Value → Option Value → Reply
check_method none delay = some (1, no_method)
check_method (some container) delay = none
check_method (some method) delay =
    if is_cold_boot method || is_halt_boot method || is_warm_boot method
    then check_delay delay
    else some (1, unsupported_method)

unfoldable pub validate_reboot_request : Request → Reply
validate_reboot_request request = check_method request.method request.delay

-- How the waiting for a halt ends.
pub data Halted : Type 0 where
  completed did_not_complete : Halted

-- The probes of a halt: how long after the start of the wait the i-th comes, and whether it finds
-- the halt command or the container pmon running.
pub record Probes : Type 0 where
  pub elapsed : ℕ → ℕ
  pub running : ℕ → Bool

-- The loop from the i-th probe on, and the check after it; `none` when the fuel is used up.
unfoldable pub wait_halt : Probes → ℕ → ℕ → ℕ → Option Halted
wait_halt probes timeout zero i = none
wait_halt probes timeout (suc fuel) i =
    let rest = wait_halt probes timeout fuel (suc i) in
    if ltb (probes.elapsed i) (timeout * 1000)
    then if not (probes.running i) then some completed else rest
    else some (if probes.running i then did_not_complete else completed)

-- What the thread meets: whether the command fails, what the probes see, the platform's file, and
-- the time at the end.
pub record Run : Type 0 where
  pub command_fails : Bool
  pub probes : Probes
  pub platform : Platform
  pub end_time : ℕ

abbrev pub end_halt : Value → ℕ → Halted → Reboot → Reboot
end_halt method now completed r =
    populate_reboot_status_flag false 0 (text "Halt reboot completed") method status_success r
end_halt method now did_not_complete r =
    populate_reboot_status_flag false now (text "Halt reboot did not complete") method
      status_failure r

abbrev pub command_of : Value → Option Command
command_of method =
    if is_cold_boot method
    then some reboot
    else if is_halt_boot method
    then some reboot_halt
    else if is_warm_boot method
    then some warm_reboot
    else none

abbrev pub after_halt : Value → ℕ → Option Halted → Reboot → Option Reboot
after_halt method now none r = none
after_halt method now (some h) r = some (end_halt method now h r)

-- The thread once its command is chosen.
abbrev pub run_command : Run → ℕ → Value → Option Command → Reboot → Option Reboot
run_command run fuel method none r = some r
run_command run fuel method (some c) r =
    let timeout = get_dpu_halt_services_timeout run.platform in
    if run.command_fails
    then some (
        populate_reboot_status_flag false run.end_time (text "Failed to execute reboot command")
          method status_failure r)
    else if is_halt_boot method
    then after_halt method run.end_time (wait_halt run.probes timeout fuel 0) r
    else some (
        populate_reboot_status_flag false run.end_time (text "Reboot command failed to execute")
          method status_failure r)

-- The thread, when the host outlives it; `none` when the fuel for the probes is used up.
unfoldable pub execute_reboot : Run → ℕ → Value → Reboot → Option Reboot
execute_reboot run fuel method r = run_command run fuel method (command_of method) r

-- The service, and the methods of the threads of execute_reboot that run.
pub record System : Type 0 where
  pub service : Reboot
  pub threads : List Value

abbrev pub message_of : Option Value → Value
message_of none = text ""
message_of (some v) = v

abbrev pub start : ℕ → Bool → Option Value → Option Value → Reply → System → System × Reply
start now starts (some method) message (some (zero, m)) s =
    let service =
      populate_reboot_status_flag true now (message_of message) method status_unknown s.service in
    if starts
    then (record { service = service; threads = method ∷ s.threads }, some (0, issued))
    else (record s { service = service }, some (1, start_failed))
start now starts method message reply s = (s, reply)

abbrev pub issue_request : ℕ → Bool → Option Request → System → System × Reply
issue_request now starts none s = (s, some (1, parse_failed))
issue_request now starts (some request) s =
    start now starts request.method request.message (validate_reboot_request request) s

-- `request` is what json.loads makes of the option, `none` when it refuses; `starts` says whether
-- the thread can be started.
unfoldable pub issue_reboot : ℕ → Bool → Option Request → System → System × Reply
issue_reboot now starts request s =
    let counted = record s {
      service = record s.service { reboot_count = suc s.service.reboot_count };
    } in
    if s.service.reboot_status_flag.active
    then (counted, some (1, previous_ongoing))
    else issue_request now starts request counted

unfoldable pub get_reboot_status : System → ℕ × Flag
get_reboot_status s = (0, s.service.reboot_status_flag)
