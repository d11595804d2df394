-- ===== src/Host/GnoiReset.antt =====
-- host_modules/gnoi_reset.py: the request for a factory reset.
pub mod Unsupported
use sonic_host_services.Base.{
  ℕ, zero, suc, ◌==◌, Bool, true, false, ◌&&◌, Option, none, some, List, [], ◌∷◌, String,
  if◌then◌else◌,
}

-- A field of the request: whether it is there, and whether Python takes its value for true.
abbrev pub Field : Type 0
Field = Option Bool

-- The fields of the object that json.loads gives, under both of their names.
pub record Raw : Type 0 where
  pub camel_factory_os : Field
  pub factory_os : Field
  pub camel_zero_fill : Field
  pub zero_fill : Field
  pub camel_retain_certs : Field
  pub retain_certs : Field

pub record ResetRequest : Type 0 where
  pub factory_os_set : Bool
  pub zero_fill_set : Bool
  pub retain_certs_set : Bool

pub data Detail : Type 0 where
  no_detail parse_failed zero_fill_is_unsupported start_is_unsupported : Detail
  previous_ongoing start_failed : Detail

-- `reset_response`, and with the detail the reply.
pub data Response : Type 0 where
  empty reset_success : Response
  factory_os_unsupported zero_fill_unsupported other : Response

pub record GnoiReset : Type 0 where
  pub is_reset_ongoing : Bool
  pub reset_request : Option ResetRequest
  pub reset_response : Response
  -- The cold reboots that threads were started for.
  pub reboots : ℕ

abbrev pub Reply : Type 0
Reply = ℕ × (Response × Detail)

-- What a method does: `none` is an exception that leaves it.
abbrev pub Step : Type 0
Step = GnoiReset × Option Reply

unfoldable pub init : GnoiReset
init = record {
  is_reset_ongoing = false;
  reset_request = none;
  reset_response = empty;
  reboots = 0;
}

abbrev pub response_of : Bool → Bool → Bool → Response
response_of success factory_os zero_fill =
    if success
    then reset_success
    else if factory_os
    then factory_os_unsupported
    else if zero_fill
    then zero_fill_unsupported
    else other

unfoldable pub populate_reset_response : Bool → Bool → Bool → Detail → GnoiReset → GnoiReset × Reply
populate_reset_response success factory_os zero_fill detail g = (
  record g { reset_response = response_of success factory_os zero_fill },
  (0, (response_of success factory_os zero_fill, detail)),
)

unfoldable pub check_reboot_in_progress : GnoiReset → ℕ
check_reboot_in_progress g = if g.is_reset_ongoing then 1 else 0

-- `raw.get(a, raw.get(b, False))`
abbrev pub either_field : Field → Field → Bool
either_field (some a) b = a
either_field none (some b) = b
either_field none none = false

unfoldable pub normalize : Raw → ResetRequest
normalize raw = record {
  factory_os_set = either_field raw.camel_factory_os raw.factory_os;
  zero_fill_set = either_field raw.camel_zero_fill raw.zero_fill;
  retain_certs_set = either_field raw.camel_retain_certs raw.retain_certs;
}

-- What json.loads makes of the options: an object, a ValueError, or something else that raises: the
-- TypeError of options that are no text, such as the array of the D-Bus signature, and the
-- AttributeError of a JSON value that is no object.
pub data Loaded : Type 0 where
  raises value_error : Loaded
  object : Raw → Loaded

-- The checks of the request, once it is stored.
abbrev pub check_request : ResetRequest → GnoiReset → GnoiReset × Reply
check_request request g =
    if request.factory_os_set && request.zero_fill_set
    then populate_reset_response false false true zero_fill_is_unsupported g
    else if request.factory_os_set && request.retain_certs_set
    then populate_reset_response false false false start_is_unsupported g
    else if request.factory_os_set
    then populate_reset_response false false false start_is_unsupported g
    else populate_reset_response false false false start_is_unsupported g

unfoldable pub parse_arguments : Loaded → GnoiReset → Option (GnoiReset × Reply)
parse_arguments raises g = none
parse_arguments value_error g = some (populate_reset_response false false false parse_failed g)
parse_arguments (object raw) g =
    some (check_request (normalize raw) (record g { reset_request = some (normalize raw) }))

-- `starts` says whether the thread can be started.
unfoldable pub execute_reboot : Bool → GnoiReset → GnoiReset × ℕ
execute_reboot starts g =
    if starts
    then (record g { reboots = suc g.reboots }, 0)
    else (record g { is_reset_ongoing = false }, 1)

-- After the arguments: the integer that `_execute_reboot` returns cannot be unpacked into two
-- variables, which is a TypeError.
abbrev pub go_on : Bool → GnoiReset → Option (GnoiReset × Reply) → Step
go_on starts g none = (g, none)
go_on starts g (some (parsed, (zero, response))) = (parsed, some (0, response))
go_on starts g (some (parsed, (suc rc, response))) =
    let (g1, reply) = populate_reset_response false false false previous_ongoing parsed in
    let (g2, rc2) = execute_reboot starts (record parsed { is_reset_ongoing = true }) in
    if check_reboot_in_progress parsed == 0 then (g2, none) else (g1, some reply)

unfoldable pub issue_reset : Bool → Loaded → GnoiReset → Step
issue_reset starts loaded g = go_on starts g (parse_arguments loaded g)
