-- ===== src/Host/DockerService.antt =====
-- host_modules/docker_service.py: starts and manages the containers of SONiC.
pub mod Limits
use sonic_host_services.Base.{
  ℕ, Bool, true, false, not, ◌&&◌, ◌||◌, ◌==◌, Option, none, some, List, [], ◌∷◌, String, str_eq,
  if◌then◌else◌, map,
}
use sonic_host_services.Base.Set.{contains}
use sonic_host_services.Base.Text.{Text, text_eq, codes, startswith}

abbrev pub allowed_containers : List String
allowed_containers =
    "bgp" ∷ "bmp" ∷ "database" ∷ "dhcp_relay" ∷ "eventd" ∷ "gnmi" ∷ "lldp" ∷ "pmon" ∷ "radv"
    ∷ "restapi" ∷ "snmp" ∷ "swss" ∷ "syncd" ∷ "teamd" ∷ []

abbrev pub allowed_images : List Text
allowed_images = map codes (
    "docker-database" ∷ "docker-dhcp-relay" ∷ "docker-eventd" ∷ "docker-fpm-frr" ∷ "docker-lldp"
    ∷ "docker-orchagent" ∷ "docker-platform-monitor" ∷ "docker-router-advertiser" ∷ "docker-snmp"
    ∷ "docker-sonic-bmp" ∷ "docker-sonic-gnmi" ∷ "docker-sonic-restapi" ∷ "docker-syncd-brcm"
    ∷ "docker-syncd-cisco" ∷ "docker-teamd" ∷ [])

-- `image.split(":")[0]`
unfoldable pub image_name : Text → Text
image_name [] = []
image_name (c ∷ image) = if c == 58 then [] else c ∷ image_name image

unfoldable pub is_one_of : List Text → Text → Bool
is_one_of [] s = false
is_one_of (t ∷ ts) s = text_eq t s || is_one_of ts s

unfoldable pub is_allowed_image : Text → Bool
is_allowed_image image = is_one_of allowed_images (image_name image)

-- The keyword arguments that are validated: whether `privileged`, `cap_add` and `devices` are there
-- with a value that Python takes for true, the keys of `volumes` (`none` if it has none to give,
-- no keys if it is missing), and `user` if it is a text.
pub record Kwargs : Type 0 where
  pub privileged : Bool
  pub volumes : Option (List Text)
  pub user : Option Text
  pub cap_add : Bool
  pub devices : Bool

abbrev pub sensitive_dirs : List Text
sensitive_dirs = map codes ("/etc" ∷ "/var" ∷ "/usr" ∷ [])

unfoldable pub starts_with_one_of : List Text → Text → Bool
starts_with_one_of [] bind = false
starts_with_one_of (sensitive_dir ∷ dirs) bind =
    startswith bind sensitive_dir || starts_with_one_of dirs bind

unfoldable pub mounts_sensitive : List Text → Bool
mounts_sensitive [] = false
mounts_sensitive (bind ∷ binds) = starts_with_one_of sensitive_dirs bind || mounts_sensitive binds

-- The exceptions that the methods tell apart; `other_error` is any other.
pub data Error : Type 0 where
  permission_error not_found value_error image_not_found file_not_found other_error : Error

abbrev pub is_text : Text → Option Text → Bool
is_text s none = false
is_text s (some t) = text_eq s t

abbrev pub validate_volumes : Option (List Text) → Option Error
validate_volumes none = some other_error
validate_volumes (some binds) = if mounts_sensitive binds then some value_error else none

-- The rest of the validation, once the volumes are checked.
abbrev pub validate_rest : Option Error → Kwargs → Option Error
validate_rest (some e) kwargs = some e
validate_rest none kwargs =
    if is_text (codes "root") kwargs.user
    then some value_error
    else if kwargs.cap_add
    then some value_error
    else if kwargs.devices
    then some value_error
    else none

-- The exception that is raised, if any.
unfoldable pub validate_docker_run_options : Kwargs → Option Error
validate_docker_run_options kwargs =
    if kwargs.privileged
    then some value_error
    else validate_rest (validate_volumes kwargs.volumes) kwargs

-- What the methods ask of Docker.
pub data Call : Type 0 where
  stop_container restart_container : String → Call
  kill_container : String → ℕ → Call
  run_image : Text → Kwargs → Call
  load_image : String → Call
  list_containers : Bool → Call

pub data Message : Type 0 where
  stopped killed restarted created loaded listed : Message
  not_allowed no_container command_not_allowed invalid_argument no_image no_file failed : Message

-- The Docker daemon: whether it can be reached, what getting a container raises, and what a call
-- raises.
pub record Docker : Type 0 where
  pub reachable : Bool
  pub get : String → Option Error
  pub perform : Call → Option Error

abbrev pub Reply : Type 0
Reply = ℕ × Message

-- The calls that were made, and the reply.
abbrev pub Result : Type 0
Result = List Call × Reply

-- EPERM is 1, ENOENT is 2 and EINVAL is 22.
abbrev pub container_reply : Message → Option Error → Reply
container_reply done none = (0, done)
container_reply done (some permission_error) = (1, not_allowed)
container_reply done (some not_found) = (2, no_container)
container_reply done (some _) = (1, failed)

unfoldable pub get_sonic_container : Docker → String → Option Error
get_sonic_container docker container_id =
    if not docker.reachable
    then some other_error
    else if contains container_id allowed_containers
    then docker.get container_id
    else some permission_error

-- One call on a container that was got, or the exception of getting it.
abbrev pub on_container : Docker → Call → Message → Option Error → Result
on_container docker call done (some e) = ([], container_reply done (some e))
on_container docker call done none = (call ∷ [], container_reply done (docker.perform call))

unfoldable pub stop : Docker → String → Result
stop docker container_id =
    on_container docker (stop_container container_id) stopped
      (get_sonic_container docker container_id)

unfoldable pub kill : Docker → String → ℕ → Result
kill docker container_id signal =
    on_container docker (kill_container container_id signal) killed
      (get_sonic_container docker container_id)

unfoldable pub restart : Docker → String → Result
restart docker container_id =
    on_container docker (restart_container container_id) restarted
      (get_sonic_container docker container_id)

abbrev pub is_empty : Text → Bool
is_empty [] = true
is_empty (c ∷ s) = false

abbrev pub run_reply : Option Error → Reply
run_reply none = (0, created)
run_reply (some value_error) = (22, invalid_argument)
run_reply (some image_not_found) = (2, no_image)
run_reply (some _) = (1, failed)

abbrev pub run_validated : Docker → Text → Kwargs → Option Error → Result
run_validated docker image kwargs (some e) = ([], run_reply (some e))
run_validated docker image kwargs none =
    (run_image image kwargs ∷ [], run_reply (docker.perform (run_image image kwargs)))

unfoldable pub run : Docker → Text → Text → Kwargs → Result
run docker image command kwargs =
    if not docker.reachable
    then ([], (1, failed))
    else if not (is_allowed_image image)
    then ([], (1, not_allowed))
    else if not (is_empty command)
    then ([], (1, command_not_allowed))
    else run_validated docker image kwargs (validate_docker_run_options kwargs)

abbrev pub load_reply : Option Error → Reply
load_reply none = (0, loaded)
load_reply (some file_not_found) = (2, no_file)
load_reply (some _) = (1, failed)

-- `opens` is what opening the archive raises.
abbrev pub load_opened : Docker → String → Option Error → Result
load_opened docker image (some e) = ([], load_reply (some e))
load_opened docker image none =
    (load_image image ∷ [], load_reply (docker.perform (load_image image)))

unfoldable pub load : Docker → Option Error → String → Result
load docker opens image =
    if not docker.reachable then ([], (1, failed)) else load_opened docker image opens

-- The reply of `list` is `none` where an exception leaves the method: the handler of an exception
-- that comes before the list is built reads a variable without a value.
abbrev pub list_reply : Option Error → Option Reply
list_reply none = some (0, listed)
list_reply (some e) = none

unfoldable pub list : Docker → Bool → List Call × Option Reply
list docker all =
    if not docker.reachable
    then ([], none)
    else (list_containers all ∷ [], list_reply (docker.perform (list_containers all)))
