-- ===== src/Host/Glome.antt =====
-- host_modules/glome.py: the configuration file of GLOME, with a backup.
pub mod Backup
use sonic_host_services.Base.{
  ℕ, Bool, true, false, not, ◌&&◌, Option, none, some, String, if◌then◌else◌,
}
use sonic_host_services.Base.Text.{Text}
use sonic_host_services.Host.Files.{
  Files, write, copy, remove, is_file, is_success, answer_of, rest_of,
}

abbrev pub glome_path : String
glome_path = "/host/glome/glome.conf"

abbrev pub glome_backup_path : String
glome_backup_path = "/host/glome/glome_backup.conf"

-- The section "service" of the file.
pub record Config : Type 0 where
  pub key : Text
  pub key_version : Text
  pub url_prefix : Text

-- What json.loads gives. A field is `none` if it is missing; `enabled` is its truth.
pub data Payload : Type 0 where
  not_json : Payload
  payload : Option Bool → Option Text → Option Text → Option Text → Payload

-- The outcome of a method: an OSError of a call, an error of JSON, or a missing key.
pub data Ended : Type 0 where
  ended os_error json_error key_error : Ended

-- A call that changes no content: mkdir and chmod.
unfoldable pub ask : Files Config → Files Config × Bool
ask fs = (record fs { answers = rest_of fs.answers }, is_success (answer_of fs.answers))

-- A file that is not there is no error.
unfoldable pub remove_config_file : String → Files Config → Files Config × Bool
remove_config_file path fs =
    let removed = remove path fs in if is_file path fs then removed else (fs, true)

abbrev pub config_of : Option Text → Option Text → Option Text → Option Config
config_of (some key) (some key_version) (some url_prefix) =
    some (record { key = key; key_version = key_version; url_prefix = url_prefix })
config_of _ _ _ = none

abbrev pub os_ended : Bool → Ended
os_ended ok = if ok then ended else os_error

abbrev pub write_found : Option Config → Files Config → Files Config × Ended
write_found none fs = (fs, key_error)
write_found (some config) fs =
    let (fs1, written) = write glome_path config fs in
    let (fs2, changed) = ask fs1 in if written then (fs2, os_ended changed) else (fs1, os_error)

unfoldable pub write_config_file : Option Config → Files Config → Files Config × Ended
unfolding ask
write_config_file config fs =
    let (fs1, made) = ask fs in
    let found = write_found config fs1 in if made then found else (fs1, os_error)

-- `shutil.copy` if the source exists, and otherwise the removal of the destination.
unfoldable pub copy_or_remove : String → String → Files Config → Files Config × Bool
copy_or_remove src dst fs =
    let copied = copy src dst fs in
    let removed = remove_config_file dst fs in if is_file src fs then copied else removed

abbrev pub apply_payload : Payload → Files Config → Files Config × Ended
apply_payload not_json fs = (fs, json_error)
apply_payload (payload none key version prefix) fs = (fs, key_error)
apply_payload (payload (some true) key version prefix) fs =
    write_config_file (config_of key version prefix) fs
apply_payload (payload (some false) key version prefix) fs =
    let (fs1, removed) = remove_config_file glome_path fs in (fs1, os_ended removed)

unfoldable pub push : Payload → Files Config → Files Config × Ended
push p fs =
    let (fs1, saved) = copy_or_remove glome_path glome_backup_path fs in
    let applied = apply_payload p fs1 in if saved then applied else (fs1, os_error)

-- The code of a reply: 1 for a PermissionError, 2 for any other OSError.
abbrev pub code_of : Bool → Ended → ℕ
code_of is_permission ended = 0
code_of is_permission os_error = if is_permission then 1 else 2
code_of is_permission json_error = 3
code_of is_permission key_error = 4

-- `is_permission` is the kind of the OSError, if one comes.
abbrev pub push_config : Bool → Payload → Files Config → Files Config × ℕ
push_config is_permission p fs =
    let (fs1, outcome) = push p fs in (fs1, code_of is_permission outcome)

unfoldable pub restore : Files Config → Files Config × Ended
unfolding copy_or_remove
restore fs =
    let (fs1, restored) = copy_or_remove glome_backup_path glome_path fs in (fs1, os_ended restored)

abbrev pub restore_checkpoint : Bool → Files Config → Files Config × ℕ
restore_checkpoint is_permission fs =
    let (fs1, outcome) = restore fs in (fs1, code_of is_permission outcome)
