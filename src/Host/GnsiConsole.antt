-- ===== src/Host/GnsiConsole.antt =====
-- host_modules/gnsi_console.py: changes the passwords of console users in /etc/shadow, with a
-- checkpoint of the file.
pub mod Passwords
pub mod Checkpoint
use sonic_host_services.Base.{
  ℕ, Bool, true, false, not, ◌||◌, Option, none, some, List, [], ◌∷◌, ◌++◌, String, if◌then◌else◌,
}
use sonic_host_services.Base.Text.{Text, codes, startswith}
use sonic_host_services.Host.Files.{Files, read, write, copy, move, remove, is_file}

-- The lines of a file, each with its end.
abbrev pub Lines : Type 0
Lines = List Text

abbrev pub passwd_file : String
passwd_file = "/etc/shadow"

abbrev pub passwd_file_checkpoint_file : String
passwd_file_checkpoint_file = "/etc/shadow_checkpoint"

abbrev pub passwd_file_temp : String
passwd_file_temp = "/etc/shadow_temp"

-- TRAILING_PASSWORD_INFO: the text and a line end.
abbrev pub trailing_password_info : Text
trailing_password_info = codes ":12215:0:99999:7:::" ++ 10 ∷ []

-- The messages of the replies, without the texts of exceptions.
pub data Message : Type 0 where
  created_checkpoint create_checkpoint_failed checkpoint_not_present : Message
  deleted_checkpoint delete_checkpoint_failed : Message
  set_without_checkpoint invalid_json invalid_request read_failed : Message
  create_temp_failed create_temp_and_remove_failed : Message
  updated replace_failed replace_and_remove_failed : Message
  restore_checkpoint_reply set_reply : Message → Message

abbrev pub Reply : Type 0
Reply = ℕ × Message

abbrev pub Step : Type 0
Step = Files Lines × Reply

unfoldable pub create_checkpoint : Files Lines → Step
create_checkpoint fs =
    let (fs1, ok) = copy passwd_file passwd_file_checkpoint_file fs in
    (fs1, if ok then (0, created_checkpoint) else (1, create_checkpoint_failed))

-- Overwrites the password file with the given one through a move, and removes the given file if
-- that failed and it is still there.
unfoldable pub update_password_file : String → Files Lines → Step
update_password_file given fs =
    let (fs1, ok) = move given passwd_file fs in
    let (fs2, removed) = remove given fs1 in
    if ok
    then (fs1, (0, updated))
    else if is_file given fs1
    then (fs2, (1, if removed then replace_failed else replace_and_remove_failed))
    else (fs1, (1, replace_failed))

unfoldable pub restore_checkpoint : Files Lines → Step
restore_checkpoint fs =
    let (fs1, (code, message)) = update_password_file passwd_file_checkpoint_file fs in
    if not (is_file passwd_file_checkpoint_file fs)
    then (fs, (1, checkpoint_not_present))
    else (fs1, (code, restore_checkpoint_reply message))

unfoldable pub delete_checkpoint : Files Lines → Step
delete_checkpoint fs =
    let (fs1, ok) = remove passwd_file_checkpoint_file fs in
    (fs1, if ok then (0, deleted_checkpoint) else (1, delete_checkpoint_failed))

-- `for index, each_line in enumerate(...)`: every line that starts with the name is replaced.
unfoldable pub update_password_if_user_found : Text → Text → Lines → Lines
update_password_if_user_found user_name user_password [] = []
update_password_if_user_found user_name user_password (each_line ∷ lines) =
    (if startswith each_line user_name
      then user_name ++ (codes ":" ++ (user_password ++ trailing_password_info))
      else each_line)
    ∷ update_password_if_user_found user_name user_password lines

-- Writes the lines to the temporary file, and removes what a failed write left.
unfoldable pub create_temp_passwd_file : Lines → Files Lines → Files Lines × Option Reply
create_temp_passwd_file lines fs =
    let (fs1, ok) = write passwd_file_temp lines fs in
    let (fs2, removed) = remove passwd_file_temp fs1 in
    if ok
    then (fs1, none)
    else if is_file passwd_file_temp fs1
    then (fs2, some (1, if removed then create_temp_failed else create_temp_and_remove_failed))
    else (fs1, some (1, create_temp_failed))

abbrev pub replace_by_temp : Option Reply → Files Lines → Step
replace_by_temp (some reply) fs = (fs, reply)
replace_by_temp none fs =
    let (fs1, (code, message)) = update_password_file passwd_file_temp fs in
    (fs1, (code, set_reply message))

-- `set` once the lines are read.
unfoldable pub replace_lines : Lines → Files Lines → Step
replace_lines lines fs =
    let (fs1, err) = create_temp_passwd_file lines fs in replace_by_temp err fs1

-- One request of "ConsolePasswords": the fields may be missing.
pub record Request : Type 0 where
  pub name : Option Text
  pub password : Option Text

-- What `json.loads(options[0])` gives, for requests of the documented form.
pub data Options : Type 0 where
  not_json without_passwords : Options
  console_passwords : List Request → Options

abbrev is_empty {ℓ} : {A : Type ℓ} → List A → Bool
is_empty [] = true
is_empty (x ∷ xs) = false

-- `openssl` is the command "openssl passwd -6" on a text: its first line of output, `none` if the
-- command fails.
module _ (openssl : Text → Option Text) where
  unfoldable pub get_hashed_password : Text → Text
  get_hashed_password text = elim (openssl text) [ none ↦ [] | some line ↦ line ]

  abbrev apply_request : Option Text → Option Text → Lines → Lines
  apply_request none password lines = lines
  apply_request (some name) none lines = lines
  apply_request (some name) (some password) lines =
      let hashed_password = get_hashed_password password in
      if is_empty hashed_password
      then lines
      else update_password_if_user_found name hashed_password lines

  -- The loop over the requests.
  unfoldable pub apply_requests : List Request → Lines → Lines
  unfolding get_hashed_password
  apply_requests [] lines = lines
  apply_requests (r ∷ requests) lines =
      apply_requests requests (apply_request r.name r.password lines)

  abbrev pub set_lines : List Request → Option Lines → Files Lines → Step
  set_lines requests none fs = (fs, (1, read_failed))
  set_lines requests (some []) fs = (fs, (1, read_failed))
  set_lines requests (some (line ∷ lines)) fs =
      replace_lines (apply_requests requests (line ∷ lines)) fs

  abbrev pub set_requests : Options → Files Lines → Step
  set_requests not_json fs = (fs, (1, invalid_json))
  set_requests without_passwords fs = (fs, (1, invalid_request))
  set_requests (console_passwords requests) fs =
      let (fs1, lines) = read passwd_file fs in set_lines requests lines fs1

  unfoldable pub set : Options → Files Lines → Step
  unfolding replace_lines
  set options fs =
      if not (is_file passwd_file_checkpoint_file fs)
      then (fs, (1, set_without_checkpoint))
      else set_requests options fs
