-- ===== src/Host/SshMgmt.antt =====
-- host_modules/ssh_mgmt.py: rotates the ssh credentials of the host, with a checkpoint of them.
pub mod Lines
pub mod Contents
pub mod Restore
pub mod Requests
pub mod Written
pub mod Success
use sonic_host_services.Base.{
  ℕ, Bool, true, false, not, ◌&&◌, Option, none, some, List, [], ◌∷◌, ◌++◌, String, length, ◌==◌,
  if◌then◌else◌,
}
use sonic_host_services.Base.Text.{Text, codes}
use sonic_host_services.Host.Files.{
  Files, write, copy, move, remove, is_file, raised, is_success, answer_of, rest_of,
}
use sonic_host_services.Host.SshMgmt.Lines.{Account, key_lines, account_lines}

-- The destination of a copy, and the temporary file beside it.
pub record Place : Type 0 where
  pub path : String
  pub temp : String

-- CHECKPOINT_DIR has these files.
abbrev pub in_checkpoint_temp : String
in_checkpoint_temp = "/tmp/ssh_checkpoint/ssh_mgmt_file_temp"

abbrev pub ca_checkpoint : Place
ca_checkpoint = record { path = "/tmp/ssh_checkpoint/ssh_ca_pub_key"; temp = in_checkpoint_temp }

abbrev pub keys_checkpoint : Place
keys_checkpoint = record { path = "/tmp/ssh_checkpoint/authorized_keys"; temp = in_checkpoint_temp }

abbrev pub users_checkpoint : Place
users_checkpoint = record {
  path = "/tmp/ssh_checkpoint/authorized_users";
  temp = in_checkpoint_temp;
}

abbrev pub ca_temp : String
ca_temp = "/tmp/ssh_checkpoint/ssh_ca_pub_key_temp"

abbrev pub keys_temp : String
keys_temp = "/tmp/ssh_checkpoint/authorized_keys_temp"

abbrev pub users_temp : String
users_temp = "/tmp/ssh_checkpoint/authorized_users_temp"

-- The persistent directories are the ones in use.
abbrev pub ca_place : Place
ca_place = record {
  path = "/etc/sonic/ssh/ssh_ca_pub_key";
  temp = "/etc/sonic/ssh/ssh_mgmt_file_temp";
}

abbrev pub keys_place : Place
keys_place = record {
  path = "/etc/sonic/ssh/root/authorized_keys";
  temp = "/etc/sonic/ssh/root/ssh_mgmt_file_temp";
}

abbrev pub users_place : Place
users_place = record {
  path = "/etc/sonic/ssh/root/authorized_users";
  temp = "/etc/sonic/ssh/root/ssh_mgmt_file_temp";
}

pub data CopyMessage : Type 0 where
  copied copy_failed : String → String → CopyMessage
  lengths_differ : CopyMessage

pub data Message : Type 0 where
  delete_failed created_checkpoint checkpoint_missing restored_checkpoint : Message
  deleted_checkpoint set_before_checkpoint invalid_json set_credentials : Message
  copies copies_and_delete_failed : List CopyMessage → Message

abbrev pub Copies : Type 0
Copies = ℕ × List CopyMessage

-- A reply, or none if the method raises an exception.
abbrev pub Reply : Type 0
Reply = Option (ℕ × Message)

-- Whether CHECKPOINT_DIR is a directory, and the files.
pub record Ssh : Type 0 where
  pub is_checkpoint : Bool
  pub files : Files Text

-- A call that changes no content, such as os.makedirs and os.rmdir.
unfoldable pub ask : Files Text → Files Text × Bool
ask fs = (record fs { answers = rest_of fs.answers }, is_success (answer_of fs.answers))

-- The files once the copy and the move are tried.
unfoldable pub try_copy : String → Place → Files Text → Files Text × Bool
unfolding ask
try_copy src dest fs =
    let (fs1, made) = ask fs in
    let (fs2, is_copied) = copy src dest.temp fs1 in
    let moved = move dest.temp dest.path fs2 in
    if made then (if is_copied then moved else (fs2, false)) else (fs1, false)

-- The last attempt to remove the temporary file may fail.
unfoldable pub copy_file : String → Place → Files Text → Files Text × Copies
copy_file src dest fs =
    let (fs1, ok) = try_copy src dest fs in
    let fs2 = (remove dest.temp fs1).0 in
    let done : Copies = (0, copied src dest.path ∷ []) in
    let failed : Copies = (1, copy_failed src dest.path ∷ []) in
    if is_file src fs then (fs2, if ok then done else failed) else (fs, done)

-- `|` on the codes, which are 0 and 1.
abbrev pub or_code : ℕ → ℕ → ℕ
or_code code other = if code == 0 then other else code

abbrev pub then_copies : Copies → Copies → Copies
then_copies (code, ms) (other, ns) = (or_code code other, ms ++ ns)

unfoldable pub copy_each : List String → List Place → Files Text → Files Text × Copies
copy_each (src ∷ srcs) (dest ∷ dests) fs =
    let (fs1, done) = copy_file src dest fs in
    let (fs2, rest) = copy_each srcs dests fs1 in (fs2, then_copies done rest)
copy_each _ _ fs = (fs, (0, []))

unfoldable pub copy_files : List String → List Place → Files Text → Files Text × Copies
copy_files srcs dests fs =
    let done = copy_each srcs dests fs in
    if length srcs == length dests then done else (fs, (1, lengths_differ ∷ []))

-- What the module puts into CHECKPOINT_DIR.
abbrev pub checkpoint_entries : List String
checkpoint_entries =
    ca_checkpoint.path ∷ keys_checkpoint.path ∷ users_checkpoint.path ∷ in_checkpoint_temp ∷ ca_temp
    ∷ keys_temp ∷ users_temp ∷ []

unfoldable pub remove_entries : List String → Files Text → Files Text × Bool
remove_entries [] fs = (fs, true)
remove_entries (path ∷ paths) fs =
    let (fs1, removed) = remove path fs in
    let there = is_file path fs in
    let rest = remove_entries paths (if there then fs1 else fs) in
    if there && not removed then (fs1, false) else rest

-- shutil.rmtree(CHECKPOINT_DIR), which stops at the first error.
unfoldable pub rmtree : Ssh → Ssh × Bool
rmtree s =
    let (fs1, emptied) = remove_entries checkpoint_entries s.files in
    let (fs2, gone) = ask fs1 in
    if emptied
    then (record { is_checkpoint = not gone; files = fs2 }, gone)
    else (record s { files = fs1 }, false)

abbrev pub copy_to_checkpoint : Files Text → Files Text × Copies
copy_to_checkpoint fs =
    copy_files (ca_place.path ∷ keys_place.path ∷ users_place.path ∷ [])
      (ca_checkpoint ∷ keys_checkpoint ∷ users_checkpoint ∷ []) fs

-- From os.makedirs on, which may raise.
unfoldable pub create_directory : Ssh → Ssh × Reply
create_directory s =
    let (fs1, made) = ask s.files in
    let (fs2, (code, ms)) = copy_to_checkpoint fs1 in
    let s2 : Ssh = record { is_checkpoint = true; files = fs2 } in
    if not made
    then (record s { files = fs1 }, none)
    else if code == 0
    then (s2, some (0, created_checkpoint))
    else ((rmtree s2).0, some (code, copies ms))

unfoldable pub create_checkpoint : Ssh → Ssh × Reply
create_checkpoint s =
    let (s1, removed) = rmtree s in
    let created = create_directory (if s.is_checkpoint then s1 else s) in
    if s.is_checkpoint && not removed then (s1, some (1, delete_failed)) else created

abbrev pub copy_from_checkpoint : Files Text → Files Text × Copies
copy_from_checkpoint fs =
    copy_files
      (ca_checkpoint.path ∷ ca_checkpoint.path ∷ keys_checkpoint.path ∷ keys_checkpoint.path
        ∷ users_checkpoint.path ∷ users_checkpoint.path ∷ [])
      (ca_place ∷ ca_place ∷ keys_place ∷ keys_place ∷ users_place ∷ users_place ∷ []) fs

unfoldable pub restore_checkpoint : Ssh → Ssh × Reply
restore_checkpoint s =
    let (fs1, (code, ms)) = copy_from_checkpoint s.files in
    let (s2, removed) = rmtree (record s { files = fs1 }) in
    if not s.is_checkpoint
    then (s, some (1, checkpoint_missing))
    else if not removed
    then (s2, some (1, copies_and_delete_failed ms))
    else (s2, some (if code == 0 then (0, restored_checkpoint) else (code, copies ms)))

unfoldable pub delete_checkpoint : Ssh → Ssh × Reply
delete_checkpoint s =
    let (s1, removed) = rmtree s in
    if not s.is_checkpoint
    then (s, some (1, checkpoint_missing))
    else (s1, some (if removed then (0, deleted_checkpoint) else (1, delete_failed)))

-- A key of the request with its value, of the documented form.
pub data Request : Type 0 where
  ssh_ca_public_key : List Text → Request
  ssh_account_keys ssh_account_users : List Account → Request
  invalid_key : Request

-- What json.loads gives.
pub data Options : Type 0 where
  not_json : Options
  content_of : List Request → Options

-- Writes the new content to the file in CHECKPOINT_DIR and copies it to its two destinations. The
-- write may raise.
unfoldable pub set_file : String → Place → Text → Files Text → Files Text × Option Copies
set_file temp dest text fs =
    let (fs1, written) = write temp text fs in
    let (fs2, done) = copy_files (temp ∷ temp ∷ []) (dest ∷ dest ∷ []) fs1 in
    if written then (fs2, some done) else (fs1, none)

-- One key; the code and the messages before it stay if it is invalid.
abbrev pub set_request : Request → Copies → Files Text → Files Text × Option Copies
set_request (ssh_ca_public_key keys) done fs = set_file ca_temp ca_place (key_lines keys) fs
set_request (ssh_account_keys accounts) done fs =
    set_file keys_temp keys_place (account_lines accounts) fs
set_request (ssh_account_users accounts) done fs =
    set_file users_temp users_place (account_lines accounts) fs
set_request invalid_key done fs = (fs, some done)

abbrev pub copies_or : Copies → Option Copies → Copies
copies_or done none = done
copies_or done (some next) = next

abbrev pub or_raised : Option Copies → Files Text → Files Text × Reply → Files Text × Reply
or_raised none fs rest = (fs, none)
or_raised (some done) fs rest = rest

unfoldable pub set_requests : List Request → Copies → Files Text → Files Text × Reply
set_requests [] (code, ms) fs =
    (fs, some (if code == 0 then (0, set_credentials) else (code, copies ms)))
set_requests (r ∷ requests) done fs =
    let (fs1, next) = set_request r done fs in
    let rest = set_requests requests (copies_or done next) fs1 in or_raised next fs1 rest

abbrev pub set_options : Options → Files Text → Files Text × Reply
set_options not_json fs = (fs, some (1, invalid_json))
set_options (content_of requests) fs = set_requests requests (0, []) fs

unfoldable pub set : Options → Ssh → Ssh × Reply
set options s =
    let (fs1, reply) = set_options options s.files in
    if s.is_checkpoint
    then (record s { files = fs1 }, reply)
    else (s, some (1, set_before_checkpoint))
