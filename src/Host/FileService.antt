-- ===== src/Host/FileService.antt =====
-- host_modules/file_service.py: the state, the download and the removal of files.
pub mod Guards
use sonic_host_services.Base.{
  zero, suc, ◌+◌, ◌/◌, ◌%◌, ◌++◌, length, drop, ℕ, ◌-◌, Bool, true, false, not, ◌&&◌, ◌||◌, ◌==◌,
  leb, Option, none, some, List, [], ◌∷◌, String, if◌then◌else◌,
}
use sonic_host_services.Base.Text.{Text, text_eq, codes}

-- The directory of a path: it cannot be read, or it can and is world writable or not.
pub data Directory : Type 0 where
  unreadable not_writable world_writable : Directory

-- What the methods find of a path: whether it exists (`none` if asking raises), and its directory.
pub record Place : Type 0 where
  pub path : String
  pub path_exists : Option Bool
  pub directory : Directory

-- The steps that change the file, in order. What a transfer does is up to the library.
pub data Action : Type 0 where
  sftp_get http_write scp_get remove_file : String → Action

pub data Message : Type 0 where
  done already_exists file_not_found directory_not_found directory_not_writable : Message
  unsupported_protocol raised : Message

abbrev pub Reply : Type 0
Reply = ℕ × Message

abbrev pub Result : Type 0
Result = List Action × Reply

-- `protocol.upper()`, for ASCII.
unfoldable pub upper : Text → Text
upper [] = []
upper (c ∷ s) = (if leb 97 c && leb c 122 then c - 32 else c) ∷ upper s

-- How the libraries fare: the SSH connection is made, the request gets a good response, and the
-- transfer or the removal that follows returns.
pub record Outcome : Type 0 where
  pub connects : Bool
  pub responds : Bool
  pub completes : Bool

abbrev pub reply_of : Bool → Reply
reply_of ok = if ok then (0, done) else (1, raised)

abbrev pub transfer_ssh : Outcome → Action → Result
transfer_ssh o action =
    if o.connects then (action ∷ [], reply_of o.completes) else ([], (1, raised))

unfoldable pub transfer : Outcome → Text → String → Result
transfer o protocol local_path =
    if text_eq protocol (codes "SFTP")
    then transfer_ssh o (sftp_get local_path)
    else if text_eq protocol (codes "HTTP") || text_eq protocol (codes "HTTPS")
    then (if o.responds
        then (http_write local_path ∷ [], reply_of o.completes)
        else ([], (1, raised)))
    else if text_eq protocol (codes "SCP")
    then transfer_ssh o (scp_get local_path)
    else ([], (1, unsupported_protocol))

-- The check of the directory, and what follows if it holds.
abbrev pub if_writable : Directory → Result → Result
if_writable unreadable result = ([], (1, directory_not_found))
if_writable not_writable result = ([], (1, directory_not_writable))
if_writable world_writable result = result

abbrev pub if_absent : Option Bool → Result → Result
if_absent none result = ([], (1, raised))
if_absent (some true) result = ([], (1, already_exists))
if_absent (some false) result = result

abbrev pub if_present : Option Bool → Result → Result
if_present none result = ([], (1, raised))
if_present (some false) result = ([], (1, file_not_found))
if_present (some true) result = result

unfoldable pub download : Outcome → Text → Place → Result
download o protocol place =
    if_absent place.path_exists
      (if_writable place.directory (transfer o (upper protocol) place.path))

unfoldable pub remove : Outcome → Place → Result
remove o place =
    if_present place.path_exists
      (if_writable place.directory (remove_file place.path ∷ [], reply_of o.completes))

-- The digits of a number in octal, without zeros before them; the number itself is enough fuel.
unfoldable pub octal : ℕ → ℕ → Text
octal zero n = []
octal (suc fuel) zero = []
octal (suc fuel) (suc n) = octal fuel (suc n / 8) ++ (48 + suc n % 8) ∷ []

-- `oct(n)`
unfoldable pub oct : ℕ → Text
unfolding octal
oct n = codes "0o" ++ (if n == 0 then codes "0" else octal n n)

-- `text[-3:]`
abbrev pub last_three : Text → Text
last_three text = drop (length text - 3) text

-- What the system says of a file: the time in nanoseconds, the mode, the size and the umask.
pub record Stat : Type 0 where
  pub last_modified : ℕ
  pub mode : ℕ
  pub size : ℕ
  pub umask : ℕ

-- The fields of a reply; numbers stand for their texts.
pub record FileStat : Type 0 where
  pub path : Text
  pub last_modified : ℕ
  pub permissions : Text
  pub size : ℕ
  pub umask : Text

pub data StatReply : Type 0 where
  no_path stat_failed : StatReply
  reported : FileStat → StatReply

abbrev pub stat_found : Text → Option Stat → ℕ × StatReply
stat_found path none = (1, stat_failed)
stat_found path (some s) = (
  0,
  reported (record {
    path = path;
    last_modified = s.last_modified;
    permissions = last_three (oct s.mode);
    size = s.size;
    umask = last_three (oct s.umask);
  }),
)

-- `stat` is none if os.stat raises.
abbrev pub get_file_stat : Text → Option Stat → ℕ × StatReply
get_file_stat [] stat = (1, no_path)
get_file_stat (c ∷ path) stat = stat_found (c ∷ path) stat
