-- ===== src/Host/Image.antt =====
-- host_modules/image_service.py: downloads, installs, checks and lists images.
pub mod Listing
pub mod Checksum
use sonic_host_services.Base.{
  ℕ, suc, zero, Bool, true, false, not, ◌||◌, ◌&&◌, ◌+◌, ◌-◌, Option, none, some, List, [], ◌∷◌,
  ◌++◌, String, map, leb, ◌==◌, length, take, drop, if◌then◌else◌,
}
use sonic_host_services.Base.Text.{Text, codes, startswith, occurs, lstrip, rstrip, text_eq}
use sonic_host_services.Host.Files.{Files, write, move}

-- The replies without the texts of exceptions.
pub data Message : Type 0 where
  not_absolute no_directory not_writable download_successful not_downloaded : Message
  http_error : ℕ → Message
  error_line : Text → Message
  no_file unsupported_algorithm not_read : Message
  digest error_output : Text → Message
  boot_image_set not_listed invalid_request unimplemented : Message

pub data Reply {ℓ} (A : Type ℓ) : Type ℓ where
  replied : ℕ → Message → Reply A
  result : A → Reply A

-- errno
abbrev pub enoent : ℕ
enoent = 2

abbrev pub eio : ℕ
eio = 5

abbrev pub eacces : ℕ
eacces = 13

abbrev pub einval : ℕ
einval = 22

-- The directory of a path: whether it exists, and its bits for writing.
pub record Directory : Type 0 where
  pub is_dir : Bool
  pub user_writes : Bool
  pub group_writes : Bool
  pub others_write : Bool

-- What requests.get gives: an exception, or a status with a body, of which a chunk may fail.
pub data Response : Type 0 where
  get_raised : Response
  responded : ℕ → Text → Response

-- The temporary file has a name that the system chooses.
abbrev pub save_body : String → String → Text → Files Text → Files Text × (ℕ × Message)
save_body temp save_as body fs =
    let (fs1, written) = write temp body fs in
    let (fs2, replaced) = move temp save_as fs1 in
    if written
    then (fs2, if replaced then (0, download_successful) else (eio, not_downloaded))
    else (fs1, (eio, not_downloaded))

abbrev pub save_response : Response → String → String → Files Text → Files Text × (ℕ × Message)
save_response get_raised temp save_as fs = (fs, (eio, not_downloaded))
save_response (responded status body) temp save_as fs =
    let saved = save_body temp save_as body fs in
    if status == 200 then saved else (fs, (eio, http_error status))

unfoldable pub download :
    Bool → Directory → Response → String → String → Files Text → Files Text × (ℕ × Message)
download is_absolute dir response temp save_as fs =
    let saved = save_response response temp save_as fs in
    if not is_absolute
    then (fs, (einval, not_absolute))
    else if not dir.is_dir
    then (fs, (enoent, no_directory))
    else if not dir.user_writes || not dir.group_writes || not dir.others_write
    then (fs, (eacces, not_writable))
    else saved

-- `text.split(sep)` for one character.
abbrev pub before_first : ℕ → List Text → List Text
before_first c [] = (c ∷ []) ∷ []
before_first c (part ∷ parts) = (c ∷ part) ∷ parts

unfoldable pub split : ℕ → Text → List Text
split sep [] = [] ∷ []
split sep (c ∷ text) =
    let parts = split sep text in if c == sep then [] ∷ parts else before_first c parts

-- The first line of the errors with "Error" in it, or no text.
unfoldable pub first_error : List Text → Text
first_error [] = []
first_error (line ∷ lines) =
    let rest = first_error lines in if occurs (codes "Error") line then line else rest

-- `install`, from the code and the errors of sonic-installer.
unfoldable pub install : ℕ → Text → ℕ × Message
unfolding split
install returncode stderr =
    (returncode, error_line (if returncode == 0 then [] else first_error (split 10 stderr)))

-- `text.lower()`, of ASCII.
abbrev pub lower_code : ℕ → ℕ
lower_code c = if leb 65 c && leb c 90 then c + 32 else c

unfoldable pub lower : Text → Text
lower [] = []
lower (c ∷ text) = lower_code c ∷ lower text

-- `set_next_boot`, from the code and the errors of sonic-installer.
unfoldable pub set_next_boot : ℕ → Text → ℕ × Message
unfolding lower
set_next_boot returncode stderr =
    let msg = lower stderr in
    if returncode == 0
    then (0, boot_image_set)
    else if occurs (codes "not") msg && (occurs (codes "exist") msg || occurs (codes "found") msg)
    then (enoent, error_output stderr)
    else (returncode, error_output stderr)

abbrev pub strip : Text → Text
strip text = rstrip (lstrip text)

pub record Images : Type 0 where
  pub current : Text
  pub next_ : Text
  pub available : List Text

-- `parts[1]`, if there is one.
abbrev pub second_or : Text → List Text → Text
second_or default [] = default
second_or default (part ∷ []) = default
second_or default (part ∷ second ∷ parts) = strip second

-- One line of the listing.
unfoldable pub parse_line : Text → Images → Images
parse_line line images =
    let l = lower line in
    if occurs (codes "current:") l
    then record images { current = second_or images.current (split 58 line) }
    else if occurs (codes "next:") l
    then record images { next_ = second_or images.next_ (split 58 line) }
    else if occurs (codes "available:") l
    then images
    else record images { available = images.available ++ strip line ∷ [] }

unfoldable pub parse_lines : List Text → Images → Images
parse_lines [] images = images
parse_lines (line ∷ lines) images = parse_lines lines (parse_line line images)

abbrev pub no_images : Images
no_images = record { current = []; next_ = []; available = [] }

unfoldable pub parse_sonic_installer_list : Text → Images
parse_sonic_installer_list output = parse_lines (split 10 output) no_images

-- `list_images`: none is an error of sonic-installer, with its code.
abbrev pub list_images : ℕ → Text → Reply Images
list_images returncode output =
    if returncode == 0
    then result (parse_sonic_installer_list (strip output))
    else replied returncode not_listed

-- `gnoi_install_os`, with whether the request is JSON.
abbrev pub gnoi_install_os : Bool → ℕ × Message
gnoi_install_os is_json = (1, if is_json then unimplemented else invalid_request)

-- hashlib: a state that is fed with texts.
pub record Hash : Type 1 where
  pub State : Type 0
  pub start : State
  pub update : State → Text → State
  pub hexdigest : State → Text

-- The loop over the chunks of a file, until a chunk is empty; `none` if the fuel does not do.
unfoldable pub feed : (hash : Hash) → ℕ → hash.State → Text → Option hash.State
feed hash zero s contents = none
feed hash (suc fuel) s [] = some s
feed hash (suc fuel) s (c ∷ contents) =
    let chunk = take 4096 (c ∷ contents) in
    feed hash fuel (hash.update s chunk) (drop 4096 (c ∷ contents))

abbrev pub or_unread : (hash : Hash) → Option hash.State → ℕ × Message
or_unread hash none = (eio, not_read)
or_unread hash (some s) = (0, digest (hash.hexdigest s))

-- A file is none if it does not exist; `reads` is whether no exception comes while it is read.
abbrev pub checksum_with : Option Hash → Text → Bool → ℕ × Message
checksum_with none contents reads = (einval, unsupported_algorithm)
checksum_with (some hash) contents reads =
    let s = feed hash (suc (length contents)) hash.start contents in
    if reads then or_unread hash s else (eio, not_read)

-- The hash of an algorithm by its name.
abbrev pub algorithm_of : Hash → Hash → Hash → Text → Option Hash
algorithm_of sha256 sha512 md5 algorithm =
    if text_eq algorithm (codes "sha256")
    then some sha256
    else if text_eq algorithm (codes "sha512")
    then some sha512
    else if text_eq algorithm (codes "md5")
    then some md5
    else none

abbrev pub checksum : Option Text → Option Hash → Bool → ℕ × Message
checksum none hash reads = (enoent, no_file)
checksum (some contents) hash reads = checksum_with hash contents reads
