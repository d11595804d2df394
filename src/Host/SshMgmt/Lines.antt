-- ===== src/Host/SshMgmt/Lines.antt =====
-- The lines that are written from a request.
use sonic_host_services.Base.{
  Bool, true, false, Option, none, some, List, [], ◌∷◌, ◌++◌, if◌then◌else◌,
}
use sonic_host_services.Base.Text.{Text, codes, text_eq}

-- Any of the fields may be missing.
pub record LoginOption : Type 0 where
  pub name : Option Text
  pub value : Option Text

-- An entry of "keys" or "users", whose text is in the field "key" or "name".
pub record Login : Type 0 where
  pub text : Option Text
  pub options : Option (List LoginOption)

-- An entry of "SshAccountKeys" or "SshAccountUsers", with its field "keys" or "users".
pub record Account : Type 0 where
  pub account : Option Text
  pub logins : Option (List Login)

-- Key lines, each with its end.
unfoldable pub key_lines : List Text → Text
key_lines [] = []
key_lines (key ∷ keys) = key ++ 10 ∷ key_lines keys

abbrev pub with_value : Text → Option Text → Text
with_value name none = name
with_value name (some []) = name
with_value name (some (c ∷ value)) = name ++ (codes "=\"" ++ (c ∷ value ++ codes "\""))

-- The options with the commas before them; `first` is the variable of the loop.
abbrev pub option_text : Bool → Option Text → Option Text → Text
option_text first none value = []
option_text true (some name) value = with_value name value
option_text false (some name) value = codes "," ++ with_value name value

abbrev pub still_first : Bool → Option Text → Bool
still_first first none = first
still_first first (some name) = false

unfoldable pub write_options_from : Bool → List LoginOption → Text
write_options_from true [] = []
write_options_from false [] = codes " "
write_options_from first (o ∷ options) =
    option_text first o.name o.value ++ write_options_from (still_first first o.name) options

abbrev pub write_options : List LoginOption → Text
write_options options = write_options_from true options

abbrev pub login_line : Option Text → Option (List LoginOption) → Text
login_line none options = []
login_line (some []) options = []
login_line (some (c ∷ text)) none = c ∷ text ++ codes "\n"
login_line (some (c ∷ text)) (some options) = write_options options ++ (c ∷ text ++ codes "\n")

unfoldable pub login_lines : List Login → Text
login_lines [] = []
login_lines (l ∷ logins) = login_line l.text l.options ++ login_lines logins

abbrev pub lines_of : Option Text → Option (List Login) → Text
lines_of none logins = []
lines_of (some account) none = []
lines_of (some account) (some logins) =
    if text_eq account (codes "root") then login_lines logins else []

unfoldable pub account_lines : List Account → Text
account_lines [] = []
account_lines (a ∷ accounts) = lines_of a.account a.logins ++ account_lines accounts
