-- ===== src/Hostcfg/Ssh.antt =====
-- SshServer of scripts/hostcfgd: the policies of the SSH server and the edits of sshd_config.
pub mod Ranges
use sonic_host_services.Base.{
  ℕ, zero, Bool, true, false, not, ◌&&◌, ◌||◌, Option, none, some, List, [], ◌∷◌, ◌++◌, ◌*◌, ◌==◌,
  ltb, leb, String, str_eq, if◌then◌else◌, ◌>>=◌,
}
use sonic_host_services.Base.Dict.{lookup}
use sonic_host_services.Base.Set.{contains}
use sonic_host_services.Base.Text.{Text, codes, lstrip, rstrip}
use sonic_host_services.Cacl.Parse.{int_nonempty}

-- A value of a policy: a text, a list of texts, or a truth value.
pub data Value : Type 0 where
  one : String → Value
  many : List String → Value
  flag : Bool → Value

-- SSH_MIN_VALUES and SSH_MAX_VALUES of the keys in SSH_INT_VALUES.
abbrev pub int_bounds : List (String × (ℕ × ℕ))
int_bounds =
    ("authentication_retries", (3, 100))
    ∷ ("login_timeout", (1, 600))
    ∷ ("inactivity_timeout", (0, 35000))
    ∷ ("max_sessions", (0, 100))
    ∷ []

-- SSH_CONFIG_NAMES, but for the ports.
abbrev pub config_names : List (String × String)
config_names =
    ("authentication_retries", "MaxAuthTries")
    ∷ ("login_timeout", "LoginGraceTime")
    ∷ ("inactivity_timeout", "ClientAliveInterval")
    ∷ ("permit_root_login", "PermitRootLogin")
    ∷ ("password_authentication", "PasswordAuthentication")
    ∷ ("ciphers", "Ciphers")
    ∷ ("kex_algorithms", "KexAlgorithms")
    ∷ ("macs", "MACs")
    ∷ []

-- A number with whether it is negative; underscores are left out.
abbrev pub signed : Text → Option (Bool × ℕ)
signed [] = none
signed (c ∷ s) =
    if c == 45
    then (do n ← int_nonempty 10 s; some (not (n == 0), n))
    else (do n ← int_nonempty 10 (if c == 43 then s else c ∷ s); some (false, n))

-- `int(value)`, `none` if it raises.
unfoldable pub int_of_value : Value → Option (Bool × ℕ)
int_of_value (one s) = signed (rstrip (lstrip (codes s)))
int_of_value (many values) = none
int_of_value (flag b) = some (false, if b then 1 else 0)

abbrev pub is_within : ℕ × ℕ → Bool × ℕ → Bool
is_within bounds value = not value.0 && (leb bounds.0 value.1 && leb value.1 bounds.1)

-- An edit of the copy of sshd_config by sed: the lines of ports are deleted, one is put in, or an
-- option of SSH_CONFIG_NAMES, named by its key, gets a value. A value of `seconds` is a number. The
-- texts of the sed commands are left out, and so is what a value with further lines would add.
pub data Edit : Type 0 where
  delete_ports : Edit
  insert_port : String → Edit
  set_option : String → Value → Edit
  set_seconds : ℕ → Edit

abbrev pub port_bounds : ℕ × ℕ
port_bounds = (1, 65535)

-- The check of the ports: `none` if it raises.
unfoldable pub check_ports : List String → Option Bool
check_ports [] = some true
check_ports (port ∷ ports) = do
  n ← int_of_value (one port)
  if is_within port_bounds n then check_ports ports else some false

abbrev pub insert_ports : List String → List Edit
insert_ports [] = []
insert_ports (port ∷ ports) = insert_port port ∷ insert_ports ports

-- What the loop does with a policy: edits, the return from set_policies, or an exception.
pub data Verdict : Type 0 where
  edits : List Edit → Verdict
  returns : Verdict
  raises : Verdict

abbrev pub ports_verdict : List String → Option Bool → Verdict
ports_verdict ports none = raises
ports_verdict ports (some false) = returns
ports_verdict ports (some true) = edits (delete_ports ∷ insert_ports ports)

abbrev pub chars : String → List String
chars String.[] = []
chars (String.◌∷◌ c s) = String.◌∷◌ c String.[] ∷ chars s

-- An empty list is refused; a loop over one text is a loop over its characters.
abbrev pub set_ports : List String → Verdict
set_ports [] = returns
set_ports (port ∷ ports) = ports_verdict (port ∷ ports) (check_ports (port ∷ ports))

unfoldable pub handle_ports_set : Value → Verdict
handle_ports_set (many ports) = set_ports ports
handle_ports_set (one s) = set_ports (chars s)
handle_ports_set (flag b) = raises

abbrev pub seconds_of : Option (Bool × ℕ) → Verdict
seconds_of none = raises
seconds_of (some n) = edits (set_seconds (n.1 * 60) ∷ [])

-- A key of SSH_CONFIG_NAMES after its check. The value is that of the policy: how it is written as a
-- text is left out, but for the seconds.
abbrev pub named_edit : String → Value → Verdict
named_edit key value =
    if str_eq key "inactivity_timeout"
    then seconds_of (int_of_value value)
    else edits (set_option key value ∷ [])

abbrev pub edit_of : Option String → String → Value → Verdict
edit_of none key value = edits []
edit_of (some name) key value = named_edit key value

-- A value out of range is passed over.
abbrev pub checked : Option (Bool × ℕ) → ℕ × ℕ → Verdict → Verdict
checked none bounds verdict = raises
checked (some n) bounds verdict = if is_within bounds n then verdict else edits []

abbrev pub bounded : Option (ℕ × ℕ) → Value → Verdict → Verdict
bounded none value verdict = verdict
bounded (some bounds) value verdict = checked (int_of_value value) bounds verdict

unfoldable pub set_policy : String → Value → Verdict
set_policy key value =
    if str_eq key "ports"
    then handle_ports_set value
    else bounded (lookup key int_bounds) value (edit_of (lookup key config_names) key value)

-- How set_policies ends: with an exception or a return that leaves the copy, or with the verification
-- of the copy with its edits, which then replaces sshd_config or is removed.
pub data Ending : Type 0 where
  left : Ending
  replaced : List Edit → Ending
  removed : List Edit → Ending

abbrev pub verified : Bool → List Edit → Ending
verified true done = replaced done
verified false done = removed done

abbrev pub continue_with : Verdict → List Edit → (List Edit → Ending) → Ending
continue_with (edits more) done go = go (done ++ more)
continue_with returns done go = left
continue_with raises done go = left

-- The loop over the policies, with the edits done; `sshd -T` is a parameter.
unfoldable pub set_policies : (List Edit → Bool) → List (String × Value) → List Edit → Ending
set_policies sshd [] done = verified (sshd done) done
set_policies sshd ((key, value) ∷ policies) done =
    continue_with (set_policy key value) done (set_policies sshd policies)
