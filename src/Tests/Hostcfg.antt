-- ===== src/Tests/Hostcfg.antt =====
-- scripts/hostcfgd at concrete inputs.
use sonic_host_services.Base.{Bool, true, List, [], ◌∷◌, ◌≡◌, refl, String, str_eq}
use sonic_host_services.Base.Dict.{lookup}
use sonic_host_services.Base.Text.{lstrip, rstrip}
use sonic_host_services.Cacl.Parse.{int_digits, digit}
use sonic_host_services.Hostcfg.Ssh.{
  Value, one, many, Edit, delete_ports, insert_port, set_option, set_seconds, left, replaced,
  set_policies, set_policy, handle_ports_set, check_ports, int_of_value,
}
use sonic_host_services.Hostcfg.Ldap.{cfg_servers, uris}
use sonic_host_services.Hostcfg.Ssh.Ranges.{Safe, set_policies-Safe}

abbrev accepts : List Edit → Bool
accepts done = true

abbrev policies : List (String × Value)
policies =
    ("authentication_retries", one "101")
    ∷ ("inactivity_timeout", one " 15")
    ∷ ("ports", many ("22" ∷ "2222" ∷ []))
    ∷ ("ciphers", many ("aes256-ctr" ∷ []))
    ∷ ("max_sessions", one "5")
    ∷ []

-- The number of retries is out of range and passed over.
edited :
    set_policies accepts policies []
    ≡ replaced (
        set_seconds 900
        ∷ delete_ports
        ∷ insert_port "22"
        ∷ insert_port "2222"
        ∷ set_option "ciphers" (many ("aes256-ctr" ∷ []))
        ∷ [])
unfolding set_policies set_policy handle_ports_set check_ports int_of_value int_digits digit lookup
    lstrip rstrip
edited = refl

-- A wrong port ends the update: no other policy is applied, and the copy is left.
wrong_port :
    set_policies accepts (("login_timeout", one "60") ∷ ("ports", many ("70000" ∷ [])) ∷ []) []
    ≡ left
unfolding set_policies set_policy handle_ports_set check_ports int_of_value int_digits digit lookup
    lstrip rstrip
wrong_port = refl

set_policies-Safe_example : Safe accepts (set_policies accepts policies [])
set_policies-Safe_example = set_policies-Safe accepts policies [] tt

-- All servers get the port of the first.
ldap_servers :
    cfg_servers
      (λ ip. str_eq ip "fc00::1")
      ((("ip", "10.0.0.1") ∷ ("port", "636") ∷ [])
        ∷ (("ip", "fc00::1") ∷ ("port", "389") ∷ [])
        ∷ [])
    ≡ "uri ldap://10.0.0.1:636/ ldap://[fc00::1]:636/ "
unfolding uris lookup
ldap_servers = refl
