-- ===== src/Cacl.antt =====
-- ControlPlaneAclManager of scripts/caclmgrd: what it keeps, and the words of its commands.
pub mod Parse
pub mod Rules
pub mod Emit
pub mod Translate
pub mod Front
pub mod Blocked
pub mod Whole
pub mod Toggles
pub mod DashHa
pub mod Updates
use sonic_host_services.Base.{
  ℕ, Bool, true, false, Option, none, some, List, [], ◌∷◌, ◌++◌, map, String, str_eq, if◌then◌else◌,
}
use sonic_host_services.Base.Text.{Text}

pub data Family : Type 0 where
  ipv4 : Family
  ipv6 : Family

-- A word of a command: a text of the program or of the configuration, a text made of characters,
-- the decimal digits of a number, or an
-- address with the length that is the most for its family.
pub data Word : Type 0 where
  lit : String → Word
  text : Text → Word
  num : ℕ → Word
  host : Family → ℕ → Word

abbrev pub Command : Type 0
Command = List Word

abbrev pub words : List String → Command
words = map lit

-- "iptables" or "ip6tables"
abbrev pub iptables : Family → String
iptables ipv4 = "iptables"
iptables ipv6 = "ip6tables"

-- A destination port is a text of ACL_SERVICES or of the configuration, or a number of a range.
pub data Port : Type 0 where
  named : String → Port
  numbered : ℕ → Port

abbrev pub port_word : Port → Word
port_word (named s) = lit s
port_word (numbered n) = num n

pub record Service : Type 0 where
  pub ip_protocols : List String
  pub dst_ports : Option (List Port)
  pub multi_asic_ns_to_host_fwd : Bool

-- The ports of a service, none if it has no such field.
abbrev pub ports_of : Option (List Port) → List Port
ports_of none = []
ports_of (some ports) = ports

abbrev service : List String → Option (List Port) → Bool → Service
service protocols ports fwd = record {
  ip_protocols = protocols;
  dst_ports = ports;
  multi_asic_ns_to_host_fwd = fwd;
}

abbrev one_port : String → Option (List Port)
one_port p = some (named p ∷ [])

-- ACL_SERVICES as the class has it; the ports of EXTERNAL_CLIENT are written to it later.
abbrev pub acl_services : List (String × Service)
acl_services =
    ("NTP", service ("udp" ∷ []) (one_port "123") false)
    ∷ ("SNMP", service ("tcp" ∷ "udp" ∷ []) (one_port "161") true)
    ∷ ("SSH", service ("tcp" ∷ []) (one_port "22") true)
    ∷ ("REDFISH", service ("tcp" ∷ []) (one_port "443") false)
    ∷ ("EXTERNAL_CLIENT", service ("tcp" ∷ []) none false)
    ∷ ("ANY", service ("any" ∷ []) (one_port "0") false)
    ∷ []

-- An entry of ACL_TABLE: no data, or its fields `type` and `services`, where it has them.
pub data Table : Type 0 where
  no_data : Table
  fields : Option String → Option (List String) → Table

-- The properties of a rule by their names in upper case.
abbrev pub Props : Type 0
Props = List (String × String)

pub record Rule : Type 0 where
  pub rule_table_name : String
  pub rule_props : Props

-- iptables_cmd_ns_prefix; the default namespace is the empty text.
abbrev pub is_default : String → Bool
is_default namespace = str_eq namespace ""

unfoldable pub ns_prefix : String → Command
ns_prefix namespace =
    if is_default namespace then [] else words ("ip" ∷ "netns" ∷ "exec" ∷ namespace ∷ [])
