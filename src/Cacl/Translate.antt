-- ===== src/Cacl/Translate.antt =====
-- get_acl_rules_and_translate_to_iptables_commands of scripts/caclmgrd from its walk of the ACL
-- tables on.
pub mod Origin
pub mod Sound
pub mod Total
use sonic_host_services.Base.{
  ℕ, zero, suc, Bool, true, false, not, ◌&&◌, ◌||◌, Option, none, some, List, [], ◌∷◌, ◌++◌, map,
  String, str_eq, ltb, if◌then◌else◌, ◌>>=◌,
}
use sonic_host_services.Base.Dict.{lookup, insert}
use sonic_host_services.Cacl.{
  Command, words, Family, ipv4, ipv6, Port, ports_of, Service, Table, no_data, fields, Rule,
  is_default, ns_prefix,
}
use sonic_host_services.Cacl.Rules.{Walk, read_rules}
use sonic_host_services.Cacl.Emit.{Output, Target, emit_table}

-- The accepted source addresses of a service.
pub record Sources : Type 0 where
  pub ipv4_sources : List String
  pub ipv6_sources : List String

pub record Translation : Type 0 where
  pub services : List (String × Service)
  pub iptables_cmds : List Command
  pub num_ctrl_plane_acl_rules : ℕ
  pub service_to_source_ip_map : List (String × Sources)

-- What does not change in a translation.
pub record Config : Type 0 where
  pub namespace : String
  pub redfish_allowed : Bool
  pub tables_db_info : List (String × Table)
  pub rules_db_info : List Rule

abbrev pub start_walk : Option Family → Service → List (String × Service) → Walk
start_walk version s services = record {
  acl_rules = [];
  table_ip_version = version;
  dst_ports = ports_of s.dst_ports;
  services = services;
}

abbrev pub start_output : Translation → Output
start_output t = record {
  iptables_cmds = t.iptables_cmds;
  num_ctrl_plane_acl_rules = t.num_ctrl_plane_acl_rules;
  ipv4_src_ip_set = [];
  ipv6_src_ip_set = [];
}

abbrev pub with_services : List (String × Service) → Translation → Translation
with_services services t = record {
  services = services;
  iptables_cmds = t.iptables_cmds;
  num_ctrl_plane_acl_rules = t.num_ctrl_plane_acl_rules;
  service_to_source_ip_map = t.service_to_source_ip_map;
}

abbrev pub with_output : String → List (String × Service) → Output → Translation → Translation
with_output acl_service services o t = record {
  services = services;
  iptables_cmds = o.iptables_cmds;
  num_ctrl_plane_acl_rules = o.num_ctrl_plane_acl_rules;
  service_to_source_ip_map =
      insert acl_service
        (record { ipv4_sources = o.ipv4_src_ip_set; ipv6_sources = o.ipv6_src_ip_set })
        t.service_to_source_ip_map;
}

abbrev pub target : Config → Service → Family → Target
target c s version = record {
  namespace = c.namespace;
  fwd = s.multi_asic_ns_to_host_fwd;
  version = version;
}

-- A table is skipped without an IP version or without ports.
abbrev pub emit_walk :
    Config → String → Service → Option Family → List Port → Walk → Translation → Option Translation
emit_walk c acl_service s none ports w t = some (with_services w.services t)
emit_walk c acl_service s (some version) [] w t = some (with_services w.services t)
emit_walk c acl_service s (some version) (port ∷ ports) w t = do
  o ← emit_table (target c s version) w.acl_rules s.ip_protocols (port ∷ ports) (start_output t)
  some (with_output acl_service w.services o t)

-- A service of a table that is not ignored; the IP version is the table's.
unfoldable pub translate_service :
    Config
    → String
    → String
    → Service
    → Option Family
    → Translation
    → Option (Option Family × Translation)
translate_service c table_name acl_service s version t = do
  w ← read_rules table_name acl_service c.rules_db_info (start_walk version s t.services)
  u ← emit_walk c acl_service s w.table_ip_version w.dst_ports w t
  some (w.table_ip_version, u)

-- The service of a table, unless it is unknown or REDFISH that is not enabled.
abbrev pub allowed_service : Config → String → Option Service → Option Service
allowed_service c acl_service none = none
allowed_service c acl_service (some s) =
    if str_eq acl_service "REDFISH" && not c.redfish_allowed then none else some s

abbrev pub translate_allowed :
    Config
    → String
    → String
    → Option Service
    → Option Family
    → Translation
    → Option (Option Family × Translation)
translate_allowed c table_name acl_service none version t = some (version, t)
translate_allowed c table_name acl_service (some s) version t =
    translate_service c table_name acl_service s version t

unfoldable pub translate_services :
    Config → String → List String → Option Family → Translation → Option Translation
translate_services c table_name [] version t = some t
translate_services c table_name (acl_service ∷ services) version t = do
  r ←
      translate_allowed c table_name acl_service
        (allowed_service c acl_service (lookup acl_service t.services)) version t
  translate_services c table_name services r.0 r.1

abbrev pub translate_listed :
    Config → String → Option (List String) → Translation → Option Translation
translate_listed c table_name none t = none
translate_listed c table_name (some services) t = translate_services c table_name services none t

-- A table without data or of another type is skipped; a field that is missing raises.
unfoldable pub translate_table : Config → String → Table → Translation → Option Translation
translate_table c table_name no_data t = some t
translate_table c table_name (fields none services) t = none
translate_table c table_name (fields (some type) services) t =
    if str_eq type "CTRLPLANE" then translate_listed c table_name services t else some t

unfoldable pub translate_tables : Config → List (String × Table) → Translation → Option Translation
translate_tables c [] t = some t
translate_tables c ((table_name, table) ∷ tables) t = do
  u ← translate_table c table_name table t
  translate_tables c tables u

abbrev pub append : String → Family → List String → Command
append namespace ipv4 args = ns_prefix namespace ++ words ("iptables" ∷ "-A" ∷ args)
append namespace ipv6 args = ns_prefix namespace ++ words ("ip6tables" ∷ "-A" ∷ args)

-- Packets with a TTL below 2.
abbrev pub ttl_commands : String → List Command
ttl_commands ns =
    append ns ipv4
      ("INPUT" ∷ "-p" ∷ "icmp" ∷ "-m" ∷ "ttl" ∷ "--ttl-lt" ∷ "2" ∷ "-j" ∷ "ACCEPT" ∷ [])
    ∷ append ns ipv6
        ("INPUT" ∷ "-p" ∷ "ipv6-icmp" ∷ "-m" ∷ "hl" ∷ "--hl-lt" ∷ "2" ∷ "-j" ∷ "ACCEPT" ∷ [])
    ∷ append ns ipv4 (
        "INPUT" ∷ "-p" ∷ "udp" ∷ "-m" ∷ "ttl" ∷ "--ttl-lt" ∷ "2" ∷ "--dport" ∷ "1025:65535" ∷ "-j"
        ∷ "ACCEPT" ∷ [])
    ∷ append ns ipv4 (
        "INPUT" ∷ "-p" ∷ "tcp" ∷ "-m" ∷ "ttl" ∷ "--ttl-lt" ∷ "2" ∷ "--dport" ∷ "1025:65535" ∷ "-j"
        ∷ "ACCEPT" ∷ [])
    ∷ append ns ipv6 (
        "INPUT" ∷ "-p" ∷ "udp" ∷ "-m" ∷ "hl" ∷ "--hl-lt" ∷ "2" ∷ "--dport" ∷ "1025:65535" ∷ "-j"
        ∷ "ACCEPT" ∷ [])
    ∷ append ns ipv6 (
        "INPUT" ∷ "-p" ∷ "tcp" ∷ "-m" ∷ "hl" ∷ "--hl-lt" ∷ "2" ∷ "--dport" ∷ "1025:65535" ∷ "-j"
        ∷ "ACCEPT" ∷ [])
    ∷ []

abbrev pub drop_chain : String → String → List Command
drop_chain ns chain =
    append ns ipv4 (chain ∷ "-j" ∷ "DROP" ∷ []) ∷ append ns ipv6 (chain ∷ "-j" ∷ "DROP" ∷ []) ∷ []

-- The last commands, which drop what no rule accepted, if there are rules.
unfoldable pub final_drops : String → ℕ → List Command
final_drops ns num_ctrl_plane_acl_rules =
    if ltb 0 num_ctrl_plane_acl_rules
    then drop_chain ns "INPUT" ++ (if is_default ns then [] else drop_chain ns "FORWARD")
    else []

abbrev pub start_translation : List (String × Service) → List Command → Translation
start_translation services commands = record {
  services = services;
  iptables_cmds = commands;
  num_ctrl_plane_acl_rules = 0;
  service_to_source_ip_map = [];
}

-- From the services, the commands that come before the rules, and those that block ip2me traffic,
-- which may raise.
unfoldable pub translate_acls :
    Config
    → List (String × Service)
    → List Command
    → Option (List Command)
    → Option (List Command × Translation)
translate_acls c services first block_ip2me = do
  t ← translate_tables c c.tables_db_info (start_translation services first)
  block ← block_ip2me
  some (
    t.iptables_cmds
        ++ block
        ++ ttl_commands c.namespace
        ++ final_drops c.namespace t.num_ctrl_plane_acl_rules,
    t,
  )
