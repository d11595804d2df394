-- ===== src/Cacl/Rules.antt =====
-- The walk of get_acl_rules_and_translate_to_iptables_commands over the ACL tables and rules.
pub mod Versions
pub mod Families
pub mod Known
use sonic_host_services.Base.{
  ◌>>=◌, ℕ, zero, suc, Bool, true, false, not, ◌&&◌, ◌||◌, Option, none, some, List, [], ◌∷◌, ◌++◌,
  map, String, str_eq, ◌==◌, ltb, ◌+◌, ◌-◌, if◌then◌else◌,
}
use sonic_host_services.Base.Dict.{lookup, insert, erase}
use sonic_host_services.Base.Set.{contains, add}
use sonic_host_services.Base.Text.{Text, codes}
use sonic_host_services.Host.Image.{split}
use sonic_host_services.Cacl.{
  Word, lit, text, num, Command, words, Family, ipv4, ipv6, iptables, Port, named, numbered,
  port_word, Service, Table, no_data, fields, Props, Rule, is_default, ns_prefix,
}
use sonic_host_services.Cacl.Parse.{int_of, sorted_desc, parse_int_to_tcp_flags}

-- `name in rule_props and rule_props[name]`: the value, if there is one that is not empty.
abbrev pub nonempty : Option String → Option String
nonempty none = none
nonempty (some v) = if str_eq v "" then none else some v

abbrev pub prop : String → Props → Option String
prop name props = nonempty (lookup name props)

abbrev pub is_some : Option String → Bool
is_some none = false
is_some (some v) = true

unfoldable pub is_rule_ipv4 : Props → Bool
is_rule_ipv4 props = is_some (prop "SRC_IP" props) || is_some (prop "DST_IP" props)

unfoldable pub is_rule_ipv6 : Props → Bool
is_rule_ipv6 props = is_some (prop "SRC_IPV6" props) || is_some (prop "DST_IPV6" props)

-- What the loop over the rules of a table and a service keeps.
pub record Walk : Type 0 where
  pub acl_rules : List (String × Props)
  pub table_ip_version : Option Family
  pub dst_ports : List Port
  pub services : List (String × Service)

abbrev pub detected : Bool → Bool → Option Family
detected true is_ipv4 = some ipv6
detected false true = some ipv4
detected false false = none

-- The first rule with an address settles the version of its table.
abbrev pub detect : Props → Option Family → Option Family
detect props (some version) = some version
detect props none = detected (is_rule_ipv6 props) (is_rule_ipv4 props)

abbrev pub port_list : ℕ → ℕ → List Port
port_list start zero = []
port_list start (suc n) = numbered start ∷ port_list (suc start) n

-- `range(port_start, port_end + 1)` of the parts of L4_DST_PORT_RANGE
abbrev pub port_range : List Text → Option (List Port)
port_range (a ∷ b ∷ _) = do
  port_start ← int_of 10 a
  port_end ← int_of 10 b
  some (port_list port_start (port_end + 1 - port_start))
port_range _ = none

abbrev pub with_dst_ports : List Port → Service → Service
with_dst_ports ports s = record {
  ip_protocols = s.ip_protocols;
  dst_ports = some ports;
  multi_asic_ns_to_host_fwd = s.multi_asic_ns_to_host_fwd;
}

-- `ACL_SERVICES[acl_service]["dst_ports"] = ports`, for a service that is there.
abbrev pub put_service :
    String → List Port → Option Service → List (String × Service) → List (String × Service)
put_service k ports none services = services
put_service k ports (some s) services = insert k (with_dst_ports ports s) services

abbrev pub put_ports : String → List Port → Walk → Walk
put_ports k ports w = record {
  acl_rules = w.acl_rules;
  table_ip_version = w.table_ip_version;
  dst_ports = ports;
  services = put_service k ports (lookup k w.services) w.services;
}

abbrev pub put_range : String → Option (List Port) → Walk → Option Walk
put_range k none w = none
put_range k (some ports) w = some (put_ports k ports w)

-- From L4_DST_PORT and L4_DST_PORT_RANGE.
abbrev pub put_dst_ports : String → Option String → Option String → Walk → Option Walk
put_dst_ports k none none w = some w
put_dst_ports k none (some range) w = put_range k (port_range (split 45 (codes range))) w
put_dst_ports k (some port) range w = some (put_ports k (named port ∷ []) w)

unfoldable pub read_dst_ports : String → Props → Walk → Option Walk
read_dst_ports acl_service props w =
    if str_eq acl_service "EXTERNAL_CLIENT"
    then put_dst_ports acl_service (lookup "L4_DST_PORT" props) (lookup "L4_DST_PORT_RANGE" props) w
    else some w

-- A rule of the other family than the table's.
abbrev pub mismatched : Props → Option Family → Bool
mismatched props none = false
mismatched props (some ipv4) = is_rule_ipv6 props
mismatched props (some ipv6) = is_rule_ipv4 props

unfoldable pub keep_rule : String → Props → Walk → Walk
keep_rule priority props w = record {
  acl_rules = insert priority props w.acl_rules;
  table_ip_version = detect props w.table_ip_version;
  dst_ports = w.dst_ports;
  services = w.services;
}

unfoldable pub drop_mismatched : String → Props → Walk → Walk
drop_mismatched priority props w = record {
  acl_rules =
      if mismatched props w.table_ip_version then erase priority w.acl_rules else w.acl_rules;
  table_ip_version = w.table_ip_version;
  dst_ports = w.dst_ports;
  services = w.services;
}

abbrev pub read_prioritized : String → Props → Option String → Walk → Option Walk
read_prioritized acl_service props none w = some w
read_prioritized acl_service props (some priority) w = do
  v ← read_dst_ports acl_service props (keep_rule priority props w)
  some (drop_mismatched priority props v)

-- An entry of ACL_RULE, for a table and a service; `none` if the code raises.
unfoldable pub read_rule : String → String → Rule → Walk → Option Walk
read_rule table_name acl_service rule w =
    if str_eq rule.rule_table_name table_name
    then read_prioritized acl_service rule.rule_props (lookup "PRIORITY" rule.rule_props) w
    else some w

unfoldable pub read_rules : String → String → List Rule → Walk → Option Walk
read_rules table_name acl_service [] w = some w
read_rules table_name acl_service (rule ∷ rules) w = do
  v ← read_rule table_name acl_service rule w
  read_rules table_name acl_service rules v
