-- ===== src/Cacl/Front.antt =====
-- The commands that get_acl_rules_and_translate_to_iptables_commands of scripts/caclmgrd puts before
-- those of the rules, and the helpers that make them.
pub mod First
use sonic_host_services.Base.{
  Bool, not, ◌&&◌, Option, none, some, List, [], ◌∷◌, ◌++◌, map, String, str_eq, if◌then◌else◌,
  ◌>>=◌,
}
use sonic_host_services.Base.Dict.{lookup}
use sonic_host_services.Base.Set.{contains}
use sonic_host_services.Cacl.{
  Command, words, Family, ipv4, ipv6, iptables, Port, port_word, ports_of, Service, is_default,
  ns_prefix,
}
use sonic_host_services.Cacl.DashHa.{make_dash_ha_rules}

-- The fields of ControlPlaneAclManager that the commands depend on. An address comes with its family.
pub record Manager : Type 0 where
  pub dual_tor : Bool
  pub bfd_allowed : Bool
  pub vxlan_allowed : Bool
  pub vxlan_src_ip : Option (Family × String)
  pub dash_ha_port_map : List (String × String)
  pub namespace_mgmt_ip : String
  pub namespace_mgmt_ipv6 : String
  pub namespace_docker_mgmt_ip : List (String × String)
  pub namespace_docker_mgmt_ipv6 : List (String × String)

-- What the device answers: its chains, and the names and addresses of its midplane.
pub record Device : Type 0 where
  pub chains : List String
  pub is_chassis : Bool
  pub midplane_dev_name : String
  pub midplane_ip : String
  pub is_smartswitch : Bool
  pub bridge_ip : String

abbrev pub run : String → Family → List String → Command
run ns family args = ns_prefix ns ++ words (iptables family ∷ args)

abbrev pub policies : String → Family → List Command
policies ns family =
    run ns family ("-P" ∷ "INPUT" ∷ "ACCEPT" ∷ [])
    ∷ run ns family ("-P" ∷ "FORWARD" ∷ "ACCEPT" ∷ [])
    ∷ run ns family ("-P" ∷ "OUTPUT" ∷ "ACCEPT" ∷ [])
    ∷ []

-- `chain_list.remove`, the first one only.
unfoldable pub remove_first : String → List String → List String
remove_first x [] = []
remove_first x (y ∷ ys) = let rest = remove_first x ys in if str_eq y x then ys else y ∷ rest

abbrev pub get_chain_list : Bool → List String → List String
get_chain_list dual_tor chains = remove_first (if dual_tor then "DHCP" else "") chains

abbrev is_builtin : String → Bool
is_builtin chain = contains chain ("INPUT" ∷ "FORWARD" ∷ "OUTPUT" ∷ [])

unfoldable pub flush_chains : String → List String → List Command
flush_chains ns [] = []
flush_chains ns (chain ∷ chains) =
    let rest = flush_chains ns chains in
    run ns ipv4 ("-F" ∷ chain ∷ [])
    ∷ (if is_builtin chain then rest else run ns ipv4 ("-X" ∷ chain ∷ []) ∷ rest)

abbrev pub flush_ipv6 : String → List Command
flush_ipv6 ns =
    run ns ipv6 ("-F" ∷ []) ∷ run ns ipv6 ("-X" ∷ []) ∷ run ns ipv6 ("-t" ∷ "raw" ∷ "-F" ∷ []) ∷ []

abbrev pub input : String → Family → List String → Command
input ns family args = run ns family ("-A" ∷ "INPUT" ∷ args)

abbrev pub localhost : String → List Command
localhost ns =
    input ns ipv4 ("-s" ∷ "127.0.0.1" ∷ "-i" ∷ "lo" ∷ "-j" ∷ "ACCEPT" ∷ [])
    ∷ input ns ipv6 ("-s" ∷ "::1" ∷ "-i" ∷ "lo" ∷ "-j" ∷ "ACCEPT" ∷ [])
    ∷ []

-- exclude_mgmt_port
abbrev pub exclude_mgmt_port : Command → Command
exclude_mgmt_port rule = rule ++ words ("!" ∷ "-i" ∷ "eth0" ∷ [])

abbrev bfd : String → Family → Command
bfd ns family = exclude_mgmt_port (
    run ns family (
      "-I" ∷ "INPUT" ∷ "2" ∷ "-p" ∷ "udp" ∷ "-m" ∷ "multiport" ∷ "--dports" ∷ "3784,4784" ∷ "-j"
      ∷ "ACCEPT" ∷ []))

abbrev pub get_bfd_iptable_commands : String → List Command
get_bfd_iptable_commands ns = bfd ns ipv4 ∷ bfd ns ipv6 ∷ []

-- get_vxlan_port_iptable_commands, once VxlanSrcIP is set from its data.
abbrev pub get_vxlan_port_iptable_commands : String → Option (Family × String) → List Command
get_vxlan_port_iptable_commands ns none = []
get_vxlan_port_iptable_commands ns (some (family, ip)) =
    exclude_mgmt_port (
      run ns family (
        "-I" ∷ "INPUT" ∷ "2" ∷ "-p" ∷ "udp" ∷ "-d" ∷ ip ∷ "--dport" ∷ "4789" ∷ "-j" ∷ "ACCEPT"
        ∷ []))
    ∷ []

unfoldable pub dash_ha_commands : String → List (String × String) → List Command
dash_ha_commands ns [] = []
dash_ha_commands ns ((dpu, port) ∷ ports) = make_dash_ha_rules ns port ++ dash_ha_commands ns ports

abbrev from_to : String → Family → String → String → Command
from_to ns family source destination =
    input ns family ("-s" ∷ source ∷ "-d" ∷ destination ∷ "-j" ∷ "ACCEPT" ∷ [])

-- In a namespace; it raises if the namespace has no address.
abbrev namespace_traffic : Manager → String → Option (List Command)
namespace_traffic m ns = do
  ip ← lookup ns m.namespace_docker_mgmt_ip
  ipv6_ ← lookup ns m.namespace_docker_mgmt_ipv6
  some (
      from_to ns ipv4 ip ip
      ∷ from_to ns ipv6 ipv6_ ipv6_
      ∷ from_to ns ipv4 m.namespace_mgmt_ip ip
      ∷ from_to ns ipv6 m.namespace_mgmt_ipv6 ipv6_
      ∷ [])

abbrev to_itself : String → Family → String → List (String × String) → List Command
to_itself ns family ip [] = []
to_itself ns family ip (_ ∷ _) = from_to ns family ip ip ∷ []

abbrev from_dockers : String → Family → String → List (String × String) → List Command
from_dockers ns family ip docker_ips =
    map (λ (e : String × String). from_to ns family e.1 ip) docker_ips

unfoldable pub generate_allow_internal_docker_ip_traffic_commands :
    Manager → String → Option (List Command)
generate_allow_internal_docker_ip_traffic_commands m ns =
    if is_default ns
    then some (
        to_itself ns ipv4 m.namespace_mgmt_ip m.namespace_docker_mgmt_ip
        ++ to_itself ns ipv6 m.namespace_mgmt_ipv6 m.namespace_docker_mgmt_ipv6
        ++ from_dockers ns ipv4 m.namespace_mgmt_ip m.namespace_docker_mgmt_ip
        ++ from_dockers ns ipv6 m.namespace_mgmt_ipv6 m.namespace_docker_mgmt_ipv6)
    else namespace_traffic m ns

-- Without a prefix, whatever the namespace.
abbrev host_input : List String → Command
host_input args = words ("iptables" ∷ "-A" ∷ "INPUT" ∷ args)

abbrev smartswitch_traffic : Device → List Command
smartswitch_traffic d =
    if d.is_smartswitch then host_input ("-d" ∷ d.bridge_ip ∷ "-j" ∷ "ACCEPT" ∷ []) ∷ [] else []

unfoldable pub generate_allow_internal_chasis_midplane_traffic : Device → String → List Command
generate_allow_internal_chasis_midplane_traffic d ns =
    if d.is_chassis && is_default ns
    then (if str_eq d.midplane_ip ""
        then []
        else host_input ("-s" ∷ d.midplane_ip ∷ "-d" ∷ d.midplane_ip ∷ "-j" ∷ "ACCEPT" ∷ [])
          ∷ host_input ("-i" ∷ d.midplane_dev_name ∷ "-j" ∷ "ACCEPT" ∷ [])
          ∷ smartswitch_traffic d)
    else smartswitch_traffic d

abbrev pub established : String → Family → Command
established ns family =
    input ns family
      ("-m" ∷ "conntrack" ∷ "--ctstate" ∷ "ESTABLISHED,RELATED" ∷ "-j" ∷ "ACCEPT" ∷ [])

abbrev icmp : String → String → Command
icmp ns type = input ns ipv4 ("-p" ∷ "icmp" ∷ "--icmp-type" ∷ type ∷ "-j" ∷ "ACCEPT" ∷ [])

abbrev icmpv6 : String → String → Command
icmpv6 ns type = input ns ipv6 ("-p" ∷ "icmpv6" ∷ "--icmpv6-type" ∷ type ∷ "-j" ∷ "ACCEPT" ∷ [])

-- Ping, traceroute and neighbor discovery.
abbrev pub icmp_commands : String → List Command
icmp_commands ns =
    map (icmp ns) ("echo-request" ∷ "echo-reply" ∷ "destination-unreachable" ∷ "time-exceeded" ∷ [])
    ++ map (icmpv6 ns) (
        "echo-request" ∷ "echo-reply" ∷ "destination-unreachable" ∷ "time-exceeded"
        ∷ "neighbor-solicitation" ∷ "neighbor-advertisement" ∷ "router-solicitation"
        ∷ "router-advertisement" ∷ [])

abbrev udp : String → Family → String → String → Command
udp ns family ports target = input ns family ("-p" ∷ "udp" ∷ "--dport" ∷ ports ∷ "-j" ∷ target ∷ [])

abbrev pub dhcp_commands : Bool → String → List Command
dhcp_commands dual_tor ns =
    (if dual_tor then udp ns ipv4 "67" "DHCP" ∷ [] else [])
    ++ udp ns ipv4 "67:68" "ACCEPT"
      ∷ udp ns ipv6 "67:68" "ACCEPT"
      ∷ udp ns ipv4 "546:547" "ACCEPT"
      ∷ udp ns ipv6 "546:547" "ACCEPT"
      ∷ []

abbrev pub bgp : String → Family → Command
bgp ns family =
    exclude_mgmt_port (input ns family ("-p" ∷ "tcp" ∷ "--dport" ∷ "179" ∷ "-j" ∷ "ACCEPT" ∷ []))

abbrev pub no_tracking : String → String → Command
no_tracking ns chain =
    run ns ipv6 ("-t" ∷ "raw" ∷ "-A" ∷ chain ∷ "-p" ∷ "ipv6-icmp" ∷ "-j" ∷ "NOTRACK" ∷ [])
