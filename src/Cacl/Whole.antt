-- ===== src/Cacl/Whole.antt =====
-- get_acl_rules_and_translate_to_iptables_commands of scripts/caclmgrd as a whole, and
-- generate_fwd_traffic_from_namespace_to_host_commands on its result.
use sonic_host_services.Base.{
  Option, none, some, List, [], ◌∷◌, ◌++◌, map, String, if◌then◌else◌, ◌>>=◌,
}
use sonic_host_services.Base.Dict.{lookup}
use sonic_host_services.Cacl.{
  Command, words, Family, ipv4, ipv6, iptables, Port, port_word, ports_of, Service, is_default,
  ns_prefix,
}
use sonic_host_services.Cacl.Front.{Manager, Device}
use sonic_host_services.Cacl.Front.First.{first_commands, concat}
use sonic_host_services.Cacl.Blocked.{Interfaces, generate_block_ip2me_traffic_iptables_commands}
use sonic_host_services.Cacl.Translate.{Config, Translation, Sources, translate_acls}

unfoldable pub get_acl_rules_and_translate :
    Manager
    → Device
    → Interfaces
    → Config
    → List (String × Service)
    → Option (List Command × Translation)
get_acl_rules_and_translate m d i c services = do
  first ← first_commands m d c.namespace services
  translate_acls c services first (generate_block_ip2me_traffic_iptables_commands c.namespace i)

abbrev nat : String → Family → List String → Command
nat ns family args = ns_prefix ns ++ words (iptables family ∷ "-t" ∷ "nat" ∷ args)

abbrev nat_rule : String → Family → String → String → String → Port → List String → Command
nat_rule ns family chain protocol source port args =
    nat ns family ("-A" ∷ chain ∷ "-p" ∷ protocol ∷ "-s" ∷ source ∷ "--dport" ∷ [])
    ++ port_word port ∷ words ("-j" ∷ args)

-- To the host, and back as if from the namespace.
abbrev nat_pair : String → Family → String → String → String → Port → String → List Command
nat_pair ns family mgmt docker protocol port source =
    nat_rule ns family "PREROUTING" protocol source port ("DNAT" ∷ "--to-destination" ∷ mgmt ∷ [])
    ∷ nat_rule ns family "POSTROUTING" protocol source port ("SNAT" ∷ "--to-source" ∷ docker ∷ [])
    ∷ []

-- The accepted sources, or all if there are none.
abbrev sources_or : String → List String → List String
sources_or everything [] = everything ∷ []
sources_or everything (s ∷ ss) = s ∷ ss

abbrev ipv4_of : Option Sources → List String
ipv4_of none = "0.0.0.0/0" ∷ []
ipv4_of (some s) = sources_or "0.0.0.0/0" s.ipv4_sources

abbrev ipv6_of : Option Sources → List String
ipv6_of none = "::/0" ∷ []
ipv6_of (some s) = sources_or "::/0" s.ipv6_sources

abbrev nat_service : Manager → String → String → String → Option Sources → Service → List Command
nat_service m ns docker dockerv6 found s = concat (
    map
      (λ protocol. concat (
        map
          (λ port.
            concat (map (nat_pair ns ipv4 m.namespace_mgmt_ip docker protocol port) (ipv4_of found))
            ++ concat (
                map (nat_pair ns ipv6 m.namespace_mgmt_ipv6 dockerv6 protocol port)
                  (ipv6_of found)))
          (ports_of s.dst_ports)))
      s.ip_protocols)

unfoldable pub nat_services :
    Manager
    → String
    → String
    → String
    → List (String × Sources)
    → List (String × Service)
    → List Command
nat_services m ns docker dockerv6 sources [] = []
nat_services m ns docker dockerv6 sources ((name, s) ∷ services) =
    let rest = nat_services m ns docker dockerv6 sources services in
    if s.multi_asic_ns_to_host_fwd
    then nat_service m ns docker dockerv6 (lookup name sources) s ++ rest
    else rest

-- With the addresses of the namespace; it raises if there are none.
unfoldable pub generate_fwd_traffic_from_namespace_to_host_commands :
    Manager → String → List (String × Sources) → List (String × Service) → Option (List Command)
generate_fwd_traffic_from_namespace_to_host_commands m ns sources services =
    if is_default ns then some [] else do
      docker ← lookup ns m.namespace_docker_mgmt_ip
      dockerv6 ← lookup ns m.namespace_docker_mgmt_ipv6
      some (
          nat ns ipv4 ("-X" ∷ [])
          ∷ nat ns ipv4 ("-F" ∷ [])
          ∷ nat ns ipv6 ("-X" ∷ [])
          ∷ nat ns ipv6 ("-F" ∷ [])
          ∷ nat_services m ns docker dockerv6 sources services)
