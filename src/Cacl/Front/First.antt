-- ===== src/Cacl/Front/First.antt =====
-- All commands of scripts/caclmgrd before those of the rules, in their order.
use sonic_host_services.Base.{
  not, ◌&&◌, Option, some, List, [], ◌∷◌, ◌++◌, map, String, if◌then◌else◌, ◌>>=◌,
}
use sonic_host_services.Cacl.{
  Command, words, ipv4, ipv6, Port, port_word, ports_of, Service, is_default, ns_prefix,
}
use sonic_host_services.Cacl.Front.{
  Manager, Device, policies, get_chain_list, flush_chains, flush_ipv6, localhost,
  get_bfd_iptable_commands, get_vxlan_port_iptable_commands, dash_ha_commands,
  generate_allow_internal_docker_ip_traffic_commands,
  generate_allow_internal_chasis_midplane_traffic, established, icmp_commands, dhcp_commands, bgp,
  no_tracking,
}

abbrev forward_pair : Manager → String → String → Port → List Command
forward_pair m ns protocol port =
    (ns_prefix ns
      ++ words (
          "ip6tables" ∷ "-A" ∷ "FORWARD" ∷ "-p" ∷ protocol ∷ "-s" ∷ m.namespace_mgmt_ipv6
          ∷ "--sport" ∷ [])
      ++ port_word port ∷ words ("-j" ∷ "ACCEPT" ∷ []))
    ∷ (ns_prefix ns
        ++ words (
            "iptables" ∷ "-A" ∷ "FORWARD" ∷ "-p" ∷ protocol ∷ "-s" ∷ m.namespace_mgmt_ip ∷ "--sport"
            ∷ [])
        ++ port_word port ∷ words ("-j" ∷ "ACCEPT" ∷ []))
    ∷ []

abbrev pub concat : List (List Command) → List Command
concat [] = []
concat (xs ∷ xss) = xs ++ concat xss

abbrev forward_service : Manager → String → List String → List Port → List Command
forward_service m ns protocols ports =
    concat (map (λ protocol. concat (map (forward_pair m ns protocol) ports)) protocols)

-- The answers of the services of the host to a namespace.
unfoldable pub forward_commands : Manager → String → List (String × Service) → List Command
forward_commands m ns [] = []
forward_commands m ns ((name, s) ∷ services) =
    let rest = forward_commands m ns services in
    if not (is_default ns) && s.multi_asic_ns_to_host_fwd
    then forward_service m ns s.ip_protocols (ports_of s.dst_ports) ++ rest
    else rest

-- All commands before those of the rules.
unfoldable pub first_commands :
    Manager → Device → String → List (String × Service) → Option (List Command)
first_commands m d ns services = do
  docker ← generate_allow_internal_docker_ip_traffic_commands m ns
  some (
      policies ns ipv4
      ++ flush_chains ns (get_chain_list m.dual_tor d.chains)
      ++ policies ns ipv6
      ++ flush_ipv6 ns
      ++ localhost ns
      ++ (if m.bfd_allowed then get_bfd_iptable_commands ns else [])
      ++ (if m.vxlan_allowed then get_vxlan_port_iptable_commands ns m.vxlan_src_ip else [])
      ++ dash_ha_commands ns m.dash_ha_port_map
      ++ docker
      ++ generate_allow_internal_chasis_midplane_traffic d ns
      ++ established ns ipv4 ∷ established ns ipv6 ∷ icmp_commands ns
      ++ dhcp_commands m.dual_tor ns
      ++ bgp ns ipv4
        ∷ bgp ns ipv6
        ∷ no_tracking ns "PREROUTING"
        ∷ no_tracking ns "OUTPUT"
        ∷ forward_commands m ns services)
