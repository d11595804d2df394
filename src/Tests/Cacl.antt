-- ===== src/Tests/Cacl.antt =====
-- scripts/caclmgrd at concrete inputs: its commands of a table, its threads and its other rules.
use sonic_host_services.Base.{ℕ, true, Option, none, some, List, [], ◌∷◌, String, ◌≡◌, refl, arith}
use mathlib.Core.List.{Perm}
use sonic_host_services.Base.Dict.{lookup, insert, erase}
use sonic_host_services.Base.Set.{contains, add}
use sonic_host_services.Cacl.{Command, words, ipv4, named, ns_prefix, Props}
use sonic_host_services.Cacl.Parse.{text_lt, insert_desc, sorted_desc}
use sonic_host_services.Cacl.Emit.{
  Output, Target, emit, rule_cmd, emit_ports, emit_protocols, emit_rules, emit_table, priorities,
}
use sonic_host_services.Cacl.Parse.Order.{Descending}
use sonic_host_services.Cacl.Emit.Blocks.{Blocks, emit_table-Blocks}
use sonic_host_services.Cacl.Updates.{
  Updates, started, change, notify, wake, awake, Reachable, starts, steps, changes, notified,
}
use sonic_host_services.Cacl.Updates.Settle.{Settles, reachable-Settles, wake_up}
use sonic_host_services.Cacl.DashHa.{Message, set, del, receive, update_dash_ha_rules, swbus_port}
use sonic_host_services.Cacl.DashHa.Ports.{Clean, Balanced, receive-Balanced}
use sonic_host_services.Cacl.Blocked.{
  Cidr, Interfaces, drop_command, generate_block_ip2me_traffic_iptables_commands, block_table,
  blocked_address,
}
use sonic_host_services.Cacl.Blocked.Subnets.{Gives, Drops, all_keys, generate_block-Drops}

abbrev kept : List (String × Props)
kept =
    ("9", ("PACKET_ACTION", "ACCEPT") ∷ ("SRC_IP", "10.0.0.1") ∷ [])
    ∷ ("10", ("PACKET_ACTION", "DROP") ∷ [])
    ∷ ("8", [])
    ∷ []

abbrev snmp : Target
snmp = record { namespace = "asic0"; fwd = true; version = ipv4 }

abbrev empty_output : Output
empty_output = record {
  iptables_cmds = [];
  num_ctrl_plane_acl_rules = 0;
  ipv4_src_ip_set = [];
  ipv6_src_ip_set = [];
}

abbrev forwarded : String → List String → Command
forwarded protocol args =
    words
      ("ip" ∷ "netns" ∷ "exec" ∷ "asic0" ∷ "iptables" ∷ "-A" ∷ "FORWARD" ∷ "-p" ∷ protocol ∷ args)

abbrev snmp_output : Output
snmp_output = record {
  iptables_cmds =
      forwarded "tcp" ("-s" ∷ "10.0.0.1" ∷ "--dport" ∷ "161" ∷ "-j" ∷ "ACCEPT" ∷ [])
      ∷ forwarded "udp" ("-s" ∷ "10.0.0.1" ∷ "--dport" ∷ "161" ∷ "-j" ∷ "ACCEPT" ∷ [])
      ∷ forwarded "tcp" ("--dport" ∷ "161" ∷ "-j" ∷ "DROP" ∷ [])
      ∷ forwarded "udp" ("--dport" ∷ "161" ∷ "-j" ∷ "DROP" ∷ [])
      ∷ [];
  num_ctrl_plane_acl_rules = 4;
  ipv4_src_ip_set = "10.0.0.1" ∷ [];
  ipv6_src_ip_set = [];
}

snmp_emitted :
    emit_table snmp kept ("tcp" ∷ "udp" ∷ []) (named "161" ∷ []) empty_output ≡ some snmp_output
unfolding emit rule_cmd emit_ports emit_protocols emit_rules emit_table ns_prefix sorted_desc
    insert_desc text_lt lookup contains add
snmp_emitted = refl

emit_table-Blocks_example :
    (ps : List String) × Perm ps (priorities kept)
    × Descending ps
    × Blocks snmp kept
        ("tcp" ∷ "udp" ∷ [])
        (named "161" ∷ [])
        ps
        empty_output.iptables_cmds
        snmp_output.iptables_cmds
emit_table-Blocks_example =
    emit_table-Blocks snmp kept ("tcp" ∷ "udp" ∷ []) (named "161" ∷ []) empty_output snmp_output
      snmp_emitted

-- A change while the thread waits for the first one.
abbrev busy : Updates
busy = notify 0 (change (notify 0 (change (started 7))))

busy-Reachable : Reachable 7 busy
busy-Reachable =
    steps (steps (steps (steps starts changes) (notified 0 (omega arith))) changes)
      (notified 0 (omega arith))

settled : (wake_up (wake_up busy)).applied ≡ 9
unfolding wake awake
settled = refl

reachable-Settles_example : Settles busy
reachable-Settles_example = reachable-Settles 7 busy busy-Reachable

abbrev messages : List Message
messages =
    record { key = "dpu0"; op = set; fvs = ("swbus_port", "23606") ∷ [] }
    ∷ record { key = "dpu1"; op = set; fvs = ("state", "up") ∷ ("swbus_port", "23606") ∷ [] }
    ∷ record { key = "dpu0"; op = set; fvs = ("swbus_port", "23607") ∷ [] }
    ∷ record { key = "dpu1"; op = del; fvs = [] }
    ∷ []

ports : (receive messages []).ports ≡ ("dpu0", "23607") ∷ []
unfolding receive update_dash_ha_rules swbus_port lookup insert erase
ports = refl

none-Clean : Clean []
unfolding Clean
none-Clean = tt

receive-Balanced_example : Balanced [] (receive messages [])
receive-Balanced_example = receive-Balanced messages [] none-Clean

abbrev cidr : ℕ → ℕ → Option Cidr
cidr address prefix_len =
    some (record { family = ipv4; address = address; prefix_len = prefix_len })

-- 192.168.0.33/24 of a VLAN, and 10.0.0.1/31.
abbrev interfaces : Interfaces
interfaces = record {
  loopback_interface = none ∷ [];
  vlan_interface = none ∷ cidr 3232235553 24 ∷ [];
  portchannel_interface = [];
  interface = cidr 167772161 31 ∷ [];
}

blocked :
    generate_block_ip2me_traffic_iptables_commands "" interfaces
    ≡ some (drop_command "" ipv4 3232235521 ∷ drop_command "" ipv4 167772160 ∷ [])
unfolding generate_block_ip2me_traffic_iptables_commands block_table blocked_address
blocked = refl

generate_block-Drops_example :
    Gives
      (Drops "" (all_keys interfaces))
      (generate_block_ip2me_traffic_iptables_commands "" interfaces)
generate_block-Drops_example = generate_block-Drops "" interfaces (tt, (omega arith, tt))
