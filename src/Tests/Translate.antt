-- ===== src/Tests/Translate.antt =====
-- The translation of the ACLs of scripts/caclmgrd at concrete inputs.
use sonic_host_services.Base.{false, none, some, List, [], ◌∷◌, ◌++◌, String, ◌≡◌, refl}
use sonic_host_services.Base.Text.{codes, lstrip, rstrip}
use sonic_host_services.Base.Dict.{lookup, insert, erase}
use sonic_host_services.Base.Set.{contains, add}
use sonic_host_services.Host.Image.{split}
use sonic_host_services.Cacl.{text, Command, words, acl_services, fields, Rule, ns_prefix, Props}
use sonic_host_services.Cacl.Parse.{
  int_of, int_digits, digit, text_lt, insert_desc, sorted_desc, parse_int_to_tcp_flags,
}
use sonic_host_services.Cacl.Rules.{
  read_rules, read_rule, read_dst_ports, keep_rule, drop_mismatched, is_rule_ipv4, is_rule_ipv6,
}
use sonic_host_services.Cacl.Emit.{
  emit, rule_cmd, emit_ports, emit_protocols, emit_rules, emit_table,
}
use sonic_host_services.Cacl.Translate.{
  Config, Translation, translate_acls, translate_tables, translate_table, translate_services,
  translate_service, final_drops, ttl_commands,
}

flags : parse_int_to_tcp_flags 18 ≡ codes "SYN,ACK"
unfolding parse_int_to_tcp_flags
flags = refl

-- Priorities are texts: 9 comes before 10.
text_order : sorted_desc ("10" ∷ "9" ∷ "100" ∷ []) ≡ "9" ∷ "100" ∷ "10" ∷ []
unfolding sorted_desc insert_desc text_lt
text_order = refl

abbrev rule : String → Props → Rule
rule table props = record { rule_table_name = table; rule_props = props }

abbrev config : Config
config = record {
  namespace = "";
  redfish_allowed = false;
  tables_db_info =
      ("DATA", fields (some "L3") none)
      ∷ ("SSH_ONLY", fields (some "CTRLPLANE") (some ("SSH" ∷ "REDFISH" ∷ [])))
      ∷ [];
  rules_db_info =
      rule "SSH_ONLY"
        (("PRIORITY", "9998") ∷ ("PACKET_ACTION", "ACCEPT") ∷ ("SRC_IP", "10.0.0.0/8") ∷ [])
      ∷ rule "SSH_ONLY" (
          ("PRIORITY", "9999")
          ∷ ("PACKET_ACTION", "DROP")
          ∷ ("SRC_IP", "10.1.0.0/16")
          ∷ ("TCP_FLAGS", "0x02/0x12")
          ∷ [])
      ∷ rule "SSH_ONLY"
          (("PRIORITY", "9997") ∷ ("PACKET_ACTION", "ACCEPT") ∷ ("SRC_IPV6", "::/0") ∷ [])
      ∷ [];
}

-- The two IPv4 rules of the table in the order of their priorities, and no rule for IPv6.
abbrev drop_rule : Command
drop_rule =
    words (
      "iptables" ∷ "-A" ∷ "INPUT" ∷ "-p" ∷ "tcp" ∷ "-s" ∷ "10.1.0.0/16" ∷ "--dport" ∷ "22"
      ∷ "--tcp-flags" ∷ [])
    ++ text (codes "SYN,ACK") ∷ text (codes "SYN") ∷ words ("-j" ∷ "DROP" ∷ [])

abbrev accept_rule : Command
accept_rule = words (
    "iptables" ∷ "-A" ∷ "INPUT" ∷ "-p" ∷ "tcp" ∷ "-s" ∷ "10.0.0.0/8" ∷ "--dport" ∷ "22" ∷ "-j"
    ∷ "ACCEPT" ∷ [])

abbrev all_commands : List Command
all_commands =
    (drop_rule ∷ accept_rule ∷ [])
    ++ ttl_commands ""
    ++ words ("iptables" ∷ "-A" ∷ "INPUT" ∷ "-j" ∷ "DROP" ∷ [])
      ∷ words ("ip6tables" ∷ "-A" ∷ "INPUT" ∷ "-j" ∷ "DROP" ∷ [])
      ∷ []

abbrev translated : Translation
translated = record {
  services = acl_services;
  iptables_cmds = drop_rule ∷ accept_rule ∷ [];
  num_ctrl_plane_acl_rules = 2;
  service_to_source_ip_map =
      ("SSH", record { ipv4_sources = "10.0.0.0/8" ∷ []; ipv6_sources = [] }) ∷ [];
}

is_translated : translate_acls config acl_services [] (some []) ≡ some (all_commands, translated)
unfolding translate_acls translate_tables translate_table translate_services translate_service
    read_rules read_rule read_dst_ports keep_rule drop_mismatched is_rule_ipv4 is_rule_ipv6 emit
    rule_cmd emit_ports emit_protocols emit_rules emit_table final_drops ns_prefix sorted_desc
    insert_desc text_lt parse_int_to_tcp_flags int_of int_digits digit split lookup insert erase
    contains add lstrip rstrip
is_translated = refl
