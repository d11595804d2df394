-- ===== src/Cacl/Emit.antt =====
-- The commands of the rules of a table, in get_acl_rules_and_translate_to_iptables_commands of
-- scripts/caclmgrd.
pub mod Growth
pub mod Blocks
pub mod Total
use sonic_host_services.Base.{
  ◌>>=◌, ℕ, zero, suc, Bool, true, false, not, ◌&&◌, ◌||◌, Option, none, some, List, [], ◌∷◌, ◌++◌,
  map, String, str_eq, ◌==◌, ltb, if◌then◌else◌,
}
use sonic_host_services.Base.Dict.{lookup, insert}
use sonic_host_services.Base.Set.{contains, add}
use sonic_host_services.Base.Text.{Text, codes}
use sonic_host_services.Host.Image.{split}
use sonic_host_services.Cacl.{
  Word, lit, text, num, Command, words, Family, ipv4, ipv6, iptables, Port, named, numbered,
  port_word, Service, Table, no_data, fields, Props, Rule, is_default, ns_prefix,
}
use sonic_host_services.Cacl.Parse.{int_of, sorted_desc, parse_int_to_tcp_flags}
use sonic_host_services.Cacl.Rules.{prop, Walk, read_rules}

-- A flag of the command with its value, if there is one; of two values the first counts.
abbrev pub option_words : String → Option String → Option String → Command
option_words f none none = []
option_words f none (some v) = words (f ∷ v ∷ [])
option_words f (some v) other = words (f ∷ v ∷ [])

abbrev pub chain_of : String → Bool → String
chain_of namespace fwd = if not (is_default namespace) && fwd then "FORWARD" else "INPUT"

abbrev pub protocol_words : String → Command
protocol_words protocol = if str_eq protocol "any" then [] else words ("-p" ∷ protocol ∷ [])

-- Port "0" stands for all ports.
abbrev pub port_words : Port → Command
port_words (named p) = if str_eq p "0" then [] else words ("--dport" ∷ p ∷ [])
port_words (numbered n) = lit "--dport" ∷ num n ∷ []

abbrev pub flag_words : ℕ → ℕ → Command
flag_words flags mask =
    if ltb 0 mask
    then lit "--tcp-flags"
      ∷ text (parse_int_to_tcp_flags mask)
      ∷ text (parse_int_to_tcp_flags flags)
      ∷ []
    else []

abbrev pub parse_flags : List Text → Option Command
parse_flags (a ∷ b ∷ []) = do flags ← int_of 16 a; mask ← int_of 16 b; some (flag_words flags mask)
parse_flags _ = none

abbrev pub tcp_flag_words : Option String → Option Command
tcp_flag_words none = some []
tcp_flag_words (some v) = parse_flags (split 47 (codes v))

-- The words before and after those of the TCP flags.
abbrev pub match_words : String → Bool → Family → Props → String → Port → Command
match_words namespace fwd version props protocol port =
    ns_prefix namespace
    ++ words (iptables version ∷ "-A" ∷ chain_of namespace fwd ∷ [])
    ++ protocol_words protocol
    ++ option_words "-s" (prop "SRC_IPV6" props) (prop "SRC_IP" props)
    ++ option_words "-d" (prop "DST_IPV6" props) (prop "DST_IP" props)
    ++ option_words "-i" (prop "IN_PORTS" props) none
    ++ port_words port

unfoldable pub rule_cmd : String → Bool → Family → Props → String → String → Port → Option Command
rule_cmd namespace fwd version props action protocol port = do
  flags ← if str_eq protocol "tcp" then tcp_flag_words (prop "TCP_FLAGS" props) else some []
  some
      (match_words namespace fwd version props protocol port ++ flags ++ words ("-j" ∷ action ∷ []))

-- The commands so far, their number, and the source addresses that are accepted.
pub record Output : Type 0 where
  pub iptables_cmds : List Command
  pub num_ctrl_plane_acl_rules : ℕ
  pub ipv4_src_ip_set : List String
  pub ipv6_src_ip_set : List String

abbrev pub add_if : Bool → Option String → List String → List String
add_if b none set = set
add_if b (some v) set = if b then add v set else set

abbrev pub none_if_some : Option String → Option String → Option String
none_if_some none o = o
none_if_some (some v) o = none

unfoldable pub emit : Props → String → Command → Output → Output
emit props action cmd o = record {
  iptables_cmds = o.iptables_cmds ++ cmd ∷ [];
  num_ctrl_plane_acl_rules = suc o.num_ctrl_plane_acl_rules;
  ipv4_src_ip_set =
      add_if (str_eq action "ACCEPT") (none_if_some (prop "SRC_IPV6" props) (prop "SRC_IP" props))
        o.ipv4_src_ip_set;
  ipv6_src_ip_set = add_if (str_eq action "ACCEPT") (prop "SRC_IPV6" props) o.ipv6_src_ip_set;
}

-- What a rule is translated for.
pub record Target : Type 0 where
  pub namespace : String
  pub fwd : Bool
  pub version : Family

unfoldable pub emit_ports : Target → Props → String → String → List Port → Output → Option Output
emit_ports t props action protocol [] o = some o
emit_ports t props action protocol (port ∷ ports) o = do
  cmd ← rule_cmd t.namespace t.fwd t.version props action protocol port
  emit_ports t props action protocol ports (emit props action cmd o)

unfoldable pub emit_protocols :
    Target → Props → String → List String → List Port → Output → Option Output
emit_protocols t props action [] ports o = some o
emit_protocols t props action (protocol ∷ protocols) ports o = do
  p ← emit_ports t props action protocol ports o
  emit_protocols t props action protocols ports p

-- A rule without PACKET_ACTION is skipped.
abbrev pub emit_action :
    Target → Props → Option String → List String → List Port → Output → Option Output
emit_action t props none protocols ports o = some o
emit_action t props (some action) protocols ports o =
    emit_protocols t props action protocols ports o

abbrev pub emit_rule : Target → Option Props → List String → List Port → Output → Option Output
emit_rule t none protocols ports o = none
emit_rule t (some props) protocols ports o =
    emit_action t props (lookup "PACKET_ACTION" props) protocols ports o

unfoldable pub emit_rules :
    Target → List (String × Props) → List String → List Port → List String → Output → Option Output
emit_rules t rules protocols ports [] o = some o
emit_rules t rules protocols ports (priority ∷ priorities) o = do
  p ← emit_rule t (lookup priority rules) protocols ports o
  emit_rules t rules protocols ports priorities p

abbrev pub priorities : List (String × Props) → List String
priorities rules = map (λ (e : String × Props). e.0) rules

-- The rules of a table in descending order of their priorities.
unfoldable pub emit_table :
    Target → List (String × Props) → List String → List Port → Output → Option Output
emit_table t rules protocols ports o =
    emit_rules t rules protocols ports (sorted_desc (priorities rules)) o
