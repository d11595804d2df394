-- ===== src/Cacl/Translate/Origin.antt =====
-- Where the commands of one service of a table come from.
use sonic_host_services.Base.{
  true, false, Option, none, some, List, [], ◌∷◌, String, ◌≡◌, refl, sym, subst, Yields, Yields-map,
  Yields-bind, Yields-both,
}
use mathlib.Core.List.{Memᴰ}
use sonic_host_services.Base.Dict.{lookup}
use sonic_host_services.Cacl.{Command, Family, Port, ports_of, Props, Service, fields, Rule}
use sonic_host_services.Cacl.Rules.{Walk, mismatched, read_rules}
use sonic_host_services.Cacl.Rules.Families.{KeptWalk, Kept, read_rules-Kept}
use sonic_host_services.Cacl.Rules.Versions.{OfVersion}
use sonic_host_services.Cacl.Rules.Known.{
  KnownPorts, KnownWalk, PortOf, start-KnownPorts, KnownAs, KnownServices, read_rules-Known,
}
use sonic_host_services.Cacl.Emit.{emit_table}
use sonic_host_services.Cacl.Emit.Growth.{
  Grows, Grows-refl, Grows-trans, Grows-map, MadeFrom, Made, emit_table-Grows,
}
use sonic_host_services.Cacl.Translate.{
  Config, Translation, target, emit_walk, translate_service, start_output, start_walk,
}

-- A command is that of a rule that stands in ACL_RULE under a control plane table of ACL_TABLE, for a
-- service of that table and one of the service's protocols. The rule has a priority, it is no rule
-- of the other IP version, and the command has its action and a port of the service: its own, or for
-- EXTERNAL_CLIENT one that a rule of ACL_RULE gives.
pub record RuleOf (c : Config) (known : List (String × Service)) (cmd : Command) : Type 0 where
  pub table_name : String
  pub services : List String
  pub is_control_plane :
      Memᴰ (table_name, fields (some "CTRLPLANE") (some services)) c.tables_db_info
  pub acl_service : String
  pub is_of_table : Memᴰ acl_service services
  pub service : Service
  pub is_known : lookup acl_service known ≡ some service
  pub is_enabled : acl_service ≡ "REDFISH" → c.redfish_allowed ≡ true
  pub version : Family
  pub rule : Rule
  pub stands : Memᴰ rule c.rules_db_info
  pub is_named : rule.rule_table_name ≡ table_name
  pub priority : String
  pub has_priority : lookup "PRIORITY" rule.rule_props ≡ some priority
  pub is_of_version : mismatched rule.rule_props (some version) ≡ false
  pub ports : List Port
  pub are_ports : (port : Port) → Memᴰ port ports → PortOf c.rules_db_info acl_service service port
  pub is_made : Made (target c service version) service.ip_protocols ports rule.rule_props cmd

-- What a step of the translation keeps and adds.
pub record Sound (c : Config) (known : List (String × Service)) (t u : Translation) : Type 0 where
  pub are_known : KnownServices known c.rules_db_info u.services
  pub grows :
      Grows
        (RuleOf c known)
        t.iptables_cmds
        t.num_ctrl_plane_acl_rules
        u.iptables_cmds
        u.num_ctrl_plane_acl_rules

module _ (c : Config) (known : List (String × Service)) where
  pub Sound-refl :
      (t : Translation) → KnownServices known c.rules_db_info t.services → Sound c known t t
  Sound-refl t h = record {
    are_known = h;
    grows = Grows-refl t.iptables_cmds t.num_ctrl_plane_acl_rules;
  }

  pub Sound-then :
      (result : Option Translation) (t u : Translation)
      → Sound c known t u
      → Yields result (λ v. Sound c known u v)
      → Yields result (λ v. Sound c known t v)
  Sound-then result t u s y =
      Yields-map _ result
        (λ v r. record { are_known = r.are_known; grows = Grows-trans _ _ _ _ _ _ s.grows r.grows })
        y

  module _ (table_name : String) (services : List String)
      (is_control_plane : Memᴰ
        (table_name, fields (some "CTRLPLANE") (some services))
        c.tables_db_info)
      (acl_service : String) (is_of_table : Memᴰ acl_service services)
      (is_enabled : acl_service ≡ "REDFISH" → c.redfish_allowed ≡ true) (s : Service)
      (is_known : KnownAs known c.rules_db_info acl_service s) where
    Made-known :
        (version : Family) (ports : List Port) (props : Props) (cmd : Command)
        → Made (target c s version) s.ip_protocols ports props cmd
        → Made (target c is_known.0 version) is_known.0.ip_protocols ports props cmd
    Made-known version ports props cmd m =
        subst (λ ps. Made (target c is_known.0 version) ps ports props cmd) is_known.2.0
          (subst
            (λ b.
              Made (record { namespace = c.namespace; fwd = b; version = version }) s.ip_protocols
                ports props cmd)
            is_known.2.1 m)

    kept-RuleOf :
        (version : Family) (ports : List Port) (w : Walk) (cmd : Command)
        → KnownPorts known c.rules_db_info acl_service ports
        → KeptWalk table_name c.rules_db_info w
        → w.table_ip_version ≡ some version
        → MadeFrom (target c s version) s.ip_protocols ports w.acl_rules cmd
        → RuleOf c known cmd
    kept-RuleOf version ports w cmd given kept e m =
        let k : Kept table_name c.rules_db_info w.table_ip_version m.priority m.props =
          kept m.priority m.props m.is_kept in
        record {
          table_name = table_name;
          services = services;
          is_control_plane = is_control_plane;
          acl_service = acl_service;
          is_of_table = is_of_table;
          service = is_known.0;
          is_known = is_known.1;
          is_enabled = is_enabled;
          version = version;
          rule = k.rule;
          stands = k.stands;
          is_named = k.is_of_table;
          priority = m.priority;
          has_priority =
              subst (λ p. lookup "PRIORITY" p ≡ some m.priority) (sym k.has_props) k.has_priority;
          is_of_version =
              subst (λ p. mismatched p (some version) ≡ false) (sym k.has_props)
                (subst (λ v. OfVersion v m.props) e k.is_of_version);
          ports = ports;
          are_ports = given is_known.0 is_known.1;
          is_made =
              subst (λ p. Made (target c is_known.0 version) is_known.0.ip_protocols ports p cmd)
                (sym k.has_props) (Made-known version ports m.props cmd m.is_command);
        }

    emit_walk-Sound :
        (found : Option Family) (ports : List Port) (w : Walk) (t : Translation)
        → w.table_ip_version ≡ found
        → KnownPorts known c.rules_db_info acl_service ports
        → KeptWalk table_name c.rules_db_info w
        → KnownServices known c.rules_db_info w.services
        → Yields (emit_walk c acl_service s found ports w t) (λ u. Sound c known t u)
    emit_walk-Sound none ports w t e given kept h = record {
      are_known = h;
      grows = Grows-refl t.iptables_cmds t.num_ctrl_plane_acl_rules;
    }
    emit_walk-Sound (some version) [] w t e given kept h = record {
      are_known = h;
      grows = Grows-refl t.iptables_cmds t.num_ctrl_plane_acl_rules;
    }
    emit_walk-Sound (some version) (port ∷ ports) w t e given kept h =
        Yields-bind _
          (emit_table (target c s version) w.acl_rules s.ip_protocols (port ∷ ports)
            (start_output t))
          _
          (emit_table-Grows (target c s version) w.acl_rules s.ip_protocols (port ∷ ports)
            (start_output t))
          (λ o g. record {
            are_known = h;
            grows =
                Grows-map _ (RuleOf c known) _ _ _ _
                  (λ cmd m. kept-RuleOf version (port ∷ ports) w cmd given kept e m) g;
          })

    pub translate_service-Sound :
        (version : Option Family) (t : Translation)
        → KnownServices known c.rules_db_info t.services
        → Yields (translate_service c table_name acl_service s version t) (λ r. Sound c known t r.1)
    unfolding translate_service
    translate_service-Sound version t h =
        Yields-bind _
          (read_rules table_name acl_service c.rules_db_info (start_walk version s t.services)) _
          (Yields-both (KeptWalk table_name c.rules_db_info)
            (KnownWalk known c.rules_db_info acl_service) _
            (read_rules-Kept table_name c.rules_db_info acl_service version (ports_of s.dst_ports)
              t.services)
            (read_rules-Known known c.rules_db_info table_name acl_service c.rules_db_info
              (start_walk version s t.services) (λ r m. m)
              (h, start-KnownPorts known c.rules_db_info acl_service s is_known)))
          (λ w k.
            Yields-bind _ (emit_walk c acl_service s w.table_ip_version w.dst_ports w t) _
              (emit_walk-Sound w.table_ip_version w.dst_ports w t refl k.1.1 k.0 k.1.0) (λ u g. g))
