-- ===== src/Cacl/Rules/Families.antt =====
-- What the loop over the rules keeps: rules of the table, of the table's IP version.
use sonic_host_services.Base.{
  Bool, true, false, Option, none, some, List, [], ◌∷◌, String, str_eq, eq_iff, ◌≡◌, refl, sym,
  arith, if◌then◌else◌, Yields, Yields-bind, Yields-if, subst, Bool-cases, inl, inr,
}
use mathlib.Core.List.{Memᴰ}
use sonic_host_services.Base.Dict.{lookup, insert, erase, lookup-insert, lookup-erase}
use sonic_host_services.Cacl.{Family, Port, Service, Props, Rule}
use sonic_host_services.Cacl.Rules.{
  Walk, detect, mismatched, keep_rule, drop_mismatched, read_dst_ports, read_prioritized, read_rule,
  read_rules,
}
use sonic_host_services.Cacl.Rules.Versions.{
  OfVersion, detect-OfVersion, detect-own, SameRules, read_dst_ports-SameRules,
}

-- A rule that is kept stands in ACL_RULE under the table's name and with its priority.
pub record Kept (table_name : String) (rules : List Rule) (version : Option Family)
    (priority : String) (props : Props) : Type 0 where
  pub rule : Rule
  pub stands : Memᴰ rule rules
  pub is_of_table : rule.rule_table_name ≡ table_name
  pub has_props : rule.rule_props ≡ props
  pub has_priority : lookup "PRIORITY" props ≡ some priority
  pub is_of_version : OfVersion version props

module _ (table_name : String) (rules : List Rule) where
  abbrev pub KeptRules : Option Family → List (String × Props) → Type 0
  KeptRules version d =
      (priority : String) (props : Props)
      → lookup priority d ≡ some props
      → Kept table_name rules version priority props

  module _ (rule : Rule) (stands : Memᴰ rule rules)
      (is_of_table : rule.rule_table_name ≡ table_name) (priority : String)
      (has_priority : lookup "PRIORITY" rule.rule_props ≡ some priority) where
    own-Kept :
        (version : Option Family) (j : String) (props : Props)
        → priority ≡ j
        → rule.rule_props ≡ props
        → mismatched rule.rule_props (detect rule.rule_props version) ≡ false
        → Kept table_name rules (detect rule.rule_props version) j props
    own-Kept version j props e f m = record {
      rule = rule;
      stands = stands;
      is_of_table = is_of_table;
      has_props = f;
      has_priority = cc;
      is_of_version =
          subst (λ x. OfVersion (detect rule.rule_props version) x) f
            (detect-own rule.rule_props version m);
    }

    later-Kept :
        (version : Option Family) (j : String) (props : Props)
        → Kept table_name rules version j props
        → Kept table_name rules (detect rule.rule_props version) j props
    later-Kept version j props k = record {
      rule = k.rule;
      stands = k.stands;
      is_of_table = k.is_of_table;
      has_props = k.has_props;
      has_priority = k.has_priority;
      is_of_version = detect-OfVersion props rule.rule_props version k.is_of_version;
    }

    insert-KeptRules :
        (version : Option Family) (d : List (String × Props))
        → mismatched rule.rule_props (detect rule.rule_props version) ≡ false
        → KeptRules version d
        → KeptRules (detect rule.rule_props version) (insert priority rule.rule_props d)
    insert-KeptRules version d m kept j props h = elim (Bool-cases (str_eq priority j)) [
      | inl e ↦
          own-Kept version j props ((eq_iff priority j).0 e)
            (ground (arith, lookup-insert priority j rule.rule_props d)) m
      | inr e ↦
          later-Kept version j props
            (kept j props (ground (arith, lookup-insert priority j rule.rule_props d)))
    ]

    erase-KeptRules :
        (version : Option Family) (d : List (String × Props))
        → KeptRules version d
        → KeptRules
            (detect rule.rule_props version)
            (erase priority (insert priority rule.rule_props d))
    erase-KeptRules version d kept j props h = later-Kept version j props (
        kept j props (
          ground (
            arith,
            lookup-insert priority j rule.rule_props d,
            lookup-erase priority j (insert priority rule.rule_props d),
          )))

    drop-KeptRules :
        (version : Option Family) (d : List (String × Props)) (b : Bool)
        → mismatched rule.rule_props (detect rule.rule_props version) ≡ b
        → KeptRules version d
        → KeptRules (detect rule.rule_props version) (
            if b
            then erase priority (insert priority rule.rule_props d)
            else insert priority rule.rule_props d)
    drop-KeptRules version d true m kept = erase-KeptRules version d kept
    drop-KeptRules version d false m kept = insert-KeptRules version d m kept

  abbrev pub KeptWalk : Walk → Type 0
  KeptWalk w = KeptRules w.table_ip_version w.acl_rules

  dropped-KeptWalk :
      (rule : Rule) (priority : String) (w v : Walk)
      → Memᴰ rule rules
      → rule.rule_table_name ≡ table_name
      → lookup "PRIORITY" rule.rule_props ≡ some priority
      → KeptWalk w
      → SameRules (keep_rule priority rule.rule_props w) v
      → KeptWalk (drop_mismatched priority rule.rule_props v)
  unfolding drop_mismatched keep_rule
  dropped-KeptWalk rule priority w v stands of_table has kept s =
      let version = detect rule.rule_props w.table_ip_version in
      subst
        (λ x.
          KeptRules x
            (if mismatched rule.rule_props x then erase priority v.acl_rules else v.acl_rules))
        (sym s.1)
        (subst
          (λ d.
            KeptRules version (if mismatched rule.rule_props version then erase priority d else d))
          (sym s.0)
          (drop-KeptRules rule stands of_table priority has w.table_ip_version w.acl_rules
            (mismatched rule.rule_props version) refl kept))

  read_prioritized-KeptWalk :
      (acl_service : String) (rule : Rule) (found : Option String) (w : Walk)
      → Memᴰ rule rules
      → rule.rule_table_name ≡ table_name
      → lookup "PRIORITY" rule.rule_props ≡ found
      → KeptWalk w
      → Yields (read_prioritized acl_service rule.rule_props found w) KeptWalk
  read_prioritized-KeptWalk acl_service rule none w stands of_table e kept = kept
  read_prioritized-KeptWalk acl_service rule (some priority) w stands of_table e kept =
      Yields-bind KeptWalk
        (read_dst_ports acl_service rule.rule_props (keep_rule priority rule.rule_props w)) _
        (read_dst_ports-SameRules acl_service rule.rule_props
          (keep_rule priority rule.rule_props w))
        (λ v s. dropped-KeptWalk rule priority w v stands of_table e kept s)

  read_rule-KeptWalk :
      (acl_service : String) (rule : Rule) (w : Walk)
      → Memᴰ rule rules
      → KeptWalk w
      → Yields (read_rule table_name acl_service rule w) KeptWalk
  unfolding read_rule
  read_rule-KeptWalk acl_service rule w stands kept =
      Yields-if KeptWalk (str_eq rule.rule_table_name table_name) _ w
        (λ e.
          read_prioritized-KeptWalk acl_service rule _ w stands
            ((eq_iff rule.rule_table_name table_name).0 e) refl kept)
        kept

  read_rules-KeptWalk :
      (acl_service : String) (rest : List Rule) (w : Walk)
      → ((rule : Rule) → Memᴰ rule rest → Memᴰ rule rules)
      → KeptWalk w
      → Yields (read_rules table_name acl_service rest w) KeptWalk
  unfolding read_rules
  read_rules-KeptWalk acl_service [] w stand kept = kept
  read_rules-KeptWalk acl_service (rule ∷ rest) w stand kept =
      Yields-bind KeptWalk (read_rule table_name acl_service rule w) _
        (read_rule-KeptWalk acl_service rule w (stand rule (Memᴰ.head refl)) kept)
        (λ v k. read_rules-KeptWalk acl_service rest v (λ r m. stand r (Memᴰ.tail m)) k)

  -- Every rule that the loop keeps stands in ACL_RULE under the table and has its version.
  pub read_rules-Kept :
      (acl_service : String) (version : Option Family) (ports : List Port)
      (services : List (String × Service))
      → Yields
          (read_rules table_name acl_service rules (record {
            acl_rules = [];
            table_ip_version = version;
            dst_ports = ports;
            services = services;
          }))
          KeptWalk
  unfolding lookup
  read_rules-Kept acl_service version ports services =
      read_rules-KeptWalk acl_service rules _ (λ r m. m) (λ j props h. cc)
