-- ===== src/Cacl/Rules/Versions.antt =====
-- Rules and the IP version of their table, and what reading ports leaves.
use sonic_host_services.Base.{
  Bool, true, false, Option, none, some, List, String, str_eq, ◌≡◌, refl, Yields, Yields-if,
}
use sonic_host_services.Base.Dict.{lookup}
use sonic_host_services.Cacl.{Family, Port, Props}
use sonic_host_services.Cacl.Rules.{
  Walk, detect, detected, is_rule_ipv4, is_rule_ipv6, mismatched, read_dst_ports, put_dst_ports,
  put_range,
}

-- A rule without addresses goes with every version.
abbrev pub OfVersion : Option Family → Props → Type 0
OfVersion none props = (is_rule_ipv6 props ≡ false) × (is_rule_ipv4 props ≡ false)
OfVersion (some version) props = mismatched props (some version) ≡ false

detected-OfVersion :
    (props : Props) (is_ipv6 is_ipv4 : Bool)
    → OfVersion none props
    → OfVersion (detected is_ipv6 is_ipv4) props
detected-OfVersion props true is_ipv4 h = h.1
detected-OfVersion props false true h = h.0
detected-OfVersion props false false h = h

-- Rules that were kept go with a version that is settled later.
pub detect-OfVersion :
    (props new : Props) (version : Option Family)
    → OfVersion version props
    → OfVersion (detect new version) props
detect-OfVersion props new (some v) h = h
detect-OfVersion props new none h = detected-OfVersion props (is_rule_ipv6 new) (is_rule_ipv4 new) h

detected-own :
    (props : Props) (is_ipv6 is_ipv4 : Bool)
    → is_rule_ipv6 props ≡ is_ipv6
    → is_rule_ipv4 props ≡ is_ipv4
    → mismatched props (detected is_ipv6 is_ipv4) ≡ false
    → OfVersion (detected is_ipv6 is_ipv4) props
detected-own props true is_ipv4 e f m = m
detected-own props false true e f m = m
detected-own props false false e f m = (e, f)

pub detect-own :
    (props : Props) (version : Option Family)
    → mismatched props (detect props version) ≡ false
    → OfVersion (detect props version) props
detect-own props (some v) m = m
detect-own props none m = detected-own props (is_rule_ipv6 props) (is_rule_ipv4 props) refl refl m

-- Reading the ports of a rule leaves the rules and the version.
abbrev pub SameRules : Walk → Walk → Type 0
SameRules w v = (v.acl_rules ≡ w.acl_rules) × (v.table_ip_version ≡ w.table_ip_version)

put_range-SameRules :
    (k : String) (ports : Option (List Port)) (w : Walk)
    → Yields (put_range k ports w) (SameRules w)
put_range-SameRules k none w = tt
put_range-SameRules k (some ports) w = (refl, refl)

put_dst_ports-SameRules :
    (k : String) (port range : Option String) (w : Walk)
    → Yields (put_dst_ports k port range w) (SameRules w)
put_dst_ports-SameRules k none none w = (refl, refl)
put_dst_ports-SameRules k none (some range) w = put_range-SameRules k _ w
put_dst_ports-SameRules k (some port) range w = (refl, refl)

pub read_dst_ports-SameRules :
    (k : String) (props : Props) (w : Walk) → Yields (read_dst_ports k props w) (SameRules w)
unfolding read_dst_ports
read_dst_ports-SameRules k props w =
    Yields-if (SameRules w) (str_eq k "EXTERNAL_CLIENT") _ w
      (λ e.
        put_dst_ports-SameRules k (lookup "L4_DST_PORT" props) (lookup "L4_DST_PORT_RANGE" props) w)
      (refl, refl)
