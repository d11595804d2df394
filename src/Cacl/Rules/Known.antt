-- ===== src/Cacl/Rules/Known.antt =====
-- Reading rules changes nothing of the services but their ports, and those of EXTERNAL_CLIENT only.
use sonic_host_services.Base.{
  ℕ, zero, suc, ◌≤◌, ◌<◌, ◌+◌, ◌-◌, ◌>>=◌, ◌⊎◌, ◌∙◌, sym, Option, none, some, List, [], ◌∷◌, String,
  str_eq, eq_iff, ◌≡◌, refl, arith, Yields, Yields-bind, Yields-if, Bool-cases, subst, inl, inr,
}
use sonic_host_services.Base.Dict.{lookup, lookup-insert}
use mathlib.Core.List.{Memᴰ}
use mathlib.Core.Option.{some-injective}
use sonic_host_services.Base.Text.{Text, codes}
use sonic_host_services.Host.Image.{split}
use sonic_host_services.Cacl.{numbered, ports_of, Port, named, Service, Props, Rule}
use sonic_host_services.Cacl.Parse.{int_of}
use sonic_host_services.Cacl.Rules.{
  port_list, port_range, Walk, with_dst_ports, put_service, put_ports, put_range, put_dst_ports,
  read_dst_ports, keep_rule, drop_mismatched, read_prioritized, read_rule, read_rules,
}

-- Services that differ from the known ones in their ports at most.
abbrev pub SameButPorts : Service → Service → Type 0
SameButPorts s k =
    (s.ip_protocols ≡ k.ip_protocols) × (s.multi_asic_ns_to_host_fwd ≡ k.multi_asic_ns_to_host_fwd)

-- The port is a number from the first part to the second.
pub record InRange (parts : List Text) (port : Port) : Type 0 where
  pub first : Text
  pub second : Text
  pub rest : List Text
  pub low : ℕ
  pub high : ℕ
  pub n : ℕ
  pub are_parts : parts ≡ first ∷ second ∷ rest
  pub is_low : int_of 10 first ≡ some low
  pub is_high : int_of 10 second ≡ some high
  pub not_below : low ≤ n
  pub not_above : n ≤ high
  pub is_port : port ≡ numbered n

port_list-bounds :
    (start k : ℕ) (port : Port)
    → Memᴰ port (port_list start k)
    → (n : ℕ) × (start ≤ n) × (n < start + k) × (port ≡ numbered n)
port_list-bounds start zero port m = elim m [ ]
port_list-bounds start (suc k) port (Memᴰ.head e) = (start, omega arith, omega arith, e)
port_list-bounds start (suc k) port (Memᴰ.tail m) =
    let (n, low, high, e) = port_list-bounds (suc start) k port m in
    (n, omega (arith, low), omega (arith, high), e)

port_range-InRange :
    (parts : List Text) (ports : List Port) (port : Port)
    → port_range parts ≡ some ports
    → Memᴰ port ports
    → InRange parts port
port_range-InRange [] ports port e m = cc
port_range-InRange (a ∷ []) ports port e m = cc
port_range-InRange (a ∷ b ∷ rest) ports port e m =
    of_numbers (int_of 10 a) (int_of 10 b) refl refl e
  where
    of_numbers :
        (lo hi : Option ℕ)
        → int_of 10 a ≡ lo
        → int_of 10 b ≡ hi
        → (lo >>= λ low. hi >>= λ high. some (port_list low (high + 1 - low))) ≡ some ports
        → InRange (a ∷ b ∷ rest) port
    of_numbers none hi f g k = cc
    of_numbers (some low) none f g k = cc
    of_numbers (some low) (some high) f g k =
        let (n, from, to, is_n) =
          port_list-bounds low (high + 1 - low) port
            (subst (Memᴰ port) (sym (some-injective (port_list low (high + 1 - low)) ports k)) m) in
        record {
          first = a;
          second = b;
          rest = rest;
          low = low;
          high = high;
          n = n;
          are_parts = refl;
          is_low = f;
          is_high = g;
          not_below = from;
          not_above = omega (arith, from, to);
          is_port = is_n;
        }

-- A rule gives the port itself, or a range with the port.
abbrev pub NamesPort : Props → Port → Type 0
NamesPort props port =
    ((name : String) × (lookup "L4_DST_PORT" props ≡ some name) × (port ≡ named name))
    ⊎ ((range : String) × (lookup "L4_DST_PORT_RANGE" props ≡ some range)
        × InRange (split 45 (codes range)) port)

-- The ports of EXTERNAL_CLIENT are given by its rules.
pub record GivenPort (rules : List Rule) (name : String) (port : Port) : Type 0 where
  pub is_external : name ≡ "EXTERNAL_CLIENT"
  pub rule : Rule
  pub stands : Memᴰ rule rules
  pub names_port : NamesPort rule.rule_props port

-- A port of a known service: its own, or one that a rule gives.
abbrev pub PortOf : List Rule → String → Service → Port → Type 0
PortOf rules name k port = Memᴰ port (ports_of k.dst_ports) ⊎ GivenPort rules name port

abbrev pub KnownAs : List (String × Service) → List Rule → String → Service → Type 0
KnownAs known rules name s =
    (k : Service) × (lookup name known ≡ some k)
    × SameButPorts s k
    × ((port : Port) → Memᴰ port (ports_of s.dst_ports) → PortOf rules name k port)

abbrev pub KnownServices : List (String × Service) → List Rule → List (String × Service) → Type 0
KnownServices known rules services =
    (name : String) (s : Service) → lookup name services ≡ some s → KnownAs known rules name s

-- The ports are those of the service of that name.
abbrev pub KnownPorts : List (String × Service) → List Rule → String → List Port → Type 0
KnownPorts known rules name ports =
    (k : Service)
    → lookup name known ≡ some k
    → (port : Port) → Memᴰ port ports
    → PortOf rules name k port

abbrev pub KnownWalk : List (String × Service) → List Rule → String → Walk → Type 0
KnownWalk known rules name w =
    KnownServices known rules w.services × KnownPorts known rules name w.dst_ports

pub start-KnownPorts :
    (known : List (String × Service)) (rules : List Rule) (name : String) (s : Service)
    → KnownAs known rules name s
    → KnownPorts known rules name (ports_of s.dst_ports)
start-KnownPorts known rules name s (j, e, same, given) k f =
    subst (λ x. (port : Port) → Memᴰ port (ports_of s.dst_ports) → PortOf rules name x port)
      (some-injective j k (sym e ∙ f)) given

module _ (known : List (String × Service)) (rules : List Rule) where
  put_service-Known :
      (k : String) (ports : List Port) (found : Option Service) (services : List (String × Service))
      → lookup k services ≡ found
      → ((port : Port) → Memᴰ port ports → GivenPort rules k port)
      → KnownServices known rules services
      → KnownServices known rules (put_service k ports found services)
  put_service-Known k ports none services e given h name t f = h name t f
  put_service-Known k ports (some s) services e given h name t f =
      elim (Bool-cases (str_eq k name)) [
        | inl g ↦
            let (j, is_j, same, own) = h k s e in
            subst (λ n. KnownAs known rules n t) ((eq_iff k name).0 g)
              (subst (λ x. KnownAs known rules k x) {x = with_dst_ports ports s} {y = t}
                (ground (arith, lookup-insert k name (with_dst_ports ports s) services))
                (j, is_j, same, λ port m. inr (given port m)))
        | inr g ↦ h name t (ground (arith, lookup-insert k name (with_dst_ports ports s) services))
      ]

  put_ports-Known :
      (k : String) (ports : List Port) (w : Walk)
      → ((port : Port) → Memᴰ port ports → GivenPort rules k port)
      → KnownWalk known rules k w
      → KnownWalk known rules k (put_ports k ports w)
  put_ports-Known k ports w given h =
      (put_service-Known k ports _ w.services refl given h.0, (λ j e port m. inr (given port m)))

  module _ (k : String) (is_external : k ≡ "EXTERNAL_CLIENT") (rule : Rule)
      (stands : Memᴰ rule rules) where
    put_range-Known :
        (range : String) (found : Option (List Port)) (w : Walk)
        → lookup "L4_DST_PORT_RANGE" rule.rule_props ≡ some range
        → port_range (split 45 (codes range)) ≡ found
        → KnownWalk known rules k w
        → Yields (put_range k found w) (KnownWalk known rules k)
    put_range-Known range none w e f h = tt
    put_range-Known range (some ports) w e f h =
        put_ports-Known k ports w
          (λ port m. record {
            is_external = is_external;
            rule = rule;
            stands = stands;
            names_port = inr (range, e, port_range-InRange (split 45 (codes range)) ports port f m);
          })
          h

    put_dst_ports-Known :
        (port range : Option String) (w : Walk)
        → lookup "L4_DST_PORT" rule.rule_props ≡ port
        → lookup "L4_DST_PORT_RANGE" rule.rule_props ≡ range
        → KnownWalk known rules k w
        → Yields (put_dst_ports k port range w) (KnownWalk known rules k)
    put_dst_ports-Known none none w e f h = h
    put_dst_ports-Known none (some range) w e f h = put_range-Known range _ w f refl h
    put_dst_ports-Known (some name) range w e f h =
        put_ports-Known k (named name ∷ []) w (λ port m. given port m) h
      where
        given : (port : Port) → Memᴰ port (named name ∷ []) → GivenPort rules k port
        given port (Memᴰ.head g) = record {
          is_external = is_external;
          rule = rule;
          stands = stands;
          names_port = inl (name, e, g);
        }
        given port (Memᴰ.tail m) = elim m [ ]

  read_dst_ports-Known :
      (k : String) (rule : Rule) (w : Walk)
      → Memᴰ rule rules
      → KnownWalk known rules k w
      → Yields (read_dst_ports k rule.rule_props w) (KnownWalk known rules k)
  unfolding read_dst_ports
  read_dst_ports-Known k rule w stands h =
      Yields-if (KnownWalk known rules k) (str_eq k "EXTERNAL_CLIENT") _ w
        (λ e.
          put_dst_ports-Known k ((eq_iff k "EXTERNAL_CLIENT").0 e) rule stands
            (lookup "L4_DST_PORT" rule.rule_props) (lookup "L4_DST_PORT_RANGE" rule.rule_props) w
            refl refl h)
        h

  read_prioritized-Known :
      (k : String) (rule : Rule) (found : Option String) (w : Walk)
      → Memᴰ rule rules
      → KnownWalk known rules k w
      → Yields (read_prioritized k rule.rule_props found w) (KnownWalk known rules k)
  unfolding drop_mismatched keep_rule
  read_prioritized-Known k rule none w stands h = h
  read_prioritized-Known k rule (some priority) w stands h =
      Yields-bind (KnownWalk known rules k)
        (read_dst_ports k rule.rule_props (keep_rule priority rule.rule_props w)) _
        (read_dst_ports-Known k rule (keep_rule priority rule.rule_props w) stands h) (λ v g. g)

  pub read_rules-Known :
      (table_name k : String) (rest : List Rule) (w : Walk)
      → ((rule : Rule) → Memᴰ rule rest → Memᴰ rule rules)
      → KnownWalk known rules k w
      → Yields (read_rules table_name k rest w) (KnownWalk known rules k)
  unfolding read_rules read_rule
  read_rules-Known table_name k [] w stand h = h
  read_rules-Known table_name k (rule ∷ rest) w stand h =
      Yields-bind (KnownWalk known rules k) (read_rule table_name k rule w) _
        (Yields-if (KnownWalk known rules k) (str_eq rule.rule_table_name table_name) _ w
          (λ e. read_prioritized-Known k rule _ w (stand rule (Memᴰ.head refl)) h) h)
        (λ v g. read_rules-Known table_name k rest v (λ r m. stand r (Memᴰ.tail m)) g)
