-- ===== src/Cacl/Emit/Blocks.antt =====
-- The order of the commands of a table: a block for every rule, by descending priority.
use sonic_host_services.Base.{
  Option, none, some, List, [], ◌∷◌, ◌++◌, map, String, ◌≡◌, refl, ap, sym, ◌∙◌, append-nil,
  append_assoc, ◌>>=◌, Yields, Yields-refl, Yields-map, Yields-bind, Yields-elim, subst,
}
use mathlib.Core.List.{Perm}
use mathlib.Core.Option.{some-injective}
use sonic_host_services.Base.Dict.{lookup}
use sonic_host_services.Cacl.{Command, Port, Props}
use sonic_host_services.Cacl.Parse.{sorted_desc}
use sonic_host_services.Cacl.Parse.Order.{Descending, sorted_desc-Descending, sorted_desc-Perm}
use sonic_host_services.Cacl.Emit.{
  Output, Target, rule_cmd, emit, emit_ports, emit_protocols, emit_action, emit_rule, emit_rules,
  emit_table, priorities,
}

abbrev pub sequence : List (Option Command) → Option (List Command)
sequence [] = some []
sequence (o ∷ os) = do cmd ← o; cmds ← sequence os; some (cmd ∷ cmds)

-- The commands of a rule, one for each pair of a protocol and a port.
abbrev pub pairs : Target → Props → String → List String → List Port → List (Option Command)
pairs t props action [] ports = []
pairs t props action (protocol ∷ protocols) ports =
    map (λ port. rule_cmd t.namespace t.fwd t.version props action protocol port) ports
    ++ pairs t props action protocols ports

abbrev pub action_block :
    Target → Props → Option String → List String → List Port → Option (List Command)
action_block t props none protocols ports = some []
action_block t props (some action) protocols ports = sequence (pairs t props action protocols ports)

abbrev pub block : Target → Option Props → List String → List Port → Option (List Command)
block t none protocols ports = none
block t (some props) protocols ports =
    action_block t props (lookup "PACKET_ACTION" props) protocols ports

-- After the commands before come the blocks of the priorities, and nothing else.
abbrev pub Blocks :
    Target
    → List (String × Props)
    → List String
    → List Port
    → List String
    → List Command
    → List Command
    → Type 0
Blocks t rules protocols ports [] before after = after ≡ before
Blocks t rules protocols ports (priority ∷ ps) before after =
    (cmds : List Command) × ((block t (lookup priority rules) protocols ports ≡ some cmds)
      × Blocks t rules protocols ports ps (before ++ cmds) after)

-- The result adds the commands that the specification gives.
abbrev Adds : Option (List Command) → Output → Output → Type 0
Adds spec o p =
    (cmds : List Command) × ((spec ≡ some cmds) × (p.iptables_cmds ≡ o.iptables_cmds ++ cmds))

sequence-cons :
    (o : Option Command) (os : List (Option Command)) (cmd : Command) (cmds : List Command)
    → o ≡ some cmd
    → sequence os ≡ some cmds
    → sequence (o ∷ os) ≡ some (cmd ∷ cmds)
sequence-cons o os cmd cmds e f =
    ap (λ z. z >>= λ c. sequence os >>= λ cs. some (c ∷ cs)) e
    ∙ ap (λ z. z >>= λ cs. some (cmd ∷ cs)) f

sequence-append :
    (xs ys : List (Option Command)) (us vs : List Command)
    → sequence xs ≡ some us
    → sequence ys ≡ some vs
    → sequence (xs ++ ys) ≡ some (us ++ vs)
sequence-append [] ys us vs e f = f ∙ ap (λ z. some (z ++ vs)) (some-injective [] us e)
sequence-append (none ∷ xs) ys us vs e f = cc
sequence-append (some x ∷ xs) ys us vs e f =
    after (sequence xs) (λ ws g. sequence-append xs ys ws vs g f) e
  where
    after :
        (rest : Option (List Command))
        → ((ws : List Command) → rest ≡ some ws → sequence (xs ++ ys) ≡ some (ws ++ vs))
        → (rest >>= λ cmds. some (x ∷ cmds)) ≡ some us
        → sequence (some x ∷ xs ++ ys) ≡ some (us ++ vs)
    after none g h = cc
    after (some ws) g h =
        ap (λ z. z >>= λ cmds. some (x ∷ cmds)) (g ws refl)
        ∙ ap (λ z. some (z ++ vs)) (some-injective (x ∷ ws) us h)

module _ (t : Target) (props : Props) (action : String) where
  emit_ports-Adds :
      (protocol : String) (ports : List Port) (o : Output)
      → Yields (emit_ports t props action protocol ports o) (
          Adds
            (sequence
              (map (λ port. rule_cmd t.namespace t.fwd t.version props action protocol port) ports))
            o)
  unfolding emit_ports emit
  emit_ports-Adds protocol [] o = ([], (refl, sym (append-nil o.iptables_cmds)))
  emit_ports-Adds protocol (port ∷ ports) o =
      Yields-bind _ (rule_cmd t.namespace t.fwd t.version props action protocol port) _
        (Yields-refl _)
        (λ cmd e.
          Yields-map
            (Adds
              (sequence (
                map (λ port. rule_cmd t.namespace t.fwd t.version props action protocol port)
                  (port ∷ ports)))
              o)
            _
            (λ p a. (
              cmd ∷ a.0,
              (
                sequence-cons (rule_cmd t.namespace t.fwd t.version props action protocol port)
                    (map (rule_cmd t.namespace t.fwd t.version props action protocol) ports) cmd a.0
                    e a.1.0,
                a.1.1 ∙ append_assoc o.iptables_cmds (cmd ∷ []) a.0,
              ),
            ))
            (emit_ports-Adds protocol ports (emit props action cmd o)))

  emit_protocols-Adds :
      (protocols : List String) (ports : List Port) (o : Output)
      → Yields
          (emit_protocols t props action protocols ports o)
          (Adds (sequence (pairs t props action protocols ports)) o)
  unfolding emit_protocols
  emit_protocols-Adds [] ports o = ([], (refl, sym (append-nil o.iptables_cmds)))
  emit_protocols-Adds (protocol ∷ protocols) ports o =
      Yields-bind _ (emit_ports t props action protocol ports o) _
        (emit_ports-Adds protocol ports o)
        (λ p a.
          Yields-map (Adds (sequence (pairs t props action (protocol ∷ protocols) ports)) o) _
            (λ q b. (
              a.0 ++ b.0,
              (
                sequence-append
                    (map (rule_cmd t.namespace t.fwd t.version props action protocol) ports)
                    (pairs t props action protocols ports) a.0 b.0 a.1.0 b.1.0,
                b.1.1 ∙ (ap (λ z. z ++ b.0) a.1.1 ∙ append_assoc o.iptables_cmds a.0 b.0),
              ),
            ))
            (emit_protocols-Adds protocols ports p))

emit_rule-Adds :
    (t : Target) (found : Option Props) (protocols : List String) (ports : List Port) (o : Output)
    → Yields (emit_rule t found protocols ports o) (Adds (block t found protocols ports) o)
emit_rule-Adds t none protocols ports o = tt
emit_rule-Adds t (some props) protocols ports o = of_action (lookup "PACKET_ACTION" props)
  where
    of_action :
        (action : Option String)
        → Yields
            (emit_action t props action protocols ports o)
            (Adds (action_block t props action protocols ports) o)
    of_action none = ([], (refl, sym (append-nil o.iptables_cmds)))
    of_action (some action) = emit_protocols-Adds t props action protocols ports o

module _ (t : Target) (rules : List (String × Props)) (protocols : List String)
    (ports : List Port) where
  emit_rules-Blocks :
      (ps : List String) (o : Output)
      → Yields
          (emit_rules t rules protocols ports ps o)
          (λ p. Blocks t rules protocols ports ps o.iptables_cmds p.iptables_cmds)
  unfolding emit_rules
  emit_rules-Blocks [] o = refl
  emit_rules-Blocks (priority ∷ ps) o =
      Yields-bind _ (emit_rule t (lookup priority rules) protocols ports o) _
        (emit_rule-Adds t (lookup priority rules) protocols ports o)
        (λ p a.
          Yields-map
            (λ q. Blocks t rules protocols ports (priority ∷ ps) o.iptables_cmds q.iptables_cmds) _
            (λ q b. (
              a.0,
              (a.1.0, subst (λ z. Blocks t rules protocols ports ps z q.iptables_cmds) a.1.1 b),
            ))
            (emit_rules-Blocks ps p))

  -- If the commands of a table are made, then the priorities of the rules that it keeps, each
  -- once, have an order in which no later one is the greater text, and what is added is one block
  -- for every priority in this order: its rule's commands, one for each of the protocols and ports.
  pub emit_table-Blocks :
      (o p : Output)
      → emit_table t rules protocols ports o ≡ some p
      → (ps : List String) × Perm ps (priorities rules)
        × Descending ps
        × Blocks t rules protocols ports ps o.iptables_cmds p.iptables_cmds
  unfolding emit_table
  emit_table-Blocks o p e = (
    sorted_desc (priorities rules),
    sorted_desc-Perm (priorities rules),
    sorted_desc-Descending (priorities rules),
    Yields-elim (λ q. Blocks t rules protocols ports _ o.iptables_cmds q.iptables_cmds) _ p
        (emit_rules-Blocks (sorted_desc (priorities rules)) o) e,
  )
