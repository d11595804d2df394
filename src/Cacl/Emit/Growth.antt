-- ===== src/Cacl/Emit/Growth.antt =====
-- What translating the rules of a table adds to the commands and to their number.
use sonic_host_services.Base.{
  ℕ, Option, none, some, List, [], ◌∷◌, ◌++◌, String, ◌+◌, ◌≡◌, refl, sym, ap, ◌∙◌, arith, length,
  length-append, append_assoc, append-nil, All, All-append, Yields, Yields-refl, Yields-map,
  Yields-bind,
}
use mathlib.Core.List.{Memᴰ}
use sonic_host_services.Base.Dict.{lookup}
use sonic_host_services.Cacl.{Command, Port, Props}
use sonic_host_services.Cacl.Emit.{
  Output, Target, rule_cmd, emit, emit_ports, emit_protocols, emit_action, emit_rule, emit_rules,
  emit_table, priorities,
}

-- Commands with `P` were appended and counted.
pub record Grows (P : Command → Type 0) (cmds : List Command) (num : ℕ) (cmds' : List Command)
    (num' : ℕ) : Type 0 where
  pub added : List Command
  pub are_appended : cmds' ≡ cmds ++ added
  pub are_counted : num' ≡ num + length added
  pub have : All P added

module _ {P : Command → Type 0} where
  pub Grows-refl : (cmds : List Command) (num : ℕ) → Grows P cmds num cmds num
  Grows-refl cmds num = record {
    added = [];
    are_appended = sym (append-nil cmds);
    are_counted = omega arith;
    have = tt;
  }

  pub Grows-trans :
      (a b c : List Command) (m n k : ℕ) → Grows P a m b n → Grows P b n c k → Grows P a m c k
  Grows-trans a b c m n k g h = record {
    added = g.added ++ h.added;
    are_appended =
        h.are_appended ∙ (ap (λ x. x ++ h.added) g.are_appended ∙ append_assoc a g.added h.added);
    are_counted = omega (arith, g.are_counted, h.are_counted, length-append g.added h.added);
    have = All-append P g.added h.added g.have h.have;
  }

-- A command of a rule for one of the protocols and ports.
pub record Made (t : Target) (protocols : List String) (ports : List Port) (props : Props)
    (cmd : Command) : Type 0 where
  pub action : String
  pub protocol : String
  pub port : Port
  pub is_protocol : Memᴰ protocol protocols
  pub is_port : Memᴰ port ports
  pub has_action : lookup "PACKET_ACTION" props ≡ some action
  pub is_made : rule_cmd t.namespace t.fwd t.version props action protocol port ≡ some cmd

abbrev pub OutputGrows : (Command → Type 0) → Output → Output → Type 0
OutputGrows P o p =
    Grows P o.iptables_cmds o.num_ctrl_plane_acl_rules p.iptables_cmds p.num_ctrl_plane_acl_rules

emit-Grows :
    (P : Command → Type 0) (props : Props) (action : String) (cmd : Command) (o : Output)
    → P cmd
    → OutputGrows P o (emit props action cmd o)
unfolding emit
emit-Grows P props action cmd o h = record {
  added = cmd ∷ [];
  are_appended = refl;
  are_counted = omega arith;
  have = (h, tt);
}

abbrev pub YieldsGrowth : (Command → Type 0) → Option Output → Output → Type 0
YieldsGrowth P result o = Yields result (λ p. OutputGrows P o p)

-- A step that grows, then steps that grow.
pub growth_then :
    (P : Command → Type 0) (result : Option Output) (o p : Output)
    → OutputGrows P o p
    → YieldsGrowth P result p
    → YieldsGrowth P result o
growth_then P result o p g y = Yields-map _ result (λ q h. Grows-trans _ _ _ _ _ _ g h) y

module _ (t : Target) (props : Props) (action : String)
    (h : lookup "PACKET_ACTION" props ≡ some action) (all : List String) (every : List Port) where
  emit_ports-Grows :
      (protocol : String) (ports : List Port) (o : Output)
      → Memᴰ protocol all
      → ((port : Port) → Memᴰ port ports → Memᴰ port every)
      → YieldsGrowth (Made t all every props) (emit_ports t props action protocol ports o) o
  unfolding emit_ports
  emit_ports-Grows protocol [] o m n = Grows-refl o.iptables_cmds o.num_ctrl_plane_acl_rules
  emit_ports-Grows protocol (port ∷ ports) o m n =
      Yields-bind _ (rule_cmd t.namespace t.fwd t.version props action protocol port) _
        (Yields-refl _)
        (λ cmd e.
          growth_then (Made t all every props) _ o (emit props action cmd o)
            (emit-Grows (Made t all every props) props action cmd o (record {
              action = action;
              protocol = protocol;
              port = port;
              is_protocol = m;
              is_port = n port (Memᴰ.head refl);
              has_action = h;
              is_made = e;
            }))
            (emit_ports-Grows protocol ports (emit props action cmd o) m
              (λ q k. n q (Memᴰ.tail k))))

  emit_protocols-Grows :
      (protocols : List String) (o : Output)
      → ((protocol : String) → Memᴰ protocol protocols → Memᴰ protocol all)
      → YieldsGrowth (Made t all every props) (emit_protocols t props action protocols every o) o
  unfolding emit_protocols
  emit_protocols-Grows [] o m = Grows-refl o.iptables_cmds o.num_ctrl_plane_acl_rules
  emit_protocols-Grows (protocol ∷ protocols) o m =
      Yields-bind _ (emit_ports t props action protocol every o) _
        (emit_ports-Grows protocol every o (m protocol (Memᴰ.head refl)) (λ q k. k))
        (λ p g.
          growth_then (Made t all every props) _ o p g
            (emit_protocols-Grows protocols p (λ q n. m q (Memᴰ.tail n))))

-- A command of a rule that the table keeps.
pub record MadeFrom (t : Target) (protocols : List String) (ports : List Port)
    (rules : List (String × Props)) (cmd : Command) : Type 0 where
  pub priority : String
  pub props : Props
  pub is_kept : lookup priority rules ≡ some props
  pub is_command : Made t protocols ports props cmd

All-map :
    {A : Type 0} (P Q : A → Type 0) (xs : List A) → ((x : A) → P x → Q x) → All P xs → All Q xs
All-map P Q [] f h = tt
All-map P Q (x ∷ xs) f h = (f x h.0, All-map P Q xs f h.1)

pub Grows-map :
    (P Q : Command → Type 0) (a b : List Command) (m n : ℕ)
    → ((cmd : Command) → P cmd → Q cmd)
    → Grows P a m b n
    → Grows Q a m b n
Grows-map P Q a b m n f g = record {
  added = g.added;
  are_appended = g.are_appended;
  are_counted = g.are_counted;
  have = All-map P Q g.added f g.have;
}

emit_action-Grows :
    (t : Target) (props : Props) (protocols : List String) (ports : List Port) (o : Output)
    (action : Option String)
    → lookup "PACKET_ACTION" props ≡ action
    → YieldsGrowth (Made t protocols ports props) (emit_action t props action protocols ports o) o
emit_action-Grows t props protocols ports o none e =
    Grows-refl o.iptables_cmds o.num_ctrl_plane_acl_rules
emit_action-Grows t props protocols ports o (some action) e =
    emit_protocols-Grows t props action e protocols ports protocols o (λ q n. n)

emit_rule-Grows :
    (t : Target) (rules : List (String × Props)) (protocols : List String) (ports : List Port)
    (o : Output) (priority : String) (found : Option Props)
    → lookup priority rules ≡ found
    → YieldsGrowth (MadeFrom t protocols ports rules) (emit_rule t found protocols ports o) o
emit_rule-Grows t rules protocols ports o priority none e = tt
emit_rule-Grows t rules protocols ports o priority (some props) e =
    Yields-map _ _
      (λ p g.
        Grows-map (Made t protocols ports props) (MadeFrom t protocols ports rules) _ _ _ _
          (λ cmd made. record {
            priority = priority;
            props = props;
            is_kept = e;
            is_command = made;
          })
          g)
      (emit_action-Grows t props protocols ports o _ refl)

emit_rules-Grows :
    (t : Target) (rules : List (String × Props)) (protocols : List String) (ports : List Port)
    (priorities : List String) (o : Output)
    → YieldsGrowth
        (MadeFrom t protocols ports rules)
        (emit_rules t rules protocols ports priorities o)
        o
unfolding emit_rules
emit_rules-Grows t rules protocols ports [] o =
    Grows-refl o.iptables_cmds o.num_ctrl_plane_acl_rules
emit_rules-Grows t rules protocols ports (priority ∷ priorities) o =
    Yields-bind _ (emit_rule t (lookup priority rules) protocols ports o) _
      (emit_rule-Grows t rules protocols ports o priority _ refl)
      (λ p g.
        growth_then (MadeFrom t protocols ports rules) _ o p g
          (emit_rules-Grows t rules protocols ports priorities p))

pub emit_table-Grows :
    (t : Target) (rules : List (String × Props)) (protocols : List String) (ports : List Port)
    (o : Output)
    → YieldsGrowth (MadeFrom t protocols ports rules) (emit_table t rules protocols ports o) o
unfolding emit_table
emit_table-Grows t rules protocols ports o = emit_rules-Grows t rules protocols ports _ o
