-- ===== src/Cacl/Emit/Total.antt =====
-- The commands of a table are made without an exception, if the TCP flags of its rules can be read.
use sonic_host_services.Base.{
  Option, none, some, List, [], ◌∷◌, String, str_eq, eq_iff, ◌≡◌, refl, arith, if◌then◌else◌,
  by_test, Succeeds, Succeeds-bind, ◌⊎◌, inl, inr, subst, sym,
}
use mathlib.Core.List.{Memᴰ}
use sonic_host_services.Base.Dict.{lookup}
use sonic_host_services.Cacl.{Port, Props}
use sonic_host_services.Cacl.Parse.{insert_desc, sorted_desc, text_lt}
use sonic_host_services.Base.Text.{codes}
use sonic_host_services.Cacl.Rules.{prop}
use sonic_host_services.Cacl.Emit.{
  Output, Target, tcp_flag_words, rule_cmd, emit, emit_ports, emit_protocols, emit_action,
  emit_rule, emit_rules, emit_table, priorities,
}

-- The TCP flags of the rule, if it has any, can be read.
abbrev pub HasFlags : Props → Type 0
HasFlags props = Succeeds (tcp_flag_words (prop "TCP_FLAGS" props))

module _ (t : Target) (props : Props) (h : HasFlags props) where
  rule_cmd-Succeeds :
      (action protocol : String) (port : Port)
      → Succeeds (rule_cmd t.namespace t.fwd t.version props action protocol port)
  unfolding rule_cmd
  rule_cmd-Succeeds action protocol port =
      Succeeds-bind
        (if str_eq protocol "tcp" then tcp_flag_words (prop "TCP_FLAGS" props) else some []) _
        (by_test Succeeds (str_eq protocol "tcp") (tcp_flag_words (prop "TCP_FLAGS" props))
          (some []) (λ e. h) (λ e. ([], refl)))
        (λ flags e. (_, refl))

  emit_ports-Succeeds :
      (action protocol : String) (ports : List Port) (o : Output)
      → Succeeds (emit_ports t props action protocol ports o)
  unfolding emit_ports
  emit_ports-Succeeds action protocol [] o = (o, refl)
  emit_ports-Succeeds action protocol (port ∷ ports) o =
      Succeeds-bind (rule_cmd t.namespace t.fwd t.version props action protocol port) _
        (rule_cmd-Succeeds action protocol port)
        (λ cmd e. emit_ports-Succeeds action protocol ports (emit props action cmd o))

  emit_protocols-Succeeds :
      (action : String) (protocols : List String) (ports : List Port) (o : Output)
      → Succeeds (emit_protocols t props action protocols ports o)
  unfolding emit_protocols
  emit_protocols-Succeeds action [] ports o = (o, refl)
  emit_protocols-Succeeds action (protocol ∷ protocols) ports o =
      Succeeds-bind (emit_ports t props action protocol ports o) _
        (emit_ports-Succeeds action protocol ports o)
        (λ p e. emit_protocols-Succeeds action protocols ports p)

  emit_action-Succeeds :
      (action : Option String) (protocols : List String) (ports : List Port) (o : Output)
      → Succeeds (emit_action t props action protocols ports o)
  emit_action-Succeeds none protocols ports o = (o, refl)
  emit_action-Succeeds (some action) protocols ports o =
      emit_protocols-Succeeds action protocols ports o

insert_desc-back :
    (p q : String) (ps : List String) → Memᴰ q (insert_desc p ps) → (q ≡ p) ⊎ Memᴰ q ps
unfolding insert_desc
insert_desc-back p q [] (Memᴰ.head e) = inl e
insert_desc-back p q [] (Memᴰ.tail m) = inr m
insert_desc-back p q (r ∷ rs) m =
    by_test (λ l. Memᴰ q l → (q ≡ p) ⊎ Memᴰ q (r ∷ rs)) (text_lt (codes p) (codes r))
      (r ∷ insert_desc p rs) (p ∷ r ∷ rs) (λ e. later (insert_desc-back p q rs)) (λ e. now) m
  where
    later :
        (Memᴰ q (insert_desc p rs) → (q ≡ p) ⊎ Memᴰ q rs)
        → Memᴰ q (r ∷ insert_desc p rs)
        → (q ≡ p) ⊎ Memᴰ q (r ∷ rs)
    later back (Memᴰ.head e) = inr (Memᴰ.head e)
    later back (Memᴰ.tail k) = elim (back k) [ inl e ↦ inl e | inr n ↦ inr (Memᴰ.tail n) ]

    now : Memᴰ q (p ∷ r ∷ rs) → (q ≡ p) ⊎ Memᴰ q (r ∷ rs)
    now (Memᴰ.head e) = inl e
    now (Memᴰ.tail k) = inr k

sorted_desc-back : (q : String) (ps : List String) → Memᴰ q (sorted_desc ps) → Memᴰ q ps
unfolding sorted_desc
sorted_desc-back q [] m = elim m [ ]
sorted_desc-back q (p ∷ ps) m = elim (insert_desc-back p q (sorted_desc ps) m) [
  | inl e ↦ Memᴰ.head e
  | inr n ↦ Memᴰ.tail (sorted_desc-back q ps n)
]

lookup-Succeeds :
    (q : String) (rules : List (String × Props))
    → Memᴰ q (priorities rules)
    → Succeeds (lookup q rules)
unfolding lookup
lookup-Succeeds q [] m = elim m [ ]
lookup-Succeeds q ((p, props) ∷ rules) (Memᴰ.head e) =
    by_test Succeeds (str_eq p q) (some props) (lookup q rules) (λ f. (props, refl))
      (λ f. ([], ground (arith, eq_iff p q)))
lookup-Succeeds q ((p, props) ∷ rules) (Memᴰ.tail m) =
    by_test Succeeds (str_eq p q) (some props) (lookup q rules) (λ f. (props, refl))
      (λ f. lookup-Succeeds q rules m)

emit_rules-Succeeds :
    (t : Target) (rules : List (String × Props)) (protocols : List String) (ports : List Port)
    (ps : List String) (o : Output)
    → ((q : String) → Memᴰ q ps → Succeeds (lookup q rules))
    → ((q : String) (props : Props) → lookup q rules ≡ some props → HasFlags props)
    → Succeeds (emit_rules t rules protocols ports ps o)
unfolding emit_rules
emit_rules-Succeeds t rules protocols ports [] o found flags = (o, refl)
emit_rules-Succeeds t rules protocols ports (p ∷ ps) o found flags =
    Succeeds-bind (emit_rule t (lookup p rules) protocols ports o) _
      (of_found (found p (Memᴰ.head refl)))
      (λ r e. emit_rules-Succeeds t rules protocols ports ps r (λ q m. found q (Memᴰ.tail m)) flags)
  where
    of_found : Succeeds (lookup p rules) → Succeeds (emit_rule t (lookup p rules) protocols ports o)
    of_found s =
        subst (λ x. Succeeds (emit_rule t x protocols ports o)) (sym s.1)
          (emit_action-Succeeds t s.0 (flags p s.0 s.1) (lookup "PACKET_ACTION" s.0) protocols ports
            o)

pub emit_table-Succeeds :
    (t : Target) (rules : List (String × Props)) (protocols : List String) (ports : List Port)
    (o : Output)
    → ((q : String) (props : Props) → lookup q rules ≡ some props → HasFlags props)
    → Succeeds (emit_table t rules protocols ports o)
unfolding emit_table
emit_table-Succeeds t rules protocols ports o flags =
    emit_rules-Succeeds t rules protocols ports _ o
      (λ q m. lookup-Succeeds q rules (sorted_desc-back q (priorities rules) m)) flags
