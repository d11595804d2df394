-- ===== src/Cacl/DashHa/Ports.antt =====
-- The open ports are those of dashHaPortMap, as often as DPUs share them.
use sonic_host_services.Base.{
  ℕ, false, Option, none, some, List, [], ◌∷◌, ◌++◌, String, str_eq, eq_iff, ◌+◌, ◌≡◌, refl, arith,
  if◌then◌else◌, by_test, subst, sym,
}
use sonic_host_services.Base.Dict.{lookup, insert, erase, lookup-insert, lookup-erase}
use sonic_host_services.Cacl.Rules.{nonempty}
use sonic_host_services.Cacl.DashHa.{
  Action, add_rules, remove_rules, Op, set, del, Outcome, outcome, delete, replace, swbus_port,
  update_dash_ha_rules, Message, receive,
}

abbrev one : String → String → ℕ
one p q = if str_eq p q then 1 else 0

-- How often rules for a port were added, and removed.
unfoldable pub added : String → List Action → ℕ
added p [] = 0
added p (add_rules q ∷ actions) = one q p + added p actions
added p (remove_rules q ∷ actions) = added p actions

unfoldable pub removed : String → List Action → ℕ
removed p [] = 0
removed p (add_rules q ∷ actions) = removed p actions
removed p (remove_rules q ∷ actions) = one q p + removed p actions

-- How many DPUs have the port.
unfoldable pub holders : String → List (String × String) → ℕ
holders p [] = 0
holders p ((key, q) ∷ map) = one q p + holders p map

-- Every DPU has one port, which is not empty.
unfoldable pub Clean : List (String × String) → Type 0
Clean [] = Unit
Clean ((key, q) ∷ map) = (str_eq q "" ≡ false) × ((lookup key map ≡ none) × Clean map)

added-append : (p : String) (a b : List Action) → added p (a ++ b) ≡ added p a + added p b
unfolding added
added-append p [] b = omega arith
added-append p (add_rules q ∷ a) b = omega (arith, added-append p a b)
added-append p (remove_rules q ∷ a) b = added-append p a b

removed-append : (p : String) (a b : List Action) → removed p (a ++ b) ≡ removed p a + removed p b
unfolding removed
removed-append p [] b = omega arith
removed-append p (add_rules q ∷ a) b = removed-append p a b
removed-append p (remove_rules q ∷ a) b = omega (arith, removed-append p a b)

erase-absent : (k : String) (d : List (String × String)) → lookup k d ≡ none → erase k d ≡ d
unfolding lookup erase
erase-absent k [] h = refl
erase-absent k ((j, w) ∷ d) h = ground (arith, erase-absent k d)

holders-insert_new :
    (p k v : String) (d : List (String × String))
    → lookup k d ≡ none
    → holders p (insert k v d) ≡ holders p d + one v p
unfolding lookup insert holders
holders-insert_new p k v [] h = omega arith
holders-insert_new p k v ((j, w) ∷ d) h = ground (arith, holders-insert_new p k v d)

holders-insert :
    (p k v o : String) (d : List (String × String))
    → lookup k d ≡ some o
    → holders p (insert k v d) + one o p ≡ holders p d + one v p
unfolding lookup insert holders
holders-insert p k v o [] h = cc
holders-insert p k v o ((j, w) ∷ d) h = ground (arith, holders-insert p k v o d)

holders-erase :
    (p k o : String) (d : List (String × String))
    → Clean d
    → lookup k d ≡ some o
    → holders p (erase k d) + one o p ≡ holders p d
unfolding lookup erase holders Clean
holders-erase p k o [] c h = cc
holders-erase p k o ((j, w) ∷ d) c h =
    ground (arith, holders-erase p k o d c.1.1, erase-absent k d, eq_iff j k)

insert-Clean :
    (k v : String) (d : List (String × String))
    → str_eq v "" ≡ false
    → Clean d
    → Clean (insert k v d)
unfolding insert Clean lookup
insert-Clean k v [] h c = (h, (refl, tt))
insert-Clean k v ((j, w) ∷ d) h c =
    by_test Clean (str_eq j k) ((k, v) ∷ d) ((j, w) ∷ insert k v d)
      (λ e. (h, (subst (λ x. lookup x d ≡ none) ((eq_iff j k).0 e) c.1.0, c.1.1)))
      (λ e. (
        c.0,
        (ground (arith, lookup-insert k j v d, eq_iff j k, eq_iff k j), insert-Clean k v d h c.1.1),
      ))

erase-Clean : (k : String) (d : List (String × String)) → Clean d → Clean (erase k d)
unfolding erase Clean lookup
erase-Clean k [] c = tt
erase-Clean k ((j, w) ∷ d) c =
    by_test Clean (str_eq j k) (erase k d) ((j, w) ∷ erase k d) (λ e. erase-Clean k d c.1.1)
      (λ e. (c.0, (ground (arith, lookup-erase k j d), erase-Clean k d c.1.1)))

lookup-Clean :
    (k v : String) (d : List (String × String))
    → Clean d
    → lookup k d ≡ some v
    → str_eq v "" ≡ false
unfolding Clean lookup
lookup-Clean k v [] c h = cc
lookup-Clean k v ((j, w) ∷ d) c h = ground (arith, lookup-Clean k v d c.1.1, c.0)

nonempty-Clean :
    (k : String) (d : List (String × String)) → Clean d → nonempty (lookup k d) ≡ lookup k d
nonempty-Clean k d c = of_value (lookup k d) (λ v e. lookup-Clean k v d c e)
  where
    of_value :
        (o : Option String) → ((v : String) → o ≡ some v → str_eq v "" ≡ false) → nonempty o ≡ o
    of_value none h = refl
    of_value (some v) h = rw (h v refl) refl

-- After some messages: the map is still clean, and a port was added as often more than removed as
-- DPUs have it more.
pub record Balanced (map : List (String × String)) (o : Outcome) : Type 0 where
  pub is_clean : Clean o.ports
  pub is_balanced :
      (p : String) → holders p map + added p o.actions ≡ holders p o.ports + removed p o.actions

nothing-Balanced : (map : List (String × String)) → Clean map → Balanced map (outcome [] map)
unfolding added removed
nothing-Balanced map c = record { is_clean = c; is_balanced = λ p. refl }

delete-Balanced :
    (key : String) (port : Option String) (map : List (String × String))
    → lookup key map ≡ port
    → Clean map
    → Balanced map (delete key port map)
unfolding added removed
delete-Balanced key none map e c = nothing-Balanced map c
delete-Balanced key (some port) map e c = record {
  is_clean = erase-Clean key map c;
  is_balanced = λ p. omega (arith, holders-erase p key port map c e);
}

replace-Balanced :
    (key : String) (port new : Option String) (map : List (String × String))
    → lookup key map ≡ port
    → nonempty new ≡ new
    → Clean map
    → Balanced map (replace key port new map)
unfolding added removed
replace-Balanced key port none map e n c = nothing-Balanced map c
replace-Balanced key none (some new) map e n c = record {
  is_clean = insert-Clean key new map (ground arith) c;
  is_balanced = λ p. omega (arith, holders-insert_new p key new map e);
}
replace-Balanced key (some port) (some new) map e n c =
    by_test (Balanced map) (str_eq new port) (outcome [] map)
      (outcome (remove_rules port ∷ add_rules new ∷ []) (insert key new map))
      (λ f. nothing-Balanced map c)
      (λ f. record {
        is_clean = insert-Clean key new map (ground arith) c;
        is_balanced = λ p. omega (arith, holders-insert p key new port map e);
      })

nonempty_twice : (o : Option String) → nonempty (nonempty o) ≡ nonempty o
nonempty_twice none = refl
nonempty_twice (some v) = ground arith

update-Balanced :
    (m : Message) (map : List (String × String))
    → Clean map
    → Balanced map (update_dash_ha_rules m.key m.op m.fvs map)
unfolding update_dash_ha_rules
update-Balanced m map c = of_op m.op
  where
    of_op : (op : Op) → Balanced map (update_dash_ha_rules m.key op m.fvs map)
    of_op del = delete-Balanced m.key _ map (sym (nonempty-Clean m.key map c)) c
    of_op set =
        replace-Balanced m.key _ _ map (sym (nonempty-Clean m.key map c))
          (nonempty_twice (swbus_port m.fvs)) c

-- Whatever messages of the DPU table come, starting with a map of non-empty ports that has each DPU
-- once: the map stays such a map, and for every port, the rules that were added and not removed
-- again are as many more as the DPUs of the map with that port.
pub receive-Balanced :
    (messages : List Message) (map : List (String × String))
    → Clean map
    → Balanced map (receive messages map)
unfolding receive
receive-Balanced [] map c = nothing-Balanced map c
receive-Balanced (m ∷ messages) map c =
    let now : Balanced map (update_dash_ha_rules m.key m.op m.fvs map) = update-Balanced m map c in
    let updated : Outcome = update_dash_ha_rules m.key m.op m.fvs map in
    let later : Balanced updated.ports (receive messages updated.ports) =
      receive-Balanced messages updated.ports now.is_clean in
    record {
      is_clean = later.is_clean;
      is_balanced = λ p. omega (
        arith,
        now.is_balanced p,
        later.is_balanced p,
        added-append p updated.actions (receive messages updated.ports).actions,
        removed-append p updated.actions (receive messages updated.ports).actions,
      );
    }
