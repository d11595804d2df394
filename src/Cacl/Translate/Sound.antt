-- ===== src/Cacl/Translate/Sound.antt =====
-- Where the commands of a translation come from.
use sonic_host_services.Base.{
  inl, Bool, true, false, not, ◌&&◌, Option, none, some, List, [], ◌∷◌, ◌++◌, String, str_eq,
  eq_iff, ◌≡◌, refl, subst, arith, if◌then◌else◌, Yields, Yields-bind, Yields-if, Yields-elim,
  length, All,
}
use mathlib.Core.List.{Memᴰ}
use sonic_host_services.Base.Dict.{lookup}
use sonic_host_services.Cacl.{Command, Family, Service, Table, no_data, fields}
use sonic_host_services.Cacl.Rules.Known.{KnownServices}
use sonic_host_services.Cacl.Translate.Origin.{
  RuleOf, Sound, Sound-refl, Sound-then, translate_service-Sound,
}
use sonic_host_services.Cacl.Translate.{
  Config, Translation, allowed_service, translate_allowed, translate_services, translate_table,
  translate_tables, start_translation, translate_acls, ttl_commands, final_drops,
}

module _ (c : Config) (known : List (String × Service)) where
  module _ (table_name : String) (services : List String)
      (is_control_plane : Memᴰ
        (table_name, fields (some "CTRLPLANE") (some services))
        c.tables_db_info) where
    translate_allowed-Sound :
        (acl_service : String) (found : Option Service) (version : Option Family) (t : Translation)
        → Memᴰ acl_service services
        → lookup acl_service t.services ≡ found
        → KnownServices known c.rules_db_info t.services
        → Yields
            (translate_allowed c table_name acl_service
              (allowed_service c acl_service found)
              version
              t)
            (λ r. Sound c known t r.1)
    translate_allowed-Sound acl_service none version t m e h = Sound-refl c known t h
    translate_allowed-Sound acl_service (some s) version t m e h =
        allowed_or_not (str_eq acl_service "REDFISH" && not c.redfish_allowed) refl
      where
        allowed_or_not :
            (b : Bool)
            → (str_eq acl_service "REDFISH" && not c.redfish_allowed) ≡ b
            → Yields
                (translate_allowed c table_name acl_service (if b then none else some s) version t)
                (λ r. Sound c known t r.1)
        allowed_or_not true g = Sound-refl c known t h
        allowed_or_not false g =
            translate_service-Sound c known table_name services is_control_plane acl_service m
              (λ r. ground (arith, eq_iff acl_service "REDFISH")) s (h acl_service s e) version t h

    translate_services-Sound :
        (rest : List String) (version : Option Family) (t : Translation)
        → ((name : String) → Memᴰ name rest → Memᴰ name services)
        → KnownServices known c.rules_db_info t.services
        → Yields (translate_services c table_name rest version t) (λ u. Sound c known t u)
    unfolding translate_services
    translate_services-Sound [] version t m h = Sound-refl c known t h
    translate_services-Sound (acl_service ∷ rest) version t m h =
        Yields-bind _
          (translate_allowed c table_name acl_service
            (allowed_service c acl_service (lookup acl_service t.services)) version t)
          _
          (translate_allowed-Sound acl_service _ version t (m acl_service (Memᴰ.head refl)) refl h)
          (λ r s.
            Sound-then c known _ t r.1 s
              (translate_services-Sound rest r.0 r.1 (λ n k. m n (Memᴰ.tail k)) s.are_known))

  translate_table-Sound :
      (table_name : String) (table : Table) (t : Translation)
      → Memᴰ (table_name, table) c.tables_db_info
      → KnownServices known c.rules_db_info t.services
      → Yields (translate_table c table_name table t) (λ u. Sound c known t u)
  unfolding translate_table
  translate_table-Sound table_name no_data t m h = Sound-refl c known t h
  translate_table-Sound table_name (fields none services) t m h = tt
  translate_table-Sound table_name (fields (some type) none) t m h =
      Yields-if _ (str_eq type "CTRLPLANE") none t (λ e. tt) (Sound-refl c known t h)
  translate_table-Sound table_name (fields (some type) (some services)) t m h =
      Yields-if _ (str_eq type "CTRLPLANE") (translate_services c table_name services none t) t
        (λ e.
          translate_services-Sound table_name services
            (subst (λ x. Memᴰ (table_name, fields (some x) (some services)) c.tables_db_info)
              ((eq_iff type "CTRLPLANE").0 e) m)
            services none t (λ n k. k) h)
        (Sound-refl c known t h)

  translate_tables-Sound :
      (rest : List (String × Table)) (t : Translation)
      → ((entry : String × Table) → Memᴰ entry rest → Memᴰ entry c.tables_db_info)
      → KnownServices known c.rules_db_info t.services
      → Yields (translate_tables c rest t) (λ u. Sound c known t u)
  unfolding translate_tables
  translate_tables-Sound [] t m h = Sound-refl c known t h
  translate_tables-Sound ((table_name, table) ∷ rest) t m h =
      Yields-bind _ (translate_table c table_name table t) _
        (translate_table-Sound table_name table t (m (table_name, table) (Memᴰ.head refl)) h)
        (λ u s.
          Sound-then c known _ t u s
            (translate_tables-Sound rest u (λ n k. m n (Memᴰ.tail k)) s.are_known))

-- The commands of a translation: what comes before the rules, the commands of rules, and what comes
-- after them, with the drops that their number asks for.
pub record Translated (c : Config) (known : List (String × Service)) (first block : List Command)
    (cmds : List Command) : Type 0 where
  pub rules : List Command
  pub come_from_rules : All (RuleOf c known) rules
  pub are_all :
      cmds
      ≡ (first ++ rules)
        ++ block
        ++ ttl_commands c.namespace
        ++ final_drops c.namespace (length rules)

counted :
    {c : Config} {known : List (String × Service)} {first : List Command} (u : Translation)
    (s : Sound c known (start_translation known first) u)
    → u.num_ctrl_plane_acl_rules ≡ length s.grows.added
counted u s = omega (arith, s.grows.are_counted)

-- If the translation gives commands, they are the first ones, then commands that each translate a
-- rule of a control plane table in force, then those that block and those for a low TTL, and at last
-- the drops for all other packets, if there is a command of a rule.
pub translate_acls-Translated :
    (c : Config) (known : List (String × Service)) (first block cmds : List Command)
    (t : Translation)
    → translate_acls c known first (some block) ≡ some (cmds, t)
    → Translated c known first block cmds
unfolding translate_acls
translate_acls-Translated c known first block cmds t e =
    Yields-elim (λ r. Translated c known first block r.0)
      (translate_acls c known first (some block)) (cmds, t)
      (Yields-bind _ (translate_tables c c.tables_db_info (start_translation known first)) _
        (translate_tables-Sound c known c.tables_db_info (start_translation known first) (λ n k. k)
          (λ name s f. (s, f, (refl, refl), (λ port m. inl m))))
        (λ u s. record {
          rules = s.grows.added;
          come_from_rules = s.grows.have;
          are_all = rw (s.grows.are_appended, counted u s) refl;
        }))
      e
