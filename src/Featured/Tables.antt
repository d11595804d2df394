-- ===== src/Featured/Tables.antt =====
-- The FEATURE tables of CONFIG_DB: what the daemon writes back to them.
pub mod Resync
use sonic_host_services.Base.{
  suc, Bool, true, false, not, ◌&&◌, ◌||◌, Option, none, some, String, map, if◌then◌else◌,
}
use sonic_host_services.Base.Dict
use sonic_host_services.Featured.{
  State, enabled, disabled, always_enabled, always_disabled, StateField, valid, template, Entry, Db,
  Feature, FeatureHandler,
}

abbrev pub state_eq : State → State → Bool
state_eq enabled enabled = true
state_eq disabled disabled = true
state_eq always_enabled always_enabled = true
state_eq always_disabled always_disabled = true
state_eq _ _ = false

-- `==` of Python on a state and a field of the database.
abbrev pub same_state : Option State → Option StateField → Bool
same_state none none = true
same_state (some s) (some (valid t)) = state_eq s t
same_state _ _ = false

abbrev pub same_bool : Bool → Option Bool → Bool
same_bool true (some true) = true
same_bool false (some false) = true
same_bool _ _ = false

-- `_feature_state_is_template`: also of a state that is missing.
abbrev pub feature_state_is_template : Option StateField → Bool
feature_state_is_template (some (valid s)) = false
feature_state_is_template _ = true

abbrev pub feature_state_is_immutable : Option State → Bool
feature_state_is_immutable (some always_enabled) = true
feature_state_is_immutable (some always_disabled) = true
feature_state_is_immutable _ = false

abbrev pub no_fields : Entry
no_fields = record {
  state = none;
  has_per_asic_scope = none;
  has_global_scope = none;
  delayed = none;
}

abbrev pub entry_or : Option Entry → Entry
entry_or none = no_fields
entry_or (some e) = e

-- `get_entry(FEATURE, name)`, with no fields if it is missing.
abbrev pub get_entry : String → Db → Entry
get_entry name db = entry_or (Dict.lookup name db.entries)

-- `mod_entry` once its fields are put into the entry.
abbrev pub put_entry : String → Entry → Db → Db
put_entry name e db = record { entries = Dict.insert name e db.entries; writes = suc db.writes }

-- The text of None, where a feature without a state is written, is no valid state.
abbrev pub field_of : Option State → StateField
field_of none = template
field_of (some s) = valid s

unfoldable pub resync_db : Feature → Db → Db
resync_db f db =
    let e = get_entry f.name db in
    if not (same_state f.state e.state)
      && (feature_state_is_immutable f.state || feature_state_is_template e.state)
    then put_entry f.name (record e { state = some (field_of f.state) }) db
    else db

unfoldable pub resync_feature_state : Feature → FeatureHandler → FeatureHandler
resync_feature_state f h = record h {
  config_db = resync_db f h.config_db;
  ns_cfg_db = map (resync_db f) h.ns_cfg_db;
}

unfoldable pub conditional_update_scope : Feature → Db → Db
conditional_update_scope f db =
    let e = get_entry f.name db in
    if same_bool f.has_per_asic_scope e.has_per_asic_scope
      && same_bool f.has_global_scope e.has_global_scope
    then db
    else put_entry f.name
        (record e {
          has_per_asic_scope = some f.has_per_asic_scope;
          has_global_scope = some f.has_global_scope;
        })
        db

unfoldable pub sync_scope_fields : Feature → FeatureHandler → FeatureHandler
sync_scope_fields f h = record h {
  config_db = conditional_update_scope f h.config_db;
  ns_cfg_db = map (conditional_update_scope f) h.ns_cfg_db;
}

abbrev pub put_delayed : Feature → Db → Db
put_delayed f db = put_entry f.name (record (get_entry f.name db) { delayed = some f.delayed }) db

unfoldable pub sync_feature_delay_state : Feature → FeatureHandler → FeatureHandler
sync_feature_delay_state f h =
    if same_bool f.delayed (get_entry f.name h.config_db).delayed then h else record h {
      config_db = put_delayed f h.config_db;
      ns_cfg_db = map (put_delayed f) h.ns_cfg_db;
    }

-- `set_entry(FEATURE, name, None)`
abbrev pub delete_entry : String → Db → Db
delete_entry name db = record { entries = Dict.erase name db.entries; writes = suc db.writes }
