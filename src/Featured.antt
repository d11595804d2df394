-- ===== src/Featured.antt =====
-- scripts/featured: starts and stops the services of features as CONFIG_DB says. The data of
-- `Feature` and `FeatureHandler`.
pub mod Units
pub mod Tables
pub mod Handler
use sonic_host_services.Base.{ℕ, Bool, true, false, ◌||◌, Option, none, some, List, [], ◌∷◌, String}
use sonic_host_services.Base.Text.{Text, codes, startswith}

-- The valid values of a feature's state in CONFIG_DB.
pub data State : Type 0 where
  enabled disabled always_enabled always_disabled : State

-- `Feature`, once its fields are rendered. The state is `none` in a feature without a
-- configuration.
pub record Feature : Type 0 where
  pub name : String
  pub state : Option State
  pub auto_restart : Text
  pub delayed : Bool
  pub has_global_scope : Bool
  pub has_per_asic_scope : Bool
  pub has_per_dpu_scope : Bool

-- `Feature(feature_name, {})`
abbrev pub unconfigured : String → Feature
unconfigured feature_name = record {
  name = feature_name;
  state = none;
  auto_restart = codes "disabled";
  delayed = false;
  has_global_scope = true;
  has_per_asic_scope = false;
  has_per_dpu_scope = false;
}

-- A service of a feature: `name`, `name@0` or `name@dpu0`, each with `.service`.
pub data Instance : Type 0 where
  host : Instance
  asic dpu : ℕ → Instance

pub record Unit_ : Type 0 where
  pub feature : String
  pub instance_ : Instance

-- `UnitFileState`, as far as the code tells values apart; `no_state` is the empty text.
pub data UnitState : Type 0 where
  unit_enabled unit_disabled unit_masked no_state other_state : UnitState

pub data Verb : Type 0 where
  unmask enable start stop disable mask : Verb

pub data Command : Type 0 where
  systemctl : Verb → Unit_ → Command
  daemon_reload : Command

-- An entry of the FEATURE table: `template` is any text that is no valid state. A field that Python
-- writes as True or False is `none` if it is missing or any other text.
pub data StateField : Type 0 where
  valid : State → StateField
  template : StateField

pub record Entry : Type 0 where
  pub state : Option StateField
  pub has_per_asic_scope : Option Bool
  pub has_global_scope : Option Bool
  pub delayed : Option Bool

-- The FEATURE table of a CONFIG_DB, and how often it has been written.
pub record Db : Type 0 where
  pub entries : List (String × Entry)
  pub writes : ℕ

pub data Report : Type 0 where
  is_enabled is_disabled is_failed : Report

-- `FeatureHandler`, the databases and the system. The first tables are the host's, the others
-- those of the namespaces; `log` has the commands that were run, the last one first.
pub record FeatureHandler : Type 0 where
  pub cached_config : List (String × Feature)
  pub is_delayed_enabled : Bool
  pub config_db : Db
  pub ns_cfg_db : List Db
  pub feature_state_tables : List (List (String × Report))
  pub restart_fields : List (Unit_ × Bool)
  pub log : List Command

-- What the daemon finds on the device: its kind, what systemctl says of a unit after the commands
-- before, and whether a command ends with code 0.
pub record Device : Type 0 where
  pub is_multi_npu : Bool
  pub num_npus : ℕ
  pub num_dpus : ℕ
  pub is_spine_router : Bool
  pub unit_state : List Command → Unit_ → UnitState
  pub runs : List Command → Command → Bool
