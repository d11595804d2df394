-- ===== src/Console/Dce.antt =====
-- `DCEService` of scripts/console-monitor: keeps one pair of services for each configured port.
pub mod Sync
pub mod Running
pub mod Quiet
use sonic_host_services.Base.{
  ℕ, Bool, true, false, not, Option, none, some, List, [], ◌∷◌, ◌++◌, map, String, str_eq, ◌==◌,
  if◌then◌else◌,
}
use sonic_host_services.Base.Dict
use sonic_host_services.Base.Set

-- Calls of `systemctl`, each on the service of one link.
pub data Command : Type 0 where
  start_pty_bridge stop_pty_bridge start_proxy stop_proxy : String → Command

-- `commands` is the trace of the calls so far. A cached configuration is its baud rate.
pub record DceService : Type 0 where
  pub active_links : List String
  pub config_cache : List (String × ℕ)
  pub commands : List Command

abbrev pub init : DceService
init = record { active_links = []; config_cache = []; commands = [] }

-- DEFAULT_BAUD
abbrev pub default_baud : ℕ
default_baud = 9600

abbrev pub keys : List (String × ℕ) → List String
keys = map (λ (k, _). k)

-- The entry "console_mgmt"; `none` for no entry or an exception.
unfoldable pub check_feature_enabled : Option (List (String × String)) → Bool
unfolding Dict.lookup
check_feature_enabled none = false
check_feature_enabled (some entry) = elim (Dict.lookup "enabled" entry) [
  | none ↦ false
  | some v ↦ str_eq v "yes"
]

-- `int` is Python's conversion of a text, `none` for its ValueError. The table has each port's
-- field "baud_rate", which may be missing. An error ends the loop, and what it has collected is
-- returned.
module _ (int : String → Option ℕ) where
  unfoldable pub get_all_configs : List (String × Option String) → List (String × ℕ)
  get_all_configs [] = []
  get_all_configs ((key, none) ∷ table) = (key, default_baud) ∷ get_all_configs table
  get_all_configs ((key, some text) ∷ table) =
      let rest = get_all_configs table in
      elim (int text) [ none ↦ [] | some baud ↦ (key, baud) ∷ rest ]

-- `new_config != old_config`, where nothing cached is the empty dict.
abbrev pub differs : ℕ → Option ℕ → Bool
differs new none = true
differs new (some old) = not (new == old)

-- The configurations whose ids pass a test.
abbrev pub select : (String → Bool) → List (String × ℕ) → List (String × ℕ)
select p [] = []
select p ((id, baud) ∷ configs) =
    let rest = select p configs in if p id then (id, baud) ∷ rest else rest

-- `systemctl` says whether a call succeeds, from the calls before it and the call.
module _ (systemctl : List Command → Command → Bool) where
  unfoldable pub call : Command → DceService → DceService × Bool
  call c s = (record s { commands = s.commands ++ c ∷ [] }, systemctl s.commands c)

  unfoldable pub start_link : String → DceService → DceService × Bool
  unfolding call
  start_link id s =
      let (s1, bridge) = call (start_pty_bridge id) s in
      let (s2, proxy) = call (start_proxy id) s1 in
      let (s3, stopped) = call (stop_pty_bridge id) s2 in
      if bridge then (if proxy then (s2, true) else (s3, false)) else (s1, false)

  unfoldable pub stop_link : String → DceService → DceService
  unfolding call
  stop_link id s = (call (stop_pty_bridge id) (call (stop_proxy id) s).0).0

  unfoldable pub restart_link : String → DceService → DceService × Bool
  unfolding call stop_link
  restart_link id s =
      let (s1, bridge) = call (start_pty_bridge id) (stop_link id s) in
      let (s2, proxy) = call (start_proxy id) s1 in
      let (s3, stopped) = call (stop_pty_bridge id) s2 in
      if bridge then (if proxy then (s2, true) else (s3, false)) else (s1, false)

  -- `for link_id in list(self.active_links): self._stop_link(link_id)`
  unfoldable pub stop_links : List String → DceService → DceService
  stop_links [] s = s
  stop_links (id ∷ ids) s = stop_links ids (stop_link id s)

  -- The first loop of `_sync`.
  unfoldable pub drop_links : List String → DceService → DceService
  drop_links [] s = s
  drop_links (id ∷ ids) s =
      let t = stop_link id s in
      drop_links ids (record t {
        active_links = Set.discard id t.active_links;
        config_cache = Dict.erase id t.config_cache;
      })

  -- The second loop, over the new ids and their configurations.
  unfoldable pub start_new : String → ℕ → DceService → DceService
  start_new id baud s =
      let (t, started) = start_link id s in
      record t {
        active_links = if started then Set.add id t.active_links else t.active_links;
        config_cache = if started then Dict.insert id baud t.config_cache else t.config_cache;
      }

  unfoldable pub start_links : List (String × ℕ) → DceService → DceService
  start_links [] s = s
  start_links ((id, baud) ∷ new) s = start_links new (start_new id baud s)

  -- The third loop.
  unfoldable pub restart_changed : String → ℕ → DceService → DceService
  restart_changed id baud s =
      let t = (restart_link id s).0 in
      if differs baud (Dict.lookup id s.config_cache)
      then record t { config_cache = Dict.insert id baud t.config_cache }
      else s

  unfoldable pub restart_links : List (String × ℕ) → DceService → DceService
  restart_links [] s = s
  restart_links ((id, baud) ∷ kept) s = restart_links kept (restart_changed id baud s)

  -- `_sync` with the configurations that the database gives. The sets are taken in the order of the
  -- lists that they come from.
  unfoldable pub sync_enabled : List (String × ℕ) → DceService → DceService
  sync_enabled configs s =
      let current = s.active_links in
      let gone = Set.filter (λ id. not (Set.contains id (keys configs))) current in
      let new = select (λ id. not (Set.contains id current)) configs in
      let kept = select (λ id. Set.contains id current) configs in
      restart_links kept (start_links new (drop_links gone s))

  unfoldable pub sync_disabled : DceService → DceService
  sync_disabled s =
      let t = stop_links s.active_links s in
      elim s.active_links [ [] ↦ s | _ ∷ _ ↦ record t { active_links = []; config_cache = [] } ]

  unfoldable pub sync : Bool → List (String × ℕ) → DceService → DceService
  unfolding sync_enabled sync_disabled
  sync enabled configs s = if enabled then sync_enabled configs s else sync_disabled s

  -- `stop`: the links are forgotten, the cache stays.
  unfoldable pub stop : DceService → DceService
  stop s = record (stop_links s.active_links s) { active_links = [] }
