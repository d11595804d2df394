-- ===== src/Featured/Handler/Quiet.antt =====
-- A configuration that may not change an immutable feature touches no service.
use sonic_host_services.Featured.Tables.Resync.{resolved, get_entry-resync_db}
use sonic_host_services.Base.{
  sym, subst, eq_iff, String, Bool, true, false, not, ◌&&◌, Option, none, some, List, [], ◌∷◌, ◌≡◌,
  refl, ◌∙◌, ap, arith, if◌then◌else◌,
}
use sonic_host_services.Featured.{
  valid, State, enabled, disabled, always_enabled, always_disabled, Feature, Db, StateField,
  Command, systemctl, daemon_reload, FeatureHandler, Device,
}
use sonic_host_services.Featured.Units.{run_cmd, update_systemd_config}
use sonic_host_services.Featured.Tables.{
  resync_db, get_entry, resync_feature_state, feature_state_is_immutable,
}
use sonic_host_services.Featured.Handler.{
  cached, put_cached, act, wanted, is_neither, update_feature_state, update_auto_restart,
  after_update, state_differs, configure,
}
use sonic_host_services.Featured.Handler.Transitions.{
  life-put_cached, life-update_auto_restart, cached-put_cached, life,
}

-- The commands that are about a service.
unfoldable pub services : List Command → List Command
services [] = []
services (daemon_reload ∷ log) = services log
services (systemctl v u ∷ log) = systemctl v u ∷ services log

-- The outcome of a configuration that may not change the state.
pub record Refused (name : String) (s : State) (h g : FeatureHandler) : Type 0 where
  pub no_services : services g.log ≡ services h.log
  pub kept : life name g ≡ some s
  pub written : (get_entry name g.config_db).state ≡ some (valid s)

if_differs : (b : Bool) (g h : FeatureHandler) → b ≡ true → (if b then g else h) ≡ g
if_differs true g h e = refl
if_differs false g h e = cc

module _ (dev : Device) where
  pub update_auto_restart-services :
      (f : Feature) (h : FeatureHandler)
      → services (update_auto_restart dev f h).log ≡ services h.log
  unfolding update_auto_restart update_systemd_config run_cmd services
  update_auto_restart-services f h = ground arith

  update_auto_restart-config_db :
      (f : Feature) (h : FeatureHandler) → (update_auto_restart dev f h).config_db ≡ h.config_db
  unfolding update_auto_restart update_systemd_config run_cmd
  update_auto_restart-config_db f h = ground arith

  pub update_auto_restart-is_delayed_enabled :
      (f : Feature) (h : FeatureHandler)
      → (update_auto_restart dev f h).is_delayed_enabled ≡ h.is_delayed_enabled
  unfolding update_auto_restart update_systemd_config run_cmd
  update_auto_restart-is_delayed_enabled f h = ground arith

  wanted_immutable :
      (s t : Option State)
      → feature_state_is_immutable s ≡ true
      → feature_state_is_immutable t ≡ false
      → (is_neither (wanted s t) ≡ true) × (state_differs s t ≡ true)
  unfolding wanted
  wanted_immutable none t p q = cc
  wanted_immutable (some enabled) t p q = cc
  wanted_immutable (some disabled) t p q = cc
  wanted_immutable (some always_enabled) none p q = (refl, refl)
  wanted_immutable (some always_enabled) (some enabled) p q = (refl, refl)
  wanted_immutable (some always_enabled) (some disabled) p q = (refl, refl)
  wanted_immutable (some always_enabled) (some always_enabled) p q = cc
  wanted_immutable (some always_enabled) (some always_disabled) p q = cc
  wanted_immutable (some always_disabled) none p q = (refl, refl)
  wanted_immutable (some always_disabled) (some enabled) p q = (refl, refl)
  wanted_immutable (some always_disabled) (some disabled) p q = (refl, refl)
  wanted_immutable (some always_disabled) (some always_enabled) p q = cc
  wanted_immutable (some always_disabled) (some always_disabled) p q = cc

  refused-if :
      (b : Bool) (h : FeatureHandler) (r : FeatureHandler × Bool)
      → b ≡ true
      → (if b then (h, false) else r) ≡ (h, false)
  refused-if true h r e = refl
  refused-if false h r e = cc

  update_feature_state-refused :
      (f : Feature) (h : FeatureHandler)
      → is_neither (wanted (life f.name h) f.state) ≡ true
      → update_feature_state dev f h ≡ (h, false)
  unfolding update_feature_state
  update_feature_state-refused f h e =
      refused-if (is_neither (wanted (life f.name h) f.state)) h
        (if f.delayed && not h.is_delayed_enabled
          then (h, true)
          else act dev (wanted (life f.name h) f.state) f h)
        e

  name-update_auto_restart :
      (f : Feature) (h : FeatureHandler)
      → (cached f.name (update_auto_restart dev f h)).name ≡ (cached f.name h).name
  unfolding update_auto_restart
  name-update_auto_restart f h =
      let c = record (cached f.name h) { auto_restart = f.auto_restart } in
      let g = update_systemd_config dev f h in
      ground (arith, cached-put_cached f.name f.name c g, eq_iff f.name f.name)

  name-put_cached :
      (name : String) (f : Feature) (h : FeatureHandler)
      → (cached name (put_cached name f h)).name ≡ f.name
  name-put_cached name f h = ground (arith, cached-put_cached name name f h, eq_iff name name)

  resolved_immutable :
      (s : State) (o : Option StateField)
      → feature_state_is_immutable (some s) ≡ true
      → resolved s o ≡ s
  resolved_immutable always_enabled o e = refl
  resolved_immutable always_disabled o e = refl
  resolved_immutable enabled o e = cc
  resolved_immutable disabled o e = cc

  resync_immutable :
      (name : String) (c : Feature) (s : State) (db : Db)
      → c.name ≡ name
      → c.state ≡ some s
      → feature_state_is_immutable (some s) ≡ true
      → (get_entry name (resync_db c db)).state ≡ some (valid s)
  resync_immutable name c s db n e i =
      subst (λ j. (get_entry j (resync_db c db)).state ≡ some (valid s)) n
        (get_entry-resync_db c s db e
          ∙ ap (λ t. some (valid t)) (resolved_immutable s (get_entry c.name db).state i))

  resync-State :
      (name : String) (s : State) (g : FeatureHandler)
      → (cached name g).name ≡ name
      → life name g ≡ some s
      → feature_state_is_immutable (some s) ≡ true
      → Refused name s g (resync_feature_state (cached name g) g)
  unfolding resync_feature_state
  resync-State name s g n e i = record {
    no_services = refl;
    kept = e;
    written = (resync_immutable name (cached name g) s g.config_db n e i);
  }

-- A feature that is cached as always_enabled or always_disabled keeps that state when a
-- configuration brings enabled, disabled or none: no command runs on a service, and the entry of
-- the host's CONFIG_DB holds the immutable state again.
pub configure-Refused :
    (dev : Device) (f : Feature) (s : State) (h : FeatureHandler)
    → (cached f.name h).name ≡ f.name
    → (cached f.name h).state ≡ some s
    → feature_state_is_immutable (some s) ≡ true
    → feature_state_is_immutable f.state ≡ false
    → Refused f.name s h (configure dev f h)
unfolding configure
configure-Refused dev f s h n e i m =
    let k = put_cached f.name (cached f.name h) h in
    let g = update_auto_restart dev f k in
    let named : (cached f.name g).name ≡ f.name =
      name-update_auto_restart dev f k ∙ name-put_cached dev f.name (cached f.name h) h ∙ n in
    let same : life f.name g ≡ some s =
      life-update_auto_restart dev f f.name k
      ∙ life-put_cached f.name f.name (cached f.name h) h refl
      ∙ e in
    let (refused, differs) =
      wanted_immutable dev (life f.name g) f.state (ap feature_state_is_immutable same ∙ i) m in
    let resynced = resync-State dev f.name s g named same i in
    let result : (if state_differs (life f.name g) f.state
          then after_update dev f (update_feature_state dev f g)
          else g)
        ≡ resync_feature_state (cached f.name g) g =
      if_differs (state_differs (life f.name g) f.state)
        (after_update dev f (update_feature_state dev f g)) g differs
      ∙ ap (after_update dev f) (update_feature_state-refused dev f g refused) in
    subst (Refused f.name s h) (sym result) (record {
      no_services = resynced.no_services ∙ update_auto_restart-services dev f k;
      kept = resynced.kept;
      written = resynced.written;
    })
