-- ===== src/Featured/Handler/PutOff.antt =====
-- A configuration of a feature that is put off until the ports are up touches no service.
use sonic_host_services.Base.{
  Bool, true, false, not, ◌&&◌, List, [], ◌∷◌, ◌≡◌, refl, ◌∙◌, ap, arith, if◌then◌else◌,
}
use sonic_host_services.Featured.{Feature, Unit_, Command, FeatureHandler, Device}
use sonic_host_services.Featured.Units.{instances}
use sonic_host_services.Featured.Tables.{resync_feature_state, sync_scope_fields}
use sonic_host_services.Featured.Handler.{
  cached, put_cached, act, wanted, is_neither, update_feature_state, leaves_scope, sync_scope_units,
  sync_feature_scope, update_auto_restart, after_update, state_differs, configure,
}
use sonic_host_services.Featured.Handler.Transitions.{life}
use sonic_host_services.Featured.Handler.Quiet.{
  services, update_auto_restart-services, update_auto_restart-is_delayed_enabled,
}

module _ (dev : Device) where
  leaves_scope-single :
      (f : Feature) (u : Unit_) (h : FeatureHandler)
      → dev.is_multi_npu ≡ false
      → leaves_scope dev f u h ≡ false
  unfolding leaves_scope
  leaves_scope-single f u h single = ground arith

  sync_scope_units-single :
      (f : Feature) (us : List Unit_) (h : FeatureHandler)
      → dev.is_multi_npu ≡ false
      → sync_scope_units dev f us h ≡ (h, true)
  unfolding sync_scope_units
  sync_scope_units-single f [] h single = refl
  sync_scope_units-single f (u ∷ us) h single =
      rw (leaves_scope-single f u h single) (sync_scope_units-single f us h single)

  sync_feature_scope-log :
      (f : Feature) (h : FeatureHandler)
      → dev.is_multi_npu ≡ false
      → (sync_feature_scope dev f h).log ≡ h.log
  unfolding sync_feature_scope sync_scope_fields
  sync_feature_scope-log f h single =
      rw (sync_scope_units-single f (instances dev true f) h single) refl

  put_off-if :
      (b d o : Bool) (h : FeatureHandler) (r : FeatureHandler × Bool)
      → d ≡ true
      → o ≡ false
      → (if b then (h, false) else if d && not o then (h, true) else r) ≡ (h, not b)
  put_off-if true d o h r p q = refl
  put_off-if false true false h r p q = refl
  put_off-if false false o h r p q = cc
  put_off-if false true true h r p q = cc

  update_feature_state-put_off :
      (f : Feature) (h : FeatureHandler)
      → f.delayed ≡ true
      → h.is_delayed_enabled ≡ false
      → update_feature_state dev f h ≡ (h, not (is_neither (wanted (life f.name h) f.state)))
  unfolding update_feature_state
  update_feature_state-put_off f h delayed off =
      put_off-if (is_neither (wanted (life f.name h) f.state)) f.delayed h.is_delayed_enabled h
        (act dev (wanted (life f.name h) f.state) f h) delayed off

  after_update-log :
      (f : Feature) (h : FeatureHandler) (b : Bool)
      → dev.is_multi_npu ≡ false
      → (after_update dev f (h, b)).log ≡ h.log
  unfolding resync_feature_state
  after_update-log f h true single = sync_feature_scope-log f h single
  after_update-log f h false single = refl

  log-if :
      (b : Bool) (g k : FeatureHandler) (log : List Command)
      → g.log ≡ log
      → k.log ≡ log
      → (if b then g else k).log ≡ log
  log-if true g k log p q = p
  log-if false g k log p q = q

  -- On a device with one ASIC the configuration of a feature that is put off until the ports are up
  -- runs no command on a service before that.
  pub configure-put_off :
      (f : Feature) (h : FeatureHandler)
      → dev.is_multi_npu ≡ false
      → f.delayed ≡ true
      → h.is_delayed_enabled ≡ false
      → services (configure dev f h).log ≡ services h.log
  unfolding configure
  configure-put_off f h single delayed off =
      let g = update_auto_restart dev f (put_cached f.name (cached f.name h) h) in
      let off1 : g.is_delayed_enabled ≡ false =
        update_auto_restart-is_delayed_enabled dev f (put_cached f.name (cached f.name h) h)
        ∙ off in
      let w = is_neither (wanted (life f.name g) f.state) in
      let updated : (after_update dev f (update_feature_state dev f g)).log ≡ g.log =
        rw (update_feature_state-put_off f g delayed off1) (after_update-log f g (not w) single) in
      ap services (
        log-if (state_differs (cached f.name g).state f.state)
          (after_update dev f (update_feature_state dev f g)) g g.log updated refl)
      ∙ update_auto_restart-services dev f (put_cached f.name (cached f.name h) h)
