-- ===== src/Console/Dce/Quiet.antt =====
-- When a synchronisation has nothing to do.
use sonic_host_services.Base.{
  ℕ, Bool, true, false, not, some, List, [], ◌∷◌, String, eq_iff, ◌≡◌, refl, ◌∙◌, arith,
}
use sonic_host_services.Base.Dict
use sonic_host_services.Base.Set
use sonic_host_services.Base.Set.{contains}
use sonic_host_services.Console.Dce.{
  DceService, Command, keys, drop_links, start_links, restart_changed, restart_links, select,
  sync_enabled,
}
use sonic_host_services.Console.Dce.Sync.{
  NodupKeys, is_some, contains-keys, same_key, sync_enabled-at, sync_enabled-cached,
  sync_enabled-success, select-NodupKeys, lookup-select,
}

-- The active links are the configured ones, and each is cached with its configuration.
pub record IsSynced (configs : List (String × ℕ)) (s : DceService) : Type 0 where
  pub links : (x : String) → contains x s.active_links ≡ is_some (Dict.lookup x configs)
  pub cached :
      (x : String)
      → is_some (Dict.lookup x configs) ≡ true
      → Dict.lookup x s.config_cache ≡ Dict.lookup x configs

filter-nil :
    (p : String → Bool) (s : List String)
    → ((x : String) → contains x s ≡ true → p x ≡ false)
    → Set.filter p s ≡ []
unfolding Set.filter contains
filter-nil p [] h = refl
filter-nil p (x ∷ s) h =
    let rest = filter-nil p s (λ y m. h y (ground arith)) in ground (arith, h x, rest, eq_iff x x)

select-nil :
    (p : String → Bool) (d : List (String × ℕ))
    → ((x : String) → is_some (Dict.lookup x d) ≡ true → p x ≡ false)
    → select p d ≡ []
unfolding Dict.lookup
select-nil p [] h = refl
select-nil p ((k, v) ∷ d) h =
    let rest = select-nil p d (λ y m. h y (ground arith)) in ground (arith, h k, rest, eq_iff k k)

module _ (systemctl : List Command → Command → Bool) where
  restart_changed-same :
      (id : String) (baud : ℕ) (s : DceService)
      → Dict.lookup id s.config_cache ≡ some baud
      → restart_changed systemctl id baud s ≡ s
  unfolding restart_changed
  restart_changed-same id baud s h = ground arith

  restart_links-same :
      (kept : List (String × ℕ)) (s : DceService)
      → NodupKeys kept
      → ((x : String)
          → is_some (Dict.lookup x kept) ≡ true
          → Dict.lookup x s.config_cache ≡ Dict.lookup x kept)
      → restart_links systemctl kept s ≡ s
  unfolding restart_links Dict.lookup
  restart_links-same [] s u h = refl
  restart_links-same ((id, baud) ∷ kept) s u h =
      let here : Dict.lookup id s.config_cache ≡ some baud = ground (arith, h id, eq_iff id id) in
      let rest =
        restart_links-same kept s u.1
          (λ x m. ground (arith, h x, eq_iff id x, same_key x id kept)) in
      rw (restart_changed-same id baud s here) rest

  -- A synchronisation of a synchronised service calls nothing and changes nothing.
  pub sync_enabled-same :
      (configs : List (String × ℕ)) (s : DceService)
      → NodupKeys configs
      → IsSynced configs s
      → sync_enabled systemctl configs s ≡ s
  unfolding sync_enabled drop_links start_links
  sync_enabled-same configs s u h =
      let none_gone =
        filter-nil (λ id. not (contains id (keys configs))) s.active_links
          (λ x m. ground (arith, h.links x, contains-keys x configs)) in
      let none_new =
        select-nil (λ id. not (contains id s.active_links)) configs
          (λ x m. ground (arith, h.links x)) in
      rw (none_gone) (
        rw none_new (
          restart_links-same (select (λ id. contains id s.active_links) configs) s
            (select-NodupKeys (λ id. contains id s.active_links) configs u)
            (λ x m.
              ground
                (arith, lookup-select x (λ id. contains id s.active_links) configs, h.cached x))))

  sync_enabled-IsSynced :
      (configs : List (String × ℕ)) (s : DceService)
      → NodupKeys configs
      → ((x : String)
          → contains x (sync_enabled systemctl configs s).active_links
            ≡ is_some (Dict.lookup x configs))
      → IsSynced configs (sync_enabled systemctl configs s)
  sync_enabled-IsSynced configs s u l = record {
    links = l;
    cached = λ x m. (sync_enabled-cached systemctl configs s x u (l x ∙ m)).1;
  }

  -- If systemctl succeeds at every call, a second synchronisation with the same configurations
  -- calls nothing and changes nothing.
  pub sync_enabled_twice :
      (configs : List (String × ℕ)) (s : DceService)
      → ((log : List Command) (c : Command) → systemctl log c ≡ true)
      → NodupKeys configs
      → let t = sync_enabled systemctl configs s in sync_enabled systemctl configs t ≡ t
  sync_enabled_twice configs s ok u =
      sync_enabled-same configs (sync_enabled systemctl configs s) u
        (sync_enabled-IsSynced configs s u (λ x. sync_enabled-success systemctl configs s x ok u))

  -- A failed restart is never made good: where the active links are the configured ones, and only
  -- configurations have changed, a second synchronisation calls nothing, whatever the calls of
  -- the first one answered.
  pub sync_enabled_forgets :
      (configs : List (String × ℕ)) (s : DceService)
      → NodupKeys configs
      → ((x : String) → contains x s.active_links ≡ is_some (Dict.lookup x configs))
      → let t = sync_enabled systemctl configs s in sync_enabled systemctl configs t ≡ t
  sync_enabled_forgets configs s u l =
      sync_enabled-same configs (sync_enabled systemctl configs s) u (
        sync_enabled-IsSynced configs s u
          (λ x. ground (arith, l x, sync_enabled-at systemctl configs s x u)))
