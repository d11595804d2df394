-- ===== src/Console/Dce/Sync.antt =====
-- What a synchronisation leaves: exactly the configured links can be active, each with the
-- configuration that the database has.
use sonic_host_services.Base.{
  ℕ, Bool, true, false, not, ◌&&◌, ◌||◌, Option, none, some, List, [], ◌∷◌, String, str_eq, eq_iff,
  ◌≡◌, refl, arith, if◌then◌else◌,
}
use sonic_host_services.Base.Dict
use sonic_host_services.Base.Dict.{lookup-insert, lookup-erase}
use sonic_host_services.Base.Set
use sonic_host_services.Base.Set.{contains, contains-add, contains-discard, contains-filter}
use sonic_host_services.Console.Dce.{
  DceService, Command, keys, start_link, stop_link, restart_link, drop_links, start_new,
  start_links, restart_changed, restart_links, select, sync_enabled,
}

-- A dict has each key once.
abbrev pub NodupKeys : List (String × ℕ) → Type 0
NodupKeys [] = Unit
NodupKeys ((k, v) ∷ d) = (Dict.lookup k d ≡ none) × NodupKeys d

abbrev pub is_some : Option ℕ → Bool
is_some none = false
is_some (some b) = true

pub contains-keys :
    (x : String) (d : List (String × ℕ)) → contains x (keys d) ≡ is_some (Dict.lookup x d)
unfolding contains Dict.lookup
contains-keys x [] = refl
contains-keys x ((k, v) ∷ d) = ground (arith, contains-keys x d)

pub lookup-select :
    (x : String) (p : String → Bool) (d : List (String × ℕ))
    → Dict.lookup x (select p d) ≡ (if p x then Dict.lookup x d else none)
unfolding Dict.lookup
lookup-select x p [] = ground arith
lookup-select x p ((k, v) ∷ d) = ground (arith, lookup-select x p d, eq_iff k x)

pub select-NodupKeys :
    (p : String → Bool) (d : List (String × ℕ)) → NodupKeys d → NodupKeys (select p d)
select-NodupKeys p [] h = tt
select-NodupKeys p ((k, v) ∷ d) h = ground (arith, select-NodupKeys p d h.1, lookup-select k p d)

pub same_key : (x id : String) (d : List (String × ℕ)) → id ≡ x → Dict.lookup x d ≡ Dict.lookup id d
same_key x id d e = cc

lookup-eq-none :
    (x : String) (d : List (String × ℕ))
    → is_some (Dict.lookup x d) ≡ false
    → Dict.lookup x d ≡ none
lookup-eq-none x d h = ground arith

module _ (systemctl : List Command → Command → Bool) where
  -- The calls of `systemctl` leave the rest of the state alone.
  start_link-rest :
      (id : String) (s : DceService)
      → let t = (start_link systemctl id s).0 in
        (t.active_links ≡ s.active_links) × (t.config_cache ≡ s.config_cache)
  unfolding start_link
  start_link-rest id s = ground arith

  stop_link-rest :
      (id : String) (s : DceService)
      → let t = stop_link systemctl id s in
        (t.active_links ≡ s.active_links) × (t.config_cache ≡ s.config_cache)
  unfolding stop_link
  stop_link-rest id s = ground arith

  restart_link-rest :
      (id : String) (s : DceService)
      → let t = (restart_link systemctl id s).0 in
        (t.active_links ≡ s.active_links) × (t.config_cache ≡ s.config_cache)
  unfolding restart_link
  restart_link-rest id s = ground arith

  drop_links-at :
      (x : String) (ids : List String) (s : DceService)
      → let t = drop_links systemctl ids s in
        (contains x t.active_links ≡ (not (contains x ids) && contains x s.active_links))
        × (Dict.lookup x t.config_cache
            ≡ (if contains x ids then none else Dict.lookup x s.config_cache))
  unfolding drop_links contains
  drop_links-at x [] s = (refl, refl)
  drop_links-at x (id ∷ ids) s =
      let t = stop_link systemctl id s in
      let e = stop_link-rest id s in
      let u : DceService = record t {
        active_links = Set.discard id t.active_links;
        config_cache = Dict.erase id t.config_cache;
      } in
      ground (
        arith,
        drop_links-at x ids u,
        contains-discard x id t.active_links,
        lookup-erase id x t.config_cache,
        e,
      )

  start_new-at :
      (x id : String) (baud : ℕ) (s : DceService)
      → let t = start_new systemctl id baud s in
        let here = (start_link systemctl id s).1 && str_eq id x in
        (contains x t.active_links ≡ (here || contains x s.active_links))
        × (Dict.lookup x t.config_cache
            ≡ (if here then some baud else Dict.lookup x s.config_cache))
  unfolding start_new
  start_new-at x id baud s =
      let t = (start_link systemctl id s).0 in
      ground (
        arith,
        start_link-rest id s,
        contains-add x id t.active_links,
        lookup-insert id x baud t.config_cache,
      )

  start_links-other :
      (x : String) (new : List (String × ℕ)) (s : DceService)
      → Dict.lookup x new ≡ none
      → let t = start_links systemctl new s in
        (contains x t.active_links ≡ contains x s.active_links)
        × (Dict.lookup x t.config_cache ≡ Dict.lookup x s.config_cache)
  unfolding start_links Dict.lookup
  start_links-other x [] s h = (refl, refl)
  start_links-other x ((id, baud) ∷ new) s h =
      ground
        (arith, start_new-at x id baud s, start_links-other x new (start_new systemctl id baud s))

  -- A new link that is active afterwards has been started with its configuration.
  start_links-new :
      (x : String) (new : List (String × ℕ)) (s : DceService)
      → NodupKeys new
      → contains x s.active_links ≡ false
      → let t = start_links systemctl new s in
        contains x t.active_links ≡ true
        → (Dict.lookup x t.config_cache ≡ Dict.lookup x new) × (is_some (Dict.lookup x new) ≡ true)
  unfolding start_links Dict.lookup
  start_links-new x [] s u h k = cc
  start_links-new x ((id, baud) ∷ new) s u h k =
      let t = start_new systemctl id baud s in
      ground (
        arith,
        eq_iff id x,
        start_new-at x id baud s,
        start_links-other x new t,
        start_links-new x new t u.1,
        same_key x id new,
      )

  restart_changed-at :
      (x id : String) (baud : ℕ) (s : DceService)
      → let t = restart_changed systemctl id baud s in
        (contains x t.active_links ≡ contains x s.active_links)
        × (Dict.lookup x t.config_cache
            ≡ (if str_eq id x then some baud else Dict.lookup x s.config_cache))
  unfolding restart_changed
  restart_changed-at x id baud s =
      let t = (restart_link systemctl id s).0 in
      ground (
        arith,
        restart_link-rest id s,
        lookup-insert id x baud t.config_cache,
        eq_iff id x,
        same_key x id s.config_cache,
      )

  restart_links-at :
      (x : String) (kept : List (String × ℕ)) (s : DceService)
      → NodupKeys kept
      → let t = restart_links systemctl kept s in
        (contains x t.active_links ≡ contains x s.active_links)
        × (Dict.lookup x t.config_cache ≡ (
            if is_some (Dict.lookup x kept)
            then Dict.lookup x kept
            else Dict.lookup x s.config_cache))
  unfolding restart_links Dict.lookup
  restart_links-at x [] s u = (refl, refl)
  restart_links-at x ((id, baud) ∷ kept) s u = ground (
    arith,
    eq_iff id x,
    restart_changed-at x id baud s,
    restart_links-at x kept (restart_changed systemctl id baud s) u.1,
    same_key x id kept,
  )

  -- Both of the following for one link.
  pub sync_enabled-at :
      (configs : List (String × ℕ)) (s : DceService) (x : String)
      → NodupKeys configs
      → let t = sync_enabled systemctl configs s in
        (contains x s.active_links ≡ true
          → contains x t.active_links ≡ is_some (Dict.lookup x configs))
        × (contains x t.active_links ≡ true
            → (is_some (Dict.lookup x configs) ≡ true)
              × (Dict.lookup x t.config_cache ≡ Dict.lookup x configs))
  unfolding sync_enabled
  sync_enabled-at configs s x u =
      let current = s.active_links in
      let gone = Set.filter (λ id. not (contains id (keys configs))) current in
      let new = select (λ id. not (contains id current)) configs in
      let kept = select (λ id. contains id current) configs in
      let s1 = drop_links systemctl gone s in
      let s2 = start_links systemctl new s1 in
      ground (
        arith,
        contains-keys x configs,
        contains-filter x (λ id. not (contains id (keys configs))) current,
        lookup-select x (λ id. not (contains id current)) configs,
        lookup-select x (λ id. contains id current) configs,
        drop_links-at x gone s,
        start_links-other x new s1,
        start_links-new x new s1 (select-NodupKeys (λ id. not (contains id current)) configs u),
        restart_links-at x kept s2 (select-NodupKeys (λ id. contains id current) configs u),
      )

  -- With the feature on, a link that was active is active after a synchronisation exactly when it
  -- is configured, whatever the calls of systemctl answer.
  pub sync_enabled-keeps :
      (configs : List (String × ℕ)) (s : DceService) (x : String)
      → NodupKeys configs
      → contains x s.active_links ≡ true
      → contains x (sync_enabled systemctl configs s).active_links ≡ is_some (Dict.lookup x configs)
  sync_enabled-keeps configs s x u = (sync_enabled-at configs s x u).0

  -- With the feature on, a link that is active after a synchronisation is configured, and cached
  -- with the configuration of the database.
  pub sync_enabled-cached :
      (configs : List (String × ℕ)) (s : DceService) (x : String)
      → NodupKeys configs
      → contains x (sync_enabled systemctl configs s).active_links ≡ true
      → (is_some (Dict.lookup x configs) ≡ true)
        × (Dict.lookup x (sync_enabled systemctl configs s).config_cache ≡ Dict.lookup x configs)
  sync_enabled-cached configs s x u = (sync_enabled-at configs s x u).1

  start_link-success :
      (id : String) (s : DceService)
      → ((log : List Command) (c : Command) → systemctl log c ≡ true)
      → (start_link systemctl id s).1 ≡ true
  unfolding start_link
  start_link-success id s ok = simp ok

  start_links_mono :
      (x : String) (new : List (String × ℕ)) (s : DceService)
      → contains x s.active_links ≡ true
      → contains x (start_links systemctl new s).active_links ≡ true
  unfolding start_links
  start_links_mono x [] s h = h
  start_links_mono x ((id, baud) ∷ new) s h =
      ground
        (arith, start_new-at x id baud s, start_links_mono x new (start_new systemctl id baud s))

  start_links-success :
      (x : String) (new : List (String × ℕ)) (s : DceService)
      → ((log : List Command) (c : Command) → systemctl log c ≡ true)
      → is_some (Dict.lookup x new) ≡ true
      → contains x (start_links systemctl new s).active_links ≡ true
  unfolding start_links Dict.lookup
  start_links-success x [] s ok h = cc
  start_links-success x ((id, baud) ∷ new) s ok h =
      let t = start_new systemctl id baud s in
      ground (
        arith,
        start_link-success id s ok,
        start_new-at x id baud s,
        start_links_mono x new t,
        start_links-success x new t ok,
      )

  -- With the feature on and systemctl succeeding at every call, exactly the configured links are
  -- active after a synchronisation.
  pub sync_enabled-success :
      (configs : List (String × ℕ)) (s : DceService) (x : String)
      → ((log : List Command) (c : Command) → systemctl log c ≡ true)
      → NodupKeys configs
      → contains x (sync_enabled systemctl configs s).active_links ≡ is_some (Dict.lookup x configs)
  unfolding sync_enabled
  sync_enabled-success configs s x ok u =
      let current = s.active_links in
      let gone = Set.filter (λ id. not (contains id (keys configs))) current in
      let new = select (λ id. not (contains id current)) configs in
      let kept = select (λ id. contains id current) configs in
      let s1 = drop_links systemctl gone s in
      let s2 = start_links systemctl new s1 in
      ground (
        arith,
        contains-keys x configs,
        contains-filter x (λ id. not (contains id (keys configs))) current,
        lookup-select x (λ id. not (contains id current)) configs,
        drop_links-at x gone s,
        start_links-other x new s1,
        start_links-success x new s1 ok,
        restart_links-at x kept s2 (select-NodupKeys (λ id. contains id current) configs u),
        lookup-eq-none x new,
      )
