-- ===== src/Console/Dce/Running.antt =====
-- What the calls of systemctl leave running.
use sonic_host_services.Base.{
  ℕ, Bool, true, false, not, ◌&&◌, ◌||◌, Option, none, some, List, [], ◌∷◌, ◌++◌, String, str_eq,
  eq_iff, ◌≡◌, refl, arith, if◌then◌else◌,
}
use sonic_host_services.Base.Dict
use sonic_host_services.Base.Set
use sonic_host_services.Base.Set.{contains, contains-filter}
use sonic_host_services.Console.Dce.{
  DceService, Command, start_pty_bridge, stop_pty_bridge, start_proxy, stop_proxy, keys, start_link,
  stop_link, restart_link, drop_links, start_new, start_links, restart_changed, restart_links,
  select, sync_enabled,
}
use sonic_host_services.Console.Dce.Sync.{NodupKeys, is_some, contains-keys, lookup-select}

-- Whose service a call starts or stops: of the bridges, or of the proxies.
abbrev pub bridge_call : Command → Option (String × Bool)
bridge_call (start_pty_bridge id) = some (id, true)
bridge_call (stop_pty_bridge id) = some (id, false)
bridge_call (start_proxy id) = none
bridge_call (stop_proxy id) = none

abbrev pub proxy_call : Command → Option (String × Bool)
proxy_call (start_pty_bridge id) = none
proxy_call (stop_pty_bridge id) = none
proxy_call (start_proxy id) = some (id, true)
proxy_call (stop_proxy id) = some (id, false)

-- Whether the service of the link runs after a call that succeeds.
abbrev pub after_call : String → Option (String × Bool) → Bool → Bool
after_call x none b = b
after_call x (some (id, starts)) b = if str_eq id x then starts else b

-- Whether it runs after all calls, from whether it ran before.
unfoldable pub runs_after : (Command → Option (String × Bool)) → String → Bool → List Command → Bool
runs_after of x b [] = b
runs_after of x b (c ∷ cs) = runs_after of x (after_call x (of c) b) cs

-- Whether the services of the link run after the calls of the service.
abbrev pub bridge_runs : String → DceService → Bool
bridge_runs x s = runs_after bridge_call x false s.commands

abbrev pub proxy_runs : String → DceService → Bool
proxy_runs x s = runs_after proxy_call x false s.commands

-- Both services run, or neither does.
abbrev pub Runs : String → DceService → Bool → Type 0
Runs x s b = (bridge_runs x s ≡ b) × (proxy_runs x s ≡ b)

runs_after-snoc :
    (of : Command → Option (String × Bool)) (x : String) (b : Bool) (cs : List Command)
    (c : Command)
    → runs_after of x b (cs ++ c ∷ []) ≡ after_call x (of c) (runs_after of x b cs)
unfolding runs_after
runs_after-snoc of x b [] c = refl
runs_after-snoc of x b (d ∷ cs) c = runs_after-snoc of x (after_call x (of d) b) cs c

-- What two more calls leave.
runs_after-two :
    (of : Command → Option (String × Bool)) (x : String) (cs : List Command) (c d : Command)
    → runs_after of x false ((cs ++ c ∷ []) ++ d ∷ [])
      ≡ after_call x (of d) (after_call x (of c) (runs_after of x false cs))
runs_after-two of x cs c d =
    rw (runs_after-snoc of x false (cs ++ c ∷ []) d, runs_after-snoc of x false cs c) refl

module _ (systemctl : List Command → Command → Bool) where
  stop_link-Runs :
      (x id : String) (s : DceService) (b : Bool)
      → Runs x s b
      → Runs x (stop_link systemctl id s) (if str_eq id x then false else b)
  unfolding stop_link
  stop_link-Runs x id s b h = ground (
    arith,
    runs_after-two bridge_call x s.commands (stop_proxy id) (stop_pty_bridge id),
    runs_after-two proxy_call x s.commands (stop_proxy id) (stop_pty_bridge id),
  )

  drop_links-Runs :
      (x : String) (ids : List String) (s : DceService) (b : Bool)
      → Runs x s b
      → Runs x (drop_links systemctl ids s) (not (contains x ids) && b)
  unfolding drop_links contains
  drop_links-Runs x [] s b h = h
  drop_links-Runs x (id ∷ ids) s b h =
      let t = stop_link systemctl id s in
      let u : DceService = record t {
        active_links = Set.discard id t.active_links;
        config_cache = Dict.erase id t.config_cache;
      } in
      ground (
        arith,
        drop_links-Runs x ids u (if str_eq id x then false else b) (stop_link-Runs x id s b h),
      )

  module _ (ok : (log : List Command) (c : Command) → systemctl log c ≡ true) where
    start_link-Runs :
        (x id : String) (s : DceService) (b : Bool)
        → Runs x s b
        → Runs x (start_link systemctl id s).0 (str_eq id x || b)
    unfolding start_link
    start_link-Runs x id s b h = ground (
      arith,
      ok s.commands (start_pty_bridge id),
      ok (s.commands ++ start_pty_bridge id ∷ []) (start_proxy id),
      runs_after-two bridge_call x s.commands (start_pty_bridge id) (start_proxy id),
      runs_after-two proxy_call x s.commands (start_pty_bridge id) (start_proxy id),
    )

    start_links-Runs :
        (x : String) (new : List (String × ℕ)) (s : DceService) (b : Bool)
        → Runs x s b
        → Runs x (start_links systemctl new s) (is_some (Dict.lookup x new) || b)
    unfolding start_links start_new Dict.lookup
    start_links-Runs x [] s b h = h
    start_links-Runs x ((id, baud) ∷ new) s b h = ground (
      arith,
      start_links-Runs x new (start_new systemctl id baud s) (str_eq id x || b)
          (start_link-Runs x id s b h),
    )

    restart_link-Runs :
        (x id : String) (s : DceService) (b : Bool)
        → Runs x s b
        → Runs x (restart_link systemctl id s).0 (str_eq id x || b)
    unfolding restart_link
    restart_link-Runs x id s b h =
        let t = stop_link systemctl id s in
        ground (
          arith,
          stop_link-Runs x id s b h,
          ok t.commands (start_pty_bridge id),
          ok (t.commands ++ start_pty_bridge id ∷ []) (start_proxy id),
          runs_after-two bridge_call x t.commands (start_pty_bridge id) (start_proxy id),
          runs_after-two proxy_call x t.commands (start_pty_bridge id) (start_proxy id),
        )

    restart_links-Runs :
        (x : String) (kept : List (String × ℕ)) (s : DceService) (b : Bool)
        → (is_some (Dict.lookup x kept) ≡ true → b ≡ true)
        → Runs x s b
        → Runs x (restart_links systemctl kept s) b
    unfolding restart_links restart_changed Dict.lookup
    restart_links-Runs x [] s b k h = h
    restart_links-Runs x ((id, baud) ∷ kept) s b k h = ground (
      arith,
      eq_iff id x,
      restart_link-Runs x id s b h,
      restart_links-Runs x kept (restart_changed systemctl id baud s) b,
    )

    -- With the feature on and systemctl succeeding at every call: if both services of a link run
    -- before a synchronisation exactly when the link is active, then afterwards both run exactly
    -- when the link is configured, as the calls of systemctl say.
    pub sync_enabled-Runs :
        (configs : List (String × ℕ)) (s : DceService) (x : String)
        → NodupKeys configs
        → Runs x s (contains x s.active_links)
        → Runs x (sync_enabled systemctl configs s) (is_some (Dict.lookup x configs))
    unfolding sync_enabled
    sync_enabled-Runs configs s x u h =
        let current = s.active_links in
        let gone = Set.filter (λ id. not (contains id (keys configs))) current in
        let new = select (λ id. not (contains id current)) configs in
        let kept = select (λ id. contains id current) configs in
        let s1 = drop_links systemctl gone s in
        let s2 = start_links systemctl new s1 in
        let b1 = not (contains x gone) && contains x current in
        let b2 = is_some (Dict.lookup x new) || b1 in
        let r2 : Runs x s2 b2 =
          start_links-Runs x new s1 b1 (drop_links-Runs x gone s (contains x current) h) in
        ground (
          arith,
          contains-keys x configs,
          contains-filter x (λ id. not (contains id (keys configs))) current,
          lookup-select x (λ id. not (contains id current)) configs,
          lookup-select x (λ id. contains id current) configs,
          restart_links-Runs x kept s2 b2,
          r2,
        )
