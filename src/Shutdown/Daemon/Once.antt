-- ===== src/Shutdown/Daemon/Once.antt =====
-- No module is in two transitions at a time.
use sonic_host_services.Base.{
  ℕ, suc, ◌+◌, Option, List, [], ◌∷◌, ◌++◌, String, str_eq, eq_iff, ◌≡◌, refl, arith, if◌then◌else◌,
}
use sonic_host_services.Base.Set.{contains, discard, contains-add, contains-discard}
use sonic_host_services.Shutdown.Daemon.{
  Daemon, Event, Reachable, started, continued, message, cleanup, on_message,
}

abbrev pub occurrences : String → List String → ℕ
occurrences x [] = 0
occurrences x (y ∷ s) = let rest = occurrences x s in if str_eq y x then suc rest else rest

occurrences-append :
    (x : String) (s t : List String) → occurrences x (s ++ t) ≡ occurrences x s + occurrences x t
occurrences-append x [] t = omega arith
occurrences-append x (y ∷ s) t = ground (arith, occurrences-append x s t)

abbrev pub Counted : Daemon → String → Type 0
Counted d x = occurrences x d.threads ≡ (if contains x d.active_transitions then 1 else 0)

on_message-Counted :
    (admin_status : Option String) (dpu_name x : String) (d : Daemon)
    → Counted d x
    → Counted d dpu_name
    → Counted (on_message admin_status dpu_name d) x
unfolding on_message
on_message-Counted admin_status dpu_name x d h k =
    ground (arith, contains-add x dpu_name d.active_transitions, eq_iff dpu_name x)

cleanup-Counted :
    (active before after : List String) (dpu x : String)
    → Counted (record { active_transitions = active; threads = before ++ dpu ∷ after }) x
    → Counted (record { active_transitions = discard dpu active; threads = before ++ after }) x
cleanup-Counted active before after dpu x h = ground (
  arith,
  occurrences-append x before (dpu ∷ after),
  occurrences-append x before after,
  contains-discard x dpu active,
)

event-Counted :
    {d e : Daemon} → ((x : String) → Counted d x) → Event d e → (x : String) → Counted e x
event-Counted {d = d} h (message admin_status dpu_name) x =
    on_message-Counted admin_status dpu_name x d (h x) (h dpu_name)
event-Counted h (cleanup {active = active} before after dpu) x =
    cleanup-Counted active before after dpu x (h x)

-- In every reachable state of the daemon a module has one transition running if it is in the set of
-- active transitions, and none otherwise.
pub reachable-Counted : (d : Daemon) (x : String) → Reachable d → Counted d x
unfolding contains
reachable-Counted d x started = refl
reachable-Counted d x (continued r e) = event-Counted (λ y. reachable-Counted _ y r) e x
