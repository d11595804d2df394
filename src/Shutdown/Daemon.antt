-- ===== src/Shutdown/Daemon.antt =====
-- `main` of scripts/gnoi_shutdown_daemon.py: the messages of CONFIG_DB, and the threads that they
-- start.
pub mod Once
use sonic_host_services.Base.{
  Bool, true, false, Option, none, some, List, [], ◌∷◌, ◌++◌, String, str_eq, if◌then◌else◌,
}
use sonic_host_services.Base.Set.{contains, add, discard}

-- The set of the modules in transition, and the modules whose transitions run.
pub record Daemon : Type 0 where
  pub active_transitions : List String
  pub threads : List String

abbrev pub init : Daemon
init = record { active_transitions = []; threads = [] }

abbrev pub is_down : Option String → Bool
is_down none = false
is_down (some s) = str_eq s "down"

-- A message about a module, with the admin status that is read then, `none` if reading raises or
-- gives nothing.
unfoldable pub on_message : Option String → String → Daemon → Daemon
on_message admin_status dpu_name d =
    if is_down admin_status
    then if contains dpu_name d.active_transitions then d else record {
      active_transitions = add dpu_name d.active_transitions;
      threads = dpu_name ∷ d.threads;
    }
    else d

-- The end of `handle_and_cleanup`, after the handler has returned or raised, in one of the threads.
pub data Event : Daemon → Daemon → Type 0 where
  message :
      {d : Daemon} (admin_status : Option String) (dpu_name : String)
      → Event d (on_message admin_status dpu_name d)
  cleanup :
      {active : List String} (before after : List String) (dpu : String)
      → Event
          record { active_transitions = active; threads = before ++ dpu ∷ after }
          record { active_transitions = discard dpu active; threads = before ++ after }

pub data Reachable : Daemon → Type 0 where
  started : Reachable init
  continued : {d e : Daemon} → Reachable d → Event d e → Reachable e
