-- ===== src/Cacl/Updates.antt =====
-- The update thread of scripts/caclmgrd for one namespace: the end of `run`, which counts changes and
-- starts the thread, and check_and_update_control_plane_acls, which waits until they stop.
pub mod Settle
use sonic_host_services.Base.{
  ℕ, zero, suc, Bool, true, false, Option, none, some, ◌==◌, ltb, ◌&&◌, ◌<◌, ◌≡◌, if◌then◌else◌,
}

-- What the daemon keeps for the namespace: the changes counted, and the count that the thread waits
-- with while there is one. Beside it stand the version of the rules in CONFIG_DB, the one that
-- update_control_plane_acls was last run with, whatever became of its commands, and the number of changes whose notification is still to be read.
pub record Updates : Type 0 where
  pub num_changes : ℕ
  pub update_thread : Option ℕ
  pub has_exception : Bool
  pub configured : ℕ
  pub applied : ℕ
  pub unread : ℕ

-- After the update at the start.
abbrev pub started : ℕ → Updates
started version = record {
  num_changes = 0;
  update_thread = none;
  has_exception = false;
  configured = version;
  applied = version;
  unread = 0;
}

-- CONFIG_DB gets a change of the control plane rules.
abbrev pub change : Updates → Updates
change s = record {
  num_changes = s.num_changes;
  update_thread = s.update_thread;
  has_exception = s.has_exception;
  configured = suc s.configured;
  applied = s.applied;
  unread = suc s.unread;
}

abbrev pub spawned : Option ℕ → ℕ → Option ℕ
spawned none num_changes = some num_changes
spawned (some waits_with) num_changes = some waits_with

-- A round of the main loop that reads notifications of the namespace and leaves `unread`.
abbrev pub notify : ℕ → Updates → Updates
notify unread s = record {
  num_changes = suc s.num_changes;
  update_thread = spawned s.update_thread (suc s.num_changes);
  has_exception = s.has_exception;
  configured = s.configured;
  applied = s.applied;
  unread = unread;
}

abbrev pub keep_waiting : Updates → Updates
keep_waiting s = record {
  num_changes = s.num_changes;
  update_thread = some s.num_changes;
  has_exception = s.has_exception;
  configured = s.configured;
  applied = s.applied;
  unread = s.unread;
}

-- The thread ends, with the version of the last update.
abbrev pub finish : ℕ → Bool → Updates → Updates
finish applied has_exception s = record {
  num_changes = 0;
  update_thread = none;
  has_exception = has_exception;
  configured = s.configured;
  applied = applied;
  unread = s.unread;
}

-- The thread wakes with the count it waits with; update_control_plane_acls reads what CONFIG_DB
-- has then and runs the commands for it. A command that fails is only logged, and one that prints
-- something ends the list: neither raises, so both count as a run.
unfoldable pub awake : ℕ → Updates → Updates
awake waits_with s =
    if ltb waits_with s.num_changes
    then keep_waiting s
    else if waits_with == s.num_changes && ltb 0 waits_with
    then finish s.configured s.has_exception s
    else finish s.applied s.has_exception s

unfoldable pub wake : Option ℕ → Updates → Updates
wake none s = s
wake (some waits_with) s = awake waits_with s

-- An exception of the thread, which may have run an update by then.
abbrev pub raise : ℕ → Updates → Updates
raise applied s = finish applied true s

pub data Step : Updates → Updates → Type 0 where
  changes : {s : Updates} → Step s (change s)
  notified : {s : Updates} (unread : ℕ) → unread < s.unread → Step s (notify unread s)
  wakes : {s : Updates} → Step s (wake s.update_thread s)
  raises : {s : Updates} (applied : ℕ) → Step s (raise applied s)

pub data Reachable (version : ℕ) : Updates → Type 0 where
  starts : Reachable version (started version)
  steps : {s t : Updates} → Reachable version s → Step s t → Reachable version t
