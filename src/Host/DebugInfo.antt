-- ===== src/Host/DebugInfo.antt =====
-- host_modules/debug_info.py: collects debug artifacts of the host in an archive.
pub mod Redirect
pub mod Commands
pub mod Frozen
pub mod Archives
use sonic_host_services.Base.{
  ℕ, Bool, true, false, not, ◌||◌, ◌&&◌, ◌+◌, ◌*◌, ◌^◌, Option, none, some, List, [], ◌∷◌, ◌++◌,
  map, ltb, ◌==◌, length, drop, if◌then◌else◌,
}
use sonic_host_services.Base.Text.{Text, codes, startswith, text_eq, occurs}
use sonic_host_services.Host.DebugInfo.Commands.{
  artifact_dir, join, counter_cmds, common_cmds, db_cmds, tar_cmd, removeprefix,
}
use sonic_host_services.Host.DebugInfo.Redirect.{Invocation, Output, invocation}

-- What the collector does to the host.
pub data Action : Type 0 where
  make_dirs remove_tree teamdctl : Text → Action
  copy_tree : Text → Text → Action
  invoke : Invocation → Action

-- The fields of the collector; the actions done, the last one first; the flag in /tmp; the files of the persistent directory; and
-- the archives in ARTIFACT_DIR, with their full paths.
pub record Host : Type 0 where
  pub hostname : Text
  pub board_type : Text
  pub log : List Action
  pub nonvolatile_saved : Bool
  pub saved : List Text
  pub archives : List Text

-- The result of the query for DEVICE_METADATA: its fields may be missing.
pub data Metadata : Type 0 where
  query_raised no_metadata : Metadata
  fields : Option Text → Option Text → Metadata

-- How the host answers after the actions before. `makes` is whether directories are made, `runs` the
-- code that a command returns, `none` if an exception comes, `is_there` whether a path exists,
-- `now` the time as it is formatted, `free` what disk_usage gives, `remains` what rmtree leaves of the
-- persistent directory, ignoring errors, `removes_outside` what os.remove of a path that leads out of
-- the directory leaves, and whether it returns.
pub record Env : Type 0 where
  pub makes : List Action → Text → Bool
  pub runs : List Action → Invocation → Option ℕ
  pub is_there : List Action → Text → Bool
  pub now : List Action → Text
  pub portchannels : List Action → Option (List Text)
  pub teamdctl_raises : List Action → Text → Bool
  pub remains : List Action → List Text → List Text
  pub metadata : List Action → Metadata
  pub creates_flag : List Action → Bool
  pub getsize : List Action → Text → Option ℕ
  pub free : List Action → ℕ
  pub makes_nonvolatile : List Action → Bool
  pub copies_artifact : List Action → Text → Bool
  pub removes : List Action → Text → Bool
  pub removes_outside : Text → Host → Host × Bool

pub data Level : Type 0 where
  alert critical all other_level : Level

-- What json.loads gives: the level, alert if it is missing, and whether persistent storage is asked
-- for.
pub record Request : Type 0 where
  pub log_level : Level
  pub use_persistent_storage : Bool

-- NONVOLATILE_STORAGE_REQUIRED
abbrev pub nonvolatile_storage_required : ℕ
nonvolatile_storage_required = 5 * 10 ^ 8

abbrev pub acts : Action → Host → Host
acts a h = record h { log = a ∷ h.log }

abbrev pub is_detailed : Level → Bool
is_detailed critical = true
is_detailed all = true
is_detailed _ = false

-- An exception of a command whose output goes to a file is its code 1.
abbrev pub command_code : Option ℕ → Option Output → Option ℕ
command_code (some rc) output = some rc
command_code none (some output) = some 1
command_code none none = none

abbrev pub has_returned : Option ℕ → Bool
has_returned none = false
has_returned (some rc) = true

-- The replies without the texts of errors.
pub data Answer : Type 0 where
  artifact : Text → Answer
  invalid_input no_directory command_failed collection_failed : Answer
  artifact_ready not_found not_deleted deleted : Answer

-- `b in s`, of a list of paths, and the list without it.
unfoldable pub contains : Text → List Text → Bool
contains path [] = false
contains path (p ∷ paths) = text_eq p path || contains path paths

unfoldable pub without : Text → List Text → List Text
without path [] = []
without path (p ∷ paths) =
    let rest = without path paths in if text_eq p path then rest else p ∷ rest

-- A path with a parent directory in it, which may name any file of the host.
abbrev pub leads_out : Text → Bool
leads_out path = occurs (codes "/../") path

module _ (env : Env) where
  -- The second part is the code, none if the command raises.
  unfoldable pub run_command : Text → Host → Host × Option ℕ
  run_command cmd h =
      let i = invocation cmd in (acts (invoke i) h, command_code (env.runs h.log i) i.output)

  -- The commands one after the other, whatever they return; false if one raises.
  unfoldable pub run_commands : List Text → Host → Host × Bool
  run_commands [] h = (h, true)
  run_commands (cmd ∷ cmds) h =
      let (h1, rc) = run_command cmd h in
      let rest = run_commands cmds h1 in if has_returned rc then rest else (h1, false)

  -- The name of the directory has the time in it. A directory that cannot be made raises.
  unfoldable pub collect_counter_artifacts : Text → Text → Host → Host × Bool
  collect_counter_artifacts directory prefix h =
      let dir = join directory (prefix ++ codes "counter_" ++ env.now h.log) in
      let h1 = acts (make_dirs dir) h in
      let run_all = run_commands (counter_cmds dir) h1 in
      if env.makes h.log dir then run_all else (h1, false)

  -- Stops at the first exception, which is caught.
  unfoldable pub teamdctl_each : List Text → Host → Host
  teamdctl_each [] h = h
  teamdctl_each (trk ∷ trks) h =
      let h1 = acts (teamdctl trk) h in
      let rest = teamdctl_each trks h1 in if env.teamdctl_raises h.log trk then h1 else rest

  abbrev pub teamdctl_all : Option (List Text) → Host → Host
  teamdctl_all none h = h
  teamdctl_all (some trks) h = teamdctl_each trks h

  unfoldable pub collect_teamdctl_data : Host → Host
  collect_teamdctl_data h = teamdctl_all (env.portchannels h.log) h

  -- Exceptions of the copy are caught.
  unfoldable pub copy_host_files : Text → Text → Host → Host
  copy_host_files src dst h =
      let h1 = if env.is_there h.log dst then acts (remove_tree dst) h else h in
      if env.is_there h.log src then acts (copy_tree src dst) h1 else h

  abbrev pub collect_host_files : Text → Host → Host
  collect_host_files artifact_dir_host h =
      copy_host_files (codes "/var/core") (join artifact_dir_host (codes "core"))
        (copy_host_files (codes "/var/log") (join artifact_dir_host (codes "var_log")) h)

  -- The copy of an archive to persistent storage, once there is space.
  abbrev pub copy_artifact : Text → Host → Host
  copy_artifact artifact_name h =
      if env.copies_artifact h.log artifact_name
      then record h { saved = artifact_name ∷ h.saved }
      else h

  abbrev pub save_sized : Text → Option ℕ → Host → Host × Bool
  save_sized artifact_name none h = (h, true)
  save_sized artifact_name (some artifact_size) h =
      if ltb (env.free h.log) (nonvolatile_storage_required + artifact_size)
      then (h, true)
      else if env.makes_nonvolatile h.log
      then (copy_artifact artifact_name h, true)
      else (h, false)

  -- Whether no exception comes; those of the copy are caught.
  unfoldable pub save_persistent_storage : Text → Host → Host × Bool
  save_persistent_storage artifact_name h =
      let h1 = record h { nonvolatile_saved = true; saved = env.remains h.log h.saved } in
      let saving =
        save_sized artifact_name (env.getsize h.log (join artifact_dir artifact_name)) h1 in
      if h.nonvolatile_saved
      then (h, true)
      else if env.creates_flag h.log
      then saving
      else (h, true)

  -- A part of the collection for detailed levels.
  abbrev pub if_detailed : Level → (Host × Bool) → Host → Host × Bool
  if_detailed level part h = if is_detailed level then part else (h, true)

  abbrev pub collect_db_artifacts : Text → Host → Host × Bool
  collect_db_artifacts dir h =
      let h1 = acts (make_dirs dir) h in
      let run_all = run_commands (db_cmds dir) h1 in
      if env.makes h.log dir then run_all else (h1, false)

  abbrev pub and_then : Host × Bool → (Host → Host × Bool) → Host × Bool
  and_then (h, true) next = next h
  and_then (h, false) next = (h, false)

  -- After the common commands; the error of making the directory of cores is caught.
  abbrev pub after_commands : Level → Text → Host → Host × Bool
  after_commands level host_dir h2 =
      let h3 = collect_teamdctl_data (acts (make_dirs (join host_dir (codes "core"))) h2) in
      and_then (if_detailed level (collect_db_artifacts (join host_dir (codes "db")) h3) h3)
        λ h4. if_detailed level (collect_counter_artifacts host_dir (codes "post_") h4) h4

  -- From the first counters to the last ones; false if an exception comes.
  unfoldable pub gather : Level → Text → Host → Host × Bool
  gather level host_dir h =
      and_then (if_detailed level (collect_counter_artifacts host_dir (codes "pre_") h) h) λ h1.
        and_then (run_commands (common_cmds host_dir) (collect_host_files host_dir h1))
          (after_commands level host_dir)

  abbrev pub or_failed : Bool → Host → ℕ × Answer → Host × Option (ℕ × Answer)
  or_failed true h reply = (h, some reply)
  or_failed false h reply = (h, none)

  -- The archive is there if tar succeeded.
  abbrev pub archived : Option ℕ → Bool → Text → Host → Host × Option (ℕ × Answer)
  archived none persistent dir_name h = (h, none)
  archived (some rc) persistent dir_name h =
      let artifact_name = dir_name ++ codes ".tar.gz" in
      let path = join artifact_dir artifact_name in
      let h1 = acts (remove_tree (join artifact_dir dir_name)) h in
      let h2 = record h1 { archives = path ∷ h.archives } in
      let (h3, saves) = save_persistent_storage artifact_name h2 in
      if rc == 0
      then (if persistent
          then or_failed saves h3 (0, artifact path)
          else (h2, some (0, artifact path)))
      else (h1, some (rc, command_failed))

  abbrev pub archive : Request → Text → Host × Bool → Host × Option (ℕ × Answer)
  archive request dir_name (h, false) = (h, none)
  archive request dir_name (h, true) =
      let (h1, rc) = run_command (tar_cmd dir_name) h in
      archived rc request.use_persistent_storage dir_name h1

  -- A reply, or none if an exception comes.
  unfoldable pub collect_artifacts : Request → Text → Host → Host × Option (ℕ × Answer)
  collect_artifacts request timestamp h =
      let dir_name = h.hostname ++ codes "_" ++ timestamp in
      let host_dir = join (join artifact_dir dir_name) (codes "host") in
      let h1 = acts (make_dirs host_dir) h in
      let rest = archive request dir_name (gather request.log_level host_dir h1) in
      if env.makes h.log host_dir then rest else (h1, some (1, no_directory))

  abbrev pub field_or : Text → Option Text → Text
  field_or default none = default
  field_or default (some text) = text

  abbrev pub with_metadata : Metadata → Host → Host
  with_metadata (fields hostname platform) h = record h {
    hostname = field_or (codes "switch") hostname;
    board_type = field_or [] platform;
  }
  with_metadata _ h = record h { hostname = codes "switch"; board_type = [] }

  unfoldable pub refresh : Host → Host
  refresh h =
      if text_eq h.board_type [] || text_eq h.hostname (codes "switch")
      then with_metadata (env.metadata h.log) h
      else h

  abbrev pub reply_or_failed : Host × Option (ℕ × Answer) → Host × (ℕ × Answer)
  reply_or_failed (h, none) = (h, (1, collection_failed))
  reply_or_failed (h, some reply) = (h, reply)

  -- `collect` with what json.loads gives, and the time.
  unfoldable pub collect : Option Request → Text → Host → Host × (ℕ × Answer)
  collect none timestamp h = (h, (1, invalid_input))
  collect (some request) timestamp h =
      reply_or_failed (collect_artifacts request timestamp (refresh h))

  unfoldable pub ack : Text → Host → Host × (ℕ × Answer)
  ack option h =
      let path = artifact_dir ++ removeprefix option artifact_dir in
      let (outside, removed) = env.removes_outside path h in
      if contains path h.archives
      then if env.removes h.log path
        then (record h { archives = without path h.archives }, (0, deleted))
        else (h, (1, not_deleted))
      else if leads_out path
      then (outside, if removed then (0, deleted) else (1, not_deleted))
      else (h, (1, not_found))

-- `check` always has this reply.
abbrev pub check : ℕ × Answer
check = (0, artifact_ready)
