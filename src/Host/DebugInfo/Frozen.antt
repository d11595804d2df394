-- ===== src/Host/DebugInfo/Frozen.antt =====
-- What is saved in persistent storage stays, once the flag is set.
use sonic_host_services.Base.{
  All, ℕ, Bool, true, false, Option, none, some, List, [], ◌∷◌, ◌++◌, ◌≡◌, refl, ◌∙◌, arith,
  if◌then◌else◌,
}
use sonic_host_services.Base.Text.{Text, codes}
use sonic_host_services.Host.DebugInfo.Commands.{
  artifact_dir, join, removeprefix, counter_cmds, common_cmds, db_cmds, tar_cmd,
}
use sonic_host_services.Host.DebugInfo.{
  query_raised, no_metadata, fields, with_metadata, after_commands, save_sized, remove_tree,
  Metadata, teamdctl_all, teamdctl, Host, Env, Request, Answer, Level, run_command, run_commands,
  collect_counter_artifacts, teamdctl_each, collect_teamdctl_data, copy_host_files,
  collect_host_files, if_detailed, collect_db_artifacts, and_then, gather, archived, archive,
  save_persistent_storage, collect_artifacts, refresh, reply_or_failed, collect, ack, acts,
  make_dirs, leads_out,
}

-- The persistent storage is as it was.
pub record Frozen (g h : Host) : Type 0 where
  pub nonvolatile_saved : g.nonvolatile_saved ≡ h.nonvolatile_saved
  pub saved : g.saved ≡ h.saved

if_flagged : (b : Bool) (x y : Host × Bool) → b ≡ true → (if b then x else y) ≡ x
if_flagged true x y e = refl
if_flagged false x y e = cc

Frozen-refl : (h : Host) → Frozen h h
Frozen-refl h = ground arith

Frozen-trans : {f g h : Host} → Frozen f g → Frozen g h → Frozen f h
Frozen-trans a b = ground arith

-- The path that an acknowledgement deletes.
abbrev pub acked_path : Text → Text
acked_path option = artifact_dir ++ removeprefix option artifact_dir

module _ (env : Env) where
  run_commands-Frozen : (cmds : List Text) (h : Host) → Frozen (run_commands env cmds h).0 h
  unfolding run_commands run_command
  run_commands-Frozen [] h = ground arith
  run_commands-Frozen (cmd ∷ cmds) h =
      ground (arith, run_commands-Frozen cmds (run_command env cmd h).0)

  collect_counter_artifacts-Frozen :
      (dir prefix : Text) (h : Host) → Frozen (collect_counter_artifacts env dir prefix h).0 h
  unfolding collect_counter_artifacts
  collect_counter_artifacts-Frozen dir prefix h =
      let d = join dir (prefix ++ codes "counter_" ++ env.now h.log) in
      ground (arith, run_commands-Frozen (counter_cmds d) (acts (make_dirs d) h))

  teamdctl_each-Frozen : (trks : List Text) (h : Host) → Frozen (teamdctl_each env trks h) h
  unfolding teamdctl_each
  teamdctl_each-Frozen [] h = ground arith
  teamdctl_each-Frozen (trk ∷ trks) h =
      ground (arith, teamdctl_each-Frozen trks (acts (teamdctl trk) h))

  teamdctl_all-Frozen : (trks : Option (List Text)) (h : Host) → Frozen (teamdctl_all env trks h) h
  teamdctl_all-Frozen none h = ground arith
  teamdctl_all-Frozen (some trks) h = teamdctl_each-Frozen trks h

  collect_teamdctl_data-Frozen : (h : Host) → Frozen (collect_teamdctl_data env h) h
  unfolding collect_teamdctl_data
  collect_teamdctl_data-Frozen h = teamdctl_all-Frozen (env.portchannels h.log) h

  copy_host_files-Frozen : (src dst : Text) (h : Host) → Frozen (copy_host_files env src dst h) h
  unfolding copy_host_files
  copy_host_files-Frozen src dst h = ground arith

  collect_host_files-Frozen : (dir : Text) (h : Host) → Frozen (collect_host_files env dir h) h
  collect_host_files-Frozen dir h =
      let h1 = copy_host_files env (codes "/var/log") (join dir (codes "var_log")) h in
      Frozen-trans (copy_host_files-Frozen (codes "/var/core") (join dir (codes "core")) h1)
        (copy_host_files-Frozen (codes "/var/log") (join dir (codes "var_log")) h)

  collect_db_artifacts-Frozen :
      (dir : Text) (h : Host) → Frozen (collect_db_artifacts env dir h).0 h
  collect_db_artifacts-Frozen dir h =
      ground (arith, run_commands-Frozen (db_cmds dir) (acts (make_dirs dir) h))

  if_detailed-Frozen :
      (level : Level) (part : Host × Bool) (h : Host)
      → Frozen part.0 h
      → Frozen (if_detailed env level part h).0 h
  if_detailed-Frozen level part h f = ground arith

  and_then-Frozen :
      (r : Host × Bool) (next : Host → Host × Bool) (h : Host)
      → Frozen r.0 h
      → ((g : Host) → Frozen (next g).0 g)
      → Frozen (and_then env r next).0 h
  and_then-Frozen (g, true) next h f n = Frozen-trans (n g) f
  and_then-Frozen (g, false) next h f n = f

  run_command-Frozen : (cmd : Text) (h : Host) → Frozen (run_command env cmd h).0 h
  unfolding run_command
  run_command-Frozen cmd h = ground arith

  after_databases-Frozen :
      (level : Level) (dir : Text) (h : Host)
      → Frozen (if_detailed env level (collect_counter_artifacts env dir (codes "post_") h) h).0 h
  after_databases-Frozen level dir h =
      if_detailed-Frozen level (collect_counter_artifacts env dir (codes "post_") h) h
        (collect_counter_artifacts-Frozen dir (codes "post_") h)

  after_commands-Frozen :
      (level : Level) (dir : Text) (h : Host) → Frozen (after_commands env level dir h).0 h
  after_commands-Frozen level dir h =
      let h1 = acts (make_dirs (join dir (codes "core"))) h in
      let h3 = collect_teamdctl_data env h1 in
      let db_dir = join dir (codes "db") in
      let made : Frozen h1 h = ground arith in
      let f3 : Frozen h3 h = Frozen-trans (collect_teamdctl_data-Frozen h1) made in
      and_then-Frozen (if_detailed env level (collect_db_artifacts env db_dir h3) h3)
        (λ h4. if_detailed env level (collect_counter_artifacts env dir (codes "post_") h4) h4) h
        (Frozen-trans
          (if_detailed-Frozen level (collect_db_artifacts env db_dir h3) h3
            (collect_db_artifacts-Frozen db_dir h3))
          f3)
        (after_databases-Frozen level dir)

  gather-Frozen : (level : Level) (dir : Text) (h : Host) → Frozen (gather env level dir h).0 h
  unfolding gather
  gather-Frozen level dir h =
      and_then-Frozen (if_detailed env level (collect_counter_artifacts env dir (codes "pre_") h) h)
        (λ h1.
          and_then env (run_commands env (common_cmds dir) (collect_host_files env dir h1))
            (after_commands env level dir))
        h
        (if_detailed-Frozen level (collect_counter_artifacts env dir (codes "pre_") h) h
          (collect_counter_artifacts-Frozen dir (codes "pre_") h))
        (λ h1.
          and_then-Frozen (run_commands env (common_cmds dir) (collect_host_files env dir h1))
            (after_commands env level dir) h1
            (Frozen-trans (run_commands-Frozen (common_cmds dir) (collect_host_files env dir h1))
              (collect_host_files-Frozen dir h1))
            (after_commands-Frozen level dir))

  save_persistent_storage-flagged :
      (name : Text) (h : Host)
      → h.nonvolatile_saved ≡ true
      → save_persistent_storage env name h ≡ (h, true)
  unfolding save_persistent_storage
  save_persistent_storage-flagged name h e =
      if_flagged h.nonvolatile_saved (h, true)
        (if env.creates_flag h.log
          then save_sized env name (env.getsize h.log (join artifact_dir name))
              (record h { nonvolatile_saved = true; saved = env.remains h.log h.saved })
          else (h, true))
        e

  archived-Frozen :
      (rc : Option ℕ) (persistent : Bool) (dir_name : Text) (h : Host)
      → h.nonvolatile_saved ≡ true
      → Frozen (archived env rc persistent dir_name h).0 h
  archived-Frozen none persistent dir_name h e = ground arith
  archived-Frozen (some rc) persistent dir_name h e =
      let h1 = acts (remove_tree (join artifact_dir dir_name)) h in
      let h2 = record h1 {
        archives = join artifact_dir (dir_name ++ codes ".tar.gz") ∷ h.archives;
      } in
      ground (arith, save_persistent_storage-flagged (dir_name ++ codes ".tar.gz") h2 e)

  archive-Frozen :
      (request : Request) (dir_name : Text) (r : Host × Bool) (h : Host)
      → Frozen r.0 h
      → h.nonvolatile_saved ≡ true
      → Frozen (archive env request dir_name r).0 h
  unfolding run_command
  archive-Frozen request dir_name (g, false) h f e = f
  archive-Frozen request dir_name (g, true) h f e =
      let (g1, rc) = run_command env (tar_cmd dir_name) g in
      Frozen-trans
        (archived-Frozen rc request.use_persistent_storage dir_name g1 (f.nonvolatile_saved ∙ e))
        (Frozen-trans (run_command-Frozen (tar_cmd dir_name) g) f)

  collect_artifacts-Frozen :
      (request : Request) (timestamp : Text) (h : Host)
      → h.nonvolatile_saved ≡ true
      → Frozen (collect_artifacts env request timestamp h).0 h
  unfolding collect_artifacts
  collect_artifacts-Frozen request timestamp h e =
      let dir_name = h.hostname ++ codes "_" ++ timestamp in
      let host_dir = join (join artifact_dir dir_name) (codes "host") in
      let h1 = acts (make_dirs host_dir) h in
      let gathered : Frozen (gather env request.log_level host_dir h1).0 h =
        Frozen-trans (gather-Frozen request.log_level host_dir h1) (ground arith) in
      ground (
        arith,
        archive-Frozen request dir_name (gather env request.log_level host_dir h1) h gathered e,
      )

  with_metadata-Frozen : (m : Metadata) (h : Host) → Frozen (with_metadata env m h) h
  with_metadata-Frozen (fields hostname platform) h = ground arith
  with_metadata-Frozen query_raised h = ground arith
  with_metadata-Frozen no_metadata h = ground arith

  refresh-Frozen : (h : Host) → Frozen (refresh env h) h
  unfolding refresh
  refresh-Frozen h = ground (arith, with_metadata-Frozen (env.metadata h.log) h)

  replied-Frozen :
      (r : Host × Option (ℕ × Answer)) (h : Host)
      → Frozen r.0 h
      → Frozen (reply_or_failed env r).0 h
  replied-Frozen (g, none) h f = f
  replied-Frozen (g, some reply) h f = f

  collect-Frozen :
      (request : Option Request) (timestamp : Text) (h : Host)
      → h.nonvolatile_saved ≡ true
      → Frozen (collect env request timestamp h).0 h
  unfolding collect
  collect-Frozen none timestamp h e = ground arith
  collect-Frozen (some request) timestamp h e =
      let f = refresh-Frozen h in
      replied-Frozen (collect_artifacts env request timestamp (refresh env h)) h (
        Frozen-trans
          (collect_artifacts-Frozen request timestamp (refresh env h) (f.nonvolatile_saved ∙ e)) f)

  ack-Frozen :
      (option : Text) (h : Host)
      → leads_out (acked_path option) ≡ false
      → Frozen (ack env option h).0 h
  unfolding ack
  ack-Frozen option h inside = ground arith

-- A call of the service.
pub data Call : Type 0 where
  collecting : Option Request → Text → Call
  acking : Text → Call

-- An acknowledgement stays in the directory of the archives.
abbrev pub StaysInside : Call → Type 0
StaysInside (collecting request timestamp) = Unit
StaysInside (acking option) = leads_out (acked_path option) ≡ false

unfoldable pub calls : Env → List Call → Host → Host
calls env [] h = h
calls env (collecting request timestamp ∷ rest) h =
    calls env rest (collect env request timestamp h).0
calls env (acking option ∷ rest) h = calls env rest (ack env option h).0

-- Once the flag in /tmp is set, calls do not change it or what is in persistent storage, if no
-- acknowledgement has a path with `..` in it.
pub calls-Frozen :
    (env : Env) (cs : List Call) (h : Host)
    → h.nonvolatile_saved ≡ true
    → All StaysInside cs
    → Frozen (calls env cs h) h
unfolding calls
calls-Frozen env [] h e inside = Frozen-refl h
calls-Frozen env (collecting request timestamp ∷ rest) h e inside =
    let f = collect-Frozen env request timestamp h e in
    Frozen-trans
      (calls-Frozen env rest (collect env request timestamp h).0 (f.nonvolatile_saved ∙ e) inside.1)
      f
calls-Frozen env (acking option ∷ rest) h e inside =
    let f = ack-Frozen env option h inside.0 in
    Frozen-trans (calls-Frozen env rest (ack env option h).0 (f.nonvolatile_saved ∙ e) inside.1) f
