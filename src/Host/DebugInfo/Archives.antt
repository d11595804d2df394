-- ===== src/Host/DebugInfo/Archives.antt =====
-- The archive of a collection that succeeded, and its removal.
use sonic_host_services.Base.{
  ℕ, Bool, true, false, Option, none, some, List, [], ◌∷◌, ◌++◌, ◌≡◌, refl, ap, sym, subst, arith,
}
use sonic_host_services.Base.Text.{Text, codes, startswith, text_eq}
use sonic_host_services.Host.DebugInfo.Commands.{artifact_dir, join, tar_cmd, removeprefix}
use sonic_host_services.Host.DebugInfo.{
  Host, Env, Request, Answer, artifact, deleted, contains, without, archived, archive, run_command,
  save_persistent_storage, save_sized, collect_artifacts, gather, refresh, reply_or_failed, collect,
  ack, acts, make_dirs, remove_tree,
}

-- A path in ARTIFACT_DIR that is there.
pub record Archived (path : Text) (h : Host) : Type 0 where
  pub name : Text
  pub in_dir : path ≡ artifact_dir ++ name
  pub is_there : contains path h.archives ≡ true

text_eq_refl : (t : Text) → text_eq t t ≡ true
unfolding text_eq
text_eq_refl [] = refl
text_eq_refl (c ∷ t) = ground (arith, text_eq_refl t)

contains-first : (path : Text) (paths : List Text) → contains path (path ∷ paths) ≡ true
unfolding contains
contains-first path paths = ground (arith, text_eq_refl path)

contains-without : (path : Text) (paths : List Text) → contains path (without path paths) ≡ false
unfolding contains without
contains-without path [] = refl
contains-without path (p ∷ paths) = ground (arith, contains-without path paths)

-- The prefix that is removed is put back.
removeprefix-append : (name : Text) → removeprefix (artifact_dir ++ name) artifact_dir ≡ name
unfolding startswith
removeprefix-append name = refl

module _ (env : Env) where
  save_sized-archives :
      (name : Text) (size : Option ℕ) (h : Host)
      → (save_sized env name size h).0.archives ≡ h.archives
  save_sized-archives name none h = refl
  save_sized-archives name (some size) h = ground arith

  save_persistent_storage-archives :
      (name : Text) (h : Host) → (save_persistent_storage env name h).0.archives ≡ h.archives
  unfolding save_persistent_storage
  save_persistent_storage-archives name h =
      let h1 = record h { nonvolatile_saved = true; saved = env.remains h.log h.saved } in
      ground (arith, save_sized-archives name (env.getsize h.log (join artifact_dir name)) h1)

  first_Archived :
      (name path : Text) (paths : List Text) (h : Host)
      → artifact_dir ++ name ≡ path
      → h.archives ≡ (artifact_dir ++ name) ∷ paths
      → Archived path h
  first_Archived name path paths h e q = record {
    name = name;
    in_dir = sym e;
    is_there =
        subst (λ as_. contains path as_ ≡ true) (sym q)
          (subst (λ p. contains p ((artifact_dir ++ name) ∷ paths) ≡ true) e
            (contains-first (artifact_dir ++ name) paths));
  }

  archived-Archived :
      (rc : Option ℕ) (persistent : Bool) (dir_name path : Text) (h : Host)
      → (archived env rc persistent dir_name h).1 ≡ some (0, artifact path)
      → Archived path (archived env rc persistent dir_name h).0
  archived-Archived none persistent dir_name path h e = cc
  archived-Archived (some rc) persistent dir_name path h e =
      let name = codes "/" ++ dir_name ++ codes ".tar.gz" in
      let h1 = acts (remove_tree (join artifact_dir dir_name)) h in
      let h2 = record h1 { archives = (artifact_dir ++ name) ∷ h.archives } in
      let same : artifact_dir ++ name ≡ path = ground arith in
      first_Archived name path h.archives (archived env (some rc) persistent dir_name h).0 same
        (ground (arith, save_persistent_storage-archives (dir_name ++ codes ".tar.gz") h2))

  archive-Archived :
      (request : Request) (dir_name path : Text) (r : Host × Bool)
      → (archive env request dir_name r).1 ≡ some (0, artifact path)
      → Archived path (archive env request dir_name r).0
  archive-Archived request dir_name path (h, false) e = cc
  archive-Archived request dir_name path (h, true) e =
      let (h1, rc) = run_command env (tar_cmd dir_name) h in
      archived-Archived rc request.use_persistent_storage dir_name path h1 e

  collect_artifacts-Archived :
      (request : Request) (timestamp path : Text) (h : Host)
      → (collect_artifacts env request timestamp h).1 ≡ some (0, artifact path)
      → Archived path (collect_artifacts env request timestamp h).0
  unfolding collect_artifacts
  collect_artifacts-Archived request timestamp path h e =
      let dir_name = h.hostname ++ codes "_" ++ timestamp in
      let host_dir = join (join artifact_dir dir_name) (codes "host") in
      let r = gather env request.log_level host_dir (acts (make_dirs host_dir) h) in
      ground (arith, archive-Archived request dir_name path r)

  replied-Archived :
      (r : Host × Option (ℕ × Answer)) (path : Text)
      → (r.1 ≡ some (0, artifact path) → Archived path r.0)
      → (reply_or_failed env r).1 ≡ (0, artifact path)
      → Archived path (reply_or_failed env r).0
  replied-Archived (h, none) path found e = cc
  replied-Archived (h, some reply) path found e = found (ap some e)

  collect-Archived :
      (request : Option Request) (timestamp path : Text) (h : Host)
      → (collect env request timestamp h).1 ≡ (0, artifact path)
      → Archived path (collect env request timestamp h).0
  unfolding collect
  collect-Archived none timestamp path h e = cc
  collect-Archived (some request) timestamp path h e =
      replied-Archived (collect_artifacts env request timestamp (refresh env h)) path
        (collect_artifacts-Archived request timestamp path (refresh env h)) e

  ack-Archived :
      (path : Text) (h : Host)
      → Archived path h
      → env.removes h.log path ≡ true
      → ((ack env path h).1 ≡ (0, deleted)) × (contains path (ack env path h).0.archives ≡ false)
  unfolding ack
  ack-Archived path h a ok =
      let same : artifact_dir ++ removeprefix path artifact_dir ≡ path =
        subst (λ p. artifact_dir ++ removeprefix p artifact_dir ≡ p) (sym a.in_dir)
          (ap (λ n. artifact_dir ++ n) (removeprefix-append a.name)) in
      ground (arith, same, a.is_there, contains-without path h.archives)

-- An acknowledgement of the path that a successful collection replied with deletes that archive,
-- which is then no longer there, if the system removes it.
pub collect-ack :
    (env : Env) (request : Option Request) (timestamp path : Text) (h : Host)
    → (collect env request timestamp h).1 ≡ (0, artifact path)
    → env.removes (collect env request timestamp h).0.log path ≡ true
    → ((ack env path (collect env request timestamp h).0).1 ≡ (0, deleted))
      × (contains path (ack env path (collect env request timestamp h).0).0.archives ≡ false)
collect-ack env request timestamp path h e ok =
    ack-Archived env path (collect env request timestamp h).0
      (collect-Archived env request timestamp path h e) ok
