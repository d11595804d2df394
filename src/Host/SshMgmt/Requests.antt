-- ===== src/Host/SshMgmt/Requests.antt =====
-- What the requests write to the files, and the restoration after them.
use sonic_host_services.Base.{
  false, Option, none, some, List, [], ◌∷◌, String, str_eq, ◌≡◌, refl, ◌∙◌, arith,
}
use sonic_host_services.Base.Text.{Text}
use sonic_host_services.Host.Files.{Files, content, write}
use sonic_host_services.Host.Files.Laws.{content-write_other}
use sonic_host_services.Host.SshMgmt.{
  Place, ca_place, keys_place, users_place, ca_temp, keys_temp, users_temp, Ssh, Reply, Copies,
  copy_files, create_checkpoint, created_checkpoint, restore_checkpoint, restored_checkpoint,
  Request, ssh_ca_public_key, ssh_account_keys, ssh_account_users, invalid_key, Options, not_json,
  content_of, set_file, set_request, copies_or, set_requests, or_raised, set,
}
use sonic_host_services.Host.SshMgmt.Lines.{key_lines, account_lines}
use sonic_host_services.Host.SshMgmt.Contents.{Apart, copy_each-other}
use sonic_host_services.Host.SshMgmt.Restore.{
  Credential, ca, keys, users, place_of, checkpoint_of, create_checkpoint-content,
  restore_checkpoint-content,
}

-- Whether a request is for the file of a credential, and what it writes.
abbrev pub text_for : Credential → Request → Option Text
text_for ca (ssh_ca_public_key lines) = some (key_lines lines)
text_for keys (ssh_account_keys accounts) = some (account_lines accounts)
text_for users (ssh_account_users accounts) = some (account_lines accounts)
text_for _ _ = none

-- A path that no request writes to.
pub record Untouched (j : String) : Type 0 where
  pub ca_apart : Apart j ca_place
  pub keys_apart : Apart j keys_place
  pub users_apart : Apart j users_place
  pub not_ca_temp : str_eq ca_temp j ≡ false
  pub not_keys_temp : str_eq keys_temp j ≡ false
  pub not_users_temp : str_eq users_temp j ≡ false

checkpoint-Untouched : (k : Credential) → Untouched (checkpoint_of k).path
checkpoint-Untouched ca = record {
  ca_apart = (refl, refl);
  keys_apart = (refl, refl);
  users_apart = (refl, refl);
  not_ca_temp = refl;
  not_keys_temp = refl;
  not_users_temp = refl;
}
checkpoint-Untouched keys = record {
  ca_apart = (refl, refl);
  keys_apart = (refl, refl);
  users_apart = (refl, refl);
  not_ca_temp = refl;
  not_keys_temp = refl;
  not_users_temp = refl;
}
checkpoint-Untouched users = record {
  ca_apart = (refl, refl);
  keys_apart = (refl, refl);
  users_apart = (refl, refl);
  not_ca_temp = refl;
  not_keys_temp = refl;
  not_users_temp = refl;
}

pub set_file-other :
    (temp : String) (dest : Place) (text : Text) (j : String) (fs : Files Text)
    → str_eq temp j ≡ false
    → Apart j dest
    → content j (set_file temp dest text fs).0 ≡ content j fs
unfolding set_file copy_files
set_file-other temp dest text j fs t apart =
    let fs1 = (write temp text fs).0 in
    ground (
      arith,
      content-write_other temp j text fs t,
      copy_each-other j (temp ∷ temp ∷ []) (dest ∷ dest ∷ []) fs1 (apart, (apart, tt)),
    )

raised_or :
    (j : String) (next : Option Copies) (fs : Files Text) (rest : Files Text × Reply)
    (o : Option Text)
    → content j fs ≡ o
    → content j rest.0 ≡ o
    → content j (or_raised next fs rest).0 ≡ o
raised_or j none fs rest o p q = p
raised_or j (some done) fs rest o p q = q

set_request-other :
    (r : Request) (done : Copies) (j : String) (fs : Files Text)
    → Untouched j
    → content j (set_request r done fs).0 ≡ content j fs
set_request-other (ssh_ca_public_key lines) done j fs u =
    set_file-other ca_temp ca_place (key_lines lines) j fs u.not_ca_temp u.ca_apart
set_request-other (ssh_account_keys accounts) done j fs u =
    set_file-other keys_temp keys_place (account_lines accounts) j fs u.not_keys_temp u.keys_apart
set_request-other (ssh_account_users accounts) done j fs u =
    set_file-other users_temp users_place (account_lines accounts) j fs u.not_users_temp
      u.users_apart
set_request-other invalid_key done j fs u = refl

set_requests-other :
    (rs : List Request) (done : Copies) (j : String) (fs : Files Text)
    → Untouched j
    → content j (set_requests rs done fs).0 ≡ content j fs
unfolding set_requests
set_requests-other [] done j fs u = refl
set_requests-other (r ∷ rs) done j fs u =
    let (fs1, next) = set_request r done fs in
    raised_or j next fs1 (set_requests rs (copies_or done next) fs1) (content j fs)
      (set_request-other r done j fs u)
      (set_requests-other rs (copies_or done next) j fs1 u ∙ set_request-other r done j fs u)

set-other :
    (options : Options) (j : String) (s : Ssh)
    → Untouched j
    → content j (set options s).0.files ≡ content j s.files
unfolding set
set-other not_json j s u = ground arith
set-other (content_of rs) j s u = ground (arith, set_requests-other rs (0, []) j s.files u)

-- The credentials after some requests.
unfoldable pub set_all : List Options → Ssh → Ssh
set_all [] s = s
set_all (options ∷ rest) s = set_all rest (set options s).0

set_all-other :
    (requests : List Options) (j : String) (s : Ssh)
    → Untouched j
    → content j (set_all requests s).files ≡ content j s.files
unfolding set_all
set_all-other [] j s u = refl
set_all-other (options ∷ rest) j s u =
    set_all-other rest j (set options s).0 u ∙ set-other options j s u

-- After a created checkpoint and any requests, whatever calls failed in them, a restore that
-- replies with success gives every credential file that existed at the checkpoint its content back.
pub restore_checkpoint-set :
    (k : Credential) (c : Text) (requests : List Options) (s : Ssh)
    → content (place_of k).path s.files ≡ some c
    → (create_checkpoint s).1 ≡ some (0, created_checkpoint)
    → (restore_checkpoint (set_all requests (create_checkpoint s).0)).1
      ≡ some (0, restored_checkpoint)
    → content
        (place_of k).path
        (restore_checkpoint (set_all requests (create_checkpoint s).0)).0.files
      ≡ some c
restore_checkpoint-set k c requests s found created restored =
    let s1 = (create_checkpoint s).0 in
    restore_checkpoint-content k c (set_all requests s1)
      (set_all-other requests (checkpoint_of k).path s1 (checkpoint-Untouched k)
        ∙ create_checkpoint-content k c s found created)
      restored
