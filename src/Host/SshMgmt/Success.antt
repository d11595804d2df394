-- ===== src/Host/SshMgmt/Success.antt =====
-- What a success of `set` means.
use sonic_host_services.Base.{
  false, Option, none, some, List, [], ◌∷◌, ◌++◌, String, str_eq, ◌≡◌, refl, ◌∙◌, arith, ◌==◌,
  if◌then◌else◌,
}
use sonic_host_services.Base.Text.{Text}
use sonic_host_services.Host.Files.{Files, content, write}
use sonic_host_services.Host.Files.Laws.{content-write}
use sonic_host_services.Host.SshMgmt.{
  or_code, Place, ca_place, keys_place, users_place, ca_temp, keys_temp, users_temp, Ssh, Reply,
  Copies, copy_file, copy_each, copy_files, Request, ssh_ca_public_key, ssh_account_keys,
  ssh_account_users, invalid_key, content_of, set_file, set_request, copies_or, set_requests,
  or_raised, set, set_credentials, copies,
}
use sonic_host_services.Host.SshMgmt.Lines.{key_lines, account_lines}
use sonic_host_services.Host.SshMgmt.Contents.{Apart, copy_file-some, copy_file-other, or_code-zero}
use sonic_host_services.Host.SshMgmt.Restore.{Credential, ca, keys, users, place_of}
use sonic_host_services.Host.SshMgmt.Requests.{text_for}

copies-zero :
    (src : String) (dest : Place) (text : Text) (fs : Files Text)
    → str_eq dest.temp dest.path ≡ false
    → Apart src dest
    → content src fs ≡ some text
    → (copy_files (src ∷ src ∷ []) (dest ∷ dest ∷ []) fs).1.0 ≡ 0
    → content dest.path (copy_files (src ∷ src ∷ []) (dest ∷ dest ∷ []) fs).0 ≡ some text
unfolding copy_files copy_each
copies-zero src dest text fs t (p, q) found ok =
    let fs1 = (copy_file src dest fs).0 in
    let (first, second) =
      or_code-zero (copy_file src dest fs).1.0 (or_code (copy_file src dest fs1).1.0 0) ok in
    copy_file-some src dest text fs1 t (copy_file-other src dest src fs p q ∙ found)
      (or_code-zero (copy_file src dest fs1).1.0 0 second).0

set_file-zero :
    (temp : String) (dest : Place) (text : Text) (done : Copies) (fs : Files Text)
    → str_eq dest.temp dest.path ≡ false
    → Apart temp dest
    → (set_file temp dest text fs).1 ≡ some done
    → done.0 ≡ 0
    → content dest.path (set_file temp dest text fs).0 ≡ some text
unfolding set_file
set_file-zero temp dest text done fs t apart ok zero_ =
    let fs1 = (write temp text fs).0 in
    ground (arith, content-write temp text fs, copies-zero temp dest text fs1 t apart)

set_request-zero :
    (k : Credential) (r : Request) (text : Text) (done next : Copies) (fs : Files Text)
    → text_for k r ≡ some text
    → (set_request r done fs).1 ≡ some next
    → next.0 ≡ 0
    → content (place_of k).path (set_request r done fs).0 ≡ some text
set_request-zero ca (ssh_ca_public_key lines) text done next fs e q z =
    set_file-zero ca_temp ca_place (key_lines lines) next fs refl (refl, refl) q z ∙ e
set_request-zero keys (ssh_account_keys accounts) text done next fs e q z =
    set_file-zero keys_temp keys_place (account_lines accounts) next fs refl (refl, refl) q z ∙ e
set_request-zero users (ssh_account_users accounts) text done next fs e q z =
    set_file-zero users_temp users_place (account_lines accounts) next fs refl (refl, refl) q z ∙ e
set_request-zero ca (ssh_account_keys accounts) text done next fs e q z = cc
set_request-zero ca (ssh_account_users accounts) text done next fs e q z = cc
set_request-zero ca invalid_key text done next fs e q z = cc
set_request-zero keys (ssh_ca_public_key lines) text done next fs e q z = cc
set_request-zero keys (ssh_account_users accounts) text done next fs e q z = cc
set_request-zero keys invalid_key text done next fs e q z = cc
set_request-zero users (ssh_ca_public_key lines) text done next fs e q z = cc
set_request-zero users (ssh_account_keys accounts) text done next fs e q z = cc
set_request-zero users invalid_key text done next fs e q z = cc

abbrev reply_of : Copies → Reply
reply_of (code, ms) = some (if code == 0 then (0, set_credentials) else (code, copies ms))

zero_reply : (done : Copies) → reply_of done ≡ some (0, set_credentials) → done.0 ≡ 0
zero_reply done ok = ground arith

last_of :
    (next : Option Copies) (fs : Files Text) (done : Copies) (j : String) (text : Text)
    → (or_raised next fs (set_requests [] (copies_or done next) fs)).1 ≡ some (0, set_credentials)
    → ((c : Copies) → next ≡ some c → c.0 ≡ 0 → content j fs ≡ some text)
    → content j (or_raised next fs (set_requests [] (copies_or done next) fs)).0 ≡ some text
unfolding set_requests
last_of none fs done j text ok found = cc
last_of (some c) fs done j text ok found = found c refl (zero_reply c ok)

-- The last request of a call, once it did not raise.
last-zero :
    (k : Credential) (r : Request) (text : Text) (done : Copies) (fs : Files Text)
    → text_for k r ≡ some text
    → (set_requests (r ∷ []) done fs).1 ≡ some (0, set_credentials)
    → content (place_of k).path (set_requests (r ∷ []) done fs).0 ≡ some text
unfolding set_requests
last-zero k r text done fs e ok =
    last_of (set_request r done fs).1 (set_request r done fs).0 done (place_of k).path text ok
      (λ next q z. set_request-zero k r text done next fs e q z)

not_raised :
    (next : Option Copies) (fs : Files Text) (rest : Files Text × Reply) (j : String) (text : Text)
    → (or_raised next fs rest).1 ≡ some (0, set_credentials)
    → (rest.1 ≡ some (0, set_credentials) → content j rest.0 ≡ some text)
    → content j (or_raised next fs rest).0 ≡ some text
not_raised none fs rest j text ok found = cc
not_raised (some done) fs rest j text ok found = found ok

set_requests-last :
    (k : Credential) (rs : List Request) (r : Request) (text : Text) (done : Copies)
    (fs : Files Text)
    → text_for k r ≡ some text
    → (set_requests (rs ++ r ∷ []) done fs).1 ≡ some (0, set_credentials)
    → content (place_of k).path (set_requests (rs ++ r ∷ []) done fs).0 ≡ some text
unfolding set_requests
set_requests-last k [] r text done fs e ok = last-zero k r text done fs e ok
set_requests-last k (r' ∷ rs) r text done fs e ok =
    let (fs1, next) = set_request r' done fs in
    let rest = set_requests (rs ++ r ∷ []) (copies_or done next) fs1 in
    not_raised next fs1 rest (place_of k).path text ok
      (set_requests-last k rs r text (copies_or done next) fs1 e)

-- When a call of `set` replies with success, its last request, if it is for a credential file, is
-- written whole to that file.
pub set-last :
    (k : Credential) (rs : List Request) (r : Request) (text : Text) (s : Ssh)
    → text_for k r ≡ some text
    → (set (content_of (rs ++ r ∷ [])) s).1 ≡ some (0, set_credentials)
    → content (place_of k).path (set (content_of (rs ++ r ∷ [])) s).0.files ≡ some text
unfolding set
set-last k rs r text s e ok = ground (arith, set_requests-last k rs r text (0, []) s.files e)
