-- ===== src/Host/SshMgmt/Written.antt =====
-- What a request leaves in the files of credentials, whichever call fails.
use sonic_host_services.Base.{
  Bool, true, false, Option, none, some, List, [], ◌∷◌, String, str_eq, ◌≡◌, ◌⊎◌, inl, inr, refl,
  ◌∙◌, subst, arith, ◌==◌, if◌then◌else◌,
}
use sonic_host_services.Base.Text.{Text}
use sonic_host_services.Host.Files.{Files, content, write}
use sonic_host_services.Host.Files.Laws.{content-write, content-write_other}
use sonic_host_services.Host.SshMgmt.{
  set_before_checkpoint, Place, ca_place, keys_place, users_place, ca_temp, keys_temp, users_temp,
  Ssh, Reply, Copies, copy_file, copy_each, copy_files, Request, ssh_ca_public_key,
  ssh_account_keys, ssh_account_users, invalid_key, content_of, set_file, set_request, copies_or,
  set_requests, or_raised, set,
}
use sonic_host_services.Host.SshMgmt.Lines.{key_lines, account_lines}
use sonic_host_services.Host.SshMgmt.Contents.{Apart, copy_file-other, copy_file-at}
use sonic_host_services.Host.SshMgmt.Restore.{Credential, ca, keys, users, place_of}
use sonic_host_services.Host.SshMgmt.Requests.{text_for, set_file-other}

-- The contents that a credential file can have after requests: the old one, or the text that one
-- of them asks for.
pub data Trace (k : Credential) : List Request → Option Text → Option Text → Type 0 where
  ended : {rs : List Request} {o : Option Text} → Trace k rs o o
  passed :
      {r : Request} {rs : List Request} {o p : Option Text} → Trace k rs o p → Trace k (r ∷ rs) o p
  put :
      {r : Request} {rs : List Request} {text : Text} {o p : Option Text}
      → text_for k r ≡ some text
      → Trace k rs (some text) p
      → Trace k (r ∷ rs) o p

-- The old content or the new one.
abbrev OneOf : Option Text → Text → Option Text → Type 0
OneOf old text new = (new ≡ old) ⊎ (new ≡ some text)

either_if :
    (b : Bool) (old x new : Option Text) (text : Text)
    → OneOf old text x
    → new ≡ (if b then some text else x)
    → OneOf old text new
either_if true old x new text one e = inr e
either_if false old x new text (inl p) e = inl (e ∙ p)
either_if false old x new text (inr p) e = inr (e ∙ p)

copy_file-OneOf :
    (src : String) (dest : Place) (text : Text) (old : Option Text) (fs : Files Text)
    → str_eq dest.temp dest.path ≡ false
    → content src fs ≡ some text
    → OneOf old text (content dest.path fs)
    → OneOf old text (content dest.path (copy_file src dest fs).0)
copy_file-OneOf src dest text old fs t found one =
    either_if ((copy_file src dest fs).1.0 == 0) old (content dest.path fs)
      (content dest.path (copy_file src dest fs).0) text one
      (ground (arith, copy_file-at src dest fs t))

copies-OneOf :
    (src : String) (dest : Place) (text : Text) (fs : Files Text)
    → str_eq dest.temp dest.path ≡ false
    → Apart src dest
    → content src fs ≡ some text
    → OneOf
        (content dest.path fs)
        text
        (content dest.path (copy_files (src ∷ src ∷ []) (dest ∷ dest ∷ []) fs).0)
unfolding copy_files copy_each
copies-OneOf src dest text fs t (p, q) found =
    let fs1 = (copy_file src dest fs).0 in
    copy_file-OneOf src dest text (content dest.path fs) fs1 t
      (copy_file-other src dest src fs p q ∙ found)
      (copy_file-OneOf src dest text (content dest.path fs) fs t found (inl refl))

pick_OneOf :
    (b : Bool) (old : Option Text) (text : Text) (j : String) (x y : Files Text × Option Copies)
    → (b ≡ true → OneOf old text (content j x.0))
    → content j y.0 ≡ old
    → OneOf old text (content j (if b then x else y).0)
pick_OneOf true old text j x y one same = one refl
pick_OneOf false old text j x y one same = inl same

set_file-OneOf :
    (temp : String) (dest : Place) (text : Text) (fs : Files Text)
    → str_eq dest.temp dest.path ≡ false
    → Apart temp dest
    → str_eq temp dest.path ≡ false
    → OneOf (content dest.path fs) text (content dest.path (set_file temp dest text fs).0)
unfolding set_file
set_file-OneOf temp dest text fs t apart own =
    let fs1 = (write temp text fs).0 in
    let (fs2, done) = copy_files (temp ∷ temp ∷ []) (dest ∷ dest ∷ []) fs1 in
    let same = content-write_other temp dest.path text fs own in
    pick_OneOf (write temp text fs).1 (content dest.path fs) text dest.path (fs2, some done)
      (fs1, none)
      (λ ok.
        subst (λ o. OneOf o text (content dest.path fs2)) same
          (copies-OneOf temp dest text fs1 t apart (content-write temp text fs ok)))
      same

-- What one request does to a credential file.
abbrev Moves : Credential → Request → Option Text → Option Text → Type 0
Moves k r old new = (new ≡ old) ⊎ ((text : Text) × (text_for k r ≡ some text) × (new ≡ some text))

own_Moves :
    (k : Credential) (r : Request) (text : Text) (old new : Option Text)
    → text_for k r ≡ some text
    → OneOf old text new
    → Moves k r old new
own_Moves k r text old new e (inl p) = inl p
own_Moves k r text old new e (inr p) = inr (text, e, p)

set_request-Moves :
    (k : Credential) (r : Request) (done : Copies) (fs : Files Text)
    → Moves k r (content (place_of k).path fs) (content (place_of k).path (set_request r done fs).0)
set_request-Moves ca (ssh_ca_public_key lines) done fs =
    own_Moves ca (ssh_ca_public_key lines) (key_lines lines) (content ca_place.path fs)
      (content ca_place.path (set_file ca_temp ca_place (key_lines lines) fs).0) refl
      (set_file-OneOf ca_temp ca_place (key_lines lines) fs refl (refl, refl) refl)
set_request-Moves ca (ssh_account_keys accounts) done fs = inl (
    set_file-other keys_temp keys_place (account_lines accounts) ca_place.path fs refl (refl, refl))
set_request-Moves ca (ssh_account_users accounts) done fs = inl (
    set_file-other users_temp users_place (account_lines accounts) ca_place.path fs refl
      (refl, refl))
set_request-Moves keys (ssh_ca_public_key lines) done fs =
    inl (set_file-other ca_temp ca_place (key_lines lines) keys_place.path fs refl (refl, refl))
set_request-Moves keys (ssh_account_keys accounts) done fs =
    own_Moves keys (ssh_account_keys accounts) (account_lines accounts) (content keys_place.path fs)
      (content keys_place.path (set_file keys_temp keys_place (account_lines accounts) fs).0) refl
      (set_file-OneOf keys_temp keys_place (account_lines accounts) fs refl (refl, refl) refl)
set_request-Moves keys (ssh_account_users accounts) done fs = inl (
    set_file-other users_temp users_place (account_lines accounts) keys_place.path fs refl
      (refl, refl))
set_request-Moves users (ssh_ca_public_key lines) done fs =
    inl (set_file-other ca_temp ca_place (key_lines lines) users_place.path fs refl (refl, refl))
set_request-Moves users (ssh_account_keys accounts) done fs = inl (
    set_file-other keys_temp keys_place (account_lines accounts) users_place.path fs refl
      (refl, refl))
set_request-Moves users (ssh_account_users accounts) done fs =
    own_Moves users (ssh_account_users accounts) (account_lines accounts)
      (content users_place.path fs)
      (content users_place.path (set_file users_temp users_place (account_lines accounts) fs).0)
      refl
      (set_file-OneOf users_temp users_place (account_lines accounts) fs refl (refl, refl) refl)
set_request-Moves k invalid_key done fs = inl refl

step-Trace :
    (k : Credential) (r : Request) (rs : List Request) (o p q : Option Text)
    → Moves k r o p
    → Trace k rs p q
    → Trace k (r ∷ rs) o q
step-Trace k r rs o p q (inl e) rest = passed (subst (λ x. Trace k rs x q) e rest)
step-Trace k r rs o p q (inr (text, e, written)) rest =
    put e (subst (λ x. Trace k rs x q) written rest)

raised-Trace :
    (k : Credential) (r : Request) (rs : List Request) (o : Option Text) (next : Option Copies)
    (fs : Files Text) (rest : Files Text × Reply)
    → Moves k r o (content (place_of k).path fs)
    → Trace k rs (content (place_of k).path fs) (content (place_of k).path rest.0)
    → Trace k (r ∷ rs) o (content (place_of k).path (or_raised next fs rest).0)
raised-Trace k r rs o none fs rest moved trace =
    step-Trace k r rs o (content (place_of k).path fs) (content (place_of k).path fs) moved ended
raised-Trace k r rs o (some done) fs rest moved trace =
    step-Trace k r rs o (content (place_of k).path fs) (content (place_of k).path rest.0) moved
      trace

set_requests-Trace :
    (k : Credential) (rs : List Request) (done : Copies) (fs : Files Text)
    → Trace k rs
        (content (place_of k).path fs)
        (content (place_of k).path (set_requests rs done fs).0)
unfolding set_requests
set_requests-Trace k [] done fs = ended
set_requests-Trace k (r ∷ rs) done fs =
    let (fs1, next) = set_request r done fs in
    raised-Trace k r rs (content (place_of k).path fs) next fs1
      (set_requests rs (copies_or done next) fs1) (set_request-Moves k r done fs)
      (set_requests-Trace k rs (copies_or done next) fs1)

Trace-if :
    (k : Credential) (rs : List Request) (o : Option Text) (j : String) (b : Bool)
    (x y : Ssh × Reply)
    → Trace k rs o (content j x.0.files)
    → Trace k rs o (content j y.0.files)
    → Trace k rs o (content j (if b then x else y).0.files)
Trace-if k rs o j true x y p q = p
Trace-if k rs o j false x y p q = q

-- Whichever call fails, after a call of `set` a credential file has its old content, or the whole
-- text of one of the requests for it.
pub set-Trace :
    (k : Credential) (rs : List Request) (s : Ssh)
    → Trace k rs
        (content (place_of k).path s.files)
        (content (place_of k).path (set (content_of rs) s).0.files)
unfolding set
set-Trace k rs s =
    let (fs1, reply) = set_requests rs (0, []) s.files in
    Trace-if k rs (content (place_of k).path s.files) (place_of k).path s.is_checkpoint
      (record s { files = fs1 }, reply) (s, some (1, set_before_checkpoint))
      (set_requests-Trace k rs (0, []) s.files) ended
