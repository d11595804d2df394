-- ===== src/Host/FileService/Guards.antt =====
-- What the service changes: no file that is there is overwritten, and only world-writable
-- directories are touched.
use sonic_host_services.Base.{
  arith, ◌||◌, Bool, true, false, Option, none, some, [], ◌∷◌, String, ◌≡◌, ◌⊎◌, inl, inr, refl,
  if◌then◌else◌,
}
use sonic_host_services.Base.Text.{text_eq, Text, codes}
use sonic_host_services.Host.FileService.{
  Place, Directory, unreadable, not_writable, world_writable, remove_file, Result, Outcome, upper,
  transfer, download, remove, if_absent, if_present, if_writable, reply_of,
}

-- A result that changes the file, or succeeds, was allowed to.
abbrev pub Guarded : Option Bool → Place → Result → Type 0
Guarded present place r =
    ((r.0 ≡ []) × (r.1.0 ≡ 1))
    ⊎ ((place.path_exists ≡ present) × (place.directory ≡ world_writable))

writable-Guarded :
    (place : Place) (present : Option Bool) (d : Directory) (r : Result)
    → place.path_exists ≡ present
    → place.directory ≡ d
    → Guarded present place (if_writable d r)
writable-Guarded place present unreadable r e f = inl (refl, refl)
writable-Guarded place present not_writable r e f = inl (refl, refl)
writable-Guarded place present world_writable r e f = inr (e, f)

absent-Guarded :
    (place : Place) (p : Option Bool) (r : Result)
    → place.path_exists ≡ p
    → Guarded (some false) place (if_absent p (if_writable place.directory r))
absent-Guarded place none r e = inl (refl, refl)
absent-Guarded place (some true) r e = inl (refl, refl)
absent-Guarded place (some false) r e = writable-Guarded place (some false) place.directory r e refl

present-Guarded :
    (place : Place) (p : Option Bool) (r : Result)
    → place.path_exists ≡ p
    → Guarded (some true) place (if_present p (if_writable place.directory r))
present-Guarded place none r e = inl (refl, refl)
present-Guarded place (some false) r e = inl (refl, refl)
present-Guarded place (some true) r e = writable-Guarded place (some true) place.directory r e refl

-- A download replies with code 1 and changes nothing, unless the path does not exist and its
-- directory is world writable.
pub download-Guarded :
    (o : Outcome) (protocol : Text) (place : Place)
    → Guarded (some false) place (download o protocol place)
unfolding download
download-Guarded o protocol place =
    absent-Guarded place place.path_exists (transfer o (upper protocol) place.path) refl

-- A removal replies with code 1 and changes nothing, unless the path exists and its directory is
-- world writable.
pub remove-Guarded : (o : Outcome) (place : Place) → Guarded (some true) place (remove o place)
unfolding remove
remove-Guarded o place =
    present-Guarded place place.path_exists (remove_file place.path ∷ [], reply_of o.completes) refl

abbrev pub is_supported : Text → Bool
is_supported protocol =
    text_eq protocol (codes "SFTP")
    || text_eq protocol (codes "HTTP")
    || text_eq protocol (codes "HTTPS")
    || text_eq protocol (codes "SCP")

transfer-supported :
    (o : Outcome) (protocol : Text) (path : String)
    → o.connects ≡ true
    → o.responds ≡ true
    → o.completes ≡ true
    → (transfer o protocol path).1.0 ≡ (if is_supported protocol then 0 else 1)
unfolding transfer
transfer-supported o protocol path c r d = ground arith

-- Where the path does not exist, its directory is world writable and the libraries do not fail, a
-- download succeeds exactly for the four protocols, in any case of their letters.
pub download-supported :
    (o : Outcome) (protocol : Text) (place : Place)
    → place.path_exists ≡ some false
    → place.directory ≡ world_writable
    → o.connects ≡ true
    → o.responds ≡ true
    → o.completes ≡ true
    → (download o protocol place).1.0 ≡ (if is_supported (upper protocol) then 0 else 1)
unfolding download
download-supported o protocol place e f c r d =
    rw (e, f) (transfer-supported o (upper protocol) place.path c r d)
