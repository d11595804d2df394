-- ===== src/Host/SshMgmt/Restore.antt =====
-- A checkpoint of the credentials, and its restoration.
use sonic_host_services.Base.{false, some, [], ◌∷◌, String, str_eq, ◌≡◌, refl, ◌∙◌, arith, All}
use sonic_host_services.Base.Text.{Text}
use sonic_host_services.Host.Files.{Files, content}
use sonic_host_services.Host.SshMgmt.{
  Place, ca_place, keys_place, users_place, ca_checkpoint, keys_checkpoint, users_checkpoint,
  checkpoint_entries, Ssh, ask, copy_files, rmtree, copy_to_checkpoint, copy_from_checkpoint,
  create_directory, create_checkpoint, created_checkpoint, restore_checkpoint, restored_checkpoint,
}
use sonic_host_services.Host.SshMgmt.Contents.{
  Delivers, here, there, copy_each-Delivers, remove_entries-other,
}

-- The three files of credentials.
pub data Credential : Type 0 where
  ca keys users : Credential

abbrev pub place_of : Credential → Place
place_of ca = ca_place
place_of keys = keys_place
place_of users = users_place

abbrev pub checkpoint_of : Credential → Place
checkpoint_of ca = ca_checkpoint
checkpoint_of keys = keys_checkpoint
checkpoint_of users = users_checkpoint

-- A path outside CHECKPOINT_DIR.
abbrev Outside : String → Type 0
Outside j = All (λ path. str_eq path j ≡ false) checkpoint_entries

place-Outside : (k : Credential) → Outside (place_of k).path
place-Outside ca = (refl, (refl, (refl, (refl, (refl, (refl, (refl, tt)))))))
place-Outside keys = (refl, (refl, (refl, (refl, (refl, (refl, (refl, tt)))))))
place-Outside users = (refl, (refl, (refl, (refl, (refl, (refl, (refl, tt)))))))

rmtree-other : (j : String) (s : Ssh) → Outside j → content j (rmtree s).0.files ≡ content j s.files
unfolding rmtree ask
rmtree-other j s out = ground (arith, remove_entries-other j checkpoint_entries s.files out)

saves :
    (k : Credential)
    → Delivers
        (place_of k).path
        (checkpoint_of k)
        (ca_place.path ∷ keys_place.path ∷ users_place.path ∷ [])
        (ca_checkpoint ∷ keys_checkpoint ∷ users_checkpoint ∷ [])
saves ca = here ((refl, refl), ((refl, refl), tt))
saves keys = there (refl, refl) (here ((refl, refl), tt))
saves users = there (refl, refl) (there (refl, refl) (here tt))

brings_back :
    (k : Credential)
    → Delivers
        (checkpoint_of k).path
        (place_of k)
        (ca_checkpoint.path ∷ ca_checkpoint.path ∷ keys_checkpoint.path ∷ keys_checkpoint.path
          ∷ users_checkpoint.path ∷ users_checkpoint.path ∷ [])
        (ca_place ∷ ca_place ∷ keys_place ∷ keys_place ∷ users_place ∷ users_place ∷ [])
brings_back ca =
    there (refl, refl) (here ((refl, refl), ((refl, refl), ((refl, refl), ((refl, refl), tt)))))
brings_back keys =
    there (refl, refl)
      (there (refl, refl) (there (refl, refl) (here ((refl, refl), ((refl, refl), tt)))))
brings_back users =
    there (refl, refl)
      (there (refl, refl) (there (refl, refl) (there (refl, refl) (there (refl, refl) (here tt)))))

pub temp_apart :
    (k : Credential)
    → (str_eq (place_of k).temp (place_of k).path ≡ false)
      × (str_eq (checkpoint_of k).temp (checkpoint_of k).path ≡ false)
temp_apart ca = (refl, refl)
temp_apart keys = (refl, refl)
temp_apart users = (refl, refl)

copy_to_checkpoint-content :
    (k : Credential) (c : Text) (fs : Files Text)
    → content (place_of k).path fs ≡ some c
    → (copy_to_checkpoint fs).1.0 ≡ 0
    → content (checkpoint_of k).path (copy_to_checkpoint fs).0 ≡ some c
unfolding copy_files
copy_to_checkpoint-content k c fs found ok =
    copy_each-Delivers (place_of k).path (checkpoint_of k) c
      (ca_place.path ∷ keys_place.path ∷ users_place.path ∷ [])
      (ca_checkpoint ∷ keys_checkpoint ∷ users_checkpoint ∷ []) fs (saves k) (temp_apart k).1 found
      ok

copy_from_checkpoint-content :
    (k : Credential) (c : Text) (fs : Files Text)
    → content (checkpoint_of k).path fs ≡ some c
    → (copy_from_checkpoint fs).1.0 ≡ 0
    → content (place_of k).path (copy_from_checkpoint fs).0 ≡ some c
unfolding copy_files
copy_from_checkpoint-content k c fs found ok =
    copy_each-Delivers (checkpoint_of k).path (place_of k) c
      (ca_checkpoint.path ∷ ca_checkpoint.path ∷ keys_checkpoint.path ∷ keys_checkpoint.path
        ∷ users_checkpoint.path ∷ users_checkpoint.path ∷ [])
      (ca_place ∷ ca_place ∷ keys_place ∷ keys_place ∷ users_place ∷ users_place ∷ []) fs
      (brings_back k) (temp_apart k).0 found ok

create_directory-content :
    (k : Credential) (c : Text) (s : Ssh)
    → content (place_of k).path s.files ≡ some c
    → (create_directory s).1 ≡ some (0, created_checkpoint)
    → content (checkpoint_of k).path (create_directory s).0.files ≡ some c
unfolding create_directory ask
create_directory-content k c s found ok =
    ground (arith, copy_to_checkpoint-content k c (ask s.files).0 found)

pub create_checkpoint-content :
    (k : Credential) (c : Text) (s : Ssh)
    → content (place_of k).path s.files ≡ some c
    → (create_checkpoint s).1 ≡ some (0, created_checkpoint)
    → content (checkpoint_of k).path (create_checkpoint s).0.files ≡ some c
unfolding create_checkpoint
create_checkpoint-content k c s found ok =
    let kept = rmtree-other (place_of k).path s (place-Outside k) in
    ground (
      arith,
      create_directory-content k c (rmtree s).0 (kept ∙ found),
      create_directory-content k c s found,
    )

pub restore_checkpoint-content :
    (k : Credential) (c : Text) (s : Ssh)
    → content (checkpoint_of k).path s.files ≡ some c
    → (restore_checkpoint s).1 ≡ some (0, restored_checkpoint)
    → content (place_of k).path (restore_checkpoint s).0.files ≡ some c
unfolding restore_checkpoint
restore_checkpoint-content k c s found ok =
    let fs1 = (copy_from_checkpoint s.files).0 in
    ground (
      arith,
      copy_from_checkpoint-content k c s.files found,
      rmtree-other (place_of k).path (record s { files = fs1 }) (place-Outside k),
    )
