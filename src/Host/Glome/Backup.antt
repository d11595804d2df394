-- ===== src/Host/Glome/Backup.antt =====
-- The backup of a pushed configuration, and its restoration.
use sonic_host_services.Base.{
  Bool, true, false, Option, none, some, String, str_eq, eq_iff, ◌≡◌, refl, ◌∙◌, arith,
}
use sonic_host_services.Host.Files.{Files, content}
use sonic_host_services.Host.Files.Laws.{content-write_other, content-copy, content-remove}
use sonic_host_services.Host.Glome.{
  os_error, json_error, key_error, Config, Payload, not_json, payload, glome_path,
  glome_backup_path, ask, ended, Ended, remove_config_file, config_of, write_found,
  write_config_file, copy_or_remove, apply_payload, push, restore, code_of, push_config,
  restore_checkpoint,
}

-- After a copy or removal that succeeded the destination is as the source was.
copy_or_remove-content :
    (src dst : String) (fs : Files Config)
    → (copy_or_remove src dst fs).1 ≡ true
    → content dst (copy_or_remove src dst fs).0 ≡ content src fs
unfolding copy_or_remove remove_config_file
copy_or_remove-content src dst fs ok =
    ground (arith, content-copy src dst fs, content-remove dst dst fs, eq_iff dst dst)

remove_config_file-other :
    (path j : String) (fs : Files Config)
    → str_eq path j ≡ false
    → content j (remove_config_file path fs).0 ≡ content j fs
unfolding remove_config_file
remove_config_file-other path j fs h = ground (arith, content-remove path j fs)

write_found-backup :
    (config : Option Config) (fs : Files Config)
    → content glome_backup_path (write_found config fs).0 ≡ content glome_backup_path fs
unfolding ask
write_found-backup none fs = refl
write_found-backup (some config) fs =
    ground (arith, content-write_other glome_path glome_backup_path config fs refl)

write_config_file-backup :
    (config : Option Config) (fs : Files Config)
    → content glome_backup_path (write_config_file config fs).0 ≡ content glome_backup_path fs
unfolding write_config_file ask
write_config_file-backup config fs = ground (arith, write_found-backup config (ask fs).0)

apply_payload-backup :
    (p : Payload) (fs : Files Config)
    → content glome_backup_path (apply_payload p fs).0 ≡ content glome_backup_path fs
apply_payload-backup not_json fs = refl
apply_payload-backup (payload none key version prefix) fs = refl
apply_payload-backup (payload (some true) key version prefix) fs =
    write_config_file-backup (config_of key version prefix) fs
apply_payload-backup (payload (some false) key version prefix) fs =
    remove_config_file-other glome_path glome_backup_path fs refl

push-backup :
    (p : Payload) (fs : Files Config)
    → (push p fs).1 ≡ ended
    → content glome_backup_path (push p fs).0 ≡ content glome_path fs
unfolding push
push-backup p fs ok =
    let fs1 = (copy_or_remove glome_path glome_backup_path fs).0 in
    ground
      (arith, copy_or_remove-content glome_path glome_backup_path fs, apply_payload-backup p fs1)

restore-content :
    (fs : Files Config)
    → (restore fs).1 ≡ ended
    → content glome_path (restore fs).0 ≡ content glome_backup_path fs
unfolding restore
restore-content fs ok = ground (arith, copy_or_remove-content glome_backup_path glome_path fs)

code_of-zero : (b : Bool) (e : Ended) → code_of b e ≡ 0 → e ≡ ended
code_of-zero b ended h = refl
code_of-zero true os_error h = ground arith
code_of-zero false os_error h = ground arith
code_of-zero b json_error h = ground arith
code_of-zero b key_error h = ground arith

-- After a push that replies 0, a restore that replies 0 gives the configuration file back as it was
-- before the push, or removes it if it was not there.
pub restore_checkpoint-push_config :
    (b c : Bool) (p : Payload) (fs : Files Config)
    → (push_config b p fs).1 ≡ 0
    → (restore_checkpoint c (push_config b p fs).0).1 ≡ 0
    → content glome_path (restore_checkpoint c (push_config b p fs).0).0 ≡ content glome_path fs
restore_checkpoint-push_config b c p fs pushed restored =
    restore-content (push p fs).0 (code_of-zero c (restore (push p fs).0).1 restored)
    ∙ push-backup p fs (code_of-zero b (push p fs).1 pushed)
