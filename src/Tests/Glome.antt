-- ===== src/Tests/Glome.antt =====
-- host_modules/glome.py and host_modules/gcu.py at concrete inputs.
use sonic_host_services.Base.{◌≡◌, refl, true, false, some, [], ◌∷◌}
use sonic_host_services.Base.Dict.{lookup, insert, erase}
use sonic_host_services.Base.Text.{codes, occurs, startswith}
use sonic_host_services.Host.Files.{Files, content, write, copy, remove}
use sonic_host_services.Host.Image.{split, first_error}
use sonic_host_services.Host.Gcu.{config_reply, apply_patch_db}
use sonic_host_services.Host.Glome.{
  Config, payload, glome_path, ask, remove_config_file, write_config_file, copy_or_remove, push,
  restore, push_config, restore_checkpoint,
}
use sonic_host_services.Host.Glome.Backup.{restore_checkpoint-push_config}

abbrev old : Config
old = record { key = 97 ∷ []; key_version = 49 ∷ []; url_prefix = [] }

abbrev there : Files Config
there = record { contents = (glome_path, old) ∷ []; answers = [] }

restore_checkpoint-push_config_example :
    content glome_path
      (restore_checkpoint false
        (push_config true (payload (some true) (some (98 ∷ [])) (some []) (some [])) there).0).0
    ≡ some old
unfolding push restore copy_or_remove remove_config_file write_config_file ask write copy remove
    lookup insert erase
restore_checkpoint-push_config_example =
    restore_checkpoint-push_config true false
      (payload (some true) (some (98 ∷ [])) (some []) (some [])) there refl refl

patch_failed :
    apply_patch_db
      (λ run. record { returncode = 1; stdout = []; stderr = codes "Usage\nError: bad\nmore" })
      (codes "[]")
    ≡ (1, codes "Error: bad")
unfolding config_reply split first_error occurs startswith
patch_failed = refl
