-- ===== src/Host/Gcu.antt =====
-- host_modules/gcu.py, host_modules/config_engine.py and host_modules/showtech.py: each method runs one
-- command of the host.
use sonic_host_services.Base.{
  ◌||◌, ℕ, Option, none, some, List, [], ◌∷◌, ◌++◌, ◌==◌, String, if◌then◌else◌,
}
use sonic_host_services.Base.Text.{text_eq, Text, codes}
use sonic_host_services.Host.Image.{split, first_error, strip}

-- A command with its input, if it has one.
pub record Run : Type 0 where
  pub argv : List Text
  pub input : Option Text

-- What a command leaves: its code, its output and its errors.
pub record Completed : Type 0 where
  pub returncode : ℕ
  pub stdout : Text
  pub stderr : Text

abbrev pub config : String
config = "/usr/local/bin/config"

abbrev pub with_patch : String → String → Text → Run
with_patch verb format patch_text = record {
  argv = codes config ∷ codes verb ∷ codes "-f" ∷ codes format ∷ codes "/dev/stdin" ∷ [];
  input = some (patch_text ++ 10 ∷ []);
}

abbrev pub with_file : String → Text → Run
with_file verb checkpoint_file = record {
  argv = codes config ∷ codes verb ∷ checkpoint_file ∷ [];
  input = none;
}

-- `runs` is the host.
module _ (runs : Run → Completed) where
  -- The code, and the first line of the errors with "Error" in it.
  unfoldable pub config_reply : Run → ℕ × Text
  unfolding split
  config_reply run =
      let done = runs run in
      (done.returncode, if done.returncode == 0 then [] else first_error (split 10 done.stderr))

  abbrev pub apply_patch_db : Text → ℕ × Text
  apply_patch_db patch_text = config_reply (with_patch "apply-patch" "CONFIGDB" patch_text)

  abbrev pub apply_patch_yang : Text → ℕ × Text
  apply_patch_yang patch_text = config_reply (with_patch "apply-patch" "SONICYANG" patch_text)

  abbrev pub replace_db : Text → ℕ × Text
  replace_db patch_text = config_reply (with_patch "replace" "CONFIGDB" patch_text)

  abbrev pub replace_yang : Text → ℕ × Text
  replace_yang patch_text = config_reply (with_patch "replace" "SONICYANG" patch_text)

  abbrev pub create_checkpoint : Text → ℕ × Text
  create_checkpoint checkpoint_file = config_reply (with_file "checkpoint" checkpoint_file)

  abbrev pub delete_checkpoint : Text → ℕ × Text
  delete_checkpoint checkpoint_file = config_reply (with_file "delete-checkpoint" checkpoint_file)

-- An empty text, or one of spaces alone, is no configuration.
abbrev pub with_config : Text → Text → Run
with_config config_db_json [] = record {
  argv = codes config ∷ codes "reload" ∷ codes "-y" ∷ [];
  input = none;
}
with_config config_db_json (c ∷ stripped) = record {
  argv = codes config ∷ codes "reload" ∷ codes "-y" ∷ codes "/dev/stdin" ∷ [];
  input = some (config_db_json ++ 10 ∷ []);
}

abbrev pub reload : (Run → Completed) → Text → ℕ × Text
reload runs config_db_json = config_reply runs (with_config config_db_json (strip config_db_json))

-- The default configuration is not named.
abbrev pub save : (Run → Completed) → Text → ℕ × Text
save runs config_file = config_reply runs (record {
  argv =
      if text_eq config_file [] || text_eq config_file (codes "/etc/sonic/config_db.json")
      then codes config ∷ codes "save" ∷ codes "-y" ∷ []
      else codes config ∷ codes "save" ∷ codes "-y" ∷ config_file ∷ [];
  input = none;
})

-- The replies of showtech: an error by its code, or the file that is found in the output.
pub data Info : Type 0 where
  incorrect_date tar_failed procfs_failed failure_code : Info
  dumped : Text → Info

abbrev pub err_dict : ℕ → Info
err_dict code =
    if code == 10
    then incorrect_date
    else if code == 5
    then tar_failed
    else if code == 6
    then procfs_failed
    else failure_code

abbrev pub generate_dump : Text → Run
generate_dump [] = record { argv = codes "/usr/local/bin/generate_dump" ∷ []; input = none }
generate_dump (c ∷ date) = record {
  argv = codes "/usr/local/bin/generate_dump" ∷ codes "-s" ∷ (c ∷ date) ∷ [];
  input = none;
}

abbrev pub found_or_raised : Option Text → Option (ℕ × Info)
found_or_raised none = none
found_or_raised (some name) = some (0, dumped name)

-- `search` is the search for the name of the dump; none if nothing is found, which raises.
unfoldable pub info : (Run → Completed) → (Text → Option Text) → Text → Option (ℕ × Info)
info runs search date =
    let done = runs (generate_dump date) in
    if done.returncode == 0
    then found_or_raised (search done.stdout)
    else some (done.returncode, err_dict done.returncode)
