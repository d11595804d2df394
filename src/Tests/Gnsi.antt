-- ===== src/Tests/Gnsi.antt =====
-- host_modules/gnsi_console.py at concrete inputs.
use sonic_host_services.Base.{◌≡◌, refl, Option, some, List, [], ◌∷◌, ◌++◌}
use sonic_host_services.Base.Dict.{lookup, insert, erase}
use sonic_host_services.Base.Text.{Text, codes, startswith}
use sonic_host_services.Host.Files.{Files, Answer, content, copy, write, move, read, remove}
use sonic_host_services.Host.GnsiConsole.{
  Lines, Options, console_passwords, set, create_checkpoint, passwd_file, update_password_file,
  restore_checkpoint, update_password_if_user_found, replace_lines, create_temp_passwd_file,
  apply_requests, get_hashed_password,
}
use sonic_host_services.Host.GnsiConsole.Checkpoint.{restore_checkpoint-sets, sets}
use sonic_host_services.Host.GnsiConsole.Passwords.{new_line}

abbrev openssl : Text → Option Text
openssl t = some (codes "$6$" ++ t)

abbrev admin : Text
admin = codes "admin:x:1:0:99999:7:::"

abbrev administrator : Text
administrator = codes "administrator:y:1:0:99999:7:::"

abbrev shadow : List (Answer Lines) → Files Lines
shadow answers = record {
  contents = (passwd_file, admin ∷ administrator ∷ []) ∷ [];
  answers = answers;
}

abbrev change : Options
change =
    console_passwords (record { name = some (codes "admin"); password = some (codes "pw") } ∷ [])

changed_line :
    content passwd_file (set openssl change (create_checkpoint (shadow [])).0).0
    ≡ some
        (new_line (codes "admin") (codes "$6$pw") ∷ new_line (codes "admin") (codes "$6$pw") ∷ [])
unfolding set create_checkpoint copy write read move update_password_file replace_lines
    create_temp_passwd_file apply_requests get_hashed_password update_password_if_user_found
    startswith remove lookup insert erase
changed_line = refl

restore_checkpoint-sets_example :
    ((restore_checkpoint (sets openssl (change ∷ []) (create_checkpoint (shadow [])).0)).1.0 ≡ 0)
    × (content passwd_file
          (restore_checkpoint (sets openssl (change ∷ []) (create_checkpoint (shadow [])).0)).0
        ≡ content passwd_file (shadow []))
unfolding set create_checkpoint copy write read move update_password_file replace_lines
    create_temp_passwd_file apply_requests get_hashed_password update_password_if_user_found
    startswith remove lookup insert erase
restore_checkpoint-sets_example =
    restore_checkpoint-sets openssl (change ∷ []) (shadow []) refl refl
