-- ===== src/Tests/Ssh.antt =====
-- host_modules/ssh_mgmt.py at concrete inputs.
use sonic_host_services.Base.{◌≡◌, refl, true, false, some, none, [], ◌∷◌}
use sonic_host_services.Base.Dict.{lookup, insert, erase}
use sonic_host_services.Base.Text.{Text, codes, text_eq}
use sonic_host_services.Host.Files.{content, write, copy, move, remove}
use sonic_host_services.Host.SshMgmt.{
  ca_place, Ssh, ask, try_copy, copy_file, copy_each, copy_files, remove_entries, rmtree,
  create_directory, create_checkpoint, restore_checkpoint, Request, ssh_ca_public_key, invalid_key,
  content_of, set_file, set_requests, set,
}
use sonic_host_services.Host.SshMgmt.Lines.{
  Account, key_lines, write_options_from, login_lines, account_lines,
}
use sonic_host_services.Host.SshMgmt.Restore.{ca}
use sonic_host_services.Host.SshMgmt.Requests.{set_all, restore_checkpoint-set}
use sonic_host_services.Host.SshMgmt.Written.{Trace, set-Trace}
use sonic_host_services.Host.SshMgmt.Success.{set-last}

abbrev old_keys : Text
old_keys = 97 ∷ []

abbrev host : Ssh
host = record {
  is_checkpoint = false;
  files = record { contents = (ca_place.path, old_keys) ∷ []; answers = [] };
}

abbrev new_keys : Request
new_keys = ssh_ca_public_key ((98 ∷ []) ∷ [])

abbrev saved : Ssh
saved = record { is_checkpoint = true; files = host.files }

-- An account with a key that has an option with a value and one without.
abbrev root_account : Account
root_account = record {
  account = some (codes "root");
  logins = some (
      record {
        text = some (codes "k");
        options = some (
            record { name = some (codes "a"); value = some (codes "v") }
            ∷ record { name = none; value = none }
            ∷ record { name = some (codes "b"); value = none }
            ∷ []);
      }
      ∷ []);
}

written_line : account_lines (root_account ∷ []) ≡ codes "a=\"v\",b k\n"
unfolding account_lines login_lines write_options_from text_eq
written_line = refl

restore_checkpoint-set_example :
    content ca_place.path
      (restore_checkpoint
        (set_all (content_of (new_keys ∷ []) ∷ []) (create_checkpoint host).0)).0.files
    ≡ some old_keys
unfolding create_checkpoint create_directory rmtree remove_entries copy_files copy_each copy_file
    try_copy ask write copy move remove restore_checkpoint set set_all set_requests set_file
    key_lines lookup insert erase
restore_checkpoint-set_example =
    restore_checkpoint-set ca old_keys (content_of (new_keys ∷ []) ∷ []) host refl refl refl

set-Trace_example :
    Trace ca
      (new_keys ∷ [])
      (content ca_place.path saved.files)
      (content ca_place.path (set (content_of (new_keys ∷ [])) saved).0.files)
unfolding lookup
set-Trace_example = set-Trace ca (new_keys ∷ []) saved

set-last_example :
    content ca_place.path (set (content_of (invalid_key ∷ new_keys ∷ [])) saved).0.files
    ≡ some (98 ∷ 10 ∷ [])
unfolding copy_files copy_each copy_file try_copy ask write copy move remove set set_requests
    set_file key_lines lookup insert erase
set-last_example = set-last ca (invalid_key ∷ []) new_keys (98 ∷ 10 ∷ []) saved refl refl
