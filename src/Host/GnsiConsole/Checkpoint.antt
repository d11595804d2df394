-- ===== src/Host/GnsiConsole/Checkpoint.antt =====
-- The checkpoint of the password file: what a change leaves in the files, whatever call fails.
use sonic_host_services.Base.{
  true, false, Option, none, some, List, [], ◌∷◌, String, str_eq, ◌≡◌, ◌⊎◌, refl, ◌∙◌, arith,
}
use sonic_host_services.Base.{◌≢◌}
use sonic_host_services.Host.Files.{copy, answer_of, is_success, Files, content, read, write, move}
use sonic_host_services.Host.Files.Laws.{
  content-write_other, content-copy, content-move, content-remove,
}
use sonic_host_services.Host.GnsiConsole.{
  Lines, Text, Options, not_json, without_passwords, console_passwords, Request, Reply, set,
  set_lines, set_requests, create_checkpoint, restore_checkpoint, update_password_file,
  create_temp_passwd_file, replace_lines, apply_requests, replace_by_temp, passwd_file,
  passwd_file_checkpoint_file, passwd_file_temp,
}

-- What a replacement of the password file by a given file leaves.
content-update_password_file :
    (given j : String) (fs : Files Lines)
    → str_eq passwd_file j ≡ true
    → str_eq given j ≡ false
    → (((update_password_file given fs).1.0 ≡ 1)
        × (content j (update_password_file given fs).0 ≡ content j fs))
      ⊎ (((update_password_file given fs).1.0 ≡ 0)
          × (content j (update_password_file given fs).0 ≡ content given fs))
unfolding update_password_file
content-update_password_file given j fs e ne = ground (
  arith,
  content-move given passwd_file j fs,
  content-remove given j (move given passwd_file fs).0,
)

content-update_password_file_other :
    (given j : String) (fs : Files Lines)
    → str_eq passwd_file j ≡ false
    → str_eq given j ≡ false
    → content j (update_password_file given fs).0 ≡ content j fs
unfolding update_password_file
content-update_password_file_other given j fs e ne = ground (
  arith,
  content-move given passwd_file j fs,
  content-remove given j (move given passwd_file fs).0,
)

content-create_temp_other :
    (lines : Lines) (j : String) (fs : Files Lines)
    → str_eq passwd_file_temp j ≡ false
    → content j (create_temp_passwd_file lines fs).0 ≡ content j fs
unfolding create_temp_passwd_file
content-create_temp_other lines j fs ne = ground (
  arith,
  content-write_other passwd_file_temp j lines fs ne,
  content-remove passwd_file_temp j (write passwd_file_temp lines fs).0,
)

abbrev pub requests_of : Options → List Request
requests_of (console_passwords requests) = requests
requests_of _ = []

-- The passwords that the requests give a file, if it is there.
abbrev pub changed : (Lines → Lines) → Option Lines → Option Lines
changed f none = none
changed f (some lines) = some (f lines)

module _ (openssl : Text → Option Text) where
  -- How `set` may end: with code 1 and the password file as it was, or with code 0 and the
  -- requests applied to every line of it.
  abbrev pub Ended : Options → Files Lines → (Files Lines × Reply) → Type 0
  Ended options fs (fs1, reply) =
      ((reply.0 ≡ 1) × (content passwd_file fs1 ≡ content passwd_file fs))
      ⊎ ((reply.0 ≡ 0)
          × (content passwd_file fs1
              ≡ changed (apply_requests openssl (requests_of options)) (content passwd_file fs)))

  replace_by_temp-other :
      (o : Option Reply) (j : String) (fs : Files Lines)
      → str_eq passwd_file j ≡ false
      → str_eq passwd_file_temp j ≡ false
      → content j (replace_by_temp o fs).0 ≡ content j fs
  replace_by_temp-other (some r) j fs ne nt = refl
  replace_by_temp-other none j fs ne nt =
      content-update_password_file_other passwd_file_temp j fs ne nt

  replace_lines-checkpoint :
      (lines : Lines) (fs : Files Lines)
      → content passwd_file_checkpoint_file (replace_lines lines fs).0
        ≡ content passwd_file_checkpoint_file fs
  unfolding replace_lines
  replace_lines-checkpoint lines fs =
      let made = create_temp_passwd_file lines fs in
      replace_by_temp-other made.1 passwd_file_checkpoint_file made.0 refl refl
      ∙ content-create_temp_other lines passwd_file_checkpoint_file fs refl

  set_lines-checkpoint :
      (requests : List Request) (o : Option Lines) (fs : Files Lines)
      → content passwd_file_checkpoint_file (set_lines openssl requests o fs).0
        ≡ content passwd_file_checkpoint_file fs
  set_lines-checkpoint requests none fs = refl
  set_lines-checkpoint requests (some []) fs = refl
  set_lines-checkpoint requests (some (line ∷ lines)) fs =
      replace_lines-checkpoint (apply_requests openssl requests (line ∷ lines)) fs

  set_requests-checkpoint :
      (options : Options) (fs : Files Lines)
      → content passwd_file_checkpoint_file (set_requests openssl options fs).0
        ≡ content passwd_file_checkpoint_file fs
  unfolding read
  set_requests-checkpoint not_json fs = refl
  set_requests-checkpoint without_passwords fs = refl
  set_requests-checkpoint (console_passwords requests) fs =
      set_lines-checkpoint requests (read passwd_file fs).1 (read passwd_file fs).0

  set-checkpoint :
      (options : Options) (fs : Files Lines)
      → content passwd_file_checkpoint_file (set openssl options fs).0
        ≡ content passwd_file_checkpoint_file fs
  unfolding set
  set-checkpoint options fs = ground (arith, set_requests-checkpoint options fs)

  -- A sequence of changes.
  abbrev pub sets : List Options → Files Lines → Files Lines
  sets [] fs = fs
  sets (options ∷ more) fs = sets more (set openssl options fs).0

  sets-checkpoint :
      (changes : List Options) (fs : Files Lines)
      → content passwd_file_checkpoint_file (sets changes fs)
        ≡ content passwd_file_checkpoint_file fs
  sets-checkpoint [] fs = refl
  sets-checkpoint (options ∷ more) fs =
      sets-checkpoint more (set openssl options fs).0 ∙ set-checkpoint options fs

  restore-passwd :
      (fs : Files Lines)
      → (((restore_checkpoint fs).1.0 ≡ 1)
          × (content passwd_file (restore_checkpoint fs).0 ≡ content passwd_file fs))
        ⊎ (((restore_checkpoint fs).1.0 ≡ 0)
            × (content passwd_file (restore_checkpoint fs).0
                ≡ content passwd_file_checkpoint_file fs))
  unfolding restore_checkpoint
  restore-passwd fs =
      ground
        (arith, content-update_password_file passwd_file_checkpoint_file passwd_file fs refl refl)

  create_checkpoint-content :
      (fs : Files Lines)
      → (create_checkpoint fs).1.0 ≡ 0
      → content passwd_file_checkpoint_file (create_checkpoint fs).0 ≡ content passwd_file fs
  unfolding create_checkpoint
  create_checkpoint-content fs h =
      ground (arith, content-copy passwd_file passwd_file_checkpoint_file fs)

  copied-some :
      (src dest : String) (fs : Files Lines) → (copy src dest fs).1 ≡ true → content src fs ≢ none
  unfolding copy
  copied-some src dest fs h e = ground arith

  create_checkpoint-there :
      (fs : Files Lines) → (create_checkpoint fs).1.0 ≡ 0 → content passwd_file fs ≢ none
  unfolding create_checkpoint
  create_checkpoint-there fs h =
      ground (arith, copied-some passwd_file passwd_file_checkpoint_file fs)

  restore-succeeds :
      (fs : Files Lines)
      → content passwd_file_checkpoint_file fs ≢ none
      → is_success (answer_of fs.answers) ≡ true
      → (restore_checkpoint fs).1.0 ≡ 0
  unfolding restore_checkpoint update_password_file move
  restore-succeeds fs there succeeds = ground arith

  -- After a checkpoint that was created with code 0 and any changes, whatever fails in them, a
  -- restore whose move succeeds ends with code 0 and gives back the password file of before the
  -- checkpoint.
  pub restore_checkpoint-sets :
      (changes : List Options) (fs : Files Lines)
      → (create_checkpoint fs).1.0 ≡ 0
      → is_success (answer_of (sets changes (create_checkpoint fs).0).answers) ≡ true
      → ((restore_checkpoint (sets changes (create_checkpoint fs).0)).1.0 ≡ 0)
        × (content passwd_file (restore_checkpoint (sets changes (create_checkpoint fs).0)).0
            ≡ content passwd_file fs)
  restore_checkpoint-sets changes fs created moves =
      let fs1 = (create_checkpoint fs).0 in
      let there = create_checkpoint-there fs created in
      ground (
        arith,
        restore-passwd (sets changes fs1),
        restore-succeeds (sets changes fs1),
        sets-checkpoint changes fs1,
        create_checkpoint-content fs created,
      )
