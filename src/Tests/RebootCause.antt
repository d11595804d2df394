-- ===== src/Tests/RebootCause.antt =====
-- scripts/determine-reboot-cause at concrete inputs.
use sonic_host_services.Base.{
  String, arith, true, false, none, some, [], ◌++◌, ◌≡◌, refl, ℕ, List, [], ◌∷◌,
}
use sonic_host_services.Base.Text.{Text, codes, text_eq, occurs, startswith}
use sonic_host_services.Host.Image.Listing.{has}
use sonic_host_services.RebootCause.{
  Boot, Files, determine_reboot_cause, find_software_reboot_cause, decide, unknown, not_available,
  main, report, get_reboot_cause_dict, parse_warmfast_reboot_from_proc_cmdline,
}
use sonic_host_services.RebootCause.Expression.{until_newline, search_panic, search, greedy}
use sonic_host_services.RebootCause.History.{
  without_file, remove_files, Content, not_file, not_json, object, Fields, HistoryFile, Saved,
  read_reboot_cause_files_and_save_to_db, save, newest_first, insert_newest,
}
use sonic_host_services.RebootCause.History.Bound.{
  Distinct, Bounded, read_reboot_cause_files-Bounded,
}
use sonic_host_services.RebootCause.RoundTrip.{user_issued, get_reboot_cause_dict-user_issued}
use sonic_host_services.RebootCause.Decision.{IsSevere, determine_reboot_cause-main}

abbrev warm : Boot
warm = record {
  proc_cmdline = some (codes "quiet SONIC_BOOT_TYPE=warm loop\n");
  platform = none;
  build_version = none;
}

abbrev nothing : Files
nothing = record { reboot_cause_file = none; first_boot = false }

-- Without the file the command line counts.
cmdline : determine_reboot_cause warm nothing ≡ ((codes "warm-reboot", not_available), false)
unfolding determine_reboot_cause find_software_reboot_cause decide text_eq occurs startswith
    until_newline parse_warmfast_reboot_from_proc_cmdline
cmdline = refl

-- With the file of the run before it does not.
determine_reboot_cause-main_example :
    (determine_reboot_cause warm (main warm nothing).1).0 ≡ (unknown, not_available)
determine_reboot_cause-main_example = determine_reboot_cause-main warm warm nothing refl refl

abbrev panic : Text
panic = codes "Kernel Panic [Time: Thu]"

abbrev overheated : Boot
overheated = record {
  proc_cmdline = none;
  platform = some (codes "Thermal Overload: CPU", []);
  build_version = none;
}

line : until_newline (panic ++ codes "\nmore") ≡ panic
unfolding until_newline
line = refl

panic-IsSevere : IsSevere (until_newline (codes "Kernel Panic [Time: Thu]\nmore"))
unfolding until_newline occurs startswith
panic-IsSevere = refl

panic-report :
    get_reboot_cause_dict panic not_available
    ≡ report (codes "Kernel Panic") not_available (codes "Thu") not_available
unfolding get_reboot_cause_dict search_panic search greedy occurs startswith
panic-report = refl

get_reboot_cause_dict-user_issued_example :
    get_reboot_cause_dict
      (user_issued (codes "warm-reboot") (codes "admin") (codes "Thu 12:00"))
      not_available
    ≡ report (codes "warm-reboot") (codes "admin") (codes "Thu 12:00") not_available
unfolding has
get_reboot_cause_dict-user_issued_example =
    get_reboot_cause_dict-user_issued (codes "warm-reboot") (codes "admin") (codes "Thu 12:00")
      not_available refl refl refl refl refl refl

abbrev file : String → ℕ → Content → HistoryFile
file path mtime content = record { path = path; mtime = mtime; content = content }

abbrev stored : Fields
stored = record {
  gen_time = some "2024_01_01_00_00_00";
  name = none;
  cause = some "Unknown";
  time = none;
  user = some "N/A";
  comment = none;
}

abbrev history : List HistoryFile
history =
    file "cause_1.json" 1 not_json
    ∷ file "cause_12.json" 12 (object stored)
    ∷ file "cause_3.json" 3 not_file
    ∷ file "cause_4.json" 4 not_file
    ∷ file "cause_5.json" 5 not_file
    ∷ file "cause_6.json" 6 not_file
    ∷ file "cause_7.json" 7 not_file
    ∷ file "cause_8.json" 8 not_file
    ∷ file "cause_9.json" 9 not_file
    ∷ file "cause_10.json" 10 not_file
    ∷ file "cause_11.json" 11 not_file
    ∷ []

abbrev saved : Saved
saved = record {
  rows =
      record {
        hash = "2024_01_01_00_00_00";
        cause = "Unknown";
        time = "";
        user = "N/A";
        comment = "";
      }
      ∷ [];
  stored =
      file "cause_12.json" 12 (object stored)
      ∷ file "cause_3.json" 3 not_file
      ∷ file "cause_4.json" 4 not_file
      ∷ file "cause_5.json" 5 not_file
      ∷ file "cause_6.json" 6 not_file
      ∷ file "cause_7.json" 7 not_file
      ∷ file "cause_8.json" 8 not_file
      ∷ file "cause_9.json" 9 not_file
      ∷ file "cause_10.json" 10 not_file
      ∷ file "cause_11.json" 11 not_file
      ∷ [];
}

-- The oldest of eleven files is removed.
read : read_reboot_cause_files_and_save_to_db (λ path. true) true history ≡ some saved
unfolding read_reboot_cause_files_and_save_to_db save newest_first insert_newest remove_files
    without_file
read = refl

history-Distinct : Distinct history
history-Distinct = ground arith

read_reboot_cause_files-Bounded_example : Bounded history saved.stored
read_reboot_cause_files-Bounded_example =
    read_reboot_cause_files-Bounded (λ path. true) true history saved history-Distinct read
