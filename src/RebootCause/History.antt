-- ===== src/RebootCause/History.antt =====
-- read_reboot_cause_files_and_save_to_db of scripts/process-reboot-cause: the stored causes that go to
-- the database, and the files that are removed.
pub mod Bound
use sonic_host_services.Base.{
  str_eq, ℕ, Bool, true, false, Option, none, some, List, [], ◌∷◌, ◌++◌, ltb, take, drop, length,
  String, if◌then◌else◌, ◌>>=◌,
}

-- A file of the history with its time of modification and what reading it gives: no regular file, no
-- JSON, or the fields of an object.
pub record Fields : Type 0 where
  pub gen_time : Option String
  pub name : Option String
  pub cause : Option String
  pub time : Option String
  pub user : Option String
  pub comment : Option String

pub data Content : Type 0 where
  not_file : Content
  not_json : Content
  object : Fields → Content

pub record HistoryFile : Type 0 where
  pub path : String
  pub mtime : ℕ
  pub content : Content

-- `sorted(files, key=getmtime, reverse=True)`, which keeps the order of files of one time.
unfoldable pub insert_newest : HistoryFile → List HistoryFile → List HistoryFile
insert_newest f [] = f ∷ []
insert_newest f (g ∷ gs) =
    let rest = insert_newest f gs in if ltb f.mtime g.mtime then g ∷ rest else f ∷ g ∷ gs

unfoldable pub newest_first : List HistoryFile → List HistoryFile
newest_first [] = []
newest_first (f ∷ fs) = insert_newest f (newest_first fs)

-- The rows set in the database: the part of the key that names them, then their fields.
pub record Row : Type 0 where
  pub hash : String
  pub cause : String
  pub time : String
  pub user : String
  pub comment : String

abbrev or_empty : Option String → String
or_empty none = ""
or_empty (some s) = s

abbrev row : String → Fields → Row
row hash f = record {
  hash = hash;
  cause = or_empty f.cause;
  time = or_empty f.time;
  user = or_empty f.user;
  comment = or_empty f.comment;
}

-- For the device itself a missing `gen_time` raises; for a DPU a file without a name is skipped.
abbrev pub row_of : Bool → Fields → Option (List Row)
row_of true f = do gen_time ← f.gen_time; some (row gen_time f ∷ [])
row_of false f = name_row f.name
  where
    name_row : Option String → Option (List Row)
    name_row none = some []
    name_row (some name) = some (row name f ∷ [])

abbrev pub rows_of : Bool → Content → Option (List Row)
rows_of is_npu not_file = some []
rows_of is_npu not_json = some []
rows_of is_npu (object f) = row_of is_npu f

unfoldable pub save : Bool → List HistoryFile → Option (List Row)
save is_npu [] = some []
save is_npu (f ∷ fs) = do
  rows ← rows_of is_npu f.content
  more ← save is_npu fs
  some (rows ++ more)

abbrev pub max_history_files : ℕ
max_history_files = 10

-- The history directory without a file.
unfoldable pub without_file : String → List HistoryFile → List HistoryFile
without_file path [] = []
without_file path (f ∷ fs) =
    let rest = without_file path fs in if str_eq f.path path then rest else f ∷ rest

-- `os.remove` of one file after the other, with what the directory has then; `removes` says whether
-- it returns, and otherwise it raises.
unfoldable pub remove_files :
    (String → Bool) → List HistoryFile → List HistoryFile → Option (List HistoryFile)
remove_files removes [] files = some files
remove_files removes (x ∷ xs) files =
    let rest = remove_files removes xs (without_file x.path files) in
    if removes x.path then rest else none

-- The rows set in the database, and the files that the directory has at the end.
pub record Saved : Type 0 where
  pub rows : List Row
  pub stored : List HistoryFile

-- `files` is what the directory has, in the order of os.listdir.
unfoldable pub read_reboot_cause_files_and_save_to_db :
    (String → Bool) → Bool → List HistoryFile → Option Saved
read_reboot_cause_files_and_save_to_db removes is_npu files = do
  rows ← save is_npu (take max_history_files (newest_first files))
  stored ← remove_files removes (drop max_history_files (newest_first files)) files
  some (record { rows = rows; stored = stored })
