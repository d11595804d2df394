-- ===== src/Host/Files.antt =====
-- The files that the host modules work on: contents by path, and how the coming system calls end.
-- Any of them may fail; a copy or a write that fails may leave something at its destination. A
-- move within a directory is a rename, which happens whole or not at all.
pub mod Laws
use sonic_host_services.Base.{
  Bool, true, false, Option, none, some, List, [], ◌∷◌, String, if◌then◌else◌,
}
use sonic_host_services.Base.Dict

module _ (C : Type 0) where
  pub data Answer : Type 0 where
    succeeds fails : Answer
    fails_leaving : C → Answer

  pub record Files : Type 0 where
    pub contents : List (String × C)
    pub answers : List Answer

module _ {C : Type 0} where
  -- The answer to the next call, and the files with that answer used up.
  abbrev pub answer_of : List (Answer C) → Answer C
  answer_of [] = succeeds
  answer_of (a ∷ as_) = a

  abbrev pub rest_of : List (Answer C) → List (Answer C)
  rest_of [] = []
  rest_of (a ∷ as_) = as_

  abbrev pub content : String → Files C → Option C
  content path fs = Dict.lookup path fs.contents

  -- os.path.isfile; asking changes nothing and does not fail.
  abbrev pub is_file : String → Files C → Bool
  is_file path fs = elim (content path fs) [ none ↦ false | some c ↦ true ]

  abbrev pub put_content : Answer C → String → C → List (String × C) → List (String × C)
  put_content succeeds path c d = Dict.insert path c d
  put_content fails path c d = d
  put_content (fails_leaving junk) path c d = Dict.insert path junk d

  abbrev pub is_success : Answer C → Bool
  is_success succeeds = true
  is_success _ = false

  -- `open(path, 'w')` and writing to it; the second part says whether no exception came.
  unfoldable pub write : String → C → Files C → Files C × Bool
  write path c fs = (
    record {
      contents = put_content (answer_of fs.answers) path c fs.contents;
      answers = rest_of fs.answers;
    },
    is_success (answer_of fs.answers),
  )

  unfoldable pub read : String → Files C → Files C × Option C
  read path fs = (
    record fs { answers = rest_of fs.answers },
    if is_success (answer_of fs.answers) then content path fs else none,
  )

  -- An exception leaves the contents as they are.
  abbrev pub raised : Files C → Files C × Bool
  raised fs = (record fs { answers = rest_of fs.answers }, false)

  abbrev pub copy_content : Option C → String → Files C → Files C × Bool
  copy_content none dest fs = raised fs
  copy_content (some c) dest fs = (
    record {
      contents = put_content (answer_of fs.answers) dest c fs.contents;
      answers = rest_of fs.answers;
    },
    is_success (answer_of fs.answers),
  )

  -- shutil.copy
  unfoldable pub copy : String → String → Files C → Files C × Bool
  copy src dest fs = copy_content (content src fs) dest fs

  abbrev pub move_content : Option C → String → String → Files C → Files C × Bool
  move_content none src dest fs = raised fs
  move_content (some c) src dest fs =
      if is_success (answer_of fs.answers)
      then (
        record {
          contents = Dict.insert dest c (Dict.erase src fs.contents);
          answers = rest_of fs.answers;
        },
        true,
      )
      else raised fs

  -- shutil.move
  unfoldable pub move : String → String → Files C → Files C × Bool
  move src dest fs = move_content (content src fs) src dest fs

  abbrev pub remove_content : Option C → String → Files C → Files C × Bool
  remove_content none path fs = raised fs
  remove_content (some c) path fs =
      if is_success (answer_of fs.answers)
      then (record { contents = Dict.erase path fs.contents; answers = rest_of fs.answers }, true)
      else raised fs

  -- os.remove
  unfoldable pub remove : String → Files C → Files C × Bool
  remove path fs = remove_content (content path fs) path fs
