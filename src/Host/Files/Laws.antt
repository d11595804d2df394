-- ===== src/Host/Files/Laws.antt =====
-- The contents after a system call, by path.
use sonic_host_services.Base.{
  true, false, ◌&&◌, Option, none, some, List, String, str_eq, eq_iff, ◌≡◌, refl, arith,
  if◌then◌else◌,
}
use sonic_host_services.Base.Dict.{lookup, erase, lookup-insert, lookup-erase}
use sonic_host_services.Host.Files.{
  Files, content, read, write, copy, move, remove, Answer, succeeds, fails, fails_leaving,
  put_content, answer_of, is_success, copy_content, move_content, remove_content,
}

module _ {C : Type 0} where
  pub content-read : (path j : String) (fs : Files C) → content j (read path fs).0 ≡ content j fs
  unfolding read
  content-read path j fs = refl

  pub read-content :
      (path : String) (fs : Files C) (c : C) → (read path fs).1 ≡ some c → content path fs ≡ some c
  unfolding read
  read-content path fs c h = ground arith

  put_content-other :
      (a : Answer C) (path j : String) (c : C) (d : List (String × C))
      → str_eq path j ≡ false
      → lookup j (put_content a path c d) ≡ lookup j d
  put_content-other succeeds path j c d h = ground (arith, lookup-insert path j c d)
  put_content-other fails path j c d h = refl
  put_content-other (fails_leaving k) path j c d h = ground (arith, lookup-insert path j k d)

  put_content_self :
      (a : Answer C) (path : String) (c : C) (d : List (String × C))
      → is_success a ≡ true
      → lookup path (put_content a path c d) ≡ some c
  put_content_self succeeds path c d h =
      ground (arith, lookup-insert path path c d, eq_iff path path)
  put_content_self fails path c d h = cc
  put_content_self (fails_leaving k) path c d h = cc

  -- A write touches its own path alone, and one that succeeds leaves what was written.
  pub content-write_other :
      (path j : String) (c : C) (fs : Files C)
      → str_eq path j ≡ false
      → content j (write path c fs).0 ≡ content j fs
  unfolding write
  content-write_other path j c fs h =
      put_content-other (answer_of fs.answers) path j c fs.contents h

  pub content-write :
      (path : String) (c : C) (fs : Files C)
      → (write path c fs).1 ≡ true
      → content path (write path c fs).0 ≡ some c
  unfolding write
  content-write path c fs h = put_content_self (answer_of fs.answers) path c fs.contents h

  copy_content-other :
      (o : Option C) (dest j : String) (fs : Files C)
      → str_eq dest j ≡ false
      → content j (copy_content o dest fs).0 ≡ content j fs
  copy_content-other none dest j fs h = refl
  copy_content-other (some c) dest j fs h =
      put_content-other (answer_of fs.answers) dest j c fs.contents h

  -- The same of a copy.
  pub content-copy_other :
      (src dest j : String) (fs : Files C)
      → str_eq dest j ≡ false
      → content j (copy src dest fs).0 ≡ content j fs
  unfolding copy
  content-copy_other src dest j fs = copy_content-other (content src fs) dest j fs

  copy_content_self :
      (o : Option C) (dest : String) (fs : Files C)
      → (copy_content o dest fs).1 ≡ true
      → content dest (copy_content o dest fs).0 ≡ o
  copy_content_self none dest fs h = cc
  copy_content_self (some c) dest fs h =
      put_content_self (answer_of fs.answers) dest c fs.contents h

  pub content-copy :
      (src dest : String) (fs : Files C)
      → (copy src dest fs).1 ≡ true
      → content dest (copy src dest fs).0 ≡ content src fs
  unfolding copy
  content-copy src dest fs = copy_content_self (content src fs) dest fs

  move_content-at :
      (o : Option C) (src dest j : String) (fs : Files C)
      → content j (move_content o src dest fs).0 ≡ (
          if (move_content o src dest fs).1
          then (if str_eq dest j then o else if str_eq src j then none else content j fs)
          else content j fs)
  move_content-at none src dest j fs = refl
  move_content-at (some c) src dest j fs =
      ground (arith, lookup-insert dest j c (erase src fs.contents), lookup-erase src j fs.contents)

  -- A move that succeeds leaves the source's content at the destination, and nothing at the source.
  pub content-move :
      (src dest j : String) (fs : Files C)
      → content j (move src dest fs).0 ≡ (
          if (move src dest fs).1
          then (if str_eq dest j
              then content src fs
              else if str_eq src j
              then none
              else content j fs)
          else content j fs)
  unfolding move
  content-move src dest j fs = move_content-at (content src fs) src dest j fs

  remove_content-at :
      (o : Option C) (path j : String) (fs : Files C)
      → content j (remove_content o path fs).0
        ≡ (if (remove_content o path fs).1 && str_eq path j then none else content j fs)
  remove_content-at none path j fs = refl
  remove_content-at (some c) path j fs = ground (arith, lookup-erase path j fs.contents)

  pub content-remove :
      (path j : String) (fs : Files C)
      → content j (remove path fs).0
        ≡ (if (remove path fs).1 && str_eq path j then none else content j fs)
  unfolding remove
  content-remove path j fs = remove_content-at (content path fs) path j fs
