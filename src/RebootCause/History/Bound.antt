-- ===== src/RebootCause/History/Bound.antt =====
-- How many causes are kept, and which.
use sonic_host_services.Base.{
  All, Bool, List, String, Yields, Yields-bind, Yields-elim, Yields-refl, [], ap, arith, by_test,
  drop, eq_iff, false, if◌then◌else◌, length, ltb, ltb→lt, lt→ltb, none, refl, some, str_eq, subst,
  suc, sym, take, true, zero, ℕ, ◌++◌, ◌∙◌, ◌∷◌, ◌≡◌, ◌≤◌,
}
use mathlib.Core.Logic.{∥∥₁_elim}
use Prim.Native.Nat.{min}
use mathlib.Core.List.{Perm, Permᴰ, Perm-prop}
use mathlib.Core.List.Perm
use sonic_host_services.RebootCause.History.{
  without_file, remove_files, HistoryFile, insert_newest, newest_first, save, Saved,
  read_reboot_cause_files_and_save_to_db, max_history_files,
}

-- No file is older than one after it.
abbrev pub NewestFirst : List HistoryFile → Type 0
NewestFirst [] = Unit
NewestFirst (f ∷ fs) = All (λ (g : HistoryFile). g.mtime ≤ f.mtime) fs × NewestFirst fs

insert_newest-All :
    (P : HistoryFile → Type 0) (f : HistoryFile) (fs : List HistoryFile)
    → P f
    → All P fs
    → All P (insert_newest f fs)
unfolding insert_newest
insert_newest-All P f [] h k = (h, tt)
insert_newest-All P f (g ∷ gs) h k =
    by_test (All P) (ltb f.mtime g.mtime) (g ∷ insert_newest f gs) (f ∷ g ∷ gs)
      (λ e. (k.0, insert_newest-All P f gs h k.1)) (λ e. (h, k))

older-All :
    (m n : ℕ) (fs : List HistoryFile)
    → m ≤ n
    → All (λ (g : HistoryFile). g.mtime ≤ m) fs
    → All (λ (g : HistoryFile). g.mtime ≤ n) fs
older-All m n [] h k = tt
older-All m n (f ∷ fs) h k = (omega (arith, h, k.0), older-All m n fs h k.1)

insert_newest-NewestFirst :
    (f : HistoryFile) (fs : List HistoryFile) → NewestFirst fs → NewestFirst (insert_newest f fs)
unfolding insert_newest
insert_newest-NewestFirst f [] h = (tt, tt)
insert_newest-NewestFirst f (g ∷ gs) h =
    by_test NewestFirst (ltb f.mtime g.mtime) (g ∷ insert_newest f gs) (f ∷ g ∷ gs)
      (λ e. (
        insert_newest-All (λ (x : HistoryFile). x.mtime ≤ g.mtime) f gs
            (omega (arith, ltb→lt f.mtime g.mtime e)) h.0,
        insert_newest-NewestFirst f gs h.1,
      ))
      (λ e.
        let le : g.mtime ≤ f.mtime = ground (arith, lt→ltb f.mtime g.mtime) in
        ((le, older-All g.mtime f.mtime gs le h.0), h))

newest_first-NewestFirst : (fs : List HistoryFile) → NewestFirst (newest_first fs)
unfolding newest_first
newest_first-NewestFirst [] = tt
newest_first-NewestFirst (f ∷ fs) =
    insert_newest-NewestFirst f (newest_first fs) (newest_first-NewestFirst fs)

All-drop : (P : HistoryFile → Type 0) (n : ℕ) (fs : List HistoryFile) → All P fs → All P (drop n fs)
All-drop P zero fs h = h
All-drop P (suc n) [] h = tt
All-drop P (suc n) (f ∷ fs) h = All-drop P n fs h.1

-- Every file of the second list is at most as new as every file of the first.
abbrev pub Newer : List HistoryFile → List HistoryFile → Type 0
Newer kept removed =
    All (λ (f : HistoryFile). All (λ (g : HistoryFile). g.mtime ≤ f.mtime) removed) kept

take-Newer : (n : ℕ) (fs : List HistoryFile) → NewestFirst fs → Newer (take n fs) (drop n fs)
take-Newer zero fs h = tt
take-Newer (suc n) [] h = tt
take-Newer (suc n) (f ∷ fs) h =
    (All-drop (λ (g : HistoryFile). g.mtime ≤ f.mtime) n fs h.0, take-Newer n fs h.1)

length-take : (n : ℕ) (fs : List HistoryFile) → length (take n fs) ≡ min n (length fs)
length-take zero [] = omega arith
length-take (suc n) [] = omega arith
length-take zero (f ∷ fs) = omega arith
length-take (suc n) (f ∷ fs) = omega (arith, length-take n fs)

-- A directory has a path once.
abbrev pub OtherPath : HistoryFile → HistoryFile → Type 0
OtherPath f g = str_eq g.path f.path ≡ false

abbrev pub Distinct : List HistoryFile → Type 0
Distinct [] = Unit
Distinct (f ∷ fs) = All (OtherPath f) fs × Distinct fs

OtherPath-sym : (f g : HistoryFile) → OtherPath f g → OtherPath g f
OtherPath-sym f g h = ground (arith, eq_iff f.path g.path, eq_iff g.path f.path)

insert_newest-Distinct :
    (f : HistoryFile) (fs : List HistoryFile)
    → All (OtherPath f) fs
    → Distinct fs
    → Distinct (insert_newest f fs)
unfolding insert_newest
insert_newest-Distinct f [] h k = (tt, tt)
insert_newest-Distinct f (g ∷ gs) h k =
    by_test Distinct (ltb f.mtime g.mtime) (g ∷ insert_newest f gs) (f ∷ g ∷ gs)
      (λ e. (
        insert_newest-All (OtherPath g) f gs (OtherPath-sym f g h.0) k.0,
        insert_newest-Distinct f gs h.1 k.1,
      ))
      (λ e. (h, k))

newest_first-All :
    (P : HistoryFile → Type 0) (fs : List HistoryFile) → All P fs → All P (newest_first fs)
unfolding newest_first
newest_first-All P [] h = tt
newest_first-All P (f ∷ fs) h =
    insert_newest-All P f (newest_first fs) h.0 (newest_first-All P fs h.1)

newest_first-Distinct : (fs : List HistoryFile) → Distinct fs → Distinct (newest_first fs)
unfolding newest_first
newest_first-Distinct [] h = tt
newest_first-Distinct (f ∷ fs) h =
    insert_newest-Distinct f (newest_first fs) (newest_first-All (OtherPath f) fs h.0)
      (newest_first-Distinct fs h.1)

insert_newest-Perm : (f : HistoryFile) (fs : List HistoryFile) → Perm (insert_newest f fs) (f ∷ fs)
unfolding insert_newest
insert_newest-Perm f [] = Perm.refl (f ∷ [])
insert_newest-Perm f (g ∷ gs) =
    by_test (λ l. Perm l (f ∷ g ∷ gs)) (ltb f.mtime g.mtime) (g ∷ insert_newest f gs) (f ∷ g ∷ gs)
      (λ e. Perm.trans (Perm.cons g (insert_newest-Perm f gs)) (Perm.swap f g gs))
      (λ e. Perm.refl (f ∷ g ∷ gs))

length-insert_newest :
    (f : HistoryFile) (fs : List HistoryFile) → length (insert_newest f fs) ≡ suc (length fs)
unfolding insert_newest
length-insert_newest f [] = refl
length-insert_newest f (g ∷ gs) = ground (arith, length-insert_newest f gs)

length_newest : (fs : List HistoryFile) → length (newest_first fs) ≡ length fs
unfolding newest_first
length_newest [] = refl
length_newest (f ∷ fs) = length-insert_newest f (newest_first fs) ∙ ap suc (length_newest fs)

newest_first-Perm : (fs : List HistoryFile) → Perm (newest_first fs) fs
unfolding newest_first
newest_first-Perm [] = Perm.refl []
newest_first-Perm (f ∷ fs) =
    Perm.trans (insert_newest-Perm f (newest_first fs)) (Perm.cons f (newest_first-Perm fs))

-- What stays when removing raises nothing.
unfoldable without_all : List HistoryFile → List HistoryFile → List HistoryFile
without_all [] files = files
without_all (x ∷ xs) files = without_all xs (without_file x.path files)

remove_files-without_all :
    (removes : String → Bool) (xs files : List HistoryFile)
    → Yields (remove_files removes xs files) (λ r. r ≡ without_all xs files)
unfolding remove_files without_all
remove_files-without_all removes [] files = refl
remove_files-without_all removes (x ∷ xs) files =
    by_test (λ o. Yields o (λ r. r ≡ without_all (x ∷ xs) files)) (removes x.path)
      (remove_files removes xs (without_file x.path files)) none
      (λ e. remove_files-without_all removes xs (without_file x.path files)) (λ e. tt)

abbrev cons_if : Bool → HistoryFile → List HistoryFile → List HistoryFile
cons_if b f l = if b then l else f ∷ l

cons_if-Perm :
    (b : Bool) (f : HistoryFile) (k l : List HistoryFile)
    → Perm k l
    → Perm (cons_if b f k) (cons_if b f l)
cons_if-Perm true f k l h = h
cons_if-Perm false f k l h = Perm.cons f h

cons_if-swap :
    (b c : Bool) (f g : HistoryFile) (l : List HistoryFile)
    → Perm (cons_if b f (cons_if c g l)) (cons_if c g (cons_if b f l))
cons_if-swap true c f g l = Perm.refl (cons_if c g l)
cons_if-swap false true f g l = Perm.refl (f ∷ l)
cons_if-swap false false f g l = Perm.swap g f l

without_file-Permᴰ :
    (path : String) {k l : List HistoryFile}
    → Permᴰ k l
    → Perm (without_file path k) (without_file path l)
unfolding without_file
without_file-Permᴰ path (Permᴰ.nil) = Perm.refl []
without_file-Permᴰ path (Permᴰ.cons {a} {b} {l₁ = k} {l₂ = l} e d) =
    subst (λ x. Perm (without_file path (a ∷ k)) (without_file path (x ∷ l))) e
      (cons_if-Perm (str_eq a.path path) a (without_file path k) (without_file path l)
        (without_file-Permᴰ path d))
without_file-Permᴰ path (Permᴰ.swap {a} {b} {a' = c} {b' = d} {l} e f) =
    subst (λ x. Perm (without_file path (a ∷ b ∷ l)) (without_file path (x ∷ d ∷ l))) f
      (subst (λ x. Perm (without_file path (a ∷ b ∷ l)) (without_file path (b ∷ x ∷ l))) e
        (cons_if-swap (str_eq a.path path) (str_eq b.path path) a b (without_file path l)))
without_file-Permᴰ path (Permᴰ.trans d e) =
    Perm.trans (without_file-Permᴰ path d) (without_file-Permᴰ path e)

without_file-Perm :
    (path : String) (k l : List HistoryFile)
    → Perm k l
    → Perm (without_file path k) (without_file path l)
without_file-Perm path k l p = ∥∥₁_elim p Perm-prop (without_file-Permᴰ path)

without_all-Perm :
    (xs k l : List HistoryFile) → Perm k l → Perm (without_all xs k) (without_all xs l)
unfolding without_all
without_all-Perm [] k l p = p
without_all-Perm (x ∷ xs) k l p =
    without_all-Perm xs (without_file x.path k) (without_file x.path l)
      (without_file-Perm x.path k l p)

without_other :
    (f : HistoryFile) (fs : List HistoryFile) → All (OtherPath f) fs → without_file f.path fs ≡ fs
unfolding without_file
without_other f [] h = refl
without_other f (g ∷ gs) h = rw (h.0, without_other f gs h.1) refl

without_first :
    (f : HistoryFile) (fs : List HistoryFile)
    → All (OtherPath f) fs
    → without_file f.path (f ∷ fs) ≡ fs
unfolding without_file
without_first f fs h = rw ((eq_iff f.path f.path).1 refl, without_other f fs h) refl

-- Removing other files leaves the first.
without_all-other :
    (f : HistoryFile) (xs fs : List HistoryFile)
    → All (OtherPath f) xs
    → without_all xs (f ∷ fs) ≡ f ∷ without_all xs fs
unfolding without_all without_file
without_all-other f [] fs h = refl
without_all-other f (x ∷ xs) fs h =
    rw (OtherPath-sym f x h.0, without_all-other f xs (without_file x.path fs) h.1) refl

without_all-drop :
    (n : ℕ) (fs : List HistoryFile) → Distinct fs → without_all (drop n fs) fs ≡ take n fs
unfolding without_all
without_all-drop zero [] h = refl
without_all-drop zero (f ∷ fs) h =
    subst (λ l. without_all fs l ≡ []) (sym (without_first f fs h.0)) (without_all-drop zero fs h.1)
without_all-drop (suc n) [] h = refl
without_all-drop (suc n) (f ∷ fs) h =
    rw
      (
        without_all-other f (drop n fs) fs (All-drop (OtherPath f) n fs h.0),
        without_all-drop n fs h.1,
      )
      refl

take-drop : (n : ℕ) (fs : List HistoryFile) → take n fs ++ drop n fs ≡ fs
take-drop zero fs = refl
take-drop (suc n) [] = refl
take-drop (suc n) (f ∷ fs) = ap (λ l. f ∷ l) (take-drop n fs)

-- The files of a directory are split in those that are kept, which `stored` has, and the others: as
-- many are kept as there are, but ten at most, and no other is newer than one that is kept.
pub record Bounded (files stored : List HistoryFile) : Type 0 where
  pub kept : List HistoryFile
  pub others : List HistoryFile
  pub are_stored : Perm stored kept
  pub are_all : Perm (kept ++ others) files
  pub are_ten : length kept ≡ min 10 (length files)
  pub are_newer : Newer kept others

-- If the paths of the directory's files are distinct and nothing raises: afterwards the directory
-- has ten of its files, or all if there are fewer, and no file that is removed is newer than one
-- that is kept.
pub read_reboot_cause_files-Bounded :
    (removes : String → Bool) (is_npu : Bool) (files : List HistoryFile) (s : Saved)
    → Distinct files
    → read_reboot_cause_files_and_save_to_db removes is_npu files ≡ some s
    → Bounded files s.stored
unfolding read_reboot_cause_files_and_save_to_db
read_reboot_cause_files-Bounded removes is_npu files s distinct =
    let sorted = newest_first files in
    Yields-elim (λ (t : Saved). Bounded files t.stored) _ s
      (Yields-bind _ (save is_npu (take max_history_files sorted)) _ (Yields-refl _) (λ rows e.
        Yields-bind _ (remove_files removes (drop max_history_files sorted) files) _
          (remove_files-without_all removes (drop max_history_files sorted) files)
          (λ stored f. record {
            kept = take 10 sorted;
            others = drop 10 sorted;
            are_stored =
                subst (λ l. Perm l (take 10 sorted)) (sym f)
                  (subst (λ l. Perm (without_all (drop 10 sorted) files) l)
                    (without_all-drop 10 sorted (newest_first-Distinct files distinct))
                    (without_all-Perm (drop 10 sorted) files sorted
                      (Perm.symm (newest_first-Perm files))));
            are_all =
                subst (λ l. Perm l files) (sym (take-drop 10 sorted)) (newest_first-Perm files);
            are_ten = length-take 10 sorted ∙ ap (λ n. min 10 n) (length_newest files);
            are_newer = take-Newer 10 sorted (newest_first-NewestFirst files);
          })))
