-- ===== src/Host/SshMgmt/Contents.antt =====
-- The contents of the files after copies and removals.
use sonic_host_services.Base.{
  ℕ, false, ◌&&◌, some, List, [], ◌∷◌, String, str_eq, eq_iff, ◌≡◌, refl, ◌∙◌, arith, ◌==◌,
  if◌then◌else◌, All,
}
use sonic_host_services.Base.Text.{Text}
use sonic_host_services.Host.Files.{remove, Files, content, copy, is_file}
use sonic_host_services.Host.Files.Laws.{
  content-copy, content-copy_other, content-move, content-remove,
}
use sonic_host_services.Host.SshMgmt.{
  or_code, remove_entries, copy_each, Place, ask, try_copy, copy_file,
}

content-ask : (j : String) (fs : Files Text) → content j (ask fs).0 ≡ content j fs
unfolding ask
content-ask j fs = refl

pub try_copy-other :
    (src : String) (dest : Place) (j : String) (fs : Files Text)
    → str_eq dest.path j ≡ false
    → str_eq dest.temp j ≡ false
    → content j (try_copy src dest fs).0 ≡ content j fs
unfolding try_copy
try_copy-other src dest j fs p t =
    let fs1 = (ask fs).0 in
    let fs2 = (copy src dest.temp fs1).0 in
    ground (
      arith,
      content-ask j fs,
      content-copy_other src dest.temp j fs1 t,
      content-move dest.temp dest.path j fs2,
    )

pub try_copy-at :
    (src : String) (dest : Place) (fs : Files Text)
    → str_eq dest.temp dest.path ≡ false
    → content dest.path (try_copy src dest fs).0
      ≡ (if (try_copy src dest fs).1 then content src fs else content dest.path fs)
unfolding try_copy
try_copy-at src dest fs t =
    let fs1 = (ask fs).0 in
    let fs2 = (copy src dest.temp fs1).0 in
    ground (
      arith,
      content-ask src fs,
      content-ask dest.path fs,
      content-copy src dest.temp fs1,
      content-copy_other src dest.temp dest.path fs1 t,
      content-move dest.temp dest.path dest.path fs2,
      eq_iff dest.path dest.path,
    )

-- A copy touches its destination and the temporary file beside it.
pub copy_file-other :
    (src : String) (dest : Place) (j : String) (fs : Files Text)
    → str_eq dest.path j ≡ false
    → str_eq dest.temp j ≡ false
    → content j (copy_file src dest fs).0 ≡ content j fs
unfolding copy_file
copy_file-other src dest j fs p t =
    let fs1 = (try_copy src dest fs).0 in
    ground (arith, try_copy-other src dest j fs p t, content-remove dest.temp j fs1)

-- The destination has the source's content if the copy succeeded and there is a source, and its
-- own otherwise.
pub copy_file-at :
    (src : String) (dest : Place) (fs : Files Text)
    → str_eq dest.temp dest.path ≡ false
    → content dest.path (copy_file src dest fs).0 ≡ (
        if is_file src fs && (copy_file src dest fs).1.0 == 0
        then content src fs
        else content dest.path fs)
unfolding copy_file
copy_file-at src dest fs t =
    let fs1 = (try_copy src dest fs).0 in
    ground (arith, try_copy-at src dest fs t, content-remove dest.temp dest.path fs1)

-- A copy to the destination touches neither the path nor what is beside it.
abbrev pub Apart : String → Place → Type 0
Apart j dest = (str_eq dest.path j ≡ false) × (str_eq dest.temp j ≡ false)

pub copy_each-other :
    (j : String) (srcs : List String) (dests : List Place) (fs : Files Text)
    → All (Apart j) dests
    → content j (copy_each srcs dests fs).0 ≡ content j fs
unfolding copy_each
copy_each-other j [] dests fs apart = refl
copy_each-other j (src ∷ srcs) [] fs apart = refl
copy_each-other j (src ∷ srcs) (dest ∷ dests) fs ((p, t), apart) =
    copy_each-other j srcs dests (copy_file src dest fs).0 apart ∙ copy_file-other src dest j fs p t

-- The copies bring the source to the destination: a later one does not touch the destination, an
-- earlier one not the source.
pub data Delivers (src : String) (dest : Place) : List String → List Place → Type 0 where
  here :
      {srcs : List String} {dests : List Place}
      → All (Apart dest.path) dests
      → Delivers src dest (src ∷ srcs) (dest ∷ dests)
  there :
      {srcs : List String} {dests : List Place} {s : String} {d : Place}
      → Apart src d
      → Delivers src dest srcs dests
      → Delivers src dest (s ∷ srcs) (d ∷ dests)

pub or_code-zero : (code other : ℕ) → or_code code other ≡ 0 → (code ≡ 0) × (other ≡ 0)
or_code-zero code other h = ground arith

pub copy_file-some :
    (src : String) (dest : Place) (c : Text) (fs : Files Text)
    → str_eq dest.temp dest.path ≡ false
    → content src fs ≡ some c
    → (copy_file src dest fs).1.0 ≡ 0
    → content dest.path (copy_file src dest fs).0 ≡ some c
copy_file-some src dest c fs t there_ ok = ground (arith, copy_file-at src dest fs t)

pub copy_each-Delivers :
    (src : String) (dest : Place) (c : Text) (srcs : List String) (dests : List Place)
    (fs : Files Text)
    → Delivers src dest srcs dests
    → str_eq dest.temp dest.path ≡ false
    → content src fs ≡ some c
    → (copy_each srcs dests fs).1.0 ≡ 0
    → content dest.path (copy_each srcs dests fs).0 ≡ some c
unfolding copy_each
copy_each-Delivers src dest c [] dests fs d t found ok = elim d [ ]
copy_each-Delivers src dest c (s ∷ srcs) [] fs d t found ok = elim d [ ]
copy_each-Delivers src dest c (s ∷ srcs) (d ∷ dests) fs (here later) t found ok =
    let fs1 = (copy_file src dest fs).0 in
    let zeros = or_code-zero (copy_file src dest fs).1.0 (copy_each srcs dests fs1).1.0 ok in
    copy_each-other dest.path srcs dests fs1 later ∙ copy_file-some src dest c fs t found zeros.0
copy_each-Delivers src dest c (s ∷ srcs) (d ∷ dests) fs (there (p, q) rest) t found ok =
    let fs1 = (copy_file s d fs).0 in
    let zeros = or_code-zero (copy_file s d fs).1.0 (copy_each srcs dests fs1).1.0 ok in
    copy_each-Delivers src dest c srcs dests fs1 rest t (copy_file-other s d src fs p q ∙ found)
      zeros.1

pub remove_entries-other :
    (j : String) (paths : List String) (fs : Files Text)
    → All (λ path. str_eq path j ≡ false) paths
    → content j (remove_entries paths fs).0 ≡ content j fs
unfolding remove_entries
remove_entries-other j [] fs apart = refl
remove_entries-other j (path ∷ paths) fs (p, apart) = ground (
  arith,
  content-remove path j fs,
  remove_entries-other j paths (remove path fs).0 apart,
  remove_entries-other j paths fs apart,
)
