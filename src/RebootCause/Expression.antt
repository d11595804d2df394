-- ===== src/RebootCause/Expression.antt =====
-- The texts that scripts/determine-reboot-cause reads, and its regular expressions.
use sonic_host_services.Base.{ℕ, Option, none, some, [], ◌∷◌, ◌==◌, if◌then◌else◌, length, drop}
use sonic_host_services.Base.Text.{Text, codes, startswith}

-- `readline().rstrip('\n')`
unfoldable pub until_newline : Text → Text
until_newline [] = []
until_newline (c ∷ s) = let rest = until_newline s in if c == 10 then [] else c ∷ rest

module _ {R : Type 0} where
  abbrev pub prepend : ℕ → Text × R → Text × R
  prepend c (group, r) = (c ∷ group, r)

  abbrev pub here_or : Option R → Option (Text × R)
  here_or none = none
  here_or (some r) = some ([], r)

  abbrev pub longer_or : ℕ → Option (Text × R) → Option R → Option (Text × R)
  longer_or c none here = here_or here
  longer_or c (some longer) here = some (prepend c longer)

  -- `(.*)` before a separator that is not empty and what follows it: the longest group first, which
  -- has no line end.
  unfoldable pub greedy : Text → (Text → Option R) → Text → Option (Text × R)
  greedy sep follow [] = none
  greedy sep follow (c ∷ s) =
      let longer = greedy sep follow s in
      longer_or c (if c == 10 then none else longer)
        (if startswith (c ∷ s) sep then follow (drop (length sep) (c ∷ s)) else none)

  abbrev pub first_of : Option R → Option R → Option R
  first_of none later = later
  first_of (some r) later = some r

  -- `re.search`: the first place where the expression matches.
  unfoldable pub search : Text → (Text → Option R) → Text → Option R
  search start follow [] = none
  search start follow (c ∷ s) =
      let later = search start follow s in
      first_of (if startswith (c ∷ s) start then follow (drop (length start) (c ∷ s)) else none)
        later

pub record Issued : Type 0 where
  pub command : Text
  pub user : Text
  pub time : Text

abbrev pub anything : Text → Option Text
anything rest = some rest

-- The time up to the last bracket and what follows it, before it the user, and before that the
-- command.
abbrev pub match_time : Text → Option (Text × Text)
match_time = greedy (codes "]") anything

abbrev pub match_user : Text → Option (Text × (Text × Text))
match_user = greedy (codes ", Time: ") match_time

abbrev pub match_command : Text → Option (Text × (Text × (Text × Text)))
match_command = greedy (codes "' command [User: ") match_user

abbrev issued : Option (Text × (Text × (Text × Text))) → Option Issued
issued none = none
issued (some m) = some (record { command = m.0; user = m.1.0; time = m.1.1.0 })

unfoldable pub search_user : Text → Option Issued
search_user text = issued (search (codes "User issued '") match_command text)

abbrev panic_time : Option (Text × Text) → Option Text
panic_time none = none
panic_time (some m) = some m.0

unfoldable pub search_panic : Text → Option Text
search_panic text = panic_time (search (codes "Kernel Panic [Time: ") match_time text)
