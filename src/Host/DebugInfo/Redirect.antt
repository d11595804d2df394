-- ===== src/Host/DebugInfo/Redirect.antt =====
-- The commands of debug_info.py: their text, and where their output goes.
use sonic_host_services.Base.{
  Bool, true, false, ◌||◌, Option, none, some, [], ◌∷◌, length, drop, if◌then◌else◌,
}
use sonic_host_services.Base.Text.{Text, codes, startswith, occurs, lstrip, rstrip}

-- The text before the first occurrence of a part, and the text after it.
unfoldable pub before : Text → Text → Text
before part [] = []
before part (c ∷ text) =
    let rest = before part text in if startswith (c ∷ text) part then [] else c ∷ rest

unfoldable pub after : Text → Text → Text
after part [] = []
after part (c ∷ text) =
    let rest = after part text in
    if startswith (c ∷ text) part then drop (length part) (c ∷ text) else rest

-- A file that the output goes to, and whether it is appended.
pub record Output : Type 0 where
  pub out_file : Text
  pub append : Bool

-- A command before it is split into its words.
pub record Invocation : Type 0 where
  pub actual_cmd : Text
  pub output : Option Output

abbrev pub redirected : Text → Bool → Text → Invocation
redirected sep append cmd = record {
  actual_cmd = before sep cmd;
  output =
      some (record { out_file = rstrip (lstrip (before sep (after sep cmd))); append = append });
}

unfoldable pub invocation : Text → Invocation
unfolding before after lstrip rstrip
invocation cmd =
    let appends = occurs (codes " >> ") cmd in
    let writes = occurs (codes " > ") cmd in
    if writes || appends
    then (if appends
        then redirected (codes " >> ") true cmd
        else redirected (codes " > ") false cmd)
    else record { actual_cmd = cmd; output = none }
