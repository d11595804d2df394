-- ===== src/Featured/Tables/Resync.antt =====
-- What a resynchronisation leaves in a FEATURE table.
use sonic_host_services.Base.{
  Bool, true, false, not, ◌&&◌, ◌||◌, Option, none, some, String, ◌≡◌, refl, ◌∙◌, ap, sym, subst,
  arith, if◌then◌else◌, str_eq, eq_iff,
}
use sonic_host_services.Base.Dict.{lookup, lookup-insert}
use sonic_host_services.Featured.{
  State, enabled, disabled, always_enabled, always_disabled, StateField, valid, template, Entry, Db,
  Feature,
}
use sonic_host_services.Featured.Tables.{
  resync_db, get_entry, entry_or, put_entry, same_state, feature_state_is_template,
  feature_state_is_immutable, field_of,
}

pub get_entry-put_entry :
    (name j : String) (e : Entry) (db : Db)
    → get_entry j (put_entry name e db) ≡ (if str_eq name j then e else get_entry j db)
get_entry-put_entry name j e db =
    rw (lookup-insert name j e db.entries) (entry_or-if (str_eq name j) e (lookup j db.entries))
  where
    entry_or-if :
        (b : Bool) (e : Entry) (o : Option Entry)
        → entry_or (if b then some e else o) ≡ (if b then e else entry_or o)
    entry_or-if true e o = refl
    entry_or-if false e o = refl

-- The state that a table should hold: the daemon's if that is immutable, or if the table has no
-- valid one, and otherwise the table's own, which a user may have put there.
abbrev pub resolved : State → Option StateField → State
resolved always_enabled o = always_enabled
resolved always_disabled o = always_disabled
resolved s (some (valid t)) = t
resolved s _ = s

same_state-resolved :
    (s : State) (o : Option StateField)
    → (if not (same_state (some s) o)
          && (feature_state_is_immutable (some s) || feature_state_is_template o)
        then some (valid s)
        else o)
      ≡ some (valid (resolved s o))
same_state-resolved enabled none = refl
same_state-resolved enabled (some template) = refl
same_state-resolved enabled (some (valid t)) = ground arith
same_state-resolved disabled none = refl
same_state-resolved disabled (some template) = refl
same_state-resolved disabled (some (valid t)) = ground arith
same_state-resolved always_enabled none = refl
same_state-resolved always_enabled (some template) = refl
same_state-resolved always_enabled (some (valid t)) = ground arith
same_state-resolved always_disabled none = refl
same_state-resolved always_disabled (some template) = refl
same_state-resolved always_disabled (some (valid t)) = ground arith

-- Whether a resynchronisation writes.
abbrev writes : Option State → Option StateField → Bool
writes s o = not (same_state s o) && (feature_state_is_immutable s || feature_state_is_template o)

writes-resolved :
    (s : State) (o : Option StateField) → writes (some s) (some (valid (resolved s o))) ≡ false
writes-resolved enabled none = refl
writes-resolved enabled (some template) = refl
writes-resolved enabled (some (valid t)) = ground arith
writes-resolved disabled none = refl
writes-resolved disabled (some template) = refl
writes-resolved disabled (some (valid t)) = ground arith
writes-resolved always_enabled o = refl
writes-resolved always_disabled o = refl

get_entry-if :
    (b : Bool) (name : String) (e : Entry) (db : Db)
    → get_entry name (if b then put_entry name e db else db) ≡ (if b then e else get_entry name db)
get_entry-if true name e db =
    get_entry-put_entry name name e db ∙ rw ((eq_iff name name).1 refl) refl
get_entry-if false name e db = refl

state-if :
    (b : Bool) (x y : Option StateField) (e : Entry)
    → (if b then record e { state = x } else e).state ≡ (if b then x else e.state)
state-if true x y e = refl
state-if false x y e = refl

resync_db-settled :
    (f : Feature) (db : Db)
    → writes f.state (get_entry f.name db).state ≡ false
    → resync_db f db ≡ db
unfolding resync_db
resync_db-settled f db h = rw h refl

-- After a resynchronisation the entry of a feature with a state holds the resolved state.
pub get_entry-resync_db :
    (f : Feature) (s : State) (db : Db)
    → f.state ≡ some s
    → (get_entry f.name (resync_db f db)).state
      ≡ some (valid (resolved s (get_entry f.name db).state))
unfolding resync_db
get_entry-resync_db f s db h =
    let e = get_entry f.name db in
    let b = writes f.state e.state in
    ap (λ (x : Entry). x.state)
      (get_entry-if b f.name (record e { state = some (field_of f.state) }) db)
    ∙ state-if b (some (field_of f.state)) none e
    ∙ rw h (same_state-resolved s e.state)

-- A second resynchronisation of a feature with a state changes nothing, and writes nothing.
pub resync_db_twice :
    (f : Feature) (s : State) (db : Db)
    → f.state ≡ some s
    → resync_db f (resync_db f db) ≡ resync_db f db
resync_db_twice f s db h =
    let t = resync_db f db in
    resync_db-settled f t (
      subst (λ o. writes f.state o ≡ false) (sym (get_entry-resync_db f s db h))
        (rw h (writes-resolved s (get_entry f.name db).state)))
