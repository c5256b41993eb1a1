-- ===== src/Grants/Target.antt =====
-- service/grants.py: whom a grant's target names
use text.Mathlib.Text.{starts_with}
use markland.Prelude.{
  String, Bool, Option, none, some, ◌==◌, ◌&&◌, is_some, fetchone, strip, has_char, lower_eq,
  if◌then◌else◌,
}
use markland.Model.{User, Agent, Level, Db}
use markland.Effects.{Result, ok, err, grant_target_not_found, agent_grants_not_supported}
use markland.Permissions.{is_user}

-- the id and the stored email
unfoldable pub lookup_user_by_email : Db → String → Option User
lookup_user_by_email db email = fetchone (λ u. lower_eq u.email (strip email)) db.users

abbrev pub has_at : String → Bool
has_at = has_char b'@'

abbrev pub user_or_not_found : Option User → Result User
user_or_not_found none = err (grant_target_not_found "No Markland user with email")
user_or_not_found (some u) = ok u

unfoldable pub resolve_target : Db → String → Result User
unfolding lookup_user_by_email
resolve_target db target =
    let t = strip target in
    if starts_with t "agt_"
    then err agent_grants_not_supported
    else if has_at t
    then user_or_not_found (lookup_user_by_email db t)
    else err (grant_target_not_found "Grant target must be an email address or agt_ id")

unfoldable pub find_agent : Db → String → Option Agent
find_agent db agent_id = fetchone (λ a. a.id == agent_id) db.agents

unfoldable pub find_user : Db → String → Option User
find_user db user_id = fetchone (λ u. u.id == user_id) db.users

-- the level of a user's grant on the document, by the user's email
unfoldable pub prior_level : Db → String → String → Option Level
prior_level db doc_id email =
    elim (fetchone
      (λ g.
        g.doc_id == doc_id
        && is_some (fetchone (λ u. u.id == g.principal_id && lower_eq u.email email) db.users)
        && is_user g.principal_type)
      db.grants) [ none ↦ none | some g ↦ some g.level ]
