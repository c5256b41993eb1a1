-- ===== src/Grants/Upsert.antt =====
-- service/grants.py: grant_by_principal_id, the write that every way of granting ends in
use text.Mathlib.Text.{starts_with}
use markland.Prelude.{
  refl, String, Bool, true, false, Option, none, some, ◌==◌, not, ◌&&◌, if◌then◌else◌, ◌≡◌, arith,
}
use markland.Model.{Level, PrincipalType, Fresh}
use markland.Effects.{
  Action, ok, ◌>>=◌, ◌>>◌, pure, reads, guard, or_raise, invalid_grant_level, value_error, Conn,
}
use markland.Db.Grants.Laws.{upsert_grant_lem}
use markland.Db.Grants.{upsert_grant, put_grant}

-- `level in _VALID_LEVELS`
unfoldable pub level_of : String → Option Level
level_of level =
    if level == "view" then some Level.view else if level == "edit" then some Level.edit else none

abbrev pub level_text : Level → String
level_text Level.view = "view"
level_text Level.edit = "edit"

-- `principal_type in _VALID_PRINCIPAL_TYPES`
unfoldable pub principal_type_of : String → Option PrincipalType
principal_type_of principal_type =
    if principal_type == "user"
    then some PrincipalType.user
    else if principal_type == "agent"
    then some PrincipalType.agent
    else none

abbrev pub is_agent : PrincipalType → Bool
is_agent PrincipalType.agent = true
is_agent PrincipalType.user = false

unfoldable pub grant_by_principal_id :
    Fresh → String → String → String → String → String → Action (Unit {0})
grant_by_principal_id fresh doc_id principal_id principal_type level granted_by = do
  level ← reads λ _. or_raise (level_of level) invalid_grant_level
  principal_type ←
      reads λ _. or_raise (principal_type_of principal_type) (value_error "principal_type")
  reads λ _.
      guard (not (is_agent principal_type && not (starts_with principal_id "agt_")))
        (value_error "agent principal_id must start with 'agt_'")
  upsert_grant fresh doc_id principal_id principal_type level granted_by
  pure tt

level_of-level_text : (level : Level) → level_of (level_text level) ≡ some level
unfolding level_of
level_of-level_text Level.view = refl
level_of-level_text Level.edit = refl

-- A valid grant is written, committed and nothing else.
pub grant_by_principal_id_lem :
    (fresh : Fresh) (doc_id principal_id principal_type granted_by : String) (t : PrincipalType)
    (level : Level) (c : Conn)
    → principal_type_of principal_type ≡ some t
    → (is_agent t && not (starts_with principal_id "agt_")) ≡ false
    → grant_by_principal_id fresh doc_id principal_id principal_type (level_text level) granted_by c
      ≡ (
        ok tt,
        record c {
          db =
              put_grant
                (record {
                  doc_id = doc_id;
                  principal_id = principal_id;
                  principal_type = t;
                  level = level;
                  granted_by = granted_by;
                  granted_at = fresh.now;
                })
                c.db;
          saved = none;
        },
      )
unfolding grant_by_principal_id
grant_by_principal_id_lem fresh doc_id principal_id principal_type granted_by t level c kind
      prefix =
    ground (
      arith,
      level_of-level_text level,
      upsert_grant_lem fresh doc_id principal_id t level granted_by c,
    )
