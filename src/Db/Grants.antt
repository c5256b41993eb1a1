-- ===== src/Db/Grants.antt =====
-- db.py: the grants table
pub mod Laws
use markland.Prelude.{
  ℕ, String, Bool, true, false, Option, none, some, List, [], ◌∷◌, ◌++◌, ◌==◌, ◌&&◌, is_some,
  fetchone, select, upsert_where, delete_where, order_asc,
}
use markland.Model.{Grant, PrincipalType, Level, Db, Fresh}
use markland.Effects.{
  Action, ◌>>=◌, ◌>>◌, pure, reads, gets, or_raise, write, commit, assertion_error,
}

-- PRIMARY KEY (doc_id, principal_id)
abbrev pub has_key : String → String → Grant → Bool
has_key doc_id principal_id g = g.doc_id == doc_id && g.principal_id == principal_id

abbrev pub get_grant : Db → String → String → Option Grant
get_grant db doc_id principal_id = fetchone (has_key doc_id principal_id) db.grants

-- the DO UPDATE SET clause
abbrev pub excluded : Grant → Grant → Grant
excluded new g = record g {
  principal_type = new.principal_type;
  level = new.level;
  granted_by = new.granted_by;
  granted_at = new.granted_at;
}

abbrev pub put_grant : Grant → Db → Db
put_grant new db = record db {
  grants = upsert_where (has_key new.doc_id new.principal_id) (excluded new) new db.grants;
}

unfoldable pub upsert_grant :
    Fresh → String → String → PrincipalType → Level → String → Action Grant
upsert_grant fresh doc_id principal_id principal_type level granted_by = do
  write (
      put_grant (record {
        doc_id = doc_id;
        principal_id = principal_id;
        principal_type = principal_type;
        level = level;
        granted_by = granted_by;
        granted_at = fresh.now;
      }))
  commit
  reads λ db. or_raise (get_grant db doc_id principal_id) assertion_error

unfoldable pub delete_grant : String → String → Action Bool
delete_grant doc_id principal_id = do
  found ← gets λ db. is_some (get_grant db doc_id principal_id)
  write λ db. record db { grants = delete_where (has_key doc_id principal_id) db.grants }
  commit
  pure found

unfoldable pub list_grants_for_doc : Db → String → List Grant
list_grants_for_doc db doc_id =
    order_asc (λ g. g.granted_at) (select (λ g. g.doc_id == doc_id) db.grants)
