-- ===== src/Db/Grants/Laws.antt =====
-- What get_grant sees after an upsert and after a deletion.
use markland.Prelude.{
  String, true, false, none, some, ◌≡◌, refl, arith, eq_iff, eq_refl, fetchone-delete_where_same,
  fetchone_sound, delete_where, fetchone-upsert_where_self, fetchone-upsert_where_ne,
}
use markland.Model.{Grant, PrincipalType, Level, Db, Fresh}
use markland.Effects.{Conn, ok}
use markland.Db.Grants.{has_key, get_grant, put_grant, excluded, upsert_grant}

-- A grant that is found has the key asked for.
pub get_grant-key :
    (db : Db) (doc_id principal_id : String) (g : Grant)
    → get_grant db doc_id principal_id ≡ some g
    → (g.doc_id ≡ doc_id) × (g.principal_id ≡ principal_id)
get_grant-key db doc_id principal_id g h =
    let found = fetchone_sound (has_key doc_id principal_id) db.grants g h in
    ground (arith, eq_iff g.doc_id doc_id, eq_iff g.principal_id principal_id)

module _ (db : Db) (new : Grant) where
  same_key : (g : Grant) → has_key new.doc_id new.principal_id g ≡ true → excluded new g ≡ new
  same_key g h = ground (arith, eq_iff g.doc_id new.doc_id, eq_iff g.principal_id new.principal_id)

  -- The grant that was put is the one found under its key.
  pub get_grant-put_grant_self : get_grant (put_grant new db) new.doc_id new.principal_id ≡ some new
  get_grant-put_grant_self =
      fetchone-upsert_where_self (has_key new.doc_id new.principal_id) (excluded new) new db.grants
        (λ g. refl) same_key (ground (arith, eq_refl new.doc_id, eq_refl new.principal_id))

  other_key :
      (d p : String)
      → has_key d p new ≡ false
      → (g : Grant) → has_key d p g ≡ true
      → has_key new.doc_id new.principal_id g ≡ false
  other_key d p other g h = ground (
    arith,
    eq_iff g.doc_id d,
    eq_iff g.principal_id p,
    eq_iff g.doc_id new.doc_id,
    eq_iff g.principal_id new.principal_id,
    eq_iff new.doc_id d,
    eq_iff new.principal_id p,
  )

  pub get_grant-put_grant_ne :
      (d p : String) → has_key d p new ≡ false → get_grant (put_grant new db) d p ≡ get_grant db d p
  get_grant-put_grant_ne d p other =
      fetchone-upsert_where_ne (has_key new.doc_id new.principal_id) (excluded new) new db.grants
        (has_key d p) (λ g. refl) (other_key d p other) other

-- A deleted grant is not found.
pub get_grant-delete :
    (db : Db) (d p : String)
    → get_grant (record db { grants = delete_where (has_key d p) db.grants }) d p ≡ none
get_grant-delete db d p =
    fetchone-delete_where_same (has_key d p) (has_key d p) db.grants (λ g h. h)

-- upsert_grant writes and commits one grant, and returns it.
pub upsert_grant_lem :
    (fresh : Fresh) (doc_id principal_id : String) (principal_type : PrincipalType) (level : Level)
    (granted_by : String) (c : Conn)
    → let new : Grant = record {
      doc_id = doc_id;
      principal_id = principal_id;
      principal_type = principal_type;
      level = level;
      granted_by = granted_by;
      granted_at = fresh.now;
    } in
      upsert_grant fresh doc_id principal_id principal_type level granted_by c
      ≡ (ok new, record c { db = put_grant new c.db; saved = none })
unfolding upsert_grant
upsert_grant_lem fresh doc_id principal_id principal_type level granted_by c = rw (
    get_grant-put_grant_self c.db (record {
      doc_id = doc_id;
      principal_id = principal_id;
      principal_type = principal_type;
      level = level;
      granted_by = granted_by;
      granted_at = fresh.now;
    }))
