-- ===== src/Db/Revisions.antt =====
-- db.py: the revisions table. AUTOINCREMENT ids rise, so the rows stand in the order of their ids.
pub mod Laws
use markland.Prelude.{
  ℕ, String, Bool, true, false, Option, none, some, List, [], ◌∷◌, ◌++◌, ◌+◌, ◌-◌, ◌==◌, ◌&&◌, not,
  is_some, length, select, delete_where, leb, ltb, if◌then◌else◌,
}
use markland.Model.{Revision, PrincipalType, Db, Fresh}
use markland.Effects.{
  Action, ◌>>=◌, ◌>>◌, pure, reads, gets, guard, begin_implicit, write, integrity_error,
}
use markland.Db.Documents.{get_document}

abbrev pub of_doc : String → Revision → Bool
of_doc doc_id r = r.doc_id == doc_id

abbrev pub append_revision : Revision → Db → Db
append_revision r db = record db {
  revisions = db.revisions ++ r ∷ [];
  next_revision = db.next_revision + 1;
}

-- It does not commit.
unfoldable pub insert_revision :
    Fresh → String → ℕ → String → String → Option String → Option PrincipalType → Action ℕ
insert_revision fresh doc_id version title content principal_id principal_type = do
  begin_implicit
  reads λ db. guard (is_some (get_document db doc_id)) integrity_error
  new ← gets λ db. db.next_revision
  write (
      append_revision (record {
        id = new;
        doc_id = doc_id;
        version = version;
        title = title;
        content = content;
        principal_id = principal_id;
        principal_type = principal_type;
        created_at = fresh.now;
      }))
  pure new

unfoldable pub count_revisions : Db → String → ℕ
count_revisions db doc_id = length (select (of_doc doc_id) db.revisions)

-- Of the rows that meet `p`, the last `keep` stay: a row goes if at least `keep` such rows follow it.
unfoldable pub keep_last {ℓ} : {A : Type ℓ} → (A → Bool) → ℕ → List A → List A
keep_last p keep [] = []
keep_last p keep (x ∷ xs) =
    let rest = keep_last p keep xs in
    if p x && leb keep (length (select p xs)) then rest else x ∷ rest

unfoldable pub prune_revisions : String → ℕ → Action ℕ
prune_revisions doc_id keep = do
  before ← gets λ db. count_revisions db doc_id
  write λ db. record db { revisions = keep_last (of_doc doc_id) keep db.revisions }
  after ← gets λ db. count_revisions db doc_id
  pure (before - after)
