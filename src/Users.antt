-- ===== src/Users.antt =====
-- service/users.py. The metric that is emitted after the commit is not modelled, and a user's created_at
-- is not kept.
pub mod Upsert
use markland.Prelude.{
  String, Bool, true, false, Option, none, some, List, [], ◌∷◌, ◌++◌, ◌==◌, ◌&&◌, not, is_some,
  fetchone, strip,
}
use markland.Model.{User, Db}
use markland.Effects.{
  Action, ◌>>=◌, ◌>>◌, pure, reads, gets, guard, begin_implicit, write, commit, integrity_error,
}
use markland.External.{External}

abbrev pub has_email : String → User → Bool
has_email email u = u.email == email

unfoldable pub get_user_by_id : Db → String → Option User
get_user_by_id db user_id = fetchone (λ u. u.id == user_id) db.users

-- PRIMARY KEY (id), UNIQUE (email)
abbrev pub may_insert_user : Db → String → String → Bool
may_insert_user db user_id email =
    not (is_some (fetchone (λ u. u.id == user_id) db.users))
    && not (is_some (fetchone (has_email email) db.users))

module _ (x : External) where
  -- `email.strip().lower()`
  abbrev pub normal_email : String → String
  normal_email email = x.lower (strip email)

  abbrev pub new_user : String → String → Option String → User
  new_user user_id email display_name = record {
    id = user_id;
    email = normal_email email;
    display_name = display_name;
    is_admin = false;
    session_epoch = 0;
  }

  -- `user_id` is what _generate_user_id returns.
  unfoldable pub create_user : String → String → Option String → Action User
  create_user user_id email display_name = do
    begin_implicit
    reads λ db. guard (may_insert_user db user_id (normal_email email)) integrity_error
    write λ db. record db { users = db.users ++ new_user user_id email display_name ∷ [] }
    commit
    pure (new_user user_id email display_name)

  unfoldable pub get_user_by_email : Db → String → Option User
  get_user_by_email db email = fetchone (has_email (normal_email email)) db.users

  unfoldable pub upsert_user_by_email : String → String → Option String → Action User
  upsert_user_by_email user_id email display_name = do
    existing ← gets λ db. get_user_by_email db email
    elim existing [ some u ↦ pure u | none ↦ create_user user_id email display_name ]
