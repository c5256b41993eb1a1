-- ===== src/Users/Upsert.antt =====
-- One account for one email.
use markland.Prelude.{
  String, Option, none, some, List, [], ◌∷◌, ◌≡◌, refl, ap, ◌∙◌, arith, fetchone-append,
  fetchone_one, eq_refl, Option-cases, Bool-cases, inl, inr,
}
use markland.Model.{User, Db}
use markland.Effects.{Conn, ok}
use markland.External.{External}
use markland.Users.{
  new_user, normal_email, has_email, may_insert_user, create_user, get_user_by_email,
  upsert_user_by_email,
}

by_normal_email :
    (x : External) (db : Db) (email' email : String)
    → normal_email x email' ≡ normal_email x email
    → get_user_by_email x db email' ≡ get_user_by_email x db email
unfolding get_user_by_email
by_normal_email x db email' email same = rw same refl

found_again :
    (x : External) (user_id email : String) (display_name : Option String) (c : Conn) (u : User)
    → get_user_by_email x c.db email ≡ some u
    → upsert_user_by_email x user_id email display_name c ≡ (ok u, c)
unfolding upsert_user_by_email
found_again x user_id email display_name c u found = rw found refl

module _ (x : External) (user_id email : String) (display_name : Option String) (c : Conn)
    (u : User) where
  created_found :
      get_user_by_email x c.db email ≡ none
      → (create_user x user_id email display_name c).0 ≡ ok u
      → get_user_by_email x (create_user x user_id email display_name c).1.db email ≡ some u
  unfolding create_user get_user_by_email
  created_found free h = elim (Bool-cases (may_insert_user c.db user_id (normal_email x email))) [
    | inl may ↦
        let row = new_user x user_id email display_name in
        let same : row ≡ u = ground (arith, may, h) in
        let found = fetchone-append (has_email (normal_email x email)) c.db.users (row ∷ []) in
        let own = fetchone_one (has_email (normal_email x email)) row in
        rw may (ground (arith, found, own, free, same, eq_refl (normal_email x email)))
    | inr taken ↦ absurd (ground (arith, taken, h))
  ]

  pub upsert_found :
      (upsert_user_by_email x user_id email display_name c).0 ≡ ok u
      → get_user_by_email x (upsert_user_by_email x user_id email display_name c).1.db email
        ≡ some u
  unfolding upsert_user_by_email
  upsert_found h = elim (Option-cases (get_user_by_email x c.db email)) [
    | inl missing ↦ rw missing (created_found missing (rw missing at h))
    | inr found ↦
        let same : found.0 ≡ u = ground (arith, found.1, h) in rw found.1 (found.1 ∙ ap some same)
  ]

-- a sign-in: the id that a new account would get, the email, and the name
abbrev pub SignIn : Type 0
SignIn = String × (String × Option String)

-- sign-ins one after the other, whatever they come to
abbrev pub sign_ins : External → List SignIn → Conn → Conn
sign_ins x [] c = c
sign_ins x ((user_id, (email, display_name)) ∷ more) c =
    sign_ins x more (upsert_user_by_email x user_id email display_name c).1

upsert_keeps :
    (x : External) (email user_id other : String) (display_name : Option String) (c : Conn)
    (u : User)
    → get_user_by_email x c.db email ≡ some u
    → get_user_by_email x (upsert_user_by_email x user_id other display_name c).1.db email ≡ some u
unfolding upsert_user_by_email create_user get_user_by_email
upsert_keeps x email user_id other display_name c u found =
    let added =
      fetchone-append (has_email (normal_email x email)) c.db.users
        (new_user x user_id other display_name ∷ []) in
    elim (Option-cases (get_user_by_email x c.db other)) [
      | inl e ↦ elim (Bool-cases (may_insert_user c.db user_id (normal_email x other))) [
        | inl may ↦ ground (arith, e, may, found, added)
        | inr taken ↦ ground (arith, e, taken, found)
      ]
      | inr (v, e) ↦ ground (arith, e, found)
    ]

sign_ins_keep :
    (x : External) (email : String) (between : List SignIn) (c : Conn) (u : User)
    → get_user_by_email x c.db email ≡ some u
    → get_user_by_email x (sign_ins x between c).db email ≡ some u
sign_ins_keep x email [] c u found = found
sign_ins_keep x email ((user_id, (other, display_name)) ∷ more) c u found =
    sign_ins_keep x email more _ u (upsert_keeps x email user_id other display_name c u found)

-- One email has one account: once a sign-in by email has returned a user, and after any further sign-ins,
-- whatever their emails and outcomes, a sign-in with an email that is the same but for case and
-- surrounding space returns that user and changes nothing.
pub upsert_user_by_email-one_account :
    (x : External) (user_id user_id' email email' : String)
    (display_name display_name' : Option String) (between : List SignIn) (c : Conn) (u : User)
    → normal_email x email' ≡ normal_email x email
    → (upsert_user_by_email x user_id email display_name c).0 ≡ ok u
    → upsert_user_by_email x user_id' email' display_name'
        (sign_ins x between (upsert_user_by_email x user_id email display_name c).1)
      ≡ (ok u, sign_ins x between (upsert_user_by_email x user_id email display_name c).1)
upsert_user_by_email-one_account x user_id user_id' email email' display_name display_name' between
      c u same h =
    let first = (upsert_user_by_email x user_id email display_name c).1 in
    let after = sign_ins x between first in
    found_again x user_id' email' display_name' after u (
      by_normal_email x after.db email' email same
      ∙ sign_ins_keep x email between first u (upsert_found x user_id email display_name c u h))
