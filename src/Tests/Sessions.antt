-- ===== src/Tests/Sessions.antt =====
-- Alice signs in, and out; her email is upserted in two spellings.
use markland.Prelude.{
  List, [], ◌∷◌, ℕ, zero, suc, if◌then◌else◌, ◌+◌, String, true, false, Option, none, some, ◌≡◌,
  refl, fetchone, leb, strip,
}
use markland.Model.{User}
use markland.Effects.{ok}
use markland.Permissions.Spec.{is_ok}
use markland.Sessions.{
  Signing, Loaded, read_user_epoch, bump_session_epoch, issue_session, read_session,
}
use markland.Sessions.Revocation.{Loads, Unsigns, read_session-lifetime}
use markland.Users.{upsert_user_by_email, create_user, get_user_by_email, new_user}
use markland.Users.Upsert.{upsert_user_by_email-one_account, SignIn, sign_ins}
use markland.Paging.{Cursor}
use markland.Tests.Paging.{marks, read_marks, marks-laws}
use markland.Tests.Samples.{conn, plain}

-- stand-ins for the serializer and the signer: marks for the numbers, the texts as they are
abbrev epoch_number : Option ℕ → ℕ
epoch_number none = 0
epoch_number (some n) = suc n

abbrev number_epoch : ℕ → Option ℕ
number_epoch zero = none
number_epoch (suc n) = some n

abbrev second_part : ℕ → Option Cursor → Loaded
second_part exp none = Loaded.malformed
second_part exp (some c) =
    Loaded.payload (record { user_id = c.last_id; exp = exp; epoch = number_epoch c.sort_key })

abbrev first_part : Option Cursor → Loaded
first_part none = Loaded.malformed
first_part (some c) = second_part c.sort_key (read_marks c.last_id)

abbrev pub fresh_enough : ℕ → ℕ → Option Cursor → Option String
fresh_enough now max_age none = none
fresh_enough now max_age (some c) = if leb now (c.sort_key + max_age) then some c.last_id else none

abbrev pub stamping : Signing
stamping = record {
  dumps = λ secret p. marks p.exp (marks (epoch_number p.epoch) p.user_id);
  loads = λ secret text. first_part (read_marks text);
  sign = λ secret now text. marks now text;
  unsign = λ secret now max_age text. fresh_enough now max_age (read_marks text);
  csrf_sign = λ secret now text. marks now text;
  csrf_unsign = λ secret now max_age text. fresh_enough now max_age (read_marks text);
}

number_epoch-epoch_number : (o : Option ℕ) → number_epoch (epoch_number o) ≡ o
number_epoch-epoch_number none = refl
number_epoch-epoch_number (some n) = refl

pub stamping-Loads : Loads stamping "key"
stamping-Loads p =
    rw
      (
        (marks-laws p.exp (marks (epoch_number p.epoch) p.user_id)).0,
        (marks-laws (epoch_number p.epoch) p.user_id).0,
        number_epoch-epoch_number p.epoch,
      )
      refl

stamping-Unsigns : Unsigns stamping "key" 10 40 1000
stamping-Unsigns raw = (rw (marks-laws 10 raw).0 refl, (marks-laws 10 raw).1)

abbrev cookie : String
cookie =
    stamping.sign "key" 10
      (stamping.dumps "key" (record { user_id = "usr_alice"; exp = 1010; epoch = some 0 }))

read_session-lifetime_example :
    (is_ok (read_session stamping 40 cookie "key" 1000 (some conn.db)) ≡ true)
    × ((bump_session_epoch "usr_alice" conn).0 ≡ ok 1)
    × (is_ok (
          read_session stamping 40 cookie "key" 1000
            (some (bump_session_epoch "usr_alice" conn).1.db))
        ≡ false)
unfolding issue_session read_user_epoch fetchone
read_session-lifetime_example =
    read_session-lifetime stamping "key" "usr_alice" cookie 10 40 1000 0 0 conn conn.db
      stamping-Unsigns stamping-Loads refl refl refl

abbrev carol : User
carol = new_user plain "usr_carol" " carol@example.com" (some "Carol")

-- Another one signs in, and a third one for whom a taken id was drawn.
abbrev others : List SignIn
others = ("usr_dan", ("dan@example.com", none)) ∷ ("usr_carol", ("eve@example.net", none)) ∷ []

upsert_user_by_email-one_account_example :
    upsert_user_by_email plain "usr_other" "carol@example.com " none (
      sign_ins plain others
        (upsert_user_by_email plain "usr_carol" " carol@example.com" (some "Carol") conn).1)
    ≡ (
      ok carol,
      sign_ins plain others
          (upsert_user_by_email plain "usr_carol" " carol@example.com" (some "Carol") conn).1,
    )
unfolding upsert_user_by_email create_user get_user_by_email fetchone strip
upsert_user_by_email-one_account_example =
    upsert_user_by_email-one_account plain "usr_carol" "usr_other" " carol@example.com"
      "carol@example.com " (some "Carol") none others conn carol refl refl
