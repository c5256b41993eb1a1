-- ===== src/Web/Auth/Login.antt =====
-- A login makes a session, and a logout ends it.
use markland.Prelude.{
  ℕ, ◌+◌, String, false, none, some, ◌≡◌, ◌≢◌, refl, sym, ap, ◌∙◌, inl, inr, ◌⊎◌, arith, is_empty,
  eq_refl, subst, fetchone_finds,
}
use markland.Model.{User, Fresh, Db}
use markland.Effects.{invalid_session, invalid_magic_link, Conn, Result, ok, err, Error}
use markland.Users.{normal_email, upsert_user_by_email, get_user_by_email, has_email, normal_email}
use markland.Users.Upsert.{upsert_found}
use markland.Sessions.{
  Payload, has_user_id, read_user_epoch, issue_session, read_session, session_max_age_seconds,
  bump_session_epoch, check_current,
}
use markland.Sessions.Revocation.{
  Unsigns, Loads, issued_payload, read_session-checked, bump_session_epoch_lem,
}
use markland.Web.{
  set_cookie, pure, ◌>>=◌, Site, Request, Reply, returned, uncaught, answer, seconds, catching,
  Cookie,
}
use markland.Web.Inversion.{pure-state, bind-returned, uncaught-returned}
use markland.Web.Session.{user_id_of_payload, current_user_id}
use markland.Web.Auth.{
  swallow, signed_out, need_secret, consume_link, log_in_email, issue_for, log_in, verify, Verified,
  logout, session_cookie_of, link_error, magic_link_max_age_seconds,
}
use markland.Web.Save.Resume.{later}
use markland.MagicLink.{Loaded, consume_magic_link_token}
use markland.MagicLink.SingleUse.{consumed_link}

-- What itsdangerous loads from the link.
abbrev Names : Site → String → String → Type 0
Names site token email =
    (jti : String) × ((site.links).loads site.session_secret site.loaded_at
        magic_link_max_age_seconds token
      ≡ Loaded.payload (some email) (some jti))

-- The account is that of the email which the link was signed for.
abbrev pub IsOfLink : Site → String → Db → String → Type 0
IsOfLink site token db user_id =
    (email : String) × (Names site token email
      × ((u : User) × ((get_user_by_email site.external db email ≡ some u) × (u.id ≡ user_id))))

-- What a login that returns was made of: the user of the link, and the session that was issued for it.
abbrev LoggedIn : Site → String → Verified → Conn → Type 0
LoggedIn site token v c' =
    (email : String) × (Names site token email
      × ((u : User) × ((cookie : String) × ((d : Conn) × ((upsert_user_by_email site.external
                    site.user_id email none d
                  ≡ (ok u, c'))
                × ((issue_session site.signing (seconds site) u.id site.session_secret
                        session_max_age_seconds (some c'.db)
                      ≡ ok cookie)
                    × (v ≡ record { user_id = u.id; cookie = session_cookie_of cookie })))))))

Result-cases : {A : Type 0} (r : Result A) → ((a : A) × (r ≡ ok a)) ⊎ ((e : Error) × (r ≡ err e))
Result-cases (ok a) = inl (a, refl)
Result-cases (err e) = inr (e, refl)

returned_same : {A : Type 0} {a b : A} → Reply.returned a ≡ returned b → a ≡ b
returned_same h = cc h

link_error-raises : {A : Type 0} (e : Error) (a : A) → link_error e ≢ returned a
link_error-raises (invalid_magic_link m) a h = absurd (cc h)
link_error-raises e a h = absurd (cc h)

link-returned : {A : Type 0} (r : Result A) (a : A) → answer link_error r ≡ returned a → r ≡ ok a
link-returned (ok b) a h = cc h
link-returned (err e) a h = absurd (link_error-raises e a h)

-- the email of a link that was consumed is the one that it names
link_named :
    (site : Site) (token email : String) (c d : Conn)
    → consume_link site token c ≡ (returned email, d)
    → Names site token email
link_named site token email c d h =
    let tried =
      consume_magic_link_token site.links site.loaded_at (seconds site) magic_link_max_age_seconds
        site.session_secret token c in
    consumed_link site.links site.loaded_at (seconds site) magic_link_max_age_seconds
      site.session_secret token c email (link-returned tried.0 email (ap (λ q. q.0) h))

verify_made :
    (site : Site) (token : String) (c c' : Conn) (v : Verified)
    → verify site token c ≡ (returned v, c')
    → LoggedIn site token v c'
unfolding verify
verify_made site token c c' v h =
    let verified : User × String → Verified =
      λ found. record { user_id = (found.0).id; cookie = session_cookie_of found.1 } in
    let (found, (logged, made)) =
      bind-returned (log_in site token) (λ q. pure (verified q)) c c' v h in
    let d1 = (log_in site token c).1 in
    let (none_needed, (configured, linked)) =
      bind-returned (need_secret site) (λ _. consume_link site token >>= log_in_email site) c d1
        found logged in
    let d = (consume_link site token (need_secret site c).1).1 in
    let (email, (consumed, upserted)) =
      bind-returned (consume_link site token) (log_in_email site) (need_secret site c).1 d1 found
        linked in
    let (u, (known, issued)) =
      bind-returned (catching uncaught (upsert_user_by_email site.external site.user_id email none))
        (issue_for site) d d1 found upserted in
    let after = upsert_user_by_email site.external site.user_id email none d in
    let (cookie, (signed, pair)) =
      bind-returned
        (λ (c : Conn). (
          answer uncaught (
              issue_session site.signing (seconds site) u.id site.session_secret
                session_max_age_seconds (some c.db)),
          c,
        ))
        (λ cookie. pure (u, cookie)) after.1 d1 found issued in
    let stored : after.1 ≡ c' = ap (λ q. q.1) pair ∙ ap (λ q. q.1) made in
    let session =
      uncaught-returned
        (issue_session site.signing (seconds site) u.id site.session_secret session_max_age_seconds
          (some (after.1).db))
        cookie (ap (λ q. q.0) signed) in
    (
      email,
      (
        link_named site token email (need_secret site c).1 d consumed,
        (
          u,
          (
            cookie,
            (
              d,
              (
                (λ i. (uncaught-returned after.0 u (ap (λ q. q.0) known) i, stored i)),
                (
                  subst
                      (λ (e : Conn).
                        issue_session site.signing (seconds site) u.id site.session_secret
                          session_max_age_seconds (some e.db)
                        ≡ ok cookie)
                      stored session,
                  sym (returned_same (ap (λ q. q.0) made))
                      ∙ ap verified (sym (returned_same (ap (λ q. q.0) pair))),
                ),
              ),
            ),
          ),
        ),
      ),
    )

upsert_stored :
    (site : Site) (email : String) (d c' : Conn) (u : User)
    → upsert_user_by_email site.external site.user_id email none d ≡ (ok u, c')
    → get_user_by_email site.external c'.db email ≡ some u
upsert_stored site email d c' u h =
    subst (λ (q : Conn). get_user_by_email site.external q.db email ≡ some u) (ap (λ q. q.1) h)
      (upsert_found site.external site.user_id email none d u (ap (λ q. q.0) h))

stored_epoch :
    (site : Site) (email : String) (d c' : Conn) (u : User)
    → upsert_user_by_email site.external site.user_id email none d ≡ (ok u, c')
    → (e : ℕ) × (read_user_epoch c'.db u.id ≡ some e)
unfolding read_user_epoch get_user_by_email
stored_epoch site email d c' u h =
    let here = upsert_stored site email d c' u h in
    let (row, named) =
      fetchone_finds (has_email (normal_email site.external email)) (has_user_id u.id) c'.db.users u
        here (eq_refl u.id) in
    (row.session_epoch, rw named refl)

current_accepted : (p : Payload) (e : ℕ) → p.epoch ≡ some e → check_current p (some e) ≡ ok p
current_accepted p e h = ground (arith, h)

behind_refused :
    (p : Payload) (e : ℕ)
    → p.epoch ≡ some e
    → check_current p (some (e + 1)) ≡ err (invalid_session "session revoked")
behind_refused p e h = ground (arith, h)

-- the session that a cookie is read as
abbrev Reading : Site → String → Db → Result Payload → Type 0
Reading site cookie db r =
    read_session site.signing (seconds site) cookie site.session_secret session_max_age_seconds
      (some db)
    ≡ r

read_by :
    (site : Site) (request : Request) (cookie : String) (db : Db) (r : Result Payload)
    → request.principal ≡ none
    → request.session_cookie ≡ cookie
    → is_empty cookie ≡ false
    → is_empty site.session_secret ≡ false
    → Reading site cookie db r
    → current_user_id site request db ≡ user_id_of_payload r
unfolding current_user_id
read_by site request cookie db r no_token same full secret reading =
    simp (no_token, same, full, secret, reading) refl

logout-state :
    (site : Site) (request : Request) (cookie : String) (p : Payload) (c : Conn)
    → request.session_cookie ≡ cookie
    → is_empty cookie ≡ false
    → is_empty site.session_secret ≡ false
    → Reading site cookie c.db (ok p)
    → (logout site request c).1 ≡ (bump_session_epoch p.user_id c).1
unfolding logout
logout-state site request cookie p c same full secret reading =
    simp (same, full, secret, reading)
      (let (r, after) = bump_session_epoch p.user_id c in
        pure-state (swallow r) (λ _. signed_out) after)

cookie_text : Cookie → String
cookie_text (set_cookie key value max_age) = value
cookie_text _ = ""

-- the user of a login that returned, and the account's epoch after it
verify_user :
    (site : Site) (token : String) (c c' : Conn) (v : Verified)
    → verify site token c ≡ (returned v, c')
    → IsOfLink site token c'.db v.user_id
verify_user site token c c' v h =
    let (email, (named, (u, (text, (d, (stored, (issued, made))))))) =
      verify_made site token c c' v h in
    (
      email,
      (
        named,
        (u, (upsert_stored site email d c' u stored, sym (ap (λ (r : Verified). r.user_id) made))),
      ),
    )

-- A login makes a session of the user whose email the link was signed for, which lasts until a logout. With
-- the cookie of a login that returned, and within its age, a request is one of that user on any connection
-- where the account's epoch is the one that it had after the login; and once there was a logout with that
-- cookie on such a connection, a request is one of nobody on any connection where the epoch is still the
-- one that the logout left. The signatures are taken to be read back within their age.
pub verify-session :
    (site : Site) (fresh : Fresh) (token cookie : String) (c c' held ended : Conn) (v : Verified)
    (request : Request)
    → Unsigns site.signing site.session_secret
        (seconds site)
        (seconds (later site fresh))
        session_max_age_seconds
    → Loads site.signing site.session_secret
    → verify site token c ≡ (returned v, c')
    → v.cookie ≡ session_cookie_of cookie
    → request.principal ≡ none
    → request.session_cookie ≡ cookie
    → read_user_epoch held.db v.user_id ≡ read_user_epoch c'.db v.user_id
    → read_user_epoch ended.db v.user_id
      ≡ read_user_epoch (logout (later site fresh) request held).1.db v.user_id
    → IsOfLink site token c'.db v.user_id
      × (current_user_id (later site fresh) request held.db ≡ some v.user_id)
      × (current_user_id (later site fresh) request ended.db ≡ none)
unfolding current_user_id logout cookie_text
verify-session site fresh token cookie c c' held ended v request unsigns loads h kept no_token same
      unchanged since =
    let (email, (named, (u, (text, (d, (stored, (issued, made))))))) =
      verify_made site token c c' v h in
    let whole : text ≡ cookie =
      ap (λ (r : Verified). cookie_text r.cookie) (sym made) ∙ ap cookie_text kept in
    let (e, epoch) = stored_epoch site email d c' u stored in
    let now = seconds (later site fresh) in
    let secret = site.session_secret in
    let owner : v.user_id ≡ u.id = ap (λ (r : Verified). r.user_id) made in
    let signed =
      subst
        (λ t.
          issue_session site.signing (seconds site) u.id secret session_max_age_seconds (some c'.db)
          ≡ ok t)
        whole issued in
    let read_at = λ (db : Db).
      read_session-checked site.signing secret u.id cookie (seconds site) now
        session_max_age_seconds e c'.db db unsigns loads signed epoch in
    let p = issued_payload u.id (seconds site + session_max_age_seconds) e in
    let held_epoch : read_user_epoch held.db u.id ≡ some e =
      subst (λ i. read_user_epoch held.db i ≡ read_user_epoch c'.db i) owner unchanged ∙ epoch in
    let accepted =
      (read_at held.db).0 ∙ ap (check_current p) held_epoch ∙ current_accepted p e refl in
    let full = (read_at held.db).1 in
    let out = logout-state (later site fresh) request cookie p held same full.0 full.1 accepted in
    let raised : read_user_epoch ended.db u.id ≡ some (e + 1) =
      subst
        (λ i.
          read_user_epoch ended.db i
          ≡ read_user_epoch (logout (later site fresh) request held).1.db i)
        owner since
      ∙ ap (λ (q : Conn). read_user_epoch q.db u.id) out
      ∙ (bump_session_epoch_lem u.id held e held_epoch).1 in
    let refused = (read_at ended.db).0 ∙ ap (check_current p) raised ∙ behind_refused p e refl in
    (
      verify_user site token c c' v h,
      read_by (later site fresh) request cookie held.db (ok p) no_token same full.0 full.1 accepted
          ∙ ap some (sym owner),
      read_by (later site fresh) request cookie ended.db (err (invalid_session "session revoked"))
          no_token same full.0 full.1 refused,
    )
