-- ===== src/Web/Save/Resume.antt =====
-- A fork or a bookmark that is asked for before the login is made after it.
use markland.Prelude.{
  ℕ, String, Bool, true, false, none, some, ◌≡◌, refl, sym, ap, ◌∙◌, inl, inr, is_empty,
  Option-cases, ◌⊎◌,
}
use markland.Model.{Document, Fresh}
use markland.Effects.{Conn, Result, ok, err, invalid_grant_level}
use markland.Db.Documents.{get_document_by_token}
use markland.Docs.Fork.{user_can_view, fork_document}
use markland.Intents.{
  PendingIntent, IntentAction, intent_action_of, issue_pending_intent, read_pending_intent,
  pending_intent_max_age_seconds,
}
use markland.Intents.Resume.{Reads, issue_pending_intent-read}
use markland.Web.{
  pure, and_then, redirect, ◌>>=◌, Site, Request, Handler, Reply, Redirect, returned,
  http_exception, uncaught, answer, seconds, set_cookie, pending_intent_cookie_name,
}
use markland.Web.Inversion.{pure-state}
use markland.Web.Session.{current_user_id}
use markland.Web.Save.{
  document_url, toggle_bookmark, login_url, start_login_with_intent, fork_doc, add_bookmark, resume,
  resume_intent, resume_action, bookmark_if, fork_target, forgetting, bookmark_viewable, fork_error,
  toggle_bookmark, document_url,
}

-- the route of an action
abbrev pub ask : IntentAction → Site → Request → String → Handler Redirect
ask IntentAction.fork = fork_doc
ask IntentAction.bookmark = add_bookmark

abbrev pub action_text : IntentAction → String
action_text IntentAction.fork = "fork"
action_text IntentAction.bookmark = "bookmark"

-- the answer that sends a visitor to the login, with the intent in a cookie
abbrev pub to_login : String → Redirect
to_login cookie = record {
  url = login_url;
  cookie = set_cookie pending_intent_cookie_name cookie pending_intent_max_age_seconds;
}

-- a request that the visitor makes later
abbrev pub later : Site → Fresh → Site
later site fresh = record site { fresh = fresh }

-- what start_login_with_intent makes of the signed intent
login_reply : Result String → Reply Redirect
login_reply (err e) = uncaught e
login_reply (ok cookie) = returned (to_login cookie)

cookie_of : Reply Redirect → Result String
cookie_of (returned r) = elim r.cookie [
  | set_cookie key value max_age ↦ ok value
  | _ ↦ err invalid_grant_level
]
cookie_of _ = err invalid_grant_level

login_reply-ok :
    (r : Result String) (cookie : String)
    → login_reply r ≡ returned (to_login cookie)
    → r ≡ ok cookie
unfolding login_reply cookie_of
login_reply-ok (ok value) cookie h = ap cookie_of h
login_reply-ok (err e) cookie h = absurd (cc h)

start-reply :
    (r : Result String) (c : Conn)
    → (do cookie ← λ (c : Conn). (answer uncaught r, c); pure (to_login cookie)) c
      ≡ (login_reply r, c)
unfolding login_reply
start-reply (ok cookie) c = refl
start-reply (err e) c = refl

intent_action_of-text :
    (action : IntentAction) → intent_action_of (action_text action) ≡ some action
unfolding intent_action_of
intent_action_of-text IntentAction.fork = refl
intent_action_of-text IntentAction.bookmark = refl

same_intent :
    (intent : PendingIntent) (action : IntentAction) (share_token : String)
    → some intent.action ≡ some action
    → intent.share_token ≡ share_token
    → intent ≡ record { action = action; share_token = share_token }
same_intent intent action share_token h k =
    let same : intent.action ≡ action = cc h in λ i. record { action = same i; share_token = k i }

-- an intent is not read from an empty text
nonempty_token :
    (site : Site) (token : String) (now : ℕ) (intent : PendingIntent)
    → read_pending_intent site.intents now token site.session_secret pending_intent_max_age_seconds
      ≡ ok intent
    → is_empty token ≡ false
unfolding read_pending_intent
nonempty_token site String.[] now intent h = absurd (cc h)
nonempty_token site (String.◌∷◌ ch s) now intent h = refl

resume_known :
    (site : Site) (user : Request) (id cookie : String) (c : Conn)
    → current_user_id site user c.db ≡ some id
    → user.intent_cookie ≡ cookie
    → is_empty cookie ≡ false
    → resume site user c
      ≡ resume_intent site id
          (read_pending_intent site.intents
            (seconds site)
            cookie
            site.session_secret
            pending_intent_max_age_seconds)
          c
unfolding resume
resume_known site user id cookie c known same full = simp (known, same, full) refl

bookmark-state :
    (site : Site) (id : String) (doc : Document) (share_token : String) (viewable : Bool) (c : Conn)
    → (and_then
        (bookmark_if site id doc viewable c).0
        (λ target. pure (forgetting target))
        (bookmark_if site id doc viewable c).1).1
      ≡ (bookmark_viewable site id doc share_token viewable c).1
bookmark-state site id doc share_token false c = refl
bookmark-state site id doc share_token true c =
    let (r, c') = toggle_bookmark site.fresh id doc.id true c in
    let marked = bookmark_if site id doc true c in
    pure-state marked.0 forgetting marked.1
    ∙ pure-state (answer uncaught r) (λ _. document_url doc.share_token) c'
    ∙ sym (pure-state (answer uncaught r) (λ _. redirect (document_url share_token)) c')

module _ (site : Site) (share_token : String) where
  issued : IntentAction → Result String
  issued action =
      issue_pending_intent site.intents (seconds site) site.session_secret (action_text action)
        share_token

  start-login :
      (action : IntentAction) (c : Conn)
      → start_login_with_intent site (action_text action) share_token c
        ≡ (login_reply (issued action), c)
  unfolding start_login_with_intent issued
  start-login action c = start-reply (issued action) c

  ask-anonymous :
      (action : IntentAction) (visitor : Request) (c : Conn)
      → current_user_id site visitor c.db ≡ none
      → (ask action site visitor share_token c ≡ (http_exception 404 "document_not_found", c))
        ⊎ (ask action site visitor share_token c ≡ (login_reply (issued action), c))
  unfolding fork_doc add_bookmark
  ask-anonymous IntentAction.fork visitor c h =
      elim (Option-cases (get_document_by_token c.db share_token)) [
        | inl e ↦ inl (rw e refl)
        | inr (doc, e) ↦ inr (rw (e, h) (start-login IntentAction.fork c))
      ]
  ask-anonymous IntentAction.bookmark visitor c h =
      elim (Option-cases (get_document_by_token c.db share_token)) [
        | inl e ↦ inl (rw e refl)
        | inr (doc, e) ↦ inr (rw (e, h) (start-login IntentAction.bookmark c))
      ]

  -- where the login is answered, the intent was signed
  signed :
      (action : IntentAction) (visitor : Request) (cookie : String) (c : Conn)
      → current_user_id site visitor c.db ≡ none
      → ask action site visitor share_token c ≡ (returned (to_login cookie), c)
      → issued action ≡ ok cookie
  signed action visitor cookie c anonymous h = elim (ask-anonymous action visitor c anonymous) [
    | inl e ↦ absurd (cc (ap (λ r. r.0) (sym e ∙ h)))
    | inr e ↦ login_reply-ok (issued action) cookie (ap (λ r. r.0) (sym e ∙ h))
  ]

  -- For a user who is known, the state that /resume leaves is the one that the route leaves.
  resume_intent-ask :
      (action : IntentAction) (fresh : Fresh) (user : Request) (id : String) (c : Conn)
      → current_user_id (later site fresh) user c.db ≡ some id
      → (resume_intent
          (later site fresh)
          id
          (ok (record { action = action; share_token = share_token }))
          c).1
        ≡ (ask action (later site fresh) user share_token c).1
  unfolding fork_doc add_bookmark resume_action
  resume_intent-ask IntentAction.fork fresh user id c known =
      elim (Option-cases (get_document_by_token c.db share_token)) [
        | inl e ↦ rw e refl
        | inr (doc, e) ↦
            rw (e, known)
              (let (r, c') = fork_document fresh doc id c in
                pure-state (fork_target doc r) forgetting c'
                ∙ sym (
                    pure-state (answer fork_error r) (λ d. redirect (document_url d.share_token))
                      c'))
      ]
  resume_intent-ask IntentAction.bookmark fresh user id c known =
      elim (Option-cases (get_document_by_token c.db share_token)) [
        | inl e ↦ rw e refl
        | inr (doc, e) ↦
            rw (e, known)
              (bookmark-state (later site fresh) id doc share_token (user_can_view c.db doc id) c)
      ]

  -- A fork or a bookmark that a visitor asks for before the login is made after it. If the route sent the
  -- visitor to the login with a cookie, then /resume with that cookie, read within its age, by a user who
  -- is known leaves the tables as the route itself leaves them for that user then: the same document is
  -- made or marked, or nothing is, where the document is gone or the user may not view it.
  pub resume-ask :
      (action : IntentAction) (visitor user : Request) (cookie id : String) (fresh : Fresh)
      (before c : Conn)
      → Reads site.intents site.session_secret
          (seconds site)
          (seconds (later site fresh))
          pending_intent_max_age_seconds
      → current_user_id site visitor before.db ≡ none
      → ask action site visitor share_token before ≡ (returned (to_login cookie), before)
      → user.intent_cookie ≡ cookie
      → current_user_id (later site fresh) user c.db ≡ some id
      → (resume (later site fresh) user c).1 ≡ (ask action (later site fresh) user share_token c).1
  unfolding issued
  resume-ask action visitor user cookie id fresh before c reads anonymous sent same known =
      let issue = signed action visitor cookie before anonymous sent in
      let (intent, found, named, shared) =
        issue_pending_intent-read site.intents site.session_secret (action_text action) share_token
          cookie (seconds site) (seconds (later site fresh)) pending_intent_max_age_seconds reads
          issue in
      let whole : intent ≡ record { action = action; share_token = share_token } =
        same_intent intent action share_token (cc (named, intent_action_of-text action)) shared in
      let full = nonempty_token site cookie (seconds (later site fresh)) intent found in
      ap (λ r. r.1) (resume_known (later site fresh) user id cookie c known same full)
      ∙ ap (λ r. (resume_intent (later site fresh) id r c).1) (found ∙ ap ok whole)
      ∙ resume_intent-ask action fresh user id c known
