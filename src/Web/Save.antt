-- ===== src/Web/Save.antt =====
-- web/save_routes.py: fork, bookmark and delete by share token, and /resume, which does after the login
-- what the visitor asked for before
pub mod Resume
use Prim.Native.String.{◌++◌ as ◌+++◌}
use markland.Prelude.{String, Bool, true, false, Option, none, some, is_empty, if◌then◌else◌}
use markland.Model.{Principal, PrincipalType, Document}
use markland.Effects.{
  Action, Error, Result, ok, err, gets, value_error, permission_error, not_found, permission_denied,
  invalid_pending_intent,
}
use markland.Db.Documents.{get_document_by_token}
use markland.Db.Bookmarks.{toggle_bookmark}
use markland.Docs.Fork.{user_can_view, fork_document}
use markland.Docs.Delete.{delete}
use markland.Intents.{
  PendingIntent, IntentAction, issue_pending_intent, read_pending_intent,
  pending_intent_max_age_seconds,
}
use markland.Web.{
  Site, Request, Handler, Reply, Redirect, redirect, returned, http_exception, uncaught, ◌>>=◌,
  ◌>>◌, pure, catching, abort, or_abort, answer, seconds, Cookie, set_cookie, delete_cookie,
  pending_intent_cookie_name,
}
use markland.Web.Session.{current_user_id}

abbrev pub find_document : String → Handler Document
find_document share_token c =
    or_abort 404 "document_not_found" (get_document_by_token c.db share_token) c

-- `/login?next=` and the quoted `/resume`
abbrev pub login_url : String
login_url = "/login?next=%2Fresume"

-- the actions and share tokens of the routes are not empty, so only an empty secret raises
unfoldable pub start_login_with_intent : Site → String → String → Handler Redirect
start_login_with_intent site action share_token = do
  cookie ← λ c. (
    answer uncaught
        (issue_pending_intent site.intents (seconds site) site.session_secret action share_token),
    c,
  )
  pure (record {
    url = login_url;
    cookie = set_cookie pending_intent_cookie_name cookie pending_intent_max_age_seconds;
  })

abbrev pub document_url : String → String
document_url share_token = "/d/" +++ share_token

abbrev pub fork_error : {A : Type 0} → Error → Reply A
fork_error (value_error m) = http_exception 400 "cannot_fork_own_doc"
fork_error (permission_error m) = http_exception 403 "source_not_viewable"
fork_error e = uncaught e

unfoldable pub fork_doc : Site → Request → String → Handler Redirect
fork_doc site request share_token = do
  doc ← find_document share_token
  user_id ← λ c. pure (current_user_id site request c.db) c
  elim user_id [
    | none ↦ start_login_with_intent site "fork" share_token
    | some id ↦ do
      new_doc ← catching fork_error (fork_document site.fresh doc id)
      pure (redirect (document_url new_doc.share_token))
  ]

abbrev pub bookmark_viewable : Site → String → Document → String → Bool → Handler Redirect
bookmark_viewable site id doc share_token false = abort 403 "source_not_viewable"
bookmark_viewable site id doc share_token true = do
  catching uncaught (toggle_bookmark site.fresh id doc.id true)
  pure (redirect (document_url share_token))

unfoldable pub add_bookmark : Site → Request → String → Handler Redirect
add_bookmark site request share_token = do
  doc ← find_document share_token
  user_id ← λ c. pure (current_user_id site request c.db) c
  elim user_id [
    | none ↦ start_login_with_intent site "bookmark" share_token
    | some id ↦ λ c. bookmark_viewable site id doc share_token (user_can_view c.db doc id) c
  ]

abbrev pub need_login : Site → Request → Handler String
need_login site request c = or_abort 401 "login_required" (current_user_id site request c.db) c

abbrev pub user_principal : String → Principal
user_principal user_id = record {
  principal_id = user_id;
  principal_type = PrincipalType.user;
  display_name = none;
  is_admin = false;
  user_id = none;
}

abbrev pub delete_error : {A : Type 0} → Error → Reply A
delete_error (permission_denied m) = http_exception 404 "document_not_found"
delete_error (not_found m) = http_exception 404 "document_not_found"
delete_error e = uncaught e

unfoldable pub delete_doc : Site → Request → String → Handler Redirect
delete_doc site request share_token = do
  user_id ← need_login site request
  doc ← find_document share_token
  catching delete_error (delete site.fresh (user_principal user_id) doc.id)
  pure (redirect "/dashboard")

-- The answer is `{"bookmarked": False}`, of which the flag is kept.
unfoldable pub remove_bookmark_route : Site → Request → String → Handler Bool
remove_bookmark_route site request share_token = do
  user_id ← need_login site request
  doc ← find_document share_token
  catching uncaught (toggle_bookmark site.fresh user_id doc.id false)
  pure false

-- where the visitor goes after a fork
abbrev pub fork_target : Document → Result Document → Reply String
fork_target doc (ok new_doc) = returned (document_url new_doc.share_token)
fork_target doc (err (value_error m)) = returned (document_url doc.share_token)
fork_target doc (err (permission_error m)) = returned "/dashboard"
fork_target doc (err e) = uncaught e

abbrev pub bookmark_if : Site → String → Document → Bool → Handler String
bookmark_if site id doc false = pure (document_url doc.share_token)
bookmark_if site id doc true = do
  catching uncaught (toggle_bookmark site.fresh id doc.id true)
  pure (document_url doc.share_token)

unfoldable pub resume_action : Site → String → Document → IntentAction → Handler String
resume_action site id doc IntentAction.fork c =
    let (r, c') = fork_document site.fresh doc id c in (fork_target doc r, c')
resume_action site id doc IntentAction.bookmark c =
    bookmark_if site id doc (user_can_view c.db doc id) c

-- a redirect that also forgets the intent
abbrev pub forgetting : String → Redirect
forgetting url = record { url = url; cookie = delete_cookie pending_intent_cookie_name }

abbrev pub resume_document : Site → String → IntentAction → Option Document → Handler Redirect
resume_document site id action none = pure (forgetting "/dashboard")
resume_document site id action (some doc) = do
  target ← resume_action site id doc action
  pure (forgetting target)

-- `except InvalidPendingIntent`
abbrev pub resume_intent : Site → String → Result PendingIntent → Handler Redirect
resume_intent site id (err (invalid_pending_intent m)) = pure (forgetting "/dashboard")
resume_intent site id (err e) = λ c. (uncaught e, c)
resume_intent site id (ok intent) =
    λ c. resume_document site id intent.action (get_document_by_token c.db intent.share_token) c

abbrev pub resume_user : Site → Request → Option String → Handler Redirect
resume_user site request none = pure (redirect login_url)
resume_user site request (some id) =
    if is_empty request.intent_cookie
    then pure (redirect "/dashboard")
    else resume_intent site id (
        read_pending_intent site.intents (seconds site) request.intent_cookie site.session_secret
          pending_intent_max_age_seconds)

unfoldable pub resume : Site → Request → Handler Redirect
resume site request c = resume_user site request (current_user_id site request c.db) c
