-- ===== src/Web/Device.antt =====
-- web/device_routes.py: the device flow over HTTP, and its limit of calls per address. The times are whole
-- microseconds, where the code has floats. The texts of the pages and of /setup are not modelled, nor are the
-- two parameters of the address that the confirmation ends at but as values.
pub mod Queue
pub mod Log
pub mod Window
use markland.Prelude.{
  ℕ, ◌+◌, ◌-◌, ◌*◌, ◌/◌, String, Bool, true, false, Option, none, some, List, [], ◌∷◌, ◌++◌, ◌==◌,
  is_empty, fetchone, delete_where, length, ltb, leb, if◌then◌else◌,
}
use markland.Model.{text, number, second}
use markland.Effects.{Result, ok, err}
use markland.Device.{start, DeviceStart}
use markland.Device.Authorize.{authorize, AuthorizeResult, Reason, InviteError}
use markland.Device.Poll.{poll, PollResult}
use markland.Sessions.{verify_csrf_token, make_csrf_token}
use markland.Web.{
  Site, Request, Handler, Reply, returned, json_error, uncaught, ◌>>=◌, pure, catching, seconds,
}
use markland.Web.Session.{or_invalid, session_of}

-- a key and its hits, the oldest first
pub record Hits : Type 0 where
  pub key : String
  pub hits : List ℕ

-- SlidingWindowRateLimiter
pub record SlidingWindow : Type 0 where
  pub limit : ℕ
  pub window : ℕ
  pub prune_every : ℕ
  pub hits : List Hits
  pub calls_since_prune : ℕ

abbrev pub has_hits_key : String → Hits → Bool
has_hits_key key h = h.key == key

-- `while q and now - q[0] > self.window: q.popleft()`
unfoldable pub recent : (now window : ℕ) → List ℕ → List ℕ
recent now window [] = []
recent now window (t ∷ q) =
    let rest = recent now window q in if ltb window (now - t) then rest else t ∷ q

-- `q[-1]`, where there is one
abbrev pub newest : List ℕ → Option ℕ
newest [] = none
newest (t ∷ q) = let later = newest q in elim later [ none ↦ some t | some s ↦ some s ]

-- `not q or now - q[-1] > self.window`
abbrev pub is_stale_hit : (now window : ℕ) → Option ℕ → Bool
is_stale_hit now window none = true
is_stale_hit now window (some t) = ltb window (now - t)

abbrev pub is_stale : (now window : ℕ) → Hits → Bool
is_stale now window h = is_stale_hit now window (newest h.hits)

-- `_prune`, every prune_every calls
abbrev pub pruned : ℕ → SlidingWindow → SlidingWindow
pruned now l =
    if leb l.prune_every (l.calls_since_prune + 1)
    then record l { hits = delete_where (is_stale now l.window) l.hits; calls_since_prune = 0 }
    else record l { calls_since_prune = l.calls_since_prune + 1 }

-- `self._hits[key]`, a new and empty queue for a new key
abbrev pub queue_of : Option Hits → List ℕ
queue_of none = []
queue_of (some h) = h.hits

-- the order of the keys is not seen
abbrev pub put_hits : String → List ℕ → SlidingWindow → SlidingWindow
put_hits key q l = record l {
  hits = delete_where (has_hits_key key) l.hits ++ record { key = key; hits = q } ∷ [];
}

-- `int(self.window - (now - q[0])) + 1`, in seconds; no queue is empty and full at a limit above 0
abbrev pub retry_after : (now window : ℕ) → List ℕ → ℕ
retry_after now window [] = 0
retry_after now window (t ∷ q) = (window + t - now) / second + 1

-- none where the call is allowed, and else the seconds to wait
abbrev pub check_queue : String → ℕ → List ℕ → SlidingWindow → Option ℕ × SlidingWindow
check_queue key now q l =
    if leb l.limit (length q)
    then (some (retry_after now l.window q), put_hits key q l)
    else (none, put_hits key (q ++ now ∷ []) l)

unfoldable pub check : String → ℕ → SlidingWindow → Option ℕ × SlidingWindow
check key now l =
    let l' = pruned now l in
    check_queue key now (recent now l'.window (queue_of (fetchone (has_hits_key key) l'.hits))) l'

-- SlidingWindowRateLimiter.__init__
abbrev pub new_window : (limit window prune_every : ℕ) → SlidingWindow
new_window limit window prune_every = record {
  limit = limit;
  window = window;
  prune_every = prune_every;
  hits = [];
  calls_since_prune = 0;
}

-- the limiters of the router
abbrev pub device_limiter : SlidingWindow
device_limiter = new_window 10 (60 * second) 1000

-- a 429 with the wait
abbrev pub limited : {A : Type 0} → Option ℕ → Handler A → Handler A
limited none m = m
limited (some wait) m =
    λ c. (json_error 429 (("error", text "rate_limited") ∷ ("retry_after", number wait) ∷ []), c)

-- the verdict of the limiter on the request's address is an argument
unfoldable pub api_device_start : Site → Option ℕ → Option String → Handler DeviceStart
api_device_start site verdict invite_token =
    limited verdict (catching uncaught (start site.fresh invite_token site.base_url))

unfoldable pub api_device_poll : Site → String → Handler PollResult
api_device_poll site device_code = catching uncaught (poll site.external site.fresh device_code)

-- `invite_accepted` and `invite_error`
abbrev pub Authorized : Type 0
Authorized = Bool × Option InviteError

abbrev pub authorize_answer : AuthorizeResult → Reply Authorized
authorize_answer (AuthorizeResult.authorized device_code user_code token accepted failure) =
    returned (accepted, failure)
authorize_answer (AuthorizeResult.refused Reason.not_found codes) =
    json_error 404 (("error", text "not_found") ∷ [])
authorize_answer (AuthorizeResult.refused Reason.expired codes) =
    json_error 410 (("error", text "expired") ∷ [])
authorize_answer (AuthorizeResult.refused Reason.already_authorized codes) =
    json_error 410 (("error", text "already_authorized") ∷ [])
authorize_answer (AuthorizeResult.refused Reason.denied codes) =
    json_error 400 (("error", text "denied") ∷ [])

abbrev pub or_unauthenticated : Option String → Handler String
or_unauthenticated none c = (json_error 401 (("error", text "unauthenticated") ∷ []), c)
or_unauthenticated (some user_id) c = (returned user_id, c)

-- the session's user id; an empty secret makes the read raise
abbrev pub device_session_user : Site → Request → Handler (Option String)
device_session_user site request c = (
  if is_empty request.session_cookie
      then returned none
      else or_invalid (session_of site request c.db),
  c,
)

unfoldable pub api_device_authorize : Site → Request → String → Handler Authorized
api_device_authorize site request user_code = do
  session ← device_session_user site request
  user_id ← or_unauthenticated session
  result ← catching uncaught (authorize site.external site.fresh user_code user_id)
  λ c. (authorize_answer result, c)

-- What the form leads to: the login, which returns to /device with the code; the form again, with status
-- 400; or /device/done, with the cookie that dismisses the panel.
pub data Confirmed : Type 0 where
  to_login : (user_code : String) → Confirmed
  session_expired : Confirmed
  form_again : Reason → (csrf : String) → Confirmed
  done :
      (user_code : String)
      → (invite_accepted : Bool) → (invite_error : Option InviteError) → Confirmed

abbrev pub form_reply : Reason → Result String → Reply Confirmed
form_reply reason (ok csrf) = returned (form_again reason csrf)
form_reply reason (err e) = uncaught e

abbrev pub confirm_answer : Site → String → AuthorizeResult → Reply Confirmed
confirm_answer site user_id
      (AuthorizeResult.authorized device_code user_code token accepted failure) =
    returned (done user_code accepted failure)
confirm_answer site user_id (AuthorizeResult.refused reason codes) =
    form_reply reason (make_csrf_token site.signing (seconds site) user_id site.session_secret)

abbrev pub confirm_checked : Site → String → String → Result Bool → Handler Confirmed
confirm_checked site user_id user_code (err e) = λ c. (uncaught e, c)
confirm_checked site user_id user_code (ok false) = pure session_expired
confirm_checked site user_id user_code (ok true) = do
  result ← catching uncaught (authorize site.external site.fresh user_code user_id)
  λ c. (confirm_answer site user_id result, c)

abbrev pub confirm_user : Site → String → String → Option String → Handler Confirmed
confirm_user site user_code csrf none = pure (to_login user_code)
confirm_user site user_code csrf (some user_id) =
    confirm_checked site user_id user_code
      (verify_csrf_token site.signing (seconds site) csrf user_id site.session_secret)

unfoldable pub page_device_confirm : Site → Request → Option ℕ → String → String → Handler Confirmed
page_device_confirm site request verdict user_code csrf =
    limited verdict
      do session ← device_session_user site request; confirm_user site user_code csrf session
