-- ===== src/Tests/Web.antt =====
-- A site with stand-ins for the signers, and requests of Alice, of Bob and of a visitor.
use Prim.Native.String.{◌++◌ as ◌+++◌}
use markland.Prelude.{
  zero, suc, strip, delete_where, ℕ, ◌+◌, String, Option, none, some, ◌≡◌, refl, arith, take_chars,
  drop_chars, len, take_chars-append, drop_chars-append, fetchone,
}
use markland.Model.{Principal, Fresh}
use markland.Effects.{Conn}
use markland.Paging.{Cursor}
use markland.MagicLink
use markland.Intents
use markland.Intents.Resume.{Reads}
use markland.Web.{Site, Request}
use markland.Sessions.{session_max_age_seconds, issue_session, read_user_epoch}
use markland.Sessions.Revocation.{Unsigns}
use markland.MagicLink.{consume_magic_link_token, consume_payload}
use markland.Users.{create_user, upsert_user_by_email, get_user_by_email}
use markland.Permissions.{check_permission}
use markland.Intents.{RawIntent, IntentAction, issue_pending_intent, intent_action_of}
use markland.Web.{http_exception}
use markland.Web.Etag.{etag, parse_if_match}
use markland.Web.Etag.RoundTrip.{parse_if_match-etag}
use markland.Web.Session.{current_user_id, principal, session_principal}
use markland.Web.Api.{Endpoint, handle, caller}
use markland.Web.Api.Masked.{handle-masked}
use markland.Web.Save.{add_bookmark, resume, start_login_with_intent}
use markland.Web.Save.Resume.{later, resume-ask}
use markland.Web.Auth.{verify, logout, session_cookie_of}
use markland.Web.Auth.Login.{IsOfLink, verify-session}
use markland.Tests.Paging.{marks, read_marks, marks-laws}
use markland.Tests.Samples.{bob, conn, fresh, plain}
use markland.Tests.Sessions.{stamping, stamping-Loads, fresh_enough}

-- two texts as one: a mark for each that is there, the length of the first, and both
abbrev or_empty : Option String → String
or_empty none = ""
or_empty (some s) = s

abbrev tag : RawIntent → ℕ
tag (none, none) = 0
tag (none, some b) = 1
tag (some a, none) = 2
tag (some a, some b) = 3

abbrev both : RawIntent → String
both raw = marks (tag raw) (marks (len (or_empty raw.0)) (or_empty raw.0 +++ or_empty raw.1))

abbrev by_tag : ℕ → String → String → RawIntent
by_tag zero a b = (none, none)
by_tag (suc zero) a b = (none, some b)
by_tag (suc (suc zero)) a b = (some a, none)
by_tag (suc (suc (suc n))) a b = (some a, some b)

abbrev split_at : ℕ → Option Cursor → Intents.Loaded RawIntent
split_at n none = Intents.Loaded.no_dict
split_at n (some c) =
    Intents.Loaded.payload
      (by_tag n (take_chars c.sort_key c.last_id) (drop_chars c.sort_key c.last_id))

abbrev tagged : Option Cursor → Intents.Loaded RawIntent
tagged none = Intents.Loaded.no_dict
tagged (some c) = split_at c.sort_key (read_marks c.last_id)

abbrev unsigned : Option String → Intents.Loaded RawIntent
unsigned none = Intents.Loaded.signature_expired
unsigned (some body) = tagged (read_marks body)

abbrev pub intents : Intents.Serializer RawIntent
intents = record {
  dumps = λ secret now raw. marks now (both raw);
  loads = λ secret now max_age token. unsigned (fresh_enough now max_age (read_marks token));
}

by_tag-both : (raw : RawIntent) → by_tag (tag raw) (or_empty raw.0) (or_empty raw.1) ≡ raw
by_tag-both (none, none) = refl
by_tag-both (none, some b) = refl
by_tag-both (some a, none) = refl
by_tag-both (some a, some b) = refl

intents-Reads : Reads intents "key" 10 40 1800
intents-Reads raw =
    let a = or_empty raw.0 in
    let b = or_empty raw.1 in
    let joined = a +++ b in
    (
      rw
          (
            (marks-laws 10 (both raw)).0,
            (marks-laws (tag raw) (marks (len a) joined)).0,
            (marks-laws (len a) joined).0,
            take_chars-append a b,
            drop_chars-append a b,
            by_tag-both raw,
          )
          refl,
      (marks-laws 10 (both raw)).1,
    )

-- at second 10, and at second 40
abbrev early : Fresh
early = record fresh { now = 10_000_000 }

abbrev late : Fresh
late = record fresh { now = 40_000_000 }

abbrev site : Site
site = record {
  external = plain;
  signing = stamping;
  intents = intents;
  flashes = record {
    dumps = λ secret now flash. "";
    loads = λ secret now max_age sealed. Intents.Loaded.no_dict;
  };
  links = record {
    loads = λ secret now max_age token.
        MagicLink.Loaded.payload (some "alice@example.com") (some token);
  };
  session_secret = "key";
  base_url = "https://markland.dev";
  email_client = none;
  fresh = early;
  user_id = "usr_new";
  loaded_at = 0;
}

abbrev visitor : Request
visitor = record { principal = none; session_cookie = ""; intent_cookie = ""; flash_cookie = "" }

abbrev of : Principal → Request
of p = record visitor { principal = some p }

stamping-Unsigns_month : Unsigns stamping "key" 10 40 session_max_age_seconds
stamping-Unsigns_month raw = (rw (marks-laws 10 raw).0 refl, (marks-laws 10 raw).1)

parse_if_match-etag_example : parse_if_match (some (etag 1234)) ≡ some 1234
parse_if_match-etag_example = parse_if_match-etag 1234 (omega arith)

-- Bob, who may view the plan, asks for its grants.
handle-masked_example :
    handle site (of bob) "plan" Endpoint.get_grants conn ≡ (http_exception 404 "not_found", conn)
unfolding check_permission fetchone caller principal session_principal
handle-masked_example =
    handle-masked site (of bob) "plan" bob conn Endpoint.get_grants refl refl refl

abbrev intent_cookie : String
intent_cookie = intents.dumps "key" 10 (some "bookmark", some "link2")

-- a visitor bookmarks the news, and comes back as Bob
resume-ask_example :
    (resume (later site late) (record (of bob) { intent_cookie = intent_cookie }) conn).1
    ≡ (add_bookmark
        (later site late)
        (record (of bob) { intent_cookie = intent_cookie })
        "link2"
        conn).1
unfolding current_user_id add_bookmark fetchone start_login_with_intent issue_pending_intent
    intent_action_of
resume-ask_example =
    resume-ask site "link2" IntentAction.bookmark visitor
      (record (of bob) { intent_cookie = intent_cookie }) intent_cookie "usr_bob" late conn conn
      intents-Reads refl refl refl refl

abbrev session_cookie : String
session_cookie = stamping.sign "key" 10 (
    stamping.dumps "key"
      (record { user_id = "usr_alice"; exp = 10 + session_max_age_seconds; epoch = some 0 }))

abbrev logged_in : Conn
logged_in = (verify site "t1" conn).1

-- another account is made between the login and the logout
abbrev holding : Conn
holding = (create_user plain "usr_new" "new@example.com" none logged_in).1

abbrev left : Conn
left = (logout (later site late) (record visitor { session_cookie = session_cookie }) holding).1

verify-session_example :
    IsOfLink site "t1" logged_in.db "usr_alice"
    × (current_user_id
          (later site late)
          (record visitor { session_cookie = session_cookie })
          holding.db
        ≡ some "usr_alice")
    × (current_user_id
          (later site late)
          (record visitor { session_cookie = session_cookie })
          left.db
        ≡ none)
unfolding verify consume_magic_link_token consume_payload upsert_user_by_email get_user_by_email
    issue_session read_user_epoch fetchone delete_where strip create_user
verify-session_example =
    verify-session site late "t1" session_cookie conn logged_in holding left
      (record { user_id = "usr_alice"; cookie = session_cookie_of session_cookie })
      (record visitor { session_cookie = session_cookie }) stamping-Unsigns_month stamping-Loads
      refl refl refl refl refl refl
