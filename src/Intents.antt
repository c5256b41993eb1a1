-- ===== src/Intents.antt =====
-- service/pending_intent.py and service/agent_token_flash.py: two signed cookies, over itsdangerous'
-- URLSafeTimedSerializer as a parameter
pub mod Resume
use markland.Prelude.{
  ℕ, ◌*◌, String, Bool, true, false, Option, none, some, ◌==◌, ◌||◌, is_empty, if◌then◌else◌,
}
use markland.Effects.{
  Result, ok, err, value_error, invalid_pending_intent, invalid_agent_token_flash,
}

-- What `loads` comes to: its two exceptions, a payload that is no dict, or a dict, of which the values
-- of the keys that are read are kept where they are texts.
pub data Loaded (A : Type 0) : Type 0 where
  bad_signature signature_expired no_dict : Loaded A
  payload : A → Loaded A

-- `dumps` and `loads` under one salt, with the secret, the time and the age in seconds
pub record Serializer (A : Type 0) : Type 0 where
  pub dumps : (secret : String) → (now : ℕ) → A → String
  pub loads : (secret : String) → (now max_age : ℕ) → String → Loaded A

-- PENDING_INTENT_MAX_AGE_SECONDS and AGENT_TOKEN_FLASH_MAX_AGE_SECONDS
abbrev pub pending_intent_max_age_seconds : ℕ
pending_intent_max_age_seconds = 30 * 60

abbrev pub agent_token_flash_max_age_seconds : ℕ
agent_token_flash_max_age_seconds = 5 * 60

pub data IntentAction : Type 0 where
  fork bookmark : IntentAction

-- `action in _VALID_ACTIONS`
unfoldable pub intent_action_of : String → Option IntentAction
intent_action_of action =
    if action == "fork"
    then some IntentAction.fork
    else if action == "bookmark"
    then some IntentAction.bookmark
    else none

pub record PendingIntent : Type 0 where
  pub action : IntentAction
  pub share_token : String

-- the payload's two keys
abbrev pub RawIntent : Type 0
RawIntent = Option String × Option String

abbrev pub serializer_of : {A : Type 0} → String → Serializer A → Result (Serializer A)
serializer_of secret s =
    if is_empty secret then err (value_error "session secret must be non-empty") else ok s

abbrev pub dumped : {A : Type 0} → String → ℕ → A → Result (Serializer A) → Result String
dumped secret now a (err e) = err e
dumped secret now a (ok s) = ok (s.dumps secret now a)

abbrev pub sign_intent :
    Serializer RawIntent → String → ℕ → String → String → Option IntentAction → Result String
sign_intent s secret now action share_token none = err (value_error "invalid action")
sign_intent s secret now action share_token (some a) =
    if is_empty share_token
    then err (value_error "share_token must be non-empty")
    else dumped secret now (some action, some share_token) (serializer_of secret s)

unfoldable pub issue_pending_intent :
    Serializer RawIntent → ℕ → String → String → String → Result String
issue_pending_intent s now secret action share_token =
    sign_intent s secret now action share_token (intent_action_of action)

abbrev pub intent_with : Option IntentAction → String → Result PendingIntent
intent_with none share_token = err (invalid_pending_intent "malformed payload")
intent_with (some action) share_token =
    if is_empty share_token
    then err (invalid_pending_intent "malformed payload")
    else ok (record { action = action; share_token = share_token })

abbrev pub intent_of : Loaded RawIntent → Result PendingIntent
intent_of bad_signature = err (invalid_pending_intent "bad signature")
intent_of signature_expired = err (invalid_pending_intent "expired")
intent_of no_dict = err (invalid_pending_intent "malformed payload")
intent_of (payload (none, share_token)) = err (invalid_pending_intent "malformed payload")
intent_of (payload (some action, none)) = err (invalid_pending_intent "malformed payload")
intent_of (payload (some action, some share_token)) =
    intent_with (intent_action_of action) share_token

unfoldable pub read_pending_intent :
    Serializer RawIntent → ℕ → String → String → ℕ → Result PendingIntent
read_pending_intent s now token secret max_age_seconds =
    if is_empty token
    then err (invalid_pending_intent "empty token")
    else if is_empty secret
    then err (value_error "session secret must be non-empty")
    else intent_of (s.loads secret now max_age_seconds token)

unfoldable pub issue_agent_token_flash :
    Serializer (Option String) → ℕ → String → String → Result String
issue_agent_token_flash s now secret plaintext =
    if is_empty plaintext
    then err (value_error "plaintext must be non-empty")
    else dumped secret now (some plaintext) (serializer_of secret s)

abbrev pub flash_of : Loaded (Option String) → Result String
flash_of bad_signature = err (invalid_agent_token_flash "bad signature")
flash_of signature_expired = err (invalid_agent_token_flash "expired")
flash_of no_dict = err (invalid_agent_token_flash "malformed payload")
flash_of (payload none) = err (invalid_agent_token_flash "malformed payload")
flash_of (payload (some plaintext)) =
    if is_empty plaintext then err (invalid_agent_token_flash "malformed payload") else ok plaintext

unfoldable pub read_agent_token_flash :
    Serializer (Option String) → ℕ → String → String → ℕ → Result String
read_agent_token_flash s now sealed secret max_age_seconds =
    if is_empty sealed
    then err (invalid_agent_token_flash "empty cookie")
    else if is_empty secret
    then err (value_error "session secret must be non-empty")
    else flash_of (s.loads secret now max_age_seconds sealed)
