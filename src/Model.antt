-- ===== src/Model.antt =====
-- models.py, the tables of db.py and the principals of service/auth.py. A time is the number of
-- microseconds since 1970; the stored ISO texts compare as these numbers do.
use markland.Prelude.{
  ℕ, String, Bool, true, false, Option, none, some, List, [], ◌*◌, ◌/◌, leb, if◌then◌else◌,
}

-- A grant's level, 'view' or 'edit'
pub data Level : Type 0 where
  view edit : Level

-- 'user' or 'agent'
pub data PrincipalType : Type 0 where
  user agent : PrincipalType

pub record Principal : Type 0 where
  pub principal_id : String
  pub principal_type : PrincipalType
  pub display_name : Option String
  pub is_admin : Bool
  pub user_id : Option String

pub record Document : Type 0 where
  pub id : String
  pub title : String
  pub content : String
  pub share_token : String
  pub created_at : ℕ
  pub updated_at : ℕ
  pub is_public : Bool
  pub is_featured : Bool
  pub owner_id : Option String
  pub version : ℕ
  pub forked_from_doc_id : Option String

pub record Grant : Type 0 where
  pub doc_id : String
  pub principal_id : String
  pub principal_type : PrincipalType
  pub level : Level
  pub granted_by : String
  pub granted_at : ℕ

-- 'user' or 'service'
pub data OwnerType : Type 0 where
  user service : OwnerType

pub record Agent : Type 0 where
  pub id : String
  pub display_name : String
  pub owner_type : OwnerType
  pub owner_id : String
  pub created_at : ℕ
  pub revoked_at : Option ℕ

pub record Invite : Type 0 where
  pub id : String
  pub token_hash : String
  pub doc_id : String
  pub level : Level
  pub single_use : Bool
  pub uses_remaining : ℕ
  pub created_by : String
  pub created_at : ℕ
  pub expires_at : Option ℕ
  pub revoked_at : Option ℕ
  pub target_email : String

-- `expires_at is not None and now >= expires_at`
abbrev pub has_expired : Option ℕ → ℕ → Bool
has_expired none now = false
has_expired (some t) now = leb t now

unfoldable pub is_active : Invite → ℕ → Bool
is_active inv now = elim inv.revoked_at [
  | some t ↦ false
  | none ↦
      if leb inv.uses_remaining 0
      then false
      else if has_expired inv.expires_at now
      then false
      else true
]

pub record User : Type 0 where
  pub id : String
  pub email : String
  pub display_name : Option String
  pub is_admin : Bool
  pub session_epoch : ℕ

pub record Revision : Type 0 where
  pub id : ℕ
  pub doc_id : String
  pub version : ℕ
  pub title : String
  pub content : String
  pub principal_id : Option String
  pub principal_type : Option PrincipalType
  pub created_at : ℕ

pub record Bookmark : Type 0 where
  pub user_id : String
  pub doc_id : String
  pub created_at : ℕ

-- A value of an audit row's JSON metadata.
pub data Meta : Type 0 where
  text : String → Meta
  number : ℕ → Meta
  flag : Bool → Meta

pub record AuditRow : Type 0 where
  pub doc_id : Option String
  pub action : String
  pub principal_id : String
  pub principal_type : PrincipalType
  pub metadata : List (String × Meta)
  pub created_at : ℕ

-- A bearer token, of which only the hash and the digest are kept
pub record Token : Type 0 where
  pub id : String
  pub token_hash : String
  pub token_digest : Option String
  pub label : Option String
  pub principal_type : PrincipalType
  pub principal_id : String
  pub created_at : ℕ
  pub last_used_at : Option ℕ
  pub revoked_at : Option ℕ

pub data DeviceStatus : Type 0 where
  pending authorized expired denied : DeviceStatus

-- A row of device_authorizations; its times are whole seconds.
pub record DeviceAuthorization : Type 0 where
  pub device_code : String
  pub user_code : String
  pub status : DeviceStatus
  pub user_id : Option String
  pub invite_token : Option String
  pub created_at : ℕ
  pub expires_at : ℕ
  pub polled_last : Option ℕ
  pub authorized_at : Option ℕ
  pub consumed_at : Option ℕ
  pub failed_confirms : ℕ

-- 'reading' or 'editing'
pub data Activity : Type 0 where
  reading editing : Activity

-- Who is at a document; the times are whole seconds.
pub record Presence : Type 0 where
  pub doc_id : String
  pub principal_id : String
  pub principal_type : PrincipalType
  pub status : Activity
  pub note : Option String
  pub updated_at : ℕ
  pub expires_at : ℕ

-- A magic link that has been used; the time is in seconds.
pub record ConsumedLink : Type 0 where
  pub jti : String
  pub email : String
  pub consumed_at : ℕ

-- The tables that the modelled services read and write.
pub record Db : Type 0 where
  pub documents : List Document
  pub grants : List Grant
  pub invites : List Invite
  pub revisions : List Revision
  pub next_revision : ℕ
  pub users : List User
  pub agents : List Agent
  pub bookmarks : List Bookmark
  pub audit_log : List AuditRow
  pub tokens : List Token
  pub device_authorizations : List DeviceAuthorization
  pub presence : List Presence
  pub magic_link_consumed : List ConsumedLink

abbrev pub empty_db : Db
empty_db = record {
  documents = [];
  grants = [];
  invites = [];
  revisions = [];
  next_revision = 1;
  users = [];
  agents = [];
  bookmarks = [];
  audit_log = [];
  tokens = [];
  device_authorizations = [];
  presence = [];
  magic_link_consumed = [];
}

-- What one call draws from the clock and from `secrets`. A call reads the clock once.
pub record Fresh : Type 0 where
  pub now : ℕ
  -- Document.generate_id, Document.generate_share_token
  pub doc_id : String
  pub share_token : String
  -- Invite.generate_id, Invite.generate_token, and the salt of its hash
  pub invite_id : String
  pub invite_token : String
  pub salt : String
  -- Agent.generate_id
  pub agent_id : String
  -- _generate_token_id and the secret part of a token
  pub token_id : String
  pub secret_part : String
  -- _new_device_code, and what each call of generate_user_code returns
  pub device_code : String
  pub user_code : ℕ → String

abbrev pub second : ℕ
second = 1_000_000

-- the start of a time's second, which is what a text without a fraction keeps
abbrev pub whole_second : ℕ → ℕ
whole_second t = t / second * second
