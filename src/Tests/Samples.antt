-- ===== src/Tests/Samples.antt =====
-- A database of two documents, two users, an agent and an invite.
use markland.Prelude.{true, false, none, some, [], ◌∷◌, ◌==◌}
use markland.Model.{Principal, PrincipalType, Level, Document, Grant, Invite, Db, empty_db, Fresh}
use markland.Effects.{Conn}
use markland.External.{External}

abbrev pub alice : Principal
alice = record {
  principal_id = "usr_alice";
  principal_type = PrincipalType.user;
  display_name = some "Alice";
  is_admin = false;
  user_id = none;
}

abbrev pub bob : Principal
bob = record alice { principal_id = "usr_bob"; display_name = some "Bob" }

-- Alice's agent
abbrev pub helper : Principal
helper = record {
  principal_id = "agt_helper";
  principal_type = PrincipalType.agent;
  display_name = some "Helper";
  is_admin = false;
  user_id = some "usr_alice";
}

abbrev pub plan : Document
plan = record {
  id = "plan";
  title = "Plan";
  content = "first";
  share_token = "link1";
  created_at = 10;
  updated_at = 10;
  is_public = false;
  is_featured = false;
  owner_id = some "usr_alice";
  version = 3;
  forked_from_doc_id = none;
}

abbrev pub news : Document
news = record plan { id = "news"; title = "News"; share_token = "link2"; is_public = true }

abbrev pub bob_views : Grant
bob_views = record {
  doc_id = "plan";
  principal_id = "usr_bob";
  principal_type = PrincipalType.user;
  level = Level.view;
  granted_by = "usr_alice";
  granted_at = 11;
}

abbrev pub edit_invite : Invite
edit_invite = record {
  id = "inv_1";
  token_hash = "hash:secret";
  doc_id = "plan";
  level = Level.edit;
  single_use = true;
  uses_remaining = 1;
  created_by = "usr_alice";
  created_at = 12;
  expires_at = some 900;
  revoked_at = none;
  target_email = "eve@example.com";
}

abbrev pub open_invite : Invite
open_invite = record edit_invite {
  id = "inv_2";
  token_hash = "hash:open";
  level = Level.view;
  single_use = false;
  uses_remaining = 1_000_000;
  expires_at = none;
  target_email = "";
}

abbrev pub db : Db
db = record empty_db {
  documents = plan ∷ news ∷ [];
  grants = bob_views ∷ [];
  invites = edit_invite ∷ open_invite ∷ [];
  users =
      record {
        id = "usr_alice";
        email = "alice@example.com";
        display_name = some "Alice";
        is_admin = false;
        session_epoch = 0;
      }
      ∷ record {
        id = "usr_bob";
        email = "bob@example.com";
        display_name = none;
        is_admin = false;
        session_epoch = 0;
      }
      ∷ [];
}

abbrev pub conn : Conn
conn = record { db = db; saved = none; outbox = [] }

abbrev pub fresh : Fresh
fresh = record {
  now = 100;
  doc_id = "fresh";
  share_token = "link9";
  invite_id = "inv_9";
  invite_token = "mk_inv_9";
  salt = "salt";
  agent_id = "agt_9";
  token_id = "tok_9";
  secret_part = "s9";
  device_code = "device9";
  user_code = λ n. "BCDFGHJK";
}

-- a stand-in for the hashes, which keeps the text readable
abbrev pub plain : External
plain = record {
  hash_token = λ salt text. Prim.Native.String.◌++◌ "hash:" text;
  verify_token = λ text hash. Prim.Native.String.◌++◌ "hash:" text == hash;
  sha256_hex = λ text. text;
  lower = λ text. text;
  upper = λ text. text;
  iso = λ time. "now";
  integer_of = λ text. none;
}
