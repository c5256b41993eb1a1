-- ===== src/Invites/Listing.antt =====
-- service/invites.py: list_for_doc_paginated
use markland.Prelude.{ℕ, String, Option, List, map, ◌==◌, ◌&&◌, not, is_some, Bool}
use markland.Model.{Invite, Level, Db}
use markland.Effects.{Result, ok, err}
use markland.Paging.{Codec, Columns, paginate}

pub record InviteItem : Type 0 where
  pub invite_id : String
  pub level : Level
  pub uses_remaining : ℕ
  pub expires_at : Option ℕ
  pub created_at : ℕ

abbrev pub invite_item : Invite → InviteItem
invite_item inv = record {
  invite_id = inv.id;
  level = inv.level;
  uses_remaining = inv.uses_remaining;
  expires_at = inv.expires_at;
  created_at = inv.created_at;
}

-- ORDER BY created_at DESC, id DESC
abbrev pub invite_columns : Columns Invite
invite_columns = record { sort_key = λ inv. inv.created_at; id = λ inv. inv.id }

-- `doc_id = ? AND revoked_at IS NULL`
abbrev pub is_outstanding : String → Invite → Bool
is_outstanding doc_id inv = inv.doc_id == doc_id && not (is_some inv.revoked_at)

abbrev pub invite_page :
    Result (List Invite × Option String) → Result (List InviteItem × Option String)
invite_page (err e) = err e
invite_page (ok (rows, next)) = ok (map invite_item rows, next)

unfoldable pub list_for_doc_paginated :
    Codec → Db → String → ℕ → Option String → Result (List InviteItem × Option String)
list_for_doc_paginated codec db doc_id limit cursor =
    invite_page (paginate invite_columns codec 200 limit (is_outstanding doc_id) cursor db.invites)
