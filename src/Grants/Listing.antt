-- ===== src/Grants/Listing.antt =====
-- service/grants.py: list_grants_paginated
use markland.Prelude.{ℕ, String, Option, List, ◌==◌}
use markland.Model.{Principal, Grant}
use markland.Effects.{Action, ◌>>◌, reads}
use markland.Permissions.{Access, check_permission}
use markland.Paging.{Codec, Columns, paginate}

-- ORDER BY granted_at DESC, principal_id DESC
abbrev pub grant_columns : Columns Grant
grant_columns = record { sort_key = λ g. g.granted_at; id = λ g. g.principal_id }

unfoldable pub list_grants_paginated :
    Codec → Principal → String → ℕ → Option String → ℕ → Action (List Grant × Option String)
list_grants_paginated codec principal doc_id limit cursor cap = do
  reads λ db. check_permission db principal doc_id Access.edit
  reads λ db. paginate grant_columns codec cap limit (λ g. g.doc_id == doc_id) cursor db.grants
