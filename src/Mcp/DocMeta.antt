-- ===== src/Mcp/DocMeta.antt =====
-- server.py: _doc_meta, which sets a document's flags
use markland.Prelude.{
  String, Bool, true, false, Option, none, some, [], not, ◌&&◌, is_some, if◌then◌else◌,
}
use markland.Model.{Principal, Fresh, Document}
use markland.Effects.{Error, reads, gets, permission_denied}
use markland.Permissions.{Access, check_permission}
use markland.Db.Documents.{get_document}
use markland.Docs.Read.{get}
use markland.Docs.Visibility.{set_visibility, feature}
use markland.Mcp.{
  Code, Outcome, failed, uncaught, Tool, ◌>>=◌, ◌>>◌, pure, tool_error, catching, access_error,
  require_principal,
}
use markland.Mcp.Envelopes.{DocEnvelope, doc_envelope, raw_of_full, raw_of_document}

-- both errors of the check are answered alike
abbrev pub deny_as_not_found : {A : Type 0} → Error → Outcome A
deny_as_not_found (permission_denied m) = failed Code.not_found []
deny_as_not_found e = access_error e

abbrev pub gate_view : Principal → String → Tool (Unit {0})
gate_view p doc_id = do
  catching deny_as_not_found (reads λ db. check_permission db p doc_id Access.view)
  pure tt

abbrev pub bool_eq : Bool → Bool → Bool
bool_eq true b = b
bool_eq false b = not b

-- `wanted is not None and (current is None or flag(current) != wanted)`
abbrev pub must_set : (Document → Bool) → Option Document → Option Bool → Bool
must_set of current none = false
must_set of none (some wanted) = true
must_set of (some doc) (some wanted) = not (bool_eq (of doc) wanted)

abbrev pub set_public :
    Fresh → String → Principal → String → Option Document → Option Bool → Tool (Unit {0})
set_public fresh base_url p doc_id current none = pure tt
set_public fresh base_url p doc_id current (some public) =
    if must_set (λ d. d.is_public) current (some public)
    then (do catching access_error (set_visibility fresh base_url p doc_id public); pure tt)
    else pure tt

abbrev pub set_feature : Principal → String → Option Document → Option Bool → Tool (Unit {0})
set_feature p doc_id current none = pure tt
set_feature p doc_id current (some featured) =
    if must_set (λ d. d.is_featured) current (some featured)
    then (do catching access_error (feature p doc_id featured); pure tt)
    else pure tt

unfoldable pub doc_meta_tool :
    Fresh → String → Option Principal → String → Option Bool → Option Bool → Tool DocEnvelope
doc_meta_tool fresh base_url ctx doc_id public featured = do
  p ← require_principal ctx
  if p.is_admin then pure tt else gate_view p doc_id
  if is_some featured && not p.is_admin then tool_error Code.forbidden [] else pure tt
  current ← catching uncaught (gets λ db. get_document db doc_id)
  set_public fresh base_url p doc_id current public
  set_feature p doc_id current featured
  row ← catching uncaught (gets λ db. get_document db doc_id)
  elim row [
    | none ↦ tool_error Code.not_found []
    | some doc ↦
        if p.is_admin
        then pure (doc_envelope (raw_of_document base_url doc.share_token doc) none)
        else (do
          body ← catching access_error (get p doc_id base_url)
          pure (doc_envelope (raw_of_full body) none))
  ]
