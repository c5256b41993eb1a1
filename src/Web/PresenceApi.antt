-- ===== src/Web/PresenceApi.antt =====
-- web/presence_api.py: /api/docs/{doc_id}/presence. A note that is no text and a status that is no text
-- are refused as the ones here are.
use Prim.Native.String.{◌++◌ as ◌+++◌}
use markland.Prelude.{
  ℕ, String, Bool, true, false, Option, none, some, List, length, codes, leb, is_some,
}
use markland.Effects.{Error, gets, presence_error, value_error}
use markland.Docs.Read.{get}
use markland.Presence.{
  activity_of, set_status, clear_status, list_active, PresenceSet, ActivePrincipal,
}
use markland.Model.{Principal}
use markland.Web.{
  Site, Request, Handler, Reply, http_exception, uncaught, ◌>>=◌, ◌>>◌, pure, catching, mask,
}
use markland.Web.Session.{require_principal}

abbrev pub check_view : Principal → String → Handler (Unit {0})
check_view p doc_id = do catching mask (get p doc_id ""); pure tt

-- `note is not None and len(note) > 500`
abbrev pub is_short : Option String → Bool
is_short none = true
is_short (some remark) = leb (length (codes remark)) 500

-- the check above has refused every other status, so the ValueError is not reached
abbrev pub presence_failure : {A : Type 0} → String → Error → Reply A
presence_failure doc_id presence_error =
    http_exception 404 ("document " +++ doc_id +++ " not found")
presence_failure doc_id (value_error m) = http_exception 400 m
presence_failure doc_id e = uncaught e

-- `if not condition: raise HTTPException(status, detail)`
abbrev pub unless_abort : Bool → ℕ → String → Handler (Unit {0})
unless_abort true status detail c = (Reply.returned tt, c)
unless_abort false status detail c = (http_exception status detail, c)

unfoldable pub set_presence : Site → Request → String → String → Option String → Handler PresenceSet
set_presence site request doc_id status remark = do
  p ← require_principal site request
  unless_abort (is_some (activity_of status)) 400 "invalid_status"
  unless_abort (is_short remark) 400 "invalid_note"
  check_view p doc_id
  catching (presence_failure doc_id) (set_status site.fresh.now doc_id p status remark)

unfoldable pub clear_presence : Site → Request → String → Handler (Unit {0})
clear_presence site request doc_id = do
  p ← require_principal site request
  catching uncaught (clear_status doc_id p)

unfoldable pub list_presence : Site → Request → String → Handler (List ActivePrincipal)
list_presence site request doc_id = do
  p ← require_principal site request
  check_view p doc_id
  catching uncaught (gets λ db. list_active db doc_id site.fresh.now)
