-- ===== src/Tests/Mcp.antt =====
-- Carol, whom nothing is shared with, asks for Alice's plan.
use markland.Prelude.{none, some, [], ◌≡◌, refl, fetchone}
use markland.Model.{Principal}
use markland.Permissions.{check_permission}
use markland.Mcp.{Code, failed}
use markland.Mcp.Requests.{Server, Request, handle}
use markland.Mcp.Hidden.{handle-hidden}
use markland.Tests.Samples.{alice, conn, fresh, plain}
use markland.Tests.Paging.{dotted}

abbrev carol : Principal
carol = record alice { principal_id = "usr_carol"; display_name = some "Carol" }

abbrev server : Server
server = record {
  external = plain;
  codec = dotted;
  base_url = "https://markland.dev";
  email_client = none;
  fresh = fresh;
}

handle-hidden_example :
    handle server (some carol) "plan" (Request.update_document 3 (some "mine") none) conn
    ≡ (failed Code.not_found [], conn)
unfolding check_permission fetchone
handle-hidden_example =
    handle-hidden server carol "plan" conn (Request.update_document 3 (some "mine") none) refl refl
      refl
