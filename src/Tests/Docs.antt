-- ===== src/Tests/Docs.antt =====
-- The sample documents published, edited, shown, hidden, forked and deleted.
use markland.Web.Etag.{digit}
use markland.Docs.Revisions.{RevisionItem, list_revisions_paginated}
use markland.Paging.{Codec}
use markland.Prelude.{
  ℕ, ◌+◌, ◌-◌, ◌≤◌, String, true, false, none, some, [], ◌∷◌, ◌++◌, ◌≡◌, ◌≢◌, refl, fetchone,
  update_where, select, length, drop, List, order_desc, Option, map,
}
use markland.Model.{Document, Revision, Db}
use markland.Effects.{Conn, Result, ok, err, conflict_error}
use markland.Db.Documents.{
  get_document, insert_document, delete_document, set_visibility as db_set_visibility,
  rotate_share_token,
}
use markland.Db.Grants.{get_grant}
use markland.Db.Revisions.{insert_revision, prune_revisions, count_revisions, keep_last}
use markland.Db.Audit.{record_audit}
use markland.Permissions.{check_permission}
use markland.Docs.Content.{
  validate_content_and_title, content_fits, title_fits, extract_title, resolve_owner_id,
}
use markland.Docs.Publish.{Published, publish}
use markland.Docs.Update.{update, try_update, write_update, edited}
use markland.Docs.Update.Concurrency.{update-atomic, update-current, update-excludes_same_version}
use markland.Docs.Update.History.{history, update-history}
use markland.Docs.Visibility.{Visibility, set_visibility}
use markland.Docs.Delete.{Deleted, delete}
use markland.Docs.Delete.Cascade.{delete-forgets}
use markland.Docs.Fork.{fork_document}
use markland.Docs.Update.Outcome.{snapshot}
use markland.Tests.Samples.{alice, bob, plan, db, conn, fresh, plain}

abbrev edit : ℕ → Conn → Result Document × Conn
edit if_version = update fresh "plan" alice (some "second") none if_version

abbrev edited_plan : Document
edited_plan = edited fresh (some "second") none plan

-- an edit of the current version goes through
edit_current : (edit 3 conn).0 ≡ ok edited_plan
unfolding update try_update write_update insert_revision prune_revisions keep_last record_audit
    validate_content_and_title content_fits title_fits check_permission fetchone update_where select
    count_revisions
edit_current = refl

edit_stale : (edit 2 conn).0 ≡ err (conflict_error 3 "Plan" "first")
unfolding update try_update validate_content_and_title content_fits title_fits check_permission
    fetchone
edit_stale = refl

update-atomic_example : (edit 2 conn).1 ≡ conn
update-atomic_example =
    update-atomic fresh "plan" alice (some "second") none 2 conn (conflict_error 3 "Plan" "first")
      refl edit_stale

update-current_example :
    (old : Document) × (get_document db "plan" ≡ some old)
    × (old.version ≡ 3)
    × (edited_plan ≡ edited fresh (some "second") none old)
    × (get_document (edit 3 conn).1.db "plan" ≡ some edited_plan)
update-current_example =
    update-current fresh "plan" alice (some "second") none 3 conn edited_plan refl edit_current

update-excludes_same_version_example : (edit 3 (edit 3 conn).1).0 ≢ ok edited_plan
update-excludes_same_version_example =
    update-excludes_same_version fresh fresh "plan" alice alice (some "second") none (some "second")
      none 3 conn edited_plan edited_plan refl edit_current

update-history_example :
    (old : Document) × (get_document db "plan" ≡ some old)
    × (history (edit 3 conn).1.db "plan"
        ≡ drop
            (length (history db "plan") + 1 - 50)
            (history db "plan" ++ snapshot fresh alice old db ∷ []))
    × (count_revisions (edit 3 conn).1.db "plan" ≤ 50)
update-history_example =
    update-history fresh "plan" alice (some "second") none 3 conn edited_plan refl edit_current

abbrev note : Published
note = record {
  id = "fresh";
  title = "Note";
  share_url = "https://markland.dev/d/link9";
  is_public = false;
  owner_id = some "usr_bob";
}

publish_sample :
    (publish fresh "https://markland.dev" bob "text" (some "Note") false conn).0 ≡ ok note
unfolding publish insert_document record_audit validate_content_and_title content_fits title_fits
    fetchone resolve_owner_id
publish_sample = refl

title_from_text : extract_title "intro\r\n  # A title \nmore" ≡ "A title"
unfolding extract_title
title_from_text = refl

abbrev hide_news : Result Visibility × Conn
hide_news = set_visibility fresh "" alice "news" false conn

news_hidden : hide_news.0 ≡ ok (record { id = "news"; is_public = false; share_url = "/d/link9" })
unfolding set_visibility db_set_visibility rotate_share_token check_permission fetchone update_where
news_hidden = refl

abbrev delete_plan : Result Deleted × Conn
delete_plan = delete fresh alice "plan" conn

plan_deleted : delete_plan.0 ≡ ok (record { deleted = true; id = "plan" })
unfolding delete delete_document record_audit check_permission fetchone
plan_deleted = refl

delete-forgets_example :
    (true ≡ true)
    × (get_document delete_plan.1.db "plan" ≡ none)
    × ((p : String) → get_grant delete_plan.1.db "plan" p ≡ none)
    × (history delete_plan.1.db "plan" ≡ [])
delete-forgets_example =
    delete-forgets fresh alice "plan" conn (record { deleted = true; id = "plan" }) plan_deleted

abbrev forked : Result Document × Conn
forked = fork_document fresh plan "usr_bob" conn

abbrev copy : Document
copy = record {
  id = "fresh";
  title = "Plan";
  content = "first";
  share_token = "link9";
  created_at = 100;
  updated_at = 100;
  is_public = false;
  is_featured = false;
  owner_id = some "usr_bob";
  version = 1;
  forked_from_doc_id = some "plan";
}

plan_forked : forked.0 ≡ ok copy
unfolding fork_document insert_document insert_revision fetchone
plan_forked = refl

abbrev revision : ℕ → ℕ → Revision
revision id created_at = record {
  id = id;
  doc_id = "plan";
  version = id;
  title = "Plan";
  content = "";
  principal_id = none;
  principal_type = none;
  created_at = created_at;
}

-- A stub of the cursor's text and of SQLite's affinity: the cursor names revision 10 at 5.
abbrev at_ten : Codec
at_ten = record {
  encode = λ c. c.last_id;
  decode = λ text. some (record { sort_key = 5; last_id = text });
}

abbrev three_revisions : Db
three_revisions = record db { revisions = revision 2 5 ∷ revision 10 5 ∷ revision 11 4 ∷ [] }

abbrev ids : Result (List RevisionItem × Option String) → List String
ids (ok found) = map (λ r. r.revision_id) found.0
ids (err e) = []

-- Revision 10 stands before revision 2 of the same time, as a number and not as a text.
first_revisions :
    (ids (list_revisions_paginated plain at_ten three_revisions "plan" 2 none) ≡ "10" ∷ "2" ∷ [])
    × (ids (
          list_revisions_paginated
            (record plain { integer_of = λ text. some 10 })
            at_ten
            three_revisions
            "plan"
            2
            (some "10"))
        ≡ "2" ∷ "11" ∷ [])
unfolding list_revisions_paginated select order_desc digit
first_revisions = (refl, refl)
