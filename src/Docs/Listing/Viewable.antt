-- ===== src/Docs/Listing/Viewable.antt =====
-- What a page holds: rows of the table that meet the listing's WHERE clause, so documents that the
-- caller can view.
use markland.Prelude.{
  ℕ, zero, suc, ◌+◌, String, Bool, true, Option, none, some, List, [], ◌∷◌, ◌≡◌, refl, ap, ◌∙◌, inl,
  inr, arith, ◌==◌, ◌&&◌, ◌||◌, holds, fetchone, select, take, All, All-map, All-and, All-select,
  eq_iff, eq_refl, Option-cases, ◌⊎◌,
}
use markland.Model.{Principal, PrincipalType, Document, Db, Level}
use markland.Effects.{Result, ok, err}
use markland.Permissions.{Access, check_permission, same_owner, owner_id_for_principal}
use markland.Permissions.Spec.{is_ok}
use markland.Paging.{
  Codec, Columns, Cursor, below_cursor, clamp_limit, page, page_at, paginate, read_cursor,
  sort_rows,
}
use markland.Paging.Sorting.{All-sort_rows, Distinct, OtherId}
use markland.Docs.Listing.{document_columns, search_paginated, is_granted, is_match, get_grant}
use markland.Db.Documents.{get_document}

-- the rows of a page; a cursor that is malformed gives none
abbrev pub OnPage : {A : Type 0} → (A → Type 0) → Result (List A × Option String) → Type 0
OnPage P (err e) = Unit
OnPage P (ok found) = All P found.0

module _ {A : Type 0} (cols : Columns A) where
  All-take : (P : A → Type 0) (n : ℕ) (xs : List A) → All P xs → All P (take n xs)
  All-take P zero xs h = tt
  All-take P (suc n) [] h = tt
  All-take P (suc n) (x ∷ xs) h = (h.0, All-take P n xs h.1)

  page-All :
      (P : A → Type 0) (limit : ℕ) (p : A → Bool) (cur : Option Cursor) (rows : List A)
      → All P rows
      → All (λ a. P a × (p a ≡ true)) (page cols limit p cur rows).0
  unfolding page
  page-All P limit p cur rows h =
      let wanted = λ (a : A). p a && below_cursor cols cur a in
      let Q = λ (a : A). P a × (p a ≡ true) in
      let found : All Q (select wanted rows) =
        All-map (λ a. P a × (wanted a ≡ true)) Q (select wanted rows)
          (λ a k. (k.0, ground (arith, k.1))) (All-select P wanted rows h) in
      All-take Q limit (take (limit + 1) (sort_rows cols (select wanted rows))) (
        All-take Q (limit + 1) (sort_rows cols (select wanted rows))
          (All-sort_rows cols Q (select wanted rows) found))

  page_at-All :
      (P : A → Type 0) (codec : Codec) (limit : ℕ) (p : A → Bool) (rows : List A)
      (cur : Result (Option Cursor))
      → All P rows
      → OnPage (λ a. P a × (p a ≡ true)) (page_at cols codec limit p rows cur)
  page_at-All P codec limit p rows (err e) h = tt
  page_at-All P codec limit p rows (ok cur) h = page-All P limit p cur rows h

  pub paginate-All :
      (P : A → Type 0) (codec : Codec) (most limit : ℕ) (p : A → Bool) (cursor : Option String)
      (rows : List A)
      → All P rows
      → OnPage (λ a. P a × (p a ≡ true)) (paginate cols codec most limit p cursor rows)
  unfolding paginate
  paginate-All P codec most limit p cursor rows h =
      page_at-All P codec (clamp_limit most limit) p rows (read_cursor cols codec cursor) h

  pub OnPage-map :
      (P Q : A → Type 0) (r : Result (List A × Option String))
      → ((a : A) → P a → Q a)
      → OnPage P r
      → OnPage Q r
  OnPage-map P Q (err e) f h = tt
  OnPage-map P Q (ok found) f h = All-map P Q found.0 f h

-- its id finds a document
abbrev pub Own : List Document → Document → Type 0
Own docs d = fetchone (λ (e : Document). e.id == d.id) docs ≡ some d

All-Own : (docs : List Document) → Distinct document_columns docs → All (Own docs) docs
unfolding fetchone
All-Own [] h = tt
All-Own (x ∷ docs) h = (
  rw (eq_refl x.id) refl,
  All-map (λ d. OtherId document_columns x d × Own docs d) (Own (x ∷ docs)) docs
      (λ d k. ground (arith, k.0, k.1, eq_iff x.id d.id))
      (All-and (OtherId document_columns x) (Own docs) docs h.0 (All-Own docs h.1)),
)

Level-cases : (l : Level) → (l ≡ Level.view) ⊎ (l ≡ Level.edit)
Level-cases Level.view = inl refl
Level-cases Level.edit = inr refl

same_owner-holds : (o : Option String) (s : String) → same_owner o (some s) ≡ holds o s
same_owner-holds none s = refl
same_owner-holds (some t) s = ground (arith, eq_iff s t, eq_iff t s)

view-owned_or_granted :
    (db : Db) (principal : Principal) (d : Document)
    → get_document db d.id ≡ some d
    → principal.principal_type ≡ PrincipalType.user
    → (holds d.owner_id principal.principal_id || is_granted db principal.principal_id d) ≡ true
    → is_ok (check_permission db principal d.id Access.view) ≡ true
unfolding check_permission
view-owned_or_granted db principal d found user may =
    let identity : owner_id_for_principal principal ≡ some principal.principal_id =
      ground (arith, user) in
    let owner : same_owner d.owner_id (owner_id_for_principal principal)
        ≡ holds d.owner_id principal.principal_id =
      ap (same_owner d.owner_id) identity ∙ same_owner-holds d.owner_id principal.principal_id in
    elim (Option-cases (get_grant db d.id principal.principal_id)) [
      | inl k ↦ ground (arith, found, owner, may, k)
      | inr k ↦ elim (Level-cases k.0.level) [
        | inl l ↦ ground (arith, found, owner, k.1, l)
        | inr l ↦ ground (arith, found, owner, k.1, l)
      ]
    ]

-- Every document on a page of a user's search is one that check_permission lets the user view, and
-- one whose title or content matches.
pub search_paginated-viewable :
    (codec : Codec) (db : Db) (principal : Principal) (query : String) (limit : ℕ)
    (cursor : Option String) (most : ℕ)
    → Distinct document_columns db.documents
    → principal.principal_type ≡ PrincipalType.user
    → OnPage
        (λ d.
          (is_ok (check_permission db principal d.id Access.view) ≡ true)
          × (is_match query d ≡ true))
        (search_paginated codec db principal query limit cursor most)
unfolding search_paginated
search_paginated-viewable codec db principal query limit cursor most ids user =
    let P = λ (d : Document). get_document db d.id ≡ some d in
    let p = λ (d : Document).
      holds d.owner_id principal.principal_id && is_match query d
      || is_granted db principal.principal_id d && is_match query d in
    OnPage-map document_columns (λ d. P d × (p d ≡ true))
      (λ d.
        (is_ok (check_permission db principal d.id Access.view) ≡ true) × (is_match query d ≡ true))
      (search_paginated codec db principal query limit cursor most)
      (λ d h.
        (view-owned_or_granted db principal d h.0 user (ground (arith, h.1)), ground (arith, h.1)))
      (paginate-All document_columns P codec most limit p cursor db.documents
        (All-Own db.documents ids))
