-- ===== src/Tests/Paging.antt =====
-- Three documents, two of the same time, read in pages of two.
use Prim.Native.Char.{code}
use Prim.Native.String.{◌++◌ as ◌+++◌}
use text.Mathlib.TextLemmas.{cons-append, nil-append}
use markland.Prelude.{
  ℕ, zero, suc, String, true, false, Option, none, some, List, [], ◌∷◌, ◌≡◌, ◌≢◌, eq_iff, refl,
  arith, ◌==◌, nat_eq, is_empty, select, if◌then◌else◌, like,
}
use markland.Model.{Document}
use markland.Effects.{ok}
use markland.Permissions.{Access, check_permission}
use markland.Permissions.Spec.{is_ok}
use markland.Paging.{Cursor, Codec, sort_rows, insert_row}
use markland.Paging.Walk.{all_pages, all_pages-sort_rows}
use markland.Paging.Order.{codes_lt}
use markland.Docs.Listing.{document_columns, is_match, search_paginated}
use markland.Docs.Listing.Viewable.{OnPage, search_paginated-viewable}
use markland.Tests.Samples.{bob, plan, news, db}

-- a cursor's text: the key as so many marks, a dot, and the id
unfoldable pub marks : ℕ → String → String
marks zero id = "." +++ id
marks (suc n) id = "x" +++ marks n id

abbrev pub add_mark : Option Cursor → Option Cursor
add_mark none = none
add_mark (some c) = some (record c { sort_key = suc c.sort_key })

unfoldable pub read_marks : String → Option Cursor
read_marks String.[] = none
read_marks (String.◌∷◌ c s) =
    let rest = read_marks s in
    if nat_eq (code c) b'.' then some (record { sort_key = 0; last_id = s }) else add_mark rest

abbrev pub dotted : Codec
dotted = record { encode = λ c. marks c.sort_key c.last_id; decode = read_marks }

pub marks-laws :
    (n : ℕ) (id : String)
    → (read_marks (marks n id) ≡ some (record { sort_key = n; last_id = id }))
      × (is_empty (marks n id) ≡ false)
unfolding marks read_marks
marks-laws zero id = rw (cons-append, nil-append id) (refl, refl)
marks-laws (suc n) id = rw (cons-append, nil-append (marks n id), (marks-laws n id).0) (refl, refl)

-- a text is another
other : (s t : String) → (s == t) ≡ false → s ≢ t
other s t h e = ground (arith, eq_iff s t, h, e)

abbrev old : Document
old = record plan { id = "old"; share_token = "link3"; is_public = true; updated_at = 9 }

abbrev more : Document
more = record news { id = "more"; share_token = "link4" }

abbrev public_documents : List Document
public_documents = old ∷ news ∷ plan ∷ more ∷ []

all_pages-sort_rows_example :
    all_pages document_columns dotted 200 2 (λ d. d.is_public) 4 none public_documents
    ≡ ok (news ∷ more ∷ old ∷ [])
unfolding sort_rows insert_row select dotted read_marks marks codes_lt
all_pages-sort_rows_example =
    all_pages-sort_rows document_columns dotted 200 2 (λ d. d.is_public) 4 public_documents
      (λ c. marks-laws c.sort_key c.last_id)
      (
        (other "old" "news" refl, (other "old" "plan" refl, (other "old" "more" refl, tt))),
        (
          (other "news" "plan" refl, (other "news" "more" refl, tt)),
          ((other "plan" "more" refl, tt), (tt, tt)),
        ),
      )
      (omega arith) (omega arith)

search_paginated-viewable_example :
    OnPage
      (λ d. (is_ok (check_permission db bob d.id Access.view) ≡ true) × (is_match "pl" d ≡ true))
      (search_paginated dotted db bob "pl" 1 none 200)
search_paginated-viewable_example =
    search_paginated-viewable dotted db bob "pl" 1 none 200
      ((other "plan" "news" refl, tt), (tt, tt)) refl

-- the empty query's pattern
empty_query : is_match "" plan ≡ true
unfolding like
empty_query = refl

-- letters fold, and `_` is any character
folded : like "%pL_n%" "the Plan of" ≡ true
unfolding like
folded = refl
