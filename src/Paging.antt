-- ===== src/Paging.antt =====
-- The keyset pagination that service/docs.py, grants.py, invites.py and agents.py write out for each
-- listing: ORDER BY (key, id) DESC, WHERE (key, id) < cursor, LIMIT limit + 1. The text of a cursor is
-- that of _mcp_envelopes.py, as a parameter.
pub mod Order
pub mod Sorting
pub mod Rows
pub mod Walk
pub mod Envelope
use markland.Prelude.{
  ◌≡◌, ℕ, ◌+◌, min, max, String, Bool, true, false, Option, none, some, List, [], ◌∷◌, ◌&&◌, ◌||◌,
  select, take, length, ltb, leb, nat_eq, is_empty, if◌then◌else◌,
}
use mathlib.Core.Option
use markland.Effects.{Result, ok, err, value_error}
use markland.Paging.Order.{text_lt}

-- what a cursor names: the sort key and the id of a page's last row
pub record Cursor : Type 0 where
  pub sort_key : ℕ
  pub last_id : String

-- encode_cursor, and decode_cursor where it raises no ValueError
pub record Codec : Type 0 where
  pub encode : Cursor → String
  pub decode : String → Option Cursor

-- what a client needs of the texts: none is empty, and each is read back
abbrev pub CodecLaws : Codec → Type 0
CodecLaws codec =
    (c : Cursor) → (codec.decode (codec.encode c) ≡ some c) × (is_empty (codec.encode c) ≡ false)

-- the ORDER BY columns of a listing
pub record Columns (A : Type 0) : Type 0 where
  pub sort_key : A → ℕ
  pub id : A → String

-- `min(max(1, int(limit)), cap)`
abbrev pub clamp_limit : ℕ → ℕ → ℕ
clamp_limit cap limit = min (max 1 limit) cap

module _ {A : Type 0} (cols : Columns A) where
  abbrev pub cursor_of : A → Cursor
  cursor_of a = record { sort_key = cols.sort_key a; last_id = cols.id a }

  -- `(key, id) < (?, ?)`
  abbrev pub below : Cursor → A → Bool
  below cur a =
      ltb (cols.sort_key a) cur.sort_key
      || nat_eq (cols.sort_key a) cur.sort_key && text_lt (cols.id a) cur.last_id

  unfoldable pub insert_row : A → List A → List A
  insert_row x [] = x ∷ []
  insert_row x (y ∷ ys) =
      let rest = insert_row x ys in if below (cursor_of x) y then x ∷ y ∷ ys else y ∷ rest

  -- `ORDER BY key DESC, id DESC`
  unfoldable pub sort_rows : List A → List A
  sort_rows [] = []
  sort_rows (x ∷ xs) = insert_row x (sort_rows xs)

  -- `page[-1]`
  abbrev pub last_row : List A → Option A
  last_row [] = none
  last_row (x ∷ []) = some x
  last_row (x ∷ y ∷ ys) = last_row (y ∷ ys)

  abbrev pub below_cursor : Option Cursor → A → Bool
  below_cursor none a = true
  below_cursor (some cur) a = below cur a

  -- the rows of the page, and the cursor of the next one if there are more
  abbrev pub page_of : ℕ → List A → List A × Option Cursor
  page_of limit found = (
    take limit found,
    if ltb limit (length found) then Option.map cursor_of (last_row (take limit found)) else none,
  )

  unfoldable pub page : ℕ → (A → Bool) → Option Cursor → List A → List A × Option Cursor
  page limit p cur rows =
      page_of limit (take (limit + 1) (sort_rows (select (λ a. p a && below_cursor cur a) rows)))

  -- `if cursor: decode_cursor(cursor)`
  abbrev pub read_cursor : Codec → Option String → Result (Option Cursor)
  read_cursor codec none = ok none
  read_cursor codec (some text) = if is_empty text then ok none else elim (codec.decode text) [
    | none ↦ err (value_error "malformed cursor")
    | some cur ↦ ok (some cur)
  ]

  abbrev pub encode_page : Codec → List A × Option Cursor → List A × Option String
  encode_page codec found = (found.0, Option.map codec.encode found.1)

  abbrev pub page_at :
      Codec → ℕ → (A → Bool) → List A → Result (Option Cursor) → Result (List A × Option String)
  page_at codec limit p rows (err e) = err e
  page_at codec limit p rows (ok cur) = ok (encode_page codec (page limit p cur rows))

  unfoldable pub paginate :
      Codec → ℕ → ℕ → (A → Bool) → Option String → List A → Result (List A × Option String)
  paginate codec cap limit p cursor rows =
      page_at codec (clamp_limit cap limit) p rows (read_cursor codec cursor)
