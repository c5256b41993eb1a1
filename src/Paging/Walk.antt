-- ===== src/Paging/Walk.antt =====
-- A client that passes every `next_cursor` back, and what it has read when there is none.
use mathlib.Core.Option
use markland.Effects.{Result, ok, err, value_error}
use markland.Paging.{
  Cursor, Codec, CodecLaws, Columns, below, below_cursor, clamp_limit, cursor_of, encode_page,
  last_row, page, page_of, paginate, sort_rows,
}
use markland.Paging.Rows.{
  select-select, select_and, select-All, take-take, ltb-length-take, take-all, take-drop,
  last_row-All, below_last, last_row-some,
}
use markland.Paging.Sorting.{
  Below, below_trans, Sorted, Sorted-select, Distinct, Distinct-select, select-sort_rows,
  sort_rows-Sorted,
}
use markland.Prelude.{
  ℕ, zero, suc, ◌+◌, ◌-◌, ◌<◌, String, Bool, true, false, Option, none, some, List, ◌++◌, ◌≡◌, refl,
  ap, sym, ◌∙◌, inl, inr, arith, select, take, drop, length, length-drop, ltb, All-select,
  All-trivial, Bool-cases,
}

abbrev pub joined : {A : Type 0} → List A → Result (List A) → Result (List A)
joined found (err e) = err e
joined found (ok rest) = ok (found ++ rest)

-- a page, and then those after it
abbrev pub followed :
    {A : Type 0} → (String → Result (List A)) → Result (List A × Option String) → Result (List A)
followed next (err e) = err e
followed next (ok (found, none)) = ok found
followed next (ok (found, some cursor)) = joined found (next cursor)

-- The pages from a cursor on, one after the other; on fuel, the number of requests.
unfoldable pub all_pages :
    {A : Type 0}
    → Columns A
    → Codec
    → ℕ
    → ℕ
    → (A → Bool)
    → ℕ
    → Option String
    → List A
    → Result (List A)
unfolding paginate
all_pages cols codec most limit p zero cursor rows = err (value_error "too many pages")
all_pages cols codec most limit p (suc fuel) cursor rows =
    followed (λ next. all_pages cols codec most limit p fuel (some next) rows)
      (paginate cols codec most limit p cursor rows)

module _ {A : Type 0} (cols : Columns A) where
  -- the rows that are left of a listing at a cursor
  abbrev pub left_at : (A → Bool) → Option Cursor → List A → List A
  left_at p cur rows = select (below_cursor cols cur) (sort_rows cols (select p rows))

  page-left :
      (limit : ℕ) (p : A → Bool) (cur : Option Cursor) (rows : List A)
      → Distinct cols rows
      → page cols limit p cur rows ≡ page_of cols limit (take (suc limit) (left_at p cur rows))
  unfolding page
  page-left limit p cur rows h =
      let split = select_and p (below_cursor cols cur) rows in
      let swap =
        select-sort_rows cols (below_cursor cols cur) (select p rows)
          (Distinct-select cols p rows h) in
      let next : limit + 1 ≡ suc limit = omega arith in rw (split, swap, next) refl

  below_cursor_trans :
      (cur : Option Cursor) (y z : A)
      → below_cursor cols cur y ≡ true
      → Below cols y z
      → below_cursor cols cur z ≡ true
  below_cursor_trans none y z h k = refl
  below_cursor_trans (some cur) y z h k = below_trans cols cur y z h k

  left_after :
      (limit : ℕ) (p : A → Bool) (cur : Option Cursor) (rows : List A) (c : A)
      → Sorted cols (left_at p cur rows)
      → last_row cols (take (suc limit) (left_at p cur rows)) ≡ some c
      → left_at p (some (cursor_of cols c)) rows ≡ drop (suc limit) (left_at p cur rows)
  left_after limit p cur rows c sorted last =
      let all = sort_rows cols (select p rows) in
      let ours =
        All-select (λ a. Unit {0}) (below_cursor cols cur) all
          (All-trivial (λ a. Unit {0}) all (λ a. tt)) in
      let hit =
        last_row-All cols (λ a. Unit {0} × (below_cursor cols cur a ≡ true)) (suc limit)
          (left_at p cur rows) c ours last in
      sym (
        select-select (below cols (cursor_of cols c)) (below_cursor cols cur) all
          (λ a. below_cursor_trans cur c a hit.1))
      ∙ below_last cols (suc limit) (left_at p cur rows) c sorted last

  -- a page that is not the last
  page-more :
      (limit : ℕ) (p : A → Bool) (cur : Option Cursor) (rows : List A)
      → Distinct cols rows
      → ltb (suc limit) (length (left_at p cur rows)) ≡ true
      → (c : A) × (page cols (suc limit) p cur rows
          ≡ (take (suc limit) (left_at p cur rows), some (cursor_of cols c)))
        × (left_at p (some (cursor_of cols c)) rows ≡ drop (suc limit) (left_at p cur rows))
  page-more limit p cur rows h more =
      let rest = left_at p cur rows in
      let sorted =
        Sorted-select cols (below_cursor cols cur) (sort_rows cols (select p rows))
          (sort_rows-Sorted cols (select p rows) (Distinct-select cols p rows h)) in
      let last = last_row-some cols limit rest (ground (arith, more)) in
      let c = last.0 in
      let found : page_of cols (suc limit) (take (suc (suc limit)) rest)
          ≡ (take (suc limit) rest, some (cursor_of cols c)) =
        rw (take-take (suc limit) rest, ltb-length-take (suc limit) rest, more, last.1) refl in
      (c, page-left (suc limit) p cur rows h ∙ found, left_after limit p cur rows c sorted last.1)

  -- the last page
  page-last :
      (limit : ℕ) (p : A → Bool) (cur : Option Cursor) (rows : List A)
      → Distinct cols rows
      → ltb limit (length (left_at p cur rows)) ≡ false
      → page cols limit p cur rows ≡ (left_at p cur rows, none)
  page-last limit p cur rows h last =
      let rest = left_at p cur rows in
      page-left limit p cur rows h
      ∙ rw (take-take limit rest, ltb-length-take limit rest, last, take-all limit rest last) refl

module _ {A : Type 0} (cols : Columns A) (codec : Codec) where
  paginate-page :
      (most limit : ℕ) (p : A → Bool) (cur : Option Cursor) (rows : List A)
      → CodecLaws codec
      → paginate cols codec most limit p (Option.map codec.encode cur) rows
        ≡ ok (encode_page cols codec (page cols (clamp_limit most limit) p cur rows))
  unfolding paginate
  paginate-page most limit p none rows h = refl
  paginate-page most limit p (some c) rows h = rw ((h c).1, (h c).0) refl

  -- each request but the last takes a row at least
  all_pages-left :
      (most limit : ℕ) (p : A → Bool) (fuel : ℕ) (cur : Option Cursor) (rows : List A)
      → CodecLaws codec
      → Distinct cols rows
      → 0 < most
      → length (left_at cols p cur rows) < fuel
      → all_pages cols codec most limit p fuel (Option.map codec.encode cur) rows
        ≡ ok (left_at cols p cur rows)
  unfolding all_pages
  all_pages-left most limit p zero cur rows laws ids h enough = ground (arith, enough)
  all_pages-left most limit p (suc fuel) cur rows laws ids h enough =
      let rest = left_at cols p cur rows in
      let n = clamp_limit most limit - 1 in
      let size : clamp_limit most limit ≡ suc n = omega (arith, h) in
      elim (Bool-cases (ltb (suc n) (length rest))) [
        | inl more ↦
            let step = page-more cols n p cur rows ids more in
            let c = cursor_of cols step.0 in
            let some_row : 0 < length rest = ground (arith, more) in
            let fewer : length (left_at cols p (some c) rows) < fuel =
              rw (step.2, length-drop (suc n) rest) (omega (arith, enough, some_row)) in
            let ih = all_pages-left most limit p fuel (some c) rows laws ids h fewer in
            rw
              (
                paginate-page most limit p cur rows laws,
                size,
                step.1,
                ih,
                step.2,
                take-drop (suc n) rest,
              )
              refl
        | inr last ↦
            rw
              (
                paginate-page most limit p cur rows laws,
                size,
                page-last cols (suc n) p cur rows ids last,
              )
              refl
      ]

  -- A listing whose rows have different ids, read page by page with `next_cursor`, is the whole of
  -- it: the rows that the caller may list, each once and in the order of the sort key, in at most
  -- one request more than there are rows, whatever limit above 0 the code allows and the client asks.
  pub all_pages-sort_rows :
      (most limit : ℕ) (p : A → Bool) (fuel : ℕ) (rows : List A)
      → CodecLaws codec
      → Distinct cols rows
      → 0 < most
      → length (sort_rows cols (select p rows)) < fuel
      → all_pages cols codec most limit p fuel none rows ≡ ok (sort_rows cols (select p rows))
  all_pages-sort_rows most limit p fuel rows laws ids h enough =
      let all = sort_rows cols (select p rows) in
      let whole =
        select-All (λ a. true) all (All-trivial (λ a. ◌≡◌ {A = Bool} true true) all (λ a. refl)) in
      let fewer : length (left_at cols p none rows) < fuel = rw whole enough in
      all_pages-left most limit p fuel none rows laws ids h fewer ∙ ap (λ xs. ok xs) whole
