-- ===== src/Tokens/Cache/Bound.antt =====
-- The cache stays within its bound.
use markland.Model.{Principal}
use markland.Tokens.Cache.Outcomes.{get-cases, put-cases}
use markland.Prelude.{
  inl, inr, ℕ, ◌≤◌, ◌+◌, ◌-◌, String, List, [], ◌∷◌, ◌++◌, ◌≡◌, refl, arith, length, length-append,
  length-drop, length-delete_where, length-delete_found, delete_where, ◌∙◌,
}
use markland.Tokens.Cache.{
  Entry, Cache, Call, get, put, evict_principal, clear, call, run, has_key, is_principal,
}

-- No more entries than allowed.
abbrev pub IsBounded : Cache → Type 0
IsBounded c = length c.entries ≤ c.max_entries

get-IsBounded : (now : ℕ) (key : String) (c : Cache) → IsBounded c → IsBounded (get now key c).1
get-IsBounded now key c h = elim (get-cases now key c) [
  | inl missing ↦ rw missing h
  | inr (inl expired) ↦ rw expired (omega (arith, h, length-delete_where (has_key key) c.entries))
  | inr (inr (e, found, early, hit)) ↦ rw hit (
      omega (
        arith,
        h,
        length-delete_found (has_key key) c.entries e found,
        length-append (delete_where (has_key key) c.entries) (e ∷ []),
      ))
]

put-IsBounded :
    (key : String) (principal : Principal) (generation read_at : ℕ) (c : Cache)
    → IsBounded c
    → IsBounded (put key principal generation read_at c)
put-IsBounded key principal generation read_at c h =
    elim (put-cases key principal generation read_at c) [
      | inl dropped ↦ rw dropped h
      | inr (kept, stored) ↦
          let e : Entry = record {
            key = key;
            expires_at = read_at + c.ttl;
            principal = principal;
          } in
          let rows = delete_where (has_key key) c.entries ++ e ∷ [] in
          rw stored (omega (arith, length-drop (length rows - c.max_entries) rows))
    ]

call-IsBounded : (s : Call) (c : Cache) → IsBounded c → IsBounded (call s c)
unfolding evict_principal clear
call-IsBounded (Call.gets now key) c h = get-IsBounded now key c h
call-IsBounded (Call.puts key principal generation read_at) c h =
    put-IsBounded key principal generation read_at c h
call-IsBounded (Call.evicts principal_id) c h =
    omega (arith, h, length-delete_where (is_principal principal_id) c.entries)
call-IsBounded Call.clears c h = omega arith

same_bound : (s : Call) (c : Cache) → (call s c).max_entries ≡ c.max_entries
unfolding get put evict_principal clear
same_bound (Call.gets now key) c = ground arith
same_bound (Call.puts key principal generation read_at) c = ground arith
same_bound (Call.evicts principal_id) c = refl
same_bound Call.clears c = refl

-- Whatever calls are made of the cache, by whichever threads in whichever order, it holds no more
-- entries than its bound allows after each of them, and the bound is the same.
pub run-IsBounded :
    (calls : List Call) (c : Cache)
    → IsBounded c
    → IsBounded (run calls c) × ((run calls c).max_entries ≡ c.max_entries)
run-IsBounded [] c h = (h, refl)
run-IsBounded (s ∷ calls) c h =
    let rest = run-IsBounded calls (call s c) (call-IsBounded s c h) in
    (rest.0, rest.1 ∙ same_bound s c)
