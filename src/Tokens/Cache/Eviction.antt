-- ===== src/Tokens/Cache/Eviction.antt =====
-- Who has been evicted is not served from what was read before.
use markland.Tokens.Cache.Outcomes.{get-cases, put-cases}
use markland.Prelude.{
  ◌==◌, subst, ℕ, ◌≤◌, ◌<◌, ◌+◌, ◌-◌, String, Bool, true, false, Option, none, some, List, [], ◌∷◌,
  ◌++◌, ◌≡◌, ◌≢◌, arith, length, drop, delete_where, Bool-cases, inl, inr, All, All-fetchone,
  eq_iff, eq_refl, zero, suc, ap,
}
use markland.Model.{Principal}
use markland.Tokens.Cache.{
  Entry, Cache, Call, get, put, evict_principal, clear, call, run, has_key, last_eviction,
  is_principal, after_generation,
}

All-delete_where :
    (P : Entry → Type 0) (p : Entry → Bool) (rows : List Entry)
    → All P rows
    → All P (delete_where p rows)
unfolding delete_where
All-delete_where P p [] h = tt
All-delete_where P p (e ∷ rows) h = elim (Bool-cases (p e)) [
  | inl hit ↦ rw hit (All-delete_where P p rows h.1)
  | inr miss ↦ rw miss (h.0, All-delete_where P p rows h.1)
]

All-append :
    (P : Entry → Type 0) (rows more : List Entry) → All P rows → All P more → All P (rows ++ more)
All-append P [] more h k = k
All-append P (e ∷ rows) more h k = (h.0, All-append P rows more h.1 k)

All-drop : (P : Entry → Type 0) (n : ℕ) (rows : List Entry) → All P rows → All P (drop n rows)
All-drop P zero rows h = h
All-drop P (suc n) [] h = tt
All-drop P (suc n) (e ∷ rows) h = All-drop P n rows h.1

-- an entry of another principal
abbrev Other : String → Entry → Type 0
Other principal_id e = is_principal principal_id e ≡ false

All-Other-evicted :
    (principal_id : String) (rows : List Entry)
    → All (Other principal_id) (delete_where (is_principal principal_id) rows)
unfolding delete_where
All-Other-evicted principal_id [] = tt
All-Other-evicted principal_id (e ∷ rows) = elim (Bool-cases (is_principal principal_id e)) [
  | inl hit ↦ rw hit (All-Other-evicted principal_id rows)
  | inr miss ↦ rw miss (miss, All-Other-evicted principal_id rows)
]

-- The principal was evicted after the generation g, and no entry of it is left.
abbrev Gone : String → ℕ → Cache → Type 0
Gone principal_id g c =
    (after_generation (last_eviction principal_id c.evicted_at) g ≡ true)
    × (g < c.seq)
    × All (Other principal_id) c.entries

evict-Gone :
    (principal_id : String) (c : Cache) → Gone principal_id c.seq (evict_principal principal_id c)
unfolding evict_principal last_eviction
evict-Gone principal_id c =
    (ground (arith, eq_refl principal_id), omega arith, All-Other-evicted principal_id c.entries)

-- A put of the principal is one that began by the generation g.
abbrev pub IsEarly : String → ℕ → Call → Type 0
IsEarly principal_id g (Call.puts key principal generation read_at) =
    principal.principal_id ≡ principal_id → generation ≤ g
IsEarly principal_id g _ = Unit

module _ (principal_id : String) (g : ℕ) where
  after_later :
      (o : Option ℕ) (generation : ℕ)
      → after_generation o g ≡ true
      → generation ≤ g
      → after_generation o generation ≡ true
  after_later none generation h k = h
  after_later (some n) generation h k = ground (arith, h, k)

  -- what is put is of another principal
  other_put :
      (principal : Principal) (generation : ℕ) (c : Cache)
      → (principal.principal_id ≡ principal_id → generation ≤ g)
      → after_generation (last_eviction principal_id c.evicted_at) g ≡ true
      → after_generation (last_eviction principal.principal_id c.evicted_at) generation ≡ false
      → (principal.principal_id == principal_id) ≡ false
  other_put principal generation c early gone kept =
      elim (Bool-cases (principal.principal_id == principal_id)) [
        | inr other ↦ other
        | inl hit ↦
            let same = (eq_iff principal.principal_id principal_id).0 hit in
            let later =
              after_later (last_eviction principal_id c.evicted_at) generation gone (early same) in
            absurd (
              ground (
                arith,
                later,
                subst (λ i. after_generation (last_eviction i c.evicted_at) generation ≡ false) same
                    kept,
              ))
      ]

  get-Gone :
      (now : ℕ) (key : String) (c : Cache)
      → Gone principal_id g c
      → Gone principal_id g (get now key c).1
  get-Gone now key c h = elim (get-cases now key c) [
    | inl missing ↦ rw missing h
    | inr (inl expired) ↦
        rw expired (h.0, h.1, All-delete_where (Other principal_id) (has_key key) c.entries h.2)
    | inr (inr (e, found, early, hit)) ↦ rw hit (
      h.0,
      h.1,
      All-append (Other principal_id) (delete_where (has_key key) c.entries) (e ∷ [])
          (All-delete_where (Other principal_id) (has_key key) c.entries h.2)
          ((All-fetchone (Other principal_id) (has_key key) c.entries e h.2 found).0, tt),
    )
  ]

  put-Gone :
      (key : String) (principal : Principal) (generation read_at : ℕ) (c : Cache)
      → (principal.principal_id ≡ principal_id → generation ≤ g)
      → Gone principal_id g c
      → Gone principal_id g (put key principal generation read_at c)
  put-Gone key principal generation read_at c early h =
      elim (put-cases key principal generation read_at c) [
        | inl dropped ↦ rw dropped h
        | inr (kept, stored) ↦
            let e : Entry = record {
              key = key;
              expires_at = read_at + c.ttl;
              principal = principal;
            } in
            let rows = delete_where (has_key key) c.entries ++ e ∷ [] in
            rw stored (
              h.0,
              h.1,
              All-drop (Other principal_id) (length rows - c.max_entries) rows (
                  All-append (Other principal_id) (delete_where (has_key key) c.entries) (e ∷ [])
                    (All-delete_where (Other principal_id) (has_key key) c.entries h.2)
                    (other_put principal generation c early h.0 kept, tt)),
            )
      ]

  call-Gone :
      (s : Call) (c : Cache)
      → IsEarly principal_id g s
      → Gone principal_id g c
      → Gone principal_id g (call s c)
  unfolding evict_principal clear last_eviction
  call-Gone (Call.gets now key) c early h = get-Gone now key c h
  call-Gone (Call.puts key principal generation read_at) c early h =
      put-Gone key principal generation read_at c early h
  call-Gone (Call.evicts other) c early h = (
    ground (arith, h.0, h.1),
    omega (arith, h.1),
    All-delete_where (Other principal_id) (is_principal other) c.entries h.2,
  )
  call-Gone Call.clears c early h = (h.0, omega (arith, h.1), tt)

  abbrev pub AllEarly : List Call → Type 0
  AllEarly [] = Unit
  AllEarly (s ∷ calls) = IsEarly principal_id g s × AllEarly calls

  run-Gone :
      (calls : List Call) (c : Cache)
      → AllEarly calls
      → Gone principal_id g c
      → Gone principal_id g (run calls c)
  run-Gone [] c early h = h
  run-Gone (s ∷ calls) c early h = run-Gone calls (call s c) early.1 (call-Gone s c early.0 h)

-- Once a principal has been evicted, the cache serves nobody as that principal, for any key and at
-- any time, whatever calls threads make in between, as long as each put of the principal is of a
-- resolve that began before the eviction: such a put is dropped.
pub get-evicted :
    (principal_id key : String) (now : ℕ) (calls : List Call) (c : Cache) (p : Principal)
    → AllEarly principal_id c.seq calls
    → (get now key (run calls (evict_principal principal_id c))).0 ≡ some p
    → p.principal_id ≢ principal_id
get-evicted principal_id key now calls c p early served same =
    let after = run calls (evict_principal principal_id c) in
    let gone =
      run-Gone principal_id c.seq calls (evict_principal principal_id c) early
        (evict-Gone principal_id c) in
    elim (get-cases now key after) [
      | inl missing ↦ absurd (cc (ap (λ r. r.0) missing, served))
      | inr (inl expired) ↦ absurd (cc (ap (λ r. r.0) expired, served))
      | inr (inr (e, found, early', hit)) ↦
          let other =
            (All-fetchone (Other principal_id) (has_key key) after.entries e gone.2 found).0 in
          let who : e.principal ≡ p = cc (ap (λ r. r.0) hit, served) in
          absurd (
            ground (
              arith,
              other,
              eq_iff e.principal.principal_id principal_id,
              ap (λ (q : Principal). q.principal_id) who,
              same,
            ))
    ]
