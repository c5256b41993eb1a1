-- ===== src/Tokens/Resolve/Sound.antt =====
-- Whom a bearer token authenticates.
use markland.Prelude.{
  String, true, Option, none, some, ◌≡◌, refl, ap, ◌∙◌, ◌⊎◌, inl, inr, arith, Mem, All, All-Mem,
  All-fetchone, All-select, eq_iff, fetchone, Option-cases, holds, select, subst,
}
use markland.Model.{Principal, Token, Db, Fresh}
use markland.Effects.{Conn, ok, Action}
use markland.External.{External}
use markland.Tokens.Plaintext.{ParsedToken, parse_token_plaintext}
use markland.Tokens.Resolve.{
  touch, build_principal, build_principal_and_touch, has_digest, is_undigested, is_legacy,
  by_token_id, find_by_token_id, find_legacy, build_found, or_next, resolve_uncached,
}

-- The token is live, and the text is its own: by its digest or by its Argon2 hash.
abbrev pub Authenticates : External → String → Token → Type 0
Authenticates x plaintext t =
    (t.revoked_at ≡ none)
    × ((t.token_digest ≡ some (x.sha256_hex plaintext))
        ⊎ (x.verify_token plaintext t.token_hash ≡ true))

holds-some : (o : Option String) (s : String) → holds o s ≡ true → o ≡ some s
holds-some none s h = ground arith
holds-some (some r) s h = ap some ((eq_iff r s).0 h)

module _ (x : External) (P : Token → Type 0) (db : Db) (plaintext : String) (t : Token)
    (all : All P db.tokens) where
  digest_sound :
      fetchone (has_digest (x.sha256_hex plaintext)) db.tokens ≡ some t
      → P t × Authenticates x plaintext t
  digest_sound e =
      let found = All-fetchone P (has_digest (x.sha256_hex plaintext)) db.tokens t all e in
      (
        found.0,
        (
          ground (arith, found.1),
          inl (holds-some t.token_digest (x.sha256_hex plaintext) (ground (arith, found.1))),
        ),
      )

  token_id_sound :
      (parsed : Option ParsedToken)
      → find_by_token_id x db plaintext parsed ≡ some t
      → P t × Authenticates x plaintext t
  unfolding find_by_token_id
  token_id_sound none e = absurd (ground arith)
  token_id_sound (some parsed) e =
      elim (Option-cases (fetchone (is_undigested db parsed.token_id) db.tokens)) [
        | inl missing ↦ absurd (ground (arith, missing, e))
        | inr (r, found) ↦
            let kept : by_token_id x plaintext parsed r ≡ true = ground (arith, found, e) in
            let same : r ≡ t = ground (arith, found, e) in
            let row = All-fetchone P (is_undigested db parsed.token_id) db.tokens r all found in
            subst (λ s. P s × Authenticates x plaintext s) same
              (row.0, (ground (arith, row.1), inr (ground (arith, kept))))
      ]

  legacy_sound : find_legacy x db plaintext ≡ some t → P t × Authenticates x plaintext t
  unfolding find_legacy
  legacy_sound e =
      let found =
        All-fetchone (λ r. P r × (is_legacy db r ≡ true))
          (λ r. x.verify_token plaintext r.token_hash) (select (is_legacy db) db.tokens) t
          (All-select P (is_legacy db) db.tokens all) e in
      (found.0.0, (ground (arith, found.0.1), inr found.1))

-- a row that was looked for and not found leaves everything as it was
abbrev Built : Fresh → String → Option Token → Conn → Type 0
Built fresh digest o c =
    (build_found fresh digest o c ≡ (ok none, c))
    ⊎ ((t : Token) × (p : Principal) × (o ≡ some t)
        × (build_principal c.db t.principal_type t.principal_id ≡ some p)
        × ((build_found fresh digest o c).0 ≡ ok (some p)))

build_found_cases :
    (fresh : Fresh) (digest : String) (o : Option Token) (c : Conn) → Built fresh digest o c
unfolding build_principal_and_touch touch
build_found_cases fresh digest none c = inl refl
build_found_cases fresh digest (some t) c =
    elim (Option-cases (build_principal c.db t.principal_type t.principal_id)) [
      | inl e ↦ inl (rw e refl)
      | inr (p, e) ↦ inr (t, p, refl, e, rw e refl)
    ]

or_next_found :
    (q : Principal) (first next : Action (Option Principal)) (c : Conn)
    → (first c).0 ≡ ok (some q)
    → (or_next first next c).0 ≡ ok (some q)
or_next_found q first next c e = rw e refl

-- the first way
pub resolve_by_digest :
    (x : External) (fresh : Fresh) (text : String) (c : Conn) (t : Token) (p : Principal)
    → fetchone (has_digest (x.sha256_hex text)) c.db.tokens ≡ some t
    → build_principal c.db t.principal_type t.principal_id ≡ some p
    → (resolve_uncached x fresh text c).0 ≡ ok (some p)
unfolding resolve_uncached build_principal_and_touch touch
resolve_by_digest x fresh text c t p found built = rw (found, built) refl

module _ (x : External) (P : Token → Type 0) (fresh : Fresh) (plaintext : String) (c : Conn)
    (all : All P c.db.tokens) where
  abbrev pub Authenticated : Principal → Type 0
  Authenticated p =
      (t : Token) × P t
      × Authenticates x plaintext t
      × (build_principal c.db t.principal_type t.principal_id ≡ some p)

  last_way :
      (p : Principal) (o : Option Token)
      → ((t : Token) → o ≡ some t → P t × Authenticates x plaintext t)
      → (build_found fresh (x.sha256_hex plaintext) o c).0 ≡ ok (some p)
      → Authenticated p
  last_way p o sound e = elim (build_found_cases fresh (x.sha256_hex plaintext) o c) [
    | inl missed ↦ absurd (cc (ap (λ r. r.0) missed, e))
    | inr (t, q, found, built, done) ↦
        let same : q ≡ p = cc (done, e) in
        let (row, authentic) = sound t found in (t, row, authentic, built ∙ ap some same)
  ]

  -- one way after the other
  next_way :
      (p : Principal) (o : Option Token) (next : Action (Option Principal))
      → ((t : Token) → o ≡ some t → P t × Authenticates x plaintext t)
      → ((next c).0 ≡ ok (some p) → Authenticated p)
      → (or_next (λ c. build_found fresh (x.sha256_hex plaintext) o c) next c).0 ≡ ok (some p)
      → Authenticated p
  next_way p o next sound later e = elim (build_found_cases fresh (x.sha256_hex plaintext) o c) [
    | inl missed ↦ later (rw missed at e)
    | inr (t, q, found, built, done) ↦
        let first =
          or_next_found q (λ d. build_found fresh (x.sha256_hex plaintext) o d) next c done in
        last_way p o sound (cc (done, first, e))
  ]

  pub resolve_sound :
      (p : Principal) → (resolve_uncached x fresh plaintext c).0 ≡ ok (some p) → Authenticated p
  unfolding resolve_uncached
  resolve_sound p =
      next_way p (fetchone (has_digest (x.sha256_hex plaintext)) c.db.tokens)
        (or_next
          (λ d.
            build_found fresh (x.sha256_hex plaintext)
              (find_by_token_id x d.db plaintext (parse_token_plaintext plaintext)) d)
          (λ d. build_found fresh (x.sha256_hex plaintext) (find_legacy x d.db plaintext) d))
        (λ t e. digest_sound x P c.db plaintext t all e)
        (next_way p (find_by_token_id x c.db plaintext (parse_token_plaintext plaintext))
          (λ d. build_found fresh (x.sha256_hex plaintext) (find_legacy x d.db plaintext) d)
          (λ t e. token_id_sound x P c.db plaintext t all (parse_token_plaintext plaintext) e)
          (last_way p (find_legacy x c.db plaintext)
            (λ t e. legacy_sound x P c.db plaintext t all e)))

-- Whoever a bearer token resolves to stands in the tables: there is a token row, not revoked, whose
-- digest is the text's or whose Argon2 hash the text verifies against, and the principal is the
-- stored user, or the stored agent, not revoked, that the row names.
pub resolve_uncached_sound :
    (x : External) (fresh : Fresh) (plaintext : String) (c : Conn) (p : Principal)
    → (resolve_uncached x fresh plaintext c).0 ≡ ok (some p)
    → (t : Token) × Mem t c.db.tokens
      × Authenticates x plaintext t
      × (build_principal c.db t.principal_type t.principal_id ≡ some p)
resolve_uncached_sound x fresh plaintext c p =
    resolve_sound x (λ t. Mem t c.db.tokens) fresh plaintext c (All-Mem c.db.tokens) p
