-- ===== src/Web/Middleware/Once.antt =====
-- A request's Bearer token is resolved once for both middlewares.
use markland.Prelude.{
  sym, ap, ◌∙◌, if◌then◌else◌, String, false, Option, none, some, List, ◌≡◌, refl, ◌⊎◌, inl, inr,
  Bool-cases, subst,
}
use markland.Model.{Principal, Fresh}
use markland.Effects.{Result, ok}
use markland.External.{External}
use markland.RateLimit.{Decision, RateLimiter, allowed, refused, check}
use markland.Web.Middleware.{
  Headers, Memo, World, is_bearer, resolve_header, resolve_memo, resolve_request_bearer,
  resolve_lazily, resolve_principal_lazy, bucket_of, Served, after_check, rate_limit_dispatch,
  is_protected, pass_resolved, principal_dispatch, serve, memo_of,
}

module _ {A : Type 0} (x : External) (fresh : Fresh) (headers : Headers) (prefixes : List String)
    (app : World → Served A × World) where
  -- what the inner middleware does once the outer one knows the verdict
  abbrev pub known : Option Principal → World → Served A × World
  known o w =
      if is_protected prefixes headers.path then pass_resolved app headers (ok o) w else app w

  -- both middlewares as one, which resolves the token once and then checks the limit
  abbrev pub serve_once : Option Principal → World → Served A × World
  serve_once o w =
      let bucket = bucket_of headers o in
      let (decision, limiter) = check bucket.0 bucket.1 fresh.now w.limiter in
      after_check (known o) decision (record w { limiter = limiter })

abbrev Verdict : Type 0
Verdict = Result (Option Principal) × World

verdict_none : (o : Option Principal) → Result.ok none ≡ ok o → o ≡ none
verdict_none none h = refl
verdict_none (some p) h = absurd (cc h)

module _ (x : External) (fresh : Fresh) (headers : Headers) where
  -- what is memoized of a verdict: itself, or nothing where there is no token
  IsSettled : Memo → Option Principal → Type 0
  IsSettled m o =
      (m ≡ memo_of (ok o))
      ⊎ ((m ≡ Memo.unresolved) × ((o ≡ none) × (is_bearer x fresh headers ≡ false)))

  memo_again :
      (o : Option Principal) (w : World)
      → resolve_memo x fresh headers (memo_of (ok o)) w ≡ (ok o, w)
  memo_again none w = refl
  memo_again (some p) w = refl

  settled_again :
      (m : Memo) (o : Option Principal) (w : World)
      → IsSettled m o
      → resolve_memo x fresh headers m w ≡ (ok o, w)
  unfolding IsSettled
  settled_again m o w (inl same) = rw same (memo_again o w)
  settled_again m o w (inr (unresolved, (no_principal, no_token))) =
      rw (unresolved, no_principal, no_token) refl

  memo_settles :
      (m : Memo) (w w' : World) (o : Option Principal)
      → w.bearer_resolution ≡ m
      → resolve_memo x fresh headers m w ≡ (ok o, w')
      → IsSettled w'.bearer_resolution o
  unfolding IsSettled
  memo_settles Memo.invalid w w' o e h = inl (
      sym (ap (λ (r : Verdict). r.1.bearer_resolution) h) ∙ e ∙ ap (λ (r : Verdict). memo_of r.0) h)
  memo_settles (Memo.resolved p) w w' o e h = inl (
      sym (ap (λ (r : Verdict). r.1.bearer_resolution) h) ∙ e ∙ ap (λ (r : Verdict). memo_of r.0) h)
  memo_settles Memo.unresolved w w' o e h = elim (Bool-cases (is_bearer x fresh headers)) [
    | inl b ↦
        let found : resolve_header x fresh headers w ≡ (ok o, w') = sym (rw b refl) ∙ h in
        inl (
          sym (ap (λ (r : Verdict). r.1.bearer_resolution) found)
          ∙ ap (λ (r : Verdict). memo_of r.0) found)
    | inr b ↦
        let found : (ok none, w) ≡ (ok o, w') = sym (rw b refl) ∙ h in
        inr (
          sym (ap (λ (r : Verdict). r.1.bearer_resolution) found) ∙ e,
          (verdict_none o (ap (λ (r : Verdict). r.0) found), b),
        )
  ]

  resolve-principal :
      (m : Memo) (w : World) → (resolve_memo x fresh headers m w).1.principal ≡ w.principal
  resolve-principal Memo.invalid w = refl
  resolve-principal (Memo.resolved p) w = refl
  resolve-principal Memo.unresolved w = elim (Bool-cases (is_bearer x fresh headers)) [
    | inl b ↦ rw b refl
    | inr b ↦ rw b refl
  ]

  kept :
      (w w' : World)
      → resolve_request_bearer x fresh headers w ≡ (ok none, w')
      → w.principal ≡ none
      → w'.principal ≡ none
  unfolding resolve_request_bearer
  kept w w' h e =
      sym (ap (λ (r : Verdict). r.1.principal) h) ∙ resolve-principal w.bearer_resolution w ∙ e

  -- found again, whatever happened to the limiter since
  verdict_again :
      (w w' v : World) (o : Option Principal)
      → resolve_request_bearer x fresh headers w ≡ (ok o, w')
      → v.bearer_resolution ≡ w'.bearer_resolution
      → resolve_request_bearer x fresh headers v ≡ (ok o, v)
  unfolding resolve_request_bearer
  verdict_again w w' v o h same =
      settled_again v.bearer_resolution o v
        (subst (λ m. IsSettled m o) (sym same) (memo_settles w.bearer_resolution w w' o refl h))

module _ {A : Type 0} (x : External) (fresh : Fresh) (headers : Headers) (prefixes : List String)
    (app : World → Served A × World) where
  -- the inner middleware, after the token was resolved for the outer one
  inner :
      (o : Option Principal) (w w' : World) (limiter : RateLimiter)
      → resolve_request_bearer x fresh headers w ≡ (ok o, w')
      → principal_dispatch app prefixes x fresh headers
          (record w' { principal = o; limiter = limiter })
        ≡ known x fresh headers prefixes app o (record w' { principal = o; limiter = limiter })
  unfolding principal_dispatch
  inner (some p) w w' limiter h = refl
  inner none w w' limiter h =
      rw
        (verdict_again x fresh headers w w' (record w' { principal = none; limiter = limiter }) none
          h refl)
        refl

  checked :
      (o : Option Principal) (w w' : World) (d : Decision) (limiter : RateLimiter)
      → resolve_request_bearer x fresh headers w ≡ (ok o, w')
      → after_check
          (principal_dispatch app prefixes x fresh headers)
          d
          (record w' { principal = o; limiter = limiter })
        ≡ after_check
            (known x fresh headers prefixes app o)
            d
            (record w' { principal = o; limiter = limiter })
  checked o w w' allowed limiter h = inner o w w' limiter h
  checked o w w' (refused retry_after) limiter h = refl

  lazily :
      (o : Option Principal) (w w' : World)
      → w.principal ≡ none
      → resolve_request_bearer x fresh headers w ≡ (ok o, w')
      → resolve_lazily x fresh headers none w ≡ (o, record w' { principal = o })
  lazily (some p) w w' e h = rw h refl
  lazily none w w' e h =
      rw h (λ i. (none, record w' { principal = kept x fresh headers w w' h e i }))

  -- the outer middleware, after its look at the token
  limited : Option Principal × World → Served A × World
  limited q =
      let bucket = bucket_of headers q.0 in
      let (decision, limiter) = check bucket.0 bucket.1 fresh.now (q.1).limiter in
      after_check (principal_dispatch app prefixes x fresh headers) decision
        (record q.1 { limiter = limiter })

  -- The two middlewares are one that resolves the token once: where the outer one finds no principal on the
  -- request and resolves the token without an exception, what the request comes to is decided by that one
  -- verdict and by the limit. And the memo that is left gives the verdict again, valid or not, without a
  -- look at the cache or the database: it is the same whatever they hold by then, and they stay as they are.
  pub serve-once :
      (o : Option Principal) (w w' : World)
      → w.principal ≡ none
      → resolve_request_bearer x fresh headers w ≡ (ok o, w')
      → (serve prefixes x fresh headers app w
          ≡ serve_once x fresh headers prefixes app o (record w' { principal = o }))
        × ((v : World)
            → v.bearer_resolution ≡ w'.bearer_resolution
            → resolve_request_bearer x fresh headers v ≡ (ok o, v))
  unfolding serve rate_limit_dispatch resolve_principal_lazy limited
  serve-once o w w' e h =
      let (decision, limiter) =
        check (bucket_of headers o).0 (bucket_of headers o).1 fresh.now w'.limiter in
      (
        ap limited (ap (λ q. resolve_lazily x fresh headers q w) e ∙ lazily o w w' e h)
            ∙ checked o w w' decision limiter h,
        λ v same. verdict_again x fresh headers w w' v o h same,
      )
