-- ===== src/Web/Middleware/Gate.antt =====
-- Who gets past PrincipalMiddleware.
use markland.Prelude.{
  String, true, Option, none, some, List, ◌≡◌, refl, ◌⊎◌, inl, inr, Bool-cases, subst,
}
use markland.Model.{Principal, Fresh}
use markland.Effects.{Result, ok, err, Error}
use markland.External.{External}
use markland.RateLimit.{RateLimiter, Decision, allowed, refused, check}
use markland.Web.Middleware.{
  Headers, Memo, World, is_bearer, resolve_header, resolve_request_bearer, set_principal,
  resolve_lazily, resolve_principal_lazy, bucket_of, Served, after_check, rate_limit_dispatch,
  is_protected, pass_resolved, pass_protected, principal_dispatch, serve, memo_of,
}

-- a request that comes in: nothing is on request.state yet
abbrev pub arriving : World → World
arriving w = record w { principal = none; bearer_resolution = Memo.unresolved }

module _ (x : External) (fresh : Fresh) (headers : Headers) where
  -- what resolve_token gives for the token in the Authorization header, with a request's cache and database
  abbrev pub verdict : World → Result (Option Principal)
  verdict w = (resolve_header x fresh headers w).0

  -- The Authorization header is a Bearer token that stands for the principal.
  abbrev pub Vouches : World → Principal → Type 0
  Vouches w p = (is_bearer x fresh headers ≡ true) × (verdict w ≡ ok (some p))

  -- It does so as the request comes in, or, where that resolution raises, with what it leaves behind.
  abbrev pub Found : World → Principal → Type 0
  Found w p =
      Vouches w p
      ⊎ (((e : Error) × (verdict w ≡ err e)) × Vouches (resolve_header x fresh headers w).1 p)

  module _ (w : World) where
    abbrev PrincipalFound : Option Principal → Type 0
    PrincipalFound none = Unit
    PrincipalFound (some p) = Found w p

    abbrev ResultFound : Result (Option Principal) → Type 0
    ResultFound (err e) = Unit
    ResultFound (ok o) = PrincipalFound o

    -- Whoever stands on the request is found, and so is whoever the inner middleware resolves.
    abbrev Seen : World → Type 0
    Seen v =
        PrincipalFound v.principal
        × ((limiter : RateLimiter)
            → ResultFound
                (resolve_request_bearer x fresh headers (record v { limiter = limiter })).0)

    second_found :
        (e : Error) (r : Result (Option Principal))
        → verdict w ≡ err e
        → is_bearer x fresh headers ≡ true
        → verdict (resolve_header x fresh headers w).1 ≡ r
        → ResultFound r
    second_found e (err e') raised b h = tt
    second_found e (ok none) raised b h = tt
    second_found e (ok (some p)) raised b h = inr ((e, raised), (b, h))

    header-Seen :
        (r : Result (Option Principal))
        → w.principal ≡ none
        → is_bearer x fresh headers ≡ true
        → verdict w ≡ r
        → Seen
            (set_principal x fresh headers r
              (record (resolve_header x fresh headers w).1 { bearer_resolution = memo_of r })).1
    unfolding resolve_request_bearer
    header-Seen (err e) new b h = (
      rw new tt,
      λ limiter. rw b (second_found e (verdict (resolve_header x fresh headers w).1) h b refl),
    )
    header-Seen (ok none) new b h = (rw new tt, λ limiter. tt)
    header-Seen (ok (some p)) new b h = (inl (b, h), λ limiter. inl (b, h))

  lazily-Seen : (w : World) → Seen (arriving w) (resolve_lazily x fresh headers none (arriving w)).1
  unfolding resolve_request_bearer
  lazily-Seen w = elim (Bool-cases (is_bearer x fresh headers)) [
    | inl b ↦ rw b (header-Seen (arriving w) (verdict (arriving w)) refl b refl)
    | inr b ↦ rw b (tt, λ limiter. rw b tt)
  ]

module _ {A : Type 0} (x : External) (fresh : Fresh) (headers : Headers) (prefixes : List String)
    (w : World) where
  -- either the app is not called, or it is called for a principal that the header stands for
  abbrev pub IsGated : ((World → Served A × World) → Served A × World) → Type 0
  IsGated run =
      ((app app' : World → Served A × World) → run app ≡ run app')
      ⊎ ((p : Principal) × ((v : World) × ((v.principal ≡ some p)
              × (Found x fresh headers w p
                  × ((app : World → Served A × World) → run app ≡ app v)))))

  resolved-IsGated :
      (r : Result (Option Principal)) (v : World)
      → ResultFound x fresh headers w r
      → IsGated (λ app. pass_resolved app headers r v)
  resolved-IsGated (err e) v h = inl λ app app'. refl
  resolved-IsGated (ok none) v h = inl λ app app'. refl
  resolved-IsGated (ok (some p)) v h =
      inr (p, (record v { principal = some p }, (refl, (h, λ app. refl))))

  protected-IsGated :
      (o : Option Principal) (v : World)
      → v.principal ≡ o
      → PrincipalFound x fresh headers w v.principal
      → ResultFound x fresh headers w (resolve_request_bearer x fresh headers v).0
      → IsGated (λ app. pass_protected app x fresh headers o v)
  protected-IsGated (some p) v e h later =
      inr (p, (v, (e, (subst (PrincipalFound x fresh headers w) e h, λ app. refl))))
  protected-IsGated none v e h later =
      let (r, v') = resolve_request_bearer x fresh headers v in resolved-IsGated r v' later

  check-IsGated :
      (d : Decision) (v : World) (limiter : RateLimiter)
      → is_protected prefixes headers.path ≡ true
      → Seen x fresh headers w v
      → IsGated (λ app.
        after_check
          (principal_dispatch app prefixes x fresh headers)
          d
          (record v { limiter = limiter }))
  unfolding principal_dispatch
  check-IsGated (refused retry_after) v limiter protected h = inl λ app app'. refl
  check-IsGated allowed v limiter protected h =
      rw protected
        (protected-IsGated v.principal (record v { limiter = limiter }) refl h.0 (h.1 limiter))

-- A protected path is served only to the principal whom the request's Bearer token stands for: behind the
-- two middlewares, what an arriving request under a protected prefix comes to does not depend on the app,
-- which is not called, or it is what the app makes of the request with the principal that resolve_token
-- gives for the token in the Authorization header with the cache and the database that the request found,
-- or, if that resolution raises, with those that it left.
pub serve-IsGated :
    {A : Type 0} (x : External) (fresh : Fresh) (headers : Headers) (prefixes : List String)
    (w : World)
    → is_protected prefixes headers.path ≡ true
    → IsGated {A = A} x fresh headers prefixes
        (arriving w)
        (λ app. serve prefixes x fresh headers app (arriving w))
unfolding serve rate_limit_dispatch resolve_principal_lazy
serve-IsGated x fresh headers prefixes w protected =
    let (principal, v) = resolve_lazily x fresh headers none (arriving w) in
    let bucket = bucket_of headers principal in
    let (decision, limiter) = check bucket.0 bucket.1 fresh.now v.limiter in
    check-IsGated x fresh headers prefixes (arriving w) decision v limiter protected
      (lazily-Seen x fresh headers w)
