-- ===== src/Web/Inversion.antt =====
-- What a handler that returns went through.
use markland.Prelude.{◌≡◌, refl, ap}
use markland.Effects.{Conn, Result, ok, err}
use markland.Web.{
  pure, Handler, Reply, returned, http_exception, json_error, uncaught, ◌>>=◌, and_then, answer,
}

and_then-returned :
    {A B : Type 0} (r : Reply A) (f : A → Handler B) (d c' : Conn) (b : B)
    → and_then r f d ≡ (returned b, c')
    → (a : A) × ((r ≡ returned a) × (f a d ≡ (returned b, c')))
and_then-returned (returned a) f d c' b h = (a, (refl, h))
and_then-returned (http_exception status detail) f d c' b h = absurd (cc (ap (λ q. q.0) h))
and_then-returned (json_error status body) f d c' b h = absurd (cc (ap (λ q. q.0) h))
and_then-returned (uncaught e) f d c' b h = absurd (cc (ap (λ q. q.0) h))

-- Both steps of a sequence that returns have returned.
pub bind-returned :
    {A B : Type 0} (m : Handler A) (f : A → Handler B) (c c' : Conn) (b : B)
    → (m >>= f) c ≡ (returned b, c')
    → (a : A) × ((m c ≡ (returned a, (m c).1)) × (f a (m c).1 ≡ (returned b, c')))
bind-returned m f c c' b h =
    let (a, (r, rest)) = and_then-returned (m c).0 f (m c).1 c' b h in
    (a, (ap (λ q. (q, (m c).1)) r, rest))

-- A step whose errors are not caught has returned.
pub uncaught-returned :
    {A : Type 0} (r : Result A) (a : A) → answer uncaught r ≡ returned a → r ≡ ok a
uncaught-returned (ok b) a h = cc h
uncaught-returned (err e) a h = absurd (cc h)

-- what is done to an answer does not touch the tables
pub pure-state :
    {A B : Type 0} (m : Reply A) (f : A → B) (c : Conn) → (and_then m (λ a. pure (f a)) c).1 ≡ c
pure-state (returned a) f c = refl
pure-state (http_exception status detail) f c = refl
pure-state (json_error status body) f c = refl
pure-state (uncaught e) f c = refl
