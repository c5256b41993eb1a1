-- ===== src/Tests/MagicLink.antt =====
-- A magic link that is tried twice.
use markland.Prelude.{
  ℕ, String, ◌≡◌, ◌+◌, ◌≢◌, ◌&&◌, some, [], ◌∷◌, refl, arith, leb, fetchone, delete_where,
  if◌then◌else◌,
}
use markland.Effects.{ok}
use markland.MagicLink.{Loaded, Serializer, consume_payload, consume_magic_link_token}
use markland.MagicLink.SingleUse.{
  Try, attempt, IsTimed, IsFixed, run, consume_magic_link_token-single_use,
}
use markland.Tests.Samples.{conn}

-- Every token is signed at second 100, and is its own jti.
abbrev stamped : Serializer
stamped = record {
  loads = λ secret now max_age token.
      if leb 100 now && leb now (100 + max_age)
      then Loaded.payload (some "eve@example.com") (some token)
      else Loaded.signature_expired;
}

stamped-IsTimed : IsTimed stamped 900 "key" (λ token. 100)
stamped-IsTimed now token email jti h = (ground (arith, h), ground (arith, h))

stamped-IsFixed : IsFixed stamped 900 "key"
stamped-IsFixed now now' token email email' jti jti' h h' = ground (arith, h, h')

abbrev at : ℕ → String → Try
at now token = record { loaded_at = now; now = now + 1; token = token }

consume_magic_link_token-single_use_example :
    (attempt stamped 900 "key"
      (at 950 "t1")
      (run stamped 900 "key" (at 940 "t2" ∷ []) (attempt stamped 900 "key" (at 120 "t1") conn).1)).0
    ≢ ok "eve@example.com"
unfolding consume_magic_link_token consume_payload fetchone delete_where
consume_magic_link_token-single_use_example =
    consume_magic_link_token-single_use stamped 900 "key" (λ token. 100) stamped-IsTimed
      stamped-IsFixed (at 120 "t1") (at 950 "t1") refl "eve@example.com" "eve@example.com"
      (at 940 "t2" ∷ []) conn (omega arith) (omega arith, tt) refl refl

-- A link that is used in the second that it was signed in, and tried again when its signature is as old
-- as it may be: the table is read a second later, and has forgotten the use.
used_twice :
    (attempt stamped 900 "key"
      (record { loaded_at = 1000; now = 1001; token = "t1" })
      (attempt stamped 900 "key" (record { loaded_at = 100; now = 100; token = "t1" }) conn).1).0
    ≡ ok "eve@example.com"
unfolding consume_magic_link_token consume_payload fetchone delete_where
used_twice = refl
