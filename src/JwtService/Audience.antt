-- ===== src/JwtService/Audience.antt =====
-- The audience of the tokens that src/security/jwt_service.py makes, and of those that it accepts.
use events_api.Common.{
  ℕ, suc, String, ◌≡◌, ◌≢◌, ◌⊎◌, refl, Option, none, some, sym, ◌∙◌, arith, eq_iff, Option-cases,
  inl, inr, ap, List, [], ◌∷◌, ◌==◌, if◌then◌else◌,
}
use mathlib.Core.Option.{some-injective}
use events_api.Common.Result.{http_exception, Result, ok, raise, ok-injective}
use events_api.External.Jwt.{Claims, JwtLaws}
use events_api.External.Services.{Services}
use events_api.Handler.{World}
use events_api.JwtService.{make_access_token, make_refresh_token, decode_token}

two_audiences : ◌≢◌ {A = String} "auth_api" "your-api"
two_audiences = ground (arith, eq_iff "auth_api" "your-api")

module _ (S : Services) (laws : JwtLaws S.jwt) where
  -- PyJWT refuses a token that was made for `auth_api` where `your-api` is expected.
  decode-auth_api :
      (now : ℕ) (c : Claims) (key key' alg : String) (algs req : List String) (iss : String)
      → c.aud ≡ some "auth_api"
      → S.jwt.decode now (S.jwt.encode c key alg) key' algs "your-api" iss req ≡ none
  decode-auth_api now c key key' alg algs req iss own =
      elim (Option-cases (S.jwt.decode now (S.jwt.encode c key alg) key' algs "your-api" iss req)) [
        | inl refused ↦ refused
        | inr (c', e) ↦
            let same = laws.decode-encode now c c' key key' alg algs "your-api" iss req e in
            let aud = laws.decode-audience now _ c' key' algs "your-api" iss req e in
            absurd (
              two_audiences
                (some-injective _ _ (sym own ∙ (ap (λ (x : Claims). x.aud) (sym same) ∙ aud))))
      ]

  pub decode_token-auth_api :
      (c : Claims) (key alg expected : String) (w : World S)
      → c.aud ≡ some "auth_api"
      → decode_token S (S.jwt.encode c key alg) expected w
        ≡ (raise (http_exception 401 "Invalid or expired token."), record w { reads = suc w.reads })
  unfolding decode_token
  decode_token-auth_api c key alg expected w own = rw (
      decode-auth_api (S.clock w.reads) c key
        (if expected == "access" then S.settings.access_secret else S.settings.refresh_secret) alg
        ("HS256" ∷ []) ("exp" ∷ "sub" ∷ "type" ∷ "jti" ∷ []) "your-auth" own)

  refused_after :
      (c : Claims) (key alg expected : String) (token : S.jwt.Token) (w' : World S)
      → c.aud ≡ some "auth_api"
      → Path (Result S.jwt.Token) (ok (S.jwt.encode c key alg)) (ok token)
      → (decode_token S token expected w').0
        ≡ raise (http_exception 401 "Invalid or expired token.")
  refused_after c key alg expected token w' own made =
      rw (← ok-injective made, decode_token-auth_api c key alg expected w' own)

  -- A token from `make_refresh_token` or `make_access_token` is refused by `decode_token` with 401,
  -- at any time and as any type of token: it is made for the audience `auth_api`, and `your-api` is
  -- expected.
  pub decode-make_refresh_token :
      (sub : String) (jti : Option String) (exp : Option ℕ) (lifetime : ℕ) (typ expected : String)
      (token : S.jwt.Token) (w w' : World S)
      → ((make_refresh_token S sub jti exp lifetime typ w).0 ≡ ok token)
        ⊎ ((make_access_token S sub jti exp lifetime typ w).0 ≡ ok token)
      → (decode_token S token expected w').0
        ≡ raise (http_exception 401 "Invalid or expired token.")
  unfolding make_refresh_token make_access_token
  decode-make_refresh_token sub jti none days typ expected token w w' (inl made) =
      refused_after _ _ _ expected token w' refl made
  decode-make_refresh_token sub jti (some exp) days typ expected token w w' (inl made) =
      refused_after _ _ _ expected token w' refl made
  decode-make_refresh_token sub jti none days typ expected token w w' (inr made) =
      refused_after _ _ _ expected token w' refl made
  decode-make_refresh_token sub jti (some exp) days typ expected token w w' (inr made) =
      refused_after _ _ _ expected token w' refl made
