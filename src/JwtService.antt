-- ===== src/JwtService.antt =====
-- src/security/jwt_service.py
pub mod Audience
use events_api.Common.{
  ℕ, suc, ◌≡◌, ◌+◌, ◌*◌, ◌/◌, String, Bool, true, false, not, Option, none, some, List, [], ◌∷◌,
  ◌==◌, eqb, if◌then◌else◌,
}
use events_api.Common.Result.{Exception, http_exception, Result, ok, raise}
use events_api.External.Jwt.{Claims, Jwt}
use events_api.External.Services.{Services}
use events_api.Handler.{World, Handler, pure, lift, utc_now, reject_if, ◌>>=◌, ◌>>◌}

-- `int(dt.timestamp())`
abbrev pub to_timestamp : ℕ → ℕ
to_timestamp us = us / 1000000

-- `payload.get(…) != expected`
abbrev differs : Option String → String → Bool
differs none expected = true
differs (some t) expected = not (t == expected)

decoded : Option Claims → Result Claims
decoded none = raise (http_exception 401 "Invalid or expired token.")
decoded (some c) = ok c

module _ (S : Services) where
  now_utc : Handler S ℕ
  now_utc = utc_now

  unfoldable pub jwt_common_claims : String → String → Option String → Handler S Claims
  unfolding now_utc
  jwt_common_claims sub token_type jti = do
    now ← now_utc
    pure (record {
      sub = some sub;
      token_type = some token_type;
      jti = jti;
      iat = some (to_timestamp now);
      iss = some "your-auth";
      aud = some "auth_api";
      exp = none;
    })

  -- `exp` if it is given, and else the clock's time and the lifetime, in microseconds
  exp_or_lifetime : Option ℕ → ℕ → Handler S ℕ
  unfolding now_utc
  exp_or_lifetime (some exp) lifetime = pure exp
  exp_or_lifetime none lifetime = do now ← now_utc; pure (now + lifetime)

  unfoldable pub make_access_token :
      String → Option String → Option ℕ → ℕ → String → Handler S S.jwt.Token
  unfolding jwt_common_claims exp_or_lifetime
  make_access_token sub jti exp minutes typ = do
    claims ← jwt_common_claims sub typ jti
    exp ← exp_or_lifetime exp (minutes * 60 * 1000000)
    pure (
        S.jwt.encode (record claims { exp = some (to_timestamp exp) }) S.settings.access_secret
          S.settings.jwt_alg)

  -- `days or 1`: no lifetime of zero days
  unfoldable pub make_refresh_token :
      String → Option String → Option ℕ → ℕ → String → Handler S S.jwt.Token
  unfolding jwt_common_claims exp_or_lifetime
  make_refresh_token sub jti exp days typ = do
    claims ← jwt_common_claims sub typ jti
    exp ← exp_or_lifetime exp ((if eqb days 0 then 1 else days) * 86400 * 1000000)
    pure (
        S.jwt.encode (record claims { exp = some (to_timestamp exp) }) S.settings.refresh_secret
          S.settings.jwt_alg)

  unfoldable pub decode_token : S.jwt.Token → String → Handler S Claims
  unfolding decoded
  decode_token token expected_type = do
    let secret =
        if expected_type == "access" then S.settings.access_secret else S.settings.refresh_secret
    now ← utc_now
    payload ← lift (
        decoded (
          S.jwt.decode now token secret ("HS256" ∷ []) "your-api" "your-auth"
            ("exp" ∷ "sub" ∷ "type" ∷ "jti" ∷ [])))
    reject_if (differs payload.token_type expected_type) 400 "Invalid token type."
    pure payload

module _ (S : Services) where
  -- What PyJWT answers to a refresh token that is presented at the state `w`.
  abbrev pub decoded_refresh : S.jwt.Token → World S → Option Claims
  decoded_refresh token w =
      S.jwt.decode (S.clock w.reads) token S.settings.refresh_secret ("HS256" ∷ []) "your-api"
        "your-auth" ("exp" ∷ "sub" ∷ "type" ∷ "jti" ∷ [])

  -- A token that PyJWT accepts, of the expected type, is decoded.
  pub decode_token_ok :
      (token : S.jwt.Token) (w : World S) (c : Claims)
      → decoded_refresh token w ≡ some c
      → c.token_type ≡ some "refresh"
      → decode_token S token "refresh" w ≡ (ok c, record w { reads = suc w.reads })
  unfolding decode_token
  decode_token_ok token w c accepted typ = rw (accepted, typ)
