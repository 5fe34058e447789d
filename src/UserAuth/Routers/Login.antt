-- ===== src/UserAuth/Routers/Login.antt =====
-- `api_login` of src/user_auth/routers.py.
use events_api.Common.{
  suc, ◌+◌, ◌/◌, ◌≤◌, ◌<◌, String, ◌≡◌, refl, ◌⊎◌, inl, inr, true, false, none, some, [], ◌∷◌,
  eq_refl, ap, ◌∙◌, sym, subst, arith, Option-cases, Bool-cases,
}
use mathlib.Core.Option.{some-injective}
use events_api.Common.Int.{eq_ℤ_refl}
use events_api.Common.Text.{str_int}
use events_api.Common.Result.{Result, ok, raise, http_exception, ok-injective}
use events_api.External.Json.{sub_payload, JsonLaws}
use events_api.External.Jwt.{JwtLaws}
use events_api.External.Redis.{RedisLaws}
use events_api.External.Services.{Services}
use events_api.Metrics.{record_event}
use events_api.Handler.{World}
use events_api.DataBase.Models.{User}
use events_api.DataBase.Crud.{get_current_user, get_current_user-decoded}
use events_api.JwtService.Audience.{decode_token-auth_api}
use events_api.TokenCache.{get_refresh, is_revoked}
use events_api.TokenCache.Revocation.{get_refresh-stored}
use events_api.TokenCache.Issue.{access_lifetime}
use events_api.TokenCache.Issue.Effects.{
  access_jti, access_claims, refresh_claims, access_token_of, refresh_token_of, stored_ttl,
  world_after, issue_both, refresh_slot-cache_after, revoked-cache_after,
}
use events_api.UserAuth.Schemas.{LoginIn, TokenPair}
use events_api.UserAuth.Routers.{api_login, api_refresh, api_logout}

module _ (S : Services) where
  -- an unknown email or a wrong password
  api_login_rejects :
      (payload : LoginIn) (w : World S)
      → (S.db.select_by_email payload.email w.db ≡ none)
        ⊎ ((u : User) × (S.db.select_by_email payload.email w.db ≡ some u)
            × (S.pwd_context.verify payload.password u.hashed_password ≡ false))
      → api_login S payload w ≡ (raise (http_exception 401 "Wrong password or email"), w)
  unfolding api_login
  api_login_rejects payload w (inl unknown) = rw unknown
  api_login_rejects payload w (inr (u, known, wrong)) = rw (known, wrong)

  module _ (payload : LoginIn) (w : World S) (u : User)
      (known : S.db.select_by_email payload.email w.db ≡ some u)
      (right : S.pwd_context.verify payload.password u.hashed_password ≡ true) where
    -- the pair of a login that succeeds, and the state that it leaves
    abbrev pub login_pair : TokenPair S.jwt.Token
    login_pair = record {
      access = access_token_of S u.id w;
      refresh = refresh_token_of S u.id w;
      token_type = "bearer";
      redirect_url = some "/";
    }

    abbrev pub login_world : World S
    login_world = record (world_after S u.id w) {
      metrics = record_event (some (("name", "auth_login") ∷ [])) w.metrics;
    }

    pub api_login_lem : api_login S payload w ≡ (ok login_pair, login_world)
    unfolding api_login
    api_login_lem = rw (known, right, issue_both S u.id w)

    -- A login with the right password returns a token pair. Provided that a second or more is left
    -- of the refresh token's lifetime when it is stored, the token's identifier is found in the
    -- cache with the user's id; the marks of revoked tokens are as before, and one event is
    -- recorded.
    pub api_login_opens :
        (L : RedisLaws S.redis) (payloads : JsonLaws S.json)
        → 0 < stored_ttl S u.id w
        → ((api_login S payload w).0 ≡ ok login_pair)
          × (get_refresh S.redis S.json S.settings.token_cache_prefix
                (S.random (suc w.draws))
                (api_login S payload w).1.redis
              ≡ ok (some (sub_payload u.id)))
          × ((jti : String)
              → is_revoked S.redis S.settings.token_cache_prefix jti (api_login S payload w).1.redis
                ≡ is_revoked S.redis S.settings.token_cache_prefix jti w.redis)
          × ((api_login S payload w).1.metrics.total_events_seen ≡ w.metrics.total_events_seen + 1)
    unfolding record_event
    api_login_opens L payloads live = rw api_login_lem (
      refl,
      get_refresh-stored S.redis L S.settings.token_cache_prefix S.json payloads u.id
          (stored_ttl S u.id w) _ _ (refresh_slot-cache_after S u.id w L live),
      λ jti. revoked-cache_after S u.id w L jti,
      refl,
    )

    -- The access token of a login identifies the user to `get_current_user`, up to 30 seconds past
    -- its expiry: where the settings name the issuer and the audience that tokens are made with,
    -- and the user is still in the table.
    pub get_current_user-api_login :
        (tokens : JwtLaws S.jwt) (pair : TokenPair S.jwt.Token) (w' : World S)
        → (api_login S payload w).0 ≡ ok pair
        → S.settings.jwt_audience ≡ "auth_api"
        → S.settings.jwt_issuer ≡ "your-auth"
        → S.clock w'.reads / 1000000 ≤ (S.clock w.reads + access_lifetime) / 1000000 + 30
        → S.db.select_by_id u.id w'.db ≡ some u
        → (get_current_user S (some pair.access) w').0 ≡ ok u
    get_current_user-api_login tokens pair w' done audience issuer early there =
        let same : login_pair ≡ pair =
          ok-injective (
            sym (ap (λ (x : Result (TokenPair S.jwt.Token) × World S). x.0) api_login_lem)
            ∙ done) in
        rw (← ap (λ (p : TokenPair S.jwt.Token). p.access) same) (
          ap (λ (x : Result User × World S). x.0)
            (get_current_user-decoded S (some (access_token_of S u.id w)) w'
              (access_claims S u.id w) u.id u
              (tokens.jose-encode (S.clock w'.reads) (access_claims S u.id w)
                S.settings.access_secret S.settings.jwt_alg (S.settings.jwt_alg ∷ [])
                S.settings.jwt_audience S.settings.jwt_issuer (str_int u.id) (access_jti S u.id w)
                30 _ (rw (eq_refl S.settings.jwt_alg)) (ap some (sym audience))
                (ap some (sym issuer)) refl refl refl early)
              refl there))

    -- The refresh token of a login opens nothing: `api_refresh` answers 401 to it, and so does
    -- `api_logout` to its owner, at any time, and neither changes the cache, the database or the
    -- metrics.
    pub api_refresh-api_login :
        (tokens : JwtLaws S.jwt) (pair : TokenPair S.jwt.Token) (w' : World S)
        → (api_login S payload w).0 ≡ ok pair
        → (api_refresh S pair.refresh w' ≡ (
          raise (http_exception 401 "Invalid or expired token."),
          record w' { reads = suc w'.reads },
        ))
          × (api_logout S u.id pair.refresh u w' ≡ (
            raise (http_exception 401 "Invalid or expired token."),
            record w' { reads = suc w'.reads },
          ))
    unfolding api_refresh api_logout
    api_refresh-api_login tokens pair w' done =
        let same : login_pair ≡ pair =
          ok-injective (
            sym (ap (λ (x : Result (TokenPair S.jwt.Token) × World S). x.0) api_login_lem)
            ∙ done) in
        let refused =
          decode_token-auth_api S tokens (refresh_claims S u.id w) S.settings.refresh_secret
            S.settings.jwt_alg "refresh" w' refl in
        rw (← ap (λ (p : TokenPair S.jwt.Token). p.refresh) same)
          (rw refused, rw (eq_ℤ_refl u.id, refused))

  -- A login succeeds exactly where the email is that of a user whose hash the password verifies
  -- against, and then returns the token pair of that user. In every other case it answers 401 with
  -- one and the same detail, and nothing has changed: no token is made, and neither the cache, the
  -- database nor the metrics are written.
  pub api_login_exact :
      (payload : LoginIn) (w : World S)
      → ((u : User) × (known : S.db.select_by_email payload.email w.db ≡ some u)
          × (right : S.pwd_context.verify payload.password u.hashed_password ≡ true) × (api_login S
                payload w
              ≡ (ok (login_pair payload w u known right), login_world payload w u known right)))
        ⊎ (((u : User)
              → S.db.select_by_email payload.email w.db ≡ some u
              → S.pwd_context.verify payload.password u.hashed_password ≡ false)
            × (api_login S payload w ≡ (raise (http_exception 401 "Wrong password or email"), w)))
  api_login_exact payload w = elim (Option-cases (S.db.select_by_email payload.email w.db)) [
    | inl unknown ↦
        inr (
          λ u known. ground (arith, sym unknown ∙ known),
          api_login_rejects payload w (inl unknown),
        )
    | inr (u, known) ↦ elim (Bool-cases (S.pwd_context.verify payload.password u.hashed_password)) [
      | inl right ↦ inl (u, known, right, api_login_lem payload w u known right)
      | inr wrong ↦ inr (
        λ v found.
            subst (λ (x : User). S.pwd_context.verify payload.password x.hashed_password ≡ false)
              (some-injective u v (sym known ∙ found)) wrong,
        api_login_rejects payload w (inr (u, known, wrong)),
      )
    ]
  ]
