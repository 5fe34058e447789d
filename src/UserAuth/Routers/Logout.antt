-- ===== src/UserAuth/Routers/Logout.antt =====
-- `api_logout` of src/user_auth/routers.py.
use events_api.Common.{
  ℕ, suc, ◌<◌, String, ◌≡◌, ◌≢◌, true, false, Option, none, some, arith, ap, ◌∙◌, lt→ltb, eqb,
  Bool-cases, inl, inr, eq_refl, ◌==◌, [], ◌∷◌,
}
use events_api.Common.Int.{ℤ, eq_ℤ, eq_ℤ_refl, eq_ℤ→eq}
use events_api.Common.Result.{Result, ok, raise, http_exception, Result-cases}
use events_api.External.Json.{Json}
use events_api.External.Jwt.{Claims}
use events_api.External.Redis.{RedisLaws}
use events_api.External.Services.{Services}
use events_api.Metrics.{record_event}
use events_api.Handler.{World}
use events_api.DataBase.Models.{User}
use events_api.JwtService.{decoded_refresh, decode_token_ok}
use events_api.TokenCache.{timestamp, ttl_from_exp, is_revoked, get_refresh, revoke, delete_refresh}
use events_api.TokenCache.Slots.{refresh_slot-delete_refresh, revoked_slot-delete_refresh}
use events_api.TokenCache.Revocation.{is_revoked-revoke, get_refresh-absent, is_revoked_cong}
use events_api.UserAuth.Routers.{api_logout, is_falsy}

nonzero : (n : ℕ) → 0 < n → eqb n 0 ≡ false
nonzero n h = ground arith

module _ (S : Services) (user : User) (token : S.jwt.Token) where
  -- A user who logs out another user is refused with 403 before the token is read, and nothing
  -- changes.
  pub api_logout_other :
      (user_id : ℤ) (w : World S)
      → user_id ≢ user.id
      → api_logout S user_id token user w
        ≡ (raise (http_exception 403 "You can only access your own data."), w)
  unfolding api_logout
  api_logout_other user_id w other = elim (Bool-cases (eq_ℤ user_id user.id)) [
    | inl same ↦ absurd (other (eq_ℤ→eq user_id user.id same))
    | inr differs ↦ rw differs
  ]

  module _ (c : Claims) (typed : c.token_type ≡ some "refresh") (sub : String)
      (subject : c.sub ≡ some sub) (some_sub : (sub == "") ≡ false) (jti : String)
      (named : c.jti ≡ some jti) (some_jti : (jti == "") ≡ false) (exp : ℕ)
      (ends : c.exp ≡ some exp) (some_exp : 0 < exp) where
    abbrev prefix : String
    prefix = S.settings.token_cache_prefix

    -- the clock's reading at the call of `revoke`
    abbrev pub logged_out_at : World S → ℕ
    logged_out_at w = S.clock (suc w.reads)

    abbrev pub cache_after_logout : World S → S.redis.State
    cache_after_logout w =
        delete_refresh S.redis prefix jti
          (revoke S.redis prefix (logged_out_at w) jti (timestamp exp) w.redis)

    -- With an open session, `api_logout` revokes the token and removes its payload.
    api_logout_open :
        (w : World S) (known : Option Json)
        → decoded_refresh S token w ≡ some c
        → is_revoked S.redis prefix jti w.redis ≡ false
        → get_refresh S.redis S.json prefix jti w.redis ≡ ok known
        → is_falsy known ≡ false
        → api_logout S user.id token user w ≡ (
          ok tt,
          record w {
            redis = cache_after_logout w;
            reads = suc (suc w.reads);
            metrics = record_event (some (("name", "auth_logout") ∷ [])) w.metrics;
          },
        )
    unfolding api_logout
    api_logout_open w known accepted fresh stored there = rw (
      eq_ℤ_refl user.id,
      decode_token_ok S token w c accepted typed,
      typed,
      subject,
      named,
      ends,
      some_sub,
      some_jti,
      nonzero exp some_exp,
      fresh,
      stored,
      there,
    )

    -- With a token that is marked, `api_logout` answers 409.
    api_logout_marked :
        (w : World S)
        → decoded_refresh S token w ≡ some c
        → is_revoked S.redis prefix jti w.redis ≡ true
        → (api_logout S user.id token user w).0
          ≡ raise (http_exception 409 "Session already closed or not found")
    unfolding api_logout
    api_logout_marked w accepted marked = rw (
      eq_ℤ_refl user.id,
      decode_token_ok S token w c accepted typed,
      typed,
      subject,
      named,
      ends,
      some_sub,
      some_jti,
      nonzero exp some_exp,
      marked,
    )

    -- So it does with a token that is not stored.
    api_logout_closed :
        (w : World S)
        → decoded_refresh S token w ≡ some c
        → get_refresh S.redis S.json prefix jti w.redis ≡ ok none
        → (api_logout S user.id token user w).0
          ≡ raise (http_exception 409 "Session already closed or not found")
    unfolding api_logout
    api_logout_closed w accepted gone = elim (Bool-cases (is_revoked S.redis prefix jti w.redis)) [
      | inl marked ↦ api_logout_marked w accepted marked
      | inr fresh ↦ rw (
        eq_ℤ_refl user.id,
        decode_token_ok S token w c accepted typed,
        typed,
        subject,
        named,
        ends,
        some_sub,
        some_jti,
        nonzero exp some_exp,
        fresh,
        gone,
      )
    ]

    -- Each of the claims that it reads is there, so a logout that succeeds has found an open
    -- session.
    api_logout-open :
        (w : World S)
        → decoded_refresh S token w ≡ some c
        → (api_logout S user.id token user w).0 ≡ ok tt
        → (api_logout S user.id token user w).1.redis ≡ cache_after_logout w
    unfolding api_logout
    api_logout-open w accepted done = elim (Bool-cases (is_revoked S.redis prefix jti w.redis)) [
      | inl marked ↦ let h = api_logout_marked w accepted marked in cc
      | inr fresh ↦ elim (Result-cases (get_refresh S.redis S.json prefix jti w.redis)) [
        | inl (e, failed) ↦
            let h =
              rw
                (
                  eq_ℤ_refl user.id,
                  decode_token_ok S token w c accepted typed,
                  typed,
                  subject,
                  named,
                  ends,
                  some_sub,
                  some_jti,
                  nonzero exp some_exp,
                  fresh,
                  failed,
                )
                at done in
            cc
        | inr (known, stored) ↦ elim (Bool-cases (is_falsy known)) [
          | inl gone ↦
              let h =
                rw
                  (
                    eq_ℤ_refl user.id,
                    decode_token_ok S token w c accepted typed,
                    typed,
                    subject,
                    named,
                    ends,
                    some_sub,
                    some_jti,
                    nonzero exp some_exp,
                    fresh,
                    stored,
                    gone,
                  )
                  at done in
              cc
          | inr there ↦
              ap (λ (x : Result (Unit {0}) × World S). x.1.redis)
                (api_logout_open w known accepted fresh stored there)
        ]
      ]
    ]

    -- After a logout that succeeded the session is closed for good: the payload is gone, so a
    -- second logout with the same token answers 409 in any state whose cache is what the first one
    -- left, and the token is marked as revoked for the whole seconds to its expiry.
    pub api_logout-closes :
        (L : RedisLaws S.redis) (w w' : World S) (d : ℕ)
        → decoded_refresh S token w ≡ some c
        → decoded_refresh S token w' ≡ some c
        → (api_logout S user.id token user w).0 ≡ ok tt
        → w'.redis ≡ S.redis.elapse d (api_logout S user.id token user w).1.redis
        → ((api_logout S user.id token user w').0
            ≡ raise (http_exception 409 "Session already closed or not found"))
          × (d < ttl_from_exp (logged_out_at w) (timestamp exp)
              → is_revoked S.redis S.settings.token_cache_prefix jti w'.redis ≡ true)
    api_logout-closes L w w' d accepted again done later =
        let revoked_cache = revoke S.redis prefix (logged_out_at w) jti (timestamp exp) w.redis in
        let left = later ∙ ap (S.redis.elapse d) (api_logout-open w accepted done) in
        (
          api_logout_closed w' again (
              get_refresh-absent S.redis L prefix S.json jti w'.redis (
                rw (
                  left,
                  L.slot-elapse,
                  refresh_slot-delete_refresh S.redis L prefix jti jti revoked_cache,
                  eq_refl jti,
                ))),
          λ early.
              ap (is_revoked S.redis prefix jti) left
              ∙ (is_revoked_cong S.redis L prefix jti _ (S.redis.elapse d revoked_cache) (
                    rw (
                      L.slot-elapse,
                      revoked_slot-delete_refresh S.redis L prefix jti jti revoked_cache,
                      L.slot-elapse,
                    ))
                  ∙ ((is_revoked-revoke S.redis L prefix S.json (logged_out_at w) d jti
                        (timestamp exp) w.redis (omega arith)).0
                      ∙ lt→ltb _ _ early)),
        )
