-- ===== src/UserAuth/Routers/Refresh.antt =====
-- `api_refresh` and `api_logout` of src/user_auth/routers.py: a refresh token serves once.
use events_api.Common.{
  ℕ, suc, ◌*◌, ◌<◌, String, ◌≡◌, true, false, Option, some, arith, ap, ◌∙◌, lt→ltb, Bool-cases,
  Option-cases, inl, inr,
}
use events_api.Common.Int.{ℤ}
use events_api.Common.Result.{ok, raise, http_exception, Result-cases}
use events_api.Common.Text.{parse_int, digit_value}
use events_api.External.Json.{Json}
use events_api.External.Jwt.{Claims}
use events_api.External.Redis.{RedisLaws}
use events_api.External.Services.{Services}
use events_api.Handler.{World}
use events_api.JwtService.{decoded_refresh, decode_token_ok}
use events_api.TokenCache.{datetime, ttl_from_exp, is_revoked, get_refresh, revoke}
use events_api.TokenCache.Issue.Effects.{cache_after, issue_both}
use events_api.TokenCache.Revocation.{is_revoked-revoke}
use events_api.UserAuth.Schemas.{TokenPair}
use events_api.UserAuth.Routers.{api_refresh, is_falsy}

module _ (S : Services) (token : S.jwt.Token) (c : Claims) (typed : c.token_type ≡ some "refresh")
    (jti : String) (named : c.jti ≡ some jti) (exp : ℕ) (ends : c.exp ≡ some exp) where
  -- the state after the token is decoded
  abbrev decoded_at : World S → World S
  decoded_at w = record w { reads = suc w.reads }

  -- the clock's reading when the old token is revoked, after those of the decoding and of the
  -- issue of two tokens
  abbrev pub revoked_at : World S → ℕ
  revoked_at w = S.clock (suc (suc (suc (suc (suc (suc w.reads))))))

  abbrev prefix : String
  prefix = S.settings.token_cache_prefix

  -- The outcome, once each test has been passed.
  api_refresh_passed :
      (w : World S) (sub : String) (known : Option Json) (id : ℤ)
      → decoded_refresh S token w ≡ some c
      → c.sub ≡ some sub
      → is_revoked S.redis prefix jti w.redis ≡ false
      → get_refresh S.redis S.json prefix jti w.redis ≡ ok known
      → is_falsy known ≡ false
      → parse_int (digit_value S.unicode_digit) sub ≡ some id
      → (api_refresh S token w).1.redis
        ≡ revoke S.redis prefix
            (revoked_at w)
            jti
            (datetime (exp * 1000000))
            (cache_after S id (decoded_at w))
  unfolding api_refresh
  api_refresh_passed w sub known id accepted subject fresh stored there number = rw (
    decode_token_ok S token w c accepted typed,
    named,
    subject,
    ends,
    fresh,
    stored,
    there,
    number,
    issue_both S id (decoded_at w),
  )

  -- A token whose identifier is marked is refused.
  api_refresh_marked :
      (w : World S) (sub : String)
      → decoded_refresh S token w ≡ some c
      → c.sub ≡ some sub
      → is_revoked S.redis prefix jti w.redis ≡ true
      → (api_refresh S token w).0 ≡ raise (http_exception 401 "Refresh token revoked")
  unfolding api_refresh
  api_refresh_marked w sub accepted subject marked =
      rw (decode_token_ok S token w c accepted typed, named, subject, ends, marked)

  -- A refresh that succeeds has passed each test.
  record Passed (w : World S) : Type 0 where
    sub : String
    known : Option Json
    id : ℤ
    subject : c.sub ≡ some sub
    fresh : is_revoked S.redis prefix jti w.redis ≡ false
    stored : get_refresh S.redis S.json prefix jti w.redis ≡ ok known
    there : is_falsy known ≡ false
    number : parse_int (digit_value S.unicode_digit) sub ≡ some id

  api_refresh-Passed :
      (w : World S) (pair : TokenPair S.jwt.Token)
      → decoded_refresh S token w ≡ some c
      → (api_refresh S token w).0 ≡ ok pair
      → Passed w
  unfolding api_refresh
  api_refresh-Passed w pair accepted done = elim (Option-cases c.sub) [
    | inl missing ↦
        let h = rw (decode_token_ok S token w c accepted typed, named, missing) at done in cc
    | inr (sub, subject) ↦ elim (Bool-cases (is_revoked S.redis prefix jti w.redis)) [
      | inl marked ↦
          let h =
            rw (decode_token_ok S token w c accepted typed, named, subject, ends, marked) at done in
          cc
      | inr fresh ↦ elim (Result-cases (get_refresh S.redis S.json prefix jti w.redis)) [
        | inl (e, failed) ↦
            let h =
              rw (decode_token_ok S token w c accepted typed, named, subject, ends, fresh, failed)
                at done in
            cc
        | inr (known, stored) ↦ elim (Bool-cases (is_falsy known)) [
          | inl gone ↦
              let h =
                rw
                  (
                    decode_token_ok S token w c accepted typed,
                    named,
                    subject,
                    ends,
                    fresh,
                    stored,
                    gone,
                  )
                  at done in
              cc
          | inr there ↦ elim (Option-cases (parse_int (digit_value S.unicode_digit) sub)) [
            | inl bad ↦
                let h =
                  rw
                    (
                      decode_token_ok S token w c accepted typed,
                      named,
                      subject,
                      ends,
                      fresh,
                      stored,
                      there,
                      bad,
                    )
                    at done in
                cc
            | inr (id, number) ↦ record {
              sub = sub;
              known = known;
              id = id;
              subject = subject;
              fresh = fresh;
              stored = stored;
              there = there;
              number = number;
            }
          ]
        ]
      ]
    ]
  ]

  module _ (L : RedisLaws S.redis) where
    -- A refresh token serves once: while whole seconds are left to its expiry, as counted when it
    -- was revoked, a second presentation is refused with 401, in any state of the process whose
    -- cache is what the first refresh left, `d` seconds later.
    pub api_refresh_once :
        (w w' : World S) (pair : TokenPair S.jwt.Token) (d : ℕ)
        → decoded_refresh S token w ≡ some c
        → decoded_refresh S token w' ≡ some c
        → (api_refresh S token w).0 ≡ ok pair
        → w'.redis ≡ S.redis.elapse d (api_refresh S token w).1.redis
        → d < ttl_from_exp (revoked_at w) (datetime (exp * 1000000))
        → (api_refresh S token w').0 ≡ raise (http_exception 401 "Refresh token revoked")
    api_refresh_once w w' pair d accepted again done later early =
        let p = api_refresh-Passed w pair accepted done in
        let left =
          later
          ∙ ap (S.redis.elapse d) (
              api_refresh_passed w p.sub p.known p.id accepted p.subject p.fresh p.stored p.there
                p.number) in
        let marked =
          (is_revoked-revoke S.redis L prefix S.json (revoked_at w) d jti (datetime (exp * 1000000))
            (cache_after S p.id (decoded_at w)) (omega arith)).0 in
        api_refresh_marked w' p.sub again p.subject
          (ap (is_revoked S.redis prefix jti) left ∙ (marked ∙ lt→ltb _ _ early))
