-- ===== src/UserAuth/Routers/Overlap.antt =====
-- `api_refresh` of src/user_auth/routers.py in the two parts between which it waits: the tests,
-- which only read, and the issue of the new tokens with the mark of the old one; and requests that
-- overlap.
use events_api.Common.{
  ℕ, zero, suc, ◌+◌, ◌*◌, ◌<◌, String, ◌≡◌, refl, true, false, Option, some, List, [], ◌∷◌, arith,
  ap, subst, inl, inr,
}
use events_api.Common.Int.{ℤ}
use events_api.Common.Result.{Result, ok, Result-cases}
use events_api.Common.Text.{parse_int, digit_value}
use events_api.External.Json.{Json}
use events_api.External.Jwt.{Claims}
use events_api.External.Services.{Services}
use events_api.Handler.{
  World, Handler, pure, lift, utc_now, ask_redis, on_redis, reject_if, ◌>>=◌, ◌>>◌,
}
use events_api.JwtService.{decode_token, decoded_refresh, decode_token_ok}
use events_api.DataBase.Crud.{to_int}
use events_api.TokenCache.{datetime, is_revoked, get_refresh, revoke}
use events_api.TokenCache.Issue.{issue_tokens_for_user}
use events_api.TokenCache.Issue.Effects.{issue_both}
use events_api.UserAuth.Schemas.{TokenPair}
use events_api.UserAuth.Routers.{api_refresh, is_falsy, item, token_pair}

-- a request that has passed the tests: the token's identifier, its expiry and its user
pub record Accepted : Type 0 where
  pub jti : String
  pub exp : ℕ
  pub user_id : ℤ

module _ (S : Services) where
  unfoldable pub accept_refresh : S.jwt.Token → Handler S Accepted
  accept_refresh refresh = do
    payload ← decode_token S refresh "refresh"
    jti ← lift (item payload.jti)
    sub ← lift (item payload.sub)
    exp ← lift (item payload.exp)
    let prefix = S.settings.token_cache_prefix
    revoked ← ask_redis (is_revoked S.redis prefix jti)
    reject_if revoked 401 "Refresh token revoked"
    stored ← ask_redis (get_refresh S.redis S.json prefix jti)
    known ← lift stored
    reject_if (is_falsy known) 401 "Refresh token invalid/expired"
    user_id ← lift (to_int (parse_int (digit_value S.unicode_digit) sub))
    pure (record { jti = jti; exp = exp; user_id = user_id })

  unfoldable pub renew_tokens : Accepted → Handler S (TokenPair S.jwt.Token)
  unfolding token_pair
  renew_tokens a = do
    new_tokens ← issue_tokens_for_user S a.user_id true true
    revoked_at ← utc_now
    on_redis
        (revoke S.redis S.settings.token_cache_prefix revoked_at a.jti (datetime (a.exp * 1000000)))
    lift (token_pair S new_tokens)

  pub api_refresh-parts :
      (refresh : S.jwt.Token) (w : World S)
      → api_refresh S refresh w ≡ (accept_refresh refresh >>= renew_tokens) w
  unfolding api_refresh accept_refresh renew_tokens
  api_refresh-parts refresh w = ground arith

  -- `n` requests with one token, each of which passes its tests before any of them goes on.
  abbrev pub accept_each : ℕ → S.jwt.Token → World S → List (Result Accepted) × World S
  accept_each zero refresh w = ([], w)
  accept_each (suc n) refresh w =
      let first = accept_refresh refresh w in
      let others = accept_each n refresh first.1 in (first.0 ∷ others.0, others.1)

  -- the part of a request after its tests, which it does not reach if one of them raised
  abbrev goes_on : Result Accepted → Handler S (TokenPair S.jwt.Token)
  goes_on r = lift r >>= renew_tokens

  abbrev pub renew_each :
      List (Result Accepted) → World S → List (Result (TokenPair S.jwt.Token)) × World S
  renew_each [] w = ([], w)
  renew_each (r ∷ rs) w =
      let first = goes_on r w in
      let others = renew_each rs first.1 in (first.0 ∷ others.0, others.1)

  abbrev pub overlapping :
      ℕ → S.jwt.Token → World S → List (Result (TokenPair S.jwt.Token)) × World S
  overlapping n refresh w = renew_each (accept_each n refresh w).0 (accept_each n refresh w).1

  -- So many answers, and each of them a token pair.
  abbrev pub Served : ℕ → List (Result (TokenPair S.jwt.Token)) → Type 0
  Served zero [] = Unit
  Served zero (r ∷ rs) = ⊥
  Served (suc n) [] = ⊥
  Served (suc n) (r ∷ rs) = ((pair : TokenPair S.jwt.Token) × (r ≡ ok pair)) × Served n rs

  renew_tokens-ok :
      (a : Accepted) (w : World S)
      → (pair : TokenPair S.jwt.Token) × ((renew_tokens a w).0 ≡ ok pair)
  unfolding renew_tokens
  renew_tokens-ok a w = elim (Result-cases (renew_tokens a w).0) [
    | inl (e, failed) ↦ let h = rw (renew_tokens, issue_both S a.user_id w) at failed in cc
    | inr (pair, done) ↦ (pair, done)
  ]

  abbrev copies : ℕ → Accepted → List (Result Accepted)
  copies zero a = []
  copies (suc n) a = ok a ∷ copies n a

  renew_each-Served : (n : ℕ) (a : Accepted) (w : World S) → Served n (renew_each (copies n a) w).0
  renew_each-Served zero a w = tt
  renew_each-Served (suc n) a w = (renew_tokens-ok a w, renew_each-Served n a (renew_tokens a w).1)

  module _ (token : S.jwt.Token) (c : Claims) (typed : c.token_type ≡ some "refresh")
      (jti sub : String) (exp : ℕ) (id : ℤ) (named : c.jti ≡ some jti) (subject : c.sub ≡ some sub)
      (ends : c.exp ≡ some exp)
      (number : parse_int (digit_value S.unicode_digit) sub ≡ some id) where
    -- the tests of one request, at a state in which they pass
    accept_refresh-passes :
        (w : World S) (known : Option Json)
        → decoded_refresh S token w ≡ some c
        → is_revoked S.redis S.settings.token_cache_prefix jti w.redis ≡ false
        → get_refresh S.redis S.json S.settings.token_cache_prefix jti w.redis ≡ ok known
        → is_falsy known ≡ false
        → accept_refresh token w
          ≡ (ok (record { jti = jti; exp = exp; user_id = id }), record w { reads = suc w.reads })
    unfolding accept_refresh
    accept_refresh-passes w known accepted fresh stored there =
        rw
          (
            decode_token_ok S token w c accepted typed,
            named,
            subject,
            ends,
            fresh,
            stored,
            there,
            number,
          )
          refl

    accept_each-copies :
        (n : ℕ) (w : World S) (known : Option Json)
        → ((i : ℕ) → i < n → decoded_refresh S token (record w { reads = w.reads + i }) ≡ some c)
        → is_revoked S.redis S.settings.token_cache_prefix jti w.redis ≡ false
        → get_refresh S.redis S.json S.settings.token_cache_prefix jti w.redis ≡ ok known
        → is_falsy known ≡ false
        → (accept_each n token w).0 ≡ copies n (record { jti = jti; exp = exp; user_id = id })
    accept_each-copies zero w known accepted fresh stored there = refl
    accept_each-copies (suc n) w known accepted fresh stored there =
        rw (accept_refresh-passes w known (at zero (omega arith) (omega arith)) fresh stored there)
          (ap (λ rs. ok (record { jti = jti; exp = exp; user_id = id }) ∷ rs)
            (accept_each-copies n (record w { reads = suc w.reads }) known
              (λ i h. at (suc i) (omega arith) (omega arith)) fresh stored there))
      where
        at :
            (i : ℕ) {r : ℕ}
            → i < suc n
            → w.reads + i ≡ r
            → decoded_refresh S token (record w { reads = r }) ≡ some c
        at i h e =
            subst (λ r. decoded_refresh S token (record w { reads = r }) ≡ some c) e (accepted i h)

    -- However many requests with one refresh token pass their tests before any of them goes on,
    -- each of them is answered with a token pair: overlapping requests make one token serve as
    -- often. The token has an identifier that is stored and not revoked, names a user by a number,
    -- and is accepted by PyJWT at the `n` readings of the clock. One such request alone is
    -- `api_refresh`.
    pub overlapping-Served :
        (n : ℕ) (w : World S) (known : Option Json)
        → ((i : ℕ) → i < n → decoded_refresh S token (record w { reads = w.reads + i }) ≡ some c)
        → is_revoked S.redis S.settings.token_cache_prefix jti w.redis ≡ false
        → get_refresh S.redis S.json S.settings.token_cache_prefix jti w.redis ≡ ok known
        → is_falsy known ≡ false
        → Served n (overlapping n token w).0
          × (overlapping 1 token w ≡ ((api_refresh S token w).0 ∷ [], (api_refresh S token w).1))
    overlapping-Served n w known accepted fresh stored there = (
      rw (accept_each-copies n w known accepted fresh stored there) (
          renew_each-Served n (record { jti = jti; exp = exp; user_id = id })
            (accept_each n token w).1),
      rw (api_refresh-parts token w) refl,
    )
