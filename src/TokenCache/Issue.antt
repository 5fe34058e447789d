-- ===== src/TokenCache/Issue.antt =====
-- `issue_tokens_for_user` of src/security/token_cache.py.
pub mod Effects
use events_api.Common.{
  ℕ, ◌+◌, ◌-◌, ◌*◌, ◌/◌, String, Bool, true, false, Option, none, some, if◌then◌else◌,
}
use events_api.Common.Int.{ℤ}
use events_api.Common.Text.{str_int}
use events_api.External.Json.{sub_payload}
use events_api.External.Services.{Services}
use events_api.Handler.{Handler, pure, utc_now, draw, on_redis, ◌>>=◌, ◌>>◌}
use events_api.JwtService.{make_access_token, make_refresh_token}
use events_api.TokenCache.{datetime, store_access, store_refresh}

pub record IssuedTokens (Token : Type 0) : Type 0 where
  pub access_token : Option Token
  pub refresh_token : Option Token
  pub token_type : String
  pub expires_in : Option ℕ

-- `timedelta(minutes=15)` and `timedelta(days=1)`, in microseconds
abbrev pub access_lifetime : ℕ
access_lifetime = 15 * 60 * 1000000

abbrev pub refresh_lifetime : ℕ
refresh_lifetime = 86400 * 1000000

module _ (S : Services) where
  -- the block `if access:`: the token and the seconds to its expiry
  issue_access : Bool → ℤ → ℕ → Handler S (Option S.jwt.Token × Option ℕ)
  issue_access false user_id now = pure (none, none)
  issue_access true user_id now = do
    jti ← draw
    let exp = now + access_lifetime
    token ← make_access_token S (str_int user_id) (some jti) (some exp) 15 "access"
    stored_at ← utc_now
    on_redis (
        store_access S.redis S.json S.settings.token_cache_prefix stored_at jti
          (sub_payload user_id) (datetime exp))
    pure (some token, some ((exp - now) / 1000000))

  -- the block `if refresh:`
  issue_refresh : Bool → ℤ → ℕ → Handler S (Option S.jwt.Token)
  issue_refresh false user_id now = pure none
  issue_refresh true user_id now = do
    jti ← draw
    let exp = now + refresh_lifetime
    token ← make_refresh_token S (str_int user_id) (some jti) (some exp) 1 "refresh"
    stored_at ← utc_now
    on_redis (
        store_refresh S.redis S.json S.settings.token_cache_prefix stored_at jti
          (sub_payload user_id) (datetime exp))
    pure (some token)

  unfoldable pub issue_tokens_for_user : ℤ → Bool → Bool → Handler S (IssuedTokens S.jwt.Token)
  unfolding issue_access issue_refresh make_access_token make_refresh_token
  issue_tokens_for_user user_id access refresh = do
    now ← utc_now
    (access_token, expires_in) ← issue_access access user_id now
    refresh_token ← issue_refresh refresh user_id now
    pure (record {
      access_token = access_token;
      refresh_token = refresh_token;
      token_type = "bearer";
      expires_in = expires_in;
    })
