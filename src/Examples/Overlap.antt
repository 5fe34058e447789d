-- ===== src/Examples/Overlap.antt =====
-- Three requests at once with one refresh token.
use events_api.Common.{ℕ, zero, suc, ◌+◌, ◌<◌, ◌≡◌, refl, some, [], ◌∷◌, arith}
use events_api.Common.Int.{pos}
use events_api.Common.Text.{str_int}
use events_api.External.Json.{sub_payload}
use events_api.External.Jwt.{has_claim}
use events_api.JwtService.{decoded_refresh}
use events_api.UserAuth.Routers.{api_refresh}
use events_api.UserAuth.Routers.Overlap.{Served, overlapping, overlapping-Served}
use events_api.Config.{default_settings}
use events_api.Samples.OpenJwt.{decode, accepts, has_all}
use events_api.Samples.App.{app}
use events_api.Examples.Auth.{claims, token, stored, runs}

still_valid :
    (i : ℕ)
    → i < 3
    → decoded_refresh app token (record stored { reads = stored.reads + i }) ≡ some claims
unfolding decode accepts has_all has_claim default_settings
still_valid zero h = refl
still_valid (suc zero) h = refl
still_valid (suc (suc zero)) h = refl
still_valid (suc (suc (suc i))) h = absurd (omega arith)

overlapping-Served_example :
    Served app 3 (overlapping app 3 token stored).0
    × (overlapping app 1 token stored
        ≡ ((api_refresh app token stored).0 ∷ [], (api_refresh app token stored).1))
unfolding runs str_int
overlapping-Served_example =
    overlapping-Served app token claims refl "j" "1" 1700000900 (pos 1) refl refl refl refl 3 stored
      (some (sub_payload (pos 1))) still_valid refl refl refl
