-- ===== src/Infrastructure/Benchmark.antt =====
-- src/infrastructure/resources.py: `benchmark_token_middleware`, which lets requests with the
-- benchmark token pass to the statistics without a user.
pub mod Bypass
use events_api.Common.{
  String, Bool, true, false, not, ◌&&◌, Option, none, some, ◌==◌, if◌then◌else◌,
}
use events_api.Common.Split.{starts_with, after_prefix, up_to}

abbrev map_option : (String → String) → Option String → Option String
map_option f none = none
map_option f (some s) = some (f s)

-- `auth.split("Bearer ")[1]`, where `auth` starts with "Bearer ": the text up to the next "Bearer
-- ".
abbrev pub bearer_token : String → Option String
bearer_token auth = map_option (up_to "Bearer ") (after_prefix "Bearer " auth)

-- `test_token and token == test_token`
abbrev pub is_test_token : Option String → String → Bool
is_test_token none token = false
is_test_token (some test) token = not (test == "") && token == test

abbrev pub passes : Option String → Option String → Bool
passes test none = false
passes test (some token) = is_test_token test token

-- `auth and auth.startswith("Bearer ")`, and the test of its token
abbrev header_passes : Option String → Option String → Bool
header_passes test none = false
header_passes test (some auth) = passes test (bearer_token auth)

-- `test` is the setting BENCHMARK_TOKEN, `auth` the header, and `call_next` what handles the
-- request, which is told whether `request.state.is_benchmark` was set.
unfoldable pub benchmark_token_middleware {ℓ} :
    {R : Type ℓ} → Option String → String → Option String → (Bool → R) → R
benchmark_token_middleware test path auth call_next =
    if starts_with "/stats" path then call_next (header_passes test auth) else call_next false
