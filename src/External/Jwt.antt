-- ===== src/External/Jwt.antt =====
-- PyJWT, with which the service makes and reads its tokens, and python-jose, with which
-- src/data_base/crud.py reads access tokens.
use events_api.Common.{
  ℕ, ◌+◌, ◌/◌, ◌≤◌, String, ◌≡◌, Bool, true, false, Option, none, some, List, elem, ◌==◌,
  if◌then◌else◌,
}
use events_api.Common.Result.{Exception, Result, ok, raise}

-- The claims of the program's tokens; a decoded payload may lack each of them.
pub record Claims : Type 0 where
  pub sub : Option String
  pub token_type : Option String
  pub jti : Option String
  pub iat : Option ℕ
  pub iss : Option String
  pub aud : Option String
  pub exp : Option ℕ

abbrev pub is_given {ℓ} : {A : Type ℓ} → Option A → Bool
is_given none = false
is_given (some a) = true

-- Whether a payload has the claim of a name.
unfoldable pub has_claim : String → Claims → Bool
has_claim name c =
    if name == "sub"
    then is_given c.sub
    else if name == "type"
    then is_given c.token_type
    else if name == "jti"
    then is_given c.jti
    else if name == "iat"
    then is_given c.iat
    else if name == "iss"
    then is_given c.iss
    else if name == "aud"
    then is_given c.aud
    else if name == "exp"
    then is_given c.exp
    else false

-- `decode now token key algorithms audience issuer require` is `jwt.decode` at the time `now`, in
-- microseconds; `none` is an `InvalidTokenError`. `jose_decode now token key algorithms audience
-- issuer leeway` is the same of python-jose, where a missing token is passed on as `None`.
pub record Jwt : Type 1 where
  pub Token : Type 0
  pub encode : Claims → String → String → Token
  pub decode : ℕ → Token → String → List String → String → String → List String → Option Claims
  pub jose_decode : ℕ → Option Token → String → List String → String → String → ℕ → Result Claims

pub record JwtLaws (j : Jwt) : Type 0 where
  -- a token that is accepted yields the claims that it was made from
  pub decode-encode :
      (now : ℕ) (c c' : Claims) (key key' alg : String) (algs : List String) (aud iss : String)
      (req : List String)
      → j.decode now (j.encode c key alg) key' algs aud iss req ≡ some c'
      → c' ≡ c
  -- the audience is compared with the expected one
  pub decode-audience :
      (now : ℕ) (t : j.Token) (c : Claims) (key : String) (algs : List String) (aud iss : String)
      (req : List String)
      → j.decode now t key algs aud iss req ≡ some c
      → c.aud ≡ some aud
  -- what is required is there
  pub decode-required :
      (now : ℕ) (t : j.Token) (c : Claims) (key : String) (algs : List String) (aud iss : String)
      (req : List String) (name : String)
      → j.decode now t key algs aud iss req ≡ some c
      → elem name req ≡ true
      → has_claim name c ≡ true
  -- python-jose raises where the token is missing
  pub jose-none :
      (now : ℕ) (key : String) (algs : List String) (aud iss : String) (leeway : ℕ)
      → (e : Exception) × (j.jose_decode now none key algs aud iss leeway ≡ raise e)
  -- python-jose accepts a token of the same key, algorithm, audience and issuer that has not
  -- expired, whose subject and identifier are texts
  pub jose-encode :
      (now : ℕ) (c : Claims) (key alg : String) (algs : List String) (aud iss sub jti : String)
      (leeway exp : ℕ)
      → elem alg algs ≡ true
      → c.aud ≡ some aud
      → c.iss ≡ some iss
      → c.sub ≡ some sub
      → c.jti ≡ some jti
      → c.exp ≡ some exp
      → now / 1000000 ≤ exp + leeway
      → j.jose_decode now (some (j.encode c key alg)) key algs aud iss leeway ≡ ok c
