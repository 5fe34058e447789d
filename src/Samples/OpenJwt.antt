-- ===== src/Samples/OpenJwt.antt =====
-- Tokens that carry their claims, key and algorithm in the open.
use events_api.Common.{
  ℕ, ◌+◌, ◌/◌, ◌≤◌, String, ◌≡◌, Bool, true, false, ◌&&◌, Option, none, some, List, [], ◌∷◌, arith,
  refl, ap, eq_iff, eq_refl, leb, elem, ◌==◌, if◌then◌else◌,
}
use events_api.Common.Result.{Result, ok, raise, jwt_error, other_error}
use events_api.External.Jwt.{Claims, has_claim, Jwt, JwtLaws}

abbrev pub is_text : Option String → String → Bool
is_text none t = false
is_text (some s) t = s == t

unfoldable pub has_all : List String → Claims → Bool
has_all [] c = true
has_all (name ∷ names) c = has_claim name c && has_all names c

abbrev pub at_least : ℕ → Option ℕ → Bool
at_least n none = false
at_least n (some m) = leb n m

unfoldable pub accepts : Claims → String → String → String → List String → String → String → Bool
accepts c key alg key' algs aud iss =
    (key == key') && elem alg algs && is_text c.aud aud && is_text c.iss iss

abbrev pub Signed : Type 0
Signed = Claims × String × String

unfoldable pub decode :
    ℕ → Signed → String → List String → String → String → List String → Option Claims
unfolding accepts has_all
decode now (c, key, alg) key' algs aud iss req =
    if accepts c key alg key' algs aud iss && has_all req c && at_least (now / 1000000 + 1) c.exp
    then some c
    else none

unfoldable pub jose_decode :
    ℕ → Option Signed → String → List String → String → String → ℕ → Result Claims
unfolding accepts
jose_decode now none key' algs aud iss leeway = raise other_error
jose_decode now (some (c, key, alg)) key' algs aud iss leeway =
    if accepts c key alg key' algs aud iss then ok c else raise jwt_error

abbrev pub open_jwt : Jwt
open_jwt = record {
  Token = Signed;
  encode = λ c key alg. (c, key, alg);
  decode = decode;
  jose_decode = jose_decode;
}

same_claims :
    (now : ℕ) (c c' : Claims) (key key' alg : String) (algs : List String) (aud iss : String)
    (req : List String)
    → decode now (c, key, alg) key' algs aud iss req ≡ some c'
    → c' ≡ c
unfolding decode
same_claims now c c' key key' alg algs aud iss req e = ground arith

is_text→eq : (o : Option String) (t : String) → is_text o t ≡ true → o ≡ some t
is_text→eq none t h = cc
is_text→eq (some s) t h = ap some ((eq_iff s t).0 h)

same_audience :
    (now : ℕ) (t : Signed) (c : Claims) (key : String) (algs : List String) (aud iss : String)
    (req : List String)
    → decode now t key algs aud iss req ≡ some c
    → c.aud ≡ some aud
unfolding decode
same_audience now (c', key', alg) c key algs aud iss req e = ground (arith, is_text→eq c'.aud aud)

has_all-has_claim :
    (req : List String) (name : String) (c : Claims)
    → has_all req c ≡ true
    → elem name req ≡ true
    → has_claim name c ≡ true
unfolding has_all
has_all-has_claim [] name c h m = cc
has_all-has_claim (n ∷ req) name c h m = ground (arith, eq_iff n name, has_all-has_claim req name c)

required :
    (now : ℕ) (t : Signed) (c : Claims) (key : String) (algs : List String) (aud iss : String)
    (req : List String) (name : String)
    → decode now t key algs aud iss req ≡ some c
    → elem name req ≡ true
    → has_claim name c ≡ true
unfolding decode
required now (c', key', alg) c key algs aud iss req name e m =
    has_all-has_claim req name c (ground arith) m

jose-encode :
    (now : ℕ) (c : Claims) (key alg : String) (algs : List String) (aud iss sub jti : String)
    (leeway exp : ℕ)
    → elem alg algs ≡ true
    → c.aud ≡ some aud
    → c.iss ≡ some iss
    → c.sub ≡ some sub
    → c.jti ≡ some jti
    → c.exp ≡ some exp
    → now / 1000000 ≤ exp + leeway
    → jose_decode now (some (c, key, alg)) key algs aud iss leeway ≡ ok c
unfolding jose_decode
jose-encode now c key alg algs aud iss sub jti leeway exp listed a i s j e early =
    rw (eq_refl key, listed, a, i, eq_refl aud, eq_refl iss)

pub open_jwt_laws : JwtLaws open_jwt
unfolding jose_decode
open_jwt_laws = record {
  decode-encode = same_claims;
  decode-audience = same_audience;
  decode-required = required;
  jose-none = λ now key algs aud iss leeway. (other_error, refl);
  jose-encode = jose-encode;
}
