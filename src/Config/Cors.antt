-- ===== src/Config/Cors.antt =====
-- src/config.py: the validator of CORS_ORIGINS; src/main.py: the origins that the CORS middleware
-- gets.
pub mod Origins
use Prim.Native.Char.{code}
use events_api.Common.{
  ℕ, String, Bool, true, false, not, ◌&&◌, ◌||◌, Option, none, some, List, [], ◌∷◌, eqb, elem, ◌==◌,
  if◌then◌else◌,
}
use events_api.Common.Result.{Exception, value_error, other_error, Result, ok, raise}
use events_api.Common.Text.{strip}
use events_api.Common.Split.{starts_with, split_all}
use events_api.External.Json.{Json, Items, nil, cons, str, arr}

-- The value that the validator gets: `None`, a text, a list, a tuple or a set (by the texts of its
-- elements), or another object.
pub data Value : Type 0 where
  missing other : Value
  raw : String → Value
  items : List String → Value

-- `[str(x).strip() for x in v if str(x).strip()]`
unfoldable pub stripped : List String → List String
stripped [] = []
stripped (x ∷ xs) = let rest = stripped xs in if strip x == "" then rest else strip x ∷ rest

-- `s.endswith(c)`, for a character
abbrev ends_with : ℕ → String → Bool
ends_with k String.[] = false
ends_with k (String.◌∷◌ c s) = if s == "" then eqb (code c) k else ends_with k s

abbrev pub is_bracketed : String → Bool
is_bracketed s = (starts_with "[" s && ends_with 0x5d s) || (starts_with "(" s && ends_with 0x29 s)

-- `json.loads`, and `str(x)` of a decoded value that is no text
module _ (loads : String → Option Json) (text_of_other : Json → String) where
  abbrev text_of : Json → String
  text_of (str s) = s
  text_of j = text_of_other j

  abbrev pub texts : Items → List String
  texts nil = []
  texts (cons j js) = text_of j ∷ texts js

  abbrev pub parse_json : Option Json → Result (List String)
  parse_json none = raise value_error
  parse_json (some (arr js)) = ok (stripped (texts js))
  parse_json (some j) = raise value_error

  abbrev pub parse_text : String → Result (List String)
  parse_text s =
      if s == "*"
      then ok ("*" ∷ [])
      else if is_bracketed s
      then parse_json (loads s)
      else ok (stripped (split_all 0x2c s))

  -- `Settings.parse_cors_origins`. An empty text gives no origins, `other_error` is the
  -- `TypeError`.
  unfoldable pub parse_cors_origins : Value → Result (List String)
  parse_cors_origins missing = ok []
  parse_cors_origins (raw s) = if s == "" then ok [] else parse_text (strip s)
  parse_cors_origins (items xs) = ok (stripped xs)
  parse_cors_origins other = raise other_error

-- `[o for o in origins if o != "*"]`
unfoldable pub without_star : List String → List String
without_star [] = []
without_star (o ∷ os) = let rest = without_star os in if o == "*" then rest else o ∷ rest

-- `origins` of src/main.py, from the setting and `allow_credentials`
unfoldable pub allowed_origins : Bool → List String → List String
allowed_origins allow_credentials origins =
    if allow_credentials && elem "*" origins then without_star origins else origins
