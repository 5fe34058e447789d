-- ===== src/External/Json.antt =====
-- JSON values, and Python's `json` module as the program uses it.
use events_api.Common.{String, ◌≡◌, ◌≢◌, Bool, true, false, Option, some, not, ◌==◌}
use events_api.Common.Int.{ℤ, eq_ℤ, pos}

mutual
  pub data Json : Type 0 where
    null : Json
    bool : Bool → Json
    -- an integer, and any other number by its text
    int : ℤ → Json
    number : String → Json
    str : String → Json
    arr : Items → Json
    obj : Members → Json

  pub data Items : Type 0 where
    nil : Items
    cons : Json → Items → Items

  pub data Members : Type 0 where
    end : Members
    member : String → Json → Members → Members

-- `bool(value)` of a decoded value; a number other than an integer is taken as not zero.
abbrev pub is_truthy : Json → Bool
is_truthy null = false
is_truthy (bool b) = b
is_truthy (int n) = not (eq_ℤ n (pos 0))
is_truthy (number s) = true
is_truthy (str s) = not (s == "")
is_truthy (arr nil) = false
is_truthy (obj end) = false
is_truthy _ = true

-- `{"sub": user_id}`, the payload that the program stores
abbrev pub sub_payload : ℤ → Json
sub_payload n = obj (member "sub" (int n) end)

-- `json.dumps` and `json.loads`; `loads` raises on what is no JSON text.
pub record JsonModule : Type 0 where
  pub dumps : Json → String
  pub loads : String → Option Json

-- A payload that is written can be read back, and is not written as the empty text.
pub record JsonLaws (j : JsonModule) : Type 0 where
  pub loads-dumps : (n : ℤ) → j.loads (j.dumps (sub_payload n)) ≡ some (sub_payload n)
  pub dumps-ne-empty : (p : Json) → j.dumps p ≢ ""
