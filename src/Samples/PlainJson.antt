-- ===== src/Samples/PlainJson.antt =====
-- A JSON module that writes a payload as a brace and its number.
use text.Mathlib.TextLemmas.{cons-ne-nil}
use events_api.Common.{ℕ, String, ◌≡◌, ◌≢◌, Option, none, some}
use mathlib.Core.Option
use events_api.Common.Int.{ℤ}
use events_api.Common.Text.{str_int, parse_int, digit_value}
use events_api.Common.Text.Numbers.{parse_int-str_int}
use events_api.External.Json.{Json, int, obj, member, end, sub_payload, JsonModule, JsonLaws}

abbrev no_digits : ℕ → Option ℕ
no_digits _ = none

unfoldable pub write : Json → String
write (obj (member k (int n) end)) = String.◌∷◌ "{" (str_int n)
write _ = "?"

unfoldable pub read : String → Option Json
read String.[] = none
read (String.◌∷◌ c s) = Option.map sub_payload (parse_int (digit_value no_digits) s)

abbrev pub plain_json : JsonModule
plain_json = record { dumps = write; loads = read }

read-write : (n : ℤ) → read (write (sub_payload n)) ≡ some (sub_payload n)
unfolding read write
read-write n = rw (parse_int-str_int no_digits n)

write-ne-empty : (p : Json) → write p ≢ ""
unfolding write
write-ne-empty (obj (member k (int n) end)) = cons-ne-nil "{" (str_int n)
write-ne-empty _ = cons-ne-nil "?" ""

pub plain_json_laws : JsonLaws plain_json
plain_json_laws = record { loads-dumps = read-write; dumps-ne-empty = write-ne-empty }
