-- ===== src/Stats/Routers/Segments.antt =====
-- How the text of a segment is read.
use Prim.Native.String.{◌++◌}
use Prim.Native.Char.{Char}
use text.Mathlib.TextLemmas.{cons-append, nil-append, cons-ne-nil}
use events_api.Common.Text.{any_char}
use events_api.Common.{ℕ, String, ◌≡◌, refl, Bool, true, false, none, some, ◌==◌, ne→eq-false}
use events_api.Common.Split.{
  after_prefix, has_char, split_once-append, split_once-none, has_char-append, after_prefix-append,
}
use events_api.Common.Result.{ok, ◌>>=◌}
use events_api.External.EventStats.{property, attribute}
use events_api.Stats.Routers.{parse_segment, segment_of}

append-ne-empty : (s : String) (c : Char) (t : String) → (s ++ String.◌∷◌ c t == "") ≡ false
append-ne-empty String.[] c t = rw (nil-append (String.◌∷◌ c t)) (ne→eq-false (cons-ne-nil c t))
append-ne-empty (String.◌∷◌ d s) c t =
    rw (cons-append d s (String.◌∷◌ c t)) (ne→eq-false (cons-ne-nil d (s ++ String.◌∷◌ c t)))

module _ (accepts : String → Bool) where
  -- a text that is split at the equals sign, having no colon
  split-equals :
      (k v : String)
      → has_char b'=' k ≡ false
      → has_char b':' k ≡ false
      → has_char b':' v ≡ false
      → parse_segment accepts (some (k ++ String.◌∷◌ "=" v))
        ≡ (segment_of accepts (some (k, v)) >>= λ parsed. ok (some parsed))
  unfolding parse_segment
  split-equals k v h c d = rw (
    append-ne-empty k "=" v,
    split_once-none b':' (k ++ String.◌∷◌ "=" v) no_colon,
    split_once-append "=" k v h,
  )
    where
      no_colon : has_char b':' (k ++ String.◌∷◌ "=" v) ≡ false
      no_colon = rw (has_char-append b':' k (String.◌∷◌ "=" v), c) (unfold any_char in d)

  -- a text that is split at its first colon
  split-colon :
      (k v : String)
      → has_char b':' k ≡ false
      → parse_segment accepts (some (k ++ String.◌∷◌ ":" v))
        ≡ (segment_of accepts (some (k, v)) >>= λ parsed. ok (some parsed))
  unfolding parse_segment
  split-colon k v c = rw (append-ne-empty k ":" v, split_once-append ":" k v c)

  -- `properties.` + key + `=` + value, as documented, is read as that property and that value,
  -- where neither has a colon and the key has no equals sign. A column, a colon and a value are
  -- read as that column and that value, where the column has no colon, does not begin with
  -- `properties.` and is accepted. But in the first form a colon in the value takes the equals
  -- sign and what stands before the colon into the key.
  pub parse_segment-forms :
      (key value column rest : String)
      → has_char b'=' key ≡ false
      → has_char b':' key ≡ false
      → has_char b':' value ≡ false
      → has_char b':' column ≡ false
      → after_prefix "properties." column ≡ none
      → accepts column ≡ true
      → (parse_segment accepts (some (("properties." ++ key) ++ String.◌∷◌ "=" value))
          ≡ ok (some (property key value)))
        × (parse_segment accepts (some (column ++ String.◌∷◌ ":" rest))
            ≡ ok (some (attribute column rest)))
        × (parse_segment accepts
              (some (("properties." ++ (key ++ String.◌∷◌ "=" value)) ++ String.◌∷◌ ":" rest))
            ≡ ok (some (property (key ++ String.◌∷◌ "=" value) rest)))
  unfolding any_char
  parse_segment-forms key value column rest h c d e other accepted = (
    rw
        (split-equals ("properties." ++ key) value (absent b'=' key refl h) (absent b':' key refl c)
          d)
        (rw (segment_of, after_prefix-append "properties." key) refl),
    rw (split-colon column rest e) (rw (segment_of, other, accepted) refl),
    rw
        (split-colon ("properties." ++ (key ++ String.◌∷◌ "=" value)) rest
          (absent b':' (key ++ String.◌∷◌ "=" value) refl no_colon))
        (rw (segment_of, after_prefix-append "properties." (key ++ String.◌∷◌ "=" value)) refl),
  )
    where
      absent :
          (sep : ℕ) (k : String)
          → has_char sep "properties." ≡ false
          → has_char sep k ≡ false
          → has_char sep ("properties." ++ k) ≡ false
      absent sep k p q = rw (has_char-append sep "properties." k, p, q) refl

      no_colon : has_char b':' (key ++ String.◌∷◌ "=" value) ≡ false
      no_colon = rw (has_char-append b':' key (String.◌∷◌ "=" value), c) (unfold any_char in d)
