-- ===== src/Config/Cors/Origins.antt =====
-- What the validator leaves of a value, and what the CORS middleware gets of it.
use Prim.Native.String.{◌++◌}
use text.Mathlib.TextLemmas.{cons-append, nil-append, cons≢nil, append-ne-nil_of_right_ne-nil}
use events_api.Common.{
  ℕ, String, ◌≡◌, ◌≢◌, refl, sym, ap, subst, ◌∙◌, Bool, true, false, not, ◌&&◌, ◌||◌, Option, none,
  some, List, [], ◌∷◌, elem, ◌==◌, arith, eq_iff, ne→eq-false, Bool-cases, inl, inr,
}
use events_api.Common.Result.{Result, ok, raise}
use events_api.Common.Text.{strip, any_char, is_space}
use events_api.Common.Text.Strip.{strip_idem, strip-solid}
use events_api.Common.Split.{split_all, split_all-none, split_all-append, has_char}
use events_api.External.Json.{Json, arr}
use events_api.Config.Cors.{
  Value, missing, parse_text, parse_json, texts, other, raw, items, stripped, is_bracketed,
  parse_cors_origins, without_star, allowed_origins,
}

-- An origin that is clean: no white space around it, and not empty.
abbrev Clean : String → Type 0
Clean o = (strip o ≡ o) × (o ≢ "")

stripped-Clean : (xs : List String) (o : String) → elem o (stripped xs) ≡ true → Clean o
unfolding stripped
stripped-Clean [] o h = ground arith
stripped-Clean (x ∷ xs) o h = elim (Bool-cases (strip x == "")) [
  | inl blank ↦ stripped-Clean xs o (ground (arith, h, blank))
  | inr full ↦ elim (Bool-cases (strip x == o)) [
    | inl same ↦
        let is_o = (eq_iff (strip x) o).0 same in
        subst Clean is_o (strip_idem x, λ e. ground (arith, full, (eq_iff (strip x) "").1 e))
    | inr differs ↦ stripped-Clean xs o (ground (arith, h, full, differs))
  ]
]

elem-without_star :
    (o : String) (os : List String) → elem o (without_star os) ≡ (elem o os && not (o == "*"))
unfolding without_star
elem-without_star o [] = refl
elem-without_star o (p ∷ os) =
    ground (arith, elem-without_star o os, eq_iff p o, eq_iff p "*", eq_iff o "*")

abbrev Cleans : Result (List String) → Type 0
Cleans (raise e) = Unit
Cleans (ok os) = (o : String) → elem o os ≡ true → Clean o

parse_cors_origins-Cleans :
    (loads : String → Option Json) (text_of_other : Json → String) (v : Value)
    → Cleans (parse_cors_origins loads text_of_other v)
unfolding parse_cors_origins any_char is_space
parse_cors_origins-Cleans loads text_of_other missing = λ o h. ground (arith, h)
parse_cors_origins-Cleans loads text_of_other other = tt
parse_cors_origins-Cleans loads text_of_other (items xs) = stripped-Clean xs
parse_cors_origins-Cleans loads text_of_other (raw s) = elim (Bool-cases (s == "")) [
  | inl empty ↦ rw empty (λ o h. ground (arith, h))
  | inr full ↦ rw full (parse_text-Cleans (strip s))
]
  where
    only_star : (o : String) → elem o ("*" ∷ []) ≡ true → Clean o
    only_star o h =
        subst Clean ((eq_iff "*" o).0 (ground (arith, h))) (strip-solid "*" refl, λ e. cons≢nil e)

    json-Cleans : (j : Option Json) → Cleans (parse_json loads text_of_other j)
    json-Cleans none = tt
    json-Cleans (some (arr js)) = stripped-Clean (texts loads text_of_other js)
    json-Cleans (some j) = tt

    parse_text-Cleans : (t : String) → Cleans (parse_text loads text_of_other t)
    parse_text-Cleans t = elim (Bool-cases (t == "*")) [
      | inl star ↦ rw star only_star
      | inr parts ↦ elim (Bool-cases (is_bracketed t)) [
        | inl json ↦ rw (parts, json) (json-Cleans (loads t))
        | inr list ↦ rw (parts, list) (stripped-Clean (split_all 44 t))
      ]
    ]

-- Whatever value the setting is parsed from: each of its origins has no white space around it and
-- is not empty; and the middleware, which allows credentials, gets exactly the origins of the
-- setting other than the star: any text, whether it is an origin of the setting or not, is one of
-- the middleware's just where it is one of the setting's and no star.
pub allowed_origins-Clean :
    (loads : String → Option Json) (text_of_other : Json → String) (v : Value) (os : List String)
    → parse_cors_origins loads text_of_other v ≡ ok os
    → ((o : String) → elem o os ≡ true → (strip o ≡ o) × (o ≢ ""))
      × ((o : String) → elem o (allowed_origins true os) ≡ (elem o os && not (o == "*")))
unfolding allowed_origins
allowed_origins-Clean loads text_of_other v os parsed = (
  subst Cleans parsed (parse_cors_origins-Cleans loads text_of_other v),
  λ o. elim (Bool-cases (elem "*" os)) [
    | inl star ↦ rw (star, elem-without_star o os) refl
    | inr unstarred ↦ rw unstarred (elim (Bool-cases (o == "*")) [
      | inl same ↦
          ground
            (arith, same, subst (λ x. elem x os ≡ false) (sym ((eq_iff o "*").0 same)) unstarred)
      | inr differs ↦ rw differs (ground arith)
    ])
  ],
)

-- The origins in a text, separated by commas.
abbrev pub join : List String → String
join [] = ""
join (o ∷ []) = o
join (o ∷ p ∷ os) = o ++ String.◌∷◌ "," (join (p ∷ os))

-- Each origin is a text that is not empty and has no white space and no comma.
abbrev pub Plain : List String → Type 0
Plain [] = Unit
Plain (o ∷ os) =
    ((o == "") ≡ false) × (any_char is_space o ≡ false) × (has_char 44 o ≡ false) × Plain os

split_all-join :
    (o : String) (os : List String) → Plain (o ∷ os) → split_all 44 (join (o ∷ os)) ≡ o ∷ os
split_all-join o [] (full, solid, whole, rest) = split_all-none "," o whole
split_all-join o (p ∷ os) (full, solid, whole, rest) =
    rw (split_all-append "," o (join (p ∷ os)) whole, split_all-join p os rest) refl

stripped-Plain : (os : List String) → Plain os → stripped os ≡ os
unfolding stripped
stripped-Plain [] h = refl
stripped-Plain (o ∷ os) (full, solid, whole, rest) =
    rw (strip-solid o solid, full, stripped-Plain os rest) refl

any_char-append :
    (p : ℕ → Bool) (s t : String) → any_char p (s ++ t) ≡ (any_char p s || any_char p t)
unfolding any_char
any_char-append p String.[] t = rw (nil-append t) refl
any_char-append p (String.◌∷◌ c s) t =
    rw (cons-append c s t) (ground (arith, any_char-append p s t))

join-solid : (os : List String) → Plain os → any_char is_space (join os) ≡ false
unfolding any_char is_space
join-solid [] h = refl
join-solid (o ∷ []) (full, solid, whole, rest) = solid
join-solid (o ∷ p ∷ os) (full, solid, whole, rest) =
    rw (any_char-append is_space o (String.◌∷◌ "," (join (p ∷ os))), solid)
      (join-solid (p ∷ os) rest)

join-full : (o : String) (os : List String) → Plain (o ∷ os) → (join (o ∷ os) == "") ≡ false
join-full o [] (full, solid, whole, rest) = full
join-full o (p ∷ os) h = ne→eq-false (append-ne-nil_of_right_ne-nil o (λ e. cons≢nil e))

-- The origins in a text, separated by commas, and the list of them are the same setting: those
-- origins. Each of them is not empty and has no white space and no comma, and the text is not in
-- brackets, which would make it JSON.
pub parse_cors_origins-join :
    (loads : String → Option Json) (text_of_other : Json → String) (os : List String)
    → Plain os
    → is_bracketed (join os) ≡ false
    → (parse_cors_origins loads text_of_other (raw (join os)) ≡ ok os)
      × (parse_cors_origins loads text_of_other (items os) ≡ ok os)
unfolding parse_cors_origins split_all any_char
parse_cors_origins-join loads text_of_other os plain not_json =
    (from_text os plain not_json, rw (stripped-Plain os plain) refl)
  where
    star-or_parts :
        (ps : List String)
        → Plain ps
        → is_bracketed (join ps) ≡ false
        → split_all 44 (join ps) ≡ ps
        → parse_text loads text_of_other (join ps) ≡ ok ps
    star-or_parts ps h g split = elim (Bool-cases (join ps == "*")) [
      | inl star ↦ rw star (ap ok (sym (ap (split_all 44) ((eq_iff (join ps) "*").0 star)) ∙ split))
      | inr parts ↦ rw (parts, g, split, stripped-Plain ps h) refl
    ]

    from_text :
        (ps : List String)
        → Plain ps
        → is_bracketed (join ps) ≡ false
        → parse_cors_origins loads text_of_other (raw (join ps)) ≡ ok ps
    from_text [] h g = refl
    from_text (q ∷ qs) h g =
        rw (join-full q qs h, strip-solid (join (q ∷ qs)) (join-solid (q ∷ qs) h))
          (star-or_parts (q ∷ qs) h g (split_all-join q qs h))
