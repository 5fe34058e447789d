-- ===== src/TokenCache/Keys.antt =====
-- The four families of keys of src/security/token_cache.py: keys of two families differ, and a key
-- determines its token.
use Prim.Native.Char.{Char, code}
use Prim.Native.String.{◌++◌}
use text.Mathlib.TextLemmas.{append_cancel_left, append_assoc, cons-append, head-eq_of_cons-eq}
use events_api.Common.{
  String, ◌≡◌, ◌≢◌, false, arith, eq_iff, ap, sym, subst, true, ◌∙◌, ◌==◌, ne→eq-false,
}
use events_api.Common.Int.{ℤ, eq_ℤ, eq_ℤ_refl, eq_ℤ→eq}
use events_api.Common.Text.{str_int}
use events_api.Common.Text.Numbers.{str_int-injective}
use events_api.TokenCache.{key_user_sessions, key_access, key_refresh, key_revoked}

-- Two tags with a common part that go on with different characters.
module _ (prefix common : String) (c d : Char) (t u : String) where
  open_tag :
      (x : Char) (w i : String)
      → (common ++ (String.◌∷◌ x w)) ++ i ≡ common ++ (String.◌∷◌ x (w ++ i))
  open_tag x w i =
      append_assoc common (String.◌∷◌ x w) i ∙ ap (λ z. common ++ z) (cons-append x w i)

  tags_apart :
      (i j : String)
      → code c ≢ code d
      → prefix ++ ((common ++ (String.◌∷◌ c t)) ++ i)
        ≢ prefix ++ ((common ++ (String.◌∷◌ d u)) ++ j)
  tags_apart i j h e =
      let tails = append_cancel_left prefix _ _ e in
      h (
        ap code (
          head-eq_of_cons-eq
            (append_cancel_left common _ _ (sym (open_tag c t i) ∙ (tails ∙ open_tag d u j)))))

module _ (prefix : String) where
  pub refresh-ne-revoked : (i j : String) → (key_refresh prefix i == key_revoked prefix j) ≡ false
  unfolding key_refresh key_revoked
  refresh-ne-revoked i j =
      ne→eq-false (tags_apart prefix ":re" "f" "v" "resh:" "oked:" i j (omega arith))

  pub revoked-ne-refresh : (i j : String) → (key_revoked prefix i == key_refresh prefix j) ≡ false
  unfolding key_refresh key_revoked
  revoked-ne-refresh i j =
      ne→eq-false (tags_apart prefix ":re" "v" "f" "oked:" "resh:" i j (omega arith))

  pub access-ne-refresh : (i j : String) → (key_access prefix i == key_refresh prefix j) ≡ false
  unfolding key_refresh key_access
  access-ne-refresh i j =
      ne→eq-false (tags_apart prefix ":" "a" "r" "ccess:" "efresh:" i j (omega arith))

  pub refresh-ne-access : (i j : String) → (key_refresh prefix i == key_access prefix j) ≡ false
  unfolding key_refresh key_access
  refresh-ne-access i j =
      ne→eq-false (tags_apart prefix ":" "r" "a" "efresh:" "ccess:" i j (omega arith))

  pub access-ne-revoked : (i j : String) → (key_access prefix i == key_revoked prefix j) ≡ false
  unfolding key_revoked key_access
  access-ne-revoked i j =
      ne→eq-false (tags_apart prefix ":" "a" "r" "ccess:" "evoked:" i j (omega arith))

  pub revoked-ne-access : (i j : String) → (key_revoked prefix i == key_access prefix j) ≡ false
  unfolding key_revoked key_access
  revoked-ne-access i j =
      ne→eq-false (tags_apart prefix ":" "r" "a" "evoked:" "ccess:" i j (omega arith))

  pub sessions-ne-access :
      (n : ℤ) (j : String) → (key_user_sessions prefix n == key_access prefix j) ≡ false
  unfolding key_user_sessions key_access
  sessions-ne-access n j =
      ne→eq-false (tags_apart prefix ":" "u" "a" "ser_sessions:" "ccess:" _ j (omega arith))

  pub access-ne-sessions :
      (i : String) (n : ℤ) → (key_access prefix i == key_user_sessions prefix n) ≡ false
  unfolding key_user_sessions key_access
  access-ne-sessions i n =
      ne→eq-false (tags_apart prefix ":" "a" "u" "ccess:" "ser_sessions:" i _ (omega arith))

  pub sessions-ne-refresh :
      (n : ℤ) (j : String) → (key_user_sessions prefix n == key_refresh prefix j) ≡ false
  unfolding key_user_sessions key_refresh
  sessions-ne-refresh n j =
      ne→eq-false (tags_apart prefix ":" "u" "r" "ser_sessions:" "efresh:" _ j (omega arith))

  pub refresh-ne-sessions :
      (i : String) (n : ℤ) → (key_refresh prefix i == key_user_sessions prefix n) ≡ false
  unfolding key_user_sessions key_refresh
  refresh-ne-sessions i n =
      ne→eq-false (tags_apart prefix ":" "r" "u" "efresh:" "ser_sessions:" i _ (omega arith))

  pub sessions-ne-revoked :
      (n : ℤ) (j : String) → (key_user_sessions prefix n == key_revoked prefix j) ≡ false
  unfolding key_user_sessions key_revoked
  sessions-ne-revoked n j =
      ne→eq-false (tags_apart prefix ":" "u" "r" "ser_sessions:" "evoked:" _ j (omega arith))

  pub revoked-ne-sessions :
      (i : String) (n : ℤ) → (key_revoked prefix i == key_user_sessions prefix n) ≡ false
  unfolding key_user_sessions key_revoked
  revoked-ne-sessions i n =
      ne→eq-false (tags_apart prefix ":" "r" "u" "evoked:" "ser_sessions:" i _ (omega arith))

  pub key_refresh_inj : (i j : String) → key_refresh prefix i ≡ key_refresh prefix j → i ≡ j
  unfolding key_refresh
  key_refresh_inj i j e = append_cancel_left ":refresh:" i j (append_cancel_left prefix _ _ e)

  pub key_revoked_inj : (i j : String) → key_revoked prefix i ≡ key_revoked prefix j → i ≡ j
  unfolding key_revoked
  key_revoked_inj i j e = append_cancel_left ":revoked:" i j (append_cancel_left prefix _ _ e)

  pub key_access_inj : (i j : String) → key_access prefix i ≡ key_access prefix j → i ≡ j
  unfolding key_access
  key_access_inj i j e = append_cancel_left ":access:" i j (append_cancel_left prefix _ _ e)

-- An injective family compares as its tokens do.
module _ (f : String → String) (inj : (i j : String) → f i ≡ f j → i ≡ j) where
  same_test : (i j : String) → (f i == f j) ≡ (i == j)
  same_test i j = ground (arith, eq_iff i j, eq_iff (f i) (f j), inj i j, λ (e : i ≡ j). ap f e)

module _ (prefix : String) where
  pub refresh-eq-refresh :
      (i j : String) → (key_refresh prefix i == key_refresh prefix j) ≡ (i == j)
  refresh-eq-refresh = same_test (key_refresh prefix) (key_refresh_inj prefix)

  pub revoked-eq-revoked :
      (i j : String) → (key_revoked prefix i == key_revoked prefix j) ≡ (i == j)
  revoked-eq-revoked = same_test (key_revoked prefix) (key_revoked_inj prefix)

  pub access-eq-access : (i j : String) → (key_access prefix i == key_access prefix j) ≡ (i == j)
  access-eq-access = same_test (key_access prefix) (key_access_inj prefix)

one_user :
    (prefix : String) (m n : ℤ) → key_user_sessions prefix m ≡ key_user_sessions prefix n → m ≡ n
unfolding key_user_sessions
one_user prefix m n e =
    str_int-injective m n (
      append_cancel_left ":user_sessions:" (str_int m) (str_int n)
        (append_cancel_left prefix _ _ e))

-- The sets of two users have one key only if the users are one.
pub sessions-eq-sessions :
    (prefix : String) (m n : ℤ)
    → (key_user_sessions prefix m == key_user_sessions prefix n) ≡ eq_ℤ m n
sessions-eq-sessions prefix m n = ground (
  arith,
  eq_iff (key_user_sessions prefix m) (key_user_sessions prefix n),
  one_user prefix m n,
  eq_ℤ→eq m n,
  eq_ℤ_refl m,
  λ (e : m ≡ n). ap (key_user_sessions prefix) e,
  λ (e : m ≡ n). subst (λ k. eq_ℤ m k ≡ true) e (eq_ℤ_refl m),
)

pub ruleset key_laws = (
  refresh-ne-revoked, revoked-ne-refresh, access-ne-refresh, refresh-ne-access, access-ne-revoked,
  revoked-ne-access, sessions-ne-access, access-ne-sessions, sessions-ne-refresh,
  refresh-ne-sessions, sessions-ne-revoked, revoked-ne-sessions, refresh-eq-refresh,
  revoked-eq-revoked, access-eq-access, sessions-eq-sessions,
)
