-- ===== src/UserAuth/Schemas/Passwords.antt =====
-- src/user_auth/schemas.py: how the inputs agree on passwords.
use events_api.Common.{
  ℕ, String, ◌≡◌, ◌≢◌, refl, sym, subst, arith, eq_refl, ne→eq-false, Bool, true, false, not,
  eq_iff, ◌==◌,
}
use events_api.UserAuth.Schemas.{
  ◌>>=◌, ◌>>◌, Invalid, Validated, valid, invalid, require, check_length, validate_password_rules,
  user_register, login_in, change_password_in, UserRegister, LoginIn, ChangePasswordIn,
}

after_require :
    {A : Type 0} (b : Bool) (e : Invalid) (m : Validated A) (q : A)
    → (require b e >> m) ≡ valid q
    → (b ≡ true) × (m ≡ valid q)
after_require true e m q h = (refl, h)
after_require false e m q h = cc

after_bind :
    {A B : Type 0} (v : Validated A) (f : A → Validated B) (q : B)
    → (v >>= f) ≡ valid q
    → (a : A) × (v ≡ valid a) × (f a ≡ valid q)
after_bind (valid a) f q h = (a, refl, h)
after_bind (invalid e) f q h = cc

valid-injective : {A : Type 0} {a b : A} → valid a ≡ valid b → a ≡ b
valid-injective h = cc

-- What passes the check of its length is returned as it is.
check_length-same : (p q : String) → check_length p ≡ valid q → q ≡ p
unfolding check_length
check_length-same p q h = ground (arith, h)

check_length-twice : (p q : String) → check_length p ≡ valid q → check_length q ≡ valid q
check_length-twice p q h = subst (λ r. check_length r ≡ valid q) (sym (check_length-same p q h)) h

module _ (unicode_word : ℕ → Bool) where
  validate_password_rules-same :
      (p q : String) → validate_password_rules unicode_word p ≡ valid q → q ≡ p
  unfolding validate_password_rules
  validate_password_rules-same p q h = ground (arith, h)

  -- A password with which a registration is accepted is accepted by the login as it was sent, and
  -- is accepted as the new password in a change from a password that the login accepts and that
  -- differs.
  pub user_register-accepted :
      (email p confirm old : String) (r : UserRegister) (l : LoginIn)
      → user_register unicode_word email p confirm ≡ valid r
      → login_in email old ≡ valid l
      → p ≢ old
      → (login_in email p ≡ valid (record { email = email; password = p }))
        × (change_password_in unicode_word old p p
            ≡ valid (record { current_password = old; new_password = p; new_password_confirm = p }))
  unfolding user_register login_in change_password_in
  user_register-accepted email p confirm old r l registered logs_in differs =
      let (sized, long, rest) = after_bind (check_length p) _ r registered in
      let (checked, strong, rest') =
        after_bind (validate_password_rules unicode_word sized) _ r rest in
      let (old', old_long, rest'') = after_bind (check_length old) _ l logs_in in
      let kept : check_length p ≡ valid p =
        subst (λ q. check_length p ≡ valid q) (check_length-same p sized long) long in
      let strong' : validate_password_rules unicode_word p ≡ valid p =
        subst (λ q. validate_password_rules unicode_word q ≡ valid q)
          (check_length-same p sized long)
          (subst (λ q. validate_password_rules unicode_word sized ≡ valid q)
            (validate_password_rules-same sized checked strong) strong) in
      let old_kept : check_length old ≡ valid old =
        subst (λ q. check_length old ≡ valid q) (check_length-same old old' old_long) old_long in
      (rw kept refl, rw (old_kept, kept, strong', eq_refl p, ne→eq-false differs) refl)

  -- The passwords of a change, against each other and as the login takes them.
  abbrev pub Agrees : String → ChangePasswordIn → Type 0
  Agrees email c =
      (c.current_password ≢ c.new_password)
      × (c.new_password ≡ c.new_password_confirm)
      × (login_in email c.current_password
          ≡ valid (record { email = email; password = c.current_password }))
      × (login_in email c.new_password
          ≡ valid (record { email = email; password = c.new_password }))

  -- The new password of an accepted change differs from the current one and is what was confirmed,
  -- and the login accepts both.
  pub change_password_in-differs :
      (email current new confirm : String) (c : ChangePasswordIn)
      → change_password_in unicode_word current new confirm ≡ valid c
      → Agrees email c
  unfolding change_password_in login_in
  change_password_in-differs email current new confirm c h =
      let (current', long, rest1) = after_bind (check_length current) _ c h in
      let (sized, long', rest2) = after_bind (check_length new) _ c rest1 in
      let (checked, strong, rest3) =
        after_bind (validate_password_rules unicode_word sized) _ c rest2 in
      let (same, rest4) = after_require (checked == confirm) _ _ c rest3 in
      let (other, rest5) = after_require (not (checked == current')) _ _ c rest4 in
      let kept : check_length checked ≡ valid checked =
        subst (λ q. check_length q ≡ valid q)
          (sym (validate_password_rules-same sized checked strong))
          (check_length-twice new sized long') in
      subst (Agrees email) (valid-injective rest5) (
        λ equal. ground (arith, other, equal, (eq_iff checked current').1 (sym equal)),
        (eq_iff checked confirm).0 same,
        rw (check_length-twice current current' long) refl,
        rw kept refl,
      )
