-- ===== src/Examples/Passwords.antt =====
-- src/user_auth/schemas.py on passwords that it accepts.
use events_api.Common.{ℕ, String, ◌≡◌, ◌≢◌, refl, Bool, true, eq_iff}
use events_api.Common.Text.{any_char}
use events_api.UserAuth.Schemas.{
  valid, check_length, validate_password_rules, user_register, login_in, change_password_in,
}
use events_api.UserAuth.Schemas.Passwords.{user_register-accepted}

abbrev all_words : ℕ → Bool
all_words c = true

abbrev new : String
new = "Passw0rd!"

abbrev old : String
old = "Secret12"

new-ne-old : new ≢ old
new-ne-old same = let e = (eq_iff new old).1 same in cc

user_register-accepted_example :
    (login_in "ann@example.com" "Passw0rd!"
      ≡ valid (record { email = "ann@example.com"; password = "Passw0rd!" }))
    × (change_password_in all_words "Secret12" "Passw0rd!" "Passw0rd!"
        ≡ valid (record {
          current_password = "Secret12";
          new_password = "Passw0rd!";
          new_password_confirm = "Passw0rd!";
        }))
unfolding user_register login_in check_length validate_password_rules any_char
user_register-accepted_example =
    user_register-accepted all_words "ann@example.com" "Passw0rd!" "Passw0rd!" "Secret12"
      (record { email = "ann@example.com"; password = "Passw0rd!"; password_confirm = "Passw0rd!" })
      (record { email = "ann@example.com"; password = "Secret12" }) refl refl new-ne-old
