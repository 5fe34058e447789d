-- ===== src/UserAuth/Schemas.antt =====
-- src/user_auth/schemas.py. A model's validation is a function from the fields that were sent; the
-- messages of its `ValueError`s are its errors. That a field is a text, and is an email address, is
-- pydantic's to check: the fields of the inputs are texts here. Where several rules fail, pydantic
-- reports each field's failure and the model the first one.
pub mod Passwords
use Prim.Native.String.{count}
use events_api.Common.{ℕ, String, Bool, true, false, not, ◌&&◌, ◌||◌, Option, leb, eqb, ◌==◌}
use events_api.Common.Int.{ℤ}
use events_api.Common.Text.{any_char}

pub data Invalid : Type 0 where
  string_too_short string_too_long : Invalid
  value_error : String → Invalid

pub data Validated (A : Type 0) : Type 0 where
  valid : A → Validated A
  invalid : Invalid → Validated A

infixl 5 ◌>>=◌ ◌>>◌
abbrev pub ◌>>=◌ : {A B : Type 0} → Validated A → (A → Validated B) → Validated B
valid a >>= f = f a
invalid e >>= f = invalid e

abbrev pub ◌>>◌ : {B : Type 0} → Validated (Unit {0}) → Validated B → Validated B
m >> k = m >>= λ _. k

abbrev pub require : Bool → Invalid → Validated (Unit {0})
require true e = valid tt
require false e = invalid e

abbrev pub is_upper : ℕ → Bool
is_upper c = leb b'A' c && leb c b'Z'

abbrev pub is_lower : ℕ → Bool
is_lower c = leb b'a' c && leb c b'z'

abbrev pub is_digit : ℕ → Bool
is_digit c = leb b'0' c && leb c b'9'

-- the class `\w`: letters, digits and the underscore, beyond ASCII by the Unicode tables
abbrev pub is_word : (ℕ → Bool) → ℕ → Bool
is_word unicode_word c =
    is_upper c || is_lower c || is_digit c || eqb c b'_' || (leb 128 c && unicode_word c)

-- `@ " ' < >`
abbrev pub is_forbidden : ℕ → Bool
is_forbidden c = eqb c 64 || eqb c 34 || eqb c 39 || eqb c 60 || eqb c 62

module _ (unicode_word : ℕ → Bool) where
  unfoldable pub validate_password_rules : String → Validated String
  validate_password_rules value = do
    require (any_char is_upper value)
        (value_error "Password must contain at least one uppercase letter")
    require (any_char is_lower value)
        (value_error "Password must contain at least one lowercase letter")
    require (any_char is_digit value) (value_error "Password must contain at least one digit")
    require (any_char (λ c. not (is_word unicode_word c)) value)
        (value_error "Password must contain at least one special character")
    require (not (any_char is_forbidden value))
        (value_error "Password contain not allowed symbols (@, \", ', <, >)")
    valid value

-- `constr(min_length=8, max_length=24)`, in characters
unfoldable pub check_length : String → Validated String
check_length value = do
  require (leb 8 (count value)) string_too_short
  require (leb (count value) 24) string_too_long
  valid value

pub record UserRegister : Type 0 where
  pub email : String
  pub password : String
  pub password_confirm : String

pub record UserOut : Type 0 where
  pub id : ℤ
  pub email : String
  pub created_at : ℕ

pub record LoginIn : Type 0 where
  pub email : String
  pub password : String

pub record ChangePasswordIn : Type 0 where
  pub current_password : String
  pub new_password : String
  pub new_password_confirm : String

module _ (Token : Type 0) where
  pub record OAuth2LoginOut : Type 0 where
    pub access_token : Token
    pub token_type : String
    pub refresh : Option Token

  pub record TokenPair : Type 0 where
    pub access : Token
    pub refresh : Token
    pub token_type : String
    pub redirect_url : Option String

  pub record TokenRefreshIn : Type 0 where
    pub refresh : Token

  pub record LogoutIn : Type 0 where
    pub refresh : Token

unfoldable pub login_in : String → String → Validated LoginIn
login_in email password = do
  sized ← check_length password
  valid (record { email = email; password = sized })

module _ (unicode_word : ℕ → Bool) where
  -- `UserRegister(email=…, password=…, password_confirm=…)`
  unfoldable pub user_register : String → String → String → Validated UserRegister
  user_register email password password_confirm = do
    sized ← check_length password
    checked ← validate_password_rules unicode_word sized
    require (checked == password_confirm) (value_error "Passwords do not match")
    valid (record { email = email; password = checked; password_confirm = password_confirm })

  unfoldable pub change_password_in : String → String → String → Validated ChangePasswordIn
  change_password_in current_password new_password new_password_confirm = do
    current ← check_length current_password
    sized ← check_length new_password
    checked ← validate_password_rules unicode_word sized
    require (checked == new_password_confirm)
        (value_error "New password and confirmation do not match")
    require (not (checked == current))
        (value_error "New password must differ from current password")
    valid (record {
      current_password = current;
      new_password = checked;
      new_password_confirm = new_password_confirm;
    })
