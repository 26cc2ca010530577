-- ===== src/Auth.antt =====
-- AuthService of src/modules/auth/auth.service.ts: accounts, one-time codes and refresh tokens.
-- bcrypt and the JWT library are a parameter, `Crypto`. The ids, salts and codes that the database
-- and the random generators make are arguments; one call reads the clock once, as `now`, in
-- milliseconds. Mail is an outbox, in the order of sending. Log lines are left out.
pub mod Methods
pub mod Rotation
pub mod Codes
pub mod Access
pub mod Reset
pub mod Logout
pub mod Registering
mod Tests
use text.Mathlib.Text.{◌==◌ as text_eq}
use rideway_api.Prelude.{
  ℕ, ◌+◌, ◌*◌, ◌≡◌, Bool, true, false, not, ◌&&◌, ◌||◌, Option, none, some, String, List, [], ◌∷◌,
  ◌++◌, ◌==◌, ltb, is_some, is_none, or_else, if◌then◌else◌,
}
use rideway_api.Database.{Orm}
use rideway_api.Action.{
  Action, ◌>>=◌, ◌>>◌, modify, ensure, pure, gets, or_throw, conflict, bad_request, unauthorized,
}

pub data OtpType : Type 0 where
  email_verify phone_verify password_reset : OtpType

abbrev pub otp_type_eq : OtpType → OtpType → Bool
otp_type_eq email_verify email_verify = true
otp_type_eq phone_verify phone_verify = true
otp_type_eq password_reset password_reset = true
otp_type_eq _ _ = false

pub record User : Type 0 where
  pub id : ℕ
  pub email : String
  pub phone : Option String
  pub password_hash : String
  pub is_email_verified : Bool
  pub is_phone_verified : Bool
  pub is_active : Bool
  pub last_login_at : Option ℕ
  pub deleted_at : Option ℕ

pub record UserProfile : Type 0 where
  pub user_id : ℕ
  pub username : String
  pub full_name : Option String

pub record RefreshToken : Type 0 where
  pub id : ℕ
  pub user_id : ℕ
  pub token_hash : String
  pub device_info : Option String
  pub ip_address : Option String
  pub expires_at : ℕ
  pub revoked_at : Option ℕ

pub record OtpCode : Type 0 where
  pub id : ℕ
  pub user_id : ℕ
  pub code : String
  pub otp_type : OtpType
  pub expires_at : ℕ
  pub used_at : Option ℕ

-- What EmailService is asked to send.
pub data Mail : Type 0 where
  otp_mail : (email code : String) → OtpType → Mail
  welcome_mail : (email username : String) → Mail

pub record Db : Type 0 where
  pub users : List User
  pub profiles : List UserProfile
  pub tokens : List RefreshToken
  pub otps : List OtpCode
  pub outbox : List Mail

pub record TokenResponse : Type 0 where
  pub access_token : String
  pub refresh_token : String
  pub expires_in : ℕ

-- bcrypt, where a hash depends on a random salt, and the tokens of the JWT library, which carry
-- the time of their making.
pub record Crypto : Type 0 where
  pub hash : (salt : ℕ) → String → String
  pub compare : (password password_hash : String) → Bool
  pub sign_access : (now user_id : ℕ) → (email username : String) → String
  pub sign_refresh : (now user_id token_id : ℕ) → String
  pub decode_token_id : String → Option ℕ
  -- the documented use of bcrypt: a hash fits the password that it was made from
  pub compare-hash : (salt : ℕ) (password : String) → compare password (hash salt password) ≡ true

-- `7 * 24 * 60 * 60 * 1000` and `OTP_EXPIRY_MINUTES * 60 * 1000`
abbrev pub refresh_token_life : ℕ
refresh_token_life = 7 * 24 * 60 * 60 * 1000

abbrev pub otp_life : ℕ
otp_life = 10 * 60 * 1000

-- What a call draws from the clock, the database and the random generators.
pub record Generated : Type 0 where
  pub now : ℕ
  pub id : ℕ
  pub salt : ℕ

abbrev pub text_is : Option String → String → Bool
text_is none s = false
text_is (some t) s = text_eq t s

abbrev pub username_of : Option UserProfile → String
username_of none = ""
username_of (some p) = p.username

module _ (orm : Orm) (crypto : Crypto) where
  abbrev pub profile_of : ℕ → Db → Option UserProfile
  profile_of user_id s = orm.find_one (λ p. p.user_id == user_id) s.profiles

  abbrev pub user_by_id : ℕ → Db → Option User
  user_by_id id s = orm.find_one (λ u. u.id == id && is_none u.deleted_at) s.users

  abbrev pub user_by_email : String → Db → Option User
  user_by_email email s = orm.find_one (λ u. text_eq u.email email && is_none u.deleted_at) s.users

  -- `userRepository.save(user)` of a user that was read
  abbrev pub save_user : User → Db → Db
  save_user user s = record s { users = orm.update (λ u. u.id == user.id) (λ _. user) s.users }

  abbrev pub token_row : Generated → User → (device_info ip_address : Option String) → RefreshToken
  token_row g user device_info ip_address = record {
    id = g.id;
    user_id = user.id;
    token_hash = "";
    device_info = device_info;
    ip_address = ip_address;
    expires_at = g.now + refresh_token_life;
    revoked_at = none;
  }

  unfoldable pub generate_tokens :
      Generated → User → (device_info ip_address : Option String) → Action Db TokenResponse
  generate_tokens g user device_info ip_address = do
    username ← gets (λ s. username_of (profile_of user.id s))
    let access_token = crypto.sign_access g.now user.id user.email username
    let row = token_row g user device_info ip_address
    modify (λ s. record s { tokens = orm.insert row s.tokens })
    let refresh_token = crypto.sign_refresh g.now user.id g.id
    modify (λ s. record s {
      tokens =
          orm.update (λ t. t.id == g.id)
            (λ _. record row { token_hash = crypto.hash g.salt refresh_token }) s.tokens;
    })
    pure (record {
      access_token = access_token;
      refresh_token = refresh_token;
      expires_in = 15 * 60;
    })

  abbrev pub is_mailed : OtpType → Bool
  is_mailed phone_verify = false
  is_mailed _ = true

  unfoldable pub generate_and_save_otp :
      Generated
      → (code : String) → (user_id : ℕ) → OtpType
      → (email : String) → Action Db (Unit {0})
  generate_and_save_otp g code user_id otp_type email = do
    modify (λ s. record s {
      otps =
          orm.insert
            (record {
              id = g.id;
              user_id = user_id;
              code = code;
              otp_type = otp_type;
              expires_at = g.now + otp_life;
              used_at = none;
            })
            s.otps;
    })
    modify (λ s.
        if not (text_eq email "") && is_mailed otp_type
        then record s { outbox = s.outbox ++ otp_mail email code otp_type ∷ [] }
        else s)
