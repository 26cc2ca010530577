-- ===== src/Auth/Methods.antt =====
-- AuthService of src/modules/auth/auth.service.ts: the public methods, on the tables and helpers of
-- Auth.antt.
use text.Mathlib.Text.{◌==◌ as text_eq}
use rideway_api.Prelude.{
  ℕ, Bool, true, false, not, ◌&&◌, ◌||◌, Option, none, some, String, List, [], ◌∷◌, ◌++◌, ◌==◌, ltb,
  is_none, if◌then◌else◌,
}
use rideway_api.Database.{Orm}
use rideway_api.Action.{
  Action, ◌>>=◌, ◌>>◌, modify, ensure, pure, gets, or_throw, conflict, bad_request, unauthorized,
}
use rideway_api.Auth.{
  OtpType, otp_type_eq, User, UserProfile, OtpCode, Mail, Db, TokenResponse, Crypto, Generated,
  text_is, profile_of, user_by_id, user_by_email, save_user, generate_tokens, generate_and_save_otp,
  email_verify, phone_verify, password_reset, welcome_mail,
}

pub record RegisterDto : Type 0 where
  pub email : String
  pub phone : Option String
  pub password : String
  pub username : String
  pub full_name : Option String

pub record VerifyOtpDto : Type 0 where
  pub user_id : ℕ
  pub code : String
  pub otp_type : OtpType

pub record Authenticated : Type 0 where
  pub tokens : TokenResponse
  pub user : User

abbrev pub same_text : Option String → Option String → Bool
same_text (some s) (some t) = text_eq s t
same_text _ _ = false

-- `if (existingUser.email === dto.email) … if (dto.phone && existingUser.phone === dto.phone) …`
abbrev pub reject_taken : RegisterDto → Option User → Action Db (Unit {0})
reject_taken dto none = pure tt
reject_taken dto (some u) = do
  ensure (not (text_eq u.email dto.email)) (conflict "Email already registered")
  ensure (not (same_text u.phone dto.phone)) (conflict "Phone number already registered")

-- The user as `verifyOtp` changes it.
abbrev pub mark_verified : OtpType → User → User
mark_verified email_verify user = record user { is_email_verified = true }
mark_verified phone_verify user = record user { is_phone_verified = true }
mark_verified password_reset user = user

-- `if (user.profile?.username) sendWelcomeEmail(…)`, in the branch of an e-mail verification
abbrev pub welcome : OtpType → User → Option UserProfile → List Mail
welcome email_verify user (some p) =
    if text_eq p.username "" then [] else welcome_mail user.email p.username ∷ []
welcome _ user _ = []

-- What `save` writes for a new user: the given columns and the defaults of the others.
abbrev pub new_user : Crypto → Generated → RegisterDto → User
new_user crypto g dto = record {
  id = g.id;
  email = dto.email;
  phone = dto.phone;
  password_hash = crypto.hash g.salt dto.password;
  is_email_verified = false;
  is_phone_verified = false;
  is_active = true;
  last_login_at = none;
  deleted_at = none;
}

module _ (orm : Orm) (crypto : Crypto) where
  -- `undefined_fits` is what TypeORM takes `{ phone: undefined }` for among the alternatives of a
  -- condition: a test that fits every row, or one that fits none.
  unfoldable pub register :
      (undefined_fits : Bool)
      → Generated
      → (otp : Generated) → (code : String) → RegisterDto
      → Action Db User
  register undefined_fits g otp code dto = do
    existing ← gets (λ s.
        orm.find_one
          (λ u.
            (text_eq u.email dto.email
              || (if is_none dto.phone then undefined_fits else same_text u.phone dto.phone))
            && is_none u.deleted_at)
          s.users)
    reject_taken dto existing
    taken ← gets (λ s. orm.find_one (λ p. text_eq p.username dto.username) s.profiles)
    ensure (is_none taken) (conflict "Username already taken")
    let user = new_user crypto g dto
    modify (λ s. record s { users = orm.insert user s.users })
    modify (λ s. record s {
      profiles =
          orm.insert (record { user_id = g.id; username = dto.username; full_name = dto.full_name })
            s.profiles;
    })
    generate_and_save_otp orm crypto otp code g.id email_verify dto.email
    pure user

  abbrev pub otp_for : (user_id : ℕ) → (code : String) → OtpType → Db → Option OtpCode
  otp_for user_id code otp_type s =
      orm.find_one
        (λ o. o.user_id == user_id && text_eq o.code code && otp_type_eq o.otp_type otp_type) s.otps

  -- The checks of a code that was found, and its use: shared by `verifyOtp` and `resetPassword`.
  unfoldable pub use_otp : (now : ℕ) → OtpCode → Action Db (Unit {0})
  use_otp now otp = do
    ensure (is_none otp.used_at) (bad_request "OTP code already used")
    ensure (not (ltb otp.expires_at now)) (bad_request "OTP code expired")
    modify (λ s. record s {
      otps = orm.update (λ o. o.id == otp.id) (λ _. record otp { used_at = some now }) s.otps;
    })

  unfoldable pub verify_otp : Generated → VerifyOtpDto → Action Db Authenticated
  verify_otp g dto = do
    found ← gets (otp_for dto.user_id dto.code dto.otp_type)
    otp ← or_throw (bad_request "Invalid OTP code") found
    use_otp g.now otp
    account ← gets (user_by_id orm crypto dto.user_id)
    user ← or_throw (bad_request "User not found") account
    let verified = mark_verified dto.otp_type user
    modify (λ s. record s {
      outbox = s.outbox ++ welcome dto.otp_type user (profile_of orm crypto user.id s);
    })
    modify (save_user orm crypto verified)
    tokens ← generate_tokens orm crypto g verified none none
    pure (record { tokens = tokens; user = verified })

  unfoldable pub login :
      Generated
      → (email_or_phone password : String) → (device_info ip_address : Option String)
      → Action Db Authenticated
  login g email_or_phone password device_info ip_address = do
    found ← gets (λ s.
        orm.find_one
          (λ u.
            (text_eq u.email email_or_phone || text_is u.phone email_or_phone)
            && is_none u.deleted_at)
          s.users)
    user ← or_throw (unauthorized "Invalid credentials") found
    ensure (crypto.compare password user.password_hash) (unauthorized "Invalid credentials")
    ensure user.is_email_verified (unauthorized "Please verify your email before logging in")
    ensure user.is_active (unauthorized "Your account has been deactivated")
    let seen = record user { last_login_at = some g.now }
    modify (save_user orm crypto seen)
    tokens ← generate_tokens orm crypto g seen device_info ip_address
    pure (record { tokens = tokens; user = seen })

  -- `hash` draws a salt of its own, so its equation with the stored hash is a test like the next.
  unfoldable pub refresh_tokens :
      Generated
      → (hash_salt user_id token_id : ℕ) → (refresh_token : String)
      → (device_info ip_address : Option String) → Action Db TokenResponse
  refresh_tokens g hash_salt user_id token_id refresh_token device_info ip_address = do
    found ← gets (λ s. orm.find_one (λ t. t.id == token_id && t.user_id == user_id) s.tokens)
    stored ← or_throw (unauthorized "Invalid refresh token") found
    ensure (is_none stored.revoked_at) (unauthorized "Refresh token has been revoked")
    ensure (not (ltb stored.expires_at g.now)) (unauthorized "Refresh token has expired")
    ensure
        (text_eq stored.token_hash (crypto.hash hash_salt refresh_token)
          || crypto.compare refresh_token stored.token_hash)
        (unauthorized "Invalid refresh token")
    modify (λ s. record s {
      tokens =
          orm.update (λ t. t.id == stored.id) (λ _. record stored { revoked_at = some g.now })
            s.tokens;
    })
    account ← gets (user_by_id orm crypto user_id)
    user ← or_throw (unauthorized "User not found") account
    generate_tokens orm crypto g user device_info ip_address

  -- `{ userId, revokedAt: undefined }`: TypeORM drops the undefined part of a condition.
  unfoldable pub revoke_all : (now user_id : ℕ) → Db → Db
  revoke_all now user_id s = record s {
    tokens =
        orm.update (λ t. t.user_id == user_id) (λ t. record t { revoked_at = some now }) s.tokens;
  }

  abbrev pub revoke_one : (now user_id : ℕ) → Option ℕ → Db → Db
  revoke_one now user_id none s = s
  revoke_one now user_id (some token_id) s = record s {
    tokens =
        orm.update (λ t. t.id == token_id && t.user_id == user_id)
          (λ t. record t { revoked_at = some now }) s.tokens;
  }

  unfoldable pub logout : (now user_id : ℕ) → (refresh_token : Option String) → Action Db (Unit {0})
  logout now user_id none = modify (revoke_all now user_id)
  logout now user_id (some token) = modify (
      if text_eq token ""
      then revoke_all now user_id
      else revoke_one now user_id (crypto.decode_token_id token))

  abbrev pub forgot_message : String
  forgot_message = "If an account exists with this email, you will receive a password reset code."

  abbrev pub send_reset_code : Generated → (code : String) → Option User → Action Db (Unit {0})
  send_reset_code g code none = pure tt
  send_reset_code g code (some u) =
      generate_and_save_otp orm crypto g code u.id password_reset u.email

  unfoldable pub forgot_password : Generated → (code email : String) → Action Db String
  forgot_password g code email = do
    user ← gets (user_by_email orm crypto email)
    send_reset_code g code user
    pure forgot_message

  unfoldable pub reset_password : Generated → (email code new_password : String) → Action Db String
  reset_password g email code new_password = do
    account ← gets (user_by_email orm crypto email)
    user ← or_throw (bad_request "Invalid email or OTP code") account
    found ← gets (otp_for user.id code password_reset)
    otp ← or_throw (bad_request "Invalid email or OTP code") found
    use_otp g.now otp
    modify (save_user orm crypto (record user { password_hash = crypto.hash g.salt new_password }))
    modify (revoke_all g.now user.id)
    pure "Password reset successful. Please login with your new password."

  unfoldable pub get_current_user : (user_id : ℕ) → Action Db User
  get_current_user user_id = do
    user ← gets (user_by_id orm crypto user_id)
    or_throw (unauthorized "User not found") user
