-- ===== src/Auth/Tests.antt =====
-- The account calls at concrete tables.
use text.Mathlib.Text.{◌==◌ as text_eq}
use text.Mathlib.TextEquality.{eq_iff}
use rideway_api.Prelude.{
  count_if, ◌≤◌, Bool, bit, ◌+◌, true, false, ◌≡◌, refl, none, some, [], ◌∷◌, is_none, arith,
  if◌then◌else◌, ◌==◌,
}
use rideway_api.Database.{Every}
use rideway_api.Database.InMemory.{in_memory}
use rideway_api.Action.{done, raised, state_of, unauthorized, bad_request}
use rideway_api.Auth.{
  User, RefreshToken, OtpCode, phone_verify, Crypto, Generated, Db, TokenResponse, generate_tokens,
}
use rideway_api.Auth.Methods.{
  Authenticated, RegisterDto, register, VerifyOtpDto, refresh_tokens, login, verify_otp,
  forgot_password, reset_password, logout, use_otp,
}
use rideway_api.Auth.Access.{login_refused, login_lem, account}
use rideway_api.Auth.Rotation.{refresh_once}
use rideway_api.Auth.Registering.{HasUniqueNames, has_email, register-HasUniqueNames}
use rideway_api.Auth.Codes.{verify_once}
use rideway_api.Auth.Reset.{reset_roundtrip}
use rideway_api.Auth.Logout.{logout_lem, HasEnded}

abbrev plain : Crypto
plain = record {
  hash = λ salt password. password;
  compare = text_eq;
  sign_access = λ now user_id email username. "access";
  sign_refresh = λ now user_id token_id. "refresh";
  decode_token_id = λ token. if text_eq token "refresh" then some 8 else none;
  compare-hash = λ salt password. (eq_iff password password).1 refl;
}

abbrev rider : User
rider = record {
  id = 1;
  email = "a@b.ge";
  phone = none;
  password_hash = "old";
  is_email_verified = true;
  is_phone_verified = false;
  is_active = true;
  last_login_at = none;
  deleted_at = none;
}

abbrev token_of_rider : RefreshToken
token_of_rider = record {
  id = 8;
  user_id = 1;
  token_hash = "refresh";
  device_info = none;
  ip_address = none;
  expires_at = 500;
  revoked_at = none;
}

abbrev phone_code : OtpCode
phone_code = record {
  id = 3;
  user_id = 1;
  code = "123456";
  otp_type = phone_verify;
  expires_at = 500;
  used_at = none;
}

abbrev accounts : Db
accounts = record {
  users = rider ∷ [];
  profiles = [];
  tokens = token_of_rider ∷ [];
  otps = phone_code ∷ [];
  outbox = [];
}

abbrev at_400 : Generated
at_400 = record { now = 400; id = 20; salt = 0 }

abbrev at_450 : Generated
at_450 = record { now = 450; id = 21; salt = 1 }

abbrev answer : TokenResponse
answer = record { access_token = "access"; refresh_token = "refresh"; expires_in = 900 }

abbrev hashed : RefreshToken
hashed = record {
  id = 20;
  user_id = 1;
  token_hash = "refresh";
  device_info = none;
  ip_address = none;
  expires_at = 604800400;
  revoked_at = none;
}

abbrev refreshed : Db
refreshed = record accounts {
  tokens = hashed ∷ record token_of_rider { revoked_at = some 400 } ∷ [];
}

refreshes :
    refresh_tokens in_memory plain at_400 0 1 8 "refresh" none none accounts ≡ done answer refreshed
unfolding refresh_tokens generate_tokens
refreshes = refl

refresh_once_example :
    refresh_tokens in_memory plain at_450 1 1 8 "refresh" none none refreshed
    ≡ raised (unauthorized "Refresh token has been revoked") refreshed
refresh_once_example =
    refresh_once in_memory plain 1 8 at_400 0 "refresh" none none accounts refl refreshes at_450 1
      "refresh" none none

login_refused_example :
    login in_memory plain at_400 "a@b.ge" "new" none none accounts
    ≡ raised (unauthorized "Invalid credentials") accounts
login_refused_example =
    login_refused in_memory plain at_400 "a@b.ge" "new" none none accounts
      (unauthorized "Invalid credentials") refl

abbrev entered : Authenticated
entered = record { tokens = answer; user = record rider { last_login_at = some 400 } }

abbrev logged_in : Db
logged_in = record accounts {
  users = record rider { last_login_at = some 400 } ∷ [];
  tokens = hashed ∷ token_of_rider ∷ [];
}

logs_in : login in_memory plain at_400 "a@b.ge" "old" none none accounts ≡ done entered logged_in
unfolding login generate_tokens
logs_in = refl

login_lem_example :
    (u : User) × (account in_memory plain at_400 "a@b.ge" "old" none none accounts ≡ some u)
    × (entered.user ≡ record u { last_login_at = some 400 })
    × (text_eq "old" u.password_hash ≡ true)
    × (u.is_email_verified ≡ true)
    × (u.is_active ≡ true)
    × Every
        (λ t. t.id ≡ 20 → text_eq entered.tokens.refresh_token t.token_hash ≡ true)
        logged_in.tokens
    × (1 ≤ count_if (λ t. t.id == 20) logged_in.tokens)
login_lem_example =
    login_lem in_memory plain at_400 "a@b.ge" "old" none none accounts entered logged_in logs_in

abbrev phone_dto : VerifyOtpDto
phone_dto = record { user_id = 1; code = "123456"; otp_type = phone_verify }

abbrev verified : Db
verified = record accounts {
  users = record rider { is_phone_verified = true } ∷ [];
  tokens = hashed ∷ token_of_rider ∷ [];
  otps = record phone_code { used_at = some 400 } ∷ [];
}

verifies :
    verify_otp in_memory plain at_400 phone_dto accounts
    ≡ done (record { tokens = answer; user = record rider { is_phone_verified = true } }) verified
unfolding verify_otp use_otp generate_tokens
verifies = refl

verify_once_example :
    verify_otp in_memory plain at_450 phone_dto verified
    ≡ raised (bad_request "OTP code already used") verified
verify_once_example =
    verify_once in_memory plain phone_dto at_400 accounts (omega arith) verifies at_450

reset_roundtrip_example :
    (db' : Db) × (reset_password in_memory plain at_450 "a@b.ge" "777777" "new"
        (state_of (forgot_password in_memory plain at_400 "777777" "a@b.ge" accounts))
      ≡ done "Password reset successful. Please login with your new password." db')
    × Every (λ x. x.id ≡ 1 → text_eq "new" x.password_hash ≡ true) db'.users
    × Every (λ t. t.user_id ≡ 1 → is_none t.revoked_at ≡ false) db'.tokens
reset_roundtrip_example =
    reset_roundtrip in_memory plain "a@b.ge" "777777" "new" accounts at_400 at_450 refl refl
      (omega arith)

logout_lem_example :
    (db' : Db) × (logout in_memory plain 400 1 (some "refresh") accounts ≡ done tt db')
    × HasEnded in_memory plain 1 (some "refresh") accounts db'
logout_lem_example = logout_lem in_memory plain 1 400 (some "refresh") accounts

abbrev newcomer : RegisterDto
newcomer = record {
  email = "c@d.ge";
  phone = none;
  password = "secret";
  username = "newcomer";
  full_name = none;
}

at_most_one : (b : Bool) → bit b + 0 ≤ 1
at_most_one true = omega arith
at_most_one false = omega arith

accounts-HasUniqueNames : HasUniqueNames accounts
accounts-HasUniqueNames = record {
  emails = λ email. at_most_one (has_email email rider);
  usernames = λ username. omega arith;
}

register-HasUniqueNames_example :
    HasUniqueNames
      (state_of (register in_memory plain false at_400 at_450 "654321" newcomer accounts))
register-HasUniqueNames_example =
    register-HasUniqueNames in_memory plain at_400 at_450 "654321" newcomer accounts
      accounts-HasUniqueNames
