-- ===== src/Auth/Reset.antt =====
-- `forgotPassword` and then `resetPassword`.
use text.Mathlib.Text.{◌==◌ as text_eq}
use mathlib.Core.HLevel.{Π_prop, ×_prop}
use text.Mathlib.TextEquality.{eq_iff}
use mathlib.Core.Bool.{Bool-set}
use rideway_api.Prelude.{
  ◌+◌, ◌≡◌, refl, ap, ◌∙◌, inl, inr, true, false, ◌&&◌, none, some, String, ◌==◌, is_none, arith,
  ◌≤◌, ltb, Bool-cases, count_if, ==_true,
}
use rideway_api.Database.{Orm, Every}
use rideway_api.Database.Rows.{Every-update, find_one-insert}
use rideway_api.Action.{done, state_of}
use rideway_api.Auth.{
  User, password_reset, Crypto, Generated, Db, OtpCode, otp_life, user_by_email,
  generate_and_save_otp,
}
use rideway_api.Auth.Methods.{use_otp, reset_password, forgot_password, forgot_message, revoke_all}
use rideway_api.Auth.Codes.{code_fits, used}

module _ (orm : Orm) (crypto : Crypto) (email code new_password : String) (db : Db) where
  -- The code row that a request makes, and the tables after the request.
  abbrev reset_code : Generated → User → OtpCode
  reset_code g u = record {
    id = g.id;
    user_id = u.id;
    code = code;
    otp_type = password_reset;
    expires_at = g.now + otp_life;
    used_at = none;
  }

  abbrev requested : Generated → Db
  requested g = state_of (forgot_password orm crypto g code email db)

  requested_lem :
      (g : Generated) {u : User}
      → user_by_email orm crypto email db ≡ some u
      → (forgot_password orm crypto g code email db
          ≡ done (forgot_message orm crypto) (requested g))
        × ((requested g).users ≡ db.users)
        × ((requested g).otps ≡ orm.insert (reset_code g u) db.otps)
        × ((requested g).tokens ≡ db.tokens)
  unfolding forgot_password generate_and_save_otp
  requested_lem g {u} found = elim (Bool-cases (text_eq u.email "")) [
    | inl t ↦ (ground arith, ground arith, ground arith, ground arith)
    | inr t ↦ (ground arith, ground arith, ground arith, ground arith)
  ]

  reset-done :
      (g : Generated) {u : User} {otp : OtpCode}
      → user_by_email orm crypto email db ≡ some u
      → orm.find_one (code_fits u.id code password_reset) db.otps ≡ some otp
      → is_none otp.used_at ≡ true
      → ltb otp.expires_at g.now ≡ false
      → (db' : Db) × (reset_password orm crypto g email code new_password db
          ≡ done "Password reset successful. Please login with your new password." db')
        × (db'.users
            ≡ orm.update
                (λ x. x.id == u.id)
                (λ _. record u { password_hash = crypto.hash g.salt new_password })
                db.users)
        × (db'.tokens
            ≡ orm.update
                (λ t. t.user_id == u.id)
                (λ t. record t { revoked_at = some g.now })
                db.tokens)
  unfolding reset_password use_otp revoke_all
  reset-done g {u} {otp} there found fresh fits = (
    record db {
      otps = used orm g.now otp db.otps;
      users =
          orm.update (λ x. x.id == u.id)
            (λ _. record u { password_hash = crypto.hash g.salt new_password }) db.users;
      tokens =
          orm.update (λ t. t.user_id == u.id) (λ t. record t { revoked_at = some g.now }) db.tokens;
    },
    ground arith,
    refl,
    refl,
  )

-- The whole of a reset: the two calls, one after the other.
module _ (orm : Orm) (crypto : Crypto) (email code new_password : String) (db : Db)
    (g later : Generated) {u : User} where
  -- A password reset works: where an account has the e-mail and no earlier reset code with the new
  -- code's text, and the reset comes within the code's life, `forgotPassword` followed by
  -- `resetPassword` with that code succeeds. The new password then fits the account's hash, and all
  -- its refresh tokens are revoked.
  pub reset_roundtrip :
      user_by_email orm crypto email db ≡ some u
      → count_if (code_fits u.id code password_reset) db.otps ≡ 0
      → later.now ≤ g.now + otp_life
      → (db' : Db) × (reset_password orm crypto later email code new_password
            (state_of (forgot_password orm crypto g code email db))
          ≡ done "Password reset successful. Please login with your new password." db')
        × Every (λ x. x.id ≡ u.id → crypto.compare new_password x.password_hash ≡ true) db'.users
        × Every (λ t. t.user_id ≡ u.id → is_none t.revoked_at ≡ false) db'.tokens
  reset_roundtrip there fresh soon =
      let (_, users, otps, _) = requested_lem orm crypto email code new_password db g there in
      let (otp, found, (unused, live)) =
        find_one-insert {P = λ o. (is_none o.used_at ≡ true) × (ltb o.expires_at later.now ≡ false)}
          orm (code_fits u.id code password_reset)
          (reset_code orm crypto email code new_password db g u) db.otps
          (λ x. ×_prop (Bool-set _ _) (Bool-set _ _)) fresh
          (ground (arith, (eq_iff code code).1 refl)) (refl, ground arith) in
      let (db', e, users', tokens') =
        reset-done orm crypto email code new_password
          (state_of (forgot_password orm crypto g code email db)) later {u = u} {otp = otp}
          (ap (λ rows. orm.find_one (λ x. text_eq x.email email && is_none x.deleted_at) rows) users
            ∙ there)
          (ap (λ rows. orm.find_one (code_fits u.id code password_reset) rows) otps ∙ found) unused
          live in
      (
        db',
        e,
        rw users' (
            Every-update orm {P = λ _. Unit {0}} _ _ _ (λ _. Π_prop (λ _. Bool-set _ _))
              (λ _ _ _ _. crypto.compare-hash _ _) (λ x f _ h. absurd (cc (==_true _ _ h)))
              (λ _ _. tt)),
        rw tokens' (
            Every-update orm {P = λ _. Unit {0}} _ _ _ (λ _. Π_prop (λ _. Bool-set _ _))
              (λ _ _ _ _. refl) (λ x f _ h. absurd (cc (==_true _ _ h))) (λ _ _. tt)),
      )
