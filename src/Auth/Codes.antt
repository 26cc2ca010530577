-- ===== src/Auth/Codes.antt =====
-- One-time codes: a code serves once, and what a password reset leaves.
use text.Mathlib.Text.{◌==◌ as text_eq}
use rideway_api.Prelude.{
  ℕ, ◌≡◌, ap, ◌∙◌, inl, inr, Bool, false, not, ◌&&◌, some, String, List, ◌==◌, is_none, arith, bit,
  count_if_mono, ◌≤◌, Bool-cases, Option-cases, count_if,
}
use rideway_api.Database.{Orm}
use rideway_api.Database.Rows.{
  count_if-find_one, count_if-find_one_none, count_if-update_mono, count_if-update,
  count_if-at_found,
}
use rideway_api.Action.{done, raised, bad_request}
use rideway_api.Auth.{
  OtpType, otp_type_eq, Crypto, Generated, Db, OtpCode, generate_tokens, user_by_id,
}
use rideway_api.Auth.Methods.{use_otp, verify_otp, VerifyOtpDto, Authenticated}

-- The test of a code row by which it is looked up, and the codes after the use of one.
abbrev pub code_fits : (user_id : ℕ) → (code : String) → OtpType → OtpCode → Bool
code_fits user_id code otp_type o =
    o.user_id == user_id && text_eq o.code code && otp_type_eq o.otp_type otp_type

module _ (orm : Orm) where
  abbrev pub used : (now : ℕ) → OtpCode → List OtpCode → List OtpCode
  used now otp otps = orm.update (λ o. o.id == otp.id) (λ _. record otp { used_at = some now }) otps

  -- A lookup that finds a code, where no second row has it, finds a used one after its use.
  used_up :
      (user_id : ℕ) (code : String) (otp_type : OtpType) (now : ℕ) {otp : OtpCode}
      (otps : List OtpCode)
      → count_if (code_fits user_id code otp_type) otps ≤ 1
      → orm.find_one (code_fits user_id code otp_type) otps ≡ some otp
      → (o : OtpCode) × (orm.find_one (code_fits user_id code otp_type) (used now otp otps)
          ≡ some o)
        × (is_none o.used_at ≡ false)
  used_up user_id code otp_type now {otp} otps alone found =
      let fits = code_fits user_id code otp_type in
      let holds = (orm.find_one-some _ _ found).1 in
      let after = used now otp otps in
      let unused : count_if (λ o. fits o && is_none o.used_at) after
          ≤ count_if (λ o. not (o.id == otp.id) && fits o) otps =
        rw count_if-update (
          count_if_mono _ _ otps (λ o. elim (Bool-cases (o.id == otp.id)) [
            | inl t ↦ rw t (ground arith)
            | inr t ↦ rw t (ground arith)
          ])) in
      let rest =
        count_if-at_found orm fits fits (λ o. not (o.id == otp.id)) otps found holds alone in
      let self : bit (not (otp.id == otp.id)) ≡ 0 = ground arith in
      elim (Option-cases (orm.find_one fits after)) [
        | inl missing ↦ absurd (
            omega (
              arith,
              count_if-find_one orm fits fits otps found holds,
              count_if-find_one_none orm fits after missing,
              count_if-update_mono orm fits (λ o. o.id == otp.id)
                  (λ _. record otp { used_at = some now }) otps
                  (λ o h. elim (Bool-cases (o.id == otp.id)) [
                    | inl t ↦ rw t holds
                    | inr t ↦ rw t h
                  ]),
            ))
        | inr (o, there) ↦ elim (Bool-cases (is_none o.used_at)) [
          | inl t ↦ absurd (
              omega (
                arith,
                unused,
                rest,
                self,
                count_if-find_one orm fits (λ o. fits o && is_none o.used_at) after there
                    (rw t (ground (arith, (orm.find_one-some fits after there).1))),
              ))
          | inr t ↦ (o, there, t)
        ]
      ]

module _ (orm : Orm) (crypto : Crypto) (dto : VerifyOtpDto) where
  abbrev fits : OtpCode → Bool
  fits = code_fits dto.user_id dto.code dto.otp_type

  verify_used :
      (g : Generated) (db : Db) {o : OtpCode}
      → orm.find_one fits db.otps ≡ some o
      → is_none o.used_at ≡ false
      → verify_otp orm crypto g dto db ≡ raised (bad_request "OTP code already used") db
  unfolding verify_otp use_otp
  verify_used g db found h = ground arith

  -- What a verification that succeeds has found, and the codes that it leaves.
  verify-inv :
      (g : Generated) (db : Db) {a : Authenticated} {db' : Db}
      → verify_otp orm crypto g dto db ≡ done a db'
      → (otp : OtpCode) × (orm.find_one fits db.otps ≡ some otp)
        × (db'.otps ≡ used orm g.now otp db.otps)
  unfolding verify_otp use_otp generate_tokens
  verify-inv g db {a} {db'} h = elim (Option-cases (orm.find_one fits db.otps)) [
    | inl missing ↦ absurd (ground arith)
    | inr (otp, found) ↦ (
      otp,
      found,
      elim (Option-cases (user_by_id orm crypto dto.user_id db)) [
        | inl gone ↦ absurd (ground arith)
        | inr (user, there) ↦ ground arith
      ],
    )
  ]

  -- Once a code has been verified, of which the user has no second row of that text and type,
  -- every later verification of the same code throws "OTP code already used" and writes nothing.
  pub verify_once :
      (g : Generated) (db : Db) {a : Authenticated} {db' : Db}
      → count_if fits db.otps ≤ 1
      → verify_otp orm crypto g dto db ≡ done a db'
      → (later : Generated)
      → verify_otp orm crypto later dto db' ≡ raised (bad_request "OTP code already used") db'
  verify_once g db {a} {db'} alone h later =
      let (otp, found, otps) = verify-inv g db h in
      let (o, there, gone) =
        used_up orm dto.user_id dto.code dto.otp_type g.now db.otps alone found in
      verify_used later db' {o = o} (ap (λ rows. orm.find_one fits rows) otps ∙ there) gone
