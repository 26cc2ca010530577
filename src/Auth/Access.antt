-- ===== src/Auth/Access.antt =====
-- `login`: who gets tokens, and what is thrown otherwise.
use text.Mathlib.Text.{◌==◌ as text_eq}
use mathlib.Core.HLevel.{Π_prop}
use mathlib.Core.Bool.{Bool-set}
use rideway_api.Database.Rows.{Every-update, count_if-update, count_if-insert}
use rideway_api.Prelude.{
  ◌≤◌, ◌≡◌, List, Bool, bit, count_if, count_if_congr, Bool-cases, refl, sym, ap, ◌∙◌, inl, inr,
  true, not, ◌&&◌, ◌||◌, Option, none, some, String, ◌==◌, is_none, arith, ==_true, Option-cases,
  if◌then◌else◌,
}
use rideway_api.Database.{Orm, Every}
use rideway_api.Action.{done, raised, done_state, done_value, HttpError, unauthorized}
use rideway_api.Auth.{
  User, RefreshToken, Crypto, Generated, Db, TokenResponse, text_is, save_user, generate_tokens,
  token_row,
}
use rideway_api.Auth.Methods.{Authenticated, login}

module _ (orm : Orm) (crypto : Crypto) (g : Generated) (user : User)
    (device_info ip_address : Option String) (db : Db) where
  -- The tables after the tokens of a user are made, and the answer.
  pub generate_tokens-done :
      (response : TokenResponse) × (db' : Db) × (generate_tokens orm crypto g user device_info
          ip_address db
        ≡ done response db')
      × (db'.users ≡ db.users)
      × (db'.otps ≡ db.otps)
      × (db'.tokens
          ≡ orm.update
              (λ t. t.id == g.id)
              (λ _. record (token_row orm crypto g user device_info ip_address) {
                token_hash = crypto.hash g.salt response.refresh_token;
              })
              (orm.insert (token_row orm crypto g user device_info ip_address) db.tokens))
  unfolding generate_tokens
  generate_tokens-done = (_, _, refl, refl, refl, refl)

module _ (orm : Orm) (crypto : Crypto) (g : Generated) (email_or_phone password : String)
    (device_info ip_address : Option String) (db : Db) where
  abbrev pub account : Option User
  account =
      orm.find_one
        (λ u.
          (text_eq u.email email_or_phone || text_is u.phone email_or_phone)
          && is_none u.deleted_at)
        db.users

  -- The exception that a login gets, if any: the first check that fails decides.
  abbrev pub login_refusal : Option User → Option HttpError
  login_refusal none = some (unauthorized "Invalid credentials")
  login_refusal (some u) =
      if not (crypto.compare password u.password_hash)
      then some (unauthorized "Invalid credentials")
      else if not u.is_email_verified
      then some (unauthorized "Please verify your email before logging in")
      else if not u.is_active
      then some (unauthorized "Your account has been deactivated")
      else none

  -- A login that fails a check gets the exception of the first check that it fails, in the order
  -- account, password, verified e-mail, active account, and nothing is written.
  pub login_refused :
      (e : HttpError)
      → login_refusal account ≡ some e
      → login orm crypto g email_or_phone password device_info ip_address db ≡ raised e db
  unfolding login
  login_refused e h = ground arith

  abbrev seen : User → User
  seen u = record u { last_login_at = some g.now }

  login-eq :
      {u : User} (response : TokenResponse) (db' : Db)
      → account ≡ some u
      → login_refusal account ≡ none
      → generate_tokens orm crypto g
          (seen u)
          device_info
          ip_address
          (save_user orm crypto (seen u) db)
        ≡ done response db'
      → login orm crypto g email_or_phone password device_info ip_address db
        ≡ done (record { tokens = response; user = seen u }) db'
  unfolding login
  login-eq response db' found h e = ground arith

  login_refusal-none :
      {u : User}
      → account ≡ some u
      → login_refusal account ≡ none
      → (crypto.compare password u.password_hash ≡ true)
        × (u.is_email_verified ≡ true)
        × (u.is_active ≡ true)
  login_refusal-none found h = (ground arith, ground arith, ground arith)

  -- The token made for the login is in the table.
  token_kept :
      (u : User) (hash : String) (tokens : List RefreshToken)
      → 1
        ≤ count_if
            (λ t. t.id == g.id)
            (orm.update
              (λ t. t.id == g.id)
              (λ _. record (token_row orm crypto g u device_info ip_address) { token_hash = hash })
              (orm.insert (token_row orm crypto g u device_info ip_address) tokens))
  token_kept u hash tokens =
      let row = token_row orm crypto g u device_info ip_address in
      let rehashed : RefreshToken → RefreshToken = λ _. record row { token_hash = hash } in
      let is_new : RefreshToken → Bool = λ t. t.id == g.id in
      let self : (g.id == g.id) ≡ true = ==_true g.id g.id refl in
      omega (
        arith,
        count_if-update orm is_new is_new rehashed (orm.insert row tokens),
        count_if_congr (λ t. is_new (if is_new t then rehashed t else t)) is_new
            (orm.insert row tokens)
            (λ t. elim (Bool-cases (is_new t)) [
              | inl same ↦ rw same self
              | inr other ↦ rw other other
            ]),
        count_if-insert orm is_new row tokens,
        ap bit self,
      )

  login_passed :
      login_refusal account ≡ none
      → (u : User) × (response : TokenResponse) × (db' : Db) × (account ≡ some u)
        × (login orm crypto g email_or_phone password device_info ip_address db
            ≡ done
                (record { tokens = response; user = record u { last_login_at = some g.now } })
                db')
        × (crypto.compare password u.password_hash ≡ true)
        × (u.is_email_verified ≡ true)
        × (u.is_active ≡ true)
        × Every
            (λ t. t.id ≡ g.id → crypto.compare response.refresh_token t.token_hash ≡ true)
            db'.tokens
        × (1 ≤ count_if (λ t. t.id == g.id) db'.tokens)
  login_passed h = elim (Option-cases account) [
    | inl missing ↦ absurd (ground arith)
    | inr (u, found) ↦
        let (response, db', e, _, _, tokens) =
          generate_tokens-done orm crypto g (seen u) device_info ip_address
            (save_user orm crypto (seen u) db) in
        let (fits, verified, active) = login_refusal-none found h in
        (
          u,
          response,
          db',
          found,
          login-eq response db' found h e,
          fits,
          verified,
          active,
          rw tokens (
              Every-update orm {P = λ _. Unit {0}} (λ t. t.id == g.id) _ _
                (λ t. Π_prop (λ _. Bool-set _ _)) (λ t here _ _. crypto.compare-hash _ _)
                (λ t other _ same. absurd (cc (==_true _ _ same))) (λ _ _. tt)),
          rw tokens (token_kept (seen u) _ _),
        )
  ]

  -- A login that succeeds answers the account that was found for the e-mail or phone, with the time
  -- of this login; the password fits the account's hash, its e-mail is verified and it is active.
  -- A token row with the new id is then there, and each such row holds a hash that the refresh token
  -- answered fits.
  pub login_lem :
      (answer : Authenticated) (db' : Db)
      → login orm crypto g email_or_phone password device_info ip_address db ≡ done answer db'
      → (u : User) × (account ≡ some u)
        × (answer.user ≡ record u { last_login_at = some g.now })
        × (crypto.compare password u.password_hash ≡ true)
        × (u.is_email_verified ≡ true)
        × (u.is_active ≡ true)
        × Every
            (λ t. t.id ≡ g.id → crypto.compare answer.tokens.refresh_token t.token_hash ≡ true)
            db'.tokens
        × (1 ≤ count_if (λ t. t.id == g.id) db'.tokens)
  login_lem answer db' succeeds = elim (Option-cases (login_refusal account)) [
    | inr (e, refused) ↦ let threw = login_refused e refused in absurd cc
    | inl passed ↦
        let (u, response, after, found, call, fits, verified, active, hashed, kept) =
          login_passed passed in
        let same = sym call ∙ succeeds in
        (
          u,
          found,
          sym (ap (λ (a : Authenticated). a.user) (done_value same)),
          fits,
          verified,
          active,
          rw (sym (done_value same), sym (done_state same)) hashed,
          rw (sym (done_state same)) kept,
        )
  ]
