-- ===== src/Auth/Rotation.antt =====
-- `refreshTokens`: a refresh token serves once.
use mathlib.Core.HLevel.{Π_prop}
use mathlib.Core.Bool.{Bool-set}
use rideway_api.Prelude.{
  ℕ, ◌≡◌, ◌≢◌, refl, ap, sym, ◌∙◌, inl, inr, false, ◌&&◌, Option, some, String, List, ◌==◌, is_none,
  arith, ◌≤◌, Option-cases, count_if, ==_true,
}
use rideway_api.Database.{Orm, Every}
use rideway_api.Database.Rows.{
  Every-update, Every-insert, Every-find_one, count_if-find_one, count_if-find_one_none,
  count_if-insert, count_if-update_mono,
}
use rideway_api.Action.{done_state, Outcome, done, raised, unauthorized}
use rideway_api.Auth.{
  User, Crypto, Generated, Db, RefreshToken, TokenResponse, user_by_id, generate_tokens, token_row,
}
use rideway_api.Auth.Methods.{refresh_tokens}
use rideway_api.Auth.Access.{generate_tokens-done}

module _ (orm : Orm) (crypto : Crypto) (user_id token_id : ℕ) where
  abbrev pub stored_token : Db → Option RefreshToken
  stored_token db = orm.find_one (λ t. t.id == token_id && t.user_id == user_id) db.tokens

  abbrev pub revoked : (now : ℕ) → RefreshToken → Db → Db
  revoked now stored db = record db {
    tokens =
        orm.update (λ t. t.id == stored.id) (λ _. record stored { revoked_at = some now })
          db.tokens;
  }

  module _ (g : Generated) (hash_salt : ℕ) (refresh_token : String)
      (device_info ip_address : Option String) (db : Db) where
    abbrev refresh : Outcome Db TokenResponse
    refresh =
        refresh_tokens orm crypto g hash_salt user_id token_id refresh_token device_info ip_address
          db

    -- What a refresh that succeeds has passed.
    refresh-inv :
        {r : TokenResponse} {db' : Db}
        → refresh ≡ done r db'
        → (stored : RefreshToken) × (user : User) × (stored_token db ≡ some stored)
          × (generate_tokens orm crypto g user device_info ip_address (revoked g.now stored db)
              ≡ done r db')
    unfolding refresh_tokens
    refresh-inv h = elim (Option-cases (stored_token db)) [
      | inl missing ↦ absurd (ground arith)
      | inr (stored, found) ↦
          elim (Option-cases (user_by_id orm crypto user_id (revoked g.now stored db))) [
            | inl gone ↦ absurd (ground arith)
            | inr (user, there) ↦ (stored, user, found, ground arith)
          ]
    ]

    refresh_revoked :
        {stored : RefreshToken}
        → stored_token db ≡ some stored
        → is_none stored.revoked_at ≡ false
        → refresh ≡ raised (unauthorized "Refresh token has been revoked") db
    unfolding refresh_tokens
    refresh_revoked found h = ground arith

-- Each row with the id is revoked.
abbrev IsRevoked : ℕ → List RefreshToken → Type 0
IsRevoked token_id tokens = Every (λ t. t.id ≡ token_id → is_none t.revoked_at ≡ false) tokens

module _ (orm : Orm) (user_id token_id : ℕ) where
  revoked_prop : (t : RefreshToken) → IsProp (t.id ≡ token_id → is_none t.revoked_at ≡ false)
  revoked_prop t = Π_prop (λ _. Bool-set _ _)

  -- The stored row has the id and the user that were asked for.
  stored_ids :
      (db : Db) {t : RefreshToken} (crypto : Crypto)
      → stored_token orm crypto user_id token_id db ≡ some t
      → (t.id ≡ token_id) × (t.user_id ≡ user_id)
  stored_ids db {t} crypto found =
      let e = (orm.find_one-some _ _ found).1 in (ground arith, ground arith)

  -- Where the rows with the id are revoked and one of them is the user's, that is what is found.
  found-IsRevoked :
      (crypto : Crypto) (db : Db)
      → IsRevoked token_id db.tokens
      → 1 ≤ count_if (λ t. t.id == token_id && t.user_id == user_id) db.tokens
      → (t : RefreshToken) × (stored_token orm crypto user_id token_id db ≡ some t)
        × (is_none t.revoked_at ≡ false)
  found-IsRevoked crypto db all there =
      elim (Option-cases (stored_token orm crypto user_id token_id db)) [
        | inl missing ↦ absurd (omega (arith, there, count_if-find_one_none orm _ _ missing))
        | inr (t, found) ↦
            (t, found, Every-find_one orm _ _ found all (stored_ids db crypto found).0)
      ]

module _ (orm : Orm) (user_id token_id id now : ℕ) (new hashed stored : RefreshToken)
    (tokens : List RefreshToken) (other : id ≢ token_id) (stored_id : stored.id ≡ token_id)
    (stored_user : stored.user_id ≡ user_id) (new_id : new.id ≡ id)
    (hashed_id : hashed.id ≡ id) where
  abbrev rotated : List RefreshToken
  rotated =
      orm.update (λ t. t.id == id) (λ _. hashed)
        (orm.insert new (
          orm.update (λ t. t.id == stored.id) (λ _. record stored { revoked_at = some now })
            tokens))

  -- The three writes of a refresh revoke the rows with the old id, and keep one of them.
  rotated-IsRevoked : IsRevoked token_id rotated
  rotated-IsRevoked =
      Every-update orm {P = λ t. t.id ≡ token_id → is_none t.revoked_at ≡ false} (λ t. t.id == id) _
        _ (revoked_prop orm user_id token_id) (λ t _ _ same. absurd (other (sym hashed_id ∙ same)))
        (λ t _ here. here)
        (Every-insert orm _ _ (revoked_prop orm user_id token_id)
          (λ same. absurd (other (sym new_id ∙ same)))
          (Every-update orm {P = λ _. Unit {0}} (λ t. t.id == stored.id) _ _
            (revoked_prop orm user_id token_id) (λ t _ _ _. refl)
            (λ t away _ same. absurd (cc (==_true _ _ (same ∙ sym stored_id)))) (λ _ _. tt)))

  rotated_kept :
      1 ≤ count_if (λ t. t.id == token_id && t.user_id == user_id) tokens
      → 1 ≤ count_if (λ t. t.id == token_id && t.user_id == user_id) rotated
  rotated_kept there = omega (
    arith,
    there,
    count_if-update_mono orm (λ t. t.id == token_id && t.user_id == user_id)
        (λ t. t.id == stored.id) (λ _. record stored { revoked_at = some now }) tokens
        (λ t h. ground (arith, stored_id, stored_user)),
    count_if-insert orm (λ t. t.id == token_id && t.user_id == user_id) new
        (orm.update (λ t. t.id == stored.id) (λ _. record stored { revoked_at = some now }) tokens),
    count_if-update_mono orm (λ t. t.id == token_id && t.user_id == user_id) (λ t. t.id == id)
        (λ _. hashed)
        (orm.insert new (
          orm.update (λ t. t.id == stored.id) (λ _. record stored { revoked_at = some now })
            tokens))
        (λ t h. ground (arith, other)),
  )

module _ (orm : Orm) (crypto : Crypto) (user_id token_id : ℕ) (g : Generated) (hash_salt : ℕ)
    (refresh_token : String) (device_info ip_address : Option String) (db : Db) where
  -- Once a refresh has succeeded, with a new token whose id no earlier token has, every later
  -- refresh with the same old token throws "Refresh token has been revoked" and writes nothing,
  -- whatever token text, time and device it comes with.
  pub refresh_once :
      {r : TokenResponse} {db' : Db}
      → count_if (λ t. t.id == g.id) db.tokens ≡ 0
      → refresh_tokens orm crypto g hash_salt user_id token_id refresh_token device_info ip_address
          db
        ≡ done r db'
      → (later : Generated) (later_salt : ℕ) (later_token : String)
        (later_device later_ip : Option String)
      → refresh_tokens orm crypto later later_salt user_id token_id later_token later_device
          later_ip db'
        ≡ raised (unauthorized "Refresh token has been revoked") db'
  refresh_once {r} {db'} fresh h later later_salt later_token later_device later_ip =
      let (stored, user, found, made) =
        refresh-inv orm crypto user_id token_id g hash_salt refresh_token device_info ip_address db
          h in
      let (stored_id, stored_user) = stored_ids orm user_id token_id db crypto found in
      let (response, after, e, _, _, tokens) =
        generate_tokens-done orm crypto g user device_info ip_address
          (revoked orm crypto user_id token_id g.now stored db) in
      let same : after ≡ db' = done_state (sym e ∙ made) in
      let there =
        count_if-find_one orm (λ t. t.id == token_id && t.user_id == user_id)
          (λ t. t.id == token_id && t.user_id == user_id) db.tokens found
          (orm.find_one-some _ _ found).1 in
      let other : g.id ≢ token_id = λ s. absurd (
        omega (
          arith,
          fresh,
          count_if-find_one orm _ (λ t. t.id == g.id) db.tokens found
              (==_true _ _ (stored_id ∙ sym s)),
        )) in
      let rows : db'.tokens
          ≡ rotated orm user_id token_id g.id g.now
              (token_row orm crypto g user device_info ip_address) _ stored db.tokens other
              stored_id stored_user refl refl =
        sym (ap (λ d. d.tokens) same) ∙ tokens in
      let (t, at, gone) =
        found-IsRevoked orm user_id token_id crypto db'
          (rw rows (
            rotated-IsRevoked orm user_id token_id g.id g.now _ _ stored db.tokens other stored_id
              stored_user refl refl))
          (rw rows (
            rotated_kept orm user_id token_id g.id g.now _ _ stored db.tokens other stored_id
              stored_user refl refl there)) in
      refresh_revoked orm crypto user_id token_id later later_salt later_token later_device later_ip
        db' at gone
