-- ===== src/Auth/Logout.antt =====
-- `logout`: which refresh tokens end.
use text.Mathlib.Text.{◌==◌ as text_eq}
use mathlib.Core.Bool.{Bool-set}
use mathlib.Core.HLevel.{Π_prop}
use rideway_api.Prelude.{
  ℕ, ◌≡◌, refl, ap, ◌∙◌, inl, inr, Bool, true, false, not, ◌&&◌, Option, none, some, String, List,
  ◌==◌, is_none, Bool-cases, Option-cases, count_if, arith, if◌then◌else◌, count_if_congr,
}
use rideway_api.Database.{Orm, Every}
use rideway_api.Database.Rows.{Every-update, count_if-update}
use rideway_api.Action.{done}
use rideway_api.Auth.{RefreshToken, Crypto, Db}
use rideway_api.Auth.Methods.{logout, revoke_all}

-- A revocation of the rows of a test.
module _ (orm : Orm) (now : ℕ) (q : RefreshToken → Bool) (tokens : List RefreshToken) where
  abbrev ended : List RefreshToken
  ended = orm.update q (λ t. record t { revoked_at = some now }) tokens

  ended_lem :
      ((t : RefreshToken) → q (record t { revoked_at = some now }) ≡ q t)
      → Every (λ t. q t ≡ true → is_none t.revoked_at ≡ false) ended
        × ((p : RefreshToken → Bool)
            → count_if (λ t. p t && not (q t)) ended ≡ count_if (λ t. p t && not (q t)) tokens)
  ended_lem same = (
    Every-update orm {P = λ _. Unit {0}} q _ _ (λ t. Π_prop (λ _. Bool-set _ _)) (λ t _ _ _. refl)
        (λ t f _ h. absurd (cc)) (λ _ _. tt),
    λ p.
        count_if-update orm _ q _ tokens
        ∙ count_if_congr _ _ tokens (λ t. elim (Bool-cases (q t)) [
          | inl h ↦ rw h (rw (same t) (rw h (ground arith)))
          | inr h ↦ rw h (ap (λ b. p t && not b) h)
        ]),
  )

module _ (orm : Orm) (crypto : Crypto) (user_id : ℕ) where
  -- The tokens that a logout ends: all of the user's where it comes without a token, and otherwise
  -- the one that the token names, if it is the user's.
  abbrev names : Option ℕ → RefreshToken → Bool
  names none t = false
  names (some id) t = t.id == id && t.user_id == user_id

  abbrev ends : Option String → RefreshToken → Bool
  ends none t = t.user_id == user_id
  ends (some token) t =
      if text_eq token "" then t.user_id == user_id else names (crypto.decode_token_id token) t

  -- What a logout promises of the state that it leaves.
  abbrev pub HasEnded : Option String → Db → Db → Type 0
  HasEnded token db db' =
      Every (λ t. ends token t ≡ true → is_none t.revoked_at ≡ false) db'.tokens
      × ((p : RefreshToken → Bool)
          → count_if (λ t. p t && not (ends token t)) db'.tokens
            ≡ count_if (λ t. p t && not (ends token t)) db.tokens)
      × (db'.users ≡ db.users)

  -- A logout always succeeds. It revokes all refresh tokens of the user where no token, or an empty
  -- one, is given, and otherwise the one that the token names, if it is the user's; the other
  -- tokens are left as they were, counted by any test, and the users too.
  pub logout_lem :
      (now : ℕ) (token : Option String) (db : Db)
      → (db' : Db) × (logout orm crypto now user_id token db ≡ done tt db') × HasEnded token db db'
  unfolding logout revoke_all
  logout_lem now none db =
      let (all, rest) = ended_lem orm now (ends none) db.tokens (λ t. refl) in
      (_, refl, (all, rest, refl))
  logout_lem now (some token) db = elim (Bool-cases (text_eq token "")) [
    | inl t ↦
        let (all, rest) = ended_lem orm now (λ t. t.user_id == user_id) db.tokens (λ t. refl) in
        (revoke_all orm crypto now user_id db, rw t refl, rw t (all, rest, refl))
    | inr f ↦ elim (Option-cases (crypto.decode_token_id token)) [
      | inl unreadable ↦ (
        db,
        rw f (rw unreadable refl),
        rw f (rw unreadable ((λ _ _ h. absurd (cc)), (λ p. refl), refl)),
      )
      | inr (id, read) ↦
          let (all, rest) = ended_lem orm now (names (some id)) db.tokens (λ t. refl) in
          (
            record db { tokens = ended orm now (names (some id)) db.tokens },
            rw f (rw read refl),
            rw f (rw read (all, rest, refl)),
          )
    ]
  ]
