-- ===== src/Auth/Registering.antt =====
-- `register` keeps e-mail addresses and user names apart.
use text.Mathlib.Text.{◌==◌ as text_eq}
use text.Mathlib.TextEquality.{eq_iff}
use mathlib.Core.Path.{subst}
use rideway_api.Prelude.{
  ◌≤◌, ◌≡◌, sym, ap, inl, inr, Bool, true, false, ◌&&◌, ◌||◌, none, some, is_none, String, List,
  arith, bit, if◌then◌else◌, Bool-cases, Option-cases, count_if, count_if_mono,
}
use rideway_api.Database.{Orm}
use rideway_api.Database.Rows.{count_if-insert, count_if-find_one_none}
use rideway_api.Action.{state_of}
use rideway_api.Auth.{User, UserProfile, Crypto, Generated, Db, generate_and_save_otp}
use rideway_api.Auth.Methods.{RegisterDto, register, new_user, same_text}

abbrev pub has_email : String → User → Bool
has_email email u = text_eq u.email email && is_none u.deleted_at

abbrev pub has_username : String → UserProfile → Bool
has_username username p = text_eq p.username username

-- An address belongs to one account at most that is not deleted, and a user name to one profile.
pub record HasUniqueNames (db : Db) : Type 0 where
  pub emails : (email : String) → count_if (has_email email) db.users ≤ 1
  pub usernames : (username : String) → count_if (has_username username) db.profiles ≤ 1

-- Inserting a row under a name that no row has.
insert_once :
    (orm : Orm) {E : Type 0} (p : String → E → Bool) (rows : List E) (e : E) (name : String)
    → ((other : String) → p other e ≡ true → name ≡ other)
    → count_if (p name) rows ≡ 0
    → ((other : String) → count_if (p other) rows ≤ 1)
    → (other : String) → count_if (p other) (orm.insert e rows) ≤ 1
insert_once orm p rows e name only fresh once other = elim (Bool-cases (p other e)) [
  | inl t ↦ omega (
    arith,
    count_if-insert orm (p other) e rows,
    ap bit t,
    ap (λ (n : String). count_if (p n) rows) (only other t),
    fresh,
  )
  | inr f ↦ omega (arith, count_if-insert orm (p other) e rows, ap bit f, once other)
]

module _ (orm : Orm) (crypto : Crypto) (g otp : Generated) (code : String) (dto : RegisterDto)
    (db : Db) where
  -- The account that `register` looks for first.
  abbrev clashes : User → Bool
  clashes u =
      (text_eq u.email dto.email
        || (if is_none dto.phone then false else same_text u.phone dto.phone))
      && is_none u.deleted_at

  abbrev after : Db
  after = state_of (register orm crypto false g otp code dto db)

  register-done :
      orm.find_one clashes db.users ≡ none
      → orm.find_one (λ p. text_eq p.username dto.username) db.profiles ≡ none
      → (after.users ≡ orm.insert (new_user crypto g dto) db.users)
        × (after.profiles
            ≡ orm.insert
                (record { user_id = g.id; username = dto.username; full_name = dto.full_name })
                db.profiles)
  unfolding register generate_and_save_otp
  register-done free untaken = elim (Bool-cases (text_eq dto.email "")) [
    | inl t ↦ (ground arith, ground arith)
    | inr t ↦ (ground arith, ground arith)
  ]

  register-clash :
      {u : User} → orm.find_one clashes db.users ≡ some u → clashes u ≡ true → after ≡ db
  unfolding register
  register-clash {u} found h = elim (Bool-cases (text_eq u.email dto.email)) [
    | inl t ↦ ground (arith, found, t)
    | inr f ↦ elim (Option-cases dto.phone) [
      | inl no_phone ↦ absurd (ground (arith, f, no_phone, h))
      | inr (n, phone) ↦
          let same : same_text u.phone dto.phone ≡ true = ground (arith, f, phone, h) in
          ground (arith, found, f, same)
    ]
  ]

  register-taken :
      {p : UserProfile}
      → orm.find_one clashes db.users ≡ none
      → orm.find_one (λ p. text_eq p.username dto.username) db.profiles ≡ some p
      → after ≡ db
  unfolding register
  register-taken free taken = ground (arith, free, taken)

  -- Where TypeORM takes an undefined phone number for a test that fits no account, a call of
  -- `register`, successful or throwing, keeps the names apart: an e-mail address belongs to at most
  -- one account that is not deleted, and a user name to at most one profile.
  pub register-HasUniqueNames :
      HasUniqueNames db → HasUniqueNames (state_of (register orm crypto false g otp code dto db))
  register-HasUniqueNames names = elim (Option-cases (orm.find_one clashes db.users)) [
    | inr (u, found) ↦
        subst HasUniqueNames (sym (register-clash found (orm.find_one-some _ _ found).1)) names
    | inl free ↦
        elim (Option-cases (orm.find_one (λ p. text_eq p.username dto.username) db.profiles)) [
          | inr (p, taken) ↦ subst HasUniqueNames (sym (register-taken free taken)) names
          | inl untaken ↦
              let (users, profiles) = register-done free untaken in
              record {
                emails = λ email.
                    subst (λ rows. count_if (has_email email) rows ≤ 1) (sym users)
                      (insert_once orm has_email db.users (new_user crypto g dto) dto.email
                        (λ other h. same_email other h)
                        (omega (
                          arith,
                          count_if-find_one_none orm clashes db.users free,
                          count_if_mono (has_email dto.email) clashes db.users (λ u. ground arith),
                        ))
                        names.emails email);
                usernames = λ username.
                    subst (λ rows. count_if (has_username username) rows ≤ 1) (sym profiles)
                      (insert_once orm has_username db.profiles
                        (record {
                          user_id = g.id;
                          username = dto.username;
                          full_name = dto.full_name;
                        })
                        dto.username (λ other h. (eq_iff dto.username other).0 h)
                        (count_if-find_one_none orm _ db.profiles untaken) names.usernames
                        username);
              }
        ]
  ]
    where
      same_email : (other : String) → (text_eq dto.email other && true) ≡ true → dto.email ≡ other
      same_email other h = (eq_iff dto.email other).0 (elim (Bool-cases (text_eq dto.email other)) [
        | inl t ↦ t
        | inr f ↦ absurd (let bad : (false && true) ≡ true = rw f at h in cc)
      ])
