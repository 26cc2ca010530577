-- ===== src/Users/Names.antt =====
-- No two profiles have the same user name, whatever profile is edited.
use text.Mathlib.Text.{◌==◌ as text_eq}
use text.Mathlib.TextEquality.{eq_iff}
use mathlib.Core.Path.{subst}
use rideway_api.Prelude.{
  ℕ, ◌≤◌, ◌≡◌, ◌⊎◌, refl, sym, ap, ◌∙◌, inl, inr, Bool, true, false, not, ◌&&◌, none, some, String,
  List, ◌==◌, arith, count_if, Bool-cases, Option-cases, count_if_mono, count_if_split,
  count_if_congr, if◌then◌else◌, ==_true, ltb,
}
use rideway_api.Database.{Orm, HasUniqueIds, has}
use rideway_api.Database.Rows.{
  count_if-update, count_if-find_one, HasUniqueIds-update, count_if-update_same,
}
use rideway_api.Database.Presence.{has-count_if}
use rideway_api.Action.{state_of}
use rideway_api.Users.{UserProfile, Db, live_user}
use rideway_api.Users.Profiles.{
  UpdateProfileDto, is_given, edit_profile, profile_of, name_taken, update_profile,
}

abbrev pub has_name : String → UserProfile → Bool
has_name name p = text_eq p.username name

pub record HasUniqueNames (profiles : List UserProfile) : Type 0 where
  pub ids : HasUniqueIds (λ p. p.id) profiles
  pub users : HasUniqueIds (λ p. p.user_id) profiles
  pub names : (name : String) → count_if (has_name name) profiles ≤ 1

module _ (orm : Orm) (dto : UpdateProfileDto) (profiles : List UserProfile)
    (unique : HasUniqueNames profiles) (profile : UserProfile) where
  abbrev edited : List UserProfile
  edited = orm.update (λ p. p.id == profile.id) (edit_profile dto) profiles

  abbrev edited_name : UserProfile → String
  edited_name p = (if p.id == profile.id then edit_profile dto p else p).username

  names-edited : ((name : String) → count_if (has_name name) edited ≤ 1) → HasUniqueNames edited
  names-edited names = record {
    ids = HasUniqueIds-update orm _ profiles _ (edit_profile dto) (λ p. refl) unique.ids;
    users = HasUniqueIds-update orm _ profiles _ (edit_profile dto) (λ p. refl) unique.users;
    names = names;
  }

  -- The name is given, and where another row has it already, that row is the one that is edited.
  module _ {new : String} (given : dto.username ≡ some new)
      (free : (name : String)
        → text_eq new name ≡ true
        → count_if (λ p. has_name name p && not (p.id == profile.id)) profiles ≡ 0) where
    same_rows :
        (name : String) (p : UserProfile)
        → has_name name (if p.id == profile.id then edit_profile dto p else p)
          ≡ (if p.id == profile.id then text_eq new name else has_name name p)
    same_rows name p = elim (Bool-cases (p.id == profile.id)) [
      | inl t ↦ rw (t, given) refl
      | inr f ↦ rw f refl
    ]

    names-le : (name : String) → count_if (has_name name) edited ≤ 1
    names-le name =
        rw
          (count_if-update orm (has_name name) (λ p. p.id == profile.id) (edit_profile dto)
            profiles)
          (rw (count_if_congr _ _ profiles (same_rows name)) (elim (Bool-cases (text_eq new name)) [
            | inr f ↦ omega (
              arith,
              unique.names name,
              count_if_mono (λ p. if p.id == profile.id then text_eq new name else has_name name p)
                  (has_name name) profiles (λ p. ground (arith, f)),
            )
            | inl t ↦ omega (
              arith,
              unique.ids profile.id,
              free name t,
              count_if_split (λ p. if p.id == profile.id then text_eq new name else has_name name p)
                  (λ p. p.id == profile.id) profiles,
              count_if_mono
                  (λ p.
                    (if p.id == profile.id then text_eq new name else has_name name p)
                    && p.id == profile.id)
                  (λ p. p.id == profile.id) profiles (λ p. ground arith),
              count_if_mono
                  (λ p.
                    (if p.id == profile.id then text_eq new name else has_name name p)
                    && not (p.id == profile.id))
                  (λ p. has_name name p && not (p.id == profile.id)) profiles (λ p. ground arith),
            )
          ]))

module _ (orm : Orm) (user_id : ℕ) (dto : UpdateProfileDto) (db : Db)
    (unique : HasUniqueNames db.profiles)
    (valid : (dto.username ≡ none) ⊎ (is_given dto.username ≡ true)) {profile : UserProfile}
    (found : profile_of orm user_id db ≡ some profile)
    (untaken : name_taken orm dto profile db ≡ false) where
  -- No other row has the name that is given.
  not_elsewhere :
      {new : String}
      → dto.username ≡ some new
      → (name : String) → text_eq new name ≡ true
      → count_if (λ p. has_name name p && not (p.id == profile.id)) db.profiles ≡ 0
  not_elsewhere {new} given name same = elim (Bool-cases (text_eq new profile.username)) [
    | inl own ↦
        let here : has_name name profile ≡ true =
          ap (λ (t : String). text_eq t name) (sym ((eq_iff new profile.username).0 own)) ∙ same in
        omega (
          arith,
          unique.names name,
          count_if_split (has_name name) (λ p. p.id == profile.id) db.profiles,
          count_if-find_one orm _ (λ p. has_name name p && p.id == profile.id) db.profiles found
              (both _ _ here (==_true profile.id profile.id refl)),
        )
    | inr other ↦
        let nobody : has orm (has_name new) db.profiles ≡ false =
          not_taken new given (is_given_new given) other untaken in
        let none_yet : count_if (has_name name) db.profiles ≡ 0 =
          ap (λ (t : String). count_if (has_name t) db.profiles) (sym ((eq_iff new name).0 same))
          ∙ no_rows (sym (has-count_if orm (has_name new) db.profiles) ∙ nobody) in
        omega (
          arith,
          none_yet,
          count_if_mono (λ p. has_name name p && not (p.id == profile.id)) (has_name name)
              db.profiles (λ p. ground arith),
        )
  ]
    where
      both : (a b : Bool) → a ≡ true → b ≡ true → (a && b) ≡ true
      both a b h k = ground arith

      no_rows : {n : ℕ} → ltb 0 n ≡ false → n ≡ 0
      no_rows h = ground arith

      is_given_new : {new : String} → dto.username ≡ some new → is_given dto.username ≡ true
      is_given_new given = elim valid [
        | inl missing ↦ let bad : none ≡ some _ = sym missing ∙ given in cc
        | inr h ↦ h
      ]

      third : (a b c : Bool) → a ≡ true → b ≡ false → (a && not b && c) ≡ false → c ≡ false
      third a b c h k l = ground arith

      not_taken :
          (new : String)
          → dto.username ≡ some new
          → is_given dto.username ≡ true
          → text_eq new profile.username ≡ false
          → name_taken orm dto profile db ≡ false
          → has orm (has_name new) db.profiles ≡ false
      not_taken new given h other untaken = third _ _ _ (rw given at h) other (rw given at untaken)

  update_profile-names : HasUniqueNames (edited orm dto db.profiles unique profile)
  update_profile-names = elim (Option-cases dto.username) [
    | inr (new, given) ↦
        names-edited orm dto db.profiles unique profile
          (names-le orm dto db.profiles unique profile given (not_elsewhere given))
    | inl absent ↦ names-edited orm dto db.profiles unique profile (λ name.
        rw
          (count_if-update_same orm (has_name name) (λ p. p.id == profile.id) (edit_profile dto)
            db.profiles (λ p. rw absent refl))
          (unique.names name))
  ]

-- `updateProfile` with a user name that is absent or not empty, which the DTO's validation sees to,
-- keeps user names, and the ids and the users of profiles, unique, whether it succeeds or throws.
pub update_profile-HasUniqueNames :
    (orm : Orm) (user_id : ℕ) (dto : UpdateProfileDto) (db : Db)
    → HasUniqueNames db.profiles
    → (dto.username ≡ none) ⊎ (is_given dto.username ≡ true)
    → HasUniqueNames (state_of (update_profile orm user_id dto db)).profiles
unfolding update_profile
update_profile-HasUniqueNames orm user_id dto db unique valid =
    elim (Option-cases (profile_of orm user_id db)) [
      | inl missing ↦ unchanged (ground (arith, missing))
      | inr (profile, found) ↦ elim (Bool-cases (name_taken orm dto profile db)) [
        | inl taken ↦ unchanged (ground (arith, found, taken))
        | inr untaken ↦
            let e : (state_of (update_profile orm user_id dto db)).profiles
                ≡ edited orm dto db.profiles unique profile =
              elim (Option-cases (orm.find_one (live_user profile.user_id) db.users)) [
                | inl alone ↦ ground (arith, found, untaken, alone)
                | inr (user, joined) ↦ ground (arith, found, untaken, joined)
              ] in
            subst HasUniqueNames (sym e)
              (update_profile-names orm user_id dto db unique valid found untaken)
      ]
    ]
  where
    unchanged : {profiles : List UserProfile} → profiles ≡ db.profiles → HasUniqueNames profiles
    unchanged e = subst HasUniqueNames (sym e) unique
