-- ===== src/Users/Profiles.antt =====
-- The profiles of UsersService, src/modules/users/users.service.ts: how they are read, edited and
-- given images. MediaService is a parameter of each call: `uploaded` is what `uploadImage` answers,
-- a URL or an exception. The service catches what `deleteImage` throws, so only the request counts.
use text.Mathlib.Text.{◌==◌ as text_eq}
use rideway_api.Prelude.{
  ℕ, Bool, false, not, ◌&&◌, Option, none, some, is_some, or_else, if◌then◌else◌, ◌⊎◌, inl, inr,
  String, [], ◌∷◌, ◌++◌, ◌==◌,
}
use rideway_api.Database.{Orm, has}
use rideway_api.Blocking.{is_follow, is_user_blocked}
use rideway_api.Action.{
  HttpError, Action, ◌>>=◌, ◌>>◌, modify, ensure, pure, gets, or_throw, not_found, conflict,
  bad_request, raised, internal_error,
}
use rideway_api.Users.{User, UserProfile, Db, live_user}

pub record UserCounts : Type 0 where
  pub followers_count : ℕ
  pub following_count : ℕ
  pub posts_count : ℕ

pub record UserProfileResponse : Type 0 where
  pub id : ℕ
  pub email : String
  pub username : String
  pub full_name : Option String
  pub bio : Option String
  pub avatar_url : Option String
  pub cover_url : Option String
  pub location : Option String
  pub website : Option String
  pub date_of_birth : Option String
  pub gender : Option String
  pub is_email_verified : Bool
  pub is_active : Bool
  pub counts : UserCounts
  pub is_following : Option Bool
  pub created_at : ℕ

pub record UpdateProfileDto : Type 0 where
  pub username : Option String
  pub full_name : Option String
  pub bio : Option String
  pub location : Option String
  pub website : Option String
  pub date_of_birth : Option String
  pub gender : Option String

-- `o?.field`, where the field is optional itself.
module _ {A B : Type 0} where
  abbrev pub field : (A → Option B) → Option A → Option B
  field f none = none
  field f (some a) = f a

-- `if (text)`
abbrev pub is_given : Option String → Bool
is_given none = false
is_given (some t) = not (text_eq t "")

-- `user.profile` is the joined profile, and undefined where the query did not join it.
abbrev pub map_to_profile_response :
    User → (profile : Option UserProfile) → UserCounts → Option Bool → UserProfileResponse
map_to_profile_response user profile counts is_following = record {
  id = user.id;
  email = user.email;
  username = or_else (field (λ p. some p.username) profile) "";
  full_name = field (λ p. p.full_name) profile;
  bio = field (λ p. p.bio) profile;
  avatar_url = field (λ p. p.avatar_url) profile;
  cover_url = field (λ p. p.cover_url) profile;
  location = field (λ p. p.location) profile;
  website = field (λ p. p.website) profile;
  date_of_birth = field (λ p. p.date_of_birth) profile;
  gender = field (λ p. p.gender) profile;
  is_email_verified = user.is_email_verified;
  is_active = user.is_active;
  counts = counts;
  is_following = is_following;
  created_at = user.created_at;
}

-- `Object.assign(profile, { ...dto, dateOfBirth })` and `save`: an undefined property leaves its
-- column.
abbrev pub edit_profile : UpdateProfileDto → UserProfile → UserProfile
edit_profile dto p = record p {
  username = or_else dto.username p.username;
  full_name = if is_some dto.full_name then dto.full_name else p.full_name;
  bio = if is_some dto.bio then dto.bio else p.bio;
  location = if is_some dto.location then dto.location else p.location;
  website = if is_some dto.website then dto.website else p.website;
  date_of_birth = if is_given dto.date_of_birth then dto.date_of_birth else p.date_of_birth;
  gender = if is_some dto.gender then dto.gender else p.gender;
}

-- What `uploadImage` answers, and the request for the deletion of the old image.
abbrev pub answer_of : {S : Type 0} → HttpError ⊎ String → Action S String
answer_of (inl e) s = raised e s
answer_of (inr url) s = pure url s

abbrev pub forget_image : Option String → Db → Db
forget_image none s = s
forget_image (some url) s =
    if is_given (some url) then record s { deleted_images = s.deleted_images ++ url ∷ [] } else s

module _ (orm : Orm) where
  abbrev pub get_user_counts : ℕ → Db → UserCounts
  get_user_counts user_id s = record {
    followers_count = orm.count (λ f. f.following_id == user_id) s.follows;
    following_count = orm.count (λ f. f.follower_id == user_id) s.follows;
    posts_count = 0;
  }

  -- `currentUserId ? await this.isFollowing(currentUserId, userId) : undefined`
  abbrev pub following_for : Option ℕ → ℕ → Db → Option Bool
  following_for none user_id s = none
  following_for (some current) user_id s = some (has orm (is_follow current user_id) s.follows)

  -- `currentUserId && await this.isUserBlocked(userId, currentUserId)`
  abbrev pub blocked_from : Option ℕ → ℕ → Db → Bool
  blocked_from none user_id s = false
  blocked_from (some current) user_id s = is_user_blocked orm user_id current s.blocks

  abbrev pub profile_of : ℕ → Db → Option UserProfile
  profile_of user_id s = orm.find_one (λ p. p.user_id == user_id) s.profiles

  unfoldable pub get_user_by_id :
      (user_id : ℕ) → (current_user_id : Option ℕ) → Action Db UserProfileResponse
  get_user_by_id user_id current_user_id = do
    is_blocked ← gets (blocked_from current_user_id user_id)
    ensure (not is_blocked) (not_found "User not found")
    found ← gets (λ s. orm.find_one (λ u. live_user user_id u && u.is_active) s.users)
    user ← or_throw (not_found "User not found") found
    joined ← gets (profile_of user_id)
    profile ← or_throw (not_found "User not found") joined
    counts ← gets (get_user_counts user_id)
    is_following ← gets (following_for current_user_id user_id)
    pure (map_to_profile_response user (some profile) counts is_following)

  -- The query joins the user of the profile, and not the profile of that user again.
  unfoldable pub get_user_by_username :
      (username : String) → (current_user_id : Option ℕ) → Action Db UserProfileResponse
  get_user_by_username username current_user_id = do
    found ← gets (λ s. orm.find_one (λ p. text_eq p.username username) s.profiles)
    profile ← or_throw (not_found "User not found") found
    joined ← gets (λ s. orm.find_one (live_user profile.user_id) s.users)
    user ← or_throw (not_found "User not found") joined
    ensure user.is_active (not_found "User not found")
    is_blocked ← gets (blocked_from current_user_id profile.user_id)
    ensure (not is_blocked) (not_found "User not found")
    counts ← gets (get_user_counts profile.user_id)
    is_following ← gets (following_for current_user_id profile.user_id)
    pure (map_to_profile_response user none counts is_following)

  -- `dto.username && dto.username !== profile.username`, and the name is another profile's
  abbrev pub name_taken : UpdateProfileDto → UserProfile → Db → Bool
  name_taken dto profile s =
      is_given dto.username
      && not (text_eq (or_else dto.username "") profile.username)
      && has orm (λ p. text_eq p.username (or_else dto.username "")) s.profiles

  unfoldable pub update_profile : (user_id : ℕ) → UpdateProfileDto → Action Db UserProfileResponse
  update_profile user_id dto = do
    found ← gets (profile_of user_id)
    profile ← or_throw (not_found "Profile not found") found
    taken ← gets (name_taken dto profile)
    ensure (not taken) (conflict "Username already taken")
    joined ← gets (λ s. orm.find_one (live_user profile.user_id) s.users)
    modify (λ s. record s {
      profiles = orm.update (λ p. p.id == profile.id) (edit_profile dto) s.profiles;
    })
    counts ← gets (get_user_counts user_id)
    user ← or_throw internal_error joined
    pure (map_to_profile_response user none counts none)

  unfoldable pub upload_avatar : (user_id : ℕ) → (uploaded : HttpError ⊎ String) → Action Db String
  upload_avatar user_id uploaded = do
    found ← gets (profile_of user_id)
    profile ← or_throw (not_found "Profile not found") found
    modify (forget_image profile.avatar_url)
    url ← answer_of uploaded
    modify (λ s. record s {
      profiles =
          orm.update (λ p. p.id == profile.id) (λ p. record p { avatar_url = some url }) s.profiles;
    })
    pure url

  -- The `save` after `profile.avatarUrl = undefined` writes nothing: TypeORM leaves out the columns
  -- of undefined properties. The same holds of `delete_cover`.
  unfoldable pub delete_avatar : (user_id : ℕ) → Action Db (Unit {0})
  delete_avatar user_id = do
    found ← gets (profile_of user_id)
    profile ← or_throw (not_found "Profile not found") found
    ensure (is_given profile.avatar_url) (bad_request "No avatar to delete")
    modify (forget_image profile.avatar_url)

  unfoldable pub upload_cover : (user_id : ℕ) → (uploaded : HttpError ⊎ String) → Action Db String
  upload_cover user_id uploaded = do
    found ← gets (profile_of user_id)
    profile ← or_throw (not_found "Profile not found") found
    modify (forget_image profile.cover_url)
    url ← answer_of uploaded
    modify (λ s. record s {
      profiles =
          orm.update (λ p. p.id == profile.id) (λ p. record p { cover_url = some url }) s.profiles;
    })
    pure url

  unfoldable pub delete_cover : (user_id : ℕ) → Action Db (Unit {0})
  delete_cover user_id = do
    found ← gets (profile_of user_id)
    profile ← or_throw (not_found "Profile not found") found
    ensure (is_given profile.cover_url) (bad_request "No cover to delete")
    modify (forget_image profile.cover_url)
