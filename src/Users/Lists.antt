-- ===== src/Users/Lists.antt =====
-- The lists of UsersService, src/modules/users/users.service.ts: followers, followed users and the
-- search. A joined query is written as the test that it makes of a follow or a profile; no order is
-- asked for. The database's LIKE is a parameter.
use rideway_api.Prelude.{
  ℕ, Bool, true, false, not, ◌&&◌, ◌||◌, Option, none, some, or_else, String, List, [], map, ◌==◌,
  if◌then◌else◌,
}
use rideway_api.Prelude.Sets.{contains}
use rideway_api.Database.{Orm, has, unordered}
use rideway_api.Pagination.{ceil_div, page_rows}
use rideway_api.Blocking.{UserFollow, blocked_ids_for}
use rideway_api.Users.{UserProfile, Db, active_user}
use rideway_api.Users.Profiles.{profile_of, field, is_given}

pub record UserSearchQueryDto : Type 0 where
  pub page : Option ℕ
  pub limit : Option ℕ
  pub q : Option String

pub record UserListItemResponse : Type 0 where
  pub id : ℕ
  pub username : String
  pub full_name : Option String
  pub avatar_url : Option String
  pub bio : Option String
  pub is_following : Bool

pub record PaginatedUsersResponse : Type 0 where
  pub rows : List UserListItemResponse
  pub total : ℕ
  pub page : ℕ
  pub limit : ℕ
  pub total_pages : ℕ

module _ (orm : Orm) where
  -- `currentUserId ? await this.getFollowingSet(currentUserId) : new Set()`
  unfoldable pub following_set : Option ℕ → List UserFollow → List ℕ
  following_set none follows = []
  following_set (some current) follows =
      map (λ f. f.following_id) (orm.find (λ f. f.follower_id == current) unordered follows)

  abbrev pub is_active_user : Db → ℕ → Bool
  is_active_user s id = has orm (active_user id) s.users

  -- The joins with an active user and with its profile, and `NOT IN (:...blockedIds)`.
  abbrev pub is_listed : Option ℕ → Db → ℕ → Bool
  is_listed current s id =
      is_active_user s id
      && has orm (λ p. p.user_id == id) s.profiles
      && not (contains (blocked_ids_for orm current s.blocks) id)

  abbrev pub list_item : Option ℕ → Db → ℕ → Option UserProfile → UserListItemResponse
  list_item current s id profile = record {
    id = id;
    username = or_else (field (λ p. some p.username) profile) "";
    full_name = field (λ p. p.full_name) profile;
    avatar_url = field (λ p. p.avatar_url) profile;
    bio = field (λ p. p.bio) profile;
    is_following = contains (following_set current s.follows) id;
  }

  -- The page of a list of `total` entries.
  abbrev pub users_page :
      UserSearchQueryDto → ℕ → List UserListItemResponse → PaginatedUsersResponse
  users_page query total rows = record {
    rows = rows;
    total = total;
    page = or_else query.page 1;
    limit = or_else query.limit 20;
    total_pages = ceil_div total (or_else query.limit 20);
  }

  abbrev pub is_shown_follower : (user_id : ℕ) → Option ℕ → Db → UserFollow → Bool
  is_shown_follower user_id current s f =
      f.following_id == user_id && is_listed current s f.follower_id

  unfoldable pub get_followers :
      (user_id : ℕ)
      → UserSearchQueryDto
      → (current_user_id : Option ℕ) → Db
      → PaginatedUsersResponse
  get_followers user_id query current_user_id s =
      let test : UserFollow → Bool = is_shown_follower user_id current_user_id s in
      let follows =
        page_rows (or_else query.page 1) (or_else query.limit 20)
          (orm.find test unordered s.follows) in
      users_page query (orm.count test s.follows) (
        map (λ f. list_item current_user_id s f.follower_id (profile_of orm f.follower_id s))
          follows)

  abbrev pub is_shown_followed : (user_id : ℕ) → Option ℕ → Db → UserFollow → Bool
  is_shown_followed user_id current s f =
      f.follower_id == user_id && is_listed current s f.following_id

  unfoldable pub get_following :
      (user_id : ℕ)
      → UserSearchQueryDto
      → (current_user_id : Option ℕ) → Db
      → PaginatedUsersResponse
  get_following user_id query current_user_id s =
      let test : UserFollow → Bool = is_shown_followed user_id current_user_id s in
      let follows =
        page_rows (or_else query.page 1) (or_else query.limit 20)
          (orm.find test unordered s.follows) in
      users_page query (orm.count test s.follows) (
        map (λ f. list_item current_user_id s f.following_id (profile_of orm f.following_id s))
          follows)

  module _ (like : (text pattern : String) → Bool) where
    abbrev pub is_like : String → Option String → Bool
    is_like q none = false
    is_like q (some t) = like t q

    -- `LOWER(username) LIKE LOWER(:query) OR LOWER(fullName) LIKE LOWER(:query)`; a name that is
    -- null is not like anything.
    abbrev pub fits : Option String → UserProfile → Bool
    fits none p = true
    fits (some q) p = if is_given (some q) then like p.username q || is_like q p.full_name else true

    abbrev pub is_shown_profile : Option String → Option ℕ → Db → UserProfile → Bool
    is_shown_profile q current s p =
        is_active_user s p.user_id
        && fits q p
        && not (contains (blocked_ids_for orm current s.blocks) p.user_id)

    unfoldable pub search_users :
        UserSearchQueryDto → (current_user_id : Option ℕ) → Db → PaginatedUsersResponse
    search_users query current_user_id s =
        let test : UserProfile → Bool = is_shown_profile query.q current_user_id s in
        let profiles =
          page_rows (or_else query.page 1) (or_else query.limit 20)
            (orm.find test unordered s.profiles) in
        users_page query (orm.count test s.profiles)
          (map (λ p. list_item current_user_id s p.user_id (some p)) profiles)
