-- ===== src/Users/Shown.antt =====
-- Whom the lists of users show.
use mathlib.Core.List.{Mem}
use rideway_api.Prelude.{
  ℕ, ◌-◌, ◌*◌, ◌≡◌, min, refl, sym, ◌∙◌, Bool, true, false, not, ◌&&◌, Option, none, some, or_else,
  ◌==◌, arith, length, length-map, map, count_if, count_if-pos_of_mem,
}
use rideway_api.Prelude.Sets.{contains}
use rideway_api.Database.{Orm, Every, has, unordered}
use rideway_api.Database.Rows.{Every-map, find_one-is_some}
use rideway_api.Database.Presence.{has-congr, contains-find}
use rideway_api.Pagination.{page_rows}
use rideway_api.Pagination.Queries.{page-Mem, length-page}
use rideway_api.Blocking.{UserFollow, is_follow, blocked_ids_for}
use rideway_api.Blocking.Laws.{contains-blocked_user_ids}
use rideway_api.Users.{UserProfile, Db}
use rideway_api.Users.Profiles.{following_for, blocked_from, profile_of}
use rideway_api.Users.Lists.{
  UserSearchQueryDto, UserListItemResponse, PaginatedUsersResponse, following_set, is_active_user,
  is_listed, list_item, users_page, is_shown_follower, is_shown_followed, get_followers,
  get_following,
}

module _ (orm : Orm) (current : Option ℕ) (s : Db) where
  -- The user is active, there is no block between the user and the reader, and the flag tells
  -- whether the reader follows the user.
  abbrev pub IsShownUser : UserListItemResponse → Type 0
  IsShownUser item =
      (is_active_user orm s item.id ≡ true)
      × (blocked_from orm current item.id s ≡ false)
      × (item.is_following ≡ or_else (following_for orm current item.id s) false)

  -- An answer that shows the page asked for of `number` users, each of them `shown`.
  pub record IsListOf (query : UserSearchQueryDto) (shown : ℕ → Bool) (number : ℕ)
      (answer : PaginatedUsersResponse) : Type 0 where
    pub users : Every (λ item. IsShownUser item × (shown item.id ≡ true)) answer.rows
    pub total : answer.total ≡ number
    pub rows :
        length answer.rows
        ≡ min
            (or_else query.limit 20)
            (number - (or_else query.page 1 - 1) * or_else query.limit 20)

blocked-contains :
    (orm : Orm) (current : Option ℕ) (s : Db) (id : ℕ)
    → contains (blocked_ids_for orm current s.blocks) id ≡ blocked_from orm current id s
blocked-contains orm none s id = refl
blocked-contains orm (some c) s id = contains-blocked_user_ids orm c id s.blocks

following-contains :
    (orm : Orm) (current : Option ℕ) (s : Db) (id : ℕ)
    → contains (following_set orm current s.follows) id
      ≡ or_else (following_for orm current id s) false
unfolding following_set
following-contains orm none s id = refl
following-contains orm (some c) s id =
    contains-find orm (λ (f : UserFollow). f.following_id) (λ f. f.follower_id == c) unordered
      s.follows id
    ∙ has-congr orm _ (is_follow c id) s.follows (λ f. ground arith)

module _ (orm : Orm) (current : Option ℕ) (s : Db) where
  listed-IsShownUser :
      (id : ℕ) (profile : Option UserProfile)
      → is_listed orm current s id ≡ true
      → IsShownUser orm current s (list_item orm current s id profile)
  listed-IsShownUser id profile h = (
    first_of _ _ (not (contains (blocked_ids_for orm current s.blocks) id)) h,
    sym (blocked-contains orm current s id) ∙ last_of (is_active_user orm s id) _ _ h,
    following-contains orm current s id,
  )
    where
      first_of : (a b c : Bool) → (a && b && c) ≡ true → a ≡ true
      first_of a b c k = ground arith

      last_of : (a b c : Bool) → (a && b && not c) ≡ true → c ≡ false
      last_of a b c k = ground arith

  -- A list over the follows that pass a test, where `key` is the user that a follow shows.
  module _ (query : UserSearchQueryDto) (key : UserFollow → ℕ) (test : UserFollow → Bool)
      (shown : ℕ → Bool)
      (listed : (f : UserFollow) → test f ≡ true → is_listed orm current s (key f) ≡ true)
      (fits : (f : UserFollow) → Mem f s.follows → test f ≡ true → shown (key f) ≡ true) where
    follows_page-IsListOf : IsListOf orm current s query shown (count_if test s.follows) (
        users_page orm query (orm.count test s.follows) (
          map
            (λ f. list_item orm current s (key f) (profile_of orm (key f) s))
            (page_rows
              (or_else query.page 1)
              (or_else query.limit 20)
              (orm.find test unordered s.follows))))
    follows_page-IsListOf = record {
      users =
          Every-map {Q = λ item. IsShownUser orm current s item × (shown item.id ≡ true)}
            (λ f. list_item orm current s (key f) (profile_of orm (key f) s))
            (page_rows (or_else query.page 1) (or_else query.limit 20)
              (orm.find test unordered s.follows))
            (λ item. hlevel)
            (λ f (m, h).
              (listed-IsShownUser (key f) (profile_of orm (key f) s) (listed f h), fits f m h))
            (page-Mem orm test unordered s.follows (or_else query.page 1) (or_else query.limit 20));
      total = orm.count_lem test s.follows;
      rows =
          length-map _ _
          ∙ length-page orm test unordered s.follows (or_else query.page 1)
              (or_else query.limit 20);
    }

module _ (orm : Orm) (current : Option ℕ) (s : Db) (user_id : ℕ) (query : UserSearchQueryDto) where
  -- `getFollowers` and `getFollowing`, for any tables, user, page and reader: the total is the number
  -- of follows with an active user who has a profile and is not blocked from the reader; as many
  -- rows are answered as the page has; and each row is an active user without a block to or from the
  -- reader who follows, or is followed by, the user, marked as followed exactly where the reader
  -- follows that user.
  pub follow_lists_lem :
      IsListOf orm current s query
        (λ id. has orm (is_follow id user_id) s.follows)
        (count_if (is_shown_follower orm user_id current s) s.follows)
        (get_followers orm user_id query current s)
      × IsListOf orm current s query
          (λ id. has orm (is_follow user_id id) s.follows)
          (count_if (is_shown_followed orm user_id current s) s.follows)
          (get_following orm user_id query current s)
  unfolding get_followers get_following
  follow_lists_lem = (
    follows_page-IsListOf orm current s query (λ f. f.follower_id)
        (is_shown_follower orm user_id current s) (λ id. has orm (is_follow id user_id) s.follows)
        (λ f h. second_of _ _ h)
        (λ f m h. find_one-is_some orm (is_follow f.follower_id user_id) s.follows (
          count_if-pos_of_mem (is_follow f.follower_id user_id) s.follows m
            (ground (arith, first_of (f.following_id == user_id) _ h)))),
    follows_page-IsListOf orm current s query (λ f. f.following_id)
        (is_shown_followed orm user_id current s) (λ id. has orm (is_follow user_id id) s.follows)
        (λ f h. second_of _ _ h)
        (λ f m h. find_one-is_some orm (is_follow user_id f.following_id) s.follows (
          count_if-pos_of_mem (is_follow user_id f.following_id) s.follows m
            (ground (arith, first_of (f.follower_id == user_id) _ h)))),
  )
    where
      first_of : (a b : Bool) → (a && b) ≡ true → a ≡ true
      first_of a b k = ground arith

      second_of : (a b : Bool) → (a && b) ≡ true → b ≡ true
      second_of a b k = ground arith
