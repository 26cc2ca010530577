-- ===== src/Posts/Feeds.antt =====
-- The lists of PostsService, src/modules/social/posts/posts.service.ts: the feed, by cursor, and the
-- posts of a user, of a hashtag and of the last day, by number. A query with conditions and joins is
-- the test that it makes of a post.
use text.Mathlib.Text.{◌==◌ as text_eq}
use rideway_api.Prelude.{
  ℕ, ◌+◌, Bool, true, false, not, ◌&&◌, ◌||◌, Option, none, some, is_none, or_else, if◌then◌else◌,
  String, List, [], ◌∷◌, map, length, take, ◌==◌, ltb, leb, ℤ, pos, ◌+ℤ◌, leb_ℤ,
}
use rideway_api.Prelude.Sets.{contains}
use rideway_api.Database.{Orm, unordered, has}
use rideway_api.Pagination.{PageMeta, page_meta, page_rows}
use rideway_api.Pagination.Cursors.{pop}
use rideway_api.Blocking.{is_follow, is_user_blocked, blocked_user_ids, blocked_ids_for}
use rideway_api.Posts.{Post, PostLike, Db, live_post, is_for_everyone, is_for_followers}

pub data PostSortBy : Type 0 where
  newest oldest popular trending : PostSortBy

pub record PostQueryDto : Type 0 where
  pub page : Option ℕ
  pub limit : Option ℕ
  pub sort_by : PostSortBy

pub record FeedQueryDto : Type 0 where
  pub limit : Option ℕ
  pub cursor : Option ℕ

pub record FeedResult : Type 0 where
  pub rows : List Post
  pub cursor : Option ℕ
  pub has_more : Bool

pub record PostPage : Type 0 where
  pub rows : List Post
  pub page_info : PageMeta

abbrev pub newest_first : Post → Post → Bool
newest_first a b = leb b.created_at a.created_at

abbrev pub sorted_by : PostSortBy → Post → Post → Bool
sorted_by oldest a b = leb a.created_at b.created_at
sorted_by popular a b = leb_ℤ b.likes_count a.likes_count
sorted_by _ a b = leb b.created_at a.created_at

-- `likes + comments * 2 + shares * 3`, then the newest first
abbrev pub score : Post → ℤ
score p =
    p.likes_count
    +ℤ (p.comments_count +ℤ p.comments_count)
    +ℤ (p.shares_count +ℤ p.shares_count +ℤ p.shares_count)

abbrev pub by_score : Post → Post → Bool
by_score a b =
    if leb_ℤ (score b) (score a) && leb_ℤ (score a) (score b)
    then newest_first a b
    else leb_ℤ (score b) (score a)

abbrev pub last_post : List Post → Option ℕ
last_post [] = none
last_post (p ∷ []) = some p.id
last_post (p ∷ q ∷ rest) = last_post (q ∷ rest)

-- The answer of a list that shows nothing.
abbrev pub empty_page : (page limit : ℕ) → PostPage
empty_page page limit = record {
  rows = [];
  page_info = record {
    page = page;
    limit = limit;
    total = 0;
    total_pages = 0;
    has_next = false;
    has_prev = false;
  };
}

-- Posts of followed users and popular public ones; where nobody is followed, all public ones.
abbrev pub feed_logic : List ℕ → Post → Bool
feed_logic [] p = is_for_everyone p.visibility
feed_logic (i ∷ following) p =
    contains (i ∷ following) p.user_id
    || (is_for_everyone p.visibility && leb_ℤ (pos 5) p.likes_count)

abbrev pub mark : List ℕ → Post → Post
mark liked p = record p { is_liked = some (contains liked p.id) }

module _ (orm : Orm) where
  abbrev pub mark_liked : Option ℕ → Db → List Post → List Post
  mark_liked none s posts = posts
  mark_liked (some user_id) s posts =
      let liked =
        map (λ (l : PostLike). l.post_id)
          (orm.find (λ l. l.user_id == user_id && contains (map (λ p. p.id) posts) l.post_id)
            unordered s.likes) in
      map (mark liked) posts

  -- `post.created_at < :cursorDate`, where the cursor names a live post
  abbrev pub before_cursor : Option ℕ → Db → Post → Bool
  before_cursor none s p = true
  before_cursor (some id) s p = elim (orm.find_one (live_post id) s.posts) [
    | none ↦ true
    | some bound ↦ ltb p.created_at bound.created_at
  ]

  abbrev pub following_ids : (user_id : ℕ) → Db → List ℕ
  following_ids user_id s =
      map (λ f. f.following_id) (orm.find (λ f. f.follower_id == user_id) unordered s.follows)

  abbrev pub is_in_feed : (user_id : ℕ) → Option ℕ → Db → Post → Bool
  is_in_feed user_id cursor s p =
      is_none p.deleted_at
      && not (contains (blocked_user_ids orm user_id s.blocks) p.user_id)
      && feed_logic (following_ids user_id s) p
      && before_cursor cursor s p

  unfoldable pub get_feed : (user_id : ℕ) → FeedQueryDto → Db → FeedResult
  get_feed user_id query s =
      let limit : ℕ = or_else query.limit 20 in
      let found : List Post =
        take (limit + 1) (orm.find (is_in_feed user_id query.cursor s) newest_first s.posts) in
      let has_more : Bool = ltb limit (length found) in
      let posts : List Post = if has_more then pop found else found in
      record {
        rows = mark_liked (some user_id) s posts;
        cursor = last_post posts;
        has_more = has_more;
      }

  -- The page of a query, marked for the reader.
  abbrev pub query_page :
      PostQueryDto → Option ℕ → (Post → Bool) → (Post → Post → Bool) → Db → PostPage
  query_page query current test order s =
      let page : ℕ = or_else query.page 1 in
      let limit : ℕ = or_else query.limit 20 in
      record {
        rows = mark_liked current s (page_rows page limit (orm.find test order s.posts));
        page_info = page_meta page limit (orm.count test s.posts);
      }

  -- What a reader may see of a user's posts. The condition `followerId: undefined` of a reader who
  -- is not logged in is dropped by TypeORM, so that any follower of the user counts.
  abbrev pub visibility_filter : (user_id : ℕ) → Option ℕ → Db → Post → Bool
  visibility_filter user_id none s p =
      is_for_everyone p.visibility
      || (has orm (λ f. f.following_id == user_id) s.follows && is_for_followers p.visibility)
  visibility_filter user_id (some current) s p =
      current == user_id
      || is_for_everyone p.visibility
      || (has orm (is_follow current user_id) s.follows && is_for_followers p.visibility)

  abbrev pub is_user_post : (user_id : ℕ) → Option ℕ → Db → Post → Bool
  is_user_post user_id current s p =
      p.user_id == user_id && is_none p.deleted_at && visibility_filter user_id current s p

  abbrev pub is_blocked_from : (user_id : ℕ) → Option ℕ → Db → Bool
  is_blocked_from user_id none s = false
  is_blocked_from user_id (some current) s = is_user_blocked orm current user_id s.blocks

  unfoldable pub get_user_posts : (user_id : ℕ) → PostQueryDto → Option ℕ → Db → PostPage
  get_user_posts user_id query current s =
      if is_blocked_from user_id current s
      then empty_page (or_else query.page 1) (or_else query.limit 20)
      else query_page query current (is_user_post user_id current s) (sorted_by query.sort_by) s

  abbrev pub is_public_unblocked : Option ℕ → Db → Post → Bool
  is_public_unblocked current s p =
      is_for_everyone p.visibility
      && is_none p.deleted_at
      && not (contains (blocked_ids_for orm current s.blocks) p.user_id)

  abbrev pub is_tagged : (hashtag_id : ℕ) → Db → Post → Bool
  is_tagged hashtag_id s p =
      has orm (λ r. r.hashtag_id == hashtag_id && r.post_id == p.id) s.post_hashtags

  -- `normalized` is the tag in lower case, without a leading sign.
  unfoldable pub get_by_hashtag : (normalized : String) → PostQueryDto → Option ℕ → Db → PostPage
  get_by_hashtag normalized query current s =
      elim (orm.find_one (λ h. text_eq h.name normalized) s.hashtags) [
        | none ↦ empty_page (or_else query.page 1) (or_else query.limit 20)
        | some hashtag ↦
            query_page query current
              (λ p. is_tagged hashtag.id s p && is_public_unblocked current s p) newest_first s
      ]

  -- `since` is the time a day ago.
  unfoldable pub get_trending_posts : (since : ℕ) → PostQueryDto → Option ℕ → Db → PostPage
  get_trending_posts since query current s =
      query_page query current (λ p. leb since p.created_at && is_public_unblocked current s p)
        by_score s
