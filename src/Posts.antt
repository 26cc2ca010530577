-- ===== src/Posts.antt =====
-- PostsService of src/modules/social/posts/posts.service.ts: the tables, who may read a post, likes
-- and shares. Of the joined rows that an answer carries none is kept. The Redis keys of feeds that
-- are deleted, and the images whose deletion is asked of MediaService, are logs.
pub mod Writing
pub mod Feeds
pub mod Reading
pub mod Shown
pub mod Invariant
pub mod Counting
pub mod Unmoved
pub mod Calls
pub mod Editing
pub mod History
mod Tests
use rideway_api.Prelude.{
  ℕ, Bool, true, false, not, ◌&&◌, Option, none, some, is_some, is_none, is_id, String, List, ◌==◌,
  ℤ, pos, ◌+ℤ◌, ◌-ℤ◌,
}
use rideway_api.Database.{Orm, has}
use rideway_api.Blocking.{UserFollow, UserBlock, is_follow}
use rideway_api.Action.{
  Action, ◌>>=◌, ◌>>◌, modify, ensure, pure, gets, or_throw, not_found, forbidden,
}

pub data PostVisibility : Type 0 where
  everyone followers private_post : PostVisibility

pub record Post : Type 0 where
  pub id : ℕ
  pub user_id : ℕ
  pub content : String
  pub visibility : PostVisibility
  pub likes_count : ℤ
  pub comments_count : ℤ
  pub shares_count : ℤ
  pub is_edited : Bool
  pub original_post_id : Option ℕ
  pub created_at : ℕ
  pub deleted_at : Option ℕ
  pub is_liked : Option Bool
  pub is_reposted : Option Bool

pub record PostLike : Type 0 where
  pub id : ℕ
  pub post_id : ℕ
  pub user_id : ℕ

pub record PostImage : Type 0 where
  pub id : ℕ
  pub post_id : ℕ
  pub url : String
  pub sort_order : ℕ

pub record Hashtag : Type 0 where
  pub id : ℕ
  pub name : String
  pub posts_count : ℤ

pub record PostHashtag : Type 0 where
  pub post_id : ℕ
  pub hashtag_id : ℕ
  pub created_at : ℕ

pub record PostMention : Type 0 where
  pub post_id : ℕ
  pub mentioned_user_id : ℕ

pub record Profile : Type 0 where
  pub user_id : ℕ
  pub username : String

pub record Db : Type 0 where
  pub posts : List Post
  pub likes : List PostLike
  pub images : List PostImage
  pub hashtags : List Hashtag
  pub post_hashtags : List PostHashtag
  pub mentions : List PostMention
  pub follows : List UserFollow
  pub blocks : List UserBlock
  pub profiles : List Profile
  pub deleted_images : List String
  pub dropped_feeds : List ℕ

pub record LikeResult : Type 0 where
  pub is_liked : Bool
  pub likes_count : ℤ

abbrev pub is_private : PostVisibility → Bool
is_private private_post = true
is_private _ = false

abbrev pub is_for_followers : PostVisibility → Bool
is_for_followers followers = true
is_for_followers _ = false

abbrev pub is_for_everyone : PostVisibility → Bool
is_for_everyone everyone = true
is_for_everyone _ = false

abbrev pub live_post : ℕ → Post → Bool
live_post id p = p.id == id && is_none p.deleted_at

-- `{ postId, userId }`
abbrev pub is_like_by : (post_id user_id : ℕ) → PostLike → Bool
is_like_by post_id user_id l = l.post_id == post_id && l.user_id == user_id

abbrev pub new_post :
    (id now user_id : ℕ) → String → PostVisibility → (original_post_id : Option ℕ) → Post
new_post id now user_id content visibility original_post_id = record {
  id = id;
  user_id = user_id;
  content = content;
  visibility = visibility;
  likes_count = pos 0;
  comments_count = pos 0;
  shares_count = pos 0;
  is_edited = false;
  original_post_id = original_post_id;
  created_at = now;
  deleted_at = none;
  is_liked = none;
  is_reposted = none;
}

abbrev pub more_shares : Post → Post
more_shares p = record p { shares_count = p.shares_count +ℤ pos 1 }

abbrev pub more_likes : Post → Post
more_likes p = record p { likes_count = p.likes_count +ℤ pos 1 }

abbrev pub fewer_likes : Post → Post
fewer_likes p = record p { likes_count = p.likes_count -ℤ pos 1 }

-- `updated?.likesCount || 0`
abbrev pub likes_or_zero : Option Post → ℤ
likes_or_zero none = pos 0
likes_or_zero (some p) = p.likes_count

-- `post.visibility === PRIVATE && post.userId !== currentUserId`
abbrev pub is_hidden_private : Option ℕ → Post → Bool
is_hidden_private current p = is_private p.visibility && not (is_id current p.user_id)

module _ (orm : Orm) where
  abbrev pub follows_author : Option ℕ → Post → List UserFollow → Bool
  follows_author none p follows = false
  follows_author (some current) p follows = has orm (is_follow current p.user_id) follows

  -- `post.visibility === FOLLOWERS && currentUserId`, and the reader neither follows nor is the
  -- author
  abbrev pub is_hidden_from_others : Option ℕ → Post → List UserFollow → Bool
  is_hidden_from_others current p follows =
      is_for_followers p.visibility
      && is_some current
      && not (follows_author current p follows)
      && not (is_id current p.user_id)

  abbrev pub marked : Option ℕ → Db → Post → Post
  marked none s p = p
  marked (some current) s p = record p {
    is_liked = some (has orm (is_like_by p.id current) s.likes);
    is_reposted = some (
        has orm (λ r. r.user_id == current && is_id r.original_post_id p.id && is_none r.deleted_at)
          s.posts);
  }

  unfoldable pub find_one : (id : ℕ) → (current_user_id : Option ℕ) → Action Db Post
  find_one id current_user_id = do
    found ← gets (λ s. orm.find_one (live_post id) s.posts)
    post ← or_throw (not_found "Post not found") found
    ensure (not (is_hidden_private current_user_id post)) (forbidden "This post is private")
    hidden ← gets (λ s. is_hidden_from_others current_user_id post s.follows)
    ensure (not hidden) (forbidden "This post is for followers only")
    gets (λ s. marked current_user_id s post)

  abbrev pub read_likes : ℕ → Db → ℤ
  read_likes id s = likes_or_zero (orm.find_one (live_post id) s.posts)

  -- The two ways of `like`, behind the test for an existing like.
  unfoldable pub toggle_like : (new_id post_id user_id : ℕ) → Option PostLike → Action Db LikeResult
  toggle_like new_id post_id user_id (some existing) = do
    modify (λ s. record s { likes = orm.delete (λ l. l.id == existing.id) s.likes })
    modify (λ s. record s { posts = orm.update (λ p. p.id == post_id) fewer_likes s.posts })
    gets (λ s. record { is_liked = false; likes_count = read_likes post_id s })
  toggle_like new_id post_id user_id none = do
    modify (λ s. record s {
      likes = orm.insert (record { id = new_id; post_id = post_id; user_id = user_id }) s.likes;
    })
    modify (λ s. record s { posts = orm.update (λ p. p.id == post_id) more_likes s.posts })
    gets (λ s. record { is_liked = true; likes_count = read_likes post_id s })

  unfoldable pub like : (new_id post_id user_id : ℕ) → Action Db LikeResult
  like new_id post_id user_id = do
    find_one post_id (some user_id)
    existing ← gets (λ s. orm.find_one (is_like_by post_id user_id) s.likes)
    toggle_like new_id post_id user_id existing

  -- `content` is the text, or the empty one.
  unfoldable pub share : (new_id now post_id user_id : ℕ) → (content : String) → Action Db Post
  share new_id now post_id user_id content = do
    find_one post_id (some user_id)
    modify (λ s. record s {
      posts = orm.insert (new_post new_id now user_id content everyone (some post_id)) s.posts;
    })
    modify (λ s. record s { posts = orm.update (λ p. p.id == post_id) more_shares s.posts })
    find_one new_id (some user_id)
