-- ===== src/Comments.antt =====
-- CommentsService of src/modules/social/comments/comments.service.ts: the data and the methods that
-- write. The methods that list comments are in the child `Lists`.
-- An id is the 128-bit number that a uuid writes out; a date is its time in milliseconds. The
-- joined `user` row of a comment is left out. What the database generates for a new row (its id
-- and creation date) is an argument.
pub mod Invariant
pub mod Liking
pub mod Nesting
pub mod Creating
pub mod CreateCall
pub mod Editing
pub mod Deleting
pub mod History
pub mod Lists
mod Tests
use rideway_api.Prelude.{
  ℕ, ◌≡◌, Bool, true, false, not, ◌&&◌, Option, none, some, String, List, ◌==◌, is_id, is_some,
  is_none, ℤ, pos, ◌+ℤ◌, ◌-ℤ◌, is_pos, if◌then◌else◌,
}
use rideway_api.Blocking.{UserBlock}
use rideway_api.Database.{Orm}
use rideway_api.Action.{
  Action, ◌>>=◌, ◌>>◌, modify, ensure, pure, gets, or_throw, not_found, forbidden,
}

pub record Comment : Type 0 where
  pub id : ℕ
  pub user_id : ℕ
  pub post_id : ℕ
  pub parent_id : Option ℕ
  pub content : String
  pub likes_count : ℤ
  pub replies_count : ℤ
  pub is_edited : Bool
  pub created_at : ℕ
  pub deleted_at : Option ℕ
  -- a virtual field, no column
  pub is_liked : Option Bool

pub record CommentLike : Type 0 where
  pub id : ℕ
  pub user_id : ℕ
  pub comment_id : ℕ

-- The columns of a post that this service reads or writes.
pub record Post : Type 0 where
  pub id : ℕ
  pub comments_count : ℤ
  pub deleted_at : Option ℕ

-- The four tables behind the service's repositories.
pub record Db : Type 0 where
  pub comments : List Comment
  pub likes : List CommentLike
  pub posts : List Post
  pub blocks : List UserBlock

pub record CreateCommentDto : Type 0 where
  pub content : String
  pub parent_id : Option ℕ

pub record LikeResult : Type 0 where
  pub is_liked : Bool
  pub likes_count : ℤ

abbrev pub is_live : Comment → Bool
is_live c = is_none c.deleted_at

-- What `save` writes for a new comment: the given columns and the defaults of the others.
abbrev pub new_comment : (id now user_id post_id : ℕ) → Option ℕ → String → Comment
new_comment id now user_id post_id parent_id content = record {
  id = id;
  user_id = user_id;
  post_id = post_id;
  parent_id = parent_id;
  content = content;
  likes_count = pos 0;
  replies_count = pos 0;
  is_edited = false;
  created_at = now;
  deleted_at = none;
  is_liked = none;
}

abbrev pub add_likes : ℤ → Comment → Comment
add_likes n c = record c { likes_count = c.likes_count +ℤ n }

abbrev pub drop_likes : ℤ → Comment → Comment
drop_likes n c = record c { likes_count = c.likes_count -ℤ n }

abbrev pub add_replies : ℤ → Comment → Comment
add_replies n c = record c { replies_count = c.replies_count +ℤ n }

abbrev pub drop_replies : ℤ → Comment → Comment
drop_replies n c = record c { replies_count = c.replies_count -ℤ n }

abbrev pub add_comments : ℤ → Post → Post
add_comments n p = record p { comments_count = p.comments_count +ℤ n }

abbrev pub drop_comments : ℤ → Post → Post
drop_comments n p = record p { comments_count = p.comments_count -ℤ n }

-- The condition `{ commentId, userId }`.
abbrev pub is_like_of : ℕ → ℕ → CommentLike → Bool
is_like_of comment_id user_id l = l.comment_id == comment_id && l.user_id == user_id

-- The comment that a reply hangs under: a reply to a reply goes to the level of that reply.
abbrev pub flatten : ℕ → Comment → Option ℕ
flatten parent_id parent = elim parent.parent_id [
  | none ↦ some parent_id
  | some root_id ↦ some root_id
]

abbrev pub soft_delete : (now : ℕ) → Comment → Comment
soft_delete now c = record c { deleted_at = some now }

-- `updated?.likesCount || 0`
abbrev pub likes_count_or_zero : Option Comment → ℤ
likes_count_or_zero none = pos 0
likes_count_or_zero (some c) = c.likes_count

module _ (orm : Orm) where
  -- `if (currentUserId) comment.isLiked = !!like`
  abbrev pub mark_liked : Option ℕ → List CommentLike → Comment → Comment
  mark_liked none likes c = c
  mark_liked (some user_id) likes c = record c {
    is_liked = some (is_some (orm.find_one (is_like_of c.id user_id) likes));
  }

  unfoldable pub find_one : ℕ → Option ℕ → Action Db Comment
  find_one id current_user_id = do
    found ← gets (λ s. orm.find_one (λ c. c.id == id && is_live c) s.comments)
    comment ← or_throw (not_found "Comment not found") found
    gets (λ s. mark_liked current_user_id s.likes comment)

  unfoldable pub actual_parent : ℕ → Option ℕ → Action Db (Option ℕ)
  actual_parent post_id none = pure none
  actual_parent post_id (some parent_id) = do
    found ←
        gets (λ s.
          orm.find_one (λ c. c.id == parent_id && c.post_id == post_id && is_live c) s.comments)
    parent ← or_throw (not_found "Parent comment not found") found
    pure (flatten parent_id parent)

  -- `if (parentId) increment / decrement ({ id: parentId }, 'repliesCount', 1)`
  abbrev pub on_parent : (Comment → Comment) → Option ℕ → List Comment → List Comment
  on_parent f none comments = comments
  on_parent f (some parent_id) comments = orm.update (λ c. c.id == parent_id) f comments

  unfoldable pub create : (new_id now user_id post_id : ℕ) → CreateCommentDto → Action Db Comment
  create new_id now user_id post_id dto = do
    found ← gets (λ s. orm.find_one (λ p. p.id == post_id && is_none p.deleted_at) s.posts)
    or_throw (not_found "Post not found") found
    parent_id ← actual_parent post_id dto.parent_id
    modify (λ s. record s {
      comments =
          orm.insert (new_comment new_id now user_id post_id parent_id dto.content) s.comments;
    })
    modify (λ s. record s { comments = on_parent (add_replies (pos 1)) parent_id s.comments })
    modify
        (λ s. record s { posts = orm.update (λ p. p.id == post_id) (add_comments (pos 1)) s.posts })
    find_one new_id (some user_id)

  unfoldable pub update : (id user_id : ℕ) → String → Action Db Comment
  update id user_id content = do
    comment ← find_one id none
    ensure (comment.user_id == user_id) (forbidden "You can only edit your own comments")
    modify (λ s. record s {
      comments =
          orm.update (λ c. c.id == id) (λ c. record c { content = content; is_edited = true })
            s.comments;
    })
    find_one id (some user_id)

  unfoldable pub delete : (now id user_id : ℕ) → Action Db (Unit {0})
  delete now id user_id = do
    comment ← find_one id none
    ensure (comment.user_id == user_id) (forbidden "You can only delete your own comments")
    modify (λ s. record s { comments = orm.update (λ c. c.id == id) (soft_delete now) s.comments })
    modify
        (λ s. record s { comments = on_parent (drop_replies (pos 1)) comment.parent_id s.comments })
    modify (λ s. record s {
      posts = orm.update (λ p. p.id == comment.post_id) (drop_comments (pos 1)) s.posts;
    })
    modify (λ s.
        if is_pos comment.replies_count
        then record s {
          posts =
              orm.update (λ p. p.id == comment.post_id) (drop_comments comment.replies_count)
                s.posts;
        }
        else s)

  abbrev pub read_likes_count : ℕ → Db → ℤ
  read_likes_count id s =
      likes_count_or_zero (orm.find_one (λ c. c.id == id && is_live c) s.comments)

  -- The two ways of `like`, behind the test for an existing like.
  unfoldable pub toggle_like :
      (new_id comment_id user_id : ℕ) → Option CommentLike → Action Db LikeResult
  toggle_like new_id comment_id user_id (some existing) = do
    modify (λ s. record s { likes = orm.delete (λ l. l.id == existing.id) s.likes })
    modify (λ s. record s {
      comments = orm.update (λ c. c.id == comment_id) (drop_likes (pos 1)) s.comments;
    })
    gets (λ s. record { is_liked = false; likes_count = read_likes_count comment_id s })
  toggle_like new_id comment_id user_id none = do
    modify (λ s. record s {
      likes =
          orm.insert (record { id = new_id; user_id = user_id; comment_id = comment_id }) s.likes;
    })
    modify (λ s. record s {
      comments = orm.update (λ c. c.id == comment_id) (add_likes (pos 1)) s.comments;
    })
    gets (λ s. record { is_liked = true; likes_count = read_likes_count comment_id s })

  unfoldable pub like : (new_id comment_id user_id : ℕ) → Action Db LikeResult
  like new_id comment_id user_id = do
    find_one comment_id none
    existing ← gets (λ s. orm.find_one (is_like_of comment_id user_id) s.likes)
    toggle_like new_id comment_id user_id existing

  unfoldable pub get_comment_count : ℕ → Db → ℕ
  get_comment_count post_id s = orm.count (λ c. c.post_id == post_id && is_live c) s.comments
