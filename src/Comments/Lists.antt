-- ===== src/Comments/Lists.antt =====
-- The methods of CommentsService that list comments, src/modules/social/comments/comments.service.ts:
-- `findByPost`, page by cursor, and `findReplies`, page by number, both without the comments of
-- users whom the reader blocks or who block the reader.
pub mod Shown
use rideway_api.Prelude.{
  ℕ, suc, ◌+◌, Bool, true, false, not, ◌&&◌, ◌||◌, Option, none, some, List, [], ◌∷◌, ◌++◌, map,
  ◌==◌, is_id, is_none, or_else, ℤ, leb_ℤ, leb, ltb, if◌then◌else◌, length, take, any, filter,
}
use rideway_api.Database.{Orm}
use rideway_api.Pagination.{PageMeta, page_meta, page_rows}
use rideway_api.Action.{Action, ◌>>=◌, ◌>>◌, gets, or_throw, not_found}
use rideway_api.Prelude.Sets.{contains}
use rideway_api.Database.{unordered}
use rideway_api.Pagination.Cursors.{pop}
use rideway_api.Blocking.{blocked_user_ids}
use rideway_api.Comments.{Comment, CommentLike, Db, is_live}

pub data CommentSortBy : Type 0 where
  newest oldest popular : CommentSortBy

pub record CommentQueryDto : Type 0 where
  pub page : Option ℕ
  pub limit : Option ℕ
  pub sort_by : CommentSortBy
  pub cursor : Option ℕ

pub record CommentWithReplies : Type 0 where
  pub comment : Comment
  pub replies : List Comment

pub record CursorPage : Type 0 where
  pub rows : List CommentWithReplies
  pub next_cursor : Option ℕ
  pub has_more : Bool

pub record NumberedPage : Type 0 where
  pub rows : List Comment
  pub page_info : PageMeta

-- `queryBuilder.orderBy(…)`: whether a row may stand before another one.
abbrev pub comes_before : CommentSortBy → Comment → Comment → Bool
comes_before newest a b = leb b.created_at a.created_at
comes_before oldest a b = leb a.created_at b.created_at
comes_before popular a b = leb_ℤ b.likes_count a.likes_count

abbrev pub last_id : List CommentWithReplies → Option ℕ
last_id [] = none
last_id (c ∷ []) = some c.comment.id
last_id (c ∷ d ∷ rest) = last_id (d ∷ rest)

abbrev pub all_ids : List CommentWithReplies → List ℕ
all_ids [] = []
all_ids (c ∷ rest) = c.comment.id ∷ map (λ r. r.id) c.replies ++ all_ids rest

module _ (orm : Orm) where
  -- `currentUserId ? await this.getBlockedUserIds(currentUserId) : []`
  abbrev pub blocked_for : Option ℕ → Db → List ℕ
  blocked_for none s = []
  blocked_for (some user_id) s = blocked_user_ids orm user_id s.blocks

  -- The ids among `ids` that the user likes.
  abbrev pub liked_ids : ℕ → List ℕ → Db → List ℕ
  liked_ids user_id ids s =
      map (λ l. l.comment_id)
        (orm.find (λ l. l.user_id == user_id && contains ids l.comment_id) unordered s.likes)

  abbrev pub mark : List ℕ → Comment → Comment
  mark liked c = record c { is_liked = some (contains liked c.id) }

  abbrev pub mark_rows : Option ℕ → List Comment → Db → List Comment
  mark_rows none rows s = rows
  mark_rows (some user_id) rows s = map (mark (liked_ids user_id (map (λ c. c.id) rows) s)) rows

  abbrev pub mark_with_replies : Option ℕ → List CommentWithReplies → Db → List CommentWithReplies
  mark_with_replies none rows s = rows
  mark_with_replies (some user_id) rows s =
      let liked = liked_ids user_id (all_ids rows) s in
      map (λ c. record { comment = mark liked c.comment; replies = map (mark liked) c.replies })
        rows

  -- `comment.created_at < cursor`; a cursor that names no live comment sets no bound.
  abbrev pub before_cursor : Option ℕ → Db → Comment → Bool
  before_cursor none s c = true
  before_cursor (some id) s c = elim (orm.find_one (λ k. k.id == id && is_live k) s.comments) [
    | none ↦ true
    | some bound ↦ ltb c.created_at bound.created_at
  ]

  abbrev pub is_shown_root : (post_id : ℕ) → Option ℕ → Option ℕ → Db → Comment → Bool
  is_shown_root post_id cursor current_user_id s c =
      c.post_id == post_id
      && is_none c.parent_id
      && is_live c
      && not (contains (blocked_for current_user_id s) c.user_id)
      && before_cursor cursor s c

  -- The first three replies, and of those the ones that are not blocked.
  unfoldable pub first_replies : Option ℕ → Db → Comment → CommentWithReplies
  first_replies current_user_id s c = record {
    comment = c;
    replies =
        filter (λ r. not (contains (blocked_for current_user_id s) r.user_id))
          (take 3
            (orm.find (λ r. is_id r.parent_id c.id && is_live r) (comes_before oldest) s.comments));
  }

  unfoldable pub find_by_post : (post_id : ℕ) → CommentQueryDto → Option ℕ → Db → CursorPage
  find_by_post post_id query current_user_id s =
      let limit = or_else query.limit 20 in
      let found = take (limit + 1) (
        orm.find (is_shown_root post_id query.cursor current_user_id s) (comes_before query.sort_by)
          s.comments) in
      let has_more = ltb limit (length found) in
      let comments = if has_more then pop found else found in
      let rows =
        mark_with_replies current_user_id (map (first_replies current_user_id s) comments) s in
      record { rows = rows; next_cursor = last_id rows; has_more = has_more }

  abbrev pub is_shown_reply : (comment_id : ℕ) → Option ℕ → Db → Comment → Bool
  is_shown_reply comment_id current_user_id s c =
      is_id c.parent_id comment_id
      && is_live c
      && not (contains (blocked_for current_user_id s) c.user_id)

  -- `getManyAndCount` answers the rows of one page and the number of all rows that fit.
  unfoldable pub find_replies :
      (comment_id : ℕ) → CommentQueryDto → Option ℕ → Action Db NumberedPage
  find_replies comment_id query current_user_id = do
    found ← gets (λ s. orm.find_one (λ c. c.id == comment_id && is_live c) s.comments)
    or_throw (not_found "Comment not found") found
    gets (λ s.
        let page = or_else query.page 1 in
        let limit = or_else query.limit 20 in
        let shown = is_shown_reply comment_id current_user_id s in
        record {
          rows =
              mark_rows current_user_id
                (page_rows page limit (orm.find shown (comes_before query.sort_by) s.comments)) s;
          page_info = page_meta page limit (orm.count shown s.comments);
        })
