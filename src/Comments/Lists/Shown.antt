-- ===== src/Comments/Lists/Shown.antt =====
-- What the lists of comments hold: only live comments of the right place, of users who are not
-- blocked, and no more than was asked for.
use native.Mathlib.Bridge.{le_prop}
use rideway_api.Prelude.{
  ℕ, ◌+◌, ◌≤◌, ◌≡◌, refl, ap, ◌∙◌, inl, inr, Bool, true, false, not, ◌&&◌, Option, none, some, List,
  map, is_id, is_none, or_else, ltb, if◌then◌else◌, length, length-take, length-filter, length-map,
  take, count_if, count_if_mono, length-eq-sum_of, arith, Bool-cases, min,
}
use rideway_api.Prelude.Sets.{contains}
use rideway_api.Pagination.Cursors.{pop, mem-pop, more_same, page_of}
use rideway_api.Database.{Orm, Every}
use rideway_api.Database.Rows.{Every-find, Every-take, Every-filter, Every-map, length-find}
use rideway_api.Comments.{Comment, Db, is_live}
use rideway_api.Comments.Lists.{
  CommentQueryDto, CommentWithReplies, oldest, comes_before, blocked_for, mark_with_replies, mark,
  before_cursor, is_shown_root, first_replies, find_by_post,
}

module _ (orm : Orm) (post_id : ℕ) (cursor current_user_id : Option ℕ) (s : Db) where
  -- A reply that may be shown under a comment to this reader.
  pub record IsShownReply (root : ℕ) (r : Comment) : Type 0 where
    pub under : is_id r.parent_id root ≡ true
    pub live : is_live r ≡ true
    pub not_blocked : contains (blocked_for orm current_user_id s) r.user_id ≡ false

  -- A root comment with replies that may be shown to this reader.
  pub record IsShown (row : CommentWithReplies) : Type 0 where
    pub post : row.comment.post_id ≡ post_id
    pub root : is_none row.comment.parent_id ≡ true
    pub live : is_live row.comment ≡ true
    pub not_blocked : contains (blocked_for orm current_user_id s) row.comment.user_id ≡ false
    pub older : before_cursor orm cursor s row.comment ≡ true
    pub few : length row.replies ≤ 3
    pub replies : Every (IsShownReply row.comment.id) row.replies

  IsShownReply-prop : (root : ℕ) (r : Comment) → IsProp (IsShownReply root r)
  IsShownReply-prop root r = hlevel

  IsShown-prop : (row : CommentWithReplies) → IsProp (IsShown row)
  IsShown-prop row = hlevel (le_prop, IsShownReply-prop)

  first_replies-IsShown :
      (c : Comment)
      → is_shown_root orm post_id cursor current_user_id s c ≡ true
      → IsShown (first_replies orm current_user_id s c)
  unfolding first_replies
  first_replies-IsShown c h = record {
    post = ground arith;
    root = ground arith;
    live = ground arith;
    not_blocked = ground arith;
    older = ground arith;
    few = omega (
      arith,
      length-filter allowed (take 3 found),
      count_if_mono allowed (λ _. true) (take 3 found) (λ r. ground arith),
      length-eq-sum_of (take 3 found),
      length-take 3 found,
    );
    replies = λ r m.
        let (fits, free) =
          Every-filter allowed (take 3 found)
            (Every-take 3 found (Every-find orm _ (comes_before oldest) s.comments)) r m in
        record { under = ground arith; live = ground arith; not_blocked = ground arith };
  }
    where
      allowed : Comment → Bool
      allowed r = not (contains (blocked_for orm current_user_id s) r.user_id)

      found : List Comment
      found = orm.find (λ r. is_id r.parent_id c.id && is_live r) (comes_before oldest) s.comments

  mark-IsShown :
      (liked : List ℕ) (row : CommentWithReplies)
      → IsShown row
      → IsShown (record {
        comment = mark orm liked row.comment;
        replies = map (mark orm liked) row.replies;
      })
  mark-IsShown liked row h = record {
    post = h.post;
    root = h.root;
    live = h.live;
    not_blocked = h.not_blocked;
    older = older_mark cursor ∙ h.older;
    few = rw length-map h.few;
    replies =
        Every-map (mark orm liked) row.replies (IsShownReply-prop _)
          (λ r k. record { under = k.under; live = k.live; not_blocked = k.not_blocked }) h.replies;
  }
    where
      older_mark :
          (o : Option ℕ)
          → before_cursor orm o s (mark orm liked row.comment) ≡ before_cursor orm o s row.comment
      older_mark none = refl
      older_mark (some id) = refl

  mark_with_replies-IsShown :
      (user : Option ℕ) (rows : List CommentWithReplies)
      → Every IsShown rows
      → Every IsShown (mark_with_replies orm user rows s)
  mark_with_replies-IsShown none rows h = h
  mark_with_replies-IsShown (some u) rows h = Every-map _ rows IsShown-prop (mark-IsShown _) h

  length-mark_with_replies :
      (user : Option ℕ) (rows : List CommentWithReplies)
      → length (mark_with_replies orm user rows s) ≡ length rows
  length-mark_with_replies none rows = refl
  length-mark_with_replies (some u) rows = length-map _ rows

module _ (orm : Orm) (post_id : ℕ) (query : CommentQueryDto) (current_user_id : Option ℕ)
    (s : Db) where
  -- The comments that the list of a post is made of: its live root comments, not by blocked users,
  -- and older than the cursor.
  abbrev pub shown_count : ℕ
  shown_count = count_if (is_shown_root orm post_id query.cursor current_user_id s) s.comments

  -- `findByPost` answers as many live root comments of the post, older than the cursor and not by
  -- blocked users, as there are and as the limit allows, and says exactly whether there are more
  -- than that. Each row is such a comment, with at most three of its live replies, none of them by
  -- a blocked user. Whatever the order that was asked for, each row is
  -- older than the comment of the cursor.
  pub find_by_post_lem :
      Every
        (IsShown orm post_id query.cursor current_user_id s)
        (find_by_post orm post_id query current_user_id s).rows
      × (length (find_by_post orm post_id query current_user_id s).rows
          ≡ min (or_else query.limit 20) shown_count)
      × ((find_by_post orm post_id query current_user_id s).has_more
          ≡ ltb (or_else query.limit 20) shown_count)
  unfolding find_by_post
  find_by_post_lem = (
    mark_with_replies-IsShown orm post_id query.cursor current_user_id s current_user_id _ (
        Every-map _ page (IsShown-prop orm post_id query.cursor current_user_id s)
          (first_replies-IsShown orm post_id query.cursor current_user_id s) fits),
    length-mark_with_replies orm post_id query.cursor current_user_id s current_user_id _
        ∙ length-map _ page
        ∙ page_of limit found (omega (arith, found_length))
        ∙ omega (arith, found_length),
    more_same limit (length found) shown_count found_length,
  )
    where
      limit : ℕ
      limit = or_else query.limit 20

      found : List Comment
      found = take (limit + 1) (
          orm.find (is_shown_root orm post_id query.cursor current_user_id s)
            (comes_before query.sort_by) s.comments)

      page : List Comment
      page = if ltb limit (length found) then pop found else found

      found_length : length found ≡ min (limit + 1) shown_count
      found_length =
          length-take _ _
          ∙ ap (min (limit + 1)) (length-find orm _ (comes_before query.sort_by) s.comments)

      all : Every (λ c. is_shown_root orm post_id query.cursor current_user_id s c ≡ true) found
      all = Every-take _ _ (Every-find orm _ (comes_before query.sort_by) s.comments)

      fits : Every (λ c. is_shown_root orm post_id query.cursor current_user_id s c ≡ true) page
      fits c m = elim (Bool-cases (ltb limit (length found))) [
        | inl t ↦ all c (mem-pop found (rw t at m))
        | inr f ↦ all c (rw f at m)
      ]
