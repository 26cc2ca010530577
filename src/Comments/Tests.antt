-- ===== src/Comments/Tests.antt =====
-- The comment tables on a small example: a root comment, a reply to it, and a like.
use mathlib.Core.List.{not-mem-nil}
use mathlib.Core.HLevel.{Π_prop}
use rideway_api.Prelude.{
  ℕ, ◌+◌, ◌≡◌, ◌⊎◌, refl, true, not, ◌&&◌, is_none, length, min, ltb, Option, none, some, [], ◌∷◌,
  ◌+ℤ◌, ◌-ℤ◌, ℤ_set, pos, arith, ◌==◌,
}
use rideway_api.Database.{Every}
use rideway_api.Database.InMemory.{in_memory, Every-cons, Every-nil}
use rideway_api.Action.{Outcome, done, raised, state_of, not_found, forbidden}
use rideway_api.Comments.{
  Comment, Post, Db, CreateCommentDto, create, update, delete, like, find_one, actual_parent,
  toggle_like, get_comment_count,
}
use rideway_api.Comments.Invariant.{IsWellFormed, likes_of}
use rideway_api.Comments.Nesting.{HasRoot}
use rideway_api.Comments.CreateCall.{answered, HangsUnder, IsCreated, create_lem}
use rideway_api.Comments.Editing.{update_lem, update_delete_refused}
use rideway_api.Comments.Deleting.{PostCount, delete_lem}
use rideway_api.Comments.Liking.{has_like, like_lem}
use rideway_api.Comments.Lists.{CommentQueryDto, newest, find_by_post}
use rideway_api.Comments.Lists.Shown.{IsShown, shown_count, find_by_post_lem}
use rideway_api.Comments.History.{here, next, created, Reach-IsWellFormed}

service : Unit {0}
unfolding create update delete like find_one actual_parent toggle_like get_comment_count ◌+ℤ◌ ◌-ℤ◌
service = tt

-- One post, no comment.
abbrev start : Db
start = record {
  comments = [];
  likes = [];
  posts = record { id = 50; comments_count = pos 0; deleted_at = none } ∷ [];
  blocks = [];
}

start-IsWellFormed : IsWellFormed start
start-IsWellFormed = record {
  comment_ids = λ i. omega arith;
  likes_table = record { ids = λ i. omega arith; once = λ t u. omega arith };
  likes_exist = λ l m. absurd (not-mem-nil m);
  likes_counted = λ c m. absurd (not-mem-nil m);
  replies_counted = λ c m. absurd (not-mem-nil m);
  two_levels = λ c m. absurd (not-mem-nil m);
}

abbrev first_dto : CreateCommentDto
first_dto = record { content = "first"; parent_id = none }

abbrev one_comment : Db
one_comment = state_of (create in_memory 1 1000 7 50 first_dto start)

abbrev reply_dto : CreateCommentDto
reply_dto = record { content = "reply"; parent_id = some 1 }

abbrev two_comments : Db
two_comments = state_of (create in_memory 2 1001 8 50 reply_dto one_comment)

-- A reply to the reply hangs under the root.
abbrev deep_dto : CreateCommentDto
deep_dto = record { content = "deep"; parent_id = some 2 }

abbrev parent_of : Outcome Db Comment → Option ℕ
parent_of (done c s) = c.parent_id
parent_of (raised e s) = none

flattened : parent_of (create in_memory 3 1002 7 50 deep_dto two_comments) ≡ some 1
unfolding service
flattened = refl

one_comment-IsWellFormed : IsWellFormed one_comment
one_comment-IsWellFormed =
    Reach-IsWellFormed in_memory (next here (created 1 1000 7 50 first_dto (omega arith)))
      start-IsWellFormed

two_comments-IsWellFormed : IsWellFormed two_comments
unfolding service
two_comments-IsWellFormed =
    Reach-IsWellFormed in_memory (next here (created 2 1001 8 50 reply_dto (omega arith)))
      one_comment-IsWellFormed

Reach-IsWellFormed_example : IsWellFormed two_comments
unfolding service
Reach-IsWellFormed_example =
    Reach-IsWellFormed in_memory
      (next (next here (created 1 1000 7 50 first_dto (omega arith)))
        (created 2 1001 8 50 reply_dto (omega arith)))
      start-IsWellFormed

create_lem_example :
    ((in_memory.find_one (λ (p : Post). p.id == 50 && is_none p.deleted_at) one_comment.posts
        ≡ none)
      × (create in_memory 2 1001 8 50 reply_dto one_comment
          ≡ raised (not_found "Post not found") one_comment))
    ⊎ (((post : Post) × (parent : ℕ) × (in_memory.find_one
              (λ (p : Post). p.id == 50 && is_none p.deleted_at)
              one_comment.posts
            ≡ some post)
          × (reply_dto.parent_id ≡ some parent)
          × (answered in_memory 50 one_comment parent ≡ none)
          × (create in_memory 2 1001 8 50 reply_dto one_comment
              ≡ raised (not_found "Parent comment not found") one_comment))
        ⊎ ((post : Post) × (parent_id : Option ℕ) × (comment : Comment) × (db' : Db)
            × (in_memory.find_one
                  (λ (p : Post). p.id == 50 && is_none p.deleted_at)
                  one_comment.posts
                ≡ some post)
            × HangsUnder in_memory 50 one_comment (some 1) parent_id
            × (create in_memory 2 1001 8 50 reply_dto one_comment ≡ done comment db')
            × IsCreated 2 8 50 parent_id comment
            × HasRoot parent_id one_comment.comments
            × IsWellFormed db'))
unfolding service
create_lem_example =
    create_lem in_memory 2 1001 8 50 reply_dto one_comment one_comment-IsWellFormed (omega arith)

like_lem_example :
    (db' : Db) × (like in_memory 9 1 8 two_comments
      ≡ done
          (record {
            is_liked = has_like in_memory 1 8 db'.likes;
            likes_count = pos (likes_of 1 db'.likes);
          })
          db')
    × (has_like in_memory 1 8 db'.likes ≡ not (has_like in_memory 1 8 two_comments.likes))
    × IsWellFormed db'
unfolding service
like_lem_example =
    like_lem in_memory 9 1 8 two_comments two_comments-IsWellFormed (omega arith) refl

update_lem_example :
    (comment : Comment) × (db' : Db) × (update in_memory 2 8 "edited" two_comments
      ≡ done comment db')
    × (comment.id ≡ 2)
    × (comment.content ≡ "edited")
    × (comment.is_edited ≡ true)
    × IsWellFormed db'
unfolding service
update_lem_example =
    update_lem in_memory 2 8 two_comments "edited" two_comments-IsWellFormed refl refl

delete_lem_example :
    (db' : Db) × (delete in_memory 2000 1 7 two_comments ≡ done tt db')
    × IsWellFormed db'
    × (get_comment_count in_memory 50 db' + 1 ≡ get_comment_count in_memory 50 two_comments)
    × PostCount 50 (pos 0) db'.posts
unfolding service
delete_lem_example =
    delete_lem in_memory 2000 1 7 two_comments two_comments-IsWellFormed refl (pos 2) refl
      (Every-cons (λ p. Π_prop (λ _. ℤ_set _ _)) (λ _. refl) (Every-nil _))

update_delete_refused_example :
    (update in_memory 1 8 "x" two_comments
      ≡ raised (forbidden "You can only edit your own comments") two_comments)
    × (delete in_memory 2000 1 8 two_comments
        ≡ raised (forbidden "You can only delete your own comments") two_comments)
unfolding service
update_delete_refused_example = update_delete_refused in_memory 1 8 two_comments 2000 "x" refl

abbrev by_date : CommentQueryDto
by_date = record { page = none; limit = some 1; sort_by = newest; cursor = none }

find_by_post_lem_example :
    Every
      (IsShown in_memory 50 none (some 8) two_comments)
      (find_by_post in_memory 50 by_date (some 8) two_comments).rows
    × (length (find_by_post in_memory 50 by_date (some 8) two_comments).rows
        ≡ min 1 (shown_count in_memory 50 by_date (some 8) two_comments))
    × ((find_by_post in_memory 50 by_date (some 8) two_comments).has_more
        ≡ ltb 1 (shown_count in_memory 50 by_date (some 8) two_comments))
find_by_post_lem_example = find_by_post_lem in_memory 50 by_date (some 8) two_comments
