-- ===== src/Comments/Invariant.antt =====
-- The invariant of the comment tables: ids are unique, each counter of a comment is the number of
-- rows that it stands for, and comments nest two levels deep.
use native.Mathlib.Nat.{ℕ_set}
use rideway_api.Prelude.{
  ℕ, ◌≤◌, ◌≡◌, ◌∙◌, Bool, ◌&&◌, some, List, ◌==◌, is_id, is_none, pos, ℤ_set, count_if,
}
use rideway_api.Database.{Orm, Every, HasUniqueIds}
use rideway_api.Database.Toggles.{IsToggleTable}
use rideway_api.Database.Rows.{count_if-update_same, Every-update}
use rideway_api.Comments.{Comment, CommentLike, Db, is_live}

abbrev pub likes_of : ℕ → List CommentLike → ℕ
likes_of id likes = count_if (λ l. l.comment_id == id) likes

-- The replies that hang directly under a comment and are not deleted.
abbrev pub replies_of : ℕ → List Comment → ℕ
replies_of id comments = count_if (λ c. is_id c.parent_id id && is_live c) comments

abbrev pub LikesCounted : List CommentLike → List Comment → Type 0
LikesCounted likes comments = Every (λ c. c.likes_count ≡ pos (likes_of c.id likes)) comments

abbrev pub RepliesCounted : List Comment → Type 0
RepliesCounted comments = Every (λ c. c.replies_count ≡ pos (replies_of c.id comments)) comments

-- The comment that another one hangs under exists, and hangs under none itself.
abbrev pub HasTwoLevels : List Comment → Type 0
HasTwoLevels comments =
    Every
      (λ c.
        (parent_id : ℕ)
        → c.parent_id ≡ some parent_id
        → count_if (λ r. is_none r.parent_id && r.id == parent_id) comments ≡ 1)
      comments

-- The foreign key of a like.
abbrev pub LikesExist : List CommentLike → List Comment → Type 0
LikesExist likes comments = Every (λ l. 1 ≤ count_if (λ c. c.id == l.comment_id) comments) likes

pub record IsWellFormed (db : Db) : Type 0 where
  pub comment_ids : HasUniqueIds (λ (c : Comment). c.id) db.comments
  pub likes_table :
      IsToggleTable (λ (l : CommentLike). l.id) (λ l. l.comment_id) (λ l. l.user_id) db.likes
  pub likes_exist : LikesExist db.likes db.comments
  pub likes_counted : LikesCounted db.likes db.comments
  pub replies_counted : RepliesCounted db.comments
  pub two_levels : HasTwoLevels db.comments

-- An edit of rows that leaves every comment in its place.
pub record KeepsPlace (f : Comment → Comment) : Type 0 where
  pub id : (c : Comment) → (f c).id ≡ c.id
  pub parent_id : (c : Comment) → (f c).parent_id ≡ c.parent_id

module _ (orm : Orm) (q : Comment → Bool) (f : Comment → Comment) (keeps : KeepsPlace f)
    (comments : List Comment) where
  pub replies_of-update :
      ((c : Comment) → (f c).deleted_at ≡ c.deleted_at)
      → (id : ℕ) → replies_of id (orm.update q f comments) ≡ replies_of id comments
  replies_of-update same id =
      count_if-update_same orm _ q f comments (λ c. rw (keeps.parent_id, same))

  pub RepliesCounted-update :
      ((c : Comment) → (f c).deleted_at ≡ c.deleted_at)
      → ((c : Comment) → (f c).replies_count ≡ c.replies_count)
      → RepliesCounted comments
      → RepliesCounted (orm.update q f comments)
  RepliesCounted-update same same_count =
      Every-update orm q f comments (λ x. ℤ_set _ _)
        (λ x _ e. rw (replies_of-update same, keeps.id, same_count) e)
        (λ x _ e. rw (replies_of-update same) e)

  pub HasTwoLevels-update : HasTwoLevels comments → HasTwoLevels (orm.update q f comments)
  HasTwoLevels-update =
      Every-update orm q f comments (λ x. hlevel ℕ_set)
        (λ x _ e p r. root p ∙ e p (rw (← keeps.parent_id) r)) (λ x _ e p r. root p ∙ e p r)
    where
      root :
          (p : ℕ)
          → count_if (λ r. is_none r.parent_id && r.id == p) (orm.update q f comments)
            ≡ count_if (λ r. is_none r.parent_id && r.id == p) comments
      root p = count_if-update_same orm _ q f comments (λ c. rw (keeps.parent_id, keeps.id))

  pub LikesExist-update :
      (likes : List CommentLike)
      → LikesExist likes comments
      → LikesExist likes (orm.update q f comments)
  LikesExist-update likes h l m =
      rw (count_if-update_same orm (λ c. c.id == l.comment_id) q f comments (λ c. rw keeps.id))
        (h l m)

  pub LikesCounted-update :
      (likes : List CommentLike)
      → ((c : Comment) → (f c).likes_count ≡ c.likes_count)
      → LikesCounted likes comments
      → LikesCounted likes (orm.update q f comments)
  LikesCounted-update likes same =
      Every-update orm q f comments (λ x. ℤ_set _ _) (λ x _ e. rw (same, keeps.id) e) (λ x _ e. e)
