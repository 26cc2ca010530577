-- ===== src/Posts/History.antt =====
-- Any sequence of calls on posts, successful or throwing.
use rideway_api.Prelude.{ℕ, Bool, ◌≡◌, String, ◌==◌, count_if}
use rideway_api.Database.{Orm}
use rideway_api.Action.{state_of}
use rideway_api.Posts.{PostLike, Db, like, share}
use rideway_api.Posts.Writing.{
  Texts, NewIds, CreatePostDto, UpdatePostDto, Uploads, create, update, delete,
}
use rideway_api.Posts.Counting.{IsNewPost}
use rideway_api.Posts.Unmoved.{IsInOrder}
use rideway_api.Posts.Calls.{
  lost_after, like-IsInOrder, share-IsInOrder, delete-IsInOrder, create-IsInOrder,
}
use rideway_api.Posts.Editing.{update-IsInOrder}

-- One call. A new post has a new id. `lost` tells how many reposts of each post were created and never
-- counted: those whose files failed to upload.
pub data Step (orm : Orm) (lost : ℕ → ℕ) (db : Db) : (ℕ → ℕ) → Db → Type 0 where
  created :
      (texts : Texts) (ids : NewIds) (now user_id : ℕ) (dto : CreatePostDto) (uploads : Uploads)
      → IsNewPost lost ids.post db.posts db.likes
      → Step orm lost db
          (lost_after dto.original_post_id uploads lost)
          (state_of (create orm texts ids now user_id dto uploads db))
  updated :
      (goes_through : String → Bool) (texts : Texts) (ids : NewIds) (now id user_id : ℕ)
      (dto : UpdatePostDto) (uploads : Uploads)
      → Step orm lost db lost
          (state_of (update orm goes_through texts ids now id user_id dto uploads db))
  deleted : (now id user_id : ℕ) → Step orm lost db lost (state_of (delete orm now id user_id db))
  liked :
      (new_id post_id user_id : ℕ)
      → count_if (λ (l : PostLike). l.id == new_id) db.likes ≡ 0
      → Step orm lost db lost (state_of (like orm new_id post_id user_id db))
  shared :
      (new_id now post_id user_id : ℕ) (content : String)
      → IsNewPost lost new_id db.posts db.likes
      → Step orm lost db lost (state_of (share orm new_id now post_id user_id content db))

pub data PostsReach (orm : Orm) (lost : ℕ → ℕ) (db : Db) : (ℕ → ℕ) → Db → Type 0 where
  here : PostsReach orm lost db lost db
  next :
      {lost' lost'' : ℕ → ℕ} {db' db'' : Db}
      → PostsReach orm lost db lost' db'
      → Step orm lost' db' lost'' db''
      → PostsReach orm lost db lost'' db''

module _ (orm : Orm) where
  Step-IsInOrder :
      {lost : ℕ → ℕ} {db : Db} {lost' : ℕ → ℕ} {db' : Db}
      → Step orm lost db lost' db'
      → IsInOrder lost db
      → IsInOrder lost' db'
  Step-IsInOrder {db} (created texts ids now user_id dto uploads fresh) wf =
      create-IsInOrder orm db wf texts ids now user_id dto fresh uploads
  Step-IsInOrder {db} (updated goes_through texts ids now id user_id dto uploads) wf =
      update-IsInOrder orm db wf goes_through texts ids now id user_id dto uploads
  Step-IsInOrder {db} (deleted now id user_id) wf = delete-IsInOrder orm db wf now id user_id
  Step-IsInOrder {db} (liked new_id post_id user_id fresh) wf =
      like-IsInOrder orm db wf new_id post_id user_id fresh
  Step-IsInOrder {db} (shared new_id now post_id user_id content fresh) wf =
      share-IsInOrder orm db wf new_id now post_id user_id content fresh

  -- From tables of posts and likes that are in order, any sequence of calls that create, edit,
  -- delete, like and share posts, each successful or throwing, leaves such tables again: ids are
  -- unique, a user likes a post at most once, each post counts its likes, and the shares that a post
  -- counts fall short of its reposts that are not deleted by exactly the reposts of it, deleted
  -- since or not, that were created with files whose upload failed. New rows have new ids, which no
  -- row and no such repost names.
  pub PostsReach-IsInOrder :
      {lost : ℕ → ℕ} {db : Db} {lost' : ℕ → ℕ} {db' : Db}
      → PostsReach orm lost db lost' db'
      → IsInOrder lost db
      → IsInOrder lost' db'
  PostsReach-IsInOrder here wf = wf
  PostsReach-IsInOrder (next r s) wf = Step-IsInOrder s (PostsReach-IsInOrder r wf)
