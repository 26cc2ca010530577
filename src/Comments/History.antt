-- ===== src/Comments/History.antt =====
-- Any sequence of calls, successful or throwing, in whatever order they come.
use mathlib.Core.Path.{subst}
use rideway_api.Prelude.{ℕ, ◌≡◌, sym, inl, inr, ◌==◌, count_if, Bool-cases, Option-cases, String}
use rideway_api.Database.{Orm}
use rideway_api.Action.{Outcome, state_of}
use rideway_api.Comments.{CommentLike, Db, CreateCommentDto, create, update, delete, like}
use rideway_api.Comments.Invariant.{IsWellFormed}
use rideway_api.Comments.Nesting.{IsFresh}
use rideway_api.Comments.CreateCall.{create_lem}
use rideway_api.Comments.Editing.{update_lem, update_delete_refused, is_own, is_own-some, found_at}
use rideway_api.Comments.Deleting.{delete-IsWellFormed}
use rideway_api.Comments.Liking.{like_lem, like_refused}

abbrev pub IsFreshLike : ℕ → Db → Type 0
IsFreshLike id db = count_if (λ (l : CommentLike). l.id == id) db.likes ≡ 0

-- One call of a method that writes. The ids are those that the database generates for new rows.
pub data Step (orm : Orm) (db : Db) : Db → Type 0 where
  created :
      (new_id now user_id post_id : ℕ) (dto : CreateCommentDto)
      → IsFresh new_id db
      → Step orm db (state_of (create orm new_id now user_id post_id dto db))
  updated :
      (id user_id : ℕ) (content : String)
      → Step orm db (state_of (update orm id user_id content db))
  deleted : (now id user_id : ℕ) → Step orm db (state_of (delete orm now id user_id db))
  liked :
      (new_id comment_id user_id : ℕ)
      → IsFreshLike new_id db
      → Step orm db (state_of (like orm new_id comment_id user_id db))

pub data Reach (orm : Orm) (db : Db) : Db → Type 0 where
  here : Reach orm db db
  next : {db' db'' : Db} → Reach orm db db' → Step orm db' db'' → Reach orm db db''

-- From the equation of a call to the state that it leaves.
left_by :
    {S A : Type 0} (P : S → Type 0) {o o' : Outcome S A} → o ≡ o' → P (state_of o') → P (state_of o)
left_by P e h = subst (λ o. P (state_of o)) (sym e) h

module _ (orm : Orm) where
  create-IsWellFormed :
      (new_id now user_id post_id : ℕ) (dto : CreateCommentDto) (db : Db)
      → IsFresh new_id db
      → IsWellFormed db
      → IsWellFormed (state_of (create orm new_id now user_id post_id dto db))
  create-IsWellFormed new_id now user_id post_id dto db fresh wf =
      elim (create_lem orm new_id now user_id post_id dto db wf fresh) [
        | inl (_, e) ↦ left_by IsWellFormed e wf
        | inr (inl (_, _, _, _, _, e)) ↦ left_by IsWellFormed e wf
        | inr (inr (_, _, _, db', _, _, e, _, _, wf')) ↦ left_by IsWellFormed e wf'
      ]

  update-IsWellFormed :
      (id user_id : ℕ) (content : String) (db : Db)
      → IsWellFormed db
      → IsWellFormed (state_of (update orm id user_id content db))
  update-IsWellFormed id user_id content db wf =
      elim (Bool-cases (is_own user_id (found_at orm id user_id db))) [
        | inl own ↦
            let (c, found, by) = is_own-some user_id _ own in
            let (_, db', e, _, _, _, wf') = update_lem orm id user_id db content wf found by in
            left_by IsWellFormed e wf'
        | inr other ↦
            left_by IsWellFormed (update_delete_refused orm id user_id db 0 content other).0 wf
      ]

  like-IsWellFormed :
      (new_id comment_id user_id : ℕ) (db : Db)
      → IsFreshLike new_id db
      → IsWellFormed db
      → IsWellFormed (state_of (like orm new_id comment_id user_id db))
  like-IsWellFormed new_id comment_id user_id db fresh wf =
      elim (Option-cases (found_at orm comment_id user_id db)) [
        | inl missing ↦
            left_by IsWellFormed (like_refused orm new_id comment_id user_id db missing) wf
        | inr (c, found) ↦
            let (db', e, _, wf') = like_lem orm new_id comment_id user_id db wf fresh found in
            left_by IsWellFormed e wf'
      ]

  Step-IsWellFormed : {db db' : Db} → Step orm db db' → IsWellFormed db → IsWellFormed db'
  Step-IsWellFormed {db} (created new_id now user_id post_id dto fresh) =
      create-IsWellFormed new_id now user_id post_id dto db fresh
  Step-IsWellFormed {db} (updated id user_id content) = update-IsWellFormed id user_id content db
  Step-IsWellFormed {db} (deleted now id user_id) = delete-IsWellFormed orm now id user_id db
  Step-IsWellFormed {db} (liked new_id comment_id user_id fresh) =
      like-IsWellFormed new_id comment_id user_id db fresh

  -- From well-formed tables, whatever calls are made, and whether they succeed or throw, the tables
  -- stay well-formed: every counter of likes and of replies is right, a user likes a comment at
  -- most once, and no reply hangs under a reply.
  pub Reach-IsWellFormed : {db db' : Db} → Reach orm db db' → IsWellFormed db → IsWellFormed db'
  Reach-IsWellFormed here wf = wf
  Reach-IsWellFormed (next r s) wf = Step-IsWellFormed s (Reach-IsWellFormed r wf)
