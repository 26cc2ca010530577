-- ===== src/Forum/History.antt =====
-- Any sequence of calls of the thread service, successful or throwing.
use rideway_api.Prelude.{ℕ, ◌≡◌, ◌==◌, String, count_if}
use rideway_api.Database.{Orm}
use rideway_api.Action.{state_of}
use rideway_api.Forum.{ThreadReply, ThreadLike, ThreadSubscription, ReplyLike, Db}
use rideway_api.Forum.Threads.{
  CreateThreadDto, UpdateThreadDto, create, update, delete, like, pin, lock, subscribe,
}
use rideway_api.Forum.Replies.{CreateReplyDto, create_reply, update_reply, delete_reply, like_reply}
use rideway_api.Forum.Invariant.{IsWellFormed, reply_likes_of}
use rideway_api.Forum.Creating.{IsFresh, create-IsWellFormed}
use rideway_api.Forum.Posting.{
  subscribe-IsWellFormed, like-IsWellFormed, update-IsWellFormed, delete-IsWellFormed,
  pin-IsWellFormed, lock-IsWellFormed,
}
use rideway_api.Forum.ReplyCalls.{
  create_reply-IsWellFormed, update_reply-IsWellFormed, delete_reply-IsWellFormed,
  like_reply-IsWellFormed,
}

-- One call of a method that writes. The ids are those that the database generates for new rows.
pub data Step (orm : Orm) (db : Db) : Db → Type 0 where
  created :
      (new_id subscription_id now user_id : ℕ) (dto : CreateThreadDto)
      → IsFresh new_id subscription_id db
      → Step orm db (state_of (create orm new_id subscription_id now user_id dto db))
  updated :
      (id user_id : ℕ) (dto : UpdateThreadDto)
      → Step orm db (state_of (update orm id user_id dto db))
  deleted : (now id user_id : ℕ) → Step orm db (state_of (delete orm now id user_id db))
  pinned : (id : ℕ) → Step orm db (state_of (pin orm id db))
  locked : (id : ℕ) → Step orm db (state_of (lock orm id db))
  liked :
      (new_id thread_id user_id : ℕ)
      → count_if (λ (l : ThreadLike). l.id == new_id) db.likes ≡ 0
      → Step orm db (state_of (like orm new_id thread_id user_id db))
  subscribed :
      (new_id thread_id user_id : ℕ)
      → count_if (λ (l : ThreadSubscription). l.id == new_id) db.subscriptions ≡ 0
      → Step orm db (state_of (subscribe orm new_id thread_id user_id db))
  replied :
      (new_id now thread_id user_id : ℕ) (dto : CreateReplyDto)
      → count_if (λ (r : ThreadReply). r.id == new_id) db.replies ≡ 0
      → reply_likes_of db.reply_likes new_id ≡ 0
      → Step orm db (state_of (create_reply orm new_id now thread_id user_id dto db))
  reply_updated :
      (id user_id : ℕ) (content : String)
      → Step orm db (state_of (update_reply orm id user_id content db))
  reply_deleted : (now id user_id : ℕ) → Step orm db (state_of (delete_reply orm now id user_id db))
  reply_liked :
      (new_id reply_id user_id : ℕ)
      → count_if (λ (l : ReplyLike). l.id == new_id) db.reply_likes ≡ 0
      → Step orm db (state_of (like_reply orm new_id reply_id user_id db))

pub data ForumReach (orm : Orm) (db : Db) : Db → Type 0 where
  here : ForumReach orm db db
  next : {db' db'' : Db} → ForumReach orm db db' → Step orm db' db'' → ForumReach orm db db''

module _ (orm : Orm) where
  Step-IsWellFormed : {db db' : Db} → Step orm db db' → IsWellFormed db → IsWellFormed db'
  Step-IsWellFormed {db} (created new_id subscription_id now user_id dto fresh) wf =
      create-IsWellFormed orm new_id subscription_id now user_id dto db wf fresh
  Step-IsWellFormed {db} (updated id user_id dto) wf = update-IsWellFormed orm db wf id user_id dto
  Step-IsWellFormed {db} (deleted now id user_id) wf = delete-IsWellFormed orm db wf now id user_id
  Step-IsWellFormed {db} (pinned id) wf = pin-IsWellFormed orm db wf id
  Step-IsWellFormed {db} (locked id) wf = lock-IsWellFormed orm db wf id
  Step-IsWellFormed {db} (liked new_id thread_id user_id fresh) wf =
      like-IsWellFormed orm db wf new_id thread_id user_id fresh
  Step-IsWellFormed {db} (subscribed new_id thread_id user_id fresh) wf =
      subscribe-IsWellFormed orm db wf new_id thread_id user_id fresh
  Step-IsWellFormed {db} (replied new_id now thread_id user_id dto fresh unliked) wf =
      create_reply-IsWellFormed orm db wf new_id now thread_id user_id dto fresh unliked
  Step-IsWellFormed {db} (reply_updated id user_id content) wf =
      update_reply-IsWellFormed orm db wf id user_id content
  Step-IsWellFormed {db} (reply_deleted now id user_id) wf =
      delete_reply-IsWellFormed orm db wf now id user_id
  Step-IsWellFormed {db} (reply_liked new_id reply_id user_id fresh) wf =
      like_reply-IsWellFormed orm db wf new_id reply_id user_id fresh

  -- From well-formed forum tables, whatever calls on threads and replies are made, and whether they
  -- succeed or throw, the tables stay well-formed: the counters of likes, replies and threads are
  -- the numbers of rows that they stand for, and a user has at most one like of a thread or reply
  -- and one subscription to a thread.
  pub ForumReach-IsWellFormed :
      {db db' : Db} → ForumReach orm db db' → IsWellFormed db → IsWellFormed db'
  ForumReach-IsWellFormed here wf = wf
  ForumReach-IsWellFormed (next r s) wf = Step-IsWellFormed s (ForumReach-IsWellFormed r wf)
