-- ===== src/Forum/Replies.antt =====
-- ForumThreadsService of src/modules/forum/forum-threads.service.ts: the calls on replies.
use rideway_api.Prelude.{
  ℕ, true, false, not, Option, none, some, is_some, String, ◌==◌, ℤ, pos, ◌+ℤ◌, ◌-ℤ◌,
}
use rideway_api.Database.{Orm}
use rideway_api.Action.{
  Action, ◌>>=◌, ◌>>◌, modify, ensure, gets, or_throw, forbidden, not_found, bad_request,
}
use rideway_api.Forum.{
  ForumThread, ThreadReply, ReplyLike, Db, LikeResult, live_reply, is_reply_like, find_one,
}

pub record CreateReplyDto : Type 0 where
  pub content : String
  pub parent_id : Option ℕ

abbrev pub new_reply : (id now thread_id user_id : ℕ) → CreateReplyDto → ThreadReply
new_reply id now thread_id user_id dto = record {
  id = id;
  thread_id = thread_id;
  user_id = user_id;
  parent_id = dto.parent_id;
  content = dto.content;
  likes_count = pos 0;
  is_edited = false;
  created_at = now;
  deleted_at = none;
  is_liked = none;
}

-- `{ repliesCount: () => 'replies_count + 1', lastReplyAt: new Date(), lastReplyUserId: userId }`
abbrev pub answered : (now user_id : ℕ) → ForumThread → ForumThread
answered now user_id t = record t {
  replies_count = t.replies_count +ℤ pos 1;
  last_reply_at = some now;
  last_reply_user_id = some user_id;
}

abbrev pub drop_replies : ForumThread → ForumThread
drop_replies t = record t { replies_count = t.replies_count -ℤ pos 1 }

abbrev pub soft_delete_reply : (now : ℕ) → ThreadReply → ThreadReply
soft_delete_reply now r = record r { deleted_at = some now }

abbrev pub add_reply_likes : ThreadReply → ThreadReply
add_reply_likes r = record r { likes_count = r.likes_count +ℤ pos 1 }

abbrev pub drop_reply_likes : ThreadReply → ThreadReply
drop_reply_likes r = record r { likes_count = r.likes_count -ℤ pos 1 }

abbrev pub reply_likes_count_or_zero : Option ThreadReply → ℤ
reply_likes_count_or_zero none = pos 0
reply_likes_count_or_zero (some r) = r.likes_count

module _ (orm : Orm) where
  abbrev pub reply_flag : Option ℕ → Db → ThreadReply → ThreadReply
  reply_flag none s r = r
  reply_flag (some user_id) s r = record r {
    is_liked = some (is_some (orm.find_one (is_reply_like r.id user_id) s.reply_likes));
  }

  unfoldable pub find_reply : (id : ℕ) → (current_user_id : Option ℕ) → Action Db ThreadReply
  find_reply id current_user_id = do
    found ← gets (λ s. orm.find_one (live_reply id) s.replies)
    reply ← or_throw (not_found "Reply not found") found
    gets (λ s. reply_flag current_user_id s reply)

  unfoldable pub create_reply :
      (new_id now thread_id user_id : ℕ) → CreateReplyDto → Action Db ThreadReply
  create_reply new_id now thread_id user_id dto = do
    thread ← find_one orm thread_id none
    ensure (not thread.is_locked) (bad_request "This thread is locked")
    modify (λ s. record s {
      replies = orm.insert (new_reply new_id now thread_id user_id dto) s.replies;
    })
    modify (λ s. record s {
      threads = orm.update (λ t. t.id == thread_id) (answered now user_id) s.threads;
    })
    find_reply new_id (some user_id)

  unfoldable pub update_reply : (id user_id : ℕ) → (content : String) → Action Db ThreadReply
  update_reply id user_id content = do
    reply ← find_reply id none
    ensure (reply.user_id == user_id) (forbidden "You can only edit your own replies")
    modify (λ s. record s {
      replies =
          orm.update (λ r. r.id == id) (λ r. record r { content = content; is_edited = true })
            s.replies;
    })
    find_reply id (some user_id)

  unfoldable pub delete_reply : (now id user_id : ℕ) → Action Db (Unit {0})
  delete_reply now id user_id = do
    reply ← find_reply id none
    ensure (reply.user_id == user_id) (forbidden "You can only delete your own replies")
    modify
        (λ s. record s { replies = orm.update (λ r. r.id == id) (soft_delete_reply now) s.replies })
    modify (λ s. record s {
      threads = orm.update (λ t. t.id == reply.thread_id) drop_replies s.threads;
    })

  abbrev pub read_reply_likes_count : ℕ → Db → ℤ
  read_reply_likes_count id s = reply_likes_count_or_zero (orm.find_one (live_reply id) s.replies)

  unfoldable pub toggle_reply_like :
      (new_id reply_id user_id : ℕ) → Option ReplyLike → Action Db LikeResult
  toggle_reply_like new_id reply_id user_id (some existing) = do
    modify (λ s. record s { reply_likes = orm.delete (λ l. l.id == existing.id) s.reply_likes })
    modify
        (λ s. record s { replies = orm.update (λ r. r.id == reply_id) drop_reply_likes s.replies })
    gets (λ s. record { is_liked = false; likes_count = read_reply_likes_count reply_id s })
  toggle_reply_like new_id reply_id user_id none = do
    modify (λ s. record s {
      reply_likes =
          orm.insert (record { id = new_id; user_id = user_id; reply_id = reply_id }) s.reply_likes;
    })
    modify
        (λ s. record s { replies = orm.update (λ r. r.id == reply_id) add_reply_likes s.replies })
    gets (λ s. record { is_liked = true; likes_count = read_reply_likes_count reply_id s })

  unfoldable pub like_reply : (new_id reply_id user_id : ℕ) → Action Db LikeResult
  like_reply new_id reply_id user_id = do
    find_reply reply_id none
    existing ← gets (λ s. orm.find_one (is_reply_like reply_id user_id) s.reply_likes)
    toggle_reply_like new_id reply_id user_id existing
