-- ===== src/Forum.antt =====
-- The tables of the forum (src/modules/forum/entities) and the parts of the two services that the
-- calls share: ForumThreadsService (src/modules/forum/forum-threads.service.ts) and
-- ForumCategoriesService (src/modules/forum/forum-categories.service.ts).
-- `cached_categories` is the text under the Redis key `forum:categories`. New ids are arguments; a
-- call reads the clock once, as `now`.
pub mod Threads
pub mod Replies
pub mod Invariant
pub mod Posting
pub mod Creating
pub mod Locking
pub mod Toggling
pub mod Calls
pub mod Answering
pub mod ReplyCalls
pub mod History
mod Tests
use rideway_api.Prelude.{
  ℕ, Bool, true, false, ◌&&◌, Option, none, some, is_some, is_none, or_else, String, List, ◌==◌, ℤ,
  pos, ◌+ℤ◌, ◌-ℤ◌,
}
use rideway_api.Database.{Orm}
use rideway_api.Action.{Action, ◌>>=◌, ◌>>◌, modify, pure, gets, or_throw, not_found}

pub record ForumCategory : Type 0 where
  pub id : ℕ
  pub name : String
  pub slug : String
  pub description : Option String
  pub icon : Option String
  pub color : Option String
  pub sort_order : ℤ
  pub threads_count : ℤ

pub record ForumThread : Type 0 where
  pub id : ℕ
  pub user_id : ℕ
  pub category_id : ℕ
  pub title : String
  pub content : String
  pub views_count : ℤ
  pub replies_count : ℤ
  pub likes_count : ℤ
  pub is_pinned : Bool
  pub is_locked : Bool
  pub last_reply_at : Option ℕ
  pub last_reply_user_id : Option ℕ
  pub created_at : ℕ
  pub deleted_at : Option ℕ
  pub is_liked : Option Bool
  pub is_subscribed : Option Bool

pub record ThreadReply : Type 0 where
  pub id : ℕ
  pub thread_id : ℕ
  pub user_id : ℕ
  pub parent_id : Option ℕ
  pub content : String
  pub likes_count : ℤ
  pub is_edited : Bool
  pub created_at : ℕ
  pub deleted_at : Option ℕ
  pub is_liked : Option Bool

pub record ThreadLike : Type 0 where
  pub id : ℕ
  pub user_id : ℕ
  pub thread_id : ℕ

pub record ThreadSubscription : Type 0 where
  pub id : ℕ
  pub user_id : ℕ
  pub thread_id : ℕ

pub record ReplyLike : Type 0 where
  pub id : ℕ
  pub user_id : ℕ
  pub reply_id : ℕ

pub record Db : Type 0 where
  pub categories : List ForumCategory
  pub threads : List ForumThread
  pub replies : List ThreadReply
  pub likes : List ThreadLike
  pub subscriptions : List ThreadSubscription
  pub reply_likes : List ReplyLike
  pub cached_categories : Option String

pub record LikeResult : Type 0 where
  pub is_liked : Bool
  pub likes_count : ℤ

-- The conditions `{ id }` of the entities with a delete date, as reads see them.
abbrev pub live_thread : ℕ → ForumThread → Bool
live_thread id t = t.id == id && is_none t.deleted_at

abbrev pub live_reply : ℕ → ThreadReply → Bool
live_reply id r = r.id == id && is_none r.deleted_at

-- The conditions `{ threadId, userId }` and `{ replyId, userId }`.
abbrev pub is_thread_like : ℕ → ℕ → ThreadLike → Bool
is_thread_like thread_id user_id l = l.thread_id == thread_id && l.user_id == user_id

abbrev pub is_subscription : ℕ → ℕ → ThreadSubscription → Bool
is_subscription thread_id user_id s = s.thread_id == thread_id && s.user_id == user_id

abbrev pub is_reply_like : ℕ → ℕ → ReplyLike → Bool
is_reply_like reply_id user_id l = l.reply_id == reply_id && l.user_id == user_id

abbrev pub add_threads : ForumCategory → ForumCategory
add_threads c = record c { threads_count = c.threads_count +ℤ pos 1 }

abbrev pub drop_threads : ForumCategory → ForumCategory
drop_threads c = record c { threads_count = c.threads_count -ℤ pos 1 }

module _ (orm : Orm) where
  -- `if (currentUserId) { thread.isLiked = !!like; thread.isSubscribed = !!subscription }`
  abbrev pub thread_flags : Option ℕ → Db → ForumThread → ForumThread
  thread_flags none s t = t
  thread_flags (some user_id) s t = record t {
    is_liked = some (is_some (orm.find_one (is_thread_like t.id user_id) s.likes));
    is_subscribed = some (is_some (orm.find_one (is_subscription t.id user_id) s.subscriptions));
  }

  unfoldable pub find_one : (id : ℕ) → (current_user_id : Option ℕ) → Action Db ForumThread
  find_one id current_user_id = do
    found ← gets (λ s. orm.find_one (live_thread id) s.threads)
    thread ← or_throw (not_found "Thread not found") found
    gets (λ s. thread_flags current_user_id s thread)

  -- The category service, as the thread service calls it.
  abbrev pub invalidate_cache : Action Db (Unit {0})
  invalidate_cache = modify (λ s. record s { cached_categories = none })

  unfoldable pub find_category : (id : ℕ) → Action Db ForumCategory
  find_category id = do
    found ← gets (λ s. orm.find_one (λ c. c.id == id) s.categories)
    or_throw (not_found "Category not found") found

  unfoldable pub increment_threads_count : (id : ℕ) → Action Db (Unit {0})
  increment_threads_count id = do
    modify (λ s. record s { categories = orm.update (λ c. c.id == id) add_threads s.categories })
    invalidate_cache

  unfoldable pub decrement_threads_count : (id : ℕ) → Action Db (Unit {0})
  decrement_threads_count id = do
    modify (λ s. record s { categories = orm.update (λ c. c.id == id) drop_threads s.categories })
    invalidate_cache
