-- ===== src/Forum/Threads.antt =====
-- ForumThreadsService of src/modules/forum/forum-threads.service.ts: the calls on threads. The
-- views, which are counted in Redis and added to the threads by a timer, are left out.
use rideway_api.Prelude.{
  ℕ, Bool, true, false, not, Option, none, some, or_else, String, List, map, ◌==◌, ℤ, pos, ◌+ℤ◌,
  ◌-ℤ◌,
}
use rideway_api.Database.{Orm}
use rideway_api.Action.{Action, ◌>>=◌, ◌>>◌, modify, ensure, pure, gets, forbidden}
use rideway_api.Forum.{
  ForumThread, ThreadLike, ThreadSubscription, Db, LikeResult, live_thread, is_thread_like,
  is_subscription, find_one, find_category, increment_threads_count, decrement_threads_count,
}

pub record CreateThreadDto : Type 0 where
  pub category_id : ℕ
  pub title : String
  pub content : String

pub record UpdateThreadDto : Type 0 where
  pub title : Option String
  pub content : Option String

-- What `save` writes for a new thread: the given columns and the defaults of the others.
abbrev pub new_thread : (id now user_id : ℕ) → CreateThreadDto → ForumThread
new_thread id now user_id dto = record {
  id = id;
  user_id = user_id;
  category_id = dto.category_id;
  title = dto.title;
  content = dto.content;
  views_count = pos 0;
  replies_count = pos 0;
  likes_count = pos 0;
  is_pinned = false;
  is_locked = false;
  last_reply_at = none;
  last_reply_user_id = none;
  created_at = now;
  deleted_at = none;
  is_liked = none;
  is_subscribed = none;
}

-- `update(id, dto)`: an undefined property leaves its column.
abbrev pub edit_thread : UpdateThreadDto → ForumThread → ForumThread
edit_thread dto t = record t {
  title = or_else dto.title t.title;
  content = or_else dto.content t.content;
}

abbrev pub soft_delete : (now : ℕ) → ForumThread → ForumThread
soft_delete now t = record t { deleted_at = some now }

abbrev pub add_likes : ForumThread → ForumThread
add_likes t = record t { likes_count = t.likes_count +ℤ pos 1 }

abbrev pub drop_likes : ForumThread → ForumThread
drop_likes t = record t { likes_count = t.likes_count -ℤ pos 1 }

-- `updated?.likesCount || 0`
abbrev pub likes_count_or_zero : Option ForumThread → ℤ
likes_count_or_zero none = pos 0
likes_count_or_zero (some t) = t.likes_count

module _ (orm : Orm) where
  -- The two ways of `subscribe`, behind the test for an existing subscription.
  unfoldable pub toggle_subscription :
      (new_id thread_id user_id : ℕ) → Option ThreadSubscription → Action Db Bool
  toggle_subscription new_id thread_id user_id (some existing) = do
    modify (λ s. record s { subscriptions = orm.delete (λ x. x.id == existing.id) s.subscriptions })
    pure false
  toggle_subscription new_id thread_id user_id none = do
    modify (λ s. record s {
      subscriptions =
          orm.insert (record { id = new_id; user_id = user_id; thread_id = thread_id })
            s.subscriptions;
    })
    pure true

  unfoldable pub subscribe : (new_id thread_id user_id : ℕ) → Action Db Bool
  subscribe new_id thread_id user_id = do
    find_one orm thread_id none
    existing ← gets (λ s. orm.find_one (is_subscription thread_id user_id) s.subscriptions)
    toggle_subscription new_id thread_id user_id existing

  unfoldable pub create :
      (new_id subscription_id now user_id : ℕ) → CreateThreadDto → Action Db ForumThread
  create new_id subscription_id now user_id dto = do
    find_category orm dto.category_id
    modify (λ s. record s { threads = orm.insert (new_thread new_id now user_id dto) s.threads })
    increment_threads_count orm dto.category_id
    subscribe subscription_id new_id user_id
    find_one orm new_id (some user_id)

  unfoldable pub update : (id user_id : ℕ) → UpdateThreadDto → Action Db ForumThread
  update id user_id dto = do
    thread ← find_one orm id none
    ensure (thread.user_id == user_id) (forbidden "You can only edit your own threads")
    modify (λ s. record s { threads = orm.update (λ t. t.id == id) (edit_thread dto) s.threads })
    find_one orm id (some user_id)

  unfoldable pub delete : (now id user_id : ℕ) → Action Db (Unit {0})
  delete now id user_id = do
    thread ← find_one orm id none
    ensure (thread.user_id == user_id) (forbidden "You can only delete your own threads")
    modify (λ s. record s { threads = orm.update (λ t. t.id == id) (soft_delete now) s.threads })
    decrement_threads_count orm thread.category_id

  abbrev pub read_likes_count : ℕ → Db → ℤ
  read_likes_count id s = likes_count_or_zero (orm.find_one (live_thread id) s.threads)

  -- The two ways of `like`, behind the test for an existing like.
  unfoldable pub toggle_like :
      (new_id thread_id user_id : ℕ) → Option ThreadLike → Action Db LikeResult
  toggle_like new_id thread_id user_id (some existing) = do
    modify (λ s. record s { likes = orm.delete (λ l. l.id == existing.id) s.likes })
    modify (λ s. record s { threads = orm.update (λ t. t.id == thread_id) drop_likes s.threads })
    gets (λ s. record { is_liked = false; likes_count = read_likes_count thread_id s })
  toggle_like new_id thread_id user_id none = do
    modify (λ s. record s {
      likes = orm.insert (record { id = new_id; user_id = user_id; thread_id = thread_id }) s.likes;
    })
    modify (λ s. record s { threads = orm.update (λ t. t.id == thread_id) add_likes s.threads })
    gets (λ s. record { is_liked = true; likes_count = read_likes_count thread_id s })

  unfoldable pub like : (new_id thread_id user_id : ℕ) → Action Db LikeResult
  like new_id thread_id user_id = do
    find_one orm thread_id none
    existing ← gets (λ s. orm.find_one (is_thread_like thread_id user_id) s.likes)
    toggle_like new_id thread_id user_id existing

  unfoldable pub pin : (id : ℕ) → Action Db ForumThread
  pin id = do
    thread ← find_one orm id none
    modify (λ s. record s {
      threads =
          orm.update (λ t. t.id == id) (λ t. record t { is_pinned = not thread.is_pinned })
            s.threads;
    })
    find_one orm id none

  unfoldable pub lock : (id : ℕ) → Action Db ForumThread
  lock id = do
    thread ← find_one orm id none
    modify (λ s. record s {
      threads =
          orm.update (λ t. t.id == id) (λ t. record t { is_locked = not thread.is_locked })
            s.threads;
    })
    find_one orm id none

  unfoldable pub get_subscribers : (thread_id : ℕ) → Action Db (List ℕ)
  get_subscribers thread_id = gets (λ s.
      map (λ x. x.user_id) (orm.find (λ x. x.thread_id == thread_id) (λ _ _. true) s.subscriptions))
