-- ===== src/Forum/Tests.antt =====
-- The forum calls at concrete tables: one thread with a like, a subscription and a reply.
use rideway_api.Prelude.{
  ℕ, ◌+◌, ◌≤◌, ◌≡◌, ◌⊎◌, refl, Bool, true, false, not, ◌&&◌, Option, none, some, [], ◌∷◌, ◌==◌, pos,
  ℤ_set, arith, bit,
}
use rideway_api.Database.InMemory.{in_memory, Every-nil, Every-cons}
use rideway_api.Action.{done, raised, state_of, bad_request, not_found}
use rideway_api.Forum.{ForumCategory, ForumThread, ThreadReply, Db, find_one}
use rideway_api.Forum.Threads.{CreateThreadDto, like, subscribe, create, lock, delete, new_thread}
use rideway_api.Forum.Replies.{CreateReplyDto, create_reply, new_reply, find_reply, delete_reply}
use rideway_api.Forum.Invariant.{IsWellFormed, likes_of}
use rideway_api.Forum.Toggling.{has_like, has_subscription}
use rideway_api.Forum.Calls.{like-has_like, subscribe_lem}
use rideway_api.Forum.Creating.{IsFresh, create-has_subscription}
use rideway_api.Forum.Locking.{lock-create_reply, with_reply}
use rideway_api.Forum.History.{here, next, created, reply_deleted, deleted, ForumReach-IsWellFormed}

abbrev general : ForumCategory
general = record {
  id = 1;
  name = "General";
  slug = "general";
  description = none;
  icon = none;
  color = none;
  sort_order = pos 0;
  threads_count = pos 1;
}

abbrev hello : ForumThread
hello =
    record (new_thread 2 100 7
      (record { category_id = 1; title = "Hello"; content = "Hello to all" })) {
        likes_count = pos 1;
        replies_count = pos 1;
      }

abbrev hi : ThreadReply
hi = new_reply 3 110 2 8 (record { content = "Hi"; parent_id = none })

abbrev small_forum : Db
small_forum = record {
  categories = general ∷ [];
  threads = hello ∷ [];
  replies = hi ∷ [];
  likes = record { id = 4; user_id = 8; thread_id = 2 } ∷ [];
  subscriptions = record { id = 5; user_id = 7; thread_id = 2 } ∷ [];
  reply_likes = [];
  cached_categories = none;
}

bit-le : (b : Bool) → bit b + 0 ≤ 1
bit-le true = omega arith
bit-le false = omega arith

small_forum-IsWellFormed : IsWellFormed small_forum
small_forum-IsWellFormed = record {
  thread_ids = λ i. bit-le (2 == i);
  reply_ids = λ i. bit-le (3 == i);
  likes = record { ids = λ i. bit-le (4 == i); once = λ t u. bit-le (2 == t && 8 == u) };
  subscriptions = record { ids = λ i. bit-le (5 == i); once = λ t u. bit-le (2 == t && 7 == u) };
  reply_likes = record { ids = λ i. omega arith; once = λ t u. omega arith };
  likes_counted = Every-cons (λ _. ℤ_set _ _) refl (Every-nil _);
  replies_counted = Every-cons (λ _. ℤ_set _ _) refl (Every-nil _);
  reply_likes_counted = Every-cons (λ _. ℤ_set _ _) refl (Every-nil _);
  threads_counted = Every-cons (λ _. ℤ_set _ _) refl (Every-nil _);
}

abbrev news : CreateThreadDto
news = record { category_id = 1; title = "News"; content = "News of today" }

news-IsFresh : IsFresh 20 21 small_forum
news-IsFresh = record {
  no_thread = refl;
  no_like = refl;
  no_reply = refl;
  no_subscriber = refl;
  no_subscription = refl;
}

abbrev and_news : Db
and_news = state_of (create in_memory 20 21 120 8 news small_forum)

abbrev and_deleted : Db
and_deleted =
    state_of (delete in_memory 130 2 7 (state_of (delete_reply in_memory 125 3 8 and_news)))

ForumReach-IsWellFormed_example : IsWellFormed and_deleted
ForumReach-IsWellFormed_example =
    ForumReach-IsWellFormed in_memory
      (next (next (next here (created 20 21 120 8 news news-IsFresh)) (reply_deleted 125 3 8))
        (deleted 130 2 7))
      small_forum-IsWellFormed

like-has_like_example :
    (db' : Db) × (like in_memory 10 2 8 small_forum
      ≡ done
          (record {
            is_liked = has_like in_memory 2 8 db'.likes;
            likes_count = pos (likes_of db'.likes 2);
          })
          db')
    × (has_like in_memory 2 8 db'.likes ≡ not (has_like in_memory 2 8 small_forum.likes))
    × IsWellFormed db'
like-has_like_example =
    like-has_like in_memory 10 2 8 small_forum small_forum-IsWellFormed refl refl

subscribe_lem_example :
    (db' : Db) × (subscribe in_memory 10 2 8 small_forum
      ≡ done (has_subscription in_memory 2 8 db'.subscriptions) db')
    × (has_subscription in_memory 2 8 db'.subscriptions
        ≡ not (has_subscription in_memory 2 8 small_forum.subscriptions))
    × IsWellFormed db'
subscribe_lem_example =
    subscribe_lem in_memory 10 2 8 small_forum small_forum-IsWellFormed refl refl

abbrev category_at : ℕ → Db → Option ForumCategory
category_at id db = in_memory.find_one (λ c. c.id == id) db.categories

create-has_subscription_example :
    ((category_at 1 small_forum ≡ none)
      × (create in_memory 20 21 120 8 news small_forum
          ≡ raised (not_found "Category not found") small_forum))
    ⊎ ((c : ForumCategory) × (db' : Db) × (category_at 1 small_forum ≡ some c)
        × (create in_memory 20 21 120 8 news small_forum ≡ find_one in_memory 20 (some 8) db')
        × IsWellFormed db'
        × (has_subscription in_memory 20 8 db'.subscriptions ≡ true))
create-has_subscription_example =
    create-has_subscription in_memory 20 21 120 8 news small_forum small_forum-IsWellFormed
      news-IsFresh

abbrev answer : CreateReplyDto
answer = record { content = "Me too"; parent_id = none }

lock-create_reply_example :
    ((false ≡ false)
      × (create_reply in_memory 30 140 2 9 answer (state_of (lock in_memory 2 small_forum))
          ≡ raised (bad_request "This thread is locked") (state_of (lock in_memory 2 small_forum))))
    ⊎ ((false ≡ true)
        × (create_reply in_memory 30 140 2 9 answer (state_of (lock in_memory 2 small_forum))
            ≡ find_reply in_memory 30 (some 9) (
                with_reply in_memory 30 140 2 9 answer small_forum
                  (state_of (lock in_memory 2 small_forum)))))
lock-create_reply_example = lock-create_reply in_memory 30 140 2 9 answer small_forum refl
