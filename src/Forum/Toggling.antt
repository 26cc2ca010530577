-- ===== src/Forum/Toggling.antt =====
-- `like` and `subscribe` on threads: the invariant, and what they answer.
use rideway_api.Prelude.{ℕ, ◌≡◌, refl, Bool, not, Option, none, some, is_some, ◌==◌, List, count_if}
use rideway_api.Database.{Orm}
use rideway_api.Database.Rows.{HasUniqueIds-update, count_if-update_same}
use rideway_api.Database.Tallies.{Tallied-up, Tallied-down, Tallied-update}
use rideway_api.Database.Toggles.{
  IsToggleTable-insert, IsToggleTable-delete, tally_of-insert, tally_of-delete, is_some-insert,
  is_some-delete,
}
use rideway_api.Action.{state_of}
use rideway_api.Forum.{
  ForumThread, ThreadLike, ThreadSubscription, Db, live_thread, is_thread_like, is_subscription,
}
use rideway_api.Forum.Threads.{toggle_subscription, toggle_like, add_likes, drop_likes}
use rideway_api.Forum.Invariant.{IsWellFormed, KeepsPlace, likes_of, ThreadsCounted-update}

add_likes-KeepsPlace : KeepsPlace add_likes
add_likes-KeepsPlace = record { id = λ t. refl; category_id = λ t. refl; deleted_at = λ t. refl }

drop_likes-KeepsPlace : KeepsPlace drop_likes
drop_likes-KeepsPlace = record { id = λ t. refl; category_id = λ t. refl; deleted_at = λ t. refl }

abbrev pub has_like : Orm → (thread_id user_id : ℕ) → List ThreadLike → Bool
has_like orm thread_id user_id likes =
    is_some (orm.find_one (is_thread_like thread_id user_id) likes)

abbrev pub has_subscription : Orm → (thread_id user_id : ℕ) → List ThreadSubscription → Bool
has_subscription orm thread_id user_id rows =
    is_some (orm.find_one (is_subscription thread_id user_id) rows)

module _ (orm : Orm) (new_id thread_id user_id : ℕ) (db : Db) (wf : IsWellFormed db) where
  abbrev liked : Option ThreadLike → Db
  liked existing = state_of (toggle_like orm new_id thread_id user_id existing db)

  pub liked-IsWellFormed :
      count_if (λ (l : ThreadLike). l.id == new_id) db.likes ≡ 0
      → (existing : Option ThreadLike)
      → orm.find_one (is_thread_like thread_id user_id) db.likes ≡ existing
      → IsWellFormed (liked existing)
        × (has_like orm thread_id user_id (liked existing).likes ≡ not (is_some existing))
  unfolding toggle_like
  liked-IsWellFormed fresh none missing =
      let l : ThreadLike = record { id = new_id; user_id = user_id; thread_id = thread_id } in
      (
        record {
          thread_ids = HasUniqueIds-update orm _ db.threads _ add_likes (λ t. refl) wf.thread_ids;
          reply_ids = wf.reply_ids;
          likes =
              IsToggleTable-insert _ _ _ orm db.likes wf.likes thread_id user_id l refl refl fresh
                missing;
          subscriptions = wf.subscriptions;
          reply_likes = wf.reply_likes;
          likes_counted =
              Tallied-up orm (λ (t : ForumThread). t.id) (λ t. t.likes_count) db.threads
                (likes_of db.likes) add_likes (λ t. refl) (likes_of (orm.insert l db.likes))
                thread_id (λ t. refl)
                (tally_of-insert _ _ _ orm db.likes wf.likes thread_id user_id l refl refl fresh
                  missing)
                wf.likes_counted;
          replies_counted =
              Tallied-update orm (λ (t : ForumThread). t.id) (λ t. t.replies_count) db.threads _
                add_likes (λ t. refl) _ (λ t. refl) wf.replies_counted;
          reply_likes_counted = wf.reply_likes_counted;
          threads_counted =
              ThreadsCounted-update orm _ add_likes add_likes-KeepsPlace db.threads db.categories
                wf.threads_counted;
        },
        is_some-insert _ _ _ orm db.likes wf.likes thread_id user_id l refl refl fresh missing,
      )
  liked-IsWellFormed fresh (some l) found = (
    record {
      thread_ids = HasUniqueIds-update orm _ db.threads _ drop_likes (λ t. refl) wf.thread_ids;
      reply_ids = wf.reply_ids;
      likes = IsToggleTable-delete _ _ _ orm db.likes wf.likes thread_id user_id found;
      subscriptions = wf.subscriptions;
      reply_likes = wf.reply_likes;
      likes_counted =
          Tallied-down orm (λ (t : ForumThread). t.id) (λ t. t.likes_count) db.threads
            (likes_of db.likes) drop_likes (λ t. refl)
            (likes_of (orm.delete (λ k. k.id == l.id) db.likes)) thread_id (λ t. refl)
            (tally_of-delete _ _ _ orm db.likes wf.likes thread_id user_id found) wf.likes_counted;
      replies_counted =
          Tallied-update orm (λ (t : ForumThread). t.id) (λ t. t.replies_count) db.threads _
            drop_likes (λ t. refl) _ (λ t. refl) wf.replies_counted;
      reply_likes_counted = wf.reply_likes_counted;
      threads_counted =
          ThreadsCounted-update orm _ drop_likes drop_likes-KeepsPlace db.threads db.categories
            wf.threads_counted;
    },
    is_some-delete _ _ _ orm db.likes wf.likes thread_id user_id found,
  )

  pub liked-threads :
      (existing : Option ThreadLike) (k : ℕ)
      → count_if (live_thread k) (liked existing).threads ≡ count_if (live_thread k) db.threads
  unfolding toggle_like
  liked-threads none k = count_if-update_same orm (live_thread k) _ add_likes db.threads (λ t. refl)
  liked-threads (some l) k =
      count_if-update_same orm (live_thread k) _ drop_likes db.threads (λ t. refl)

  abbrev subscribed : Option ThreadSubscription → Db
  subscribed existing = state_of (toggle_subscription orm new_id thread_id user_id existing db)

  pub subscribed-IsWellFormed :
      count_if (λ (l : ThreadSubscription). l.id == new_id) db.subscriptions ≡ 0
      → (existing : Option ThreadSubscription)
      → orm.find_one (is_subscription thread_id user_id) db.subscriptions ≡ existing
      → IsWellFormed (subscribed existing)
        × (has_subscription orm thread_id user_id (subscribed existing).subscriptions
            ≡ not (is_some existing))
  unfolding toggle_subscription
  subscribed-IsWellFormed fresh none missing =
      let l : ThreadSubscription = record {
        id = new_id;
        user_id = user_id;
        thread_id = thread_id;
      } in
      (
        record {
          thread_ids = wf.thread_ids;
          reply_ids = wf.reply_ids;
          likes = wf.likes;
          subscriptions =
              IsToggleTable-insert _ _ _ orm db.subscriptions wf.subscriptions thread_id user_id l
                refl refl fresh missing;
          reply_likes = wf.reply_likes;
          likes_counted = wf.likes_counted;
          replies_counted = wf.replies_counted;
          reply_likes_counted = wf.reply_likes_counted;
          threads_counted = wf.threads_counted;
        },
        is_some-insert _ _ _ orm db.subscriptions wf.subscriptions thread_id user_id l refl refl
            fresh missing,
      )
  subscribed-IsWellFormed fresh (some l) found = (
    record {
      thread_ids = wf.thread_ids;
      reply_ids = wf.reply_ids;
      likes = wf.likes;
      subscriptions =
          IsToggleTable-delete _ _ _ orm db.subscriptions wf.subscriptions thread_id user_id found;
      reply_likes = wf.reply_likes;
      likes_counted = wf.likes_counted;
      replies_counted = wf.replies_counted;
      reply_likes_counted = wf.reply_likes_counted;
      threads_counted = wf.threads_counted;
    },
    is_some-delete _ _ _ orm db.subscriptions wf.subscriptions thread_id user_id found,
  )
