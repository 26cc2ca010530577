-- ===== src/Forum/Calls.antt =====
-- The whole calls `like` and `subscribe`.
use rideway_api.Prelude.{
  ℕ, ◌≤◌, ◌≡◌, refl, true, not, Option, none, some, is_some, ◌==◌, pos, arith, count_if,
}
use rideway_api.Database.{Orm}
use rideway_api.Database.Rows.{count_if-find_one}
use rideway_api.Database.Tallies.{Tallied-found}
use rideway_api.Action.{done, raised, state_of, not_found}
use rideway_api.Forum.{
  ForumThread, ThreadLike, ThreadSubscription, Db, live_thread, is_thread_like, is_subscription,
  find_one,
}
use rideway_api.Forum.Threads.{toggle_subscription, subscribe, toggle_like, like, read_likes_count}
use rideway_api.Forum.Invariant.{IsWellFormed, likes_of}
use rideway_api.Forum.Toggling.{
  liked-IsWellFormed, liked-threads, subscribed-IsWellFormed, has_like, has_subscription,
}

module _ (orm : Orm) (id : ℕ) (db : Db) where
  -- What `updated?.likesCount` reads of a live thread.
  read_likes_count-eq :
      IsWellFormed db
      → 1 ≤ count_if (live_thread id) db.threads
      → read_likes_count orm id db ≡ pos (likes_of db.likes id)
  read_likes_count-eq wf there =
      let (t, found, reads) =
        Tallied-found orm (λ (t : ForumThread). t.id) (λ t. t.likes_count) db.threads
          (likes_of db.likes) (live_thread id) id live_thread-id there wf.likes_counted in
      rw found reads
    where
      live_thread-id : (t : ForumThread) → live_thread id t ≡ true → t.id ≡ id
      live_thread-id t h = ground arith

module _ (orm : Orm) (new_id thread_id user_id : ℕ) (db : Db) where
  toggle_like-done :
      (existing : Option ThreadLike)
      → toggle_like orm new_id thread_id user_id existing db
        ≡ done
            (record {
              is_liked = not (is_some existing);
              likes_count =
                  read_likes_count orm thread_id
                    (state_of (toggle_like orm new_id thread_id user_id existing db));
            })
            (state_of (toggle_like orm new_id thread_id user_id existing db))
  unfolding toggle_like
  toggle_like-done none = refl
  toggle_like-done (some l) = refl

  like-eq :
      {t : ForumThread}
      → orm.find_one (live_thread thread_id) db.threads ≡ some t
      → like orm new_id thread_id user_id db
        ≡ toggle_like orm new_id thread_id user_id
            (orm.find_one (is_thread_like thread_id user_id) db.likes)
            db
  unfolding like find_one
  like-eq found = ground (arith, found)

  toggle_subscription-done :
      (existing : Option ThreadSubscription)
      → toggle_subscription orm new_id thread_id user_id existing db
        ≡ done
            (not (is_some existing))
            (state_of (toggle_subscription orm new_id thread_id user_id existing db))
  unfolding toggle_subscription
  toggle_subscription-done none = refl
  toggle_subscription-done (some l) = refl

  subscribe-eq :
      {t : ForumThread}
      → orm.find_one (live_thread thread_id) db.threads ≡ some t
      → subscribe orm new_id thread_id user_id db
        ≡ toggle_subscription orm new_id thread_id user_id
            (orm.find_one (is_subscription thread_id user_id) db.subscriptions)
            db
  unfolding subscribe find_one
  subscribe-eq found = ground (arith, found)

  -- A missing or deleted thread cannot be liked or subscribed to.
  pub refused_calls :
      orm.find_one (live_thread thread_id) db.threads ≡ none
      → (like orm new_id thread_id user_id db ≡ raised (not_found "Thread not found") db)
        × (subscribe orm new_id thread_id user_id db ≡ raised (not_found "Thread not found") db)
  unfolding like subscribe find_one
  refused_calls missing = (ground (arith, missing), ground (arith, missing))

  -- On a live thread of well-formed tables, with a new id for the like, `like` succeeds. It answers
  -- whether the user likes the thread afterwards, which is the opposite of before, and the number of
  -- likes that the table of likes then holds for the thread; the tables stay well-formed.
  pub like-has_like :
      {t : ForumThread}
      → IsWellFormed db
      → count_if (λ (l : ThreadLike). l.id == new_id) db.likes ≡ 0
      → orm.find_one (live_thread thread_id) db.threads ≡ some t
      → (db' : Db) × (like orm new_id thread_id user_id db
          ≡ done
              (record {
                is_liked = has_like orm thread_id user_id db'.likes;
                likes_count = pos (likes_of db'.likes thread_id);
              })
              db')
        × (has_like orm thread_id user_id db'.likes ≡ not (has_like orm thread_id user_id db.likes))
        × IsWellFormed db'
  like-has_like wf fresh found =
      let existing : Option ThreadLike = orm.find_one (is_thread_like thread_id user_id) db.likes in
      let (wf', has) = liked-IsWellFormed orm new_id thread_id user_id db wf fresh existing refl in
      let reads =
        read_likes_count-eq orm thread_id
          (state_of (toggle_like orm new_id thread_id user_id existing db)) wf'
          (omega (
            arith,
            liked-threads orm new_id thread_id user_id db wf existing thread_id,
            count_if-find_one orm _ (live_thread thread_id) db.threads found
                (orm.find_one-some _ db.threads found).1,
          )) in
      (_, cc (like-eq found, toggle_like-done existing, has, reads), has, wf')

  -- On a live thread of well-formed tables, with a new id for the subscription, `subscribe`
  -- succeeds. It answers whether the user is subscribed to the thread afterwards, which is the
  -- opposite of before; the tables stay well-formed.
  pub subscribe_lem :
      {t : ForumThread}
      → IsWellFormed db
      → count_if (λ (l : ThreadSubscription). l.id == new_id) db.subscriptions ≡ 0
      → orm.find_one (live_thread thread_id) db.threads ≡ some t
      → (db' : Db) × (subscribe orm new_id thread_id user_id db
          ≡ done (has_subscription orm thread_id user_id db'.subscriptions) db')
        × (has_subscription orm thread_id user_id db'.subscriptions
            ≡ not (has_subscription orm thread_id user_id db.subscriptions))
        × IsWellFormed db'
  subscribe_lem wf fresh found =
      let existing : Option ThreadSubscription =
        orm.find_one (is_subscription thread_id user_id) db.subscriptions in
      let (wf', has) =
        subscribed-IsWellFormed orm new_id thread_id user_id db wf fresh existing refl in
      (_, cc (subscribe-eq found, toggle_subscription-done existing, has), has, wf')
