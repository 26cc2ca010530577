-- ===== src/Forum/Posting.antt =====
-- `create`, `update`, `delete`, `pin` and `lock` on threads keep the invariant.
use mathlib.Core.Path.{subst}
use rideway_api.Prelude.{
  ℕ, ◌+◌, ◌≡◌, refl, sym, ap, ◌∙◌, inl, inr, true, false, not, ◌&&◌, Option, none, some, is_none,
  ◌==◌, pos, arith, bit, count_if, Option-cases, Bool-cases,
}
use rideway_api.Database.{Orm}
use rideway_api.Database.Rows.{HasUniqueIds-update, HasUniqueIds-insert, count_if-insert}
use rideway_api.Database.Tallies.{
  Tallied-up, Tallied-down, Tallied-update, Tallied-insert, count_if-hide,
}
use rideway_api.Action.{Outcome, done, state_of}
use rideway_api.Forum.{
  ForumCategory, ForumThread, ThreadSubscription, ThreadLike, Db, live_thread, find_one,
  decrement_threads_count, add_threads, drop_threads,
}
use rideway_api.Forum.Threads.{
  UpdateThreadDto, edit_thread, soft_delete, update, delete, pin, lock, subscribe, like,
}
use rideway_api.Forum.Invariant.{
  IsWellFormed, KeepsPlace, threads_of, replies_of, likes_of, edited-IsWellFormed, Leaves,
  unchanged,
}
use rideway_api.Forum.Calls.{like-has_like, subscribe_lem, refused_calls}

-- Reading a thread writes nothing.
pub find_one-state :
    (orm : Orm) (id : ℕ) (user : Option ℕ) (db : Db) → state_of (find_one orm id user db) ≡ db
unfolding find_one
find_one-state orm id user db = elim (Option-cases (orm.find_one (live_thread id) db.threads)) [
  | inl missing ↦ ground (arith, missing)
  | inr (t, found) ↦ ground (arith, found)
]

module _ (orm : Orm) (db : Db) (wf : IsWellFormed db) where
  -- A thread that nobody answered or likes yet is added, and its category counts it.
  pub posted-IsWellFormed :
      (t : ForumThread)
      → t.likes_count ≡ pos 0
      → t.replies_count ≡ pos 0
      → t.deleted_at ≡ none
      → count_if (λ (x : ForumThread). x.id == t.id) db.threads ≡ 0
      → likes_of db.likes t.id ≡ 0
      → replies_of db.replies t.id ≡ 0
      → IsWellFormed (record db {
        threads = orm.insert t db.threads;
        categories = orm.update (λ c. c.id == t.category_id) add_threads db.categories;
        cached_categories = none;
      })
  posted-IsWellFormed t no_likes no_replies live fresh unliked unanswered = record {
    thread_ids = HasUniqueIds-insert orm _ db.threads t fresh wf.thread_ids;
    reply_ids = wf.reply_ids;
    likes = wf.likes;
    subscriptions = wf.subscriptions;
    reply_likes = wf.reply_likes;
    likes_counted =
        Tallied-insert orm (λ (x : ForumThread). x.id) (λ x. x.likes_count) db.threads
          (likes_of db.likes) t no_likes unliked wf.likes_counted;
    replies_counted =
        Tallied-insert orm (λ (x : ForumThread). x.id) (λ x. x.replies_count) db.threads
          (replies_of db.replies) t no_replies unanswered wf.replies_counted;
    reply_likes_counted = wf.reply_likes_counted;
    threads_counted =
        Tallied-up orm (λ (c : ForumCategory). c.id) (λ c. c.threads_count) db.categories
          (threads_of db.threads) add_threads (λ c. refl) (threads_of (orm.insert t db.threads))
          t.category_id (λ c. refl)
          (λ k.
            count_if-insert orm (λ x. x.category_id == k && is_none x.deleted_at) t db.threads
            ∙ ap (λ b. b + threads_of db.threads k) (alive k))
          wf.threads_counted;
  }
    where
      alive : (k : ℕ) → bit (t.category_id == k && is_none t.deleted_at) ≡ bit (t.category_id == k)
      alive k = rw live (ground arith)

  -- A thread that was found is deleted, and its category stops counting it.
  removed-IsWellFormed :
      (now id : ℕ) {t : ForumThread}
      → orm.find_one (live_thread id) db.threads ≡ some t
      → IsWellFormed (record db {
        threads = orm.update (λ x. x.id == id) (soft_delete now) db.threads;
        categories = orm.update (λ c. c.id == t.category_id) drop_threads db.categories;
        cached_categories = none;
      })
  removed-IsWellFormed now id {t} found = record {
    thread_ids = HasUniqueIds-update orm _ db.threads _ (soft_delete now) (λ x. refl) wf.thread_ids;
    reply_ids = wf.reply_ids;
    likes = wf.likes;
    subscriptions = wf.subscriptions;
    reply_likes = wf.reply_likes;
    likes_counted =
        Tallied-update orm (λ (x : ForumThread). x.id) (λ x. x.likes_count) db.threads _
          (soft_delete now) (λ x. refl) _ (λ x. refl) wf.likes_counted;
    replies_counted =
        Tallied-update orm (λ (x : ForumThread). x.id) (λ x. x.replies_count) db.threads _
          (soft_delete now) (λ x. refl) _ (λ x. refl) wf.replies_counted;
    reply_likes_counted = wf.reply_likes_counted;
    threads_counted =
        Tallied-down orm (λ (c : ForumCategory). c.id) (λ c. c.threads_count) db.categories
          (threads_of db.threads) drop_threads (λ c. refl)
          (threads_of (orm.update (λ x. x.id == id) (soft_delete now) db.threads)) t.category_id
          (λ c. refl) moved wf.threads_counted;
  }
    where
      here : live_thread id t ≡ true
      here = (orm.find_one-some _ db.threads found).1

      moved :
          (k : ℕ)
          → threads_of (orm.update (λ x. x.id == id) (soft_delete now) db.threads) k
              + bit (t.category_id == k)
            ≡ threads_of db.threads k
      moved k = omega (
        arith,
        count_if-hide orm (λ (x : ForumThread). x.id) db.threads _
            (λ x. x.category_id == k && is_none x.deleted_at) (soft_delete now) id wf.thread_ids
            found (at_id here) (λ x. hidden x),
        alive here,
      )
        where
          at_id : live_thread id t ≡ true → t.id ≡ id
          at_id h = ground arith

          hidden : (x : ForumThread) → (x.category_id == k && false) ≡ false
          hidden x = ground arith

          alive :
              live_thread id t ≡ true
              → bit (t.category_id == k && is_none t.deleted_at) ≡ bit (t.category_id == k)
          alive h = ground arith

  pub subscribe-IsWellFormed :
      (new_id thread_id user_id : ℕ)
      → count_if (λ (l : ThreadSubscription). l.id == new_id) db.subscriptions ≡ 0
      → Leaves (subscribe orm new_id thread_id user_id db)
  subscribe-IsWellFormed new_id thread_id user_id fresh =
      elim (Option-cases (orm.find_one (live_thread thread_id) db.threads)) [
        | inl missing ↦
            unchanged wf (subscribe orm new_id thread_id user_id db)
              (ap state_of (refused_calls orm new_id thread_id user_id db missing).1)
        | inr (t, found) ↦
            let (db', e, _, wf') = subscribe_lem orm new_id thread_id user_id db wf fresh found in
            subst Leaves (sym e) wf'
      ]

  pub like-IsWellFormed :
      (new_id thread_id user_id : ℕ)
      → count_if (λ (l : ThreadLike). l.id == new_id) db.likes ≡ 0
      → Leaves (like orm new_id thread_id user_id db)
  like-IsWellFormed new_id thread_id user_id fresh =
      elim (Option-cases (orm.find_one (live_thread thread_id) db.threads)) [
        | inl missing ↦
            unchanged wf (like orm new_id thread_id user_id db)
              (ap state_of (refused_calls orm new_id thread_id user_id db missing).0)
        | inr (t, found) ↦
            let (db', e, _, wf') = like-has_like orm new_id thread_id user_id db wf fresh found in
            subst Leaves (sym e) wf'
      ]

  -- An edit of the thread that was found, and the thread read again.
  edit_and_read :
      (id : ℕ) (user : Option ℕ) (f : ForumThread → ForumThread) (o : Outcome Db ForumThread)
      → KeepsPlace f
      → ((t : ForumThread) → (f t).likes_count ≡ t.likes_count)
      → ((t : ForumThread) → (f t).replies_count ≡ t.replies_count)
      → o ≡ find_one orm id user (record db { threads = orm.update (λ t. t.id == id) f db.threads })
      → Leaves o
  edit_and_read id user f o keeps likes replies e = subst Leaves (sym e) (
      subst IsWellFormed
        (sym (
          find_one-state orm id user
            (record db { threads = orm.update (λ t. t.id == id) f db.threads })))
        (edited-IsWellFormed orm (λ t. t.id == id) f db keeps likes replies wf))

  pub update-IsWellFormed :
      (id user_id : ℕ) (dto : UpdateThreadDto) → Leaves (update orm id user_id dto db)
  unfolding update find_one
  update-IsWellFormed id user_id dto =
      elim (Option-cases (orm.find_one (live_thread id) db.threads)) [
        | inl missing ↦ unchanged wf (update orm id user_id dto db) (ground (arith, missing))
        | inr (t, found) ↦ elim (Bool-cases (t.user_id == user_id)) [
          | inl own ↦
              edit_and_read id (some user_id) (edit_thread dto) (update orm id user_id dto db)
                (record { id = λ t. refl; category_id = λ t. refl; deleted_at = λ t. refl })
                (λ t. refl) (λ t. refl) (ground (arith, found, own))
          | inr other ↦ unchanged wf (update orm id user_id dto db) (ground (arith, found, other))
        ]
      ]

  pub pin-IsWellFormed : (id : ℕ) → Leaves (pin orm id db)
  unfolding pin find_one
  pin-IsWellFormed id = elim (Option-cases (orm.find_one (live_thread id) db.threads)) [
    | inl missing ↦ unchanged wf (pin orm id db) (ground (arith, missing))
    | inr (t, found) ↦
        edit_and_read id none (λ x. record x { is_pinned = not t.is_pinned }) (pin orm id db)
          (record { id = λ t. refl; category_id = λ t. refl; deleted_at = λ t. refl }) (λ t. refl)
          (λ t. refl) (ground (arith, found))
  ]

  pub lock-IsWellFormed : (id : ℕ) → Leaves (lock orm id db)
  unfolding lock find_one
  lock-IsWellFormed id = elim (Option-cases (orm.find_one (live_thread id) db.threads)) [
    | inl missing ↦ unchanged wf (lock orm id db) (ground (arith, missing))
    | inr (t, found) ↦
        edit_and_read id none (λ x. record x { is_locked = not t.is_locked }) (lock orm id db)
          (record { id = λ t. refl; category_id = λ t. refl; deleted_at = λ t. refl }) (λ t. refl)
          (λ t. refl) (ground (arith, found))
  ]

  pub delete-IsWellFormed : (now id user_id : ℕ) → Leaves (delete orm now id user_id db)
  unfolding delete find_one decrement_threads_count
  delete-IsWellFormed now id user_id =
      elim (Option-cases (orm.find_one (live_thread id) db.threads)) [
        | inl missing ↦ unchanged wf (delete orm now id user_id db) (ground (arith, missing))
        | inr (t, found) ↦ elim (Bool-cases (t.user_id == user_id)) [
          | inl own ↦
              let after : Db = record db {
                threads = orm.update (λ x. x.id == id) (soft_delete now) db.threads;
                categories = orm.update (λ c. c.id == t.category_id) drop_threads db.categories;
                cached_categories = none;
              } in
              let e : delete orm now id user_id db ≡ done tt after = ground (arith, found, own) in
              subst Leaves (sym e) (removed-IsWellFormed now id found)
          | inr other ↦ unchanged wf (delete orm now id user_id db) (ground (arith, found, other))
        ]
      ]
