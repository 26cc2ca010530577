-- ===== src/Forum/Answering.antt =====
-- The calls on replies keep the invariant.
use rideway_api.Prelude.{
  ℕ, ◌+◌, ◌≡◌, refl, ap, ◌∙◌, inl, inr, Bool, true, false, ◌&&◌, Option, none, some, is_none, ◌==◌,
  pos, arith, bit, count_if, Option-cases,
}
use rideway_api.Database.{Orm}
use rideway_api.Database.Rows.{
  HasUniqueIds-update, HasUniqueIds-insert, count_if-insert, count_if-update_same,
}
use rideway_api.Database.Tallies.{
  Tallied-up, Tallied-down, Tallied-update, Tallied-insert, Tallied-congr, count_if-hide,
}
use rideway_api.Action.{state_of}
use rideway_api.Forum.{ForumThread, ThreadReply, Db, live_reply}
use rideway_api.Forum.Replies.{answered, drop_replies, soft_delete_reply, find_reply}
use rideway_api.Forum.Invariant.{
  IsWellFormed, KeepsPlace, replies_of, reply_likes_of, ThreadsCounted-update, RepliesCounted,
}

answered-KeepsPlace : (now user_id : ℕ) → KeepsPlace (answered now user_id)
answered-KeepsPlace now user_id = record {
  id = λ t. refl;
  category_id = λ t. refl;
  deleted_at = λ t. refl;
}

drop_replies-KeepsPlace : KeepsPlace drop_replies
drop_replies-KeepsPlace = record { id = λ t. refl; category_id = λ t. refl; deleted_at = λ t. refl }

-- Reading a reply writes nothing.
pub find_reply-state :
    (orm : Orm) (id : ℕ) (user : Option ℕ) (db : Db) → state_of (find_reply orm id user db) ≡ db
unfolding find_reply
find_reply-state orm id user db = elim (Option-cases (orm.find_one (live_reply id) db.replies)) [
  | inl missing ↦ ground (arith, missing)
  | inr (r, found) ↦ ground (arith, found)
]

-- Writes to the replies.
module _ (orm : Orm) (db : Db) (wf : IsWellFormed db) where
  -- A reply that nobody likes yet is added, and its thread counts it.
  pub replied-IsWellFormed :
      (r : ThreadReply) (now user_id : ℕ)
      → r.likes_count ≡ pos 0
      → r.deleted_at ≡ none
      → count_if (λ (x : ThreadReply). x.id == r.id) db.replies ≡ 0
      → reply_likes_of db.reply_likes r.id ≡ 0
      → IsWellFormed (record db {
        replies = orm.insert r db.replies;
        threads = orm.update (λ t. t.id == r.thread_id) (answered now user_id) db.threads;
      })
  replied-IsWellFormed r now user_id no_likes live fresh unliked = record {
    thread_ids =
        HasUniqueIds-update orm _ db.threads _ (answered now user_id) (λ t. refl) wf.thread_ids;
    reply_ids = HasUniqueIds-insert orm _ db.replies r fresh wf.reply_ids;
    likes = wf.likes;
    subscriptions = wf.subscriptions;
    reply_likes = wf.reply_likes;
    likes_counted =
        Tallied-update orm (λ (t : ForumThread). t.id) (λ t. t.likes_count) db.threads _
          (answered now user_id) (λ t. refl) _ (λ t. refl) wf.likes_counted;
    replies_counted =
        Tallied-up orm (λ (t : ForumThread). t.id) (λ t. t.replies_count) db.threads
          (replies_of db.replies) (answered now user_id) (λ t. refl)
          (replies_of (orm.insert r db.replies)) r.thread_id (λ t. refl)
          (λ k.
            count_if-insert orm (λ x. x.thread_id == k && is_none x.deleted_at) r db.replies
            ∙ ap (λ b. b + replies_of db.replies k) (alive k))
          wf.replies_counted;
    reply_likes_counted =
        Tallied-insert orm (λ (x : ThreadReply). x.id) (λ x. x.likes_count) db.replies
          (reply_likes_of db.reply_likes) r no_likes unliked wf.reply_likes_counted;
    threads_counted =
        ThreadsCounted-update orm _ (answered now user_id) (answered-KeepsPlace now user_id)
          db.threads db.categories wf.threads_counted;
  }
    where
      alive : (k : ℕ) → bit (r.thread_id == k && is_none r.deleted_at) ≡ bit (r.thread_id == k)
      alive k = rw live (ground arith)

  -- A reply that was found is deleted, and its thread stops counting it.
  pub removed-IsWellFormed :
      (now id : ℕ) {r : ThreadReply}
      → orm.find_one (live_reply id) db.replies ≡ some r
      → IsWellFormed (record db {
        replies = orm.update (λ x. x.id == id) (soft_delete_reply now) db.replies;
        threads = orm.update (λ t. t.id == r.thread_id) drop_replies db.threads;
      })
  removed-IsWellFormed now id {r} found = record {
    thread_ids = HasUniqueIds-update orm _ db.threads _ drop_replies (λ t. refl) wf.thread_ids;
    reply_ids =
        HasUniqueIds-update orm _ db.replies _ (soft_delete_reply now) (λ x. refl) wf.reply_ids;
    likes = wf.likes;
    subscriptions = wf.subscriptions;
    reply_likes = wf.reply_likes;
    likes_counted =
        Tallied-update orm (λ (t : ForumThread). t.id) (λ t. t.likes_count) db.threads _
          drop_replies (λ t. refl) _ (λ t. refl) wf.likes_counted;
    replies_counted =
        Tallied-down orm (λ (t : ForumThread). t.id) (λ t. t.replies_count) db.threads
          (replies_of db.replies) drop_replies (λ t. refl)
          (replies_of (orm.update (λ x. x.id == id) (soft_delete_reply now) db.replies)) r.thread_id
          (λ t. refl) moved wf.replies_counted;
    reply_likes_counted =
        Tallied-update orm (λ (x : ThreadReply). x.id) (λ x. x.likes_count) db.replies _
          (soft_delete_reply now) (λ x. refl) _ (λ x. refl) wf.reply_likes_counted;
    threads_counted =
        ThreadsCounted-update orm _ drop_replies drop_replies-KeepsPlace db.threads db.categories
          wf.threads_counted;
  }
    where
      here : live_reply id r ≡ true
      here = (orm.find_one-some _ db.replies found).1

      moved :
          (k : ℕ)
          → replies_of (orm.update (λ x. x.id == id) (soft_delete_reply now) db.replies) k
              + bit (r.thread_id == k)
            ≡ replies_of db.replies k
      moved k = omega (
        arith,
        count_if-hide orm (λ (x : ThreadReply). x.id) db.replies _
            (λ x. x.thread_id == k && is_none x.deleted_at) (soft_delete_reply now) id wf.reply_ids
            found (at_id here) (λ x. hidden k x),
        alive k here,
      )
        where
          at_id : live_reply id r ≡ true → r.id ≡ id
          at_id h = ground arith

          hidden : (k : ℕ) (x : ThreadReply) → (x.thread_id == k && false) ≡ false
          hidden k x = ground arith

          alive :
              (k : ℕ)
              → live_reply id r ≡ true
              → bit (r.thread_id == k && is_none r.deleted_at) ≡ bit (r.thread_id == k)
          alive k h = ground arith

  -- An edit of replies that touches no counter and deletes none.
  pub edited_reply-IsWellFormed :
      (q : ThreadReply → Bool) (f : ThreadReply → ThreadReply)
      → ((r : ThreadReply) → (f r).id ≡ r.id)
      → ((r : ThreadReply) → (f r).thread_id ≡ r.thread_id)
      → ((r : ThreadReply) → (f r).deleted_at ≡ r.deleted_at)
      → ((r : ThreadReply) → (f r).likes_count ≡ r.likes_count)
      → IsWellFormed (record db { replies = orm.update q f db.replies })
  edited_reply-IsWellFormed q f same_id same_thread same_date same_likes = record {
    thread_ids = wf.thread_ids;
    reply_ids = HasUniqueIds-update orm _ db.replies q f same_id wf.reply_ids;
    likes = wf.likes;
    subscriptions = wf.subscriptions;
    reply_likes = wf.reply_likes;
    likes_counted = wf.likes_counted;
    replies_counted = replies_counted-edit;
    reply_likes_counted =
        Tallied-update orm (λ (x : ThreadReply). x.id) (λ x. x.likes_count) db.replies _ f same_id q
          same_likes wf.reply_likes_counted;
    threads_counted = wf.threads_counted;
  }
    where
      replies_counted-edit : RepliesCounted (replies_of (orm.update q f db.replies)) db.threads
      replies_counted-edit =
          Tallied-congr (λ (t : ForumThread). t.id) (λ t. t.replies_count) (replies_of db.replies)
            (replies_of (orm.update q f db.replies)) db.threads
            (λ k. count_if-update_same orm _ q f db.replies (λ r. rw (same_thread, same_date)))
            wf.replies_counted
