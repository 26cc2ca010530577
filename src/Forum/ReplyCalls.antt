-- ===== src/Forum/ReplyCalls.antt =====
-- The whole calls on replies keep the invariant, whether they succeed or throw.
use mathlib.Core.Path.{subst}
use rideway_api.Prelude.{
  ℕ, ◌≡◌, refl, sym, inl, inr, Bool, true, Option, none, some, ◌==◌, String, arith, count_if,
  Option-cases, Bool-cases,
}
use rideway_api.Database.{Orm}
use rideway_api.Database.Rows.{HasUniqueIds-update, count_if-update_same}
use rideway_api.Database.Tallies.{Tallied-up, Tallied-down, Tallied-congr}
use rideway_api.Database.Toggles.{
  IsToggleTable-insert, IsToggleTable-delete, tally_of-insert, tally_of-delete,
}
use rideway_api.Action.{done}
use rideway_api.Forum.{
  ForumThread, ThreadReply, ReplyLike, Db, live_thread, live_reply, is_reply_like, find_one,
}
use rideway_api.Forum.Replies.{
  CreateReplyDto, new_reply, answered, drop_replies, soft_delete_reply, add_reply_likes,
  drop_reply_likes, find_reply, create_reply, update_reply, delete_reply, toggle_reply_like,
  like_reply,
}
use rideway_api.Forum.Invariant.{
  IsWellFormed, replies_of, reply_likes_of, RepliesCounted, Leaves, unchanged,
}
use rideway_api.Forum.Answering.{
  find_reply-state, replied-IsWellFormed, removed-IsWellFormed, edited_reply-IsWellFormed,
}

module _ (orm : Orm) where
  RepliesCounted-like :
      (q : ThreadReply → Bool) (f : ThreadReply → ThreadReply) (db : Db)
      → ((r : ThreadReply) → (f r).thread_id ≡ r.thread_id)
      → ((r : ThreadReply) → (f r).deleted_at ≡ r.deleted_at)
      → RepliesCounted (replies_of db.replies) db.threads
      → RepliesCounted (replies_of (orm.update q f db.replies)) db.threads
  RepliesCounted-like q f db same_thread same_date =
      Tallied-congr (λ (t : ForumThread). t.id) (λ t. t.replies_count) (replies_of db.replies)
        (replies_of (orm.update q f db.replies)) db.threads
        (λ k. count_if-update_same orm _ q f db.replies (λ r. rw (same_thread, same_date)))

  toggle_reply_like-IsWellFormed :
      (new_id reply_id user_id : ℕ) (db : Db)
      → IsWellFormed db
      → count_if (λ (l : ReplyLike). l.id == new_id) db.reply_likes ≡ 0
      → (existing : Option ReplyLike)
      → orm.find_one (is_reply_like reply_id user_id) db.reply_likes ≡ existing
      → Leaves (toggle_reply_like orm new_id reply_id user_id existing db)
  unfolding toggle_reply_like
  toggle_reply_like-IsWellFormed new_id reply_id user_id db wf fresh none missing =
      let l : ReplyLike = record { id = new_id; user_id = user_id; reply_id = reply_id } in
      record {
        thread_ids = wf.thread_ids;
        reply_ids = HasUniqueIds-update orm _ db.replies _ add_reply_likes (λ x. refl) wf.reply_ids;
        likes = wf.likes;
        subscriptions = wf.subscriptions;
        reply_likes =
            IsToggleTable-insert _ _ _ orm db.reply_likes wf.reply_likes reply_id user_id l refl
              refl fresh missing;
        likes_counted = wf.likes_counted;
        replies_counted =
            RepliesCounted-like _ add_reply_likes db (λ r. refl) (λ r. refl) wf.replies_counted;
        reply_likes_counted =
            Tallied-up orm (λ (x : ThreadReply). x.id) (λ x. x.likes_count) db.replies
              (reply_likes_of db.reply_likes) add_reply_likes (λ x. refl)
              (reply_likes_of (orm.insert l db.reply_likes)) reply_id (λ x. refl)
              (tally_of-insert _ _ _ orm db.reply_likes wf.reply_likes reply_id user_id l refl refl
                fresh missing)
              wf.reply_likes_counted;
        threads_counted = wf.threads_counted;
      }
  toggle_reply_like-IsWellFormed new_id reply_id user_id db wf fresh (some l) found = record {
    thread_ids = wf.thread_ids;
    reply_ids = HasUniqueIds-update orm _ db.replies _ drop_reply_likes (λ x. refl) wf.reply_ids;
    likes = wf.likes;
    subscriptions = wf.subscriptions;
    reply_likes =
        IsToggleTable-delete _ _ _ orm db.reply_likes wf.reply_likes reply_id user_id found;
    likes_counted = wf.likes_counted;
    replies_counted =
        RepliesCounted-like _ drop_reply_likes db (λ r. refl) (λ r. refl) wf.replies_counted;
    reply_likes_counted =
        Tallied-down orm (λ (x : ThreadReply). x.id) (λ x. x.likes_count) db.replies
          (reply_likes_of db.reply_likes) drop_reply_likes (λ x. refl)
          (reply_likes_of (orm.delete (λ k. k.id == l.id) db.reply_likes)) reply_id (λ x. refl)
          (tally_of-delete _ _ _ orm db.reply_likes wf.reply_likes reply_id user_id found)
          wf.reply_likes_counted;
    threads_counted = wf.threads_counted;
  }

  module _ (db : Db) (wf : IsWellFormed db) where
    pub like_reply-IsWellFormed :
        (new_id reply_id user_id : ℕ)
        → count_if (λ (l : ReplyLike). l.id == new_id) db.reply_likes ≡ 0
        → Leaves (like_reply orm new_id reply_id user_id db)
    unfolding like_reply find_reply
    like_reply-IsWellFormed new_id reply_id user_id fresh =
        elim (Option-cases (orm.find_one (live_reply reply_id) db.replies)) [
          | inl missing ↦
              unchanged wf (like_reply orm new_id reply_id user_id db) (ground (arith, missing))
          | inr (r, found) ↦
              let e : like_reply orm new_id reply_id user_id db
                  ≡ toggle_reply_like orm new_id reply_id user_id
                      (orm.find_one (is_reply_like reply_id user_id) db.reply_likes) db =
                ground (arith, found) in
              subst Leaves (sym e)
                (toggle_reply_like-IsWellFormed new_id reply_id user_id db wf fresh _ refl)
        ]

    pub create_reply-IsWellFormed :
        (new_id now thread_id user_id : ℕ) (dto : CreateReplyDto)
        → count_if (λ (x : ThreadReply). x.id == new_id) db.replies ≡ 0
        → reply_likes_of db.reply_likes new_id ≡ 0
        → Leaves (create_reply orm new_id now thread_id user_id dto db)
    unfolding create_reply find_one
    create_reply-IsWellFormed new_id now thread_id user_id dto fresh unliked =
        elim (Option-cases (orm.find_one (live_thread thread_id) db.threads)) [
          | inl missing ↦
              unchanged wf (create_reply orm new_id now thread_id user_id dto db)
                (ground (arith, missing))
          | inr (t, found) ↦ elim (Bool-cases t.is_locked) [
            | inl locked ↦
                unchanged wf (create_reply orm new_id now thread_id user_id dto db)
                  (ground (arith, found))
            | inr unlocked ↦
                let r = new_reply new_id now thread_id user_id dto in
                let after : Db = record db {
                  replies = orm.insert r db.replies;
                  threads = orm.update (λ t. t.id == thread_id) (answered now user_id) db.threads;
                } in
                let e : create_reply orm new_id now thread_id user_id dto db
                    ≡ find_reply orm new_id (some user_id) after =
                  ground (arith, found) in
                subst Leaves (sym e) (
                  subst IsWellFormed (sym (find_reply-state orm new_id (some user_id) after))
                    (replied-IsWellFormed orm db wf r now user_id refl refl fresh unliked))
          ]
        ]

    pub update_reply-IsWellFormed :
        (id user_id : ℕ) (content : String) → Leaves (update_reply orm id user_id content db)
    unfolding update_reply find_reply
    update_reply-IsWellFormed id user_id content =
        elim (Option-cases (orm.find_one (live_reply id) db.replies)) [
          | inl missing ↦
              unchanged wf (update_reply orm id user_id content db) (ground (arith, missing))
          | inr (r, found) ↦ elim (Bool-cases (r.user_id == user_id)) [
            | inl own ↦
                let f : ThreadReply → ThreadReply =
                  λ x. record x { content = content; is_edited = true } in
                let after : Db = record db {
                  replies = orm.update (λ x. x.id == id) f db.replies;
                } in
                let e : update_reply orm id user_id content db
                    ≡ find_reply orm id (some user_id) after =
                  ground (arith, found, own) in
                subst Leaves (sym e) (
                  subst IsWellFormed (sym (find_reply-state orm id (some user_id) after)) (
                    edited_reply-IsWellFormed orm db wf (λ x. x.id == id) f (λ x. refl) (λ x. refl)
                      (λ x. refl) (λ x. refl)))
            | inr other ↦
                unchanged wf (update_reply orm id user_id content db) (ground (arith, found, other))
          ]
        ]

    pub delete_reply-IsWellFormed :
        (now id user_id : ℕ) → Leaves (delete_reply orm now id user_id db)
    unfolding delete_reply find_reply
    delete_reply-IsWellFormed now id user_id =
        elim (Option-cases (orm.find_one (live_reply id) db.replies)) [
          | inl missing ↦
              unchanged wf (delete_reply orm now id user_id db) (ground (arith, missing))
          | inr (r, found) ↦ elim (Bool-cases (r.user_id == user_id)) [
            | inl own ↦
                let after : Db = record db {
                  replies = orm.update (λ x. x.id == id) (soft_delete_reply now) db.replies;
                  threads = orm.update (λ t. t.id == r.thread_id) drop_replies db.threads;
                } in
                let e : delete_reply orm now id user_id db ≡ done tt after =
                  ground (arith, found, own) in
                subst Leaves (sym e) (removed-IsWellFormed orm db wf now id found)
            | inr other ↦
                unchanged wf (delete_reply orm now id user_id db) (ground (arith, found, other))
          ]
        ]
