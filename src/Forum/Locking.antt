-- ===== src/Forum/Locking.antt =====
-- `lock`, and the replies to a locked thread.
use mathlib.Core.Bool.{Bool-set}
use mathlib.Core.HLevel.{Π_prop}
use rideway_api.Prelude.{
  ℕ, ◌≡◌, refl, ap, ◌∙◌, inl, inr, ◌⊎◌, true, false, not, some, ◌==◌, arith, Option-cases,
  Bool-cases,
}
use rideway_api.Database.{Orm, Every}
use rideway_api.Database.Rows.{
  Every-update, Every-find_one, count_if-find_one, count_if-find_one_none, count_if-update_same,
}
use rideway_api.Action.{raised, state_of, bad_request}
use rideway_api.Forum.{ForumThread, Db, live_thread, find_one}
use rideway_api.Forum.Threads.{lock}
use rideway_api.Forum.Replies.{CreateReplyDto, new_reply, answered, create_reply, find_reply}

module _ (orm : Orm) (thread_id : ℕ) (db : Db) {t : ForumThread}
    (found : orm.find_one (live_thread thread_id) db.threads ≡ some t) where
  abbrev turned : ForumThread → ForumThread
  turned x = record x { is_locked = not t.is_locked }

  lock-state :
      state_of (lock orm thread_id db)
      ≡ record db { threads = orm.update (λ x. x.id == thread_id) turned db.threads }
  unfolding lock find_one
  lock-state =
      elim (Option-cases (
        orm.find_one (live_thread thread_id)
          (orm.update (λ x. x.id == thread_id) turned db.threads))) [
            | inl gone ↦ ground (arith, found, gone)
            | inr (x, there) ↦ ground (arith, found, there)
          ]

  -- The thread is still found, and its lock is turned.
  found_turned :
      (x : ForumThread) × (orm.find_one
          (live_thread thread_id)
          (orm.update (λ x. x.id == thread_id) turned db.threads)
        ≡ some x)
      × (x.is_locked ≡ not t.is_locked)
  found_turned =
      elim (Option-cases (
        orm.find_one (live_thread thread_id)
          (orm.update (λ x. x.id == thread_id) turned db.threads))) [
            | inl gone ↦ absurd (
                omega (
                  arith,
                  count_if-find_one_none orm (live_thread thread_id) _ gone,
                  count_if-update_same orm (live_thread thread_id) (λ x. x.id == thread_id) turned
                      db.threads (λ x. refl),
                  count_if-find_one orm _ (live_thread thread_id) db.threads found
                      (orm.find_one-some _ db.threads found).1,
                ))
            | inr (x, there) ↦ (
              x,
              there,
              Every-find_one orm _ _ there all (at_id x (orm.find_one-some _ _ there).1),
            )
          ]
    where
      all :
          Every
            (λ x. (x.id == thread_id) ≡ true → x.is_locked ≡ not t.is_locked)
            (orm.update (λ x. x.id == thread_id) turned db.threads)
      all =
          Every-update orm {P = λ _. Unit {0}} _ turned db.threads (λ x. Π_prop (λ _. Bool-set _ _))
            (λ x _ _ _. refl) (λ x f _ h. absurd (cc)) (λ _ _. tt)

      at_id : (x : ForumThread) → live_thread thread_id x ≡ true → (x.id == thread_id) ≡ true
      at_id x h = ground arith

module _ (orm : Orm) (new_id now thread_id user_id : ℕ) (dto : CreateReplyDto) (db : Db) where
  reply_refused :
      {x : ForumThread}
      → orm.find_one (live_thread thread_id) db.threads ≡ some x
      → x.is_locked ≡ true
      → create_reply orm new_id now thread_id user_id dto db
        ≡ raised (bad_request "This thread is locked") db
  unfolding create_reply find_one
  reply_refused found locked = ground (arith, found, locked)

  reply_accepted :
      {x : ForumThread}
      → orm.find_one (live_thread thread_id) db.threads ≡ some x
      → x.is_locked ≡ false
      → create_reply orm new_id now thread_id user_id dto db
        ≡ find_reply orm new_id (some user_id) (record db {
          replies = orm.insert (new_reply new_id now thread_id user_id dto) db.replies;
          threads = orm.update (λ t. t.id == thread_id) (answered now user_id) db.threads;
        })
  unfolding create_reply find_one
  reply_accepted found unlocked = ground (arith, found, unlocked)

module _ (orm : Orm) (new_id now thread_id user_id : ℕ) (dto : CreateReplyDto) (db : Db) where
  -- The tables after the writes of a reply to the thread.
  abbrev pub with_reply : Db → Db
  with_reply s = record s {
    replies = orm.insert (new_reply new_id now thread_id user_id dto) s.replies;
    threads = orm.update (λ t. t.id == thread_id) (answered now user_id) s.threads;
  }

  -- After `lock` on a live thread that was not locked, a reply to the thread is refused with "This
  -- thread is locked" and nothing is written; after `lock` on one that was locked, a reply is
  -- written, counted by the thread, and read back.
  pub lock-create_reply :
      {t : ForumThread}
      → orm.find_one (live_thread thread_id) db.threads ≡ some t
      → ((t.is_locked ≡ false)
          × (create_reply orm new_id now thread_id user_id dto (state_of (lock orm thread_id db))
              ≡ raised (bad_request "This thread is locked") (state_of (lock orm thread_id db))))
        ⊎ ((t.is_locked ≡ true)
            × (create_reply orm new_id now thread_id user_id dto (state_of (lock orm thread_id db))
                ≡ find_reply orm new_id
                    (some user_id)
                    (with_reply (state_of (lock orm thread_id db)))))
  lock-create_reply {t} found =
      let (x, there, turns) = found_turned orm thread_id db found in
      let there' =
        ap (λ d. orm.find_one (live_thread thread_id) d.threads) (lock-state orm thread_id db found)
        ∙ there in
      elim (Bool-cases t.is_locked) [
        | inl locked ↦ inr (
          locked,
          reply_accepted orm new_id now thread_id user_id dto (state_of (lock orm thread_id db))
              there' (turns ∙ ap not locked),
        )
        | inr unlocked ↦ inl (
          unlocked,
          reply_refused orm new_id now thread_id user_id dto (state_of (lock orm thread_id db))
              there' (turns ∙ ap not unlocked),
        )
      ]
