-- ===== src/Forum/Invariant.antt =====
-- The invariant of the forum tables: every counter is the number of rows that it stands for.
use mathlib.Core.Path.{subst}
use rideway_api.Action.{Outcome, state_of}
use rideway_api.Prelude.{sym, ℕ, ◌≡◌, Bool, ◌&&◌, is_none, List, ◌==◌, count_if}
use rideway_api.Database.{Orm, HasUniqueIds}
use rideway_api.Database.Rows.{count_if-update_same, HasUniqueIds-update}
use rideway_api.Database.Tallies.{Tallied, Tallied-congr, Tallied-update}
use rideway_api.Database.Toggles.{IsToggleTable, tally_of}
use rideway_api.Forum.{
  ForumCategory, ForumThread, ThreadReply, ThreadLike, ThreadSubscription, ReplyLike, Db,
}

-- The replies of a thread, and the threads of a category, that are not deleted.
abbrev pub replies_of : List ThreadReply → ℕ → ℕ
replies_of replies k = count_if (λ r. r.thread_id == k && is_none r.deleted_at) replies

abbrev pub threads_of : List ForumThread → ℕ → ℕ
threads_of threads k = count_if (λ t. t.category_id == k && is_none t.deleted_at) threads

abbrev pub likes_of : List ThreadLike → ℕ → ℕ
likes_of likes = tally_of (λ (l : ThreadLike). l.id) (λ l. l.thread_id) (λ l. l.user_id) likes

abbrev pub reply_likes_of : List ReplyLike → ℕ → ℕ
reply_likes_of likes = tally_of (λ (l : ReplyLike). l.id) (λ l. l.reply_id) (λ l. l.user_id) likes

abbrev pub IsLikeTable : List ThreadLike → Type 0
IsLikeTable = IsToggleTable (λ (l : ThreadLike). l.id) (λ l. l.thread_id) (λ l. l.user_id)

abbrev pub IsSubscriptionTable : List ThreadSubscription → Type 0
IsSubscriptionTable =
    IsToggleTable (λ (l : ThreadSubscription). l.id) (λ l. l.thread_id) (λ l. l.user_id)

abbrev pub IsReplyLikeTable : List ReplyLike → Type 0
IsReplyLikeTable = IsToggleTable (λ (l : ReplyLike). l.id) (λ l. l.reply_id) (λ l. l.user_id)

abbrev pub LikesCounted : (ℕ → ℕ) → List ForumThread → Type 0
LikesCounted = Tallied (λ (t : ForumThread). t.id) (λ t. t.likes_count)

abbrev pub RepliesCounted : (ℕ → ℕ) → List ForumThread → Type 0
RepliesCounted = Tallied (λ (t : ForumThread). t.id) (λ t. t.replies_count)

abbrev pub ReplyLikesCounted : (ℕ → ℕ) → List ThreadReply → Type 0
ReplyLikesCounted = Tallied (λ (r : ThreadReply). r.id) (λ r. r.likes_count)

abbrev pub ThreadsCounted : (ℕ → ℕ) → List ForumCategory → Type 0
ThreadsCounted = Tallied (λ (c : ForumCategory). c.id) (λ c. c.threads_count)

pub record IsWellFormed (db : Db) : Type 0 where
  pub thread_ids : HasUniqueIds (λ (t : ForumThread). t.id) db.threads
  pub reply_ids : HasUniqueIds (λ (r : ThreadReply). r.id) db.replies
  pub likes : IsLikeTable db.likes
  pub subscriptions : IsSubscriptionTable db.subscriptions
  pub reply_likes : IsReplyLikeTable db.reply_likes
  pub likes_counted : LikesCounted (likes_of db.likes) db.threads
  pub replies_counted : RepliesCounted (replies_of db.replies) db.threads
  pub reply_likes_counted : ReplyLikesCounted (reply_likes_of db.reply_likes) db.replies
  pub threads_counted : ThreadsCounted (threads_of db.threads) db.categories

-- An edit of threads that leaves them in their category, deleted or not as before.
pub record KeepsPlace (f : ForumThread → ForumThread) : Type 0 where
  pub id : (t : ForumThread) → (f t).id ≡ t.id
  pub category_id : (t : ForumThread) → (f t).category_id ≡ t.category_id
  pub deleted_at : (t : ForumThread) → (f t).deleted_at ≡ t.deleted_at

module _ (orm : Orm) (q : ForumThread → Bool) (f : ForumThread → ForumThread) (keeps : KeepsPlace f)
    (threads : List ForumThread) where
  pub ThreadsCounted-update :
      (categories : List ForumCategory)
      → ThreadsCounted (threads_of threads) categories
      → ThreadsCounted (threads_of (orm.update q f threads)) categories
  ThreadsCounted-update categories =
      Tallied-congr (λ (c : ForumCategory). c.id) (λ c. c.threads_count) (threads_of threads)
        (threads_of (orm.update q f threads)) categories
        (λ k.
          count_if-update_same orm _ q f threads (λ t. rw (keeps.category_id, keeps.deleted_at)))

-- An edit that touches no counter.
pub edited-IsWellFormed :
    (orm : Orm) (q : ForumThread → Bool) (f : ForumThread → ForumThread) (db : Db)
    → KeepsPlace f
    → ((t : ForumThread) → (f t).likes_count ≡ t.likes_count)
    → ((t : ForumThread) → (f t).replies_count ≡ t.replies_count)
    → IsWellFormed db
    → IsWellFormed (record db { threads = orm.update q f db.threads })
edited-IsWellFormed orm q f db keeps likes replies wf = record {
  thread_ids = HasUniqueIds-update orm _ db.threads q f keeps.id wf.thread_ids;
  reply_ids = wf.reply_ids;
  likes = wf.likes;
  subscriptions = wf.subscriptions;
  reply_likes = wf.reply_likes;
  likes_counted =
      Tallied-update orm (λ (t : ForumThread). t.id) (λ t. t.likes_count) db.threads _ f keeps.id q
        likes wf.likes_counted;
  replies_counted =
      Tallied-update orm (λ (t : ForumThread). t.id) (λ t. t.replies_count) db.threads _ f keeps.id
        q replies wf.replies_counted;
  reply_likes_counted = wf.reply_likes_counted;
  threads_counted = ThreadsCounted-update orm q f keeps db.threads db.categories wf.threads_counted;
}

-- The tables that a call leaves are well-formed.
abbrev pub Leaves : {A : Type 0} → Outcome Db A → Type 0
Leaves o = IsWellFormed (state_of o)

-- A call that leaves the tables as they were.
pub unchanged :
    {A : Type 0} {db : Db} → IsWellFormed db → (o : Outcome Db A) → state_of o ≡ db → Leaves o
unchanged wf o e = subst IsWellFormed (sym e) wf
