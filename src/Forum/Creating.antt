-- ===== src/Forum/Creating.antt =====
-- `create`: a new thread, counted by its category, with its author subscribed.
use mathlib.Core.Path.{subst}
use rideway_api.Prelude.{
  ℕ, ◌≡◌, refl, sym, ap, ◌∙◌, inl, inr, ◌⊎◌, Bool, true, false, not, Option, none, some, ◌==◌,
  arith, count_if, count_if_mono, Option-cases,
}
use rideway_api.Database.{Orm}
use rideway_api.Database.Rows.{find_one-is_none, find_one-insert}
use rideway_api.Action.{done, raised, state_of, not_found}
use rideway_api.Forum.{
  ForumCategory, ForumThread, ThreadSubscription, Db, live_thread, find_one, find_category,
  increment_threads_count, add_threads, is_subscription,
}
use rideway_api.Forum.Threads.{CreateThreadDto, new_thread, create, subscribe}
use rideway_api.Forum.Invariant.{IsWellFormed, replies_of, likes_of, Leaves, unchanged}
use rideway_api.Forum.Calls.{subscribe_lem}
use rideway_api.Forum.Toggling.{has_subscription}
use rideway_api.Forum.Posting.{posted-IsWellFormed, find_one-state}

-- The ids that the database generates: no row has the id, or refers to it.
pub record IsFresh (new_id subscription_id : ℕ) (db : Db) : Type 0 where
  pub no_thread : count_if (λ (t : ForumThread). t.id == new_id) db.threads ≡ 0
  pub no_like : likes_of db.likes new_id ≡ 0
  pub no_reply : replies_of db.replies new_id ≡ 0
  pub no_subscriber :
      count_if (λ (s : ThreadSubscription). s.thread_id == new_id) db.subscriptions ≡ 0
  pub no_subscription :
      count_if (λ (s : ThreadSubscription). s.id == subscription_id) db.subscriptions ≡ 0

module _ (orm : Orm) (new_id subscription_id now user_id : ℕ) (dto : CreateThreadDto)
    (db : Db) where
  abbrev category : Option ForumCategory
  category = orm.find_one (λ c. c.id == dto.category_id) db.categories

  abbrev posted : Db
  posted = record db {
    threads = orm.insert (new_thread new_id now user_id dto) db.threads;
    categories = orm.update (λ c. c.id == dto.category_id) add_threads db.categories;
    cached_categories = none;
  }

  create_refused :
      category ≡ none
      → create orm new_id subscription_id now user_id dto db
        ≡ raised (not_found "Category not found") db
  unfolding create find_category
  create_refused missing = ground (arith, missing)

  create-eq :
      {c : ForumCategory} {b : Bool} {after : Db}
      → category ≡ some c
      → subscribe orm subscription_id new_id user_id posted ≡ done b after
      → create orm new_id subscription_id now user_id dto db
        ≡ find_one orm new_id (some user_id) after
  unfolding create find_category increment_threads_count
  create-eq found e = ground (arith, found, e)

  module _ (wf : IsWellFormed db) (fresh : IsFresh new_id subscription_id db) where
    posted-wf : IsWellFormed posted
    posted-wf =
        posted-IsWellFormed orm db wf (new_thread new_id now user_id dto) refl refl refl
          fresh.no_thread fresh.no_like fresh.no_reply

    self : live_thread new_id (new_thread new_id now user_id dto) ≡ true
    self = ground arith

    no_live : count_if (live_thread new_id) db.threads ≡ 0
    no_live = omega (
      arith,
      fresh.no_thread,
      count_if_mono (live_thread new_id) (λ t. t.id == new_id) db.threads (λ t. ground arith),
    )

    no_pair : has_subscription orm new_id user_id db.subscriptions ≡ false
    no_pair = find_one-is_none orm (is_subscription new_id user_id) db.subscriptions (
        omega (
          arith,
          fresh.no_subscriber,
          count_if_mono (is_subscription new_id user_id) (λ s. s.thread_id == new_id)
              db.subscriptions (λ s. ground arith),
        ))

    -- On well-formed tables and with new ids, `create` throws "Category not found" and writes nothing
    -- where the category is missing; where it is there, `create` reads the new thread back from tables
    -- that are well-formed again, in which the author is subscribed to the thread.
    pub create-has_subscription :
        ((category ≡ none)
          × (create orm new_id subscription_id now user_id dto db
              ≡ raised (not_found "Category not found") db))
        ⊎ ((c : ForumCategory) × (db' : Db) × (category ≡ some c)
            × (create orm new_id subscription_id now user_id dto db
                ≡ find_one orm new_id (some user_id) db')
            × IsWellFormed db'
            × (has_subscription orm new_id user_id db'.subscriptions ≡ true))
    create-has_subscription = elim (Option-cases category) [
      | inl missing ↦ inl (missing, create_refused missing)
      | inr (c, found) ↦
          let (t, there, _) =
            find_one-insert {P = λ _. Unit {0}} orm (live_thread new_id)
              (new_thread new_id now user_id dto) db.threads (λ _ _ _. refl) no_live self tt in
          let (db', e, has, wf') =
            subscribe_lem orm subscription_id new_id user_id posted posted-wf fresh.no_subscription
              there in
          inr (c, db', found, create-eq found e, wf', has ∙ ap not no_pair)
    ]

    pub create-IsWellFormed : Leaves (create orm new_id subscription_id now user_id dto db)
    create-IsWellFormed = elim create-has_subscription [
      | inl (_, e) ↦
          unchanged wf (create orm new_id subscription_id now user_id dto db) (ap state_of e)
      | inr (_, db', _, e, wf', _) ↦
          subst Leaves (sym e)
            (subst IsWellFormed (sym (find_one-state orm new_id (some user_id) db')) wf')
    ]
