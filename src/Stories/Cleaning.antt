-- ===== src/Stories/Cleaning.antt =====
-- What the hourly job leaves: no expired story, and every other one as users see it.
use mathlib.Core.List.{Mem, Perm}
use mathlib.Core.List.Perm
use rideway_api.Prelude.{
  ℕ, ◌≤◌, ◌≡◌, refl, sym, ap, ◌∙◌, inl, inr, true, false, not, ◌&&◌, List, ◌==◌, ==_true, map,
  arith, ltb, count_if, count_if_split, count_if-pos_of_mem, Bool-cases,
}
use rideway_api.Prelude.Sets.{contains}
use rideway_api.Prelude.Filters.{filter-Perm, filter-kept, Perm-of}
use rideway_api.Database.{Orm, Every, unordered}
use rideway_api.Database.Presence.{contains-find, has-count_if}
use rideway_api.Stories.{Story, Db, live_story_of, is_expired, active_stories, delete_expired}
use rideway_api.Stories.Invariant.{
  IsWellFormed, kept_row, delete_stories-IsWellFormed, forget_images-IsWellFormed,
}

module _ (orm : Orm) (now : ℕ) (db : Db) (wf : IsWellFormed db) where
  abbrev expired_ids : List ℕ
  expired_ids = map (λ (s : Story). s.id) (orm.find (is_expired now) unordered db.stories)

  -- Ids are unique, so the job's condition on ids is its condition on stories.
  expired_ids-is_expired :
      (s : Story) → Mem s db.stories → contains expired_ids s.id ≡ is_expired now s
  expired_ids-is_expired s m =
      contains-find orm (λ (x : Story). x.id) (is_expired now) unordered db.stories s.id
      ∙ has-count_if orm (λ x. x.id == s.id && is_expired now x) db.stories
      ∙ elim (Bool-cases (is_expired now s)) [
        | inl old ↦
            positive _ (
              count_if-pos_of_mem (λ x. x.id == s.id && is_expired now x) db.stories m
                (rw (==_true s.id s.id refl, old) refl))
            ∙ sym old
        | inr live ↦
            let gone : count_if (λ x. x.id == s.id && is_expired now x) db.stories ≡ 0 = omega (
              arith,
              wf.story_ids s.id,
              count_if_split (λ (x : Story). x.id == s.id) (is_expired now) db.stories,
              count_if-pos_of_mem (λ x. x.id == s.id && not (is_expired now x)) db.stories m
                  (rw (==_true s.id s.id refl, live) refl),
            ) in
            ap (λ (n : ℕ). ltb 0 n) gone ∙ sym live
      ]
    where
      positive : (n : ℕ) → 1 ≤ n → ltb 0 n ≡ true
      positive n h = ground arith

  -- The stories of a user that are active at `later`, now or after.
  abbrev cleaned : Db
  cleaned = delete_expired orm now db

  active-kept :
      (later user_id : ℕ)
      → now ≤ later
      → (s : Story) → Mem s db.stories
      → live_story_of later user_id s ≡ true
      → contains expired_ids s.id ≡ false
  active-kept later user_id after s m active = expired_ids-is_expired s m ∙ not_expired active
    where
      not_expired : live_story_of later user_id s ≡ true → is_expired now s ≡ false
      not_expired h = ground arith

  -- When the hourly job has run at `now` on well-formed tables, no story is left that expired
  -- before `now`; for every user and every time from `now` on, the query for the user's active
  -- stories answers the same stories as without the job, each as often, whatever their order; and
  -- the tables are well-formed.
  pub delete_expired_lem :
      (later user_id : ℕ)
      → now ≤ later
      → Every (λ s. is_expired now s ≡ false) cleaned.stories
        × Perm (active_stories orm later user_id cleaned) (active_stories orm later user_id db)
        × IsWellFormed cleaned
  unfolding delete_expired
  delete_expired_lem later user_id after = (
    λ s m.
        let (here, kept) = kept_row orm (λ x. contains expired_ids x.id) db.stories m in
        sym (expired_ids-is_expired s here) ∙ kept,
    Perm.trans (orm.find-perm _ _ _) (
        Perm.trans (filter-Perm (live_story_of later user_id) (orm.delete-perm _ db.stories)) (
          Perm.trans
            (Perm-of (
              filter-kept (live_story_of later user_id) (λ s. contains expired_ids s.id) db.stories
                (active-kept later user_id after)))
            (Perm.symm (orm.find-perm _ _ db.stories)))),
    delete_stories-IsWellFormed orm (contains expired_ids) _
        (forget_images-IsWellFormed orm db wf (orm.find (is_expired now) unordered db.stories)),
  )
