-- ===== src/Stories/Viewing.antt =====
-- `create` and `mark_as_viewed` keep the invariant, and what a view changes.
use native.Mathlib.Bridge.{le_prop}
use native.Mathlib.Nat.{ℕ_set}
use rideway_api.Prelude.{
  ℕ, ◌≤◌, ◌≡◌, refl, sym, ap, ◌∙◌, inl, inr, false, ◌&&◌, none, ◌==◌, eq_of_==, pos, ℤ_set, arith,
  bit, count_if, count_if_split, count_if-pos_of_mem, count_if-zero_of_none, Bool-cases,
}
use rideway_api.Database.{Orm, Every}
use rideway_api.Database.Rows.{
  count_if-insert, count_if-update_same, HasUniqueIds-insert, HasUniqueIds-update, Every-insert,
  Every-update,
}
use rideway_api.Database.Tallies.{Tallied-up}
use rideway_api.Database.Toggles.{IsToggleTable-insert, tally_of-insert}
use rideway_api.Stories.{Story, StoryView, Db, is_view_by, more_views, add_view}
use rideway_api.Stories.Invariant.{IsWellFormed, viewers_of}

module _ (orm : Orm) (db : Db) (wf : IsWellFormed db) where
  -- A story with an id that no story has.
  pub insert-IsWellFormed :
      (story : Story)
      → count_if (λ (s : Story). s.id == story.id) db.stories ≡ 0
      → story.views_count ≡ pos 0
      → IsWellFormed (record db { stories = orm.insert story db.stories })
  insert-IsWellFormed story fresh uncounted = record {
    story_ids = HasUniqueIds-insert orm _ db.stories story fresh wf.story_ids;
    views_table = wf.views_table;
    views_counted =
        Every-insert orm story db.stories (λ x. ℤ_set _ _) (uncounted ∙ ap pos (sym unviewed))
          wf.views_counted;
    not_own =
        Every-insert orm story db.stories (λ x. ℕ_set _ _)
          (omega (
            arith,
            unviewed,
            count_if_split (λ v. v.story_id == story.id) (λ v. v.user_id == story.user_id) db.views,
          ))
          wf.not_own;
    views_exist = λ v m.
        omega (
          arith,
          wf.views_exist v m,
          count_if-insert orm (λ s. s.id == v.story_id) story db.stories,
        );
  }
    where
      unviewed : viewers_of story.id db.views ≡ 0
      unviewed =
          count_if-zero_of_none (λ v. v.story_id == story.id) db.views
            (λ v m. elim (Bool-cases (v.story_id == story.id)) [
              | inl e ↦ absurd (
                  omega (
                    arith,
                    wf.views_exist v m,
                    ap (λ (i : ℕ). count_if (λ (s : Story). s.id == i) db.stories) (eq_of_== _ _ e),
                    fresh,
                  ))
              | inr e ↦ e
            ])

module _ (orm : Orm) (db : Db) (wf : IsWellFormed db) (view_id now story_id user_id : ℕ) where
  abbrev view : StoryView
  view = record { id = view_id; story_id = story_id; user_id = user_id; viewed_at = now }

  -- A first view of a story that is someone else's.
  pub first_view-IsWellFormed :
      count_if (λ (v : StoryView). v.id == view_id) db.views ≡ 0
      → 1 ≤ count_if (λ (s : Story). s.id == story_id) db.stories
      → count_if (λ (s : Story). s.id == story_id && s.user_id == user_id) db.stories ≡ 0
      → orm.find_one (is_view_by story_id user_id) db.views ≡ none
      → IsWellFormed (add_view orm view_id now story_id user_id false db)
  first_view-IsWellFormed fresh there others missing = record {
    story_ids = HasUniqueIds-update orm _ db.stories _ more_views (λ s. refl) wf.story_ids;
    views_table =
        IsToggleTable-insert _ _ _ orm db.views wf.views_table story_id user_id view refl refl fresh
          missing;
    views_counted =
        Tallied-up orm (λ (s : Story). s.id) (λ s. s.views_count) db.stories
          (λ k. viewers_of k db.views) more_views (λ s. refl)
          (λ k. viewers_of k (orm.insert view db.views)) story_id (λ s. refl)
          (tally_of-insert _ _ _ orm db.views wf.views_table story_id user_id view refl refl fresh
            missing)
          wf.views_counted;
    not_own =
        Every-update orm (λ s. s.id == story_id) more_views db.stories (λ x. ℕ_set _ _) (λ s _ h. h)
          (λ s _ h. h) still_others;
    views_exist = λ v m. rw (same_stories v.story_id) (exist v m);
  }
    where
      same_stories :
          (i : ℕ)
          → count_if
              (λ s. s.id == i)
              (orm.update (λ (s : Story). s.id == story_id) more_views db.stories)
            ≡ count_if (λ s. s.id == i) db.stories
      same_stories i = count_if-update_same orm (λ s. s.id == i) _ more_views db.stories (λ s. refl)

      exist :
          Every (λ v. 1 ≤ count_if (λ s. s.id == v.story_id) db.stories) (orm.insert view db.views)
      exist = Every-insert orm view db.views (λ v. le_prop) there wf.views_exist

      still_others :
          Every
            (λ s. count_if (is_view_by s.id s.user_id) (orm.insert view db.views) ≡ 0)
            db.stories
      still_others s m = elim (Bool-cases (s.id == story_id && s.user_id == user_id)) [
        | inl mine ↦ absurd (
            omega (
              arith,
              count_if-pos_of_mem (λ (x : Story). x.id == story_id && x.user_id == user_id)
                  db.stories m mine,
              others,
            ))
        | inr other ↦ omega (
          arith,
          count_if-insert orm (is_view_by s.id s.user_id) view db.views,
          ap bit (not_mine s other),
          wf.not_own s m,
        )
      ]
        where
          not_mine :
              (s : Story)
              → (s.id == story_id && s.user_id == user_id) ≡ false
              → is_view_by s.id s.user_id view ≡ false
          not_mine s other = ground arith
