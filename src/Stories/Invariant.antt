-- ===== src/Stories/Invariant.antt =====
-- What holds of the tables of stories whatever is called: the counter of views is the number of
-- users who have viewed the story, its owner is none of them, and every view is of a story.
use rideway_api.Prelude.{
  ℕ, ◌≤◌, ◌≡◌, sym, ap, ◌∙◌, inl, inr, Bool, true, false, not, List, ◌==◌, eq_of_==, pos, arith,
  count_if, count_if_congr, mem-filter_if, Bool-cases,
}
use mathlib.Core.List.{Mem}
use mathlib.Core.List.Perm
use rideway_api.Database.{Orm, Every, HasUniqueIds}
use rideway_api.Database.Rows.{count_if-delete, HasUniqueIds-delete}
use rideway_api.Database.Tallies.{Tallied}
use rideway_api.Database.Toggles.{IsToggleTable}
use rideway_api.Database.Pairs.{IsToggleTable-delete_any}
use rideway_api.Stories.{Story, StoryView, Db, is_view_by, delete_stories, forget_images}

-- The users who have viewed a story.
abbrev pub viewers_of : ℕ → List StoryView → ℕ
viewers_of id views = count_if (λ v. v.story_id == id) views

abbrev pub ViewsCounted : Db → Type 0
ViewsCounted db =
    Tallied (λ (s : Story). s.id) (λ s. s.views_count) (λ k. viewers_of k db.views) db.stories

abbrev pub OwnersUncounted : Db → Type 0
OwnersUncounted db = Every (λ s. count_if (is_view_by s.id s.user_id) db.views ≡ 0) db.stories

-- The foreign key of a view.
abbrev pub ViewsExist : Db → Type 0
ViewsExist db = Every (λ v. 1 ≤ count_if (λ s. s.id == v.story_id) db.stories) db.views

pub record IsWellFormed (db : Db) : Type 0 where
  pub story_ids : HasUniqueIds (λ (s : Story). s.id) db.stories
  pub views_table :
      IsToggleTable (λ (v : StoryView). v.id) (λ v. v.story_id) (λ v. v.user_id) db.views
  pub views_counted : ViewsCounted db
  pub not_own : OwnersUncounted db
  pub views_exist : ViewsExist db

-- Rows that a deletion leaves do not satisfy its condition.
pub kept_row :
    {E : Type 0} (orm : Orm) (q : E → Bool) (rows : List E) {e : E}
    → Mem e (orm.delete q rows)
    → Mem e rows × (q e ≡ false)
kept_row orm q rows {e} m =
    let (here, kept) =
      mem-filter_if (λ x. not (q x)) rows ((Perm.mem_iff (orm.delete-perm q rows)).0 m) in
    (here, is_false (q e) kept)
  where
    is_false : (b : Bool) → not b ≡ true → b ≡ false
    is_false b h = ground arith

module _ (orm : Orm) (gone : ℕ → Bool) (db : Db) where
  abbrev left : Db
  left = delete_stories orm gone db

  -- Deleting other stories keeps every view of a story that stays.
  views-kept :
      (p : StoryView → Bool) (id : ℕ)
      → gone id ≡ false
      → ((v : StoryView) → p v ≡ true → v.story_id ≡ id)
      → count_if p left.views ≡ count_if p db.views
  views-kept p id stays at =
      count_if-delete orm p (λ v. gone v.story_id) db.views
      ∙ count_if_congr _ _ db.views (λ v. elim (Bool-cases (p v)) [
        | inl here ↦
            let same : gone v.story_id ≡ false = ap gone (at v here) ∙ stays in ground (arith, same)
        | inr other ↦ ground (arith, other)
      ])

  -- The same of the stories.
  stories-kept :
      (id : ℕ)
      → gone id ≡ false
      → count_if (λ s. s.id == id) left.stories ≡ count_if (λ s. s.id == id) db.stories
  stories-kept id stays =
      count_if-delete orm (λ s. s.id == id) (λ s. gone s.id) db.stories
      ∙ count_if_congr _ _ db.stories (λ s. elim (Bool-cases (s.id == id)) [
        | inl here ↦
            let same : gone s.id ≡ false = ap gone (eq_of_== _ _ here) ∙ stays in
            ground (arith, same)
        | inr other ↦ ground (arith, other)
      ])

  pub delete_stories-IsWellFormed : IsWellFormed db → IsWellFormed left
  delete_stories-IsWellFormed wf = record {
    story_ids = HasUniqueIds-delete orm _ db.stories _ wf.story_ids;
    views_table = IsToggleTable-delete_any _ _ _ orm db.views wf.views_table (λ v. gone v.story_id);
    views_counted = λ s m.
        let (here, stays) = kept_row orm (λ x. gone x.id) db.stories m in
        wf.views_counted s here
        ∙ ap pos (sym (views-kept (λ v. v.story_id == s.id) s.id stays (λ v e. eq_of_== _ _ e)));
    not_own = λ s m.
        let (here, stays) = kept_row orm (λ x. gone x.id) db.stories m in
        views-kept (is_view_by s.id s.user_id) s.id stays (λ v e. ground arith) ∙ wf.not_own s here;
    views_exist = λ v m.
        let (here, stays) = kept_row orm (λ x. gone x.story_id) db.views m in
        rw (stories-kept v.story_id stays) (wf.views_exist v here);
  }

pub forget_images-IsWellFormed :
    (orm : Orm) (db : Db)
    → IsWellFormed db
    → (stories : List Story) → IsWellFormed (forget_images orm stories db)
forget_images-IsWellFormed orm db wf stories = record {
  story_ids = wf.story_ids;
  views_table = wf.views_table;
  views_counted = wf.views_counted;
  not_own = wf.not_own;
  views_exist = wf.views_exist;
}
