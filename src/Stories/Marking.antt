-- ===== src/Stories/Marking.antt =====
-- What a call of `mark_as_viewed` changes.
use rideway_api.Prelude.{
  ℕ, ◌+◌, ◌≤◌, ◌≡◌, refl, sym, ap, ◌∙◌, Bool, true, false, not, ◌&&◌, ◌||◌, none, some, ◌==◌,
  ==_true, eq_of_==, arith, bit, ltb, is_some, count_if, count_if_split, if◌then◌else◌, Option,
}
use rideway_api.Database.{Orm, has}
use rideway_api.Database.Rows.{count_if-insert, count_if-find_one}
use rideway_api.Database.Presence.{has-count_if, has-insert}
use rideway_api.Action.{done}
use rideway_api.Blocking.{is_user_blocked}
use rideway_api.Stories.{
  Story, StoryView, Db, live_story, is_view_by, add_view, mark_as_viewed, find_one,
}
use rideway_api.Stories.Invariant.{IsWellFormed, viewers_of}
use rideway_api.Stories.Viewing.{first_view-IsWellFormed}

is_view_by_self :
    (id now story_id user_id : ℕ)
    → is_view_by story_id user_id
        (record { id = id; story_id = story_id; user_id = user_id; viewed_at = now })
      ≡ true
is_view_by_self id now story_id user_id = ground arith

module _ (orm : Orm) (db : Db) (wf : IsWellFormed db) (view_id now story_id user_id : ℕ)
    (fresh : count_if (λ (v : StoryView). v.id == view_id) db.views ≡ 0) {story : Story}
    (found : orm.find_one (live_story now story_id) db.stories ≡ some story) where
  abbrev own : Bool
  own = story.user_id == user_id

  abbrev had : Bool
  had = has orm (is_view_by story_id user_id) db.views

  abbrev after : (own had : Bool) → Db
  after own had = if own then db else add_view orm view_id now story_id user_id had db

  holds : live_story now story_id story ≡ true
  holds = (orm.find_one-some _ db.stories found).1

  is_its_id : story.id ≡ story_id
  is_its_id = at holds
    where
      at : live_story now story_id story ≡ true → story.id ≡ story_id
      at h = ground arith

  there : 1 ≤ count_if (λ (s : Story). s.id == story_id) db.stories
  there = count_if-find_one orm _ (λ s. s.id == story_id) db.stories found (==_true _ _ is_its_id)

  -- Ids are unique, so no story of this id is the viewer's.
  not_theirs :
      own ≡ false
      → count_if (λ (s : Story). s.id == story_id && s.user_id == user_id) db.stories ≡ 0
  not_theirs other = omega (
    arith,
    wf.story_ids story_id,
    count_if_split (λ (s : Story). s.id == story_id) (λ s. s.user_id == user_id) db.stories,
    count_if-find_one orm _ (λ s. s.id == story_id && not (s.user_id == user_id)) db.stories found
        (rw (==_true _ _ is_its_id, other) refl),
  )

  -- Nobody views a story of their own.
  never_own : own ≡ true → had ≡ false
  never_own mine = has-count_if orm _ db.views ∙ ap (λ (n : ℕ). ltb 0 n) none_of_theirs
    where
      none_of_theirs : count_if (is_view_by story_id user_id) db.views ≡ 0
      none_of_theirs =
          ap (λ (i : ℕ). count_if (is_view_by i user_id) db.views) (sym is_its_id)
          ∙ ap (λ (u : ℕ). count_if (is_view_by story.id u) db.views) (sym (eq_of_== _ _ mine))
          ∙ wf.not_own story (orm.find_one-some _ db.stories found).0

  abbrev Viewed : (own had : Bool) → Type 0
  Viewed o h =
      (has orm (is_view_by story_id user_id) (after o h).views ≡ not o)
      × (viewers_of story_id (after o h).views
          ≡ viewers_of story_id db.views + bit (not o && not h))
      × IsWellFormed (after o h)

  viewed : (o h : Bool) → own ≡ o → had ≡ h → Viewed o h
  viewed true h mine before = (never_own mine, omega arith, wf)
  viewed false true other before = (before, omega arith, wf)
  viewed false false other before =
      let new : StoryView = record {
        id = view_id;
        story_id = story_id;
        user_id = user_id;
        viewed_at = now;
      } in
      (
        has-insert orm (is_view_by story_id user_id) new db.views
            ∙ ap (λ (b : Bool). b || had) (is_view_by_self view_id now story_id user_id),
        omega (
          arith,
          count_if-insert orm (λ v. v.story_id == story_id) new db.views,
          ap bit (==_true story_id story_id refl),
        ),
        first_view-IsWellFormed orm db wf view_id now story_id user_id fresh there
            (not_theirs other)
            (missing (orm.find_one (is_view_by story_id user_id) db.views) before),
      )
    where
      missing : {A : Type 0} (o : Option A) → is_some o ≡ false → o ≡ none
      missing none h = refl
      missing (some a) h = ground (arith, h)

  mark_as_viewed-after :
      is_user_blocked orm user_id story.user_id db.blocks ≡ false
      → mark_as_viewed orm view_id now story_id user_id db ≡ done tt (after own had)
  unfolding mark_as_viewed find_one
  mark_as_viewed-after unblocked = ground (arith, found, unblocked)

  -- On a live story whose owner is in no block with the user, in well-formed tables and with a new
  -- id for the view, `mark_as_viewed` succeeds. Afterwards the user has viewed the story unless
  -- they own it, the story's viewers are one more if the user is not its owner and had not viewed
  -- it, and as many as before otherwise, and the tables are well-formed.
  pub mark_as_viewed_lem :
      is_user_blocked orm user_id story.user_id db.blocks ≡ false
      → (db' : Db) × (mark_as_viewed orm view_id now story_id user_id db ≡ done tt db')
        × (has orm (is_view_by story_id user_id) db'.views ≡ not (story.user_id == user_id))
        × (viewers_of story_id db'.views
            ≡ viewers_of story_id db.views
              + bit (
                  not (story.user_id == user_id)
                  && not (has orm (is_view_by story_id user_id) db.views)))
        × IsWellFormed db'
  mark_as_viewed_lem unblocked =
      let (seen, counted, wf') = viewed own had refl refl in
      (after own had, mark_as_viewed-after unblocked, seen, counted, wf')
