-- ===== src/Stories/History.antt =====
-- Any sequence of calls on stories, successful or throwing, and of runs of the hourly job.
use rideway_api.Prelude.{
  ℕ, ◌≡◌, refl, ◌⊎◌, inl, inr, [], ◌∷◌, true, false, Option, none, some, ◌==◌, count_if, arith,
  Bool-cases, Option-cases,
}
use rideway_api.Database.{Orm}
use rideway_api.Action.{state_of}
use rideway_api.Blocking.{is_user_blocked}
use rideway_api.Stories.{
  Story, StoryView, Db, CreateStoryDto, StoryFile, Media, linked_media, uploaded_media,
  delete_stories, forget_images, save_story, live_story, given_url, create, mark_as_viewed,
  find_one, delete, delete_expired,
}
use rideway_api.Stories.Invariant.{
  IsWellFormed, delete_stories-IsWellFormed, forget_images-IsWellFormed,
}
use rideway_api.Stories.Viewing.{insert-IsWellFormed}
use rideway_api.Stories.Marking.{mark_as_viewed_lem}
use rideway_api.Stories.Cleaning.{delete_expired_lem}

-- New rows have new ids.
pub data Step (orm : Orm) (db : Db) : Db → Type 0 where
  created :
      (id now user_id : ℕ) (dto : CreateStoryDto) (file : Option StoryFile)
      → count_if (λ (s : Story). s.id == id) db.stories ≡ 0
      → Step orm db (state_of (create orm id now user_id dto file db))
  viewed :
      (view_id now story_id user_id : ℕ)
      → count_if (λ (v : StoryView). v.id == view_id) db.views ≡ 0
      → Step orm db (state_of (mark_as_viewed orm view_id now story_id user_id db))
  deleted : (id user_id : ℕ) → Step orm db (state_of (delete orm id user_id db))
  cleaned : (now : ℕ) → Step orm db (delete_expired orm now db)

pub data StoriesReach (orm : Orm) (db : Db) : Db → Type 0 where
  here : StoriesReach orm db db
  next : {db' db'' : Db} → StoriesReach orm db db' → Step orm db' db'' → StoriesReach orm db db''

answer-cases : {A B : Type 0} (x : A ⊎ B) → ((a : A) × (x ≡ inl a)) ⊎ ((b : B) × (x ≡ inr b))
answer-cases (inl a) = inl (a, refl)
answer-cases (inr b) = inr (b, refl)

module _ (orm : Orm) (db : Db) (wf : IsWellFormed db) where
  abbrev saved : (id now user_id : ℕ) → CreateStoryDto → Media → Db
  saved id now user_id dto media = state_of (save_story orm id now user_id dto media db)

  saved-IsWellFormed :
      (id now user_id : ℕ) (dto : CreateStoryDto) (media : Media)
      → count_if (λ (s : Story). s.id == id) db.stories ≡ 0
      → IsWellFormed (saved id now user_id dto media)
  saved-IsWellFormed id now user_id dto media fresh = elim (Option-cases (given_url media.url)) [
    | inl missing ↦ rw missing wf
    | inr (url, given) ↦ rw given (insert-IsWellFormed orm db wf _ fresh refl)
  ]

  create-IsWellFormed :
      (id now user_id : ℕ) (dto : CreateStoryDto) (file : Option StoryFile)
      → count_if (λ (s : Story). s.id == id) db.stories ≡ 0
      → IsWellFormed (state_of (create orm id now user_id dto file db))
  unfolding create
  create-IsWellFormed id now user_id dto none fresh =
      saved-IsWellFormed id now user_id dto (linked_media dto) fresh
  create-IsWellFormed id now user_id dto (some file) fresh = elim (answer-cases file.uploaded) [
    | inl (e, refused) ↦ rw refused wf
    | inr ((url, thumbnail_url), answer) ↦ rw answer (
        saved-IsWellFormed id now user_id dto (uploaded_media dto file.is_video url thumbnail_url)
          fresh)
  ]

  module _ (view_id now story_id user_id : ℕ) where
    unseen :
        orm.find_one (live_story now story_id) db.stories ≡ none
        → state_of (mark_as_viewed orm view_id now story_id user_id db) ≡ db
    unfolding mark_as_viewed find_one
    unseen missing = ground (arith, missing)

    blocked_viewer :
        {story : Story}
        → orm.find_one (live_story now story_id) db.stories ≡ some story
        → is_user_blocked orm user_id story.user_id db.blocks ≡ true
        → state_of (mark_as_viewed orm view_id now story_id user_id db) ≡ db
    unfolding mark_as_viewed find_one
    blocked_viewer found blocked = ground (arith, found, blocked)

    mark_as_viewed-IsWellFormed :
        count_if (λ (v : StoryView). v.id == view_id) db.views ≡ 0
        → IsWellFormed (state_of (mark_as_viewed orm view_id now story_id user_id db))
    mark_as_viewed-IsWellFormed fresh =
        elim (Option-cases (orm.find_one (live_story now story_id) db.stories)) [
          | inl missing ↦ rw (unseen missing) wf
          | inr (story, found) ↦
              elim (Bool-cases (is_user_blocked orm user_id story.user_id db.blocks)) [
                | inl blocked ↦ rw (blocked_viewer found blocked) wf
                | inr unblocked ↦
                    let (db', e, _, _, wf') =
                      mark_as_viewed_lem orm db wf view_id now story_id user_id fresh found
                        unblocked in
                    rw e wf'
              ]
        ]

  module _ (id user_id : ℕ) where
    undeleted :
        orm.find_one (λ (x : Story). x.id == id) db.stories ≡ none
        → state_of (delete orm id user_id db) ≡ db
    unfolding delete
    undeleted missing = ground (arith, missing)

    other_deleted :
        {story : Story}
        → orm.find_one (λ (x : Story). x.id == id) db.stories ≡ some story
        → (story.user_id == user_id) ≡ false
        → state_of (delete orm id user_id db) ≡ db
    unfolding delete
    other_deleted found other = ground (arith, found, other)

    own_deleted :
        {story : Story}
        → orm.find_one (λ (x : Story). x.id == id) db.stories ≡ some story
        → (story.user_id == user_id) ≡ true
        → state_of (delete orm id user_id db)
          ≡ delete_stories orm (λ i. i == id) (forget_images orm (story ∷ []) db)
    unfolding delete
    own_deleted found own = ground (arith, found, own)

    delete-IsWellFormed : IsWellFormed (state_of (delete orm id user_id db))
    delete-IsWellFormed =
        elim (Option-cases (orm.find_one (λ (x : Story). x.id == id) db.stories)) [
          | inl missing ↦ rw (undeleted missing) wf
          | inr (story, found) ↦ elim (Bool-cases (story.user_id == user_id)) [
            | inl own ↦ rw (own_deleted found own) (
                delete_stories-IsWellFormed orm (λ i. i == id) _
                  (forget_images-IsWellFormed orm db wf (story ∷ [])))
            | inr other ↦ rw (other_deleted found other) wf
          ]
        ]

module _ (orm : Orm) where
  Step-IsWellFormed : {db db' : Db} → Step orm db db' → IsWellFormed db → IsWellFormed db'
  Step-IsWellFormed {db} (created id now user_id dto file fresh) wf =
      create-IsWellFormed orm db wf id now user_id dto file fresh
  Step-IsWellFormed {db} (viewed view_id now story_id user_id fresh) wf =
      mark_as_viewed-IsWellFormed orm db wf view_id now story_id user_id fresh
  Step-IsWellFormed {db} (deleted id user_id) wf = delete-IsWellFormed orm db wf id user_id
  Step-IsWellFormed {db} (cleaned now) wf =
      let (_, _, wf') = delete_expired_lem orm now db wf now 0 (omega arith) in wf'

  -- Well-formed tables of stories stay well-formed, whatever stories are created with new ids,
  -- viewed with new ids for the views, deleted and cleaned up, in any order, successfully or not:
  -- each counter of views is the number of rows of views of the story, a user has at most one of
  -- them, the owner has none, and every view is of a story.
  pub StoriesReach-IsWellFormed :
      {db db' : Db} → StoriesReach orm db db' → IsWellFormed db → IsWellFormed db'
  StoriesReach-IsWellFormed here wf = wf
  StoriesReach-IsWellFormed (next reach step) wf =
      Step-IsWellFormed step (StoriesReach-IsWellFormed reach wf)
