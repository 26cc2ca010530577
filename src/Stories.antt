-- ===== src/Stories.antt =====
-- StoriesService, src/modules/social/stories/stories.service.ts: stories, who has viewed them, and
-- the hourly job that deletes the expired ones. Times are milliseconds. MediaService is a
-- parameter of `create`, which takes what `uploadImage` answers; the images whose deletion is asked
-- of it are a log, since the service goes on when a deletion fails. The rows of views go with
-- their story, as the foreign key of src/modules/social/stories/entities says.
pub mod Invariant
pub mod Viewing
pub mod Marking
pub mod Cleaning
pub mod History
pub mod Tests
use text.Mathlib.Text.{◌==◌ as text_eq}
use rideway_api.Prelude.{
  ℕ, ◌+◌, ◌*◌, Bool, true, false, not, ◌&&◌, Option, none, some, String, List, [], ◌∷◌, ◌++◌, map,
  ◌⊎◌, inl, inr, ◌==◌, ltb, is_some, or_else, if◌then◌else◌, ℤ, pos, ◌+ℤ◌,
}
use rideway_api.Prelude.Sets.{contains}
use rideway_api.Database.{Orm, unordered, has}
use rideway_api.Action.{
  Action, HttpError, not_found, forbidden, bad_request, ◌>>=◌, ◌>>◌, pure, gets, modify, ensure,
  or_throw, raised,
}
use rideway_api.Blocking.{UserBlock, is_user_blocked}

pub data StoryMediaType : Type 0 where
  image video : StoryMediaType

pub record Story : Type 0 where
  pub id : ℕ
  pub user_id : ℕ
  pub media_url : String
  pub thumbnail_url : Option String
  pub media_type : StoryMediaType
  pub caption : Option String
  pub views_count : ℤ
  pub expires_at : ℕ
  pub created_at : ℕ
  pub has_viewed : Option Bool

pub record StoryView : Type 0 where
  pub id : ℕ
  pub story_id : ℕ
  pub user_id : ℕ
  pub viewed_at : ℕ

pub record Db : Type 0 where
  pub stories : List Story
  pub views : List StoryView
  pub blocks : List UserBlock
  pub deleted_images : List String

pub record CreateStoryDto : Type 0 where
  pub caption : Option String
  pub media_type : Option StoryMediaType
  pub media_url : Option String

-- The file of a request: whether its mimetype starts with "video/", and what `uploadImage` answers.
pub record StoryFile : Type 0 where
  pub is_video : Bool
  pub uploaded : HttpError ⊎ (String × Option String)

pub record Media : Type 0 where
  pub url : Option String
  pub thumbnail_url : Option String
  pub media_type : StoryMediaType

-- `{ id, expiresAt: MoreThan(now) }` and `{ userId, expiresAt: MoreThan(now) }`
abbrev pub live_story : (now id : ℕ) → Story → Bool
live_story now id s = s.id == id && ltb now s.expires_at

abbrev pub live_story_of : (now user_id : ℕ) → Story → Bool
live_story_of now user_id s = s.user_id == user_id && ltb now s.expires_at

-- `{ expiresAt: LessThan(now) }`
abbrev pub is_expired : (now : ℕ) → Story → Bool
is_expired now s = ltb s.expires_at now

-- `{ storyId, userId }`
abbrev pub is_view_by : (story_id user_id : ℕ) → StoryView → Bool
is_view_by story_id user_id v = v.story_id == story_id && v.user_id == user_id

-- `STORY_DURATION_HOURS`, in milliseconds. `setHours` adds as much where the local clock does not
-- change between the two times.
abbrev pub story_duration : ℕ
story_duration = 24 * 60 * 60 * 1000

abbrev pub linked_media : CreateStoryDto → Media
linked_media dto = record {
  url = dto.media_url;
  thumbnail_url = none;
  media_type = or_else dto.media_type image;
}

abbrev pub uploaded_media :
    CreateStoryDto → (is_video : Bool) → String → (thumbnail_url : Option String) → Media
uploaded_media dto is_video url thumbnail_url = record {
  url = some url;
  thumbnail_url = thumbnail_url;
  media_type = if is_video then video else or_else dto.media_type image;
}

abbrev pub media_of : CreateStoryDto → Option StoryFile → Action Db Media
media_of dto none s = pure (linked_media dto) s
media_of dto (some file) s = elim file.uploaded [
  | inl e ↦ raised e s
  | inr (url, thumbnail_url) ↦ pure (uploaded_media dto file.is_video url thumbnail_url) s
]

-- `!mediaUrl`: an empty string counts as none.
abbrev pub given_url : Option String → Option String
given_url none = none
given_url (some url) = if text_eq url "" then none else some url

abbrev pub new_story : (id now user_id : ℕ) → CreateStoryDto → Media → String → Story
new_story id now user_id dto media url = record {
  id = id;
  user_id = user_id;
  media_url = url;
  thumbnail_url = media.thumbnail_url;
  media_type = media.media_type;
  caption = dto.caption;
  views_count = pos 0;
  expires_at = now + story_duration;
  created_at = now;
  has_viewed = none;
}

abbrev pub mark : (viewed_ids : List ℕ) → Story → Story
mark viewed_ids s = record s { has_viewed = some (contains viewed_ids s.id) }

abbrev pub more_views : Story → Story
more_views s = record s { views_count = s.views_count +ℤ pos 1 }

module _ (orm : Orm) where
  abbrev pub save_story : (id now user_id : ℕ) → CreateStoryDto → Media → Action Db Story
  save_story id now user_id dto media = do
    url ← or_throw (bad_request "Media file or URL is required") (given_url media.url)
    let story = new_story id now user_id dto media url
    modify (λ s. record s { stories = orm.insert story s.stories })
    pure story

  unfoldable pub create : (id now user_id : ℕ) → CreateStoryDto → Option StoryFile → Action Db Story
  create id now user_id dto file = do media ← media_of dto file; save_story id now user_id dto media

  -- The checks on behalf of the user who is logged in, and the mark.
  abbrev pub seen_by : (current_user_id : Option ℕ) → Story → Action Db Story
  seen_by none story = pure story
  seen_by (some user_id) story = do
    blocked ← gets (λ s. is_user_blocked orm user_id story.user_id s.blocks)
    ensure (not blocked) (not_found "Story not found")
    gets (λ s. record story { has_viewed = some (has orm (is_view_by story.id user_id) s.views) })

  unfoldable pub find_one : (now id : ℕ) (current_user_id : Option ℕ) → Action Db Story
  find_one now id current_user_id = do
    found ← gets (λ s. orm.find_one (live_story now id) s.stories)
    story ← or_throw (not_found "Story not found or expired") found
    seen_by current_user_id story

  -- `order: { createdAt: 'ASC' }`
  abbrev pub oldest_first : Story → Story → Bool
  oldest_first a b = not (ltb b.created_at a.created_at)

  abbrev pub active_stories : (now user_id : ℕ) → Db → List Story
  active_stories now user_id s = orm.find (live_story_of now user_id) oldest_first s.stories

  abbrev pub viewed_ids : (user_id : ℕ) → List Story → Db → List ℕ
  viewed_ids user_id stories s =
      map (λ v. v.story_id)
        (orm.find (λ v. contains (map (λ x. x.id) stories) v.story_id && v.user_id == user_id)
          unordered s.views)

  unfoldable pub find_user_stories :
      (now user_id : ℕ) (current_user_id : Option ℕ) → Db → List Story
  find_user_stories now user_id none s = active_stories now user_id s
  find_user_stories now user_id (some current_user_id) s =
      let stories = active_stories now user_id s in
      if is_user_blocked orm current_user_id user_id s.blocks
      then []
      else map (mark (viewed_ids current_user_id stories s)) stories

  -- The view is saved and counted, unless the user has viewed the story before.
  abbrev pub add_view : (view_id now story_id user_id : ℕ) → (existing : Bool) → Db → Db
  add_view view_id now story_id user_id true s = s
  add_view view_id now story_id user_id false s = record s {
    views =
        orm.insert
          (record { id = view_id; story_id = story_id; user_id = user_id; viewed_at = now })
          s.views;
    stories = orm.update (λ x. x.id == story_id) more_views s.stories;
  }

  -- What `{ success: true }` answers is left out.
  unfoldable pub mark_as_viewed : (view_id now story_id user_id : ℕ) → Action Db (Unit {0})
  mark_as_viewed view_id now story_id user_id = do
    story ← find_one now story_id (some user_id)
    modify (λ s.
        if story.user_id == user_id
        then s
        else add_view view_id now story_id user_id (has orm (is_view_by story_id user_id) s.views)
            s)

  -- `{ where: { id } }`, and that the user owns what is found.
  abbrev pub own_story : (message : String) → (id user_id : ℕ) → Action Db Story
  own_story message id user_id = do
    found ← gets (λ s. orm.find_one (λ x. x.id == id) s.stories)
    story ← or_throw (not_found "Story not found") found
    ensure (story.user_id == user_id) (forbidden message)
    pure story

  -- `order: { viewedAt: 'DESC' }`. The viewers' profiles that the answer adds are left out.
  unfoldable pub get_viewers : (story_id user_id : ℕ) → Action Db (List StoryView)
  get_viewers story_id user_id = do
    own_story "Only story owner can view viewers" story_id user_id
    gets (λ s.
        orm.find (λ v. v.story_id == story_id) (λ a b. not (ltb a.viewed_at b.viewed_at)) s.views)

  -- `storyRepository.delete`, with the views that cascade.
  abbrev pub delete_stories : (gone : ℕ → Bool) → Db → Db
  delete_stories gone s = record s {
    stories = orm.delete (λ x. gone x.id) s.stories;
    views = orm.delete (λ v. gone v.story_id) s.views;
  }

  abbrev pub forget_images : List Story → Db → Db
  forget_images stories s = record s {
    deleted_images = s.deleted_images ++ map (λ x. x.media_url) stories;
  }

  unfoldable pub delete : (id user_id : ℕ) → Action Db (Unit {0})
  delete id user_id = do
    story ← own_story "You can only delete your own stories" id user_id
    modify (forget_images (story ∷ []))
    modify (delete_stories (λ i. i == id))

  unfoldable pub delete_expired : (now : ℕ) → Db → Db
  delete_expired now s =
      let expired = orm.find (is_expired now) unordered s.stories in
      delete_stories (contains (map (λ x. x.id) expired)) (forget_images expired s)
