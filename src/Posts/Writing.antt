-- ===== src/Posts/Writing.antt =====
-- The calls of PostsService, src/modules/social/posts/posts.service.ts, that create, edit and delete
-- a post, with its images, hashtags and mentions. The regular expressions and the lower case of
-- JavaScript are a parameter, `Texts`: the names that a text marks with # and with @, without the
-- sign and in lower case. MediaService is one too: a call takes what `uploadImages` answers, if files
-- are given, and whether `deleteImage` of a URL goes through.
use text.Mathlib.Text.{◌==◌ as text_eq}
use rideway_api.Prelude.{
  ℕ, suc, ◌+◌, Bool, true, ◌&&◌, ◌⊎◌, inl, inr, Option, none, some, or_else, if◌then◌else◌, String,
  List, [], ◌∷◌, ◌++◌, map, any, ◌==◌, pos, ◌+ℤ◌, ◌-ℤ◌,
}
use rideway_api.Prelude.Sets.{contains}
use rideway_api.Database.{Orm, unordered, has}
use rideway_api.Action.{HttpError, Action, ◌>>=◌, ◌>>◌, modify, ensure, forbidden, done, raised}
use rideway_api.Posts.{
  Post, PostVisibility, PostImage, Hashtag, PostHashtag, Db, new_post, more_shares, live_post,
  find_one,
}

pub record Texts : Type 0 where
  pub hashtags_in : String → List String
  pub mentions_in : String → List String

-- The ids of the rows that a call saves: of a post, of the image at an index, and of a hashtag.
pub record NewIds : Type 0 where
  pub post : ℕ
  pub uploaded_image : ℕ → ℕ
  pub image : ℕ → ℕ
  pub hashtag : String → ℕ

pub record CreatePostDto : Type 0 where
  pub content : String
  pub visibility : PostVisibility
  pub image_urls : List String
  pub original_post_id : Option ℕ

pub record UpdatePostDto : Type 0 where
  pub content : Option String
  pub visibility : Option PostVisibility
  pub delete_image_ids : List ℕ
  pub image_urls : List String

-- What `uploadImages` answers for the files of a request, if there are any.
abbrev pub Uploads : Type 0
Uploads = Option (HttpError ⊎ List String)

-- `[...new Set(names)]`
abbrev pub distinct : List String → List String → List String
distinct [] set = set
distinct (t ∷ names) set =
    distinct names (if any (λ u. text_eq u t) set then set else set ++ t ∷ [])

abbrev pub image_rows : (id : ℕ → ℕ) → (post_id first index : ℕ) → List String → List PostImage
image_rows id post_id first index [] = []
image_rows id post_id first index (url ∷ urls) =
    record { id = id index; post_id = post_id; url = url; sort_order = first + index }
    ∷ image_rows id post_id first (suc index) urls

-- `update(id, { content, visibility, isEdited: true })`: undefined columns stay.
abbrev pub edit_post : UpdatePostDto → Post → Post
edit_post dto p = record p {
  content = or_else dto.content p.content;
  visibility = or_else dto.visibility p.visibility;
  is_edited = true;
}

module _ (orm : Orm) where
  -- `save` of several rows
  abbrev pub insert_all : List PostImage → List PostImage → List PostImage
  insert_all [] rows = rows
  insert_all (i ∷ new) rows = insert_all new (orm.insert i rows)

  abbrev pub save_image_urls : (id : ℕ → ℕ) → (post_id : ℕ) → List String → Db → Db
  save_image_urls id post_id urls s = record s {
    images =
        insert_all (image_rows id post_id (orm.count (λ i. i.post_id == post_id) s.images) 0 urls)
          s.images;
  }

  abbrev pub upload_and_save_images : (id : ℕ → ℕ) → (post_id : ℕ) → Uploads → Action Db (Unit {0})
  upload_and_save_images id post_id none s = done tt s
  upload_and_save_images id post_id (some (inl e)) s = raised e s
  upload_and_save_images id post_id (some (inr urls)) s =
      done tt (record s { images = insert_all (image_rows id post_id 0 0 urls) s.images })

  abbrev pub is_own_image : (user_id : ℕ) → PostImage → List Post → Bool
  is_own_image user_id image posts =
      has orm (λ p. live_post image.post_id p && p.user_id == user_id) posts

  -- The loop of `deleteImages` over the images that were found.
  abbrev pub delete_each : (goes_through : String → Bool) → (user_id : ℕ) → List PostImage → Db → Db
  delete_each goes_through user_id [] s = s
  delete_each goes_through user_id (image ∷ rest) s = delete_each goes_through user_id rest (
      if is_own_image user_id image s.posts
      then record s {
        deleted_images = s.deleted_images ++ image.url ∷ [];
        images =
            if goes_through image.url
            then orm.delete (λ i. i.id == image.id) s.images
            else s.images;
      }
      else s)

  abbrev pub delete_images : (goes_through : String → Bool) → List ℕ → (user_id : ℕ) → Db → Db
  delete_images goes_through ids user_id s =
      delete_each goes_through user_id (orm.find (λ i. contains ids i.id) unordered s.images) s

  -- The hashtag of a name, and the table that has it.
  abbrev pub hashtag_of : (new_id : ℕ) → String → List Hashtag → Hashtag × List Hashtag
  hashtag_of new_id tag rows = elim (orm.find_one (λ h. text_eq h.name tag) rows) [
    | some h ↦ (h, rows)
    | none ↦
        let h : Hashtag = record { id = new_id; name = tag; posts_count = pos 0 } in
        (h, orm.insert h rows)
  ]

  -- `save` of a row with the primary key `{ postId, hashtagId }`.
  abbrev pub save_relation : PostHashtag → List PostHashtag → List PostHashtag
  save_relation r rows =
      if has orm (λ x. x.post_id == r.post_id && x.hashtag_id == r.hashtag_id) rows
      then rows
      else orm.insert r rows

  -- The loop of `processHashtags` over the names.
  abbrev pub add_hashtags : NewIds → (now post_id : ℕ) → List String → Db → Db
  add_hashtags ids now post_id [] s = s
  add_hashtags ids now post_id (tag ∷ tags) s =
      let found = hashtag_of (ids.hashtag tag) tag s.hashtags in
      add_hashtags ids now post_id tags (record s {
        hashtags =
            orm.update (λ h. h.id == found.0.id)
              (λ h. record h { posts_count = h.posts_count +ℤ pos 1 }) found.1;
        post_hashtags =
            save_relation (record { post_id = post_id; hashtag_id = found.0.id; created_at = now })
              s.post_hashtags;
      })

  abbrev pub process_hashtags : Texts → NewIds → (now post_id : ℕ) → String → Db → Db
  process_hashtags texts ids now post_id content s =
      add_hashtags ids now post_id (distinct (texts.hashtags_in content) []) s

  -- The loop of `removePostHashtags` over the rows of the post.
  abbrev pub drop_counts : List PostHashtag → List Hashtag → List Hashtag
  drop_counts [] hashtags = hashtags
  drop_counts (r ∷ rest) hashtags = drop_counts rest (
      orm.update (λ h. h.id == r.hashtag_id)
        (λ h. record h { posts_count = h.posts_count -ℤ pos 1 }) hashtags)

  abbrev pub remove_post_hashtags : (post_id : ℕ) → Db → Db
  remove_post_hashtags post_id s = record s {
    hashtags =
        drop_counts (orm.find (λ r. r.post_id == post_id) unordered s.post_hashtags) s.hashtags;
    post_hashtags = orm.delete (λ r. r.post_id == post_id) s.post_hashtags;
  }

  -- The loop of `processMentions` over the user names.
  abbrev pub add_mentions : (post_id : ℕ) → List String → Db → Db
  add_mentions post_id [] s = s
  add_mentions post_id (name ∷ names) s =
      elim (orm.find_one (λ p. text_eq p.username name) s.profiles) [
        | none ↦ add_mentions post_id names s
        | some p ↦ add_mentions post_id names (record s {
          mentions =
              orm.insert (record { post_id = post_id; mentioned_user_id = p.user_id }) s.mentions;
        })
      ]

  abbrev pub process_mentions : Texts → (post_id : ℕ) → String → Db → Db
  process_mentions texts post_id content s =
      add_mentions post_id (distinct (texts.mentions_in content) []) s

  abbrev pub share_original : Option ℕ → Db → Db
  share_original none s = s
  share_original (some id) s = record s { posts = orm.update (λ p. p.id == id) more_shares s.posts }

  abbrev pub invalidate_feed_cache : (user_id : ℕ) → Db → Db
  invalidate_feed_cache user_id s = record s {
    dropped_feeds =
        s.dropped_feeds
        ++ map (λ f. f.follower_id) (orm.find (λ f. f.following_id == user_id) unordered s.follows);
  }

  unfoldable pub create :
      Texts → NewIds → (now user_id : ℕ) → CreatePostDto → Uploads → Action Db Post
  create texts ids now user_id dto uploads = do
    modify (λ s. record s {
      posts =
          orm.insert (new_post ids.post now user_id dto.content dto.visibility dto.original_post_id)
            s.posts;
    })
    upload_and_save_images ids.uploaded_image ids.post uploads
    modify (save_image_urls ids.image ids.post dto.image_urls)
    modify (process_hashtags texts ids now ids.post dto.content)
    modify (process_mentions texts ids.post dto.content)
    modify (share_original dto.original_post_id)
    modify (invalidate_feed_cache user_id)
    find_one orm ids.post (some user_id)

  -- `if (dto.content)`: the hashtags and mentions are those of the new text.
  abbrev pub retag : Texts → NewIds → (now id : ℕ) → Option String → Db → Db
  retag texts ids now id none s = s
  retag texts ids now id (some content) s =
      if text_eq content ""
      then s
      else process_mentions texts id content (
          let tagged = process_hashtags texts ids now id content (remove_post_hashtags id s) in
          record tagged { mentions = orm.delete (λ m. m.post_id == id) tagged.mentions })

  module _ (goes_through : String → Bool) where
    unfoldable pub update :
        Texts → NewIds → (now id user_id : ℕ) → UpdatePostDto → Uploads → Action Db Post
    update texts ids now id user_id dto uploads = do
      post ← find_one orm id none
      ensure (post.user_id == user_id) (forbidden "You can only edit your own posts")
      modify (delete_images goes_through dto.delete_image_ids user_id)
      upload_and_save_images ids.uploaded_image id uploads
      modify (save_image_urls ids.image id dto.image_urls)
      modify (retag texts ids now id dto.content)
      modify (λ s. record s { posts = orm.update (λ p. p.id == id) (edit_post dto) s.posts })
      find_one orm id (some user_id)

  abbrev pub unshare_original : Option ℕ → Db → Db
  unshare_original none s = s
  unshare_original (some id) s = record s {
    posts =
        orm.update (λ p. p.id == id) (λ p. record p { shares_count = p.shares_count -ℤ pos 1 })
          s.posts;
  }

  abbrev pub forget_images : (post_id : ℕ) → Db → Db
  forget_images post_id s = record s {
    deleted_images =
        s.deleted_images
        ++ map (λ i. i.url) (orm.find (λ i. i.post_id == post_id) unordered s.images);
  }

  unfoldable pub delete : (now id user_id : ℕ) → Action Db (Unit {0})
  delete now id user_id = do
    post ← find_one orm id none
    ensure (post.user_id == user_id) (forbidden "You can only delete your own posts")
    modify (forget_images id)
    modify (remove_post_hashtags id)
    modify (unshare_original post.original_post_id)
    modify (λ s. record s {
      posts = orm.update (λ p. p.id == id) (λ p. record p { deleted_at = some now }) s.posts;
    })
