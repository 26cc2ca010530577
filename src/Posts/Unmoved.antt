-- ===== src/Posts/Unmoved.antt =====
-- The parts of the calls that leave posts and likes as they are: reads, images, hashtags, mentions.
use rideway_api.Prelude.{
  ℕ, ◌≡◌, ◌⊎◌, refl, ap, ◌∙◌, inl, inr, Bool, Option, none, some, List, [], ◌∷◌, String, arith,
  Bool-cases, Option-cases,
}
use text.Mathlib.Text.{◌==◌ as text_eq}
use rideway_api.Database.{Orm}
use rideway_api.Action.{HttpError, done, raised, state_of, not_found, forbidden}
use rideway_api.Posts.{
  Post, PostImage, Db, marked, live_post, is_hidden_private, is_hidden_from_others, find_one,
}
use rideway_api.Posts.Writing.{
  Texts, NewIds, add_hashtags, add_mentions, delete_each, is_own_image, process_hashtags,
  process_mentions, retag, remove_post_hashtags, distinct,
}
use rideway_api.Posts.Invariant.{IsWellFormed}

abbrev pub IsInOrder : (lost : ℕ → ℕ) → Db → Type 0
IsInOrder lost db = IsWellFormed lost db.posts db.likes

-- The posts and the likes are those of another state of the tables.
pub record HasSamePosts (s s' : Db) : Type 0 where
  pub posts : s'.posts ≡ s.posts
  pub likes : s'.likes ≡ s.likes

pub in_order : {lost : ℕ → ℕ} {s s' : Db} → HasSamePosts s s' → IsInOrder lost s → IsInOrder lost s'
in_order same wf = rw (same.posts, same.likes) wf

module _ (orm : Orm) where
  pub add_hashtags-HasSamePosts :
      (ids : NewIds) (now post_id : ℕ) (tags : List String) (s : Db)
      → HasSamePosts s (add_hashtags orm ids now post_id tags s)
  add_hashtags-HasSamePosts ids now post_id [] s = record { posts = refl; likes = refl }
  add_hashtags-HasSamePosts ids now post_id (tag ∷ tags) s =
      let rest = add_hashtags-HasSamePosts ids now post_id tags _ in
      record { posts = rest.posts; likes = rest.likes }

  add_mentions-HasSamePosts :
      (post_id : ℕ) (names : List String) (s : Db)
      → HasSamePosts s (add_mentions orm post_id names s)
  add_mentions-HasSamePosts post_id [] s = record { posts = refl; likes = refl }
  add_mentions-HasSamePosts post_id (name ∷ names) s =
      elim (Option-cases (orm.find_one (λ p. text_eq p.username name) s.profiles)) [
        | inl missing ↦
            let rest = add_mentions-HasSamePosts post_id names s in
            record {
              posts = rw (add_mentions, missing) rest.posts;
              likes = rw (add_mentions, missing) rest.likes;
            }
        | inr (p, found) ↦
            let rest = add_mentions-HasSamePosts post_id names (record s {
              mentions =
                  orm.insert (record { post_id = post_id; mentioned_user_id = p.user_id })
                    s.mentions;
            }) in
            record {
              posts = rw (add_mentions, found) rest.posts;
              likes = rw (add_mentions, found) rest.likes;
            }
      ]

  pub delete_each-HasSamePosts :
      (goes_through : String → Bool) (user_id : ℕ) (images : List PostImage) (s : Db)
      → HasSamePosts s (delete_each orm goes_through user_id images s)
  delete_each-HasSamePosts goes_through user_id [] s = record { posts = refl; likes = refl }
  delete_each-HasSamePosts goes_through user_id (image ∷ images) s =
      let rest = delete_each-HasSamePosts goes_through user_id images _ in
      elim (Bool-cases (is_own_image orm user_id image s.posts)) [
        | inl own ↦ record { posts = rest.posts ∙ rw own refl; likes = rest.likes ∙ rw own refl }
        | inr other ↦ record {
          posts = rest.posts ∙ rw other refl;
          likes = rest.likes ∙ rw other refl;
        }
      ]

  -- What the hashtags and mentions of a new post, or of a new text, change.
  pub tagged-HasSamePosts :
      (texts : Texts) (ids : NewIds) (now id : ℕ) (content : String) (s : Db)
      → HasSamePosts s
          (process_mentions orm texts id content (process_hashtags orm texts ids now id content s))
  tagged-HasSamePosts texts ids now id content s =
      let hashtags =
        add_hashtags-HasSamePosts ids now id (distinct (texts.hashtags_in content) []) s in
      let mentions = add_mentions-HasSamePosts id (distinct (texts.mentions_in content) []) _ in
      record { posts = mentions.posts ∙ hashtags.posts; likes = mentions.likes ∙ hashtags.likes }

  pub retag-HasSamePosts :
      (texts : Texts) (ids : NewIds) (now id : ℕ) (content : Option String) (s : Db)
      → HasSamePosts s (retag orm texts ids now id content s)
  retag-HasSamePosts texts ids now id none s = record { posts = refl; likes = refl }
  retag-HasSamePosts texts ids now id (some content) s = elim (Bool-cases (text_eq content "")) [
    | inl blank ↦ record { posts = rw blank refl; likes = rw blank refl }
    | inr text ↦
        let hashtags =
          add_hashtags-HasSamePosts ids now id (distinct (texts.hashtags_in content) [])
            (remove_post_hashtags orm id s) in
        let mentions = add_mentions-HasSamePosts id (distinct (texts.mentions_in content) []) _ in
        record {
          posts = rw text (mentions.posts ∙ hashtags.posts);
          likes = rw text (mentions.likes ∙ hashtags.likes);
        }
  ]

  -- `findOne` throws, or answers a post that is there; it changes nothing.
  pub reads :
      (id : ℕ) (current : Option ℕ) (db : Db)
      → ((e : HttpError) × (find_one orm id current db ≡ raised e db))
        ⊎ ((p : Post) × (orm.find_one (live_post id) db.posts ≡ some p)
            × (find_one orm id current db ≡ done (marked orm current db p) db))
  unfolding find_one
  reads id current db = elim (Option-cases (orm.find_one (live_post id) db.posts)) [
    | inl missing ↦ inl (not_found "Post not found", ground (arith, missing))
    | inr (p, found) ↦ elim (Bool-cases (is_hidden_private current p)) [
      | inl private ↦ inl (forbidden "This post is private", ground (arith, found, private))
      | inr open_post ↦ elim (Bool-cases (is_hidden_from_others orm current p db.follows)) [
        | inl hidden ↦
            inl (
              forbidden "This post is for followers only",
              ground (arith, found, open_post, hidden),
            )
        | inr shown ↦ inr (p, found, ground (arith, found, open_post, shown))
      ]
    ]
  ]

  pub find_one-state :
      (id : ℕ) (current : Option ℕ) (db : Db) → state_of (find_one orm id current db) ≡ db
  find_one-state id current db = elim (reads id current db) [
    | inl (e, h) ↦ ap state_of h
    | inr (p, found, h) ↦ ap state_of h
  ]
