-- ===== src/Posts/Calls.antt =====
-- The calls on posts keep the invariant, whether they succeed or throw.
use mathlib.Core.Path.{subst}
use rideway_api.Prelude.{
  ℕ, ◌≡◌, refl, sym, ◌∙◌, inl, inr, Option, none, some, String, ◌==◌, arith, count_if, ◌+◌, bit,
  is_id, Bool-cases, Option-cases,
}
use rideway_api.Database.{Orm}
use rideway_api.Action.{Outcome, state_of}
use rideway_api.Posts.{
  Post, PostLike, Db, everyone, is_like_by, find_one, toggle_like, like, share, new_post,
}
use rideway_api.Posts.Writing.{
  Texts, NewIds, CreatePostDto, Uploads, create, delete, process_hashtags, process_mentions,
  save_image_urls, share_original, invalidate_feed_cache,
}
use rideway_api.Posts.Invariant.{IsWellFormed-like, IsWellFormed-unlike}
use rideway_api.Posts.Counting.{
  IsNewPost, posted, unposted, IsWellFormed-posted, IsWellFormed-unposted, IsWellFormed-uncounted,
}
use rideway_api.Posts.Unmoved.{IsInOrder, HasSamePosts, tagged-HasSamePosts, reads, find_one-state}

-- A repost whose files fail to upload is saved already, and its original never counts it.
abbrev pub lost_after : (original : Option ℕ) → Uploads → (lost : ℕ → ℕ) → ℕ → ℕ
lost_after original none lost = lost
lost_after original (some (inr urls)) lost = lost
lost_after original (some (inl e)) lost = λ k. lost k + bit (is_id original k)

module _ (orm : Orm) (db : Db) {lost : ℕ → ℕ} (wf : IsInOrder lost db) where
  abbrev pub Leaves : {A : Type 0} → Outcome Db A → Type 0
  Leaves o = IsInOrder lost (state_of o)

  pub unchanged : {A : Type 0} (o : Outcome Db A) → state_of o ≡ db → Leaves o
  unchanged o e = subst (IsInOrder lost) (sym e) wf

  -- A read at the end of a call leaves what was there.
  pub read_after :
      (id : ℕ) (current : Option ℕ) (after : Db)
      → IsInOrder lost after
      → Leaves (find_one orm id current after)
  read_after id current after h =
      subst (IsInOrder lost) (sym (find_one-state orm id current after)) h

  toggle_like-IsInOrder :
      (new_id post_id user_id : ℕ)
      → count_if (λ (l : PostLike). l.id == new_id) db.likes ≡ 0
      → (existing : Option PostLike) → orm.find_one (is_like_by post_id user_id) db.likes ≡ existing
      → Leaves (toggle_like orm new_id post_id user_id existing db)
  unfolding toggle_like
  toggle_like-IsInOrder new_id post_id user_id fresh none missing =
      IsWellFormed-like orm db.posts db.likes wf new_id post_id user_id fresh missing
  toggle_like-IsInOrder new_id post_id user_id fresh (some l) found =
      IsWellFormed-unlike orm db.posts db.likes wf post_id user_id found

  pub like-IsInOrder :
      (new_id post_id user_id : ℕ)
      → count_if (λ (l : PostLike). l.id == new_id) db.likes ≡ 0
      → Leaves (like orm new_id post_id user_id db)
  unfolding like
  like-IsInOrder new_id post_id user_id fresh = elim (reads orm post_id (some user_id) db) [
    | inl (e, h) ↦ unchanged (like orm new_id post_id user_id db) (ground (arith, h))
    | inr (p, found, h) ↦
        let existing : Option PostLike = orm.find_one (is_like_by post_id user_id) db.likes in
        let call : like orm new_id post_id user_id db
            ≡ toggle_like orm new_id post_id user_id existing db =
          ground (arith, h) in
        subst Leaves (sym call) (toggle_like-IsInOrder new_id post_id user_id fresh existing refl)
  ]

  pub share-IsInOrder :
      (new_id now post_id user_id : ℕ) (content : String)
      → IsNewPost lost new_id db.posts db.likes
      → Leaves (share orm new_id now post_id user_id content db)
  unfolding share
  share-IsInOrder new_id now post_id user_id content fresh =
      elim (reads orm post_id (some user_id) db) [
        | inl (e, h) ↦
            unchanged (share orm new_id now post_id user_id content db) (ground (arith, h))
        | inr (p, found, h) ↦
            let after : Db = record db {
              posts =
                  posted orm (new_post new_id now user_id content everyone (some post_id)) db.posts;
            } in
            let call : share orm new_id now post_id user_id content db
                ≡ find_one orm new_id (some user_id) after =
              ground (arith, h) in
            subst Leaves (sym call) (
              read_after new_id (some user_id) after (
                IsWellFormed-posted orm db.posts db.likes wf new_id now user_id content everyone
                  fresh (some post_id)))
      ]

  pub delete-IsInOrder : (now id user_id : ℕ) → Leaves (delete orm now id user_id db)
  unfolding delete
  delete-IsInOrder now id user_id = elim (reads orm id none db) [
    | inl (e, h) ↦ unchanged (delete orm now id user_id db) (ground (arith, h))
    | inr (p, found, h) ↦ elim (Bool-cases (p.user_id == user_id)) [
      | inr other ↦ unchanged (delete orm now id user_id db) (ground (arith, h, other))
      | inl own ↦
          let wf' = IsWellFormed-unposted orm db.posts db.likes wf now id found in
          elim (Option-cases p.original_post_id) [
            | inl original ↦
                let kept : (state_of (delete orm now id user_id db)).posts
                    ≡ unposted orm now id none db.posts =
                  ground (arith, h, own, original) in
                let likes : (state_of (delete orm now id user_id db)).likes ≡ db.likes =
                  ground (arith, h, own, original) in
                rw (kept, likes) (rw original at wf')
            | inr (o, original) ↦
                let kept : (state_of (delete orm now id user_id db)).posts
                    ≡ unposted orm now id (some o) db.posts =
                  ground (arith, h, own, original) in
                let likes : (state_of (delete orm now id user_id db)).likes ≡ db.likes =
                  ground (arith, h, own, original) in
                rw (kept, likes) (rw original at wf')
          ]
    ]
  ]

  -- What follows the upload of the files of a new post.
  module _ (texts : Texts) (ids : NewIds) (now user_id : ℕ) (dto : CreatePostDto)
      (fresh : IsNewPost lost ids.post db.posts db.likes) where
    abbrev new_row : Option ℕ → Post
    new_row o = new_post ids.post now user_id dto.content dto.visibility o

    abbrev inserted : Db
    inserted = record db { posts = orm.insert (new_row dto.original_post_id) db.posts }

    abbrev tagged : Db → Db
    tagged s = process_mentions orm texts ids.post dto.content (
        process_hashtags orm texts ids now ids.post dto.content
          (save_image_urls orm ids.image ids.post dto.image_urls s))

    tagged-posts : (s : Db) → HasSamePosts inserted s → HasSamePosts inserted (tagged s)
    tagged-posts s same =
        let tags =
          tagged-HasSamePosts orm texts ids now ids.post dto.content
            (save_image_urls orm ids.image ids.post dto.image_urls s) in
        record { posts = tags.posts ∙ same.posts; likes = tags.likes ∙ same.likes }

    finished :
        (s : Db)
        → HasSamePosts inserted s
        → IsInOrder lost
            (invalidate_feed_cache orm user_id (share_original orm dto.original_post_id (tagged s)))
    finished s same =
        let tags = tagged-posts s same in
        elim (Option-cases dto.original_post_id) [
          | inl none_given ↦ rw none_given (
              rw (tags.posts, tags.likes)
                (rw none_given (
                  IsWellFormed-posted orm db.posts db.likes wf ids.post now user_id dto.content
                    dto.visibility fresh none)))
          | inr (o, given) ↦ rw given (
              rw (tags.posts, tags.likes)
                (rw given (
                  IsWellFormed-posted orm db.posts db.likes wf ids.post now user_id dto.content
                    dto.visibility fresh (some o))))
        ]

    pub create-IsInOrder :
        (uploads : Uploads)
        → IsInOrder
            (lost_after dto.original_post_id uploads lost)
            (state_of (create orm texts ids now user_id dto uploads db))
    unfolding create
    create-IsInOrder none =
        read_after ids.post (some user_id) _
          (finished inserted (record { posts = refl; likes = refl }))
    create-IsInOrder (some (inr urls)) =
        read_after ids.post (some user_id) _ (finished _ (record { posts = refl; likes = refl }))
    create-IsInOrder (some (inl e)) =
        IsWellFormed-uncounted orm db.posts db.likes wf ids.post now user_id dto.content
          dto.visibility fresh dto.original_post_id
