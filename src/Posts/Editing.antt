-- ===== src/Posts/Editing.antt =====
-- `update` keeps the invariant of posts, whether it succeeds or throws.
use mathlib.Core.Path.{subst}
use rideway_api.Prelude.{
  ℕ, ◌≡◌, refl, sym, inl, inr, Bool, true, none, some, String, ◌==◌, arith, Bool-cases,
}
use rideway_api.Prelude.Sets.{contains}
use rideway_api.Database.{Orm, unordered}
use rideway_api.Action.{Outcome, done, raised}
use rideway_api.Posts.{Post, Db, find_one}
use rideway_api.Posts.Writing.{
  Texts, NewIds, UpdatePostDto, Uploads, update, retag, edit_post, insert_all, image_rows,
  delete_images, save_image_urls,
}
use rideway_api.Posts.Invariant.{IsWellFormed-update}
use rideway_api.Posts.Unmoved.{
  IsInOrder, HasSamePosts, in_order, retag-HasSamePosts, delete_each-HasSamePosts, reads,
}
use rideway_api.Posts.Calls.{Leaves, unchanged, read_after}

module _ (orm : Orm) (db : Db) {lost : ℕ → ℕ} (wf : IsInOrder lost db) where
  -- The images, the tags and the text of a post that is edited.
  module _ (goes_through : String → Bool) (texts : Texts) (ids : NewIds) (now id user_id : ℕ)
      (dto : UpdatePostDto) where
    abbrev pruned : Db
    pruned = delete_images orm goes_through dto.delete_image_ids user_id db

    pruned-posts : HasSamePosts db pruned
    pruned-posts =
        delete_each-HasSamePosts orm goes_through user_id
          (orm.find (λ i. contains dto.delete_image_ids i.id) unordered db.images) db

    edited :
        (s : Db)
        → HasSamePosts db s
        → IsInOrder lost (record (retag orm texts ids now id dto.content s) {
          posts =
              orm.update
                (λ p. p.id == id)
                (edit_post dto)
                (retag orm texts ids now id dto.content s).posts;
        })
    edited s same =
        let tags = retag-HasSamePosts orm texts ids now id dto.content s in
        rw (tags.posts, tags.likes, same.posts, same.likes)
          (IsWellFormed-update orm db.posts db.likes wf (λ p. p.id == id) (edit_post dto)
            (λ p. refl) (λ p. refl) (λ p. refl) (λ k p. refl))

    abbrev call : Uploads → Outcome Db Post
    call uploads = update orm goes_through texts ids now id user_id dto uploads db

    abbrev saved : Db → Db
    saved s = save_image_urls orm ids.image id dto.image_urls s

    abbrev written : Db → Db
    written s = record (retag orm texts ids now id dto.content (saved s)) {
      posts =
          orm.update (λ p. p.id == id) (edit_post dto)
            (retag orm texts ids now id dto.content (saved s)).posts;
    }

    -- What the call comes to once the post was found and is the user's own.
    owned :
        {p : Post}
        → find_one orm id none db ≡ done p db
        → (p.user_id == user_id) ≡ true
        → (uploads : Uploads) → Leaves orm db wf (call uploads)
    unfolding update
    owned h own none =
        let e : call none ≡ find_one orm id (some user_id) (written pruned) =
          ground (arith, h, own) in
        subst (Leaves orm db wf) (sym e) (
          read_after orm db wf id (some user_id) (written pruned) (
            edited (saved pruned)
              (record { posts = pruned-posts.posts; likes = pruned-posts.likes })))
    owned h own (some (inl error)) =
        let e : call (some (inl error)) ≡ raised error pruned = ground (arith, h, own) in
        subst (Leaves orm db wf) (sym e) (in_order pruned-posts wf)
    owned h own (some (inr urls)) =
        let uploaded : Db = record pruned {
          images = insert_all orm (image_rows ids.uploaded_image id 0 0 urls) pruned.images;
        } in
        let e : call (some (inr urls)) ≡ find_one orm id (some user_id) (written uploaded) =
          ground (arith, h, own) in
        subst (Leaves orm db wf) (sym e) (
          read_after orm db wf id (some user_id) (written uploaded) (
            edited (saved uploaded)
              (record { posts = pruned-posts.posts; likes = pruned-posts.likes })))

    pub update-IsInOrder : (uploads : Uploads) → Leaves orm db wf (call uploads)
    unfolding update
    update-IsInOrder uploads = elim (reads orm id none db) [
      | inl (e, h) ↦ unchanged orm db wf (call uploads) (ground (arith, h))
      | inr (p, found, h) ↦ elim (Bool-cases (p.user_id == user_id)) [
        | inr other ↦ unchanged orm db wf (call uploads) (ground (arith, h, other))
        | inl own ↦ owned h own uploads
      ]
    ]
