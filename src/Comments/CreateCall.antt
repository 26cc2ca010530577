-- ===== src/Comments/CreateCall.antt =====
-- `create`: what a call returns, and when it throws.
use rideway_api.Prelude.{
  ℕ, ◌≡◌, refl, ap, ◌∙◌, ◌⊎◌, inl, inr, Bool, true, false, ◌&&◌, Option, none, some, ◌==◌, is_none,
  is_some, arith, Option-cases, count_if_mono,
}
use rideway_api.Database.{Orm}
use rideway_api.Database.Rows.{count_if-find_one_none, find_one-is_none, Every-find_one}
use rideway_api.Action.{done, raised, not_found, HttpError}
use rideway_api.Comments.{
  Comment, Db, CreateCommentDto, is_live, new_comment, flatten, actual_parent, create, find_one,
  mark_liked, is_like_of, Post,
}
use rideway_api.Comments.Invariant.{IsWellFormed, likes_of}
use rideway_api.Comments.Nesting.{IsFresh, HasRoot, flatten-HasRoot}
use rideway_api.Comments.Creating.{created, created-IsWellFormed, created-IsOwnRow, created-there}

module _ (orm : Orm) (post_id : ℕ) (db : Db) where
  -- The comment to answer, live and on the same post.
  abbrev pub answered : ℕ → Option Comment
  answered p = orm.find_one (λ c. c.id == p && c.post_id == post_id && is_live c) db.comments

  -- A comment that answers nothing is a root; one that answers a root hangs under it; one that
  -- answers a reply hangs under the root of that reply.
  pub data HangsUnder : Option ℕ → Option ℕ → Type 0 where
    under_nothing : HangsUnder none none
    under_root :
        {p : ℕ} {c : Comment}
        → answered p ≡ some c
        → c.parent_id ≡ none
        → HangsUnder (some p) (some p)
    under_root_of :
        {p root : ℕ} {c : Comment}
        → answered p ≡ some c
        → c.parent_id ≡ some root
        → HangsUnder (some p) (some root)

  flatten-HangsUnder :
      (p : ℕ) (c : Comment) → answered p ≡ some c → HangsUnder (some p) (flatten p c)
  unfolding flatten
  flatten-HangsUnder p c found = elim (Option-cases c.parent_id) [
    | inl root ↦ rw root (under_root found root)
    | inr (r, reply) ↦ rw reply (under_root_of found reply)
  ]

  actual_parent-cases :
      IsWellFormed db
      → (o : Option ℕ)
      → ((p : ℕ) × (o ≡ some p)
          × (answered p ≡ none)
          × (actual_parent orm post_id o db ≡ raised (not_found "Parent comment not found") db))
        ⊎ ((parent_id : Option ℕ) × (actual_parent orm post_id o db ≡ done parent_id db)
            × HangsUnder o parent_id
            × HasRoot parent_id db.comments)
  unfolding actual_parent
  actual_parent-cases wf none = inr (none, refl, under_nothing, tt)
  actual_parent-cases wf (some p) =
      elim (Option-cases
        (orm.find_one (λ c. c.id == p && c.post_id == post_id && is_live c) db.comments)) [
          | inl missing ↦ inl (p, refl, missing, ground (arith, missing))
          | inr (c, found) ↦ inr (
            flatten p c,
            ground (arith, found),
            flatten-HangsUnder p c found,
            flatten-HasRoot orm p _ db.comments wf.comment_ids wf.two_levels found
                (ground (arith, (orm.find_one-some _ db.comments found).1)),
          )
        ]

-- A comment as `create` returns it.
pub record IsCreated (new_id user post : ℕ) (parent : Option ℕ) (comment : Comment) : Type 0 where
  pub id : comment.id ≡ new_id
  pub user_id : comment.user_id ≡ user
  pub post_id : comment.post_id ≡ post
  pub parent_id : comment.parent_id ≡ parent
  pub is_liked : comment.is_liked ≡ some false

module _ (orm : Orm) (new_id now user_id post_id : ℕ) (dto : CreateCommentDto) (db : Db)
    (wf : IsWellFormed db) (fresh : IsFresh new_id db) where
  abbrev row : Option ℕ → Comment
  row parent_id = new_comment new_id now user_id post_id parent_id dto.content

  abbrev written : Option ℕ → Db
  written parent_id = created orm (row parent_id) db parent_id

  abbrev is_new : Comment → Bool
  is_new c = c.id == new_id && is_live c

  unliked : (id : ℕ) → id ≡ new_id → is_some (orm.find_one (is_like_of id user_id) db.likes) ≡ false
  unliked id e = find_one-is_none orm (is_like_of id user_id) db.likes (
      omega (
        arith,
        fresh.no_like,
        ap (λ (k : ℕ). likes_of k db.likes) e,
        count_if_mono (is_like_of id user_id) (λ l. l.comment_id == id) db.likes
            (λ l. ground arith),
      ))

  is_new-id : (c : Comment) → is_new c ≡ true → c.id ≡ new_id
  is_new-id c h = ground arith

  reread :
      (parent_id : Option ℕ)
      → (comment : Comment) × (find_one orm new_id (some user_id) (written parent_id)
          ≡ done comment (written parent_id))
        × IsCreated new_id user_id post_id parent_id comment
  unfolding find_one
  reread parent_id = elim (Option-cases (orm.find_one is_new (written parent_id).comments)) [
    | inl missing ↦ absurd (
        omega (
          arith,
          created-there orm (row parent_id) db wf fresh refl parent_id,
          count_if-find_one_none orm is_new (written parent_id).comments missing,
        ))
    | inr (c, found) ↦
        let same : c.id ≡ new_id =
          is_new-id c (orm.find_one-some is_new (written parent_id).comments found).1 in
        let (at, by, on) =
          Every-find_one orm is_new (written parent_id).comments found
            (created-IsOwnRow orm (row parent_id) db wf fresh parent_id) same in
        (
          mark_liked orm (some user_id) db.likes c,
          ground (arith, found),
          record {
            id = same;
            user_id = by;
            post_id = on;
            parent_id = at;
            is_liked = ap some (unliked c.id same);
          },
        )
  ]

  abbrev post_found : Option Post
  post_found = orm.find_one (λ p. p.id == post_id && is_none p.deleted_at) db.posts

  create-eq :
      {post : Post} (parent_id : Option ℕ)
      → post_found ≡ some post
      → actual_parent orm post_id dto.parent_id db ≡ done parent_id db
      → create orm new_id now user_id post_id dto db
        ≡ find_one orm new_id (some user_id) (written parent_id)
  unfolding create
  create-eq parent_id found parent = ground (arith, found, parent)

  create-no_post :
      post_found ≡ none
      → create orm new_id now user_id post_id dto db ≡ raised (not_found "Post not found") db
  unfolding create
  create-no_post missing = ground (arith, missing)

  create-no_parent :
      {post : Post} (e : HttpError)
      → post_found ≡ some post
      → actual_parent orm post_id dto.parent_id db ≡ raised e db
      → create orm new_id now user_id post_id dto db ≡ raised e db
  unfolding create
  create-no_parent e found gone = ground (arith, found, gone)

  -- On well-formed tables and with a fresh id, `create` has one of three outcomes. The post is
  -- missing, and it throws "Post not found"; the post is there and the comment to answer is not on
  -- it, and it throws "Parent comment not found"; both write nothing. Or the post and the comment to
  -- answer, if one is named, are there, and it returns the new comment: under nothing if it answers
  -- nothing, under the comment it answers if that is a root, and under the root of that comment
  -- otherwise. The tables are then well-formed again.
  pub create_lem :
      ((post_found ≡ none)
        × (create orm new_id now user_id post_id dto db ≡ raised (not_found "Post not found") db))
      ⊎ (((post : Post) × (parent : ℕ) × (post_found ≡ some post)
            × (dto.parent_id ≡ some parent)
            × (answered orm post_id db parent ≡ none)
            × (create orm new_id now user_id post_id dto db
                ≡ raised (not_found "Parent comment not found") db))
          ⊎ ((post : Post) × (parent_id : Option ℕ) × (comment : Comment) × (db' : Db) × (post_found
                ≡ some post)
              × HangsUnder orm post_id db dto.parent_id parent_id
              × (create orm new_id now user_id post_id dto db ≡ done comment db')
              × IsCreated new_id user_id post_id parent_id comment
              × HasRoot parent_id db.comments
              × IsWellFormed db'))
  create_lem = elim (Option-cases post_found) [
    | inl missing ↦ inl (missing, create-no_post missing)
    | inr (post, found) ↦ elim (actual_parent-cases orm post_id db wf dto.parent_id) [
      | inl (p, given, missing, gone) ↦
          inr (inl (post, p, found, given, missing, create-no_parent _ found gone))
      | inr (parent_id, parent, under, root) ↦
          let (comment, reads, is) = reread parent_id in
          inr (
            inr (
              post,
              parent_id,
              comment,
              written parent_id,
              found,
              under,
              create-eq parent_id found parent ∙ reads,
              is,
              root,
              created-IsWellFormed orm (row parent_id) db wf fresh refl refl refl parent_id refl
                  root,
            ))
    ]
  ]
