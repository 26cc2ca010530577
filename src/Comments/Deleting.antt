-- ===== src/Comments/Deleting.antt =====
-- `delete`: what it writes to the comments and to the counter of the post, and what it keeps.
use mathlib.Core.Path.{subst}
use mathlib.Core.HLevel.{Π_prop}
use rideway_api.Prelude.{
  ℕ, ◌+◌, ◌≡◌, refl, sym, ap, ◌∙◌, inl, inr, Bool, true, false, ◌&&◌, Option, none, some, List,
  ◌==◌, ==_true, ℤ, pos, ◌-ℤ◌, -ℤ_assoc, ℤ_set, arith, if◌then◌else◌, Bool-cases, bit, count_if,
  is_pos,
}
use rideway_api.Database.{Orm, Every, HasUniqueIds}
use rideway_api.Database.Rows.{
  count_if-update_same, HasUniqueIds-update, Every-find_one, Every-update,
}
use rideway_api.Action.{done, state_of}
use rideway_api.Comments.{
  Comment, Db, is_live, drop_replies, on_parent, soft_delete, delete, find_one, Post, drop_comments,
  get_comment_count,
}
use rideway_api.Comments.Invariant.{
  IsWellFormed, KeepsPlace, HasTwoLevels, LikesExist, LikesCounted, replies_of, HasTwoLevels-update,
  LikesExist-update, LikesCounted-update,
}
use rideway_api.Comments.Nesting.{
  drop_replies-KeepsPlace, RepliesCounted-soft_delete, count_if-soft_delete,
}
use rideway_api.Comments.Editing.{is_own, is_own-some, live_at, found_at, update_delete_refused}

soft_delete-KeepsPlace : (now : ℕ) → KeepsPlace (soft_delete now)
soft_delete-KeepsPlace now = record { id = λ c. refl; parent_id = λ c. refl }

-- A post's counter stands at `k`.
abbrev pub PostCount : (post_id : ℕ) (k : ℤ) → List Post → Type 0
PostCount post_id k = Every (λ p. p.id ≡ post_id → p.comments_count ≡ k)

-- What `delete` writes to the counter of the post.
module _ (orm : Orm) (post_id : ℕ) (posts : List Post) where
  abbrev lower : ℤ → List Post
  lower n = orm.update (λ p. p.id == post_id) (drop_comments n) posts

  PostCount-lower : (k n : ℤ) → PostCount post_id k posts → PostCount post_id (k -ℤ n) (lower n)
  PostCount-lower k n =
      Every-update orm (λ p. p.id == post_id) (drop_comments n) posts (λ p. Π_prop (λ _. ℤ_set _ _))
        (λ p e count same. ap (λ (m : ℤ). m -ℤ n) (count same))
        (λ p e count same.
          let t : (p.id == post_id) ≡ true = ==_true p.id post_id same in
          absurd (let bad : false ≡ true = sym e ∙ t in cc))

module _ (orm : Orm) (now id user_id : ℕ) (db : Db) {c : Comment} (wf : IsWellFormed db)
    (found : found_at orm id user_id db ≡ some c) where
  abbrev removed : List Comment
  removed = orm.update (λ x. x.id == id) (soft_delete now) db.comments

  abbrev posts_after : List Post
  posts_after =
      if is_pos c.replies_count
      then lower orm c.post_id (lower orm c.post_id db.posts (pos 1)) c.replies_count
      else lower orm c.post_id db.posts (pos 1)

  abbrev deleted : Db
  deleted = record db {
    comments = on_parent orm (drop_replies (pos 1)) c.parent_id removed;
    posts = posts_after;
  }

  delete-eq : c.user_id ≡ user_id → delete orm now id user_id db ≡ done tt deleted
  unfolding delete find_one
  delete-eq own = ground (arith, found, own)

  abbrev counted_replies : ℕ
  counted_replies = replies_of c.id db.comments

  posts_after-PostCount :
      (k : ℤ)
      → PostCount c.post_id k db.posts
      → PostCount c.post_id (k -ℤ pos (1 + counted_replies)) posts_after
  posts_after-PostCount k h =
      rw (Every-find_one orm (live_at orm id user_id db) db.comments found wf.replies_counted)
        (elim (Bool-cases (is_pos (pos counted_replies))) [
          | inl t ↦ rw t (
              subst
                (λ m. PostCount c.post_id m (
                  lower orm c.post_id (lower orm c.post_id db.posts (pos 1)) (pos counted_replies)))
                (-ℤ_assoc k 1 counted_replies)
                (PostCount-lower orm c.post_id _ (k -ℤ pos 1) (pos counted_replies) one))
          | inr f ↦
              let zero_replies : counted_replies ≡ 0 = ground arith in
              rw f (
                subst (λ m. PostCount c.post_id m (lower orm c.post_id db.posts (pos 1)))
                  (ap (λ (m : ℕ). k -ℤ pos (1 + m)) (sym zero_replies)) one)
        ])
    where
      one : PostCount c.post_id (k -ℤ pos 1) (lower orm c.post_id db.posts (pos 1))
      one = PostCount-lower orm c.post_id db.posts k (pos 1) h

  deleted-IsWellFormed : IsWellFormed deleted
  deleted-IsWellFormed = record {
    comment_ids = place_ids c.parent_id;
    likes_table = wf.likes_table;
    likes_exist = place_exist c.parent_id;
    likes_counted = place_counted c.parent_id;
    replies_counted =
        RepliesCounted-soft_delete orm now id db.comments wf.comment_ids found wf.replies_counted;
    two_levels = place_levels c.parent_id;
  }
    where
      ids : HasUniqueIds (λ (x : Comment). x.id) removed
      ids = HasUniqueIds-update orm _ db.comments _ (soft_delete now) (λ x. refl) wf.comment_ids

      place_ids :
          (o : Option ℕ)
          → HasUniqueIds (λ (x : Comment). x.id) (on_parent orm (drop_replies (pos 1)) o removed)
      place_ids none = ids
      place_ids (some p) = HasUniqueIds-update orm _ _ _ (drop_replies (pos 1)) (λ x. refl) ids

      exist : LikesExist db.likes removed
      exist =
          LikesExist-update orm _ _ (soft_delete-KeepsPlace now) db.comments db.likes wf.likes_exist

      place_exist :
          (o : Option ℕ) → LikesExist db.likes (on_parent orm (drop_replies (pos 1)) o removed)
      place_exist none = exist
      place_exist (some p) =
          LikesExist-update orm _ _ (drop_replies-KeepsPlace (pos 1)) removed db.likes exist

      counted : LikesCounted db.likes removed
      counted =
          LikesCounted-update orm _ _ (soft_delete-KeepsPlace now) db.comments db.likes (λ x. refl)
            wf.likes_counted

      place_counted :
          (o : Option ℕ) → LikesCounted db.likes (on_parent orm (drop_replies (pos 1)) o removed)
      place_counted none = counted
      place_counted (some p) =
          LikesCounted-update orm _ _ (drop_replies-KeepsPlace (pos 1)) removed db.likes (λ x. refl)
            counted

      levels : HasTwoLevels removed
      levels = HasTwoLevels-update orm _ _ (soft_delete-KeepsPlace now) db.comments wf.two_levels

      place_levels : (o : Option ℕ) → HasTwoLevels (on_parent orm (drop_replies (pos 1)) o removed)
      place_levels none = levels
      place_levels (some p) =
          HasTwoLevels-update orm _ _ (drop_replies-KeepsPlace (pos 1)) removed levels

  -- The number that `getCommentCount` answers goes down by one.
  deleted-count : get_comment_count orm c.post_id deleted + 1 ≡ get_comment_count orm c.post_id db
  unfolding get_comment_count
  deleted-count = omega (
    arith,
    orm.count_lem of_post deleted.comments,
    orm.count_lem of_post db.comments,
    parent_same c.parent_id,
    count_if-soft_delete orm now id db.comments wf.comment_ids found (λ x. x.post_id == c.post_id),
    ap bit (==_true c.post_id c.post_id refl),
  )
    where
      of_post : Comment → Bool
      of_post x = x.post_id == c.post_id && is_live x

      parent_same :
          (o : Option ℕ)
          → count_if
              (λ x. x.post_id == c.post_id && is_live x)
              (on_parent orm (drop_replies (pos 1)) o removed)
            ≡ count_if (λ x. x.post_id == c.post_id && is_live x) removed
      parent_same none = refl
      parent_same (some p) = count_if-update_same orm _ _ (drop_replies (pos 1)) removed (λ x. refl)

  -- On well-formed tables, the author's `delete` of a live comment succeeds and keeps the invariant.
  -- The number of comments that `getCommentCount` answers for the post goes down by 1, while the
  -- counter that the post itself carries, whatever it is, goes down by 1 and by the number of replies
  -- that are not deleted, which stay in the table.
  pub delete_lem :
      (k : ℤ)
      → c.user_id ≡ user_id
      → PostCount c.post_id k db.posts
      → (db' : Db) × (delete orm now id user_id db ≡ done tt db')
        × IsWellFormed db'
        × (get_comment_count orm c.post_id db' + 1 ≡ get_comment_count orm c.post_id db)
        × PostCount c.post_id (k -ℤ pos (1 + counted_replies)) db'.posts
  delete_lem k own h =
      (deleted, delete-eq own, deleted-IsWellFormed, deleted-count, posts_after-PostCount k h)

pub delete-IsWellFormed :
    (orm : Orm) (now id user_id : ℕ) (db : Db)
    → IsWellFormed db
    → IsWellFormed (state_of (delete orm now id user_id db))
delete-IsWellFormed orm now id user_id db wf =
    elim (Bool-cases (is_own user_id (found_at orm id user_id db))) [
      | inl own ↦
          let (c, found, by) = is_own-some user_id _ own in
          subst (λ o. IsWellFormed (state_of o)) (sym (delete-eq orm now id user_id db wf found by))
            (deleted-IsWellFormed orm now id user_id db wf found)
      | inr other ↦
          subst (λ o. IsWellFormed (state_of o))
            (sym (update_delete_refused orm id user_id db now "" other).1) wf
    ]
