-- ===== src/Comments/Creating.antt =====
-- The tables that `create` writes: they are well-formed again.
use mathlib.Core.Path.{subst}
use native.Mathlib.Nat.{ℕ_set}
use rideway_api.Prelude.{
  ℕ, ◌≤◌, ◌≡◌, refl, sym, ap, ◌∙◌, inl, inr, true, false, ◌&&◌, Option, none, some, List, ◌==◌,
  ==_true, eq_of_==, is_id, is_none, pos, ℤ_set, arith, Bool-cases, bit, count_if, count_if_mono,
  count_if-pos_of_mem,
}
use rideway_api.Database.{Orm, Every, HasUniqueIds}
use rideway_api.Database.Rows.{
  count_if-insert, count_if-update_same, HasUniqueIds-update, HasUniqueIds-insert, Every-insert,
  Every-update,
}
use rideway_api.Comments.{Comment, Db, is_live, add_replies, add_comments, on_parent}
use rideway_api.Comments.Invariant.{
  IsWellFormed, HasTwoLevels, LikesExist, LikesCounted, replies_of, HasTwoLevels-update,
  LikesExist-update, LikesCounted-update,
}
use rideway_api.Comments.Nesting.{
  IsFresh, IsRoot, HasRoot, add_replies-KeepsPlace, RepliesCounted-insert,
}

module _ (orm : Orm) (n : Comment) (db : Db) where
  -- The tables after the three writes of `create`.
  abbrev pub created : (parent_id : Option ℕ) → Db
  created parent_id = record db {
    comments = on_parent orm (add_replies (pos 1)) parent_id (orm.insert n db.comments);
    posts = orm.update (λ p. p.id == n.post_id) (add_comments (pos 1)) db.posts;
  }

module _ (orm : Orm) (n : Comment) (db : Db) (wf : IsWellFormed db) (fresh : IsFresh n.id db) where
  IsRoot-insert : (p : ℕ) → IsRoot p db.comments → IsRoot p (orm.insert n db.comments)
  IsRoot-insert p root = elim (Bool-cases (n.id == p)) [
    | inl same ↦ absurd (
        omega (
          arith,
          root,
          ap (λ (k : ℕ). count_if (λ (c : Comment). c.id == k) db.comments) (eq_of_== _ _ same),
          fresh.no_comment,
          count_if_mono (λ (r : Comment). is_none r.parent_id && r.id == p) (λ r. r.id == p)
              db.comments (λ r. ground arith),
        ))
    | inr other ↦ omega (
      arith,
      root,
      count_if-insert orm (λ (r : Comment). is_none r.parent_id && r.id == p) n db.comments,
      no_bit other,
    )
  ]
    where
      no_bit : (n.id == p) ≡ false → bit (is_none n.parent_id && n.id == p) ≡ 0
      no_bit h = ground arith

  HasTwoLevels-insert : HasRoot n.parent_id db.comments → HasTwoLevels (orm.insert n db.comments)
  HasTwoLevels-insert root =
      Every-insert orm n db.comments (λ x. hlevel ℕ_set)
        (λ p e. IsRoot-insert p (subst (λ o. HasRoot o db.comments) e root))
        (λ x m p e. IsRoot-insert p (wf.two_levels x m p e))

  LikesExist-insert : LikesExist db.likes (orm.insert n db.comments)
  LikesExist-insert l m = omega (
    arith,
    wf.likes_exist l m,
    count_if-insert orm (λ (c : Comment). c.id == l.comment_id) n db.comments,
  )

  pub created-IsWellFormed :
      is_live n ≡ true
      → n.likes_count ≡ pos 0
      → n.replies_count ≡ pos 0
      → (parent_id : Option ℕ) → n.parent_id ≡ parent_id
      → HasRoot parent_id db.comments
      → IsWellFormed (created orm n db parent_id)
  created-IsWellFormed live no_likes no_replies parent_id at root = record {
    comment_ids = place_ids parent_id;
    likes_table = wf.likes_table;
    likes_exist = place_exist parent_id;
    likes_counted = place_counted parent_id;
    replies_counted =
        RepliesCounted-insert orm n db.comments live parent_id at no_replies unanswered
          wf.replies_counted;
    two_levels = place_levels parent_id;
  }
    where
      inserted : List Comment
      inserted = orm.insert n db.comments

      unanswered : replies_of n.id db.comments ≡ 0
      unanswered = omega (
        arith,
        fresh.no_reply,
        count_if_mono (λ (c : Comment). is_id c.parent_id n.id && is_live c)
            (λ c. is_id c.parent_id n.id) db.comments (λ c. ground arith),
      )

      ids : HasUniqueIds (λ (c : Comment). c.id) (orm.insert n db.comments)
      ids = HasUniqueIds-insert orm _ db.comments n fresh.no_comment wf.comment_ids

      counted : LikesCounted db.likes (orm.insert n db.comments)
      counted =
          Every-insert orm n db.comments (λ x. ℤ_set _ _) (no_likes ∙ ap pos (sym fresh.no_like))
            wf.likes_counted

      levels : HasTwoLevels (orm.insert n db.comments)
      levels = HasTwoLevels-insert (subst (λ o. HasRoot o db.comments) (sym at) root)

      place_ids :
          (o : Option ℕ) → HasUniqueIds (λ (c : Comment). c.id) (created orm n db o).comments
      place_ids none = ids
      place_ids (some p) = HasUniqueIds-update orm _ _ _ (add_replies (pos 1)) (λ c. refl) ids

      place_exist : (o : Option ℕ) → LikesExist db.likes (created orm n db o).comments
      place_exist none = LikesExist-insert
      place_exist (some p) =
          LikesExist-update orm _ _ (add_replies-KeepsPlace (pos 1)) _ db.likes LikesExist-insert

      place_counted : (o : Option ℕ) → LikesCounted db.likes (created orm n db o).comments
      place_counted none = counted
      place_counted (some p) =
          LikesCounted-update orm _ _ (add_replies-KeepsPlace (pos 1)) _ db.likes (λ c. refl)
            counted

      place_levels : (o : Option ℕ) → HasTwoLevels (created orm n db o).comments
      place_levels none = levels
      place_levels (some p) = HasTwoLevels-update orm _ _ (add_replies-KeepsPlace (pos 1)) _ levels

  -- The row of the new comment, in the tables after the writes.
  abbrev pub IsOwnRow : Comment → Type 0
  IsOwnRow c =
      c.id ≡ n.id → (c.parent_id ≡ n.parent_id) × (c.user_id ≡ n.user_id) × (c.post_id ≡ n.post_id)

  IsOwnRow-prop : (c : Comment) → IsProp (IsOwnRow c)
  IsOwnRow-prop c = hlevel

  pub created-IsOwnRow :
      (parent_id : Option ℕ) → Every IsOwnRow (created orm n db parent_id).comments
  created-IsOwnRow parent_id = go parent_id
    where
      old : Every IsOwnRow (orm.insert n db.comments)
      old =
          Every-insert orm n db.comments IsOwnRow-prop (λ _. (refl, refl, refl))
            (λ c m e. absurd (
              omega (
                arith,
                fresh.no_comment,
                count_if-pos_of_mem (λ (x : Comment). x.id == n.id) db.comments m (==_true _ _ e),
              )))

      go : (o : Option ℕ) → Every IsOwnRow (created orm n db o).comments
      go none = old
      go (some p) =
          Every-update orm _ (add_replies (pos 1)) _ IsOwnRow-prop (λ c _ h. h) (λ c _ h. h) old

  pub created-there :
      is_live n ≡ true
      → (parent_id : Option ℕ)
      → 1
        ≤ count_if
            (λ (c : Comment). c.id == n.id && is_live c)
            (created orm n db parent_id).comments
  created-there live parent_id = go parent_id
    where
      self : bit (n.id == n.id && is_live n) ≡ 1
      self = ground (arith, live)

      old : 1 ≤ count_if (λ (c : Comment). c.id == n.id && is_live c) (orm.insert n db.comments)
      old = omega (
        arith,
        self,
        count_if-insert orm (λ (c : Comment). c.id == n.id && is_live c) n db.comments,
      )

      go :
          (o : Option ℕ)
          → 1 ≤ count_if (λ (c : Comment). c.id == n.id && is_live c) (created orm n db o).comments
      go none = old
      go (some p) =
          rw
            (count_if-update_same orm (λ (c : Comment). c.id == n.id && is_live c) (λ c. c.id == p)
              (add_replies (pos 1)) _ (λ c. refl))
            old
