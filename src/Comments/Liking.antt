-- ===== src/Comments/Liking.antt =====
-- `like` keeps the invariant, and what it answers is what the tables then say.
use native.Mathlib.Bridge.{le_prop}
use rideway_api.Prelude.{
  ℕ, ◌≤◌, ◌≡◌, refl, Bool, true, ◌&&◌, Option, none, some, List, ◌==◌, ℤ, pos, arith, is_some, not,
  count_if,
}
use rideway_api.Database.{Orm}
use rideway_api.Database.Rows.{
  count_if-find_one, HasUniqueIds-update, Every-insert, Every-delete, count_if-update_same,
}
use rideway_api.Database.Toggles.{
  IsToggleTable-insert, IsToggleTable-delete, is_some-insert, is_some-delete, tally_of-insert,
  tally_of-delete,
}
use rideway_api.Database.Tallies.{Tallied-up, Tallied-down, Tallied-found}
use rideway_api.Action.{state_of, done, raised, not_found}
use rideway_api.Comments.{
  Comment, CommentLike, Db, is_like_of, is_live, toggle_like, add_likes, drop_likes,
  read_likes_count, like, find_one,
}
use rideway_api.Comments.Invariant.{
  IsWellFormed, likes_of, KeepsPlace, RepliesCounted-update, HasTwoLevels-update, LikesExist-update,
}

add_likes-KeepsPlace : (n : ℤ) → KeepsPlace (add_likes n)
add_likes-KeepsPlace n = record { id = λ c. refl; parent_id = λ c. refl }

drop_likes-KeepsPlace : (n : ℤ) → KeepsPlace (drop_likes n)
drop_likes-KeepsPlace n = record { id = λ c. refl; parent_id = λ c. refl }

module _ (orm : Orm) (new_id comment_id user_id : ℕ) (db : Db) (wf : IsWellFormed db) where
  unlike-IsWellFormed :
      {l : CommentLike}
      → orm.find_one (is_like_of comment_id user_id) db.likes ≡ some l
      → IsWellFormed (state_of (toggle_like orm new_id comment_id user_id (some l) db))
  unfolding toggle_like
  unlike-IsWellFormed {l} found = record {
    comment_ids =
        HasUniqueIds-update orm _ db.comments _ (drop_likes (pos 1)) (λ c. refl) wf.comment_ids;
    likes_table = IsToggleTable-delete _ _ _ orm db.likes wf.likes_table comment_id user_id found;
    likes_exist =
        LikesExist-update orm _ (drop_likes (pos 1)) (drop_likes-KeepsPlace _) db.comments _
          (Every-delete orm _ db.likes wf.likes_exist);
    likes_counted =
        Tallied-down orm (λ (c : Comment). c.id) (λ c. c.likes_count) db.comments
          (λ k. likes_of k db.likes) (drop_likes (pos 1)) (λ c. refl)
          (λ k. likes_of k (orm.delete (λ x. x.id == l.id) db.likes)) comment_id (λ c. refl)
          (tally_of-delete _ _ _ orm db.likes wf.likes_table comment_id user_id found)
          wf.likes_counted;
    replies_counted =
        RepliesCounted-update orm _ (drop_likes (pos 1)) (drop_likes-KeepsPlace _) db.comments
          (λ c. refl) (λ c. refl) wf.replies_counted;
    two_levels =
        HasTwoLevels-update orm _ (drop_likes (pos 1)) (drop_likes-KeepsPlace _) db.comments
          wf.two_levels;
  }

  new_like-IsWellFormed :
      count_if (λ (l : CommentLike). l.id == new_id) db.likes ≡ 0
      → 1 ≤ count_if (λ (c : Comment). c.id == comment_id) db.comments
      → orm.find_one (is_like_of comment_id user_id) db.likes ≡ none
      → IsWellFormed (state_of (toggle_like orm new_id comment_id user_id none db))
  unfolding toggle_like
  new_like-IsWellFormed fresh target missing =
      let l : CommentLike = record { id = new_id; user_id = user_id; comment_id = comment_id } in
      record {
        comment_ids =
            HasUniqueIds-update orm _ db.comments _ (add_likes (pos 1)) (λ c. refl) wf.comment_ids;
        likes_table =
            IsToggleTable-insert _ _ _ orm db.likes wf.likes_table comment_id user_id l refl refl
              fresh missing;
        likes_exist =
            LikesExist-update orm _ (add_likes (pos 1)) (add_likes-KeepsPlace _) db.comments _
              (Every-insert orm l db.likes (λ x. le_prop) target wf.likes_exist);
        likes_counted =
            Tallied-up orm (λ (c : Comment). c.id) (λ c. c.likes_count) db.comments
              (λ k. likes_of k db.likes) (add_likes (pos 1)) (λ c. refl)
              (λ k. likes_of k (orm.insert l db.likes)) comment_id (λ c. refl)
              (tally_of-insert _ _ _ orm db.likes wf.likes_table comment_id user_id l refl refl
                fresh missing)
              wf.likes_counted;
        replies_counted =
            RepliesCounted-update orm _ (add_likes (pos 1)) (add_likes-KeepsPlace _) db.comments
              (λ c. refl) (λ c. refl) wf.replies_counted;
        two_levels =
            HasTwoLevels-update orm _ (add_likes (pos 1)) (add_likes-KeepsPlace _) db.comments
              wf.two_levels;
      }

-- The row that `like` reads back at its end.
abbrev is_live_at : ℕ → Comment → Bool
is_live_at id c = c.id == id && is_live c

module _ (orm : Orm) (id : ℕ) (db : Db) where
  read_likes_count-eq :
      IsWellFormed db
      → 1 ≤ count_if (is_live_at id) db.comments
      → read_likes_count orm id db ≡ pos (likes_of id db.likes)
  read_likes_count-eq wf there =
      let (c, found, reads) =
        Tallied-found orm (λ (c : Comment). c.id) (λ c. c.likes_count) db.comments
          (λ k. likes_of k db.likes) (is_live_at id) id is_live_at-eq there wf.likes_counted in
      rw found reads
    where
      is_live_at-eq : (c : Comment) → is_live_at id c ≡ true → c.id ≡ id
      is_live_at-eq c h = ground arith

-- Whether the user likes the comment.
abbrev pub has_like : Orm → (comment_id user_id : ℕ) → List CommentLike → Bool
has_like orm comment_id user_id likes = is_some (orm.find_one (is_like_of comment_id user_id) likes)

module _ (orm : Orm) (new_id comment_id user_id : ℕ) (db : Db) where
  abbrev liked : Option CommentLike → Db
  liked existing = state_of (toggle_like orm new_id comment_id user_id existing db)

  -- What a call of `like` on a live comment comes to, given the like that it found.
  toggle_like_lem :
      {c : Comment}
      → IsWellFormed db
      → count_if (λ (l : CommentLike). l.id == new_id) db.likes ≡ 0
      → orm.find_one (is_live_at comment_id) db.comments ≡ some c
      → (existing : Option CommentLike)
      → orm.find_one (is_like_of comment_id user_id) db.likes ≡ existing
      → IsWellFormed (liked existing)
        × (has_like orm comment_id user_id (liked existing).likes ≡ not (is_some existing))
        × (read_likes_count orm comment_id (liked existing)
            ≡ pos (likes_of comment_id (liked existing).likes))
  unfolding toggle_like
  toggle_like_lem {c} wf fresh found none missing =
      let here : is_live_at comment_id c ≡ true = (orm.find_one-some _ db.comments found).1 in
      let wf' : IsWellFormed (liked none) =
        new_like-IsWellFormed orm new_id comment_id user_id db wf fresh
          (count_if-find_one orm _ (λ x. x.id == comment_id) db.comments found (ground arith))
          missing in
      (
        wf',
        is_some-insert _ _ _ orm db.likes wf.likes_table comment_id user_id
            (record { id = new_id; user_id = user_id; comment_id = comment_id }) refl refl fresh
            missing,
        read_likes_count-eq orm comment_id (liked none) wf' (
            omega (
              arith,
              count_if-update_same orm (is_live_at comment_id) (λ x. x.id == comment_id)
                  (add_likes (pos 1)) db.comments (λ x. refl),
              count_if-find_one orm _ (is_live_at comment_id) db.comments found here,
            )),
      )
  toggle_like_lem {c} wf fresh found (some l) had =
      let here : is_live_at comment_id c ≡ true = (orm.find_one-some _ db.comments found).1 in
      let wf' : IsWellFormed (liked (some l)) =
        unlike-IsWellFormed orm new_id comment_id user_id db wf had in
      (
        wf',
        is_some-delete _ _ _ orm db.likes wf.likes_table comment_id user_id had,
        read_likes_count-eq orm comment_id (liked (some l)) wf' (
            omega (
              arith,
              count_if-update_same orm (is_live_at comment_id) (λ x. x.id == comment_id)
                  (drop_likes (pos 1)) db.comments (λ x. refl),
              count_if-find_one orm _ (is_live_at comment_id) db.comments found here,
            )),
      )

  toggle_like-done :
      (existing : Option CommentLike)
      → toggle_like orm new_id comment_id user_id existing db
        ≡ done
            (record {
              is_liked = not (is_some existing);
              likes_count = read_likes_count orm comment_id (liked existing);
            })
            (liked existing)
  unfolding toggle_like
  toggle_like-done none = refl
  toggle_like-done (some l) = refl

  like-eq-toggle_like :
      {c : Comment}
      → orm.find_one (is_live_at comment_id) db.comments ≡ some c
      → like orm new_id comment_id user_id db
        ≡ toggle_like orm new_id comment_id user_id
            (orm.find_one (is_like_of comment_id user_id) db.likes)
            db
  unfolding like find_one
  like-eq-toggle_like found = ground (arith, found)

  -- A missing or deleted comment cannot be liked.
  pub like_refused :
      orm.find_one (is_live_at comment_id) db.comments ≡ none
      → like orm new_id comment_id user_id db ≡ raised (not_found "Comment not found") db
  unfolding like find_one
  like_refused missing = ground (arith, missing)

  -- On a live comment of well-formed tables, with a new id for the like, `like` succeeds. It
  -- answers whether the user likes the comment afterwards, which is the opposite of before, and the
  -- number of likes that the table of likes then holds for the comment; the tables stay
  -- well-formed.
  pub like_lem :
      {c : Comment}
      → IsWellFormed db
      → count_if (λ (l : CommentLike). l.id == new_id) db.likes ≡ 0
      → orm.find_one (is_live_at comment_id) db.comments ≡ some c
      → (db' : Db) × (like orm new_id comment_id user_id db
          ≡ done
              (record {
                is_liked = has_like orm comment_id user_id db'.likes;
                likes_count = pos (likes_of comment_id db'.likes);
              })
              db')
        × (has_like orm comment_id user_id db'.likes
            ≡ not (has_like orm comment_id user_id db.likes))
        × IsWellFormed db'
  like_lem wf fresh found =
      let existing : Option CommentLike = orm.find_one (is_like_of comment_id user_id) db.likes in
      let (wf', has, reads) = toggle_like_lem wf fresh found existing refl in
      (
        liked existing,
        cc (like-eq-toggle_like found, toggle_like-done existing, has, reads),
        has,
        wf',
      )
